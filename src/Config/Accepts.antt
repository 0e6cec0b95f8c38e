-- ===== src/Config/Accepts.antt =====
-- Which configurations the server starts with.
use proxy_control_plane.Base.{
  ℕ, Text, codes, Bool, true, false, not, ◌&&◌, ◌||◌, none, List, [], ◌∷◌, ◌++◌, ◌≡◌, ◌∙◌, ◌↔◌,
  refl, length, str_eq, trim_space, equal_fold, is_nil, arith, Bool-cases, Result-cases, inl, inr,
  Result, ok, err, ℤ, pos, leb_ℤ, ltb_ℤ, leb, ltb, eqb,
}
use proxy_control_plane.Config.{
  Config, is_placeholder_secret, parse_database_encryption_key, problem, key_problems,
  sync_problems, server_problems, validate_server,
}

-- A secret that is no placeholder and has its length.
unfoldable pub strong_secret : ℕ → Text → Bool
strong_secret least secret = leb least (length secret) && not (is_placeholder_secret secret)

-- A key that decodes to 32 bytes.
unfoldable pub key_accepted : (Text → Result Text Text) → Text → Bool
key_accepted decode key =
    not (str_eq (trim_space key) [])
    && elim (decode (trim_space key)) [ err e ↦ false | ok k ↦ eqb (length k) 32 ]

unfoldable pub sync_accepted : Bool → ℤ → ℤ → ℤ → Bool
sync_accepted enabled interval timeout concurrency =
    not enabled || (ltb_ℤ (pos 0) interval && (ltb_ℤ (pos 0) timeout && ltb_ℤ (pos 0) concurrency))

unfoldable pub accepts : (Text → Result Text Text) → Config → Bool
accepts decode c =
    not (equal_fold (trim_space c.admin_email) (codes "admin@example.com"))
    && (strong_secret 12 c.admin_password
        && (strong_secret 32 c.secret_key
            && (key_accepted decode c.database_encryption_key
                && (ltb_ℤ (pos 0) c.access_token_expire_minutes
                    && (ltb_ℤ (pos 0) c.refresh_token_expire_hours
                        && (sync_accepted c.runtime_sync_enabled c.runtime_sync_interval
                              c.runtime_sync_timeout c.runtime_sync_concurrency
                            && (sync_accepted c.traffic_sync_enabled c.traffic_sync_interval
                                  c.traffic_sync_timeout c.traffic_sync_concurrency
                                && (not c.maintenance_cleanup_enabled
                                    || ltb_ℤ (pos 0) c.maintenance_cleanup_interval))))))))

is_nil-append : (ps qs : List Text) → is_nil (ps ++ qs) ≡ (is_nil ps && is_nil qs)
is_nil-append [] qs = refl
is_nil-append (p ∷ ps) qs = refl

nil_step :
    (failing : Bool) (text : Text) (rest : List Text)
    → is_nil (problem failing text ++ rest) ≡ (not failing && is_nil rest)
nil_step true text rest = refl
nil_step false text rest = refl

and_eq : {a b c d : Bool} → a ≡ c → b ≡ d → (a && b) ≡ (c && d)
and_eq p q = λ i. p i && q i

is_nil-problem : (failing : Bool) (text : Text) → is_nil (problem failing text) ≡ not failing
is_nil-problem true text = refl
is_nil-problem false text = refl

positive : (z : ℤ) → not (leb_ℤ z (pos 0)) ≡ ltb_ℤ (pos 0) z
positive z = ground arith

secret_lem :
    (least : ℕ) (s : Text)
    → not (is_placeholder_secret s || ltb (length s) least) ≡ strong_secret least s
unfolding strong_secret
secret_lem least s = ground arith

key_lem :
    (decode : Text → Result Text Text) (key : Text)
    → is_nil (key_problems decode key) ≡ key_accepted decode key
unfolding key_problems key_accepted parse_database_encryption_key
key_lem decode key = elim (Bool-cases (str_eq (trim_space key) [])) [
  | inl e ↦ rw e refl
  | inr e ↦ elim (Result-cases (decode (trim_space key))) [
    | inl (k, r) ↦ rw (e, r) (ground arith)
    | inr (x, r) ↦ rw (e, r) refl
  ]
]

sync_lem :
    (name : Text) (enabled : Bool) (interval timeout concurrency : ℤ)
    → is_nil (sync_problems name enabled interval timeout concurrency)
      ≡ sync_accepted enabled interval timeout concurrency
unfolding sync_problems sync_accepted
sync_lem name true interval timeout concurrency =
    nil_step (leb_ℤ interval (pos 0)) _ _
    ∙ and_eq (positive interval) (
        nil_step (leb_ℤ timeout (pos 0)) _ _
        ∙ and_eq (positive timeout)
            (is_nil-problem (leb_ℤ concurrency (pos 0)) _ ∙ positive concurrency))
sync_lem name false interval timeout concurrency = refl

cleanup_lem :
    (enabled : Bool) (interval : ℤ)
    → not (enabled && leb_ℤ interval (pos 0)) ≡ (not enabled || ltb_ℤ (pos 0) interval)
cleanup_lem true interval = positive interval
cleanup_lem false interval = refl

no_problems :
    (decode : Text → Result Text Text) (c : Config)
    → is_nil (server_problems decode c) ≡ accepts decode c
unfolding server_problems accepts
no_problems decode c =
    nil_step (equal_fold (trim_space c.admin_email) (codes "admin@example.com")) _ _
    ∙ and_eq refl (
        nil_step _ _ _
        ∙ and_eq (secret_lem 12 c.admin_password) (
            nil_step _ _ _
            ∙ and_eq (secret_lem 32 c.secret_key) (
                is_nil-append _ _
                ∙ and_eq (key_lem decode c.database_encryption_key) (
                    nil_step _ _ _
                    ∙ and_eq (positive c.access_token_expire_minutes) (
                        nil_step _ _ _
                        ∙ and_eq (positive c.refresh_token_expire_hours) (
                            is_nil-append _ _
                            ∙ and_eq
                                (sync_lem _ c.runtime_sync_enabled c.runtime_sync_interval
                                  c.runtime_sync_timeout c.runtime_sync_concurrency)
                                (is_nil-append _ _
                                  ∙ and_eq
                                      (sync_lem _ c.traffic_sync_enabled c.traffic_sync_interval
                                        c.traffic_sync_timeout c.traffic_sync_concurrency)
                                      (is_nil-problem _ _
                                        ∙ cleanup_lem c.maintenance_cleanup_enabled
                                            c.maintenance_cleanup_interval))))))))

-- The configuration is valid exactly if the admin's e-mail is not the example, the password and the
-- secret key are long enough and no placeholders, the encryption key decodes to 32 bytes, the token
-- lifetimes are positive, and so are the times and numbers of each task that is enabled.
pub validate_server_iff :
    (decode : Text → Result Text Text) (c : Config)
    → (validate_server decode c ≡ none) ↔ (accepts decode c ≡ true)
unfolding validate_server
validate_server_iff decode c =
    let same = no_problems decode c in (λ h. ground (arith, same), λ h. ground (arith, same))
