-- ===== src/Security/AccessToken/Laws.antt =====
-- A token that was created is accepted, and only tokens with a signature are.
use mathlib.Core.List.{append_assoc}
use proxy_control_plane.Base.{
  Text, true, false, some, List, [], ◌∷◌, ◌++◌, ◌≡◌, refl, sym, ap, ◌∙◌, str_eq, str_eq_iff,
  str_eq_refl, ◌⊎◌, split, split_three, join_at, join-split, ok, ℤ, arith, Bool-cases, Option-cases,
  inl, inr, ltb_ℤ,
}
use proxy_control_plane.Domain.{Time}
use proxy_control_plane.Security.RawUrl.{raw_url_encode, raw_url_decode}
use proxy_control_plane.Security.RawUrl.Laws.{
  IsBytes, raw_url_decode-encode, raw_url_encode-IsUrlByte, Lacks-dot,
}
use proxy_control_plane.Security.AccessToken.{
  principal_type_admin, principal_type_customer, principal_subject_configured_admin, AccessClaims,
  ClaimsJson, IsAscii, IsClaimsJson, unix, add_time, supported_role, header_json, signing_input,
  signed, issued, create_access_token, accepted_claims, check_claims, check_payload,
  check_signature, verify_parts, verify_access_token,
}

header-IsBytes : IsBytes header_json
header-IsBytes = omega arith

-- The configured admin, or a customer.
abbrev pub IsPrincipal : AccessClaims → Type 0
IsPrincipal c =
    ((c.role ≡ principal_type_admin) × (c.subject ≡ principal_subject_configured_admin))
    ⊎ ((c.role ≡ principal_type_customer) × (str_eq c.subject [] ≡ false))

supported-IsPrincipal :
    (c : AccessClaims) → supported_role c ≡ true → str_eq c.subject [] ≡ false → IsPrincipal c
unfolding supported_role
supported-IsPrincipal c h s = elim (Bool-cases (str_eq c.role principal_type_admin)) [
  | inl e ↦ inl (
    (str_eq_iff c.role principal_type_admin).0 e,
    (str_eq_iff c.subject principal_subject_configured_admin).0 (ground arith),
  )
  | inr e ↦ inr ((str_eq_iff c.role principal_type_customer).0 (ground arith), s)
]

-- What both functions test of the role and the subject.
abbrev Passes : AccessClaims → Type 0
Passes c =
    (supported_role c ≡ true)
    × (str_eq c.subject [] ≡ false)
    × (str_eq c.role [] ≡ false)
    × IsAscii c.role

IsPrincipal-Passes : (c : AccessClaims) → IsPrincipal c → Passes c
unfolding supported_role str_eq
IsPrincipal-Passes c (inl (r, s)) = rw (r, s) (refl, refl, refl, omega arith)
IsPrincipal-Passes c (inr (r, s)) = rw (r, s) (refl, refl, refl, omega arith)

module _ (hmac : Text → Text → Text) (json : ClaimsJson) (secret_key : Text) where
  own_signature :
      (input payload : Text) (now : Time)
      → check_signature hmac json secret_key input payload now (some (hmac secret_key input))
        ≡ check_payload json now (raw_url_decode payload)
  unfolding check_signature
  own_signature input payload now = rw (str_eq_refl (hmac secret_key input)) refl

  verify-signed :
      (payload : Text) (now : Time)
      → ((k d : Text) → IsBytes (hmac k d))
      → IsBytes payload
      → verify_access_token hmac json
          (signed hmac secret_key (signing_input payload))
          secret_key
          now
        ≡ check_payload json now (some payload)
  unfolding verify_access_token verify_parts signed signing_input
  verify-signed payload now mac_bytes bytes =
      let h = raw_url_encode header_json in
      let p = raw_url_encode payload in
      let mac = hmac secret_key (h ++ (b'.' ∷ p)) in
      let parts : split b'.' ((h ++ (b'.' ∷ p)) ++ (b'.' ∷ raw_url_encode mac))
          ≡ h ∷ p ∷ raw_url_encode mac ∷ [] =
        ap (split b'.') (append_assoc h (b'.' ∷ p) (b'.' ∷ raw_url_encode mac))
        ∙ split_three b'.' h p (raw_url_encode mac)
            (Lacks-dot h (raw_url_encode-IsUrlByte header_json header-IsBytes))
            (Lacks-dot p (raw_url_encode-IsUrlByte payload bytes))
            (Lacks-dot (raw_url_encode mac)
              (raw_url_encode-IsUrlByte mac (mac_bytes secret_key (h ++ (b'.' ∷ p))))) in
      ap (verify_parts hmac json secret_key now) parts
      ∙ ap (check_signature hmac json secret_key (h ++ (b'.' ∷ p)) p now)
          (raw_url_decode-encode mac (mac_bytes secret_key (h ++ (b'.' ∷ p))))
      ∙ own_signature (h ++ (b'.' ∷ p)) p now
      ∙ ap (check_payload json now) (raw_url_decode-encode payload bytes)

  create_lem :
      (claims : AccessClaims) (ttl : ℤ) (now : Time)
      → IsPrincipal claims
      → create_access_token hmac json claims secret_key ttl now
        ≡ ok (signed hmac secret_key (signing_input (json.marshal (issued claims now ttl))))
  unfolding create_access_token supported_role
  create_lem claims ttl now who = let p = IsPrincipal-Passes claims who in ground (arith, p)

  accepts_lem :
      (claims : AccessClaims) (ttl : ℤ) (now later : Time)
      → IsPrincipal claims
      → ltb_ℤ (unix (add_time now ttl)) (unix later) ≡ false
      → accepted_claims (issued claims now ttl) later ≡ true
  unfolding accepted_claims issued supported_role
  accepts_lem claims ttl now later who live =
      let p = IsPrincipal-Passes claims who in ground (arith, p)

  read_lem :
      (claims : AccessClaims) (ttl : ℤ) (now later : Time)
      → IsClaimsJson json
      → IsPrincipal claims
      → IsAscii claims.subject
      → ltb_ℤ (unix (add_time now ttl)) (unix later) ≡ false
      → check_payload json later (some (json.marshal (issued claims now ttl)))
        ≡ some (issued claims now ttl)
  unfolding check_payload check_claims issued
  read_lem claims ttl now later codec who ascii live =
      rw
        (
          codec.unmarshal-marshal (issued claims now ttl) ascii (IsPrincipal-Passes claims who).3,
          accepts_lem claims ttl now later who live,
        )
        refl

-- A token for the configured admin or for a customer is created, and it is accepted under the same
-- key, with the claims and the times of its issue, until the second of its expiry has passed.
pub verify-create :
    (hmac : Text → Text → Text) (json : ClaimsJson) (secret_key : Text) (claims : AccessClaims)
    (ttl : ℤ) (now later : Time)
    → ((k d : Text) → IsBytes (hmac k d))
    → IsClaimsJson json
    → IsPrincipal claims
    → IsAscii claims.subject
    → ltb_ℤ (unix (add_time now ttl)) (unix later) ≡ false
    → (token : Text) × (create_access_token hmac json claims secret_key ttl now ≡ ok token)
      × (verify_access_token hmac json token secret_key later ≡ some (issued claims now ttl))
verify-create hmac json secret_key claims ttl now later mac_bytes codec who ascii live =
    let c = issued claims now ttl in
    let payload = json.marshal c in
    (
      signed hmac secret_key (signing_input payload),
      create_lem hmac json secret_key claims ttl now who,
      verify-signed hmac json secret_key payload later mac_bytes (codec.bytes c)
          ∙ read_lem hmac json secret_key claims ttl now later codec who ascii live,
    )

-- What an accepted token is made of.
pub record IsGenuine (hmac : Text → Text → Text) (json : ClaimsJson) (token secret_key : Text)
    (now : Time) (claims : AccessClaims) : Type 0 where
  pub header : Text
  pub payload : Text
  pub signature : Text
  pub bytes : Text
  pub token_eq : token ≡ header ++ (b'.' ∷ (payload ++ (b'.' ∷ signature)))
  pub mac_eq : raw_url_decode signature ≡ some (hmac secret_key (header ++ (b'.' ∷ payload)))
  pub bytes_eq : raw_url_decode payload ≡ some bytes
  pub claims_eq : json.unmarshal bytes ≡ some claims
  pub who : IsPrincipal claims
  pub live : ltb_ℤ claims.expires_at (unix now) ≡ false

module _ (hmac : Text → Text → Text) (json : ClaimsJson) (secret_key token : Text) (now : Time)
    {claims : AccessClaims} where
  IsGenuine-parts :
      (parts : List Text)
      → join_at b'.' parts ≡ token
      → verify_parts hmac json secret_key now parts ≡ some claims
      → IsGenuine hmac json token secret_key now claims
  unfolding verify_parts check_signature check_payload check_claims accepted_claims
  IsGenuine-parts [] e h = absurd (cc)
  IsGenuine-parts (p ∷ []) e h = absurd (cc)
  IsGenuine-parts (p ∷ q ∷ []) e h = absurd (cc)
  IsGenuine-parts (p ∷ q ∷ r ∷ []) e h = elim (Option-cases (raw_url_decode r)) [
    | inl d ↦ absurd (ground arith)
    | inr (mac, d) ↦ elim (Option-cases (raw_url_decode q)) [
      | inl f ↦ absurd (ground arith)
      | inr (bytes, f) ↦ elim (Option-cases (json.unmarshal bytes)) [
        | inl g ↦ absurd (ground arith)
        | inr (c, g) ↦
            let m : str_eq mac (hmac secret_key (p ++ (b'.' ∷ q))) ≡ true = ground arith in
            let same : c ≡ claims = ground arith in
            let ok : accepted_claims claims now ≡ true = ground arith in
            record {
              header = p;
              payload = q;
              signature = r;
              bytes = bytes;
              token_eq = sym e;
              mac_eq = d ∙ ap some ((str_eq_iff mac (hmac secret_key (p ++ (b'.' ∷ q)))).0 m);
              bytes_eq = f;
              claims_eq = g ∙ ap some same;
              who = supported-IsPrincipal claims (ground arith) (ground arith);
              live = ground arith;
            }
      ]
    ]
  ]
  IsGenuine-parts (p ∷ q ∷ r ∷ t ∷ rest) e h = absurd (cc)

-- A token that is accepted has three parts; the last is the signature, under the key, of the first
-- two; the second holds the claims; these name the configured admin or a customer, and the second of
-- their expiry has not passed.
pub verify_sound :
    (hmac : Text → Text → Text) (json : ClaimsJson) (secret_key token : Text) (now : Time)
    (claims : AccessClaims)
    → verify_access_token hmac json token secret_key now ≡ some claims
    → IsGenuine hmac json token secret_key now claims
unfolding verify_access_token
verify_sound hmac json secret_key token now claims h =
    IsGenuine-parts hmac json secret_key token now (split b'.' token) (join-split b'.' token) h
