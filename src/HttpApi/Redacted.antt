-- ===== src/HttpApi/Redacted.antt =====
-- The token of a subscription path stays out of the log.
use proxy_control_plane.Base.{
  ℕ, Text, codes, false, ◌||◌, Option, none, some, [], ◌∷◌, ◌++◌, ◌≡◌, refl, ap, ◌∙◌, length, take,
  drop, str_eq, has_prefix, eqb, arith, Bool-cases, Option-cases, inl, inr,
}
use proxy_control_plane.HttpApi.{
  index_byte, question_mark, redacted_path, redact_parts, redact_log_path,
}

-- A query, if there is one, with the question mark before it.
unfoldable pub raw_query : Option Text → Text
raw_query none = []
raw_query (some q) = question_mark ∷ q

index_step :
    (x c : ℕ) (s : Text) → index_byte (x ∷ s) c ≡ none → (eqb x c ≡ false) × (index_byte s c ≡ none)
unfolding index_byte
index_step x c s h = elim (Bool-cases (eqb x c)) [
  | inl e ↦ ground (arith, e)
  | inr e ↦ elim (Option-cases (index_byte s c)) [ inl f ↦ (e, f) | inr f ↦ ground (arith, e, f.1) ]
]

-- The first `c` after a text without one.
index_byte-append :
    (s rest : Text) (c : ℕ)
    → index_byte s c ≡ none
    → index_byte (s ++ (c ∷ rest)) c ≡ some (length s)
unfolding index_byte
index_byte-append [] rest c h = ground arith
index_byte-append (x ∷ s) rest c h =
    let split = index_step x c s h in rw (split.0, index_byte-append s rest c split.1) refl

take-length : (s rest : Text) → take (length s) (s ++ rest) ≡ s
take-length [] rest = refl
take-length (x ∷ s) rest = ap (λ t. x ∷ t) (take-length s rest)

drop-length : (s rest : Text) → drop (length s) (s ++ rest) ≡ rest
drop-length [] rest = refl
drop-length (x ∷ s) rest = drop-length s rest

append_nil : (s : Text) → s ++ [] ≡ s
append_nil [] = refl
append_nil (x ∷ s) = ap (λ t. x ∷ t) (append_nil s)

whole_lem :
    (path : Text)
    → index_byte path question_mark ≡ none
    → redact_log_path path ≡ redact_parts path []
unfolding redact_log_path
whole_lem path h = rw (redact_log_path, h) refl

split_lem :
    (path : Text) (query : Option Text)
    → index_byte path question_mark ≡ none
    → redact_log_path (path ++ raw_query query) ≡ redact_parts path (raw_query query)
unfolding redact_log_path raw_query
split_lem path none h = ap redact_log_path (append_nil path) ∙ whole_lem path h
split_lem path (some q) h =
    rw
      (
        redact_log_path,
        index_byte-append path q question_mark h,
        take-length path (question_mark ∷ q),
        drop-length path (question_mark ∷ q),
      )
      refl

under_sub :
    (token : Text)
    → index_byte token question_mark ≡ none
    → index_byte (codes "/sub/" ++ token) question_mark ≡ none
unfolding index_byte
under_sub token h = rw h refl

-- Where the token holds no question mark, the log of a subscription path shows a fixed text in its
-- place, and the query as it was.
pub redact_hides :
    (token : Text) (query : Option Text)
    → index_byte token question_mark ≡ none
    → redact_log_path ((codes "/sub/" ++ token) ++ raw_query query)
      ≡ redacted_path ++ raw_query query
unfolding str_eq
redact_hides token query h = split_lem (codes "/sub/" ++ token) query (under_sub token h)

other_lem :
    (path : Text)
    → has_prefix path (codes "/sub") ≡ false
    → (str_eq path (codes "/sub") || has_prefix path (codes "/sub/")) ≡ false
unfolding str_eq
other_lem [] h = refl
other_lem (a ∷ []) h = ground arith
other_lem (a ∷ b ∷ []) h = ground arith
other_lem (a ∷ b ∷ c ∷ []) h = ground arith
other_lem (a ∷ b ∷ c ∷ d ∷ []) h = ground arith
other_lem (a ∷ b ∷ c ∷ d ∷ e ∷ rest) h = ground arith

-- A path without a question mark that does not begin with "/sub" is logged as it is, with its query.
pub redact_keeps :
    (path : Text) (query : Option Text)
    → index_byte path question_mark ≡ none
    → has_prefix path (codes "/sub") ≡ false
    → redact_log_path (path ++ raw_query query) ≡ path ++ raw_query query
redact_keeps path query h other = split_lem path query h ∙ (rw (other_lem path other) refl)
