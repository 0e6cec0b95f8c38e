-- ===== src/Domain/Status.antt =====
-- The customer status: what the store keeps, and when a customer counts as active.
use proxy_control_plane.Base.{
  Text, ◌∷◌, ◌||◌, str_eq_refl, Bool-cases, inl, inr, ◌≡◌, refl, ◌≢◌, ap, ◌∙◌, [], arith, str_eq,
  str_eq_iff, to_lower, trim_space, trim_space_idem, to_lower_idem, trim_space-to_lower,
}
use proxy_control_plane.Domain.{
  normalize_customer_status, customer_status_or_default, customer_status_is_active,
  customer_status_active,
}

normalize_idem :
    (s : Text)
    → normalize_customer_status (normalize_customer_status s) ≡ normalize_customer_status s
unfolding normalize_customer_status
normalize_idem s =
    ap to_lower (trim_space-to_lower (trim_space s))
    ∙ to_lower_idem (trim_space (trim_space s))
    ∙ ap to_lower (trim_space_idem s)

normalize-active : normalize_customer_status customer_status_active ≡ customer_status_active
unfolding normalize_customer_status trim_space to_lower
normalize-active = refl

normalize_blank : (s : Text) → str_eq (normalize_customer_status s) [] ≡ str_eq (trim_space s) []
unfolding normalize_customer_status to_lower str_eq
normalize_blank s = go (trim_space s)
  where
    go : (t : Text) → str_eq (to_lower t) [] ≡ str_eq t []
    go [] = refl
    go (c ∷ t) = refl

-- The status that the store writes is in normal form and not empty, and writing it again changes
-- nothing.
pub status_or_default_canonical :
    (s : Text)
    → (normalize_customer_status (customer_status_or_default s) ≡ customer_status_or_default s)
      × (customer_status_or_default s ≢ [])
      × (customer_status_or_default (customer_status_or_default s) ≡ customer_status_or_default s)
unfolding customer_status_or_default
status_or_default_canonical s = elim (Bool-cases (str_eq (normalize_customer_status s) [])) [
  | inl e ↦ rw (e, normalize-active) (refl, λ p. cc, unfold str_eq in refl)
  | inr e ↦ rw (e, normalize_idem s) (refl, λ p. cc (e, str_eq_refl []), rw e)
]

-- The status that the store writes is active exactly when the given status is active or blank.
pub status_or_default_active :
    (s : Text)
    → customer_status_is_active (customer_status_or_default s)
      ≡ (customer_status_is_active s || str_eq (trim_space s) [])
unfolding customer_status_or_default customer_status_is_active
status_or_default_active s = elim (Bool-cases (str_eq (normalize_customer_status s) [])) [
  | inl e ↦
      rw (e, normalize-active, ← normalize_blank s, e)
        (rw ((str_eq_iff _ _).0 e) (unfold str_eq in refl))
  | inr e ↦ rw (e, normalize_idem s, ← normalize_blank s, e) (ground arith)
]
