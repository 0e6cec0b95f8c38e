-- ===== src/Store/Tokens/Rotate.antt =====
-- What a rotation does to the lookups of subscription tokens.
use proxy_control_plane.Base.{
  Text, false, Option, none, some, List, [], ◌∷◌, ◌≡◌, refl, any, str_eq, str_eq_iff, str_eq_refl,
  if◌then◌else◌, arith, Bool-cases, inl, inr, ok,
}
use proxy_control_plane.Domain.{Time, SubscriptionToken}
use proxy_control_plane.Store.{Db, found}
use proxy_control_plane.Store.Unique.{UniqueBy}
use proxy_control_plane.Store.Tokens.{
  find_token, find_token_by_hash, get_subscription_token, update_token, hash_taken, rehashed,
  rotate_subscription_token,
}

-- A lookup that must not answer with the row under an id.
unfoldable pub unless_id : Text → Option SubscriptionToken → Option SubscriptionToken
unless_id id none = none
unless_id id (some t) = if str_eq t.id id then none else some t

module _ (now : Time) (id token_hash encrypted_token : Text) where
  absent_hash :
      (h : Text) (ts : List SubscriptionToken)
      → str_eq h token_hash ≡ false
      → any (λ t. str_eq t.token_hash h) ts ≡ false
      → find_token_by_hash h (update_token id (rehashed now token_hash encrypted_token) ts) ≡ none
  unfolding find_token_by_hash update_token rehashed
  absent_hash h [] other none_has = refl
  absent_hash h (t ∷ ts) other none_has =
      ground (arith, absent_hash h ts other, str_eq_iff h token_hash, str_eq_iff token_hash h)

  find-other_hash :
      (h : Text) (ts : List SubscriptionToken)
      → str_eq h token_hash ≡ false
      → UniqueBy (λ t. t.token_hash) ts
      → find_token_by_hash h (update_token id (rehashed now token_hash encrypted_token) ts)
        ≡ unless_id id (find_token_by_hash h ts)
  unfolding find_token_by_hash update_token rehashed unless_id
  find-other_hash h [] other u = refl
  find-other_hash h (t ∷ ts) other (new, u) = elim (Bool-cases (str_eq t.token_hash h)) [
    | inl same ↦
        let own : t.token_hash ≡ h = (str_eq_iff t.token_hash h).0 same in
        let gone = absent_hash h ts other (rw own at new) in
        ground (arith, gone, str_eq_iff h token_hash, str_eq_iff token_hash h)
    | inr differs ↦
        ground
          (arith, find-other_hash h ts other u, str_eq_iff h token_hash, str_eq_iff token_hash h)
  ]

  find-new_hash :
      (ts : List SubscriptionToken)
      → hash_taken id token_hash ts ≡ false
      → find_token_by_hash token_hash (update_token id (rehashed now token_hash encrypted_token) ts)
        ≡ find_token id (update_token id (rehashed now token_hash encrypted_token) ts)
  unfolding find_token_by_hash find_token update_token rehashed hash_taken
  find-new_hash [] free = refl
  find-new_hash (t ∷ ts) free = ground (arith, find-new_hash ts, str_eq_refl token_hash)

  module _ (db after : Db) (token : SubscriptionToken)
      (done : rotate_subscription_token now id token_hash encrypted_token db
        ≡ (ok token, after)) where
    -- After a rotation of a token that succeeds, the new hash is that of the token returned, and it
    -- answers to no other hash: each other hash finds what it found before, except the token itself.
    pub rotate_subscription_swaps :
        (other : Text)
        → UniqueBy (λ t. t.token_hash) db.subscription_tokens
        → str_eq other token_hash ≡ false
        → (find_token_by_hash token_hash after.subscription_tokens ≡ some token)
          × (find_token_by_hash other after.subscription_tokens
              ≡ unless_id id (find_token_by_hash other db.subscription_tokens))
    unfolding rotate_subscription_token get_subscription_token found
    rotate_subscription_swaps other unique differs = ground (
      arith,
      find-new_hash db.subscription_tokens,
      find-other_hash other db.subscription_tokens differs unique,
    )
