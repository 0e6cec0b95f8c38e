-- ===== src/Store/RefreshTokens/Live.antt =====
-- How many usable tokens there are before and after a rotation.
use proxy_control_plane.Base.{
  suc, ◌+◌, Text, Bool, true, false, none, some, List, [], ◌∷◌, ◌++◌, ◌≡◌, refl, any, str_eq,
  str_eq_iff, if◌then◌else◌, arith, Bool-cases, inl, inr, Result, ok,
}
use proxy_control_plane.Domain.{Time, AuthRefreshToken}
use proxy_control_plane.Store.{Error, Db}
use proxy_control_plane.Store.Unique.{UniqueBy}
use proxy_control_plane.Store.RefreshTokens.{
  find_by_id, update_where, count_where, is_usable, revoked, inherit, rotate_auth_refresh_token,
}
use proxy_control_plane.Store.RefreshTokens.Rotation.{rotate_inversion, id_of_found}

count-append_one :
    (p : AuthRefreshToken → Bool) (ts : List AuthRefreshToken) (r : AuthRefreshToken)
    → count_where p (ts ++ r ∷ []) ≡ count_where p ts + (if p r then 1 else 0)
unfolding count_where
count-append_one p [] r = omega arith
count-append_one p (t ∷ ts) r = omega (arith, count-append_one p ts r)

module _ (id : Text) (f : AuthRefreshToken → AuthRefreshToken) where
  update-absent :
      (ts : List AuthRefreshToken)
      → any (λ t. str_eq t.id id) ts ≡ false
      → update_where (λ t. str_eq t.id id) f ts ≡ ts
  unfolding update_where
  update-absent [] h = refl
  update-absent (t ∷ ts) h = ground (arith, update-absent ts)

  -- Spending the one usable row under an id.
  count-spend :
      (ts : List AuthRefreshToken) (c : AuthRefreshToken)
      → UniqueBy (λ t. t.id) ts
      → find_by_id id ts ≡ some c
      → is_usable c ≡ true
      → ((t : AuthRefreshToken) → is_usable (f t) ≡ false)
      → suc (count_where is_usable (update_where (λ t. str_eq t.id id) f ts))
        ≡ count_where is_usable ts
  unfolding update_where count_where find_by_id
  count-spend [] c u there usable spent = cc
  count-spend (t ∷ ts) c (new, u) there usable spent = elim (Bool-cases (str_eq t.id id)) [
    | inl same ↦
        let own : t.id ≡ id = (str_eq_iff t.id id).0 same in
        let rest : update_where (λ t. str_eq t.id id) f ts ≡ ts =
          update-absent ts (rw own at new) in
        ground (arith, rest, spent t)
    | inr differs ↦ ground (arith, count-spend ts c u)
  ]

-- A successful rotation keeps the number of usable tokens, where the ids are distinct and the next
-- token comes without a revocation time: it spends one and adds one.
rotate_keeps_count :
    (now : Time) (new_id : Result Error Text) (id : Text) (given : AuthRefreshToken) (at : Time)
    (ip agent : Text) (db after : Db) (token : AuthRefreshToken)
    → UniqueBy (λ t. t.id) db.refresh_tokens
    → given.revoked_at ≡ none
    → rotate_auth_refresh_token now new_id id given at ip agent db ≡ (ok token, after)
    → count_where is_usable after.refresh_tokens ≡ count_where is_usable db.refresh_tokens
rotate_keeps_count now new_id id given at ip agent db after token unique fresh done =
    let r = rotate_inversion now new_id id given at ip agent db done in
    let f : AuthRefreshToken → AuthRefreshToken =
      λ t. record (revoked now at ip agent t) { replaced_by_id = r.next_id } in
    let own : r.current.id ≡ id = id_of_found id db.refresh_tokens r.current r.there in
    let spent : (t : AuthRefreshToken) → is_usable (f t) ≡ false =
      λ t. unfold is_usable revoked in refl in
    let usable : is_usable token ≡ true =
      unfold is_usable inherit in ground (arith, r.token_eq, fresh) in
    ground (
      arith,
      r.tokens_eq,
      count-append_one is_usable (update_where (λ t. str_eq t.id r.current.id) f db.refresh_tokens)
          token,
      count-spend r.current.id f db.refresh_tokens r.current unique (rw (← own) at r.there) r.usable
          spent,
      usable,
    )
