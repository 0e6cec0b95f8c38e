-- ===== src/Store/RefreshTokens/Kept.antt =====
-- What an INSERT and a revoking UPDATE keep, all token operations keep.
use proxy_control_plane.Base.{
  Text, Bool, true, false, Option, none, some, List, [], ◌∷◌, ◌≡◌, refl, str_eq, Bool-cases, inl,
  inr, Result, is_some,
}
use proxy_control_plane.Domain.{Time, AuthRefreshToken}
use proxy_control_plane.Store.{Error, invalid, Db, Exec, found, id_or_new, ◌>>◌, guard}
use proxy_control_plane.Store.Steps.{lift_keeps, settle_keeps}
use proxy_control_plane.Store.RefreshTokens.{
  create_auth_refresh_token, insert_token, required_to_create, required_to_rotate, is_usable,
  insert_checked, replace_checked, rotate_usable, valid_principal, find_by_id, find_by_hash,
  update_where, write_where, revoked, inherit, rotate_tx, rotate_auth_refresh_token, revoke_found,
  revoke_auth_refresh_token_by_hash, revoke_auth_refresh_tokens,
  revoke_customer_auth_refresh_tokens, revoke_admin_auth_refresh_tokens, TokenOp, create, rotate,
  revoke, revoke_customer, revoke_admin, run_token_op, run_token_ops,
}

-- An update that keeps the id and the hash, and revokes.
abbrev pub IsRevoking : (AuthRefreshToken → AuthRefreshToken) → Type 0
IsRevoking f =
    (t : AuthRefreshToken)
    → ((f t).id ≡ t.id) × ((f t).token_hash ≡ t.token_hash) × (is_some (f t).revoked_at ≡ true)

module _ (P : Db → Type 0)
    (insert_keeps : (now : Time) (t : AuthRefreshToken) (db : Db)
      → P db
      → P (insert_token now t db).1)
    (update_keeps : (p : AuthRefreshToken → Bool) (f : AuthRefreshToken → AuthRefreshToken)
        (db : Db)
      → IsRevoking f
      → P db
      → P (record db { refresh_tokens = update_where p f db.refresh_tokens })) where
  guard_keeps :
      {A : Type 0} (b : Bool) (e : Error) (rest : Exec A) (db : Db)
      → P db
      → P (rest db).1
      → P ((guard b e >> rest) db).1
  guard_keeps true e rest db s h = h
  guard_keeps false e rest db s h = s

  insert_checked_keeps :
      (now : Time) (t : AuthRefreshToken) (db : Db) → P db → P (insert_checked now t db).1
  unfolding insert_checked
  insert_checked_keeps now t db s =
      guard_keeps (required_to_create t) invalid
        (guard (valid_principal t) invalid >> insert_token now t) db s
        (guard_keeps (valid_principal t) invalid (insert_token now t) db s
          (insert_keeps now t db s))

  create_keeps :
      (now : Time) (new_id : Result Error Text) (t : AuthRefreshToken) (db : Db)
      → P db
      → P (create_auth_refresh_token now new_id t db).1
  unfolding create_auth_refresh_token
  create_keeps now new_id t db s =
      lift_keeps P (id_or_new t.id new_id)
        (λ k. insert_checked now (record t { id = k; enabled = true })) db s
        λ k. insert_checked_keeps now (record t { id = k; enabled = true }) db s

  module _ (now : Time) (at : Time) (ip agent : Text) where
    replace_checked_keeps :
        (current next : AuthRefreshToken) (db : Db)
        → P db
        → P (replace_checked now current next at ip agent db).1
    unfolding replace_checked write_where revoked
    replace_checked_keeps current next db s =
        let write : Exec AuthRefreshToken =
          write_where (λ t. str_eq t.id current.id)
            (λ t. record (revoked now at ip agent t) { replaced_by_id = next.id })
          >> insert_token now next in
        guard_keeps (required_to_rotate next) invalid
          (guard (valid_principal next) invalid >> write) db s
          (guard_keeps (valid_principal next) invalid write db s
            (insert_keeps now next _ (update_keeps _ _ db (λ t. (refl, refl, refl)) s)))

    rotate_usable_keeps :
        (new_id : Result Error Text) (current next : AuthRefreshToken) (db : Db)
        → P db
        → P (rotate_usable now new_id current next at ip agent db).1
    unfolding rotate_usable
    rotate_usable_keeps new_id current next db s =
        lift_keeps P (id_or_new next.id new_id)
          (λ k. replace_checked now current (inherit current k next) at ip agent) db s
          λ k. replace_checked_keeps current (inherit current k next) db s

    rotate_keeps :
        (new_id : Result Error Text) (current_id : Text) (next : AuthRefreshToken) (db : Db)
        → P db
        → P (rotate_auth_refresh_token now new_id current_id next at ip agent db).1
    unfolding rotate_auth_refresh_token rotate_tx
    rotate_keeps new_id current_id next db s = settle_keeps P db _ _ s (
        lift_keeps P (found (find_by_id current_id db.refresh_tokens))
          (λ current.
            guard (is_usable current) invalid >> rotate_usable now new_id current next at ip agent)
          db s
          λ current.
            guard_keeps (is_usable current) invalid
              (rotate_usable now new_id current next at ip agent) db s
              (rotate_usable_keeps new_id current next db s))

  revoke_keeps :
      (now : Time) (hash : Text) (at : Time) (ip agent : Text) (db : Db)
      → P db
      → P (revoke_auth_refresh_token_by_hash now hash at ip agent db).1
  unfolding revoke_auth_refresh_token_by_hash write_where revoked
  revoke_keeps now hash at ip agent db s =
      settle_keeps P db _ _ s (go (find_by_hash hash db.refresh_tokens))
    where
      go : (o : Option AuthRefreshToken) → P (revoke_found now at ip agent o db).1
      go none = s
      go (some t) = elim (Bool-cases (is_some t.revoked_at)) [
        | inl e ↦ rw e s
        | inr e ↦ rw e (update_keeps _ _ db (λ u. (refl, refl, refl)) s)
      ]

  run_token_op_keeps : (op : TokenOp) (db : Db) → P db → P (run_token_op op db)
  unfolding revoke_customer_auth_refresh_tokens revoke_admin_auth_refresh_tokens
      revoke_auth_refresh_tokens revoked
  run_token_op_keeps (create now new_id t) db s = create_keeps now new_id t db s
  run_token_op_keeps (rotate now new_id k next at ip agent) db s =
      rotate_keeps now at ip agent new_id k next db s
  run_token_op_keeps (revoke now hash at ip agent) db s = revoke_keeps now hash at ip agent db s
  run_token_op_keeps (revoke_customer now k at ip agent) db s =
      update_keeps _ _ db (λ t. (refl, refl, refl)) s
  run_token_op_keeps (revoke_admin now at ip agent) db s =
      update_keeps _ _ db (λ t. (refl, refl, refl)) s

  pub run_token_ops_keeps : (ops : List TokenOp) (db : Db) → P db → P (run_token_ops ops db)
  run_token_ops_keeps [] db s = s
  run_token_ops_keeps (op ∷ ops) db s =
      run_token_ops_keeps ops (run_token_op op db) (run_token_op_keeps op db s)
