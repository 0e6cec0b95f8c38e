-- ===== src/Store/RefreshTokens/Once.antt =====
-- A refresh token is used once: rotation spends it, and nothing brings it back.
use proxy_control_plane.Base.{
  Text, Bool, true, some, List, ◌≡◌, refl, str_eq, str_eq_refl, if◌then◌else◌, arith, Result, ok,
  err, is_some,
}
use proxy_control_plane.Domain.{Time, AuthRefreshToken}
use proxy_control_plane.Store.{Error, invalid, Db, found, stamp}
use proxy_control_plane.Store.RefreshTokens.{
  insert_token, is_usable, find_by_id, update_where, revoked, rotate_tx, rotate_auth_refresh_token,
  TokenOp, run_token_ops,
}
use proxy_control_plane.Store.RefreshTokens.Rotation.{
  find_by_id-append, find_by_id-update, id_of_found, rotate_inversion,
}
use proxy_control_plane.Store.RefreshTokens.Kept.{IsRevoking, run_token_ops_keeps}

-- The token under an id is there and revoked.
pub record IsSpent (id : Text) (db : Db) : Type 0 where
  pub row : AuthRefreshToken
  pub there : find_by_id id db.refresh_tokens ≡ some row
  pub revoked : is_some row.revoked_at ≡ true

module _ (id : Text) where
  insert_keeps :
      (now : Time) (t : AuthRefreshToken) (db : Db)
      → IsSpent id db
      → IsSpent id (insert_token now t db).1
  unfolding insert_token
  insert_keeps now t db s =
      let row : AuthRefreshToken = record t {
        created_at = stamp now t.created_at;
        updated_at = stamp now t.updated_at;
      } in
      record {
        row = s.row;
        there = ground (arith, find_by_id-append id db.refresh_tokens row s.row s.there);
        revoked = s.revoked;
      }

  update_keeps :
      (p : AuthRefreshToken → Bool) (f : AuthRefreshToken → AuthRefreshToken) (db : Db)
      → IsRevoking f
      → IsSpent id db
      → IsSpent id (record db { refresh_tokens = update_where p f db.refresh_tokens })
  update_keeps p f db revokes s = record {
    row = if p s.row then f s.row else s.row;
    there = rw (find_by_id-update id p f db.refresh_tokens (λ t. (revokes t).0), s.there);
    revoked = ground (arith, (revokes s.row).2, s.revoked);
  }

  pub run_token_ops-IsSpent :
      (ops : List TokenOp) (db : Db) → IsSpent id db → IsSpent id (run_token_ops ops db)
  run_token_ops-IsSpent = run_token_ops_keeps (IsSpent id) insert_keeps update_keeps

  pub spent_refused :
      (now : Time) (new_id : Result Error Text) (next : AuthRefreshToken) (at : Time)
      (ip agent : Text) (db : Db)
      → IsSpent id db
      → rotate_auth_refresh_token now new_id id next at ip agent db ≡ (err invalid, db)
  unfolding rotate_auth_refresh_token rotate_tx is_usable found
  spent_refused now new_id next at ip agent db s = ground (arith, s.there, s.revoked)

  rotate_spends :
      (now : Time) (new_id : Result Error Text) (next : AuthRefreshToken) (at : Time)
      (ip agent : Text) (db after : Db) (token : AuthRefreshToken)
      → rotate_auth_refresh_token now new_id id next at ip agent db ≡ (ok token, after)
      → IsSpent id after
  unfolding revoked
  rotate_spends now new_id next at ip agent db after token h =
      let r = rotate_inversion now new_id id next at ip agent db h in
      let f : AuthRefreshToken → AuthRefreshToken =
        λ t. record (revoked now at ip agent t) { replaced_by_id = r.next_id } in
      let own : r.current.id ≡ id = id_of_found id db.refresh_tokens r.current r.there in
      record {
        row = f r.current;
        there = rw r.tokens_eq (
            find_by_id-append id _ token (f r.current) (
              rw (
                find_by_id-update id (λ t. str_eq t.id r.current.id) f db.refresh_tokens
                    (λ t. refl),
                r.there,
                str_eq_refl r.current.id,
              )));
        revoked = refl;
      }

-- A refresh token is rotated once: whatever token operations follow a successful rotation, every
-- further rotation of the same token is refused as invalid and changes nothing.
pub rotate_once :
    (now : Time) (new_id : Result Error Text) (id : Text) (next : AuthRefreshToken) (at : Time)
    (ip agent : Text) (db after : Db) (token : AuthRefreshToken) (ops : List TokenOp) (later : Time)
    (other_id : Result Error Text) (other : AuthRefreshToken) (other_at : Time)
    (other_ip other_agent : Text)
    → rotate_auth_refresh_token now new_id id next at ip agent db ≡ (ok token, after)
    → rotate_auth_refresh_token later other_id id other other_at other_ip other_agent
        (run_token_ops ops after)
      ≡ (err invalid, run_token_ops ops after)
rotate_once now new_id id next at ip agent db after token ops later other_id other other_at other_ip
      other_agent h =
    spent_refused id later other_id other other_at other_ip other_agent (run_token_ops ops after) (
      run_token_ops-IsSpent id ops after
        (rotate_spends id now new_id next at ip agent db after token h))
