-- ===== src/Store/RefreshTokens/Spent.antt =====
-- The token under a hash stays revoked, whatever token operations follow.
use proxy_control_plane.Base.{
  Text, Bool, true, some, List, ◌≡◌, refl, if◌then◌else◌, arith, is_some, Result, ok, str_eq,
  str_eq_refl,
}
use proxy_control_plane.Domain.{Time, AuthRefreshToken}
use proxy_control_plane.Store.{Error, Db, stamp}
use proxy_control_plane.Store.RefreshTokens.{
  insert_token, find_by_hash, update_where, revoked, rotate_auth_refresh_token, TokenOp,
  run_token_ops,
}
use proxy_control_plane.Store.RefreshTokens.Rotation.{
  find_by_hash-append, find_by_hash-update, id_of_found, rotate_inversion,
}
use proxy_control_plane.Store.RefreshTokens.Kept.{IsRevoking, run_token_ops_keeps}

pub record IsSpentHash (hash : Text) (db : Db) : Type 0 where
  pub row : AuthRefreshToken
  pub there : find_by_hash hash db.refresh_tokens ≡ some row
  pub gone : is_some row.revoked_at ≡ true

module _ (hash : Text) where
  insert_keeps :
      (now : Time) (t : AuthRefreshToken) (db : Db)
      → IsSpentHash hash db
      → IsSpentHash hash (insert_token now t db).1
  unfolding insert_token
  insert_keeps now t db s =
      let row : AuthRefreshToken = record t {
        created_at = stamp now t.created_at;
        updated_at = stamp now t.updated_at;
      } in
      record {
        row = s.row;
        there = ground (arith, find_by_hash-append hash db.refresh_tokens row s.row s.there);
        gone = s.gone;
      }

  pub update_keeps :
      (p : AuthRefreshToken → Bool) (f : AuthRefreshToken → AuthRefreshToken) (db : Db)
      → IsRevoking f
      → IsSpentHash hash db
      → IsSpentHash hash (record db { refresh_tokens = update_where p f db.refresh_tokens })
  update_keeps p f db revokes s = record {
    row = if p s.row then f s.row else s.row;
    there = rw (find_by_hash-update hash p f db.refresh_tokens (λ t. (revokes t).1), s.there);
    gone = ground (arith, (revokes s.row).2, s.gone);
  }

  pub run_token_ops-IsSpentHash :
      (ops : List TokenOp) (db : Db) → IsSpentHash hash db → IsSpentHash hash (run_token_ops ops db)
  run_token_ops-IsSpentHash = run_token_ops_keeps (IsSpentHash hash) insert_keeps update_keeps

  -- A rotation of the token that is found under the hash.
  pub rotate-IsSpentHash :
      (now : Time) (new_id : Result Error Text) (current next : AuthRefreshToken) (at : Time)
      (ip agent : Text) (db after : Db) (token : AuthRefreshToken)
      → find_by_hash hash db.refresh_tokens ≡ some current
      → rotate_auth_refresh_token now new_id current.id next at ip agent db ≡ (ok token, after)
      → IsSpentHash hash after
  unfolding revoked
  rotate-IsSpentHash now new_id current next at ip agent db after token found h =
      let r = rotate_inversion now new_id current.id next at ip agent db h in
      let f : AuthRefreshToken → AuthRefreshToken =
        λ t. record (revoked now at ip agent t) { replaced_by_id = r.next_id } in
      let own : r.current.id ≡ current.id =
        id_of_found current.id db.refresh_tokens r.current r.there in
      record {
        row = f current;
        there = rw r.tokens_eq (
            find_by_hash-append hash _ token (f current) (
              rw (
                find_by_hash-update hash (λ t. str_eq t.id r.current.id) f db.refresh_tokens
                    (λ t. refl),
                found,
                own,
                str_eq_refl current.id,
              )));
        gone = refl;
      }
