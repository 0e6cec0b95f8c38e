-- ===== src/Store/RefreshTokens/Tests.antt =====
-- Runs of the operations on refresh tokens.
use proxy_control_plane.Base.{
  inl, ◌≢◌, codes, true, false, none, some, List, [], ◌∷◌, ◌≡◌, refl, str_eq, Result, ok, err,
}
use proxy_control_plane.Domain.{AuthRefreshToken}
use proxy_control_plane.Store.{Error, invalid, Db, found, id_or_new}
use proxy_control_plane.Store.Samples.{token_db, sample_token}
use proxy_control_plane.Store.Unique.{UniqueBy}
use proxy_control_plane.Store.RefreshTokens.{
  insert_token, known_customer, required_to_rotate, is_usable, replace_checked, rotate_usable,
  valid_principal, find_by_id, update_where, write_where, revoked, inherit, rotate_tx,
  rotate_auth_refresh_token, revoke_customer_auth_refresh_tokens, of_customer, TokenOp, revoke,
  revoke_customer, run_token_ops,
}
use proxy_control_plane.Store.RefreshTokens.Once.{rotate_once}
use proxy_control_plane.Store.RefreshTokens.Table.{IsSound, run_token_ops-IsSound}
use proxy_control_plane.Store.RefreshTokens.Revoke.{revoke_customer_spares, revoke_customer_ends}

-- What a run computes with.
running : Unit {0}
unfolding found id_or_new insert_token known_customer required_to_rotate is_usable replace_checked
    rotate_usable valid_principal find_by_id update_where write_where revoked inherit rotate_tx
    rotate_auth_refresh_token of_customer str_eq
running = tt

abbrev next_token : AuthRefreshToken
next_token = record (sample_token "t3" "h3") {
  principal_type = [];
  subject = [];
  customer_id = none;
}

abbrev run : Result Error AuthRefreshToken × Db
run =
    rotate_auth_refresh_token 5 (err invalid) (codes "t1") next_token 5 (codes "ip") (codes "ua")
      token_db

abbrev rotated : AuthRefreshToken
rotated = sample_token "t3" "h3"

abbrev spent : AuthRefreshToken
spent = record (sample_token "t1" "h1") {
  enabled = false;
  updated_at = 5;
  last_used_at = some 5;
  last_used_ip = codes "ip";
  last_used_user_agent = codes "ua";
  revoked_at = some 5;
  replaced_by_id = codes "t3";
}

abbrev rotated_db : Db
rotated_db = record token_db { refresh_tokens = spent ∷ sample_token "t2" "h2" ∷ rotated ∷ [] }

run_result : run ≡ (ok rotated, rotated_db)
unfolding running
run_result = refl

abbrev ops : List TokenOp
ops = revoke 6 (codes "h3") 6 [] [] ∷ revoke_customer 7 (codes "c1") 7 [] [] ∷ []

rotate_once_example :
    rotate_auth_refresh_token 8
      (err invalid)
      (codes "t1")
      next_token
      8
      []
      []
      (run_token_ops ops rotated_db)
    ≡ (err invalid, run_token_ops ops rotated_db)
rotate_once_example =
    rotate_once 5 (err invalid) (codes "t1") next_token 5 (codes "ip") (codes "ua") token_db
      rotated_db rotated ops 8 (err invalid) next_token 8 [] [] run_result

unique_ids : UniqueBy (λ t. t.id) token_db.refresh_tokens
unfolding running
unique_ids = (refl, (refl, tt))

token_db-IsSound : IsSound token_db
unfolding running
token_db-IsSound = record {
  principals = (refl, (refl, tt));
  ids = (refl, (refl, tt));
  hashes = (refl, (refl, tt));
}

run_token_ops-IsSound_example : IsSound (run_token_ops ops token_db)
run_token_ops-IsSound_example = run_token_ops-IsSound ops token_db token_db-IsSound

kind_is_customer : str_eq (codes "customer") (codes "customer") ≡ true
unfolding running
kind_is_customer = refl

there : find_by_id (codes "t2") token_db.refresh_tokens ≡ some (sample_token "t2" "h2")
unfolding running
there = refl

revoke_customer_ends_example :
    rotate_auth_refresh_token 8
      (err invalid)
      (codes "t2")
      next_token
      8
      []
      []
      (run_token_ops ops (revoke_customer_auth_refresh_tokens 6 (codes "c1") 6 [] [] token_db).1)
    ≡ (
      err invalid,
      run_token_ops ops (revoke_customer_auth_refresh_tokens 6 (codes "c1") 6 [] [] token_db).1,
    )
revoke_customer_ends_example =
    revoke_customer_ends 6 (codes "c1") 6 [] [] token_db (codes "t2") (sample_token "t2" "h2") ops 8
      (err invalid) next_token 8 [] [] kind_is_customer refl there

not_owner : some (codes "c1") ≢ some (codes "c9")
not_owner h = cc

revoke_customer_spares_example :
    find_by_id
      (codes "t2")
      (revoke_customer_auth_refresh_tokens 6 (codes "c9") 6 [] [] token_db).1.refresh_tokens
    ≡ some (sample_token "t2" "h2")
revoke_customer_spares_example =
    revoke_customer_spares 6 (codes "c9") 6 [] [] token_db (codes "t2") (sample_token "t2" "h2")
      there (inl not_owner)
