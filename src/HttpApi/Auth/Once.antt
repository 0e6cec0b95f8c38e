-- ===== src/HttpApi/Auth/Once.antt =====
-- A refresh spends the token that it is given.
use proxy_control_plane.Base.{
  ℕ, Text, codes, Option, none, some, ◌≡◌, refl, ap, sym, ◌∙◌, arith, inl, inr, Result, ok, err,
  Bool-cases, List, [], trim_space, str_eq, pos,
}
use proxy_control_plane.Domain.{AuthRefreshToken}
use proxy_control_plane.Store
use proxy_control_plane.Store.{Error, Db, found}
use proxy_control_plane.Store.Customers.{get_customer}
use proxy_control_plane.Security.AccessToken.{create_access_token}
use proxy_control_plane.Config.{access_token_ttl}
use proxy_control_plane.Store.RefreshTokens.{
  get_auth_refresh_token_by_hash, find_by_hash, TokenOp, run_token_ops,
}
use proxy_control_plane.Store.RefreshTokens.Spent.{
  IsSpentHash, run_token_ops-IsSpentHash, rotate-IsSpentHash,
}
use proxy_control_plane.Security.Ids.{token_digest}
use proxy_control_plane.HttpApi.Action.{Services, Request, call, unless_found, client_ip}
use proxy_control_plane.HttpApi.Auth.Steps.{
  >>=-eq-ok, settle-eq-ok, found-eq-ok, Reads, >>=-Reads, require-Reads,
}
use proxy_control_plane.HttpApi.Auth.{
  reply_rotated, rotate_call, rotate_with, refresh_found, admin_principal, customer_principal,
  switch_principal, bad_refresh, refresh_usable, refresh_principal, rotation_failure, random_token,
  rotate_found, refresh_with, refresh_auth,
}
use proxy_control_plane.HttpApi.Auth.Tokens.{
  AuthPrincipal, AuthResponse, or_other, auth_response, auth_subject, response,
}

pub spent_refused :
    (srv : Services) (req : Request) (raw : Text) (db : Db)
    → IsSpentHash (token_digest srv.sha256 raw) db
    → refresh_with srv req raw db ≡ (err (record { status = 401; message = bad_refresh }), db)
unfolding refresh_with refresh_found get_auth_refresh_token_by_hash found refresh_principal
    refresh_usable
spent_refused srv req raw db s = ground (arith, s.there, s.gone)

module _ (srv : Services) (req : Request) where
  auth_response_reads :
      (kind customer_id email raw : Text) (at : ℕ) (db : Db)
      → (auth_response srv req kind customer_id email raw at db).1 ≡ db
  unfolding auth_response
  auth_response_reads kind customer_id email raw at db = read (
      or_other (
        create_access_token srv.hmac srv.json
          (record {
            subject = auth_subject kind customer_id;
            role = kind;
            issued_at = pos 0;
            expires_at = pos 0;
          })
          srv.cfg.secret_key (access_token_ttl srv.cfg) req.now))
    where
      read :
          (r : Result Error Text)
          → (Store.continue (λ a. Store.pure (response srv kind customer_id email raw at a)) r db).1
            ≡ db
      read (ok a) = refl
      read (err e) = refl

  admin_principal-Reads : (token : AuthRefreshToken) → Reads (admin_principal srv token)
  unfolding admin_principal
  admin_principal-Reads token = >>=-Reads _ _ (require-Reads _ 401 bad_refresh) (λ u db. refl)

  customer_principal-Reads :
      (token : AuthRefreshToken) (id : Option Text) → Reads (customer_principal srv req token id)
  unfolding customer_principal get_customer found
  customer_principal-Reads token none db = refl
  customer_principal-Reads token (some id) db = ground arith

  switch_principal-Reads : (token : AuthRefreshToken) → Reads (switch_principal srv req token)
  unfolding switch_principal
  switch_principal-Reads token db =
      ground
        (arith, admin_principal-Reads token db, customer_principal-Reads token token.customer_id db)

  pub refresh_principal-Reads : (token : AuthRefreshToken) → Reads (refresh_principal srv req token)
  unfolding refresh_principal
  refresh_principal-Reads token =
      >>=-Reads _ _ (require-Reads _ 401 bad_refresh) (λ u. switch_principal-Reads token)

  rotate_with-IsSpentHash :
      (hash raw : Text) (current : AuthRefreshToken) (principal : AuthPrincipal) (db after : Db)
      {resp : AuthResponse}
      → find_by_hash hash db.refresh_tokens ≡ some current
      → rotate_with srv req current principal raw db ≡ (ok resp, after)
      → IsSpentHash hash after
  unfolding rotate_with reply_rotated
  rotate_with-IsSpentHash hash raw current principal db after there h =
      let (token, e, h2) =
        >>=-eq-ok (rotate_call srv req current principal raw) (reply_rotated srv req principal raw)
          db after h in
      let same : (rotate_call srv req current principal raw db).1 ≡ after =
        sym (
          auth_response_reads principal.kind principal.customer_id principal.email raw
            token.expires_at _)
        ∙ ap (λ p. p.1) h2 in
      let rotated = settle-eq-ok rotation_failure _ e in
      rotate-IsSpentHash hash req.now req.new_id current _ req.now (client_ip req) req.user_agent db
        after token there (λ i. (rotated i, same i))

  refresh_with-IsSpentHash :
      (raw : Text) (db after : Db) {resp : AuthResponse}
      → refresh_with srv req raw db ≡ (ok resp, after)
      → IsSpentHash (token_digest srv.sha256 raw) after
  unfolding refresh_with refresh_found rotate_found get_auth_refresh_token_by_hash
  refresh_with-IsSpentHash raw db after h =
      let hash = token_digest srv.sha256 raw in
      let (current, e, h1) =
        >>=-eq-ok (call (unless_found 401 bad_refresh) (get_auth_refresh_token_by_hash hash))
          (refresh_found srv req) db after h in
      let there =
        found-eq-ok (find_by_hash hash db.refresh_tokens)
          (settle-eq-ok (unless_found 401 bad_refresh) _ e) in
      let (principal, _, h2) =
        >>=-eq-ok (refresh_principal srv req current) (rotate_found srv req current) db after h1 in
      let reads = refresh_principal-Reads current db in
      let (next, _, h3) =
        >>=-eq-ok (random_token req (codes "could not create refresh token"))
          (rotate_with srv req current principal) _ after h2 in
      rotate_with-IsSpentHash hash next current principal (refresh_principal srv req current db).1
        after (rw reads there) h3

-- After a refresh that was answered with new tokens, whatever operations on refresh tokens follow, a
-- request with the old refresh token is answered with 401 and changes nothing.
pub refresh_once :
    (srv : Services) (req later : Request) (given : Text) (db after : Db) (resp : AuthResponse)
    (ops : List TokenOp)
    → refresh_auth srv req (some given) db ≡ (ok resp, after)
    → refresh_auth srv later (some given) (run_token_ops ops after)
      ≡ (err (record { status = 401; message = bad_refresh }), run_token_ops ops after)
unfolding refresh_auth
refresh_once srv req later given db after resp ops h =
    elim (Bool-cases (str_eq (trim_space given) [])) [
      | inl e ↦ absurd (ground (arith, e))
      | inr e ↦
          let own : refresh_with srv req (trim_space given) db ≡ (ok resp, after) =
            ground (arith, e) in
          rw e (
            spent_refused srv later (trim_space given) (run_token_ops ops after) (
              run_token_ops-IsSpentHash (token_digest srv.sha256 (trim_space given)) ops after
                (refresh_with-IsSpentHash srv req (trim_space given) db after own)))
    ]
