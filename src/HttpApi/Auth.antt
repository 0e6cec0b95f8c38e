-- ===== src/HttpApi/Auth.antt =====
-- The authentication of internal/httpapi/server.go: the two logins, the refresh, the logout, and the
-- middleware requireRole. `none` for a body is JSON that does not bind. A panic becomes status 500 with
-- no body, by gin.Recovery.
mod Tests
pub mod Tokens
pub mod Steps
pub mod Once
pub mod Login
pub mod Session
use proxy_control_plane.Base.{
  ℕ, Text, codes, Bool, true, false, not, ◌&&◌, ◌||◌, Option, none, some, List, [], ◌∷◌, ◌++◌,
  length, drop, str_eq, has_prefix, trim_space, if◌then◌else◌, Result, ok, err, ltb, is_some,
}
use proxy_control_plane.Domain.{Time, Customer, AuthRefreshToken, customer_status_is_active}
use proxy_control_plane.Store.{Error, not_found, conflict, invalid, other, Db, Exec}
use proxy_control_plane.Store.Customers.{get_customer, get_customer_by_email}
use proxy_control_plane.Store.RefreshTokens.{
  get_auth_refresh_token_by_hash, rotate_auth_refresh_token, revoke_auth_refresh_token_by_hash,
}
use proxy_control_plane.Config.{Config, refresh_token_ttl}
use proxy_control_plane.Security.AccessToken.{
  AccessClaims, actor, principal_type_admin, principal_type_customer,
  principal_subject_configured_admin, verify_access_token, add_time,
}
use proxy_control_plane.Security.Password.{verify_password}
use proxy_control_plane.Security.Ids.{token_digest}
use proxy_control_plane.HttpApi.Action.{
  Failure, Action, reply, write_error, continue, ◌>>=◌, ◌>>◌, require, store_failure, call, settle,
  unless_found, Services, Request, audit, client_ip,
}
use Tokens.{
  AuthPrincipal, or_other, AuthResponse, issue_auth_tokens, auth_response, auth_subject,
  admin_session_version, customer_session_version, fresh_token,
}

pub record LoginRequest : Type 0 where
  pub email : Text
  pub password : Text

abbrev pub bind_json : {A : Type 0} → Option A → Action A
bind_json none = write_error 400 (codes "invalid json body")
bind_json (some a) = reply a

-- The value of a call that may panic.
abbrev pub recovered : {A : Type 0} → Option A → Action A
recovered none = write_error 500 []
recovered (some a) = reply a

abbrev pub with_status : ℕ → Text → Error → Failure
with_status status message e = record { status = status; message = message }

abbrev pub bad_credentials : Text
bad_credentials = codes "invalid credentials"

abbrev pub bad_refresh : Text
bad_refresh = codes "invalid refresh token"

-- The password is not looked at where the e-mail is another.
unfoldable pub admin_matches : Services → LoginRequest → Option Bool
admin_matches srv given =
    if not (str_eq given.email srv.cfg.admin_email)
    then some false
    else verify_password srv.hmac given.password srv.cfg.admin_password

unfoldable pub login : Services → Request → Option LoginRequest → Action AuthResponse
login srv req body = do
  given ← bind_json body
  good ← recovered (admin_matches srv given)
  require good 401 bad_credentials
  resp ←
      call (with_status 500 (codes "could not create auth tokens"))
        (issue_auth_tokens srv req principal_type_admin [] given.email (admin_session_version srv))
  audit req (principal_type_admin ++ (b':' ∷ given.email)) (codes "auth.admin_login") given.email
  reply resp

unfoldable pub customer_can_login : Customer → Time → Bool
customer_can_login customer now =
    customer_status_is_active customer.status
    && elim customer.expires_at [ none ↦ true | some at ↦ ltb now at ]

unfoldable pub customer_matches : Services → Customer → LoginRequest → Option Bool
customer_matches srv customer given =
    if str_eq customer.password_hash []
    then some false
    else verify_password srv.hmac given.password customer.password_hash

-- The end of `customerLogin`.
unfoldable pub admit_customer : Services → Request → Customer → Action AuthResponse
admit_customer srv req customer = do
  resp ← call (with_status 500 (codes "could not create auth tokens")) (
      issue_auth_tokens srv req principal_type_customer customer.id customer.email
        (customer_session_version srv customer))
  audit req (principal_type_customer ++ (b':' ∷ customer.id)) (codes "auth.customer_login")
      customer.id
  reply resp

-- The part of `customerLogin` after the customer has been found.
unfoldable pub login_customer : Services → Request → LoginRequest → Customer → Action AuthResponse
login_customer srv req given customer = do
  require (customer_can_login customer req.now) 401 bad_credentials
  good ← recovered (customer_matches srv customer given)
  require good 401 bad_credentials
  admit_customer srv req customer

unfoldable pub customer_login : Services → Request → Option LoginRequest → Action AuthResponse
customer_login srv req body = do
  given ← bind_json body
  customer ← call (unless_found 401 bad_credentials) (get_customer_by_email given.email)
  login_customer srv req given customer

unfoldable pub admin_principal : Services → AuthRefreshToken → Action AuthPrincipal
admin_principal srv token = do
  require
      (str_eq token.subject principal_subject_configured_admin
        && str_eq token.session_version (admin_session_version srv))
      401 bad_refresh
  reply (record {
    kind = principal_type_admin;
    email = srv.cfg.admin_email;
    customer_id = [];
    session_version = token.session_version;
  })

unfoldable pub customer_principal :
    Services → Request → AuthRefreshToken → Option Text → Action AuthPrincipal
customer_principal srv req token none = write_error 401 bad_refresh
customer_principal srv req token (some customer_id) = do
  require (str_eq token.subject customer_id) 401 bad_refresh
  customer ← call (unless_found 401 bad_refresh) (get_customer customer_id)
  require (customer_can_login customer req.now && not (str_eq customer.password_hash [])) 401
      bad_refresh
  require (str_eq token.session_version (customer_session_version srv customer)) 401 bad_refresh
  reply (record {
    kind = principal_type_customer;
    email = customer.email;
    customer_id = customer.id;
    session_version = customer_session_version srv customer;
  })

unfoldable pub refresh_usable : AuthRefreshToken → Time → Bool
refresh_usable token now =
    token.enabled && (not (is_some token.revoked_at) && ltb now token.expires_at)

-- The `switch` over the type of the principal.
unfoldable pub switch_principal : Services → Request → AuthRefreshToken → Action AuthPrincipal
switch_principal srv req token =
    if str_eq token.principal_type principal_type_admin
    then admin_principal srv token
    else if str_eq token.principal_type principal_type_customer
    then customer_principal srv req token token.customer_id
    else write_error 401 bad_refresh

unfoldable pub refresh_principal : Services → Request → AuthRefreshToken → Action AuthPrincipal
refresh_principal srv req token = do
  require (refresh_usable token req.now) 401 bad_refresh
  switch_principal srv req token

-- `ErrInvalid` of the rotation is a token that was used in between.
unfoldable pub rotation_failure : Error → Failure
rotation_failure invalid = record { status = 401; message = bad_refresh }
rotation_failure not_found = store_failure not_found
rotation_failure conflict = store_failure conflict
rotation_failure (other text) = store_failure (other text)

abbrev pub random_token : Request → Text → Action Text
random_token req message db = (settle (with_status 500 message) (or_other req.random), db)

unfoldable pub reply_rotated :
    Services → Request → AuthPrincipal → Text → AuthRefreshToken → Action AuthResponse
reply_rotated srv req principal raw next =
    call (with_status 500 (codes "could not create access token")) (
      auth_response srv req principal.kind principal.customer_id principal.email raw
        next.expires_at)

abbrev pub rotate_call :
    Services → Request → AuthRefreshToken → AuthPrincipal → Text → Action AuthRefreshToken
rotate_call srv req current principal raw = call rotation_failure (
    rotate_auth_refresh_token req.now req.new_id current.id
      (fresh_token srv req principal.kind principal.customer_id principal.session_version raw)
      req.now (client_ip req) req.user_agent)

-- The parts of `refreshAuth`: from the random token, from the principal, and from the token's row.
unfoldable pub rotate_with :
    Services → Request → AuthRefreshToken → AuthPrincipal → Text → Action AuthResponse
rotate_with srv req current principal raw = do
  next ← rotate_call srv req current principal raw
  reply_rotated srv req principal raw next

unfoldable pub rotate_found :
    Services → Request → AuthRefreshToken → AuthPrincipal → Action AuthResponse
rotate_found srv req current principal = do
  raw ← random_token req (codes "could not create refresh token")
  rotate_with srv req current principal raw

unfoldable pub refresh_found : Services → Request → AuthRefreshToken → Action AuthResponse
refresh_found srv req current = do
  principal ← refresh_principal srv req current
  rotate_found srv req current principal

unfoldable pub refresh_with : Services → Request → Text → Action AuthResponse
refresh_with srv req raw = do
  current ←
      call (unless_found 401 bad_refresh)
        (get_auth_refresh_token_by_hash (token_digest srv.sha256 raw))
  refresh_found srv req current

-- The body is the field `refresh_token`.
unfoldable pub refresh_auth : Services → Request → Option Text → Action AuthResponse
refresh_auth srv req body = do
  given ← bind_json body
  require (not (str_eq (trim_space given) [])) 400 (codes "refresh_token is required")
  refresh_with srv req (trim_space given)

unfoldable pub logout_auth : Services → Request → Option Text → Action (Unit {0})
logout_auth srv req body = do
  given ← bind_json body
  require (not (str_eq (trim_space given) [])) 400 (codes "refresh_token is required")
  call store_failure (
      revoke_auth_refresh_token_by_hash req.now (token_digest srv.sha256 (trim_space given)) req.now
        (client_ip req) req.user_agent)

abbrev pub bearer : Text
bearer = codes "Bearer "

abbrev pub verified : Option AccessClaims → Action AccessClaims
verified none = write_error 401 (codes "invalid bearer token")
verified (some claims) = reply claims

-- The claims that the middleware sets for the handlers behind it.
unfoldable pub require_role : Services → Request → Text → Action AccessClaims
require_role srv req role = do
  require (has_prefix req.authorization bearer) 401 (codes "missing bearer token")
  claims ← verified (
      verify_access_token srv.hmac srv.json (trim_space (drop (length bearer) req.authorization))
        srv.cfg.secret_key req.now)
  require (str_eq claims.role role) 403 (codes "forbidden")
  reply claims

-- `requireRole` before a handler, which reads the claims and the actor.
abbrev pub guarded : {A : Type 0} → Services → Request → Text → (AccessClaims → Action A) → Action A
guarded srv req role handler = require_role srv req role >>= handler
