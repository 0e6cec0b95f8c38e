-- ===== src/HttpApi/Auth/Tokens.antt =====
-- The tokens that a login or a refresh hands out: issueAuthTokens and authResponse of
-- internal/httpapi/server.go, over the store.
use proxy_control_plane.Base.{
  ◌/◌, ◌+◌, ◌-◌, Text, codes, true, Option, none, some, [], ◌∷◌, str_eq, if◌then◌else◌, Result, ok,
  err, ℤ, pos, negsuc, eqb,
}
use proxy_control_plane.Domain.{Time, Customer, AuthRefreshToken}
use proxy_control_plane.Store.{Error, other, Exec, pure, lift, ◌>>=◌}
use proxy_control_plane.Store.RefreshTokens.{create_auth_refresh_token}
use proxy_control_plane.Config.{access_token_ttl, refresh_token_ttl}
use proxy_control_plane.Security.AccessToken.{
  principal_type_admin, principal_subject_configured_admin, create_access_token, add_time,
}
use proxy_control_plane.Security.Ids.{token_digest, auth_session_version}
use proxy_control_plane.HttpApi.Action.{Services, Request, client_ip}

-- `session_version` is not part of the JSON.
pub record AuthPrincipal : Type 0 where
  pub kind : Text
  pub email : Text
  pub customer_id : Text
  pub session_version : Text

pub record AuthResponse : Type 0 where
  pub access_token : Text
  pub refresh_token : Text
  pub token_type : Text
  pub expires_in : ℤ
  pub refresh_token_expires_at : Time
  pub principal : AuthPrincipal

unfoldable pub auth_subject : Text → Text → Text
auth_subject principal_type customer_id =
    if str_eq principal_type principal_type_admin
    then principal_subject_configured_admin
    else customer_id

unfoldable pub admin_session_version : Services → Text
admin_session_version srv = auth_session_version srv.hmac srv.cfg.secret_key (
    codes "admin" ∷ srv.cfg.admin_email ∷ srv.cfg.admin_password ∷ srv.cfg.admin_session_epoch ∷ [])

unfoldable pub customer_session_version : Services → Customer → Text
customer_session_version srv customer = auth_session_version srv.hmac srv.cfg.secret_key (
    codes "customer"
    ∷ customer.id
    ∷ customer.email
    ∷ customer.password_hash
    ∷ customer.session_epoch
    ∷ [])

-- `int64(d.Seconds())`
unfoldable pub whole_seconds : ℤ → ℤ
whole_seconds (pos n) = pos (n / 1000000000)
whole_seconds (negsuc n) = let s = (n + 1) / 1000000000 in if eqb s 0 then pos 0 else negsuc (s - 1)

-- An error of CreateAccessToken by its text.
unfoldable pub or_other {ℓ} : {A : Type ℓ} → Result Text A → Result Error A
or_other (ok a) = ok a
or_other (err text) = err (other text)

unfoldable pub response : Services → Text → Text → Text → Text → Time → Text → AuthResponse
response srv principal_type customer_id email refresh_token expires_at access_token = record {
  access_token = access_token;
  refresh_token = refresh_token;
  token_type = codes "bearer";
  expires_in = whole_seconds (access_token_ttl srv.cfg);
  refresh_token_expires_at = expires_at;
  principal = record {
    kind = principal_type;
    email = email;
    customer_id = customer_id;
    session_version = [];
  };
}

unfoldable pub auth_response :
    Services → Request → Text → Text → Text → Text → Time → Exec AuthResponse
auth_response srv req principal_type customer_id email refresh_token expires_at = do
  access_token ← lift (
      or_other (
        create_access_token srv.hmac srv.json
          (record {
            subject = auth_subject principal_type customer_id;
            role = principal_type;
            issued_at = pos 0;
            expires_at = pos 0;
          })
          srv.cfg.secret_key (access_token_ttl srv.cfg) req.now))
  pure (response srv principal_type customer_id email refresh_token expires_at access_token)

abbrev pub some_unless_empty : Text → Option Text
some_unless_empty id = if str_eq id [] then none else some id

-- The row for a new refresh token, as both writers fill it in; the other columns are zero.
unfoldable pub fresh_token : Services → Request → Text → Text → Text → Text → AuthRefreshToken
fresh_token srv req principal_type customer_id session_version raw = record {
  id = [];
  principal_type = principal_type;
  customer_id = some_unless_empty customer_id;
  subject = auth_subject principal_type customer_id;
  session_version = session_version;
  token_hash = token_digest srv.sha256 raw;
  enabled = true;
  expires_at = add_time req.now (refresh_token_ttl srv.cfg);
  created_at = 0;
  updated_at = 0;
  last_used_at = none;
  last_used_ip = client_ip req;
  last_used_user_agent = req.user_agent;
  revoked_at = none;
  replaced_by_id = [];
}

unfoldable pub issue_auth_tokens :
    Services → Request → Text → Text → Text → Text → Exec AuthResponse
issue_auth_tokens srv req principal_type customer_id email session_version = do
  raw ← lift (or_other req.random)
  token ←
      create_auth_refresh_token req.now req.new_id
        (fresh_token srv req principal_type customer_id session_version raw)
  auth_response srv req principal_type customer_id email raw token.expires_at
