-- ===== src/HttpApi/Customers/Tests.antt =====
-- A new display name keeps the sessions of a customer, and a new status ends them.
use proxy_control_plane.Base.{
  codes, true, none, some, [], ◌∷◌, ◌≡◌, refl, Result, ok, err, get, trim_space, trim_left,
  trim_right, is_space, str_eq, lower, to_lower,
}
use proxy_control_plane.Domain.{
  Customer, AuthRefreshToken, normalize_customer_status, customer_status_or_default,
}
use proxy_control_plane.Store.{Db, found}
use proxy_control_plane.Store.Customers
use proxy_control_plane.Store.Customers.{find_customer}
use proxy_control_plane.Store.RefreshTokens.{
  find_by_hash, principal_type_customer, revoke_customer_auth_refresh_tokens,
  revoke_auth_refresh_tokens, run_token_ops,
}
use proxy_control_plane.Security.Ids.{token_digest}
use proxy_control_plane.Security.RawUrl.{hex_encode, hex_lower}
use proxy_control_plane.HttpApi.Samples.{services, customer, db, request, IsDone, value_or, done}
use proxy_control_plane.HttpApi.Action.{Failure, audit}
use proxy_control_plane.HttpApi.Auth.{refresh_auth, bad_refresh}
use proxy_control_plane.HttpApi.Patch.{
  Json, Fields, json_null, decode_patch_value, patch_with, patch_field, patch_string,
  patch_optional_time, patch_customer_password, patch_customer_session_reset,
}
use proxy_control_plane.HttpApi.Customers.{
  ends_sessions, reset_session_epoch, patch_columns, with_epoch, end_sessions, save_patched,
  patch_customer, update_customer,
}
use proxy_control_plane.HttpApi.Customers.LogOut.{update_logs_out}

-- A string stands for itself.
abbrev json : Json
json = record {
  string = λ raw. some raw;
  bool = λ raw. none;
  int = λ raw. none;
  time = λ raw. none;
  strings = λ raw. none;
}

abbrev suspension : Fields
suspension = (codes "status", codes "suspended") ∷ []

abbrev session : AuthRefreshToken
session = record {
  id = codes "r1";
  principal_type = principal_type_customer;
  customer_id = some (codes "c1");
  subject = codes "c1";
  session_version = codes "v";
  token_hash = codes "7431";
  enabled = true;
  expires_at = 900;
  created_at = 1;
  updated_at = 1;
  last_used_at = none;
  last_used_ip = [];
  last_used_user_agent = [];
  revoked_at = none;
  replaced_by_id = [];
}

abbrev sessions : Db
sessions = record db { refresh_tokens = session ∷ [] }

suspended : Result Failure Customer × Db
suspended =
    update_customer services json (request 5 [] []) (codes "admin") (codes "c1") (ok (codes "s"))
      (ok (codes "e")) (some suspension) sessions

suspension-IsDone : IsDone suspended.0
unfolding suspended update_customer Customers.get_customer found find_customer str_eq patch_customer
    patch_columns patch_string patch_field patch_with json_null decode_patch_value get trim_space
    trim_left trim_right is_space patch_optional_time patch_customer_password
    patch_customer_session_reset ends_sessions with_epoch reset_session_epoch save_patched
    Customers.update_customer Customers.save_customer customer_status_or_default
    normalize_customer_status lower to_lower end_sessions revoke_customer_auth_refresh_tokens
    revoke_auth_refresh_tokens audit
suspension-IsDone = tt

update_logs_out_example :
    refresh_auth services
      (request 9 (codes "t2") (codes "r2"))
      (some (codes "t1"))
      (run_token_ops [] suspended.1)
    ≡ (err (record { status = 401; message = bad_refresh }), run_token_ops [] suspended.1)
unfolding suspended ends_sessions get str_eq find_by_hash token_digest hex_encode hex_lower
    trim_space trim_left trim_right is_space
update_logs_out_example =
    update_logs_out services (request 5 [] []) (request 9 (codes "t2") (codes "r2")) json
      (codes "admin") (codes "c1") (codes "t1") (ok (codes "s")) (ok (codes "e")) suspension
      (value_or customer suspended.0) sessions suspended.1 session []
      (done customer suspended suspension-IsDone) refl refl refl refl refl
