-- ===== src/HttpApi/Auth/Tests.antt =====
-- A login, a refresh and a second refresh with the same token, with small stand-ins for the cryptography.
use proxy_control_plane.Base.{
  codes, true, false, some, [], ◌∷◌, ◌≡◌, refl, Result, ok, err, pos, trim_space, trim_left,
  trim_right, is_space, str_eq, split, ltb, lower, to_lower,
}
use proxy_control_plane.Domain.{customer_status_is_active, normalize_customer_status}
use proxy_control_plane.Config.{refresh_token_ttl, int64, scaled}
use proxy_control_plane.Store.{Db, found, id_or_new}
use proxy_control_plane.Store.Customers.{find_customer, get_customer, get_customer_by_email}
use proxy_control_plane.Store.Tokens.{write_audit}
use proxy_control_plane.Store.RefreshTokens.{
  create_auth_refresh_token, insert_checked, insert_token, valid_principal, known_customer,
  required_to_create, required_to_rotate, get_auth_refresh_token_by_hash, find_by_hash, find_by_id,
  rotate_auth_refresh_token, rotate_tx, rotate_usable, replace_checked, write_where, update_where,
  inherit, is_usable, revoked, revoke_admin, run_token_ops,
}
use proxy_control_plane.Security.AccessToken.{create_access_token, add_time}
use proxy_control_plane.Security.Password.{verify_password}
use proxy_control_plane.Security.Ids.{token_digest, auth_session_version, session_input}
use proxy_control_plane.Security.RawUrl.{hex_encode, hex_lower}
use proxy_control_plane.HttpApi.Action.{
  Failure, Request, audit, client_ip, split_host, last_index_of, host_before, has_byte, index_of,
}
use proxy_control_plane.HttpApi.Auth.{
  LoginRequest, customer_login, login_customer, admit_customer, customer_can_login,
  customer_matches, refresh_auth, refresh_with, refresh_found, rotate_found, rotate_with,
  reply_rotated, refresh_principal, refresh_usable, switch_principal, customer_principal,
  bad_refresh,
}
use proxy_control_plane.HttpApi.Auth.Tokens.{
  AuthResponse, issue_auth_tokens, auth_response, or_other, fresh_token, auth_subject,
  customer_session_version, response,
}
use proxy_control_plane.HttpApi.Samples.{services, customer, db, request}
use proxy_control_plane.HttpApi.Auth.Once.{refresh_once}
use proxy_control_plane.HttpApi.Auth.Session.{CanRotate, refresh_after_login}

abbrev given : LoginRequest
given = record { email = codes "a@b"; password = codes "pw" }

abbrev answer : Result Failure AuthResponse → AuthResponse
answer (ok resp) = resp
answer (err e) = record {
  access_token = [];
  refresh_token = [];
  token_type = [];
  expires_in = pos 0;
  refresh_token_expires_at = 0;
  principal = record { kind = []; email = []; customer_id = []; session_version = [] };
}

abbrev IsAnswered : Result Failure AuthResponse → Type 0
IsAnswered (ok resp) = Unit
IsAnswered (err e) = ⊥

answered : (r : Result Failure AuthResponse × Db) → IsAnswered r.0 → r ≡ (ok (answer r.0), r.1)
answered (ok resp, db') h = refl
answered (err e, db') h = absurd h

abbrev login_request : Request
login_request = request 5 (codes "t1") (codes "r1")

abbrev refresh_request : Request
refresh_request = request 9 (codes "t2") (codes "r2")

login_result : Result Failure AuthResponse × Db
login_result = customer_login services login_request (some given) db

client : client_ip login_request ≡ codes "10.0.0.1"
unfolding client_ip split str_eq trim_space trim_left trim_right is_space
client = refl

client_direct : client_ip (record login_request { forwarded_for = [] }) ≡ codes "::1"
unfolding client_ip str_eq split_host last_index_of host_before has_byte index_of
client_direct = refl

logged_in : IsAnswered login_result.0
unfolding login_result customer_login get_customer_by_email found login_customer customer_can_login
    customer_status_is_active customer_matches verify_password admit_customer issue_auth_tokens
    or_other create_auth_refresh_token id_or_new insert_checked required_to_create valid_principal
    insert_token known_customer fresh_token auth_subject token_digest hex_encode hex_lower
    customer_session_version auth_session_version session_input auth_response create_access_token
    add_time refresh_token_ttl int64 scaled str_eq normalize_customer_status trim_space trim_left
    trim_right is_space lower to_lower audit
logged_in = tt

login_done :
    customer_login services login_request (some given) db
    ≡ (ok (answer login_result.0), login_result.1)
unfolding login_result
login_done = answered login_result logged_in

handed_out : (answer login_result.0).refresh_token ≡ codes "t1"
unfolding login_result customer_login get_customer_by_email found login_customer customer_can_login
    customer_status_is_active customer_matches verify_password admit_customer issue_auth_tokens
    or_other create_auth_refresh_token id_or_new insert_checked required_to_create valid_principal
    insert_token known_customer fresh_token auth_subject token_digest hex_encode hex_lower
    customer_session_version auth_session_version session_input auth_response create_access_token
    add_time refresh_token_ttl int64 scaled str_eq normalize_customer_status trim_space trim_left
    trim_right is_space lower to_lower audit response
handed_out = refl

trimmed : trim_space (answer login_result.0).refresh_token ≡ (answer login_result.0).refresh_token
unfolding login_result customer_login get_customer_by_email found login_customer customer_can_login
    customer_status_is_active customer_matches verify_password admit_customer issue_auth_tokens
    or_other create_auth_refresh_token id_or_new insert_checked required_to_create valid_principal
    insert_token known_customer fresh_token auth_subject token_digest hex_encode hex_lower
    customer_session_version auth_session_version session_input auth_response create_access_token
    add_time refresh_token_ttl int64 scaled str_eq normalize_customer_status trim_space trim_left
    trim_right is_space lower to_lower audit response
trimmed = refl

filled : str_eq (answer login_result.0).refresh_token [] ≡ false
unfolding login_result customer_login get_customer_by_email found login_customer customer_can_login
    customer_status_is_active customer_matches verify_password admit_customer issue_auth_tokens
    or_other create_auth_refresh_token id_or_new insert_checked required_to_create valid_principal
    insert_token known_customer fresh_token auth_subject token_digest hex_encode hex_lower
    customer_session_version auth_session_version session_input auth_response create_access_token
    add_time refresh_token_ttl int64 scaled str_eq normalize_customer_status trim_space trim_left
    trim_right is_space lower to_lower audit response
filled = refl

live : ltb 9 (answer login_result.0).refresh_token_expires_at ≡ true
unfolding login_result customer_login get_customer_by_email found login_customer customer_can_login
    customer_status_is_active customer_matches verify_password admit_customer issue_auth_tokens
    or_other create_auth_refresh_token id_or_new insert_checked required_to_create valid_principal
    insert_token known_customer fresh_token auth_subject token_digest hex_encode hex_lower
    customer_session_version auth_session_version session_input auth_response create_access_token
    add_time refresh_token_ttl int64 scaled str_eq normalize_customer_status trim_space trim_left
    trim_right is_space lower to_lower audit response
live = refl

can_rotate : CanRotate services refresh_request (codes "t2") (codes "r2") login_result.1
unfolding login_result customer_login get_customer_by_email found login_customer customer_can_login
    customer_status_is_active customer_matches verify_password admit_customer issue_auth_tokens
    or_other create_auth_refresh_token id_or_new insert_checked required_to_create valid_principal
    insert_token known_customer fresh_token auth_subject token_digest hex_encode hex_lower
    customer_session_version auth_session_version session_input auth_response create_access_token
    add_time refresh_token_ttl int64 scaled str_eq normalize_customer_status trim_space trim_left
    trim_right is_space lower to_lower audit response write_audit
can_rotate = record { random_eq = refl; id_eq = refl; fresh = refl; hashed = refl; dated = refl }

refresh_after_login_example :
    (next : AuthResponse) × ((refresh_auth services refresh_request
        (some (answer login_result.0).refresh_token)
        login_result.1).0
      ≡ ok next)
    × (next.refresh_token ≡ codes "t2")
    × (next.principal.customer_id ≡ codes "c1")
unfolding find_customer str_eq customer_can_login customer_status_is_active
    normalize_customer_status trim_space trim_left trim_right is_space lower to_lower
refresh_after_login_example =
    refresh_after_login services login_request refresh_request given customer db login_result.1
      (answer login_result.0) (codes "t2") (codes "r2") refl refl login_done trimmed filled refl
      live can_rotate

refresh_result : Result Failure AuthResponse × Db
refresh_result = refresh_auth services refresh_request (some (codes "t1")) login_result.1

refreshed : IsAnswered refresh_result.0
unfolding refresh_result login_result customer_login get_customer_by_email found login_customer
    customer_can_login customer_status_is_active customer_matches verify_password admit_customer
    issue_auth_tokens or_other create_auth_refresh_token id_or_new insert_checked required_to_create
    valid_principal insert_token known_customer fresh_token auth_subject token_digest hex_encode
    hex_lower customer_session_version auth_session_version session_input auth_response
    create_access_token add_time refresh_token_ttl int64 scaled str_eq normalize_customer_status
    trim_space trim_left trim_right is_space lower to_lower audit response write_audit refresh_auth
    refresh_with refresh_found get_auth_refresh_token_by_hash find_by_hash refresh_principal
    refresh_usable switch_principal customer_principal get_customer find_customer rotate_found
    rotate_with rotate_auth_refresh_token rotate_tx find_by_id is_usable rotate_usable inherit
    replace_checked required_to_rotate write_where update_where revoked reply_rotated
refreshed = tt

refresh_once_example :
    refresh_auth services
      (request 20 (codes "t3") (codes "r3"))
      (some (codes "t1"))
      (run_token_ops (revoke_admin 15 15 [] [] ∷ []) refresh_result.1)
    ≡ (
      err (record { status = 401; message = bad_refresh }),
      run_token_ops (revoke_admin 15 15 [] [] ∷ []) refresh_result.1,
    )
unfolding refresh_result
refresh_once_example =
    refresh_once services refresh_request (request 20 (codes "t3") (codes "r3")) (codes "t1")
      login_result.1 refresh_result.1 (answer refresh_result.0) (revoke_admin 15 15 [] [] ∷ [])
      (answered refresh_result refreshed)
