-- ===== src/HttpApi/Customers.antt =====
-- The handlers of internal/httpapi/server.go for customers. `none` for a body is JSON that does not
-- bind; the salt of a new password and the session epoch are what NewRandomToken returns for each.
pub mod LogOut
mod Tests
use proxy_control_plane.Base.{
  Text, codes, Bool, true, false, not, ◌&&◌, ◌||◌, Option, none, some, List, [], ◌∷◌, ◌++◌, str_eq,
  trim_space, if◌then◌else◌, Result, ok, err, is_some, get,
}
use proxy_control_plane.Base
use proxy_control_plane.Domain.{Time, Customer, customer_status_or_default}
use proxy_control_plane.Store.{Error, Db}
use proxy_control_plane.Store.Customers
use proxy_control_plane.Store.Listings
use proxy_control_plane.Store.RefreshTokens.{revoke_customer_auth_refresh_tokens}
use proxy_control_plane.Security.AccessToken.{AccessClaims, principal_type_customer}
use proxy_control_plane.HttpApi.Action.{
  Failure, Action, reply, write_error, continue, ◌>>=◌, ◌>>◌, require, store_failure, call, settle,
  Services, Request, audit, client_ip,
}
use proxy_control_plane.HttpApi.Auth.{bind_json, customer_can_login}
use proxy_control_plane.HttpApi.Patch.{
  Json, Fields, patch_string, patch_optional_time, patch_customer_password,
  patch_customer_session_reset, password_hash_from_request,
}

pub record CustomerRequest : Type 0 where
  pub email : Text
  pub display_name : Text
  pub status : Text
  pub expires_at : Option Time
  pub password : Text

abbrev pub checked : {A : Type 0} → Result Failure A → Action A
checked r db = (r, db)

unfoldable pub create_customer :
    Services → Request → Text → Result Text Text → Option CustomerRequest → Action Customer
create_customer srv req actor salt body = do
  given ← bind_json body
  require (not (str_eq given.email [])) 400 (codes "email is required")
  hash ← checked (password_hash_from_request srv.hmac salt given.password true)
  customer ← call store_failure (
      Customers.create_customer req.now req.new_id (record {
        id = [];
        email = given.email;
        display_name = given.display_name;
        status = customer_status_or_default given.status;
        expires_at = given.expires_at;
        password_hash = hash;
        session_epoch = [];
        created_at = 0;
        updated_at = 0;
      }))
  audit req actor (codes "customer.created") customer.id
  reply customer

unfoldable pub list_customers : Action (List Customer)
list_customers = call store_failure Listings.list_customers

unfoldable pub get_customer : Text → Action Customer
get_customer id = call store_failure (Customers.get_customer id)

abbrev pub has_field : Text → Fields → Bool
has_field name fields = is_some (get name fields)

-- A change of one of these ends the customer's sessions.
unfoldable pub ends_sessions : Fields → Bool
ends_sessions fields =
    has_field (codes "email") fields
    || (has_field (codes "password") fields
        || (has_field (codes "status") fields || has_field (codes "expires_at") fields))

-- `resetCustomerSessionEpoch`
unfoldable pub reset_session_epoch : Result Text Text → Customer → Result Failure Customer
reset_session_epoch (ok epoch) customer = ok (record customer { session_epoch = epoch })
reset_session_epoch (err e) customer =
    err (record { status = 500; message = codes "could not reset sessions" })

unfoldable pub patch_columns :
    Services → Json → Result Text Text → Fields → Customer → Result Failure Customer
patch_columns srv json salt fields current =
    Base.◌>>=◌ (patch_string json fields (codes "email") current.email false true) λ email.
      Base.◌>>=◌ (patch_string json fields (codes "display_name") current.display_name true false)
        λ display_name.
          Base.◌>>=◌ (patch_string json fields (codes "status") current.status false true) λ status.
            Base.◌>>=◌ (patch_optional_time json fields (codes "expires_at") current.expires_at)
              λ expires_at.
                Base.◌>>=◌ (patch_customer_password srv.hmac json salt fields current.password_hash)
                  λ hash. ok (record current {
                    email = email;
                    display_name = display_name;
                    status = status;
                    expires_at = expires_at;
                    password_hash = hash;
                  })

abbrev pub login_enabled : Customer → Time → Bool
login_enabled customer now =
    customer_can_login customer now && not (str_eq customer.password_hash [])

-- The session epoch changes where the request asks for it or changes one of the fields above.
unfoldable pub with_epoch : Bool → Result Text Text → Customer → Result Failure Customer
with_epoch reset epoch customer = if reset then reset_session_epoch epoch customer else ok customer

unfoldable pub end_sessions : Request → Text → Bool → Action (Unit {0})
end_sessions req id ending db =
    if ending
    then (call store_failure
            (revoke_customer_auth_refresh_tokens req.now id req.now (client_ip req) req.user_agent)
          >>= λ n. reply tt)
        db
    else reply tt db

-- The part of `updateCustomer` after the patch, where `reset` says that the epoch is new.
unfoldable pub save_patched : Request → Text → Bool → Bool → Customer → Action Customer
save_patched req actor old_login_enabled reset patched = do
  updated ← call store_failure (Customers.update_customer req.now patched)
  end_sessions req updated.id (reset || (old_login_enabled && not (login_enabled updated req.now)))
  audit req actor (codes "customer.updated") updated.id
  reply updated

unfoldable pub patch_customer :
    Services
    → Json
    → Request
    → Text
    → Result Text Text
    → Result Text Text
    → Fields
    → Customer
    → Action Customer
patch_customer srv json req actor salt epoch fields current = do
  patched ← checked (patch_columns srv json salt fields current)
  asked ← checked (patch_customer_session_reset json fields)
  customer ← checked (with_epoch (asked || ends_sessions fields) epoch patched)
  save_patched req actor (login_enabled current req.now) (asked || ends_sessions fields) customer

unfoldable pub update_customer :
    Services
    → Json
    → Request
    → Text
    → Text
    → Result Text Text
    → Result Text Text
    → Option Fields
    → Action Customer
update_customer srv json req actor id salt epoch body = do
  current ← call store_failure (Customers.get_customer id)
  fields ← bind_json body
  patch_customer srv json req actor salt epoch fields current

unfoldable pub delete_customer : Request → Text → Text → Action (Unit {0})
delete_customer req actor id = do
  call store_failure (Customers.delete_customer id)
  audit req actor (codes "customer.deleted") id

-- `customerIDFromContext`
unfoldable pub customer_id_from : AccessClaims → Option Text
customer_id_from claims =
    if not (str_eq claims.role principal_type_customer) || str_eq (trim_space claims.subject) []
    then none
    else some claims.subject

unfoldable pub customer_me : AccessClaims → Action Customer
customer_me claims = elim (customer_id_from claims) [
  | none ↦ write_error 401 (codes "invalid bearer token")
  | some id ↦ call store_failure (Customers.get_customer id)
]
