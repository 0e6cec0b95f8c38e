-- ===== src/HttpApi/Accounts.antt =====
-- The handlers of internal/httpapi/server.go for proxy accounts.
use proxy_control_plane.Base.{
  Text, codes, Bool, true, not, ◌||◌, Option, List, [], str_eq, Result, ℤ,
}
use proxy_control_plane.Domain.{Time, ProxyAccount}
use proxy_control_plane.Store.{Error}
use proxy_control_plane.Store.Accounts
use proxy_control_plane.Store.Listings
use proxy_control_plane.HttpApi.Action.{
  Action, reply, ◌>>=◌, ◌>>◌, require, store_failure, call, Request, audit,
}
use proxy_control_plane.HttpApi.Auth.{bind_json}
use proxy_control_plane.HttpApi.Customers.{checked}
use proxy_control_plane.HttpApi.Nodes.{given_or}
use proxy_control_plane.HttpApi.Patch.{Json, Fields}
use proxy_control_plane.HttpApi.Patch.Rows.{patch_account}

-- `none` for the node ids is a nil slice.
pub record ProxyAccountRequest : Type 0 where
  pub customer_id : Text
  pub protocol : Text
  pub uuid : Text
  pub email_tag : Text
  pub flow : Text
  pub enabled : Option Bool
  pub expires_at : Option Time
  pub traffic_limit_bytes : Option ℤ
  pub node_ids : Option (List Text)

-- `new_uuid` is what NewID returns for the UUID.
unfoldable pub create_proxy_account :
    Request → Result Error Text → Text → Option ProxyAccountRequest → Action ProxyAccount
create_proxy_account req new_uuid actor body = do
  given ← bind_json body
  require (not (str_eq given.customer_id [] || str_eq given.email_tag [])) 400
      (codes "customer_id and email_tag are required")
  account ← call store_failure (
      Accounts.create_proxy_account req.now req.new_id new_uuid (record {
        id = [];
        customer_id = given.customer_id;
        protocol = given.protocol;
        uuid = given.uuid;
        email_tag = given.email_tag;
        flow = given.flow;
        enabled = given_or true given.enabled;
        expires_at = given.expires_at;
        traffic_limit_bytes = given.traffic_limit_bytes;
        node_ids = given.node_ids;
        nodes = [];
        created_at = 0;
        updated_at = 0;
      }))
  audit req actor (codes "proxy_account.created") account.id
  reply account

unfoldable pub list_proxy_accounts : Action (List ProxyAccount)
list_proxy_accounts = call store_failure (Listings.list_proxy_accounts [])

unfoldable pub get_proxy_account : Text → Action ProxyAccount
get_proxy_account id = call store_failure (Accounts.get_proxy_account id)

unfoldable pub update_proxy_account :
    Json → Request → Text → Text → Option Fields → Action ProxyAccount
update_proxy_account json req actor id body = do
  current ← call store_failure (Accounts.get_proxy_account id)
  fields ← bind_json body
  patched ← checked (patch_account json fields current)
  updated ← call store_failure (Accounts.update_proxy_account req.now patched)
  audit req actor (codes "proxy_account.updated") updated.id
  reply updated

unfoldable pub delete_proxy_account : Request → Text → Text → Action (Unit {0})
delete_proxy_account req actor id = do
  call store_failure (Accounts.delete_proxy_account id)
  audit req actor (codes "proxy_account.deleted") id
