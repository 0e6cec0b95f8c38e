-- ===== src/Store/Targets.antt =====
-- internal/store/runtime_sync.go: the users that a node's runtime is to have, and the mark of a sync.
use proxy_control_plane.Base.{
  Text, codes, Bool, true, false, ◌&&◌, Option, none, some, List, [], ◌∷◌, map, any, keep, take,
  length, str_eq, str_ltb, trim_space, if◌then◌else◌, ok, err, leb, ltb,
}
use proxy_control_plane.Domain.{
  Time, Customer, ProxyNode, ProxyAccount, RuntimeUser, runtime_proxy_account_email,
}
use proxy_control_plane.Store.{not_found, Db, Exec}
use proxy_control_plane.Store.Customers.{find_customer}
use proxy_control_plane.Store.Accounts.{is_bound}

-- `expires_at IS NULL OR expires_at > now`
unfoldable pub unexpired : Option Time → Time → Bool
unexpired none now = true
unexpired (some at) now = ltb now at

-- The JOIN with the customer, and the clauses on it.
unfoldable pub customer_serves : Option Customer → Time → Bool
customer_serves none now = false
customer_serves (some c) now = str_eq c.status (codes "active") && unexpired c.expires_at now

unfoldable pub is_target : Text → Time → Db → ProxyAccount → Bool
is_target node_id now db a =
    is_bound a.id node_id db.bindings
    && (str_eq a.protocol (codes "vless")
        && (a.enabled
            && (unexpired a.expires_at now
                && customer_serves (find_customer a.customer_id db.customers) now)))

-- ORDER BY id ASC
unfoldable pub insert_by_id : ProxyAccount → List ProxyAccount → List ProxyAccount
insert_by_id a [] = a ∷ []
insert_by_id a (b ∷ bs) =
    let rest = insert_by_id a bs in if str_ltb b.id a.id then b ∷ rest else a ∷ b ∷ bs

unfoldable pub sort_by_id : List ProxyAccount → List ProxyAccount
sort_by_id [] = []
sort_by_id (a ∷ rest) = insert_by_id a (sort_by_id rest)

unfoldable pub runtime_user : ProxyAccount → RuntimeUser
runtime_user a =
    let account_id = trim_space a.id in
    record {
      proxy_account_id = account_id;
      email = runtime_proxy_account_email account_id;
      uuid = trim_space a.uuid;
      flow = trim_space a.flow;
    }

unfoldable pub users_of : List ProxyAccount → List RuntimeUser
users_of [] = []
users_of (a ∷ rest) = runtime_user a ∷ users_of rest

unfoldable pub target_accounts : Text → Time → Db → List ProxyAccount
target_accounts node_id now db = sort_by_id (keep (is_target node_id now db) db.accounts)

unfoldable pub list_runtime_target_users : Text → Time → Exec (List RuntimeUser)
list_runtime_target_users node_id now db = (ok (users_of (target_accounts node_id now db)), db)

unfoldable pub truncate_runtime_sync_error : Text → Text
truncate_runtime_sync_error given =
    let value = trim_space given in if leb (length value) 1000 then value else take 1000 value

-- GORM's Updates sets `updated_at` as well.
unfoldable pub marked : Time → Time → Text → ProxyNode → ProxyNode
marked clock synced_at sync_err n = record n {
  last_runtime_sync_error = truncate_runtime_sync_error sync_err;
  last_runtime_sync_at =
      if str_eq (trim_space sync_err) [] then some synced_at else n.last_runtime_sync_at;
  updated_at = clock;
}

unfoldable pub mark_proxy_node_runtime_sync : Time → Text → Time → Text → Exec (Unit {0})
mark_proxy_node_runtime_sync clock node_id synced_at sync_err db =
    if any (λ n. str_eq n.id node_id) db.nodes
    then (
      ok tt,
      record db {
        nodes =
            map (λ n. if str_eq n.id node_id then marked clock synced_at sync_err n else n)
              db.nodes;
      },
    )
    else (err not_found, db)

unfoldable pub syncs : ProxyNode → Bool
syncs n = n.enabled && (str_eq n.runtime (codes "xray") && n.runtime_api_enabled)

unfoldable pub insert_by_name : ProxyNode → List ProxyNode → List ProxyNode
insert_by_name a [] = a ∷ []
insert_by_name a (b ∷ bs) =
    let rest = insert_by_name a bs in if str_ltb b.name a.name then b ∷ rest else a ∷ b ∷ bs

unfoldable pub sort_by_name : List ProxyNode → List ProxyNode
sort_by_name [] = []
sort_by_name (a ∷ rest) = insert_by_name a (sort_by_name rest)

unfoldable pub list_runtime_sync_nodes : Exec (List ProxyNode)
list_runtime_sync_nodes db = (ok (sort_by_name (keep syncs db.nodes)), db)
