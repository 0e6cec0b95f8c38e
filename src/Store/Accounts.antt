-- ===== src/Store/Accounts.antt =====
-- The proxy accounts of internal/store/store.go and their bindings to nodes.
pub mod Bindings
mod Tests
use proxy_control_plane.Base.{
  ℕ, Text, codes, Bool, true, false, not, ◌&&◌, ◌||◌, Option, none, some, List, [], ◌∷◌, ◌++◌, map,
  find, any, keep, length, is_nil, str_eq, if◌then◌else◌, Result, ok, err, eqb,
}
use proxy_control_plane.Domain.{Time, ProxyNode, ProxyAccount}
use proxy_control_plane.Store.{
  Error, not_found, conflict, invalid, Binding, Db, Exec, pure, lift, found, id_or_new, stamp,
  continue, settle, transaction, ◌>>=◌, ◌>>◌,
}
use proxy_control_plane.Store.Customers.{get_customer}

unfoldable pub mem_text : Text → List Text → Bool
mem_text k ids = any (λ i. str_eq i k) ids

-- The loop of `uniqueStrings`, with the set of the values seen.
unfoldable pub unique_strings_from : List Text → List Text → List Text
unique_strings_from seen [] = []
unique_strings_from seen (value ∷ values) =
    let skipped = unique_strings_from seen values in
    let rest = unique_strings_from (value ∷ seen) values in
    if str_eq value [] then skipped else if mem_text value seen then skipped else value ∷ rest

unfoldable pub unique_strings : List Text → List Text
unique_strings values = unique_strings_from [] values

-- A nil slice is read like an empty one.
unfoldable pub load_nodes_by_ids : Option (List Text) → Exec (List ProxyNode)
load_nodes_by_ids node_ids db =
    let ids = unique_strings (elim node_ids [ none ↦ [] | some l ↦ l ]) in
    let nodes = keep (λ n. mem_text n.id ids) db.nodes in
    if is_nil ids
    then (ok [], db)
    else if not (eqb (length nodes) (length ids))
    then (err not_found, db)
    else (ok nodes, db)

unfoldable pub find_account : Text → List ProxyAccount → Option ProxyAccount
find_account id accounts = find (λ a. str_eq a.id id) accounts

unfoldable pub is_bound : Text → Text → List Binding → Bool
is_bound account_id node_id bs =
    any (λ b. str_eq b.proxy_account_id account_id && str_eq b.proxy_node_id node_id) bs

-- `Preload("Nodes")` and `fillNodeIDs`
unfoldable pub with_nodes : Db → ProxyAccount → ProxyAccount
with_nodes db account =
    let nodes = keep (λ n. is_bound account.id n.id db.bindings) db.nodes in
    record account { nodes = nodes; node_ids = some (map (λ n. n.id) nodes) }

unfoldable pub get_proxy_account : Text → Exec ProxyAccount
get_proxy_account id db = elim (find_account id db.accounts) [
  | none ↦ (err not_found, db)
  | some account ↦ (ok (with_nodes db account), db)
]

-- INSERT: the primary key, the unique index on the UUID, and the foreign key.
unfoldable pub insert_account : Time → ProxyAccount → Exec (Unit {0})
insert_account now account db =
    let row = record account {
      created_at = stamp now account.created_at;
      updated_at = stamp now account.updated_at;
    } in
    if any (λ a. str_eq a.id account.id || str_eq a.uuid account.uuid) db.accounts
    then (err conflict, db)
    else if not (any (λ c. str_eq c.id account.customer_id) db.customers)
    then (err invalid, db)
    else (ok tt, record db { accounts = db.accounts ++ row ∷ [] })

unfoldable pub save_account : Time → ProxyAccount → Exec (Unit {0})
save_account now account db =
    let row = record account { updated_at = now } in
    if any (λ a. not (str_eq a.id account.id) && str_eq a.uuid account.uuid) db.accounts
    then (err conflict, db)
    else if not (any (λ c. str_eq c.id account.customer_id) db.customers)
    then (err invalid, db)
    else (
      ok tt,
      record db { accounts = map (λ a. if str_eq a.id row.id then row else a) db.accounts },
    )

unfoldable pub bind_all : Text → List ProxyNode → List Binding
bind_all account_id [] = []
bind_all account_id (n ∷ ns) =
    record { proxy_account_id = account_id; proxy_node_id = n.id } ∷ bind_all account_id ns

-- `Association("Nodes").Replace(nodes)`: the account is bound to these nodes and to no others.
unfoldable pub replace_nodes : Text → List ProxyNode → Exec (Unit {0})
replace_nodes account_id nodes db = (
  ok tt,
  record db {
    bindings =
        keep (λ b. not (str_eq b.proxy_account_id account_id)) db.bindings
        ++ bind_all account_id nodes;
  },
)

unfoldable pub create_rows : Time → ProxyAccount → List ProxyNode → Exec (Unit {0})
create_rows now account nodes = do
  insert_account now account
  if is_nil nodes then pure tt else replace_nodes account.id nodes

module _ (now : Time) where
  -- The two ids come from one call of NewID each, where they are needed.
  unfoldable pub create_proxy_account :
      Result Error Text → Result Error Text → ProxyAccount → Exec ProxyAccount
  create_proxy_account new_id new_uuid given = do
    customer ← get_customer given.customer_id
    id ← lift (id_or_new given.id new_id)
    uuid ← lift (id_or_new given.uuid new_uuid)
    let protocol = if str_eq given.protocol [] then codes "vless" else given.protocol
    nodes ← load_nodes_by_ids given.node_ids
    transaction (create_rows now (record given { id = id; uuid = uuid; protocol = protocol }) nodes)
    get_proxy_account id

  unfoldable pub update_rows : ProxyAccount → List ProxyNode → Exec (Unit {0})
  update_rows account nodes = do
    save_account now account
    elim account.node_ids [ none ↦ pure tt | some ids ↦ replace_nodes account.id nodes ]

  unfoldable pub update_proxy_account : ProxyAccount → Exec ProxyAccount
  update_proxy_account account = do
    current ← get_proxy_account account.id
    nodes ← load_nodes_by_ids account.node_ids
    transaction (update_rows account nodes)
    get_proxy_account account.id

-- DELETE by primary key, with the rows that reference the account.
unfoldable pub delete_proxy_account : Text → Exec (Unit {0})
delete_proxy_account id db =
    if any (λ a. str_eq a.id id) db.accounts
    then (
      ok tt,
      record db {
        accounts = keep (λ a. not (str_eq a.id id)) db.accounts;
        bindings = keep (λ b. not (str_eq b.proxy_account_id id)) db.bindings;
        usage = keep (λ u. not (str_eq u.proxy_account_id id)) db.usage;
        daily = keep (λ u. not (str_eq u.proxy_account_id id)) db.daily;
        domain_logs = keep (λ l. not (str_eq l.proxy_account_id id)) db.domain_logs;
      },
    )
    else (err not_found, db)
