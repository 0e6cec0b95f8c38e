-- ===== src/RuntimeSync/Backed/Tests.antt =====
-- Runs of the synchronisation over the tables of the store.
use proxy_control_plane.Base.{
  codes, true, false, none, some, [], ◌∷◌, ◌≡◌, refl, find, equal_fold, trim_space,
}
use proxy_control_plane.Domain.{ProxyNode, runtime_proxy_account_email}
use proxy_control_plane.Store.Samples.{empty_db, traffic_db, sample_account}
use proxy_control_plane.Store.Customers.{find_customer}
use proxy_control_plane.Store.Accounts.{is_bound}
use proxy_control_plane.Store.Targets.{
  is_target, unexpired, customer_serves, insert_by_id, runtime_user, list_runtime_target_users,
  target_accounts, sort_by_id, users_of, mark_proxy_node_runtime_sync, marked,
}
use proxy_control_plane.RuntimeSync.{World, sync_node}
use proxy_control_plane.RuntimeSync.Laws.{Credential}
use proxy_control_plane.RuntimeSync.Tests.{
  memory, memory-IsRuntime, table, node, user, stranger, running,
}
use proxy_control_plane.RuntimeSync.Backed.{
  backed, error_text, has_id, may_serve, serves, sync_drops_unserved,
}
use proxy_control_plane.RuntimeSync.Backed.Served.{sync_serves}

-- A node without accounts.
abbrev empty_world : World (backed 3) memory (λ t. t)
empty_world = record { db = empty_db; runtime = user "c" "u3" ∷ stranger ∷ [] }

abbrev node_row : ProxyNode
node_row = node

abbrev bare_world : World (backed 3) memory (λ t. t)
bare_world = record empty_world { db = record empty_db { nodes = node_row ∷ [] } }

run_bare :
    ((sync_node (backed 3) memory (λ t. t) node 5 bare_world).failure ≡ none)
    × ((sync_node (backed 3) memory (λ t. t) node 5 bare_world).result.unchanged ≡ false)
unfolding running list_runtime_target_users target_accounts sort_by_id users_of
    mark_proxy_node_runtime_sync marked error_text
run_bare = (refl, refl)

unserved : serves node.id 5 bare_world.db (codes "c") ≡ false
unfolding serves
unserved = refl

sync_drops_unserved_example :
    table
      (sync_node (backed 3) memory (λ t. t) node 5 bare_world).state.runtime
      (runtime_proxy_account_email (codes "c"))
    ≡ none
sync_drops_unserved_example =
    sync_drops_unserved 3 memory (λ t. t) node 5 table (memory-IsRuntime node) bare_world
      (codes "c") (λ p. cc p) unserved run_bare.0 run_bare.1

-- The node of the sample tables, whose runtime serves another account yet.
abbrev served_node : ProxyNode
served_node = record node { id = codes "n1" }

abbrev served_world : World (backed 3) memory (λ t. t)
served_world = record { db = traffic_db; runtime = user "c" "u3" ∷ stranger ∷ [] }

run_served :
    ((sync_node (backed 3) memory (λ t. t) served_node 5 served_world).failure ≡ none)
    × ((sync_node (backed 3) memory (λ t. t) served_node 5 served_world).result.unchanged ≡ false)
unfolding running list_runtime_target_users target_accounts sort_by_id insert_by_id users_of
    runtime_user is_target is_bound unexpired customer_serves find_customer
    mark_proxy_node_runtime_sync marked error_text
run_served = (refl, refl)

allowed :
    (find (has_id (codes "a1")) traffic_db.accounts ≡ some sample_account)
    × (may_serve (codes "n1") 5 traffic_db sample_account ≡ true)
unfolding running has_id may_serve
allowed = (refl, refl)

sync_serves_example :
    (cr : Credential) × ((table
          (sync_node (backed 3) memory (λ t. t) served_node 5 served_world).state.runtime
          (runtime_proxy_account_email (codes "a1"))
        ≡ some cr)
      × ((equal_fold (trim_space cr.uuid) (trim_space (codes "u1")) ≡ true)
          × (trim_space cr.flow ≡ trim_space [])))
sync_serves_example =
    sync_serves 3 memory (λ t. t) served_node 5 table (memory-IsRuntime served_node) served_world
      (codes "a1") sample_account (λ p. cc p) (refl, tt) allowed.0 allowed.1 run_served.0
      run_served.1
