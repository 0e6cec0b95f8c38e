-- ===== src/Store/Accounts/Tests.antt =====
-- A run of an update of an account.
use proxy_control_plane.Base.{codes, false, not, ◌&&◌, some, [], ◌∷◌, ◌≡◌, refl, str_eq, ok}
use proxy_control_plane.Domain.{ProxyAccount}
use proxy_control_plane.Store.{Db}
use proxy_control_plane.Store.Samples.{traffic_db, sample_account, sample_node}
use proxy_control_plane.Store.Accounts.{
  mem_text, unique_strings_from, unique_strings, load_nodes_by_ids, find_account, is_bound,
  with_nodes, get_proxy_account, save_account, bind_all, replace_nodes, update_rows,
  update_proxy_account,
}
use proxy_control_plane.Store.Accounts.Bindings.{has_node, update_account_binds}

-- What a run computes with.
running : Unit {0}
unfolding mem_text unique_strings_from unique_strings load_nodes_by_ids find_account is_bound
    with_nodes get_proxy_account save_account bind_all replace_nodes update_rows
    update_proxy_account str_eq
running = tt

abbrev given : ProxyAccount
given = record sample_account { node_ids = some (codes "n1" ∷ codes "n1" ∷ [] ∷ []) }

abbrev saved : ProxyAccount
saved = record sample_account {
  updated_at = 4;
  nodes = record (sample_node "n") { id = codes "n1" } ∷ [];
}

abbrev after : Db
after = record traffic_db { accounts = record given { updated_at = 4 } ∷ [] }

run : update_proxy_account 4 given traffic_db ≡ (ok saved, after)
unfolding running
run = refl

other_id : str_eq (codes "a2") (codes "a1") ≡ false
unfolding running
other_id = refl

update_account_binds_example :
    (is_bound (codes "a1") (codes "n1") after.bindings ≡ (
      (mem_text (codes "n1") (codes "n1" ∷ codes "n1" ∷ [] ∷ []) && not (str_eq (codes "n1") []))
      && has_node (codes "n1") traffic_db.nodes))
    × (is_bound (codes "a2") (codes "n1") after.bindings
        ≡ is_bound (codes "a2") (codes "n1") traffic_db.bindings)
update_account_binds_example =
    update_account_binds 4 given traffic_db after saved run (codes "n1")
      (codes "n1" ∷ codes "n1" ∷ [] ∷ []) (codes "a2") refl other_id
