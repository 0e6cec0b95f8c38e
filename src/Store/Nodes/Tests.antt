-- ===== src/Store/Nodes/Tests.antt =====
-- Runs of the operations on nodes.
use proxy_control_plane.Base.{
  codes, true, false, none, some, List, [], ◌∷◌, ◌≡◌, refl, pos, length, if◌then◌else◌, str_eq,
  trim_space, trim_left, trim_right, is_space, to_lower, lower, ok, err,
}
use proxy_control_plane.Domain.{ProxyNode}
use proxy_control_plane.Store.{invalid, Db, id_or_new}
use proxy_control_plane.Store.Samples.{empty_db, sample_node}
use proxy_control_plane.Store.Nodes.{
  normalize_node_runtime, infer_node_runtime, default_runtime, default_xray, default_rest,
  set_node_defaults, valid_node_runtime, valid_port, valid_runtime_api_port,
  valid_runtime_api_config, check_node, insert_node, replace_node, save_node, find_by_name,
  create_proxy_node, upsert_found, upsert_proxy_node_by_name_tx, ProxyNodeUpsert, upsert_rounds,
  upsert_proxy_nodes_by_name,
}
use proxy_control_plane.Store.Nodes.Table.{IsSound}
use proxy_control_plane.Store.Nodes.Keeps.{
  NodeOp, create, update, delete, run_node_ops, run_node_ops-IsSound,
}
use proxy_control_plane.Store.Nodes.Upsert.{upsert_existing}

-- What a run computes with.
running : Unit {0}
unfolding normalize_node_runtime infer_node_runtime default_runtime default_xray default_rest
    set_node_defaults valid_node_runtime valid_port valid_runtime_api_port valid_runtime_api_config
    check_node insert_node replace_node save_node find_by_name create_proxy_node upsert_found
    upsert_proxy_node_by_name_tx upsert_rounds upsert_proxy_nodes_by_name id_or_new str_eq
    trim_space trim_left trim_right is_space to_lower lower
running = tt

abbrev ready_node : ProxyNode
ready_node = record (sample_node "n") {
  id = codes "i1";
  protocol = codes "vless";
  port = pos 443;
  transport = codes "tcp";
  security = codes "reality";
  runtime_inbound_tag = codes "proxy-control-plane-vless-in";
  created_at = 5;
  updated_at = 5;
}

abbrev one_node : Db
one_node = record empty_db { nodes = ready_node ∷ [] }

upsert_run :
    upsert_proxy_node_by_name_tx 5 (ok (codes "i1")) (sample_node "n") true empty_db
    ≡ (ok (ready_node, true), one_node)
unfolding running
upsert_run = refl

absent : find_by_name (codes "n") empty_db.nodes ≡ none
unfolding running
absent = refl

abbrev disabled_input : ProxyNode
disabled_input = record (sample_node "n") { enabled = false }

abbrev saved_node : ProxyNode
saved_node = record ready_node { updated_at = 8 }

again_run :
    upsert_proxy_node_by_name_tx 8 (err invalid) disabled_input true one_node
    ≡ (ok (saved_node, false), record empty_db { nodes = saved_node ∷ [] })
unfolding running
again_run = refl

present : find_by_name (codes "n") one_node.nodes ≡ some ready_node
unfolding running
present = refl

upsert_existing_example :
    (false ≡ false)
    × (saved_node.id ≡ ready_node.id)
    × (saved_node.name ≡ codes "n")
    × (saved_node.created_at ≡ ready_node.created_at)
    × (saved_node.enabled ≡ (if true then true else false))
    × (length (saved_node ∷ []) ≡ length one_node.nodes)
upsert_existing_example =
    upsert_existing 8 (err invalid) disabled_input true one_node saved_node false
      (record empty_db { nodes = saved_node ∷ [] }) again_run ready_node present

abbrev unnamed_batch : List ProxyNodeUpsert
unnamed_batch =
    record { node = sample_node "n"; preserve_enabled = true }
    ∷ record { node = sample_node " "; preserve_enabled = true }
    ∷ []

batch_fails :
    (upsert_proxy_nodes_by_name 5 (λ i. ok (codes "i1")) unnamed_batch empty_db).0 ≡ err invalid
unfolding running
batch_fails = refl

empty_db-IsSound : IsSound empty_db
empty_db-IsSound = record { ready = tt; ids = tt; names = tt }

abbrev ops : List NodeOp
ops =
    create 5 (ok (codes "i1")) (sample_node "n")
    ∷ update 6 (record (sample_node "m") { id = codes "i1" })
    ∷ delete (codes "i1")
    ∷ []

run_node_ops-IsSound_example : IsSound (run_node_ops ops empty_db)
run_node_ops-IsSound_example = run_node_ops-IsSound ops empty_db empty_db-IsSound
