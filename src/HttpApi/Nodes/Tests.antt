-- ===== src/HttpApi/Nodes/Tests.antt =====
-- Runs of the synchronisation of nodes.
use proxy_control_plane.Base.{
  ℕ, String, Text, codes, true, none, some, List, [], ◌∷◌, ◌≡◌, refl, Result, ok, err, map, mem,
  str_eq, trim_space, trim_left, trim_right, is_space, lower, to_lower, pos,
}
use proxy_control_plane.Store.{Error, Db, id_or_new}
use proxy_control_plane.Store.Nodes.{
  upsert_proxy_nodes_by_name, upsert_rounds, upsert_proxy_node_by_name_tx, upsert_found, check_node,
  insert_node, find_by_name, set_node_defaults, default_rest, default_xray, default_runtime,
  normalize_node_runtime, valid_node_runtime, valid_port, valid_runtime_api_port,
  valid_runtime_api_config,
}
use proxy_control_plane.Store.Unique.{UniqueBy}
use proxy_control_plane.HttpApi.Samples
use proxy_control_plane.HttpApi.Samples.{request, IsDone, value_or, done}
use proxy_control_plane.HttpApi.Action.{Failure, store_failure}
use proxy_control_plane.HttpApi.Nodes.{
  NodeRequest, NodeSyncResult, item_name, check_item, check_items, upsert_of, node_of, sync_nodes,
}
use proxy_control_plane.HttpApi.Nodes.Synced.{sync_nodes_atomic, sync_nodes_named}

-- What a run computes with.
running : Unit {0}
unfolding sync_nodes check_items check_item upsert_of node_of mem str_eq trim_space trim_left
    trim_right is_space lower to_lower valid_node_runtime upsert_proxy_nodes_by_name upsert_rounds
    upsert_proxy_node_by_name_tx upsert_found check_node insert_node find_by_name set_node_defaults
    default_rest default_xray default_runtime normalize_node_runtime valid_port
    valid_runtime_api_port valid_runtime_api_config id_or_new store_failure
running = tt

abbrev item : String → NodeRequest
item name = record {
  name = codes name;
  hostname = codes "h";
  public_host = [];
  region = [];
  runtime = codes "XRAY";
  protocol = [];
  port = pos 0;
  transport = [];
  security = [];
  sni = [];
  fingerprint = [];
  alpn = [];
  path = [];
  host_header = [];
  reality_public_key = [];
  reality_short_id = [];
  runtime_api_enabled = none;
  runtime_api_host = [];
  runtime_api_port = pos 0;
  runtime_inbound_tag = [];
  enabled = none;
}

-- Its API is enabled, and has no host.
abbrev unreachable : NodeRequest
unreachable = record (item "b") { runtime_api_enabled = some true }

abbrev counts_text : ℕ → ℕ → ℕ → Text
counts_text created updated total = created ∷ updated ∷ total ∷ []

abbrev ids : ℕ → Result Error Text
ids i = ok (b'n' ∷ i ∷ [])

rolled_back :
    (sync_nodes counts_text
      (request 5 [] [])
      ids
      (codes "admin")
      (some (item "a" ∷ unreachable ∷ []))
      Samples.db).0
    ≡ err (record { status = 400; message = codes "invalid request" })
unfolding running
rolled_back = refl

sync_nodes_atomic_example :
    (sync_nodes counts_text
      (request 5 [] [])
      ids
      (codes "admin")
      (some (item "a" ∷ unreachable ∷ []))
      Samples.db).1
    ≡ Samples.db
sync_nodes_atomic_example =
    sync_nodes_atomic counts_text (request 5 [] []) ids (codes "admin")
      (some (item "a" ∷ unreachable ∷ [])) Samples.db
      (record { status = 400; message = codes "invalid request" }) rolled_back

synced : Result Failure (List NodeSyncResult) × Db
synced =
    sync_nodes counts_text (request 5 [] []) ids (codes "admin") (some (item "a" ∷ item " b" ∷ []))
      Samples.db

synced-IsDone : IsDone synced.0
unfolding running synced
synced-IsDone = tt

sync_nodes_named_example :
    (map (λ r. r.name) (value_or [] synced.0) ≡ map item_name (item "a" ∷ item " b" ∷ []))
    × UniqueBy item_name (item "a" ∷ item " b" ∷ [])
unfolding running synced
sync_nodes_named_example =
    sync_nodes_named counts_text (request 5 [] []) ids (codes "admin") (item "a" ∷ item " b" ∷ [])
      Samples.db synced.1 (value_or [] synced.0) (done [] synced synced-IsDone)
