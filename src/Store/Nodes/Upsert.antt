-- ===== src/Store/Nodes/Upsert.antt =====
-- What `upsertProxyNodeByNameTx` and the batch around it do on success and on failure.
use proxy_control_plane.Base.{
  suc, ℕ, Text, Bool, true, false, ◌||◌, none, some, List, [], ◌∷◌, ◌++◌, ◌≡◌, refl, if◌then◌else◌,
  arith, length, Result, ok, err,
}
use proxy_control_plane.Domain.{Time, ProxyNode}
use proxy_control_plane.Store.{Error, Db}
use proxy_control_plane.Store.Nodes.{
  set_node_defaults, default_rest, default_xray, default_runtime, insert_node, replace_node,
  save_node, find_by_name, upsert_found, upsert_proxy_node_by_name_tx, ProxyNodeUpsert,
  upsert_proxy_nodes_by_name,
}
use proxy_control_plane.Store.Nodes.Table.{check_node_lem}

defaults_keep :
    (n : ProxyNode)
    → ((set_node_defaults n).name ≡ n.name) × ((set_node_defaults n).enabled ≡ n.enabled)
unfolding set_node_defaults default_rest default_xray default_runtime
defaults_keep n = ground arith

length-replace : (row : ProxyNode) (ns : List ProxyNode) → length (replace_node row ns) ≡ length ns
unfolding replace_node
length-replace row [] = refl
length-replace row (n ∷ ns) = λ i. suc (length-replace row ns i)

module _ (now : Time) (new_id : Result Error Text) (given : ProxyNode) (preserve : Bool) (db : Db)
    (row : ProxyNode) (created : Bool) (after : Db)
    (done : upsert_proxy_node_by_name_tx now new_id given preserve db
      ≡ (ok (row, created), after)) where
  -- A successful upsert under a name that is taken keeps the id and the creation time of the row
  -- there, keeps its enabled flag too where that is asked for, and adds no row.
  pub upsert_existing :
      (existing : ProxyNode)
      → find_by_name given.name db.nodes ≡ some existing
      → (created ≡ false)
        × (row.id ≡ existing.id)
        × (row.name ≡ given.name)
        × (row.created_at ≡ existing.created_at)
        × (row.enabled ≡ (if preserve then existing.enabled else given.enabled))
        × (length after.nodes ≡ length db.nodes)
  unfolding upsert_proxy_node_by_name_tx upsert_found save_node
  upsert_existing existing there =
      let node = set_node_defaults given in
      let kept = defaults_keep given in
      let there' : find_by_name node.name db.nodes ≡ some existing = rw kept.0 there in
      ground (
        arith,
        kept,
        there',
        check_node_lem node db,
        length-replace
            (record node {
              id = existing.id;
              created_at = existing.created_at;
              enabled = if preserve then existing.enabled else node.enabled;
              updated_at = now;
            })
            db.nodes,
      )

  -- A successful upsert under a new name appends the row, enabled where the flag is left open.
  pub upsert_new :
      find_by_name given.name db.nodes ≡ none
      → (created ≡ true)
        × (row.name ≡ given.name)
        × (row.enabled ≡ (preserve || given.enabled))
        × (after.nodes ≡ db.nodes ++ row ∷ [])
  unfolding upsert_proxy_node_by_name_tx upsert_found insert_node
  upsert_new absent =
      let node = set_node_defaults given in
      let kept = defaults_keep given in
      let absent' : find_by_name node.name db.nodes ≡ none = rw kept.0 absent in
      ground (arith, kept, absent', check_node_lem node db)

-- A batch that fails has changed nothing, whatever its earlier inputs had written.
pub upsert_batch_atomic :
    (now : Time) (new_ids : ℕ → Result Error Text) (inputs : List ProxyNodeUpsert) (db : Db)
    (e : Error)
    → (upsert_proxy_nodes_by_name now new_ids inputs db).0 ≡ err e
    → (upsert_proxy_nodes_by_name now new_ids inputs db).1 ≡ db
unfolding upsert_proxy_nodes_by_name
upsert_batch_atomic now new_ids inputs db e h = ground arith
