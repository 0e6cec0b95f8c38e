-- ===== src/Store/Nodes/Keeps.antt =====
-- Every operation on nodes keeps the invariant of their table.
use proxy_control_plane.Base.{
  ℕ, ◌+◌, Text, Bool, true, not, ◌||◌, Option, none, some, List, [], ◌∷◌, ◌≡◌, inl, inr, refl,
  str_eq, trim_space, if◌then◌else◌, Bool-cases, All-keep, any, Result,
}
use proxy_control_plane.Domain.{Time, ProxyNode}
use proxy_control_plane.Store.{Error, Db, Exec, found, id_or_new, ◌>>◌}
use proxy_control_plane.Store.Steps.{lift_keeps, reads_keep, step_keeps, settle_keeps}
use proxy_control_plane.Store.Unique.{UniqueBy-keep}
use proxy_control_plane.Store.Nodes.{
  set_node_defaults, check_node, insert_node, save_node, get_proxy_node, find_by_id,
  create_proxy_node, upsert_found, upsert_proxy_node_by_name_tx, update_proxy_node, ProxyNodeUpsert,
  upsert_rounds, upsert_proxy_nodes_by_name, delete_proxy_node,
}
use proxy_control_plane.Store.Nodes.Defaults.{IsReady, set_node_defaults-IsSettled}
use proxy_control_plane.Store.Nodes.Table.{
  IsSound, IsReady-same, IsReady-passes, passes, check_node_lem, insert_node-IsSound,
  save_node-IsSound,
}

-- The rest of an operation behind the checks may use that they passed.
checked-IsSound :
    {A : Type 0} (n : ProxyNode) (rest : Exec A) (db : Db)
    → IsSound db
    → (passes n ≡ true → IsSound (rest db).1)
    → IsSound ((check_node n >> rest) db).1
checked-IsSound n rest db s h = elim (Bool-cases (passes n)) [
  | inl e ↦ rw (check_node_lem n db, e) (h e)
  | inr e ↦ rw (check_node_lem n db, e) s
]

module _ (now : Time) where
  create-IsSound :
      (new_id : Result Error Text) (given : ProxyNode) (db : Db)
      → IsSound db
      → IsSound (create_proxy_node now new_id given db).1
  unfolding create_proxy_node
  create-IsSound new_id given db s = lift_keeps IsSound (id_or_new given.id new_id) _ db s λ id.
      let node = set_node_defaults (record given { id = id }) in
      checked-IsSound node (insert_node now node) db s λ e.
        insert_node-IsSound now node db
          (IsReady-passes node e (set_node_defaults-IsSettled (record given { id = id }))) s

  upsert_found-IsSound :
      (new_id : Result Error Text) (n : ProxyNode) (p : Bool) (existing : Option ProxyNode)
      (db : Db)
      → IsReady n
      → IsSound db
      → IsSound (upsert_found now new_id n p existing db).1
  unfolding upsert_found
  upsert_found-IsSound new_id n p none db r s =
      lift_keeps IsSound (id_or_new n.id new_id) _ db s λ id.
        let row : ProxyNode = record n { id = id; enabled = p || n.enabled } in
        reads_keep IsSound (insert_node now row) _ db (λ a after. refl)
          (insert_node-IsSound now row db
            (IsReady-same n id (p || n.enabled) n.created_at n.updated_at r) s)
  upsert_found-IsSound new_id n p (some existing) db r s =
      let enabled = if p then existing.enabled else n.enabled in
      let row : ProxyNode = record n {
        id = existing.id;
        created_at = existing.created_at;
        enabled = enabled;
      } in
      reads_keep IsSound (save_node now row) _ db (λ a after. refl)
        (save_node-IsSound now row db
          (IsReady-same n existing.id enabled existing.created_at n.updated_at r) s)

  upsert-IsSound :
      (new_id : Result Error Text) (given : ProxyNode) (p : Bool) (db : Db)
      → IsSound db
      → IsSound (upsert_proxy_node_by_name_tx now new_id given p db).1
  unfolding upsert_proxy_node_by_name_tx
  upsert-IsSound new_id given p db s = elim (Bool-cases (not (str_eq (trim_space given.name) []))) [
    | inl named ↦
        let node = set_node_defaults given in
        rw named (
          checked-IsSound node _ db s λ e.
            upsert_found-IsSound new_id node p _ db
              (IsReady-passes node e (set_node_defaults-IsSettled given)) s)
    | inr blank ↦ rw blank s
  ]

  update-IsSound :
      (given : ProxyNode) (db : Db) → IsSound db → IsSound (update_proxy_node now given db).1
  unfolding update_proxy_node get_proxy_node
  update-IsSound given db s =
      lift_keeps IsSound (found (find_by_id given.id db.nodes)) _ db s λ current.
        let node = set_node_defaults given in
        checked-IsSound node _ db s λ e.
          let r = IsReady-passes node e (set_node_defaults-IsSettled given) in
          reads_keep IsSound (save_node now node) _ db (λ a after. refl)
            (save_node-IsSound now node db r s)

  upsert_rounds-IsSound :
      (new_ids : ℕ → Result Error Text) (inputs : List ProxyNodeUpsert) (i : ℕ) (db : Db)
      → IsSound db
      → IsSound (upsert_rounds now new_ids i inputs db).1
  unfolding upsert_rounds
  upsert_rounds-IsSound new_ids [] i db s = s
  upsert_rounds-IsSound new_ids (input ∷ inputs) i db s =
      step_keeps IsSound
        (upsert_proxy_node_by_name_tx now (new_ids i) input.node input.preserve_enabled) _ db
        (upsert-IsSound (new_ids i) input.node input.preserve_enabled db s)
        λ result after h.
          reads_keep IsSound (upsert_rounds now new_ids (i + 1) inputs) _ after (λ a d. refl)
            (upsert_rounds-IsSound new_ids inputs (i + 1) after h)

delete-IsSound : (id : Text) (db : Db) → IsSound db → IsSound (delete_proxy_node id db).1
unfolding delete_proxy_node
delete-IsSound id db s = elim (Bool-cases (any (λ n. str_eq n.id id) db.nodes)) [
  | inl there ↦ rw there (record {
    ready = All-keep IsReady _ db.nodes s.ready;
    ids = UniqueBy-keep (λ n. n.id) _ db.nodes s.ids;
    names = UniqueBy-keep (λ n. n.name) _ db.nodes s.names;
  })
  | inr missing ↦ rw missing s
]

-- The operations of the store that write nodes.
pub data NodeOp : Type 0 where
  create : Time → Result Error Text → ProxyNode → NodeOp
  upsert : Time → (ℕ → Result Error Text) → List ProxyNodeUpsert → NodeOp
  update : Time → ProxyNode → NodeOp
  delete : Text → NodeOp

abbrev pub run_node_op : NodeOp → Db → Db
run_node_op (create now new_id node) db = (create_proxy_node now new_id node db).1
run_node_op (upsert now new_ids inputs) db = (upsert_proxy_nodes_by_name now new_ids inputs db).1
run_node_op (update now node) db = (update_proxy_node now node db).1
run_node_op (delete id) db = (delete_proxy_node id db).1

abbrev pub run_node_ops : List NodeOp → Db → Db
run_node_ops [] db = db
run_node_ops (op ∷ ops) db = run_node_ops ops (run_node_op op db)

run_node_op-IsSound : (op : NodeOp) (db : Db) → IsSound db → IsSound (run_node_op op db)
unfolding upsert_proxy_nodes_by_name
run_node_op-IsSound (create now new_id node) db s = create-IsSound now new_id node db s
run_node_op-IsSound (upsert now new_ids inputs) db s =
    settle_keeps IsSound db _ _ s (upsert_rounds-IsSound now new_ids inputs 0 db s)
run_node_op-IsSound (update now node) db s = update-IsSound now node db s
run_node_op-IsSound (delete id) db s = delete-IsSound id db s

-- Whatever sequence of node operations runs, failing ones included, the table holds only nodes that
-- pass the checks and need no default, and no two of them share an id or a name.
pub run_node_ops-IsSound :
    (ops : List NodeOp) (db : Db) → IsSound db → IsSound (run_node_ops ops db)
run_node_ops-IsSound [] db s = s
run_node_ops-IsSound (op ∷ ops) db s =
    run_node_ops-IsSound ops (run_node_op op db) (run_node_op-IsSound op db s)
