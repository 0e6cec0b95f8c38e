-- ===== src/HttpApi/Nodes/Synced.antt =====
-- What `syncNodes` does to the nodes, and what it reports.
use proxy_control_plane.Base.{
  ℕ, ◌+◌, Text, Bool, true, false, Option, none, some, List, [], ◌∷◌, map, mem, any, ◌≡◌, refl, ap,
  ◌∙◌, arith, inl, inr, Result, ok, err, Result-cases, Option-cases, str_eq, str_eq_iff,
  str_eq_refl,
}
use proxy_control_plane.Domain.{Time, ProxyNode}
use proxy_control_plane.Store.{Error, Db}
use proxy_control_plane.Store.Unique.{UniqueBy}
use proxy_control_plane.Store.Nodes.{
  ProxyNodeUpsert, find_by_name, upsert_proxy_node_by_name_tx, upsert_rounds,
  upsert_proxy_nodes_by_name,
}
use proxy_control_plane.Store.Nodes.Upsert.{upsert_existing, upsert_new, upsert_batch_atomic}
use proxy_control_plane.HttpApi.Action.{Failure, Request}
use proxy_control_plane.HttpApi.Nodes.{
  NodeRequest, NodeSyncResult, item_name, check_item, check_items, upsert_of, node_of, sync_result,
  sync_nodes,
}

module _ (counts : ℕ → ℕ → ℕ → Text) (req : Request) (new_ids : ℕ → Result Error Text)
    (actor : Text) where
  -- A synchronisation of nodes that is answered with an error, of the checks or of the store, has
  -- changed nothing.
  pub sync_nodes_atomic :
      (body : Option (List NodeRequest)) (db : Db) (e : Failure)
      → (sync_nodes counts req new_ids actor body db).0 ≡ err e
      → (sync_nodes counts req new_ids actor body db).1 ≡ db
  unfolding sync_nodes
  sync_nodes_atomic none db e h = refl
  sync_nodes_atomic (some []) db e h = refl
  sync_nodes_atomic (some (item ∷ items)) db e h =
      elim (Result-cases (check_items [] (item ∷ items))) [
        | inr (x, f) ↦ ground (arith, f)
        | inl (inputs, f) ↦
            elim (Result-cases (upsert_proxy_nodes_by_name req.now new_ids inputs db).0) [
              | inr (x, g) ↦ ground (arith, f, g, upsert_batch_atomic req.now new_ids inputs db x g)
              | inl (rows, g) ↦ absurd (ground (arith, f, g, h))
            ]
      ]

-- The row of an upsert that succeeds has the name that was given.
upsert_name :
    (now : Time) (new_id : Result Error Text) (given : ProxyNode) (preserve : Bool) (db after : Db)
    (row : ProxyNode) (created : Bool)
    → upsert_proxy_node_by_name_tx now new_id given preserve db ≡ (ok (row, created), after)
    → row.name ≡ given.name
upsert_name now new_id given preserve db after row created h =
    elim (Option-cases (find_by_name given.name db.nodes)) [
      | inl e ↦ (upsert_new now new_id given preserve db row created after h e).1
      | inr (x, e) ↦ (upsert_existing now new_id given preserve db row created after h x e).2
    ]

upsert_rounds_names :
    (now : Time) (new_ids : ℕ → Result Error Text) (i : ℕ) (inputs : List ProxyNodeUpsert)
    (db after : Db) (rows : List (ProxyNode × Bool))
    → upsert_rounds now new_ids i inputs db ≡ (ok rows, after)
    → map (λ r. r.0.name) rows ≡ map (λ u. u.node.name) inputs
unfolding upsert_rounds
upsert_rounds_names now new_ids i [] db after rows h = ground (arith, h)
upsert_rounds_names now new_ids i (input ∷ inputs) db after rows h =
    let first = upsert_proxy_node_by_name_tx now (new_ids i) input.node input.preserve_enabled in
    elim (Result-cases (first db).0) [
      | inr (x, e) ↦ absurd (ground (arith, e, h))
      | inl (row, e) ↦
          let later = upsert_rounds now new_ids (i + 1) inputs in
          elim (Result-cases (later (first db).1).0) [
            | inr (x, f) ↦ absurd (ground (arith, e, f, h))
            | inl (rest, f) ↦
                let named =
                  upsert_name now (new_ids i) input.node input.preserve_enabled db (first db).1
                    row.0 row.1 (λ k. (e k, (first db).1)) in
                let names =
                  upsert_rounds_names now new_ids (i + 1) inputs (first db).1 (later (first db).1).1
                    rest (λ k. (f k, (later (first db).1).1)) in
                let rows_eq : rows ≡ row ∷ rest = ground (arith, e, f, h) in
                ap (map (λ r. r.0.name)) rows_eq ∙ (λ k. named k ∷ names k)
          ]
    ]

check_item-eq :
    (seen : List Text) (item : NodeRequest) (input : ProxyNodeUpsert)
    → check_item seen item ≡ ok input
    → (input ≡ upsert_of item)
      × (mem (item_name item) seen ≡ false)
      × (str_eq (item_name item) [] ≡ false)
unfolding check_item
check_item-eq seen item input h = (ground (arith, h), ground (arith, h), ground (arith, h))

-- The items of a list that passes.
check_items_cons :
    (seen : List Text) (item : NodeRequest) (items : List NodeRequest)
    (inputs : List ProxyNodeUpsert)
    → check_items seen (item ∷ items) ≡ ok inputs
    → (input : ProxyNodeUpsert) × (rest : List ProxyNodeUpsert) × (inputs ≡ input ∷ rest)
      × (check_item seen item ≡ ok input)
      × (check_items (item_name item ∷ seen) items ≡ ok rest)
unfolding check_items
check_items_cons seen item items inputs h = elim (Result-cases (check_item seen item)) [
  | inr (x, e) ↦ absurd (ground (arith, e, h))
  | inl (input, e) ↦ elim (Result-cases (check_items (item_name item ∷ seen) items)) [
    | inr (x, f) ↦ absurd (ground (arith, e, f, h))
    | inl (rest, f) ↦ (input, rest, ground (arith, e, f, h), e, f)
  ]
]

-- Every item becomes an input under its name.
check_items-names :
    (seen : List Text) (items : List NodeRequest) (inputs : List ProxyNodeUpsert)
    → check_items seen items ≡ ok inputs
    → map (λ u. u.node.name) inputs ≡ map item_name items
unfolding check_items upsert_of node_of
check_items-names seen [] inputs h = ground (arith, h)
check_items-names seen (item ∷ items) inputs h =
    let (input, rest, inputs_eq, e, f) = check_items_cons seen item items inputs h in
    ap (map (λ u. u.node.name)) inputs_eq ∙ (λ k.
      ((check_item-eq seen item input e).0 k).node.name
      ∷ check_items-names (item_name item ∷ seen) items rest f k)

unseen :
    (seen : List Text) (k : Text) (items : List NodeRequest) (inputs : List ProxyNodeUpsert)
    → check_items seen items ≡ ok inputs
    → mem k seen ≡ true
    → any (λ i. str_eq (item_name i) k) items ≡ false
unfolding mem
unseen seen k [] inputs h known = refl
unseen seen k (item ∷ items) inputs h known =
    let (input, rest, inputs_eq, e, f) = check_items_cons seen item items inputs h in
    ground (
      arith,
      (check_item-eq seen item input e).1,
      unseen (item_name item ∷ seen) k items rest f,
      str_eq_iff (item_name item) k,
    )

check_items-UniqueBy :
    (seen : List Text) (items : List NodeRequest) (inputs : List ProxyNodeUpsert)
    → check_items seen items ≡ ok inputs
    → UniqueBy item_name items
unfolding mem
check_items-UniqueBy seen [] inputs h = tt
check_items-UniqueBy seen (item ∷ items) inputs h =
    let (input, rest, inputs_eq, e, f) = check_items_cons seen item items inputs h in
    (
      unseen (item_name item ∷ seen) (item_name item) items rest f
          (ground (arith, str_eq_refl (item_name item))),
      check_items-UniqueBy (item_name item ∷ seen) items rest f,
    )

batch_names :
    (now : Time) (new_ids : ℕ → Result Error Text) (inputs : List ProxyNodeUpsert) (db : Db)
    (rows : List (ProxyNode × Bool))
    → (upsert_proxy_nodes_by_name now new_ids inputs db).0 ≡ ok rows
    → map (λ r. r.0.name) rows ≡ map (λ u. u.node.name) inputs
unfolding upsert_proxy_nodes_by_name
batch_names now new_ids inputs db rows h =
    let rounds = upsert_rounds now new_ids 0 inputs in
    elim (Result-cases (rounds db).0) [
      | inr (x, e) ↦ absurd (ground (arith, e, h))
      | inl (given, e) ↦
          let same : (rounds db).0 ≡ ok rows = ground (arith, e, h) in
          upsert_rounds_names now new_ids 0 inputs db (rounds db).1 rows
            (λ k. (same k, (rounds db).1))
    ]

-- A result has the name of its row.
results-names :
    (rows : List (ProxyNode × Bool))
    → map (λ r. r.name) (map sync_result rows) ≡ map (λ r. r.0.name) rows
unfolding sync_result
results-names [] = refl
results-names (row ∷ rows) = λ k. row.0.name ∷ results-names rows k

module _ (counts : ℕ → ℕ → ℕ → Text) (req : Request) (new_ids : ℕ → Result Error Text)
    (actor : Text) where
  -- A synchronisation of nodes that succeeds reports one result for each item of the request, in that
  -- order and under the item's trimmed name, and no two items have the same one.
  pub sync_nodes_named :
      (items : List NodeRequest) (db after : Db) (results : List NodeSyncResult)
      → sync_nodes counts req new_ids actor (some items) db ≡ (ok results, after)
      → (map (λ r. r.name) results ≡ map item_name items) × UniqueBy item_name items
  unfolding sync_nodes
  sync_nodes_named [] db after results h = absurd (ground (arith, h))
  sync_nodes_named (item ∷ items) db after results h =
      elim (Result-cases (check_items [] (item ∷ items))) [
        | inr (x, f) ↦ absurd (ground (arith, f, h))
        | inl (inputs, f) ↦
            elim (Result-cases (upsert_proxy_nodes_by_name req.now new_ids inputs db).0) [
              | inr (x, g) ↦ absurd (ground (arith, f, g, h))
              | inl (rows, g) ↦
                  let results_eq : results ≡ map sync_result rows = ground (arith, f, g, h) in
                  (
                    ap (map (λ r. r.name)) results_eq
                        ∙ (results-names rows
                            ∙ (batch_names req.now new_ids inputs db rows g
                                ∙ check_items-names [] (item ∷ items) inputs f)),
                    check_items-UniqueBy [] (item ∷ items) inputs f,
                  )
            ]
      ]
