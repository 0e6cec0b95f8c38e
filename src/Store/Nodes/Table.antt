-- ===== src/Store/Nodes/Table.antt =====
-- The invariant of the table of nodes, and that every operation keeps it.
use proxy_control_plane.Base.{
  Text, Bool, true, false, not, ◌&&◌, ◌||◌, List, [], ◌∷◌, ◌≡◌, inl, inr, refl, str_eq, str_eq_iff,
  arith, Bool-cases, All, All-append, any,
}
use proxy_control_plane.Domain.{Time, ProxyNode}
use proxy_control_plane.Store.{invalid, Db, guard}
use proxy_control_plane.Store.Unique.{UniqueBy, UniqueBy-append_one}
use proxy_control_plane.Store.Nodes.{
  valid_port, valid_node_runtime, valid_runtime_api_config, check_node, insert_node, replace_node,
  save_node,
}
use proxy_control_plane.Store.Nodes.Defaults.{IsSettled, IsReady}

pub record IsSound (db : Db) : Type 0 where
  pub ready : All IsReady db.nodes
  pub ids : UniqueBy (λ n. n.id) db.nodes
  pub names : UniqueBy (λ n. n.name) db.nodes

-- Columns that no check reads.
pub IsReady-same :
    (n : ProxyNode) (id : Text) (enabled : Bool) (created updated : Time)
    → IsReady n
    → IsReady (record n { id = id; enabled = enabled; created_at = created; updated_at = updated })
unfolding valid_runtime_api_config
IsReady-same n id enabled created updated r = record {
  runtime = r.runtime;
  port = r.port;
  api = r.api;
  settled = record {
    runtime = r.settled.runtime;
    named = r.settled.named;
    protocol = r.settled.protocol;
    port = r.settled.port;
    transport = r.settled.transport;
    security = r.settled.security;
    path = r.settled.path;
    tag = r.settled.tag;
  };
}

abbrev pub passes : ProxyNode → Bool
passes n = valid_node_runtime n.runtime && (valid_port n.port && valid_runtime_api_config n)

-- The three checks together.
pub check_node_lem : (n : ProxyNode) (db : Db) → check_node n db ≡ guard (passes n) invalid db
unfolding check_node
check_node_lem n db = ground arith

pub IsReady-passes : (n : ProxyNode) → passes n ≡ true → IsSettled n → IsReady n
IsReady-passes n h s = record {
  runtime = ground arith;
  port = ground arith;
  api = ground arith;
  settled = s;
}

any-or :
    (p q : ProxyNode → Bool) (ns : List ProxyNode)
    → any (λ n. p n || q n) ns ≡ false
    → (any p ns ≡ false) × (any q ns ≡ false)
any-or p q [] h = (refl, refl)
any-or p q (n ∷ ns) h = let ih = any-or p q ns (ground arith) in ground arith

pub insert_node-IsSound :
    (now : Time) (n : ProxyNode) (db : Db)
    → IsReady n
    → IsSound db
    → IsSound (insert_node now n db).1
unfolding insert_node
insert_node-IsSound now n db r s =
    elim (Bool-cases (any (λ m. str_eq m.id n.id || str_eq m.name n.name) db.nodes)) [
      | inl taken ↦ rw taken s
      | inr free ↦
          let (new_id, new_name) =
            any-or (λ m. str_eq m.id n.id) (λ m. str_eq m.name n.name) db.nodes free in
          rw free (record {
            ready = All-append IsReady db.nodes _ s.ready (IsReady-same n n.id n.enabled _ _ r, tt);
            ids = UniqueBy-append_one (λ m. m.id) db.nodes _ new_id s.ids;
            names = UniqueBy-append_one (λ m. m.name) db.nodes _ new_name s.names;
          })
    ]

module _ (row : ProxyNode) where
  replace-absent :
      (ns : List ProxyNode) → any (λ n. str_eq n.id row.id) ns ≡ false → replace_node row ns ≡ ns
  unfolding replace_node
  replace-absent [] h = refl
  replace-absent (n ∷ ns) h = ground (arith, replace-absent ns)

  any_id-replace :
      (k : Text) (ns : List ProxyNode)
      → any (λ n. str_eq n.id k) (replace_node row ns) ≡ any (λ n. str_eq n.id k) ns
  unfolding replace_node
  any_id-replace k [] = refl
  any_id-replace k (n ∷ ns) = ground (arith, any_id-replace k ns, str_eq_iff n.id row.id)

  ids-replace :
      (ns : List ProxyNode) → UniqueBy (λ n. n.id) ns → UniqueBy (λ n. n.id) (replace_node row ns)
  unfolding replace_node
  ids-replace [] u = tt
  ids-replace (n ∷ ns) (new, u) = ground (
    arith,
    any_id-replace n.id ns,
    any_id-replace row.id ns,
    ids-replace ns u,
    str_eq_iff n.id row.id,
  )

  -- No row but the replaced one has the new name.
  abbrev IsFreeName : List ProxyNode → Type 0
  IsFreeName ns = any (λ n. not (str_eq n.id row.id) && str_eq n.name row.name) ns ≡ false

  any_name-replace :
      (k : Text) (ns : List ProxyNode)
      → any (λ n. str_eq n.name k) ns ≡ false
      → str_eq row.name k ≡ false
      → any (λ n. str_eq n.name k) (replace_node row ns) ≡ false
  unfolding replace_node
  any_name-replace k [] h e = h
  any_name-replace k (n ∷ ns) h e = ground (arith, any_name-replace k ns)

  free_absent :
      (ns : List ProxyNode)
      → IsFreeName ns
      → any (λ n. str_eq n.id row.id) ns ≡ false
      → any (λ n. str_eq n.name row.name) ns ≡ false
  free_absent [] f h = refl
  free_absent (n ∷ ns) f h = ground (arith, free_absent ns)

  names-replace :
      (ns : List ProxyNode)
      → IsFreeName ns
      → UniqueBy (λ n. n.id) ns
      → UniqueBy (λ n. n.name) ns
      → UniqueBy (λ n. n.name) (replace_node row ns)
  unfolding replace_node
  names-replace [] f i u = tt
  names-replace (n ∷ ns) f (new_id, i) (new, u) = elim (Bool-cases (str_eq n.id row.id)) [
    | inl same ↦
        let absent : any (λ m. str_eq m.id row.id) ns ≡ false =
          rw ((str_eq_iff n.id row.id).0 same) at new_id in
        rw (same, replace-absent ns absent) (free_absent ns (ground arith) absent, u)
    | inr differs ↦ rw differs (
      any_name-replace n.name ns new
          (ground (arith, str_eq_iff n.name row.name, str_eq_iff row.name n.name)),
      names-replace ns (ground arith) i u,
    )
  ]

  replace-IsReady :
      IsReady row → (ns : List ProxyNode) → All IsReady ns → All IsReady (replace_node row ns)
  unfolding replace_node
  replace-IsReady r [] h = tt
  replace-IsReady r (n ∷ ns) (here, h) = elim (Bool-cases (str_eq n.id row.id)) [
    | inl same ↦ rw same (r, replace-IsReady r ns h)
    | inr differs ↦ rw differs (here, replace-IsReady r ns h)
  ]

pub save_node-IsSound :
    (now : Time) (n : ProxyNode) (db : Db) → IsReady n → IsSound db → IsSound (save_node now n db).1
unfolding save_node
save_node-IsSound now n db r s =
    elim (Bool-cases (any (λ m. not (str_eq m.id n.id) && str_eq m.name n.name) db.nodes)) [
      | inl taken ↦ rw taken s
      | inr free ↦
          let row : ProxyNode = record n { updated_at = now } in
          rw free (record {
            ready =
                replace-IsReady row (IsReady-same n n.id n.enabled n.created_at now r) db.nodes
                  s.ready;
            ids = ids-replace row db.nodes s.ids;
            names = names-replace row db.nodes free s.ids s.names;
          })
    ]
