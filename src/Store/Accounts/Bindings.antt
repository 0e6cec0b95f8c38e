-- ===== src/Store/Accounts/Bindings.antt =====
-- Which nodes an account is bound to after it is updated.
use proxy_control_plane.Base.{
  Text, Bool, true, false, not, ◌&&◌, ◌||◌, Option, some, List, [], ◌∷◌, ◌++◌, ◌≡◌, refl, ◌∙◌, any,
  keep, is_nil, str_eq, str_eq_iff, str_eq_refl, arith, Bool-cases, Option-cases, Result-cases, inl,
  inr, ok,
}
use proxy_control_plane.Domain.{Time, ProxyNode, ProxyAccount}
use proxy_control_plane.Store.{Binding, Db}
use proxy_control_plane.Store.Accounts.{
  mem_text, unique_strings_from, unique_strings, load_nodes_by_ids, find_account, is_bound,
  get_proxy_account, save_account, bind_all, replace_nodes, update_rows, update_proxy_account,
}

unfoldable pub has_node : Text → List ProxyNode → Bool
has_node k ns = any (λ n. str_eq n.id k) ns

module _ (k : Text) where
  mem-unique_from :
      (seen values : List Text)
      → (mem_text k (unique_strings_from seen values) || mem_text k seen)
        ≡ (mem_text k seen || (mem_text k values && not (str_eq k [])))
  unfolding unique_strings_from mem_text
  mem-unique_from seen [] = ground arith
  mem-unique_from seen (v ∷ values) = ground (
    arith,
    mem-unique_from seen values,
    mem-unique_from (v ∷ seen) values,
    str_eq_iff v k,
    str_eq_iff v [],
    str_eq_iff k [],
  )

  pub mem-unique_strings :
      (values : List Text)
      → mem_text k (unique_strings values) ≡ (mem_text k values && not (str_eq k []))
  unfolding unique_strings
  mem-unique_strings values =
      let nothing : mem_text k [] ≡ false = unfold mem_text in refl in
      ground (arith, mem-unique_from [] values)

  has_node-keep :
      (ids : List Text) (ns : List ProxyNode)
      → has_node k (keep (λ n. mem_text n.id ids) ns) ≡ (mem_text k ids && has_node k ns)
  unfolding has_node
  has_node-keep ids [] = ground arith
  has_node-keep ids (n ∷ ns) = ground (arith, has_node-keep ids ns, str_eq_iff n.id k)

module _ (id k : Text) where
  bound-bind_all : (ns : List ProxyNode) → is_bound id k (bind_all id ns) ≡ has_node k ns
  unfolding is_bound bind_all has_node
  bound-bind_all [] = refl
  bound-bind_all (n ∷ ns) = ground (arith, bound-bind_all ns, str_eq_refl id)

  bound-others :
      (bs rest : List Binding)
      → is_bound id k (keep (λ b. not (str_eq b.proxy_account_id id)) bs ++ rest)
        ≡ is_bound id k rest
  unfolding is_bound
  bound-others [] rest = refl
  bound-others (b ∷ bs) rest = ground (arith, bound-others bs rest)

  bound_other-bind_all :
      (other : Text) (ns : List ProxyNode)
      → str_eq other id ≡ false
      → is_bound other k (bind_all id ns) ≡ false
  unfolding is_bound bind_all
  bound_other-bind_all other [] h = refl
  bound_other-bind_all other (n ∷ ns) h =
      ground (arith, bound_other-bind_all other ns h, str_eq_iff id other, str_eq_iff other id)

  bound_other-others :
      (other : Text) (bs rest : List Binding)
      → str_eq other id ≡ false
      → is_bound other k rest ≡ false
      → is_bound other k (keep (λ b. not (str_eq b.proxy_account_id id)) bs ++ rest)
        ≡ is_bound other k bs
  unfolding is_bound
  bound_other-others other [] rest h none_there = none_there
  bound_other-others other (b ∷ bs) rest h none_there = ground (
    arith,
    bound_other-others other bs rest h none_there,
    str_eq_iff b.proxy_account_id other,
    str_eq_iff b.proxy_account_id id,
    str_eq_iff other id,
  )

-- The nodes that are loaded for a list of ids; a load writes nothing.
loaded :
    (ids : List Text) (nodes : List ProxyNode) (k : Text) (db : Db)
    → (load_nodes_by_ids (some ids) db).0 ≡ ok nodes
    → has_node k nodes ≡ ((mem_text k ids && not (str_eq k [])) && has_node k db.nodes)
unfolding load_nodes_by_ids
loaded ids nodes k db h = elim (Bool-cases (is_nil (unique_strings ids))) [
  | inl e ↦
      let empty : nodes ≡ [] = ground (arith, e) in
      rw empty (ground (arith, mem-unique_strings k ids, nil_mem (unique_strings ids) e, none_has))
  | inr e ↦
      let chosen : nodes ≡ keep (λ n. mem_text n.id (unique_strings ids)) db.nodes =
        ground (arith, e) in
      rw chosen
        (ground (arith, mem-unique_strings k ids, has_node-keep k (unique_strings ids) db.nodes))
]
  where
    nil_mem : (l : List Text) → is_nil l ≡ true → mem_text k l ≡ false
    nil_mem [] e = unfold mem_text in refl
    nil_mem (x ∷ l) e = absurd (ground arith)

    none_has : has_node k [] ≡ false
    none_has = unfold has_node in refl

load_writes_nothing : (ids : Option (List Text)) (db : Db) → (load_nodes_by_ids ids db).1 ≡ db
unfolding load_nodes_by_ids
load_writes_nothing ids db = ground arith

module _ (now : Time) (account : ProxyAccount) (db after : Db) (row : ProxyAccount)
    (done : update_proxy_account now account db ≡ (ok row, after)) where
  update_inversion :
      (ids : List Text)
      → account.node_ids ≡ some ids
      → (nodes : List ProxyNode) × (((load_nodes_by_ids (some ids) db).0 ≡ ok nodes)
          × (after.bindings
              ≡ keep (λ b. not (str_eq b.proxy_account_id account.id)) db.bindings
                ++ bind_all account.id nodes))
  unfolding update_proxy_account update_rows get_proxy_account save_account replace_nodes
  update_inversion ids given = elim (Option-cases (find_account account.id db.accounts)) [
    | inl e ↦ absurd (ground arith)
    | inr (current, e) ↦ elim (Result-cases (load_nodes_by_ids (some ids) db).0) [
      | inr (x, r) ↦ absurd (ground (arith, load_writes_nothing (some ids) db))
      | inl (nodes, r) ↦ (nodes, (r, ground (arith, load_writes_nothing (some ids) db)))
    ]
  ]

  -- An update with a list of node ids that succeeds leaves the account bound to exactly the nodes of
  -- the table that the list names, empty names aside, and every other account bound as it was.
  pub update_account_binds :
      (k : Text) (ids : List Text) (other : Text)
      → account.node_ids ≡ some ids
      → str_eq other account.id ≡ false
      → (is_bound account.id k after.bindings
          ≡ ((mem_text k ids && not (str_eq k [])) && has_node k db.nodes))
        × (is_bound other k after.bindings ≡ is_bound other k db.bindings)
  update_account_binds k ids other given differs =
      let (nodes, (r, e)) = update_inversion ids given in
      rw e (
        bound-others account.id k db.bindings (bind_all account.id nodes)
            ∙ bound-bind_all account.id k nodes
            ∙ loaded ids nodes k db r,
        bound_other-others account.id k other db.bindings (bind_all account.id nodes) differs
            (bound_other-bind_all account.id k other nodes differs),
      )
