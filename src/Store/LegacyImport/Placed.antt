-- ===== src/Store/LegacyImport/Placed.antt =====
-- Where an account of an import of internal/store/legacy_import.go stands afterwards.
use mathlib.Core.Path.{subst}
use proxy_control_plane.Base.{
  Text, Bool, true, ◌&&◌, ◌||◌, none, some, List, [], ◌∷◌, ◌++◌, ◌≡◌, refl, ap, sym, ◌∙◌, arith,
  inl, inr, Result, ok, Result-cases, Option-cases, Bool-cases, find, any, str_eq, str_eq_iff,
  str_eq_refl, trim_space,
}
use proxy_control_plane.Domain.{Time, ProxyAccount}
use proxy_control_plane.Store.{Error, Db, Binding, stamp}
use proxy_control_plane.Store.Accounts.{insert_account, is_bound}
use proxy_control_plane.Store.LegacyImport.{
  LegacyProxyAccountInput, find_by_uuid, new_account, upsert_account,
  upsert_legacy_proxy_account_by_uuid_tx, bind_proxy_account_node_tx,
}

-- Accounts and bindings are only added, and customers and nodes stay.
pub record Grows (db after : Db) : Type 0 where
  pub accounts :
      (uuid : Text) (a : ProxyAccount)
      → find_by_uuid uuid db.accounts ≡ some a
      → find_by_uuid uuid after.accounts ≡ some a
  pub bindings : (x y : Text) → is_bound x y db.bindings ≡ true → is_bound x y after.bindings ≡ true
  pub customers : after.customers ≡ db.customers
  pub nodes : after.nodes ≡ db.nodes

pub Grows-refl : (db : Db) → Grows db db
Grows-refl db = record {
  accounts = λ uuid a h. h;
  bindings = λ x y h. h;
  customers = refl;
  nodes = refl;
}

pub Grows-trans : (a b c : Db) → Grows a b → Grows b c → Grows a c
Grows-trans a b c g h = record {
  accounts = λ uuid x p. h.accounts uuid x (g.accounts uuid x p);
  bindings = λ x y p. h.bindings x y (g.bindings x y p);
  customers = h.customers ∙ g.customers;
  nodes = h.nodes ∙ g.nodes;
}

find-append :
    {A : Type 0} (p : A → Bool) (xs : List A) (r x : A)
    → find p xs ≡ some x
    → find p (xs ++ r ∷ []) ≡ some x
find-append p [] r x h = absurd (cc)
find-append p (y ∷ ys) r x h = ground (arith, find-append p ys r x)

pub find-append_new :
    {A : Type 0} (p : A → Bool) (xs : List A) (r : A)
    → find p xs ≡ none
    → p r ≡ true
    → find p (xs ++ r ∷ []) ≡ some r
find-append_new p [] r h own = ground (arith, own)
find-append_new p (y ∷ ys) r h own = ground (arith, find-append_new p ys r, own)

any-append_one :
    {A : Type 0} (p : A → Bool) (xs : List A) (r : A) → any p (xs ++ r ∷ []) ≡ (any p xs || p r)
any-append_one p [] r = ground arith
any-append_one p (y ∷ ys) r = ground (arith, any-append_one p ys r)

-- An account that an import accepts.
pub record Imported (customer_id account_id : Text) (input : LegacyProxyAccountInput) (db : Db)
    : Type 0 where
  pub row : ProxyAccount
  pub there : find_by_uuid input.uuid db.accounts ≡ some row
  pub id_eq : row.id ≡ account_id
  pub owned : str_eq row.customer_id customer_id ≡ true
  pub same_flow : str_eq (trim_space row.flow) (trim_space input.flow) ≡ true

-- The row that an INSERT adds.
insert_account_lem :
    (now : Time) (account : ProxyAccount) (db after : Db)
    → insert_account now account db ≡ (ok tt, after)
    → (row : ProxyAccount) × (row.id ≡ account.id)
      × (row.uuid ≡ account.uuid)
      × (row.customer_id ≡ account.customer_id)
      × (row.flow ≡ account.flow)
      × (after ≡ record db { accounts = db.accounts ++ row ∷ [] })
unfolding insert_account
insert_account_lem now account db after h = (
  record account {
    created_at = stamp now account.created_at;
    updated_at = stamp now account.updated_at;
  },
  refl,
  refl,
  refl,
  refl,
  ground (arith, h),
)

abbrev with_account : Db → ProxyAccount → Db
with_account db row = record db { accounts = db.accounts ++ row ∷ [] }

Grows-with_account : (db : Db) (row : ProxyAccount) → Grows db (with_account db row)
Grows-with_account db row = record {
  accounts =
      λ uuid a h. unfold find_by_uuid in find-append (λ x. str_eq x.uuid uuid) db.accounts row a h;
  bindings = λ x y h. h;
  customers = refl;
  nodes = refl;
}

upsert_new :
    (now : Time) (customer_id : Text) (account : ProxyAccount) (input : LegacyProxyAccountInput)
    (db after : Db)
    → insert_account now account db ≡ (ok tt, after)
    → find_by_uuid input.uuid db.accounts ≡ none
    → account.uuid ≡ input.uuid
    → account.customer_id ≡ customer_id
    → account.flow ≡ input.flow
    → Grows db after × Imported customer_id account.id input after
unfolding find_by_uuid
upsert_new now customer_id account input db after h absent uuid_eq owner_eq flow_eq =
    let (row, own_id, own_uuid, owner, flow, after_eq) =
      insert_account_lem now account db after h in
    subst (λ d. Grows db d × Imported customer_id account.id input d) (sym after_eq)
      (
        Grows-with_account db row,
        record {
          row = row;
          there =
              find-append_new (λ a. str_eq a.uuid input.uuid) db.accounts row absent
                ((str_eq_iff row.uuid input.uuid).1 (own_uuid ∙ uuid_eq));
          id_eq = own_id;
          owned = (str_eq_iff row.customer_id customer_id).1 (owner ∙ owner_eq);
          same_flow = (str_eq_iff _ _).1 (ap trim_space (flow ∙ flow_eq));
        },
      )

pub upsert_lem :
    (now : Time) (new_id : Result Error Text) (customer_id : Text) (input : LegacyProxyAccountInput)
    (db after : Db) (id : Text) (created : Bool)
    → upsert_legacy_proxy_account_by_uuid_tx now new_id customer_id input db
      ≡ (ok (id, created), after)
    → Grows db after × Imported customer_id id input after
unfolding upsert_legacy_proxy_account_by_uuid_tx upsert_account
upsert_lem now new_id customer_id input db after id created h =
    elim (Option-cases (find_by_uuid input.uuid db.accounts)) [
      | inr (row, e) ↦
          let same : db ≡ after = ground (arith, e, h) in
          subst (λ d. Grows db d × Imported customer_id id input d) same
            (
              Grows-refl db,
              record {
                row = row;
                there = e;
                id_eq = ground (arith, e, h);
                owned = ground (arith, e, h);
                same_flow = ground (arith, e, h);
              },
            )
      | inl e ↦ elim (Result-cases new_id) [
        | inr (x, f) ↦ absurd (ground (arith, e, f, h))
        | inl (k, f) ↦
            let account = new_account k customer_id input in
            elim (Result-cases (insert_account now account db).0) [
              | inr (x, g) ↦ absurd (ground (arith, e, f, g, h))
              | inl (u, g) ↦
                  let own : k ≡ id = ground (arith, e, f, g, h) in
                  let same : (insert_account now account db).1 ≡ after =
                    ground (arith, e, f, g, h) in
                  subst (λ j. Grows db after × Imported customer_id j input after) own
                    (upsert_new now customer_id account input db after (λ j. (g j, same j)) e refl
                      refl refl)
            ]
      ]
    ]

pub bind_lem :
    (account_id node_id : Text) (db after : Db) (bound : Bool)
    → bind_proxy_account_node_tx account_id node_id db ≡ (ok bound, after)
    → Grows db after × (is_bound account_id node_id after.bindings ≡ true)
unfolding bind_proxy_account_node_tx is_bound
bind_lem account_id node_id db after bound h =
    elim (Bool-cases (is_bound account_id node_id db.bindings)) [
      | inl e ↦
          let same : db ≡ after = ground (arith, e, h) in
          subst (λ d. Grows db d × (is_bound account_id node_id d.bindings ≡ true)) same
            (Grows-refl db, e)
      | inr e ↦
          let new : Binding = record { proxy_account_id = account_id; proxy_node_id = node_id } in
          let next : Db = record db { bindings = db.bindings ++ new ∷ [] } in
          let same : next ≡ after = ground (arith, e, h) in
          subst (λ d. Grows db d × (is_bound account_id node_id d.bindings ≡ true)) same
            (
              record {
                accounts = λ uuid a p. p;
                bindings = λ x y p. ground (
                  arith,
                  p,
                  any-append_one (λ b. str_eq b.proxy_account_id x && str_eq b.proxy_node_id y)
                      db.bindings new,
                );
                customers = refl;
                nodes = refl;
              },
              ground (
                arith,
                any-append_one
                    (λ b. str_eq b.proxy_account_id account_id && str_eq b.proxy_node_id node_id)
                    db.bindings new,
                str_eq_refl account_id,
                str_eq_refl node_id,
              ),
            )
    ]

pub still-Imported :
    (customer_id id : Text) (input : LegacyProxyAccountInput) (db after : Db)
    → Grows db after
    → Imported customer_id id input db
    → Imported customer_id id input after
still-Imported customer_id id input db after g t = record {
  row = t.row;
  there = g.accounts input.uuid t.row t.there;
  id_eq = t.id_eq;
  owned = t.owned;
  same_flow = t.same_flow;
}
