-- ===== src/RuntimeSync/Backed.antt =====
-- The synchronisation over the tables of internal/store: which accounts a node serves after a run.
pub mod Served
mod Tests
use proxy_control_plane.Base.{
  find, leb, Option-cases, not, Text, codes, Bool, true, false, ◌&&◌, Option, none, some, List, [],
  ◌∷◌, ◌≡◌, ◌≢◌, refl, sym, ◌∙◌, ap, any, keep, str_eq, str_eq_iff, str_eq_refl, trim_space,
  trim_left, trim_right, arith, Bool-cases, inl, inr, Result, ok, err, ◌||◌,
}
use proxy_control_plane.Domain.{
  Time, ProxyNode, ProxyAccount, runtime_proxy_account_email, proxy_account_id_from_runtime_email,
}
use proxy_control_plane.Domain.Email.{email_iff, trim-email, email-ne-nil}
use proxy_control_plane.RuntimeSync.{Store, RuntimeClient, World, sync_node, normalize_user}
use proxy_control_plane.RuntimeSync.Laws.{Credential, IsRuntime}
use proxy_control_plane.RuntimeSync.Tables.{get-absent}
use proxy_control_plane.RuntimeSync.Reconcile.{Agrees}
use proxy_control_plane.RuntimeSync.Sync.{sync_converges}
use proxy_control_plane.Store.{Error, not_found, conflict, invalid, other, Db}
use proxy_control_plane.Store.Customers.{find_customer}
use proxy_control_plane.Store.Accounts.{is_bound}
use proxy_control_plane.Store.Targets.{
  unexpired, customer_serves, is_target, insert_by_id, sort_by_id, runtime_user, users_of,
  target_accounts, list_runtime_target_users, mark_proxy_node_runtime_sync,
}

unfoldable pub error_text : Error → Text
error_text not_found = codes "not found"
error_text conflict = codes "conflict"
error_text invalid = codes "invalid input"
error_text (other e) = e

abbrev pub texts : {A : Type 0} → Result Error A → Result Text A
texts (ok a) = ok a
texts (err e) = err (error_text e)

abbrev failure : Result Error (Unit {0}) → Option Text
failure (ok u) = none
failure (err e) = some (error_text e)

-- The store as the synchronisation sees it; `clock` is the time of the database's own columns.
abbrev pub backed : Time → Store
backed clock = record {
  State = Db;
  list_runtime_target_users = λ node_id now db. texts (list_runtime_target_users node_id now db).0;
  mark_proxy_node_runtime_sync = λ node_id at e db. (
    failure (mark_proxy_node_runtime_sync clock node_id at e db).0,
    (mark_proxy_node_runtime_sync clock node_id at e db).1,
  );
}

-- An account row under an id, and one that the node is to serve.
unfoldable pub has_id : Text → ProxyAccount → Bool
has_id k a = str_eq (trim_space a.id) k

-- An expiry that is still to come.
abbrev lasts : Option Time → Time → Bool
lasts none now = true
lasts (some at) now = not (leb at now)

-- An enabled, unexpired VLESS account that is bound to the node, of an active, unexpired customer.
unfoldable pub may_serve : Text → Time → Db → ProxyAccount → Bool
may_serve node_id now db a =
    (a.enabled && (lasts a.expires_at now && str_eq a.protocol (codes "vless")))
    && (any (λ b. str_eq b.proxy_account_id a.id && str_eq b.proxy_node_id node_id) db.bindings
        && elim (find (λ c. str_eq c.id a.customer_id) db.customers) [
          | none ↦ false
          | some c ↦ lasts c.expires_at now && str_eq c.status (codes "active")
        ])

unfoldable pub serves : Text → Time → Db → Text → Bool
serves node_id now db k = any (λ a. has_id k a && may_serve node_id now db a) db.accounts

unexpired-lasts : (o : Option Time) (now : Time) → unexpired o now ≡ lasts o now
unfolding unexpired
unexpired-lasts none now = refl
unexpired-lasts (some at) now = ground arith

-- The query asks for just these accounts.
is_target-may_serve :
    (node_id : Text) (now : Time) (db : Db) (a : ProxyAccount)
    → is_target node_id now db a ≡ may_serve node_id now db a
unfolding is_target may_serve is_bound customer_serves find_customer
is_target-may_serve node_id now db a =
    elim (Option-cases (find (λ c. str_eq c.id a.customer_id) db.customers)) [
      | inl e ↦ rw e (ground arith)
      | inr (c, e) ↦
          rw e (ground (arith, unexpired-lasts a.expires_at now, unexpired-lasts c.expires_at now))
    ]

module _ (k : Text) where
  any-insert_by_id :
      (a : ProxyAccount) (rows : List ProxyAccount)
      → any (has_id k) (insert_by_id a rows) ≡ (has_id k a || any (has_id k) rows)
  unfolding insert_by_id
  any-insert_by_id a [] = refl
  any-insert_by_id a (b ∷ rows) = ground (arith, any-insert_by_id a rows)

  any-sort_by_id :
      (rows : List ProxyAccount) → any (has_id k) (sort_by_id rows) ≡ any (has_id k) rows
  unfolding sort_by_id
  any-sort_by_id [] = refl
  any-sort_by_id (a ∷ rows) =
      ground (arith, any-insert_by_id a (sort_by_id rows), any-sort_by_id rows)

  any-keep :
      (p : ProxyAccount → Bool) (rows : List ProxyAccount)
      → any (has_id k) (keep p rows) ≡ any (λ a. has_id k a && p a) rows
  any-keep p [] = refl
  any-keep p (a ∷ rows) = ground (arith, any-keep p rows)

  any-same :
      (node_id : Text) (now : Time) (db : Db) (rows : List ProxyAccount)
      → any (λ a. has_id k a && is_target node_id now db a) rows
        ≡ any (λ a. has_id k a && may_serve node_id now db a) rows
  any-same node_id now db [] = refl
  any-same node_id now db (a ∷ rows) =
      rw (is_target-may_serve node_id now db a, any-same node_id now db rows) refl

  pub any-targets :
      (node_id : Text) (now : Time) (db : Db)
      → any (has_id k) (target_accounts node_id now db) ≡ serves node_id now db k
  unfolding target_accounts serves
  any-targets node_id now db =
      any-sort_by_id (keep (is_target node_id now db) db.accounts)
      ∙ any-keep (is_target node_id now db) db.accounts
      ∙ any-same node_id now db db.accounts

  -- The tag of an account is that of no other id.
  pub email_of :
      (t : Text)
      → k ≢ []
      → trim_space (runtime_proxy_account_email t) ≡ runtime_proxy_account_email k
      → str_eq t k ≡ true
  unfolding trim_space trim_left trim_right
  email_of t named h =
      let own : proxy_account_id_from_runtime_email (runtime_proxy_account_email k) ≡ some k =
        (email_iff (runtime_proxy_account_email k) k).1 (named, refl) in
      elim (Bool-cases (str_eq t [])) [
        | inl e ↦
            let empty : runtime_proxy_account_email t ≡ [] =
              unfold runtime_proxy_account_email in ground (arith, e) in
            absurd
              (email-ne-nil (runtime_proxy_account_email k) k own (sym h ∙ ap trim_space empty))
        | inr e ↦
            let theirs : proxy_account_id_from_runtime_email (runtime_proxy_account_email t)
                ≡ some t =
              (email_iff (runtime_proxy_account_email t) t).1
                ((λ p. cc (p, e, str_eq_refl t, str_eq_refl [])), refl) in
            let same : runtime_proxy_account_email t ≡ runtime_proxy_account_email k =
              sym (trim-email (runtime_proxy_account_email t) t theirs) ∙ h in
            (str_eq_iff t k).1 (cc (own, theirs, same))
      ]

  no_user :
      (rows : List ProxyAccount)
      → k ≢ []
      → any (has_id k) rows ≡ false
      → any (λ u. str_eq (normalize_user u).email (runtime_proxy_account_email k)) (users_of rows)
        ≡ false
  unfolding users_of runtime_user normalize_user has_id
  no_user [] named h = refl
  no_user (a ∷ rows) named h = ground (
    arith,
    no_user rows named,
    email_of (trim_space a.id) named,
    str_eq_iff (trim_space (runtime_proxy_account_email (trim_space a.id)))
        (runtime_proxy_account_email k),
  )

-- After a run over the tables that succeeds and changed something, no user stands in the runtime
-- under the e-mail of an id for which the node has no account to serve: none with that id, or only
-- ones that are unbound, disabled, expired, of another protocol, or of a customer who is not active
-- or has expired.
pub sync_drops_unserved :
    (clock : Time) (c : RuntimeClient) (digest : Text → Text) (node : ProxyNode) (now : Time)
    (view : c.State → Text → Option Credential) (rt : IsRuntime c node view)
    (w : World (backed clock) c digest) (k : Text)
    → k ≢ []
    → serves node.id now w.db k ≡ false
    → (sync_node (backed clock) c digest node now w).failure ≡ none
    → (sync_node (backed clock) c digest node now w).result.unchanged ≡ false
    → view
        (sync_node (backed clock) c digest node now w).state.runtime
        (runtime_proxy_account_email k)
      ≡ none
unfolding list_runtime_target_users
sync_drops_unserved clock c digest node now view rt w k named unserved done changed =
    let email = runtime_proxy_account_email k in
    let rows = target_accounts node.id now w.db in
    let agrees =
      sync_converges (backed clock) c digest node now view rt w (users_of rows) email k refl done
        changed ((email_iff email k).1 (named, refl)) in
    let absent =
      get-absent email (users_of rows)
        (no_user k rows named (any-targets k node.id now w.db ∙ unserved)) in
    agrees_none _ (rw absent at agrees)
  where
    agrees_none : (o : Option Credential) → Agrees o none → o ≡ none
    agrees_none none h = refl
    agrees_none (some cr) h = absurd h
