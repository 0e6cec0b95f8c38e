-- ===== src/RuntimeSync/Backed/Served.antt =====
-- What the runtime of a node holds for an account that it is to serve.
use proxy_control_plane.Base.{
  Text, true, false, ◌&&◌, Option, none, some, List, [], ◌∷◌, ◌≡◌, ◌≢◌, refl, ◌∙◌, ap, any, find,
  All, All-keep, get, str_eq, str_eq_iff, trim_space, trim_space_idem, equal_fold, arith,
  Bool-cases, inl, inr,
}
use proxy_control_plane.Domain.{Time, ProxyNode, ProxyAccount, runtime_proxy_account_email}
use proxy_control_plane.Domain.Email.{email_iff, trim-email, email-ne-nil}
use proxy_control_plane.RuntimeSync.{
  RuntimeClient, World, sync_node, normalize_user, users_by_email,
}
use proxy_control_plane.RuntimeSync.Laws.{Credential, IsRuntime}
use proxy_control_plane.RuntimeSync.Tables.{get-only}
use proxy_control_plane.RuntimeSync.Reconcile.{Agrees}
use proxy_control_plane.RuntimeSync.Sync.{sync_converges}
use proxy_control_plane.Store.{Db}
use proxy_control_plane.Store.Unique.{UniqueBy}
use proxy_control_plane.Store.Targets.{
  is_target, insert_by_id, sort_by_id, runtime_user, users_of, target_accounts,
  list_runtime_target_users,
}
use proxy_control_plane.RuntimeSync.Backed.{
  backed, has_id, may_serve, serves, any-targets, email_of,
}

module _ (P : ProxyAccount → Type 0) where
  All-insert :
      (a : ProxyAccount) (rows : List ProxyAccount) → P a → All P rows → All P (insert_by_id a rows)
  unfolding insert_by_id
  All-insert a [] p h = (p, tt)
  All-insert a (b ∷ rows) p (here, h) = ground (arith, All-insert a rows p h)

  All-sort : (rows : List ProxyAccount) → All P rows → All P (sort_by_id rows)
  unfolding sort_by_id
  All-sort [] h = tt
  All-sort (a ∷ rows) (here, h) = All-insert a (sort_by_id rows) here (All-sort rows h)

module _ (k : Text) (a : ProxyAccount) where
  abbrev IsOnly : ProxyAccount → Type 0
  IsOnly b = has_id k b ≡ true → b ≡ a

  absent-IsOnly : (rows : List ProxyAccount) → any (has_id k) rows ≡ false → All IsOnly rows
  absent-IsOnly [] h = tt
  absent-IsOnly (b ∷ rows) h = (λ e. absurd (ground arith), absent-IsOnly rows (ground arith))

  unique-IsOnly :
      (rows : List ProxyAccount)
      → UniqueBy (λ b. trim_space b.id) rows
      → find (has_id k) rows ≡ some a
      → All IsOnly rows
  unfolding has_id
  unique-IsOnly [] u there = tt
  unique-IsOnly (b ∷ rows) (new, u) there = elim (Bool-cases (has_id k b)) [
    | inl e ↦ (λ same. ground arith, absent-IsOnly rows (others e))
    | inr e ↦ (λ same. absurd (ground arith), unique-IsOnly rows u (ground arith))
  ]
    where
      others : has_id k b ≡ true → any (has_id k) rows ≡ false
      others e = rw ((str_eq_iff (trim_space b.id) k).0 e) at new

  found-serves :
      (node_id : Text) (now : Time) (db : Db) (rows : List ProxyAccount)
      → find (has_id k) rows ≡ some a
      → may_serve node_id now db a ≡ true
      → any (λ b. has_id k b && may_serve node_id now db b) rows ≡ true
  found-serves node_id now db [] there ok = absurd (ground arith)
  found-serves node_id now db (b ∷ rows) there ok = ground (arith, found-serves node_id now db rows)

  own_email : k ≢ [] → trim_space (runtime_proxy_account_email k) ≡ runtime_proxy_account_email k
  own_email named =
      trim-email (runtime_proxy_account_email k) k
        ((email_iff (runtime_proxy_account_email k) k).1 (named, refl))

  users-only :
      (rows : List ProxyAccount)
      → k ≢ []
      → All IsOnly rows
      → All
          (λ u.
            str_eq (normalize_user u).email (runtime_proxy_account_email k) ≡ true
            → normalize_user u ≡ normalize_user (runtime_user a))
          (users_of rows)
  unfolding users_of normalize_user runtime_user has_id
  users-only [] named h = tt
  users-only (b ∷ rows) named (only, h) = (
    λ e.
        let same : str_eq (trim_space b.id) k ≡ true =
          email_of k (trim_space b.id) named ((str_eq_iff _ (runtime_proxy_account_email k)).0 e) in
        ap (λ x. normalize_user (runtime_user x)) (only same),
    users-only rows named h,
  )

  users-there :
      (rows : List ProxyAccount)
      → k ≢ []
      → any (has_id k) rows ≡ true
      → any (λ u. str_eq (normalize_user u).email (runtime_proxy_account_email k)) (users_of rows)
        ≡ true
  unfolding users_of normalize_user runtime_user has_id
  users-there [] named h = absurd (ground arith)
  users-there (b ∷ rows) named h = ground (
    arith,
    users-there rows named,
    own_email named,
    str_eq_iff (trim_space b.id) k,
    str_eq_iff (trim_space (runtime_proxy_account_email (trim_space b.id)))
        (runtime_proxy_account_email k),
  )

credentials :
    (a : ProxyAccount) (o : Option Credential)
    → Agrees o (some (normalize_user (runtime_user a)))
    → (cr : Credential) × ((o ≡ some cr)
        × ((equal_fold (trim_space cr.uuid) (trim_space a.uuid) ≡ true)
            × (trim_space cr.flow ≡ trim_space a.flow)))
unfolding normalize_user runtime_user
credentials a none h = absurd h
credentials a (some cr) h = (
  cr,
  (
    refl,
    (
      rw (trim_space_idem (trim_space a.uuid), trim_space_idem a.uuid) at (h.0),
      h.1 ∙ trim_space_idem (trim_space a.flow) ∙ trim_space_idem a.flow,
    ),
  ),
)

-- After a run over the tables that succeeds and changed something, the runtime holds the UUID, up to
-- letter case, and the flow of each account that the node is to serve, under the e-mail of its id,
-- where the ids of the accounts are distinct.
pub sync_serves :
    (clock : Time) (c : RuntimeClient) (digest : Text → Text) (node : ProxyNode) (now : Time)
    (view : c.State → Text → Option Credential) (rt : IsRuntime c node view)
    (w : World (backed clock) c digest) (k : Text) (a : ProxyAccount)
    → k ≢ []
    → UniqueBy (λ b. trim_space b.id) w.db.accounts
    → find (has_id k) w.db.accounts ≡ some a
    → may_serve node.id now w.db a ≡ true
    → (sync_node (backed clock) c digest node now w).failure ≡ none
    → (sync_node (backed clock) c digest node now w).result.unchanged ≡ false
    → (cr : Credential) × ((view
            (sync_node (backed clock) c digest node now w).state.runtime
            (runtime_proxy_account_email k)
          ≡ some cr)
        × ((equal_fold (trim_space cr.uuid) (trim_space a.uuid) ≡ true)
            × (trim_space cr.flow ≡ trim_space a.flow)))
unfolding list_runtime_target_users
sync_serves clock c digest node now view rt w k a named unique there allowed done changed =
    let email = runtime_proxy_account_email k in
    let rows = target_accounts node.id now w.db in
    let only : All (IsOnly k a) rows =
      unfold target_accounts in
      All-sort (IsOnly k a) _ (
        All-keep (IsOnly k a) (is_target node.id now w.db) w.db.accounts
          (unique-IsOnly k a w.db.accounts unique there)) in
    let listed : any (has_id k) rows ≡ true =
      any-targets k node.id now w.db
      ∙ unfold serves in found-serves k a node.id now w.db w.db.accounts there allowed in
    let entry : get email (users_by_email (users_of rows))
        ≡ some (normalize_user (runtime_user a)) =
      get-only email (normalize_user (runtime_user a)) (users_of rows)
        (email-ne-nil email k ((email_iff email k).1 (named, refl)))
        (users-only k a rows named only) (users-there k a rows named listed) in
    let agrees =
      sync_converges (backed clock) c digest node now view rt w (users_of rows) email k refl done
        changed ((email_iff email k).1 (named, refl)) in
    credentials a _ (rw entry at agrees)
