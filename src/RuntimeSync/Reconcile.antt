-- ===== src/RuntimeSync/Reconcile.antt =====
-- Reconciliation of the runtime's managed users with the target users.
use proxy_control_plane.Base.{
  Text, true, ◌&&◌, Option, none, some, List, ◌≡◌, refl, ◌∙◌, arith, str_eq_iff, str_eq_refl,
  if◌then◌else◌, is_some, get, mem, Dict, Bool-cases, Option-cases, inl, inr, trim_space,
  trim_space_idem, equal_fold, ok,
}
use proxy_control_plane.Domain.{ProxyNode, RuntimeUser, proxy_account_id_from_runtime_email}
use proxy_control_plane.RuntimeSync.{
  RuntimeClient, NodeResult, matches, user_at, same_user, remove_stale, reconcile, normalize_user,
  managed_users, users_by_email, sorted_map_keys,
}
use proxy_control_plane.RuntimeSync.Laws.{
  Credential, credential, find_user, IsRuntime, is_stale, is_missing, view-remove_stale,
  view-add_missing, view-remove_stale_other, view-add_missing_other,
}
use proxy_control_plane.RuntimeSync.Tables.{
  mem-sorted_map_keys, IsTrimmed, users_by_email-IsTrimmed, managed_entry, get-managed,
}

-- The runtime's entry for an e-mail is the one that is wanted: both absent, or the same UUID up to
-- letter case and the same flow, white space at the ends aside.
abbrev pub Agrees : Option Credential → Option RuntimeUser → Type 0
Agrees none none = Unit
Agrees none (some u) = ⊥
Agrees (some cr) none = ⊥
Agrees (some cr) (some u) =
    (equal_fold (trim_space cr.uuid) (trim_space u.uuid) ≡ true)
    × (trim_space cr.flow ≡ trim_space u.flow)

Agrees-same_user :
    (id email : Text) (cr : Credential) (u : RuntimeUser)
    → same_user (managed_entry id email cr) u ≡ true
    → Agrees (some cr) (some u)
unfolding same_user normalize_user
Agrees-same_user id email cr u h = ground (
  arith,
  trim_space_idem cr.uuid,
  trim_space_idem cr.flow,
  str_eq_iff (trim_space (trim_space cr.flow)) (trim_space u.flow),
)

Agrees-self : (u : RuntimeUser) → Agrees (some (credential u)) (some u)
Agrees-self u = (str_eq_refl _, refl)

-- The entry after both loops, from the runtime's old entry and the two map entries.
abbrev reconciled : Option Credential → Option RuntimeUser → Option RuntimeUser → Option Credential
reconciled old listed none = if is_some listed then none else old
reconciled old none (some t) = some (credential t)
reconciled old (some u) (some t) = if same_user u t then old else some (credential t)

Agrees-reconciled :
    (id email : Text) (old : Option Credential) (wanted : Option RuntimeUser)
    → Agrees
        (reconciled old
          (elim old [ none ↦ none | some cr ↦ some (managed_entry id email cr) ])
          wanted)
        wanted
Agrees-reconciled id email none none = tt
Agrees-reconciled id email none (some t) = Agrees-self t
Agrees-reconciled id email (some cr) none = tt
Agrees-reconciled id email (some cr) (some t) =
    elim (Bool-cases (same_user (managed_entry id email cr) t)) [
      | inl e ↦ rw e (Agrees-same_user id email cr t e)
      | inr e ↦ rw e (Agrees-self t)
    ]

module _ (c : RuntimeClient) (node : ProxyNode) (view : c.State → Text → Option Credential)
    (rt : IsRuntime c node view) (target runtime : Dict RuntimeUser)
    (trimmed : IsTrimmed target) where
  own_key : (k : Text) → mem k (sorted_map_keys target) ≡ true → (user_at k target).email ≡ k
  own_key k h = elim (Option-cases (get k target)) [
    | inl e ↦ ground (arith, mem-sorted_map_keys k target)
    | inr (u, e) ↦ ground (arith, trimmed.own k u e)
  ]

  -- The table after both loops have succeeded.
  view-reconcile :
      (r : NodeResult) (s : c.State) (email : Text)
      → (reconcile c node target runtime r s).failure ≡ none
      → view ((reconcile c node target runtime r s).state) email ≡ (
          if is_some (get email target) && is_missing c node view rt target runtime email
          then some (credential (user_at email target))
          else if is_some (get email runtime) && is_stale c node view rt target runtime email
          then none
          else view s email)
  unfolding reconcile
  view-reconcile r s email h =
      let removal = remove_stale c node target runtime (sorted_map_keys runtime) r s in
      ground (
        arith,
        view-remove_stale c node view rt target runtime (sorted_map_keys runtime) r s email,
        view-add_missing c node view rt target runtime (sorted_map_keys target) removal.result
            removal.state email own_key,
        mem-sorted_map_keys email runtime,
        mem-sorted_map_keys email target,
      )

  view-reconcile_lem :
      (r : NodeResult) (s : c.State) (email : Text)
      → (reconcile c node target runtime r s).failure ≡ none
      → view ((reconcile c node target runtime r s).state) email
        ≡ reconciled (view s email) (get email runtime) (get email target)
  unfolding matches
  view-reconcile_lem r s email h = view-reconcile r s email h ∙ ground arith

  -- An e-mail in neither map keeps its entry, also when a loop fails.
  pub view-reconcile_other :
      (r : NodeResult) (s : c.State) (email : Text)
      → get email target ≡ none
      → get email runtime ≡ none
      → view ((reconcile c node target runtime r s).state) email ≡ view s email
  unfolding reconcile
  view-reconcile_other r s email ht hr =
      let removal = remove_stale c node target runtime (sorted_map_keys runtime) r s in
      ground (
        arith,
        view-remove_stale_other c node view rt target runtime (sorted_map_keys runtime) r s email,
        view-add_missing_other c node view rt target runtime (sorted_map_keys target) removal.result
            removal.state email own_key,
        mem-sorted_map_keys email runtime,
        mem-sorted_map_keys email target,
      )

-- After both loops have succeeded, the entry of every managed e-mail is the wanted one.
pub reconcile_converges :
    (c : RuntimeClient) (node : ProxyNode) (view : c.State → Text → Option Credential)
    (rt : IsRuntime c node view) (targets users : List RuntimeUser) (r : NodeResult) (s : c.State)
    (email id : Text)
    → c.list_users node s ≡ ok users
    → (reconcile c node (users_by_email targets) (users_by_email (managed_users users)) r s).failure
      ≡ none
    → proxy_account_id_from_runtime_email email ≡ some id
    → Agrees
        (view
          (reconcile c node
            (users_by_email targets)
            (users_by_email (managed_users users))
            r
            s).state
          email)
        (get email (users_by_email targets))
reconcile_converges c node view rt targets users r s email id listed h managed =
    let after =
      view-reconcile_lem c node view rt (users_by_email targets)
        (users_by_email (managed_users users)) (users_by_email-IsTrimmed targets) r s email h in
    let entry = get-managed users email id managed (rt.listed_once s users listed) in
    rw (after, entry, ← rt.listed s users listed email)
      (Agrees-reconciled id email (find_user email users) (get email (users_by_email targets)))
