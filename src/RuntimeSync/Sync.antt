-- ===== src/RuntimeSync/Sync.antt =====
-- `SyncNode` as a whole: what a run has done to the runtime when it ends.
use proxy_control_plane.Base.{
  Text, false, Option, none, some, List, ◌≡◌, ◌≢◌, ap, arith, get, values, ◌⊎◌, inl, inr, ok, err,
  Result-cases,
}
use proxy_control_plane.Domain.{Time, ProxyNode, RuntimeUser, proxy_account_id_from_runtime_email}
use proxy_control_plane.RuntimeSync.{
  Store, RuntimeClient, NodeResult, Outcome, World, reconcile, managed_users, users_by_email,
  new_result, sync_users, sync_node, finish, fail_node, mark_synced, mark_node_error, users_hash,
}
use proxy_control_plane.RuntimeSync.Laws.{Credential, IsRuntime}
use proxy_control_plane.RuntimeSync.Tables.{users_by_email-IsTrimmed, get-unmanaged}
use proxy_control_plane.RuntimeSync.Reconcile.{Agrees, reconcile_converges, view-reconcile_other}

module _ (st : Store) (c : RuntimeClient) (digest : Text → Text) (node : ProxyNode)
    (now : Time) where
  sync_node-listed :
      (w : World st c digest) (targets users : List RuntimeUser)
      → st.list_runtime_target_users node.id now w.db ≡ ok targets
      → c.list_users node w.runtime ≡ ok users
      → sync_node st c digest node now w
        ≡ sync_users st c digest node now (new_result node) targets users w
  unfolding sync_node
  sync_node-listed w targets users ht hu = ground arith

  sync_node-not_listed :
      (w : World st c digest) (targets : List RuntimeUser) (e : Text)
      → st.list_runtime_target_users node.id now w.db ≡ ok targets
      → c.list_users node w.runtime ≡ err e
      → ((sync_node st c digest node now w).failure ≢ none)
        × ((sync_node st c digest node now w).state.runtime ≡ w.runtime)
  unfolding sync_node fail_node mark_node_error
  sync_node-not_listed w targets e ht hu = (ground arith, ground arith)

  module _ (targets users : List RuntimeUser) (w : World st c digest) (r : NodeResult) where
    abbrev loops : Outcome c.State
    loops =
        reconcile c node (users_by_email targets) (users_by_email (managed_users users))
          (record r {
            target_hash = users_hash digest targets;
            runtime_hash = users_hash digest (values (users_by_email (managed_users users)));
          })
          w.runtime

    -- The runtime is left alone, or is what the loops make of it.
    runtime-sync_users :
        ((sync_users st c digest node now r targets users w).state.runtime ≡ w.runtime)
        ⊎ ((sync_users st c digest node now r targets users w).state.runtime ≡ loops.state)
    unfolding sync_users finish fail_node mark_synced mark_node_error
    runtime-sync_users = ground arith

    -- A run that succeeds with changes to make has completed both loops.
    completed-sync_users :
        (sync_users st c digest node now r targets users w).failure ≡ none
        → (sync_users st c digest node now r targets users w).result.unchanged ≡ false
        → (loops.failure ≡ none)
          × ((sync_users st c digest node now r targets users w).state.runtime ≡ loops.state)
    unfolding sync_users finish fail_node mark_synced mark_node_error
    completed-sync_users h n = ground arith

-- A run that succeeds, and does not report that nothing had to change, leaves the wanted entry
-- under every managed e-mail: absent where no target user has the e-mail, and else with the
-- target's UUID, up to letter case, and flow.
pub sync_converges :
    (st : Store) (c : RuntimeClient) (digest : Text → Text) (node : ProxyNode) (now : Time)
    (view : c.State → Text → Option Credential) (rt : IsRuntime c node view) (w : World st c digest)
    (targets : List RuntimeUser) (email id : Text)
    → st.list_runtime_target_users node.id now w.db ≡ ok targets
    → (sync_node st c digest node now w).failure ≡ none
    → (sync_node st c digest node now w).result.unchanged ≡ false
    → proxy_account_id_from_runtime_email email ≡ some id
    → Agrees
        (view (sync_node st c digest node now w).state.runtime email)
        (get email (users_by_email targets))
sync_converges st c digest node now view rt w targets email id ht h n managed =
    elim (Result-cases (c.list_users node w.runtime)) [
      | inl (users, hu) ↦
          let whole = sync_node-listed st c digest node now w targets users ht hu in
          let (done, table) =
            completed-sync_users st c digest node now targets users w (new_result node)
              (rw whole at h) (rw whole at n) in
          rw (whole, table)
            (reconcile_converges c node view rt targets users _ w.runtime email id hu done managed)
      | inr (e, hu) ↦ absurd ((sync_node-not_listed st c digest node now w targets e ht hu).0 h)
    ]

-- Whether a run succeeds or fails, it leaves alone every user of the runtime whose e-mail is neither
-- managed nor that of a target user.
pub sync_keeps_unmanaged :
    (st : Store) (c : RuntimeClient) (digest : Text → Text) (node : ProxyNode) (now : Time)
    (view : c.State → Text → Option Credential) (rt : IsRuntime c node view) (w : World st c digest)
    (targets : List RuntimeUser) (email : Text)
    → st.list_runtime_target_users node.id now w.db ≡ ok targets
    → proxy_account_id_from_runtime_email email ≡ none
    → get email (users_by_email targets) ≡ none
    → view (sync_node st c digest node now w).state.runtime email ≡ view w.runtime email
sync_keeps_unmanaged st c digest node now view rt w targets email ht unmanaged unwanted =
    elim (Result-cases (c.list_users node w.runtime)) [
      | inl (users, hu) ↦
          rw (sync_node-listed st c digest node now w targets users ht hu)
            (elim (runtime-sync_users st c digest node now targets users w (new_result node)) [
              | inl same ↦ rw same
              | inr made ↦ rw made (
                  view-reconcile_other c node view rt (users_by_email targets)
                    (users_by_email (managed_users users)) (users_by_email-IsTrimmed targets) _
                    w.runtime email unwanted (get-unmanaged users email unmanaged))
            ])
      | inr (e, hu) ↦
          ap (λ s. view s email) (sync_node-not_listed st c digest node now w targets e ht hu).1
    ]
