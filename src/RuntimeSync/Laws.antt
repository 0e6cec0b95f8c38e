-- ===== src/RuntimeSync/Laws.antt =====
-- What `sync_node` relies on in a runtime, and the two loops in terms of it.
use proxy_control_plane.Base.{
  ◌+◌, Text, Bool, true, false, not, ◌&&◌, Option, none, some, List, [], ◌∷◌, ◌≡◌, refl, arith,
  str_eq, str_eq_iff, str_eq_refl, if◌then◌else◌, is_some, ok, get, mem, Dict,
}
use proxy_control_plane.Domain.{ProxyNode, RuntimeUser}
use proxy_control_plane.RuntimeSync.{
  RuntimeClient, NodeResult, matches, user_at, same_user, remove_stale, add_missing,
}

-- A runtime knows a user by the e-mail, and keeps its UUID and its flow.
pub record Credential : Type 0 where
  pub uuid : Text
  pub flow : Text

abbrev pub credential : RuntimeUser → Credential
credential u = record { uuid = u.uuid; flow = u.flow }

unfoldable pub find_user : Text → List RuntimeUser → Option Credential
find_user email [] = none
find_user email (u ∷ us) =
    let rest = find_user email us in if str_eq u.email email then some (credential u) else rest

unfoldable pub emails : List RuntimeUser → List Text
emails [] = []
emails (u ∷ us) = u.email ∷ emails us

abbrev pub Distinct : List Text → Type 0
Distinct [] = Unit
Distinct (k ∷ l) = (mem k l ≡ false) × Distinct l

-- The documented behaviour of the runtime's gRPC API at one node: `view` is the table of users
-- behind it. An operation touches the entry of its own e-mail only, whether it fails or not.
pub record IsRuntime (c : RuntimeClient) (node : ProxyNode)
    (view : c.State → Text → Option Credential) : Type 0 where
  pub listed :
      (s : c.State) (us : List RuntimeUser)
      → c.list_users node s ≡ ok us
      → (email : Text) → find_user email us ≡ view s email
  pub listed_once :
      (s : c.State) (us : List RuntimeUser) → c.list_users node s ≡ ok us → Distinct (emails us)
  pub added :
      (u : RuntimeUser) (s : c.State)
      → (c.add_user node u s).0 ≡ none
      → view ((c.add_user node u s).1) u.email ≡ some (credential u)
  pub added_other :
      (u : RuntimeUser) (s : c.State) (email : Text)
      → str_eq u.email email ≡ false
      → view ((c.add_user node u s).1) email ≡ view s email
  pub removed :
      (email : Text) (s : c.State)
      → (c.remove_user node email s).0 ≡ none
      → view ((c.remove_user node email s).1) email ≡ none
  pub removed_other :
      (k : Text) (s : c.State) (email : Text)
      → str_eq k email ≡ false
      → view ((c.remove_user node k s).1) email ≡ view s email

module _ (c : RuntimeClient) (node : ProxyNode) (view : c.State → Text → Option Credential)
    (rt : IsRuntime c node view) (target runtime : Dict RuntimeUser) where
  abbrev pub is_stale : Text → Bool
  is_stale email = not (matches (user_at email runtime) (get email target))

  abbrev pub is_missing : Text → Bool
  is_missing email =
      not (is_some (get email runtime) && same_user (user_at email runtime) (user_at email target))

  -- After the first loop the stale keys are gone and all else is as before.
  pub view-remove_stale :
      (ks : List Text) (r : NodeResult) (s : c.State) (email : Text)
      → (remove_stale c node target runtime ks r s).failure ≡ none
      → view ((remove_stale c node target runtime ks r s).state) email
        ≡ (if mem email ks && is_stale email then none else view s email)
  unfolding remove_stale mem
  view-remove_stale [] r s email h = refl
  view-remove_stale (k ∷ ks) r s email h =
      let s' = (c.remove_user node k s).1 in
      let r' : NodeResult = record r { removed = r.removed + 1 } in
      ground (
        arith,
        view-remove_stale ks r s email,
        view-remove_stale ks r' s' email,
        rt.removed_other k s email,
        rt.removed k s,
        str_eq_iff k email,
      )

  -- After the second loop the missing keys have their target's user and all else is as before, if
  -- every entry of the map stands under its own e-mail.
  pub view-add_missing :
      (ks : List Text) (r : NodeResult) (s : c.State) (email : Text)
      → ((k : Text) → mem k ks ≡ true → (user_at k target).email ≡ k)
      → (add_missing c node target runtime ks r s).failure ≡ none
      → view ((add_missing c node target runtime ks r s).state) email ≡ (
          if mem email ks && is_missing email
          then some (credential (user_at email target))
          else view s email)
  unfolding add_missing mem
  view-add_missing [] r s email own h = refl
  view-add_missing (k ∷ ks) r s email own h =
      let u = user_at k target in
      let s' = (c.add_user node u s).1 in
      let r' : NodeResult = record r { added = r.added + 1 } in
      let own' : (j : Text) → mem j ks ≡ true → (user_at j target).email ≡ j =
        λ j hj. own j (ground (arith, hj)) in
      let same : u.email ≡ k = own k (ground (arith, str_eq_refl k)) in
      ground (
        arith,
        same,
        view-add_missing ks r s email own',
        view-add_missing ks r' s' email own',
        rt.added_other u s email,
        rt.added u s,
        str_eq_iff k email,
      )

  -- The loops leave alone every e-mail that is not among their keys, also when they fail.
  pub view-remove_stale_other :
      (ks : List Text) (r : NodeResult) (s : c.State) (email : Text)
      → mem email ks ≡ false
      → view ((remove_stale c node target runtime ks r s).state) email ≡ view s email
  unfolding remove_stale mem
  view-remove_stale_other [] r s email h = refl
  view-remove_stale_other (k ∷ ks) r s email h =
      let s' = (c.remove_user node k s).1 in
      let r' : NodeResult = record r { removed = r.removed + 1 } in
      ground (
        arith,
        view-remove_stale_other ks r s email,
        view-remove_stale_other ks r' s' email,
        rt.removed_other k s email,
      )

  pub view-add_missing_other :
      (ks : List Text) (r : NodeResult) (s : c.State) (email : Text)
      → ((k : Text) → mem k ks ≡ true → (user_at k target).email ≡ k)
      → mem email ks ≡ false
      → view ((add_missing c node target runtime ks r s).state) email ≡ view s email
  unfolding add_missing mem
  view-add_missing_other [] r s email own h = refl
  view-add_missing_other (k ∷ ks) r s email own h =
      let u = user_at k target in
      let s' = (c.add_user node u s).1 in
      let r' : NodeResult = record r { added = r.added + 1 } in
      let own' : (j : Text) → mem j ks ≡ true → (user_at j target).email ≡ j =
        λ j hj. own j (ground (arith, hj)) in
      let same : u.email ≡ k = own k (ground (arith, str_eq_refl k)) in
      ground (
        arith,
        same,
        view-add_missing_other ks r s email own',
        view-add_missing_other ks r' s' email own',
        rt.added_other u s email,
      )
