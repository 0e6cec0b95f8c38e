-- ===== src/RuntimeSync.antt =====
-- internal/runtimesync/sync.go: the reconciliation of the users of a node's runtime with those that
-- the store wants there. The interfaces `Store` and `RuntimeClient` are records of functions over a
-- state of their own; an error is its text; logging is left out.
pub mod Laws
pub mod Tables
pub mod Reconcile
pub mod Sync
pub mod Backed
mod Tests
use mathlib.Core.Option
use proxy_control_plane.Base.{
  ℕ, ◌+◌, zero, Text, codes, Bool, true, false, not, ◌&&◌, ◌||◌, Option, none, some, List, [], ◌∷◌,
  ◌++◌, map, keep, str_eq, trim_space, to_lower, equal_fold, if◌then◌else◌, Result, ok, err, Dict,
  get, put, keys, values, is_some, str_ltb, sort_strings, is_some,
}
use proxy_control_plane.Domain.{Time, ProxyNode, RuntimeUser, proxy_account_id_from_runtime_email}

pub record Store : Type 1 where
  pub State : Type 0
  pub list_runtime_target_users : Text → Time → State → Result Text (List RuntimeUser)
  pub mark_proxy_node_runtime_sync : Text → Time → Text → State → Option Text × State

pub record RuntimeClient : Type 1 where
  pub State : Type 0
  pub list_users : ProxyNode → State → Result Text (List RuntimeUser)
  pub add_user : ProxyNode → RuntimeUser → State → Option Text × State
  pub remove_user : ProxyNode → Text → State → Option Text × State

pub record NodeResult : Type 0 where
  pub node_id : Text
  pub node_name : Text
  pub target_hash : Text
  pub runtime_hash : Text
  pub added : ℕ
  pub removed : ℕ
  pub unchanged : Bool

unfoldable pub normalize_user : RuntimeUser → RuntimeUser
normalize_user user = record {
  proxy_account_id = trim_space user.proxy_account_id;
  email = trim_space user.email;
  uuid = trim_space user.uuid;
  flow = trim_space user.flow;
}

unfoldable pub managed_users : List RuntimeUser → List RuntimeUser
managed_users [] = []
managed_users (user ∷ users) =
    let rest = managed_users users in
    elim (proxy_account_id_from_runtime_email user.email) [
      | none ↦ rest
      | some account_id ↦ normalize_user (record user { proxy_account_id = account_id }) ∷ rest
    ]

-- One round of `usersByEmail`.
unfoldable pub put_user : Dict RuntimeUser → RuntimeUser → Dict RuntimeUser
put_user result user =
    let u = normalize_user user in if str_eq u.email [] then result else put u.email u result

-- The loop of `usersByEmail`, from the map that is filled so far.
unfoldable pub users_by_email_from : Dict RuntimeUser → List RuntimeUser → Dict RuntimeUser
users_by_email_from result [] = result
users_by_email_from result (user ∷ users) = users_by_email_from (put_user result user) users

unfoldable pub users_by_email : List RuntimeUser → Dict RuntimeUser
users_by_email users = users_by_email_from [] users

unfoldable pub same_user : RuntimeUser → RuntimeUser → Bool
same_user left right =
    let l = normalize_user left in
    let r = normalize_user right in
    str_eq l.email r.email && (equal_fold l.uuid r.uuid && str_eq l.flow r.flow)

-- `sort.Slice` by `Email`
unfoldable pub insert_user : RuntimeUser → List RuntimeUser → List RuntimeUser
insert_user u [] = u ∷ []
insert_user u (v ∷ vs) =
    let rest = insert_user u vs in if str_ltb v.email u.email then v ∷ rest else u ∷ v ∷ vs

unfoldable pub sort_users : List RuntimeUser → List RuntimeUser
sort_users [] = []
sort_users (u ∷ us) = insert_user u (sort_users us)

-- What `UsersHash` writes to the hash, user by user.
unfoldable pub hash_input : List RuntimeUser → Text
hash_input [] = []
hash_input (u ∷ us) = u.email ++ (0 ∷ to_lower u.uuid ++ (0 ∷ u.flow ++ (0 ∷ hash_input us)))

unfoldable pub hashed_users : List RuntimeUser → List RuntimeUser
hashed_users users =
    keep (λ u. not (str_eq u.email [] || str_eq u.uuid [])) (map normalize_user users)

-- `digest` is the hex form of SHA-256.
unfoldable pub users_hash : (Text → Text) → List RuntimeUser → Text
users_hash digest users = digest (hash_input (sort_users (hashed_users users)))

unfoldable pub sorted_map_keys : Dict RuntimeUser → List Text
sorted_map_keys m = sort_strings (keys m)

abbrev pub no_user : RuntimeUser
no_user = record { proxy_account_id = []; email = []; uuid = []; flow = [] }

-- `m[email]`, the zero value for a missing key.
abbrev pub user_at : Text → Dict RuntimeUser → RuntimeUser
user_at email m = elim (get email m) [ none ↦ no_user | some u ↦ u ]

-- The test `ok && sameUser(…)` of the two loops, on the other map's entry.
unfoldable pub matches : RuntimeUser → Option RuntimeUser → Bool
matches user none = false
matches user (some other) = same_user user other

-- An error: the text that is marked on the node, and the text that the function returns, which a
-- loop wraps.
pub record Failure : Type 0 where
  pub cause : Text
  pub reported : Text

pub record Outcome (S : Type 0) : Type 0 where
  pub result : NodeResult
  pub failure : Option Failure
  pub state : S

abbrev pub plain : Text → Failure
plain e = record { cause = e; reported = e }

-- `fmt.Errorf("… %s: %w", email, err)`
abbrev pub wrapped : Text → Text → Text → Failure
wrapped what email e = record { cause = e; reported = what ++ (email ++ (codes ": " ++ e)) }

module _ (c : RuntimeClient) (node : ProxyNode) (target runtime : Dict RuntimeUser) where
  -- The loop over `sortedMapKeys(runtimeByEmail)`.
  unfoldable pub remove_stale : List Text → NodeResult → c.State → Outcome c.State
  remove_stale [] result s = record { result = result; failure = none; state = s }
  remove_stale (email ∷ emails) result s =
      let next = remove_stale emails result s in
      elim (matches (user_at email runtime) (get email target)) [
        | true ↦ next
        | false ↦ elim ((c.remove_user node email s).0) [
          | some e ↦ record {
            result = result;
            failure = some (wrapped (codes "remove runtime user ") email e);
            state = (c.remove_user node email s).1;
          }
          | none ↦
              remove_stale emails (record result { removed = result.removed + 1 })
                ((c.remove_user node email s).1)
        ]
      ]

  -- The loop over `sortedMapKeys(targetByEmail)`.
  unfoldable pub add_missing : List Text → NodeResult → c.State → Outcome c.State
  add_missing [] result s = record { result = result; failure = none; state = s }
  add_missing (email ∷ emails) result s =
      let next = add_missing emails result s in
      elim (is_some (get email runtime)
        && same_user (user_at email runtime) (user_at email target)) [
          | true ↦ next
          | false ↦ elim ((c.add_user node (user_at email target) s).0) [
            | some e ↦ record {
              result = result;
              failure = some (wrapped (codes "add runtime user ") email e);
              state = (c.add_user node (user_at email target) s).1;
            }
            | none ↦
                add_missing emails (record result { added = result.added + 1 })
                  ((c.add_user node (user_at email target) s).1)
          ]
        ]

  -- The two loops, the second only if the first did not fail.
  unfoldable pub reconcile : NodeResult → c.State → Outcome c.State
  reconcile result s =
      let removal = remove_stale (sorted_map_keys runtime) result s in
      elim removal.failure [
        | some e ↦ removal
        | none ↦ add_missing (sorted_map_keys target) removal.result removal.state
      ]

unfoldable pub new_result : ProxyNode → NodeResult
new_result node = record {
  node_id = node.id;
  node_name = node.name;
  target_hash = [];
  runtime_hash = [];
  added = 0;
  removed = 0;
  unchanged = false;
}

module _ (st : Store) (c : RuntimeClient) (digest : Text → Text) where
  pub record World : Type 0 where
    pub db : st.State
    pub runtime : c.State

  -- A failure of the mark itself is only logged. The zero time goes with an error.
  unfoldable pub mark_node_error : Text → Text → World → World
  mark_node_error node_id e w = record w {
    db = (st.mark_proxy_node_runtime_sync node_id 0 e w.db).1;
  }

  unfoldable pub mark_synced : ProxyNode → Time → NodeResult → World → Outcome World
  mark_synced node now result w = record {
    result = result;
    failure = Option.map plain (st.mark_proxy_node_runtime_sync node.id now [] w.db).0;
    state = record w { db = (st.mark_proxy_node_runtime_sync node.id now [] w.db).1 };
  }

  unfoldable pub fail_node : ProxyNode → NodeResult → Failure → World → Outcome World
  fail_node node result e w = record {
    result = result;
    failure = some e;
    state = mark_node_error node.id e.cause w;
  }

  unfoldable pub finish : ProxyNode → Time → Outcome c.State → World → Outcome World
  finish node now loops w = elim loops.failure [
    | some e ↦ fail_node node loops.result e (record w { runtime = loops.state })
    | none ↦ mark_synced node now loops.result (record w { runtime = loops.state })
  ]

  -- The part of `SyncNode` below the two listings.
  unfoldable pub sync_users :
      ProxyNode → Time → NodeResult → List RuntimeUser → List RuntimeUser → World → Outcome World
  sync_users node now result0 target_users runtime_users w =
      let target = users_by_email target_users in
      let runtime = users_by_email (managed_users runtime_users) in
      let result = record result0 {
        target_hash = users_hash digest target_users;
        runtime_hash = users_hash digest (values runtime);
      } in
      if str_eq result.target_hash result.runtime_hash
      then mark_synced node now (record result { unchanged = true }) w
      else finish node now (reconcile c node target runtime result w.runtime) w

  unfoldable pub sync_node : ProxyNode → Time → World → Outcome World
  sync_node node now w =
      let result = new_result node in
      elim (st.list_runtime_target_users node.id now w.db) [
        | err e ↦ fail_node node result (plain e) w
        | ok target_users ↦ elim (c.list_users node w.runtime) [
          | err e ↦ fail_node node result (plain e) w
          | ok runtime_users ↦ sync_users node now result target_users runtime_users w
        ]
      ]
