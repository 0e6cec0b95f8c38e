-- ===== src/RuntimeSync/Tests.antt =====
-- A runtime and a store in memory, and runs of the synchronisation on them.
use proxy_control_plane.Base.{
  ℕ, String, Text, codes, Bool, true, false, not, ◌&&◌, Option, none, some, List, [], ◌∷◌, ◌≡◌,
  refl, arith, str_eq, str_eq_iff, if◌then◌else◌, ok, err, keep, mem, get, put, keys, values, pos,
  str_ltb, sort_strings, trim_space, trim_left, trim_right, is_space, to_lower, lower, Bool-cases,
  inl, inr,
}
use proxy_control_plane.Domain.{
  ProxyNode, RuntimeUser, cut_affixes, runtime_proxy_account_email,
  proxy_account_id_from_runtime_email,
}
use proxy_control_plane.RuntimeSync.{
  Store, RuntimeClient, World, sync_node, sync_users, finish, fail_node, mark_synced,
  mark_node_error, new_result, reconcile, remove_stale, add_missing, matches, same_user,
  sorted_map_keys, users_hash, hashed_users, hash_input, sort_users, insert_user, users_by_email,
  users_by_email_from, put_user, managed_users, normalize_user,
}
use proxy_control_plane.RuntimeSync.Laws.{Credential, find_user, emails, Distinct, IsRuntime}
use proxy_control_plane.RuntimeSync.Reconcile.{Agrees}
use proxy_control_plane.RuntimeSync.Sync.{sync_converges, sync_keeps_unmanaged}

abbrev distinct : List Text → Bool
distinct [] = true
distinct (k ∷ l) = not (mem k l) && distinct l

distinct_sound : (l : List Text) → distinct l ≡ true → Distinct l
distinct_sound [] h = tt
distinct_sound (k ∷ l) h = (ground arith, distinct_sound l (ground arith))

-- The users in a list; a list with an e-mail twice cannot be read.
abbrev pub memory : RuntimeClient
memory = record {
  State = List RuntimeUser;
  list_users = λ node s. if distinct (emails s) then ok s else err (codes "corrupt");
  add_user = λ node u s. (none, u ∷ s);
  remove_user = λ node email s. (none, keep (λ u. not (str_eq u.email email)) s);
}

abbrev pub table : List RuntimeUser → Text → Option Credential
table s email = find_user email s

find_user-keep_self :
    (email : Text) (s : List RuntimeUser)
    → find_user email (keep (λ u. not (str_eq u.email email)) s) ≡ none
unfolding find_user
find_user-keep_self email [] = refl
find_user-keep_self email (u ∷ s) = ground (arith, find_user-keep_self email s)

find_user-keep_other :
    (k email : Text) (s : List RuntimeUser)
    → str_eq k email ≡ false
    → find_user email (keep (λ u. not (str_eq u.email k)) s) ≡ find_user email s
unfolding find_user
find_user-keep_other k email [] h = refl
find_user-keep_other k email (u ∷ s) h = ground (
  arith,
  find_user-keep_other k email s,
  str_eq_iff u.email k,
  str_eq_iff u.email email,
  str_eq_iff k email,
)

pub memory-IsRuntime : (node : ProxyNode) → IsRuntime memory node table
unfolding find_user
memory-IsRuntime node = record {
  listed = λ s us h email. ground arith;
  listed_once = λ s us h. elim (Bool-cases (distinct (emails s))) [
    | inl e ↦ let same : s ≡ us = ground arith in rw (← same) (distinct_sound (emails s) e)
    | inr e ↦ absurd (ground arith)
  ];
  added = λ u s h. ground (arith, str_eq_iff u.email u.email);
  added_other = λ u s email h. ground arith;
  removed = λ email s h. find_user-keep_self email s;
  removed_other = λ k s email h. find_user-keep_other k email s h;
}

abbrev fixed_store : List RuntimeUser → Store
fixed_store users = record {
  State = ℕ;
  list_runtime_target_users = λ node now s. ok users;
  mark_proxy_node_runtime_sync = λ node now e s. (none, s);
}

abbrev pub node : ProxyNode
node = record {
  id = codes "n";
  name = codes "n";
  hostname = [];
  public_host = [];
  region = [];
  runtime = codes "xray";
  protocol = codes "vless";
  port = pos 443;
  transport = codes "tcp";
  security = codes "reality";
  sni = [];
  fingerprint = [];
  alpn = [];
  path = [];
  host_header = [];
  reality_public_key = [];
  reality_short_id = [];
  runtime_api_enabled = true;
  runtime_api_host = codes "h";
  runtime_api_port = pos 1;
  runtime_inbound_tag = codes "t";
  last_runtime_sync_at = none;
  last_runtime_sync_error = [];
  enabled = true;
  created_at = 0;
  updated_at = 0;
}

abbrev pub user : String → String → RuntimeUser
user id uuid = record {
  proxy_account_id = codes id;
  email = runtime_proxy_account_email (codes id);
  uuid = codes uuid;
  flow = [];
}

abbrev pub stranger : RuntimeUser
stranger = record { proxy_account_id = []; email = codes "x@y"; uuid = codes "u9"; flow = [] }

abbrev targets : List RuntimeUser
targets = user "a" "u1" ∷ user "b" "u2" ∷ []

abbrev start : World (fixed_store targets) memory (λ t. t)
start = record { db = 0; runtime = user "b" "u7" ∷ user "c" "u3" ∷ stranger ∷ [] }

-- What a run computes with.
unfoldable pub running : Unit {0}
unfolding sync_node sync_users finish fail_node mark_synced mark_node_error new_result reconcile
    remove_stale add_missing matches same_user sorted_map_keys users_hash hashed_users hash_input
    sort_users insert_user users_by_email users_by_email_from put_user managed_users normalize_user
    find_user emails proxy_account_id_from_runtime_email cut_affixes runtime_proxy_account_email
    str_eq trim_space trim_left trim_right is_space to_lower lower get put keys values mem str_ltb
    sort_strings
running = tt

abbrev a_email : Text
a_email = codes "pcp-a@proxy-control-plane"

-- One user is added, one replaced, one removed, and the stranger stays.
run_table :
    ((sync_node (fixed_store targets) memory (λ t. t) node 5 start).failure ≡ none)
    × ((sync_node (fixed_store targets) memory (λ t. t) node 5 start).result.unchanged ≡ false)
    × ((sync_node (fixed_store targets) memory (λ t. t) node 5 start).result.added ≡ 2)
    × ((sync_node (fixed_store targets) memory (λ t. t) node 5 start).result.removed ≡ 2)
unfolding running
run_table = (refl, refl, refl, refl)

managed_a : proxy_account_id_from_runtime_email a_email ≡ some (codes "a")
unfolding running
managed_a = refl

stranger_unmanaged :
    (proxy_account_id_from_runtime_email stranger.email ≡ none)
    × (get stranger.email (users_by_email targets) ≡ none)
unfolding running
stranger_unmanaged = (refl, refl)

sync_converges_example :
    Agrees
      (table (sync_node (fixed_store targets) memory (λ t. t) node 5 start).state.runtime a_email)
      (get a_email (users_by_email targets))
sync_converges_example =
    sync_converges (fixed_store targets) memory (λ t. t) node 5 table (memory-IsRuntime node) start
      targets a_email (codes "a") refl run_table.0 run_table.1 managed_a

sync_keeps_unmanaged_example :
    table
      (sync_node (fixed_store targets) memory (λ t. t) node 5 start).state.runtime
      stranger.email
    ≡ table start.runtime stranger.email
sync_keeps_unmanaged_example =
    sync_keeps_unmanaged (fixed_store targets) memory (λ t. t) node 5 table (memory-IsRuntime node)
      start targets stranger.email refl stranger_unmanaged.0 stranger_unmanaged.1
