-- ===== src/TrafficSync/Tests.antt =====
-- Runs on traffic counters.
use proxy_control_plane.Base.{
  arith, ℕ, ◌^◌, ◌<◌, Bool, false, ◌+◌, none, Result, ok, if◌then◌else◌, Text, String, codes, true,
  some, List, [], ◌∷◌, ◌++◌, ◌≡◌, ◌≢◌, refl, str_eq, ℤ, pos, sum_where,
}
use proxy_control_plane.Domain.{
  ProxyNode, runtime_proxy_account_email, proxy_account_id_from_runtime_email, cut_affixes,
}
use proxy_control_plane.Store.Traffic.Batch.{delta_of, usage_of, bound_to}
use proxy_control_plane.Store.{Error, Db}
use proxy_control_plane.Store.Samples.{traffic_db, sample_node}
use proxy_control_plane.Store.Traffic.{
  is_zero_delta, account_ids_from, binds, is_bound, usages_of, bytes_check, row_problem, refers,
  insert_usages, record_traffic_usage_batch,
}
use proxy_control_plane.TrafficSync.Collected.{traffic_tables, collect_adds}
use proxy_control_plane.TrafficSync.{
  World, collect_node, record_deltas, sum_deltas, answer, xray_client, cut, stat_prefix,
  traffic_marker, is_direction, parse_managed_traffic_stat, Stat, amount, bump, add_amount,
  add_stat, add_stats, has_traffic, deltas_of,
}
use proxy_control_plane.TrafficSync.Counters.{
  counts_for, uplink, downlink, deltas_of-sums, parse_managed_traffic_stat_sound,
}

-- What a run computes with.
running : Unit {0}
unfolding cut is_direction parse_managed_traffic_stat bump add_amount add_stat add_stats has_traffic
    deltas_of proxy_account_id_from_runtime_email cut_affixes str_eq
running = tt

abbrev counter : String → ℤ → Stat
counter name value = record { name = codes name; value = value }

abbrev stats : List Stat
stats =
    counter "user>>>pcp-a1@proxy-control-plane>>>traffic>>>uplink" (pos 5)
    ∷ counter "user>>>x@y>>>traffic>>>uplink" (pos 9)
    ∷ counter "user>>>pcp-a1@proxy-control-plane>>>traffic>>>downlink" (pos 0)
    ∷ counter "user>>>pcp-a1@proxy-control-plane>>>traffic>>>uplink" (pos 2)
    ∷ []

run :
    deltas_of stats
    ≡ record { proxy_account_id = codes "a1"; upload_bytes = 7; download_bytes = 0 } ∷ []
unfolding running
run = refl

up_fits : sum_where (counts_for (codes "a1") uplink) (λ s. amount s.value) stats < 2 ^ 63
unfolding running sum_where counts_for
up_fits = omega arith

down_fits : sum_where (counts_for (codes "a1") downlink) (λ s. amount s.value) stats < 2 ^ 63
unfolding running sum_where counts_for
down_fits = omega arith

-- Two counters of one account that no int64 holds together: the sum wraps.
wrapped :
    deltas_of (
      counter "user>>>pcp-a1@proxy-control-plane>>>traffic>>>uplink" (pos 9223372036854775807)
      ∷ counter "user>>>pcp-a1@proxy-control-plane>>>traffic>>>uplink" (pos 9223372036854775807)
      ∷ counter "user>>>pcp-a1@proxy-control-plane>>>traffic>>>uplink" (pos 5)
      ∷ [])
    ≡ record { proxy_account_id = codes "a1"; upload_bytes = 3; download_bytes = 0 } ∷ []
unfolding running
wrapped = refl

deltas_of-sums_example :
    (sum_where (delta_of (codes "a1")) (λ d. d.upload_bytes) (deltas_of stats)
      ≡ sum_where (counts_for (codes "a1") uplink) (λ s. amount s.value) stats)
    × (sum_where (delta_of (codes "a1")) (λ d. d.download_bytes) (deltas_of stats)
        ≡ sum_where (counts_for (codes "a1") downlink) (λ s. amount s.value) stats)
deltas_of-sums_example = deltas_of-sums (codes "a1") stats up_fits down_fits

abbrev name : Text
name = codes "user>>>pcp-a1@proxy-control-plane>>>traffic>>>uplink"

parsed : parse_managed_traffic_stat name ≡ some (codes "a1", codes "uplink")
unfolding running
parsed = refl

parse_managed_traffic_stat_sound_example :
    (codes "a1" ≢ [])
    × ((name
          ≡ stat_prefix
            ++ (runtime_proxy_account_email (codes "a1") ++ (traffic_marker ++ codes "uplink")))
        × (is_direction (codes "uplink") ≡ true))
parse_managed_traffic_stat_sound_example =
    parse_managed_traffic_stat_sound name (codes "a1") (codes "uplink") parsed

-- A runtime that always answers with these counters.
abbrev query : ProxyNode → Bool → Unit {0} → Result Text (List Stat) × Unit {0}
query node reset s = (ok stats, s)

abbrev node : ProxyNode
node = record (sample_node "n") { id = codes "n1" }

abbrev new_ids : ℕ → Result Error Text
new_ids i = ok (codes "y1")

abbrev world : World (traffic_tables 9 new_ids) (xray_client query)
world = record { db = traffic_db; runtime = tt }

collected :
    (collect_node (traffic_tables 9 new_ids) (xray_client query) true node 8 world).failure ≡ none
unfolding running collect_node record_deltas sum_deltas answer is_zero_delta account_ids_from binds
    is_bound usages_of bytes_check row_problem refers insert_usages record_traffic_usage_batch
collected = refl

node_named : str_eq (codes "n1") [] ≡ false
unfolding str_eq
node_named = refl

account_named : str_eq (codes "a1") [] ≡ false
unfolding str_eq
account_named = refl

abbrev after : Db
after = (collect_node (traffic_tables 9 new_ids) (xray_client query) true node 8 world).state.db

collect_adds_example :
    (sum_where (usage_of (codes "a1")) (λ u. u.upload_bytes) after.usage
      ≡ sum_where (usage_of (codes "a1")) (λ u. u.upload_bytes) traffic_db.usage
        + (if bound_to (codes "n1") (codes "a1") traffic_db.bindings
            then sum_where (counts_for (codes "a1") uplink) (λ s. amount s.value) stats
            else 0))
    × (sum_where (usage_of (codes "a1")) (λ u. u.download_bytes) after.usage
        ≡ sum_where (usage_of (codes "a1")) (λ u. u.download_bytes) traffic_db.usage
          + (if bound_to (codes "n1") (codes "a1") traffic_db.bindings
              then sum_where (counts_for (codes "a1") downlink) (λ s. amount s.value) stats
              else 0))
collect_adds_example =
    collect_adds query 9 new_ids true node 8 world stats refl collected (codes "a1") node_named
      account_named up_fits down_fits
