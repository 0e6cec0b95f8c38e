-- ===== src/Store/Traffic/Tests.antt =====
-- A run of the recording of traffic.
use proxy_control_plane.Base.{
  ℕ, ◌+◌, Text, codes, false, List, [], ◌∷◌, ◌++◌, ◌≡◌, refl, str_eq, if◌then◌else◌, String, Result,
  ok, sum_where,
}
use proxy_control_plane.Domain.{TrafficDelta}
use proxy_control_plane.Store.{Error, Db}
use proxy_control_plane.Store.Samples.{traffic_db, sample_usage}
use proxy_control_plane.Store.Traffic.{
  is_zero_delta, account_ids_from, binds, is_bound, usages_of, bytes_check, row_problem, refers,
  insert_usages, record_traffic_usage_batch,
}
use proxy_control_plane.Store.Traffic.Batch.{usage_of, delta_of, bound_to, record_batch_adds}

-- What a run computes with.
running : Unit {0}
unfolding is_zero_delta account_ids_from binds is_bound usages_of bytes_check row_problem refers
    insert_usages record_traffic_usage_batch str_eq
running = tt

abbrev delta : String → ℕ → TrafficDelta
delta id bytes = record { proxy_account_id = codes id; upload_bytes = bytes; download_bytes = 1 }

abbrev idle : TrafficDelta
idle = record { proxy_account_id = codes "a1"; upload_bytes = 0; download_bytes = 0 }

abbrev deltas : List TrafficDelta
deltas = delta "a1" 3 ∷ delta "a9" 5 ∷ idle ∷ delta "a1" 4 ∷ []

abbrev new_ids : ℕ → Result Error Text
new_ids i = ok (b'n' ∷ ((48 + i) ∷ []))

abbrev after : Db
after = record traffic_db {
  usage = traffic_db.usage ++ sample_usage "n0" 3 7 ∷ sample_usage "n1" 4 7 ∷ [];
}

run : record_traffic_usage_batch 9 new_ids (codes "n1") deltas 7 traffic_db ≡ (ok 2, after)
unfolding running
run = refl

node_named : str_eq (codes "n1") [] ≡ false
unfolding running
node_named = refl

account_named : str_eq (codes "a1") [] ≡ false
unfolding running
account_named = refl

record_batch_adds_example :
    (sum_where (usage_of (codes "a1")) (λ u. u.upload_bytes) after.usage
      ≡ sum_where (usage_of (codes "a1")) (λ u. u.upload_bytes) traffic_db.usage
        + (if bound_to (codes "n1") (codes "a1") traffic_db.bindings
            then sum_where (delta_of (codes "a1")) (λ d. d.upload_bytes) deltas
            else 0))
    × (sum_where (usage_of (codes "a1")) (λ u. u.download_bytes) after.usage
        ≡ sum_where (usage_of (codes "a1")) (λ u. u.download_bytes) traffic_db.usage
          + (if bound_to (codes "n1") (codes "a1") traffic_db.bindings
              then sum_where (delta_of (codes "a1")) (λ d. d.download_bytes) deltas
              else 0))
record_batch_adds_example =
    record_batch_adds 9 new_ids (codes "n1") deltas 7 traffic_db after 2 (codes "a1") node_named
      account_named run
