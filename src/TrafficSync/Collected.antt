-- ===== src/TrafficSync/Collected.antt =====
-- The collection of traffic from a runtime into the tables of the store.
use proxy_control_plane.Base.{
  ℕ, ◌+◌, ◌^◌, ◌<◌, Text, Bool, false, none, List, [], ◌≡◌, str_eq, if◌then◌else◌, arith,
  Result-cases, inl, inr, Result, ok, sum_where,
}
use proxy_control_plane.Domain.{Time, ProxyNode}
use proxy_control_plane.Store.{Error, Db}
use proxy_control_plane.Store.Traffic.{record_traffic_usage_batch}
use proxy_control_plane.Store.Traffic.Batch.{usage_of, bound_to, record_batch_adds}
use proxy_control_plane.RuntimeSync.Backed.{texts}
use proxy_control_plane.TrafficSync.{
  Stat, amount, deltas_of, TrafficStore, answer, xray_client, World, record_deltas, collect_node,
}
use proxy_control_plane.TrafficSync.Counters.{counts_for, uplink, downlink, deltas_of-sums}

-- The store as the collection sees it.
abbrev pub traffic_tables : Time → (ℕ → Result Error Text) → TrafficStore
traffic_tables clock new_ids = record {
  State = Db;
  record_traffic_usage_batch = λ node_id deltas at db. (
    texts (record_traffic_usage_batch clock new_ids node_id deltas at db).0,
    (record_traffic_usage_batch clock new_ids node_id deltas at db).1,
  );
}

module _ {S : Type 0} (query : ProxyNode → Bool → S → Result Text (List Stat) × S) (clock : Time)
    (new_ids : ℕ → Result Error Text) (reset : Bool) (node : ProxyNode) (now : Time)
    (w : World (traffic_tables clock new_ids) (xray_client query)) (stats : List Stat)
    (answered : (query node reset w.runtime).0 ≡ ok stats)
    (done : (collect_node
        (traffic_tables clock new_ids)
        (xray_client query)
        reset
        node
        now
        w).failure
      ≡ none) where
  abbrev after : Db
  after =
      (collect_node (traffic_tables clock new_ids) (xray_client query) reset node now w).state.db

  recorded :
      (n : ℕ) × (record_traffic_usage_batch clock new_ids node.id (deltas_of stats) now w.db
        ≡ (ok n, after))
  unfolding collect_node record_deltas answer
  recorded =
      elim (Result-cases
        (record_traffic_usage_batch clock new_ids node.id (deltas_of stats) now w.db).0) [
          | inl (n, r) ↦ (n, ground (arith, answered, r))
          | inr (e, r) ↦ absurd (ground (arith, answered, done, r))
        ]

  -- A collection over the tables that succeeds, for a node with an id, adds to the recorded traffic of
  -- an account, in each direction, the positive counters that the runtime has answered with for the
  -- account if it is bound to the node, and nothing if it is not; where the id of the account is not
  -- empty, and the sum of these counters fits in an int64 in both directions.
  pub collect_adds :
      (k : Text)
      → str_eq node.id [] ≡ false
      → str_eq k [] ≡ false
      → sum_where (counts_for k uplink) (λ s. amount s.value) stats < 2 ^ 63
      → sum_where (counts_for k downlink) (λ s. amount s.value) stats < 2 ^ 63
      → (sum_where (usage_of k) (λ u. u.upload_bytes) after.usage
          ≡ sum_where (usage_of k) (λ u. u.upload_bytes) w.db.usage
            + (if bound_to node.id k w.db.bindings
                then sum_where (counts_for k uplink) (λ s. amount s.value) stats
                else 0))
        × (sum_where (usage_of k) (λ u. u.download_bytes) after.usage
            ≡ sum_where (usage_of k) (λ u. u.download_bytes) w.db.usage
              + (if bound_to node.id k w.db.bindings
                  then sum_where (counts_for k downlink) (λ s. amount s.value) stats
                  else 0))
  collect_adds k named key up_fits down_fits =
      let (n, run) = recorded in
      let sums = deltas_of-sums k stats up_fits down_fits in
      let added =
        record_batch_adds clock new_ids node.id (deltas_of stats) now w.db after n k named key
          run in
      rw (← sums.0, ← sums.1) added
