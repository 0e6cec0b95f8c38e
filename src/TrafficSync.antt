-- ===== src/TrafficSync.antt =====
-- internal/trafficsync/sync.go, and the reading of traffic counters in internal/runtimesync/xray.go.
-- A byte count is an int64, held as the number below 2^64 that it is congruent to. Go ranges over the map of accounts in any order; here it is that of their first counters.
pub mod Counters
pub mod Collected
mod Tests
use mathlib.Core.Option
use proxy_control_plane.Base.{
  ℕ, ◌+◌, ◌%◌, ◌^◌, Text, codes, Bool, true, false, not, ◌&&◌, ◌||◌, Option, none, some, List, [],
  ◌∷◌, drop, keep, length, str_eq, has_prefix, if◌then◌else◌, eqb, Result, ok, err, ℤ, pos, negsuc,
  leb_ℤ,
}
use proxy_control_plane.Domain.{Time, ProxyNode, TrafficDelta, proxy_account_id_from_runtime_email}

-- `strings.Cut` at a separator that is not empty
unfoldable pub cut : Text → Text → Option (Text × Text)
cut sep [] = none
cut sep (c ∷ s) =
    let rest = cut sep s in
    if has_prefix (c ∷ s) sep
    then some ([], drop (length sep) (c ∷ s))
    else elim rest [ none ↦ none | some p ↦ some (c ∷ p.0, p.1) ]

abbrev pub stat_prefix : Text
stat_prefix = codes "user>>>"

abbrev pub traffic_marker : Text
traffic_marker = codes ">>>traffic>>>"

unfoldable pub is_direction : Text → Bool
is_direction direction = str_eq direction (codes "uplink") || str_eq direction (codes "downlink")

-- The account and the direction of a counter of a managed user.
unfoldable pub parse_managed_traffic_stat : Text → Option (Text × Text)
parse_managed_traffic_stat name =
    if not (has_prefix name stat_prefix)
    then none
    else elim (cut traffic_marker (drop (length stat_prefix) name)) [
      | none ↦ none
      | some parts ↦ elim (proxy_account_id_from_runtime_email parts.0) [
        | none ↦ none
        | some account_id ↦ if not (is_direction parts.1) then none else some (account_id, parts.1)
      ]
    ]

pub record Stat : Type 0 where
  pub name : Text
  pub value : ℤ

abbrev pub amount : ℤ → ℕ
amount (pos n) = n
amount (negsuc n) = 0

-- The switch on the direction. The sum of two int64 wraps.
unfoldable pub bump : Text → ℕ → TrafficDelta → TrafficDelta
bump direction n delta =
    if str_eq direction (codes "uplink")
    then record delta { upload_bytes = (delta.upload_bytes + n) % 2 ^ 64 }
    else if str_eq direction (codes "downlink")
    then record delta { download_bytes = (delta.download_bytes + n) % 2 ^ 64 }
    else delta

abbrev pub no_delta : Text → TrafficDelta
no_delta account_id = record { proxy_account_id = account_id; upload_bytes = 0; download_bytes = 0 }

-- The entry of the map, made where there is none.
unfoldable pub add_amount : Text → Text → ℕ → List TrafficDelta → List TrafficDelta
add_amount account_id direction n [] = bump direction n (no_delta account_id) ∷ []
add_amount account_id direction n (d ∷ ds) =
    let rest = add_amount account_id direction n ds in
    if str_eq d.proxy_account_id account_id then bump direction n d ∷ ds else d ∷ rest

unfoldable pub add_stat : Stat → List TrafficDelta → List TrafficDelta
add_stat stat by_account = elim (parse_managed_traffic_stat stat.name) [
  | none ↦ by_account
  | some found ↦
      if leb_ℤ stat.value (pos 0)
      then by_account
      else add_amount found.0 found.1 (amount stat.value) by_account
]

-- The loop over the counters, from the map that is filled so far.
unfoldable pub add_stats : List TrafficDelta → List Stat → List TrafficDelta
add_stats by_account [] = by_account
add_stats by_account (stat ∷ stats) = add_stats (add_stat stat by_account) stats

unfoldable pub has_traffic : TrafficDelta → Bool
has_traffic delta = not (eqb delta.upload_bytes 0 && eqb delta.download_bytes 0)

-- `QueryTraffic` behind the call of the runtime, which has answered with these counters.
unfoldable pub deltas_of : List Stat → List TrafficDelta
deltas_of stats = keep has_traffic (add_stats [] stats)

pub record TrafficStore : Type 1 where
  pub State : Type 0
  pub record_traffic_usage_batch : Text → List TrafficDelta → Time → State → Result Text ℕ × State

pub record StatsClient : Type 1 where
  pub State : Type 0
  pub query_traffic : ProxyNode → Bool → State → Result Text (List TrafficDelta) × State

-- The answer of the runtime's gRPC API to a query for the counters, and the client over it.
unfoldable pub answer :
    {S : Type 0} → Result Text (List Stat) × S → Result Text (List TrafficDelta) × S
answer (ok stats, s) = (ok (deltas_of stats), s)
answer (err e, s) = (err e, s)

abbrev pub xray_client :
    {S : Type 0} → (ProxyNode → Bool → S → Result Text (List Stat) × S) → StatsClient
xray_client {S} query_stats = record {
  State = S;
  query_traffic = λ node reset s. answer (query_stats node reset s);
}

pub record NodeResult : Type 0 where
  pub node_id : Text
  pub node_name : Text
  pub user_count : ℕ
  pub rows_inserted : ℕ
  pub upload_bytes : ℕ
  pub download_bytes : ℕ

-- The loop over the deltas, whose sums wrap.
unfoldable pub sum_deltas : List TrafficDelta → NodeResult → NodeResult
sum_deltas [] result = result
sum_deltas (d ∷ ds) result = sum_deltas ds (record result {
  upload_bytes = (result.upload_bytes + d.upload_bytes) % 2 ^ 64;
  download_bytes = (result.download_bytes + d.download_bytes) % 2 ^ 64;
})

module _ (st : TrafficStore) (c : StatsClient) where
  pub record World : Type 0 where
    pub db : st.State
    pub runtime : c.State

  pub record Outcome : Type 0 where
    pub result : NodeResult
    pub failure : Option Text
    pub state : World

  unfoldable pub record_deltas : ProxyNode → List TrafficDelta → Time → NodeResult → World → Outcome
  record_deltas node deltas now result w =
      let r = st.record_traffic_usage_batch node.id deltas now w.db in
      let after = record w { db = r.1 } in
      elim r.0 [
        | err e ↦ record { result = result; failure = some e; state = after }
        | ok n ↦ record {
          result = record result { rows_inserted = n };
          failure = none;
          state = after;
        }
      ]

  unfoldable pub collect_node : Bool → ProxyNode → Time → World → Outcome
  collect_node reset node now w =
      let q = c.query_traffic node reset w.runtime in
      let queried = record w { runtime = q.1 } in
      let result : NodeResult = record {
        node_id = node.id;
        node_name = node.name;
        user_count = 0;
        rows_inserted = 0;
        upload_bytes = 0;
        download_bytes = 0;
      } in
      elim q.0 [
        | err e ↦ record { result = result; failure = some e; state = queried }
        | ok deltas ↦
            record_deltas node deltas now
              (sum_deltas deltas (record result { user_count = length deltas })) queried
      ]
