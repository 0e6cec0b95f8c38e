-- ===== src/HttpApi/Traffic.antt =====
-- The handlers of internal/httpapi/server.go for traffic usage. A float64 is a parameter of the model,
-- with the tests and the conversion that bytesFromTrafficUnits applies to it, and so is time.Parse
-- for a date.
use proxy_control_plane.Base.{
  ℕ, ◌+◌, Text, codes, Bool, true, false, not, ◌&&◌, ◌||◌, Option, none, some, List, [], ◌∷◌, ◌++◌,
  str_eq, trim_space, if◌then◌else◌, Result, ok, err, ℤ, pos, negsuc, leb_ℤ, ltb,
}
use proxy_control_plane.Base
use proxy_control_plane.Domain.{Time, TrafficUsage, TrafficUsageTotal}
use proxy_control_plane.Store
use proxy_control_plane.Store.{Error, Db, Exec, invalid, lift, raise}
use proxy_control_plane.Store.Traffic
use proxy_control_plane.Store.Traffic.{TrafficUsageTotalFilter, traffic_usage_total, day_length}
use proxy_control_plane.Security.AccessToken.{AccessClaims}
use proxy_control_plane.HttpApi.Action.{
  Failure, Action, reply, write_error, ◌>>=◌, ◌>>◌, require, store_failure, call, Request, audit,
}
use proxy_control_plane.HttpApi.Auth.{bind_json}
use proxy_control_plane.HttpApi.Customers.{checked, customer_id_from}
use proxy_control_plane.HttpApi.Patch.{ensure, bad_request}

-- `bytes` is int64(math.Round(v * 10^9)), and `is_large` the comparison with 2^63 / 10^9.
pub record Float64 (F : Type 0) : Type 0 where
  pub is_finite : F → Bool
  pub is_negative : F → Bool
  pub is_large : F → Bool
  pub bytes : F → ℤ

module _ {F : Type 0} (float : Float64 F) where
  -- The part for an amount in GB.
  unfoldable pub bytes_of_gb : F → Text → Result Failure ℤ
  bytes_of_gb value direction =
      Base.◌>>◌ (ensure (float.is_finite value) (direction ++ codes "_gb must be finite")) (
        Base.◌>>◌
          (ensure (not (float.is_negative value)) (direction ++ codes "_gb cannot be negative"))
          (Base.◌>>◌ (ensure (not (float.is_large value)) (direction ++ codes "_gb is too large"))
            (ok (float.bytes value))))

  -- An error is answered with status 400 by every caller.
  unfoldable pub bytes_from_traffic_units : Option ℤ → Option F → Text → Result Failure ℤ
  bytes_from_traffic_units (some bytes) (some gb) direction =
      bad_request
        (direction ++ (codes "_bytes and " ++ (direction ++ codes "_gb cannot both be set")))
  bytes_from_traffic_units (some bytes) none direction =
      Base.◌>>◌ (ensure (leb_ℤ (pos 0) bytes) (direction ++ codes "_bytes cannot be negative"))
        (ok bytes)
  bytes_from_traffic_units none none direction = ok (pos 0)
  bytes_from_traffic_units none (some gb) direction = bytes_of_gb gb direction

pub record TrafficUsageRequest (F : Type 0) : Type 0 where
  pub proxy_account_id : Text
  pub proxy_node_id : Text
  pub upload_bytes : Option ℤ
  pub download_bytes : Option ℤ
  pub upload_gb : Option F
  pub download_gb : Option F
  pub recorded_at : Time

-- The tables keep byte counts that are not negative: a negative one fails by their CHECK.
unfoldable pub record_usage : Request → Text → Text → Time → ℤ → ℤ → Exec TrafficUsage
record_usage req account_id node_id at (pos up) (pos down) =
    Traffic.record_traffic_usage req.now req.new_id (record {
      id = [];
      proxy_account_id = account_id;
      proxy_node_id = node_id;
      upload_bytes = up;
      download_bytes = down;
      recorded_at = at;
    })
record_usage req account_id node_id at (negsuc up) down =
    Store.◌>>=◌ (lift req.new_id) λ id. raise invalid
record_usage req account_id node_id at (pos up) (negsuc down) =
    Store.◌>>=◌ (lift req.new_id) λ id. raise invalid

unfoldable pub record_traffic_usage :
    {F : Type 0} → Float64 F → Request → Text → Option (TrafficUsageRequest F) → Action TrafficUsage
record_traffic_usage float req actor body = do
  given ← bind_json body
  require (not (str_eq given.proxy_account_id [] || str_eq given.proxy_node_id [])) 400
      (codes "proxy_account_id and proxy_node_id are required")
  up ← checked (bytes_from_traffic_units float given.upload_bytes given.upload_gb (codes "upload"))
  down ←
      checked
        (bytes_from_traffic_units float given.download_bytes given.download_gb (codes "download"))
  usage ←
      call store_failure
        (record_usage req given.proxy_account_id given.proxy_node_id given.recorded_at up down)
  audit req actor (codes "traffic_usage.recorded") usage.id
  reply usage

-- The parameters of the query, empty where they are missing.
pub record TotalQuery : Type 0 where
  pub customer_id : Text
  pub proxy_account_id : Text
  pub since : Text
  pub until : Text

-- A day, or `none` where the parameter is blank.
unfoldable pub day_param : (Text → Option Time) → Text → Text → Result Failure (Option Time)
day_param parse_day name given =
    let param = trim_space given in
    if str_eq param [] then ok none else elim (parse_day param) [
      | none ↦ bad_request (name ++ codes " must be YYYY-MM-DD")
      | some day ↦ ok (some day)
    ]

abbrev pub next_day : Option Time → Option Time
next_day none = none
next_day (some day) = some (day + day_length)

abbrev pub in_order : Option Time → Option Time → Bool
in_order none until = true
in_order (some since) none = true
in_order (some since) (some until) = ltb since until

unfoldable pub traffic_usage_total_filter_from_query :
    (Text → Option Time) → TotalQuery → Result Failure TrafficUsageTotalFilter
traffic_usage_total_filter_from_query parse_day query =
    Base.◌>>=◌ (day_param parse_day (codes "since") query.since) λ since.
      Base.◌>>=◌ (day_param parse_day (codes "until") query.until) λ until.
        Base.◌>>◌
          (ensure (in_order since (next_day until))
            (codes "until must be the same day as since or later"))
          (ok (record {
            customer_id = trim_space query.customer_id;
            proxy_account_id = trim_space query.proxy_account_id;
            since = since;
            until = next_day until;
          }))

abbrev pub total_of : TrafficUsageTotalFilter → Action TrafficUsageTotal
total_of filter db = reply (traffic_usage_total filter db) db

unfoldable pub get_traffic_usage_total :
    (Text → Option Time) → TotalQuery → Action TrafficUsageTotal
get_traffic_usage_total parse_day query = do
  filter ← checked (traffic_usage_total_filter_from_query parse_day query)
  total_of filter

unfoldable pub customer_traffic_usage_total :
    (Text → Option Time) → AccessClaims → TotalQuery → Action TrafficUsageTotal
customer_traffic_usage_total parse_day claims query = elim (customer_id_from claims) [
  | none ↦ write_error 401 (codes "invalid bearer token")
  | some id ↦ checked (traffic_usage_total_filter_from_query parse_day query) >>= λ filter.
      total_of (record filter { customer_id = id })
]
