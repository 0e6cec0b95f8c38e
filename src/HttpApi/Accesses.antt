-- ===== src/HttpApi/Accesses.antt =====
-- The handlers of internal/httpapi/server.go for the log of domain accesses. net.SplitHostPort is
-- that of `HttpApi.Action`; time.Parse, strconv.Atoi and float64 are parameters.
mod Tests
use proxy_control_plane.Base.{
  ℕ, suc, ◌-◌, Text, codes, Bool, true, false, not, ◌&&◌, ◌||◌, Option, none, some, List, [], ◌∷◌,
  ◌++◌, any, length, take, mem, str_eq, trim_space, to_lower, if◌then◌else◌, Result, ok, err, ℤ,
  pos, leb_ℤ, ltb_ℤ, eqb_ℤ, ltb, leb, eqb, is_nil, is_some, has_prefix, contains,
}
use proxy_control_plane.Base
use proxy_control_plane.Domain.{Time, DomainAccessLog}
use proxy_control_plane.Store.{Error}
use proxy_control_plane.Store.Access
use proxy_control_plane.Store.Access.{DomainAccessLogFilter}
use proxy_control_plane.Store.Migrations.{trim_suffix}
use proxy_control_plane.HttpApi.Action.{
  Failure, Action, reply, ◌>>=◌, ◌>>◌, store_failure, call, Request, audit_json, split_host,
  has_byte,
}
use proxy_control_plane.HttpApi.Auth.{bind_json}
use proxy_control_plane.HttpApi.Customers.{checked}
use proxy_control_plane.HttpApi.Patch.{ensure, bad_request}
use proxy_control_plane.HttpApi.Traffic.{Float64, bytes_from_traffic_units}

pub record DomainAccessLogEventRequest (F : Type 0) : Type 0 where
  pub proxy_account_id : Text
  pub proxy_node_id : Text
  pub domain : Text
  pub event_count : ℤ
  pub upload_bytes : Option ℤ
  pub download_bytes : Option ℤ
  pub upload_gb : Option F
  pub download_gb : Option F
  pub accessed_at : Time

-- The events, and the fields of a body that is itself an event.
pub record DomainAccessLogBatchRequest (F : Type 0) : Type 0 where
  pub events : List (DomainAccessLogEventRequest F)
  pub single : DomainAccessLogEventRequest F

-- The host of a text with a port, or the text.
unfoldable pub without_port : Text → Text
without_port value = elim (split_host value) [
  | none ↦ value
  | some host ↦ to_lower (trim_space host)
]

-- `none` is a text that is not a host name.
unfoldable pub normalize_access_domain : Text → Option Text
normalize_access_domain given =
    let value = to_lower (trim_space given) in
    let name = trim_suffix (without_port value) (codes ".") in
    if str_eq value [] || contains value (codes "://")
    then none
    else if str_eq name [] || ltb 253 (length name)
    then none
    else if any (λ c. has_byte c name) (codes " \t\r\n:/?#@*")
    then none
    else some name

unfoldable pub access_domain : Text → Result Failure Text
access_domain given = elim (normalize_access_domain given) [
  | none ↦ bad_request (codes "domain must be a hostname without path, query, or credentials")
  | some name ↦ ok name
]

unfoldable pub domain_access_log_from_request :
    {F : Type 0} → Float64 F → DomainAccessLogEventRequest F → Result Failure DomainAccessLog
domain_access_log_from_request float given =
    let event_count = if eqb_ℤ given.event_count (pos 0) then pos 1 else given.event_count in
    Base.◌>>◌
      (ensure (not (str_eq given.proxy_account_id [] || str_eq given.proxy_node_id []))
        (codes "proxy_account_id and proxy_node_id are required"))
      (Base.◌>>=◌ (access_domain given.domain) λ domain.
        Base.◌>>◌
          (ensure (not (ltb_ℤ event_count (pos 0))) (codes "event_count cannot be negative"))
          (Base.◌>>=◌
            (bytes_from_traffic_units float given.upload_bytes given.upload_gb (codes "upload"))
            λ up.
              Base.◌>>=◌
                (bytes_from_traffic_units float given.download_bytes given.download_gb
                  (codes "download"))
                λ down. ok (record {
                  id = [];
                  proxy_account_id = given.proxy_account_id;
                  proxy_node_id = given.proxy_node_id;
                  domain = domain;
                  event_count = event_count;
                  upload_bytes = up;
                  download_bytes = down;
                  accessed_at = given.accessed_at;
                  created_at = 0;
                })))

-- The loop of `recordDomainAccessLogs`.
unfoldable pub logs_of :
    {F : Type 0}
    → Float64 F
    → List (DomainAccessLogEventRequest F)
    → Result Failure (List DomainAccessLog)
logs_of float [] = ok []
logs_of float (event ∷ events) =
    Base.◌>>=◌ (domain_access_log_from_request float event)
      λ log. Base.◌>>=◌ (logs_of float events) λ logs. ok (log ∷ logs)

-- `rows_json` is json.Marshal of the number of rows, and `new_ids i` what NewID returns for log i.
unfoldable pub record_domain_access_logs :
    {F : Type 0}
    → Float64 F
    → (ℕ → Text)
    → Request
    → (ℕ → Result Error Text)
    → Text
    → Option (DomainAccessLogBatchRequest F)
    → Action ℕ
record_domain_access_logs float rows_json req new_ids actor body = do
  given ← bind_json body
  logs ← checked (logs_of float (if is_nil given.events then given.single ∷ [] else given.events))
  inserted ← call store_failure (Access.record_domain_access_logs req.now new_ids logs)
  audit_json req actor (codes "domain_access_logs.recorded") (rows_json inserted)
  reply inserted

-- The parameters of the query, empty where they are missing.
pub record AccessQuery : Type 0 where
  pub proxy_account_id : Text
  pub proxy_node_id : Text
  pub domain : Text
  pub since : Text
  pub until : Text
  pub limit : Text

-- A parameter that is read if it is not blank.
unfoldable pub query_param : {A : Type 0} → A → (Text → Option A) → Text → Text → Result Failure A
query_param missing read message given =
    let param = trim_space given in
    if str_eq param []
    then ok missing
    else elim (read param) [ none ↦ bad_request message | some value ↦ ok value ]

abbrev pub some_time : (Text → Option Time) → Text → Option (Option Time)
some_time parse text = elim (parse text) [ none ↦ none | some at ↦ some (some at) ]

abbrev pub positive : (Text → Option ℤ) → Text → Option ℤ
positive atoi text = elim (atoi text) [
  | none ↦ none
  | some n ↦ if leb_ℤ n (pos 0) then none else some n
]

unfoldable pub domain_access_log_filter_from_query :
    (Text → Option Time) → (Text → Option ℤ) → AccessQuery → Result Failure DomainAccessLogFilter
domain_access_log_filter_from_query parse_time atoi query =
    Base.◌>>=◌
      (query_param [] normalize_access_domain
        (codes "domain must be a hostname without path, query, or credentials") query.domain)
      λ domain.
        Base.◌>>=◌
          (query_param none (some_time parse_time) (codes "since must be RFC3339") query.since)
          λ since.
            Base.◌>>=◌
              (query_param none (some_time parse_time) (codes "until must be RFC3339") query.until)
              λ until.
                Base.◌>>=◌
                  (query_param (pos 0) (positive atoi) (codes "limit must be a positive integer")
                    query.limit)
                  λ limit. ok (record {
                    proxy_account_id = trim_space query.proxy_account_id;
                    proxy_node_id = trim_space query.proxy_node_id;
                    domain = domain;
                    since = since;
                    until = until;
                    limit = limit;
                  })

unfoldable pub list_domain_access_logs :
    (Text → Option Time) → (Text → Option ℤ) → AccessQuery → Action (List DomainAccessLog)
list_domain_access_logs parse_time atoi query = do
  filter ← checked (domain_access_log_filter_from_query parse_time atoi query)
  call store_failure (Access.list_domain_access_logs filter)
