-- ===== src/Cli.antt =====
-- The parts of internal/cli that compute: the options of the server over its configuration
-- (service.go) and the retention periods (maintenance.go, service.go). strconv.ParseBool,
-- strconv.ParseInt and time.ParseDuration are parameters; an error is its text up to a wrapped cause.
pub mod Retention
mod Tests
use proxy_control_plane.Base.{
  ℕ, ◌*◌, ◌-◌, ◌+◌, Text, codes, Bool, true, false, not, ◌||◌, ◌&&◌, Option, none, some, List, [],
  ◌∷◌, ◌++◌, take, drop, length, split, str_eq, has_prefix, contains, trim_space, if◌then◌else◌,
  Result, ok, err, ◌>>=◌, ◌>>◌, eqb, ℤ, pos, negsuc, leb_ℤ, ltb_ℤ,
}
use proxy_control_plane.Config.{Config, has_suffix}
use proxy_control_plane.Store.Migrations.{trim_suffix}
use proxy_control_plane.Store.Maintenance.{MaintenanceCleanupInput}

pub record Parsers : Type 0 where
  pub parse_bool : Text → Option Bool
  pub parse_int : Text → Option ℤ
  pub parse_duration : Text → Option ℤ

pub record ServiceOptions : Type 0 where
  pub listen_addr : Text
  pub database_url : Text
  pub auto_create_database : Text
  pub auto_migrate : Text
  pub runtime_sync : Text
  pub runtime_sync_interval : Text
  pub runtime_sync_timeout : Text
  pub runtime_sync_concurrency : ℤ
  pub traffic_sync : Text
  pub traffic_sync_interval : Text
  pub traffic_sync_timeout : Text
  pub traffic_sync_concurrency : ℤ
  pub maintenance_cleanup : Text
  pub maintenance_cleanup_interval : Text
  pub maintenance_audit_retention : Text
  pub maintenance_traffic_retention : Text
  pub maintenance_traffic_daily_retention : Text
  pub maintenance_domain_access_retention : Text
  pub maintenance_auth_refresh_retention : Text

abbrev pub or_given : Text → Text → Text
or_given current given = if str_eq given [] then current else given

abbrev pub or_positive : ℤ → ℤ → ℤ
or_positive current given = if ltb_ℤ (pos 0) given then given else current

-- An option that is given must parse.
unfoldable pub option_with : {A : Type 0} → (Text → Option A) → Text → A → Text → Result Text A
option_with parse message current given =
    if str_eq given []
    then ok current
    else elim (parse given) [ none ↦ err message | some value ↦ ok value ]

abbrev pub true_or_false : Text
true_or_false = codes " must be true or false"

unfoldable pub apply_service_options : Parsers → ServiceOptions → Config → Result Text Config
apply_service_options p opts cfg = do
  create ←
      option_with p.parse_bool (codes "--auto-create-database" ++ true_or_false)
        cfg.auto_create_database opts.auto_create_database
  migrate ←
      option_with p.parse_bool (codes "--auto-migrate" ++ true_or_false) cfg.auto_migrate
        opts.auto_migrate
  runtime ←
      option_with p.parse_bool (codes "--runtime-sync" ++ true_or_false) cfg.runtime_sync_enabled
        opts.runtime_sync
  runtime_interval ←
      option_with p.parse_duration (codes "--runtime-sync-interval must be a duration such as 5m")
        cfg.runtime_sync_interval opts.runtime_sync_interval
  runtime_timeout ←
      option_with p.parse_duration (codes "--runtime-sync-timeout must be a duration such as 30s")
        cfg.runtime_sync_timeout opts.runtime_sync_timeout
  traffic ←
      option_with p.parse_bool (codes "--traffic-sync" ++ true_or_false) cfg.traffic_sync_enabled
        opts.traffic_sync
  traffic_interval ←
      option_with p.parse_duration (codes "--traffic-sync-interval must be a duration such as 5m")
        cfg.traffic_sync_interval opts.traffic_sync_interval
  traffic_timeout ←
      option_with p.parse_duration (codes "--traffic-sync-timeout must be a duration such as 30s")
        cfg.traffic_sync_timeout opts.traffic_sync_timeout
  cleanup ←
      option_with p.parse_bool (codes "--maintenance-cleanup" ++ true_or_false)
        cfg.maintenance_cleanup_enabled opts.maintenance_cleanup
  cleanup_interval ←
      option_with p.parse_duration
        (codes "--maintenance-cleanup-interval must be a duration such as 24h")
        cfg.maintenance_cleanup_interval opts.maintenance_cleanup_interval
  ok (record cfg {
    listen_addr = or_given cfg.listen_addr opts.listen_addr;
    database_url = or_given cfg.database_url opts.database_url;
    auto_create_database = create;
    auto_migrate = migrate;
    runtime_sync_enabled = runtime;
    runtime_sync_interval = runtime_interval;
    runtime_sync_timeout = runtime_timeout;
    runtime_sync_concurrency =
        or_positive cfg.runtime_sync_concurrency opts.runtime_sync_concurrency;
    traffic_sync_enabled = traffic;
    traffic_sync_interval = traffic_interval;
    traffic_sync_timeout = traffic_timeout;
    traffic_sync_concurrency =
        or_positive cfg.traffic_sync_concurrency opts.traffic_sync_concurrency;
    maintenance_cleanup_enabled = cleanup;
    maintenance_cleanup_interval = cleanup_interval;
    maintenance_audit_retention =
        or_given cfg.maintenance_audit_retention opts.maintenance_audit_retention;
    maintenance_traffic_retention =
        or_given cfg.maintenance_traffic_retention opts.maintenance_traffic_retention;
    maintenance_traffic_daily_retention =
        or_given cfg.maintenance_traffic_daily_retention opts.maintenance_traffic_daily_retention;
    maintenance_domain_access_retention =
        or_given cfg.maintenance_domain_access_retention opts.maintenance_domain_access_retention;
    maintenance_auth_refresh_retention =
        or_given cfg.maintenance_auth_refresh_retention opts.maintenance_auth_refresh_retention;
  })

-- Nanoseconds of a day, and the days that an int64 of nanoseconds holds.
abbrev pub day : ℕ
day = 86400000000000

abbrev pub max_duration_days : ℕ
max_duration_days = 106751

abbrev pub expect : Bool → Text → Result Text (Unit {0})
expect true message = ok tt
expect false message = err message

abbrev pub times_day : ℤ → ℤ
times_day (pos n) = pos (n * day)
times_day (negsuc n) = negsuc n

-- The branch for a number of days; a negative one does not reach the product.
unfoldable pub day_retention : Option ℤ → Result Text ℤ
day_retention none = err (codes "invalid day retention")
day_retention (some days) = do
  expect (not (leb_ℤ days (pos 0))) (codes "retention must be greater than zero")
  expect (not (ltb_ℤ (pos max_duration_days) days)) (codes "retention is too large")
  ok (times_day days)

unfoldable pub duration_retention : Option ℤ → Result Text ℤ
duration_retention none = err (codes "invalid duration; use values like 90d, 720h, or 30m")
duration_retention (some duration) = do
  expect (not (leb_ℤ duration (pos 0))) (codes "retention must be greater than zero")
  ok duration

unfoldable pub parse_retention_duration : Parsers → Text → Result Text ℤ
parse_retention_duration p given =
    let value = trim_space given in
    if str_eq value []
    then err (codes "value is required")
    else if has_suffix value (codes "d")
    then day_retention (p.parse_int (trim_space (trim_suffix value (codes "d"))))
    else duration_retention (p.parse_duration value)

-- An error names the variable that it is about.
abbrev pub named : {A : Type 0} → Text → Result Text A → Result Text A
named variable (ok a) = ok a
named variable (err e) = err (variable ++ (codes ": " ++ e))

-- The interval, and the periods of the clean-up.
unfoldable pub maintenance_cleanup_input_from_config :
    Parsers → Config → Result Text (ℤ × MaintenanceCleanupInput)
maintenance_cleanup_input_from_config p cfg = do
  audit ←
      named (codes "PCP_MAINTENANCE_AUDIT_RETENTION")
        (parse_retention_duration p cfg.maintenance_audit_retention)
  traffic ←
      named (codes "PCP_MAINTENANCE_TRAFFIC_RETENTION")
        (parse_retention_duration p cfg.maintenance_traffic_retention)
  traffic_daily ←
      named (codes "PCP_MAINTENANCE_TRAFFIC_DAILY_RETENTION")
        (parse_retention_duration p cfg.maintenance_traffic_daily_retention)
  domain_access ←
      named (codes "PCP_MAINTENANCE_DOMAIN_ACCESS_RETENTION")
        (parse_retention_duration p cfg.maintenance_domain_access_retention)
  auth_refresh ←
      named (codes "PCP_MAINTENANCE_AUTH_REFRESH_RETENTION")
        (parse_retention_duration p cfg.maintenance_auth_refresh_retention)
  ok (
    cfg.maintenance_cleanup_interval,
    record {
      audit_retention = audit;
      traffic_retention = traffic;
      traffic_daily_retention = traffic_daily;
      domain_access_retention = domain_access;
      auth_refresh_retention = auth_refresh;
      dry_run = false;
      now = 0;
    },
  )
