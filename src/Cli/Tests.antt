-- ===== src/Cli/Tests.antt =====
-- Runs of the retention periods.
use proxy_control_plane.Base.{
  codes, true, false, none, some, ◌≡◌, refl, arith, ok, err, str_eq, trim_space, trim_left,
  trim_right, is_space, pos,
}
use proxy_control_plane.Config.{Config, has_suffix}
use proxy_control_plane.Store.Migrations.{trim_suffix}
use proxy_control_plane.Store.Maintenance.{MaintenanceCleanupInput}
use proxy_control_plane.HttpApi.Samples.{config}
use proxy_control_plane.Cli.{
  Parsers, day_retention, duration_retention, parse_retention_duration,
  maintenance_cleanup_input_from_config,
}
use proxy_control_plane.Cli.Retention.{ParsesInt64, is_period, cleanup_periods_bounded}

-- Every number is 90, and every duration an hour.
abbrev parsers : Parsers
parsers = record {
  parse_bool = λ text. none;
  parse_int = λ text. some (pos 90);
  parse_duration = λ text. some (pos 3600000000000);
}

parsers-ParsesInt64 : ParsesInt64 parsers
parsers-ParsesInt64 text d h = ground (arith, h)

abbrev configured : Config
configured = record config {
  maintenance_audit_retention = codes "90d";
  maintenance_traffic_retention = codes "1h";
  maintenance_traffic_daily_retention = codes "90 d";
  maintenance_domain_access_retention = codes "60m";
  maintenance_auth_refresh_retention = codes " 90d ";
}

abbrev periods : MaintenanceCleanupInput
periods = record {
  audit_retention = pos 7776000000000000;
  traffic_retention = pos 3600000000000;
  traffic_daily_retention = pos 7776000000000000;
  domain_access_retention = pos 3600000000000;
  auth_refresh_retention = pos 7776000000000000;
  dry_run = false;
  now = 0;
}

run_of_periods : maintenance_cleanup_input_from_config parsers configured ≡ ok (pos 1, periods)
unfolding maintenance_cleanup_input_from_config parse_retention_duration day_retention
    duration_retention has_suffix trim_suffix str_eq trim_space trim_left trim_right is_space
run_of_periods = refl

too_many_days : day_retention (some (pos 106752)) ≡ err (codes "retention is too large")
unfolding day_retention
too_many_days = refl

cleanup_periods_bounded_example :
    (is_period periods.audit_retention ≡ true)
    × (is_period periods.traffic_retention ≡ true)
    × (is_period periods.traffic_daily_retention ≡ true)
    × (is_period periods.domain_access_retention ≡ true)
    × (is_period periods.auth_refresh_retention ≡ true)
cleanup_periods_bounded_example =
    cleanup_periods_bounded parsers configured (pos 1) periods parsers-ParsesInt64 run_of_periods
