-- ===== src/Store/Maintenance/Tests.antt =====
-- Runs of the clean-up.
use proxy_control_plane.Base.{
  ◌≤◌, ◌*◌, codes, true, false, none, some, [], ◌∷◌, ◌≡◌, refl, any, keep, arith, str_eq, ok, pos,
  count,
}
use proxy_control_plane.Store.{Db}
use proxy_control_plane.Store.Samples.{traffic_db, sample_usage}
use proxy_control_plane.Store.Traffic.{day_of, TrafficUsageTotalFilter, traffic_usage_total}
use proxy_control_plane.Store.Maintenance.{
  MaintenanceCleanupInput, MaintenanceCleanupResult, old_usage, old_audit, old_daily, old_access,
  old_refresh, same_key, daily_of, add_bytes, upsert_daily, upsert_all, aggregated,
  aggregate_traffic_usage, delete_traffic_usage, delete_audit_logs, delete_domain_access_logs,
  delete_traffic_usage_daily, delete_auth_refresh_tokens, cutoff_before, valid_retention,
  cleanup_cutoffs, cleanup_tx, maintenance_cleanup,
}
use proxy_control_plane.Store.Maintenance.DryRun.{as_dry, dry_run_predicts}
use proxy_control_plane.Store.Maintenance.Cleanup.{cleanup_keeps_total}

-- What a run computes with.
running : Unit {0}
unfolding day_of old_usage old_audit old_daily old_access old_refresh same_key daily_of add_bytes
    upsert_daily upsert_all aggregated aggregate_traffic_usage delete_traffic_usage
    delete_audit_logs delete_domain_access_logs delete_traffic_usage_daily
    delete_auth_refresh_tokens cutoff_before valid_retention cleanup_cutoffs cleanup_tx
    maintenance_cleanup count str_eq
running = tt

-- Detail is kept for five days and daily rows for nine, on day eleven.
abbrev input : MaintenanceCleanupInput
input = record {
  audit_retention = pos 1;
  traffic_retention = pos 432000000000000;
  traffic_daily_retention = pos 777600000000000;
  domain_access_retention = pos 1;
  auth_refresh_retention = pos 1;
  dry_run = false;
  now = 950400000000000;
}

abbrev after : Db
after = record traffic_db {
  usage = sample_usage "x3" 40 864000000000000 ∷ [];
  daily =
      record {
        proxy_account_id = codes "a1";
        proxy_node_id = codes "n1";
        day = 2;
        upload_bytes = 30;
        download_bytes = 2;
        created_at = 9;
        updated_at = 9;
      }
      ∷ [];
}

abbrev result : MaintenanceCleanupResult
result = record {
  dry_run = false;
  audit_cutoff = 950399999999999;
  traffic_cutoff = 518400000000000;
  traffic_daily_cutoff = 172800000000000;
  domain_access_cutoff = 950399999999999;
  auth_refresh_cutoff = 950399999999999;
  audit_rows_deleted = 0;
  traffic_rows_deleted = 2;
  traffic_daily_rows_upserted = 1;
  traffic_daily_rows_deleted = 0;
  domain_access_rows_deleted = 0;
  auth_refresh_rows_deleted = 0;
}

run : maintenance_cleanup 9 input traffic_db ≡ (ok result, after)
unfolding running
run = refl

abbrev filter : TrafficUsageTotalFilter
filter = record {
  customer_id = codes "c1";
  proxy_account_id = [];
  since = some 172800000000000;
  until = none;
}

cutoff_recent : day_of 172800000000000 ≤ day_of 172800000000000
cutoff_recent = omega arith

starts_day : 172800000000000 ≡ day_of 172800000000000 * 86400000000000
unfolding running
starts_day = refl

cleanup_keeps_total_example :
    traffic_usage_total filter after ≡ traffic_usage_total filter traffic_db
cleanup_keeps_total_example =
    cleanup_keeps_total 9 filter 172800000000000 traffic_db refl starts_day tt input result after
      run cutoff_recent

all_young :
    any
      (λ u. old_daily 172800000000000 (daily_of 9 u))
      (keep (old_usage 518400000000000) traffic_db.usage)
    ≡ false
unfolding running
all_young = refl

cutoffs_lem :
    any
      (λ u. old_daily (cleanup_cutoffs 950400000000000 input).traffic_daily_cutoff (daily_of 9 u))
      (keep (old_usage (cleanup_cutoffs 950400000000000 input).traffic_cutoff) traffic_db.usage)
    ≡ false
unfolding running
cutoffs_lem = refl

dry_run_predicts_example :
    maintenance_cleanup 9 (record input { dry_run = true }) traffic_db
    ≡ (as_dry (maintenance_cleanup 9 input traffic_db).0, traffic_db)
dry_run_predicts_example = dry_run_predicts 9 input traffic_db cutoffs_lem
