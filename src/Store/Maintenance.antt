-- ===== src/Store/Maintenance.antt =====
-- internal/store/maintenance.go: the retention of the tables. A cutoff before Go's zero time is 0.
pub mod Aggregate
pub mod Totals
pub mod DryRun
pub mod Cleanup
mod Tests
use proxy_control_plane.Base.{
  ℕ, suc, ◌+◌, ◌-◌, Text, Bool, true, false, not, ◌&&◌, ◌||◌, Option, none, some, List, [], ◌∷◌,
  any, keep, length, str_eq, if◌then◌else◌, Result, ok, err, eqb, leb, ltb, ℤ, pos, negsuc, leb_ℤ,
  count,
}
use proxy_control_plane.Domain.{
  Time, AuthRefreshToken, AuditLog, DomainAccessLog, TrafficUsage, TrafficUsageDaily,
}
use proxy_control_plane.Store.{
  Error, invalid, Db, Exec, pure, raise, stamp, continue, ◌>>=◌, settle, transaction,
}
use proxy_control_plane.Store.Traffic.{day_of}

pub record MaintenanceCleanupInput : Type 0 where
  pub audit_retention : ℤ
  pub traffic_retention : ℤ
  pub traffic_daily_retention : ℤ
  pub domain_access_retention : ℤ
  pub auth_refresh_retention : ℤ
  pub dry_run : Bool
  pub now : Time

pub record MaintenanceCleanupResult : Type 0 where
  pub dry_run : Bool
  pub audit_cutoff : Time
  pub traffic_cutoff : Time
  pub traffic_daily_cutoff : Time
  pub domain_access_cutoff : Time
  pub auth_refresh_cutoff : Time
  pub audit_rows_deleted : ℕ
  pub traffic_rows_deleted : ℕ
  pub traffic_daily_rows_upserted : ℕ
  pub traffic_daily_rows_deleted : ℕ
  pub domain_access_rows_deleted : ℕ
  pub auth_refresh_rows_deleted : ℕ

-- The WHERE clauses.
unfoldable pub old_usage : Time → TrafficUsage → Bool
old_usage cutoff u = ltb u.recorded_at cutoff

unfoldable pub old_audit : Time → AuditLog → Bool
old_audit cutoff a = ltb a.created_at cutoff

unfoldable pub old_daily : Time → TrafficUsageDaily → Bool
old_daily cutoff d = ltb d.day (day_of cutoff)

unfoldable pub old_access : Time → DomainAccessLog → Bool
old_access cutoff l = ltb l.accessed_at cutoff

unfoldable pub old_refresh : Time → AuthRefreshToken → Bool
old_refresh cutoff t =
    ltb t.expires_at cutoff || elim t.revoked_at [ none ↦ false | some at ↦ ltb at cutoff ]

-- Rows of one GROUP BY, and rows in conflict on the primary key of `traffic_usage_daily`.
unfoldable pub same_key : TrafficUsageDaily → TrafficUsageDaily → Bool
same_key a b =
    str_eq a.proxy_account_id b.proxy_account_id
    && (str_eq a.proxy_node_id b.proxy_node_id && eqb a.day b.day)

unfoldable pub daily_of : Time → TrafficUsage → TrafficUsageDaily
daily_of clock u = record {
  proxy_account_id = u.proxy_account_id;
  proxy_node_id = u.proxy_node_id;
  day = day_of u.recorded_at;
  upload_bytes = u.upload_bytes;
  download_bytes = u.download_bytes;
  created_at = clock;
  updated_at = clock;
}

unfoldable pub add_bytes : Time → TrafficUsageDaily → TrafficUsageDaily → TrafficUsageDaily
add_bytes clock d new = record d {
  upload_bytes = d.upload_bytes + new.upload_bytes;
  download_bytes = d.download_bytes + new.download_bytes;
  updated_at = clock;
}

-- INSERT … ON CONFLICT DO UPDATE of one row
unfoldable pub upsert_daily :
    Time → TrafficUsageDaily → List TrafficUsageDaily → List TrafficUsageDaily
upsert_daily clock new [] = new ∷ []
upsert_daily clock new (d ∷ ds) =
    let rest = upsert_daily clock new ds in
    if same_key d new then add_bytes clock d new ∷ ds else d ∷ rest

unfoldable pub upsert_all :
    Time → List TrafficUsageDaily → List TrafficUsageDaily → List TrafficUsageDaily
upsert_all clock [] ds = ds
upsert_all clock (g ∷ gs) ds = upsert_all clock gs (upsert_daily clock g ds)

-- GROUP BY with the sums
unfoldable pub aggregated : Time → List TrafficUsage → List TrafficUsageDaily
aggregated clock [] = []
aggregated clock (u ∷ us) = upsert_daily clock (daily_of clock u) (aggregated clock us)

unfoldable pub aggregate_traffic_usage : Time → Time → Exec ℕ
aggregate_traffic_usage clock cutoff db =
    let groups = aggregated clock (keep (old_usage cutoff) db.usage) in
    (ok (length groups), record db { daily = upsert_all clock groups db.daily })

unfoldable pub delete_traffic_usage : Time → Exec ℕ
delete_traffic_usage cutoff db = (
  ok (count (old_usage cutoff) db.usage),
  record db { usage = keep (λ u. not (old_usage cutoff u)) db.usage },
)

unfoldable pub delete_audit_logs : Time → Exec ℕ
delete_audit_logs cutoff db = (
  ok (count (old_audit cutoff) db.audit_logs),
  record db { audit_logs = keep (λ a. not (old_audit cutoff a)) db.audit_logs },
)

unfoldable pub delete_domain_access_logs : Time → Exec ℕ
delete_domain_access_logs cutoff db = (
  ok (count (old_access cutoff) db.domain_logs),
  record db { domain_logs = keep (λ l. not (old_access cutoff l)) db.domain_logs },
)

unfoldable pub delete_traffic_usage_daily : Time → Exec ℕ
delete_traffic_usage_daily cutoff db = (
  ok (count (old_daily cutoff) db.daily),
  record db { daily = keep (λ d. not (old_daily cutoff d)) db.daily },
)

unfoldable pub delete_auth_refresh_tokens : Time → Exec ℕ
delete_auth_refresh_tokens cutoff db = (
  ok (count (old_refresh cutoff) db.refresh_tokens),
  record db { refresh_tokens = keep (λ t. not (old_refresh cutoff t)) db.refresh_tokens },
)

-- How many rows have no later row of their group.
unfoldable pub count_traffic_daily_groups : Time → List TrafficUsage → ℕ
count_traffic_daily_groups clock [] = 0
count_traffic_daily_groups clock (u ∷ us) =
    (if any (λ v. same_key (daily_of clock v) (daily_of clock u)) us then 0 else 1)
    + count_traffic_daily_groups clock us

-- `now.Add(-retention)`
unfoldable pub cutoff_before : Time → ℤ → Time
cutoff_before now (pos n) = now - n
cutoff_before now (negsuc n) = now + suc n

unfoldable pub valid_retention : MaintenanceCleanupInput → Bool
valid_retention input = not (
    leb_ℤ input.audit_retention (pos 0)
    || (leb_ℤ input.traffic_retention (pos 0)
        || (leb_ℤ input.traffic_daily_retention (pos 0)
            || (leb_ℤ input.domain_access_retention (pos 0)
                || leb_ℤ input.auth_refresh_retention (pos 0)))))

unfoldable pub cleanup_cutoffs : Time → MaintenanceCleanupInput → MaintenanceCleanupResult
cleanup_cutoffs now input = record {
  dry_run = input.dry_run;
  audit_cutoff = cutoff_before now input.audit_retention;
  traffic_cutoff = cutoff_before now input.traffic_retention;
  traffic_daily_cutoff = cutoff_before now input.traffic_daily_retention;
  domain_access_cutoff = cutoff_before now input.domain_access_retention;
  auth_refresh_cutoff = cutoff_before now input.auth_refresh_retention;
  audit_rows_deleted = 0;
  traffic_rows_deleted = 0;
  traffic_daily_rows_upserted = 0;
  traffic_daily_rows_deleted = 0;
  domain_access_rows_deleted = 0;
  auth_refresh_rows_deleted = 0;
}

-- The function that the transaction runs, statement by statement.
unfoldable pub cleanup_tx : Time → MaintenanceCleanupResult → Exec MaintenanceCleanupResult
cleanup_tx clock result = do
  upserted ← aggregate_traffic_usage clock result.traffic_cutoff
  traffic ← delete_traffic_usage result.traffic_cutoff
  audit ← delete_audit_logs result.audit_cutoff
  access ← delete_domain_access_logs result.domain_access_cutoff
  daily ← delete_traffic_usage_daily result.traffic_daily_cutoff
  refresh ← delete_auth_refresh_tokens result.auth_refresh_cutoff
  pure (record result {
    traffic_daily_rows_upserted = upserted;
    traffic_rows_deleted = traffic;
    audit_rows_deleted = audit;
    domain_access_rows_deleted = access;
    traffic_daily_rows_deleted = daily;
    auth_refresh_rows_deleted = refresh;
  })

unfoldable pub maintenance_cleanup_dry_run :
    Time → MaintenanceCleanupResult → Exec MaintenanceCleanupResult
maintenance_cleanup_dry_run clock result db = (
  ok (record result {
    traffic_rows_deleted = count (old_usage result.traffic_cutoff) db.usage;
    traffic_daily_rows_upserted =
        count_traffic_daily_groups clock (keep (old_usage result.traffic_cutoff) db.usage);
    audit_rows_deleted = count (old_audit result.audit_cutoff) db.audit_logs;
    domain_access_rows_deleted = count (old_access result.domain_access_cutoff) db.domain_logs;
    traffic_daily_rows_deleted = count (old_daily result.traffic_daily_cutoff) db.daily;
    auth_refresh_rows_deleted = count (old_refresh result.auth_refresh_cutoff) db.refresh_tokens;
  }),
  db,
)

-- `clock` is the time of the call, for Go and for `now()` in SQL.
unfoldable pub maintenance_cleanup : Time → MaintenanceCleanupInput → Exec MaintenanceCleanupResult
maintenance_cleanup clock input =
    let result = cleanup_cutoffs (stamp clock input.now) input in
    if not (valid_retention input)
    then raise invalid
    else if input.dry_run
    then maintenance_cleanup_dry_run clock result
    else transaction (cleanup_tx clock result)
