-- ===== src/Store/Maintenance/DryRun.antt =====
-- What a dry run tells of the run.
use proxy_control_plane.Base.{
  Bool, true, false, ◌≡◌, refl, any, keep, Bool-cases, inl, inr, Result, ok, err, count,
}
use proxy_control_plane.Domain.{Time}
use proxy_control_plane.Store.{Error, Db, stamp}
use proxy_control_plane.Store.Maintenance.{
  MaintenanceCleanupInput, MaintenanceCleanupResult, old_usage, old_daily, daily_of, aggregated,
  aggregate_traffic_usage, delete_traffic_usage, delete_audit_logs, delete_domain_access_logs,
  delete_traffic_usage_daily, delete_auth_refresh_tokens, valid_retention, cleanup_cutoffs,
  cleanup_tx, maintenance_cleanup_dry_run, maintenance_cleanup, upsert_all,
}
use proxy_control_plane.Store.Maintenance.Aggregate.{
  length-aggregated, count-upsert_all, any_old-aggregated,
}

-- A run's outcome as a dry run reports it.
abbrev pub as_dry : Result Error MaintenanceCleanupResult → Result Error MaintenanceCleanupResult
as_dry (ok result) = ok (record result { dry_run = true })
as_dry (err e) = err e

module _ (clock : Time) (input : MaintenanceCleanupInput) (db : Db) where
  -- The cutoffs of the run.
  abbrev cutoffs : MaintenanceCleanupResult
  cutoffs = cleanup_cutoffs (stamp clock input.now) (record input { dry_run = false })

  valid_dry : (b : Bool) → valid_retention (record input { dry_run = b }) ≡ valid_retention input
  unfolding valid_retention
  valid_dry b = refl

  -- A dry run changes nothing and predicts every count of the run, and fails where the run fails,
  -- provided that no traffic row that the run aggregates is of a day before the daily cutoff.
  pub dry_run_predicts :
      any
          (λ u. old_daily cutoffs.traffic_daily_cutoff (daily_of clock u))
          (keep (old_usage cutoffs.traffic_cutoff) db.usage)
        ≡ false
      → maintenance_cleanup clock (record input { dry_run = true }) db
        ≡ (as_dry (maintenance_cleanup clock (record input { dry_run = false }) db).0, db)
  unfolding maintenance_cleanup maintenance_cleanup_dry_run cleanup_tx aggregate_traffic_usage
      delete_traffic_usage delete_audit_logs delete_domain_access_logs delete_traffic_usage_daily
      delete_auth_refresh_tokens cleanup_cutoffs
  dry_run_predicts young =
      let us = keep (old_usage cutoffs.traffic_cutoff) db.usage in
      let groups = length-aggregated clock us in
      let deleted : count (old_daily cutoffs.traffic_daily_cutoff)
            (upsert_all clock (aggregated clock us) db.daily)
          ≡ count (old_daily cutoffs.traffic_daily_cutoff) db.daily =
        count-upsert_all clock cutoffs.traffic_daily_cutoff (aggregated clock us) db.daily
          (any_old-aggregated clock cutoffs.traffic_daily_cutoff us young) in
      elim (Bool-cases (valid_retention input)) [
        | inl e ↦ rw (valid_dry true, valid_dry false, e) (rw (deleted, groups) refl)
        | inr e ↦ rw (valid_dry true, valid_dry false, e) refl
      ]
