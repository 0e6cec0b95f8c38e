-- ===== src/Store/Maintenance/Cleanup.antt =====
-- A clean-up and the traffic totals that customers see.
use proxy_control_plane.Base.{
  ℕ, ◌+◌, ◌≤◌, false, not, some, ◌≡◌, refl, ap, sym, keep, arith, Bool-cases, inl, inr, ok,
  sum_where,
}
use proxy_control_plane.Domain.{Time, TrafficUsageDaily}
use proxy_control_plane.Store.{Db, stamp, transaction}
use proxy_control_plane.Store.Traffic.{
  day_of, TrafficUsageTotalFilter, detail_matches, daily_matches, traffic_usage_total,
}
use proxy_control_plane.Store.Maintenance.{
  MaintenanceCleanupInput, MaintenanceCleanupResult, old_usage, old_daily, daily_of, aggregated,
  upsert_all, aggregate_traffic_usage, delete_traffic_usage, delete_audit_logs,
  delete_domain_access_logs, delete_traffic_usage_daily, delete_auth_refresh_tokens,
  valid_retention, cleanup_cutoffs, cleanup_tx, maintenance_cleanup_dry_run, maintenance_cleanup,
}
use proxy_control_plane.Store.Maintenance.Aggregate.{IsColumn}
use proxy_control_plane.Store.Maintenance.Totals.{
  IsAligned, sum_moved, sum-keep_young, upload-IsColumn, download-IsColumn,
}

module _ (clock : Time) (filter : TrafficUsageTotalFilter) (since : Time) (db : Db)
    (starts : filter.since ≡ some since) (since_aligned : IsAligned filter.since)
    (until_aligned : IsAligned filter.until) where
  tx_keeps_total :
      (cuts : MaintenanceCleanupResult)
      → day_of cuts.traffic_daily_cutoff ≤ day_of since
      → traffic_usage_total filter (cleanup_tx clock cuts db).1 ≡ traffic_usage_total filter db
  unfolding traffic_usage_total cleanup_tx aggregate_traffic_usage delete_traffic_usage
      delete_audit_logs delete_domain_access_logs delete_traffic_usage_daily
      delete_auth_refresh_tokens daily_of
  tx_keeps_total cuts recent =
      let daily =
        upsert_all clock (aggregated clock (keep (old_usage cuts.traffic_cutoff) db.usage))
          db.daily in
      let moved : (f : TrafficUsageDaily → ℕ)
          → IsColumn f
          → sum_where (detail_matches filter db.accounts) (λ u. f (daily_of clock u))
                (keep (λ u. not (old_usage cuts.traffic_cutoff u)) db.usage)
              + sum_where (daily_matches filter db.accounts) f daily
            ≡ sum_where (detail_matches filter db.accounts) (λ u. f (daily_of clock u)) db.usage
              + sum_where (daily_matches filter db.accounts) f db.daily =
        λ f column.
          sum_moved filter db.accounts since_aligned until_aligned clock f column
            cuts.traffic_cutoff db.usage db.daily in
      let young : (f : TrafficUsageDaily → ℕ)
          → sum_where (daily_matches filter db.accounts) f
              (keep (λ d. not (old_daily cuts.traffic_daily_cutoff d)) daily)
            ≡ sum_where (daily_matches filter db.accounts) f daily =
        λ f.
          sum-keep_young filter db.accounts since_aligned until_aligned cuts.traffic_daily_cutoff
            since starts recent f daily in
      rw
        (
          young (λ d. d.upload_bytes),
          young (λ d. d.download_bytes),
          moved (λ d. d.upload_bytes) upload-IsColumn,
          moved (λ d. d.download_bytes) download-IsColumn,
        )
        refl

  tx_succeeds :
      (cuts : MaintenanceCleanupResult)
      → transaction (cleanup_tx clock cuts) db ≡ cleanup_tx clock cuts db
  unfolding cleanup_tx aggregate_traffic_usage delete_traffic_usage delete_audit_logs
      delete_domain_access_logs delete_traffic_usage_daily delete_auth_refresh_tokens
  tx_succeeds cuts = refl

  tx_cutoff :
      (cuts result : MaintenanceCleanupResult) (after : Db)
      → cleanup_tx clock cuts db ≡ (ok result, after)
      → result.traffic_daily_cutoff ≡ cuts.traffic_daily_cutoff
  unfolding cleanup_tx aggregate_traffic_usage delete_traffic_usage delete_audit_logs
      delete_domain_access_logs delete_traffic_usage_daily delete_auth_refresh_tokens
  tx_cutoff cuts result after run = ground arith

  -- A successful clean-up, dry or not, keeps the traffic total over every window whose bounds are
  -- starts of days and which starts no earlier than the day of the daily cutoff.
  pub cleanup_keeps_total :
      (input : MaintenanceCleanupInput) (result : MaintenanceCleanupResult) (after : Db)
      → maintenance_cleanup clock input db ≡ (ok result, after)
      → day_of result.traffic_daily_cutoff ≤ day_of since
      → traffic_usage_total filter after ≡ traffic_usage_total filter db
  unfolding maintenance_cleanup maintenance_cleanup_dry_run
  cleanup_keeps_total input result after done recent = elim (Bool-cases (valid_retention input)) [
    | inr e ↦ absurd (ground arith)
    | inl e ↦ elim (Bool-cases input.dry_run) [
      | inl dry ↦ let same : after ≡ db = ground arith in rw same refl
      | inr real ↦
          let cuts = cleanup_cutoffs (stamp clock input.now) (record input { dry_run = false }) in
          let run : cleanup_tx clock cuts db ≡ (ok result, after) =
            rw (e, real, tx_succeeds cuts) at done in
          let cutoff = tx_cutoff cuts result after run in
          rw (ap (λ x. x.1) (sym run)) (tx_keeps_total cuts (rw cutoff at recent))
    ]
  ]
