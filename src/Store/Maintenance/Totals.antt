-- ===== src/Store/Maintenance/Totals.antt =====
-- The totals of traffic before and after a clean-up.
use proxy_control_plane.Base.{
  ℕ, ◌+◌, ◌*◌, ◌≤◌, true, false, not, Option, none, some, List, [], ◌∷◌, ◌≡◌, refl, keep, arith,
  leb, ltb, sum_where, str_eq_iff,
}
use proxy_control_plane.Domain.{Time, ProxyAccount, TrafficUsage, TrafficUsageDaily}
use proxy_control_plane.Store.Traffic.{
  day_length, day_of, TrafficUsageTotalFilter, day_of_bound, at_least, below, detail_matches,
  daily_matches,
}
use proxy_control_plane.Store.Maintenance.{
  old_usage, old_daily, same_key, daily_of, add_bytes, upsert_all, aggregated,
}
use proxy_control_plane.Store.Maintenance.Aggregate.{
  IsColumn, IsKeyed, sum-upsert_all, sum-aggregated, sum-keep_split,
}

pub upload-IsColumn : IsColumn (λ d. d.upload_bytes)
unfolding add_bytes
upload-IsColumn = record { added = λ clock d new. refl }

pub download-IsColumn : IsColumn (λ d. d.download_bytes)
unfolding add_bytes
download-IsColumn = record { added = λ clock d new. refl }

-- A bound that is the start of a day.
abbrev pub IsAligned : Option Time → Type 0
IsAligned none = Unit
IsAligned (some t) = t ≡ day_of t * day_length

leb-day : (k t : ℕ) → leb (k * day_length) t ≡ leb k (day_of t)
unfolding day_of
leb-day k t = ground arith

ltb-day : (k t : ℕ) → ltb t (k * day_length) ≡ ltb (day_of t) k
unfolding day_of
ltb-day k t = ground arith

at_least-day :
    (bound : Option Time) (t : Time)
    → IsAligned bound
    → at_least bound t ≡ at_least (day_of_bound bound) (day_of t)
at_least-day none t a = refl
at_least-day (some b) t a = ground (arith, leb-day (day_of b) t, a)

below-day :
    (bound : Option Time) (t : Time)
    → IsAligned bound
    → below bound t ≡ below (day_of_bound bound) (day_of t)
below-day none t a = refl
below-day (some b) t a = ground (arith, ltb-day (day_of b) t, a)

module _ (filter : TrafficUsageTotalFilter) (accounts : List ProxyAccount)
    (since_aligned : IsAligned filter.since) (until_aligned : IsAligned filter.until) where
  daily_matches-IsKeyed : IsKeyed (daily_matches filter accounts)
  unfolding daily_matches add_bytes same_key
  daily_matches-IsKeyed = record {
    added = λ clock d new. refl;
    same = λ d e h. ground (arith, str_eq_iff d.proxy_account_id e.proxy_account_id);
  }

  -- A row counts by the day what it counts in detail.
  detail-daily :
      (clock : Time) (u : TrafficUsage)
      → daily_matches filter accounts (daily_of clock u) ≡ detail_matches filter accounts u
  unfolding daily_matches detail_matches daily_of
  detail-daily clock u = ground (
    arith,
    at_least-day filter.since u.recorded_at since_aligned,
    below-day filter.until u.recorded_at until_aligned,
  )

  module _ (clock : Time) (f : TrafficUsageDaily → ℕ) (column : IsColumn f) where
    sum-days :
        (us : List TrafficUsage)
        → sum_where
            (λ u. daily_matches filter accounts (daily_of clock u))
            (λ u. f (daily_of clock u))
            us
          ≡ sum_where (detail_matches filter accounts) (λ u. f (daily_of clock u)) us
    unfolding sum_where
    sum-days [] = refl
    sum-days (u ∷ us) = ground (arith, sum-days us, detail-daily clock u)

    -- What leaves the detail table arrives in the daily table.
    pub sum_moved :
        (cutoff : Time) (us : List TrafficUsage) (ds : List TrafficUsageDaily)
        → sum_where
              (detail_matches filter accounts)
              (λ u. f (daily_of clock u))
              (keep (λ u. not (old_usage cutoff u)) us)
            + sum_where
                (daily_matches filter accounts)
                f
                (upsert_all clock (aggregated clock (keep (old_usage cutoff) us)) ds)
          ≡ sum_where (detail_matches filter accounts) (λ u. f (daily_of clock u)) us
            + sum_where (daily_matches filter accounts) f ds
    sum_moved cutoff us ds =
        let old = keep (old_usage cutoff) us in
        omega (
          arith,
          sum-upsert_all clock (daily_matches filter accounts) daily_matches-IsKeyed f column
              (aggregated clock old) ds,
          sum-aggregated clock (daily_matches filter accounts) daily_matches-IsKeyed f column old,
          sum-days old,
          sum-keep_split (old_usage cutoff) (detail_matches filter accounts)
              (λ u. f (daily_of clock u)) us,
        )

  -- The window does not reach back behind the daily cutoff.
  module _ (cutoff since : Time) (starts : filter.since ≡ some since)
      (recent : day_of cutoff ≤ day_of since) where
    not_old :
        (d : TrafficUsageDaily)
        → daily_matches filter accounts d ≡ true
        → old_daily cutoff d ≡ false
    unfolding daily_matches old_daily
    not_old d h = ground (arith, starts, recent)

    pub sum-keep_young :
        (f : TrafficUsageDaily → ℕ) (ds : List TrafficUsageDaily)
        → sum_where (daily_matches filter accounts) f (keep (λ d. not (old_daily cutoff d)) ds)
          ≡ sum_where (daily_matches filter accounts) f ds
    unfolding sum_where
    sum-keep_young f [] = refl
    sum-keep_young f (d ∷ ds) = ground (arith, sum-keep_young f ds, not_old d)
