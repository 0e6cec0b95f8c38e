-- ===== src/Store/Maintenance/Aggregate.antt =====
-- Sums and counts through the aggregation of traffic by day.
use proxy_control_plane.Base.{
  ℕ, ◌+◌, Bool, true, false, not, ◌||◌, List, [], ◌∷◌, ◌≡◌, refl, any, keep, length, str_eq_iff,
  if◌then◌else◌, arith, Bool-cases, inl, inr, count, sum_where,
}
use proxy_control_plane.Domain.{Time, TrafficUsage, TrafficUsageDaily}
use proxy_control_plane.Store.Maintenance.{
  old_daily, same_key, daily_of, add_bytes, upsert_daily, upsert_all, aggregated,
  count_traffic_daily_groups,
}

-- A column of byte counts, and a test that reads the key columns only.
pub record IsColumn (f : TrafficUsageDaily → ℕ) : Type 0 where
  pub added : (clock : Time) (d new : TrafficUsageDaily) → f (add_bytes clock d new) ≡ f d + f new

pub record IsKeyed (p : TrafficUsageDaily → Bool) : Type 0 where
  pub added : (clock : Time) (d new : TrafficUsageDaily) → p (add_bytes clock d new) ≡ p d
  pub same : (d e : TrafficUsageDaily) → same_key d e ≡ true → p d ≡ p e

module _ (clock : Time) (p : TrafficUsageDaily → Bool) (keyed : IsKeyed p)
    (f : TrafficUsageDaily → ℕ) (column : IsColumn f) where
  sum-upsert_daily :
      (new : TrafficUsageDaily) (ds : List TrafficUsageDaily)
      → sum_where p f (upsert_daily clock new ds) ≡ (if p new then f new else 0) + sum_where p f ds
  unfolding sum_where upsert_daily
  sum-upsert_daily new [] = refl
  sum-upsert_daily new (d ∷ ds) = elim (Bool-cases (same_key d new)) [
    | inl e ↦ ground (arith, keyed.added clock d new, keyed.same d new e, column.added clock d new)
    | inr e ↦ ground (arith, sum-upsert_daily new ds)
  ]

  pub sum-upsert_all :
      (gs ds : List TrafficUsageDaily)
      → sum_where p f (upsert_all clock gs ds) ≡ sum_where p f gs + sum_where p f ds
  unfolding sum_where upsert_all
  sum-upsert_all [] ds = omega arith
  sum-upsert_all (g ∷ gs) ds =
      omega (arith, sum-upsert_all gs (upsert_daily clock g ds), sum-upsert_daily g ds)

  pub sum-aggregated :
      (us : List TrafficUsage)
      → sum_where p f (aggregated clock us)
        ≡ sum_where (λ u. p (daily_of clock u)) (λ u. f (daily_of clock u)) us
  unfolding sum_where aggregated
  sum-aggregated [] = refl
  sum-aggregated (u ∷ us) =
      omega (arith, sum-upsert_daily (daily_of clock u) (aggregated clock us), sum-aggregated us)

-- The rows that are deleted and those that stay.
pub sum-keep_split :
    (q p : TrafficUsage → Bool) (f : TrafficUsage → ℕ) (us : List TrafficUsage)
    → sum_where p f (keep q us) + sum_where p f (keep (λ u. not (q u)) us) ≡ sum_where p f us
unfolding sum_where
sum-keep_split q p f [] = refl
sum-keep_split q p f (u ∷ us) = ground (arith, sum-keep_split q p f us)

same_key_sym : (a b : TrafficUsageDaily) → same_key a b ≡ true → same_key b a ≡ true
unfolding same_key
same_key_sym a b h = ground (
  arith,
  str_eq_iff a.proxy_account_id b.proxy_account_id,
  str_eq_iff b.proxy_account_id a.proxy_account_id,
  str_eq_iff a.proxy_node_id b.proxy_node_id,
  str_eq_iff b.proxy_node_id a.proxy_node_id,
)

same_key_trans : (a b c : TrafficUsageDaily) → same_key a b ≡ true → same_key a c ≡ same_key b c
unfolding same_key
same_key_trans a b c h = ground (
  arith,
  str_eq_iff a.proxy_account_id b.proxy_account_id,
  str_eq_iff a.proxy_node_id b.proxy_node_id,
)

unfoldable pub has_key : TrafficUsageDaily → List TrafficUsageDaily → Bool
has_key k ds = any (λ d. same_key d k) ds

module _ (clock : Time) where
  same_key_added : (d new k : TrafficUsageDaily) → same_key (add_bytes clock d new) k ≡ same_key d k
  unfolding same_key add_bytes
  same_key_added d new k = refl

  has_key-upsert :
      (k new : TrafficUsageDaily) (ds : List TrafficUsageDaily)
      → has_key k (upsert_daily clock new ds) ≡ (same_key new k || has_key k ds)
  unfolding has_key upsert_daily
  has_key-upsert k new [] = refl
  has_key-upsert k new (d ∷ ds) = elim (Bool-cases (same_key d new)) [
    | inl e ↦ ground (arith, same_key_added d new k, same_key_trans d new k e)
    | inr e ↦ ground (arith, has_key-upsert k new ds)
  ]

  length-upsert :
      (new : TrafficUsageDaily) (ds : List TrafficUsageDaily)
      → length (upsert_daily clock new ds) ≡ (if has_key new ds then 0 else 1) + length ds
  unfolding has_key upsert_daily
  length-upsert new [] = refl
  length-upsert new (d ∷ ds) = ground (arith, length-upsert new ds)

  has_key-aggregated :
      (k : TrafficUsageDaily) (us : List TrafficUsage)
      → has_key k (aggregated clock us) ≡ any (λ v. same_key (daily_of clock v) k) us
  unfolding aggregated
  has_key-aggregated k [] = unfold has_key in refl
  has_key-aggregated k (u ∷ us) =
      ground
        (arith, has_key-upsert k (daily_of clock u) (aggregated clock us), has_key-aggregated k us)

  -- There is one aggregated row for each group.
  pub length-aggregated :
      (us : List TrafficUsage) → length (aggregated clock us) ≡ count_traffic_daily_groups clock us
  unfolding aggregated count_traffic_daily_groups
  length-aggregated [] = refl
  length-aggregated (u ∷ us) = ground (
    arith,
    length-upsert (daily_of clock u) (aggregated clock us),
    has_key-aggregated (daily_of clock u) us,
    length-aggregated us,
  )

  module _ (cutoff : Time) where
    old_daily_same :
        (d new : TrafficUsageDaily)
        → same_key d new ≡ true
        → old_daily cutoff d ≡ old_daily cutoff new
    unfolding same_key old_daily
    old_daily_same d new h = ground arith

    old_daily_added :
        (d new : TrafficUsageDaily) → old_daily cutoff (add_bytes clock d new) ≡ old_daily cutoff d
    unfolding old_daily add_bytes
    old_daily_added d new = refl

    count-upsert :
        (new : TrafficUsageDaily) (ds : List TrafficUsageDaily)
        → old_daily cutoff new ≡ false
        → count (old_daily cutoff) (upsert_daily clock new ds) ≡ count (old_daily cutoff) ds
    unfolding count upsert_daily
    count-upsert new [] young = ground arith
    count-upsert new (d ∷ ds) young = elim (Bool-cases (same_key d new)) [
      | inl e ↦ ground (arith, old_daily_added d new, old_daily_same d new e)
      | inr e ↦ ground (arith, count-upsert new ds)
    ]

    -- Young rows do not change how many are old.
    pub count-upsert_all :
        (gs ds : List TrafficUsageDaily)
        → any (old_daily cutoff) gs ≡ false
        → count (old_daily cutoff) (upsert_all clock gs ds) ≡ count (old_daily cutoff) ds
    unfolding upsert_all
    count-upsert_all [] ds young = refl
    count-upsert_all (g ∷ gs) ds young =
        ground (arith, count-upsert_all gs (upsert_daily clock g ds), count-upsert g ds)

    any_old-upsert :
        (new : TrafficUsageDaily) (ds : List TrafficUsageDaily)
        → old_daily cutoff new ≡ false
        → any (old_daily cutoff) ds ≡ false
        → any (old_daily cutoff) (upsert_daily clock new ds) ≡ false
    unfolding upsert_daily
    any_old-upsert new [] young h = ground arith
    any_old-upsert new (d ∷ ds) young h =
        ground (arith, any_old-upsert new ds, old_daily_added d new)

    pub any_old-aggregated :
        (us : List TrafficUsage)
        → any (λ u. old_daily cutoff (daily_of clock u)) us ≡ false
        → any (old_daily cutoff) (aggregated clock us) ≡ false
    unfolding aggregated
    any_old-aggregated [] h = refl
    any_old-aggregated (u ∷ us) h =
        any_old-upsert (daily_of clock u) (aggregated clock us) (ground arith)
          (any_old-aggregated us (ground arith))
