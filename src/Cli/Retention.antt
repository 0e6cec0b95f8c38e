-- ===== src/Cli/Retention.antt =====
-- The retention periods that the clean-up gets from the configuration.
use proxy_control_plane.Base.{
  ◌^◌, ◌-◌, Text, codes, Bool, true, false, ◌&&◌, Option, none, some, [], ◌≡◌, ap, arith, inl, inr,
  Result, ok, err, ◌>>=◌, Option-cases, Bool-cases, str_eq, trim_space, ℤ, pos, negsuc, leb_ℤ,
}
use proxy_control_plane.Config.{Config, has_suffix}
use proxy_control_plane.Store.Maintenance.{MaintenanceCleanupInput}
use proxy_control_plane.Cli.{
  Parsers, day_retention, duration_retention, parse_retention_duration, named,
  maintenance_cleanup_input_from_config,
}

-- An int64 of nanoseconds that is positive.
unfoldable pub is_period : ℤ → Bool
is_period d = leb_ℤ (pos 1) d && leb_ℤ d (pos (2 ^ 63 - 1))

-- What time.ParseDuration returns is an int64.
abbrev pub ParsesInt64 : Parsers → Type 0
ParsesInt64 p =
    (text : Text) (d : ℤ) → p.parse_duration text ≡ some d → leb_ℤ d (pos (2 ^ 63 - 1)) ≡ true

day_retention-is_period : (days : Option ℤ) (d : ℤ) → day_retention days ≡ ok d → is_period d ≡ true
unfolding day_retention is_period
day_retention-is_period none d h = absurd (cc)
day_retention-is_period (some (negsuc n)) d h = absurd (ground (arith, h))
day_retention-is_period (some (pos n)) d h = ground (arith, h)

duration_retention-is_period :
    (p : Parsers) (text : Text) (d : ℤ)
    → ParsesInt64 p
    → duration_retention (p.parse_duration text) ≡ ok d
    → is_period d ≡ true
unfolding duration_retention is_period
duration_retention-is_period p text d int64 h = elim (Option-cases (p.parse_duration text)) [
  | inl e ↦ absurd (ground (arith, e, h))
  | inr (x, e) ↦ ground (arith, e, h, int64 text x e)
]

parse_retention-is_period :
    (p : Parsers) (text : Text) (d : ℤ)
    → ParsesInt64 p
    → parse_retention_duration p text ≡ ok d
    → is_period d ≡ true
unfolding parse_retention_duration
parse_retention-is_period p text d int64 h =
    let value = trim_space text in
    elim (Bool-cases (str_eq value [])) [
      | inl e ↦ absurd (ground (arith, e, h))
      | inr e ↦ elim (Bool-cases (has_suffix value (codes "d"))) [
        | inl f ↦ day_retention-is_period _ d (rw (e, f) at h)
        | inr f ↦ duration_retention-is_period p value d int64 (rw (e, f) at h)
      ]
    ]

abbrev input_of : ℤ → ℤ → ℤ → ℤ → ℤ → MaintenanceCleanupInput
input_of audit traffic daily access auth = record {
  audit_retention = audit;
  traffic_retention = traffic;
  traffic_daily_retention = daily;
  domain_access_retention = access;
  auth_refresh_retention = auth;
  dry_run = false;
  now = 0;
}

abbrev with_interval : ℤ → MaintenanceCleanupInput → Result Text (ℤ × MaintenanceCleanupInput)
with_interval given input = ok (given, input)

-- A clean-up input that is made of five results.
five_results :
    (a b c d e : Result Text ℤ) (given interval : ℤ) (input : MaintenanceCleanupInput)
    → (a >>= λ a.
        b >>= λ b. c >>= λ c. d >>= λ d. e >>= λ e. with_interval given (input_of a b c d e))
      ≡ ok (interval, input)
    → (a ≡ ok input.audit_retention)
      × (b ≡ ok input.traffic_retention)
      × (c ≡ ok input.traffic_daily_retention)
      × (d ≡ ok input.domain_access_retention)
      × (e ≡ ok input.auth_refresh_retention)
five_results (ok a) (ok b) (ok c) (ok d) (ok e) given interval input h =
    let same : input_of a b c d e ≡ input = ground (arith, h) in
    (
      ap (λ r. ok r.audit_retention) same,
      ap (λ r. ok r.traffic_retention) same,
      ap (λ r. ok r.traffic_daily_retention) same,
      ap (λ r. ok r.domain_access_retention) same,
      ap (λ r. ok r.auth_refresh_retention) same,
    )
five_results (err x) b c d e given interval input h = absurd (cc)
five_results (ok a) (err x) c d e given interval input h = absurd (cc)
five_results (ok a) (ok b) (err x) d e given interval input h = absurd (cc)
five_results (ok a) (ok b) (ok c) (err x) e given interval input h = absurd (cc)
five_results (ok a) (ok b) (ok c) (ok d) (err x) given interval input h = absurd (cc)

named-eq-ok :
    {A : Type 0} (variable : Text) (r : Result Text A) {a : A} → named variable r ≡ ok a → r ≡ ok a
named-eq-ok variable (ok a) h = h
named-eq-ok variable (err e) h = absurd (cc)

-- The clean-up gets from a configuration only periods that are positive and fit in an int64 of
-- nanoseconds, where time.ParseDuration returns no more than an int64 holds.
pub cleanup_periods_bounded :
    (p : Parsers) (cfg : Config) (interval : ℤ) (input : MaintenanceCleanupInput)
    → ParsesInt64 p
    → maintenance_cleanup_input_from_config p cfg ≡ ok (interval, input)
    → (is_period input.audit_retention ≡ true)
      × (is_period input.traffic_retention ≡ true)
      × (is_period input.traffic_daily_retention ≡ true)
      × (is_period input.domain_access_retention ≡ true)
      × (is_period input.auth_refresh_retention ≡ true)
unfolding maintenance_cleanup_input_from_config
cleanup_periods_bounded p cfg interval input int64 h =
    let read : Text → Text → Result Text ℤ =
      λ variable text. named variable (parse_retention_duration p text) in
    let period : (variable text : Text) (d : ℤ) → read variable text ≡ ok d → is_period d ≡ true =
      λ variable text d e.
        parse_retention-is_period p text d int64
          (named-eq-ok variable (parse_retention_duration p text) e) in
    let (audit, traffic, daily, access, auth) =
      five_results (read (codes "PCP_MAINTENANCE_AUDIT_RETENTION") cfg.maintenance_audit_retention)
        (read (codes "PCP_MAINTENANCE_TRAFFIC_RETENTION") cfg.maintenance_traffic_retention)
        (read (codes "PCP_MAINTENANCE_TRAFFIC_DAILY_RETENTION")
          cfg.maintenance_traffic_daily_retention)
        (read (codes "PCP_MAINTENANCE_DOMAIN_ACCESS_RETENTION")
          cfg.maintenance_domain_access_retention)
        (read (codes "PCP_MAINTENANCE_AUTH_REFRESH_RETENTION")
          cfg.maintenance_auth_refresh_retention)
        cfg.maintenance_cleanup_interval interval input h in
    (
      period (codes "PCP_MAINTENANCE_AUDIT_RETENTION") cfg.maintenance_audit_retention
          input.audit_retention audit,
      period (codes "PCP_MAINTENANCE_TRAFFIC_RETENTION") cfg.maintenance_traffic_retention
          input.traffic_retention traffic,
      period (codes "PCP_MAINTENANCE_TRAFFIC_DAILY_RETENTION")
          cfg.maintenance_traffic_daily_retention input.traffic_daily_retention daily,
      period (codes "PCP_MAINTENANCE_DOMAIN_ACCESS_RETENTION")
          cfg.maintenance_domain_access_retention input.domain_access_retention access,
      period (codes "PCP_MAINTENANCE_AUTH_REFRESH_RETENTION") cfg.maintenance_auth_refresh_retention
          input.auth_refresh_retention auth,
    )
