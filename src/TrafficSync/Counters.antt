-- ===== src/TrafficSync/Counters.antt =====
-- What the traffic of an account is, counter by counter.
use proxy_control_plane.Base.{
  ℕ, ◌+◌, ◌%◌, ◌^◌, ◌<◌, Text, codes, Bool, true, false, ◌&&◌, none, some, List, [], ◌∷◌, ◌++◌, ◌≡◌,
  ◌≢◌, refl, ap, sym, ◌∙◌, keep, take, drop, length, take-append-drop, str_eq, str_eq_iff,
  str_eq_refl, has_prefix, if◌then◌else◌, arith, Bool-cases, Option-cases, inl, inr, ℤ, pos, negsuc,
  leb_ℤ, sum_where,
}
use proxy_control_plane.Domain.{
  TrafficDelta, runtime_proxy_account_email, proxy_account_id_from_runtime_email,
}
use proxy_control_plane.Domain.Email.{email_iff}
use proxy_control_plane.Store.Traffic.Batch.{delta_of}
use proxy_control_plane.TrafficSync.{
  cut, stat_prefix, traffic_marker, is_direction, parse_managed_traffic_stat, Stat, amount, bump,
  no_delta, add_amount, add_stat, add_stats, has_traffic, deltas_of,
}

-- A counter of an account in a direction.
unfoldable pub counts_for : Text → Text → Stat → Bool
counts_for k direction stat = elim (parse_managed_traffic_stat stat.name) [
  | none ↦ false
  | some found ↦ str_eq found.0 k && str_eq found.1 direction
]

abbrev up : TrafficDelta → ℕ
up d = d.upload_bytes

abbrev down : TrafficDelta → ℕ
down d = d.download_bytes

abbrev pub uplink : Text
uplink = codes "uplink"

abbrev pub downlink : Text
downlink = codes "downlink"

directions_differ : str_eq uplink downlink ≡ false
unfolding str_eq
directions_differ = refl

bump_lem :
    (direction : Text) (n : ℕ) (d : TrafficDelta)
    → ((bump direction n d).proxy_account_id ≡ d.proxy_account_id)
      × (((bump direction n d).upload_bytes
            ≡ (if str_eq direction uplink then (d.upload_bytes + n) % 2 ^ 64 else d.upload_bytes))
          × ((bump direction n d).download_bytes ≡ (
              if str_eq direction downlink
              then (d.download_bytes + n) % 2 ^ 64
              else d.download_bytes)))
unfolding bump
bump_lem direction n d = elim (Bool-cases (str_eq direction uplink)) [
  | inl e ↦
      let own : direction ≡ uplink = (str_eq_iff direction uplink).0 e in
      rw (own, str_eq_refl uplink, directions_differ) (refl, (refl, refl))
  | inr e ↦ elim (Bool-cases (str_eq direction downlink)) [
    | inl f ↦ rw (e, f) (refl, (refl, refl))
    | inr f ↦ rw (e, f) (refl, (refl, refl))
  ]
]

amount-low : (v : ℤ) → leb_ℤ v (pos 0) ≡ true → amount v ≡ 0
amount-low (pos n) h = ground arith
amount-low (negsuc n) h = refl

module _ (k : Text) (direction : Text) where
  -- One column of the entry, in the direction that it counts.
  record IsColumn (f : TrafficDelta → ℕ) : Type 0 where
    fresh : (id : Text) → f (no_delta id) ≡ 0
    bumped :
        (given : Text) (n : ℕ) (d : TrafficDelta)
        → f (bump given n d) ≡ (if str_eq given direction then (f d + n) % 2 ^ 64 else f d)

  module _ (f : TrafficDelta → ℕ) (column : IsColumn f) where
    sum-add_amount :
        (id given : Text) (n : ℕ) (ds : List TrafficDelta)
        → (if str_eq id k && str_eq given direction then n else 0) + sum_where (delta_of k) f ds
          < 2 ^ 64
        → sum_where (delta_of k) f (add_amount id given n ds)
          ≡ (if str_eq id k && str_eq given direction then n else 0) + sum_where (delta_of k) f ds
    unfolding sum_where add_amount delta_of
    sum-add_amount id given n [] h = ground (
      arith,
      column.fresh id,
      column.bumped given n (no_delta id),
      bump_lem given n (no_delta id),
    )
    sum-add_amount id given n (d ∷ ds) h = ground (
      arith,
      sum-add_amount id given n ds,
      column.bumped given n d,
      bump_lem given n d,
      str_eq_iff d.proxy_account_id id,
    )

    sum-add_stat :
        (stat : Stat) (ds : List TrafficDelta)
        → (if counts_for k direction stat then amount stat.value else 0)
            + sum_where (delta_of k) f ds
          < 2 ^ 64
        → sum_where (delta_of k) f (add_stat stat ds)
          ≡ (if counts_for k direction stat then amount stat.value else 0)
            + sum_where (delta_of k) f ds
    unfolding add_stat counts_for
    sum-add_stat stat ds h = elim (Option-cases (parse_managed_traffic_stat stat.name)) [
      | inl e ↦ rw (add_stat, counts_for, e) (omega arith)
      | inr (found, e) ↦ elim (Bool-cases (leb_ℤ stat.value (pos 0))) [
        | inl low ↦ rw (add_stat, counts_for, e, low) (ground (arith, amount-low stat.value low))
        | inr positive ↦
            rw (add_stat, counts_for, e, positive)
              (sum-add_amount found.0 found.1 (amount stat.value) ds (rw (counts_for, e) at h))
      ]
    ]

    sum-add_stats :
        (stats : List Stat) (ds : List TrafficDelta)
        → sum_where (counts_for k direction) (λ s. amount s.value) stats
            + sum_where (delta_of k) f ds
          < 2 ^ 64
        → sum_where (delta_of k) f (add_stats ds stats)
          ≡ sum_where (counts_for k direction) (λ s. amount s.value) stats
            + sum_where (delta_of k) f ds
    unfolding add_stats sum_where
    sum-add_stats [] ds h = omega arith
    sum-add_stats (stat ∷ stats) ds h =
        let one = sum-add_stat stat ds (omega (arith, h)) in
        omega (arith, one, sum-add_stats stats (add_stat stat ds) (omega (arith, h, one)))

    module _ (idle : (d : TrafficDelta) → has_traffic d ≡ false → f d ≡ 0) where
      sum-kept :
          (ds : List TrafficDelta)
          → sum_where (delta_of k) f (keep has_traffic ds) ≡ sum_where (delta_of k) f ds
      unfolding sum_where
      sum-kept [] = refl
      sum-kept (d ∷ ds) = ground (arith, sum-kept ds, idle d)

      sum-query :
          (stats : List Stat)
          → sum_where (counts_for k direction) (λ s. amount s.value) stats < 2 ^ 63
          → sum_where (delta_of k) f (deltas_of stats)
            ≡ sum_where (counts_for k direction) (λ s. amount s.value) stats
      unfolding deltas_of
      sum-query stats h =
          sum-kept (add_stats [] stats)
          ∙ sum-add_stats stats [] (unfold sum_where in omega (arith, h))
          ∙ unfold sum_where in omega arith

-- The traffic that a query reports for an account is, in each direction, the sum of the positive
-- counters of that account in that direction, where the two sums fit in an int64.
pub deltas_of-sums :
    (k : Text) (stats : List Stat)
    → sum_where (counts_for k uplink) (λ s. amount s.value) stats < 2 ^ 63
    → sum_where (counts_for k downlink) (λ s. amount s.value) stats < 2 ^ 63
    → (sum_where (delta_of k) (λ d. d.upload_bytes) (deltas_of stats)
        ≡ sum_where (counts_for k uplink) (λ s. amount s.value) stats)
      × (sum_where (delta_of k) (λ d. d.download_bytes) (deltas_of stats)
          ≡ sum_where (counts_for k downlink) (λ s. amount s.value) stats)
deltas_of-sums k stats up_fits down_fits = (
  sum-query k uplink (λ d. d.upload_bytes)
      (record { fresh = λ id. refl; bumped = λ given n d. (bump_lem given n d).1.0 })
      (λ d h. unfold has_traffic in ground arith) stats up_fits,
  sum-query k downlink (λ d. d.download_bytes)
      (record { fresh = λ id. refl; bumped = λ given n d. (bump_lem given n d).1.1 })
      (λ d h. unfold has_traffic in ground arith) stats down_fits,
)

cut_lem :
    (sep s before after : Text) → cut sep s ≡ some (before, after) → s ≡ before ++ (sep ++ after)
unfolding cut
cut_lem sep [] before after h = cc
cut_lem sep (c ∷ s) before after h = elim (Bool-cases (has_prefix (c ∷ s) sep)) [
  | inl e ↦
      let front : take (length sep) (c ∷ s) ≡ sep =
        (str_eq_iff (take (length sep) (c ∷ s)) sep).0 e in
      let whole = take-append-drop (length sep) (c ∷ s) in cc (h, e, front, whole)
  | inr e ↦ elim (Option-cases (cut sep s)) [
    | inl n ↦ absurd (ground arith)
    | inr (p, n) ↦ let ih = cut_lem sep s p.0 p.1 n in ground (arith, ih)
  ]
]

-- A counter that is read for an account and a direction is named after the account's e-mail, and the
-- direction is one of the two.
pub parse_managed_traffic_stat_sound :
    (name k direction : Text)
    → parse_managed_traffic_stat name ≡ some (k, direction)
    → (k ≢ [])
      × ((name ≡ stat_prefix ++ (runtime_proxy_account_email k ++ (traffic_marker ++ direction)))
          × (is_direction direction ≡ true))
unfolding parse_managed_traffic_stat
parse_managed_traffic_stat_sound name k direction h =
    elim (Bool-cases (has_prefix name stat_prefix)) [
      | inr e ↦ absurd (ground arith)
      | inl e ↦ elim (Option-cases (cut traffic_marker (drop (length stat_prefix) name))) [
        | inl n ↦ absurd (ground arith)
        | inr (parts, n) ↦ elim (Option-cases (proxy_account_id_from_runtime_email parts.0)) [
          | inl m ↦ absurd (ground arith)
          | inr (id, m) ↦
              let front : take (length stat_prefix) name ≡ stat_prefix =
                (str_eq_iff (take (length stat_prefix) name) stat_prefix).0 e in
              let whole = take-append-drop (length stat_prefix) name in
              let split =
                cut_lem traffic_marker (drop (length stat_prefix) name) parts.0 parts.1 n in
              let email = (email_iff parts.0 id).0 m in
              let pieces : name
                  ≡ stat_prefix ++ (runtime_proxy_account_email id ++ (traffic_marker ++ parts.1)) =
                sym whole
                ∙ ap (λ x. x ++ drop (length stat_prefix) name) front
                ∙ ap (λ x. stat_prefix ++ x)
                    (split ∙ ap (λ x. x ++ (traffic_marker ++ parts.1)) email.1) in
              elim (Bool-cases (is_direction parts.1)) [
                | inr bad ↦ absurd (ground arith)
                | inl good ↦
                    let own : (id ≡ k) × (parts.1 ≡ direction) = ground arith in
                    rw (← own.0, ← own.1) (email.0, (pieces, good))
              ]
        ]
      ]
    ]
