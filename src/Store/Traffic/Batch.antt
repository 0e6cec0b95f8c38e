-- ===== src/Store/Traffic/Batch.antt =====
-- What a batch of traffic deltas adds to the recorded traffic of an account.
use proxy_control_plane.Base.{
  ℕ, suc, ◌+◌, Text, Bool, true, false, not, ◌&&◌, ◌||◌, List, [], ◌∷◌, ◌≡◌, refl, sym, any, keep,
  is_nil, length, str_eq, str_eq_iff, if◌then◌else◌, arith, Bool-cases, Option-cases, Result-cases,
  inl, inr, Result, ok, sum_where, sum_where-append,
}
use proxy_control_plane.Domain.{Time, TrafficUsage, TrafficDelta}
use proxy_control_plane.Store.{Error, Binding, Db, stamp}
use proxy_control_plane.Store.Traffic.{
  is_zero_delta, account_ids_from, binds, is_bound, usages_of, row_problem, insert_usages,
  store_usages, record_traffic_usage_batch,
}

unfoldable pub usage_of : Text → TrafficUsage → Bool
usage_of k u = str_eq u.proxy_account_id k

unfoldable pub delta_of : Text → TrafficDelta → Bool
delta_of k d = str_eq d.proxy_account_id k

-- A binding of the account to the node.
unfoldable pub bound_to : Text → Text → List Binding → Bool
bound_to node_id k bs = any (λ b. str_eq b.proxy_node_id node_id && str_eq b.proxy_account_id k) bs

unfoldable pub listed : Text → List Text → Bool
listed k ids = any (λ i. str_eq i k) ids

unfoldable pub live_delta : Text → List TrafficDelta → Bool
live_delta k ds = any (λ d. delta_of k d && not (is_zero_delta d)) ds

-- The same byte count of a delta and of the row that is made of it.
pub record IsColumn (fu : TrafficUsage → ℕ) (f : TrafficDelta → ℕ) : Type 0 where
  pub zero_bytes : (d : TrafficDelta) → is_zero_delta d ≡ true → f d ≡ 0
  pub same :
      (id node_id : Text) (at : Time) (d : TrafficDelta)
      → fu (record {
        id = id;
        proxy_account_id = d.proxy_account_id;
        proxy_node_id = node_id;
        upload_bytes = d.upload_bytes;
        download_bytes = d.download_bytes;
        recorded_at = at;
      })
        ≡ f d

upload-IsColumn : IsColumn (λ u. u.upload_bytes) (λ d. d.upload_bytes)
unfolding is_zero_delta
upload-IsColumn = record { zero_bytes = λ d h. ground arith; same = λ id node_id at d. refl }

download-IsColumn : IsColumn (λ u. u.download_bytes) (λ d. d.download_bytes)
unfolding is_zero_delta
download-IsColumn = record { zero_bytes = λ d h. ground arith; same = λ id node_id at d. refl }

module _ (k : Text) where
  listed-binding :
      (b : Binding) (ids : List Text)
      → str_eq b.proxy_account_id k ≡ true
      → any (λ i. str_eq i b.proxy_account_id) ids ≡ listed k ids
  unfolding listed
  listed-binding b [] h = refl
  listed-binding b (i ∷ ids) h =
      ground (arith, listed-binding b ids, str_eq_iff b.proxy_account_id k)

  -- What the query returns for the account.
  bound-query :
      (node_id : Text) (ids : List Text) (bs : List Binding)
      → is_bound k (keep (binds node_id ids) bs) ≡ (bound_to node_id k bs && listed k ids)
  unfolding is_bound bound_to binds
  bound-query node_id ids [] = refl
  bound-query node_id ids (b ∷ bs) =
      ground (arith, bound-query node_id ids bs, listed-binding b ids)

  listed-ids :
      (seen : List Text) (ds : List TrafficDelta)
      → str_eq k [] ≡ false
      → (listed k (account_ids_from seen ds) || listed k seen) ≡ (listed k seen || live_delta k ds)
  unfolding account_ids_from listed live_delta delta_of
  listed-ids seen [] h = ground arith
  listed-ids seen (d ∷ ds) h = ground (
    arith,
    listed-ids seen ds,
    listed-ids (d.proxy_account_id ∷ seen) ds,
    str_eq_iff d.proxy_account_id k,
    str_eq_iff d.proxy_account_id [],
  )

  module _ (fu : TrafficUsage → ℕ) (f : TrafficDelta → ℕ) (column : IsColumn fu f) where
    sum_dead : (ds : List TrafficDelta) → live_delta k ds ≡ false → sum_where (delta_of k) f ds ≡ 0
    unfolding live_delta sum_where
    sum_dead [] h = refl
    sum_dead (d ∷ ds) h = ground (arith, sum_dead ds, column.zero_bytes d)

    module _ (new_ids : ℕ → Result Error Text) (node_id : Text) (at : Time)
        (bound : List Binding) where
      sum-usages_of :
          (ds : List TrafficDelta) (i : ℕ) (us : List TrafficUsage)
          → usages_of new_ids node_id at bound i ds ≡ ok us
          → sum_where (usage_of k) fu us
            ≡ (if is_bound k bound then sum_where (delta_of k) f ds else 0)
      unfolding usages_of sum_where usage_of delta_of
      sum-usages_of [] i us h = ground arith
      sum-usages_of (d ∷ ds) i us h = elim (Bool-cases (is_bound d.proxy_account_id bound)) [
        | inr e ↦ ground (arith, sum-usages_of ds i us, str_eq_iff d.proxy_account_id k)
        | inl e ↦ elim (Bool-cases (is_zero_delta d)) [
          | inl z ↦ ground (arith, sum-usages_of ds i us, column.zero_bytes d z)
          | inr live ↦ elim (Result-cases (new_ids i)) [
            | inr (x, n) ↦ absurd (ground arith)
            | inl (id, n) ↦ elim (Result-cases (usages_of new_ids node_id at bound (suc i) ds)) [
              | inr (x, r) ↦ absurd (ground arith)
              | inl (vs, r) ↦ ground (
                arith,
                sum-usages_of ds (suc i) vs r,
                column.same id node_id at d,
                str_eq_iff d.proxy_account_id k,
              )
            ]
          ]
        ]
      ]

  -- What the INSERT adds, and what it returns.
  inserted :
      (fu : TrafficUsage → ℕ) (us : List TrafficUsage) (db after : Db) (n : ℕ)
      → store_usages us db ≡ (ok n, after)
      → (n ≡ length us)
        × (sum_where (usage_of k) fu after.usage
            ≡ sum_where (usage_of k) fu db.usage + sum_where (usage_of k) fu us)
  unfolding insert_usages
  inserted fu [] db after n h = unfold sum_where in ground arith
  inserted fu (u ∷ us) db after n h = elim (Option-cases (row_problem db.usage (u ∷ us))) [
    | inr (e, r) ↦ absurd (ground arith)
    | inl r ↦ ground (arith, sum_where-append (usage_of k) fu db.usage (u ∷ us))
  ]

module _ (now : Time) (new_ids : ℕ → Result Error Text) (node_id : Text)
    (deltas : List TrafficDelta) (given_at : Time) (db after : Db) (n : ℕ) (k : Text) where
  -- Without a query there was nothing to add.
  unqueried :
      (fu : TrafficUsage → ℕ) (f : TrafficDelta → ℕ)
      → IsColumn fu f
      → str_eq k [] ≡ false
      → (is_nil deltas || is_nil (account_ids_from [] deltas)) ≡ true
      → sum_where (delta_of k) f deltas ≡ 0
  unfolding listed live_delta
  unqueried fu f column key early =
      sum_dead k fu f column deltas
        (dead deltas (account_ids_from [] deltas) early (listed-ids k [] deltas key))
    where
      dead :
          (ds : List TrafficDelta) (ids : List Text)
          → (is_nil ds || is_nil ids) ≡ true
          → (listed k ids || listed k []) ≡ (listed k [] || live_delta k ds)
          → live_delta k ds ≡ false
      dead [] ids e h = refl
      dead (d ∷ ds) [] e h = sym h
      dead (d ∷ ds) (i ∷ ids) e h = absurd (ground arith)

  selected :
      (fu : TrafficUsage → ℕ) (f : TrafficDelta → ℕ)
      → IsColumn fu f
      → str_eq k [] ≡ false
      → (if is_bound k (keep (binds node_id (account_ids_from [] deltas)) db.bindings)
          then sum_where (delta_of k) f deltas
          else 0)
        ≡ (if bound_to node_id k db.bindings then sum_where (delta_of k) f deltas else 0)
  selected fu f column key =
      let nothing : listed k [] ≡ false = unfold listed in refl in
      ground (
        arith,
        bound-query k node_id (account_ids_from [] deltas) db.bindings,
        listed-ids k [] deltas key,
        sum_dead k fu f column deltas,
      )

  column_added :
      (fu : TrafficUsage → ℕ) (f : TrafficDelta → ℕ)
      → IsColumn fu f
      → str_eq node_id [] ≡ false
      → str_eq k [] ≡ false
      → record_traffic_usage_batch now new_ids node_id deltas given_at db ≡ (ok n, after)
      → sum_where (usage_of k) fu after.usage
        ≡ sum_where (usage_of k) fu db.usage
          + (if bound_to node_id k db.bindings then sum_where (delta_of k) f deltas else 0)
  unfolding record_traffic_usage_batch
  column_added fu f column named key done =
      let ids = account_ids_from [] deltas in
      let bound = keep (binds node_id ids) db.bindings in
      let same = selected fu f column key in
      elim (Bool-cases (is_nil deltas || is_nil ids)) [
        | inl early ↦
            let stays : after ≡ db = ground (arith, named) in
            ground (arith, stays, unqueried fu f column key)
        | inr late ↦
            elim (Result-cases (usages_of new_ids node_id (stamp now given_at) bound 0 deltas)) [
              | inr (e, r) ↦ absurd (ground (arith, named))
              | inl (us, r) ↦
                  let stored : store_usages us db ≡ (ok n, after) = ground (arith, named) in
                  ground (
                    arith,
                    inserted k fu us db after n stored,
                    same,
                    sum-usages_of k fu f column new_ids node_id (stamp now given_at) bound deltas 0
                        us r,
                  )
            ]
      ]

  -- After a batch that succeeds for a named node, the recorded traffic of every account has grown, in
  -- both directions, by all deltas of the account where a binding connects it to the node, and not
  -- at all elsewhere.
  pub record_batch_adds :
      str_eq node_id [] ≡ false
      → str_eq k [] ≡ false
      → record_traffic_usage_batch now new_ids node_id deltas given_at db ≡ (ok n, after)
      → (sum_where (usage_of k) (λ u. u.upload_bytes) after.usage
          ≡ sum_where (usage_of k) (λ u. u.upload_bytes) db.usage
            + (if bound_to node_id k db.bindings
                then sum_where (delta_of k) (λ d. d.upload_bytes) deltas
                else 0))
        × (sum_where (usage_of k) (λ u. u.download_bytes) after.usage
            ≡ sum_where (usage_of k) (λ u. u.download_bytes) db.usage
              + (if bound_to node_id k db.bindings
                  then sum_where (delta_of k) (λ d. d.download_bytes) deltas
                  else 0))
  record_batch_adds named key done = (
    column_added (λ u. u.upload_bytes) (λ d. d.upload_bytes) upload-IsColumn named key done,
    column_added (λ u. u.download_bytes) (λ d. d.download_bytes) download-IsColumn named key done,
  )
