-- ===== src/Store/Traffic.antt =====
-- internal/store/traffic.go: the traffic that is recorded for a node, and its totals. A byte count of
-- a delta or a row is an int64, held as the number below 2^64 that it is congruent to.
pub mod Batch
mod Tests
use proxy_control_plane.Base.{
  ℕ, suc, ◌+◌, ◌*◌, ◌/◌, ◌^◌, Text, Bool, true, false, not, ◌&&◌, ◌||◌, Option, none, some, List,
  [], ◌∷◌, ◌++◌, any, find, keep, length, is_nil, str_eq, if◌then◌else◌, Result, ok, err, eqb, leb,
  ltb, sum_where,
}
use proxy_control_plane.Domain.{
  Time, ProxyAccount, TrafficUsage, TrafficUsageDaily, TrafficUsageTotal, TrafficDelta,
}
use proxy_control_plane.Store.{
  Error, conflict, invalid, Binding, Db, Exec, pure, raise, lift, stamp, id_or_new, continue, ◌>>=◌,
}

-- Nanoseconds of a day, and the cast `::date` in the time zone UTC.
abbrev pub day_length : ℕ
day_length = 86400000000000

unfoldable pub day_of : Time → ℕ
day_of t = t / day_length

pub record TrafficUsageTotalFilter : Type 0 where
  pub customer_id : Text
  pub proxy_account_id : Text
  pub since : Option Time
  pub until : Option Time

unfoldable pub find_account : Text → List ProxyAccount → Option ProxyAccount
find_account id accounts = find (λ a. str_eq a.id id) accounts

-- The JOIN with `proxy_accounts` and the two clauses on ids.
unfoldable pub in_scope : TrafficUsageTotalFilter → List ProxyAccount → Text → Bool
in_scope filter accounts account_id = elim (find_account account_id accounts) [
  | none ↦ false
  | some a ↦
      (str_eq filter.customer_id [] || str_eq a.customer_id filter.customer_id)
      && (str_eq filter.proxy_account_id [] || str_eq account_id filter.proxy_account_id)
]

abbrev pub at_least : Option ℕ → ℕ → Bool
at_least none t = true
at_least (some bound) t = leb bound t

abbrev pub below : Option ℕ → ℕ → Bool
below none t = true
below (some bound) t = ltb t bound

abbrev pub day_of_bound : Option Time → Option ℕ
day_of_bound none = none
day_of_bound (some t) = some (day_of t)

unfoldable pub detail_matches : TrafficUsageTotalFilter → List ProxyAccount → TrafficUsage → Bool
detail_matches filter accounts u =
    in_scope filter accounts u.proxy_account_id
    && (at_least filter.since u.recorded_at && below filter.until u.recorded_at)

unfoldable pub daily_matches :
    TrafficUsageTotalFilter → List ProxyAccount → TrafficUsageDaily → Bool
daily_matches filter accounts d =
    in_scope filter accounts d.proxy_account_id
    && (at_least (day_of_bound filter.since) d.day && below (day_of_bound filter.until) d.day)

-- The sums of the two statements, and their sum, stay within an int64 here.
unfoldable pub traffic_usage_total : TrafficUsageTotalFilter → Db → TrafficUsageTotal
traffic_usage_total filter db = record {
  customer_id = filter.customer_id;
  proxy_account_id = filter.proxy_account_id;
  upload_bytes =
      sum_where (detail_matches filter db.accounts) (λ u. u.upload_bytes) db.usage
      + sum_where (daily_matches filter db.accounts) (λ d. d.upload_bytes) db.daily;
  download_bytes =
      sum_where (detail_matches filter db.accounts) (λ u. u.download_bytes) db.usage
      + sum_where (daily_matches filter db.accounts) (λ d. d.download_bytes) db.daily;
}

unfoldable pub is_zero_delta : TrafficDelta → Bool
is_zero_delta delta = eqb delta.upload_bytes 0 && eqb delta.download_bytes 0

-- The first loop: the accounts that the query asks for, each once.
unfoldable pub account_ids_from : List Text → List TrafficDelta → List Text
account_ids_from seen [] = []
account_ids_from seen (delta ∷ deltas) =
    let same = account_ids_from seen deltas in
    let more = account_ids_from (delta.proxy_account_id ∷ seen) deltas in
    if str_eq delta.proxy_account_id [] || is_zero_delta delta
    then same
    else if any (λ k. str_eq k delta.proxy_account_id) seen
    then same
    else delta.proxy_account_id ∷ more

unfoldable pub binds : Text → List Text → Binding → Bool
binds node_id account_ids b =
    str_eq b.proxy_node_id node_id && any (λ k. str_eq k b.proxy_account_id) account_ids

unfoldable pub is_bound : Text → List Binding → Bool
is_bound account_id bs = any (λ b. str_eq b.proxy_account_id account_id) bs

-- The second loop; `new_ids i` is what the i-th call of NewID returns.
unfoldable pub usages_of :
    (ℕ → Result Error Text)
    → Text
    → Time
    → List Binding
    → ℕ
    → List TrafficDelta
    → Result Error (List TrafficUsage)
usages_of new_ids node_id at bound i [] = ok []
usages_of new_ids node_id at bound i (delta ∷ deltas) =
    let skipped = usages_of new_ids node_id at bound i deltas in
    let rest = usages_of new_ids node_id at bound (suc i) deltas in
    if not (is_bound delta.proxy_account_id bound)
    then skipped
    else if is_zero_delta delta
    then skipped
    else elim (new_ids i) [
      | err e ↦ err e
      | ok id ↦ elim rest [
        | err e ↦ err e
        | ok usages ↦ ok (
            record {
              id = id;
              proxy_account_id = delta.proxy_account_id;
              proxy_node_id = node_id;
              upload_bytes = delta.upload_bytes;
              download_bytes = delta.download_bytes;
              recorded_at = at;
            }
            ∷ usages)
      ]
    ]

-- The CHECK that no byte count is negative: as an int64 it stands below 2^63.
unfoldable pub bytes_check : TrafficUsage → Bool
bytes_check u = ltb u.upload_bytes (2 ^ 63) && ltb u.download_bytes (2 ^ 63)

-- The CHECK of each row, and its primary key over the table and the rows of the statement before.
unfoldable pub row_problem : List TrafficUsage → List TrafficUsage → Option Error
row_problem old [] = none
row_problem old (u ∷ us) =
    let rest = row_problem (u ∷ old) us in
    if not (bytes_check u)
    then some invalid
    else if any (λ v. str_eq v.id u.id) old
    then some conflict
    else rest

-- The two foreign keys of a row.
unfoldable pub refers : Db → TrafficUsage → Bool
refers db u =
    any (λ a. str_eq a.id u.proxy_account_id) db.accounts
    && any (λ n. str_eq n.id u.proxy_node_id) db.nodes

-- One INSERT of several rows.
unfoldable pub insert_usages : List TrafficUsage → Exec ℕ
insert_usages usages db = elim (row_problem db.usage usages) [
  | some e ↦ (err e, db)
  | none ↦
      if any (λ u. not (refers db u)) usages
      then (err invalid, db)
      else (ok (length usages), record db { usage = db.usage ++ usages })
]

abbrev pub store_usages : List TrafficUsage → Exec ℕ
store_usages [] = pure 0
store_usages (u ∷ us) = insert_usages (u ∷ us)

unfoldable pub record_traffic_usage_batch :
    Time → (ℕ → Result Error Text) → Text → List TrafficDelta → Time → Exec ℕ
record_traffic_usage_batch now new_ids node_id deltas given_at db =
    let at = stamp now given_at in
    let account_ids = account_ids_from [] deltas in
    let bound = keep (binds node_id account_ids) db.bindings in
    if str_eq node_id [] || is_nil deltas
    then pure 0 db
    else if is_nil account_ids
    then pure 0 db
    else (lift (usages_of new_ids node_id at bound 0 deltas) >>= store_usages) db

unfoldable pub record_traffic_usage : Time → Result Error Text → TrafficUsage → Exec TrafficUsage
record_traffic_usage now new_id usage db = elim (id_or_new usage.id new_id) [
  | err e ↦ (err e, db)
  | ok id ↦
      let row = record usage { id = id; recorded_at = stamp now usage.recorded_at } in
      (insert_usages (row ∷ []) >>= λ n. pure row) db
]
