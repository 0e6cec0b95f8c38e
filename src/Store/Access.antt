-- ===== src/Store/Access.antt =====
-- internal/store/domain_access.go: the log of the domains that accounts reach.
pub mod Record
mod Tests
use proxy_control_plane.Base.{
  ℕ, suc, Text, Bool, true, false, not, ◌&&◌, ◌||◌, Option, none, some, List, [], ◌∷◌, ◌++◌, any,
  keep, length, take, str_eq, if◌then◌else◌, Result, ok, err, ℤ, pos, leb_ℤ, ltb_ℤ, leb, ltb, eqb,
  is_nil,
}
use proxy_control_plane.Domain.{Time, DomainAccessLog}
use proxy_control_plane.Store.{
  Error, conflict, invalid, Db, Exec, pure, lift, id_or_new, stamp, continue, ◌>>=◌,
}

pub record DomainAccessLogFilter : Type 0 where
  pub proxy_account_id : Text
  pub proxy_node_id : Text
  pub domain : Text
  pub since : Option Time
  pub until : Option Time
  pub limit : ℤ

-- The two checks of the loop.
unfoldable pub valid_access : DomainAccessLog → Bool
valid_access log =
    not (str_eq log.proxy_account_id [] || (str_eq log.proxy_node_id [] || str_eq log.domain []))
    && not (
        leb_ℤ log.event_count (pos 0)
        || (ltb_ℤ log.upload_bytes (pos 0) || ltb_ℤ log.download_bytes (pos 0)))

-- What one call of NewID returns is used only for a log without an id.
unfoldable pub calls_after : ℕ → DomainAccessLog → ℕ
calls_after i log = if str_eq log.id [] then suc i else i

-- The loop of `RecordDomainAccessLogs`; `new_ids i` is what the i-th call of NewID returns.
unfoldable pub access_records :
    Time → (ℕ → Result Error Text) → ℕ → List DomainAccessLog → Result Error (List DomainAccessLog)
access_records now new_ids i [] = ok []
access_records now new_ids i (log ∷ logs) =
    let rest = access_records now new_ids (calls_after i log) logs in
    if not (valid_access log) then err invalid else elim (id_or_new log.id (new_ids i)) [
      | err e ↦ err e
      | ok id ↦ elim rest [
        | err e ↦ err e
        | ok records ↦ ok (
            record log {
              id = id;
              accessed_at = stamp now log.accessed_at;
              created_at = stamp now log.created_at;
            }
            ∷ records)
      ]
    ]

-- The CHECK `btrim(domain) <> ''`: some character is not a space. The other two hold after the loop.
unfoldable pub domain_check : DomainAccessLog → Bool
domain_check l = any (λ c. not (eqb c b' ')) l.domain

-- The CHECK of each row, and its primary key over the table and the rows of the statement before.
unfoldable pub row_problem : List DomainAccessLog → List DomainAccessLog → Option Error
row_problem old [] = none
row_problem old (l ∷ ls) =
    let rest = row_problem (l ∷ old) ls in
    if not (domain_check l)
    then some invalid
    else if any (λ m. str_eq m.id l.id) old
    then some conflict
    else rest

unfoldable pub refers : Db → DomainAccessLog → Bool
refers db l =
    any (λ a. str_eq a.id l.proxy_account_id) db.accounts
    && any (λ n. str_eq n.id l.proxy_node_id) db.nodes

unfoldable pub insert_access : List DomainAccessLog → Exec ℕ
insert_access records db = elim (row_problem db.domain_logs records) [
  | some e ↦ (err e, db)
  | none ↦
      if any (λ l. not (refers db l)) records
      then (err invalid, db)
      else (ok (length records), record db { domain_logs = db.domain_logs ++ records })
]

unfoldable pub record_domain_access_logs :
    Time → (ℕ → Result Error Text) → List DomainAccessLog → Exec ℕ
record_domain_access_logs now new_ids logs =
    if is_nil logs then pure 0 else lift (access_records now new_ids 0 logs) >>= insert_access

unfoldable pub filter_limit : ℤ → ℤ
filter_limit limit =
    if leb_ℤ limit (pos 0) then pos 100 else if ltb_ℤ (pos 1000) limit then pos 1000 else limit

abbrev at_least : Option Time → Time → Bool
at_least none t = true
at_least (some bound) t = leb bound t

abbrev below : Option Time → Time → Bool
below none t = true
below (some bound) t = ltb t bound

abbrev clause : Text → Text → Bool
clause wanted value = str_eq wanted [] || str_eq value wanted

unfoldable pub apply_domain_access_log_filter : DomainAccessLogFilter → DomainAccessLog → Bool
apply_domain_access_log_filter filter l =
    clause filter.proxy_account_id l.proxy_account_id
    && (clause filter.proxy_node_id l.proxy_node_id
        && (clause filter.domain l.domain
            && (at_least filter.since l.accessed_at && below filter.until l.accessed_at)))

-- ORDER BY accessed_at DESC
unfoldable pub insert_latest : DomainAccessLog → List DomainAccessLog → List DomainAccessLog
insert_latest l [] = l ∷ []
insert_latest l (m ∷ ms) =
    let rest = insert_latest l ms in
    if ltb l.accessed_at m.accessed_at then m ∷ rest else l ∷ m ∷ ms

unfoldable pub sort_latest : List DomainAccessLog → List DomainAccessLog
sort_latest [] = []
sort_latest (l ∷ ls) = insert_latest l (sort_latest ls)

abbrev take_limit : ℤ → List DomainAccessLog → List DomainAccessLog
take_limit (pos n) ls = take n ls
take_limit limit ls = ls

unfoldable pub list_domain_access_logs : DomainAccessLogFilter → Exec (List DomainAccessLog)
list_domain_access_logs filter db = (
  ok (
      take_limit (filter_limit filter.limit)
        (sort_latest (keep (apply_domain_access_log_filter filter) db.domain_logs))),
  db,
)
