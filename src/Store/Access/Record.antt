-- ===== src/Store/Access/Record.antt =====
-- What the log takes in, and what a listing gives out.
use proxy_control_plane.Base.{
  not, ◌||◌, false, any, str_eq, str_eq_refl, ◌⊎◌, Option-cases, err, ℕ, suc, zero, ◌≤◌, Text, true,
  List, [], ◌∷◌, ◌++◌, ◌≡◌, refl, ap, sym, ◌∙◌, keep, length, All, arith, Bool-cases, Result-cases,
  inl, inr, Result, ok, ℤ, pos, negsuc, leb_ℤ, ltb_ℤ, take,
}
use proxy_control_plane.Domain.{Time, DomainAccessLog}
use proxy_control_plane.Store.{Error, invalid, Db, id_or_new, stamp, lift}
use proxy_control_plane.Store.Access.{
  row_problem, refers, DomainAccessLogFilter, valid_access, calls_after, access_records,
  insert_access, record_domain_access_logs, filter_limit, apply_domain_access_log_filter,
  insert_latest, sort_latest, list_domain_access_logs,
}

append_nil : (ls : List DomainAccessLog) → ls ++ [] ≡ ls
append_nil [] = refl
append_nil (l ∷ ls) = ap (λ rest. l ∷ rest) (append_nil ls)

-- The row that is kept of a log which may be kept: the log, with an id and times where it has none.
pub record IsRowOf (now : Time) (log row : DomainAccessLog) : Type 0 where
  pub content : row ≡ record log {
    id = row.id;
    accessed_at = stamp now log.accessed_at;
    created_at = stamp now log.created_at;
  }
  pub own_id : (str_eq log.id [] || str_eq row.id log.id) ≡ true
  pub account : str_eq row.proxy_account_id [] ≡ false
  pub node : str_eq row.proxy_node_id [] ≡ false
  pub domain : str_eq row.domain [] ≡ false
  pub events : leb_ℤ (pos 1) row.event_count ≡ true
  pub upload : leb_ℤ (pos 0) row.upload_bytes ≡ true
  pub download : leb_ℤ (pos 0) row.download_bytes ≡ true

-- One row for each log, in order.
abbrev pub AreRowsOf : Time → List DomainAccessLog → List DomainAccessLog → Type 0
AreRowsOf now [] [] = Unit {0}
AreRowsOf now [] (row ∷ rows) = ⊥
AreRowsOf now (log ∷ logs) [] = ⊥
AreRowsOf now (log ∷ logs) (row ∷ rows) = IsRowOf now log row × AreRowsOf now logs rows

id_or_new-own :
    (given id : Text) (new_id : Result Error Text)
    → id_or_new given new_id ≡ ok id
    → (str_eq given [] || str_eq id given) ≡ true
unfolding id_or_new
id_or_new-own given id new_id h = elim (Bool-cases (str_eq given [])) [
  | inl e ↦ rw e refl
  | inr e ↦ let same : given ≡ id = ground arith in rw (← same, str_eq_refl given) (ground arith)
]

AreRowsOf-length :
    (now : Time) (logs rows : List DomainAccessLog)
    → AreRowsOf now logs rows
    → length rows ≡ length logs
AreRowsOf-length now [] [] h = refl
AreRowsOf-length now [] (row ∷ rows) h = absurd h
AreRowsOf-length now (log ∷ logs) [] h = absurd h
AreRowsOf-length now (log ∷ logs) (row ∷ rows) (here, h) = ap suc (AreRowsOf-length now logs rows h)

insert_access-cases :
    (rows : List DomainAccessLog) (db : Db)
    → ((e : Error) × (insert_access rows db ≡ (err e, db)))
      ⊎ (insert_access rows db
          ≡ (ok (length rows), record db { domain_logs = db.domain_logs ++ rows }))
unfolding insert_access
insert_access-cases rows db = elim (Option-cases (row_problem db.domain_logs rows)) [
  | inr (e, p) ↦ inl (e, rw (insert_access, p) refl)
  | inl p ↦ elim (Bool-cases (any (λ l. not (refers db l)) rows)) [
    | inl dangling ↦ inl (invalid, rw (insert_access, p, dangling) refl)
    | inr linked ↦ inr (rw (insert_access, p, linked) refl)
  ]
]

module _ (now : Time) (new_ids : ℕ → Result Error Text) where
  row_lem :
      (log : DomainAccessLog) (id : Text) (i : ℕ)
      → valid_access log ≡ true
      → id_or_new log.id (new_ids i) ≡ ok id
      → IsRowOf now log (record log {
        id = id;
        accessed_at = stamp now log.accessed_at;
        created_at = stamp now log.created_at;
      })
  unfolding valid_access
  row_lem log id i valid e = record {
    content = refl;
    own_id = id_or_new-own log.id id (new_ids i) e;
    account = ground (arith, valid);
    node = ground (arith, valid);
    domain = ground (arith, valid);
    events = ground (arith, valid);
    upload = ground (arith, valid);
    download = ground (arith, valid);
  }

  access_records-rows :
      (logs : List DomainAccessLog) (i : ℕ) (rows : List DomainAccessLog)
      → access_records now new_ids i logs ≡ ok rows
      → AreRowsOf now logs rows
  unfolding access_records
  access_records-rows [] i rows h = let none_left : [] ≡ rows = ground arith in rw (← none_left) tt
  access_records-rows (log ∷ logs) i rows h = elim (Bool-cases (valid_access log)) [
    | inr bad ↦ absurd (ground arith)
    | inl good ↦ elim (Result-cases (id_or_new log.id (new_ids i))) [
      | inr (e, n) ↦ absurd (ground arith)
      | inl (id, n) ↦ elim (Result-cases (access_records now new_ids (calls_after i log) logs)) [
        | inr (e, r) ↦ absurd (ground arith)
        | inl (rest, r) ↦
            let row : DomainAccessLog = record log {
              id = id;
              accessed_at = stamp now log.accessed_at;
              created_at = stamp now log.created_at;
            } in
            let whole : row ∷ rest ≡ rows = ground arith in
            rw (← whole)
              (row_lem log id i good n, access_records-rows logs (calls_after i log) rest r)
      ]
    ]
  ]

  -- A call either fails and changes nothing, or returns the number of logs given and appends to the
  -- table one row for each of them, in order, and changes nothing else. Such a row is the log, with
  -- the id that it has or a new one, and the time of the call where it has none; it names an account,
  -- a node and a domain, and has a positive number of events and no negative byte count.
  pub record_access_complete :
      (logs : List DomainAccessLog) (db : Db)
      → ((e : Error) × (record_domain_access_logs now new_ids logs db ≡ (err e, db)))
        ⊎ ((rows : List DomainAccessLog) × (AreRowsOf now logs rows
              × (record_domain_access_logs now new_ids logs db
                  ≡ (ok (length logs), record db { domain_logs = db.domain_logs ++ rows }))))
  unfolding record_domain_access_logs
  record_access_complete [] db = inr (
    [],
    (tt, ap (λ ls. (ok 0, record db { domain_logs = ls })) (sym (append_nil db.domain_logs))),
  )
  record_access_complete (log ∷ logs) db =
      elim (Result-cases (access_records now new_ids 0 (log ∷ logs))) [
        | inr (e, r) ↦ inl (e, rw r refl)
        | inl (rows, r) ↦
            let call : record_domain_access_logs now new_ids (log ∷ logs) db
                ≡ insert_access rows db =
              rw (record_domain_access_logs, lift, r) refl in
            let are = access_records-rows (log ∷ logs) 0 rows r in
            elim (insert_access-cases rows db) [
              | inl (e, p) ↦ inl (e, call ∙ p)
              | inr p ↦ inr (
                rows,
                (
                  are,
                  call
                      ∙ p
                      ∙ ap (λ n. (ok n, record db { domain_logs = db.domain_logs ++ rows }))
                          (AreRowsOf-length now (log ∷ logs) rows are),
                ),
              )
            ]
      ]

limit-bounds : (limit : ℤ) → (n : ℕ) × ((filter_limit limit ≡ pos n) × (n ≤ 1000))
unfolding filter_limit
limit-bounds (negsuc n) = (100, (ground arith, omega arith))
limit-bounds (pos n) = elim (Bool-cases (leb_ℤ (pos n) (pos 0))) [
  | inl low ↦ (100, (ground arith, omega arith))
  | inr positive ↦ elim (Bool-cases (ltb_ℤ (pos 1000) (pos n))) [
    | inl high ↦ (1000, (ground arith, omega arith))
    | inr within ↦ (n, (ground arith, ground arith))
  ]
]

length-take : (n : ℕ) (ls : List DomainAccessLog) → length (take n ls) ≤ n
length-take zero ls = omega arith
length-take (suc n) [] = omega arith
length-take (suc n) (l ∷ ls) = omega (arith, length-take n ls)

module _ (P : DomainAccessLog → Type 0) where
  All-take : (n : ℕ) (ls : List DomainAccessLog) → All P ls → All P (take n ls)
  All-take zero ls h = tt
  All-take (suc n) [] h = tt
  All-take (suc n) (l ∷ ls) (here, h) = (here, All-take n ls h)

  All-insert :
      (l : DomainAccessLog) (ls : List DomainAccessLog)
      → P l
      → All P ls
      → All P (insert_latest l ls)
  unfolding insert_latest
  All-insert l [] p h = (p, tt)
  All-insert l (m ∷ ls) p (here, h) = ground (arith, All-insert l ls p h)

  All-sort : (ls : List DomainAccessLog) → All P ls → All P (sort_latest ls)
  unfolding sort_latest
  All-sort [] h = tt
  All-sort (l ∷ ls) (here, h) = All-insert l (sort_latest ls) here (All-sort ls h)

matching :
    (filter : DomainAccessLogFilter) (ls : List DomainAccessLog)
    → All
        (λ l. apply_domain_access_log_filter filter l ≡ true)
        (keep (apply_domain_access_log_filter filter) ls)
matching filter [] = tt
matching filter (l ∷ ls) = elim (Bool-cases (apply_domain_access_log_filter filter l)) [
  | inl e ↦ rw e (e, matching filter ls)
  | inr e ↦ rw e (matching filter ls)
]

-- A listing has at most 1000 rows, whatever limit is asked for, and each of them matches the filter.
pub list_access_bounded :
    (filter : DomainAccessLogFilter) (db after : Db) (rows : List DomainAccessLog)
    → list_domain_access_logs filter db ≡ (ok rows, after)
    → (length rows ≤ 1000) × All (λ l. apply_domain_access_log_filter filter l ≡ true) rows
unfolding list_domain_access_logs
list_access_bounded filter db after rows h =
    let (n, (e, bound)) = limit-bounds filter.limit in
    let sorted = sort_latest (keep (apply_domain_access_log_filter filter) db.domain_logs) in
    let shown : take n sorted ≡ rows = ground (arith, e) in
    let P : DomainAccessLog → Type 0 = λ l. apply_domain_access_log_filter filter l ≡ true in
    rw (← shown) (
      omega (arith, length-take n sorted, bound),
      All-take P n sorted (All-sort P _ (matching filter db.domain_logs)),
    )
