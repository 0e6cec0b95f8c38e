-- ===== src/Store/Access/Tests.antt =====
-- Runs of the recording and the listing of domain accesses.
use proxy_control_plane.Base.{
  ◌⊎◌, err, ℕ, ◌≤◌, Text, codes, true, none, some, List, [], ◌∷◌, ◌++◌, ◌≡◌, refl, All, length,
  str_eq, Result, ok, pos,
}
use proxy_control_plane.Domain.{DomainAccessLog}
use proxy_control_plane.Store.{Error, invalid, Db, id_or_new}
use proxy_control_plane.Store.Samples.{traffic_db}
use proxy_control_plane.Store.Access.{
  DomainAccessLogFilter, valid_access, calls_after, access_records, domain_check, row_problem,
  refers, insert_access, record_domain_access_logs, filter_limit, apply_domain_access_log_filter,
  insert_latest, sort_latest, list_domain_access_logs,
}
use proxy_control_plane.Store.Access.Record.{AreRowsOf, record_access_complete, list_access_bounded}

-- What a run computes with.
running : Unit {0}
unfolding valid_access calls_after access_records domain_check row_problem refers insert_access
    record_domain_access_logs filter_limit apply_domain_access_log_filter insert_latest sort_latest
    list_domain_access_logs id_or_new str_eq
running = tt

abbrev given : DomainAccessLog
given = record {
  id = [];
  proxy_account_id = codes "a1";
  proxy_node_id = codes "n1";
  domain = codes "x.y";
  event_count = pos 2;
  upload_bytes = pos 0;
  download_bytes = pos 7;
  accessed_at = 3;
  created_at = 0;
}

abbrev row : DomainAccessLog
row = record given { id = codes "l1"; created_at = 8 }

abbrev after : Db
after = record traffic_db { domain_logs = row ∷ [] }

abbrev new_ids : ℕ → Result Error Text
new_ids i = ok (codes "l1")

record_run : record_domain_access_logs 8 new_ids (given ∷ []) traffic_db ≡ (ok 1, after)
unfolding running
record_run = refl

record_access_complete_example :
    ((e : Error) × (record_domain_access_logs 8 new_ids (given ∷ []) traffic_db
        ≡ (err e, traffic_db)))
    ⊎ ((rows : List DomainAccessLog) × (AreRowsOf 8 (given ∷ []) rows
          × (record_domain_access_logs 8 new_ids (given ∷ []) traffic_db
              ≡ (ok 1, record traffic_db { domain_logs = traffic_db.domain_logs ++ rows }))))
record_access_complete_example = record_access_complete 8 new_ids (given ∷ []) traffic_db

-- A blank domain passes the loop, and fails by the CHECK of the table.
blank_refused :
    record_domain_access_logs 8 new_ids (record given { domain = codes "  " } ∷ []) traffic_db
    ≡ (err invalid, traffic_db)
unfolding running
blank_refused = refl

abbrev filter : DomainAccessLogFilter
filter = record {
  proxy_account_id = codes "a1";
  proxy_node_id = [];
  domain = [];
  since = some 3;
  until = none;
  limit = pos 0;
}

list_run : list_domain_access_logs filter after ≡ (ok (row ∷ []), after)
unfolding running
list_run = refl

list_access_bounded_example :
    (length (row ∷ []) ≤ 1000)
    × All (λ l. apply_domain_access_log_filter filter l ≡ true) (row ∷ [])
list_access_bounded_example = list_access_bounded filter after after (row ∷ []) list_run
