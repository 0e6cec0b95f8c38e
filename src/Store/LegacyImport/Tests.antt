-- ===== src/Store/LegacyImport/Tests.antt =====
-- A run of the import of accounts, and the same run again.
use proxy_control_plane.Base.{
  ℕ, From, some, none, true, false, any, ltb, ◌&&◌, pos, to_lower, lower, Text, codes, [], ◌∷◌, ◌≡◌,
  refl, ok, Result, str_eq, mem, trim_space, trim_left, trim_right, is_space,
}
use proxy_control_plane.Store.{Error, Db, found}
use proxy_control_plane.Store.Samples.{empty_db, sample_node}
use proxy_control_plane.Store.Customers.{insert_customer}
use proxy_control_plane.Store.Accounts.{insert_account, is_bound}
use proxy_control_plane.Store.Nodes.{get_proxy_node_by_name, find_by_name}
use proxy_control_plane.Store.LegacyImport.{
  LegacyProxyAccountInput, LegacyProxyAccountImport, LegacyProxyAccountImportResult, find_by_email,
  find_by_uuid, short_value, ensure_customer, ensure_customer_by_email_tx, upsert_account,
  upsert_legacy_proxy_account_by_uuid_tx, bind_proxy_account_node_tx, trimmed, tagged, counted,
  one_skipped, import_account, import_accounts, import_tx, import_legacy_proxy_accounts,
}
use proxy_control_plane.Domain.{ProxyNode}
use proxy_control_plane.Store.LegacyImport.Links.Match.{
  LegacySubscriptionLinkInput, match_node, best_of, score, is_candidate, matches_node_host,
}
use proxy_control_plane.Store.LegacyImport.Links.Best.{match_node_best}
use proxy_control_plane.Store.LegacyImport.Twice.{import_twice}

-- What a run computes with.
running : Unit {0}
unfolding find_by_email find_by_uuid short_value ensure_customer ensure_customer_by_email_tx
    upsert_account upsert_legacy_proxy_account_by_uuid_tx bind_proxy_account_node_tx trimmed tagged
    counted one_skipped import_account import_accounts import_tx import_legacy_proxy_accounts
    insert_customer insert_account is_bound get_proxy_node_by_name find_by_name found str_eq mem
    trim_space trim_left trim_right is_space
running = tt

abbrev client : Text → LegacyProxyAccountInput
client uuid = record { uuid = uuid; email_tag = []; flow = [] }

-- The second client is the first one, and the third has no UUID.
abbrev three_clients : LegacyProxyAccountImport
three_clients = record {
  customer_email = codes "a@b ";
  customer_display_name = [];
  node_name = codes "n";
  accounts = client (codes "u1") ∷ client (codes " u1") ∷ client [] ∷ [];
}

abbrev one_node : Db
one_node = record empty_db { nodes = record (sample_node "n") { id = codes "n1" } ∷ [] }

abbrev ids : ℕ → Result Error Text
ids i = ok (b'a' ∷ i ∷ [])

after : Db
after = (import_legacy_proxy_accounts 5 (ok (codes "c1")) ids three_clients one_node).1

abbrev first : LegacyProxyAccountImportResult
first = record {
  customer_created = 1;
  account_created = 1;
  account_existing = 0;
  node_bindings = 1;
  skipped = 2;
}

first_run :
    import_legacy_proxy_accounts 5 (ok (codes "c1")) ids three_clients one_node ≡ (ok first, after)
unfolding after running
first_run = refl

import_twice_example : import_legacy_proxy_accounts 9 (ok (codes "c2")) ids three_clients after ≡ (
  ok (record {
    customer_created = 0;
    account_created = 0;
    account_existing = 1;
    node_bindings = 0;
    skipped = 2;
  }),
  after,
)
import_twice_example =
    import_twice 5 9 (ok (codes "c1")) (ok (codes "c2")) ids ids three_clients one_node after first
      first_run

abbrev link : LegacySubscriptionLinkInput
link = record {
  uuid = codes "u1";
  email_tag = [];
  flow = [];
  host = codes "H";
  port = pos 0;
  transport = codes "ws";
  security = [];
  path = [];
  host_header = [];
  reality_public_key = [];
  reality_short_id = [];
}

abbrev ws_node : ProxyNode
ws_node = record (sample_node "m") {
  id = codes "n2";
  protocol = codes "vless";
  transport = codes "WS";
}

abbrev tcp_node : ProxyNode
tcp_node = record ws_node { id = codes "n3"; transport = codes "tcp" }

matched : match_node (tcp_node ∷ ws_node ∷ []) link ≡ some ws_node
unfolding running match_node best_of score is_candidate matches_node_host to_lower lower
matched = refl

match_node_best_example :
    ((node : ProxyNode)
      → match_node (tcp_node ∷ ws_node ∷ []) link ≡ some node
      → From node (tcp_node ∷ ws_node ∷ [])
        × (is_candidate link node ≡ true)
        × (any
              (λ m. is_candidate link m && ltb (score link node) (score link m))
              (tcp_node ∷ ws_node ∷ [])
            ≡ false))
    × (match_node (tcp_node ∷ ws_node ∷ []) link ≡ none
        → any (is_candidate link) (tcp_node ∷ ws_node ∷ []) ≡ false)
match_node_best_example = match_node_best link (tcp_node ∷ ws_node ∷ [])
