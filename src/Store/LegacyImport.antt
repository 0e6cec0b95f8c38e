-- ===== src/Store/LegacyImport.antt =====
-- internal/store/legacy_import.go: the import of accounts from an Xray configuration or from a file of
-- subscription links. The counters that come back beside an error are left out, and of an error that
-- wraps ErrInvalid only that is kept. `new_ids i` is what NewID returns for the item i.
pub mod Placed
pub mod Loop
pub mod Twice
pub mod Links
mod Tests
use proxy_control_plane.Base.{
  ℕ, suc, ◌+◌, ◌-◌, Text, codes, Bool, true, false, not, ◌&&◌, ◌||◌, Option, none, some, List, [],
  ◌∷◌, ◌++◌, find, any, length, drop, mem, str_eq, trim_space, to_lower, equal_fold, if◌then◌else◌,
  Result, ok, err, leb, ltb, is_nil, ℤ, pos, negsuc, ltb_ℤ, eqb_ℤ, eqb,
}
use proxy_control_plane.Domain.{Time, Customer, ProxyNode, ProxyAccount, SubscriptionToken}
use proxy_control_plane.Store.{
  Error, not_found, invalid, Db, Exec, pure, raise, lift, found, guard, transaction, settle,
  continue, ◌>>=◌, ◌>>◌,
}
use proxy_control_plane.Store.Customers.{insert_customer}
use proxy_control_plane.Store.Accounts.{insert_account, is_bound}
use proxy_control_plane.Store.Nodes.{get_proxy_node_by_name}
use proxy_control_plane.Store.Tokens.{insert_subscription_token}
use proxy_control_plane.Store.Listings.{list_proxy_nodes}

pub record LegacyProxyAccountInput : Type 0 where
  pub uuid : Text
  pub email_tag : Text
  pub flow : Text

pub record LegacyProxyAccountImport : Type 0 where
  pub customer_email : Text
  pub customer_display_name : Text
  pub node_name : Text
  pub accounts : List LegacyProxyAccountInput

pub record LegacyProxyAccountImportResult : Type 0 where
  pub customer_created : ℕ
  pub account_created : ℕ
  pub account_existing : ℕ
  pub node_bindings : ℕ
  pub skipped : ℕ

abbrev pub no_import : LegacyProxyAccountImportResult
no_import = record {
  customer_created = 0;
  account_created = 0;
  account_existing = 0;
  node_bindings = 0;
  skipped = 0;
}

unfoldable pub short_value : Text → Text
short_value given =
    let value = trim_space given in
    if leb (length value) 8 then value else drop (length value - 8) value

unfoldable pub find_by_email : Text → List Customer → Option Customer
find_by_email email cs = find (λ c. str_eq c.email email) cs

unfoldable pub find_by_uuid : Text → List ProxyAccount → Option ProxyAccount
find_by_uuid uuid accounts = find (λ a. str_eq a.uuid uuid) accounts

-- The two branches of `ensureCustomerByEmailTx`, with whether the customer is new.
unfoldable pub ensure_customer :
    Time → Result Error Text → Text → Text → Option Customer → Exec (Customer × Bool)
ensure_customer now new_id email display_name (some customer) = pure (customer, false)
ensure_customer now new_id email display_name none = do
  id ← lift new_id
  customer ← insert_customer now (record {
    id = id;
    email = email;
    display_name = if str_eq display_name [] then codes "Legacy public accounts" else display_name;
    status = codes "active";
    expires_at = none;
    password_hash = [];
    session_epoch = [];
    created_at = 0;
    updated_at = 0;
  })
  pure (customer, true)

unfoldable pub ensure_customer_by_email_tx :
    Time → Result Error Text → Text → Text → Exec (Customer × Bool)
ensure_customer_by_email_tx now new_id email display_name db =
    ensure_customer now new_id email display_name (find_by_email email db.customers) db

abbrev pub new_account : Text → Text → LegacyProxyAccountInput → ProxyAccount
new_account id customer_id input = record {
  id = id;
  customer_id = customer_id;
  protocol = codes "vless";
  uuid = input.uuid;
  email_tag = input.email_tag;
  flow = input.flow;
  enabled = true;
  expires_at = none;
  traffic_limit_bytes = none;
  node_ids = none;
  nodes = [];
  created_at = 0;
  updated_at = 0;
}

-- The id of the account is all that the callers use.
unfoldable pub upsert_account :
    Time
    → Result Error Text
    → Text
    → LegacyProxyAccountInput
    → Option ProxyAccount
    → Exec (Text × Bool)
upsert_account now new_id customer_id input (some account) = do
  guard (str_eq account.customer_id customer_id) invalid
  guard (str_eq (trim_space account.flow) (trim_space input.flow)) invalid
  pure (account.id, false)
upsert_account now new_id customer_id input none = do
  id ← lift new_id
  insert_account now (new_account id customer_id input)
  pure (id, true)

unfoldable pub upsert_legacy_proxy_account_by_uuid_tx :
    Time → Result Error Text → Text → LegacyProxyAccountInput → Exec (Text × Bool)
upsert_legacy_proxy_account_by_uuid_tx now new_id customer_id input db =
    upsert_account now new_id customer_id input (find_by_uuid input.uuid db.accounts) db

-- ON CONFLICT DO NOTHING. Both rows that the binding refers to are there.
unfoldable pub bind_proxy_account_node_tx : Text → Text → Exec Bool
bind_proxy_account_node_tx account_id node_id db =
    if is_bound account_id node_id db.bindings then (ok false, db) else (
      ok true,
      record db {
        bindings =
            db.bindings ++ record { proxy_account_id = account_id; proxy_node_id = node_id } ∷ [];
      },
    )

unfoldable pub trimmed : LegacyProxyAccountInput → LegacyProxyAccountInput
trimmed input = record {
  uuid = trim_space input.uuid;
  email_tag = trim_space input.email_tag;
  flow = trim_space input.flow;
}

unfoldable pub tagged : Text → LegacyProxyAccountInput → LegacyProxyAccountInput
tagged prefix input = record input {
  email_tag =
      if str_eq input.email_tag []
      then prefix ++ (b'-' ∷ short_value input.uuid)
      else input.email_tag;
}

abbrev pub one_if : Bool → ℕ
one_if test = if test then 1 else 0

-- What an account adds to the counters.
unfoldable pub counted :
    Bool → Bool → LegacyProxyAccountImportResult → LegacyProxyAccountImportResult
counted created bound r = record r {
  account_created = one_if created + r.account_created;
  account_existing = one_if (not created) + r.account_existing;
  node_bindings = one_if bound + r.node_bindings;
}

unfoldable pub one_skipped : LegacyProxyAccountImportResult → LegacyProxyAccountImportResult
one_skipped r = record r { skipped = suc r.skipped }

abbrev pub ImportRest : Type 0
ImportRest = Exec LegacyProxyAccountImportResult

module _ (now : Time) (new_ids : ℕ → Result Error Text) (customer_id node_id : Text) where
  -- The part of the loop's body for an account that is not skipped.
  unfoldable pub import_account : ℕ → LegacyProxyAccountInput → ImportRest → ImportRest
  import_account i input later = do
    account ← upsert_legacy_proxy_account_by_uuid_tx now (new_ids i) customer_id input
    bound ← bind_proxy_account_node_tx account.0 node_id
    result ← later
    pure (counted account.1 bound result)

  -- The loop of `ImportLegacyProxyAccounts`, with the UUIDs seen.
  unfoldable pub import_accounts : ℕ → List Text → List LegacyProxyAccountInput → ImportRest
  import_accounts i seen [] = pure no_import
  import_accounts i seen (given ∷ inputs) =
      let input = trimmed given in
      let skipping = import_accounts (suc i) seen inputs in
      let later = import_accounts (suc i) (input.uuid ∷ seen) inputs in
      if str_eq input.uuid [] || mem input.uuid seen
      then (skipping >>= λ r. pure (one_skipped r))
      else import_account i (tagged (codes "legacy-public") input) later

unfoldable pub import_tx :
    Time
    → Result Error Text
    → (ℕ → Result Error Text)
    → Text
    → Text
    → Text
    → List LegacyProxyAccountInput
    → ImportRest
import_tx now customer_id new_ids email display_name node_name accounts = do
  customer ← ensure_customer_by_email_tx now customer_id email display_name
  node ← get_proxy_node_by_name node_name
  result ← import_accounts now new_ids customer.0.id node.id 0 [] accounts
  pure (record result { customer_created = one_if customer.1 })

unfoldable pub import_legacy_proxy_accounts :
    Time → Result Error Text → (ℕ → Result Error Text) → LegacyProxyAccountImport → ImportRest
import_legacy_proxy_accounts now customer_id new_ids input =
    let email = trim_space input.customer_email in
    let node_name = trim_space input.node_name in
    if str_eq email [] || str_eq node_name []
    then raise invalid
    else transaction (
        import_tx now customer_id new_ids email (trim_space input.customer_display_name) node_name
          input.accounts)
