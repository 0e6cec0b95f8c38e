-- ===== src/Store/LegacyImport/Links.antt =====
-- ImportLegacySubscriptionFile of internal/store/legacy_import.go: the accounts and bindings that a
-- file of subscription links describes. EncryptStringWithBase64Key and NewRandomToken are given with
-- what they return.
pub mod Match
pub mod Best
use proxy_control_plane.Base.{
  ℕ, suc, ◌+◌, Text, codes, Bool, true, false, not, ◌||◌, Option, none, some, List, [], ◌∷◌, any,
  mem, str_eq, trim_space, if◌then◌else◌, Result, ok, err, ℤ,
}
use proxy_control_plane.Domain.{Time, ProxyNode}
use proxy_control_plane.Store.{
  Error, invalid, Db, Exec, pure, raise, lift, transaction, settle, continue, ◌>>=◌, ◌>>◌,
}
use proxy_control_plane.Store.Tokens.{insert_subscription_token}
use proxy_control_plane.Store.Listings.{list_proxy_nodes}
use proxy_control_plane.Store.LegacyImport.{
  LegacyProxyAccountInput, tagged, one_if, ensure_customer_by_email_tx,
  upsert_legacy_proxy_account_by_uuid_tx, bind_proxy_account_node_tx,
}
use proxy_control_plane.Store.LegacyImport.Links.Match.{
  LegacySubscriptionLinkInput, trimmed_link, link_key, match_node,
}

pub record LegacySubscriptionFileImport : Type 0 where
  pub customer_email : Text
  pub customer_display_name : Text
  pub email_tag_prefix : Text
  pub subscription_token : Bool
  pub subscription_token_name : Text
  pub links : List LegacySubscriptionLinkInput

pub record LegacySubscriptionFileImportResult : Type 0 where
  pub customer_created : ℕ
  pub subscription_token_created : ℕ
  pub plain_subscription_token : Text
  pub account_created : ℕ
  pub account_existing : ℕ
  pub node_bindings : ℕ
  pub unmatched_links : ℕ
  pub skipped : ℕ

abbrev pub nothing_imported : LegacySubscriptionFileImportResult
nothing_imported = record {
  customer_created = 0;
  subscription_token_created = 0;
  plain_subscription_token = [];
  account_created = 0;
  account_existing = 0;
  node_bindings = 0;
  unmatched_links = 0;
  skipped = 0;
}

-- What the calls of `ensureSubscriptionTokenTx` return: an id, a token, and the token encrypted; and
-- the digest of tokens.
pub record FreshToken : Type 0 where
  pub new_id : Result Error Text
  pub random : Result Error Text
  pub encrypt : Text → Result Error Text
  pub digest : Text → Text

-- The part of `ensureSubscriptionTokenTx` for a customer who has no token.
unfoldable pub create_token : Time → FreshToken → Text → Text → Exec (Option Text)
create_token now fresh customer_id name = do
  id ← lift fresh.new_id
  plain ← lift fresh.random
  encrypted ← lift (fresh.encrypt plain)
  token ← insert_subscription_token now (record {
    id = id;
    customer_id = customer_id;
    name = name;
    token_hash = fresh.digest plain;
    encrypted_token = encrypted;
    enabled = true;
    expires_at = none;
    created_at = 0;
    updated_at = 0;
    last_used_at = none;
    last_used_ip = [];
    last_used_user_agent = [];
    plain_token = [];
  })
  pure (some plain)

unfoldable pub ensure_subscription_token_tx : Time → FreshToken → Text → Text → Exec (Option Text)
ensure_subscription_token_tx now fresh customer_id name db =
    if any (λ t. str_eq t.customer_id customer_id) db.subscription_tokens
    then pure none db
    else create_token now fresh customer_id name db

-- `if input.SubscriptionToken { ... }`
abbrev pub wanted_token : Bool → Exec (Option Text) → Exec (Option Text)
wanted_token true create = create
wanted_token false create = pure none

-- The binding to the node that matches, or `none` where none does.
unfoldable pub bind_match : Text → Option ProxyNode → Exec (Option Bool)
bind_match account_id none = pure none
bind_match account_id (some node) =
    bind_proxy_account_node_tx account_id node.id >>= λ bound. pure (some bound)

unfoldable pub count_link :
    Bool → Option Bool → LegacySubscriptionFileImportResult → LegacySubscriptionFileImportResult
count_link created bound r = record r {
  account_created = one_if created + r.account_created;
  account_existing = one_if (not created) + r.account_existing;
  node_bindings = elim bound [ none ↦ 0 | some b ↦ one_if b ] + r.node_bindings;
  unmatched_links = elim bound [ none ↦ 1 | some b ↦ 0 ] + r.unmatched_links;
}

abbrev pub LinksRest : Type 0
LinksRest = Exec LegacySubscriptionFileImportResult

abbrev pub account_of : LegacySubscriptionLinkInput → LegacyProxyAccountInput
account_of link = record { uuid = link.uuid; email_tag = link.email_tag; flow = link.flow }

module _ (now : Time) (new_ids : ℕ → Result Error Text) (prefix customer_id : Text)
    (nodes : List ProxyNode) where
  unfoldable pub import_link : ℕ → LegacySubscriptionLinkInput → LinksRest → LinksRest
  import_link i link later = do
    account ←
        upsert_legacy_proxy_account_by_uuid_tx now (new_ids i) customer_id
          (tagged prefix (account_of link))
    bound ← bind_match account.0 (match_node nodes link)
    result ← later
    pure (count_link account.1 bound result)

  -- The loop, with the keys of the links seen.
  unfoldable pub import_links : ℕ → List Text → List LegacySubscriptionLinkInput → LinksRest
  import_links i seen [] = pure nothing_imported
  import_links i seen (given ∷ links) =
      let link = trimmed_link given in
      let skipping = import_links (suc i) seen links in
      let later = import_links (suc i) (link_key link ∷ seen) links in
      if str_eq link.uuid [] || mem (link_key link) seen
      then (skipping >>= λ r. pure (record r { skipped = suc r.skipped }))
      else import_link i link later

unfoldable pub import_file_tx :
    Time
    → Result Error Text
    → FreshToken
    → (ℕ → Result Error Text)
    → LegacySubscriptionFileImport
    → LinksRest
import_file_tx now customer_id fresh new_ids input = do
  customer ←
      ensure_customer_by_email_tx now customer_id input.customer_email input.customer_display_name
  token ←
      wanted_token input.subscription_token
        (ensure_subscription_token_tx now fresh customer.0.id input.subscription_token_name)
  nodes ← list_proxy_nodes
  result ← import_links now new_ids input.email_tag_prefix customer.0.id nodes 0 [] input.links
  pure (record result {
    customer_created = one_if customer.1;
    subscription_token_created = elim token [ none ↦ 0 | some t ↦ 1 ];
    plain_subscription_token = elim token [ none ↦ [] | some t ↦ t ];
  })

abbrev pub or_legacy : Text → Text
or_legacy value = if str_eq value [] then codes "legacy-public" else value

unfoldable pub import_legacy_subscription_file :
    Time
    → Result Error Text
    → FreshToken
    → (ℕ → Result Error Text)
    → LegacySubscriptionFileImport
    → LinksRest
import_legacy_subscription_file now customer_id fresh new_ids input =
    let email = trim_space input.customer_email in
    if str_eq email []
    then raise invalid
    else transaction (
        import_file_tx now customer_id fresh new_ids (record input {
          customer_email = email;
          customer_display_name = trim_space input.customer_display_name;
          email_tag_prefix = or_legacy (trim_space input.email_tag_prefix);
          subscription_token_name = or_legacy (trim_space input.subscription_token_name);
        }))
