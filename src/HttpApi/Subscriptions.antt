-- ===== src/HttpApi/Subscriptions.antt =====
-- The handlers of internal/httpapi/server.go for subscription tokens, and the one that serves a
-- subscription. `decode` is base64.StdEncoding, and `nonce` what rand.Read fills the nonce with.
pub mod Served
pub mod Moves
pub mod Links
mod Tests
use proxy_control_plane.Base.{
  Text, codes, Bool, true, false, not, ◌&&◌, ◌||◌, Option, none, some, List, [], ◌∷◌, str_eq,
  if◌then◌else◌, Result, ok, err, ltb,
}
use proxy_control_plane.Domain.{Time, SubscriptionToken}
use proxy_control_plane.Store.{Error, Db}
use proxy_control_plane.Store.Tokens
use proxy_control_plane.Store.Tokens.{get_subscription_token_by_hash, mark_subscription_used}
use proxy_control_plane.Store.Listings.{list_subscription_tokens, subscription_data}
use proxy_control_plane.Security.Ids.{token_digest}
use proxy_control_plane.Security.AccessToken.{AccessClaims}
use proxy_control_plane.Security.Encryption.{
  Aead, encrypt_string_with_base64_key, decrypt_string_with_base64_key,
}
use proxy_control_plane.Subscription.{build}
use proxy_control_plane.HttpApi.Action.{
  Failure, Action, reply, write_error, continue, ◌>>=◌, ◌>>◌, require, store_failure, call, settle,
  unless_found, Services, Request, audit, client_ip,
}
use proxy_control_plane.HttpApi.Auth.{bind_json}
use proxy_control_plane.HttpApi.Customers.{checked, customer_id_from}
use proxy_control_plane.HttpApi.Patch.{Json, Fields}
use proxy_control_plane.HttpApi.Patch.Rows.{patch_token}

pub record SubscriptionTokenRequest : Type 0 where
  pub customer_id : Text
  pub name : Text
  pub expires_at : Option Time

-- How the server keeps a token readable for its customer.
pub record Sealing : Type 0 where
  pub aead : Aead
  pub decode : Text → Result Text Text
  pub nonce : Result Text Text

-- An error of a step that is answered with status 500 and a message.
unfoldable pub or_server_error : {A : Type 0} → Text → Result Text A → Action A
or_server_error message (ok a) = reply a
or_server_error message (err e) = write_error 500 message

-- The token that the database keeps encrypted.
abbrev pub sealed : Services → Sealing → Text → Result Text Text
sealed srv seal raw =
    encrypt_string_with_base64_key seal.decode seal.aead seal.nonce srv.cfg.database_encryption_key
      raw

-- The answer of a creation or a rotation holds the token itself.
abbrev pub with_plain : Text → SubscriptionToken → SubscriptionToken
with_plain raw token = record token { plain_token = raw }

unfoldable pub create_subscription_token :
    Services → Sealing → Request → Text → Option SubscriptionTokenRequest → Action SubscriptionToken
create_subscription_token srv seal req actor body = do
  given ← bind_json body
  require (not (str_eq given.customer_id [])) 400 (codes "customer_id is required")
  raw ← or_server_error (codes "could not create subscription token") req.random
  encrypted_token ←
      or_server_error (codes "could not encrypt subscription token") (sealed srv seal raw)
  token ← call store_failure (
      Tokens.create_subscription_token req.now req.new_id (record {
        id = [];
        customer_id = given.customer_id;
        name = given.name;
        token_hash = token_digest srv.sha256 raw;
        encrypted_token = encrypted_token;
        enabled = true;
        expires_at = given.expires_at;
        created_at = 0;
        updated_at = 0;
        last_used_at = none;
        last_used_ip = [];
        last_used_user_agent = [];
        plain_token = [];
      }))
  audit req actor (codes "subscription_token.created") token.id
  reply (with_plain raw token)

unfoldable pub get_subscription_token : Text → Action SubscriptionToken
get_subscription_token id = call store_failure (Tokens.get_subscription_token id)

unfoldable pub update_subscription_token :
    Json → Request → Text → Text → Option Fields → Action SubscriptionToken
update_subscription_token json req actor id body = do
  current ← call store_failure (Tokens.get_subscription_token id)
  fields ← bind_json body
  patched ← checked (patch_token json fields current)
  updated ← call store_failure (Tokens.update_subscription_token req.now patched)
  audit req actor (codes "subscription_token.updated") updated.id
  reply updated

-- The part after the two tokens are made.
unfoldable pub rotate_to : Services → Request → Text → Text → Text → Text → Action SubscriptionToken
rotate_to srv req actor id raw encrypted_token = do
  token ←
      call store_failure
        (Tokens.rotate_subscription_token req.now id (token_digest srv.sha256 raw) encrypted_token)
  audit req actor (codes "subscription_token.rotated") token.id
  reply (with_plain raw token)

unfoldable pub rotate_subscription_token :
    Services → Sealing → Request → Text → Text → Action SubscriptionToken
rotate_subscription_token srv seal req actor id = do
  raw ← or_server_error (codes "could not rotate subscription token") req.random
  encrypted_token ←
      or_server_error (codes "could not encrypt subscription token") (sealed srv seal raw)
  rotate_to srv req actor id raw encrypted_token

abbrev pub expires_after : Option Time → Time → Bool
expires_after none now = true
expires_after (some at) now = ltb now at

unfoldable pub active_subscription_token : SubscriptionToken → Time → Bool
active_subscription_token token now = token.enabled && expires_after token.expires_at now

-- The loop of `customerSubscriptionTokens`: the first token that does not decrypt ends it.
unfoldable pub active_tokens :
    Services → Sealing → Time → List SubscriptionToken → Result Text (List SubscriptionToken)
active_tokens srv seal now [] = ok []
active_tokens srv seal now (t ∷ ts) =
    let rest = active_tokens srv seal now ts in
    let push : SubscriptionToken → Result Text (List SubscriptionToken) =
      λ token. elim rest [ err e ↦ err e | ok tokens ↦ ok (token ∷ tokens) ] in
    if not (active_subscription_token t now)
    then rest
    else if str_eq t.encrypted_token []
    then push t
    else elim (decrypt_string_with_base64_key seal.decode seal.aead srv.cfg.database_encryption_key
        t.encrypted_token) [ err e ↦ err e | ok plain ↦ push (with_plain plain t) ]

unfoldable pub customer_subscription_tokens :
    Services → Sealing → Request → AccessClaims → Action (List SubscriptionToken)
customer_subscription_tokens srv seal req claims = elim (customer_id_from claims) [
  | none ↦ write_error 401 (codes "invalid bearer token")
  | some id ↦ call store_failure (list_subscription_tokens id) >>= λ tokens.
      or_server_error (codes "could not decrypt subscription token")
        (active_tokens srv seal req.now tokens)
]

-- `none` is a query without `fmt`.
unfoldable pub subscription_format : Option Text → Option Text
subscription_format none = some (codes "base64")
subscription_format (some fmt) =
    if str_eq fmt (codes "base64") || str_eq fmt (codes "v2ray")
    then some (codes "base64")
    else if str_eq fmt (codes "raw")
    then some (codes "raw")
    else none

abbrev pub expired_before : Option Time → Time → Bool
expired_before none now = false
expired_before (some at) now = ltb at now

abbrev pub subscription_not_found : Text
subscription_not_found = codes "subscription not found"

-- The part after the lookup of the token. What MarkSubscriptionUsed returns is dropped.
unfoldable pub serve_token : Request → Text → SubscriptionToken → Action Text
serve_token req format token = do
  require token.enabled 404 subscription_not_found
  require (not (expired_before token.expires_at req.now)) 403 (codes "subscription expired")
  data_of ← call store_failure (subscription_data token.customer_id)
  λ db.
      reply (build data_of.0 data_of.1 format req.now)
        (mark_subscription_used req.now token.id (client_ip req) req.user_agent db).1

-- `none` is a format that is not known.
unfoldable pub serve_formatted : Services → Request → Text → Option Text → Action Text
serve_formatted srv req token none = write_error 400 (codes "fmt must be base64 or raw")
serve_formatted srv req token (some format) =
    call (unless_found 404 subscription_not_found)
      (get_subscription_token_by_hash (token_digest srv.sha256 token))
    >>= serve_token req format

unfoldable pub get_subscription : Services → Request → Option Text → Text → Action Text
get_subscription srv req fmt token = serve_formatted srv req token (subscription_format fmt)
