-- ===== src/HttpApi/Subscriptions/Tests.antt =====
-- Runs of the handlers for subscriptions.
use proxy_control_plane.Base.{
  Text, codes, true, false, none, some, Option, List, [], ◌∷◌, ◌≡◌, refl, Result, ok, err, str_eq,
  any, trim_space, trim_left, trim_right, is_space,
}
use proxy_control_plane.Base
use proxy_control_plane.Domain.{SubscriptionToken, ProxyNode, ProxyAccount}
use proxy_control_plane.Store.{Db, found}
use proxy_control_plane.Store.Samples.{sample_node}
use proxy_control_plane.Store.Tokens
use proxy_control_plane.Store.Tokens.{
  find_token, find_token_by_hash, update_token, hash_taken, rehashed, write_audit,
}
use proxy_control_plane.Store.Customers.{find_customer}
use proxy_control_plane.Security.Ids.{token_digest}
use proxy_control_plane.Security.RawUrl.{hex_encode, hex_lower}
use proxy_control_plane.Security.Encryption.{encrypt_string_with_base64_key}
use proxy_control_plane.Config.{parse_database_encryption_key}
use proxy_control_plane.Subscription.{join_lines, is_active}
use proxy_control_plane.Subscription.Lines.{lists}
use proxy_control_plane.Domain.{customer_status_is_active}
use proxy_control_plane.HttpApi.Action.{Failure, audit}
use proxy_control_plane.HttpApi.Samples.{services, customer, request, IsDone, value_or, done}
use proxy_control_plane.HttpApi.Samples
use proxy_control_plane.HttpApi.Subscriptions.{
  Sealing, or_server_error, rotate_to, rotate_subscription_token, subscription_format,
  subscription_not_found, get_subscription,
}
use proxy_control_plane.HttpApi.Subscriptions.Moves.{rotation_moves}
use proxy_control_plane.HttpApi.Subscriptions.Links.{links_account, subscription_lists_iff}

-- What a run computes with.
running : Unit {0}
unfolding rotate_subscription_token or_server_error encrypt_string_with_base64_key
    parse_database_encryption_key trim_space trim_left trim_right is_space str_eq rotate_to
    Tokens.rotate_subscription_token Tokens.get_subscription_token hash_taken find_token
    update_token rehashed found audit token_digest hex_encode hex_lower subscription_format
    find_token_by_hash find_customer
running = tt

abbrev sealing : Sealing
sealing = record {
  aead = record {
    nonce_size = 12;
    seal = λ key nonce text. text;
    unseal = λ key nonce text. some text;
  };
  decode = λ text. ok text;
  nonce = ok [];
}

abbrev token : SubscriptionToken
token = record {
  id = codes "s1";
  customer_id = codes "c1";
  name = [];
  token_hash = codes "7431";
  encrypted_token = [];
  enabled = true;
  expires_at = some 900;
  created_at = 1;
  updated_at = 1;
  last_used_at = none;
  last_used_ip = [];
  last_used_user_agent = [];
  plain_token = [];
}

abbrev node : ProxyNode
node = record (sample_node "n") { id = codes "n1"; protocol = codes "vless" }

abbrev account : ProxyAccount
account = record {
  id = codes "a1";
  customer_id = codes "c1";
  protocol = codes "vless";
  uuid = codes "u";
  email_tag = codes "e";
  flow = [];
  enabled = true;
  expires_at = none;
  traffic_limit_bytes = none;
  node_ids = none;
  nodes = [];
  created_at = 1;
  updated_at = 1;
}

abbrev tables : Db
tables = record Samples.db {
  subscription_tokens = token ∷ [];
  nodes = node ∷ [];
  accounts = account ∷ [];
  bindings = record { proxy_account_id = codes "a1"; proxy_node_id = codes "n1" } ∷ [];
}

rotated : Result Failure SubscriptionToken × Db
rotated =
    rotate_subscription_token services sealing (request 5 (codes "t2") []) (codes "admin")
      (codes "s1") tables

rotated-IsDone : IsDone rotated.0
unfolding running rotated
rotated-IsDone = tt

rotation_moves_example :
    (get_subscription services (request 9 [] []) none (codes "t1") rotated.1
      ≡ (err (record { status = 404; message = subscription_not_found }), rotated.1))
    × ((get_subscription services
          (request 9 [] [])
          none
          (value_or token rotated.0).plain_token
          rotated.1).0
        ≡ (get_subscription services (request 9 [] []) none (codes "t1") tables).0)
unfolding running rotated
rotation_moves_example =
    rotation_moves services sealing (request 5 (codes "t2") []) (codes "admin") (codes "s1")
      (request 9 [] []) none (codes "base64") (codes "t1") tables rotated.1 token
      (value_or token rotated.0) (refl, tt) refl refl (done token rotated rotated-IsDone) refl refl

subscription_lists_iff_example :
    (lines : List Text) × ((get_subscription services
        (request 9 [] [])
        (some (codes "raw"))
        (codes "t1")
        tables).0
      ≡ ok (join_lines lines))
    × ((line : Text)
        → lists line lines
          ≡ Base.◌&&◌
              (Base.◌&&◌ (customer_status_is_active (codes "active")) (is_active none 9))
              (any (links_account tables customer 9 line) (account ∷ [])))
unfolding running
subscription_lists_iff_example =
    subscription_lists_iff services (request 9 [] []) (some (codes "raw")) (codes "raw")
      (codes "t1") tables token customer refl refl refl refl refl
