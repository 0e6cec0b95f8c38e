-- ===== src/Store/Tokens/Tests.antt =====
-- A run of a rotation of a subscription token.
use proxy_control_plane.Base.{String, codes, true, false, none, [], ◌∷◌, ◌≡◌, refl, str_eq, ok}
use proxy_control_plane.Domain.{SubscriptionToken}
use proxy_control_plane.Store.{Db, found}
use proxy_control_plane.Store.Unique.{UniqueBy}
use proxy_control_plane.Store.Samples.{empty_db}
use proxy_control_plane.Store.Tokens.{
  find_token, find_token_by_hash, get_subscription_token, update_token, hash_taken, rehashed,
  rotate_subscription_token,
}

-- What a run computes with.
running : Unit {0}
unfolding find_token find_token_by_hash get_subscription_token update_token hash_taken rehashed
    rotate_subscription_token found str_eq
running = tt

abbrev token : String → String → SubscriptionToken
token id hash = record {
  id = codes id;
  customer_id = codes "c1";
  name = codes "default";
  token_hash = codes hash;
  encrypted_token = codes "e";
  enabled = true;
  expires_at = none;
  created_at = 1;
  updated_at = 1;
  last_used_at = none;
  last_used_ip = [];
  last_used_user_agent = [];
  plain_token = [];
}

abbrev before : Db
before = record empty_db { subscription_tokens = token "s1" "h1" ∷ token "s2" "h2" ∷ [] }

abbrev rotated : SubscriptionToken
rotated = record (token "s1" "h3") { encrypted_token = codes "f"; updated_at = 6 }

abbrev after : Db
after = record empty_db { subscription_tokens = rotated ∷ token "s2" "h2" ∷ [] }

run : rotate_subscription_token 6 (codes "s1") (codes "h3") (codes "f") before ≡ (ok rotated, after)
unfolding running
run = refl

unique_hashes : UniqueBy (λ t. t.token_hash) before.subscription_tokens
unfolding running
unique_hashes = (refl, (refl, tt))

other_hash : str_eq (codes "h1") (codes "h3") ≡ false
unfolding running
other_hash = refl
