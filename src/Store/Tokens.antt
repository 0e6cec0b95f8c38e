-- ===== src/Store/Tokens.antt =====
-- The subscription tokens and the audit log of internal/store/store.go.
pub mod Rotate
mod Tests
use proxy_control_plane.Base.{
  ℕ, Text, codes, Bool, true, false, not, ◌&&◌, ◌||◌, Option, none, some, List, [], ◌∷◌, ◌++◌, map,
  find, any, str_eq, if◌then◌else◌, Result, ok, err,
}
use proxy_control_plane.Domain.{Time, Customer, ProxyAccount, SubscriptionToken, AuditLog}
use proxy_control_plane.Store.{
  Error, not_found, conflict, Db, Exec, pure, lift, found, id_or_new, stamp, continue, ◌>>=◌, ◌>>◌,
}
use proxy_control_plane.Store.Customers.{get_customer}

unfoldable pub find_token : Text → List SubscriptionToken → Option SubscriptionToken
find_token id ts = find (λ t. str_eq t.id id) ts

unfoldable pub find_token_by_hash : Text → List SubscriptionToken → Option SubscriptionToken
find_token_by_hash token_hash ts = find (λ t. str_eq t.token_hash token_hash) ts

unfoldable pub get_subscription_token : Text → Exec SubscriptionToken
get_subscription_token id db = (found (find_token id db.subscription_tokens), db)

unfoldable pub get_subscription_token_by_hash : Text → Exec SubscriptionToken
get_subscription_token_by_hash token_hash db =
    (found (find_token_by_hash token_hash db.subscription_tokens), db)

-- INSERT: the primary key and the unique index on the hash. The foreign key was read before.
unfoldable pub insert_subscription_token : Time → SubscriptionToken → Exec SubscriptionToken
insert_subscription_token now token db =
    let row = record token {
      created_at = stamp now token.created_at;
      updated_at = stamp now token.updated_at;
    } in
    if any (λ t. str_eq t.id token.id || str_eq t.token_hash token.token_hash)
      db.subscription_tokens
    then (err conflict, db)
    else (ok row, record db { subscription_tokens = db.subscription_tokens ++ row ∷ [] })

unfoldable pub create_subscription_token :
    Time → Result Error Text → SubscriptionToken → Exec SubscriptionToken
create_subscription_token now new_id given = do
  customer ← get_customer given.customer_id
  id ← lift (id_or_new given.id new_id)
  let name = if str_eq given.name [] then codes "default" else given.name
  insert_subscription_token now (record given { id = id; name = name })

-- UPDATE … WHERE id = ?
unfoldable pub update_token :
    Text → (SubscriptionToken → SubscriptionToken) → List SubscriptionToken → List SubscriptionToken
update_token id f [] = []
update_token id f (t ∷ ts) = (if str_eq t.id id then f t else t) ∷ update_token id f ts

-- Another row has the hash.
unfoldable pub hash_taken : Text → Text → List SubscriptionToken → Bool
hash_taken id token_hash ts = any (λ t. not (str_eq t.id id) && str_eq t.token_hash token_hash) ts

unfoldable pub save_subscription_token : Time → SubscriptionToken → Exec SubscriptionToken
save_subscription_token now token db =
    let row = record token { updated_at = now } in
    if hash_taken token.id token.token_hash db.subscription_tokens then (err conflict, db) else (
      ok row,
      record db { subscription_tokens = update_token token.id (λ t. row) db.subscription_tokens },
    )

unfoldable pub update_subscription_token : Time → SubscriptionToken → Exec SubscriptionToken
update_subscription_token now token = do
  current ← get_subscription_token token.id
  row ← save_subscription_token now token
  get_subscription_token token.id

-- The columns that a rotation sets. GORM's Updates sets `updated_at` as well.
unfoldable pub rehashed : Time → Text → Text → SubscriptionToken → SubscriptionToken
rehashed now token_hash encrypted_token t = record t {
  token_hash = token_hash;
  encrypted_token = encrypted_token;
  last_used_at = none;
  last_used_ip = [];
  last_used_user_agent = [];
  updated_at = now;
}

unfoldable pub rotate_subscription_token : Time → Text → Text → Text → Exec SubscriptionToken
rotate_subscription_token now id token_hash encrypted_token db =
    if not (any (λ t. str_eq t.id id) db.subscription_tokens)
    then (err not_found, db)
    else if hash_taken id token_hash db.subscription_tokens
    then (err conflict, db)
    else get_subscription_token id (record db {
      subscription_tokens =
          update_token id (rehashed now token_hash encrypted_token) db.subscription_tokens;
    })

unfoldable pub used : Time → Text → Text → SubscriptionToken → SubscriptionToken
used now ip user_agent t = record t {
  last_used_at = some now;
  last_used_ip = ip;
  last_used_user_agent = user_agent;
  updated_at = now;
}

-- No row with the id is no error.
unfoldable pub mark_subscription_used : Time → Text → Text → Text → Exec (Unit {0})
mark_subscription_used now id ip user_agent db = (
  ok tt,
  record db {
    subscription_tokens = update_token id (used now ip user_agent) db.subscription_tokens;
  },
)

-- `metadata_json` is the text that WriteAudit makes of its argument, an error of json.Marshal included.
unfoldable pub write_audit :
    Time → Result Error Text → Text → Text → Result Error Text → Exec (Unit {0})
write_audit now new_id actor action metadata_json = do
  id ← lift new_id
  metadata ← lift metadata_json
  λ db. if any (λ a. str_eq a.id id) db.audit_logs then (err conflict, db) else (
    ok tt,
    record db {
      audit_logs =
          db.audit_logs
          ++ record {
            id = id;
            actor = actor;
            action = action;
            metadata_json = metadata;
            created_at = now;
          }
            ∷ [];
    },
  )
