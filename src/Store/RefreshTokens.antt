-- ===== src/Store/RefreshTokens.antt =====
-- The refresh tokens of internal/store/store.go.
pub mod Rotation
pub mod Kept
pub mod Spent
pub mod Created
pub mod Once
pub mod Table
pub mod Revoke
pub mod Live
mod Tests
use proxy_control_plane.Base.{
  ℕ, ◌+◌, Text, codes, Bool, true, false, not, ◌&&◌, ◌||◌, Option, none, some, List, [], ◌∷◌, ◌++◌,
  find, any, keep, length, str_eq, if◌then◌else◌, Result, ok, err, eqb, is_some,
}
use proxy_control_plane.Domain.{Time, Customer, AuthRefreshToken}
use proxy_control_plane.Store.{
  Error, not_found, conflict, invalid, Db, Exec, pure, raise, lift, found, id_or_new, stamp,
  continue, ◌>>=◌, ◌>>◌, guard, transaction,
}

abbrev pub principal_type_admin : Text
principal_type_admin = codes "admin"

abbrev pub principal_type_customer : Text
principal_type_customer = codes "customer"

-- The checks on the principal that both writers of a token make.
unfoldable pub valid_principal : AuthRefreshToken → Bool
valid_principal token =
    (str_eq token.principal_type principal_type_admin
      || str_eq token.principal_type principal_type_customer)
    && (not (str_eq token.principal_type principal_type_customer && not (is_some token.customer_id))
        && not (str_eq token.principal_type principal_type_admin && is_some token.customer_id))

-- The foreign key: a customer that is named exists.
unfoldable pub known_customer : Option Text → List Customer → Bool
known_customer none customers = true
known_customer (some id) customers = any (λ c. str_eq c.id id) customers

-- INSERT: the primary key, the unique index on the hash, and the foreign key.
unfoldable pub insert_token : Time → AuthRefreshToken → Exec AuthRefreshToken
insert_token now token db =
    let row = record token {
      created_at = stamp now token.created_at;
      updated_at = stamp now token.updated_at;
    } in
    if any (λ t. str_eq t.id token.id || str_eq t.token_hash token.token_hash) db.refresh_tokens
    then (err conflict, db)
    else if not (known_customer token.customer_id db.customers)
    then (err invalid, db)
    else (ok row, record db { refresh_tokens = db.refresh_tokens ++ row ∷ [] })

unfoldable pub required_to_create : AuthRefreshToken → Bool
required_to_create token = not (
    str_eq token.principal_type []
    || (str_eq token.subject []
        || (str_eq token.session_version []
            || (str_eq token.token_hash [] || eqb token.expires_at 0))))

-- The checks of `CreateAuthRefreshToken` and the INSERT behind them.
unfoldable pub insert_checked : Time → AuthRefreshToken → Exec AuthRefreshToken
insert_checked now token = do
  guard (required_to_create token) invalid
  guard (valid_principal token) invalid
  insert_token now token

unfoldable pub create_auth_refresh_token :
    Time → Result Error Text → AuthRefreshToken → Exec AuthRefreshToken
create_auth_refresh_token now new_id given = do
  id ← lift (id_or_new given.id new_id)
  insert_checked now (record given { id = id; enabled = true })

unfoldable pub find_by_id : Text → List AuthRefreshToken → Option AuthRefreshToken
find_by_id id ts = find (λ t. str_eq t.id id) ts

unfoldable pub find_by_hash : Text → List AuthRefreshToken → Option AuthRefreshToken
find_by_hash token_hash ts = find (λ t. str_eq t.token_hash token_hash) ts

unfoldable pub get_auth_refresh_token_by_hash : Text → Exec AuthRefreshToken
get_auth_refresh_token_by_hash token_hash db =
    (found (find_by_hash token_hash db.refresh_tokens), db)

-- UPDATE of the rows that pass a test.
unfoldable pub update_where :
    (AuthRefreshToken → Bool)
    → (AuthRefreshToken → AuthRefreshToken)
    → List AuthRefreshToken
    → List AuthRefreshToken
update_where p f [] = []
update_where p f (t ∷ ts) = (if p t then f t else t) ∷ update_where p f ts

unfoldable pub count_where : (AuthRefreshToken → Bool) → List AuthRefreshToken → ℕ
count_where p [] = 0
count_where p (t ∷ ts) = (if p t then 1 else 0) + count_where p ts

-- The columns that every revocation sets. GORM's Updates sets `updated_at` as well.
unfoldable pub revoked : Time → Time → Text → Text → AuthRefreshToken → AuthRefreshToken
revoked clock at ip user_agent token = record token {
  enabled = false;
  updated_at = clock;
  last_used_at = some at;
  last_used_ip = ip;
  last_used_user_agent = user_agent;
  revoked_at = some at;
}

-- What the next token takes over from the current one.
unfoldable pub inherit : AuthRefreshToken → Text → AuthRefreshToken → AuthRefreshToken
inherit current id next = record next {
  id = id;
  principal_type =
      if str_eq next.principal_type [] then current.principal_type else next.principal_type;
  subject = if str_eq next.subject [] then current.subject else next.subject;
  customer_id = elim next.customer_id [ none ↦ current.customer_id | some c ↦ some c ];
  enabled = true;
}

unfoldable pub write_where :
    (AuthRefreshToken → Bool) → (AuthRefreshToken → AuthRefreshToken) → Exec (Unit {0})
write_where p f db = (ok tt, record db { refresh_tokens = update_where p f db.refresh_tokens })

unfoldable pub required_to_rotate : AuthRefreshToken → Bool
required_to_rotate next =
    not (str_eq next.token_hash [] || (str_eq next.session_version [] || eqb next.expires_at 0))

unfoldable pub is_usable : AuthRefreshToken → Bool
is_usable token = token.enabled && not (is_some token.revoked_at)

-- The checks on the next token, and the UPDATE and the INSERT behind them.
unfoldable pub replace_checked :
    Time → AuthRefreshToken → AuthRefreshToken → Time → Text → Text → Exec AuthRefreshToken
replace_checked clock current next used_at ip user_agent = do
  guard (required_to_rotate next) invalid
  guard (valid_principal next) invalid
  write_where (λ t. str_eq t.id current.id)
      (λ t. record (revoked clock used_at ip user_agent t) { replaced_by_id = next.id })
  insert_token clock next

unfoldable pub rotate_usable :
    Time
    → Result Error Text
    → AuthRefreshToken
    → AuthRefreshToken
    → Time
    → Text
    → Text
    → Exec AuthRefreshToken
rotate_usable clock new_id current given used_at ip user_agent = do
  id ← lift (id_or_new given.id new_id)
  replace_checked clock current (inherit current id given) used_at ip user_agent

-- The function that `RotateAuthRefreshToken` runs in its transaction.
unfoldable pub rotate_tx :
    Time → Result Error Text → Text → AuthRefreshToken → Time → Text → Text → Exec AuthRefreshToken
rotate_tx clock new_id current_id given used_at ip user_agent = do
  current ← λ db. (found (find_by_id current_id db.refresh_tokens), db)
  guard (is_usable current) invalid
  rotate_usable clock new_id current given used_at ip user_agent

unfoldable pub rotate_auth_refresh_token :
    Time → Result Error Text → Text → AuthRefreshToken → Time → Text → Text → Exec AuthRefreshToken
rotate_auth_refresh_token clock new_id current_id next used_at ip user_agent =
    transaction (rotate_tx clock new_id current_id next used_at ip user_agent)

abbrev pub revoke_found : Time → Time → Text → Text → Option AuthRefreshToken → Exec (Unit {0})
revoke_found clock at ip user_agent none = pure tt
revoke_found clock at ip user_agent (some token) =
    if is_some token.revoked_at
    then pure tt
    else write_where (λ t. str_eq t.id token.id) (revoked clock at ip user_agent)

-- An unknown hash is no error.
unfoldable pub revoke_auth_refresh_token_by_hash :
    Time → Text → Time → Text → Text → Exec (Unit {0})
revoke_auth_refresh_token_by_hash clock token_hash at ip user_agent =
    transaction
      λ db. revoke_found clock at ip user_agent (find_by_hash token_hash db.refresh_tokens) db

-- `revokeAuthRefreshTokens`: the count is that of the rows the query selects.
unfoldable pub revoke_auth_refresh_tokens :
    Time → Time → Text → Text → (AuthRefreshToken → Bool) → Exec ℕ
revoke_auth_refresh_tokens clock at ip user_agent query db = (
  ok (count_where query db.refresh_tokens),
  record db {
    refresh_tokens = update_where query (revoked clock at ip user_agent) db.refresh_tokens;
  },
)

unfoldable pub of_customer : Text → AuthRefreshToken → Bool
of_customer customer_id t =
    str_eq t.principal_type principal_type_customer
    && (elim t.customer_id [ none ↦ false | some c ↦ str_eq c customer_id ]
        && not (is_some t.revoked_at))

unfoldable pub of_admin : AuthRefreshToken → Bool
of_admin t = str_eq t.principal_type principal_type_admin && not (is_some t.revoked_at)

unfoldable pub revoke_customer_auth_refresh_tokens : Time → Text → Time → Text → Text → Exec ℕ
revoke_customer_auth_refresh_tokens clock customer_id at ip user_agent =
    revoke_auth_refresh_tokens clock at ip user_agent (of_customer customer_id)

unfoldable pub revoke_admin_auth_refresh_tokens : Time → Time → Text → Text → Exec ℕ
revoke_admin_auth_refresh_tokens clock at ip user_agent =
    revoke_auth_refresh_tokens clock at ip user_agent of_admin

-- The operations of the store that write refresh tokens.
pub data TokenOp : Type 0 where
  create : Time → Result Error Text → AuthRefreshToken → TokenOp
  rotate : Time → Result Error Text → Text → AuthRefreshToken → Time → Text → Text → TokenOp
  revoke : Time → Text → Time → Text → Text → TokenOp
  revoke_customer : Time → Text → Time → Text → Text → TokenOp
  revoke_admin : Time → Time → Text → Text → TokenOp

abbrev pub run_token_op : TokenOp → Db → Db
run_token_op (create now new_id token) db = (create_auth_refresh_token now new_id token db).1
run_token_op (rotate now new_id id next at ip agent) db =
    (rotate_auth_refresh_token now new_id id next at ip agent db).1
run_token_op (revoke now hash at ip agent) db =
    (revoke_auth_refresh_token_by_hash now hash at ip agent db).1
run_token_op (revoke_customer now id at ip agent) db =
    (revoke_customer_auth_refresh_tokens now id at ip agent db).1
run_token_op (revoke_admin now at ip agent) db =
    (revoke_admin_auth_refresh_tokens now at ip agent db).1

abbrev pub run_token_ops : List TokenOp → Db → Db
run_token_ops [] db = db
run_token_ops (op ∷ ops) db = run_token_ops ops (run_token_op op db)
