-- ===== src/HttpApi/Subscriptions/Moves.antt =====
-- A rotation moves a subscription from the old token to the new one.
use proxy_control_plane.Base.{
  ℕ, any, find-passes, Bool-cases, Text, codes, false, Option, none, some, List, [], ◌∷◌, ◌≡◌, refl,
  ap, sym, ◌∙◌, arith, inl, inr, ok, err, Result-cases, Option-cases, str_eq, str_eq_iff,
  str_eq_refl,
}
use proxy_control_plane.Domain.{SubscriptionToken, AuditLog}
use proxy_control_plane.Store.{Db, found}
use proxy_control_plane.Store.Unique.{UniqueBy}
use proxy_control_plane.Store.Tokens
use proxy_control_plane.Store.Tokens.{
  find_token, find_token_by_hash, update_token, hash_taken, rehashed, write_audit,
  get_subscription_token_by_hash,
}
use proxy_control_plane.Store.Tokens.Rotate.{rotate_subscription_swaps, unless_id}
use proxy_control_plane.Store.Customers.{get_customer, find_customer}
use proxy_control_plane.Store.Accounts.{with_nodes}
use proxy_control_plane.Store.Listings.{subscription_data, list_proxy_accounts}
use proxy_control_plane.Security.Ids.{token_digest}
use proxy_control_plane.HttpApi.Action.{
  Action, store_failure, call, Services, Request, audit, ◌>>◌, reply,
}
use proxy_control_plane.HttpApi.Auth.Steps.{>>=-eq-ok, settle-eq-ok}
use proxy_control_plane.HttpApi.Subscriptions.Served.{
  answer, get_subscription-missing, get_subscription-found,
}
use proxy_control_plane.HttpApi.Subscriptions.{
  Sealing, or_server_error, sealed, with_plain, rotate_to, rotate_subscription_token,
  subscription_format, subscription_not_found, get_subscription,
}

-- Only the audit log has a new row.
audit_writes_log :
    (req : Request) (actor action metadata : Text) (db : Db)
    → (audit req actor action metadata db).1
      ≡ record db { audit_logs = (audit req actor action metadata db).1.audit_logs }
unfolding audit write_audit
audit_writes_log req actor action metadata db = elim (Result-cases req.audit_id) [
  | inl (k, e) ↦ ground (arith, e)
  | inr (x, e) ↦ ground (arith, e)
]

-- The row under an id does not have a hash that no row has.
found-other_hash :
    (id h : Text) (ts : List SubscriptionToken) (row : SubscriptionToken)
    → any (λ t. str_eq t.token_hash h) ts ≡ false
    → find_token id ts ≡ some row
    → str_eq row.token_hash h ≡ false
unfolding find_token
found-other_hash id h [] row no_row there = absurd (cc)
found-other_hash id h (t ∷ ts) row no_row there = ground (arith, found-other_hash id h ts row)

find-by_own_hash :
    (id : Text) (ts : List SubscriptionToken) (row : SubscriptionToken)
    → UniqueBy (λ t. t.token_hash) ts
    → find_token id ts ≡ some row
    → find_token_by_hash row.token_hash ts ≡ some row
unfolding find_token find_token_by_hash
find-by_own_hash id [] row u h = absurd (cc)
find-by_own_hash id (t ∷ ts) row (new, u) h = elim (Bool-cases (str_eq t.id id)) [
  | inl own ↦ ground (arith, own, h, str_eq_refl t.token_hash)
  | inr other ↦
      let there : find_token id ts ≡ some row = ground (arith, other, h) in
      ground (
        arith,
        found-other_hash id t.token_hash ts row new there,
        find-by_own_hash id ts row u there,
        str_eq_iff t.token_hash row.token_hash,
        str_eq_iff row.token_hash t.token_hash,
      )
]

find-rehashed :
    (id : Text) (f : SubscriptionToken → SubscriptionToken) (ts : List SubscriptionToken)
    (row : SubscriptionToken)
    → ((t : SubscriptionToken) → (f t).id ≡ t.id)
    → find_token id ts ≡ some row
    → find_token id (update_token id f ts) ≡ some (f row)
unfolding find_token update_token
find-rehashed id f [] row keeps h = absurd (cc)
find-rehashed id f (t ∷ ts) row keeps h = ground (arith, find-rehashed id f ts row keeps, keeps t)

-- The other tables decide what a token is answered with.
subscription_data_same :
    (id : Text) (db : Db) (tokens : List SubscriptionToken) (logs : List AuditLog)
    → (subscription_data id (record db { subscription_tokens = tokens; audit_logs = logs })).0
      ≡ (subscription_data id db).0
unfolding subscription_data get_customer list_proxy_accounts found with_nodes
subscription_data_same id db tokens logs = elim (Option-cases (find_customer id db.customers)) [
  | inl e ↦ rw e refl
  | inr (c, e) ↦ rw e refl
]

-- Nor do a new hash and the traces of use change it.
answer_same :
    (reader : Request) (format : Text) (now : ℕ) (hash sealed_token : Text) (t : SubscriptionToken)
    (db : Db) (tokens : List SubscriptionToken) (logs : List AuditLog)
    → answer reader format
        (rehashed now hash sealed_token t)
        (record db { subscription_tokens = tokens; audit_logs = logs })
      ≡ answer reader format t db
unfolding answer rehashed
answer_same reader format now hash sealed_token t db tokens logs =
    rw (subscription_data_same t.customer_id db tokens logs) refl

abbrev with_logs : List AuditLog → Db → Db
with_logs logs db = record db { audit_logs = logs }

id_of_found :
    (id : Text) (ts : List SubscriptionToken) (row : SubscriptionToken)
    → find_token id ts ≡ some row
    → row.id ≡ id
unfolding find_token
id_of_found id ts row h = (str_eq_iff row.id id).0 (find-passes (λ t. str_eq t.id id) ts row h)

unless_own_id : (id : Text) (t : SubscriptionToken) → t.id ≡ id → unless_id id (some t) ≡ none
unfolding unless_id
unless_own_id id t own = ground (arith, str_eq_iff t.id id)

-- What a rotation in the store makes of the tables and of the token.
store_rotation_lem :
    (now : ℕ) (id hash sealed_token : Text) (db mid : Db) (current row : SubscriptionToken)
    → Tokens.rotate_subscription_token now id hash sealed_token db ≡ (ok row, mid)
    → find_token id db.subscription_tokens ≡ some current
    → (row ≡ rehashed now hash sealed_token current)
      × (mid ≡ record db {
        subscription_tokens =
            update_token id (rehashed now hash sealed_token) db.subscription_tokens;
      })
unfolding Tokens.rotate_subscription_token Tokens.get_subscription_token found
store_rotation_lem now id hash sealed_token db mid current row h there =
    let moved =
      find-rehashed id (rehashed now hash sealed_token) db.subscription_tokens current
        (λ t. unfold rehashed in refl) there in
    (ground (arith, h, moved), ground (arith, h))

-- A rotation that succeeds, taken apart.
record Rotated (srv : Services) (req : Request) (id : Text) (db : Db) (token : SubscriptionToken)
    (after : Db) : Type 0 where
  pub raw : Text
  pub sealed_token : Text
  pub row : SubscriptionToken
  pub logs : List AuditLog
  pub mid : Db
  pub stored :
      Tokens.rotate_subscription_token req.now id (token_digest srv.sha256 raw) sealed_token db
      ≡ (ok row, mid)
  pub token_eq : token ≡ with_plain raw row
  pub after_eq : after ≡ record mid { audit_logs = logs }

module _ (srv : Services) (seal : Sealing) (req : Request) (actor id : Text) where
  rotate_to_inversion :
      (raw sealed_token : Text) (db after : Db) (token : SubscriptionToken)
      → rotate_to srv req actor id raw sealed_token db ≡ (ok token, after)
      → Rotated srv req id db token after
  unfolding rotate_to audit
  rotate_to_inversion raw sealed_token db after token h =
      let hash = token_digest srv.sha256 raw in
      let store : Action SubscriptionToken =
        call store_failure (Tokens.rotate_subscription_token req.now id hash sealed_token) in
      let (row, g, h1) =
        >>=-eq-ok store
          (λ t.
            audit req actor (codes "subscription_token.rotated") t.id >> reply (with_plain raw t))
          db after h in
      let logged =
        audit_writes_log req actor (codes "subscription_token.rotated") row.id (store db).1 in
      let stored = settle-eq-ok store_failure _ g in
      record {
        raw = raw;
        sealed_token = sealed_token;
        row = row;
        logs =
            (audit req actor (codes "subscription_token.rotated") row.id (store db).1).1.audit_logs;
        mid = (store db).1;
        stored = λ i. (stored i, (store db).1);
        token_eq = ground (arith, h1);
        after_eq = sym (ap (λ p. p.1) h1) ∙ logged;
      }

  rotate_inversion :
      (db after : Db) (token : SubscriptionToken)
      → rotate_subscription_token srv seal req actor id db ≡ (ok token, after)
      → Rotated srv req id db token after
  unfolding rotate_subscription_token or_server_error rotate_to audit
  rotate_inversion db after token h = elim (Result-cases req.random) [
    | inr (x, e) ↦ absurd (ground (arith, e, h))
    | inl (raw, e) ↦ elim (Result-cases (sealed srv seal raw)) [
      | inr (x, f) ↦ absurd (ground (arith, e, f, h))
      | inl (sealed_token, f) ↦ rotate_to_inversion raw sealed_token db after token (rw (e, f) at h)
    ]
  ]

  answer_after :
      (reader : Request) (format : Text) (db after : Db) (current token : SubscriptionToken)
      (r : Rotated srv req id db token after)
      → find_token id db.subscription_tokens ≡ some current
      → answer reader format r.row after ≡ answer reader format current db
  answer_after reader format db after current token r there =
      let hash = token_digest srv.sha256 r.raw in
      let stored =
        store_rotation_lem req.now id hash r.sealed_token db r.mid current r.row r.stored there in
      let tokens : List SubscriptionToken =
        update_token id (rehashed req.now hash r.sealed_token) db.subscription_tokens in
      let moved : Db = record db { subscription_tokens = tokens; audit_logs = r.logs } in
      ap (answer reader format r.row) (r.after_eq ∙ ap (with_logs r.logs) stored.1)
      ∙ (ap (λ t. answer reader format t moved) stored.0
          ∙ answer_same reader format req.now hash r.sealed_token current db tokens r.logs)

  -- After a rotation that succeeds, the token that the row had before is answered with 404, and the
  -- new token gets the answer that the old one got, whatever the format and the time of the request,
  -- where the hashes in the table are distinct and the two tokens have different digests.
  pub rotation_moves :
      (reader : Request) (fmt : Option Text) (format old : Text) (db after : Db)
      (current token : SubscriptionToken)
      → UniqueBy (λ t. t.token_hash) db.subscription_tokens
      → find_token id db.subscription_tokens ≡ some current
      → current.token_hash ≡ token_digest srv.sha256 old
      → rotate_subscription_token srv seal req actor id db ≡ (ok token, after)
      → str_eq (token_digest srv.sha256 old) (token_digest srv.sha256 token.plain_token) ≡ false
      → subscription_format fmt ≡ some format
      → (get_subscription srv reader fmt old after
          ≡ (err (record { status = 404; message = subscription_not_found }), after))
        × ((get_subscription srv reader fmt token.plain_token after).0
            ≡ (get_subscription srv reader fmt old db).0)
  rotation_moves reader fmt format old db after current token unique there owned h differs known =
      let r = rotate_inversion db after token h in
      let raw_eq : token.plain_token ≡ r.raw = ap (λ t. t.plain_token) r.token_eq in
      let differs' : str_eq (token_digest srv.sha256 old) (token_digest srv.sha256 r.raw) ≡ false =
        rw raw_eq at differs in
      let tokens_eq : after.subscription_tokens ≡ r.mid.subscription_tokens =
        ap (λ d. d.subscription_tokens) r.after_eq in
      let swaps =
        rotate_subscription_swaps req.now id (token_digest srv.sha256 r.raw) r.sealed_token db r.mid
          r.row r.stored (token_digest srv.sha256 old) unique differs' in
      let before : find_token_by_hash (token_digest srv.sha256 old) db.subscription_tokens
          ≡ some current =
        ap (λ k. find_token_by_hash k db.subscription_tokens) (sym owned)
        ∙ find-by_own_hash id db.subscription_tokens current unique there in
      let gone : find_token_by_hash (token_digest srv.sha256 old) after.subscription_tokens ≡ none =
        ap (find_token_by_hash (token_digest srv.sha256 old)) tokens_eq
        ∙ (swaps.1
            ∙ (ap (unless_id id) before
                ∙ unless_own_id id current
                    (id_of_found id db.subscription_tokens current there))) in
      let now_found : find_token_by_hash (token_digest srv.sha256 token.plain_token)
            after.subscription_tokens
          ≡ some r.row =
        ap (λ raw. find_token_by_hash (token_digest srv.sha256 raw) after.subscription_tokens)
          raw_eq
        ∙ (ap (find_token_by_hash (token_digest srv.sha256 r.raw)) tokens_eq ∙ swaps.0) in
      (
        get_subscription-missing srv reader fmt format old after known gone,
        get_subscription-found srv reader fmt format token.plain_token after known r.row now_found
            ∙ (answer_after reader format db after current token r there
                ∙ sym (get_subscription-found srv reader fmt format old db known current before)),
      )
