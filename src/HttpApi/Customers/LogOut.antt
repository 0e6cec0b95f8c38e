-- ===== src/HttpApi/Customers/LogOut.antt =====
-- A change of a customer's credentials ends the sessions of the customer.
use proxy_control_plane.Base.{
  Text, codes, Bool, true, false, ◌||◌, some, List, [], ◌∷◌, ◌≡◌, refl, ap, sym, ◌∙◌, arith, inl,
  inr, Result, ok, err, Result-cases, Option-cases, str_eq, str_eq_iff, str_eq_refl, trim_space,
  if◌then◌else◌,
}
use proxy_control_plane.Domain.{Time, Customer, AuthRefreshToken}
use proxy_control_plane.Store.{Db, found}
use proxy_control_plane.Store.Customers
use proxy_control_plane.Store.Customers.{find_customer}
use proxy_control_plane.Store.RefreshTokens.{
  find_by_hash, of_customer, revoked, revoke_customer_auth_refresh_tokens,
  revoke_auth_refresh_tokens, TokenOp, run_token_ops, principal_type_customer,
}
use proxy_control_plane.Store.RefreshTokens.Rotation.{find_by_hash-update}
use proxy_control_plane.Store.RefreshTokens.Spent.{IsSpentHash, run_token_ops-IsSpentHash}
use proxy_control_plane.Security.Ids.{token_digest}
use proxy_control_plane.HttpApi.Action.{
  Action, reply, ◌>>◌, store_failure, call, Services, Request, audit, client_ip,
}
use proxy_control_plane.HttpApi.Auth.{refresh_auth, bad_refresh}
use proxy_control_plane.HttpApi.Auth.Steps.{>>=-eq-ok, settle-eq-ok, found-eq-ok}
use proxy_control_plane.HttpApi.Auth.Login.{audit_keeps}
use proxy_control_plane.HttpApi.Auth.Once.{spent_refused}
use proxy_control_plane.HttpApi.Patch.{Json, Fields, patch_customer_session_reset}
use proxy_control_plane.HttpApi.Customers.{
  ends_sessions, reset_session_epoch, patch_columns, login_enabled, with_epoch, end_sessions,
  save_patched, patch_customer, update_customer,
}

id_of_found :
    (id : Text) (cs : List Customer) (c : Customer) → find_customer id cs ≡ some c → c.id ≡ id
unfolding find_customer
id_of_found id [] c h = absurd (cc)
id_of_found id (d ∷ cs) c h = ground (arith, id_of_found id cs c, str_eq_iff d.id id)

store_update_lem :
    (now : Time) (given updated : Customer) (db after : Db)
    → Customers.update_customer now given db ≡ (ok updated, after)
    → (updated.id ≡ given.id) × (after.refresh_tokens ≡ db.refresh_tokens)
unfolding Customers.update_customer Customers.get_customer Customers.save_customer found
store_update_lem now given updated db after h =
    elim (Option-cases (find_customer given.id db.customers)) [
      | inl e ↦ absurd (ground (arith, e))
      | inr (current, e) ↦
          (ground (arith, e, id_of_found given.id after.customers updated), ground (arith, e))
    ]

-- A token of the customer is spent by the revocation.
revocation-IsSpentHash :
    (clock : Time) (id hash : Text) (at : Time) (ip agent : Text) (db : Db)
    (token : AuthRefreshToken)
    → find_by_hash hash db.refresh_tokens ≡ some token
    → token.principal_type ≡ principal_type_customer
    → token.customer_id ≡ some id
    → IsSpentHash hash (revoke_customer_auth_refresh_tokens clock id at ip agent db).1
unfolding revoke_customer_auth_refresh_tokens revoke_auth_refresh_tokens of_customer revoked
revocation-IsSpentHash clock id hash at ip agent db token there kind owner = record {
  row = if of_customer id token then revoked clock at ip agent token else token;
  there =
      rw
        (
          find_by_hash-update hash (of_customer id) (revoked clock at ip agent) db.refresh_tokens
              (λ t. refl),
          there,
        )
        refl;
  gone = ground (arith, kind, owner, str_eq_refl id, str_eq_refl principal_type_customer);
}

same_tokens :
    (hash : Text) (db db' : Db)
    → db'.refresh_tokens ≡ db.refresh_tokens
    → IsSpentHash hash db
    → IsSpentHash hash db'
same_tokens hash db db' e s = record {
  row = s.row;
  there = ap (find_by_hash hash) e ∙ s.there;
  gone = s.gone;
}

module _ (srv : Services) (req : Request) (actor : Text) where
  save_patched_lem :
      (old : Bool) (hash : Text) (patched updated : Customer) (db after : Db)
      (token : AuthRefreshToken)
      → save_patched req actor old true patched db ≡ (ok updated, after)
      → find_by_hash hash db.refresh_tokens ≡ some token
      → token.principal_type ≡ principal_type_customer
      → token.customer_id ≡ some patched.id
      → IsSpentHash hash after
  unfolding save_patched end_sessions revoke_customer_auth_refresh_tokens revoke_auth_refresh_tokens
      audit
  save_patched_lem old hash patched updated db after token h there kind owner =
      let store : Action Customer =
        call store_failure (Customers.update_customer req.now patched) in
      let (row, e, h1) =
        >>=-eq-ok store
          (λ u.
            end_sessions req u.id true
            >> (audit req actor (codes "customer.updated") u.id >> reply u))
          db after h in
      let stored = settle-eq-ok store_failure _ e in
      let facts =
        store_update_lem req.now patched row db (store db).1 (λ i. (stored i, (store db).1)) in
      let spent =
        revocation-IsSpentHash req.now row.id hash req.now (client_ip req) req.user_agent
          (store db).1 token (ap (find_by_hash hash) facts.1 ∙ there) kind
          (owner ∙ ap some (sym facts.0)) in
      let mid : Db =
        (revoke_customer_auth_refresh_tokens req.now row.id req.now (client_ip req) req.user_agent
          (store db).1).1 in
      let written = audit_keeps req actor (codes "customer.updated") row.id mid in
      same_tokens hash mid after (sym (ap (λ p. p.1.refresh_tokens) h1) ∙ written.0) spent

  patch_columns-id :
      (json : Json) (salt : Result Text Text) (fields : Fields) (current patched : Customer)
      → patch_columns srv json salt fields current ≡ ok patched
      → patched.id ≡ current.id
  unfolding patch_columns
  patch_columns-id json salt fields current patched h = ground arith

  with_epoch-id :
      (reset : Bool) (epoch : Result Text Text) (given patched : Customer)
      → with_epoch reset epoch given ≡ ok patched
      → patched.id ≡ given.id
  unfolding with_epoch reset_session_epoch
  with_epoch-id reset epoch given patched h = ground arith

  patch_customer_lem :
      (json : Json) (salt epoch : Result Text Text) (fields : Fields) (hash : Text)
      (current updated : Customer) (db after : Db) (token : AuthRefreshToken)
      → ends_sessions fields ≡ true
      → patch_customer srv json req actor salt epoch fields current db ≡ (ok updated, after)
      → find_by_hash hash db.refresh_tokens ≡ some token
      → token.principal_type ≡ principal_type_customer
      → token.customer_id ≡ some current.id
      → IsSpentHash hash after
  unfolding patch_customer
  patch_customer_lem json salt epoch fields hash current updated db after token ends h there kind
        owner =
      elim (Result-cases (patch_columns srv json salt fields current)) [
        | inr (x, e) ↦ absurd (ground (arith, e))
        | inl (patched, e) ↦ elim (Result-cases (patch_customer_session_reset json fields)) [
          | inr (x, f) ↦ absurd (ground (arith, e, f))
          | inl (asked, f) ↦
              let reset : (asked || ends_sessions fields) ≡ true = ground arith in
              elim (Result-cases (with_epoch true epoch patched)) [
                | inr (x, g) ↦ absurd (ground (arith, e, f, reset, g))
                | inl (customer, g) ↦
                    let own : customer.id ≡ current.id =
                      with_epoch-id true epoch patched customer g
                      ∙ patch_columns-id json salt fields current patched e in
                    save_patched_lem (login_enabled current req.now) hash customer updated db after
                      token (ground (arith, e, f, reset, g)) there kind (owner ∙ ap some (sym own))
              ]
        ]
      ]

-- After an update of a customer that succeeds and names the e-mail, the password, the status or the
-- expiry, whatever operations on refresh tokens follow, a request with a refresh token that the
-- customer had before is answered with 401 and changes nothing.
pub update_logs_out :
    (srv : Services) (req later : Request) (json : Json) (actor id given : Text)
    (salt epoch : Result Text Text) (fields : Fields) (updated : Customer) (db after : Db)
    (token : AuthRefreshToken) (ops : List TokenOp)
    → update_customer srv json req actor id salt epoch (some fields) db ≡ (ok updated, after)
    → ends_sessions fields ≡ true
    → find_by_hash (token_digest srv.sha256 (trim_space given)) db.refresh_tokens ≡ some token
    → token.principal_type ≡ principal_type_customer
    → token.customer_id ≡ some id
    → str_eq (trim_space given) [] ≡ false
    → refresh_auth srv later (some given) (run_token_ops ops after)
      ≡ (err (record { status = 401; message = bad_refresh }), run_token_ops ops after)
unfolding update_customer refresh_auth Customers.get_customer
update_logs_out srv req later json actor id given salt epoch fields updated db after token ops h
      ends there kind owner filled =
    let hash = token_digest srv.sha256 (trim_space given) in
    let (current, e, h1) =
      >>=-eq-ok (call store_failure (Customers.get_customer id))
        (λ current. patch_customer srv json req actor salt epoch fields current) db after h in
    let own =
      id_of_found id db.customers current
        (found-eq-ok (find_customer id db.customers) (settle-eq-ok store_failure _ e)) in
    let spent =
      patch_customer_lem srv req actor json salt epoch fields hash current updated db after token
        ends h1 there kind (owner ∙ ap some (sym own)) in
    rw filled (
      spent_refused srv later (trim_space given) (run_token_ops ops after)
        (run_token_ops-IsSpentHash hash ops after spent))
