-- ===== src/HttpApi/Auth/Login.antt =====
-- What a login that is answered with tokens has done.
use proxy_control_plane.Base.{
  Text, codes, false, some, [], ◌∷◌, ◌++◌, ◌≡◌, ap, sym, ◌∙◌, arith, inl, inr, ok, Result-cases,
  str_eq, find,
}
use proxy_control_plane.Domain.{AuthRefreshToken, Customer}
use proxy_control_plane.Store.{Db, found}
use proxy_control_plane.Store.Customers.{get_customer_by_email}
use proxy_control_plane.Store.Tokens.{write_audit}
use proxy_control_plane.Store.RefreshTokens.{create_auth_refresh_token}
use proxy_control_plane.Store.RefreshTokens.Created.{Created, create_inversion}
use proxy_control_plane.Security.AccessToken.{principal_type_customer}
use proxy_control_plane.HttpApi.Action.{Services, Request, audit}
use proxy_control_plane.HttpApi.Auth.{
  LoginRequest, admit_customer, login_customer, customer_login, customer_matches,
}
use proxy_control_plane.HttpApi.Auth.Tokens.{
  AuthResponse, or_other, auth_response, response, fresh_token, issue_auth_tokens,
  customer_session_version,
}

pub audit_keeps :
    (req : Request) (actor action metadata : Text) (db : Db)
    → ((audit req actor action metadata db).1.refresh_tokens ≡ db.refresh_tokens)
      × ((audit req actor action metadata db).1.customers ≡ db.customers)
unfolding audit write_audit
audit_keeps req actor action metadata db = elim (Result-cases req.audit_id) [
  | inl (k, e) ↦ ground (arith, e)
  | inr (x, e) ↦ ground (arith, e)
]

-- What was issued, and the row that was written for it.
pub record Issued (srv : Services) (req : Request) (kind customer_id session_version : Text)
    (db : Db) (resp : AuthResponse) (after : Db) : Type 0 where
  pub raw : Text
  pub token : AuthRefreshToken
  pub row :
      Created req.now (fresh_token srv req kind customer_id session_version raw) db token after
  pub raw_eq : resp.refresh_token ≡ raw
  pub expiry_eq : resp.refresh_token_expires_at ≡ token.expires_at

issue_inversion :
    (srv : Services) (req : Request) (kind customer_id email session_version : Text) (db after : Db)
    (resp : AuthResponse)
    → issue_auth_tokens srv req kind customer_id email session_version db ≡ (ok resp, after)
    → Issued srv req kind customer_id session_version db resp after
unfolding issue_auth_tokens auth_response or_other response
issue_inversion srv req kind customer_id email session_version db after resp h =
    elim (Result-cases req.random) [
      | inr (x, e) ↦ absurd (ground (arith, e))
      | inl (raw, e) ↦
          let given = fresh_token srv req kind customer_id session_version raw in
          elim (Result-cases (create_auth_refresh_token req.now req.new_id given db).0) [
            | inr (x, f) ↦ absurd (ground (arith, e, f))
            | inl (token, f) ↦
                let same : (create_auth_refresh_token req.now req.new_id given db).1 ≡ after =
                  ground (arith, e, f) in
                record {
                  raw = raw;
                  token = token;
                  row =
                      create_inversion req.now req.new_id given db after token (λ i. (f i, same i));
                  raw_eq = ground (arith, e, f);
                  expiry_eq = ground (arith, e, f);
                }
          ]
    ]

-- The tables after a login: a new token is there, and the customers are as before.
pub record Admitted (srv : Services) (req : Request) (customer : Customer) (db : Db)
    (resp : AuthResponse) (after : Db) : Type 0 where
  pub mid : Db
  pub issued :
      Issued srv req principal_type_customer customer.id
        (customer_session_version srv customer)
        db
        resp
        mid
  pub tokens_eq : after.refresh_tokens ≡ mid.refresh_tokens
  pub customers_eq : after.customers ≡ mid.customers

pub admit_inversion :
    (srv : Services) (req : Request) (customer : Customer) (db after : Db) (resp : AuthResponse)
    → admit_customer srv req customer db ≡ (ok resp, after)
    → Admitted srv req customer db resp after
unfolding admit_customer
admit_inversion srv req customer db after resp h =
    let m =
      issue_auth_tokens srv req principal_type_customer customer.id customer.email
        (customer_session_version srv customer) in
    elim (Result-cases (m db).0) [
      | inr (x, e) ↦ absurd (ground (arith, e))
      | inl (r, e) ↦
          let keeps =
            audit_keeps req (principal_type_customer ++ (b':' ∷ customer.id))
              (codes "auth.customer_login") customer.id (m db).1 in
          let same : r ≡ resp = ground (arith, e) in
          let last : (audit req (principal_type_customer ++ (b':' ∷ customer.id))
                (codes "auth.customer_login") customer.id (m db).1).1
              ≡ after =
            ground (arith, e) in
          record {
            mid = (m db).1;
            issued =
                issue_inversion srv req principal_type_customer customer.id customer.email
                  (customer_session_version srv customer) db (m db).1 resp
                  (λ i. ((e ∙ ap (λ a. ok a) same) i, (m db).1));
            tokens_eq = sym (ap (λ d. d.refresh_tokens) last) ∙ keeps.0;
            customers_eq = sym (ap (λ d. d.customers) last) ∙ keeps.1;
          }
    ]

pub login_inversion :
    (srv : Services) (req : Request) (given : LoginRequest) (customer : Customer) (db after : Db)
    (resp : AuthResponse)
    → find (λ c. str_eq c.email given.email) db.customers ≡ some customer
    → customer_login srv req (some given) db ≡ (ok resp, after)
    → (str_eq customer.password_hash [] ≡ false)
      × (admit_customer srv req customer db ≡ (ok resp, after))
unfolding customer_login get_customer_by_email found login_customer customer_matches
login_inversion srv req given customer db after resp e h = (ground (arith, e), ground (arith, e))
