-- ===== src/HttpApi/Auth/Session.antt =====
-- Refreshing after a login.
use proxy_control_plane.Base.{
  Text, codes, true, false, none, some, List, [], ◌∷◌, ◌++◌, ◌≡◌, refl, ap, sym, ◌∙◌, arith, ok,
  trim_space, str_eq, str_eq_refl, if◌then◌else◌, ltb, find, any, pos, eqb,
}
use proxy_control_plane.Domain.{Time, AuthRefreshToken, Customer}
use proxy_control_plane.Store.{Db, found, stamp}
use proxy_control_plane.Store.Customers.{find_customer, get_customer}
use proxy_control_plane.Store.RefreshTokens.{
  get_auth_refresh_token_by_hash, find_by_hash, find_by_id, known_customer, valid_principal,
  required_to_create, required_to_rotate, is_usable, inherit,
}
use proxy_control_plane.Store.RefreshTokens.Created.{taken, find-append_new, rotate_succeeds}
use proxy_control_plane.Config.{access_token_ttl, refresh_token_ttl}
use proxy_control_plane.Security.AccessToken.{
  principal_type_customer, create_access_token, add_time, signed, signing_input, issued,
}
use proxy_control_plane.Security.Ids.{token_digest}
use proxy_control_plane.HttpApi.Action.{
  Services, Request, continue, settle, unless_found, client_ip,
}
use proxy_control_plane.HttpApi.Auth.{
  LoginRequest, customer_login, customer_can_login, refresh_usable, rotate_call, rotation_failure,
  with_status, reply_rotated, rotate_with, rotate_found, refresh_found, bad_refresh, refresh_with,
  refresh_principal, switch_principal, customer_principal, refresh_auth,
}
use proxy_control_plane.HttpApi.Auth.Tokens.{
  AuthPrincipal, AuthResponse, or_other, auth_response, response, fresh_token, auth_subject,
  customer_session_version,
}
use proxy_control_plane.HttpApi.Auth.Login.{Admitted, admit_inversion, login_inversion}

abbrev principal_of : Services → Customer → AuthPrincipal
principal_of srv customer = record {
  kind = principal_type_customer;
  email = customer.email;
  customer_id = customer.id;
  session_version = customer_session_version srv customer;
}

module _ (srv : Services) (req : Request) (customer : Customer) (token : AuthRefreshToken) (db : Db)
    (known : find_customer customer.id db.customers ≡ some customer)
    (active : customer_can_login customer req.now ≡ true)
    (secret : str_eq customer.password_hash [] ≡ false) where
  principal_lem :
      refresh_usable token req.now ≡ true
      → token.principal_type ≡ principal_type_customer
      → token.customer_id ≡ some customer.id
      → token.subject ≡ customer.id
      → token.session_version ≡ customer_session_version srv customer
      → refresh_principal srv req token db ≡ (ok (principal_of srv customer), db)
  unfolding refresh_principal switch_principal customer_principal get_customer found str_eq
  principal_lem usable kind owner subject version =
      rw
        (
          refresh_principal,
          usable,
          switch_principal,
          kind,
          owner,
          customer_principal,
          subject,
          str_eq_refl customer.id,
          known,
          active,
          secret,
          version,
          str_eq_refl (customer_session_version srv customer),
        )
        refl

access_lem :
    (srv : Services) (req : Request) (id email raw : Text) (at : Time) (db : Db)
    → str_eq id [] ≡ false
    → (resp : AuthResponse) × (auth_response srv req principal_type_customer id email raw at db
        ≡ (ok resp, db))
      × (resp.refresh_token ≡ raw)
      × (resp.principal.customer_id ≡ id)
unfolding auth_response create_access_token str_eq auth_subject or_other response
access_lem srv req id email raw at db named = (
  response srv principal_type_customer id email raw at (
      signed srv.hmac srv.cfg.secret_key (
        signing_input (
          srv.json.marshal (
            issued
              (record {
                subject = auth_subject principal_type_customer id;
                role = principal_type_customer;
                issued_at = pos 0;
                expires_at = pos 0;
              })
              req.now (access_token_ttl srv.cfg))))),
  rw (named, create_access_token) refl,
  refl,
  refl,
)

-- What a request to refresh has to come with, so that the token of the row can be replaced.
pub record CanRotate (srv : Services) (req : Request) (raw new_id : Text) (db : Db) : Type 0 where
  pub random_eq : req.random ≡ ok raw
  pub id_eq : req.new_id ≡ ok new_id
  pub fresh : taken new_id (token_digest srv.sha256 raw) db.refresh_tokens ≡ false
  pub hashed : str_eq (token_digest srv.sha256 raw) [] ≡ false
  pub dated : eqb (add_time req.now (refresh_token_ttl srv.cfg)) 0 ≡ false

any_of_find :
    (id : Text) (cs : List Customer) (c : Customer)
    → find_customer id cs ≡ some c
    → any (λ c. str_eq c.id id) cs ≡ true
unfolding find_customer
any_of_find id [] c h = absurd (cc)
any_of_find id (d ∷ cs) c h = ground (arith, any_of_find id cs c)

module _ (srv : Services) (req : Request) (customer : Customer) (current : AuthRefreshToken)
    (db : Db) (raw new_id : Text) (can : CanRotate srv req raw new_id db)
    (there : find_by_id current.id db.refresh_tokens ≡ some current)
    (usable : is_usable current ≡ true)
    (known : find_customer customer.id db.customers ≡ some customer)
    (named : str_eq customer.id [] ≡ false)
    (versioned : str_eq (customer_session_version srv customer) [] ≡ false) where
  rotated_lem :
      (next : AuthRefreshToken) × ((rotate_call srv req current
          (principal_of srv customer)
          raw
          db).0
        ≡ ok next)
  unfolding fresh_token required_to_rotate valid_principal inherit known_customer str_eq
  rotated_lem =
      let given =
        fresh_token srv req principal_type_customer customer.id
          (customer_session_version srv customer) raw in
      let next : AuthRefreshToken = record (inherit current new_id given) {
        created_at = stamp req.now given.created_at;
        updated_at = stamp req.now given.updated_at;
      } in
      let complete : required_to_rotate given ≡ true = rw (can.hashed, versioned, can.dated) refl in
      let valid : valid_principal (inherit current new_id given) ≡ true = rw named refl in
      let owner : known_customer (inherit current new_id given).customer_id db.customers ≡ true =
        rw named (any_of_find customer.id db.customers customer known) in
      (
        next,
        ap (settle rotation_failure) (
            rotate_succeeds req.now req.new_id new_id current given req.now (client_ip req)
              req.user_agent db can.id_eq there usable refl complete valid owner can.fresh),
      )

  rotate_found_lem :
      (resp : AuthResponse) × ((rotate_found srv req current (principal_of srv customer) db).0
        ≡ ok resp)
      × (resp.refresh_token ≡ raw)
      × (resp.principal.customer_id ≡ customer.id)
  unfolding rotate_found rotate_with reply_rotated or_other
  rotate_found_lem =
      let (next, e) = rotated_lem in
      let m = rotate_call srv req current (principal_of srv customer) raw in
      let (resp, f, g, k) =
        access_lem srv req customer.id customer.email raw next.expires_at (m db).1 named in
      (
        resp,
        ap
              (λ r.
                (continue (rotate_with srv req current (principal_of srv customer))
                  (settle (with_status 500 (codes "could not create refresh token")) (or_other r))
                  db).0)
              can.random_eq
            ∙ ap
                (λ r.
                  (continue (reply_rotated srv req (principal_of srv customer) raw) r (m db).1).0)
                e
            ∙ ap (λ r. settle (with_status 500 (codes "could not create access token")) r.0) f,
        g,
        k,
      )

-- The row of the token that a login has handed out.
record Session (srv : Services) (customer : Customer) (refresh_token : Text) (at : Time)
    (after : Db) : Type 0 where
  token : AuthRefreshToken
  by_hash : find_by_hash (token_digest srv.sha256 refresh_token) after.refresh_tokens ≡ some token
  by_id : find_by_id token.id after.refresh_tokens ≡ some token
  kind : token.principal_type ≡ principal_type_customer
  owner : token.customer_id ≡ some customer.id
  subject : token.subject ≡ customer.id
  version : token.session_version ≡ customer_session_version srv customer
  enabled : token.enabled ≡ true
  unrevoked : token.revoked_at ≡ none
  expiry : token.expires_at ≡ at
  named : str_eq customer.id [] ≡ false
  versioned : str_eq (customer_session_version srv customer) [] ≡ false

session_lem :
    (srv : Services) (req : Request) (customer : Customer) (db after : Db) (resp : AuthResponse)
    → Admitted srv req customer db resp after
    → Session srv customer resp.refresh_token resp.refresh_token_expires_at after
unfolding fresh_token auth_subject str_eq valid_principal required_to_create
session_lem srv req customer db after resp a =
    let row = a.issued.row in
    let token = a.issued.token in
    let t_eq = row.token_eq in
    let tokens : after.refresh_tokens ≡ db.refresh_tokens ++ token ∷ [] =
      a.tokens_eq ∙ ap (λ d. d.refresh_tokens) row.after_eq in
    let hash_eq : token.token_hash ≡ token_digest srv.sha256 a.issued.raw =
      ap (λ t. t.token_hash) t_eq in
    let fresh : taken token.id token.token_hash db.refresh_tokens ≡ false =
      ap (λ t. taken t.id t.token_hash db.refresh_tokens) t_eq ∙ row.fresh in
    let there = find-append_new db.refresh_tokens token fresh in
    let named : str_eq customer.id [] ≡ false = ground (arith, row.valid) in
    record {
      token = token;
      by_hash =
          ap (λ ts. find_by_hash (token_digest srv.sha256 resp.refresh_token) ts) tokens
          ∙ ap (λ k. find_by_hash k (db.refresh_tokens ++ token ∷ []))
              (ap (token_digest srv.sha256) a.issued.raw_eq ∙ sym hash_eq)
          ∙ there.1;
      by_id = ap (find_by_id token.id) tokens ∙ there.0;
      kind = ap (λ t. t.principal_type) t_eq;
      owner = ap (λ t. t.customer_id) t_eq ∙ ap (λ b. if b then none else some customer.id) named;
      subject = ap (λ t. t.subject) t_eq;
      version = ap (λ t. t.session_version) t_eq;
      enabled = ap (λ t. t.enabled) t_eq;
      unrevoked = ap (λ t. t.revoked_at) t_eq;
      expiry = sym a.issued.expiry_eq;
      named = named;
      versioned = ground (arith, row.complete);
    }

refresh_succeeds :
    (srv : Services) (req : Request) (customer : Customer) (rt : Text) (at : Time) (db : Db)
    (raw new_id : Text)
    → Session srv customer rt at db
    → find_customer customer.id db.customers ≡ some customer
    → customer_can_login customer req.now ≡ true
    → str_eq customer.password_hash [] ≡ false
    → ltb req.now at ≡ true
    → CanRotate srv req raw new_id db
    → (next : AuthResponse) × ((refresh_with srv req rt db).0 ≡ ok next)
      × (next.refresh_token ≡ raw)
      × (next.principal.customer_id ≡ customer.id)
unfolding refresh_with refresh_found get_auth_refresh_token_by_hash refresh_usable is_usable found
refresh_succeeds srv req customer rt at db raw new_id s known active secret live can =
    let t = s.token in
    let usable : is_usable t ≡ true = ground (arith, s.enabled, s.unrevoked) in
    let fit : refresh_usable t req.now ≡ true =
      ground (arith, s.enabled, s.unrevoked, s.expiry, live) in
    let (next, e, f, g) =
      rotate_found_lem srv req customer t db raw new_id can s.by_id usable known s.named
        s.versioned in
    let who =
      principal_lem srv req customer t db known active secret fit s.kind s.owner s.subject
        s.version in
    (
      next,
      ap
            (λ o.
              (continue (refresh_found srv req) (settle (unless_found 401 bad_refresh) (found o))
                db).0)
            s.by_hash
          ∙ ap (λ r. (continue (rotate_found srv req t) r.0 r.1).0) who
          ∙ e,
      f,
      g,
    )

-- After a login that was answered with a refresh token, which is not empty and has no space around it,
-- a request on the tables as the login left them, before the refresh token expires and at a time when
-- the customer may still log in, not being disabled or expired then, is answered with the next tokens
-- of the same customer, the new refresh token being its random bytes; provided that these and the new
-- id are new to the table, that the digest of the new token is not empty and its expiry is not the
-- zero time, and that the id and the e-mail of the customer find the same row.
pub refresh_after_login :
    (srv : Services) (req later : Request) (given : LoginRequest) (customer : Customer)
    (db after : Db) (resp : AuthResponse) (raw new_id : Text)
    → find (λ c. str_eq c.email given.email) db.customers ≡ some customer
    → find_customer customer.id db.customers ≡ some customer
    → customer_login srv req (some given) db ≡ (ok resp, after)
    → trim_space resp.refresh_token ≡ resp.refresh_token
    → str_eq resp.refresh_token [] ≡ false
    → customer_can_login customer later.now ≡ true
    → ltb later.now resp.refresh_token_expires_at ≡ true
    → CanRotate srv later raw new_id after
    → (next : AuthResponse) × ((refresh_auth srv later (some resp.refresh_token) after).0 ≡ ok next)
      × (next.refresh_token ≡ raw)
      × (next.principal.customer_id ≡ customer.id)
unfolding refresh_auth
refresh_after_login srv req later given customer db after resp raw new_id by_email by_id h trimmed
      filled active live can =
    let (secret, admitted) = login_inversion srv req given customer db after resp by_email h in
    let a = admit_inversion srv req customer db after resp admitted in
    let s = session_lem srv req customer db after resp a in
    let customers : after.customers ≡ db.customers =
      a.customers_eq ∙ ap (λ d. d.customers) a.issued.row.after_eq in
    let (next, e, f, g) =
      refresh_succeeds srv later customer resp.refresh_token resp.refresh_token_expires_at after raw
        new_id s (ap (find_customer customer.id) customers ∙ by_id) active secret live can in
    (next, step resp.refresh_token trimmed filled ∙ e, f, g)
  where
    step :
        (rt : Text)
        → trim_space rt ≡ rt
        → str_eq rt [] ≡ false
        → (refresh_auth srv later (some rt) after).0 ≡ (refresh_with srv later rt after).0
    step rt t f = rw (t, f) refl
