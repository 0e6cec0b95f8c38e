-- ===== src/Store/RefreshTokens/Table.antt =====
-- The invariant of the table of refresh tokens, and that every operation keeps it.
use proxy_control_plane.Base.{
  Text, Bool, true, ◌||◌, Option, none, some, List, [], ◌∷◌, ◌≡◌, refl, map, All, All-append,
  str_eq, if◌then◌else◌, arith, Bool-cases, inl, inr, any, Result, is_some,
}
use proxy_control_plane.Domain.{Time, AuthRefreshToken}
use proxy_control_plane.Store.{Error, invalid, Db, Exec, found, id_or_new, ◌>>◌, guard}
use proxy_control_plane.Store.Steps.{lift_keeps, guard_keeps, settle_keeps}
use proxy_control_plane.Store.Unique.{UniqueBy, UniqueBy-append_one, UniqueBy-map, All-map, any-or}
use proxy_control_plane.Store.RefreshTokens.{
  create_auth_refresh_token, insert_token, known_customer, required_to_create, required_to_rotate,
  is_usable, insert_checked, replace_checked, rotate_usable, valid_principal, find_by_id,
  find_by_hash, update_where, write_where, revoked, inherit, rotate_tx, rotate_auth_refresh_token,
  revoke_found, revoke_auth_refresh_token_by_hash, revoke_auth_refresh_tokens,
  revoke_customer_auth_refresh_tokens, revoke_admin_auth_refresh_tokens, TokenOp, create, rotate,
  revoke, revoke_customer, revoke_admin, run_token_op, run_token_ops,
}

-- Each row belongs to an admin or to a customer, and no id and no hash stands twice.
pub record IsSound (db : Db) : Type 0 where
  pub principals : All (λ t. valid_principal t ≡ true) db.refresh_tokens
  pub ids : UniqueBy (λ t. t.id) db.refresh_tokens
  pub hashes : UniqueBy (λ t. t.token_hash) db.refresh_tokens

pub update_where_lem :
    (p : AuthRefreshToken → Bool) (f : AuthRefreshToken → AuthRefreshToken)
    (ts : List AuthRefreshToken)
    → update_where p f ts ≡ map (λ t. if p t then f t else t) ts
unfolding update_where
update_where_lem p f [] = refl
update_where_lem p f (t ∷ ts) = rw (update_where_lem p f ts) refl

insert-IsSound :
    (now : Time) (t : AuthRefreshToken) (db : Db)
    → valid_principal t ≡ true
    → IsSound db
    → IsSound (insert_token now t db).1
unfolding insert_token valid_principal
insert-IsSound now t db valid s =
    elim (Bool-cases
      (any (λ u. str_eq u.id t.id || str_eq u.token_hash t.token_hash) db.refresh_tokens)) [
        | inl taken ↦ rw taken s
        | inr free ↦
            let (new_id, new_hash) =
              any-or (λ u. str_eq u.id t.id) (λ u. str_eq u.token_hash t.token_hash)
                db.refresh_tokens free in
            elim (Bool-cases (known_customer t.customer_id db.customers)) [
              | inr missing ↦ rw (free, missing) s
              | inl known ↦
                  rw (free, known)
                    (record {
                      principals =
                          All-append (λ u. valid_principal u ≡ true) db.refresh_tokens _
                            s.principals (valid, tt);
                      ids = UniqueBy-append_one (λ u. u.id) db.refresh_tokens _ new_id s.ids;
                      hashes =
                          UniqueBy-append_one (λ u. u.token_hash) db.refresh_tokens _ new_hash
                            s.hashes;
                    })
            ]
      ]

-- The columns that an update must leave alone.
record IsHarmless (f : AuthRefreshToken → AuthRefreshToken) : Type 0 where
  id : (t : AuthRefreshToken) → (f t).id ≡ t.id
  hash : (t : AuthRefreshToken) → (f t).token_hash ≡ t.token_hash
  principal : (t : AuthRefreshToken) → valid_principal (f t) ≡ valid_principal t

update-IsSound :
    (p : AuthRefreshToken → Bool) (f : AuthRefreshToken → AuthRefreshToken) (db : Db)
    → IsHarmless f
    → IsSound db
    → IsSound (record db { refresh_tokens = update_where p f db.refresh_tokens })
update-IsSound p f db h s =
    let g : AuthRefreshToken → AuthRefreshToken = λ t. if p t then f t else t in
    let same_id : (t : AuthRefreshToken) → (g t).id ≡ t.id = λ t. ground (arith, h.id t) in
    let same_hash : (t : AuthRefreshToken) → (g t).token_hash ≡ t.token_hash =
      λ t. ground (arith, h.hash t) in
    rw (update_where_lem p f db.refresh_tokens) (record {
      principals = All-map g (λ t v. ground (arith, h.principal t)) db.refresh_tokens s.principals;
      ids = UniqueBy-map (λ t. t.id) g db.refresh_tokens same_id s.ids;
      hashes = UniqueBy-map (λ t. t.token_hash) g db.refresh_tokens same_hash s.hashes;
    })

revoked-IsHarmless : (now at : Time) (ip agent : Text) → IsHarmless (revoked now at ip agent)
unfolding revoked valid_principal
revoked-IsHarmless now at ip agent = record {
  id = λ t. refl;
  hash = λ t. refl;
  principal = λ t. refl;
}

replaced-IsHarmless :
    (now at : Time) (ip agent k : Text)
    → IsHarmless (λ t. record (revoked now at ip agent t) { replaced_by_id = k })
unfolding revoked valid_principal
replaced-IsHarmless now at ip agent k = record {
  id = λ t. refl;
  hash = λ t. refl;
  principal = λ t. refl;
}

create-IsSound :
    (now : Time) (new_id : Result Error Text) (t : AuthRefreshToken) (db : Db)
    → IsSound db
    → IsSound (create_auth_refresh_token now new_id t db).1
unfolding create_auth_refresh_token insert_checked
create-IsSound now new_id t db s =
    lift_keeps IsSound (id_or_new t.id new_id)
      (λ k. insert_checked now (record t { id = k; enabled = true })) db s
      λ k.
        let row : AuthRefreshToken = record t { id = k; enabled = true } in
        guard_keeps IsSound (required_to_create row) invalid
          (guard (valid_principal row) invalid >> insert_token now row) db s
          λ h.
            guard_keeps IsSound (valid_principal row) invalid (insert_token now row) db s
              λ valid. insert-IsSound now row db valid s

module _ (now : Time) (at : Time) (ip agent : Text) where
  replace_checked-IsSound :
      (current next : AuthRefreshToken) (db : Db)
      → IsSound db
      → IsSound (replace_checked now current next at ip agent db).1
  unfolding replace_checked write_where
  replace_checked-IsSound current next db s =
      let write : Exec AuthRefreshToken =
        write_where (λ t. str_eq t.id current.id)
          (λ t. record (revoked now at ip agent t) { replaced_by_id = next.id })
        >> insert_token now next in
      guard_keeps IsSound (required_to_rotate next) invalid
        (guard (valid_principal next) invalid >> write) db s
        λ h. guard_keeps IsSound (valid_principal next) invalid write db s λ valid.
          insert-IsSound now next _ valid
            (update-IsSound _ _ db (replaced-IsHarmless now at ip agent next.id) s)

  rotate-IsSound :
      (new_id : Result Error Text) (id : Text) (next : AuthRefreshToken) (db : Db)
      → IsSound db
      → IsSound (rotate_auth_refresh_token now new_id id next at ip agent db).1
  unfolding rotate_auth_refresh_token rotate_tx rotate_usable
  rotate-IsSound new_id id next db s = settle_keeps IsSound db _ _ s (
      lift_keeps IsSound (found (find_by_id id db.refresh_tokens))
        (λ current.
          guard (is_usable current) invalid >> rotate_usable now new_id current next at ip agent)
        db s
        λ current.
          guard_keeps IsSound (is_usable current) invalid
            (rotate_usable now new_id current next at ip agent) db s
            λ usable.
              lift_keeps IsSound (id_or_new next.id new_id)
                (λ k. replace_checked now current (inherit current k next) at ip agent) db s
                λ k. replace_checked-IsSound current (inherit current k next) db s)

  revoke-IsSound :
      (hash : Text) (db : Db)
      → IsSound db
      → IsSound (revoke_auth_refresh_token_by_hash now hash at ip agent db).1
  unfolding revoke_auth_refresh_token_by_hash write_where
  revoke-IsSound hash db s =
      settle_keeps IsSound db _ _ s (go (find_by_hash hash db.refresh_tokens))
    where
      go : (o : Option AuthRefreshToken) → IsSound (revoke_found now at ip agent o db).1
      go none = s
      go (some t) = elim (Bool-cases (is_some t.revoked_at)) [
        | inl e ↦ rw e s
        | inr e ↦ rw e (update-IsSound _ _ db (revoked-IsHarmless now at ip agent) s)
      ]

run_token_op-IsSound : (op : TokenOp) (db : Db) → IsSound db → IsSound (run_token_op op db)
unfolding revoke_customer_auth_refresh_tokens revoke_admin_auth_refresh_tokens
    revoke_auth_refresh_tokens
run_token_op-IsSound (create now new_id t) db s = create-IsSound now new_id t db s
run_token_op-IsSound (rotate now new_id k next at ip agent) db s =
    rotate-IsSound now at ip agent new_id k next db s
run_token_op-IsSound (revoke now hash at ip agent) db s = revoke-IsSound now at ip agent hash db s
run_token_op-IsSound (revoke_customer now k at ip agent) db s =
    update-IsSound _ _ db (revoked-IsHarmless now at ip agent) s
run_token_op-IsSound (revoke_admin now at ip agent) db s =
    update-IsSound _ _ db (revoked-IsHarmless now at ip agent) s

-- Whatever sequence of token operations runs, failing ones included, each refresh token belongs to an
-- admin without a customer or to a customer that it names, and no two have one id or one hash.
pub run_token_ops-IsSound :
    (ops : List TokenOp) (db : Db) → IsSound db → IsSound (run_token_ops ops db)
run_token_ops-IsSound [] db s = s
run_token_ops-IsSound (op ∷ ops) db s =
    run_token_ops-IsSound ops (run_token_op op db) (run_token_op-IsSound op db s)
