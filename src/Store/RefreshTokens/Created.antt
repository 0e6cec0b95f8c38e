-- ===== src/Store/RefreshTokens/Created.antt =====
-- What the creation of a refresh token establishes, and when a rotation succeeds.
use proxy_control_plane.Base.{
  Text, Bool, true, false, ◌||◌, some, List, [], ◌∷◌, ◌++◌, ◌≡◌, refl, str_eq, str_eq_refl, any,
  arith, inl, inr, Result, ok, Result-cases,
}
use proxy_control_plane.Domain.{Time, AuthRefreshToken}
use proxy_control_plane.Store.{Error, Db, found, id_or_new, stamp}
use proxy_control_plane.Store.RefreshTokens.{
  insert_token, insert_checked, required_to_create, required_to_rotate, valid_principal,
  known_customer, create_auth_refresh_token, find_by_id, find_by_hash, is_usable, update_where,
  revoked, inherit, write_where, replace_checked, rotate_usable, rotate_tx,
  rotate_auth_refresh_token,
}

-- A row has the id or the hash.
abbrev pub taken : Text → Text → List AuthRefreshToken → Bool
taken id hash ts = any (λ t. str_eq t.id id || str_eq t.token_hash hash) ts

abbrev pub created_row : Time → AuthRefreshToken → Text → AuthRefreshToken
created_row now given k = record given {
  id = k;
  enabled = true;
  created_at = stamp now given.created_at;
  updated_at = stamp now given.updated_at;
}

pub record Created (now : Time) (given : AuthRefreshToken) (db : Db) (token : AuthRefreshToken)
    (after : Db) : Type 0 where
  pub new_id : Text
  pub token_eq : token ≡ created_row now given new_id
  pub after_eq : after ≡ record db { refresh_tokens = db.refresh_tokens ++ token ∷ [] }
  pub fresh : taken new_id given.token_hash db.refresh_tokens ≡ false
  pub known : known_customer given.customer_id db.customers ≡ true
  pub valid : valid_principal given ≡ true
  pub complete : required_to_create given ≡ true

pub create_inversion :
    (now : Time) (new_id : Result Error Text) (given : AuthRefreshToken) (db after : Db)
    (token : AuthRefreshToken)
    → create_auth_refresh_token now new_id given db ≡ (ok token, after)
    → Created now given db token after
unfolding create_auth_refresh_token insert_checked insert_token required_to_create valid_principal
create_inversion now new_id given db after token h =
    elim (Result-cases (id_or_new given.id new_id)) [
      | inr (x, n) ↦ absurd (ground arith)
      | inl (k, n) ↦ record {
        new_id = k;
        token_eq = ground arith;
        after_eq = ground arith;
        fresh = ground arith;
        known = ground arith;
        valid = ground arith;
        complete = ground arith;
      }
    ]

-- A row that is appended is found by its id and by its hash, where neither was taken.
pub find-append_new :
    (ts : List AuthRefreshToken) (t : AuthRefreshToken)
    → taken t.id t.token_hash ts ≡ false
    → (find_by_id t.id (ts ++ t ∷ []) ≡ some t)
      × (find_by_hash t.token_hash (ts ++ t ∷ []) ≡ some t)
unfolding find_by_id find_by_hash
find-append_new [] t h = (rw (str_eq_refl t.id) refl, rw (str_eq_refl t.token_hash) refl)
find-append_new (u ∷ ts) t h =
    let own = find-append_new ts t (ground arith) in (ground (arith, own), ground (arith, own))

taken-update :
    (id hash : Text) (p : AuthRefreshToken → Bool) (f : AuthRefreshToken → AuthRefreshToken)
    (ts : List AuthRefreshToken)
    → ((t : AuthRefreshToken) → ((f t).id ≡ t.id) × ((f t).token_hash ≡ t.token_hash))
    → taken id hash (update_where p f ts) ≡ taken id hash ts
unfolding update_where
taken-update id hash p f [] same = refl
taken-update id hash p f (t ∷ ts) same = ground (arith, same t, taken-update id hash p f ts same)

-- A usable token that is found is rotated, where the next one is complete and its id and hash are new.
pub rotate_succeeds :
    (clock : Time) (new_id : Result Error Text) (k : Text) (current given : AuthRefreshToken)
    (at : Time) (ip agent : Text) (db : Db)
    → new_id ≡ ok k
    → find_by_id current.id db.refresh_tokens ≡ some current
    → is_usable current ≡ true
    → given.id ≡ []
    → required_to_rotate given ≡ true
    → valid_principal (inherit current k given) ≡ true
    → known_customer (inherit current k given).customer_id db.customers ≡ true
    → taken k given.token_hash db.refresh_tokens ≡ false
    → (rotate_auth_refresh_token clock new_id current.id given at ip agent db).0
      ≡ ok (record (inherit current k given) {
        created_at = stamp clock given.created_at;
        updated_at = stamp clock given.updated_at;
      })
unfolding rotate_auth_refresh_token rotate_tx found rotate_usable id_or_new replace_checked
    required_to_rotate write_where insert_token inherit revoked
rotate_succeeds clock new_id k current given at ip agent db named there usable anew complete valid
      known fresh =
    ground (
      arith,
      taken-update k given.token_hash (λ t. str_eq t.id current.id)
          (λ t. record (revoked clock at ip agent t) { replaced_by_id = k }) db.refresh_tokens
          (λ t. (refl, refl)),
      str_eq_refl [],
    )
