-- ===== src/Store/RefreshTokens/Rotation.antt =====
-- Finding a token by its id, and all that a rotation that succeeds has established.
use mathlib.Core.Option
use proxy_control_plane.Base.{
  find, Text, Bool, true, false, ◌||◌, some, List, [], ◌∷◌, ◌++◌, ◌≡◌, refl, str_eq, str_eq_iff,
  if◌then◌else◌, arith, Option-cases, inl, inr, Result, ok, Result-cases, any,
}
use proxy_control_plane.Domain.{Time, AuthRefreshToken}
use proxy_control_plane.Store.{Error, Db, found, id_or_new, stamp}
use proxy_control_plane.Store.RefreshTokens.{
  insert_token, is_usable, replace_checked, rotate_usable, valid_principal, find_by_id,
  find_by_hash, update_where, write_where, revoked, inherit, rotate_tx, rotate_auth_refresh_token,
}

-- The first row whose key is the given one.
module _ (key : AuthRefreshToken → Text) (k : Text) where
  find-append :
      (ts : List AuthRefreshToken) (r t : AuthRefreshToken)
      → find (λ u. str_eq (key u) k) ts ≡ some t
      → find (λ u. str_eq (key u) k) (ts ++ r ∷ []) ≡ some t
  find-append [] r t h = cc
  find-append (u ∷ ts) r t h = ground (arith, find-append ts r t)

  find-update :
      (p : AuthRefreshToken → Bool) (f : AuthRefreshToken → AuthRefreshToken)
      (ts : List AuthRefreshToken)
      → ((t : AuthRefreshToken) → key (f t) ≡ key t)
      → find (λ u. str_eq (key u) k) (update_where p f ts)
        ≡ Option.map (λ t. if p t then f t else t) (find (λ u. str_eq (key u) k) ts)
  unfolding update_where
  find-update p f [] same = refl
  find-update p f (t ∷ ts) same = ground (arith, find-update p f ts same, same t)

pub find_by_id-append :
    (id : Text) (ts : List AuthRefreshToken) (r t : AuthRefreshToken)
    → find_by_id id ts ≡ some t
    → find_by_id id (ts ++ r ∷ []) ≡ some t
unfolding find_by_id
find_by_id-append = find-append (λ t. t.id)

-- An update that keeps the ids shows in the row that is found.
pub find_by_id-update :
    (id : Text) (p : AuthRefreshToken → Bool) (f : AuthRefreshToken → AuthRefreshToken)
    (ts : List AuthRefreshToken)
    → ((t : AuthRefreshToken) → (f t).id ≡ t.id)
    → find_by_id id (update_where p f ts)
      ≡ Option.map (λ t. if p t then f t else t) (find_by_id id ts)
unfolding find_by_id
find_by_id-update = find-update (λ t. t.id)

pub find_by_hash-append :
    (hash : Text) (ts : List AuthRefreshToken) (r t : AuthRefreshToken)
    → find_by_hash hash ts ≡ some t
    → find_by_hash hash (ts ++ r ∷ []) ≡ some t
unfolding find_by_hash
find_by_hash-append = find-append (λ t. t.token_hash)

pub find_by_hash-update :
    (hash : Text) (p : AuthRefreshToken → Bool) (f : AuthRefreshToken → AuthRefreshToken)
    (ts : List AuthRefreshToken)
    → ((t : AuthRefreshToken) → (f t).token_hash ≡ t.token_hash)
    → find_by_hash hash (update_where p f ts)
      ≡ Option.map (λ t. if p t then f t else t) (find_by_hash hash ts)
unfolding find_by_hash
find_by_hash-update = find-update (λ t. t.token_hash)

pub id_of_found :
    (id : Text) (ts : List AuthRefreshToken) (t : AuthRefreshToken)
    → find_by_id id ts ≡ some t
    → t.id ≡ id
unfolding find_by_id
id_of_found id [] t h = cc
id_of_found id (u ∷ ts) t h = ground (arith, id_of_found id ts t, str_eq_iff u.id id)

module _ (now : Time) (new_id : Result Error Text) (id : Text) (given : AuthRefreshToken)
    (at : Time) (ip agent : Text) (db : Db) where
  abbrev pub rotated_row : AuthRefreshToken → Text → AuthRefreshToken
  rotated_row current k =
      let next = inherit current k given in
      record next { created_at = stamp now next.created_at; updated_at = stamp now next.updated_at }

  abbrev pub tokens_after : AuthRefreshToken → Text → List AuthRefreshToken
  tokens_after current k =
      update_where (λ t. str_eq t.id current.id)
        (λ t. record (revoked now at ip agent t) { replaced_by_id = k }) db.refresh_tokens

  -- All that a successful rotation has established.
  pub record Rotated (token : AuthRefreshToken) (after : Db) : Type 0 where
    pub current : AuthRefreshToken
    pub next_id : Text
    pub there : find_by_id id db.refresh_tokens ≡ some current
    pub usable : is_usable current ≡ true
    pub valid : valid_principal (inherit current next_id given) ≡ true
    pub fresh :
        any
          (λ t.
            str_eq t.id next_id || str_eq t.token_hash (inherit current next_id given).token_hash)
          (tokens_after current next_id)
        ≡ false
    pub token_eq : token ≡ rotated_row current next_id
    pub tokens_eq : after.refresh_tokens ≡ tokens_after current next_id ++ token ∷ []

  pub rotate_inversion :
      {token : AuthRefreshToken} {after : Db}
      → rotate_auth_refresh_token now new_id id given at ip agent db ≡ (ok token, after)
      → Rotated token after
  unfolding rotate_auth_refresh_token rotate_tx rotate_usable replace_checked write_where
      insert_token found inherit
  rotate_inversion {token} {after} h = elim (Option-cases (find_by_id id db.refresh_tokens)) [
    | inl e ↦ absurd (ground arith)
    | inr (c, e) ↦ elim (Result-cases (id_or_new given.id new_id)) [
      | inr (x, n) ↦ absurd (ground arith)
      | inl (k, n) ↦ record {
        current = c;
        next_id = k;
        there = e;
        usable = ground arith;
        valid = ground arith;
        fresh = ground arith;
        token_eq = ground arith;
        tokens_eq = ground arith;
      }
    ]
  ]
