-- ===== src/Store/RefreshTokens/Revoke.antt =====
-- What revoking all tokens of a customer does to that customer's tokens and to the others.
use proxy_control_plane.Base.{
  ap, ◌∙◌, ◌≢◌, ◌⊎◌, inl, inr, none, Bool-cases, Option-cases, str_eq_iff, Text, true, false, some,
  List, ◌≡◌, refl, str_eq, str_eq_refl, if◌then◌else◌, arith, Result, err,
}
use proxy_control_plane.Domain.{Time, AuthRefreshToken}
use proxy_control_plane.Store.{Error, invalid, Db}
use proxy_control_plane.Store.RefreshTokens.{
  find_by_id, revoked, of_customer, rotate_auth_refresh_token, revoke_auth_refresh_tokens,
  revoke_customer_auth_refresh_tokens, principal_type_customer, TokenOp, run_token_ops,
}
use proxy_control_plane.Store.RefreshTokens.Rotation.{find_by_id-update}
use proxy_control_plane.Store.RefreshTokens.Once.{IsSpent, run_token_ops-IsSpent, spent_refused}

not_of_customer :
    (customer_id : Text) (t : AuthRefreshToken)
    → (t.customer_id ≢ some customer_id)
      ⊎ ((t.principal_type ≢ principal_type_customer) ⊎ (t.revoked_at ≢ none))
    → of_customer customer_id t ≡ false
unfolding of_customer
not_of_customer customer_id t (inl other) = elim (Option-cases t.customer_id) [
  | inl n ↦ ground (arith, n)
  | inr (c, s) ↦ elim (Bool-cases (str_eq c customer_id)) [
    | inl e ↦ absurd (other (s ∙ ap some ((str_eq_iff c customer_id).0 e)))
    | inr e ↦ ground (arith, s, e)
  ]
]
not_of_customer customer_id t (inr (inl other)) =
    elim (Bool-cases (str_eq t.principal_type principal_type_customer)) [
      | inl e ↦ absurd (other ((str_eq_iff t.principal_type principal_type_customer).0 e))
      | inr e ↦ ground (arith, e)
    ]
not_of_customer customer_id t (inr (inr other)) = elim (Option-cases t.revoked_at) [
  | inl n ↦ absurd (other n)
  | inr (at, s) ↦ ground (arith, s)
]

module _ (clock : Time) (customer_id : Text) (at : Time) (ip agent : Text) (db : Db) (id : Text)
    (t : AuthRefreshToken) where
  abbrev after_revoke : Db
  after_revoke = (revoke_customer_auth_refresh_tokens clock customer_id at ip agent db).1

  row_after :
      find_by_id id db.refresh_tokens ≡ some t
      → find_by_id id after_revoke.refresh_tokens
        ≡ some (if of_customer customer_id t then revoked clock at ip agent t else t)
  unfolding revoke_customer_auth_refresh_tokens revoke_auth_refresh_tokens revoked
  row_after there =
      rw
        (
          find_by_id-update id (of_customer customer_id) (revoked clock at ip agent)
              db.refresh_tokens (λ u. refl),
          there,
        )
        refl

  -- The token is spent, whether it was revoked before or is now.
  revoked_row :
      str_eq t.principal_type principal_type_customer ≡ true
      → t.customer_id ≡ some customer_id
      → find_by_id id db.refresh_tokens ≡ some t
      → IsSpent id after_revoke
  unfolding of_customer revoked
  revoked_row kind owner there = record {
    row = if of_customer customer_id t then revoked clock at ip agent t else t;
    there = row_after there;
    revoked = ground (arith, kind, owner, str_eq_refl customer_id);
  }

  -- Revoking the tokens of a customer leaves the token of an id as it is, where the token is of another
  -- customer or of none, or not of a customer at all, or was revoked before.
  pub revoke_customer_spares :
      find_by_id id db.refresh_tokens ≡ some t
      → (t.customer_id ≢ some customer_id)
        ⊎ ((t.principal_type ≢ principal_type_customer) ⊎ (t.revoked_at ≢ none))
      → find_by_id id after_revoke.refresh_tokens ≡ some t
  revoke_customer_spares there other =
      let spared : of_customer customer_id t ≡ false = not_of_customer customer_id t other in
      rw spared at (row_after there)

-- Once the tokens of a customer are revoked, no token that the customer had can be rotated again,
-- whatever token operations follow: the rotation is refused as invalid and changes nothing.
pub revoke_customer_ends :
    (clock : Time) (customer_id : Text) (at : Time) (ip agent : Text) (db : Db) (id : Text)
    (t : AuthRefreshToken) (ops : List TokenOp) (later : Time) (new_id : Result Error Text)
    (next : AuthRefreshToken) (later_at : Time) (later_ip later_agent : Text)
    → str_eq t.principal_type principal_type_customer ≡ true
    → t.customer_id ≡ some customer_id
    → find_by_id id db.refresh_tokens ≡ some t
    → rotate_auth_refresh_token later new_id id next later_at later_ip later_agent
        (run_token_ops ops (revoke_customer_auth_refresh_tokens clock customer_id at ip agent db).1)
      ≡ (
        err invalid,
        run_token_ops ops (revoke_customer_auth_refresh_tokens clock customer_id at ip agent db).1,
      )
revoke_customer_ends clock customer_id at ip agent db id t ops later new_id next later_at later_ip
      later_agent kind owner there =
    spent_refused id later new_id next later_at later_ip later_agent _ (
      run_token_ops-IsSpent id ops _
        (revoked_row clock customer_id at ip agent db id t kind owner there))
