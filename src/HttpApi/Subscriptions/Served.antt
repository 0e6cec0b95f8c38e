-- ===== src/HttpApi/Subscriptions/Served.antt =====
-- What a subscription answers, and which links it lists.
use proxy_control_plane.Base.{
  Text, codes, Option, none, some, not, List, ◌≡◌, refl, inl, inr, Result, ok, err, Result-cases,
  Bool-cases, if◌then◌else◌,
}
use proxy_control_plane.Domain.{Customer, ProxyAccount, SubscriptionToken}
use proxy_control_plane.Store.{Error, Db, found}
use proxy_control_plane.Store.Tokens.{find_token_by_hash, get_subscription_token_by_hash}
use proxy_control_plane.Security.Ids.{token_digest}
use proxy_control_plane.Store.Listings.{subscription_data}
use proxy_control_plane.Subscription.{build}
use proxy_control_plane.HttpApi.Action.{Failure, store_failure, unless_found, Services, Request}
use proxy_control_plane.HttpApi.Subscriptions.{
  expired_before, subscription_not_found, serve_token, serve_formatted, get_subscription,
  subscription_format,
}

unfoldable pub answer_data :
    Request → Text → Result Error (Customer × List ProxyAccount) → Result Failure Text
answer_data reader format (err e) = err (store_failure e)
answer_data reader format (ok (customer, accounts)) = ok (build customer accounts format reader.now)

-- The reply to a token that was found.
unfoldable pub answer : Request → Text → SubscriptionToken → Db → Result Failure Text
answer reader format t db =
    if not t.enabled
    then err (record { status = 404; message = subscription_not_found })
    else if expired_before t.expires_at reader.now
    then err (record { status = 403; message = codes "subscription expired" })
    else answer_data reader format (subscription_data t.customer_id db).0

pub serve_token_answers :
    (reader : Request) (format : Text) (t : SubscriptionToken) (db : Db)
    → (serve_token reader format t db).0 ≡ answer reader format t db
unfolding serve_token answer answer_data
serve_token_answers reader format t db = elim (Bool-cases t.enabled) [
  | inr e ↦ rw e refl
  | inl e ↦ elim (Bool-cases (expired_before t.expires_at reader.now)) [
    | inl f ↦ rw (e, f) refl
    | inr f ↦ elim (Result-cases (subscription_data t.customer_id db).0) [
      | inl (d, g) ↦ rw (e, f, g) refl
      | inr (x, g) ↦ rw (e, f, g) refl
    ]
  ]
]

module _ (srv : Services) (reader : Request) (fmt : Option Text) (format token : Text) (db : Db)
    (known : subscription_format fmt ≡ some format) where
  pub get_subscription-missing :
      find_token_by_hash (token_digest srv.sha256 token) db.subscription_tokens ≡ none
      → get_subscription srv reader fmt token db
        ≡ (err (record { status = 404; message = subscription_not_found }), db)
  unfolding get_subscription serve_formatted get_subscription_token_by_hash found unless_found
  get_subscription-missing absent = rw (known, absent) refl

  pub get_subscription-found :
      (t : SubscriptionToken)
      → find_token_by_hash (token_digest srv.sha256 token) db.subscription_tokens ≡ some t
      → (get_subscription srv reader fmt token db).0 ≡ answer reader format t db
  unfolding get_subscription serve_formatted get_subscription_token_by_hash found
  get_subscription-found t there = rw (known, there) (serve_token_answers reader format t db)
