-- ===== src/Store/Listings.antt =====
-- The listings of internal/store/store.go that handlers serve, and SubscriptionData. Rows that are
-- equal under ORDER BY stay as they stand in the table.
use proxy_control_plane.Base.{
  ℕ, Text, Bool, not, List, [], ◌∷◌, map, keep, str_eq, str_ltb, if◌then◌else◌, ok, ltb,
}
use proxy_control_plane.Domain.{Customer, ProxyNode, ProxyAccount, SubscriptionToken}
use proxy_control_plane.Store.{Exec, pure, ◌>>=◌}
use proxy_control_plane.Store.Customers.{get_customer}
use proxy_control_plane.Store.Accounts.{with_nodes}

module _ {A : Type 0} (before : A → A → Bool) where
  unfoldable pub insert_ordered : A → List A → List A
  insert_ordered a [] = a ∷ []
  insert_ordered a (b ∷ bs) =
      let rest = insert_ordered a bs in if before b a then b ∷ rest else a ∷ b ∷ bs

  -- ORDER BY
  unfoldable pub order_by : List A → List A
  order_by [] = []
  order_by (a ∷ rest) = insert_ordered a (order_by rest)

-- `created_at DESC`
abbrev pub newest : {A : Type 0} → (A → ℕ) → A → A → Bool
newest created_at a b = ltb (created_at b) (created_at a)

unfoldable pub list_customers : Exec (List Customer)
list_customers db = (ok (order_by (newest (λ c. c.created_at)) db.customers), db)

unfoldable pub list_proxy_nodes : Exec (List ProxyNode)
list_proxy_nodes db = (ok (order_by (λ a b. str_ltb a.name b.name) db.nodes), db)

-- `if customerID != "" { query = query.Where("customer_id = ?", customerID) }`
abbrev pub where_customer : {A : Type 0} → Text → (A → Text) → List A → List A
where_customer customer_id owner rows =
    if not (str_eq customer_id []) then keep (λ r. str_eq (owner r) customer_id) rows else rows

-- `listProxyAccounts`
unfoldable pub list_proxy_accounts : Text → Exec (List ProxyAccount)
list_proxy_accounts customer_id db = (
  ok (
      map (with_nodes db) (
        order_by (newest (λ a. a.created_at))
          (where_customer customer_id (λ a. a.customer_id) db.accounts))),
  db,
)

unfoldable pub list_subscription_tokens : Text → Exec (List SubscriptionToken)
list_subscription_tokens customer_id db = (
  ok (
      order_by (newest (λ t. t.created_at))
        (where_customer customer_id (λ t. t.customer_id) db.subscription_tokens)),
  db,
)

unfoldable pub subscription_data : Text → Exec (Customer × List ProxyAccount)
subscription_data customer_id = do
  customer ← get_customer customer_id
  accounts ← list_proxy_accounts customer_id
  pure (customer, accounts)
