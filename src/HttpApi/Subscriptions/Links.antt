-- ===== src/HttpApi/Subscriptions/Links.antt =====
-- Which links a subscription lists, in terms of the tables.
use proxy_control_plane.Base.{
  Text, codes, Bool, true, false, ◌&&◌, ◌||◌, Option, some, List, [], ◌∷◌, map, any, any-keep,
  any-eq, any-map, find-passes, ◌≡◌, refl, sym, ◌∙◌, arith, ok, inl, inr, Bool-cases, str_eq,
  str_eq_iff, ap, not, if◌then◌else◌,
}
use proxy_control_plane.Domain.{
  Time, Customer, ProxyNode, ProxyAccount, SubscriptionToken, customer_status_is_active,
}
use proxy_control_plane.Store.{Db, found}
use proxy_control_plane.Store.Customers.{get_customer, find_customer}
use proxy_control_plane.Store.Accounts.{is_bound, with_nodes}
use proxy_control_plane.Store.Tokens.{find_token_by_hash}
use proxy_control_plane.Store.Listings.{
  insert_ordered, order_by, newest, where_customer, list_proxy_accounts, subscription_data,
}
use proxy_control_plane.Security.Ids.{token_digest}
use proxy_control_plane.Subscription.{
  vless_uri, link_label, link_params, build, build_lines, is_active, join_lines, base64_encode,
}
use proxy_control_plane.Subscription.Lines.{lists, offers, may_use, build_lines_iff}
use proxy_control_plane.HttpApi.Action.{Services, Request}
use proxy_control_plane.HttpApi.Subscriptions.{
  expired_before, subscription_format, get_subscription,
}
use proxy_control_plane.HttpApi.Subscriptions.Served.{answer, answer_data, get_subscription-found}

module _ {A : Type 0} (before : A → A → Bool) (p : A → Bool) where
  any-insert_ordered : (a : A) (l : List A) → any p (insert_ordered before a l) ≡ (p a || any p l)
  unfolding insert_ordered
  any-insert_ordered a [] = refl
  any-insert_ordered a (b ∷ bs) = ground (arith, any-insert_ordered a bs)

  any-order_by : (l : List A) → any p (order_by before l) ≡ any p l
  unfolding order_by
  any-order_by [] = refl
  any-order_by (a ∷ rest) =
      ground (arith, any-insert_ordered a (order_by before rest), any-order_by rest)

-- The node is bound to the account, enabled, and speaks VLESS, and the line is its link.
unfoldable pub links_node : Db → ProxyAccount → Text → ProxyNode → Bool
links_node db a line n =
    is_bound a.id n.id db.bindings
    && (n.enabled && (str_eq n.protocol (codes "vless") && str_eq (vless_uri a n) line))

offers-with_nodes :
    (db : Db) (a : ProxyAccount) (line : Text)
    → offers line (with_nodes db a) (with_nodes db a).nodes ≡ any (links_node db a line) db.nodes
unfolding offers with_nodes links_node vless_uri link_label link_params
offers-with_nodes db a line = any-keep _ (λ n. is_bound a.id n.id db.bindings) db.nodes

any-where_customer :
    {A : Type 0} (p : A → Bool) (id : Text) (owner : A → Text) (rows : List A)
    → ((r : A) → (str_eq (owner r) id && p r) ≡ p r)
    → any p (where_customer id owner rows) ≡ any p rows
any-where_customer p id owner rows implied = elim (Bool-cases (str_eq id [])) [
  | inl e ↦ rw e refl
  | inr e ↦ rw e (any-keep p (λ r. str_eq (owner r) id) rows ∙ any-eq _ p rows implied)
]

-- An account of the customer that may be used and has a node with this link.
unfoldable pub links_account : Db → Customer → Time → Text → ProxyAccount → Bool
links_account db c now line a = may_use c now a && any (links_node db a line) db.nodes

-- The accounts that SubscriptionData returns.
unfoldable pub data_accounts : Text → Db → List ProxyAccount
data_accounts id db =
    map (with_nodes db)
      (order_by (newest (λ a. a.created_at)) (where_customer id (λ a. a.customer_id) db.accounts))

module _ (db : Db) (c : Customer) (now : Time) (line : Text) where
  with_nodes-links :
      (a : ProxyAccount)
      → (may_use c now (with_nodes db a) && offers line (with_nodes db a) (with_nodes db a).nodes)
        ≡ links_account db c now line a
  unfolding may_use with_nodes links_account
  with_nodes-links a = ground (arith, offers-with_nodes db a line)

  own_account :
      (a : ProxyAccount)
      → (str_eq a.customer_id c.id && links_account db c now line a) ≡ links_account db c now line a
  unfolding links_account may_use
  own_account a = ground arith

  any-data_accounts :
      any (λ a. may_use c now a && offers line a a.nodes) (data_accounts c.id db)
      ≡ any (links_account db c now line) db.accounts
  unfolding data_accounts
  any-data_accounts =
      let rows = where_customer c.id (λ a. a.customer_id) db.accounts in
      let sorted = order_by (newest (λ a. a.created_at)) rows in
      any-map (λ a. may_use c now a && offers line a a.nodes) (with_nodes db) sorted
      ∙ (any-eq _ (links_account db c now line) sorted with_nodes-links
          ∙ (any-order_by (newest (λ a. a.created_at)) (links_account db c now line) rows
              ∙ any-where_customer (links_account db c now line) c.id (λ a. a.customer_id)
                  db.accounts own_account))

data_of_customer :
    (id : Text) (db : Db) (c : Customer)
    → find_customer id db.customers ≡ some c
    → (subscription_data id db).0 ≡ ok (c, data_accounts c.id db)
unfolding subscription_data get_customer found list_proxy_accounts data_accounts find_customer
data_of_customer id db c there =
    let own : c.id ≡ id =
      (str_eq_iff c.id id).0 (find-passes (λ d. str_eq d.id id) db.customers c there) in
    rw (there, own) refl

-- The text that `build` makes, as its lines: joined by line feeds for the raw form, and encoded for
-- every other.
build_text :
    (c : Customer) (accounts : List ProxyAccount) (format : Text) (now : Time)
    → build c accounts format now ≡ (
        if str_eq format (codes "raw")
        then join_lines (build_lines c accounts now)
        else base64_encode (join_lines (build_lines c accounts now)))
unfolding build build_lines
build_text c accounts format now =
    elim (Bool-cases
      (not (customer_status_is_active c.status) || not (is_active c.expires_at now))) [
        | inl e ↦ elim (Bool-cases (str_eq format (codes "raw"))) [
          | inl f ↦ rw (e, f) (unfold join_lines in refl)
          | inr f ↦ rw (e, f) (unfold join_lines base64_encode in refl)
        ]
        | inr e ↦ rw e refl
      ]

-- A token that is found, enabled and not expired, of a customer who is there, asked for in a known
-- format, is answered with some lines: joined by line feeds in the format raw, and else in the base64
-- encoding of that; and a line is one of them exactly if the customer is active and unexpired, and it
-- is the link of an enabled VLESS node that is bound to an enabled, unexpired VLESS account of the
-- customer.
pub subscription_lists_iff :
    (srv : Services) (reader : Request) (fmt : Option Text) (format raw : Text) (db : Db)
    (t : SubscriptionToken) (c : Customer)
    → subscription_format fmt ≡ some format
    → find_token_by_hash (token_digest srv.sha256 raw) db.subscription_tokens ≡ some t
    → t.enabled ≡ true
    → expired_before t.expires_at reader.now ≡ false
    → find_customer t.customer_id db.customers ≡ some c
    → (lines : List Text) × ((get_subscription srv reader fmt raw db).0
        ≡ ok (
            if str_eq format (codes "raw")
            then join_lines lines
            else base64_encode (join_lines lines)))
      × ((line : Text)
          → lists line lines ≡ (
              (customer_status_is_active c.status && is_active c.expires_at reader.now)
              && any (links_account db c reader.now line) db.accounts))
unfolding answer answer_data
subscription_lists_iff srv reader fmt format raw db t c known there enabled fresh owner = (
  build_lines c (data_accounts c.id db) reader.now,
  get_subscription-found srv reader fmt format raw db known t there
      ∙ rw (enabled, fresh, data_of_customer t.customer_id db c owner) refl
      ∙ ap ok (build_text c (data_accounts c.id db) format reader.now),
  λ line.
      rw (sym (any-data_accounts db c reader.now line))
        (build_lines_iff line c (data_accounts c.id db) reader.now),
)
