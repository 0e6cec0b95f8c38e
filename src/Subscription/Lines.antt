-- ===== src/Subscription/Lines.antt =====
-- Which links a subscription lists.
use proxy_control_plane.Base.{
  Text, codes, Bool, false, ◌&&◌, ◌||◌, List, [], ◌∷◌, ◌++◌, ◌≡◌, refl, any, str_eq, arith,
}
use proxy_control_plane.Domain.{Time, Customer, ProxyNode, ProxyAccount, customer_status_is_active}
use proxy_control_plane.Subscription.{
  vless_uri, is_active, link_account, link_node, node_lines, account_lines, build_lines,
}

unfoldable pub lists : Text → List Text → Bool
lists line ls = any (λ l. str_eq l line) ls

-- A node that is enabled and speaks VLESS, and whose link is this line.
unfoldable pub offers : Text → ProxyAccount → List ProxyNode → Bool
offers line account nodes =
    any (λ n. n.enabled && (str_eq n.protocol (codes "vless") && str_eq (vless_uri account n) line))
      nodes

-- The accounts whose nodes are offered.
unfoldable pub may_use : Customer → Time → ProxyAccount → Bool
may_use customer now a =
    str_eq a.customer_id customer.id
    && (str_eq a.protocol (codes "vless") && (a.enabled && is_active a.expires_at now))

module _ (line : Text) where
  lists-append : (ls ms : List Text) → lists line (ls ++ ms) ≡ (lists line ls || lists line ms)
  unfolding lists
  lists-append [] ms = refl
  lists-append (l ∷ ls) ms = ground (arith, lists-append ls ms)

  lists-node_lines :
      (account : ProxyAccount) (nodes : List ProxyNode)
      → lists line (node_lines account nodes) ≡ offers line account nodes
  unfolding lists node_lines offers link_node
  lists-node_lines account [] = refl
  lists-node_lines account (n ∷ nodes) = ground (arith, lists-node_lines account nodes)

  lists-account_lines :
      (customer : Customer) (now : Time) (accounts : List ProxyAccount)
      → lists line (account_lines customer now accounts)
        ≡ any (λ a. may_use customer now a && offers line a a.nodes) accounts
  unfolding account_lines may_use link_account
  lists-account_lines customer now [] = unfold lists in refl
  lists-account_lines customer now (a ∷ accounts) = ground (
    arith,
    lists-account_lines customer now accounts,
    lists-append (node_lines a a.nodes) (account_lines customer now accounts),
    lists-node_lines a a.nodes,
  )

  -- A line stands in a subscription exactly if the customer is active and unexpired, and it is the
  -- link of an enabled VLESS node of an enabled, unexpired VLESS account of that customer.
  pub build_lines_iff :
      (customer : Customer) (accounts : List ProxyAccount) (now : Time)
      → lists line (build_lines customer accounts now) ≡ (
          (customer_status_is_active customer.status && is_active customer.expires_at now)
          && any (λ a. may_use customer now a && offers line a a.nodes) accounts)
  unfolding build_lines
  build_lines_iff customer accounts now =
      let empty : lists line [] ≡ false = unfold lists in refl in
      ground (arith, lists-account_lines customer now accounts, empty)
