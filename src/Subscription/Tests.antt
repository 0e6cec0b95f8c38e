-- ===== src/Subscription/Tests.antt =====
-- Runs of the building of subscriptions.
use proxy_control_plane.Base.{
  ◌<◌, ◌++◌, Text, codes, Bool, true, false, ◌&&◌, [], ◌∷◌, ◌≡◌, refl, All, arith, str_eq, pos,
  trim_space, trim_left, trim_right, is_space, to_lower, lower, ltb, get, put, keys, mem, str_ltb,
  sort_strings,
}
use proxy_control_plane.Domain.{
  ProxyNode, ProxyAccount, customer_status_is_active, normalize_customer_status,
}
use proxy_control_plane.Store.Samples.{sample_customer, sample_account, sample_node}
use proxy_control_plane.Subscription.{
  int_string, fill_digits, is_unreserved, hex_digit, query_escape, encode, encode_keys,
  set_if_not_empty, value_or, link_params, link_host, vless_uri, link_label, is_active,
  link_account, link_node, node_lines, account_lines, join_lines, build_lines, build,
}
use proxy_control_plane.Subscription.Base64.{base64_decode, build_decodes}

-- What a run computes with.
running : Unit {0}
unfolding customer_status_is_active normalize_customer_status is_active link_account link_node
    node_lines account_lines join_lines build_lines vless_uri link_host link_params link_label
    value_or set_if_not_empty encode encode_keys query_escape is_unreserved hex_digit int_string
    fill_digits get put keys mem str_ltb sort_strings trim_space trim_left trim_right is_space
    to_lower lower str_eq
running = tt

abbrev node : ProxyNode
node = record (sample_node "n") { protocol = codes "vless"; port = pos 8443 }

abbrev account : ProxyAccount
account = record sample_account { nodes = node ∷ [] }

abbrev named_node : ProxyNode
named_node = sample_node "a b/"

label_bytes : All (λ c. c < 256) (named_node.name ++ (b'-' ∷ account.email_tag))
label_bytes = (omega arith, (omega arith, (omega arith, (omega arith, (omega arith, tt)))))

abbrev all_bytes : Text → Bool
all_bytes [] = true
all_bytes (c ∷ s) = ltb c 256 && all_bytes s

all_bytes_sound : (s : Text) → all_bytes s ≡ true → All (λ c. c < 256) s
all_bytes_sound [] h = tt
all_bytes_sound (c ∷ s) h = (ground arith, all_bytes_sound s (ground arith))

line_bytes : all_bytes (join_lines (build_lines sample_customer (account ∷ []) 4)) ≡ true
unfolding running
line_bytes = refl

encoded : str_eq (codes "v2ray") (codes "raw") ≡ false
unfolding running
encoded = refl

build_decodes_example :
    (build sample_customer (account ∷ []) (codes "raw") 4
      ≡ join_lines (build_lines sample_customer (account ∷ []) 4))
    × (base64_decode (build sample_customer (account ∷ []) (codes "v2ray") 4)
        ≡ join_lines (build_lines sample_customer (account ∷ []) 4))
build_decodes_example =
    build_decodes sample_customer (account ∷ []) 4 (codes "v2ray") (all_bytes_sound _ line_bytes)
      encoded
