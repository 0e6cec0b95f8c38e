-- ===== src/Subscription.antt =====
-- internal/subscription/subscription.go: the links that a customer's client downloads, with what it
-- calls of net/url and encoding/base64.
pub mod Escape
pub mod Decimal
pub mod Lines
pub mod Base64
pub mod Parse
mod Tests
use proxy_control_plane.Base.{
  ℕ, zero, suc, ◌+◌, ◌-◌, ◌*◌, ◌/◌, ◌%◌, Text, codes, Bool, true, false, not, ◌&&◌, ◌||◌, Option,
  none, some, List, [], ◌∷◌, ◌++◌, str_eq, if◌then◌else◌, eqb, leb, ltb, Dict, get, put, keys,
  sort_strings, ℤ, pos, negsuc,
}
use proxy_control_plane.Domain.{Time, Customer, ProxyNode, ProxyAccount, customer_status_is_active}

-- url.QueryEscape, byte by byte.
unfoldable pub is_unreserved : ℕ → Bool
is_unreserved c =
    (leb 97 c && leb c 122)
    || ((leb 65 c && leb c 90)
        || ((leb 48 c && leb c 57) || (eqb c b'-' || (eqb c b'_' || (eqb c b'.' || eqb c b'~')))))

unfoldable pub hex_digit : ℕ → ℕ
hex_digit n = if ltb n 10 then 48 + n else 55 + n

unfoldable pub query_escape : Text → Text
query_escape [] = []
query_escape (c ∷ s) =
    let rest = query_escape s in
    if is_unreserved c
    then c ∷ rest
    else if eqb c 32
    then b'+' ∷ rest
    else b'%' ∷ hex_digit (c / 16) ∷ hex_digit (c % 16) ∷ rest

-- url.Values with one value for each key, and its Encode: the keys in order.
abbrev pub value_of : Option Text → Text
value_of none = []
value_of (some v) = v

unfoldable pub encode_keys : Dict Text → List Text → Text
encode_keys params [] = []
encode_keys params (k ∷ ks) =
    let rest = encode_keys params ks in
    let pair = query_escape k ++ (b'=' ∷ query_escape (value_of (get k params))) in
    if str_eq rest [] then pair else pair ++ (b'&' ∷ rest)

unfoldable pub encode : Dict Text → Text
encode params = encode_keys params (sort_strings (keys params))

unfoldable pub set_if_not_empty : Text → Text → Dict Text → Dict Text
set_if_not_empty key value params = if str_eq value [] then params else put key value params

unfoldable pub value_or : Text → Text → Text
value_or value fallback = if str_eq value [] then fallback else value

-- The loop of `intString`: the buffer has room for 20 digits, and is filled from its end.
unfoldable pub fill_digits : ℕ → ℕ → Text → Text
fill_digits zero n buf = buf
fill_digits (suc room) n buf =
    let rest = fill_digits room (n / 10) ((48 + n % 10) ∷ buf) in if eqb n 0 then buf else rest

unfoldable pub int_string : ℤ → Text
int_string (negsuc n) = codes "443"
int_string (pos n) = if eqb n 0 then codes "443" else fill_digits 20 n []

-- The calls of `params.Set`, in order.
unfoldable pub link_params : ProxyAccount → ProxyNode → Dict Text
link_params account node =
    let p1 = put (codes "encryption") (codes "none") [] in
    let p2 = put (codes "type") (value_or node.transport (codes "tcp")) p1 in
    let p3 = put (codes "security") (value_or node.security (codes "none")) p2 in
    let p4 = set_if_not_empty (codes "flow") account.flow p3 in
    let p5 = set_if_not_empty (codes "sni") node.sni p4 in
    let p6 = set_if_not_empty (codes "fp") node.fingerprint p5 in
    let p7 = set_if_not_empty (codes "alpn") node.alpn p6 in
    let p8 = set_if_not_empty (codes "path") node.path p7 in
    let p9 = set_if_not_empty (codes "host") node.host_header p8 in
    let p10 = set_if_not_empty (codes "pbk") node.reality_public_key p9 in
    set_if_not_empty (codes "sid") node.reality_short_id p10

unfoldable pub link_host : ProxyNode → Text
link_host node = if str_eq node.public_host [] then node.hostname else node.public_host

unfoldable pub link_label : ProxyAccount → ProxyNode → Text
link_label account node = query_escape (node.name ++ (b'-' ∷ account.email_tag))

unfoldable pub vless_uri : ProxyAccount → ProxyNode → Text
vless_uri account node =
    codes "vless://"
    ++ (account.uuid
        ++ (b'@' ∷ link_host node
            ++ (b':' ∷ int_string node.port
                ++ (b'?' ∷ encode (link_params account node) ++ (b'#' ∷ link_label account node)))))

-- An expiry at this very instant is still active.
unfoldable pub is_active : Option Time → Time → Bool
is_active none now = true
is_active (some at) now = not (ltb at now)

unfoldable pub link_account : Customer → Time → ProxyAccount → Bool
link_account customer now account = not (
    not (str_eq account.customer_id customer.id)
    || (not (str_eq account.protocol (codes "vless"))
        || (not account.enabled || not (is_active account.expires_at now))))

unfoldable pub link_node : ProxyNode → Bool
link_node node = not (not node.enabled || not (str_eq node.protocol (codes "vless")))

unfoldable pub node_lines : ProxyAccount → List ProxyNode → List Text
node_lines account [] = []
node_lines account (node ∷ nodes) =
    let rest = node_lines account nodes in
    if link_node node then vless_uri account node ∷ rest else rest

unfoldable pub account_lines : Customer → Time → List ProxyAccount → List Text
account_lines customer now [] = []
account_lines customer now (account ∷ accounts) =
    let rest = account_lines customer now accounts in
    if link_account customer now account then node_lines account account.nodes ++ rest else rest

-- `strings.Join(lines, "\n")`
unfoldable pub join_lines : List Text → Text
join_lines [] = []
join_lines (l ∷ []) = l
join_lines (l ∷ m ∷ rest) = l ++ (10 ∷ join_lines (m ∷ rest))

unfoldable pub base64_digit : ℕ → ℕ
base64_digit n =
    if ltb n 26
    then 65 + n
    else if ltb n 52
    then 71 + n
    else if ltb n 62
    then n - 4
    else if eqb n 62
    then b'+'
    else b'/'

-- base64.StdEncoding, with padding.
unfoldable pub base64_encode : Text → Text
base64_encode [] = []
base64_encode (a ∷ []) = base64_digit (a / 4) ∷ base64_digit (a % 4 * 16) ∷ b'=' ∷ b'=' ∷ []
base64_encode (a ∷ b ∷ []) =
    base64_digit (a / 4)
    ∷ base64_digit (a % 4 * 16 + b / 16)
    ∷ base64_digit (b % 16 * 4)
    ∷ b'='
    ∷ []
base64_encode (a ∷ b ∷ c ∷ rest) =
    base64_digit (a / 4)
    ∷ base64_digit (a % 4 * 16 + b / 16)
    ∷ base64_digit (b % 16 * 4 + c / 64)
    ∷ base64_digit (c % 64)
    ∷ base64_encode rest

unfoldable pub build_lines : Customer → List ProxyAccount → Time → List Text
build_lines customer accounts now =
    if not (customer_status_is_active customer.status) || not (is_active customer.expires_at now)
    then []
    else account_lines customer now accounts

-- An inactive customer gets the empty text, which both formats make of no lines.
unfoldable pub build : Customer → List ProxyAccount → Text → Time → Text
build customer accounts format now =
    let raw = join_lines (build_lines customer accounts now) in
    if not (customer_status_is_active customer.status) || not (is_active customer.expires_at now)
    then []
    else if str_eq format (codes "raw")
    then raw
    else base64_encode raw
