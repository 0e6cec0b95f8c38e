-- ===== src/Store/LegacyImport/Links/Match.antt =====
-- legacySubscriptionLinkKey and matchLegacySubscriptionNode of internal/store/legacy_import.go: which
-- links are the same, and which node a link is for.
use proxy_control_plane.Base.{
  ℕ, suc, ◌+◌, Text, codes, Bool, true, not, ◌&&◌, ◌||◌, Option, none, some, List, [], ◌∷◌, ◌++◌,
  str_eq, trim_space, to_lower, equal_fold, if◌then◌else◌, ltb, eqb, ℤ, pos, negsuc, ltb_ℤ, eqb_ℤ,
}
use proxy_control_plane.Domain.{ProxyNode}
use proxy_control_plane.Subscription.{fill_digits}

pub record LegacySubscriptionLinkInput : Type 0 where
  pub uuid : Text
  pub email_tag : Text
  pub flow : Text
  pub host : Text
  pub port : ℤ
  pub transport : Text
  pub security : Text
  pub path : Text
  pub host_header : Text
  pub reality_public_key : Text
  pub reality_short_id : Text

unfoldable pub trimmed_link : LegacySubscriptionLinkInput → LegacySubscriptionLinkInput
trimmed_link link = record {
  uuid = trim_space link.uuid;
  email_tag = trim_space link.email_tag;
  flow = trim_space link.flow;
  host = trim_space link.host;
  port = link.port;
  transport = trim_space link.transport;
  security = trim_space link.security;
  path = trim_space link.path;
  host_header = trim_space link.host_header;
  reality_public_key = trim_space link.reality_public_key;
  reality_short_id = trim_space link.reality_short_id;
}

-- `%d`, for an integer of at most 20 digits
unfoldable pub decimal : ℤ → Text
decimal (pos n) = if eqb n 0 then codes "0" else fill_digits 20 n []
decimal (negsuc n) = b'-' ∷ fill_digits 20 (suc n) []

unfoldable pub link_key : LegacySubscriptionLinkInput → Text
link_key link =
    trim_space link.uuid
    ++ (b'|' ∷ to_lower (trim_space link.host)
        ++ (b'|' ∷ decimal link.port
            ++ (b'|' ∷ to_lower (trim_space link.transport)
                ++ (b'|' ∷ to_lower (trim_space link.security) ++ (b'|' ∷ trim_space link.path)))))

unfoldable pub matches_node_host : ProxyNode → Text → Bool
matches_node_host node given =
    let host = trim_space given in
    not (str_eq host []) && (equal_fold node.public_host host || equal_fold node.hostname host)

-- A field that is given must agree.
abbrev pub agrees : (Text → Text → Bool) → Text → Text → Bool
agrees test ours given = str_eq given [] || test ours given

-- The conditions under which the loop does not pass over the node.
unfoldable pub is_candidate : LegacySubscriptionLinkInput → ProxyNode → Bool
is_candidate link node =
    equal_fold node.protocol (codes "vless")
    && (matches_node_host node link.host
        && (not (ltb_ℤ (pos 0) link.port && not (eqb_ℤ node.port link.port))
            && (agrees equal_fold node.transport link.transport
                && (agrees equal_fold node.security link.security
                    && (agrees str_eq node.path link.path
                        && agrees str_eq node.reality_public_key link.reality_public_key)))))

abbrev pub points : ℕ → Bool → ℕ
points n test = if test then n else 0

unfoldable pub score : LegacySubscriptionLinkInput → ProxyNode → ℕ
score link node =
    10
    + points 3 (not (str_eq link.transport []))
    + points 3 (not (str_eq link.security []))
    + points 3 (not (str_eq link.path []))
    + points 1 (not (str_eq link.host_header []) && str_eq node.host_header link.host_header)
    + points 3 (not (str_eq link.reality_public_key []))
    + points 1 (
        not (str_eq link.reality_short_id []) && str_eq node.reality_short_id link.reality_short_id)

-- The loop, with the best node so far and its score; `none` is the score -1.
abbrev pub beats : ℕ → Option (ProxyNode × ℕ) → Bool
beats n none = true
beats n (some best) = ltb best.1 n

unfoldable pub best_of :
    LegacySubscriptionLinkInput → List ProxyNode → Option (ProxyNode × ℕ) → Option (ProxyNode × ℕ)
best_of link [] best = best
best_of link (node ∷ nodes) best =
    let next : Option (ProxyNode × ℕ) =
      if is_candidate link node && beats (score link node) best
      then some (node, score link node)
      else best in
    best_of link nodes next

unfoldable pub match_node : List ProxyNode → LegacySubscriptionLinkInput → Option ProxyNode
match_node nodes link = elim (best_of link nodes none) [ none ↦ none | some best ↦ some best.0 ]
