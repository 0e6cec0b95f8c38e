-- ===== src/Subscription/Escape.antt =====
-- The escapes of a query read back.
use proxy_control_plane.Base.{
  ℕ, ◌+◌, ◌-◌, ◌*◌, ◌/◌, ◌%◌, ◌<◌, Text, true, false, ◌&&◌, Option, none, some, [], ◌∷◌, ◌++◌, ◌≡◌,
  refl, ap, All, if◌then◌else◌, eqb, leb, arith, Bool-cases, inl, inr,
}
use mathlib.Core.Option
use proxy_control_plane.Domain.{ProxyNode, ProxyAccount}
use proxy_control_plane.Subscription.{is_unreserved, hex_digit, query_escape, link_label}

-- What url.QueryUnescape makes of a text, by RFC 3986 and form encoding.
abbrev unhex : ℕ → Option ℕ
unhex c =
    if leb 48 c && leb c 57
    then some (c - 48)
    else if leb 65 c && leb c 70
    then some (c - 55)
    else if leb 97 c && leb c 102
    then some (c - 87)
    else none

abbrev unescaped : Option ℕ → Option ℕ → Option Text → Option Text
unescaped (some high) (some low) (some rest) = some ((16 * high + low) ∷ rest)
unescaped high low rest = none

unfoldable pub query_unescape : Text → Option Text
query_unescape [] = some []
query_unescape (c ∷ []) =
    if eqb c b'%' then none else if eqb c b'+' then some (32 ∷ []) else some (c ∷ [])
query_unescape (c ∷ d ∷ []) =
    let rest = query_unescape (d ∷ []) in
    if eqb c b'%'
    then none
    else if eqb c b'+'
    then Option.map (λ s. 32 ∷ s) rest
    else Option.map (λ s. c ∷ s) rest
query_unescape (c ∷ d ∷ e ∷ s) =
    let rest = query_unescape (d ∷ e ∷ s) in
    let behind = query_unescape s in
    if eqb c b'%'
    then unescaped (unhex d) (unhex e) behind
    else if eqb c b'+'
    then Option.map (λ t. 32 ∷ t) rest
    else Option.map (λ t. c ∷ t) rest

plain :
    (c : ℕ) (s : Text)
    → eqb c b'%' ≡ false
    → query_unescape (c ∷ s)
      ≡ Option.map (λ t. (if eqb c b'+' then 32 else c) ∷ t) (query_unescape s)
unfolding query_unescape
plain c [] h = ground arith
plain c (d ∷ []) h = ground arith
plain c (d ∷ e ∷ s) h = elim (Bool-cases (eqb c b'+')) [
  | inl p ↦ rw (h, p) refl
  | inr p ↦ rw (h, p) refl
]

percent :
    (d e : ℕ) (s : Text)
    → query_unescape (37 ∷ d ∷ e ∷ s) ≡ unescaped (unhex d) (unhex e) (query_unescape s)
unfolding query_unescape
percent d e s = refl

unreserved-range : (c : ℕ) → is_unreserved c ≡ true → (eqb c b'%' ≡ false) × (eqb c b'+' ≡ false)
unfolding is_unreserved
unreserved-range c h = (ground arith, ground arith)

unhex-hex_digit : (n : ℕ) → n < 16 → unhex (hex_digit n) ≡ some n
unfolding hex_digit
unhex-hex_digit n h = ground arith

query_unescape-escape : (s : Text) → All (λ c. c < 256) s → query_unescape (query_escape s) ≡ some s
unfolding query_escape
query_unescape-escape [] h = unfold query_unescape in refl
query_unescape-escape (c ∷ s) (byte, h) = elim (Bool-cases (is_unreserved c)) [
  | inl e ↦
      let (no_percent, no_plus) = unreserved-range c e in
      rw (e, plain c (query_escape s) no_percent, query_unescape-escape s h, no_plus) refl
  | inr e ↦ elim (Bool-cases (eqb c 32)) [
    | inl space ↦
        let is_space : c ≡ 32 = ground arith in
        rw (e, space, plain 43 (query_escape s) refl, query_unescape-escape s h, is_space) refl
    | inr other ↦
        rw
          (
            e,
            other,
            percent (hex_digit (c / 16)) (hex_digit (c % 16)) (query_escape s),
            unhex-hex_digit (c / 16) (omega (arith, byte)),
            unhex-hex_digit (c % 16) (omega arith),
            query_unescape-escape s h,
          )
          (ap (λ b. some (b ∷ s)) whole)
  ]
]
  where
    whole : 16 * (c / 16) + c % 16 ≡ c
    whole = omega arith

-- The label of a link, unescaped as a query is, is the node's name and the account's tag with a dash
-- between them, whatever bytes they hold.
link_label-unescape :
    (account : ProxyAccount) (node : ProxyNode)
    → All (λ c. c < 256) (node.name ++ (b'-' ∷ account.email_tag))
    → query_unescape (link_label account node) ≡ some (node.name ++ (b'-' ∷ account.email_tag))
unfolding link_label
link_label-unescape account node h =
    query_unescape-escape (node.name ++ (b'-' ∷ account.email_tag)) h
