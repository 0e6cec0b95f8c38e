-- ===== src/Subscription/Base64.antt =====
-- The encoded form of a subscription decodes to its lines.
use proxy_control_plane.Base.{
  ℕ, ◌+◌, ◌-◌, ◌*◌, ◌/◌, ◌%◌, ◌<◌, Text, codes, false, not, ◌&&◌, ◌||◌, List, [], ◌∷◌, ◌≡◌, refl,
  ap, All, if◌then◌else◌, eqb, leb, arith, Bool-cases, inl, inr, str_eq, str_eq_refl,
}
use proxy_control_plane.Domain.{Time, Customer, ProxyAccount, customer_status_is_active}
use proxy_control_plane.Subscription.{
  base64_digit, base64_encode, is_active, account_lines, build_lines, join_lines, build,
}

abbrev digit_value : ℕ → ℕ
digit_value c =
    if leb 97 c && leb c 122
    then c - 71
    else if leb 65 c && leb c 90
    then c - 65
    else if leb 48 c && leb c 57
    then c + 4
    else if eqb c b'+'
    then 62
    else 63

-- Groups of four digits, the last one padded.
unfoldable pub base64_decode : Text → Text
base64_decode (p ∷ q ∷ r ∷ s ∷ rest) =
    let more = base64_decode rest in
    let a = digit_value p * 4 + digit_value q / 16 in
    let b = digit_value q % 16 * 16 + digit_value r / 4 in
    let c = digit_value r % 4 * 64 + digit_value s in
    if eqb r b'=' then a ∷ [] else if eqb s b'=' then a ∷ b ∷ [] else a ∷ b ∷ c ∷ more
base64_decode s = []

digit_lem :
    (n : ℕ) → n < 64 → (digit_value (base64_digit n) ≡ n) × (eqb (base64_digit n) b'=' ≡ false)
unfolding base64_digit
digit_lem n h = (ground arith, ground arith)

first_byte : (a b : ℕ) → b < 256 → a / 4 * 4 + (a % 4 * 16 + b / 16) / 16 ≡ a
first_byte a b h = omega (arith, h)

second_byte :
    (a b c : ℕ)
    → b < 256
    → c < 256
    → (a % 4 * 16 + b / 16) % 16 * 16 + (b % 16 * 4 + c / 64) / 4 ≡ b
second_byte a b c hb h = omega (arith, hb, h)

cons2 : {a b x y : ℕ} → x ≡ a → y ≡ b → x ∷ y ∷ [] ≡ a ∷ b ∷ []
cons2 p q = λ i. p i ∷ q i ∷ []

cons3 : {a b c x y z : ℕ} {s : Text} → x ≡ a → y ≡ b → z ≡ c → x ∷ y ∷ z ∷ s ≡ a ∷ b ∷ c ∷ s
cons3 {s} p q r = λ i. p i ∷ q i ∷ r i ∷ s

decode-encode : (s : Text) → All (λ c. c < 256) s → base64_decode (base64_encode s) ≡ s
unfolding base64_encode base64_decode
decode-encode [] h = refl
decode-encode (a ∷ []) (ha, h) =
    let p = digit_lem (a / 4) (omega (arith, ha)) in
    let q = digit_lem (a % 4 * 16) (omega arith) in rw (p.0, q.0) (ap (λ x. x ∷ []) (omega arith))
decode-encode (a ∷ b ∷ []) (ha, (hb, h)) =
    let p = digit_lem (a / 4) (omega (arith, ha)) in
    let q = digit_lem (a % 4 * 16 + b / 16) (omega (arith, hb)) in
    let r = digit_lem (b % 16 * 4) (omega arith) in
    rw (p.0, q.0, r.0, r.1) (cons2 (first_byte a b hb) (omega arith))
decode-encode (a ∷ b ∷ c ∷ rest) (ha, (hb, (hc, h))) =
    let p = digit_lem (a / 4) (omega (arith, ha)) in
    let q = digit_lem (a % 4 * 16 + b / 16) (omega (arith, hb)) in
    let r = digit_lem (b % 16 * 4 + c / 64) (omega (arith, hc)) in
    let s = digit_lem (c % 64) (omega arith) in
    rw (p.0, q.0, r.0, s.0, r.1, s.1, decode-encode rest h)
      (cons3 (first_byte a b hb) (second_byte a b c hb hc) (omega arith))

-- The raw form of a subscription is its lines, joined by line feeds, and every other form decodes to
-- them, where they are made of bytes.
pub build_decodes :
    (customer : Customer) (accounts : List ProxyAccount) (now : Time) (format : Text)
    → All (λ c. c < 256) (join_lines (build_lines customer accounts now))
    → str_eq format (codes "raw") ≡ false
    → (build customer accounts (codes "raw") now ≡ join_lines (build_lines customer accounts now))
      × (base64_decode (build customer accounts format now)
          ≡ join_lines (build_lines customer accounts now))
unfolding build build_lines
build_decodes customer accounts now format bytes encoded =
    elim (Bool-cases (
      not (customer_status_is_active customer.status) || not (is_active customer.expires_at now))) [
        | inl e ↦ rw e (unfold join_lines in refl, unfold join_lines base64_decode in refl)
        | inr e ↦
            let lines = join_lines (account_lines customer now accounts) in
            let own : All (λ c. c < 256) lines = rw e at bytes in
            rw (e, str_eq_refl (codes "raw"), encoded) (refl, decode-encode lines own)
      ]
