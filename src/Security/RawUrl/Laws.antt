-- ===== src/Security/RawUrl/Laws.antt =====
-- What is encoded decodes to the same bytes, and the alphabets lack the separators.
use proxy_control_plane.Base.{
  ℕ, ◌+◌, ◌*◌, ◌/◌, ◌%◌, ◌<◌, Text, false, not, ◌||◌, Option, some, List, [], ◌∷◌, ◌≡◌, refl, ap,
  map, keep, All, All-imp, Lacks, eqb, arith,
}
use proxy_control_plane.Security.RawUrl.{
  url_digit, sextets, raw_url_encode, url_value, url_values, bytes_of, raw_url_decode, hex_lower,
  hex_encode, hex_value, hex_decode,
}

abbrev pub IsBytes : Text → Type 0
IsBytes s = All (λ c. c < 256) s

sextets_bound : (s : Text) → IsBytes s → All (λ n. n < 64) (sextets s)
unfolding sextets
sextets_bound [] h = tt
sextets_bound (a ∷ []) h = (omega arith, (omega arith, tt))
sextets_bound (a ∷ b ∷ []) h = (omega arith, (omega arith, (omega arith, tt)))
sextets_bound (a ∷ b ∷ c ∷ rest) h =
    (omega arith, (omega arith, (omega arith, (omega arith, sextets_bound rest h.1.1.1))))

url_value-digit : (n : ℕ) → n < 64 → url_value (url_digit n) ≡ some n
unfolding url_value url_digit
url_value-digit n h = ground arith

url_values-digits : (ns : List ℕ) → All (λ n. n < 64) ns → url_values (map url_digit ns) ≡ some ns
unfolding url_values
url_values-digits [] h = refl
url_values-digits (n ∷ ns) h = rw (url_values, url_value-digit n h.0, url_values-digits ns h.1) refl

-- A digit is none of the bytes that separate or are skipped.
abbrev pub IsUrlByte : ℕ → Type 0
IsUrlByte c =
    (eqb c 10 ≡ false)
    × (eqb c 13 ≡ false)
    × (eqb c b'.' ≡ false)
    × (eqb c b':' ≡ false)
    × (eqb c b'$' ≡ false)

url_digit-IsUrlByte : (n : ℕ) → n < 64 → IsUrlByte (url_digit n)
unfolding url_digit
url_digit-IsUrlByte n h = (ground arith, ground arith, ground arith, ground arith, ground arith)

digits-IsUrlByte : (ns : List ℕ) → All (λ n. n < 64) ns → All IsUrlByte (map url_digit ns)
digits-IsUrlByte [] h = tt
digits-IsUrlByte (n ∷ ns) h = (url_digit-IsUrlByte n h.0, digits-IsUrlByte ns h.1)

pub raw_url_encode-IsUrlByte : (s : Text) → IsBytes s → All IsUrlByte (raw_url_encode s)
unfolding raw_url_encode
raw_url_encode-IsUrlByte s h = digits-IsUrlByte (sextets s) (sextets_bound s h)

keep_digits : (s : Text) → All IsUrlByte s → keep (λ c. not (eqb c 10 || eqb c 13)) s ≡ s
keep_digits [] h = refl
keep_digits (c ∷ s) h = rw (h.0.0, h.0.1, keep_digits s h.1) refl

three :
    {a b c x y z : ℕ} {s : Text}
    → x ≡ a
    → y ≡ b
    → z ≡ c
    → ◌≡◌ {A = Option Text} (some (x ∷ y ∷ z ∷ s)) (some (a ∷ b ∷ c ∷ s))
three {s} p q r = λ i. some (p i ∷ q i ∷ r i ∷ s)

bytes_of-sextets : (s : Text) → IsBytes s → bytes_of (sextets s) ≡ some s
unfolding bytes_of sextets
bytes_of-sextets [] h = refl
bytes_of-sextets (a ∷ []) h = ap (λ x. some (x ∷ [])) (omega arith)
bytes_of-sextets (a ∷ b ∷ []) h =
    let first : (a / 4 * 4 + (a % 4 * 16 + b / 16) / 16) ≡ a = omega arith in
    let second : ((a % 4 * 16 + b / 16) % 16 * 16 + b % 16 * 4 / 4) ≡ b = omega arith in
    λ i. some (first i ∷ second i ∷ [])
bytes_of-sextets (a ∷ b ∷ c ∷ rest) h =
    rw (bytes_of-sextets rest h.1.1.1) (three (omega arith) (omega arith) (omega arith))

pub raw_url_decode-encode : (s : Text) → IsBytes s → raw_url_decode (raw_url_encode s) ≡ some s
unfolding raw_url_decode raw_url_encode
raw_url_decode-encode s h =
    rw
      (
        raw_url_decode,
        keep_digits (map url_digit (sextets s)) (digits-IsUrlByte (sextets s) (sextets_bound s h)),
        url_values-digits (sextets s) (sextets_bound s h),
      )
      (bytes_of-sextets s h)

hex_value-lower : (n : ℕ) → n < 16 → hex_value (hex_lower n) ≡ some n
unfolding hex_value hex_lower
hex_value-lower n h = ground arith

pub hex_decode-encode : (s : Text) → IsBytes s → hex_decode (hex_encode s) ≡ some s
unfolding hex_encode hex_decode
hex_decode-encode [] h = refl
hex_decode-encode (c ∷ s) h =
    let whole : c / 16 * 16 + c % 16 ≡ c = omega arith in
    rw
      (
        hex_decode,
        hex_value-lower (c / 16) (omega arith),
        hex_value-lower (c % 16) (omega arith),
        hex_decode-encode s h.1,
      )
      (ap (λ x. some (x ∷ s)) whole)

hex_lower-IsUrlByte : (n : ℕ) → n < 16 → IsUrlByte (hex_lower n)
unfolding hex_lower
hex_lower-IsUrlByte n h = (ground arith, ground arith, ground arith, ground arith, ground arith)

pub hex_encode-IsUrlByte : (s : Text) → IsBytes s → All IsUrlByte (hex_encode s)
unfolding hex_encode
hex_encode-IsUrlByte [] h = tt
hex_encode-IsUrlByte (c ∷ s) h = (
  hex_lower-IsUrlByte (c / 16) (omega arith),
  (hex_lower-IsUrlByte (c % 16) (omega arith), hex_encode-IsUrlByte s h.1),
)

pub Lacks-dot : (s : Text) → All IsUrlByte s → Lacks b'.' s
Lacks-dot s h = All-imp (λ c u. u.2) s h

pub Lacks-colon : (s : Text) → All IsUrlByte s → Lacks b':' s
Lacks-colon s h = All-imp (λ c u. u.3) s h

pub Lacks-dollar : (s : Text) → All IsUrlByte s → Lacks b'$' s
Lacks-dollar s h = All-imp (λ c u. u.4) s h
