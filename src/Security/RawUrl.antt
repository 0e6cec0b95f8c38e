-- ===== src/Security/RawUrl.antt =====
-- base64.RawURLEncoding and the package encoding/hex, in which internal/security/security.go writes
-- its texts.
pub mod Laws
use proxy_control_plane.Base.{
  ℕ, ◌+◌, ◌-◌, ◌*◌, ◌/◌, ◌%◌, Text, Bool, not, ◌||◌, Option, none, some, List, [], ◌∷◌, keep, map,
  if◌then◌else◌, eqb, leb, ltb, ◌&&◌,
}
use mathlib.Core.Option

unfoldable pub url_digit : ℕ → ℕ
url_digit n =
    if ltb n 26
    then 65 + n
    else if ltb n 52
    then 71 + n
    else if ltb n 62
    then n - 4
    else if eqb n 62
    then b'-'
    else b'_'

-- Three bytes are four digits, and the rest is not padded.
unfoldable pub sextets : Text → List ℕ
sextets [] = []
sextets (a ∷ []) = a / 4 ∷ a % 4 * 16 ∷ []
sextets (a ∷ b ∷ []) = a / 4 ∷ (a % 4 * 16 + b / 16) ∷ b % 16 * 4 ∷ []
sextets (a ∷ b ∷ c ∷ rest) =
    a / 4 ∷ (a % 4 * 16 + b / 16) ∷ (b % 16 * 4 + c / 64) ∷ c % 64 ∷ sextets rest

unfoldable pub raw_url_encode : Text → Text
raw_url_encode s = map url_digit (sextets s)

unfoldable pub url_value : ℕ → Option ℕ
url_value c =
    if leb 97 c && leb c 122
    then some (c - 71)
    else if leb 65 c && leb c 90
    then some (c - 65)
    else if leb 48 c && leb c 57
    then some (c + 4)
    else if eqb c b'-'
    then some 62
    else if eqb c b'_'
    then some 63
    else none

unfoldable pub url_values : Text → Option (List ℕ)
url_values [] = some []
url_values (c ∷ s) = elim (url_value c) [
  | none ↦ none
  | some v ↦ Option.map (λ vs. v ∷ vs) (url_values s)
]

-- Bits that are left over are ignored; one digit alone is an error.
unfoldable pub bytes_of : List ℕ → Option Text
bytes_of [] = some []
bytes_of (p ∷ []) = none
bytes_of (p ∷ q ∷ []) = some ((p * 4 + q / 16) ∷ [])
bytes_of (p ∷ q ∷ r ∷ []) = some ((p * 4 + q / 16) ∷ (q % 16 * 16 + r / 4) ∷ [])
bytes_of (p ∷ q ∷ r ∷ s ∷ rest) =
    Option.map (λ more. (p * 4 + q / 16) ∷ (q % 16 * 16 + r / 4) ∷ (r % 4 * 64 + s) ∷ more)
      (bytes_of rest)

-- Line feeds and carriage returns are skipped.
unfoldable pub raw_url_decode : Text → Option Text
raw_url_decode s = elim (url_values (keep (λ c. not (eqb c 10 || eqb c 13)) s)) [
  | none ↦ none
  | some vs ↦ bytes_of vs
]

unfoldable pub hex_lower : ℕ → ℕ
hex_lower n = if ltb n 10 then 48 + n else 87 + n

-- hex.EncodeToString
unfoldable pub hex_encode : Text → Text
hex_encode [] = []
hex_encode (c ∷ s) = hex_lower (c / 16) ∷ hex_lower (c % 16) ∷ hex_encode s

unfoldable pub hex_value : ℕ → Option ℕ
hex_value c =
    if leb 48 c && leb c 57
    then some (c - 48)
    else if leb 97 c && leb c 102
    then some (c - 87)
    else if leb 65 c && leb c 70
    then some (c - 55)
    else none

-- hex.DecodeString, without its errors' texts
unfoldable pub hex_decode : Text → Option Text
hex_decode [] = some []
hex_decode (a ∷ []) = none
hex_decode (a ∷ b ∷ s) = elim (hex_value a) [
  | none ↦ none
  | some x ↦ elim (hex_value b) [
    | none ↦ none
    | some y ↦ Option.map (λ more. (x * 16 + y) ∷ more) (hex_decode s)
  ]
]
