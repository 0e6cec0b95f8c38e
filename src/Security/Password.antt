-- ===== src/Security/Password.antt =====
-- PasswordHash, VerifyPassword and pbkdf2Key of internal/security/security.go. `prf key data` is HMAC
-- with SHA-256, whose sums have 32 bytes; the salt is what NewRandomToken returns.
pub mod Laws
use Prim.Native.Nat.{bit_xor}
use proxy_control_plane.Base.{
  ℕ, zero, suc, ◌+◌, ◌-◌, ◌*◌, ◌/◌, ◌%◌, ◌^◌, Text, codes, Bool, true, false, not, ◌&&◌, ◌||◌,
  Option, none, some, List, [], ◌∷◌, ◌++◌, length, take, str_eq, has_prefix, split, if◌then◌else◌,
  Result, ok, err, eqb, leb, ltb, ℤ, pos, negsuc, is_space,
}
use proxy_control_plane.Security.RawUrl.{hex_encode, hex_decode}

abbrev pub default_pbkdf2_iterations : ℕ
default_pbkdf2_iterations = 260000

abbrev pub hash_len : ℕ
hash_len = 32

-- `for x := range t { t[x] ^= u[x] }`
unfoldable pub xor_into : Text → Text → Text
xor_into [] u = []
xor_into (a ∷ t) [] = a ∷ t
xor_into (a ∷ t) (b ∷ u) = bit_xor a b ∷ xor_into t u

-- The loop over the iterations, with the rounds that are left.
unfoldable pub fold_rounds : (Text → Text → Text) → Text → ℕ → Text → Text → Text
fold_rounds prf password zero u t = t
fold_rounds prf password (suc rounds) u t =
    let next = prf password u in fold_rounds prf password rounds next (xor_into t next)

-- binary.BigEndian.PutUint32
unfoldable pub big_endian : ℕ → Text
big_endian n = n / 16777216 % 256 ∷ n / 65536 % 256 ∷ n / 256 % 256 ∷ n % 256 ∷ []

unfoldable pub pbkdf2_block : (Text → Text → Text) → Text → Text → ℕ → ℕ → Text
pbkdf2_block prf password salt iter block =
    let u = prf password (salt ++ big_endian (block % 2 ^ 32)) in
    fold_rounds prf password (iter - 1) u u

-- The loop over the blocks, with the number of blocks that are left.
unfoldable pub pbkdf2_blocks : (Text → Text → Text) → Text → Text → ℕ → ℕ → ℕ → Text
pbkdf2_blocks prf password salt iter zero block = []
pbkdf2_blocks prf password salt iter (suc left) block =
    pbkdf2_block prf password salt iter block
    ++ pbkdf2_blocks prf password salt iter left (block + 1)

-- `none` is the panic on parameters that are not positive.
unfoldable pub pbkdf2_key : (Text → Text → Text) → Text → Text → ℤ → ℕ → Option Text
pbkdf2_key prf password salt (negsuc iter) key_len = none
pbkdf2_key prf password salt (pos iter) key_len =
    if eqb iter 0 || eqb key_len 0
    then none
    else some (
        take key_len (pbkdf2_blocks prf password salt iter ((key_len + hash_len - 1) / hash_len) 1))

abbrev pub scheme : Text
scheme = codes "pbkdf2_sha256$"

unfoldable pub stored_form : Text → Text → Text
stored_form salt digest =
    scheme ++ (codes "260000" ++ (b'$' ∷ (salt ++ (b'$' ∷ hex_encode digest))))

-- The salt, or the error of NewRandomToken.
unfoldable pub password_hash :
    (Text → Text → Text) → Result Text Text → Text → Option (Result Text Text)
password_hash prf (err e) password = some (err e)
password_hash prf (ok salt) password =
    elim (pbkdf2_key prf password salt (pos default_pbkdf2_iterations) 32) [
      | none ↦ none
      | some digest ↦ some (ok (stored_form salt digest))
    ]

unfoldable pub is_digit : ℕ → Bool
is_digit c = leb 48 c && leb c 57

unfoldable pub scan_digits : ℕ → Text → ℕ
scan_digits n [] = n
scan_digits n (c ∷ s) =
    let rest = scan_digits (n * 10 + (c - 48)) s in if is_digit c then rest else n

-- A digit has to come first, and the number has to be an int64; what follows the digits is left.
unfoldable pub scan_number : Bool → Text → Option ℤ
scan_number negative [] = none
scan_number negative (c ∷ s) =
    let n = scan_digits 0 (c ∷ s) in
    if not (is_digit c)
    then none
    else if negative
    then (if leb n (2 ^ 63) then some (if eqb n 0 then pos 0 else negsuc (n - 1)) else none)
    else if ltb n (2 ^ 63)
    then some (pos n)
    else none

unfoldable pub scan_signed : Text → Option ℤ
scan_signed [] = none
scan_signed (c ∷ s) =
    if eqb c b'+'
    then scan_number false s
    else if eqb c b'-'
    then scan_number true s
    else scan_number false (c ∷ s)

-- fmt.Sscanf with "%d": white space is skipped, but for a line feed.
unfoldable pub sscanf_int : Text → Option ℤ
sscanf_int [] = none
sscanf_int (c ∷ s) =
    let rest = sscanf_int s in if is_space c && not (eqb c 10) then rest else scan_signed (c ∷ s)

-- The comparison with the digest that is stored in hexadecimal.
unfoldable pub compare_digest : (Text → Text → Text) → Text → Text → ℤ → Option Text → Option Bool
compare_digest prf password salt iterations none = some false
compare_digest prf password salt iterations (some expected) =
    elim (pbkdf2_key prf password salt iterations (length expected)) [
      | none ↦ none
      | some digest ↦ some (str_eq digest expected)
    ]

unfoldable pub verify_stored : (Text → Text → Text) → Text → List Text → Option Bool
verify_stored prf password (p ∷ q ∷ salt ∷ digest ∷ []) = elim (sscanf_int q) [
  | none ↦ some false
  | some iterations ↦ compare_digest prf password salt iterations (hex_decode digest)
]
verify_stored prf password parts = some false

-- `none` is a panic. A text without the scheme is compared as it is.
unfoldable pub verify_password : (Text → Text → Text) → Text → Text → Option Bool
verify_password prf password stored =
    if not (has_prefix stored scheme)
    then some (str_eq password stored)
    else verify_stored prf password (split b'$' stored)
