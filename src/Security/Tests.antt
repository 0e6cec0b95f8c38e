-- ===== src/Security/Tests.antt =====
-- The security functions with small stand-ins for the cryptography and the JSON.
use proxy_control_plane.Base.{
  ℕ, zero, suc, ◌%◌, ◌<◌, Text, codes, true, Option, none, some, List, [], ◌∷◌, ◌++◌, ◌≡◌, refl, ap,
  ◌∙◌, map, length, All-imp, All-append, Lacks, Lacks-of, split, split-append, split-Lacks, str_eq,
  if◌then◌else◌, eqb, arith, Result, ok, ℤ, pos, negsuc, inr, trim_space, trim_left, trim_right,
  is_space,
}
use proxy_control_plane.Domain.{Time}
use proxy_control_plane.Config.{parse_database_encryption_key}
use proxy_control_plane.Security.RawUrl.Laws.{IsBytes}
use proxy_control_plane.Security.RawUrl.{
  raw_url_encode, raw_url_decode, sextets, url_digit, url_value, url_values, bytes_of, hex_encode,
  hex_lower, hex_decode, hex_value,
}
use proxy_control_plane.Security.AccessToken.{
  AccessClaims, ClaimsJson, IsClaimsJson, IsAscii, unix, add_time, issued, create_access_token,
  verify_access_token, principal_type_customer, header_json,
}
use proxy_control_plane.Security.AccessToken.Laws.{IsGenuine, verify-create, verify_sound}
use proxy_control_plane.Security.Encryption.{
  Aead, IsAead, encrypt_string_with_base64_key, decrypt_string_with_base64_key,
}
use proxy_control_plane.Security.Encryption.Laws.{decrypt-encrypt}
use proxy_control_plane.Security.Password.{
  password_hash, verify_password, sscanf_int, scan_signed, scan_number, scan_digits, is_digit,
  verify_stored, compare_digest, pbkdf2_key,
}
use proxy_control_plane.Security.Password.Laws.{IsSum, verify-hash}
use proxy_control_plane.Security.Ids.{new_id, dashed, version_bits, change}

header_text :
    header_json
    ≡ b'{' ∷ b'"' ∷ codes "alg"
      ++ (b'"' ∷ b':' ∷ b'"' ∷ codes "HS256"
          ++ (b'"' ∷ b',' ∷ b'"' ∷ codes "typ"
              ++ (b'"' ∷ b':' ∷ b'"' ∷ codes "JWT" ++ (b'"' ∷ b'}' ∷ []))))
header_text = refl

encodes : raw_url_encode (codes "Man~?") ≡ codes "TWFufj8"
unfolding raw_url_encode sextets url_digit
encodes = refl

decodes : raw_url_decode (codes "TWF\nufj8") ≡ some (codes "Man~?")
unfolding raw_url_decode url_values url_value bytes_of
decodes = refl

decodes_no_half : raw_url_decode (codes "TWFuf") ≡ none
unfolding raw_url_decode url_values url_value bytes_of
decodes_no_half = refl

zeros : ℕ → Text
zeros zero = []
zeros (suc n) = 0 ∷ zeros n

uuid : new_id (ok (zeros 16)) ≡ ok (codes "00000000-0000-4000-8000-000000000000")
unfolding new_id dashed version_bits change hex_encode hex_lower zeros
uuid = refl

abbrev low : ℕ → ℕ
low c = c % 256

abbrev mac : Text → Text → Text
mac key text = map low (key ++ text)

map-low-IsBytes : (s : Text) → IsBytes (map low s)
map-low-IsBytes [] = tt
map-low-IsBytes (c ∷ s) = (omega arith, map-low-IsBytes s)

map-low_fixed : (s : Text) → IsBytes s → map low s ≡ s
map-low_fixed [] h = refl
map-low_fixed (c ∷ s) h = let own : c % 256 ≡ c = omega arith in λ i. own i ∷ map-low_fixed s h.1 i

-- Claims as four parts between bytes 200, with numbers in unary.
ones : ℕ → Text
ones zero = []
ones (suc n) = 49 ∷ ones n

unary : ℤ → Text
unary (pos n) = 43 ∷ ones n
unary (negsuc n) = 45 ∷ ones n

read_unary : Text → ℤ
read_unary [] = pos 0
read_unary (c ∷ s) = if eqb c 43 then pos (length s) else negsuc (length s)

length-ones : (n : ℕ) → length (ones n) ≡ n
unfolding ones
length-ones zero = refl
length-ones (suc n) = ap suc (length-ones n)

read-unary : (v : ℤ) → read_unary (unary v) ≡ v
unfolding read_unary unary
read-unary (pos n) = ap pos (length-ones n)
read-unary (negsuc n) = ap negsuc (length-ones n)

ones-IsBytes : (n : ℕ) → IsBytes (ones n)
unfolding ones
ones-IsBytes zero = tt
ones-IsBytes (suc n) = (omega arith, ones-IsBytes n)

ones-Lacks : (n : ℕ) → Lacks 200 (ones n)
unfolding ones
ones-Lacks zero = tt
ones-Lacks (suc n) = (refl, ones-Lacks n)

unary-IsBytes : (v : ℤ) → IsBytes (unary v)
unfolding unary
unary-IsBytes (pos n) = (omega arith, ones-IsBytes n)
unary-IsBytes (negsuc n) = (omega arith, ones-IsBytes n)

unary-Lacks : (v : ℤ) → Lacks 200 (unary v)
unfolding unary
unary-Lacks (pos n) = (refl, ones-Lacks n)
unary-Lacks (negsuc n) = (refl, ones-Lacks n)

ascii-Lacks : (s : Text) → IsAscii s → Lacks 200 s
ascii-Lacks s h = All-imp (λ c (lt : c < 128). ground arith) s h

read_parts : List Text → Option AccessClaims
read_parts (s ∷ r ∷ i ∷ e ∷ []) =
    some (record { subject = s; role = r; issued_at = read_unary i; expires_at = read_unary e })
read_parts parts = none

write_claims : Text → Text → ℤ → ℤ → Text
write_claims s r i e = map low s ++ (200 ∷ (map low r ++ (200 ∷ (unary i ++ (200 ∷ unary e)))))

abbrev json : ClaimsJson
json = record {
  marshal = λ c. write_claims c.subject c.role c.issued_at c.expires_at;
  unmarshal = λ s. read_parts (split 200 s);
}

append-IsBytes : (s t : Text) → IsBytes s → IsBytes t → IsBytes (s ++ t)
append-IsBytes s t = All-append (λ c. c < 256) s t

write_claims-IsBytes : (s r : Text) (i e : ℤ) → IsBytes (write_claims s r i e)
unfolding write_claims
write_claims-IsBytes s r i e = append-IsBytes (map low s) _ (map-low-IsBytes s) (
  omega arith,
  append-IsBytes (map low r) _ (map-low-IsBytes r)
      (omega arith, append-IsBytes (unary i) _ (unary-IsBytes i) (omega arith, unary-IsBytes e)),
)

ascii-IsBytes : (s : Text) → IsAscii s → IsBytes s
ascii-IsBytes s h = All-imp (λ c (lt : c < 128). omega arith) s h

split-write_claims :
    (s r : Text) (i e : ℤ)
    → IsAscii s
    → IsAscii r
    → split 200 (write_claims s r i e) ≡ s ∷ r ∷ unary i ∷ unary e ∷ []
unfolding write_claims
split-write_claims s r i e hs hr =
    rw (map-low_fixed s (ascii-IsBytes s hs), map-low_fixed r (ascii-IsBytes r hr))
      (split-append 200 s (r ++ (200 ∷ (unary i ++ (200 ∷ unary e)))) (ascii-Lacks s hs)
        ∙ ap (λ ps. s ∷ ps)
            (split-append 200 r (unary i ++ (200 ∷ unary e)) (ascii-Lacks r hr)
              ∙ ap (λ ps. r ∷ ps)
                  (split-append 200 (unary i) (unary e) (unary-Lacks i)
                    ∙ ap (λ ps. unary i ∷ ps) (split-Lacks 200 (unary e) (unary-Lacks e)))))

codec : IsClaimsJson json
unfolding read_parts
codec = record {
  bytes = λ c. write_claims-IsBytes c.subject c.role c.issued_at c.expires_at;
  unmarshal-marshal = λ c hs hr.
      ap read_parts (split-write_claims c.subject c.role c.issued_at c.expires_at hs hr) ∙ (λ i.
        some (record {
          subject = c.subject;
          role = c.role;
          issued_at = read-unary c.issued_at i;
          expires_at = read-unary c.expires_at i;
        }));
}

abbrev claims : AccessClaims
claims = record {
  subject = codes "c1";
  role = principal_type_customer;
  issued_at = pos 0;
  expires_at = pos 0;
}

-- 1970, and half a minute later
abbrev issue_time : Time
issue_time = 62135596800000000000

abbrev verify_time : Time
verify_time = 62135596830000000000

mac-IsBytes : (k d : Text) → IsBytes (mac k d)
mac-IsBytes k d = map-low-IsBytes (k ++ d)

verify-create_example :
    (token : Text) × (create_access_token mac json claims (codes "key") (pos 60000000000) issue_time
      ≡ ok token)
    × (verify_access_token mac json token (codes "key") verify_time
        ≡ some (issued claims issue_time (pos 60000000000)))
unfolding unix add_time str_eq
verify-create_example =
    verify-create mac json (codes "key") claims (pos 60000000000) issue_time verify_time mac-IsBytes
      codec (inr (refl, refl)) (omega arith) refl

verify_sound_example :
    IsGenuine mac json verify-create_example.0
      (codes "key")
      verify_time
      (issued claims issue_time (pos 60000000000))
verify_sound_example =
    verify_sound mac json (codes "key") verify-create_example.0 verify_time
      (issued claims issue_time (pos 60000000000)) verify-create_example.2

abbrev aead : Aead
aead = record {
  nonce_size = 2;
  seal = λ key nonce text. map low text;
  unseal = λ key nonce text. some text;
}

aead_laws : IsAead aead
aead_laws = record {
  bytes = λ key nonce text. map-low-IsBytes text;
  unseal-seal = λ key nonce text h. ap some (map-low_fixed text h);
}

abbrev decode : Text → Result Text Text
decode key = ok (codes "0123456789abcdef0123456789abcdef")

abbrev nonce : Text
nonce = 7 ∷ 9 ∷ []

key_parsed :
    parse_database_encryption_key decode (codes "k") ≡ ok (codes "0123456789abcdef0123456789abcdef")
unfolding parse_database_encryption_key trim_space trim_left trim_right is_space str_eq
key_parsed = refl

decrypt-encrypt_example :
    (text : Text) × (encrypt_string_with_base64_key decode aead
        (ok nonce)
        (codes "k")
        (codes "secret")
      ≡ ok text)
    × (decrypt_string_with_base64_key decode aead (codes "k") text ≡ ok (codes "secret"))
decrypt-encrypt_example =
    decrypt-encrypt decode aead (codes "k") (codes "0123456789abcdef0123456789abcdef") nonce
      (codes "secret") aead_laws key_parsed (cc) refl (omega arith) (omega arith)

-- A sum of 32 bytes
abbrev sum : Text → Text → Text
sum key text =
    length key % 256
    ∷ length text % 256
    ∷ 0
    ∷ 0
    ∷ 0
    ∷ 0
    ∷ 0
    ∷ 0
    ∷ 0
    ∷ 0
    ∷ 0
    ∷ 0
    ∷ 0
    ∷ 0
    ∷ 0
    ∷ 0
    ∷ 0
    ∷ 0
    ∷ 0
    ∷ 0
    ∷ 0
    ∷ 0
    ∷ 0
    ∷ 0
    ∷ 0
    ∷ 0
    ∷ 0
    ∷ 0
    ∷ 0
    ∷ 0
    ∷ 0
    ∷ 0
    ∷ []

sum-IsSum : (k d : Text) → IsSum (sum k d)
sum-IsSum k d = omega arith

verify-hash_example :
    (stored : Text) × (password_hash sum (ok (codes "salt")) (codes "correct horse")
      ≡ some (ok stored))
    × (verify_password sum (codes "correct horse") stored ≡ some true)
verify-hash_example =
    verify-hash sum (codes "salt") (codes "correct horse") sum-IsSum
      (Lacks-of b'$' (codes "salt") refl)

-- A stored text with no iterations, or with no digest, makes the comparison panic.
verify_panics : verify_password sum (codes "x") (codes "pbkdf2_sha256$0$salt$00") ≡ none
unfolding verify_password verify_stored compare_digest pbkdf2_key sscanf_int scan_signed scan_number
    scan_digits is_digit is_space split str_eq hex_decode hex_value
verify_panics = refl
