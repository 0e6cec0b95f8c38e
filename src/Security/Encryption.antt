-- ===== src/Security/Encryption.antt =====
-- EncryptString and DecryptString of internal/security/security.go, also under an encoded key.
-- AES-GCM is the record `Aead`, and what rand.Read fills the nonce with is an argument. Of an error
-- of base64 or of AES-GCM only the words that the code puts before it are kept.
pub mod Laws
use proxy_control_plane.Base.{
  ℕ, Text, codes, Bool, not, ◌&&◌, Option, none, some, List, [], ◌∷◌, ◌++◌, All, ◌<◌, ◌≡◌, length,
  str_eq, split, if◌then◌else◌, is_nil, Result, ok, err, ◌>>=◌, eqb,
}
use proxy_control_plane.Config.{parse_database_encryption_key}
use proxy_control_plane.Security.RawUrl.{raw_url_encode, raw_url_decode}

-- The arguments are the key, the nonce, and the text to seal or to open.
pub record Aead : Type 0 where
  pub nonce_size : ℕ
  pub seal : Text → Text → Text → Text
  pub unseal : Text → Text → Text → Option Text

-- What is relied on: opening under the same key and nonce undoes sealing, and the output is bytes.
pub record IsAead (aead : Aead) : Type 0 where
  pub bytes : (key nonce text : Text) → All (λ b. b < 256) (aead.seal key nonce text)
  pub unseal-seal :
      (key nonce text : Text)
      → All (λ b. b < 256) text
      → aead.unseal key nonce (aead.seal key nonce text) ≡ some text

abbrev pub database_encryption_key_bytes : ℕ
database_encryption_key_bytes = 32

abbrev pub encrypted_string_version : Text
encrypted_string_version = codes "v1"

unfoldable pub encrypted : Text → Text → Text
encrypted nonce ciphertext =
    encrypted_string_version
    ++ (b':' ∷ (raw_url_encode nonce ++ (b':' ∷ raw_url_encode ciphertext)))

unfoldable pub encrypt_string : Aead → Result Text Text → Text → Text → Result Text Text
encrypt_string aead random key plaintext =
    if not (eqb (length key) database_encryption_key_bytes)
    then err (codes "database encryption key must be 32 bytes")
    else random >>= λ nonce. ok (encrypted nonce (aead.seal key nonce plaintext))

unfoldable pub open_text : Aead → Text → Text → Text → Result Text Text
open_text aead key nonce ciphertext =
    if not (eqb (length nonce) aead.nonce_size)
    then err (codes "encrypted string nonce has invalid length")
    else elim (aead.unseal key nonce ciphertext) [ none ↦ err [] | some text ↦ ok text ]

unfoldable pub decoded : Text → Text → Result Text Text
decoded failure part = elim (raw_url_decode part) [ none ↦ err failure | some bytes ↦ ok bytes ]

unfoldable pub decrypt_parts : Aead → Text → List Text → Result Text Text
decrypt_parts aead key (version ∷ p ∷ q ∷ []) =
    if not (str_eq version encrypted_string_version)
    then err (codes "unsupported encrypted string format")
    else decoded (codes "decode encrypted string nonce") p >>= λ nonce.
        decoded (codes "decode encrypted string ciphertext") q >>= λ ciphertext.
        open_text aead key nonce ciphertext
decrypt_parts aead key parts = err (codes "unsupported encrypted string format")

unfoldable pub decrypt_string : Aead → Text → Text → Result Text Text
decrypt_string aead key text =
    if not (eqb (length key) database_encryption_key_bytes)
    then err (codes "database encryption key must be 32 bytes")
    else decrypt_parts aead key (split b':' text)

-- No key is configured: nothing is stored.
unfoldable pub encrypt_string_with_base64_key :
    (Text → Result Text Text) → Aead → Result Text Text → Text → Text → Result Text Text
encrypt_string_with_base64_key decode aead random encoded_key plaintext =
    parse_database_encryption_key decode encoded_key >>= λ key.
    if eqb (length key) 0 then ok [] else encrypt_string aead random key plaintext

unfoldable pub decrypt_string_with_base64_key :
    (Text → Result Text Text) → Aead → Text → Text → Result Text Text
decrypt_string_with_base64_key decode aead encoded_key text =
    parse_database_encryption_key decode encoded_key >>= λ key.
    if eqb (length key) 0
    then err (codes "database encryption key is required")
    else decrypt_string aead key text
