-- ===== src/Security/Encryption/Laws.antt =====
-- A text that is encrypted decrypts to itself.
use proxy_control_plane.Base.{
  trim_space, Text, false, true, [], ◌≡◌, ◌≢◌, refl, length, str_eq, split_three, Result, ok,
  Result-cases, eqb, arith, inl, inr, Bool-cases,
}
use proxy_control_plane.Config.{parse_database_encryption_key}
use proxy_control_plane.Security.RawUrl.{raw_url_encode}
use proxy_control_plane.Security.RawUrl.Laws.{
  IsBytes, raw_url_decode-encode, raw_url_encode-IsUrlByte, Lacks-colon,
}
use proxy_control_plane.Security.Encryption.{
  Aead, IsAead, encrypted_string_version, encrypted, encrypt_string, open_text, decoded,
  decrypt_parts, decrypt_string, encrypt_string_with_base64_key, decrypt_string_with_base64_key,
}

module _ (aead : Aead) (laws : IsAead aead) (key nonce plaintext : Text)
    (size : length nonce ≡ aead.nonce_size) (bytes : IsBytes nonce)
    (plain : IsBytes plaintext) where
  decrypt-encrypted :
      eqb (length key) 32 ≡ true
      → decrypt_string aead key (encrypted nonce (aead.seal key nonce plaintext)) ≡ ok plaintext
  unfolding decrypt_string encrypted decrypt_parts decoded open_text str_eq
  decrypt-encrypted long =
      let c = aead.seal key nonce plaintext in
      let parts =
        split_three b':' encrypted_string_version (raw_url_encode nonce) (raw_url_encode c)
          (refl, (refl, tt))
          (Lacks-colon (raw_url_encode nonce) (raw_url_encode-IsUrlByte nonce bytes))
          (Lacks-colon (raw_url_encode c)
            (raw_url_encode-IsUrlByte c (laws.bytes key nonce plaintext))) in
      let own : eqb (length nonce) aead.nonce_size ≡ true = ground arith in
      rw
        (
          long,
          parts,
          decoded,
          raw_url_decode-encode nonce bytes,
          raw_url_decode-encode c (laws.bytes key nonce plaintext),
          open_text,
          own,
          laws.unseal-seal key nonce plaintext plain,
        )
        refl

-- A key that parses is empty or has 32 bytes.
parsed_length :
    (decode : Text → Result Text Text) (given key : Text)
    → parse_database_encryption_key decode given ≡ ok key
    → key ≢ []
    → eqb (length key) 32 ≡ true
unfolding parse_database_encryption_key
parsed_length decode given key h some_key = elim (Bool-cases (str_eq (trim_space given) [])) [
  | inl e ↦ absurd (some_key (ground arith))
  | inr e ↦ elim (Result-cases (decode (trim_space given))) [
    | inl (k, d) ↦ ground (arith, d)
    | inr (x, d) ↦ absurd (ground arith)
  ]
]

-- Under a configured key that parses, encryption returns a text, and under the same key this text
-- decrypts to the plaintext; the nonce is of the size that the cipher wants.
pub decrypt-encrypt :
    (decode : Text → Result Text Text) (aead : Aead) (encoded_key key nonce plaintext : Text)
    → IsAead aead
    → parse_database_encryption_key decode encoded_key ≡ ok key
    → key ≢ []
    → length nonce ≡ aead.nonce_size
    → IsBytes nonce
    → IsBytes plaintext
    → (text : Text) × (encrypt_string_with_base64_key decode aead (ok nonce) encoded_key plaintext
        ≡ ok text)
      × (decrypt_string_with_base64_key decode aead encoded_key text ≡ ok plaintext)
unfolding encrypt_string_with_base64_key decrypt_string_with_base64_key encrypt_string
decrypt-encrypt decode aead encoded_key key nonce plaintext laws parsed some_key size bytes plain =
    let long = parsed_length decode encoded_key key parsed some_key in
    let full : eqb (length key) 0 ≡ false = ground arith in
    (
      encrypted nonce (aead.seal key nonce plaintext),
      rw (parsed, full, long) refl,
      rw (parsed, full) (decrypt-encrypted aead laws key nonce plaintext size bytes plain long),
    )
