-- ===== src/Security/Ids.antt =====
-- NewID, NewRandomToken, TokenDigest and AuthSessionVersion of internal/security/security.go; what
-- rand.Read returns is an argument, and `sha256` and `hmac` are parameters.
pub mod Laws
use proxy_control_plane.Base.{
  ℕ, zero, suc, ◌+◌, ◌%◌, Text, List, [], ◌∷◌, ◌++◌, take, drop, Result, ok, err, ◌>>=◌,
}
use proxy_control_plane.Security.RawUrl.{raw_url_encode, hex_encode}

-- `b[i] = f(b[i])`
unfoldable pub change : ℕ → (ℕ → ℕ) → Text → Text
change i f [] = []
change zero f (c ∷ s) = f c ∷ s
change (suc i) f (c ∷ s) = c ∷ change i f s

-- `(b & 0x0f) | 0x40` at 6 and `(b & 0x3f) | 0x80` at 8
unfoldable pub version_bits : Text → Text
version_bits b = change 8 (λ c. c % 64 + 128) (change 6 (λ c. c % 16 + 64) b)

-- `%08x-%04x-%04x-%04x-%012x` of 4, 2, 2, 2 and 6 bytes
unfoldable pub dashed : Text → Text
dashed b =
    hex_encode (take 4 b)
    ++ (b'-'
        ∷ (hex_encode (take 2 (drop 4 b))
            ++ (b'-'
                ∷ (hex_encode (take 2 (drop 6 b))
                    ++ (b'-'
                        ∷ (hex_encode (take 2 (drop 8 b)) ++ (b'-' ∷ hex_encode (drop 10 b))))))))

unfoldable pub new_id : Result Text Text → Result Text Text
new_id random = random >>= λ b. ok (dashed (version_bits b))

unfoldable pub new_random_token : Result Text Text → Result Text Text
new_random_token random = random >>= λ b. ok (raw_url_encode b)

unfoldable pub token_digest : (Text → Text) → Text → Text
token_digest sha256 token = hex_encode (sha256 token)

-- A zero byte before each part.
unfoldable pub session_input : List Text → Text
session_input [] = []
session_input (part ∷ parts) = 0 ∷ (part ++ session_input parts)

unfoldable pub auth_session_version : (Text → Text → Text) → Text → List Text → Text
auth_session_version hmac secret_key parts = hex_encode (hmac secret_key (session_input parts))
