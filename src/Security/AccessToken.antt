-- ===== src/Security/AccessToken.antt =====
-- The access tokens of internal/security/security.go: AccessClaims, CreateAccessToken and
-- VerifyAccessToken. `hmac key data` is HMAC with SHA-256, and encoding/json on the claims is the
-- record `ClaimsJson`. A duration is a number of nanoseconds.
pub mod Laws
use proxy_control_plane.Base.{
  ℕ, ◌+◌, ◌-◌, ◌/◌, Text, codes, Bool, true, false, not, ◌&&◌, ◌||◌, Option, none, some, List, [],
  ◌∷◌, ◌++◌, All, ◌<◌, ◌≡◌, str_eq, split, if◌then◌else◌, Result, ok, err, ℤ, pos, negsuc, leb,
  ltb_ℤ,
}
use proxy_control_plane.Domain.{Time}
use proxy_control_plane.Security.RawUrl.{raw_url_encode, raw_url_decode}

abbrev pub principal_type_admin : Text
principal_type_admin = codes "admin"

abbrev pub principal_type_customer : Text
principal_type_customer = codes "customer"

abbrev pub principal_subject_configured_admin : Text
principal_subject_configured_admin = codes "configured-admin"

pub record AccessClaims : Type 0 where
  pub subject : Text
  pub role : Text
  pub issued_at : ℤ
  pub expires_at : ℤ

-- `Actor`
unfoldable pub actor : AccessClaims → Text
actor c =
    if not (str_eq c.role []) && not (str_eq c.subject [])
    then c.role ++ (b':' ∷ c.subject)
    else c.subject

-- json.Marshal and json.Unmarshal on the claims; `none` is an error.
pub record ClaimsJson : Type 0 where
  pub marshal : AccessClaims → Text
  pub unmarshal : Text → Option AccessClaims

-- A text of ASCII characters, which JSON carries unchanged.
abbrev pub IsAscii : Text → Type 0
IsAscii s = All (λ c. c < 128) s

-- What is relied on: the output is made of bytes, and claims in ASCII survive the way there and back.
pub record IsClaimsJson (json : ClaimsJson) : Type 0 where
  pub bytes : (c : AccessClaims) → All (λ b. b < 256) (json.marshal c)
  pub unmarshal-marshal :
      (c : AccessClaims)
      → IsAscii c.subject
      → IsAscii c.role
      → json.unmarshal (json.marshal c) ≡ some c

-- The seconds between Go's zero time and 1970.
abbrev pub unix_offset : ℕ
unix_offset = 62135596800

-- a - b, as an integer
abbrev pub sub_ℕ : ℕ → ℕ → ℤ
sub_ℕ a b = if leb b a then pos (a - b) else negsuc (b - a - 1)

-- `t.Unix()`
unfoldable pub unix : Time → ℤ
unix t = sub_ℕ (t / 1000000000) unix_offset

-- `t.Add(d)`, where the sum is not before the zero time.
unfoldable pub add_time : Time → ℤ → Time
add_time t (pos d) = t + d
add_time t (negsuc d) = t - (d + 1)

-- The tests on the role that both functions make.
unfoldable pub supported_role : AccessClaims → Bool
supported_role c =
    (str_eq c.role principal_type_admin || str_eq c.role principal_type_customer)
    && not (
        str_eq c.role principal_type_admin
        && not (str_eq c.subject principal_subject_configured_admin))

-- The JSON of a map has its keys in order.
abbrev pub header_json : Text
header_json = codes "{\"alg\":\"HS256\",\"typ\":\"JWT\"}"

unfoldable pub signing_input : Text → Text
signing_input payload = raw_url_encode header_json ++ (b'.' ∷ raw_url_encode payload)

unfoldable pub signed : (Text → Text → Text) → Text → Text → Text
signed hmac secret_key input = input ++ (b'.' ∷ raw_url_encode (hmac secret_key input))

unfoldable pub issued : AccessClaims → Time → ℤ → AccessClaims
issued claims now ttl = record claims { issued_at = unix now; expires_at = unix (add_time now ttl) }

unfoldable pub create_access_token :
    (Text → Text → Text) → ClaimsJson → AccessClaims → Text → ℤ → Time → Result Text Text
create_access_token hmac json claims secret_key ttl now =
    if str_eq claims.subject [] || str_eq claims.role []
    then err (codes "access token subject and role are required")
    else if not (str_eq claims.role principal_type_admin)
        && not (str_eq claims.role principal_type_customer)
    then err (codes "unsupported access token role")
    else if str_eq claims.role principal_type_admin
        && not (str_eq claims.subject principal_subject_configured_admin)
    then err (codes "admin access token requires configured admin subject")
    else ok (signed hmac secret_key (signing_input (json.marshal (issued claims now ttl))))

unfoldable pub accepted_claims : AccessClaims → Time → Bool
accepted_claims claims now =
    not (str_eq claims.subject [] || (str_eq claims.role [] || ltb_ℤ claims.expires_at (unix now)))
    && supported_role claims

unfoldable pub check_claims : Time → Option AccessClaims → Option AccessClaims
check_claims now none = none
check_claims now (some claims) = if accepted_claims claims now then some claims else none

unfoldable pub check_payload : ClaimsJson → Time → Option Text → Option AccessClaims
check_payload json now none = none
check_payload json now (some payload) = check_claims now (json.unmarshal payload)

unfoldable pub check_signature :
    (Text → Text → Text)
    → ClaimsJson
    → Text
    → Text
    → Text
    → Time
    → Option Text
    → Option AccessClaims
check_signature hmac json secret_key input payload now none = none
check_signature hmac json secret_key input payload now (some signature) =
    if not (str_eq signature (hmac secret_key input))
    then none
    else check_payload json now (raw_url_decode payload)

unfoldable pub verify_parts :
    (Text → Text → Text) → ClaimsJson → Text → Time → List Text → Option AccessClaims
verify_parts hmac json secret_key now (p ∷ q ∷ r ∷ []) =
    check_signature hmac json secret_key (p ++ (b'.' ∷ q)) q now (raw_url_decode r)
verify_parts hmac json secret_key now parts = none

-- The claims of a token that is accepted.
unfoldable pub verify_access_token :
    (Text → Text → Text) → ClaimsJson → Text → Text → Time → Option AccessClaims
verify_access_token hmac json token secret_key now =
    verify_parts hmac json secret_key now (split b'.' token)
