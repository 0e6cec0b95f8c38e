-- ===== src/Subscription/Parse.antt =====
-- internal/subscription/parse.go: the reading of a file of subscription links. url.Parse and the four
-- decodings of encoding/base64 are parameters; an error is its text up to a wrapped cause.
pub mod Lines
mod Tests
use proxy_control_plane.Base.{
  ℕ, suc, Text, codes, Bool, true, false, not, ◌&&◌, ◌||◌, Option, none, some, List, [], ◌∷◌, ◌++◌,
  keep, take, str_eq, trim_space, to_lower, equal_fold, has_prefix, contains, if◌then◌else◌, Result,
  ok, err, ◌>>=◌, ◌>>◌, eqb, leb, ℤ, pos, leb_ℤ,
}

pub record VlessLink : Type 0 where
  pub raw : Text
  pub uuid : Text
  pub email_tag : Text
  pub flow : Text
  pub host : Text
  pub port : ℤ
  pub transport : Text
  pub security : Text
  pub sni : Text
  pub fingerprint : Text
  pub alpn : Text
  pub path : Text
  pub host_header : Text
  pub reality_public_key : Text
  pub reality_short_id : Text

pub record ParseResult : Type 0 where
  pub vless_links : List VlessLink
  pub unsupported_uris : ℕ

-- What is read of a `*url.URL`: User.Username(), Hostname(), Port(), and Query().Get.
pub record Url : Type 0 where
  pub scheme : Text
  pub username : Text
  pub hostname : Text
  pub port : Text
  pub fragment : Text
  pub query : Text → Text

-- `none` is an error. `decodings` are StdEncoding, RawStdEncoding, URLEncoding and RawURLEncoding.
pub record Library : Type 0 where
  pub parse : Text → Option Url
  pub atoi : Text → Option ℤ
  pub decodings : List (Text → Option Text)

abbrev pub expect : Bool → Text → Result Text (Unit {0})
expect true message = ok tt
expect false message = err message

unfoldable pub port_of : Library → Text → Result Text ℤ
port_of lib text =
    let invalid : Result Text ℤ = err (codes "VLESS URI has invalid port") in
    if str_eq text [] then ok (pos 443) else elim (lib.atoi text) [
      | none ↦ invalid
      | some value ↦
          if not (leb_ℤ (pos 1) value) || not (leb_ℤ value (pos 65535)) then invalid else ok value
    ]

unfoldable pub link_of : Library → Text → Url → Result Text VlessLink
link_of lib raw parsed =
    let field : Text → Text = λ name. trim_space (parsed.query (name)) in
    expect (equal_fold parsed.scheme (codes "vless")) (codes "unsupported subscription URI scheme")
    >> (expect (not (str_eq (trim_space parsed.username) [])) (codes "VLESS URI is missing UUID")
        >> (expect (not (str_eq (trim_space parsed.hostname) []))
              (codes "VLESS URI is missing host")
            >> (port_of lib parsed.port >>= λ port. ok (record {
              raw = raw;
              uuid = trim_space parsed.username;
              email_tag = trim_space parsed.fragment;
              flow = field (codes "flow");
              host = trim_space parsed.hostname;
              port = port;
              transport = field (codes "type");
              security = field (codes "security");
              sni = field (codes "sni");
              fingerprint = field (codes "fp");
              alpn = field (codes "alpn");
              path = field (codes "path");
              host_header = field (codes "host");
              reality_public_key = field (codes "pbk");
              reality_short_id = field (codes "sid");
            }))))

unfoldable pub parse_vless_link : Library → Text → Result Text VlessLink
parse_vless_link lib raw = elim (lib.parse raw) [
  | none ↦ err (codes "parse VLESS URI")
  | some parsed ↦ link_of lib raw parsed
]

unfoldable pub is_scheme_byte : ℕ → Bool
is_scheme_byte c =
    (leb 97 c && leb c 122)
    || ((leb 65 c && leb c 90)
        || ((leb 48 c && leb c 57) || (eqb c b'+' || (eqb c b'-' || eqb c b'.'))))

-- The rest of a scheme, up to the first "://".
unfoldable pub ends_scheme : Text → Bool
ends_scheme [] = false
ends_scheme (c ∷ s) =
    let rest = ends_scheme s in has_prefix (c ∷ s) (codes "://") || (is_scheme_byte c && rest)

unfoldable pub looks_like_uri : Text → Bool
looks_like_uri [] = false
looks_like_uri (c ∷ s) = is_scheme_byte c && ends_scheme s

abbrev pub is_break : ℕ → Bool
is_break c = eqb c 10 || eqb c 13

abbrev pub push_field : Text → List Text → List Text
push_field [] fields = fields
push_field (c ∷ s) fields = (c ∷ s) ∷ fields

-- `strings.FieldsFunc` at line breaks: the field that the text begins with, and those after it.
unfoldable pub fields_from : Text → Text × List Text
fields_from [] = ([], [])
fields_from (c ∷ s) =
    let rest = fields_from s in
    if is_break c then ([], push_field rest.0 rest.1) else (c ∷ rest.0, rest.1)

unfoldable pub line_fields : Text → List Text
line_fields text = let split = fields_from text in push_field split.0 split.1

unfoldable pub is_vless : Text → Bool
is_vless text = has_prefix (to_lower text) (codes "vless://")

abbrev pub with_link : VlessLink → ParseResult → ParseResult
with_link link result = record result { vless_links = link ∷ result.vless_links }

unfoldable pub skip_line : Text → ParseResult → ParseResult
skip_line line result =
    if not (str_eq line []) && looks_like_uri line
    then record result { unsupported_uris = suc result.unsupported_uris }
    else result

-- The loop of `ParseLinks`.
unfoldable pub parse_lines : Library → List Text → Result Text ParseResult
parse_lines lib [] = ok (record { vless_links = []; unsupported_uris = 0 })
parse_lines lib (given ∷ lines) =
    let line = trim_space given in
    let rest = parse_lines lib lines in
    if str_eq line [] || not (is_vless line)
    then (rest >>= λ result. ok (skip_line line result))
    else (parse_vless_link lib line >>= λ link. rest >>= λ result. ok (with_link link result))

abbrev pub is_blank : ℕ → Bool
is_blank c = eqb c 32 || (eqb c 10 || (eqb c 13 || eqb c 9))

abbrev pub has_vless : Text → Bool
has_vless text = contains (to_lower text) (codes "vless://")

-- The first decoding whose result has a link.
unfoldable pub first_decoded : List (Text → Option Text) → Text → Option Text
first_decoded [] compact = none
first_decoded (decode ∷ decodings) compact =
    let rest = first_decoded decodings compact in
    elim (decode compact) [
      | none ↦ rest
      | some decoded ↦ if has_vless (trim_space decoded) then some (trim_space decoded) else rest
    ]

unfoldable pub decode_subscription_base64 : Library → Text → Option Text
decode_subscription_base64 lib text =
    let compact = keep (λ c. not (is_blank c)) text in
    if str_eq compact [] then none else first_decoded lib.decodings compact

unfoldable pub decoded_text : Library → Text → Text
decoded_text lib text =
    if has_vless text
    then text
    else elim (decode_subscription_base64 lib text) [ none ↦ text | some decoded ↦ decoded ]

unfoldable pub parse_links : Library → Text → Result Text ParseResult
parse_links lib data_text =
    let text = trim_space data_text in
    if str_eq text []
    then ok (record { vless_links = []; unsupported_uris = 0 })
    else parse_lines lib (line_fields (decoded_text lib text))

unfoldable pub parse_vless_links : Library → Text → Result Text (List VlessLink)
parse_vless_links lib data_text = parse_links lib data_text >>= λ result. ok result.vless_links
