-- ===== src/HttpApi/Patch.antt =====
-- The patch functions of internal/httpapi/server.go. The fields of a body are their raw JSON texts by
-- name, and json.Unmarshal into each type is the record `Json`; `none` is an error. A patch that fails
-- ends the handler, so what it has assigned before is not seen.
pub mod Rows
use proxy_control_plane.Base.{
  Text, codes, Bool, true, false, not, ◌&&◌, Option, none, some, List, [], ◌++◌, str_eq, trim_space,
  if◌then◌else◌, Result, ok, err, ◌>>=◌, ◌>>◌, ℤ, pos, ltb_ℤ, Dict, get, length, ltb,
}
use proxy_control_plane.Domain.{Time, ProxyNode}
use proxy_control_plane.Store.Nodes.{valid_port, valid_runtime_api_port}
use proxy_control_plane.Security.Password.{password_hash}
use proxy_control_plane.HttpApi.Action.{Failure}

pub record Json : Type 0 where
  pub string : Text → Option Text
  pub bool : Text → Option Bool
  pub int : Text → Option ℤ
  pub time : Text → Option Time
  pub strings : Text → Option (List Text)

abbrev pub Fields : Type 0
Fields = Dict Text

unfoldable pub json_null : Text → Bool
json_null raw = str_eq (trim_space raw) (codes "null")

abbrev pub bad_request : {A : Type 0} → Text → Result Failure A
bad_request message = err (record { status = 400; message = message })

-- `decodePatchValue`
unfoldable pub decode_patch_value :
    {A : Type 0} → (Text → Option A) → Text → Text → Result Failure A
decode_patch_value decode name raw = elim (decode raw) [
  | none ↦ bad_request (name ++ codes " has invalid value")
  | some value ↦ ok value
]

abbrev pub ensure : Bool → Text → Result Failure (Unit {0})
ensure true message = ok tt
ensure false message = bad_request message

-- A field that is there and is not null.
unfoldable pub patch_with :
    {A : Type 0}
    → (Text → Option A)
    → (A → Bool)
    → Text
    → Text
    → Result Failure A
    → Text
    → Result Failure A
patch_with decode valid message name on_null raw =
    if json_null raw
    then on_null
    else decode_patch_value decode name raw >>= λ value. ensure (valid value) message >> ok value

unfoldable pub patch_field :
    {A : Type 0}
    → (Text → Option A)
    → (A → Bool)
    → Text
    → Result Failure A
    → Fields
    → Text
    → A
    → Result Failure A
patch_field decode valid message on_null fields name target = elim (get name fields) [
  | none ↦ ok target
  | some raw ↦ patch_with decode valid message name on_null raw
]

abbrev pub null_error : {A : Type 0} → Text → Result Failure A
null_error name = bad_request (name ++ codes " cannot be null")

abbrev pub anything : {A : Type 0} → A → Bool
anything a = true

-- `patchString`, with `nullable` and `nonEmpty`
unfoldable pub patch_string : Json → Fields → Text → Text → Bool → Bool → Result Failure Text
patch_string json fields name target nullable non_empty =
    patch_field json.string (λ value. not (non_empty && str_eq (trim_space value) []))
      (name ++ codes " is required") (if nullable then ok [] else null_error name) fields name
      target

unfoldable pub patch_bool : Json → Fields → Text → Bool → Result Failure Bool
patch_bool json fields name target =
    patch_field json.bool anything [] (null_error name) fields name target

unfoldable pub patch_int : Json → Fields → Text → ℤ → (ℤ → Bool) → Text → Result Failure ℤ
patch_int json fields name target valid message =
    patch_field json.int valid message (null_error name) fields name target

abbrev pub some_of : {A : Type 0} → (Text → Option A) → Text → Option (Option A)
some_of decode raw = elim (decode raw) [ none ↦ none | some a ↦ some (some a) ]

unfoldable pub patch_optional_time :
    Json → Fields → Text → Option Time → Result Failure (Option Time)
patch_optional_time json fields name target =
    patch_field (some_of json.time) anything [] (ok none) fields name target

abbrev pub is_negative : Option ℤ → Bool
is_negative none = false
is_negative (some v) = ltb_ℤ v (pos 0)

unfoldable pub patch_optional_int64 : Json → Fields → Text → Option ℤ → Result Failure (Option ℤ)
patch_optional_int64 json fields name target =
    patch_field (some_of json.int) (λ v. not (is_negative v)) (name ++ codes " cannot be negative")
      (ok none) fields name target

unfoldable pub patch_string_slice :
    Json → Fields → Text → Option (List Text) → Result Failure (Option (List Text))
patch_string_slice json fields name target =
    patch_field (some_of json.strings) anything [] (ok (some [])) fields name target

unfoldable pub apply_node_patch : Json → Fields → ProxyNode → Result Failure ProxyNode
apply_node_patch json fields node = do
  name ← patch_string json fields (codes "name") node.name false true
  hostname ← patch_string json fields (codes "hostname") node.hostname false true
  public_host ← patch_string json fields (codes "public_host") node.public_host true false
  region ← patch_string json fields (codes "region") node.region true false
  runtime ← patch_string json fields (codes "runtime") node.runtime false true
  protocol ← patch_string json fields (codes "protocol") node.protocol false true
  port ←
      patch_int json fields (codes "port") node.port valid_port
        (codes "port must be between 1 and 65535")
  transport ← patch_string json fields (codes "transport") node.transport false true
  security ← patch_string json fields (codes "security") node.security false true
  sni ← patch_string json fields (codes "sni") node.sni true false
  fingerprint ← patch_string json fields (codes "fingerprint") node.fingerprint true false
  alpn ← patch_string json fields (codes "alpn") node.alpn true false
  path ← patch_string json fields (codes "path") node.path true false
  host_header ← patch_string json fields (codes "host_header") node.host_header true false
  public_key ←
      patch_string json fields (codes "reality_public_key") node.reality_public_key true false
  short_id ← patch_string json fields (codes "reality_short_id") node.reality_short_id true false
  api_enabled ← patch_bool json fields (codes "runtime_api_enabled") node.runtime_api_enabled
  api_host ← patch_string json fields (codes "runtime_api_host") node.runtime_api_host true false
  api_port ←
      patch_int json fields (codes "runtime_api_port") node.runtime_api_port valid_runtime_api_port
        (codes "runtime_api_port must be 0 or between 1 and 65535")
  inbound_tag ←
      patch_string json fields (codes "runtime_inbound_tag") node.runtime_inbound_tag true false
  enabled ← patch_bool json fields (codes "enabled") node.enabled
  ok (record node {
    name = name;
    hostname = hostname;
    public_host = public_host;
    region = region;
    runtime = runtime;
    protocol = protocol;
    port = port;
    transport = transport;
    security = security;
    sni = sni;
    fingerprint = fingerprint;
    alpn = alpn;
    path = path;
    host_header = host_header;
    reality_public_key = public_key;
    reality_short_id = short_id;
    runtime_api_enabled = api_enabled;
    runtime_api_host = api_host;
    runtime_api_port = api_port;
    runtime_inbound_tag = inbound_tag;
    enabled = enabled;
  })

-- `passwordHashFromRequest`; a panic becomes status 500 with no body.
unfoldable pub password_hash_from_request :
    (Text → Text → Text) → Result Text Text → Text → Bool → Result Failure Text
password_hash_from_request hmac salt password allow_empty =
    if str_eq password []
    then if allow_empty then ok [] else bad_request (codes "password is required")
    else if ltb (length password) 8
    then bad_request (codes "password must contain at least 8 characters")
    else elim (password_hash hmac salt password) [
      | none ↦ err (record { status = 500; message = [] })
      | some (err e) ↦ err (record { status = 500; message = codes "could not hash password" })
      | some (ok hash) ↦ ok hash
    ]

unfoldable pub patch_customer_password :
    (Text → Text → Text) → Json → Result Text Text → Fields → Text → Result Failure Text
patch_customer_password hmac json salt fields target = elim (get (codes "password") fields) [
  | none ↦ ok target
  | some raw ↦
      if json_null raw
      then ok []
      else decode_patch_value json.string (codes "password") raw >>= λ password.
          password_hash_from_request hmac salt password false
]

-- Whether the sessions are to be reset.
unfoldable pub patch_customer_session_reset : Json → Fields → Result Failure Bool
patch_customer_session_reset json fields =
    patch_field json.bool anything [] (null_error (codes "reset_sessions")) fields
      (codes "reset_sessions") false
