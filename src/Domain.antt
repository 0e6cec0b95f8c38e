-- ===== src/Domain.antt =====
-- internal/domain/models.go: the entities, the customer status, and the e-mail tags under which the
-- runtime of a node knows the proxy accounts.
-- Instants are natural numbers, nanoseconds since Go's zero time, which is 0; a nil pointer is
-- `none`; the back references that GORM would fill are left out.
pub mod Email
pub mod Status
mod Tests
use proxy_control_plane.Base.{
  ℕ, ◌+◌, ◌-◌, Text, codes, Bool, not, Option, none, some, List, [], ◌∷◌, ◌++◌, ℤ, length, take,
  drop, str_eq, leb, if◌then◌else◌, trim_space, to_lower,
}

abbrev pub Time : Type 0
Time = ℕ

pub record Customer : Type 0 where
  pub id : Text
  pub email : Text
  pub display_name : Text
  pub status : Text
  pub expires_at : Option Time
  pub password_hash : Text
  pub session_epoch : Text
  pub created_at : Time
  pub updated_at : Time

pub record ProxyNode : Type 0 where
  pub id : Text
  pub name : Text
  pub hostname : Text
  pub public_host : Text
  pub region : Text
  pub runtime : Text
  pub protocol : Text
  pub port : ℤ
  pub transport : Text
  pub security : Text
  pub sni : Text
  pub fingerprint : Text
  pub alpn : Text
  pub path : Text
  pub host_header : Text
  pub reality_public_key : Text
  pub reality_short_id : Text
  pub runtime_api_enabled : Bool
  pub runtime_api_host : Text
  pub runtime_api_port : ℤ
  pub runtime_inbound_tag : Text
  pub last_runtime_sync_at : Option Time
  pub last_runtime_sync_error : Text
  pub enabled : Bool
  pub created_at : Time
  pub updated_at : Time

pub record ProxyAccount : Type 0 where
  pub id : Text
  pub customer_id : Text
  pub protocol : Text
  pub uuid : Text
  pub email_tag : Text
  pub flow : Text
  pub enabled : Bool
  pub expires_at : Option Time
  pub traffic_limit_bytes : Option ℤ
  pub node_ids : Option (List Text)
  pub nodes : List ProxyNode
  pub created_at : Time
  pub updated_at : Time

pub record AuthRefreshToken : Type 0 where
  pub id : Text
  pub principal_type : Text
  pub customer_id : Option Text
  pub subject : Text
  pub session_version : Text
  pub token_hash : Text
  pub enabled : Bool
  pub expires_at : Time
  pub created_at : Time
  pub updated_at : Time
  pub last_used_at : Option Time
  pub last_used_ip : Text
  pub last_used_user_agent : Text
  pub revoked_at : Option Time
  pub replaced_by_id : Text

pub record SubscriptionToken : Type 0 where
  pub id : Text
  pub customer_id : Text
  pub name : Text
  pub token_hash : Text
  pub encrypted_token : Text
  pub enabled : Bool
  pub expires_at : Option Time
  pub created_at : Time
  pub updated_at : Time
  pub last_used_at : Option Time
  pub last_used_ip : Text
  pub last_used_user_agent : Text
  pub plain_token : Text

-- A byte count of a row or of a delta is an int64, held as the number below 2^64 that it is congruent
-- to; the tables refuse a negative one, from 2^63 on, by a CHECK constraint.
pub record TrafficUsage : Type 0 where
  pub id : Text
  pub proxy_account_id : Text
  pub proxy_node_id : Text
  pub upload_bytes : ℕ
  pub download_bytes : ℕ
  pub recorded_at : Time

-- `day` counts days since Go's zero time.
pub record TrafficUsageDaily : Type 0 where
  pub proxy_account_id : Text
  pub proxy_node_id : Text
  pub day : ℕ
  pub upload_bytes : ℕ
  pub download_bytes : ℕ
  pub created_at : Time
  pub updated_at : Time

pub record TrafficUsageTotal : Type 0 where
  pub customer_id : Text
  pub proxy_account_id : Text
  pub upload_bytes : ℕ
  pub download_bytes : ℕ

pub record TrafficDelta : Type 0 where
  pub proxy_account_id : Text
  pub upload_bytes : ℕ
  pub download_bytes : ℕ

pub record DomainAccessLog : Type 0 where
  pub id : Text
  pub proxy_account_id : Text
  pub proxy_node_id : Text
  pub domain : Text
  pub event_count : ℤ
  pub upload_bytes : ℤ
  pub download_bytes : ℤ
  pub accessed_at : Time
  pub created_at : Time

pub record AuditLog : Type 0 where
  pub id : Text
  pub actor : Text
  pub action : Text
  pub metadata_json : Text
  pub created_at : Time

pub record RuntimeUser : Type 0 where
  pub proxy_account_id : Text
  pub email : Text
  pub uuid : Text
  pub flow : Text

abbrev pub customer_status_active : Text
customer_status_active = codes "active"

unfoldable pub normalize_customer_status : Text → Text
normalize_customer_status status = to_lower (trim_space status)

unfoldable pub customer_status_or_default : Text → Text
customer_status_or_default status =
    let s = normalize_customer_status status in if str_eq s [] then customer_status_active else s

unfoldable pub customer_status_is_active : Text → Bool
customer_status_is_active status = str_eq (normalize_customer_status status) customer_status_active

abbrev pub prefix : Text
prefix = codes "pcp-"

abbrev pub runtime_user_email_suffix : Text
runtime_user_email_suffix = codes "@proxy-control-plane"

unfoldable pub runtime_proxy_account_email : Text → Text
runtime_proxy_account_email proxy_account_id =
    if str_eq proxy_account_id []
    then []
    else prefix ++ (proxy_account_id ++ runtime_user_email_suffix)

-- What stands between the two affixes of a text, if it is not empty.
unfoldable pub cut_affixes : Text → Text → Text → Option Text
cut_affixes pre suf email =
    if leb (length email) (length pre + length suf)
    then none
    else if not (str_eq (take (length pre) email) pre)
    then none
    else if not (str_eq (drop (length email - length suf) email) suf)
    then none
    else let id = drop (length pre) (take (length email - length suf) email) in
      if not (str_eq id []) then some id else none

-- The pair `(id, true)` is `some id`, and every `("", false)` is `none`.
unfoldable pub proxy_account_id_from_runtime_email : Text → Option Text
proxy_account_id_from_runtime_email email = cut_affixes prefix runtime_user_email_suffix email
