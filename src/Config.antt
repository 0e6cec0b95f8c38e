-- ===== src/Config.antt =====
-- internal/config/config.go: the configuration and the checks before the server starts, with
-- ParseDatabaseEncryptionKey of internal/security/security.go. A duration is a number of nanoseconds;
-- `decode` is the decoding of base64.StdEncoding.
pub mod Accepts
pub mod Load
mod Tests
use proxy_control_plane.Base.{
  ℕ, Text, codes, Bool, true, false, not, ◌&&◌, ◌||◌, Option, none, some, List, [], ◌∷◌, ◌++◌, drop,
  length, take, str_eq, has_prefix, trim_space, equal_fold, is_nil, if◌then◌else◌, Result, ok, err,
  ℤ, pos, leb_ℤ, ltb, leb, eqb, ◌-◌, ◌+◌, ◌*◌, ◌%◌, ◌^◌, negsuc,
}

pub record Config : Type 0 where
  pub app_name : Text
  pub environment : Text
  pub listen_addr : Text
  pub database_url : Text
  pub admin_email : Text
  pub admin_password : Text
  pub admin_session_epoch : Text
  pub secret_key : Text
  pub database_encryption_key : Text
  pub access_token_expire_minutes : ℤ
  pub refresh_token_expire_hours : ℤ
  pub auto_create_database : Bool
  pub auto_migrate : Bool
  pub runtime_sync_enabled : Bool
  pub runtime_sync_interval : ℤ
  pub runtime_sync_timeout : ℤ
  pub runtime_sync_concurrency : ℤ
  pub traffic_sync_enabled : Bool
  pub traffic_sync_interval : ℤ
  pub traffic_sync_timeout : ℤ
  pub traffic_sync_concurrency : ℤ
  pub maintenance_cleanup_enabled : Bool
  pub maintenance_cleanup_interval : ℤ
  pub maintenance_audit_retention : Text
  pub maintenance_traffic_retention : Text
  pub maintenance_traffic_daily_retention : Text
  pub maintenance_domain_access_retention : Text
  pub maintenance_auth_refresh_retention : Text

unfoldable pub has_suffix : Text → Text → Bool
has_suffix s suf = leb (length suf) (length s) && str_eq (drop (length s - length suf) s) suf

unfoldable pub is_placeholder_secret : Text → Bool
is_placeholder_secret given =
    let value = trim_space given in
    if str_eq value []
    then true
    else if has_prefix value (codes "change-me") || has_prefix value (codes "change-this")
    then true
    else has_prefix value (codes "<") && has_suffix value (codes ">")

-- The key, empty where none is set, or the text of the error.
unfoldable pub parse_database_encryption_key : (Text → Result Text Text) → Text → Result Text Text
parse_database_encryption_key decode given =
    let value = trim_space given in
    if str_eq value [] then ok [] else elim (decode value) [
      | err e ↦ err (codes "database encryption key must be base64: " ++ e)
      | ok key ↦
          if not (eqb (length key) 32)
          then err (codes "database encryption key must decode to 32 bytes")
          else ok key
    ]

-- `if failing { problems = append(problems, text) }`
abbrev pub problem : Bool → Text → List Text
problem failing text = if failing then text ∷ [] else []

unfoldable pub key_problems : (Text → Result Text Text) → Text → List Text
key_problems decode key =
    if str_eq (trim_space key) []
    then codes "PCP_DATABASE_ENCRYPTION_KEY must be set to a base64-encoded 32-byte key" ∷ []
    else elim (parse_database_encryption_key decode key) [
      | ok k ↦ []
      | err e ↦ (codes "PCP_DATABASE_ENCRYPTION_KEY " ++ e) ∷ []
    ]

-- The checks of a synchronisation that is enabled.
unfoldable pub sync_problems : Text → Bool → ℤ → ℤ → ℤ → List Text
sync_problems prefix enabled interval timeout concurrency =
    if enabled
    then problem (leb_ℤ interval (pos 0)) (prefix ++ codes "_INTERVAL must be greater than 0")
      ++ (problem (leb_ℤ timeout (pos 0)) (prefix ++ codes "_TIMEOUT must be greater than 0")
          ++ problem (leb_ℤ concurrency (pos 0))
              (prefix ++ codes "_CONCURRENCY must be greater than 0"))
    else []

unfoldable pub server_problems : (Text → Result Text Text) → Config → List Text
server_problems decode c =
    problem (equal_fold (trim_space c.admin_email) (codes "admin@example.com"))
      (codes "PCP_ADMIN_EMAIL must not use the example value")
    ++ (problem (is_placeholder_secret c.admin_password || ltb (length c.admin_password) 12)
          (codes "PCP_ADMIN_PASSWORD must be changed and contain at least 12 characters")
        ++ (problem (is_placeholder_secret c.secret_key || ltb (length c.secret_key) 32)
              (codes "PCP_SECRET_KEY must be changed and contain at least 32 characters")
            ++ (key_problems decode c.database_encryption_key
                ++ (problem (leb_ℤ c.access_token_expire_minutes (pos 0))
                      (codes "PCP_ACCESS_TOKEN_EXPIRE_MINUTES must be greater than 0")
                    ++ (problem (leb_ℤ c.refresh_token_expire_hours (pos 0))
                          (codes "PCP_REFRESH_TOKEN_EXPIRE_HOURS must be greater than 0")
                        ++ (sync_problems (codes "PCP_RUNTIME_SYNC") c.runtime_sync_enabled
                              c.runtime_sync_interval c.runtime_sync_timeout
                              c.runtime_sync_concurrency
                            ++ (sync_problems (codes "PCP_TRAFFIC_SYNC") c.traffic_sync_enabled
                                  c.traffic_sync_interval c.traffic_sync_timeout
                                  c.traffic_sync_concurrency
                                ++ problem
                                    (c.maintenance_cleanup_enabled
                                      && leb_ℤ c.maintenance_cleanup_interval (pos 0))
                                    (codes
                                      "PCP_MAINTENANCE_CLEANUP_INTERVAL must be greater than 0"))))))))

unfoldable pub join_problems : List Text → Text
join_problems [] = []
join_problems (p ∷ []) = p
join_problems (p ∷ q ∷ rest) = p ++ (codes "; " ++ join_problems (q ∷ rest))

-- No error, or its text.
unfoldable pub validate_server : (Text → Result Text Text) → Config → Option Text
validate_server decode c =
    let problems = server_problems decode c in
    if is_nil problems
    then none
    else some (codes "invalid server configuration: " ++ join_problems problems)

-- The value of an int64 that holds the integer.
unfoldable pub int64 : ℤ → ℤ
int64 v =
    let m : ℕ = elim v [ pos n ↦ n % 2 ^ 64 | negsuc n ↦ (2 ^ 64 - (n + 1) % 2 ^ 64) % 2 ^ 64 ] in
    if ltb m (2 ^ 63) then pos m else negsuc (2 ^ 64 - m - 1)

unfoldable pub scaled : ℤ → ℕ → ℤ
scaled (pos n) k = pos (n * k)
scaled (negsuc n) k = negsuc ((n + 1) * k - 1)

unfoldable pub access_token_ttl : Config → ℤ
access_token_ttl c = int64 (scaled c.access_token_expire_minutes 60000000000)

unfoldable pub refresh_token_ttl : Config → ℤ
refresh_token_ttl c = int64 (scaled c.refresh_token_expire_hours 3600000000000)
