-- ===== src/Config/Tests.antt =====
-- A configuration that passes.
use proxy_control_plane.Base.{
  Text, codes, true, false, none, [], ◌≡◌, refl, pos, str_eq, trim_space, trim_left, trim_right,
  is_space, to_lower, lower, Result, ok,
}
use proxy_control_plane.Config.{Config, has_suffix, is_placeholder_secret}
use proxy_control_plane.Config.{validate_server}
use proxy_control_plane.Config.Accepts.{
  strong_secret, key_accepted, sync_accepted, accepts, validate_server_iff,
}

abbrev config : Config
config = record {
  app_name = [];
  environment = [];
  listen_addr = [];
  database_url = [];
  admin_email = codes "root@b";
  admin_password = codes "correct horse";
  admin_session_epoch = [];
  secret_key = codes "0123456789abcdef0123456789abcdef";
  database_encryption_key = codes "k";
  access_token_expire_minutes = pos 1;
  refresh_token_expire_hours = pos 1;
  auto_create_database = false;
  auto_migrate = false;
  runtime_sync_enabled = false;
  runtime_sync_interval = pos 1;
  runtime_sync_timeout = pos 1;
  runtime_sync_concurrency = pos 1;
  traffic_sync_enabled = false;
  traffic_sync_interval = pos 1;
  traffic_sync_timeout = pos 1;
  traffic_sync_concurrency = pos 1;
  maintenance_cleanup_enabled = false;
  maintenance_cleanup_interval = pos 1;
  maintenance_audit_retention = [];
  maintenance_traffic_retention = [];
  maintenance_traffic_daily_retention = [];
  maintenance_domain_access_retention = [];
  maintenance_auth_refresh_retention = [];
}

abbrev decode : Text → Result Text Text
decode key = ok (codes "0123456789abcdef0123456789abcdef")

accepted : accepts decode config ≡ true
unfolding accepts strong_secret key_accepted sync_accepted is_placeholder_secret has_suffix str_eq
    trim_space trim_left trim_right is_space to_lower lower
accepted = refl

validate_server_iff_example : validate_server decode config ≡ none
validate_server_iff_example = (validate_server_iff decode config).1 accepted
