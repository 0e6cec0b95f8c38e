-- ===== src/Store/Samples.antt =====
-- Tables and rows for the runs on concrete inputs.
use proxy_control_plane.Base.{ℕ, String, codes, true, none, some, [], ◌∷◌, pos}
use proxy_control_plane.Domain.{Customer, ProxyNode, ProxyAccount, AuthRefreshToken, TrafficUsage}
use proxy_control_plane.Store.{Db}

abbrev pub empty_db : Db
empty_db = record {
  customers = [];
  nodes = [];
  accounts = [];
  bindings = [];
  subscription_tokens = [];
  refresh_tokens = [];
  usage = [];
  daily = [];
  domain_logs = [];
  audit_logs = [];
}

abbrev pub sample_node : String → ProxyNode
sample_node name = record {
  id = [];
  name = codes name;
  hostname = codes "h";
  public_host = [];
  region = [];
  runtime = codes "xray";
  protocol = [];
  port = pos 0;
  transport = [];
  security = [];
  sni = [];
  fingerprint = [];
  alpn = [];
  path = [];
  host_header = [];
  reality_public_key = [];
  reality_short_id = [];
  runtime_api_enabled = true;
  runtime_api_host = codes "h";
  runtime_api_port = pos 10085;
  runtime_inbound_tag = [];
  last_runtime_sync_at = none;
  last_runtime_sync_error = [];
  enabled = true;
  created_at = 0;
  updated_at = 0;
}

abbrev pub sample_customer : Customer
sample_customer = record {
  id = codes "c1";
  email = codes "a@b";
  display_name = [];
  status = codes "active";
  expires_at = none;
  password_hash = [];
  session_epoch = [];
  created_at = 1;
  updated_at = 1;
}

abbrev pub sample_token : String → String → AuthRefreshToken
sample_token id hash = record {
  id = codes id;
  principal_type = codes "customer";
  customer_id = some (codes "c1");
  subject = codes "a@b";
  session_version = codes "v";
  token_hash = codes hash;
  enabled = true;
  expires_at = 9;
  created_at = 1;
  updated_at = 1;
  last_used_at = none;
  last_used_ip = [];
  last_used_user_agent = [];
  revoked_at = none;
  replaced_by_id = [];
}

abbrev pub token_db : Db
token_db = record empty_db {
  customers = sample_customer ∷ [];
  refresh_tokens = sample_token "t1" "h1" ∷ sample_token "t2" "h2" ∷ [];
}

abbrev pub sample_account : ProxyAccount
sample_account = record {
  id = codes "a1";
  customer_id = codes "c1";
  protocol = codes "vless";
  uuid = codes "u1";
  email_tag = [];
  flow = [];
  enabled = true;
  expires_at = none;
  traffic_limit_bytes = none;
  node_ids = some (codes "n1" ∷ []);
  nodes = [];
  created_at = 1;
  updated_at = 1;
}

abbrev pub sample_usage : String → ℕ → ℕ → TrafficUsage
sample_usage id bytes at = record {
  id = codes id;
  proxy_account_id = codes "a1";
  proxy_node_id = codes "n1";
  upload_bytes = bytes;
  download_bytes = 1;
  recorded_at = at;
}

-- One account on one node, with traffic on three days.
abbrev pub traffic_db : Db
traffic_db = record empty_db {
  customers = sample_customer ∷ [];
  nodes = record (sample_node "n") { id = codes "n1" } ∷ [];
  accounts = sample_account ∷ [];
  bindings = record { proxy_account_id = codes "a1"; proxy_node_id = codes "n1" } ∷ [];
  usage =
      sample_usage "x1" 10 172800000000005
      ∷ sample_usage "x2" 20 172800000000007
      ∷ sample_usage "x3" 40 864000000000000
      ∷ [];
}
