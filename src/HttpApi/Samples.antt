-- ===== src/HttpApi/Samples.antt =====
-- A server, a customer and requests for the runs on concrete inputs.
use proxy_control_plane.Base.{
  ℕ, Text, codes, false, none, [], ◌∷◌, ◌++◌, ok, pos, Result, err, ◌≡◌, refl,
}
use proxy_control_plane.Domain.{Customer}
use proxy_control_plane.Config.{Config}
use proxy_control_plane.Store.{Db}
use proxy_control_plane.Store.Samples.{empty_db}
use proxy_control_plane.Security.AccessToken.{ClaimsJson}
use proxy_control_plane.HttpApi.Action.{Failure, Services, Request}

abbrev pub config : Config
config = record {
  app_name = [];
  environment = [];
  listen_addr = [];
  database_url = [];
  admin_email = codes "root@b";
  admin_password = codes "correct horse";
  admin_session_epoch = [];
  secret_key = codes "k";
  database_encryption_key = [];
  access_token_expire_minutes = pos 1;
  refresh_token_expire_hours = pos 1;
  auto_create_database = false;
  auto_migrate = false;
  runtime_sync_enabled = false;
  runtime_sync_interval = pos 1;
  runtime_sync_timeout = pos 1;
  runtime_sync_concurrency = pos 1;
  traffic_sync_enabled = false;
  traffic_sync_interval = pos 1;
  traffic_sync_timeout = pos 1;
  traffic_sync_concurrency = pos 1;
  maintenance_cleanup_enabled = false;
  maintenance_cleanup_interval = pos 1;
  maintenance_audit_retention = [];
  maintenance_traffic_retention = [];
  maintenance_traffic_daily_retention = [];
  maintenance_domain_access_retention = [];
  maintenance_auth_refresh_retention = [];
}

abbrev pub json : ClaimsJson
json = record { marshal = λ c. c.subject; unmarshal = λ s. none }

abbrev pub services : Services
services = record { hmac = λ key text. text; sha256 = λ text. text; json = json; cfg = config }

-- The customer's password is stored as it is.
abbrev pub customer : Customer
customer = record {
  id = codes "c1";
  email = codes "a@b";
  display_name = [];
  status = codes "active";
  expires_at = none;
  password_hash = codes "pw";
  session_epoch = [];
  created_at = 1;
  updated_at = 1;
}

abbrev pub db : Db
db = record empty_db { customers = customer ∷ [] }

abbrev pub request : ℕ → Text → Text → Request
request now random id = record {
  now = now;
  random = ok random;
  new_id = ok id;
  audit_id = ok (codes "l1");
  forwarded_for = codes "10.0.0.1, 10.0.0.2";
  remote_addr = codes "[::1]:80";
  user_agent = [];
  authorization = [];
  json_string = λ text. b'"' ∷ text ++ b'"' ∷ [];
}

-- A handler that replies, and its value.
abbrev pub IsDone : {A : Type 0} → Result Failure A → Type 0
IsDone (ok a) = Unit
IsDone (err e) = ⊥

abbrev pub value_or : {A : Type 0} → A → Result Failure A → A
value_or fallback (ok a) = a
value_or fallback (err e) = fallback

pub done :
    {A : Type 0} (fallback : A) (r : Result Failure A × Db)
    → IsDone r.0
    → r ≡ (ok (value_or fallback r.0), r.1)
done fallback (ok a, db') h = refl
done fallback (err e, db') h = absurd h
