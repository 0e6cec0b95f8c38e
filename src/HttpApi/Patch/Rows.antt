-- ===== src/HttpApi/Patch/Rows.antt =====
-- The patches of a proxy account and of a subscription token that the handlers of
-- internal/httpapi/server.go apply field by field.
use proxy_control_plane.Base.{codes, true, false, Result, ok, ◌>>=◌}
use proxy_control_plane.Domain.{ProxyAccount, SubscriptionToken}
use proxy_control_plane.HttpApi.Action.{Failure}
use proxy_control_plane.HttpApi.Patch.{
  Json, Fields, patch_string, patch_bool, patch_optional_time, patch_optional_int64,
  patch_string_slice,
}

unfoldable pub patch_account : Json → Fields → ProxyAccount → Result Failure ProxyAccount
patch_account json fields current = do
  customer_id ← patch_string json fields (codes "customer_id") current.customer_id false true
  protocol ← patch_string json fields (codes "protocol") current.protocol false true
  uuid ← patch_string json fields (codes "uuid") current.uuid false true
  email_tag ← patch_string json fields (codes "email_tag") current.email_tag false true
  flow ← patch_string json fields (codes "flow") current.flow true false
  enabled ← patch_bool json fields (codes "enabled") current.enabled
  expires_at ← patch_optional_time json fields (codes "expires_at") current.expires_at
  limit ← patch_optional_int64 json fields (codes "traffic_limit_bytes") current.traffic_limit_bytes
  node_ids ← patch_string_slice json fields (codes "node_ids") current.node_ids
  ok (record current {
    customer_id = customer_id;
    protocol = protocol;
    uuid = uuid;
    email_tag = email_tag;
    flow = flow;
    enabled = enabled;
    expires_at = expires_at;
    traffic_limit_bytes = limit;
    node_ids = node_ids;
  })

unfoldable pub patch_token : Json → Fields → SubscriptionToken → Result Failure SubscriptionToken
patch_token json fields current = do
  name ← patch_string json fields (codes "name") current.name false true
  enabled ← patch_bool json fields (codes "enabled") current.enabled
  expires_at ← patch_optional_time json fields (codes "expires_at") current.expires_at
  ok (record current { name = name; enabled = enabled; expires_at = expires_at })
