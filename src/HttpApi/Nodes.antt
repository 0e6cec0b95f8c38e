-- ===== src/HttpApi/Nodes.antt =====
-- The handlers of internal/httpapi/server.go for proxy nodes.
pub mod Synced
mod Tests
use proxy_control_plane.Base.{
  ℕ, suc, Text, codes, Bool, true, false, not, ◌&&◌, ◌||◌, Option, none, some, List, [], ◌∷◌, map,
  mem, length, str_eq, trim_space, to_lower, if◌then◌else◌, Result, ok, err, is_some, is_nil, count,
  ℤ, pos, eqb_ℤ,
}
use proxy_control_plane.Base
use proxy_control_plane.Domain.{ProxyNode}
use proxy_control_plane.Store.{Error, Db}
use proxy_control_plane.Store.Nodes
use proxy_control_plane.Store.Nodes.{
  ProxyNodeUpsert, upsert_proxy_nodes_by_name, valid_port, valid_node_runtime,
}
use proxy_control_plane.Store.Listings.{list_proxy_nodes}
use proxy_control_plane.HttpApi.Action.{
  Failure, Action, reply, write_error, continue, ◌>>=◌, ◌>>◌, require, store_failure, call, settle,
  Request, audit, audit_json,
}
use proxy_control_plane.HttpApi.Auth.{bind_json}
use proxy_control_plane.HttpApi.Customers.{checked}
use proxy_control_plane.HttpApi.Patch.{Json, Fields, apply_node_patch, ensure}

pub record NodeRequest : Type 0 where
  pub name : Text
  pub hostname : Text
  pub public_host : Text
  pub region : Text
  pub runtime : Text
  pub protocol : Text
  pub port : ℤ
  pub transport : Text
  pub security : Text
  pub sni : Text
  pub fingerprint : Text
  pub alpn : Text
  pub path : Text
  pub host_header : Text
  pub reality_public_key : Text
  pub reality_short_id : Text
  pub runtime_api_enabled : Option Bool
  pub runtime_api_host : Text
  pub runtime_api_port : ℤ
  pub runtime_inbound_tag : Text
  pub enabled : Option Bool

pub record NodeSyncResult : Type 0 where
  pub name : Text
  pub action : Text
  pub node : ProxyNode
  pub created : Bool

abbrev pub given_or : {A : Type 0} → A → Option A → A
given_or fallback none = fallback
given_or fallback (some a) = a

-- The row that both handlers make of a request, up to the fields that they treat differently.
unfoldable pub node_of : NodeRequest → Bool → ProxyNode
node_of req enabled = record {
  id = [];
  name = req.name;
  hostname = req.hostname;
  public_host = req.public_host;
  region = req.region;
  runtime = req.runtime;
  protocol = req.protocol;
  port = req.port;
  transport = req.transport;
  security = req.security;
  sni = req.sni;
  fingerprint = req.fingerprint;
  alpn = req.alpn;
  path = req.path;
  host_header = req.host_header;
  reality_public_key = req.reality_public_key;
  reality_short_id = req.reality_short_id;
  runtime_api_enabled = given_or false req.runtime_api_enabled;
  runtime_api_host = req.runtime_api_host;
  runtime_api_port = req.runtime_api_port;
  runtime_inbound_tag = req.runtime_inbound_tag;
  last_runtime_sync_at = none;
  last_runtime_sync_error = [];
  enabled = enabled;
  created_at = 0;
  updated_at = 0;
}

abbrev pub port_or_unset : ℤ → Bool
port_or_unset port = not (not (eqb_ℤ port (pos 0)) && not (valid_port port))

unfoldable pub create_node : Request → Text → Option NodeRequest → Action ProxyNode
create_node req actor body = do
  given ← bind_json body
  require (not (str_eq given.name [] || str_eq given.hostname [])) 400
      (codes "name and hostname are required")
  require (port_or_unset given.port) 400 (codes "port must be between 1 and 65535")
  require (port_or_unset given.runtime_api_port) 400
      (codes "runtime_api_port must be between 1 and 65535")
  node ←
      call store_failure
        (Nodes.create_proxy_node req.now req.new_id (node_of given (given_or true given.enabled)))
  audit req actor (codes "proxy_node.created") node.id
  reply node

-- What an item of the request is called, and what it runs.
abbrev pub item_name : NodeRequest → Text
item_name item = trim_space item.name

abbrev pub item_runtime : NodeRequest → Text
item_runtime item = to_lower (trim_space item.runtime)

-- The input that a valid item becomes.
unfoldable pub upsert_of : NodeRequest → ProxyNodeUpsert
upsert_of item = record {
  node =
      node_of
        (record item {
          name = item_name item;
          runtime = item_runtime item;
          hostname = if str_eq item.hostname [] then item.public_host else item.hostname;
        })
        (given_or false item.enabled);
  preserve_enabled = not (is_some item.enabled);
}

-- The body of the first loop of `syncNodes`, with the names seen.
unfoldable pub check_item : List Text → NodeRequest → Result Failure ProxyNodeUpsert
check_item seen item =
    Base.◌>>◌ (ensure (not (str_eq (item_name item) [])) (codes "nodes[].name is required")) (
      Base.◌>>◌ (ensure (not (mem (item_name item) seen)) (codes "nodes[].name must be unique")) (
        Base.◌>>◌
          (ensure (not (str_eq item.hostname [] && str_eq item.public_host []))
            (codes "nodes[].hostname or public_host is required"))
          (Base.◌>>◌
            (ensure (not (str_eq (item_runtime item) [])) (codes "nodes[].runtime is required"))
            (Base.◌>>◌
              (ensure (valid_node_runtime (item_runtime item))
                (codes "nodes[].runtime must be custom or xray"))
              (Base.◌>>◌
                (ensure (port_or_unset item.port) (codes "port must be between 1 and 65535"))
                (Base.◌>>◌
                  (ensure (port_or_unset item.runtime_api_port)
                    (codes "runtime_api_port must be between 1 and 65535"))
                  (ok (upsert_of item))))))))

unfoldable pub check_items : List Text → List NodeRequest → Result Failure (List ProxyNodeUpsert)
check_items seen [] = ok []
check_items seen (item ∷ items) =
    Base.◌>>=◌ (check_item seen item)
      λ input. Base.◌>>=◌ (check_items (item_name item ∷ seen) items) λ inputs. ok (input ∷ inputs)

unfoldable pub sync_result : ProxyNode × Bool → NodeSyncResult
sync_result (node, created) = record {
  name = node.name;
  action = if created then codes "created" else codes "updated";
  node = node;
  created = created;
}

-- `counts` is json.Marshal of the numbers created and updated and of their total, and `new_ids i` what
-- NewID returns for the item i.
unfoldable pub sync_nodes :
    (ℕ → ℕ → ℕ → Text)
    → Request
    → (ℕ → Result Error Text)
    → Text
    → Option (List NodeRequest)
    → Action (List NodeSyncResult)
sync_nodes counts req new_ids actor body = do
  items ← bind_json body
  require (not (is_nil items)) 400 (codes "nodes is required")
  inputs ← checked (check_items [] items)
  rows ← call store_failure (upsert_proxy_nodes_by_name req.now new_ids inputs)
  audit_json req actor (codes "proxy_node.synced")
      (counts (count (λ r. r.1) rows) (count (λ r. not r.1) rows) (length rows))
  reply (map sync_result rows)

unfoldable pub list_nodes : Action (List ProxyNode)
list_nodes = call store_failure list_proxy_nodes

unfoldable pub get_node : Text → Action ProxyNode
get_node id = call store_failure (Nodes.get_proxy_node id)

unfoldable pub update_node : Json → Request → Text → Text → Option Fields → Action ProxyNode
update_node json req actor id body = do
  current ← call store_failure (Nodes.get_proxy_node id)
  fields ← bind_json body
  patched ← checked (apply_node_patch json fields current)
  updated ← call store_failure (Nodes.update_proxy_node req.now patched)
  audit req actor (codes "proxy_node.updated") updated.id
  reply updated

unfoldable pub delete_node : Request → Text → Text → Action (Unit {0})
delete_node req actor id = do
  call store_failure (Nodes.delete_proxy_node id)
  audit req actor (codes "proxy_node.deleted") id
