-- ===== src/Store/Nodes.antt =====
-- The proxy nodes of internal/store/store.go: defaults, validation, and the operations on the table.
pub mod Defaults
pub mod Table
pub mod Keeps
pub mod Upsert
mod Tests
use proxy_control_plane.Base.{
  ℕ, zero, ◌+◌, Text, codes, Bool, true, false, not, ◌&&◌, ◌||◌, Option, none, some, List, [], ◌∷◌,
  ◌++◌, keep, find, any, str_eq, trim_space, to_lower, equal_fold, if◌then◌else◌, Result, ok, err,
  eqb, ℤ, pos, leb_ℤ, eqb_ℤ,
}
use proxy_control_plane.Domain.{Time, ProxyNode}
use proxy_control_plane.Store.{
  Error, not_found, conflict, invalid, other, Db, Exec, pure, raise, lift, found, id_or_new, stamp,
  continue, ◌>>=◌, ◌>>◌, guard, transaction,
}

unfoldable pub normalize_node_runtime : Text → Text
normalize_node_runtime runtime = to_lower (trim_space runtime)

unfoldable pub infer_node_runtime : ProxyNode → Text
infer_node_runtime node =
    if equal_fold node.transport (codes "ws") || str_eq node.path (codes "/v2ray")
    then codes "xray"
    else if equal_fold node.security (codes "reality")
        || (not (str_eq node.reality_public_key []) || not (str_eq node.reality_short_id []))
    then codes "xray"
    else codes "custom"

-- `if field == "" { field = fallback }`
abbrev pub or_default : Text → Text → Text
or_default value fallback = if str_eq value [] then fallback else value

unfoldable pub default_runtime : ProxyNode → ProxyNode
default_runtime node =
    let runtime = normalize_node_runtime node.runtime in
    record node { runtime = or_default runtime (infer_node_runtime node) }

-- The block `if node.Runtime == "xray"`, assignment by assignment.
unfoldable pub default_xray : ProxyNode → ProxyNode
default_xray node =
    let transport =
      or_default node.transport (if not (str_eq node.path []) then codes "ws" else codes "tcp") in
    let security = or_default node.security (
      if str_eq transport (codes "ws") || not (str_eq node.path [])
      then codes "tls"
      else codes "reality") in
    let path =
      if str_eq transport (codes "ws") && str_eq node.path [] then codes "/v2ray" else node.path in
    record node { transport = transport; security = security; path = path }

unfoldable pub default_rest : ProxyNode → ProxyNode
default_rest node = record node {
  port = if eqb_ℤ node.port (pos 0) then pos 443 else node.port;
  transport = or_default node.transport (codes "tcp");
  security = or_default node.security (codes "none");
  runtime_inbound_tag =
      if node.runtime_api_enabled && str_eq node.runtime_inbound_tag []
      then codes "proxy-control-plane-vless-in"
      else node.runtime_inbound_tag;
}

unfoldable pub set_node_defaults : ProxyNode → ProxyNode
set_node_defaults node =
    let named = default_runtime node in
    let spoken = record named { protocol = or_default named.protocol (codes "vless") } in
    default_rest (if str_eq spoken.runtime (codes "xray") then default_xray spoken else spoken)

unfoldable pub valid_node_runtime : Text → Bool
valid_node_runtime runtime = str_eq runtime (codes "custom") || str_eq runtime (codes "xray")

unfoldable pub valid_port : ℤ → Bool
valid_port port = leb_ℤ (pos 1) port && leb_ℤ port (pos 65535)

unfoldable pub valid_runtime_api_port : ℤ → Bool
valid_runtime_api_port port = eqb_ℤ port (pos 0) || valid_port port

unfoldable pub valid_runtime_api_config : ProxyNode → Bool
valid_runtime_api_config node =
    if not (valid_runtime_api_port node.runtime_api_port)
    then false
    else if not node.runtime_api_enabled
    then true
    else not (str_eq (trim_space node.runtime_api_host) [])
      && (valid_port node.runtime_api_port && not (str_eq (trim_space node.runtime_inbound_tag) []))

-- The three checks that every write of a node makes behind the defaults.
unfoldable pub check_node : ProxyNode → Exec (Unit {0})
check_node node = do
  guard (valid_node_runtime node.runtime) invalid
  guard (valid_port node.port) invalid
  guard (valid_runtime_api_config node) invalid

-- INSERT: the primary key and the unique index on the name. GORM fills in the times.
unfoldable pub insert_node : Time → ProxyNode → Exec ProxyNode
insert_node now node db =
    let row = record node {
      created_at = stamp now node.created_at;
      updated_at = stamp now node.updated_at;
    } in
    if any (λ n. str_eq n.id node.id || str_eq n.name node.name) db.nodes
    then (err conflict, db)
    else (ok row, record db { nodes = db.nodes ++ row ∷ [] })

replace_node : ProxyNode → List ProxyNode → List ProxyNode
replace_node row [] = []
replace_node row (n ∷ ns) = (if str_eq n.id row.id then row else n) ∷ replace_node row ns

-- UPDATE of all columns by primary key, as `Save` does for a row that is there.
unfoldable pub save_node : Time → ProxyNode → Exec ProxyNode
unfolding replace_node
save_node now node db =
    let row = record node { updated_at = now } in
    if any (λ n. not (str_eq n.id node.id) && str_eq n.name node.name) db.nodes
    then (err conflict, db)
    else (ok row, record db { nodes = replace_node row db.nodes })

unfoldable pub find_by_id : Text → List ProxyNode → Option ProxyNode
find_by_id id ns = find (λ n. str_eq n.id id) ns

unfoldable pub find_by_name : Text → List ProxyNode → Option ProxyNode
find_by_name name ns = find (λ n. str_eq n.name name) ns

unfoldable pub get_proxy_node : Text → Exec ProxyNode
get_proxy_node id db = (found (find_by_id id db.nodes), db)

unfoldable pub get_proxy_node_by_name : Text → Exec ProxyNode
get_proxy_node_by_name name db = (found (find_by_name name db.nodes), db)

module _ (now : Time) where
  unfoldable pub create_proxy_node : Result Error Text → ProxyNode → Exec ProxyNode
  create_proxy_node new_id given = do
    id ← lift (id_or_new given.id new_id)
    let node = set_node_defaults (record given { id = id })
    check_node node
    insert_node now node

  -- A row that is not found is created; any other is replaced.
  unfoldable pub upsert_found :
      Result Error Text → ProxyNode → Bool → Option ProxyNode → Exec (ProxyNode × Bool)
  upsert_found new_id node preserve_enabled none = do
    id ← lift (id_or_new node.id new_id)
    row ← insert_node now (record node { id = id; enabled = preserve_enabled || node.enabled })
    pure (row, true)
  upsert_found new_id node preserve_enabled (some existing) = do
    row ← save_node now (record node {
      id = existing.id;
      created_at = existing.created_at;
      enabled = if preserve_enabled then existing.enabled else node.enabled;
    })
    pure (row, false)

  unfoldable pub upsert_proxy_node_by_name_tx :
      Result Error Text → ProxyNode → Bool → Exec (ProxyNode × Bool)
  upsert_proxy_node_by_name_tx new_id given preserve_enabled = do
    guard (not (str_eq (trim_space given.name) [])) invalid
    let node = set_node_defaults given
    check_node node
    λ db. upsert_found new_id node preserve_enabled (find_by_name node.name db.nodes) db

  unfoldable pub update_proxy_node : ProxyNode → Exec ProxyNode
  update_proxy_node given = do
    current ← get_proxy_node given.id
    let node = set_node_defaults given
    check_node node
    row ← save_node now node
    get_proxy_node node.id

pub record ProxyNodeUpsert : Type 0 where
  pub node : ProxyNode
  pub preserve_enabled : Bool

module _ (now : Time) (new_ids : ℕ → Result Error Text) where
  -- The loop of `UpsertProxyNodesByName`; `new_ids i` is what NewID returns in round i.
  unfoldable pub upsert_rounds : ℕ → List ProxyNodeUpsert → Exec (List (ProxyNode × Bool))
  upsert_rounds i [] = pure []
  upsert_rounds i (input ∷ inputs) =
      let later = upsert_rounds (i + 1) inputs in
      upsert_proxy_node_by_name_tx now (new_ids i) input.node input.preserve_enabled >>= λ result.
      later >>= λ results. pure (result ∷ results)

  unfoldable pub upsert_proxy_nodes_by_name : List ProxyNodeUpsert → Exec (List (ProxyNode × Bool))
  upsert_proxy_nodes_by_name inputs = transaction (upsert_rounds 0 inputs)

-- DELETE by primary key, with the rows that reference the node.
unfoldable pub delete_proxy_node : Text → Exec (Unit {0})
delete_proxy_node id db =
    if any (λ n. str_eq n.id id) db.nodes
    then (
      ok tt,
      record db {
        nodes = keep (λ n. not (str_eq n.id id)) db.nodes;
        bindings = keep (λ b. not (str_eq b.proxy_node_id id)) db.bindings;
        usage = keep (λ u. not (str_eq u.proxy_node_id id)) db.usage;
        daily = keep (λ u. not (str_eq u.proxy_node_id id)) db.daily;
        domain_logs = keep (λ u. not (str_eq u.proxy_node_id id)) db.domain_logs;
      },
    )
    else (err not_found, db)
