-- ===== src/Store/Nodes/Defaults.antt =====
-- What the defaults make of a node.
use proxy_control_plane.Base.{
  ℕ, Text, codes, true, false, ◌&&◌, [], ◌∷◌, ◌≡◌, refl, ap, ◌∙◌, str_eq, str_eq_iff, trim_space,
  to_lower, pos, eqb_ℤ, arith, trim_space_idem, to_lower_idem, trim_space-to_lower,
}
use proxy_control_plane.Domain.{ProxyNode}
use proxy_control_plane.Store.Nodes.{
  normalize_node_runtime, infer_node_runtime, default_runtime, default_xray, default_rest,
  set_node_defaults, valid_port, valid_node_runtime, valid_runtime_api_config,
}

normalize_node_runtime_idem :
    (s : Text) → normalize_node_runtime (normalize_node_runtime s) ≡ normalize_node_runtime s
unfolding normalize_node_runtime
normalize_node_runtime_idem s =
    ap to_lower (trim_space-to_lower (trim_space s))
    ∙ to_lower_idem (trim_space (trim_space s))
    ∙ ap to_lower (trim_space_idem s)

normalize-infer :
    (n : ProxyNode) → normalize_node_runtime (infer_node_runtime n) ≡ infer_node_runtime n
unfolding infer_node_runtime
normalize-infer n = ground (arith, xray_normal, custom_normal)
  where
    xray_normal : normalize_node_runtime (codes "xray") ≡ codes "xray"
    xray_normal = unfold normalize_node_runtime trim_space to_lower in refl

    custom_normal : normalize_node_runtime (codes "custom") ≡ codes "custom"
    custom_normal = unfold normalize_node_runtime trim_space to_lower in refl

infer-ne-nil : (n : ProxyNode) → str_eq (infer_node_runtime n) [] ≡ false
unfolding infer_node_runtime
infer-ne-nil n = ground (arith, str_eq_iff (codes "xray") [], str_eq_iff (codes "custom") [])

-- A node whose fields need no default.
pub record IsSettled (n : ProxyNode) : Type 0 where
  pub runtime : normalize_node_runtime n.runtime ≡ n.runtime
  pub named : str_eq n.runtime [] ≡ false
  pub protocol : str_eq n.protocol [] ≡ false
  pub port : eqb_ℤ n.port (pos 0) ≡ false
  pub transport : str_eq n.transport [] ≡ false
  pub security : str_eq n.security [] ≡ false
  pub path :
      (str_eq n.runtime (codes "xray") && (str_eq n.transport (codes "ws") && str_eq n.path []))
      ≡ false
  pub tag : (n.runtime_api_enabled && str_eq n.runtime_inbound_tag []) ≡ false

settled_runtime :
    (n : ProxyNode)
    → (normalize_node_runtime (default_runtime n).runtime ≡ (default_runtime n).runtime)
      × (str_eq (default_runtime n).runtime [] ≡ false)
unfolding default_runtime
settled_runtime n = (
  ground (arith, normalize_node_runtime_idem n.runtime, normalize-infer n),
  ground (arith, infer-ne-nil n),
)

nonempty_text : (c : ℕ) (s : Text) → str_eq (c ∷ s) [] ≡ false
unfolding str_eq
nonempty_text c s = refl

pub set_node_defaults-IsSettled : (n : ProxyNode) → IsSettled (set_node_defaults n)
unfolding set_node_defaults default_rest default_xray
set_node_defaults-IsSettled n =
    let (normal, named) = settled_runtime n in
    record {
      runtime = ground arith;
      named = ground arith;
      protocol = ground (arith, nonempty_text b'v' (codes "less"));
      port = ground arith;
      transport = ground (arith, nonempty_text b'w' (codes "s"), nonempty_text b't' (codes "cp"));
      security = ground (
        arith,
        nonempty_text b't' (codes "ls"),
        nonempty_text b'r' (codes "eality"),
        nonempty_text b'n' (codes "one"),
      );
      path = ground (
        arith,
        nonempty_text b'/' (codes "v2ray"),
        str_eq_iff (codes "tcp") (codes "ws"),
        nonempty_text b'w' (codes "s"),
        nonempty_text b't' (codes "cp"),
      );
      tag = ground (arith, nonempty_text b'p' (codes "roxy-control-plane-vless-in"));
    }

pub set_node_defaults_of_IsSettled : (n : ProxyNode) → IsSettled n → set_node_defaults n ≡ n
unfolding set_node_defaults default_runtime default_rest default_xray
set_node_defaults_of_IsSettled n s = ground arith

-- Setting the defaults a second time changes nothing.
pub set_node_defaults_idem :
    (n : ProxyNode) → set_node_defaults (set_node_defaults n) ≡ set_node_defaults n
set_node_defaults_idem n =
    set_node_defaults_of_IsSettled (set_node_defaults n) (set_node_defaults-IsSettled n)

-- A node that passes the three checks of a write.
pub record IsReady (n : ProxyNode) : Type 0 where
  pub runtime : valid_node_runtime n.runtime ≡ true
  pub port : valid_port n.port ≡ true
  pub api : valid_runtime_api_config n ≡ true
  pub settled : IsSettled n
