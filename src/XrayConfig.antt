-- ===== src/XrayConfig.antt =====
-- internal/xrayconfig/xrayconfig.go: the VLESS clients of an Xray configuration. The decoded JSON is
-- an argument, `none` where it does not parse.
use proxy_control_plane.Base.{
  Text, codes, Bool, not, ◌&&◌, ◌||◌, Option, none, some, List, [], ◌∷◌, ◌++◌, is_nil, str_eq,
  trim_space, equal_fold, if◌then◌else◌, Result, ok, err,
}

pub record Client : Type 0 where
  pub id : Text
  pub email : Text
  pub flow : Text

pub record Inbound : Type 0 where
  pub tag : Text
  pub protocol : Text
  pub clients : List Client

unfoldable pub trimmed_clients : List Client → List Client
trimmed_clients [] = []
trimmed_clients (c ∷ cs) =
    let rest = trimmed_clients cs in
    if str_eq (trim_space c.id) []
    then rest
    else record { id = trim_space c.id; email = trim_space c.email; flow = trim_space c.flow }
      ∷ rest

-- The inbounds that the loop does not pass over; the tag is trimmed.
unfoldable pub takes_inbound : Text → Inbound → Bool
takes_inbound tag inbound =
    equal_fold (trim_space inbound.protocol) (codes "vless")
    && (str_eq tag [] || str_eq (trim_space inbound.tag) tag)

unfoldable pub clients_of : Text → List Inbound → List Client
clients_of tag [] = []
clients_of tag (inbound ∷ inbounds) =
    let rest = clients_of tag inbounds in
    if takes_inbound tag inbound then trimmed_clients inbound.clients ++ rest else rest

unfoldable pub vless_clients : Option (List Inbound) → Text → Result Text (List Client)
vless_clients none given = err (codes "parse Xray config JSON")
vless_clients (some inbounds) given =
    let tag = trim_space given in
    let clients = clients_of tag inbounds in
    if not (str_eq tag []) && is_nil clients
    then err (codes "no VLESS clients found for inbound tag")
    else ok clients
