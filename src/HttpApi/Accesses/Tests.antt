-- ===== src/HttpApi/Accesses/Tests.antt =====
-- Runs of normalizeAccessDomain of internal/httpapi/server.go.
use proxy_control_plane.Base.{
  codes, none, some, ◌≡◌, refl, to_lower, lower, trim_space, trim_left, trim_right, is_space,
  str_eq, contains,
}
use proxy_control_plane.Config.{has_suffix}
use proxy_control_plane.Store.Migrations.{trim_suffix}
use proxy_control_plane.HttpApi.Action.{split_host, host_before, last_index_of, index_of, has_byte}
use proxy_control_plane.HttpApi.Accesses.{normalize_access_domain, without_port}

running : Unit {0}
unfolding normalize_access_domain without_port contains trim_suffix has_suffix split_host
    host_before last_index_of index_of has_byte to_lower lower trim_space trim_left trim_right
    is_space str_eq
running = tt

port_and_dot :
    normalize_access_domain (codes " WWW.Example.com.:443") ≡ some (codes "www.example.com")
unfolding running
port_and_dot = refl

scheme : normalize_access_domain (codes "https://example.com") ≡ none
unfolding running
scheme = refl

path : normalize_access_domain (codes "example.com/a") ≡ none
unfolding running
path = refl
