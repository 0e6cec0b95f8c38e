-- ===== src/Domain/Tests.antt =====
-- The status and e-mail functions at concrete inputs.
use proxy_control_plane.Base.{
  codes, [], some, none, false, ◌≡◌, ◌≢◌, ◌↔◌, refl, str_eq, trim_space, to_lower,
}
use proxy_control_plane.Domain.{
  normalize_customer_status, customer_status_or_default, customer_status_is_active,
  proxy_account_id_from_runtime_email, runtime_proxy_account_email, cut_affixes,
}
use proxy_control_plane.Domain.Email.{email_iff}

status_tests :
    (customer_status_or_default (codes " Active ") ≡ codes "active")
    × (customer_status_or_default (codes "  ") ≡ codes "active")
    × (customer_status_is_active (codes "disabled") ≡ false)
unfolding customer_status_or_default customer_status_is_active normalize_customer_status str_eq
    trim_space to_lower
status_tests = (refl, refl, refl)

email_tests :
    (proxy_account_id_from_runtime_email (codes "pcp-7@proxy-control-plane") ≡ some (codes "7"))
    × (proxy_account_id_from_runtime_email (codes "pcp-@proxy-control-plane") ≡ none)
    × (proxy_account_id_from_runtime_email (codes "alice@example.com") ≡ none)
unfolding proxy_account_id_from_runtime_email cut_affixes str_eq
email_tests = (refl, refl, refl)

email_iff_example :
    (proxy_account_id_from_runtime_email (codes "pcp-7@proxy-control-plane") ≡ some (codes "7")) ↔ (
      (codes "7" ≢ [])
      × (codes "pcp-7@proxy-control-plane" ≡ runtime_proxy_account_email (codes "7")))
email_iff_example = email_iff (codes "pcp-7@proxy-control-plane") (codes "7")
