-- ===== src/HttpApi/Tests.antt =====
-- A subscription path with a query, and a path of the API.
use proxy_control_plane.Base.{codes, some, ◌++◌, ◌≡◌, refl, str_eq}
use proxy_control_plane.HttpApi.{index_byte, redacted_path, redact_log_path}
use proxy_control_plane.HttpApi.Redacted.{raw_query, redact_hides}

redacts : redact_log_path (codes "/sub/abc?limit=1") ≡ codes "/sub/<redacted>?limit=1"
unfolding redact_log_path index_byte str_eq
redacts = refl

redacts_bare : redact_log_path (codes "/sub") ≡ codes "/sub/<redacted>"
unfolding redact_log_path index_byte str_eq
redacts_bare = refl

keeps : redact_log_path (codes "/subs?limit=1") ≡ codes "/subs?limit=1"
unfolding redact_log_path index_byte str_eq
keeps = refl

redact_hides_example :
    redact_log_path ((codes "/sub/" ++ codes "abc") ++ raw_query (some (codes "limit=1")))
    ≡ redacted_path ++ raw_query (some (codes "limit=1"))
unfolding index_byte
redact_hides_example = redact_hides (codes "abc") (some (codes "limit=1")) refl
