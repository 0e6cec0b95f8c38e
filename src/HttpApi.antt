-- ===== src/HttpApi.antt =====
-- internal/httpapi/server.go: redactLogPath, which the request log runs on every path.
pub mod Redacted
pub mod Action
pub mod Samples
pub mod Auth
pub mod Patch
pub mod Customers
pub mod Subscriptions
pub mod Nodes
pub mod Accounts
pub mod Traffic
pub mod Accesses
mod Tests
use proxy_control_plane.Base.{
  ℕ, suc, Text, codes, Bool, true, false, ◌||◌, Option, none, some, [], ◌∷◌, ◌++◌, take, drop,
  str_eq, has_prefix, eqb, if◌then◌else◌,
}

-- strings.Index for a text of one byte
unfoldable pub index_byte : Text → ℕ → Option ℕ
index_byte [] c = none
index_byte (x ∷ s) c =
    let rest = index_byte s c in
    if eqb x c then some 0 else elim rest [ none ↦ none | some i ↦ some (suc i) ]

-- '?'
abbrev pub question_mark : ℕ
question_mark = 63

abbrev pub redacted_path : Text
redacted_path = codes "/sub/<redacted>"

abbrev pub redact_parts : Text → Text → Text
redact_parts path raw_query =
    if str_eq path (codes "/sub") || has_prefix path (codes "/sub/")
    then redacted_path ++ raw_query
    else path ++ raw_query

unfoldable pub redact_log_path : Text → Text
redact_log_path path = elim (index_byte path question_mark) [
  | none ↦ redact_parts path []
  | some i ↦ redact_parts (take i path) (drop i path)
]
