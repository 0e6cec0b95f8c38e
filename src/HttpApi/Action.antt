-- ===== src/HttpApi/Action.antt =====
-- What the handlers of internal/httpapi/server.go share: an action on the tables that ends in a reply
-- or in an error reply, with writeError, handleStoreError, audit and clientIP. The clock is read once for a request, and the random bytes are given with it.
use mathlib.Core.Option
use proxy_control_plane.Base.{
  ℕ, suc, Text, codes, Bool, true, false, not, ◌||◌, Option, none, some, List, [], ◌∷◌, take, drop,
  str_eq, has_prefix, split, trim_space, if◌then◌else◌, Result, ok, err, eqb, is_some,
}
use proxy_control_plane.Domain.{Time}
use proxy_control_plane.Store.{Error, not_found, conflict, invalid, other, Db, Exec}
use proxy_control_plane.Store.Tokens.{write_audit}
use proxy_control_plane.Security.AccessToken.{ClaimsJson}
use proxy_control_plane.Config.{Config}

-- The status and the message that writeError sends.
pub record Failure : Type 0 where
  pub status : ℕ
  pub message : Text

abbrev pub Action : Type 0 → Type 0
Action A = Db → Result Failure A × Db

abbrev pub reply : {A : Type 0} → A → Action A
reply a db = (ok a, db)

-- `writeError(c, status, message); return`
abbrev pub write_error : {A : Type 0} → ℕ → Text → Action A
write_error status message db = (err (record { status = status; message = message }), db)

abbrev pub continue :
    {A B : Type 0} → (A → Action B) → Result Failure A → Db → Result Failure B × Db
continue f (ok a) db = f a db
continue f (err e) db = (err e, db)

infixl 5 ◌>>=◌ ◌>>◌
abbrev pub ◌>>=◌ : {A B : Type 0} → Action A → (A → Action B) → Action B
◌>>=◌ m f db = continue f (m db).0 (m db).1

abbrev pub ◌>>◌ : {B : Type 0} → Action (Unit {0}) → Action B → Action B
m >> k = m >>= λ _. k

-- `if !test { writeError(...); return }`
abbrev pub require : Bool → ℕ → Text → Action (Unit {0})
require true status message = reply tt
require false status message = write_error status message

-- `handleStoreError` on an error
unfoldable pub store_failure : Error → Failure
store_failure not_found = record { status = 404; message = codes "not found" }
store_failure conflict = record { status = 409; message = codes "already exists" }
store_failure invalid = record { status = 400; message = codes "invalid request" }
store_failure (other text) = record { status = 500; message = codes "internal server error" }

abbrev pub settle : {A : Type 0} → (Error → Failure) → Result Error A → Result Failure A
settle failure (ok a) = ok a
settle failure (err e) = err (failure e)

-- A call of the store, with what becomes of its errors.
abbrev pub call : {A : Type 0} → (Error → Failure) → Exec A → Action A
call failure m db = (settle failure (m db).0, (m db).1)

-- `errors.Is(err, store.ErrNotFound)`, with the other errors left to `handleStoreError`
unfoldable pub unless_found : ℕ → Text → Error → Failure
unless_found status message not_found = record { status = status; message = message }
unless_found status message conflict = store_failure conflict
unless_found status message invalid = store_failure invalid
unless_found status message (other text) = store_failure (other text)

-- HMAC and SHA-256, the JSON of the claims, and the configuration.
pub record Services : Type 0 where
  pub hmac : Text → Text → Text
  pub sha256 : Text → Text
  pub json : ClaimsJson
  pub cfg : Config

-- What a handler reads of its request, with the clock, what NewRandomToken returns, and what NewID
-- returns in the store and for the audit log. `json_string` is json.Marshal of a string.
pub record Request : Type 0 where
  pub now : Time
  pub random : Result Text Text
  pub new_id : Result Error Text
  pub audit_id : Result Error Text
  pub forwarded_for : Text
  pub remote_addr : Text
  pub user_agent : Text
  pub authorization : Text
  pub json_string : Text → Text

-- `_ = s.store.WriteAudit(...)` with the JSON of the metadata: an error is dropped, what was written
-- stays.
abbrev pub audit_json : Request → Text → Text → Text → Action (Unit {0})
audit_json req actor action metadata_json db =
    (ok tt, (write_audit req.now req.audit_id actor action (ok metadata_json) db).1)

-- With a string as the metadata.
unfoldable pub audit : Request → Text → Text → Text → Action (Unit {0})
audit req actor action metadata = audit_json req actor action (req.json_string metadata)

unfoldable pub index_of : ℕ → Text → Option ℕ
index_of c [] = none
index_of c (x ∷ s) =
    let rest = index_of c s in if eqb x c then some 0 else Option.map (λ i. suc i) rest

unfoldable pub last_index_of : ℕ → Text → Option ℕ
last_index_of c [] = none
last_index_of c (x ∷ s) = elim (last_index_of c s) [
  | some i ↦ some (suc i)
  | none ↦ if eqb x c then some 0 else none
]

unfoldable pub has_byte : ℕ → Text → Bool
has_byte c s = is_some (index_of c s)

-- net.SplitHostPort on a text with a last colon at `i`: the host, if there is no error.
unfoldable pub host_before : Text → ℕ → Option Text
host_before s i =
    if has_prefix s (codes "[")
    then elim (index_of b']' s) [
      | none ↦ none
      | some end ↦
          if not (eqb (suc end) i) || (has_byte b'[' (drop 1 s) || has_byte b']' (drop (suc end) s))
          then none
          else some (drop 1 (take end s))
    ]
    else if has_byte b':' (take i s) || (has_byte b'[' s || has_byte b']' s)
    then none
    else some (take i s)

unfoldable pub split_host : Text → Option Text
split_host s = elim (last_index_of b':' s) [ none ↦ none | some i ↦ host_before s i ]

abbrev pub first_part : List Text → Text
first_part [] = []
first_part (p ∷ ps) = p

unfoldable pub client_ip : Request → Text
client_ip req =
    if not (str_eq req.forwarded_for [])
    then trim_space (first_part (split b',' req.forwarded_for))
    else elim (split_host req.remote_addr) [ none ↦ req.remote_addr | some host ↦ host ]
