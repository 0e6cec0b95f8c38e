-- ===== src/Store.antt =====
-- internal/store: the tables, the errors, and the actions on them. A table is a list of rows; the
-- constraints are those of migrations/*.sql. A statement either has its effect or fails by a
-- constraint; failures of the connection are left out.
pub mod Nodes
pub mod RefreshTokens
pub mod Unique
pub mod Steps
pub mod Samples
pub mod Customers
pub mod Accounts
pub mod Targets
pub mod Tokens
pub mod Access
pub mod Migrations
pub mod Listings
pub mod LegacyImport
pub mod Traffic
pub mod Maintenance
use mathlib.Core.Option.{Option, none, some}
use proxy_control_plane.Base.{
  Text, Bool, true, false, not, List, ℕ, Result, ok, err, eqb, str_eq, [], if◌then◌else◌,
}
use proxy_control_plane.Domain.{
  Time, Customer, ProxyNode, ProxyAccount, SubscriptionToken, AuthRefreshToken, TrafficUsage,
  TrafficUsageDaily, DomainAccessLog, AuditLog,
}

-- `ErrNotFound`, `ErrConflict`, `ErrInvalid`, and any other error by its text.
pub data Error : Type 0 where
  not_found conflict invalid : Error
  other : Text → Error

-- A row of `proxy_account_nodes`.
pub record Binding : Type 0 where
  pub proxy_account_id : Text
  pub proxy_node_id : Text

pub record Db : Type 0 where
  pub customers : List Customer
  pub nodes : List ProxyNode
  pub accounts : List ProxyAccount
  pub bindings : List Binding
  pub subscription_tokens : List SubscriptionToken
  pub refresh_tokens : List AuthRefreshToken
  pub usage : List TrafficUsage
  pub daily : List TrafficUsageDaily
  pub domain_logs : List DomainAccessLog
  pub audit_logs : List AuditLog

-- What was written before an error stays written, so the tables come back beside the error too.
abbrev pub Exec : Type 0 → Type 0
Exec A = Db → Result Error A × Db

abbrev pub pure : {A : Type 0} → A → Exec A
pure a db = (ok a, db)

abbrev pub raise : {A : Type 0} → Error → Exec A
raise e db = (err e, db)

abbrev pub lift : {A : Type 0} → Result Error A → Exec A
lift r db = (r, db)

abbrev pub continue : {A B : Type 0} → (A → Exec B) → Result Error A → Db → Result Error B × Db
continue f (ok a) db = f a db
continue f (err e) db = (err e, db)

infixl 5 ◌>>=◌ ◌>>◌
abbrev pub ◌>>=◌ : {A B : Type 0} → Exec A → (A → Exec B) → Exec B
◌>>=◌ m f db = continue f (m db).0 (m db).1

abbrev pub ◌>>◌ : {B : Type 0} → Exec (Unit {0}) → Exec B → Exec B
m >> k = m >>= λ _. k

abbrev pub guard : Bool → Error → Exec (Unit {0})
guard true e db = (ok tt, db)
guard false e db = (err e, db)

abbrev pub stamp : Time → Time → Time
stamp now given = if eqb given 0 then now else given

unfoldable pub found {ℓ} : {A : Type ℓ} → Option A → Result Error A
found none = err not_found
found (some a) = ok a

-- NewID is called only where no id is given.
unfoldable pub id_or_new : Text → Result Error Text → Result Error Text
id_or_new id new_id = if str_eq id [] then new_id else ok id

abbrev pub settle : {A : Type 0} → Db → Result Error A → Db → Result Error A × Db
settle old (ok a) db = (ok a, db)
settle old (err e) db = (err e, old)

-- `db.Transaction`: an error takes back all that the function has written.
abbrev pub transaction : {A : Type 0} → Exec A → Exec A
transaction m db = settle db (m db).0 (m db).1
