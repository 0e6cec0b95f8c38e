-- ===== src/Store/Migrations.antt =====
-- internal/store/migrations.go: the SQL files that are applied to the database, each once. The
-- database is the table schema_migrations and the rest, on which running a file is a parameter;
-- failures of the connection are left out, and an error is its text up to the wrapped cause.
pub mod Twice
mod Tests
use proxy_control_plane.Base.{
  ℕ, Text, codes, Bool, true, false, not, ◌&&◌, ◌||◌, Option, none, some, List, [], ◌∷◌, ◌++◌, any,
  length, take, drop, str_eq, str_ltb, trim_space, Result, ok, err, if◌then◌else◌, Dict, get, put,
  ◌-◌, leb,
}
use proxy_control_plane.Config.{has_suffix}

-- `sqlMigration`, where the path is the name in the directory
pub record SqlMigration : Type 0 where
  pub version : Text
  pub name : Text

pub record MigrationResult : Type 0 where
  pub version : Text
  pub name : Text
  pub applied : Bool

pub record AppliedMigration : Type 0 where
  pub name : Text
  pub checksum : Text

-- A row of schema_migrations.
pub record MigrationRow : Type 0 where
  pub version : Text
  pub name : Text
  pub checksum : Text

pub record DirEntry : Type 0 where
  pub name : Text
  pub is_dir : Bool

-- schema_migrations, which the files themselves do not touch, and the rest of the database.
pub record Schema (S : Type 0) : Type 0 where
  pub rows : List MigrationRow
  pub body : S

-- The results come back beside an error too.
pub record Outcome (S : Type 0) : Type 0 where
  pub results : List MigrationResult
  pub error : Option Text
  pub schema : Schema S

unfoldable pub trim_suffix : Text → Text → Text
trim_suffix s suf = if has_suffix s suf then take (length s - length suf) s else s

unfoldable pub select_entries : List DirEntry → List SqlMigration
select_entries [] = []
select_entries (e ∷ es) =
    let rest = select_entries es in
    let version = trim_suffix e.name (codes ".sql") in
    if e.is_dir || not (has_suffix e.name (codes ".sql"))
    then rest
    else if str_eq version []
    then rest
    else record { version = version; name = e.name } ∷ rest

unfoldable pub insert_by_name : SqlMigration → List SqlMigration → List SqlMigration
insert_by_name m [] = m ∷ []
insert_by_name m (n ∷ ns) =
    let rest = insert_by_name m ns in if str_ltb n.name m.name then n ∷ rest else m ∷ n ∷ ns

-- `sort.Slice` by name; the names in a directory are distinct.
unfoldable pub sort_by_name : List SqlMigration → List SqlMigration
sort_by_name [] = []
sort_by_name (m ∷ ms) = insert_by_name m (sort_by_name ms)

unfoldable pub load_sql_migrations : List DirEntry → List SqlMigration
load_sql_migrations entries = sort_by_name (select_entries entries)

-- The loop over the rows of schema_migrations.
unfoldable pub read_rows : List MigrationRow → Dict AppliedMigration → Dict AppliedMigration
read_rows [] m = m
read_rows (r ∷ rs) m =
    read_rows rs (put r.version (record { name = r.name; checksum = r.checksum }) m)

unfoldable pub applied_migrations : List MigrationRow → Dict AppliedMigration
applied_migrations rows = read_rows rows []

-- `run content` is the execution of a file, `read name` its content, and `sum` its checksum.
module _ {S : Type 0} (read : Text → Option Text) (run : Text → S → Option S)
    (sum : Text → Text) where
  -- The transaction: the state it commits, or the error on which it is rolled back.
  unfoldable pub apply_sql_migration : SqlMigration → Text → Schema S → Result Text (Schema S)
  apply_sql_migration m content schema = elim (run content schema.body) [
    | none ↦ err (codes "apply migration " ++ m.name)
    | some body ↦
        if any (λ r. str_eq r.version m.version) schema.rows
        then err (codes "record migration " ++ m.name)
        else ok (record {
          rows =
              schema.rows
              ++ record { version = m.version; name = m.name; checksum = sum content } ∷ [];
          body = body;
        })
  ]

  unfoldable pub failed : List MigrationResult → Text → Schema S → Outcome S
  failed results error schema = record { results = results; error = some error; schema = schema }

  unfoldable pub with_result : MigrationResult → Outcome S → Outcome S
  with_result r o = record o { results = r ∷ o.results }

  abbrev pub result_of : SqlMigration → Bool → MigrationResult
  result_of m applied = record { version = m.version; name = m.name; applied = applied }

  -- The body of the loop, given what the rest of the loop does with a state.
  unfoldable pub step :
      SqlMigration → Text → Option AppliedMigration → Schema S → (Schema S → Outcome S) → Outcome S
  step m content (some existing) schema rest =
      if not (str_eq existing.checksum (sum content))
      then failed []
          (codes "migration " ++ (m.name ++ codes " was already applied with a different checksum"))
          schema
      else with_result (result_of m false) (rest schema)
  step m content none schema rest = elim (apply_sql_migration m content schema) [
    | err e ↦ failed [] e schema
    | ok next ↦ with_result (result_of m true) (rest next)
  ]

  unfoldable pub apply_all : List SqlMigration → Dict AppliedMigration → Schema S → Outcome S
  apply_all [] applied schema = record { results = []; error = none; schema = schema }
  apply_all (m ∷ ms) applied schema = elim (read m.name) [
    | none ↦ failed [] (codes "read migration " ++ m.name) schema
    | some content ↦
        if str_eq (trim_space content) []
        then failed [] (codes "migration " ++ (m.name ++ codes " is empty")) schema
        else step m content (get m.version applied) schema (λ next. apply_all ms applied next)
  ]

  -- `none` for the entries is a directory that cannot be read.
  unfoldable pub apply_sql_migrations : Option (List DirEntry) → Schema S → Outcome S
  apply_sql_migrations none schema = failed [] (codes "read migrations dir") schema
  apply_sql_migrations (some entries) schema =
      apply_all (load_sql_migrations entries) (applied_migrations schema.rows) schema
