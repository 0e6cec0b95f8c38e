-- ===== src/Store/Migrations/Tests.antt =====
-- Runs of the migrations.
use proxy_control_plane.Base.{
  Text, codes, false, Option, none, some, List, [], ◌∷◌, ◌++◌, map, ◌≡◌, refl, str_eq, str_ltb,
  trim_space, trim_left, trim_right, is_space, get, put,
}
use proxy_control_plane.Config.{has_suffix}
use proxy_control_plane.Store.Migrations.{
  DirEntry, Schema, trim_suffix, select_entries, insert_by_name, sort_by_name, load_sql_migrations,
  result_of, read_rows, applied_migrations, apply_sql_migration, failed, with_result, step,
  apply_all, apply_sql_migrations,
}
use proxy_control_plane.Store.Migrations.Twice.{migrate_twice}

abbrev two_files : List DirEntry
two_files =
    record { name = codes "2.sql"; is_dir = false }
    ∷ record { name = codes "1.sql"; is_dir = false }
    ∷ record { name = codes "readme"; is_dir = false }
    ∷ []

abbrev read_file : Text → Option Text
read_file name = some (codes "CREATE " ++ name)

abbrev run_file : Text → List Text → Option (List Text)
run_file content ran = some (ran ++ content ∷ [])

abbrev content_of : Text → Text
content_of content = content

abbrev empty_schema : Schema (List Text)
empty_schema = record { rows = []; body = [] }

first_run :
    (apply_sql_migrations read_file run_file content_of (some two_files) empty_schema).error ≡ none
unfolding trim_suffix select_entries insert_by_name sort_by_name load_sql_migrations read_rows
    applied_migrations apply_sql_migration failed with_result step apply_all apply_sql_migrations
    has_suffix str_eq str_ltb trim_space trim_left trim_right is_space get put
first_run = refl

body_after_first_run :
    (apply_sql_migrations read_file run_file content_of (some two_files) empty_schema).schema.body
    ≡ codes "CREATE 1.sql" ∷ codes "CREATE 2.sql" ∷ []
unfolding trim_suffix select_entries insert_by_name sort_by_name load_sql_migrations read_rows
    applied_migrations apply_sql_migration failed with_result step apply_all apply_sql_migrations
    has_suffix str_eq str_ltb trim_space trim_left trim_right is_space get put
body_after_first_run = refl

migrate_twice_example :
    apply_sql_migrations read_file run_file content_of
      (some two_files)
      (apply_sql_migrations read_file run_file content_of (some two_files) empty_schema).schema
    ≡ record {
      results =
          map
            (λ m. result_of read_file run_file content_of m false)
            (load_sql_migrations two_files);
      error = none;
      schema =
          (apply_sql_migrations read_file run_file content_of (some two_files) empty_schema).schema;
    }
migrate_twice_example = migrate_twice read_file run_file content_of two_files empty_schema first_run
