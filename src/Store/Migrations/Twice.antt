-- ===== src/Store/Migrations/Twice.antt =====
-- Migrations that were applied are left alone when they are applied again.
use mathlib.Core.Path.{subst}
use proxy_control_plane.Base.{
  Text, false, Option, none, some, List, [], ◌∷◌, ◌++◌, map, All, any, ◌≡◌, refl, sym, ap, ◌∙◌,
  arith, ok, Result-cases, Option-cases, inl, inr, str_eq, str_eq_iff, str_eq_refl, trim_space,
  if◌then◌else◌, Dict, get, put, get-put,
}
use proxy_control_plane.Store.Migrations.{
  SqlMigration, MigrationRow, AppliedMigration, DirEntry, Schema, load_sql_migrations, read_rows,
  applied_migrations, apply_sql_migration, failed, with_result, result_of, step, apply_all,
  apply_sql_migrations,
}

read_rows-append :
    (rows : List MigrationRow) (r : MigrationRow) (m : Dict AppliedMigration)
    → read_rows (rows ++ r ∷ []) m
      ≡ put r.version (record { name = r.name; checksum = r.checksum }) (read_rows rows m)
unfolding read_rows
read_rows-append [] r m = refl
read_rows-append (q ∷ rows) r m = read_rows-append rows r _

-- A version without a row is not read.
get-read_rows :
    (v : Text) (rows : List MigrationRow) (m : Dict AppliedMigration)
    → any (λ r. str_eq r.version v) rows ≡ false
    → get v (read_rows rows m) ≡ get v m
unfolding read_rows
get-read_rows v [] m h = refl
get-read_rows v (r ∷ rows) m h =
    let row : AppliedMigration = record { name = r.name; checksum = r.checksum } in
    ground (arith, get-read_rows v rows (put r.version row m), get-put r.version v row m)

-- A version has a row with a checksum.
record IsRecorded (v cs : Text) (rows : List MigrationRow) : Type 0 where
  pub row : AppliedMigration
  pub there : get v (applied_migrations rows) ≡ some row
  pub same : row.checksum ≡ cs

module _ {S : Type 0} (read : Text → Option Text) (run : Text → S → Option S)
    (sum : Text → Text) where
  apply-inserts :
      (m : SqlMigration) (content : Text) (schema next : Schema S)
      → apply_sql_migration read run sum m content schema ≡ ok next
      → (any (λ r. str_eq r.version m.version) schema.rows ≡ false)
        × (next.rows
            ≡ schema.rows
              ++ record { version = m.version; name = m.name; checksum = sum content } ∷ [])
  unfolding apply_sql_migration
  apply-inserts m content schema next h = elim (Option-cases (run content schema.body)) [
    | inl e ↦ absurd (ground (arith, h, e))
    | inr (body, e) ↦ (ground (arith, h, e), ground (arith, h, e))
  ]

  get-inserted :
      (m : SqlMigration) (content : Text) (schema next : Schema S) (v : Text)
      → apply_sql_migration read run sum m content schema ≡ ok next
      → get v (applied_migrations next.rows) ≡ (
          if str_eq m.version v
          then some (record { name = m.name; checksum = sum content })
          else get v (applied_migrations schema.rows))
  unfolding applied_migrations
  get-inserted m content schema next v h =
      let new : MigrationRow = record {
        version = m.version;
        name = m.name;
        checksum = sum content;
      } in
      ap (λ rows. get v (read_rows rows [])) (apply-inserts m content schema next h).1
      ∙ (ap (get v) (read_rows-append schema.rows new []) ∙ get-put m.version v _ _)

  apply-keeps :
      (m : SqlMigration) (content : Text) (schema next : Schema S) (v cs : Text)
      → apply_sql_migration read run sum m content schema ≡ ok next
      → IsRecorded v cs schema.rows
      → IsRecorded v cs next.rows
  unfolding applied_migrations get
  apply-keeps m content schema next v cs h r =
      let fresh = (apply-inserts m content schema next h).0 in
      record {
        row = r.row;
        there = ground (
          arith,
          get-inserted m content schema next v h,
          r.there,
          get-read_rows m.version schema.rows [] fresh,
          str_eq_iff m.version v,
        );
        same = r.same;
      }

  apply-records :
      (m : SqlMigration) (content : Text) (schema next : Schema S)
      → apply_sql_migration read run sum m content schema ≡ ok next
      → IsRecorded m.version (sum content) next.rows
  apply-records m content schema next h = record {
    row = record { name = m.name; checksum = sum content };
    there = rw (get-inserted m content schema next m.version h, str_eq_refl m.version) refl;
    same = refl;
  }

  -- What the loop read at its start has a row.
  abbrev Agrees : Dict AppliedMigration → List MigrationRow → Type 0
  Agrees applied rows =
      (v : Text) (e : AppliedMigration) → get v applied ≡ some e → IsRecorded v e.checksum rows

  -- A file that is recorded with the checksum of its content.
  record IsDone (rows : List MigrationRow) (m : SqlMigration) : Type 0 where
    pub content : Text
    pub content_eq : read m.name ≡ some content
    pub filled : str_eq (trim_space content) [] ≡ false
    pub recorded : IsRecorded m.version (sum content) rows

  -- A step of the loop that does not end it.
  record Advance (applied : Dict AppliedMigration) (m : SqlMigration) (ms : List SqlMigration)
      (schema : Schema S) : Type 0 where
    pub next : Schema S
    pub keeps : (v cs : Text) → IsRecorded v cs schema.rows → IsRecorded v cs next.rows
    pub done : Agrees applied schema.rows → IsDone next.rows m
    pub schema_eq :
        (apply_all read run sum (m ∷ ms) applied schema).schema
        ≡ (apply_all read run sum ms applied next).schema
    pub error_eq : (apply_all read run sum ms applied next).error ≡ none

  advance :
      (applied : Dict AppliedMigration) (m : SqlMigration) (ms : List SqlMigration)
      (schema : Schema S)
      → (apply_all read run sum (m ∷ ms) applied schema).error ≡ none
      → Advance applied m ms schema
  unfolding apply_all step failed with_result
  advance applied m ms schema h = elim (Option-cases (read m.name)) [
    | inl e ↦ absurd (ground (arith, h, e))
    | inr (content, e) ↦ elim (Option-cases (get m.version applied)) [
      | inr (existing, f) ↦ record {
        next = schema;
        keeps = λ v cs r. r;
        done = λ agrees.
            let r = agrees m.version existing f in
            record {
              content = content;
              content_eq = e;
              filled = ground (arith, h, e);
              recorded = record {
                row = r.row;
                there = r.there;
                same = r.same ∙ ground (arith, h, e, f, str_eq_iff existing.checksum (sum content));
              };
            };
        schema_eq = ground (arith, h, e, f);
        error_eq = ground (arith, h, e, f);
      }
      | inl f ↦ elim (Result-cases (apply_sql_migration read run sum m content schema)) [
        | inr (x, g) ↦ absurd (ground (arith, h, e, f, g))
        | inl (next, g) ↦ record {
          next = next;
          keeps = λ v cs. apply-keeps m content schema next v cs g;
          done = λ agrees. record {
            content = content;
            content_eq = e;
            filled = ground (arith, h, e);
            recorded = apply-records m content schema next g;
          };
          schema_eq = ground (arith, h, e, f, g);
          error_eq = ground (arith, h, e, f, g);
        }
      ]
    ]
  ]

  Agrees-next :
      (applied : Dict AppliedMigration) (m : SqlMigration) (ms : List SqlMigration)
      (schema : Schema S) (a : Advance applied m ms schema)
      → Agrees applied schema.rows
      → Agrees applied a.next.rows
  Agrees-next applied m ms schema a agrees v e h = a.keeps v e.checksum (agrees v e h)

  apply_all-keeps :
      (applied : Dict AppliedMigration) (ms : List SqlMigration) (schema : Schema S)
      → (apply_all read run sum ms applied schema).error ≡ none
      → (v cs : Text) → IsRecorded v cs schema.rows
      → IsRecorded v cs (apply_all read run sum ms applied schema).schema.rows
  unfolding apply_all
  apply_all-keeps applied [] schema h v cs r = r
  apply_all-keeps applied (m ∷ ms) schema h v cs r =
      let a = advance applied m ms schema h in
      subst (λ s. IsRecorded v cs s.rows) (sym a.schema_eq)
        (apply_all-keeps applied ms a.next a.error_eq v cs (a.keeps v cs r))

  still-IsDone :
      (rows rows' : List MigrationRow) (m : SqlMigration)
      → ((v cs : Text) → IsRecorded v cs rows → IsRecorded v cs rows')
      → IsDone rows m
      → IsDone rows' m
  still-IsDone rows rows' m keeps d = record {
    content = d.content;
    content_eq = d.content_eq;
    filled = d.filled;
    recorded = keeps m.version (sum d.content) d.recorded;
  }

  apply_all-IsDone :
      (applied : Dict AppliedMigration) (ms : List SqlMigration) (schema : Schema S)
      → Agrees applied schema.rows
      → (apply_all read run sum ms applied schema).error ≡ none
      → All (IsDone (apply_all read run sum ms applied schema).schema.rows) ms
  apply_all-IsDone applied [] schema agrees h = tt
  apply_all-IsDone applied (m ∷ ms) schema agrees h =
      let a = advance applied m ms schema h in
      subst (λ s. All (IsDone s.rows) (m ∷ ms)) (sym a.schema_eq)
        (
          still-IsDone _ _ m (apply_all-keeps applied ms a.next a.error_eq) (a.done agrees),
          apply_all-IsDone applied ms a.next (Agrees-next applied m ms schema a agrees) a.error_eq,
        )

  apply_all_done :
      (rows : List MigrationRow) (ms : List SqlMigration) (schema : Schema S)
      → All (IsDone rows) ms
      → apply_all read run sum ms (applied_migrations rows) schema ≡ record {
        results = map (λ m. result_of read run sum m false) ms;
        error = none;
        schema = schema;
      }
  unfolding apply_all step with_result
  apply_all_done rows [] schema d = refl
  apply_all_done rows (m ∷ ms) schema (d, ds) = ground (
    arith,
    d.content_eq,
    d.filled,
    d.recorded.there,
    d.recorded.same,
    str_eq_refl (sum d.content),
    apply_all_done rows ms schema ds,
  )

  -- When the migrations of a directory are applied without an error, applying the same files again
  -- changes nothing, ends without an error, and reports every file in its order as not applied.
  pub migrate_twice :
      (entries : List DirEntry) (schema : Schema S)
      → (apply_sql_migrations read run sum (some entries) schema).error ≡ none
      → apply_sql_migrations read run sum
          (some entries)
          (apply_sql_migrations read run sum (some entries) schema).schema
        ≡ record {
          results = map (λ m. result_of read run sum m false) (load_sql_migrations entries);
          error = none;
          schema = (apply_sql_migrations read run sum (some entries) schema).schema;
        }
  unfolding apply_sql_migrations
  migrate_twice entries schema h =
      let first =
        apply_all read run sum (load_sql_migrations entries) (applied_migrations schema.rows)
          schema in
      apply_all_done first.schema.rows (load_sql_migrations entries) first.schema (
        apply_all-IsDone (applied_migrations schema.rows) (load_sql_migrations entries) schema
          (λ v e there. record { row = e; there = there; same = refl }) h)
