-- ===== src/Migrations.antt =====
-- src/hca/migrations.py: the ordered, transactional steps of the schema. The database is the marker of
-- its version with what `_verify` looks at; the SQL or the function of a step is a partial function on
-- it. The backup is a copy of it, and its restoration gives the copy back.
pub mod Steps
use hermes_concurrent_agents.Common.{
  ℕ, ◌+◌, String, refl, Bool, not, ◌&&◌, ◌||◌, Option, none, some, List, [], ◌∷◌, ◌++◌, arith, ltb,
  leb, eqb, if◌then◌else◌, nat_eq, string_eq, filter, contains,
}
use hermes_concurrent_agents.Common.Tables.{order_asc}

pub record Database : Type 0 where
  pub version : ℕ
  pub tables : List String
  pub run_columns : List String  -- of the table `runs`
  pub intact : Bool  -- `PRAGMA integrity_check`

pub record Migration : Type 0 where
  pub version : ℕ
  pub name : String
  pub up : Database → Option Database

abbrev pub current_schema_version : ℕ
current_schema_version = 3

-- `CREATE TABLE IF NOT EXISTS`.
abbrev create_table : String → List String → List String
create_table t ts = if contains t ts then ts else ts ++ t ∷ []

unfoldable pub run_tables : Database → Option Database
run_tables db = some (record db {
  tables =
      create_table "hca_run_events"
        (create_table "hca_questions" (create_table "hca_runs" db.tables));
})

-- `ALTER TABLE … ADD COLUMN` fails where the column is there, or the table is not.
unfoldable pub start_ticks : Database → Option Database
start_ticks db =
    if contains "pid_start_ticks" db.run_columns || not (contains "runs" db.tables)
    then none
    else some (record db { run_columns = db.run_columns ++ "pid_start_ticks" ∷ [] })

abbrev pub migrations : List Migration
migrations =
    record { version = 2; name = "run_projection_tables"; up = run_tables }
    ∷ record { version = 3; name = "worker_process_start_identity"; up = start_ticks }
    ∷ []

unfoldable pub verify : Database → ℕ → Bool
verify db target =
    db.intact
    && eqb db.version target
    && (ltb target 2
        || contains "hca_runs" db.tables
          && contains "hca_questions" db.tables
          && contains "hca_run_events" db.tables)
    && (ltb target 3 || contains "pid_start_ticks" db.run_columns)

-- The steps between two versions, in order.
unfoldable pub due : ℕ → ℕ → List Migration → List Migration
due cur target steps =
    filter (λ m. ltb cur m.version && leb m.version target) (order_asc (λ m. m.version) steps)

-- A step commits its change with the marker, or is rolled back.
unfoldable pub run_step : Migration → Database → Option Database
run_step m db = elim (m.up db) [
  | none ↦ none
  | some next ↦ some (record next { version = m.version })
]

-- The loop: the names of the steps that were applied if none failed, and the database.
unfoldable pub run_steps : List Migration → List String → Database → Option (List String) × Database
unfolding run_step
run_steps [] applied db = (some applied, db)
run_steps (m ∷ ms) applied db = elim (run_step m db) [
  | none ↦ (none, db)
  | some next ↦ run_steps ms (applied ++ m.name ∷ []) next
]

pub data Outcome : Type 0 where
  migrated : (applied : List String) → Outcome
  too_new restored unverified left_over : Outcome

-- The backup that is taken of a database in a file.
abbrev pub saved : Bool → Database → Option Database
saved backup db = if backup then some db else none

-- The end of a failed migration: the backup is brought back and verified at the version it had.
unfoldable pub restore : Option Database → ℕ → Database → Outcome × Database
unfolding verify
restore none cur db = (left_over, db)
restore (some copy) cur db = (if verify copy cur then restored else unverified, copy)

-- The end of `apply_migrations`: what was applied and verified, or what is found after a failure.
unfoldable pub finish :
    Option Database → ℕ → ℕ → Option (List String) × Database → Outcome × Database
unfolding restore
finish copy cur target (none, db) = restore copy cur db
finish copy cur target (some applied, db) =
    if verify db target then (migrated applied, db) else restore copy cur db

-- `backup` says that a backup is asked for and that the database is a file.
unfoldable pub apply_migrations : Database → ℕ → List Migration → Bool → Outcome × Database
unfolding due run_steps finish
apply_migrations db target steps backup =
    if ltb target db.version
    then (too_new, db)
    else if eqb db.version target
    then (migrated [], db)
    else finish (saved backup db) db.version target (run_steps (due db.version target steps) [] db)
