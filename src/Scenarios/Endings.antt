-- ===== src/Scenarios/Endings.antt =====
-- The result of a run, and the migrations, at concrete inputs.
use hermes_concurrent_agents.Common.{
  ℕ, suc, take, ◌≤◌, max, String, ◌≡◌, refl, ◌↔◌, ◌⊎◌, true, false, none, some, List, [], ◌∷◌,
  nat_eq, string_eq, is_empty,
}
use hermes_concurrent_agents.Run.State.{completed, failed, run_state_eq}
use hermes_concurrent_agents.Common.Json.{end}
use hermes_concurrent_agents.Run.Store.{open_questions}
use hermes_concurrent_agents.Run.Store.Lifecycle.{Call, moves, run_calls}
use hermes_concurrent_agents.RunResult.{Manifest, RunResult, explains, build_result}
use hermes_concurrent_agents.RunResult.Outcomes.{result_tells, success_forever}
use hermes_concurrent_agents.Scenarios.RunStores.{finished, done_run, finished_run}
use hermes_concurrent_agents.Migrations.{
  Database, Migration, migrations, run_tables, start_ticks, migrated, restored, due, run_steps,
  apply_migrations,
}
use hermes_concurrent_agents.Common.Tables.{order_asc}
use hermes_concurrent_agents.Migrations.Steps.{AllOrNothing, all_or_nothing, forward_only}

abbrev digest_of : Manifest → String
digest_of m = m.run_id

abbrev later_calls : List Call
later_calls = moves "run-a" failed "" 20 20 ∷ []

result_tells_example :
    (res : RunResult) × ((build_result digest_of finished "run-a" [] end ≡ some res)
      × (((res.body.outcome ≡ "success") ↔ (done_run.state ≡ completed))
          × ((res.body.unresolved_blockers ≡ []) ↔ (
              (open_questions finished "run-a" ≡ [])
              × ((explains done_run.state ≡ false) ⊎ (is_empty done_run.reason ≡ true))))))
result_tells_example = result_tells digest_of finished "run-a" [] end done_run finished_run

success_forever_example :
    (later : RunResult) × ((build_result digest_of (run_calls finished later_calls) "run-a" [] end
        ≡ some later)
      × (later.body.outcome ≡ "success"))
success_forever_example =
    success_forever digest_of finished later_calls "run-a" [] end
      (result_tells digest_of finished "run-a" [] end done_run finished_run).0
      (result_tells digest_of finished "run-a" [] end done_run finished_run).1.0
      ((result_tells digest_of finished "run-a" [] end done_run finished_run).1.1.0.1 refl)

abbrev base : Database
base = record {
  version = 1;
  tables = "meta" ∷ "runs" ∷ [];
  run_columns = "board" ∷ [];
  intact = true;
}

-- The steps of the program bring the base schema to the current version.
base_migrated :
    (apply_migrations base 3 migrations true).0
    ≡ migrated ("run_projection_tables" ∷ "worker_process_start_identity" ∷ [])
unfolding apply_migrations order_asc run_tables start_ticks
base_migrated = refl

abbrev broken : List Migration
broken =
    record { version = 3; name = "fails"; up = λ db. none }
    ∷ record { version = 2; name = "run_projection_tables"; up = run_tables }
    ∷ []

broken_restored : apply_migrations base 3 broken true ≡ (restored, base)
unfolding apply_migrations order_asc run_tables
broken_restored = refl

all_or_nothing_example : AllOrNothing base 3 (apply_migrations base 3 broken true)
all_or_nothing_example = all_or_nothing base 3 broken

forward_only_example :
    ((k : ℕ)
      → (run_steps (take k (due base.version 3 broken)) [] base).1.version
        ≤ (run_steps (take (suc k) (due base.version 3 broken)) [] base).1.version)
    × ((base.version ≤ (apply_migrations base 3 broken false).1.version)
        × ((apply_migrations base 3 broken false).1.version ≤ max 3 base.version))
forward_only_example = forward_only base 3 broken false
