-- ===== src/Scenarios/RunStates.antt =====
-- Lives of a run for src/hca/run.py.
use hermes_concurrent_agents.Common.{
  ◌≡◌, refl, true, false, List, [], ◌∷◌, nat_eq, string_eq, contains,
}
use hermes_concurrent_agents.Run.State.{
  RunState, queued, planning, running, stopping, cancelled, can_transition, run_state_eq,
}
use hermes_concurrent_agents.Run.Machine.{cancelled_needs_stopping}
use hermes_concurrent_agents.Run.Spec.{RunSpec, default_budgets}

abbrev stopped_life : List RunState
stopped_life = planning ∷ running ∷ stopping ∷ cancelled ∷ []

cancelled_needs_stopping_example : contains stopping (queued ∷ stopped_life) ≡ true
unfolding can_transition
cancelled_needs_stopping_example =
    cancelled_needs_stopping queued stopped_life (refl, (refl, (refl, (refl, tt)))) (λ e. cc) refl

abbrev port : RunSpec
port = record {
  run_id = "run-1";
  goal = "port the parser";
  project_root = "";
  project_ref = "";
  constraints = [];
  acceptance_criteria = "tests pass" ∷ "docs updated" ∷ [];
  independent_criteria = false;
  source_profiles = "default" ∷ [];
  team = "default";
  concurrency = 1;
  review_policy = "auto";
  input_policy = "allow";
  budgets = default_budgets;
  idempotency_key = "";
  board = "hca";
  created_at = 100;
  schema_version = 4;
}
