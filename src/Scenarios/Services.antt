-- ===== src/Scenarios/Services.antt =====
-- Requests to the service of src/hca/service.py at concrete inputs.
use hermes_concurrent_agents.Common.{
  ℕ, ◌+◌, ◌≤◌, ◌<◌, String, ◌≡◌, refl, ◌≢◌, ◌↔◌, true, false, Option, none, some, [], ◌∷◌, arith,
  eq_iff, nat_eq, string_eq, length,
}
use hermes_concurrent_agents.Common.Json.{end}
use hermes_concurrent_agents.Run.State.{RunState, queued, planning, running, failed, run_state_eq}
use hermes_concurrent_agents.Run.Machine.{is_final}
use hermes_concurrent_agents.Run.Spec.{RunSpec, default_budgets, budgets_from_dict}
use hermes_concurrent_agents.Evidence.{ExecutionEvidence, Reason}
use hermes_concurrent_agents.RunResult.{Manifest}
use hermes_concurrent_agents.Common.Tables.{row, order_desc}
use hermes_concurrent_agents.Run.Store.{
  Store, RunProjection, empty_store, create_run, get_run, new_row, row_to_proj, append_event,
  find_by_idempotency_key,
}
use hermes_concurrent_agents.Run.Store.Lifecycle.{logs, run_calls, apply}
use hermes_concurrent_agents.Team.{TeamSpec, select_team, load_team}
use hermes_concurrent_agents.Service.{log_evidence}
use hermes_concurrent_agents.Service.Effects.{
  Env, returned, raised, Fault, runtime_error, World, Orchestrator, Controllers, from_now,
}
use hermes_concurrent_agents.Service.Halt.{stop, expire}
use hermes_concurrent_agents.Service.Ends.{StopEnds, stop_tells}
use hermes_concurrent_agents.Service.Expiry.{ExpireEnds, expire_tells}
use hermes_concurrent_agents.Service.Submit.{
  Site, ServiceConfig, RunRequest, admitted, admission, checked, with_budgets, within_limit,
  parsed_budgets, concurrency_limit, stripped, spec_of,
}
use hermes_concurrent_agents.Service.Drive.{run}
use hermes_concurrent_agents.Service.Requests.{
  submits, looks, stops, served, served_trail, served_final,
}
use hermes_concurrent_agents.Service.Replays.{Names, submitted_once}
use hermes_concurrent_agents.Service.Completes.{Honest, SaysSo, submitted_completes}
use hermes_concurrent_agents.Service.Collect.{collected_artifacts}
use hermes_concurrent_agents.Service.Collected.{events_of, shown, collected_after_log}
use hermes_concurrent_agents.Service.Conditions.{New, Sound}
use hermes_concurrent_agents.Service.Created.{created_iff}
use hermes_concurrent_agents.Run.Store.Replay.{Legal, replay, state_of}
use hermes_concurrent_agents.Scenarios.Evidences.{
  reviewed_spec, built, reviewed_by_name, seen_tasks,
}
use hermes_concurrent_agents.Scenarios.Reconciled.{in_state, in_state_found}

abbrev times : ℕ → ℕ
times n = 30 + n

abbrev described : Fault → String
described e = "fault"

abbrev reasons : Reason → String
reasons r = "reason"

abbrev observed : ExecutionEvidence
observed = seen_tasks (built ∷ reviewed_by_name "hca-qa-01" ∷ [])

-- A backend that plans and executes, and whose cancellation fails.
abbrev backend : Orchestrator
backend = record {
  plan = λ spec s. (returned planning, logs spec.run_id "run.plan" "staged" end 40 ∷ []);
  execute = λ spec s. (returned observed, logs spec.run_id "run.preflight" "done" end 41 ∷ []);
  start = none;
  tick = none;
  project = none;
  sync_questions = none;
  cancel = some (λ spec s. (
    raised (runtime_error "worker alive"),
    logs spec.run_id "run.cancel" "one left" end 42 ∷ [],
  ));
  expire = none;
  respond = none;
  recover = none;
  runtime_status = none;
}

abbrev no_controllers : Controllers
no_controllers = record {
  enabled = false;
  alive = λ r. returned false;
  launch = λ r. returned 700;
  stop = λ r. returned true;
}

abbrev world : RunState → World
world st = record { store = in_state st; reads = 3 }

abbrev pair : TeamSpec
pair = record {
  name = "small";
  description = "";
  review_policy = "auto";
  max_workers = 2;
  roles = [];
  schema_version = 1;
}

abbrev bundled : String → Option TeamSpec
bundled name = some pair

abbrev local : ServiceConfig
local = record { role = "single"; board = "hca"; max_wave_size = 3 }

abbrev line : TeamSpec → String
line t = t.name

abbrev env : Env
env = record {
  clock = times;
  describe = described;
  type_name = described;
  render = reasons;
  orch = backend;
  ctl = no_controllers;
}

abbrev site : Site
site = record { config = local; templates = bundled; team_line = line }

abbrev digests : Manifest → String
digests m = "d1"

abbrev request : RunRequest
request = record {
  goal = " ship it ";
  project_root = "";
  constraints = [];
  acceptance_criteria = [];
  independent_criteria = false;
  team = "small";
  concurrency = 2;
  review_policy = "auto";
  input_policy = "allow";
  source_profiles = [];
  budgets = [];
  idempotency_key = "nightly";
  resume = "";
  detach = false;
}

stop_tells_example : StopEnds reviewed_spec.run_id (stop env reviewed_spec.run_id (world running))
stop_tells_example =
    stop_tells env reviewed_spec.run_id running (world running) (in_state_found running) refl

expire_tells_example :
    ExpireEnds reviewed_spec.run_id (expire env reviewed_spec.run_id (world planning))
expire_tells_example =
    expire_tells env reviewed_spec.run_id planning (world planning) (in_state_found planning) refl

served_trail_example :
    let v =
      served env site digests
        (submits request "run-b" ∷ stops "run-b" ∷ [])
        (record { store = empty_store; reads = 0 }) in
    Legal "run-b" queued v.store.events
    × (replay "run-b" queued v.store.events ≡ state_of v.store "run-b")
served_trail_example =
    served_trail env site digests (submits request "run-b" ∷ stops "run-b" ∷ []) 0 "run-b"

admitted_request :
    (s : Store)
    → find_by_idempotency_key s "nightly" ≡ none
    → admission site request s ≡ admitted pair default_budgets
unfolding admission checked with_budgets within_limit parsed_budgets concurrency_limit stripped
    select_team load_team budgets_from_dict
admitted_request s h = rw h refl

request_new : find_by_idempotency_key (in_state failed) "nightly" ≡ none
unfolding find_by_idempotency_key create_run new_row append_event row order_desc
request_new = refl

run_b_new : get_run (in_state failed) "run-b" ≡ none
unfolding create_run row new_row append_event get_run row_to_proj
run_b_new = refl

key_given : request.idempotency_key ≢ ""
key_given e = ground (arith, (eq_iff "nightly" "").1 e)

final_found :
    (p : RunProjection) × (get_run (in_state failed) reviewed_spec.run_id ≡ some p)
    × (is_final p.state ≡ true)
unfolding create_run row new_row append_event get_run row_to_proj
final_found = (row_to_proj (new_row reviewed_spec failed 7), refl, refl)

served_final_example :
    (q : RunProjection) × (get_run
        (served env site digests
          (submits request "run-b" ∷ looks reviewed_spec.run_id ∷ [])
          (world failed)).store
        reviewed_spec.run_id
      ≡ some q)
    × (q.state ≡ final_found.0.state)
served_final_example =
    served_final env site digests (submits request "run-b" ∷ looks reviewed_spec.run_id ∷ [])
      (world failed) reviewed_spec.run_id final_found.0 final_found.1 final_found.2

submitted_once_example :
    let v =
      served env site digests
        (stops "run-b" ∷ [])
        (run env site request "run-b" (world failed)).1 in
    let again = run env site request "run-c" v in
    (again.1.store ≡ v.store)
    × ((p : RunProjection) × (find_by_idempotency_key v.store "nightly" ≡ some p)
        × (p.idempotency_key ≡ "nightly")
        × Names p.run_id again.0)
submitted_once_example =
    submitted_once env site digests request "run-b" "run-c" (world failed) pair default_budgets
      (stops "run-b" ∷ []) (admitted_request (in_state failed) request_new) key_given run_b_new

abbrev run_b : RunSpec
run_b = spec_of local request default_budgets "run-b" (from_now times (world failed) 0)

plan-Honest : Honest run_b backend.plan planning
unfolding run_calls apply append_event get_run spec_of
plan-Honest s = (refl, refl)

execute-Honest : Honest run_b backend.execute observed
unfolding run_calls apply append_event get_run spec_of
execute-Honest s = (refl, refl)

submitted_completes_example : SaysSo run_b observed (run env site request "run-b" (world failed))
submitted_completes_example =
    submitted_completes env site request "run-b" (world failed) pair default_budgets observed
      (admitted_request (in_state failed) request_new) run_b_new refl plan-Honest execute-Honest

collected_after_log_example :
    (length (events_of (in_state failed) reviewed_spec.run_id) < 500
      → collected_artifacts
          (log_evidence reasons (in_state failed) reviewed_spec observed 9)
          reviewed_spec.run_id
        ≡ shown observed.tasks)
    × (500 ≤ length (events_of (in_state failed) reviewed_spec.run_id)
        → collected_artifacts
            (log_evidence reasons (in_state failed) reviewed_spec observed 9)
            reviewed_spec.run_id
          ≡ collected_artifacts (in_state failed) reviewed_spec.run_id)
collected_after_log_example = collected_after_log reasons (in_state failed) reviewed_spec observed 9

created_iff_example :
    ((p : RunProjection) × (get_run (run env site request "run-b" (world failed)).1.store "run-b"
        ≡ some p))
    ↔ (New site request (in_state failed) × Sound site request)
created_iff_example = created_iff env site request "run-b" (world failed) run_b_new

-- A service on another role refuses, and a run that is admitted takes its first state.
remote_refused :
    (run env
      (record site { config = record local { role = "node" } })
      request
      "run-b"
      (world failed)).1.store
    ≡ in_state failed
unfolding run admission
remote_refused = refl
