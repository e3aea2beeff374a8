-- ===== src/Service/Results.antt =====
-- src/hca/service.py: `ServiceResult`, the exit codes and `_status_result`. A message is kept as the
-- data that the program formats into it.
use hermes_concurrent_agents.Common.{
  ℕ, ◌+◌, ◌-◌, max, String, Bool, true, false, Option, none, some, List, if◌then◌else◌, ◌==◌,
  nat_eq, string_eq, or_else, length,
}
use hermes_concurrent_agents.Run.State.{
  RunState, needs_input, completed, blocked, failed, cancelled, value, run_state_eq,
}
use hermes_concurrent_agents.Run.Spec.{RunSpec}
use hermes_concurrent_agents.Common.Json.{Fields}
use hermes_concurrent_agents.Run.Store.{Store, RunProjection, get_spec, open_questions}
use hermes_concurrent_agents.RunResult.{RunResult, Summary}
use hermes_concurrent_agents.Service.Effects.{Exit, returned, raised, Fault, Orchestrator}

abbrev pub exit_ok : ℕ
exit_ok = 0

abbrev pub exit_invalid : ℕ
exit_invalid = 2

abbrev pub exit_preflight : ℕ
exit_preflight = 3

abbrev pub exit_blocked : ℕ
exit_blocked = 4

abbrev pub exit_runtime : ℕ
exit_runtime = 5

pub data Report : Type 0 where
  remote_unsupported empty_goal few_criteria concurrency_too_low answer_empty : Report
  listed : (runs : ℕ) → Report
  run_is : (run_id : String) → (state : RunState) → Report
  replay_of unknown_run_id unknown_resume : (run_id : String) → Report
  invalid_input_policy : (policy : String) → Report
  unknown_budgets : (keys : List String) → Report
  invalid_budgets : Report
  unknown_team : (team : String) → Report
  too_many_workers : (concurrency limit : ℕ) → Report
  question_unknown question_answered_before : (question_id : String) → Report
  question_elsewhere : (question_id : String) → (run_id : String) → Report
  gate_gone recorded_answer : (question_id : String) → Report
  gate_fault iteration_failed stop_failed recover_failed : Fault → Report
  recover_needs recover_unsupported : Report
  recovered : (task_id : String) → Report
  disappeared already_terminal : Report
  summarised : Summary → Report
  cancel_unfinished run_cancelled : Report

pub data Remedy : Type 0 where
  no_remedy : Remedy
  advice : String → Remedy
  answer_with : (run_id : String) → (open_count : ℕ) → Remedy

pub record Timing : Type 0 where
  pub created_at : ℕ
  pub elapsed_seconds : ℕ
  pub deadline_at : ℕ
  pub remaining_seconds : ℕ
  pub wall_budget_seconds : ℕ

-- The diagnostics of the backend, or the fault that it raised.
pub data Runtime : Type 0 where
  absent_runtime : Runtime
  runtime : Fields → Runtime
  diagnostic_error : Fault → Runtime

pub data Data : Type 0 where
  nothing : Data
  run_list : List RunProjection → Data
  run_data : RunProjection → Option Timing → Runtime → Data
  manifest : RunResult → Data
  recovery : (outcome : Fields) → (controller_paused : Bool) → (reconciled_state : String) → Data

pub record ServiceResult : Type 0 where
  pub success : Bool  -- the field `ok`
  pub code : ℕ
  pub action : String
  pub run_id : String
  pub state : String
  pub message : Report
  pub remediation : Remedy
  pub payload : Data  -- the field `data`

abbrev pub refuse : ℕ → String → String → String → Report → Remedy → ServiceResult
refuse code action run_id state message remedy = record {
  success = false;
  code = code;
  action = action;
  run_id = run_id;
  state = state;
  message = message;
  remediation = remedy;
  payload = nothing;
}

-- The exit code of a run that is observed.
unfoldable pub status_code : String → RunState → ℕ
status_code action needs_input = exit_blocked
status_code action blocked = exit_blocked
status_code action failed = exit_runtime
status_code action cancelled = if action == "stop" then exit_ok else exit_blocked
status_code action _ = exit_ok

unfoldable pub status_ok : String → RunState → Bool
status_ok action failed = false
status_ok action cancelled = action == "stop"
status_ok action _ = true

unfoldable pub status_remedy : Store → RunProjection → RunState → Remedy
status_remedy s p needs_input = answer_with p.run_id (length (open_questions s p.run_id))
status_remedy s p blocked = advice (or_else p.reason "run blocked — inspect with `hca status`")
status_remedy s p failed = advice (or_else p.reason "run failed — see events")
status_remedy s p cancelled = advice "cancelled; collect partial work with `hca collect`"
status_remedy s p _ = no_remedy

abbrev pub is_over : RunState → Bool
is_over completed = true
is_over failed = true
is_over cancelled = true
is_over _ = false

-- The times of a run at the time `now`.
unfoldable pub timing_of : RunSpec → RunProjection → ℕ → Timing
timing_of spec p now =
    let deadline = spec.created_at + max 1 spec.budgets.wall_seconds in
    record {
      created_at = spec.created_at;
      elapsed_seconds = (if is_over p.state then p.updated_at else now) - spec.created_at;
      deadline_at = deadline;
      remaining_seconds = deadline - now;
      wall_budget_seconds = spec.budgets.wall_seconds;
    }

abbrev exit_runtime_of : Exit Fields → Runtime
exit_runtime_of (returned fs) = runtime fs
exit_runtime_of (raised e) = diagnostic_error e

unfoldable pub runtime_of : Option (RunSpec → Store → Exit Fields) → RunSpec → Store → Runtime
runtime_of none spec s = absent_runtime
runtime_of (some f) spec s = exit_runtime_of (f spec s)

unfoldable pub run_data_of : Orchestrator → Store → RunProjection → ℕ → Option RunSpec → Data
unfolding timing_of runtime_of
run_data_of orch s p now none = run_data p none absent_runtime
run_data_of orch s p now (some spec) =
    run_data p (some (timing_of spec p now)) (runtime_of orch.runtime_status spec s)

unfoldable pub status_result :
    Orchestrator → String → Report → RunProjection → Store → ℕ → ServiceResult
unfolding status_code status_ok status_remedy run_data_of
status_result orch action message p s now = record {
  success = status_ok action p.state;
  code = status_code action p.state;
  action = action;
  run_id = p.run_id;
  state = value p.state;
  message = message;
  remediation = status_remedy s p p.state;
  payload = run_data_of orch s p now (get_spec s p.run_id);
}
