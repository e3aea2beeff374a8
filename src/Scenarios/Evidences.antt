-- ===== src/Scenarios/Evidences.antt =====
-- Observed evidence for src/hca/evidence.py.
use hermes_concurrent_agents.Common.{
  String, ◌≡◌, refl, ◌↔◌, true, false, some, List, [], ◌∷◌, nat_eq, string_eq,
}
use hermes_concurrent_agents.Run.State.{completed, blocked, run_state_eq}
use hermes_concurrent_agents.Run.Spec.{RunSpec}
use hermes_concurrent_agents.Evidence.{
  TaskEvidence, ExecutionEvidence, review_required, judge_review, derive_review, derive_work,
  derive_flight, derive_blocked, derive_input, derive_fatal, derive_final_state,
}
use hermes_concurrent_agents.Run.Spec.{default_budgets}
use hermes_concurrent_agents.Evidence.Completion.{Supports, completed_iff}

abbrev pub reviewed_spec : RunSpec
reviewed_spec = record {
  run_id = "run-a";
  goal = "ship it";
  project_root = "/srv/repo";
  project_ref = "";
  constraints = [];
  acceptance_criteria = [];
  independent_criteria = false;
  source_profiles = [];
  team = "default";
  concurrency = 1;
  review_policy = "auto";
  input_policy = "allow";
  budgets = default_budgets;
  idempotency_key = "";
  board = "hca";
  created_at = 7;
  schema_version = 4;
}

abbrev pub built : TaskEvidence
built = record {
  task_id = "t1";
  assignee = "hca-coder-01";
  terminal_status = "done";
  run_id = some 4;
  pid = some 811;
  result = "done";
  artifacts = [];
  is_review = false;
  reviewed_by = "";
  review_verdict = "";
  block_kind = "";
  block_reason = "";
  kind = "work";
  is_root = false;
}

abbrev pub reviewed_by_name : String → TaskEvidence
reviewed_by_name name = record built {
  task_id = "t2";
  assignee = name;
  is_review = true;
  reviewed_by = name;
  review_verdict = "accept";
  kind = "review";
}

abbrev pub seen_tasks : List TaskEvidence → ExecutionEvidence
seen_tasks ts = record { root_task_id = "t0"; tasks = ts; live_worker_task_ids = []; reason = "" }

pub accepted_run :
    (derive_final_state reviewed_spec (seen_tasks (built ∷ reviewed_by_name "hca-qa-01" ∷ []))).0
    ≡ completed
unfolding derive_final_state derive_fatal derive_input derive_blocked derive_flight derive_work
    derive_review judge_review review_required
accepted_run = refl

self_reviewed_run :
    (derive_final_state reviewed_spec (seen_tasks (built ∷ reviewed_by_name "hca-coder-01" ∷ []))).0
    ≡ blocked
unfolding derive_final_state derive_fatal derive_input derive_blocked derive_flight derive_work
    derive_review judge_review review_required
self_reviewed_run = refl

completed_iff_example :
    ((derive_final_state reviewed_spec (seen_tasks (built ∷ reviewed_by_name "hca-qa-01" ∷ []))).0
      ≡ completed)
    ↔ Supports reviewed_spec (seen_tasks (built ∷ reviewed_by_name "hca-qa-01" ∷ []))
completed_iff_example =
    completed_iff reviewed_spec (seen_tasks (built ∷ reviewed_by_name "hca-qa-01" ∷ []))
