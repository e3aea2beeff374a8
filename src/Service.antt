-- ===== src/Service.antt =====
-- src/hca/service.py: `_safe_set` and `_reconcile_from_evidence` of `FleetService`, with the
-- dictionaries of src/hca/evidence.py that they log. The text of a reason is rendered by an argument,
-- and the reads of the clock are a sequence.
pub mod Effects
pub mod Results
pub mod Halt
pub mod Hoare
pub mod Ends
pub mod Expiry
pub mod Follow
pub mod Submit
pub mod Drive
pub mod Answers
pub mod Recovery
pub mod Collect
pub mod Writes
pub mod Choices
pub mod Lawful
pub mod Served
pub mod Launches
pub mod Submitted
pub mod Answered
pub mod Recovered
pub mod Requests
pub mod Once
pub mod Replays
pub mod Completes
pub mod Collected
pub mod Gates
pub mod Admitted
pub mod Budgets
pub mod Texts
pub mod Conditions
pub mod Created
pub mod Moves
pub mod Settle
pub mod Reconcile
use hermes_concurrent_agents.Common.{
  ℕ, String, refl, Bool, Option, none, some, List, [], ◌∷◌, arith, if◌then◌else◌, ◌==◌, nat_eq,
  string_eq, any,
}
use hermes_concurrent_agents.Run.State.{
  RunState, planning, running, needs_input, review, completed, blocked, failed, value, run_state_eq,
  can_transition,
}
use hermes_concurrent_agents.Run.Spec.{RunSpec}
use hermes_concurrent_agents.Common.Json.{
  Value, Items, Fields, end, field, text, num, bool, null, arr, obj, nil, cons, texts_value,
}
use hermes_concurrent_agents.Evidence.{
  Artifact, TaskEvidence, ExecutionEvidence, Reason, derive_final_state,
}
use hermes_concurrent_agents.Run.Store.{Store, get_run, set_state, append_event, plain}
use hermes_concurrent_agents.Run.Store.Lifecycle.{after}

abbrev option_num : Option ℕ → Value
option_num none = null
option_num (some n) = num n

unfoldable pub artifact_to_dict : Artifact → Fields
artifact_to_dict a =
    field "name" (text a.name)
      (field "kind" (text a.kind) (field "ref" (text a.ref) (field "task_id" (text a.task_id) end)))

artifacts_value : List Artifact → Items
unfolding artifact_to_dict
artifacts_value [] = nil
artifacts_value (a ∷ xs) = cons (obj (artifact_to_dict a)) (artifacts_value xs)

unfoldable pub task_to_dict : TaskEvidence → Fields
unfolding artifacts_value
task_to_dict t = field "task_id" (text t.task_id) (
    field "assignee" (text t.assignee) (
      field "terminal_status" (text t.terminal_status) (
        field "run_id" (option_num t.run_id) (
          field "pid" (option_num t.pid) (
            field "result" (text t.result) (
              field "artifacts" (arr (artifacts_value t.artifacts)) (
                field "is_review" (bool t.is_review) (
                  field "reviewed_by" (text t.reviewed_by) (
                    field "review_verdict" (text t.review_verdict) (
                      field "block_kind" (text t.block_kind) (
                        field "block_reason" (text t.block_reason) (
                          field "kind" (text t.kind)
                            (field "is_root" (bool t.is_root) end)))))))))))))

tasks_value : List TaskEvidence → Items
unfolding task_to_dict
tasks_value [] = nil
tasks_value (t ∷ ts) = cons (obj (task_to_dict t)) (tasks_value ts)

unfoldable pub evidence_to_dict : ExecutionEvidence → Fields
unfolding tasks_value
evidence_to_dict ev = field "root_task_id" (text ev.root_task_id) (
    field "tasks" (arr (tasks_value ev.tasks)) (
      field "live_worker_task_ids" (arr (texts_value ev.live_worker_task_ids))
        (field "reason" (text ev.reason) end)))

-- `_safe_set`: a move only if the state machine permits it.
unfoldable pub safe_set : Store → String → RunState → String → ℕ → ℕ → Store
safe_set s run_id target reason now ts = elim (get_run s run_id) [
  | none ↦ s
  | some p ↦
      if p.state == target
      then s
      else if can_transition p.state target
      then after s (set_state s run_id target reason now ts)
      else s
]

-- The move that records that the execution was attempted.
unfoldable pub leave_planning : Store → String → ℕ → ℕ → Store
leave_planning s run_id now ts = elim (get_run s run_id) [
  | none ↦ s
  | some p ↦
      if p.state == planning
      then after s (set_state s run_id running "executing on kanban" now ts)
      else s
]

abbrev pub has_review : ExecutionEvidence → Bool
has_review ev = any (λ t. t.is_review) ev.tasks

-- The moves that a derived state leads to.
unfoldable pub reflect : Store → String → Bool → RunState → String → (ℕ → ℕ) → Store
unfolding safe_set
reflect s run_id reviewed completed reason clock =
    let verified =
      if reviewed then safe_set s run_id review "verifying" (clock 3) (clock 4) else s in
    safe_set verified run_id completed reason (clock 5) (clock 6)
reflect s run_id reviewed failed reason clock = safe_set s run_id failed reason (clock 5) (clock 6)
reflect s run_id reviewed running reason clock =
    safe_set s run_id running reason (clock 5) (clock 6)
reflect s run_id reviewed needs_input reason clock =
    safe_set s run_id needs_input reason (clock 5) (clock 6)
reflect s run_id reviewed _ reason clock = safe_set s run_id blocked reason (clock 5) (clock 6)

module _ (render : Reason → String) where
  unfoldable pub log_evidence : Store → RunSpec → ExecutionEvidence → ℕ → Store
  unfolding evidence_to_dict
  log_evidence s spec ev ts =
      append_event s spec.run_id "run.evidence" (plain (render (derive_final_state spec ev).1))
        (field "final" (text (value (derive_final_state spec ev).0))
          (field "evidence" (obj (evidence_to_dict ev)) end))
        ts

  unfoldable pub reconcile_from_evidence : Store → RunSpec → ExecutionEvidence → (ℕ → ℕ) → Store
  unfolding log_evidence leave_planning reflect
  reconcile_from_evidence s spec ev clock =
      let logged = log_evidence s spec ev (clock 0) in
      let attempted = leave_planning logged spec.run_id (clock 1) (clock 2) in
      reflect attempted spec.run_id (has_review ev) (derive_final_state spec ev).0
        (render (derive_final_state spec ev).1) clock
