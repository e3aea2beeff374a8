-- ===== src/Evidence.antt =====
-- src/hca/evidence.py: the facts observed about the tasks of a run, and the state derived from them.
-- The texts of the reasons are kept as the data that they are formatted from.
pub mod Stages
pub mod Facts
pub mod Completion
use hermes_concurrent_agents.Common.{
  ℕ, String, refl, Bool, true, false, not, ◌&&◌, ◌||◌, Option, none, some, List, [], ◌∷◌, map,
  arith, if◌then◌else◌, ◌==◌, nat_eq, string_eq, is_empty, or_else, is_none, length, take, is_nil,
  last?, filter, find?, contains,
}
use hermes_concurrent_agents.Run.State.{
  RunState, running, needs_input, rework, completed, blocked, failed, run_state_eq,
}
use hermes_concurrent_agents.Run.Spec.{RunSpec}
use hermes_concurrent_agents.Common.Words.{codes, lower, codes_eq, same_codes}
use text.Mathlib.Text.{starts_with}

-- src/hca/result.py: `Artifact`.
pub record Artifact : Type 0 where
  pub name : String
  pub kind : String
  pub ref : String
  pub task_id : String

pub record TaskEvidence : Type 0 where
  pub task_id : String
  pub assignee : String
  pub terminal_status : String
  pub run_id : Option ℕ
  pub pid : Option ℕ
  pub result : String
  pub artifacts : List Artifact
  pub is_review : Bool
  pub reviewed_by : String
  pub review_verdict : String
  pub block_kind : String
  pub block_reason : String
  pub kind : String
  pub is_root : Bool

pub record ExecutionEvidence : Type 0 where
  pub root_task_id : String
  pub tasks : List TaskEvidence
  pub live_worker_task_ids : List String
  pub reason : String

abbrev pub terminal_task_statuses : List String
terminal_task_statuses = "done" ∷ "blocked" ∷ "failed" ∷ "crashed" ∷ "timed_out" ∷ "archived" ∷ []

abbrev pub fatal_task_statuses : List String
fatal_task_statuses = "failed" ∷ "crashed" ∷ "timed_out" ∷ []

unfoldable pub root : ExecutionEvidence → Option TaskEvidence
root ev = find? (λ t. t.is_root || t.task_id == ev.root_task_id) ev.tasks

pub data Reason : Type 0 where
  given : String → Reason
  no_tasks no_done_work review_missing ambiguous_verdict self_review proven : Reason
  still_exiting : (count : ℕ) (shown : List String) → Reason
  not_succeeded : (count : ℕ) (task_id status : String) → Reason
  input_rejected : (detail : String) → Reason
  input_requested input_needed : (task_id : String) → Reason
  needs_attention : (count : ℕ) (task_id : String) → Reason
  in_flight : (count : ℕ) (shown : List String) → Reason
  unproven_task empty_result unexecuted_review no_verdict rejected_work :
      (task_id : String) → Reason

-- `text or other`.
abbrev given_or : String → Reason → Reason
given_or s r = if is_empty s then r else given s

unfoldable pub review_required : RunSpec → Bool
unfolding lower same_codes
review_required spec =
    let policy = lower (codes (or_else spec.review_policy "auto")) in
    if policy == codes "always"
    then true
    else if policy == codes "never"
    then false
    else not (is_empty spec.project_root) || not (is_nil spec.acceptance_criteria)

abbrev pub is_terminal : TaskEvidence → Bool
is_terminal t = contains t.terminal_status terminal_task_statuses

abbrev pub is_fatal : TaskEvidence → Bool
is_fatal t = contains t.terminal_status fatal_task_statuses

abbrev pub is_done : TaskEvidence → Bool
is_done t = t.terminal_status == "done"

abbrev pub wants_input : TaskEvidence → Bool
wants_input t = t.terminal_status == "blocked" && t.block_kind == "needs_input"

-- A blocked task that is not the review gate which HCA itself holds.
abbrev pub is_stuck : TaskEvidence → Bool
is_stuck t =
    t.terminal_status == "blocked" && not (t.kind == "gate" && t.block_kind == "hca_review_gate")

abbrev pub is_unproven : TaskEvidence → Bool
is_unproven t = is_none t.run_id || is_none t.pid

abbrev pub is_implementer : TaskEvidence → Bool
is_implementer t =
    not (is_empty t.assignee)
    && (t.kind == "work" || t.kind == "rework" || is_empty t.kind && not t.is_root)

abbrev pub work_tasks : List TaskEvidence → List TaskEvidence
work_tasks ts = filter (λ t. not t.is_review) ts

abbrev pub done_work : List TaskEvidence → List TaskEvidence
done_work ts = filter is_done (work_tasks ts)

abbrev pub reviews_done : List TaskEvidence → List TaskEvidence
reviews_done ts = filter (λ t. t.is_review && is_done t) ts

abbrev pub implementers : List TaskEvidence → List String
implementers ts = map (λ t. t.assignee) (filter is_implementer (work_tasks ts))

abbrev task_ids : List TaskEvidence → List String
task_ids ts = map (λ t. t.task_id) ts

-- The latest review of a run that requires one.
unfoldable pub judge_review : List TaskEvidence → TaskEvidence → RunState × Reason
judge_review tasks latest =
    if is_unproven latest
    then (blocked, unexecuted_review latest.task_id)
    else if is_empty latest.result && is_nil latest.artifacts
    then (blocked, no_verdict latest.task_id)
    else if latest.review_verdict == "reject"
    then (blocked, rejected_work latest.task_id)
    else if not (latest.review_verdict == "accept")
    then (blocked, ambiguous_verdict)
    else if contains latest.reviewed_by (implementers tasks) || is_empty latest.reviewed_by
    then (blocked, self_review)
    else (completed, proven)

unfoldable pub derive_review : RunSpec → ExecutionEvidence → RunState × Reason
derive_review spec ev =
    if review_required spec
    then (elim (last? (reviews_done ev.tasks)) [
      | none ↦ (blocked, review_missing)
      | some latest ↦ judge_review ev.tasks latest
    ])
    else (completed, proven)

unfoldable pub derive_work : RunSpec → ExecutionEvidence → RunState × Reason
derive_work spec ev = elim (done_work ev.tasks) [
  | [] ↦ (blocked, no_done_work)
  | d ∷ ds ↦ elim (filter is_unproven (d ∷ ds)) [
    | t ∷ ts ↦ (blocked, unproven_task t.task_id)
    | [] ↦ elim (filter (λ t. is_empty t.result) (d ∷ ds)) [
      | t ∷ ts ↦ (blocked, empty_result t.task_id)
      | [] ↦ derive_review spec ev
    ]
  ]
]

unfoldable pub derive_flight : RunSpec → ExecutionEvidence → RunState × Reason
derive_flight spec ev = elim (filter (λ t. not (is_terminal t)) ev.tasks) [
  | [] ↦ derive_work spec ev
  | t ∷ ts ↦
      if not (is_empty ev.reason)
      then (blocked, given ev.reason)
      else (running, in_flight (length (t ∷ ts)) (take 5 (task_ids (t ∷ ts))))
]

unfoldable pub derive_blocked : RunSpec → ExecutionEvidence → RunState × Reason
derive_blocked spec ev = elim (filter is_stuck ev.tasks) [
  | [] ↦ derive_flight spec ev
  | t ∷ ts ↦ (blocked, given_or ev.reason (needs_attention (length (t ∷ ts)) t.task_id))
]

unfoldable pub derive_input : RunSpec → ExecutionEvidence → RunState × Reason
derive_input spec ev = elim (filter wants_input ev.tasks) [
  | [] ↦ derive_blocked spec ev
  | t ∷ ts ↦
      if spec.input_policy == "fail_closed"
      then (
        failed,
        if is_empty t.block_reason
            then input_requested t.task_id
            else input_rejected t.block_reason,
      )
      else (needs_input, given_or t.block_reason (input_needed t.task_id))
]

unfoldable pub derive_fatal : RunSpec → ExecutionEvidence → RunState × Reason
derive_fatal spec ev = elim (filter is_fatal ev.tasks) [
  | [] ↦ derive_input spec ev
  | t ∷ ts ↦ (failed, not_succeeded (length (t ∷ ts)) t.task_id t.terminal_status)
]

unfoldable pub derive_final_state : RunSpec → ExecutionEvidence → RunState × Reason
derive_final_state spec ev =
    if is_nil ev.tasks
    then (blocked, given_or ev.reason no_tasks)
    else if starts_with ev.reason "execution observation window exhausted"
        && not (is_nil (filter (λ t. not (is_terminal t)) ev.tasks))
    then (blocked, given ev.reason)
    else if not (is_nil ev.live_worker_task_ids)
    then (running, still_exiting (length ev.live_worker_task_ids) (take 5 ev.live_worker_task_ids))
    else derive_fatal spec ev
