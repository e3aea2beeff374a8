-- ===== src/Evidence/Stages.antt =====
-- src/hca/evidence.py: what lets `derive_final_state` pass from one of its checks to the next.
use hermes_concurrent_agents.Common.{
  ◌≡◌, ◌↔◌, inl, inr, true, false, not, ◌&&◌, some, List, [], arith, eq_iff, nat_eq, string_eq,
  is_empty, Bool-cases, is_nil, last?, filter, contains,
}
use hermes_concurrent_agents.Run.State.{RunState, completed, run_state_eq}
use hermes_concurrent_agents.Run.Spec.{RunSpec}
use hermes_concurrent_agents.Evidence.{
  TaskEvidence, ExecutionEvidence, Reason, review_required, is_terminal, is_fatal, wants_input,
  is_stuck, is_unproven, done_work, reviews_done, implementers, judge_review, derive_review,
  derive_work, derive_flight, derive_blocked, derive_input, derive_fatal, derive_final_state,
}
use text.Mathlib.Text.{starts_with}

-- The run is derived to be completed.
abbrev pub Completes : RunState × Reason → Type 0
Completes r = r.0 ≡ completed

pub final_stage :
    (spec : RunSpec) (ev : ExecutionEvidence)
    → Completes (derive_final_state spec ev) ↔ (
        (is_nil ev.tasks ≡ false)
        × (ev.live_worker_task_ids ≡ [])
        × ((starts_with ev.reason "execution observation window exhausted"
              && not (is_nil (filter (λ t. not (is_terminal t)) ev.tasks)))
            ≡ false)
        × Completes (derive_fatal spec ev))
unfolding derive_final_state
final_stage spec ev = (λ h. ground arith, λ h. ground arith)

pub fatal_stage :
    (spec : RunSpec) (ev : ExecutionEvidence)
    → Completes (derive_fatal spec ev)
      ↔ ((filter is_fatal ev.tasks ≡ []) × Completes (derive_input spec ev))
unfolding derive_fatal
fatal_stage spec ev = (λ h. ground arith, λ h. ground arith)

pub input_stage :
    (spec : RunSpec) (ev : ExecutionEvidence)
    → Completes (derive_input spec ev)
      ↔ ((filter wants_input ev.tasks ≡ []) × Completes (derive_blocked spec ev))
unfolding derive_input
input_stage spec ev = (λ h. ground arith, λ h. ground arith)

pub blocked_stage :
    (spec : RunSpec) (ev : ExecutionEvidence)
    → Completes (derive_blocked spec ev)
      ↔ ((filter is_stuck ev.tasks ≡ []) × Completes (derive_flight spec ev))
unfolding derive_blocked
blocked_stage spec ev = (λ h. ground arith, λ h. ground arith)

pub flight_stage :
    (spec : RunSpec) (ev : ExecutionEvidence)
    → Completes (derive_flight spec ev)
      ↔ ((filter (λ t. not (is_terminal t)) ev.tasks ≡ []) × Completes (derive_work spec ev))
unfolding derive_flight
flight_stage spec ev = (λ h. ground arith, λ h. ground arith)

pub work_stage :
    (spec : RunSpec) (ev : ExecutionEvidence)
    → Completes (derive_work spec ev) ↔ (
        (is_nil (done_work ev.tasks) ≡ false)
        × (filter is_unproven (done_work ev.tasks) ≡ [])
        × (filter (λ t. is_empty t.result) (done_work ev.tasks) ≡ [])
        × Completes (derive_review spec ev))
unfolding derive_work
work_stage spec ev = (λ h. ground arith, λ h. ground arith)

pub review_stage :
    (spec : RunSpec) (ev : ExecutionEvidence)
    → Completes (derive_review spec ev) ↔ (
        (review_required spec ≡ true)
        → (latest : TaskEvidence) × (last? (reviews_done ev.tasks) ≡ some latest)
          × Completes (judge_review ev.tasks latest))
unfolding derive_review
review_stage spec ev = (
  λ h r. ground arith,
  λ h. elim (Bool-cases (review_required spec)) [
    | inl required ↦ ground (arith, h required)
    | inr free ↦ ground (arith, free)
  ],
)

pub judge_stage :
    (tasks : List TaskEvidence) (t : TaskEvidence)
    → Completes (judge_review tasks t) ↔ (
        (is_unproven t ≡ false)
        × ((is_empty t.result && is_nil t.artifacts) ≡ false)
        × (t.review_verdict ≡ "accept")
        × (contains t.reviewed_by (implementers tasks) ≡ false)
        × (is_empty t.reviewed_by ≡ false))
unfolding judge_review
judge_stage tasks t = (
  λ h. ground (arith, eq_iff t.review_verdict "accept"),
  λ h. ground (
    arith,
    eq_iff t.review_verdict "accept",
    eq_iff t.review_verdict "reject",
    eq_iff "accept" "reject",
  ),
)
