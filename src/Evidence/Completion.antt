-- ===== src/Evidence/Completion.antt =====
-- src/hca/evidence.py: when `derive_final_state` reports completion.
use hermes_concurrent_agents.Common.{
  ◌≡◌, refl, ◌↔◌, Bool, true, false, not, ◌&&◌, some, List, [], ◌∷◌, arith, nat_eq, string_eq,
  is_empty, is_nil, last?, filter, any, All, All-map, All-of_filter-nil, filter-nil_of_All,
}
use hermes_concurrent_agents.Run.State.{completed, run_state_eq}
use hermes_concurrent_agents.Run.Spec.{RunSpec}
use hermes_concurrent_agents.Evidence.{
  TaskEvidence, ExecutionEvidence, review_required, is_terminal, is_fatal, is_done, wants_input,
  is_stuck, is_unproven, done_work, reviews_done, derive_final_state,
}
use hermes_concurrent_agents.Evidence.Stages.{
  Completes, final_stage, fatal_stage, input_stage, blocked_stage, flight_stage, work_stage,
  review_stage,
}
use hermes_concurrent_agents.Evidence.Facts.{
  IsSettled, IsProven, checks_of_settled, All-IsSettled, Checks, AcceptedBy, some_done_work,
  judge_iff, executed_of_checks, Checks-of_executed,
}

-- What the evidence of a completed run shows.
pub record Supports (spec : RunSpec) (ev : ExecutionEvidence) : Type 0 where
  pub no_live_worker : ev.live_worker_task_ids ≡ []
  pub settled : All IsSettled ev.tasks
  pub worked : any (λ t. not t.is_review && is_done t) ev.tasks ≡ true
  pub executed : All IsProven ev.tasks
  pub accepted :
      review_required spec ≡ true
      → (r : TaskEvidence) × (last? (reviews_done ev.tasks) ≡ some r) × AcceptedBy ev.tasks r

Supports-of_completed :
    (spec : RunSpec) (ev : ExecutionEvidence)
    → Completes (derive_final_state spec ev)
    → Supports spec ev
Supports-of_completed spec ev h =
    let (_, live, _, h1) = (final_stage spec ev).0 h in
    let (fatal, h2) = (fatal_stage spec ev).0 h1 in
    let (input, h3) = (input_stage spec ev).0 h2 in
    let (stuck, h4) = (blocked_stage spec ev).0 h3 in
    let (flight, h5) = (flight_stage spec ev).0 h4 in
    let (some_work, unproven, empty, h6) = (work_stage spec ev).0 h5 in
    record {
      no_live_worker = live;
      settled =
          All-IsSettled ev.tasks (All-of_filter-nil is_fatal ev.tasks fatal)
            (All-of_filter-nil wants_input ev.tasks input)
            (All-of_filter-nil is_stuck ev.tasks stuck)
            (All-of_filter-nil (λ t. not (is_terminal t)) ev.tasks flight);
      worked = (some_done_work ev.tasks).0 some_work;
      executed = executed_of_checks ev.tasks unproven empty;
      accepted = λ r.
          let (latest, e, j) = (review_stage spec ev).0 h6 r in
          (latest, e, (judge_iff ev.tasks latest).0 j);
    }

has_task : (p : TaskEvidence → Bool) (ts : List TaskEvidence) → any p ts ≡ true → is_nil ts ≡ false
has_task p [] h = cc
has_task p (t ∷ ts) h = refl

completed_of_Supports :
    (spec : RunSpec) (ev : ExecutionEvidence)
    → Supports spec ev
    → Completes (derive_final_state spec ev)
completed_of_Supports spec ev s = (final_stage spec ev).1 (
  has_task (λ t. not t.is_review && is_done t) ev.tasks s.worked,
  s.no_live_worker,
  rw flight (ground arith),
  (fatal_stage spec ev).1 (
    none_of is_fatal (λ t c. c.0),
    (input_stage spec ev).1 (
      none_of wants_input (λ t c. c.1),
      (blocked_stage spec ev).1 (
        none_of is_stuck (λ t c. c.2),
        (flight_stage spec ev).1 (
          flight,
          (work_stage spec ev).1 (
            (some_done_work ev.tasks).1 s.worked,
            filter-nil_of_All is_unproven (done_work ev.tasks)
                (All-map (λ t (c : Checks t). c.0) (done_work ev.tasks) checks),
            filter-nil_of_All (λ t. is_empty t.result) (done_work ev.tasks)
                (All-map (λ t (c : Checks t). c.1) (done_work ev.tasks) checks),
            (review_stage spec ev).1 (λ r.
                let (latest, e, j) = s.accepted r in (latest, e, (judge_iff ev.tasks latest).1 j)),
          ),
        ),
      ),
    ),
  ),
)
  where
    checks : All Checks (done_work ev.tasks)
    checks = Checks-of_executed ev.tasks s.executed

    none_of :
        (p : TaskEvidence → Bool)
        → ((t : TaskEvidence)
            → (is_fatal t ≡ false)
              × (wants_input t ≡ false)
              × (is_stuck t ≡ false)
              × (not (is_terminal t) ≡ false)
            → p t ≡ false)
        → filter p ev.tasks ≡ []
    none_of p pick =
        filter-nil_of_All p ev.tasks
          (All-map (λ t h. pick t (checks_of_settled t h)) ev.tasks s.settled)

    flight : filter (λ t. not (is_terminal t)) ev.tasks ≡ []
    flight = none_of (λ t. not (is_terminal t)) (λ t c. c.3)

-- A run is derived to be completed exactly when no owned worker is alive, every task is settled, some
-- task of the work is done, each done task of the work was run by a worker and left a result, and, if
-- the run requires review, the last finished review accepts it by someone independent.
pub completed_iff :
    (spec : RunSpec) (ev : ExecutionEvidence)
    → ((derive_final_state spec ev).0 ≡ completed) ↔ Supports spec ev
completed_iff spec ev = (Supports-of_completed spec ev, completed_of_Supports spec ev)
