-- ===== src/Service/Answers.antt =====
-- src/hca/service.py: `respond` of `FleetService`.
use hermes_concurrent_agents.Common.{
  String, Bool, true, false, not, ◌&&◌, Option, none, some, eqb, if◌then◌else◌, ◌==◌, nat_eq,
  string_eq, is_empty, is_nil,
}
use hermes_concurrent_agents.Run.State.{running, needs_input, value, run_state_eq}
use hermes_concurrent_agents.Run.Spec.{RunSpec}
use hermes_concurrent_agents.Run.Store.{
  Question, Store, RunProjection, get_run, get_spec, get_question, answer_question, open_questions,
  is_answered,
}
use hermes_concurrent_agents.Service.Effects.{
  Env, returned, raised, Done, Fault, run_state_error, other_error, Action, Reply, ◌>>=◌, ◌>>◌,
  pure, attempt, lift, consult, from_now, committed, move,
}
use hermes_concurrent_agents.Service.Results.{
  ServiceResult, Report, unknown_run_id, answer_empty, question_unknown, question_elsewhere,
  question_answered_before, gate_gone, gate_fault, recorded_answer, no_remedy, advice, refuse,
  exit_invalid, exit_blocked, exit_runtime,
}
use hermes_concurrent_agents.Service.Halt.{observe}
use hermes_concurrent_agents.Service.Follow.{reconcile, ensure_controller}
use hermes_concurrent_agents.Service.Submit.{stripped}

-- Why an answer is refused before anything is asked of the backend.
unfoldable pub answer_refused : Store → String → String → Option Report
answer_refused s run_id qid = elim (get_question s qid) [
  | none ↦ some (question_unknown qid)
  | some q ↦
      if not (q.asked_by == run_id)
      then some (question_elsewhere qid q.asked_by)
      else if is_answered q.status
      then some (question_answered_before qid)
      else none
]

abbrev pub task_of : Option Question → String
task_of none = ""
task_of (some q) = q.task_id

module _ (env : Env) where
  -- The release of the gate of the task: whether the answer is to be recorded, or the refusal.
  abbrev pub release_fault : String → String → RunProjection → Fault → Action (Option ServiceResult)
  release_fault run_id qid p (other_error e) = lift (raised (other_error e))
  release_fault run_id qid p e = pure (
      some (
        refuse exit_blocked "respond" run_id (value p.state) (gate_fault e)
          (advice "refresh status and verify the task still belongs to this run")))

  abbrev pub released : String → String → RunProjection → Bool → Action (Option ServiceResult)
  released run_id qid p true = pure none
  released run_id qid p false = pure (
      some (
        refuse exit_blocked "respond" run_id (value p.state) (gate_gone qid)
          (advice "refresh status; do not replay a stale answer")))

  unfoldable pub release_gate :
      String
      → String
      → RunProjection
      → String
      → String
      → Option (String → String → Reply Bool)
      → Option RunSpec
      → Action (Option ServiceResult)
  release_gate run_id qid p task answer (some f) (some spec) =
      if is_empty task
      then pure none
      else attempt (consult (f task answer) spec >>= released run_id qid p)
          (release_fault run_id qid p)
  release_gate run_id qid p task answer _ _ = pure none

  -- The answer is written: the refusal of the store is the result.
  abbrev pub write_fault : String → RunProjection → Fault → Action (Option ServiceResult)
  write_fault run_id p (run_state_error e) = pure (
      some (
        refuse exit_invalid "respond" run_id (value p.state) (gate_fault (run_state_error e))
          (advice "check the run id + question id with `hca status <run>`")))
  write_fault run_id p e = lift (raised e)

  unfoldable pub write_answer :
      String → String → RunProjection → String → Action (Option ServiceResult)
  write_answer run_id qid p answer =
      attempt
        ((λ w. committed env.clock w 2 (
            answer_question w.store run_id qid answer (from_now env.clock w 0)
              (from_now env.clock w 1)))
          >> pure none)
        (write_fault run_id p)

  -- A run that waited goes on with its last answer.
  unfoldable pub resume_branch : String → RunProjection → Action Done
  resume_branch run_id p w =
      if p.state == needs_input && is_nil (open_questions w.store run_id)
      then (move env.clock run_id running "resumed after input" >> pure tt) w
      else (returned tt, w)

  unfoldable pub after_reconcile : String → String → ServiceResult → Action ServiceResult
  unfolding observe
  after_reconcile run_id qid res =
      if eqb res.code exit_runtime
      then pure res
      else ensure_controller env run_id true
        >> observe env "respond" (some (recorded_answer qid))
            (advice "inspect HCA state integrity before replaying the answer") run_id

  unfoldable pub recorded :
      String → String → RunProjection → Option ServiceResult → Action ServiceResult
  unfolding resume_branch after_reconcile reconcile
  recorded run_id qid p (some refusal) = pure refusal
  recorded run_id qid p none =
      resume_branch run_id p >> (reconcile env run_id true >>= after_reconcile run_id qid)

  unfoldable pub written :
      String → String → RunProjection → String → Option ServiceResult → Action ServiceResult
  unfolding write_answer recorded
  written run_id qid p answer (some refusal) = pure refusal
  written run_id qid p answer none = write_answer run_id qid p answer >>= recorded run_id qid p

  unfoldable pub respond : String → String → String → Action ServiceResult
  unfolding stripped answer_refused release_gate written
  respond run_id qid answer w = elim (get_run w.store run_id) [
    | none ↦ (
      returned (refuse exit_invalid "respond" run_id "unknown" (unknown_run_id run_id) no_remedy),
      w,
    )
    | some p ↦
        if is_empty (stripped answer)
        then (
          returned (refuse exit_invalid "respond" run_id (value p.state) answer_empty no_remedy),
          w,
        )
        else elim (answer_refused w.store run_id qid) [
          | some why ↦ (
            returned (
                refuse exit_invalid "respond" run_id (value p.state) why
                  (advice "check the run id + question id with `hca status <run>`")),
            w,
          )
          | none ↦
              (release_gate run_id qid p (task_of (get_question w.store qid)) (stripped answer)
                    env.orch.respond (get_spec w.store run_id)
                  >>= written run_id qid p (stripped answer))
                w
        ]
  ]
