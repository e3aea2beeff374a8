-- ===== src/Service/Answered.antt =====
-- src/hca/service.py: an answer and a collection write through the calls of the run store.
use hermes_concurrent_agents.Common.{
  String, Bool, true, false, ◌&&◌, Option, none, some, eqb, if◌then◌else◌, ◌==◌, nat_eq, string_eq,
  is_empty, is_nil,
}
use hermes_concurrent_agents.Run.State.{running, needs_input, value, run_state_eq}
use hermes_concurrent_agents.Run.Spec.{RunSpec}
use hermes_concurrent_agents.RunResult.{Manifest}
use hermes_concurrent_agents.Run.Store.{
  Question, RunProjection, get_run, get_spec, get_question, answer_question, open_questions,
}
use hermes_concurrent_agents.Service.Effects.{
  Env, returned, Done, Fault, run_state_error, other_error, Action, Reply, ◌>>=◌, ◌>>◌, pure,
  attempt, consult, from_now, committed, move,
}
use hermes_concurrent_agents.Service.Results.{
  ServiceResult, Report, refuse, no_remedy, advice, recorded_answer, unknown_run_id, answer_empty,
  exit_runtime, exit_invalid,
}
use hermes_concurrent_agents.Service.Halt.{observe}
use hermes_concurrent_agents.Service.Follow.{reconcile_projection, reconcile, ensure_controller}
use hermes_concurrent_agents.Service.Submit.{stripped}
use hermes_concurrent_agents.Service.Answers.{
  answer_refused, task_of, release_fault, released, release_gate, write_fault, write_answer,
  resume_branch, after_reconcile, recorded, written, respond,
}
use hermes_concurrent_agents.Service.Collect.{aggregate, collect}
use hermes_concurrent_agents.Service.Writes.{
  Reached-refl, Lawful, Lawful-bind, Lawful-then, Lawful-attempt, Lawful-pure, Lawful-consult,
  Lawful-move, Lawful-answer,
}
use hermes_concurrent_agents.Service.Choices.{Lawful-if, Lawful-either, Lawful-option}
use hermes_concurrent_agents.Service.Lawful.{Lawful-observe}
use hermes_concurrent_agents.Service.Served.{Lawful-reconcile_projection, Lawful-reconcile}
use hermes_concurrent_agents.Service.Launches.{Lawful-ensure_controller}

module _ (env : Env) where
  Lawful-released :
      (r qid : String) (p : RunProjection) (b : Bool) → Lawful (released env r qid p b)
  Lawful-released r qid p true w = Reached-refl w.store
  Lawful-released r qid p false w = Reached-refl w.store

  Lawful-release_fault :
      (r qid : String) (p : RunProjection) (e : Fault) → Lawful (release_fault env r qid p e)
  Lawful-release_fault r qid p (other_error e) w = Reached-refl w.store
  Lawful-release_fault r qid p _ w = Reached-refl w.store

  Lawful-release_gate :
      (r qid : String) (p : RunProjection) (task answer : String)
      (f : Option (String → String → Reply Bool)) (spec : Option RunSpec)
      → Lawful (release_gate env r qid p task answer f spec)
  unfolding release_gate
  Lawful-release_gate r qid p task answer (some f) (some spec) =
      let told = released env r qid p in
      let caught = release_fault env r qid p in
      Lawful-either (is_empty task) (pure {A = Option ServiceResult} none)
        (attempt (consult (f task answer) spec >>= told) caught)
        (Lawful-pure {A = Option ServiceResult} none)
        (Lawful-attempt (consult (f task answer) spec >>= told) caught
          (Lawful-bind (consult (f task answer) spec) told (Lawful-consult (f task answer) spec)
            (Lawful-released r qid p))
          (Lawful-release_fault r qid p))
  Lawful-release_gate r qid p task answer none spec = Lawful-pure {A = Option ServiceResult} none
  Lawful-release_gate r qid p task answer (some f) none =
      Lawful-pure {A = Option ServiceResult} none

  Lawful-write_fault : (r : String) (p : RunProjection) (e : Fault) → Lawful (write_fault env r p e)
  Lawful-write_fault r p (run_state_error e) w = Reached-refl w.store
  Lawful-write_fault r p _ w = Reached-refl w.store

  Lawful-write_answer :
      (r qid : String) (p : RunProjection) (answer : String)
      → Lawful (write_answer env r qid p answer)
  unfolding write_answer
  Lawful-write_answer r qid p answer =
      let put : Action Question = λ w.
        committed env.clock w 2 (
          answer_question w.store r qid answer (from_now env.clock w 0) (from_now env.clock w 1)) in
      Lawful-attempt (put >> pure {A = Option ServiceResult} none) (write_fault env r p)
        (Lawful-then put (pure {A = Option ServiceResult} none)
          (Lawful-answer env.clock r qid answer) (Lawful-pure {A = Option ServiceResult} none))
        (Lawful-write_fault r p)

  Lawful-resume_branch : (r : String) (p : RunProjection) → Lawful (resume_branch env r p)
  unfolding resume_branch
  Lawful-resume_branch r p =
      let go = move env.clock r running "resumed after input" in
      Lawful-if (λ w. p.state == needs_input && is_nil (open_questions w.store r))
        (go >> pure {A = Done} tt) (pure {A = Done} tt)
        (Lawful-then go (pure {A = Done} tt) (Lawful-move env.clock r running "resumed after input")
          (Lawful-pure {A = Done} tt))
        (Lawful-pure {A = Done} tt)

  Lawful-after_reconcile :
      (r qid : String) (res : ServiceResult) → Lawful (after_reconcile env r qid res)
  unfolding after_reconcile
  Lawful-after_reconcile r qid res =
      let ensure = ensure_controller env r true in
      let lost = advice "inspect HCA state integrity before replaying the answer" in
      let tell = observe env "respond" (some (recorded_answer qid)) lost r in
      Lawful-either (eqb res.code exit_runtime) (pure res) (ensure >> tell) (Lawful-pure res) (
        Lawful-then ensure tell (Lawful-ensure_controller env r true)
          (Lawful-observe env "respond" (some (recorded_answer qid)) lost r))

  Lawful-recorded :
      (r qid : String) (p : RunProjection) (o : Option ServiceResult)
      → Lawful (recorded env r qid p o)
  unfolding recorded
  Lawful-recorded r qid p (some refusal) = Lawful-pure refusal
  Lawful-recorded r qid p none =
      let again = reconcile env r true in
      let last = after_reconcile env r qid in
      Lawful-then (resume_branch env r p) (again >>= last) (Lawful-resume_branch r p)
        (Lawful-bind again last (Lawful-reconcile env r true) (Lawful-after_reconcile r qid))

  Lawful-written :
      (r qid : String) (p : RunProjection) (answer : String) (o : Option ServiceResult)
      → Lawful (written env r qid p answer o)
  unfolding written
  Lawful-written r qid p answer (some refusal) = Lawful-pure refusal
  Lawful-written r qid p answer none =
      Lawful-bind (write_answer env r qid p answer) (recorded env r qid p)
        (Lawful-write_answer r qid p answer) (Lawful-recorded r qid p)

  pub Lawful-respond : (r qid answer : String) → Lawful (respond env r qid answer)
  unfolding respond
  Lawful-respond r qid answer =
      let missing = refuse exit_invalid "respond" r "unknown" (unknown_run_id r) no_remedy in
      let empty : RunProjection → ServiceResult =
        λ p. refuse exit_invalid "respond" r (value p.state) answer_empty no_remedy in
      let no_answer : RunProjection → Report → ServiceResult = λ p why.
        refuse exit_invalid "respond" r (value p.state) why
          (advice "check the run id + question id with `hca status <run>`") in
      let gate : RunProjection → Action (Option ServiceResult) = λ p w.
        release_gate env r qid p (task_of (get_question w.store qid)) (stripped answer)
          env.orch.respond (get_spec w.store r) w in
      let write : RunProjection → Option ServiceResult → Action ServiceResult =
        λ p. written env r qid p (stripped answer) in
      let ask : RunProjection → Action ServiceResult = λ p w. (gate p >>= write p) w in
      let judge : RunProjection → Action ServiceResult = λ p w.
        elim (answer_refused w.store r qid) [
          | some why ↦ (returned (no_answer p why), w)
          | none ↦ ask p w
        ] in
      Lawful-option (λ w. get_run w.store r) (pure missing)
        (λ p w. if is_empty (stripped answer) then (returned (empty p), w) else judge p w)
        (Lawful-pure missing)
        (λ p.
          Lawful-if (λ _. is_empty (stripped answer)) (pure (empty p)) (judge p)
            (Lawful-pure (empty p))
            (Lawful-option (λ w. answer_refused w.store r qid) (ask p)
              (λ why. pure (no_answer p why))
              (λ w.
                Lawful-bind (gate p) (write p)
                  (λ u.
                    Lawful-release_gate r qid p (task_of (get_question u.store qid))
                      (stripped answer) env.orch.respond (get_spec u.store r) u)
                  (Lawful-written r qid p (stripped answer)) w)
              (λ why. Lawful-pure (no_answer p why))))

  pub Lawful-collect : (digest : Manifest → String) (r : String) → Lawful (collect digest env r)
  unfolding collect aggregate
  Lawful-collect digest r =
      Lawful-then (reconcile_projection env r) (aggregate digest r)
        (Lawful-reconcile_projection env r) (λ w. Reached-refl w.store)
