-- ===== src/Service/Lawful.antt =====
-- src/hca/service.py: the methods that end or follow a run write to the store through its calls.
use hermes_concurrent_agents.Common.{
  suc, String, Bool, ◌&&◌, Option, none, some, if◌then◌else◌, nat_eq, string_eq, or_else,
}
use hermes_concurrent_agents.Run.State.{stopping, blocked, failed, cancelled, run_state_eq}
use hermes_concurrent_agents.Run.Spec.{RunSpec}
use hermes_concurrent_agents.Common.Json.{field, text, obj, end}
use hermes_concurrent_agents.Evidence.{ExecutionEvidence}
use hermes_concurrent_agents.Run.Store.{RunProjection, get_run, get_spec, unknown_run}
use hermes_concurrent_agents.Service.{evidence_to_dict}
use hermes_concurrent_agents.Service.Effects.{
  Env, Exit, returned, raised, Done, Fault, run_state_error, Action, Reply, ◌>>◌, pure, attempt,
  lift, consult, from_now, move, log,
}
use hermes_concurrent_agents.Service.Results.{
  ServiceResult, Report, Remedy, is_over, status_result, refuse, no_remedy, advice, run_cancelled,
  cancel_unfinished, disappeared, exit_runtime, exit_invalid, unknown_run_id,
}
use hermes_concurrent_agents.Service.Halt.{
  told, detached_requested, observe, halt_controller, cancel_with, report_blocked, after_cancel,
  cancelling, stop_caught, already_over, stopped, stop, cleanup_with, log_partial, capture_with,
  cleaning, cleaned, cleanup_failed, expire, cut,
}
use hermes_concurrent_agents.Service.Writes.{
  Reached-refl, Lawful, Reached-trans, Lawful-bind, Lawful-then, Lawful-attempt, Lawful-pure,
  Lawful-consult, Lawful-move, Lawful-log,
}
use Prim.Native.String.{◌++◌ as append}
use hermes_concurrent_agents.Service.Choices.{Lawful-if, Lawful-option, Lawful-by, Lawful-exit}

module _ (env : Env) where
  pub Lawful-observe :
      (action : String) (message : Option Report) (lost : Remedy) (r : String)
      → Lawful (observe env action message lost r)
  unfolding observe
  Lawful-observe action message lost r =
      Lawful-option (λ w. get_run w.store r)
        (pure (refuse exit_runtime action r "unknown" disappeared lost))
        (λ p w. (
          returned
              (status_result env.orch action (told message p) p w.store (from_now env.clock w 0)),
          record w { reads = suc w.reads },
        ))
        (Lawful-pure (refuse exit_runtime action r "unknown" disappeared lost))
        (λ p w. Reached-refl w.store)

  Lawful-halt_controller : (r : String) → Lawful (halt_controller env r)
  unfolding halt_controller
  Lawful-halt_controller r =
      Lawful-if (λ w. env.ctl.enabled && detached_requested w.store r)
        (λ w. elim (env.ctl.stop r) [
          | returned _ ↦ (returned tt, w)
          | raised e ↦
              log env.clock r "controller.stop_error"
                "controller stop signal failed; persisted STOPPING remains authoritative"
                (field "error" (text (cut 500 (env.describe e))) end) w
        ])
        (pure tt) (go (env.ctl.stop r)) (Lawful-pure {A = Done} tt)
    where
      go :
          (x : Exit Bool)
          → Lawful {A = Done} (λ w. elim x [
            | returned _ ↦ (returned tt, w)
            | raised e ↦
                log env.clock r "controller.stop_error"
                  "controller stop signal failed; persisted STOPPING remains authoritative"
                  (field "error" (text (cut 500 (env.describe e))) end)
                  w
          ])
      go (returned b) = Lawful-pure {A = Done} tt
      go (raised e) =
          Lawful-log env.clock r "controller.stop_error"
            "controller stop signal failed; persisted STOPPING remains authoritative"
            (field "error" (text (cut 500 (env.describe e))) end)

  pub Lawful-cancel_with :
      (f : Option (Reply String)) (spec : Option RunSpec) → Lawful (cancel_with env f spec)
  Lawful-cancel_with (some f) (some spec) = Lawful-consult f spec
  Lawful-cancel_with none spec = Lawful-pure {A = String} ""
  Lawful-cancel_with (some f) none = Lawful-pure {A = String} ""

  Lawful-report_blocked : (r : String) → Lawful (report_blocked env r)
  unfolding report_blocked
  Lawful-report_blocked r =
      Lawful-option (λ w. get_run w.store r) (lift (raised (run_state_error unknown_run)))
        (λ p. observe env "stop" (some cancel_unfinished) no_remedy r)
        (Lawful-exit {A = ServiceResult} (raised (run_state_error unknown_run)))
        (λ p. Lawful-observe "stop" (some cancel_unfinished) no_remedy r)

  Lawful-after_cancel : (r : String) (x : Exit String) → Lawful (after_cancel env r x)
  unfolding after_cancel
  Lawful-after_cancel r (returned reason) =
      let lost = advice "inspect HCA state integrity before retrying stop" in
      Lawful-then (move env.clock r cancelled (or_else reason "cancelled by operator"))
        (observe env "stop" (some run_cancelled) lost r)
        (Lawful-move env.clock r cancelled (or_else reason "cancelled by operator"))
        (Lawful-observe "stop" (some run_cancelled) lost r)
  Lawful-after_cancel r (raised e) =
      let reason : String = append "cancellation incomplete: " (env.describe e) in
      Lawful-then (log env.clock r "run.cancel_incomplete" reason end)
        (move env.clock r blocked reason >> report_blocked env r)
        (Lawful-log env.clock r "run.cancel_incomplete" reason end)
        (Lawful-then (move env.clock r blocked reason) (report_blocked env r)
          (Lawful-move env.clock r blocked reason) (Lawful-report_blocked r))

  Lawful-cancelling : (r : String) → Lawful (cancelling env r)
  unfolding cancelling
  Lawful-cancelling r w =
      let spec = get_spec w.store r in
      let (answer, v) = cancel_with env env.orch.cancel spec w in
      Reached-trans w.store v.store _ (Lawful-cancel_with env.orch.cancel spec w)
        (Lawful-after_cancel r answer v)

  Lawful-stopped : (r : String) → Lawful (stopped env r)
  unfolding stopped
  Lawful-stopped r =
      Lawful-then (move env.clock r stopping "stop requested")
        (halt_controller env r >> cancelling env r)
        (Lawful-move env.clock r stopping "stop requested")
        (Lawful-then (halt_controller env r) (cancelling env r) (Lawful-halt_controller r)
          (Lawful-cancelling r))

  Lawful-stop_caught : (r : String) (p : RunProjection) (e : Fault) → Lawful (stop_caught env r p e)
  Lawful-stop_caught r p (run_state_error e) w = Reached-refl w.store
  Lawful-stop_caught r p _ w = Reached-refl w.store

  pub Lawful-stop : (r : String) → Lawful (stop env r)
  unfolding stop
  Lawful-stop r =
      let missing = refuse exit_invalid "stop" r "unknown" (unknown_run_id r) no_remedy in
      let halt : RunProjection → Action ServiceResult =
        λ p. attempt (stopped env r) (stop_caught env r p) in
      Lawful-option (λ w. get_run w.store r) (pure missing)
        (λ p w. if is_over p.state then (returned (already_over r p), w) else halt p w)
        (Lawful-pure missing)
        (λ p.
          Lawful-if (λ _. is_over p.state) (pure (already_over r p)) (halt p)
            (Lawful-pure (already_over r p))
            (Lawful-attempt (stopped env r) (stop_caught env r p) (Lawful-stopped r)
              (Lawful-stop_caught r p)))

  Lawful-cleanup_with :
      (f : Option (Reply Done)) (g : Option (Reply String)) (spec : Option RunSpec)
      → Lawful (cleanup_with env f g spec)
  Lawful-cleanup_with (some f) g (some spec) = Lawful-consult f spec
  Lawful-cleanup_with none (some g) (some spec) =
      Lawful-then (consult g spec) (pure {A = Done} tt) (Lawful-consult g spec)
        (Lawful-pure {A = Done} tt)
  Lawful-cleanup_with (some f) g none = Lawful-pure {A = Done} tt
  Lawful-cleanup_with none (some g) none = Lawful-pure {A = Done} tt
  Lawful-cleanup_with none none spec = Lawful-pure {A = Done} tt

  Lawful-log_partial : (r : String) (ev : Option ExecutionEvidence) → Lawful (log_partial env r ev)
  unfolding log_partial
  Lawful-log_partial r none = Lawful-pure {A = Done} tt
  Lawful-log_partial r (some ev) =
      Lawful-log env.clock r "run.deadline_evidence"
        "partial evidence captured after deadline cleanup"
        (field "evidence" (obj (evidence_to_dict ev)) end)

  Lawful-capture_with :
      (r : String) (f : Option (Reply (Option ExecutionEvidence))) (spec : Option RunSpec)
      → Lawful (capture_with env r f spec)
  Lawful-capture_with r (some f) (some spec) =
      Lawful-bind (consult f spec) (log_partial env r) (Lawful-consult f spec)
        (Lawful-log_partial r)
  Lawful-capture_with r none spec = Lawful-pure {A = Done} tt
  Lawful-capture_with r (some f) none = Lawful-pure {A = Done} tt

  Lawful-cleaned : (r : String) → Lawful (cleaned env r)
  unfolding cleaned cleaning
  Lawful-cleaned r =
      let last =
        move env.clock r failed "wall-time deadline exhausted; partial evidence preserved" in
      let clean : Option RunSpec → Action Done =
        λ spec. cleanup_with env env.orch.expire env.orch.cancel spec in
      let capture : Option RunSpec → Action Done =
        λ spec. capture_with env r env.orch.project spec in
      Lawful-then (move env.clock r stopping "deadline cleanup") (cleaning env r)
        (Lawful-move env.clock r stopping "deadline cleanup")
        (Lawful-by (λ w. get_spec w.store r) (λ spec. clean spec >> (capture spec >> last))
          (λ spec.
            Lawful-then (clean spec) (capture spec >> last)
              (Lawful-cleanup_with env.orch.expire env.orch.cancel spec)
              (Lawful-then (capture spec) last (Lawful-capture_with r env.orch.project spec) (
                Lawful-move env.clock r failed
                  "wall-time deadline exhausted; partial evidence preserved"))))

  Lawful-cleanup_failed : (r : String) (e : Fault) → Lawful (cleanup_failed env r e)
  unfolding cleanup_failed
  Lawful-cleanup_failed r e =
      let reason : String = append "deadline cancellation incomplete: " (env.describe e) in
      Lawful-then (log env.clock r "run.cancel_incomplete" reason end)
        (move env.clock r blocked reason)
        (Lawful-log env.clock r "run.cancel_incomplete" reason end)
        (Lawful-move env.clock r blocked reason)

  pub Lawful-expire : (r : String) → Lawful (expire env r)
  unfolding expire
  Lawful-expire r =
      let missing = refuse exit_invalid "expire" r "unknown" (unknown_run_id r) no_remedy in
      let note =
        log env.clock r "run.controller_budget_exhausted" "controller wall-time budget exhausted"
          end in
      let clean = attempt (cleaned env r) (cleanup_failed env r) in
      let tell = observe env "expire" none no_remedy r in
      Lawful-option (λ w. get_run w.store r) (pure missing)
        (λ p w. if is_over p.state then tell w else (note >> (clean >> tell)) w)
        (Lawful-pure missing)
        (λ p.
          Lawful-if (λ _. is_over p.state) tell (note >> (clean >> tell))
            (Lawful-observe "expire" none no_remedy r)
            (Lawful-then note (clean >> tell)
              (Lawful-log env.clock r "run.controller_budget_exhausted"
                "controller wall-time budget exhausted" end)
              (Lawful-then clean tell
                (Lawful-attempt (cleaned env r) (cleanup_failed env r) (Lawful-cleaned r)
                  (Lawful-cleanup_failed r))
                (Lawful-observe "expire" none no_remedy r))))
