-- ===== src/Service/Halt.antt =====
-- src/hca/service.py: `stop` and `expire` of `FleetService`, with the result that a method ends with.
use hermes_concurrent_agents.Common.{
  ℕ, zero, suc, String, Bool, true, ◌&&◌, Option, none, some, if◌then◌else◌, ◌==◌, nat_eq,
  string_eq, or_else, any,
}
use hermes_concurrent_agents.Run.State.{stopping, blocked, failed, cancelled, value, run_state_eq}
use hermes_concurrent_agents.Run.Spec.{RunSpec}
use hermes_concurrent_agents.Common.Json.{field, text, obj, end}
use hermes_concurrent_agents.Evidence.{ExecutionEvidence}
use hermes_concurrent_agents.Run.Store.{
  Store, unknown_run, RunProjection, get_run, get_spec, list_events,
}
use hermes_concurrent_agents.Service.{evidence_to_dict}
use hermes_concurrent_agents.Service.Effects.{
  Env, Exit, returned, raised, Done, Fault, run_state_error, Action, Reply, ◌>>=◌, ◌>>◌, pure,
  attempt, lift, consult, from_now, move, log,
}
use hermes_concurrent_agents.Service.Results.{
  ServiceResult, Report, unknown_run_id, disappeared, already_terminal, stop_failed,
  cancel_unfinished, run_cancelled, run_is, Remedy, no_remedy, advice, nothing, refuse, is_over,
  status_result, exit_ok, exit_invalid, exit_runtime,
}
use Prim.Native.String.{◌++◌ as append}

-- `text[:n]`.
abbrev pub cut : ℕ → String → String
cut n String.[] = String.[]
cut zero s = String.[]
cut (suc n) (String.◌∷◌ c s) = String.◌∷◌ c (cut n s)

abbrev pub told : Option Report → RunProjection → Report
told none p = run_is p.run_id p.state
told (some message) p = message

unfoldable pub detached_requested : Store → String → Bool
detached_requested s run_id = any (λ e. e.kind == "run.detached") (list_events s run_id 500)

-- The result of a stop that has nothing to stop.
abbrev pub already_over : String → RunProjection → ServiceResult
already_over run_id p = record {
  success = true;
  code = exit_ok;
  action = "stop";
  run_id = run_id;
  state = value p.state;
  message = already_terminal;
  remediation = no_remedy;
  payload = nothing;
}

module _ (env : Env) where
  -- The status of the run at the end of a method.
  unfoldable pub observe : String → Option Report → Remedy → String → Action ServiceResult
  observe action message lost run_id w = elim (get_run w.store run_id) [
    | none ↦ (returned (refuse exit_runtime action run_id "unknown" disappeared lost), w)
    | some p ↦ (
      returned (status_result env.orch action (told message p) p w.store (from_now env.clock w 0)),
      record w { reads = suc w.reads },
    )
  ]

  unfoldable pub halt_controller : String → Action Done
  unfolding detached_requested
  halt_controller run_id w =
      if env.ctl.enabled && detached_requested w.store run_id
      then elim (env.ctl.stop run_id) [
        | returned _ ↦ (returned tt, w)
        | raised e ↦
            log env.clock run_id "controller.stop_error"
              "controller stop signal failed; persisted STOPPING remains authoritative"
              (field "error" (text (cut 500 (env.describe e))) end) w
      ]
      else (returned tt, w)

  -- The cancellation of the backend: the reason that it gives.
  abbrev pub cancel_with : Option (Reply String) → Option RunSpec → Action String
  cancel_with (some f) (some spec) = consult f spec
  cancel_with _ _ = pure ""

  -- The result of a stop whose run was blocked.
  unfoldable pub report_blocked : String → Action ServiceResult
  unfolding observe
  report_blocked run_id w = elim (get_run w.store run_id) [
    | none ↦ (raised (run_state_error unknown_run), w)
    | some p ↦ observe "stop" (some cancel_unfinished) no_remedy run_id w
  ]

  unfoldable pub after_cancel : String → Exit String → Action ServiceResult
  unfolding observe report_blocked
  after_cancel run_id (returned told_reason) =
      move env.clock run_id cancelled (or_else told_reason "cancelled by operator")
      >> observe "stop" (some run_cancelled)
          (advice "inspect HCA state integrity before retrying stop") run_id
  after_cancel run_id (raised e) =
      log env.clock run_id "run.cancel_incomplete"
        (append "cancellation incomplete: " (env.describe e)) end
      >> (move env.clock run_id blocked (append "cancellation incomplete: " (env.describe e))
          >> report_blocked run_id)

  abbrev pub stop_caught : String → RunProjection → Fault → Action ServiceResult
  stop_caught run_id p (run_state_error e) = pure (
      refuse exit_runtime "stop" run_id (value p.state) (stop_failed (run_state_error e)) no_remedy)
  stop_caught run_id p e = lift (raised e)

  -- The cancellation of a run that is stopping, and what follows.
  unfoldable pub cancelling : String → Action ServiceResult
  unfolding after_cancel
  cancelling run_id w =
      let (answer, v) = cancel_with env.orch.cancel (get_spec w.store run_id) w in
      after_cancel run_id answer v

  unfoldable pub stopped : String → Action ServiceResult
  unfolding halt_controller cancelling
  stopped run_id =
      move env.clock run_id stopping "stop requested"
      >> (halt_controller run_id >> cancelling run_id)

  unfoldable pub stop : String → Action ServiceResult
  unfolding stopped
  stop run_id w = elim (get_run w.store run_id) [
    | none ↦ (
      returned (refuse exit_invalid "stop" run_id "unknown" (unknown_run_id run_id) no_remedy),
      w,
    )
    | some p ↦
        if is_over p.state
        then (returned (already_over run_id p), w)
        else attempt (stopped run_id) (stop_caught run_id p) w
  ]

  -- The cleanup at the deadline: that of the backend, or its cancellation.
  abbrev pub cleanup_with :
      Option (Reply Done) → Option (Reply String) → Option RunSpec → Action Done
  cleanup_with (some f) _ (some spec) = consult f spec
  cleanup_with none (some f) (some spec) = consult f spec >> pure tt
  cleanup_with _ _ _ = pure tt

  unfoldable pub log_partial : String → Option ExecutionEvidence → Action Done
  log_partial run_id none = pure tt
  log_partial run_id (some ev) =
      log env.clock run_id "run.deadline_evidence"
        "partial evidence captured after deadline cleanup"
        (field "evidence" (obj (evidence_to_dict ev)) end)

  abbrev pub capture_with :
      String → Option (Reply (Option ExecutionEvidence)) → Option RunSpec → Action Done
  capture_with run_id (some f) (some spec) = consult f spec >>= log_partial run_id
  capture_with run_id _ _ = pure tt

  unfoldable pub cleaning : String → Action RunProjection
  cleaning run_id w =
      let spec = get_spec w.store run_id in
      (cleanup_with env.orch.expire env.orch.cancel spec
          >> (capture_with run_id env.orch.project spec
              >> move env.clock run_id failed
                  "wall-time deadline exhausted; partial evidence preserved"))
        w

  unfoldable pub cleaned : String → Action RunProjection
  unfolding cleaning
  cleaned run_id = move env.clock run_id stopping "deadline cleanup" >> cleaning run_id

  unfoldable pub cleanup_failed : String → Fault → Action RunProjection
  cleanup_failed run_id e =
      log env.clock run_id "run.cancel_incomplete"
        (append "deadline cancellation incomplete: " (env.describe e)) end
      >> move env.clock run_id blocked
          (append "deadline cancellation incomplete: " (env.describe e))

  unfoldable pub expire : String → Action ServiceResult
  unfolding cleaned cleanup_failed observe
  expire run_id w = elim (get_run w.store run_id) [
    | none ↦ (
      returned (refuse exit_invalid "expire" run_id "unknown" (unknown_run_id run_id) no_remedy),
      w,
    )
    | some p ↦
        if is_over p.state
        then observe "expire" none no_remedy run_id w
        else (log env.clock run_id "run.controller_budget_exhausted"
                "controller wall-time budget exhausted" end
              >> (attempt (cleaned run_id) (cleanup_failed run_id)
                  >> observe "expire" none no_remedy run_id))
            w
  ]
