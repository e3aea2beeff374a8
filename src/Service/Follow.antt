-- ===== src/Service/Follow.antt =====
-- src/hca/service.py: `_reconcile_projection`, `reconcile`, `_ensure_controller` and `status` of
-- `FleetService`.
use hermes_concurrent_agents.Common.{
  ℕ, suc, ◌+◌, String, Bool, true, false, not, ◌&&◌, Option, none, some, if◌then◌else◌, nat_eq,
  string_eq, is_empty, length,
}
use hermes_concurrent_agents.Run.State.{
  RunState, needs_input, stopping, blocked, value, run_state_eq,
}
use hermes_concurrent_agents.Run.Spec.{RunSpec}
use hermes_concurrent_agents.Common.Json.{field, text, num, end}
use hermes_concurrent_agents.Evidence.{ExecutionEvidence}
use hermes_concurrent_agents.Run.Store.{Store, RunProjection, get_run, get_spec, list_runs}
use hermes_concurrent_agents.Service.{reconcile_from_evidence, safe_set}
use hermes_concurrent_agents.Service.Effects.{
  Env, returned, raised, Done, Fault, other_error, Action, Reply, ◌>>=◌, ◌>>◌, pure, attempt, lift,
  consult, from_now, log,
}
use hermes_concurrent_agents.Service.Results.{
  ServiceResult, Report, unknown_run_id, listed, iteration_failed, no_remedy, advice, run_list,
  refuse, is_over, status_result, exit_ok, exit_invalid, exit_runtime,
}
use hermes_concurrent_agents.Service.Halt.{told, detached_requested, cancel_with}

-- The states in which no controller is started: the final ones, and those that wait or stop.
abbrev pub keeps_controller_off : RunState → Bool
keeps_controller_off needs_input = true
keeps_controller_off stopping = true
keeps_controller_off st = is_over st

abbrev pub or_projection : Option RunProjection → RunProjection → RunProjection
or_projection none p = p
or_projection (some q) p = q

-- The newest runs.
abbrev pub listing : Store → ServiceResult
listing s = record {
  success = true;
  code = exit_ok;
  action = "status";
  run_id = "";
  state = "list";
  message = listed (length (list_runs s 20));
  remediation = no_remedy;
  payload = run_list (list_runs s 20);
}

module _ (env : Env) where
  -- `_status_result` of a projection that was read before.
  unfoldable pub report_on : String → Option Report → RunProjection → Action ServiceResult
  report_on action message p w = (
    returned (status_result env.orch action (told message p) p w.store (from_now env.clock w 0)),
    record w { reads = suc w.reads },
  )

  -- `_reconcile_from_evidence`, which reads the env.clock seven times at most.
  unfoldable pub reflect_evidence : RunSpec → ExecutionEvidence → Action Done
  reflect_evidence spec ev w = (
    returned tt,
    record {
      store = reconcile_from_evidence env.render w.store spec ev (from_now env.clock w);
      reads = w.reads + 7;
    },
  )

  unfoldable pub guarded_move : String → RunState → String → Action Done
  guarded_move run_id target reason w = (
    returned tt,
    record {
      store =
          safe_set w.store run_id target reason (from_now env.clock w 0) (from_now env.clock w 1);
      reads = w.reads + 2;
    },
  )

  abbrev pub sync_with : Option (Reply Done) → RunSpec → Action Done
  sync_with (some f) spec = consult f spec
  sync_with none spec = pure tt

  -- The evidence that the backend observes, without dispatching: none where it has no such method.
  abbrev pub observed_by :
      Option (Bool → Reply (Option ExecutionEvidence))
      → Option (Reply (Option ExecutionEvidence))
      → RunSpec
      → Action (Option ExecutionEvidence)
  observed_by (some tick) project spec = consult (tick false) spec
  observed_by none (some f) spec = sync_with env.orch.sync_questions spec >> consult f spec
  observed_by none none spec = pure none

  abbrev pub refresh_with :
      String → RunProjection → RunSpec → Option ExecutionEvidence → Action (Option RunProjection)
  refresh_with run_id p spec none = pure (some p)
  refresh_with run_id p spec (some ev) =
      reflect_evidence spec ev >> (λ w. (returned (get_run w.store run_id), w))

  -- A fault of the backend is swallowed: the projection is then the one that was read before.
  abbrev pub refresh : String → RunProjection → Option RunSpec → Action (Option RunProjection)
  refresh run_id p none = pure (some p)
  refresh run_id p (some spec) =
      attempt (observed_by env.orch.tick env.orch.project spec) (λ _. pure none)
      >>= refresh_with run_id p spec

  unfoldable pub reconcile_projection : String → Action (Option RunProjection)
  unfolding reflect_evidence
  reconcile_projection run_id w = elim (get_run w.store run_id) [
    | none ↦ (returned none, w)
    | some p ↦
        if is_over p.state
        then (returned (some p), w)
        else refresh run_id p (get_spec w.store run_id) w
  ]

  -- An evidence of a wrong type is an error of the iteration.
  abbrev pub valid_evidence : Option ExecutionEvidence → Action ExecutionEvidence
  valid_evidence none = lift (raised (other_error "controller tick returned invalid evidence"))
  valid_evidence (some ev) = pure ev

  unfoldable pub iterate : (Bool → Reply (Option ExecutionEvidence)) → Bool → RunSpec → Action Done
  unfolding reflect_evidence
  iterate tick dispatch spec =
      consult (tick dispatch) spec >>= valid_evidence >>= reflect_evidence spec

  unfoldable pub iteration_fault : String → RunProjection → Fault → Action ServiceResult
  iteration_fault run_id p e =
      log env.clock run_id "run.controller_error" "controller iteration failed"
        (field "error_type" (text (env.type_name e)) end)
      >> (λ w. (
        returned (
            refuse exit_runtime "reconcile" run_id
              (value (or_projection (get_run w.store run_id) p).state) (iteration_failed e)
              (advice "inspect controller logs and retry status/reconcile")),
        w,
      ))

  unfoldable pub iteration :
      String
      → RunProjection
      → Option RunSpec
      → Option (Bool → Reply (Option ExecutionEvidence))
      → Bool
      → Action ServiceResult
  unfolding iterate iteration_fault report_on reconcile_projection
  iteration run_id p (some spec) (some tick) dispatch =
      attempt
        (iterate tick dispatch spec
          >> (λ w. report_on "reconcile" none (or_projection (get_run w.store run_id) p) w))
        (iteration_fault run_id p)
  iteration run_id p _ _ dispatch =
      reconcile_projection run_id >>= λ q. report_on "reconcile" none (or_projection q p)

  unfoldable pub reconcile : String → Bool → Action ServiceResult
  unfolding iteration report_on
  reconcile run_id dispatch w = elim (get_run w.store run_id) [
    | none ↦ (
      returned (refuse exit_invalid "reconcile" run_id "unknown" (unknown_run_id run_id) no_remedy),
      w,
    )
    | some p ↦
        if is_over p.state
        then report_on "reconcile" none p w
        else iteration run_id p (get_spec w.store run_id) env.orch.tick dispatch w
  ]

  -- A cancellation whose fault is swallowed.
  abbrev pub swallow {ℓ} : {A : Type ℓ} → Action A → Action Done
  swallow m = attempt (m >> pure tt) (λ _. pure tt)

  unfoldable pub launch_failed : String → Bool → Fault → Action Bool
  unfolding guarded_move
  launch_failed run_id fail_closed e =
      log env.clock run_id "run.controller_launch_failed" "detached controller failed to start"
        (field "error_type" (text (env.type_name e)) end)
      >> ((λ w.
            if fail_closed
            then (swallow (cancel_with env env.orch.cancel (get_spec w.store run_id))
                  >> guarded_move run_id blocked
                      "detached controller failed to start; admitted workers were stopped")
                w
            else (returned tt, w))
          >> pure false)

  abbrev pub note_ready : String → Bool → ℕ → Action Bool
  note_ready run_id true pid = pure true
  note_ready run_id false pid =
      log env.clock run_id "run.controller_ready" "detached controller is live"
        (field "pid" (num pid) end)
      >> pure true

  unfoldable pub ensure_controller : String → Bool → Action Bool
  unfolding launch_failed
  ensure_controller run_id fail_closed w =
      if not (env.ctl.enabled && detached_requested w.store run_id)
      then (returned false, w)
      else elim (get_run w.store run_id) [
        | none ↦ (returned false, w)
        | some p ↦
            if keeps_controller_off p.state
            then (returned false, w)
            else attempt
                (lift (env.ctl.alive run_id) >>= λ was_alive.
                  lift (env.ctl.launch run_id) >>= note_ready run_id was_alive)
                (launch_failed run_id fail_closed) w
      ]

  unfoldable pub status : String → Action ServiceResult
  unfolding reconcile_projection ensure_controller report_on
  status run_id w =
      if is_empty run_id then (returned (listing w.store), w) else elim (get_run w.store run_id) [
        | none ↦ (
          returned (
              refuse exit_invalid "status" run_id "unknown" (unknown_run_id run_id) (
                advice
                  "status expects a high-level HCA run id; list valid ids with `hca run-status`")),
          w,
        )
        | some p ↦
            (reconcile_projection run_id >>= λ q. ensure_controller run_id false >> (λ v.
                report_on "status" none (or_projection (get_run v.store run_id) (or_projection q p))
                  v))
              w
      ]
