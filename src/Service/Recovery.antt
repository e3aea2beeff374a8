-- ===== src/Service/Recovery.antt =====
-- src/hca/service.py: `recover` of `FleetService`.
use hermes_concurrent_agents.Common.{
  String, Bool, true, false, ◌&&◌, ◌||◌, Option, none, some, if◌then◌else◌, nat_eq, string_eq,
  is_empty,
}
use hermes_concurrent_agents.Common.Json.{Fields}
use hermes_concurrent_agents.Run.State.{value, run_state_eq}
use hermes_concurrent_agents.Run.Spec.{RunSpec}
use hermes_concurrent_agents.Run.Store.{Store, RunProjection, get_run, get_spec}
use hermes_concurrent_agents.Service.Effects.{
  Env, Exit, returned, raised, Fault, value_error, other_error, Action, Reply, ◌>>=◌, pure, attempt,
  lift, consult,
}
use hermes_concurrent_agents.Service.Results.{
  ServiceResult, unknown_run_id, recover_needs, recover_unsupported, recover_failed, recovered,
  no_remedy, advice, recovery, refuse, exit_ok, exit_invalid, exit_preflight, exit_blocked,
}
use hermes_concurrent_agents.Service.Halt.{detached_requested}
use hermes_concurrent_agents.Service.Follow.{reconcile, ensure_controller, or_projection}

-- The result of a recovery, from the result of the reconciliation that follows it.
abbrev pub recovery_result :
    String → String → RunProjection → Fields → Bool → ServiceResult → Store → ServiceResult
recovery_result run_id task p found was_paused res s = record {
  success = true;
  code = exit_ok;
  action = "recover";
  run_id = run_id;
  state = value (or_projection (get_run s run_id) p).state;
  message = recovered task;
  remediation = no_remedy;
  payload = recovery found was_paused res.state;
}

module _ (env : Env) where
  -- Whether the controller of a detached run was stopped for the recovery.
  abbrev pub paused : Exit Bool → Bool
  paused (returned b) = b
  paused (raised e) = false

  abbrev pub recover_fault : String → RunProjection → Fault → Action ServiceResult
  recover_fault run_id p (value_error e) = pure (
      refuse exit_invalid "recover" run_id (value p.state) (recover_failed (value_error e))
        no_remedy)
  recover_fault run_id p (other_error e) = lift (raised (other_error e))
  recover_fault run_id p e = pure (
      refuse exit_blocked "recover" run_id (value p.state) (recover_failed e)
        (advice "inspect exact task ownership, process identity, and recovery budget"))

  unfoldable pub recovered_with :
      String → String → RunProjection → Bool → Fields → Action ServiceResult
  unfolding reconcile
  recovered_with run_id task p was_paused found = reconcile env run_id true >>= λ res w.
      (returned (recovery_result run_id task p found was_paused res w.store), w)

  -- `finally`: the controller is started again however the recovery ended.
  abbrev pub finally {ℓ κ} : {A : Type ℓ} {B : Type κ} → Action A → Action B → Action A
  finally m last w =
      let (r, v) = m w in
      let (r', u) = last v in elim r' [ returned _ ↦ (r, u) | raised e ↦ (raised e, u) ]

  unfoldable pub recover_by :
      String
      → String
      → String
      → String
      → RunProjection
      → RunSpec
      → Option (String → String → String → Reply Fields)
      → Action ServiceResult
  unfolding recovered_with ensure_controller detached_requested
  recover_by run_id task profile key p spec none w = (
    returned (refuse exit_preflight "recover" run_id (value p.state) recover_unsupported no_remedy),
    w,
  )
  recover_by run_id task profile key p spec (some f) w =
      let was_paused =
        if env.ctl.enabled && detached_requested w.store run_id
        then paused (env.ctl.stop run_id)
        else false in
      finally
        (attempt (consult (f task profile key) spec >>= recovered_with run_id task p was_paused)
          (recover_fault run_id p))
        (ensure_controller env run_id true) w

  unfoldable pub recover_in :
      String
      → String
      → String
      → String
      → Option RunProjection
      → Option RunSpec
      → Action ServiceResult
  unfolding recover_by
  recover_in run_id task profile key (some p) (some spec) =
      if is_empty task || is_empty key
      then pure (refuse exit_invalid "recover" run_id (value p.state) recover_needs no_remedy)
      else recover_by run_id task profile key p spec env.orch.recover
  recover_in run_id task profile key _ _ =
      pure (refuse exit_invalid "recover" run_id "unknown" (unknown_run_id run_id) no_remedy)

  unfoldable pub recover : String → String → String → String → Action ServiceResult
  unfolding recover_in
  recover run_id task profile key w =
      recover_in run_id task profile key (get_run w.store run_id) (get_spec w.store run_id) w
