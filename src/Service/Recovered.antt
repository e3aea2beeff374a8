-- ===== src/Service/Recovered.antt =====
-- src/hca/service.py: the recovery of a task writes through the calls of the run store.
use hermes_concurrent_agents.Common.{
  String, Bool, true, false, ◌&&◌, ◌||◌, Option, none, some, if◌then◌else◌, nat_eq, string_eq,
  is_empty,
}
use hermes_concurrent_agents.Run.State.{value, run_state_eq}
use hermes_concurrent_agents.Run.Spec.{RunSpec}
use hermes_concurrent_agents.Common.Json.{Fields}
use hermes_concurrent_agents.Run.Store.{RunProjection, get_run, get_spec}
use hermes_concurrent_agents.Service.Effects.{
  Env, Exit, returned, raised, Fault, value_error, other_error, World, Action, Reply, ◌>>=◌, pure,
  attempt, consult,
}
use hermes_concurrent_agents.Service.Results.{
  refuse, no_remedy, unknown_run_id, exit_invalid, recover_needs,
}
use hermes_concurrent_agents.Service.Halt.{detached_requested}
use hermes_concurrent_agents.Service.Follow.{reconcile, ensure_controller}
use hermes_concurrent_agents.Service.Recovery.{
  paused, recover_fault, recovery_result, recovered_with, finally, recover_by, recover_in, recover,
}
use hermes_concurrent_agents.Service.Writes.{
  Reached, Reached-refl, Reached-trans, Lawful, Lawful-bind, Lawful-attempt, Lawful-pure,
  Lawful-consult,
}
use hermes_concurrent_agents.Service.Choices.{Lawful-either}
use hermes_concurrent_agents.Service.Served.{Lawful-reconcile}
use hermes_concurrent_agents.Service.Launches.{Lawful-ensure_controller}

module _ (env : Env) where
  Lawful-recover_fault :
      (r : String) (p : RunProjection) (e : Fault) → Lawful (recover_fault env r p e)
  Lawful-recover_fault r p (value_error e) w = Reached-refl w.store
  Lawful-recover_fault r p (other_error e) w = Reached-refl w.store
  Lawful-recover_fault r p _ w = Reached-refl w.store

  Lawful-recovered_with :
      (r task : String) (p : RunProjection) (was : Bool) (found : Fields)
      → Lawful (recovered_with env r task p was found)
  unfolding recovered_with
  Lawful-recovered_with r task p was found =
      Lawful-bind (reconcile env r true)
        (λ res w. (returned (recovery_result r task p found was res w.store), w))
        (Lawful-reconcile env r true) (λ res w. Reached-refl w.store)

  Lawful-finally {ℓ κ} :
      {A : Type ℓ} {B : Type κ} (m : Action A) (last : Action B)
      → Lawful m
      → Lawful last
      → Lawful (finally env m last)
  Lawful-finally {A = A} {B = B} m last p q w =
      let v = (m w).1 in Reached-trans w.store v.store _ (p w) (go (m w).0 (last v) (q v))
    where
      go :
          (x : Exit A) (y : Exit B × World)
          → Reached (m w).1.store y.1.store
          → Reached
              (m w).1.store
              (let (r', u) = y in
                elim r' as (λ _. Exit A × World) [
                  | returned _ ↦ (x, u)
                  | raised e ↦ (raised e, u)
                ]).1.store
      go x (returned b, u) h = h
      go x (raised e, u) h = h

  Lawful-recover_by :
      (r task profile key : String) (p : RunProjection) (spec : RunSpec)
      (f : Option (String → String → String → Reply Fields))
      → Lawful (recover_by env r task profile key p spec f)
  unfolding recover_by
  Lawful-recover_by r task profile key p spec none w = Reached-refl w.store
  Lawful-recover_by r task profile key p spec (some f) w =
      let was =
        if env.ctl.enabled && detached_requested w.store r
        then paused env (env.ctl.stop r)
        else false in
      let ask = consult (f task profile key) spec in
      let told = recovered_with env r task p was in
      let caught = recover_fault env r p in
      Lawful-finally (attempt (ask >>= told) caught) (ensure_controller env r true)
        (Lawful-attempt (ask >>= told) caught
          (Lawful-bind ask told (Lawful-consult (f task profile key) spec)
            (Lawful-recovered_with r task p was))
          (Lawful-recover_fault r p))
        (Lawful-ensure_controller env r true) w

  Lawful-recover_in :
      (r task profile key : String) (p : Option RunProjection) (spec : Option RunSpec)
      → Lawful (recover_in env r task profile key p spec)
  unfolding recover_in
  Lawful-recover_in r task profile key (some p) (some spec) =
      let missing = refuse exit_invalid "recover" r (value p.state) recover_needs no_remedy in
      Lawful-either (is_empty task || is_empty key) (pure missing)
        (recover_by env r task profile key p spec env.orch.recover) (Lawful-pure missing)
        (Lawful-recover_by r task profile key p spec env.orch.recover)
  Lawful-recover_in r task profile key none spec =
      Lawful-pure (refuse exit_invalid "recover" r "unknown" (unknown_run_id r) no_remedy)
  Lawful-recover_in r task profile key (some p) none =
      Lawful-pure (refuse exit_invalid "recover" r "unknown" (unknown_run_id r) no_remedy)

  pub Lawful-recover : (r task profile key : String) → Lawful (recover env r task profile key)
  unfolding recover
  Lawful-recover r task profile key w =
      Lawful-recover_in r task profile key (get_run w.store r) (get_spec w.store r) w
