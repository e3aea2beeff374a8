-- ===== src/Service/Launches.antt =====
-- src/hca/service.py: the start of a controller and `status` write through the calls of the run store.
use hermes_concurrent_agents.Common.{
  ℕ, String, Bool, true, false, not, ◌&&◌, Option, none, some, if◌then◌else◌, nat_eq, string_eq,
  is_empty,
}
use hermes_concurrent_agents.Run.State.{blocked, run_state_eq}
use hermes_concurrent_agents.Run.Spec.{RunSpec}
use hermes_concurrent_agents.Common.Json.{field, text, num, end}
use hermes_concurrent_agents.Run.Store.{RunProjection, get_run, get_spec}
use hermes_concurrent_agents.Service.Effects.{
  Env, returned, Done, Fault, Action, ◌>>=◌, ◌>>◌, pure, attempt, lift, log,
}
use hermes_concurrent_agents.Service.Results.{
  ServiceResult, refuse, advice, unknown_run_id, exit_invalid,
}
use hermes_concurrent_agents.Service.Halt.{detached_requested, cancel_with}
use hermes_concurrent_agents.Service.Follow.{
  keeps_controller_off, or_projection, listing, report_on, guarded_move, reconcile_projection,
  swallow, launch_failed, note_ready, ensure_controller, status,
}
use hermes_concurrent_agents.Service.Writes.{
  Reached-refl, Lawful, Lawful-bind, Lawful-then, Lawful-attempt, Lawful-pure, Lawful-log,
}
use hermes_concurrent_agents.Service.Choices.{Lawful-if, Lawful-option, Lawful-by, Lawful-exit}
use hermes_concurrent_agents.Service.Lawful.{Lawful-cancel_with}
use hermes_concurrent_agents.Service.Served.{
  Lawful-report_on, Lawful-guarded_move, Lawful-reconcile_projection,
}

module _ (env : Env) where
  Lawful-swallow {ℓ} : {A : Type ℓ} (m : Action A) → Lawful m → Lawful (swallow env m)
  Lawful-swallow m h =
      Lawful-attempt (m >> pure {A = Done} tt) (λ _. pure {A = Done} tt)
        (Lawful-then m (pure {A = Done} tt) h (Lawful-pure {A = Done} tt))
        (λ _. Lawful-pure {A = Done} tt)

  Lawful-launch_failed :
      (r : String) (closed : Bool) (e : Fault) → Lawful (launch_failed env r closed e)
  unfolding launch_failed
  Lawful-launch_failed r closed e =
      let note =
        log env.clock r "run.controller_launch_failed" "detached controller failed to start"
          (field "error_type" (text (env.type_name e)) end) in
      let why : String = "detached controller failed to start; admitted workers were stopped" in
      let block = guarded_move env r blocked why in
      let halt : Option RunSpec → Action Done =
        λ spec. swallow env (cancel_with env env.orch.cancel spec) in
      let clean : Action Done =
        λ w. if closed then (halt (get_spec w.store r) >> block) w else (returned tt, w) in
      Lawful-then note (clean >> pure false)
        (Lawful-log env.clock r "run.controller_launch_failed" "detached controller failed to start"
          (field "error_type" (text (env.type_name e)) end))
        (Lawful-then clean (pure false)
          (Lawful-if (λ _. closed) (λ w. (halt (get_spec w.store r) >> block) w)
            (pure {A = Done} tt)
            (Lawful-by (λ w. get_spec w.store r) (λ spec. halt spec >> block)
              (λ spec.
                Lawful-then (halt spec) block
                  (Lawful-swallow (cancel_with env env.orch.cancel spec)
                    (Lawful-cancel_with env env.orch.cancel spec))
                  (Lawful-guarded_move env r blocked why)))
            (Lawful-pure {A = Done} tt))
          (Lawful-pure {A = Bool} false))

  Lawful-note_ready : (r : String) (was : Bool) (pid : ℕ) → Lawful (note_ready env r was pid)
  Lawful-note_ready r true pid = Lawful-pure {A = Bool} true
  Lawful-note_ready r false pid =
      Lawful-then
        (log env.clock r "run.controller_ready" "detached controller is live"
          (field "pid" (num pid) end))
        (pure {A = Bool} true)
        (Lawful-log env.clock r "run.controller_ready" "detached controller is live"
          (field "pid" (num pid) end))
        (Lawful-pure {A = Bool} true)

  pub Lawful-ensure_controller :
      (r : String) (closed : Bool) → Lawful (ensure_controller env r closed)
  unfolding ensure_controller
  Lawful-ensure_controller r closed =
      let noted = note_ready env r in
      let live : Bool → Action Bool = λ was. lift (env.ctl.launch r) >>= noted was in
      let begin = attempt (lift (env.ctl.alive r) >>= live) (launch_failed env r closed) in
      let check : RunProjection → Action Bool =
        λ p w. if keeps_controller_off p.state then (returned false, w) else begin w in
      Lawful-if (λ w. not (env.ctl.enabled && detached_requested w.store r)) (pure {A = Bool} false)
        (λ w. elim (get_run w.store r) [ none ↦ (returned false, w) | some p ↦ check p w ])
        (Lawful-pure {A = Bool} false)
        (Lawful-option (λ w. get_run w.store r) (pure false) check (Lawful-pure {A = Bool} false)
          (λ p.
            Lawful-if (λ _. keeps_controller_off p.state) (pure {A = Bool} false) begin
              (Lawful-pure {A = Bool} false)
              (Lawful-attempt (lift (env.ctl.alive r) >>= live) (launch_failed env r closed)
                (Lawful-bind (lift (env.ctl.alive r)) live (Lawful-exit (env.ctl.alive r)) (λ was.
                  Lawful-bind (lift (env.ctl.launch r)) (noted was) (Lawful-exit (env.ctl.launch r))
                    (Lawful-note_ready r was)))
                (Lawful-launch_failed r closed))))

  pub Lawful-status : (r : String) → Lawful (status env r)
  unfolding status
  Lawful-status r =
      let ensure = ensure_controller env r false in
      let tell : RunProjection → Option RunProjection → Action ServiceResult = λ p q v.
        report_on env "status" none (or_projection (get_run v.store r) (or_projection q p)) v in
      let missing =
        refuse exit_invalid "status" r "unknown" (unknown_run_id r)
          (advice "status expects a high-level HCA run id; list valid ids with `hca run-status`") in
      let follow : RunProjection → Action ServiceResult =
        λ p. reconcile_projection env r >>= λ q. ensure >> tell p q in
      λ w.
        Lawful-if (λ _. is_empty r) (λ u. (returned (listing u.store), u))
          (λ u. elim (get_run u.store r) [ none ↦ (returned missing, u) | some p ↦ follow p u ])
          (λ u. Reached-refl u.store)
          (Lawful-option (λ u. get_run u.store r) (pure missing) follow (Lawful-pure missing)
            (λ p.
              Lawful-bind (reconcile_projection env r) (λ q. ensure >> tell p q)
                (Lawful-reconcile_projection env r)
                (λ q. Lawful-then ensure (tell p q) (Lawful-ensure_controller r false) (λ v.
                  Lawful-report_on env "status" none
                    (or_projection (get_run v.store r) (or_projection q p)) v))))
          w
