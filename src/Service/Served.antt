-- ===== src/Service/Served.antt =====
-- src/hca/service.py: the methods that follow, create and collect a run write through its calls.
use hermes_concurrent_agents.Common.{
  String, Bool, false, Option, none, some, if◌then◌else◌, nat_eq, string_eq,
}
use hermes_concurrent_agents.Run.State.{RunState, value, run_state_eq}
use hermes_concurrent_agents.Run.Spec.{RunSpec}
use hermes_concurrent_agents.Common.Json.{field, text, end}
use hermes_concurrent_agents.Evidence.{ExecutionEvidence}
use hermes_concurrent_agents.Run.Store.{RunProjection, get_run, get_spec}
use hermes_concurrent_agents.Service.Effects.{
  Env, returned, raised, Done, Fault, other_error, Action, Reply, ◌>>=◌, ◌>>◌, pure, attempt,
  consult, from_now, log,
}
use hermes_concurrent_agents.Service.Results.{
  ServiceResult, Report, is_over, refuse, no_remedy, advice, iteration_failed, unknown_run_id,
  exit_runtime, exit_invalid,
}
use hermes_concurrent_agents.Service.Follow.{
  or_projection, report_on, reflect_evidence, guarded_move, sync_with, observed_by, refresh_with,
  refresh, reconcile_projection, valid_evidence, iterate, iteration_fault, iteration, reconcile,
}
use hermes_concurrent_agents.Service.Writes.{
  Reached-refl, Reached-reconcile, Reached-safe_set, Lawful, Lawful-bind, Lawful-then,
  Lawful-attempt, Lawful-pure, Lawful-consult, Lawful-log,
}
use hermes_concurrent_agents.Service.Choices.{Lawful-if, Lawful-option, Lawful-by, Lawful-exit}

module _ (env : Env) where
  pub Lawful-report_on :
      (action : String) (message : Option Report) (p : RunProjection)
      → Lawful (report_on env action message p)
  unfolding report_on
  Lawful-report_on action message p w = Reached-refl w.store

  pub Lawful-reflect_evidence :
      (spec : RunSpec) (ev : ExecutionEvidence) → Lawful (reflect_evidence env spec ev)
  unfolding reflect_evidence
  Lawful-reflect_evidence spec ev w =
      Reached-reconcile env.render w.store spec ev (from_now env.clock w)

  pub Lawful-guarded_move :
      (r : String) (target : RunState) (reason : String) → Lawful (guarded_move env r target reason)
  unfolding guarded_move
  Lawful-guarded_move r target reason w =
      Reached-safe_set w.store r target reason (from_now env.clock w 0) (from_now env.clock w 1)

  Lawful-sync_with : (f : Option (Reply Done)) (spec : RunSpec) → Lawful (sync_with env f spec)
  Lawful-sync_with (some f) spec = Lawful-consult f spec
  Lawful-sync_with none spec = Lawful-pure {A = Done} tt

  Lawful-observed_by :
      (tick : Option (Bool → Reply (Option ExecutionEvidence)))
      (project : Option (Reply (Option ExecutionEvidence))) (spec : RunSpec)
      → Lawful (observed_by env tick project spec)
  Lawful-observed_by (some tick) project spec = Lawful-consult (tick false) spec
  Lawful-observed_by none (some f) spec =
      Lawful-then (sync_with env env.orch.sync_questions spec) (consult f spec)
        (Lawful-sync_with env.orch.sync_questions spec) (Lawful-consult f spec)
  Lawful-observed_by none none spec = Lawful-pure {A = Option ExecutionEvidence} none

  Lawful-refresh_with :
      (r : String) (p : RunProjection) (spec : RunSpec) (ev : Option ExecutionEvidence)
      → Lawful (refresh_with env r p spec ev)
  Lawful-refresh_with r p spec none = Lawful-pure {A = Option RunProjection} (some p)
  Lawful-refresh_with r p spec (some ev) =
      Lawful-then (reflect_evidence env spec ev) (λ w. (returned (get_run w.store r), w))
        (Lawful-reflect_evidence spec ev) (λ w. Reached-refl w.store)

  Lawful-refresh :
      (r : String) (p : RunProjection) (spec : Option RunSpec) → Lawful (refresh env r p spec)
  Lawful-refresh r p none = Lawful-pure {A = Option RunProjection} (some p)
  Lawful-refresh r p (some spec) =
      let seen = observed_by env env.orch.tick env.orch.project spec in
      Lawful-bind (attempt seen (λ _. pure none)) (refresh_with env r p spec)
        (Lawful-attempt seen (λ _. pure none)
          (Lawful-observed_by env.orch.tick env.orch.project spec)
          (λ _. Lawful-pure {A = Option ExecutionEvidence} none))
        (Lawful-refresh_with r p spec)

  pub Lawful-reconcile_projection : (r : String) → Lawful (reconcile_projection env r)
  unfolding reconcile_projection
  Lawful-reconcile_projection r =
      let fresh : RunProjection → Action (Option RunProjection) =
        λ p w. refresh env r p (get_spec w.store r) w in
      Lawful-option (λ w. get_run w.store r) (pure none)
        (λ p w. if is_over p.state then (returned (some p), w) else fresh p w)
        (Lawful-pure {A = Option RunProjection} none)
        (λ p.
          Lawful-if (λ _. is_over p.state) (pure (some p)) (fresh p)
            (Lawful-pure {A = Option RunProjection} (some p))
            (Lawful-by (λ w. get_spec w.store r) (refresh env r p) (Lawful-refresh r p)))

  Lawful-valid_evidence : (ev : Option ExecutionEvidence) → Lawful (valid_evidence env ev)
  Lawful-valid_evidence none =
      Lawful-exit {A = ExecutionEvidence}
        (raised (other_error "controller tick returned invalid evidence"))
  Lawful-valid_evidence (some ev) = Lawful-pure ev

  Lawful-iterate :
      (tick : Bool → Reply (Option ExecutionEvidence)) (dispatch : Bool) (spec : RunSpec)
      → Lawful (iterate env tick dispatch spec)
  unfolding iterate
  Lawful-iterate tick dispatch spec =
      let valid = valid_evidence env in
      Lawful-bind (consult (tick dispatch) spec >>= valid) (reflect_evidence env spec)
        (Lawful-bind (consult (tick dispatch) spec) valid (Lawful-consult (tick dispatch) spec)
          Lawful-valid_evidence)
        (Lawful-reflect_evidence spec)

  Lawful-iteration_fault :
      (r : String) (p : RunProjection) (e : Fault) → Lawful (iteration_fault env r p e)
  unfolding iteration_fault
  Lawful-iteration_fault r p e =
      Lawful-then
        (log env.clock r "run.controller_error" "controller iteration failed"
          (field "error_type" (text (env.type_name e)) end))
        (λ w. (
          returned (
              refuse exit_runtime "reconcile" r (value (or_projection (get_run w.store r) p).state)
                (iteration_failed e) (advice "inspect controller logs and retry status/reconcile")),
          w,
        ))
        (Lawful-log env.clock r "run.controller_error" "controller iteration failed"
          (field "error_type" (text (env.type_name e)) end))
        (λ w. Reached-refl w.store)

  Lawful-projected :
      (r : String) (p : RunProjection)
      → Lawful
          (reconcile_projection env r >>= λ q. report_on env "reconcile" none (or_projection q p))
  Lawful-projected r p =
      Lawful-bind (reconcile_projection env r)
        (λ q. report_on env "reconcile" none (or_projection q p)) (Lawful-reconcile_projection r)
        (λ q. Lawful-report_on "reconcile" none (or_projection q p))

  Lawful-iteration :
      (r : String) (p : RunProjection) (spec : Option RunSpec)
      (tick : Option (Bool → Reply (Option ExecutionEvidence))) (dispatch : Bool)
      → Lawful (iteration env r p spec tick dispatch)
  unfolding iteration
  Lawful-iteration r p (some spec) (some tick) dispatch =
      let step = iterate env tick dispatch spec in
      let tell : Action ServiceResult =
        λ w. report_on env "reconcile" none (or_projection (get_run w.store r) p) w in
      Lawful-attempt (step >> tell) (iteration_fault env r p)
        (Lawful-then step tell (Lawful-iterate tick dispatch spec)
          (λ w. Lawful-report_on "reconcile" none (or_projection (get_run w.store r) p) w))
        (Lawful-iteration_fault r p)
  Lawful-iteration r p none tick dispatch = Lawful-projected r p
  Lawful-iteration r p (some spec) none dispatch = Lawful-projected r p

  pub Lawful-reconcile : (r : String) (dispatch : Bool) → Lawful (reconcile env r dispatch)
  unfolding reconcile
  Lawful-reconcile r dispatch =
      let missing = refuse exit_invalid "reconcile" r "unknown" (unknown_run_id r) no_remedy in
      let step : RunProjection → Action ServiceResult =
        λ p w. iteration env r p (get_spec w.store r) env.orch.tick dispatch w in
      let tell = report_on env "reconcile" none in
      Lawful-option (λ w. get_run w.store r) (pure missing)
        (λ p w. if is_over p.state then tell p w else step p w) (Lawful-pure missing)
        (λ p.
          Lawful-if (λ _. is_over p.state) (tell p) (step p) (Lawful-report_on "reconcile" none p)
            (λ w. Lawful-iteration r p (get_spec w.store r) env.orch.tick dispatch w))
