-- ===== src/Service/Drive.antt =====
-- src/hca/service.py: `FleetService.run` from the creation of the run to its result. The text of the
-- event on the team is an argument.
use hermes_concurrent_agents.Common.{
  suc, String, Bool, true, false, Option, none, some, if◌then◌else◌, ◌==◌, nat_eq, string_eq,
  or_else,
}
use hermes_concurrent_agents.Common.Json.{end}
use hermes_concurrent_agents.Run.State.{
  RunState, queued, planning, running, needs_input, blocked, failed, run_state_eq,
}
use hermes_concurrent_agents.Run.Spec.{RunSpec}
use hermes_concurrent_agents.Run.Store.{get_run, create_run}
use hermes_concurrent_agents.Team.{TeamSpec}
use hermes_concurrent_agents.Service.Effects.{
  Env, returned, Done, Fault, run_state_error, Action, Reply, ◌>>=◌, ◌>>◌, pure, attempt, consult,
  from_now, committed, move, log,
}
use hermes_concurrent_agents.Service.Results.{ServiceResult, advice}
use hermes_concurrent_agents.Service.Halt.{observe}
use hermes_concurrent_agents.Service.Follow.{report_on, reflect_evidence, ensure_controller}
use hermes_concurrent_agents.Service.Submit.{
  Site, RunRequest, refused, replayed, admitted, admission, spec_of,
}
use Prim.Native.String.{◌++◌ as append}

module _ (env : Env) (site : Site) where
  -- A planner that needs input has the run wait, unless the run does not allow input.
  unfoldable pub wait_for_input : RunSpec → Action Done
  wait_for_input spec =
      (if spec.input_policy == "fail_closed"
        then move env.clock spec.run_id failed
            "input_policy=fail_closed rejected planner input request"
        else move env.clock spec.run_id needs_input "planner needs input")
      >> pure tt

  unfoldable pub block_planned : RunSpec → Action Done
  block_planned spec w = elim (get_run w.store spec.run_id) [
    | none ↦ (returned tt, w)
    | some p ↦
        if p.state == blocked
        then (returned tt, w)
        else (move env.clock spec.run_id blocked
                (or_else p.reason "planner produced no dispatchable graph")
              >> pure tt)
            w
  ]

  unfoldable pub detached : RunSpec → Option (Reply Done) → Action Done
  unfolding ensure_controller
  detached spec none =
      move env.clock spec.run_id blocked
        "selected execution backend cannot detach safely; run without --detach or configure the Kanban backend"
      >> pure tt
  detached spec (some start) =
      move env.clock spec.run_id running "detached after initial admitted dispatch wave"
      >> (consult start spec
          >> (log env.clock spec.run_id "run.detached" "detached controller requested" end
              >> (ensure_controller env spec.run_id true >> pure tt)))

  unfoldable pub executed : RunSpec → Action Done
  unfolding reflect_evidence
  executed spec = consult env.orch.execute spec >>= reflect_evidence env spec

  unfoldable pub follow_plan : RunSpec → Bool → RunState → Action Done
  unfolding wait_for_input block_planned detached executed
  follow_plan spec detach needs_input = wait_for_input spec
  follow_plan spec detach blocked = block_planned spec
  follow_plan spec true _ = detached spec env.orch.start
  follow_plan spec false _ = executed spec

  unfoldable pub drive : RunSpec → Bool → Action Done
  unfolding follow_plan
  drive spec detach =
      move env.clock spec.run_id planning "planning"
      >> (consult env.orch.plan spec >>= follow_plan spec detach)

  abbrev pub fault_text : Fault → String
  fault_text (run_state_error e) = env.describe (run_state_error e)
  fault_text e = append "orchestrator error: " (env.describe e)

  unfoldable pub drive_fault : String → Fault → Action Done
  drive_fault run_id e = move env.clock run_id failed (fault_text e) >> pure tt

  -- A new run, from its creation to its result.
  unfoldable pub launch : RunSpec → TeamSpec → Bool → Action ServiceResult
  unfolding drive drive_fault observe
  launch spec team detach =
      (λ w.
        committed env.clock w 2
          (create_run w.store spec queued (from_now env.clock w 0) (from_now env.clock w 1)))
      >> (log env.clock spec.run_id "run.team" (site.team_line team) end
          >> (attempt (drive spec detach) (drive_fault spec.run_id)
              >> observe env "run" none (advice "inspect HCA state integrity before retrying")
                  spec.run_id))

  unfoldable pub run : RunRequest → String → Action ServiceResult
  unfolding admission report_on launch spec_of
  run q fresh w = elim (admission site q w.store) [
    | refused res ↦ (returned res, w)
    | replayed p message ↦ report_on env "run" message p w
    | admitted team budgets ↦
        launch (spec_of site.config q budgets fresh (from_now env.clock w 0)) team q.detach
          (record w { reads = suc w.reads })
  ]
