-- ===== src/Service/Submitted.antt =====
-- src/hca/service.py: the methods that create, answer, recover and collect a run write through its
-- calls.
use hermes_concurrent_agents.Common.{
  suc, ◌+◌, String, ◌≡◌, refl, ap, subst, Bool, true, false, Option, none, some, arith,
  if◌then◌else◌, ◌==◌, nat_eq, string_eq, or_else,
}
use hermes_concurrent_agents.Run.State.{
  RunState, queued, planning, running, needs_input, blocked, failed, run_state_eq,
}
use hermes_concurrent_agents.Run.Spec.{RunSpec}
use hermes_concurrent_agents.Common.Json.{end}
use hermes_concurrent_agents.Run.Store.{ok, Store, RunProjection, get_run, create_run}
use hermes_concurrent_agents.Team.{TeamSpec}
use hermes_concurrent_agents.Service.Effects.{
  Env, Exit, returned, raised, Done, Fault, World, Action, Reply, ◌>>=◌, ◌>>◌, pure, attempt,
  consult, from_now, committed, move, log,
}
use hermes_concurrent_agents.Service.Results.{ServiceResult, advice}
use hermes_concurrent_agents.Service.Halt.{observe}
use hermes_concurrent_agents.Service.Follow.{report_on, reflect_evidence, ensure_controller}
use hermes_concurrent_agents.Service.Submit.{
  Site, RunRequest, Admission, refused, replayed, admitted, admission, spec_of,
}
use hermes_concurrent_agents.Service.Drive.{
  wait_for_input, block_planned, detached, executed, follow_plan, drive, fault_text, drive_fault,
  launch, run,
}
use hermes_concurrent_agents.Service.Writes.{
  Reached, Reached-refl, Lawful, Lawful-bind, Lawful-then, Lawful-attempt, Lawful-pure,
  Lawful-consult, Lawful-move, Lawful-log, Lawful-create,
}
use hermes_concurrent_agents.Service.Choices.{Lawful-if, Lawful-option}
use hermes_concurrent_agents.Service.Lawful.{Lawful-observe}
use hermes_concurrent_agents.Service.Hoare.{after-bind}
use hermes_concurrent_agents.Service.Served.{Lawful-report_on, Lawful-reflect_evidence}
use hermes_concurrent_agents.Service.Launches.{Lawful-ensure_controller}

raised_apart :
    (x y : Exit RunProjection × World) (e : Fault) (a : RunProjection)
    → x ≡ y
    → x.0 ≡ raised e
    → y.0 ≡ returned a
    → ⊥
raised_apart x y e a c l r = ground arith

module _ (env : Env) where
  module _ (site : Site) where
    Lawful-wait_for_input : (spec : RunSpec) → Lawful (wait_for_input env site spec)
    unfolding wait_for_input
    Lawful-wait_for_input spec =
        let closed =
          move env.clock spec.run_id failed
            "input_policy=fail_closed rejected planner input request" in
        let wait = move env.clock spec.run_id needs_input "planner needs input" in
        Lawful-then (if spec.input_policy == "fail_closed" then closed else wait)
          (pure {A = Done} tt) (go (spec.input_policy == "fail_closed")) (Lawful-pure {A = Done} tt)
      where
        go :
            (b : Bool)
            → Lawful (
                if b
                then move env.clock spec.run_id failed
                    "input_policy=fail_closed rejected planner input request"
                else move env.clock spec.run_id needs_input "planner needs input")
        go true =
            Lawful-move env.clock spec.run_id failed
              "input_policy=fail_closed rejected planner input request"
        go false = Lawful-move env.clock spec.run_id needs_input "planner needs input"

    Lawful-block_planned : (spec : RunSpec) → Lawful (block_planned env site spec)
    unfolding block_planned
    Lawful-block_planned spec =
        let why : RunProjection → String =
          λ p. or_else p.reason "planner produced no dispatchable graph" in
        let block : RunProjection → Action Done =
          λ p. move env.clock spec.run_id blocked (why p) >> pure tt in
        Lawful-option (λ w. get_run w.store spec.run_id) (pure {A = Done} tt)
          (λ p w. if p.state == blocked then (returned tt, w) else block p w)
          (Lawful-pure {A = Done} tt)
          (λ p.
            Lawful-if (λ _. p.state == blocked) (pure {A = Done} tt) (block p)
              (Lawful-pure {A = Done} tt)
              (Lawful-then (move env.clock spec.run_id blocked (why p)) (pure {A = Done} tt)
                (Lawful-move env.clock spec.run_id blocked (why p)) (Lawful-pure {A = Done} tt)))

    Lawful-detached :
        (spec : RunSpec) (start : Option (Reply Done)) → Lawful (detached env site spec start)
    unfolding detached
    Lawful-detached spec none =
        let why : String =
          "selected execution backend cannot detach safely; run without --detach or configure the Kanban backend" in
        Lawful-then (move env.clock spec.run_id blocked why) (pure {A = Done} tt)
          (Lawful-move env.clock spec.run_id blocked why) (Lawful-pure {A = Done} tt)
    Lawful-detached spec (some start) =
        let why : String = "detached after initial admitted dispatch wave" in
        let ensure = ensure_controller env spec.run_id true in
        let note = log env.clock spec.run_id "run.detached" "detached controller requested" end in
        Lawful-then (move env.clock spec.run_id running why)
          (consult start spec >> (note >> (ensure >> pure {A = Done} tt)))
          (Lawful-move env.clock spec.run_id running why)
          (Lawful-then (consult start spec) (note >> (ensure >> pure {A = Done} tt))
            (Lawful-consult start spec)
            (Lawful-then note (ensure >> pure {A = Done} tt)
              (Lawful-log env.clock spec.run_id "run.detached" "detached controller requested" end)
              (Lawful-then ensure (pure {A = Done} tt)
                (Lawful-ensure_controller env spec.run_id true) (Lawful-pure {A = Done} tt))))

    Lawful-executed : (spec : RunSpec) → Lawful (executed env site spec)
    unfolding executed
    Lawful-executed spec =
        Lawful-bind (consult env.orch.execute spec) (reflect_evidence env spec)
          (Lawful-consult env.orch.execute spec) (Lawful-reflect_evidence env spec)

    Lawful-follow_plan :
        (spec : RunSpec) (detach : Bool) (st : RunState)
        → Lawful (follow_plan env site spec detach st)
    unfolding follow_plan
    Lawful-follow_plan spec detach needs_input = Lawful-wait_for_input spec
    Lawful-follow_plan spec detach blocked = Lawful-block_planned spec
    Lawful-follow_plan spec true _ = Lawful-detached spec env.orch.start
    Lawful-follow_plan spec false _ = Lawful-executed spec

    Lawful-drive : (spec : RunSpec) (detach : Bool) → Lawful (drive env site spec detach)
    unfolding drive
    Lawful-drive spec detach =
        let follow = follow_plan env site spec detach in
        Lawful-then (move env.clock spec.run_id planning "planning")
          (consult env.orch.plan spec >>= follow)
          (Lawful-move env.clock spec.run_id planning "planning")
          (Lawful-bind (consult env.orch.plan spec) follow (Lawful-consult env.orch.plan spec)
            (Lawful-follow_plan spec detach))

    abbrev after_create : RunSpec → TeamSpec → Bool → Action ServiceResult
    after_create spec team detach =
        log env.clock spec.run_id "run.team" (site.team_line team) end
        >> (attempt (drive env site spec detach) (drive_fault env site spec.run_id)
            >> observe env "run" none (advice "inspect HCA state integrity before retrying")
                spec.run_id)

    Lawful-drive_fault : (r : String) (e : Fault) → Lawful (drive_fault env site r e)
    unfolding drive_fault
    Lawful-drive_fault r e =
        let why = fault_text env site e in
        Lawful-then (move env.clock r failed why) (pure {A = Done} tt)
          (Lawful-move env.clock r failed why) (Lawful-pure {A = Done} tt)

    Lawful-after_create :
        (spec : RunSpec) (team : TeamSpec) (detach : Bool) → Lawful (after_create spec team detach)
    Lawful-after_create spec team detach =
        let note = log env.clock spec.run_id "run.team" (site.team_line team) end in
        let go = drive env site spec detach in
        let fail = drive_fault env site spec.run_id in
        let lost = advice "inspect HCA state integrity before retrying" in
        let tell = observe env "run" none lost spec.run_id in
        Lawful-then note (attempt go fail >> tell)
          (Lawful-log env.clock spec.run_id "run.team" (site.team_line team) end)
          (Lawful-then (attempt go fail) tell
            (Lawful-attempt go fail (Lawful-drive spec detach) (Lawful-drive_fault spec.run_id))
            (Lawful-observe env "run" none lost spec.run_id))

    pub Lawful-launch :
        (spec : RunSpec) (team : TeamSpec) (detach : Bool)
        → Lawful (launch env site spec team detach)
    unfolding launch
    Lawful-launch spec team detach =
        let create : Action RunProjection = λ w.
          committed env.clock w 2
            (create_run w.store spec queued (from_now env.clock w 0) (from_now env.clock w 1)) in
        Lawful-then create (after_create spec team detach) (Lawful-create env.clock spec)
          (Lawful-after_create spec team detach)

    -- After the creation, the launch goes on from the store that has the run.
    pub Reached-launch :
        (spec : RunSpec) (team : TeamSpec) (detach : Bool) (w : World) (t : Store)
        (p : RunProjection)
        → create_run w.store spec queued (from_now env.clock w 0) (from_now env.clock w 1)
          ≡ ok (p, t)
        → Reached t (launch env site spec team detach w).1.store
    unfolding launch
    Reached-launch spec team detach w t p h =
        after-bind (λ x. x ≡ (returned p, record { store = t; reads = w.reads + 2 }))
          (λ x. Reached t x.1.store)
          (λ v.
            committed env.clock v 2
              (create_run v.store spec queued (from_now env.clock v 0) (from_now env.clock v 1)))
          (λ _. after_create spec team detach) w (ap (committed env.clock w 2) h)
          (λ a v e.
            subst (λ u. Reached u (after_create spec team detach v).1.store) (ap (λ x. x.1.store) e)
              (Lawful-after_create spec team detach v))
          (λ e v c. absurd (raised_apart _ _ e p c refl refl))

    pub Lawful-run : (q : RunRequest) (fresh : String) → Lawful (run env site q fresh)
    unfolding run
    Lawful-run q fresh w = go (admission site q w.store)
      where
        go :
            (a : Admission)
            → Reached w.store
                (elim a as (λ _. Exit ServiceResult × World) [
                  | refused res ↦ (returned res, w)
                  | replayed p message ↦ report_on env "run" message p w
                  | admitted team budgets ↦
                      launch env site
                        (spec_of site.config q budgets fresh (from_now env.clock w 0))
                        team
                        q.detach
                        (record w { reads = suc w.reads })
                ]).1.store
        go (refused res) = Reached-refl w.store
        go (replayed p message) = Lawful-report_on env "run" message p w
        go (admitted team budgets) =
            Lawful-launch (spec_of site.config q budgets fresh (from_now env.clock w 0)) team
              q.detach (record w { reads = suc w.reads })
