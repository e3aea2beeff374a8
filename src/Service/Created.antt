-- ===== src/Service/Created.antt =====
-- src/hca/service.py: which submissions to `run` create a run.
use hermes_concurrent_agents.Common.{
  suc, String, ◌≡◌, refl, sym, ap, subst, ◌∙◌, ◌↔◌, none, some, nat_eq, string_eq,
}
use hermes_concurrent_agents.Run.State.{queued}
use hermes_concurrent_agents.Run.Spec.{RunBudgets}
use hermes_concurrent_agents.Run.Store.{
  RunRow, RunProjection, get_run, map_option, row_to_proj, new_row,
}
use hermes_concurrent_agents.Run.Store.Specs.{run_calls-SameOrder, same_order_self, created_row}
use hermes_concurrent_agents.Team.{TeamSpec}
use hermes_concurrent_agents.Service.Effects.{Env, World, from_now}
use hermes_concurrent_agents.Service.Follow.{report_on}
use hermes_concurrent_agents.Service.Submit.{
  Site, RunRequest, Admission, refused, replayed, admitted, admission, spec_of,
}
use hermes_concurrent_agents.Service.Drive.{run}
use hermes_concurrent_agents.Service.Writes.{Reached}
use hermes_concurrent_agents.Service.Submitted.{Reached-launch}
use hermes_concurrent_agents.Service.Once.{run-admitted}
use hermes_concurrent_agents.Service.Replays.{fresh_creates}
use hermes_concurrent_agents.Service.Admitted.{admission_iff}
use hermes_concurrent_agents.Service.Budgets.{asked_budgets}
use hermes_concurrent_agents.Service.Conditions.{New, Sound, Fresh-New, Passed-Sound, Sound-Passed}

module _ (env : Env) (site : Site) where
  -- The run that an admitted submission creates is in the store when it returns or raises.
  admitted-Creates :
      (q : RunRequest) (fresh : String) (w : World) (team : TeamSpec) (budgets : RunBudgets)
      → get_run w.store fresh ≡ none
      → admission site q w.store ≡ admitted team budgets
      → (p : RunProjection) × (get_run (run env site q fresh w).1.store fresh ≡ some p)
  unfolding spec_of
  admitted-Creates q fresh w team budgets new h =
      let spec = spec_of site.config q budgets fresh (from_now env.clock w 0) in
      let w' : World = record w { reads = suc w.reads } in
      let after = (run env site q fresh w).1 in
      let now = from_now env.clock w' 0 in
      let (p, t, created) = fresh_creates w.store spec now (from_now env.clock w' 1) new in
      let (cs, e) : Reached t after.store =
        subst (λ x. Reached t x.1.store) (sym (run-admitted env site q fresh w team budgets h))
          (Reached-launch env site spec team q.detach w' t p created) in
      let x : RunRow = new_row spec queued now in
      let (z, here, k) =
        run_calls-SameOrder t cs fresh x x
          (created_row w.store t spec now (from_now env.clock w' 1) p created)
          (same_order_self x) in
      (
        row_to_proj z,
        ap (λ s. get_run s fresh) e ∙ (unfold get_run in ap (map_option row_to_proj) here),
      )

  -- A submission that is refused or replayed writes nothing.
  created-Admitted :
      (q : RunRequest) (fresh : String) (w : World)
      → get_run w.store fresh ≡ none
      → (p : RunProjection) × (get_run (run env site q fresh w).1.store fresh ≡ some p)
      → (team : TeamSpec) × (budgets : RunBudgets) × (admission site q w.store
          ≡ admitted team budgets)
  unfolding run report_on
  created-Admitted q fresh w new (p, there) = go (admission site q w.store) refl
    where
      go :
          (a : Admission)
          → admission site q w.store ≡ a
          → (team : TeamSpec) × (budgets : RunBudgets) × (admission site q w.store
              ≡ admitted team budgets)
      go (admitted team budgets) e = (team, budgets, e)
      go (refused res) e = cc (new, rw (e, run) at there)
      go (replayed r message) e = cc (new, rw (e, run) at there)

  -- Under a fresh identifier a submission creates a run, whatever the backend does with it then, exactly
  -- if the service runs on the board's host, nothing is resumed, the goal has a text, independent criteria
  -- are two at least, the key is empty or new, and the arguments are sound: a known input policy, a
  -- template for the team, known budgets that are no negative numbers, and one worker, or more within the
  -- limits of the template, of the budget of workers asked for or 4, and of the configuration.
  pub created_iff :
      (q : RunRequest) (fresh : String) (w : World)
      → get_run w.store fresh ≡ none
      → ((p : RunProjection) × (get_run (run env site q fresh w).1.store fresh ≡ some p))
        ↔ (New site q w.store × Sound site q)
  created_iff q fresh w new = (
    λ there.
        let (team, budgets, h) = created-Admitted q fresh w new there in
        let (start, passed) = (admission_iff site q w.store team budgets).0 h in
        ((Fresh-New site q w.store).0 start, Passed-Sound site q team budgets passed),
    λ good.
        let (team, passed) = Sound-Passed site q good.1 in
        admitted-Creates q fresh w team (asked_budgets q.budgets) new (
          (admission_iff site q w.store team (asked_budgets q.budgets)).1
            ((Fresh-New site q w.store).1 good.0, passed)),
  )
