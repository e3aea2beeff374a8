-- ===== src/Service/Completes.antt =====
-- src/hca/service.py: what a submission with an honest backend comes to.
use hermes_concurrent_agents.Common.{
  ℕ, suc, String, ◌≡◌, refl, sym, ap, subst, ◌∙◌, ◌↔◌, ◌⊎◌, inl, inr, true, false, none, some,
  arith, nat_eq, string_eq,
}
use hermes_concurrent_agents.Run.State.{
  RunState, queued, planning, completed, value, value_inj, run_state_eq, can_transition,
}
use hermes_concurrent_agents.Run.Spec.{RunBudgets, RunSpec}
use hermes_concurrent_agents.Common.Json.{end}
use hermes_concurrent_agents.Evidence.{ExecutionEvidence, derive_final_state}
use hermes_concurrent_agents.Evidence.Completion.{Supports}
use hermes_concurrent_agents.Run.Store.{
  Store, ok, RunProjection, get_run, map_option, row_to_proj, new_row, create_run,
}
use hermes_concurrent_agents.Run.Store.Lifecycle.{run_calls}
use hermes_concurrent_agents.Run.Store.Writes.{get_run_of_row}
use hermes_concurrent_agents.Run.Store.Specs.{created_row}
use hermes_concurrent_agents.Team.{TeamSpec}
use hermes_concurrent_agents.Service.{has_review}
use hermes_concurrent_agents.Service.Settle.{settled, finishes}
use hermes_concurrent_agents.Service.Moves.{run_state}
use hermes_concurrent_agents.Service.Reconcile.{reconcile-run_state, reconciled_iff}
use hermes_concurrent_agents.Service.Effects.{
  Env, Exit, returned, raised, Done, Fault, World, Reply, ◌>>=◌, ◌>>◌, attempt, consult, from_now,
  committed, move, log,
}
use hermes_concurrent_agents.Service.Results.{ServiceResult, advice}
use hermes_concurrent_agents.Service.Halt.{observe}
use hermes_concurrent_agents.Service.Hoare.{
  after-bind, after-attempt, Stays, Moved, Shows, Moved-by, Stays-log, Shows-observe,
}
use hermes_concurrent_agents.Service.Follow.{reflect_evidence}
use hermes_concurrent_agents.Service.Submit.{Site, RunRequest, admitted, admission, spec_of}
use hermes_concurrent_agents.Service.Drive.{executed, follow_plan, drive, drive_fault, launch, run}
use hermes_concurrent_agents.Service.Once.{run-admitted}
use hermes_concurrent_agents.Service.Replays.{fresh_creates}

-- A backend method that returns the value and leaves the state of the run to the service.
abbrev pub Honest {ℓ} : {A : Type ℓ} → RunSpec → Reply A → A → Type ℓ
Honest spec f a =
    (s : Store)
    → ((f spec s).0 ≡ returned a)
      × (run_state (run_calls s (f spec s).1) spec.run_id ≡ run_state s spec.run_id)

-- The consultation of an honest method returns its value, and the run stays where it is.
abbrev Consulted {ℓ} : {A : Type ℓ} → String → RunState → A → Exit A × World → Type ℓ
Consulted r st a (x, w) = (x ≡ returned a) × (run_state w.store r ≡ some st)

consulted {ℓ} :
    {A : Type ℓ} (spec : RunSpec) (f : Reply A) (a : A) (st : RunState) (w : World)
    → Honest spec f a
    → run_state w.store spec.run_id ≡ some st
    → Consulted spec.run_id st a (consult f spec w)
consulted spec f a st w honest h = ((honest w.store).0, (honest w.store).1 ∙ h)

-- The run is in a state that is completed exactly if the evidence supports it.
abbrev Settled {ℓ} : {A : Type ℓ} → RunSpec → ExecutionEvidence → Exit A × World → Type 0
Settled spec ev (raised e, w) = ⊥
Settled spec ev (returned a, w) =
    (st : RunState) × (run_state w.store spec.run_id ≡ some st)
    × ((st ≡ completed) ↔ Supports spec ev)

-- The result says that the run is completed exactly if the evidence supports it.
abbrev pub SaysSo : RunSpec → ExecutionEvidence → Exit ServiceResult × World → Type 0
SaysSo spec ev (raised e, w) = ⊥
SaysSo spec ev (returned res, w) =
    ((res.state ≡ "completed") ↔ Supports spec ev)
    × ((run_state w.store spec.run_id ≡ some completed) ↔ Supports spec ev)

created_queued :
    (s t : Store) (spec : RunSpec) (now ts : ℕ) (q : RunProjection)
    → create_run s spec queued now ts ≡ ok (q, t)
    → run_state t spec.run_id ≡ some queued
created_queued s t spec now ts q h =
    ap (map_option (λ p. p.state)) (get_run_of_row t spec.run_id (created_row s t spec now ts q h))
    ∙ (unfold new_row row_to_proj in refl)

queued_plans : can_transition queued planning ≡ true
unfolding can_transition
queued_plans = refl

returned_inj {ℓ} : {A : Type ℓ} (a b : A) → returned a ≡ returned b → a ≡ b
returned_inj a b e = cc

raised_apart {ℓ} : {A : Type ℓ} (e : Fault) (a : A) → raised e ≡ returned a → ⊥
raised_apart e a c = ground arith

some_inj : {a b : RunState} → some a ≡ some b → a ≡ b
some_inj {a} {b} e = cc

says-of_Settled :
    (spec : RunSpec) (ev : ExecutionEvidence) (st : RunState) (x : Exit ServiceResult × World)
    → ((st ≡ completed) ↔ Supports spec ev)
    → Shows "run" spec.run_id st x
    → SaysSo spec ev x
unfolding value
says-of_Settled spec ev st (raised e, w) iff h = absurd h
says-of_Settled spec ev st (returned res, w) iff (_, _, told, at) = (
  (λ e. iff.0 (value_inj st completed (sym told ∙ e)), λ good. told ∙ ap value (iff.1 good)),
  (λ e. iff.0 (some_inj (sym at ∙ e)), λ good. at ∙ ap some (iff.1 good)),
)

module _ (env : Env) (site : Site) where
  Settled-reflect_evidence :
      (spec : RunSpec) (ev : ExecutionEvidence) (w : World)
      → run_state w.store spec.run_id ≡ some planning
      → Settled {A = Done} spec ev (reflect_evidence env spec ev w)
  unfolding reflect_evidence
  Settled-reflect_evidence spec ev w h =
      let reached =
        reconcile-run_state env.render w.store spec ev (from_now env.clock w)
        ∙ ap (map_option (settled (has_review ev) (derive_final_state spec ev).0)) h in
      let iff = reconciled_iff env.render w.store spec ev (from_now env.clock w) planning h in
      let st = settled (has_review ev) (derive_final_state spec ev).0 planning in
      let into : st ≡ completed → Supports spec ev = λ e. supported (iff.0 (reached ∙ ap some e)) in
      let back : Supports spec ev → st ≡ completed =
        λ good. some_inj (sym reached ∙ iff.1 (inr (good, refl))) in
      (st, reached, (into, back))
    where
      supported :
          ((planning ≡ completed) ⊎ (Supports spec ev × (finishes (has_review ev) planning ≡ true)))
          → Supports spec ev
      supported (inl never) = cc
      supported (inr (good, _)) = good

  Settled-drive :
      (spec : RunSpec) (ev : ExecutionEvidence) (w : World)
      → Honest spec env.orch.plan planning
      → Honest spec env.orch.execute ev
      → run_state w.store spec.run_id ≡ some queued
      → Settled {A = Done} spec ev (drive env site spec false w)
  unfolding drive follow_plan executed
  Settled-drive spec ev w plans executes h =
      let follow = follow_plan env site spec false in
      let reflect = reflect_evidence env spec in
      after-bind (Moved spec.run_id queued planning) (Settled {A = Done} spec ev)
        (move env.clock spec.run_id planning "planning")
        (λ _. consult env.orch.plan spec >>= follow) w
        (Moved-by env.clock spec.run_id queued planning "planning" w h)
        (λ _ v (_, at).
          after-bind (Consulted spec.run_id planning planning) (Settled {A = Done} spec ev)
            (consult env.orch.plan spec) follow v
            (consulted spec env.orch.plan planning planning v plans at)
            (λ st u (e, now).
              subst (λ x. Settled {A = Done} spec ev (follow x u))
                (sym (returned_inj st planning e))
                (after-bind (Consulted spec.run_id planning ev) (Settled {A = Done} spec ev)
                  (consult env.orch.execute spec) reflect u
                  (consulted spec env.orch.execute ev planning u executes now)
                  (λ ev' t (e', here).
                    subst (λ x. Settled {A = Done} spec ev (reflect x t))
                      (sym (returned_inj ev' ev e')) (Settled-reflect_evidence spec ev t here))
                  (λ f t (bad, _). absurd (raised_apart f ev bad))))
            (λ f u (bad, _). absurd (raised_apart f planning bad)))
        (λ f v (bad, _, _). cc (bad, queued_plans))

  says-launch :
      (spec : RunSpec) (ev : ExecutionEvidence) (team : TeamSpec) (w : World)
      → Honest spec env.orch.plan planning
      → Honest spec env.orch.execute ev
      → get_run w.store spec.run_id ≡ none
      → SaysSo spec ev (launch env site spec team false w)
  unfolding launch
  says-launch spec ev team w plans executes new =
      let r = spec.run_id in
      let (p, t, created) =
        fresh_creates w.store spec (from_now env.clock w 0) (from_now env.clock w 1) new in
      let note = log env.clock r "run.team" (site.team_line team) end in
      let go = drive env site spec false in
      let fail = drive_fault env site r in
      let lost = advice "inspect HCA state integrity before retrying" in
      let tell = observe env "run" none lost r in
      after-bind (Stays r queued) (SaysSo spec ev)
        (λ v.
          committed env.clock v 2
            (create_run v.store spec queued (from_now env.clock v 0) (from_now env.clock v 1)))
        (λ _. note >> (attempt go fail >> tell)) w
        (subst (λ x. Stays r queued (committed env.clock w 2 x)) (sym created)
          (created_queued w.store t spec (from_now env.clock w 0) (from_now env.clock w 1) p
            created))
        (λ _ v at.
          after-bind (Stays r queued) (SaysSo spec ev) note (λ _. attempt go fail >> tell) v
            (Stays-log env.clock r "run.team" (site.team_line team) end queued v at)
            (λ _ u now.
              after-bind (Settled {A = Done} spec ev) (SaysSo spec ev) (attempt go fail) (λ _. tell)
                u
                (after-attempt (Settled {A = Done} spec ev) (Settled {A = Done} spec ev) go fail u
                  (Settled-drive spec ev u plans executes now) (λ _ x good. good)
                  (λ e x bad. absurd bad))
                (λ _ x (st, here, iff).
                  says-of_Settled spec ev st _ iff (Shows-observe env "run" none lost r st x here))
                (λ e x bad. absurd bad))
            (λ e u bad. absurd bad))
        (λ e v bad. absurd bad)

  -- With a backend that plans and executes without moving the run itself, an admitted submission that is
  -- not detached returns a result that says completed, and leaves the run completed, exactly if the
  -- evidence of the execution supports completion.
  pub submitted_completes :
      (q : RunRequest) (fresh : String) (w : World) (team : TeamSpec) (budgets : RunBudgets)
      (ev : ExecutionEvidence)
      → admission site q w.store ≡ admitted team budgets
      → get_run w.store fresh ≡ none
      → q.detach ≡ false
      → Honest (spec_of site.config q budgets fresh (from_now env.clock w 0)) env.orch.plan planning
      → Honest (spec_of site.config q budgets fresh (from_now env.clock w 0)) env.orch.execute ev
      → SaysSo
          (spec_of site.config q budgets fresh (from_now env.clock w 0))
          ev
          (run env site q fresh w)
  unfolding spec_of
  submitted_completes q fresh w team budgets ev h new attached plans executes =
      let spec = spec_of site.config q budgets fresh (from_now env.clock w 0) in
      let w' : World = record w { reads = suc w.reads } in
      subst (SaysSo spec ev)
        (sym (
          run-admitted env site q fresh w team budgets h
          ∙ ap (λ d. launch env site spec team d w') attached))
        (says-launch spec ev team w' plans executes new)
