-- ===== src/Service/Reconcile.antt =====
-- src/hca/service.py: the reconciliation of a run with its evidence, through its single moves.
use hermes_concurrent_agents.Common.{
  ℕ, String, ◌≡◌, refl, sym, ap, subst, ◌∙◌, ◌↔◌, ◌⊎◌, inl, inr, Bool, true, false, Option, none,
  some, if◌then◌else◌, ◌==◌, nat_eq, string_eq, Bool-cases,
}
use hermes_concurrent_agents.Run.State.{
  RunState, planning, running, needs_input, review, completed, blocked, failed, value-eq_iff,
  run_state_eq, can_transition,
}
use hermes_concurrent_agents.Run.Spec.{RunSpec}
use hermes_concurrent_agents.Evidence.{ExecutionEvidence, Reason, derive_final_state}
use hermes_concurrent_agents.Run.Store.{
  Store, RunProjection, get_run, set_state, append_event, map_option,
}
use hermes_concurrent_agents.Run.Machine.{is_final}
use hermes_concurrent_agents.Run.Store.Lifecycle.{after}
use hermes_concurrent_agents.Service.{
  safe_set, leave_planning, has_review, reflect, log_evidence, reconcile_from_evidence,
}
use hermes_concurrent_agents.Evidence.Completion.{Supports, completed_iff}
use hermes_concurrent_agents.Service.Settle.{
  attempted, reflected, settled, finishes, attempted_other, settled_iff, settled-is_final,
}
use hermes_concurrent_agents.Service.Moves.{
  run_state, moved_to, set_state-run_state, safe_set-run_state,
}

map_map :
    (f g : RunState → RunState) (o : Option RunState)
    → map_option f (map_option g o) ≡ map_option (λ x. f (g x)) o
map_map f g none = refl
map_map f g (some x) = refl

leave_planning-found :
    (s : Store) (r : String) (now ts : ℕ) (p : RunProjection)
    → get_run s r ≡ some p
    → leave_planning s r now ts ≡ (
        if p.state == planning
        then after s (set_state s r running "executing on kanban" now ts)
        else s)
unfolding leave_planning
leave_planning-found s r now ts p e = rw (e, leave_planning) refl

leave_planning-missing :
    (s : Store) (r : String) (now ts : ℕ) → get_run s r ≡ none → leave_planning s r now ts ≡ s
unfolding leave_planning
leave_planning-missing s r now ts e = rw (e, leave_planning) refl

planning_runs : can_transition planning running ≡ true
unfolding can_transition
planning_runs = refl

leave_planning-run_state :
    (s : Store) (r : String) (now ts : ℕ)
    → run_state (leave_planning s r now ts) r ≡ map_option attempted (run_state s r)
leave_planning-run_state s r now ts = go (get_run s r) refl
  where
    go :
        (o : Option RunProjection)
        → get_run s r ≡ o
        → run_state (leave_planning s r now ts) r ≡ map_option attempted (run_state s r)
    go none e = rw (leave_planning-missing s r now ts e) (rw e refl)
    go (some p) e =
        let at : run_state s r ≡ some p.state = ap (λ o. map_option (λ q. q.state) o) e in
        subst (λ t. run_state t r ≡ map_option attempted (run_state s r))
          (sym (leave_planning-found s r now ts p e))
          (elim (Bool-cases (p.state == planning)) [
            | inl plan ↦
                let is_planning = (value-eq_iff p.state planning).0 plan in
                rw plan (
                  set_state-run_state s r p running "executing on kanban" now ts e
                    (subst (λ st. can_transition st running ≡ true) (sym is_planning) planning_runs)
                  ∙ sym (ap (map_option attempted) (at ∙ ap some is_planning)))
            | inr other ↦
                rw other (
                  at ∙ sym (ap (map_option attempted) at ∙ ap some (attempted_other p.state other)))
          ])

reflect-run_state :
    (s : Store) (r : String) (reviewed : Bool) (final : RunState) (reason : String) (clock : ℕ → ℕ)
    → run_state (reflect s r reviewed final reason clock) r
      ≡ map_option (reflected reviewed final) (run_state s r)
unfolding reflect
reflect-run_state s r true completed reason clock =
    safe_set-run_state (safe_set s r review "verifying" (clock 3) (clock 4)) r completed reason
      (clock 5) (clock 6)
    ∙ (ap (map_option (moved_to completed))
          (safe_set-run_state s r review "verifying" (clock 3) (clock 4))
        ∙ map_map (moved_to completed) (moved_to review) (run_state s r))
reflect-run_state s r false completed reason clock =
    safe_set-run_state s r completed reason (clock 5) (clock 6)
reflect-run_state s r b failed reason clock =
    safe_set-run_state s r failed reason (clock 5) (clock 6)
reflect-run_state s r b running reason clock =
    safe_set-run_state s r running reason (clock 5) (clock 6)
reflect-run_state s r b needs_input reason clock =
    safe_set-run_state s r needs_input reason (clock 5) (clock 6)
reflect-run_state s r b _ reason clock = safe_set-run_state s r blocked reason (clock 5) (clock 6)

log_evidence-run_state :
    (render : Reason → String) (s : Store) (spec : RunSpec) (ev : ExecutionEvidence) (ts : ℕ)
    (r : String)
    → run_state (log_evidence render s spec ev ts) r ≡ run_state s r
unfolding log_evidence append_event get_run
log_evidence-run_state render s spec ev ts r = refl

pub reconcile-run_state :
    (render : Reason → String) (s : Store) (spec : RunSpec) (ev : ExecutionEvidence) (clock : ℕ → ℕ)
    → run_state (reconcile_from_evidence render s spec ev clock) spec.run_id
      ≡ map_option
          (settled (has_review ev) (derive_final_state spec ev).0)
          (run_state s spec.run_id)
unfolding reconcile_from_evidence
reconcile-run_state render s spec ev clock =
    let logged = log_evidence render s spec ev (clock 0) in
    let start = leave_planning logged spec.run_id (clock 1) (clock 2) in
    let final = (derive_final_state spec ev).0 in
    reflect-run_state start spec.run_id (has_review ev) final
      (render (derive_final_state spec ev).1) clock
    ∙ (ap (map_option (reflected (has_review ev) final)) (
          leave_planning-run_state logged spec.run_id (clock 1) (clock 2)
          ∙ ap (map_option attempted)
              (log_evidence-run_state render s spec ev (clock 0) spec.run_id))
        ∙ map_map (reflected (has_review ev) final) attempted (run_state s spec.run_id))

some_state : {a b : RunState} → some a ≡ some b → a ≡ b
some_state {a} {b} e = cc

-- A reconciled run is completed exactly if it was, or if the evidence supports completion and the run
-- was planning, running, in review or stopping, or was in rework and some task is a review; so a stop
-- under way can still end in a completion.
pub reconciled_iff :
    (render : Reason → String) (s : Store) (spec : RunSpec) (ev : ExecutionEvidence) (clock : ℕ → ℕ)
    (st : RunState)
    → run_state s spec.run_id ≡ some st
    → (run_state (reconcile_from_evidence render s spec ev clock) spec.run_id ≡ some completed)
      ↔ ((st ≡ completed) ⊎ (Supports spec ev × (finishes (has_review ev) st ≡ true)))
reconciled_iff render s spec ev clock st at = (into, back)
  where
    after_all :
        run_state (reconcile_from_evidence render s spec ev clock) spec.run_id
        ≡ some (settled (has_review ev) (derive_final_state spec ev).0 st)
    after_all =
        reconcile-run_state render s spec ev clock
        ∙ ap (map_option (settled (has_review ev) (derive_final_state spec ev).0)) at

    into :
        run_state (reconcile_from_evidence render s spec ev clock) spec.run_id ≡ some completed
        → (st ≡ completed) ⊎ (Supports spec ev × (finishes (has_review ev) st ≡ true))
    into h =
        elim ((settled_iff (has_review ev) (derive_final_state spec ev).0 st).0
          (some_state (sym after_all ∙ h))) [
            | inl was ↦ inl was
            | inr (done, ends) ↦ inr ((completed_iff spec ev).0 done, ends)
          ]

    back :
        ((st ≡ completed) ⊎ (Supports spec ev × (finishes (has_review ev) st ≡ true)))
        → run_state (reconcile_from_evidence render s spec ev clock) spec.run_id ≡ some completed
    back (inl was) =
        after_all
        ∙ ap some ((settled_iff (has_review ev) (derive_final_state spec ev).0 st).1 (inl was))
    back (inr (good, ends)) =
        after_all
        ∙ ap some (
            (settled_iff (has_review ev) (derive_final_state spec ev).0 st).1
              (inr ((completed_iff spec ev).1 good, ends)))

-- A reconciliation leaves a completed, failed or cancelled run in its state, whatever the evidence is.
pub reconcile_final :
    (render : Reason → String) (s : Store) (spec : RunSpec) (ev : ExecutionEvidence) (clock : ℕ → ℕ)
    (st : RunState)
    → run_state s spec.run_id ≡ some st
    → is_final st ≡ true
    → run_state (reconcile_from_evidence render s spec ev clock) spec.run_id ≡ some st
reconcile_final render s spec ev clock st at f =
    reconcile-run_state render s spec ev clock
    ∙ (ap (map_option (settled (has_review ev) (derive_final_state spec ev).0)) at
        ∙ ap some (settled-is_final (has_review ev) (derive_final_state spec ev).0 st f))
