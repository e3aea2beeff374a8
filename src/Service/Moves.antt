-- ===== src/Service/Moves.antt =====
-- src/hca/service.py: what a guarded move does to the state of a run.
use hermes_concurrent_agents.Common.{
  ℕ, String, ◌≡◌, refl, sym, ap, subst, ◌∙◌, inl, inr, true, Option, none, some, if◌then◌else◌,
  false, ◌==◌, nat_eq, string_eq, Bool-cases,
}
use hermes_concurrent_agents.Run.State.{RunState, value-eq_iff, run_state_eq, can_transition}
use hermes_concurrent_agents.Run.Store.{
  Store, ok, err, illegal_transition, RunProjection, get_run, set_state, map_option, moved_proj,
  moved_store,
}
use hermes_concurrent_agents.Run.Machine.{can_transition_refl}
use hermes_concurrent_agents.Run.Store.Lifecycle.{after}
use hermes_concurrent_agents.Run.Store.Writes.{set_state_moves}
use hermes_concurrent_agents.Service.{safe_set}

abbrev pub run_state : Store → String → Option RunState
run_state s r = map_option (λ p. p.state) (get_run s r)

abbrev pub moved_to : RunState → RunState → RunState
moved_to target st = if can_transition st target then target else st

pub set_state_legal :
    (s : Store) (r : String) (p : RunProjection) (target : RunState) (reason : String) (now ts : ℕ)
    → get_run s r ≡ some p
    → can_transition p.state target ≡ true
    → set_state s r target reason now ts
      ≡ ok (moved_proj p target reason now, moved_store s r p target reason now ts)
unfolding set_state
set_state_legal s r p target reason now ts e h = rw (e, set_state) (rw h refl)

pub set_state_illegal :
    (s : Store) (r : String) (p : RunProjection) (target : RunState) (reason : String) (now ts : ℕ)
    → get_run s r ≡ some p
    → can_transition p.state target ≡ false
    → set_state s r target reason now ts ≡ err (illegal_transition p.state target)
unfolding set_state
set_state_illegal s r p target reason now ts e h = rw (e, set_state) (rw h refl)

pub set_state-run_state :
    (s : Store) (r : String) (p : RunProjection) (target : RunState) (reason : String) (now ts : ℕ)
    → get_run s r ≡ some p
    → can_transition p.state target ≡ true
    → run_state (after s (set_state s r target reason now ts)) r ≡ some target
set_state-run_state s r p target reason now ts e h =
    let done = set_state_legal s r p target reason now ts e h in
    let moved =
      set_state_moves s (moved_store s r p target reason now ts) r target reason now ts
        (moved_proj p target reason now) done in
    subst (λ o. run_state (after s o) r ≡ some target) (sym done)
      (ap (λ o. map_option (λ q. q.state) o) moved.0 ∙ ap some moved.1)

moved_to_self : (target st : RunState) → (st == target) ≡ true → moved_to target st ≡ st
moved_to_self target st h =
    let same : st ≡ target = (value-eq_iff st target).0 h in
    subst (λ t. moved_to t st ≡ st) same (rw (can_transition_refl st) refl)

-- How `safe_set` decides, on the run that it finds.
safe_set-found :
    (s : Store) (r : String) (target : RunState) (reason : String) (now ts : ℕ) (p : RunProjection)
    → get_run s r ≡ some p
    → safe_set s r target reason now ts ≡ (
        if p.state == target
        then s
        else if can_transition p.state target
        then after s (set_state s r target reason now ts)
        else s)
unfolding safe_set
safe_set-found s r target reason now ts p e = rw (e, safe_set) refl

safe_set-missing :
    (s : Store) (r : String) (target : RunState) (reason : String) (now ts : ℕ)
    → get_run s r ≡ none
    → safe_set s r target reason now ts ≡ s
unfolding safe_set
safe_set-missing s r target reason now ts e = rw (e, safe_set) refl

-- A guarded move takes the run to the target where the machine permits it, and else leaves its state.
pub safe_set-run_state :
    (s : Store) (r : String) (target : RunState) (reason : String) (now ts : ℕ)
    → run_state (safe_set s r target reason now ts) r ≡ map_option (moved_to target) (run_state s r)
safe_set-run_state s r target reason now ts = go (get_run s r) refl
  where
    go :
        (o : Option RunProjection)
        → get_run s r ≡ o
        → run_state (safe_set s r target reason now ts) r
          ≡ map_option (moved_to target) (run_state s r)
    go none e = rw (safe_set-missing s r target reason now ts e) (rw e refl)
    go (some p) e =
        let at : run_state s r ≡ some p.state = ap (λ o. map_option (λ q. q.state) o) e in
        subst (λ t. run_state t r ≡ map_option (moved_to target) (run_state s r))
          (sym (safe_set-found s r target reason now ts p e))
          (elim (Bool-cases (p.state == target)) [
            | inl same ↦ rw same (
                at
                ∙ sym (
                    ap (map_option (moved_to target)) at
                    ∙ ap some (moved_to_self target p.state same)))
            | inr apart ↦ rw apart (elim (Bool-cases (can_transition p.state target)) [
              | inl legal ↦ rw legal (
                  set_state-run_state s r p target reason now ts e legal
                  ∙ sym (ap (map_option (moved_to target)) at ∙ ap some (rw legal refl)))
              | inr illegal ↦
                  rw illegal
                    (at ∙ sym (ap (map_option (moved_to target)) at ∙ ap some (rw illegal refl)))
            ])
          ])
