-- ===== src/Service/Hoare.antt =====
-- src/hca/service.py: rules for what holds after a method, and what its steps do to the state of a run.
use hermes_concurrent_agents.Common.{
  ℕ, String, ◌≡◌, refl, sym, ap, subst, inl, inr, Bool, true, false, Option, none, some, List, [],
  ◌∷◌, nat_eq, string_eq, Bool-cases, ◌&&◌,
}
use hermes_concurrent_agents.Run.State.{RunState, value, run_state_eq, can_transition}
use hermes_concurrent_agents.Run.Spec.{RunSpec}
use hermes_concurrent_agents.Common.Json.{Fields, field, text, end}
use hermes_concurrent_agents.Run.Store.{
  Store, RunProjection, get_run, append_event, map_option, illegal_transition,
}
use hermes_concurrent_agents.Run.Store.Lifecycle.{
  Call, after, apply, run_calls, Becomes, apply-Becomes,
}
use hermes_concurrent_agents.Service.Moves.{
  run_state, set_state_legal, set_state_illegal, set_state-run_state,
}
use hermes_concurrent_agents.Service.Effects.{
  Env, Exit, returned, raised, Done, Fault, run_state_error, World, Action, Reply, ◌>>=◌, attempt,
  consult, from_now, move, log, committed,
}
use hermes_concurrent_agents.Service.Results.{
  ServiceResult, Report, Remedy, status_code, status_ok, status_result,
}
use hermes_concurrent_agents.Service.Halt.{observe, halt_controller, detached_requested, cut}

-- What holds after an action that goes on with what another returns.
pub after-bind {ℓ κ λ₁ λ₂} :
    {A : Type ℓ} {B : Type κ} (Q : Exit A × World → Type λ₁) (P : Exit B × World → Type λ₂)
    (m : Action A) (f : A → Action B) (w : World)
    → Q (m w)
    → ((a : A) (v : World) → Q (returned a, v) → P (f a v))
    → ((e : Fault) (v : World) → Q (raised e, v) → P (raised e, v))
    → P ((m >>= f) w)
after-bind Q P m f w q good bad = go (m w) q
  where
    go :
        (x : Exit _ × World)
        → Q x
        → P (let (r, v) = x in elim r [ returned a ↦ f a v | raised e ↦ (raised e, v) ])
    go (returned a, v) h = good a v h
    go (raised e, v) h = bad e v h

pub after-attempt {ℓ λ₁ λ₂} :
    {A : Type ℓ} (Q : Exit A × World → Type λ₁) (P : Exit A × World → Type λ₂) (m : Action A)
    (handle : Fault → Action A) (w : World)
    → Q (m w)
    → ((a : A) (v : World) → Q (returned a, v) → P (returned a, v))
    → ((e : Fault) (v : World) → Q (raised e, v) → P (handle e v))
    → P (attempt m handle w)
after-attempt Q P m handle w q good bad = go (m w) q
  where
    go :
        (x : Exit _ × World)
        → Q x
        → P (let (r, v) = x in elim r [ returned a ↦ (returned a, v) | raised e ↦ handle e v ])
    go (returned a, v) h = good a v h
    go (raised e, v) h = bad e v h

-- The run is in the store, in some state, however an action ended.
abbrev pub Present {ℓ} : {A : Type ℓ} → String → Exit A × World → Type 0
Present r (x, w) = (st : RunState) × (run_state w.store r ≡ some st)

-- An action that raises nothing and leaves the run in the state.
abbrev pub Stays {ℓ} : {A : Type ℓ} → String → RunState → Exit A × World → Type 0
Stays r st (returned a, w) = run_state w.store r ≡ some st
Stays r st (raised e, w) = ⊥

-- A move of the run from one state to another.
abbrev pub Moved : String → RunState → RunState → Exit RunProjection × World → Type 0
Moved r from into (returned q, w) =
    (can_transition from into ≡ true) × (run_state w.store r ≡ some into)
Moved r from into (raised e, w) =
    (can_transition from into ≡ false)
    × (e ≡ run_state_error (illegal_transition from into))
    × (run_state w.store r ≡ some from)

-- The result that tells the state of the run.
abbrev pub Shows : String → String → RunState → Exit ServiceResult × World → Type 0
Shows action r st (returned res, w) =
    (res.code ≡ status_code action st)
    × (res.success ≡ status_ok action st)
    × (res.state ≡ value st)
    × (run_state w.store r ≡ some st)
Shows action r st (raised e, w) = ⊥

pub projection_at :
    (s : Store) (r : String) (st : RunState)
    → run_state s r ≡ some st
    → (p : RunProjection) × (get_run s r ≡ some p) × (p.state ≡ st)
projection_at s r st h = go (get_run s r) refl
  where
    go :
        (o : Option RunProjection)
        → get_run s r ≡ o
        → (p : RunProjection) × (get_run s r ≡ some p) × (p.state ≡ st)
    go none e = cc (h, ap (map_option (λ p. p.state)) e)
    go (some p) e = (p, e, cc (h, ap (map_option (λ p. p.state)) e))

present_later :
    (p : RunProjection) (o : Option RunProjection)
    → Becomes p o
    → (q : RunProjection) × (o ≡ some q)
present_later p none b = absurd b
present_later p (some q) b = (q, refl)

pub present-run_calls :
    (s : Store) (cs : List Call) (r : String) (st : RunState)
    → run_state s r ≡ some st
    → (st' : RunState) × (run_state (run_calls s cs) r ≡ some st')
unfolding run_calls
present-run_calls s [] r st h = (st, h)
present-run_calls s (c ∷ cs) r st h =
    let (p, here, _) = projection_at s r st h in
    let (q, later) = present_later p (get_run (apply s c) r) (apply-Becomes s c r here) in
    present-run_calls (apply s c) cs r q.state (ap (map_option (λ x. x.state)) later)

pub Present-consult {ℓ} :
    {A : Type ℓ} (f : Reply A) (spec : RunSpec) (r : String) (st : RunState) (w : World)
    → run_state w.store r ≡ some st
    → Present r (consult f spec w)
Present-consult f spec r st w h = present-run_calls w.store (f spec w.store).1 r st h

module _ (clock : ℕ → ℕ) where
  pub Moved-by :
      (r : String) (from into : RunState) (reason : String) (w : World)
      → run_state w.store r ≡ some from
      → Moved r from into (move clock r into reason w)
  Moved-by r from into reason w h =
      let (p, here, same) = projection_at w.store r from h in
      let now : ℕ = from_now clock w 0 in
      let ts : ℕ = from_now clock w 1 in
      elim (Bool-cases (can_transition p.state into)) [
        | inl legal ↦
            let done = set_state_legal w.store r p into reason now ts here legal in
            subst (λ x. Moved r from into (committed clock w 2 x)) (sym done)
              (
                subst (λ s. can_transition s into ≡ true) same legal,
                subst (λ o. run_state (after w.store o) r ≡ some into) done
                    (set_state-run_state w.store r p into reason now ts here legal),
              )
        | inr illegal ↦
            subst (λ x. Moved r from into (committed clock w 2 x))
              (sym (set_state_illegal w.store r p into reason now ts here illegal))
              (
                subst (λ s. can_transition s into ≡ false) same illegal,
                ap (λ s. run_state_error (illegal_transition s into)) same,
                h,
              )
      ]

  pub Stays-log :
      (r kind line : String) (payload : Fields) (st : RunState) (w : World)
      → run_state w.store r ≡ some st
      → Stays r st (log clock r kind line payload w)
  unfolding append_event get_run
  Stays-log r kind line payload st w h = h

module _ (env : Env) where
  pub Shows-observe :
      (action : String) (message : Option Report) (lost : Remedy) (r : String) (st : RunState)
      (w : World)
      → run_state w.store r ≡ some st
      → Shows action r st (observe env action message lost r w)
  unfolding observe status_result
  Shows-observe action message lost r st w h =
      let (p, here, same) = projection_at w.store r st h in
      rw (here, observe)
        (ap (status_code action) same, ap (status_ok action) same, ap value same, h)

  pub Stays-halt_controller :
      (r : String) (st : RunState) (w : World)
      → run_state w.store r ≡ some st
      → Stays r st (halt_controller env r w)
  unfolding halt_controller
  Stays-halt_controller r st w h =
      elim (Bool-cases (env.ctl.enabled && detached_requested w.store r)) [
        | inr idle ↦ rw idle h
        | inl busy ↦ rw busy (go (env.ctl.stop r))
      ]
    where
      go :
          (x : Exit Bool)
          → Stays {A = Done} r st (elim x [
            | returned _ ↦ (returned tt, w)
            | raised e ↦
                log env.clock r "controller.stop_error"
                  "controller stop signal failed; persisted STOPPING remains authoritative"
                  (field "error" (text (cut 500 (env.describe e))) end)
                  w
          ])
      go (returned b) = h
      go (raised e) =
          Stays-log env.clock r "controller.stop_error"
            "controller stop signal failed; persisted STOPPING remains authoritative"
            (field "error" (text (cut 500 (env.describe e))) end) st w h
