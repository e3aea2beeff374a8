-- ===== src/Run/Machine.antt =====
-- src/hca/run.py: what the transition machine `VALID_TRANSITIONS` allows over a whole life of a run.
use hermes_concurrent_agents.Common.{
  ◌≡◌, refl, subst, ◌≢◌, ◌↔◌, ◌⊎◌, inl, inr, Bool, true, false, List, [], ◌∷◌, arith, ◌==◌, nat_eq,
  string_eq, Bool-cases, contains,
}
use hermes_concurrent_agents.Run.State.{
  RunState, queued, running, review, stopping, completed, blocked, failed, cancelled, value-eq_iff,
  run_state_eq, can_transition,
}

-- The states that nothing leaves.
abbrev pub is_final : RunState → Bool
is_final completed = true
is_final failed = true
is_final cancelled = true
is_final _ = false

pub final_absorbs : (s t : RunState) → is_final s ≡ true → can_transition s t ≡ true → t ≡ s
unfolding can_transition
final_absorbs s t f h = ground (arith, value-eq_iff s t)

pub can_transition_refl : (s : RunState) → can_transition s s ≡ true
unfolding can_transition
can_transition_refl queued = refl
can_transition_refl _ = refl

-- A state that no final one: the machine has another state to offer.
nonfinal_moves :
    (s : RunState) → is_final s ≡ false → (t : RunState) × (t ≢ s) × (can_transition s t ≡ true)
unfolding can_transition
nonfinal_moves completed h = cc
nonfinal_moves failed h = cc
nonfinal_moves cancelled h = cc
nonfinal_moves stopping h = (failed, λ e. cc, refl)
nonfinal_moves _ h = (stopping, λ e. cc, refl)

-- Exactly the states completed, failed and cancelled allow no move to another state.
pub final_iff :
    (s : RunState) → (is_final s ≡ true) ↔ ((t : RunState) → can_transition s t ≡ true → t ≡ s)
final_iff s = (
  λ f t h. final_absorbs s t f h,
  λ stuck. elim (Bool-cases (is_final s)) [
    | inl f ↦ f
    | inr n ↦ let (t, ne, h) = nonfinal_moves s n in absurd (ne (stuck t h))
  ],
)

-- The states in the order in which a run passes through them, each move accepted by the machine.
abbrev pub Accepted : RunState → List RunState → Type 0
Accepted s [] = Unit {0}
Accepted s (t ∷ ts) = (can_transition s t ≡ true) × Accepted t ts

abbrev pub final_state : RunState → List RunState → RunState
final_state s [] = s
final_state s (t ∷ ts) = final_state t ts

into_cancelled :
    (s : RunState) → can_transition s cancelled ≡ true → (s ≡ stopping) ⊎ (s ≡ cancelled)
unfolding can_transition
into_cancelled queued h = ground arith
into_cancelled _ h = ground arith

contains_head : (s : RunState) (ts : List RunState) → contains s (s ∷ ts) ≡ true
contains_head s ts = rw ((value-eq_iff s s).1 refl)

contains_tail :
    (r s : RunState) (ts : List RunState) → contains r ts ≡ true → contains r (s ∷ ts) ≡ true
contains_tail r s ts h = ground arith

-- A run that ends as cancelled, and did not begin so, has been in the state stopping.
pub cancelled_needs_stopping :
    (s : RunState) (ts : List RunState)
    → Accepted s ts
    → s ≢ cancelled
    → final_state s ts ≡ cancelled
    → contains stopping (s ∷ ts) ≡ true
cancelled_needs_stopping s [] a n e = absurd (n e)
cancelled_needs_stopping s (t ∷ ts) a n e = elim (Bool-cases (t == cancelled)) [
  | inl c ↦
      elim (into_cancelled s
        (subst (λ u. can_transition s u ≡ true) ((value-eq_iff t cancelled).0 c) a.0)) [
          | inl stop ↦ rw stop (contains_head stopping (t ∷ ts))
          | inr already ↦ absurd (n already)
        ]
  | inr c ↦
      contains_tail stopping s (t ∷ ts)
        (cancelled_needs_stopping t ts a.1 (λ e'. cc ((value-eq_iff t cancelled).1 e')) e)
]

-- A final state stays as it is, whatever accepted moves follow.
pub final_forever :
    (s : RunState) (ts : List RunState) → is_final s ≡ true → Accepted s ts → final_state s ts ≡ s
final_forever s [] f a = refl
final_forever s (t ∷ ts) f a =
    let stay : t ≡ s = final_absorbs s t f a.0 in
    rw stay (final_forever s ts f (subst (λ u. Accepted u ts) stay a.1))

-- A crash can be recorded in every state but completed, cancelled and blocked.
pub failed_iff :
    (s : RunState)
    → (can_transition s failed ≡ false) ↔ ((s ≡ completed) ⊎ (s ≡ cancelled) ⊎ (s ≡ blocked))
unfolding can_transition
failed_iff queued = (λ h. ground arith, λ h. ground arith)
failed_iff _ = (λ h. ground arith, λ h. ground arith)

-- A completed run was running, under review or stopping just before.
pub completed_needs_work :
    (s : RunState)
    → can_transition s completed ≡ true
    → s ≢ completed
    → (s ≡ running) ⊎ (s ≡ review) ⊎ (s ≡ stopping)
unfolding can_transition
completed_needs_work queued h n = ground arith
completed_needs_work _ h n = ground arith
