-- ===== src/Service/Settle.antt =====
-- src/hca/service.py: the state that a reconciliation settles on, from the state before it.
use hermes_concurrent_agents.Common.{
  ◌≡◌, refl, sym, subst, ◌≢◌, ◌↔◌, ◌⊎◌, inl, inr, Bool, true, false, arith, if◌then◌else◌, ◌==◌,
  nat_eq, string_eq, Bool-cases,
}
use hermes_concurrent_agents.Run.State.{
  RunState, queued, planning, running, needs_input, review, rework, stopping, completed, blocked,
  failed, cancelled, value-eq_iff, run_state_eq, can_transition,
}
use hermes_concurrent_agents.Run.Machine.{is_final, final_absorbs}
use hermes_concurrent_agents.Service.Moves.{moved_to}

abbrev pub attempted : RunState → RunState
attempted planning = running
attempted queued = queued
attempted running = running
attempted needs_input = needs_input
attempted review = review
attempted rework = rework
attempted stopping = stopping
attempted completed = completed
attempted blocked = blocked
attempted failed = failed
attempted cancelled = cancelled

pub attempted_other : (st : RunState) → (st == planning) ≡ false → attempted st ≡ st
attempted_other planning h = ground (arith, value-eq_iff planning planning)
attempted_other queued h = refl
attempted_other running h = refl
attempted_other needs_input h = refl
attempted_other review h = refl
attempted_other rework h = refl
attempted_other stopping h = refl
attempted_other completed h = refl
attempted_other blocked h = refl
attempted_other failed h = refl
attempted_other cancelled h = refl

abbrev pub reflected : Bool → RunState → RunState → RunState
reflected reviewed completed st = moved_to completed (if reviewed then moved_to review st else st)
reflected reviewed failed st = moved_to failed st
reflected reviewed running st = moved_to running st
reflected reviewed needs_input st = moved_to needs_input st
reflected reviewed _ st = moved_to blocked st

abbrev pub settled : Bool → RunState → RunState → RunState
settled reviewed final st = reflected reviewed final (attempted st)

-- The states from which a run with complete evidence is completed.
abbrev pub finishes : Bool → RunState → Bool
finishes reviewed planning = true
finishes reviewed running = true
finishes reviewed review = true
finishes reviewed stopping = true
finishes reviewed rework = reviewed
finishes reviewed _ = false

moved_to_other : (t st : RunState) → t ≢ completed → (moved_to t st ≡ completed) → st ≡ completed
moved_to_other t st ne h = elim (Bool-cases (can_transition st t)) [
  | inl legal ↦ ground (arith, legal)
  | inr illegal ↦ ground (arith, illegal)
]

reflected_other :
    (b : Bool) (final st : RunState)
    → final ≢ completed
    → reflected b final st ≡ completed
    → st ≡ completed
reflected_other b completed st ne h = elim (ne refl) [ ]
reflected_other b failed st ne h = moved_to_other failed st ne h
reflected_other b running st ne h = moved_to_other running st ne h
reflected_other b needs_input st ne h = moved_to_other needs_input st ne h
reflected_other b _ st ne h = moved_to_other blocked st (λ e. cc) h

attempted_completed : (st : RunState) → attempted st ≡ completed → st ≡ completed
attempted_completed completed h = refl
attempted_completed _ h = cc

completed_stays : (b : Bool) (final : RunState) → settled b final completed ≡ completed
unfolding can_transition
completed_stays true completed = refl
completed_stays false completed = refl
completed_stays b _ = refl

settled_finishes :
    (b : Bool) (st : RunState) → finishes b st ≡ true → settled b completed st ≡ completed
unfolding can_transition
settled_finishes true planning h = refl
settled_finishes false planning h = refl
settled_finishes true running h = refl
settled_finishes false running h = refl
settled_finishes true review h = refl
settled_finishes false review h = refl
settled_finishes true stopping h = refl
settled_finishes false stopping h = refl
settled_finishes true rework h = refl
settled_finishes b _ h = cc

settled_stuck :
    (b : Bool) (st : RunState)
    → finishes b st ≡ false
    → settled b completed st ≡ completed
    → st ≡ completed
unfolding can_transition
settled_stuck b completed h k = refl
settled_stuck false rework h k = cc
settled_stuck true queued h k = cc
settled_stuck false queued h k = cc
settled_stuck true needs_input h k = cc
settled_stuck false needs_input h k = cc
settled_stuck true blocked h k = cc
settled_stuck false blocked h k = cc
settled_stuck true failed h k = cc
settled_stuck false failed h k = cc
settled_stuck true cancelled h k = cc
settled_stuck false cancelled h k = cc
settled_stuck b _ h k = cc

pub settled_iff :
    (b : Bool) (final st : RunState)
    → (settled b final st ≡ completed)
      ↔ ((st ≡ completed) ⊎ ((final ≡ completed) × (finishes b st ≡ true)))
settled_iff b final st = (into, back)
  where
    into :
        settled b final st ≡ completed
        → (st ≡ completed) ⊎ ((final ≡ completed) × (finishes b st ≡ true))
    into h = elim (Bool-cases (final == completed)) [
      | inl done ↦
          let is_done = (value-eq_iff final completed).0 done in
          elim (Bool-cases (finishes b st)) [
            | inl ends ↦ inr (is_done, ends)
            | inr stuck ↦
                inl (settled_stuck b st stuck (subst (λ f. settled b f st ≡ completed) is_done h))
          ]
      | inr other ↦ inl (
          attempted_completed st (
            reflected_other b final (attempted st)
              (λ e. ground (arith, other, (value-eq_iff final completed).1 e)) h))
    ]

    back :
        ((st ≡ completed) ⊎ ((final ≡ completed) × (finishes b st ≡ true)))
        → settled b final st ≡ completed
    back (inl e) = subst (λ x. settled b final x ≡ completed) (sym e) (completed_stays b final)
    back (inr (e, h)) = subst (λ f. settled b f st ≡ completed) (sym e) (settled_finishes b st h)

moved_to-is_final : (t st : RunState) → is_final st ≡ true → moved_to t st ≡ st
moved_to-is_final t st f = elim (Bool-cases (can_transition st t)) [
  | inl legal ↦ rw legal (final_absorbs st t f legal)
  | inr illegal ↦ rw illegal refl
]

reflected-is_final :
    (b : Bool) (final st : RunState) → is_final st ≡ true → reflected b final st ≡ st
reflected-is_final true completed st f =
    rw (moved_to-is_final review st f) (moved_to-is_final completed st f)
reflected-is_final false completed st f = moved_to-is_final completed st f
reflected-is_final b failed st f = moved_to-is_final failed st f
reflected-is_final b running st f = moved_to-is_final running st f
reflected-is_final b needs_input st f = moved_to-is_final needs_input st f
reflected-is_final b _ st f = moved_to-is_final blocked st f

pub settled-is_final :
    (b : Bool) (final st : RunState) → is_final st ≡ true → settled b final st ≡ st
settled-is_final b final completed f = reflected-is_final b final completed f
settled-is_final b final failed f = reflected-is_final b final failed f
settled-is_final b final cancelled f = reflected-is_final b final cancelled f
settled-is_final b final _ f = cc
