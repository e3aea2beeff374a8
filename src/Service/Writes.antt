-- ===== src/Service/Writes.antt =====
-- src/hca/service.py: the steps of the methods write to the store through the calls of `RunStore`.
use hermes_concurrent_agents.Common.{
  ℕ, String, ◌≡◌, refl, sym, ap, ◌∙◌, inl, inr, Bool, true, false, Option, none, some, List, [],
  ◌∷◌, ◌++◌, if◌then◌else◌, ◌==◌, nat_eq, string_eq, Bool-cases,
}
use hermes_concurrent_agents.Run.State.{
  RunState, queued, planning, running, needs_input, review, completed, blocked, failed, value,
  run_state_eq, can_transition,
}
use hermes_concurrent_agents.Run.Spec.{RunSpec}
use hermes_concurrent_agents.Common.Json.{Fields, field, text, obj, end}
use hermes_concurrent_agents.Evidence.{ExecutionEvidence, Reason, derive_final_state}
use hermes_concurrent_agents.Run.Store.{
  Store, Result, ok, err, RunProjection, get_run, set_state, create_run, answer_question,
}
use hermes_concurrent_agents.Run.Store.Lifecycle.{
  Call, creates, moves, answers, logs, after, apply, run_calls,
}
use hermes_concurrent_agents.Service.{
  safe_set, leave_planning, reflect, log_evidence, reconcile_from_evidence, has_review,
  evidence_to_dict,
}
use hermes_concurrent_agents.Service.Effects.{
  Fault, World, Action, Reply, ◌>>=◌, ◌>>◌, pure, attempt, consult, from_now, committed, move, log,
}
use hermes_concurrent_agents.Service.Hoare.{after-bind, after-attempt}

-- A store that calls lead to from another.
abbrev pub Reached : Store → Store → Type 0
Reached s t = (cs : List Call) × (t ≡ run_calls s cs)

pub Reached-refl : (s : Store) → Reached s s
unfolding run_calls
Reached-refl s = ([], refl)

run_calls-append :
    (s : Store) (cs ds : List Call) → run_calls s (cs ++ ds) ≡ run_calls (run_calls s cs) ds
unfolding run_calls
run_calls-append s [] ds = refl
run_calls-append s (c ∷ cs) ds = run_calls-append (apply s c) cs ds

pub Reached-trans : (s t u : Store) → Reached s t → Reached t u → Reached s u
Reached-trans s t u (cs, e) (ds, f) =
    (cs ++ ds, f ∙ (ap (λ x. run_calls x ds) e ∙ sym (run_calls-append s cs ds)))

pub Reached-one : (s : Store) (c : Call) → Reached s (apply s c)
unfolding run_calls
Reached-one s c = (c ∷ [], refl)

-- An action that writes to the store only through its calls, however it ends.
abbrev pub Lawful {ℓ} : {A : Type ℓ} → Action A → Type 0
Lawful m = (w : World) → Reached w.store (m w).1.store

module _ {ℓ κ} {A : Type ℓ} {B : Type κ} where
  pub Lawful-bind :
      (m : Action A) (f : A → Action B) → Lawful m → ((a : A) → Lawful (f a)) → Lawful (m >>= f)
  Lawful-bind m f p q w =
      after-bind (λ x. Reached w.store x.1.store) (λ x. Reached w.store x.1.store) m f w (p w)
        (λ a v h. Reached-trans w.store v.store (f a v).1.store h (q a v)) (λ e v h. h)

  pub Lawful-then : (m : Action A) (n : Action B) → Lawful m → Lawful n → Lawful (m >> n)
  Lawful-then m n p q = Lawful-bind m (λ _. n) p (λ _. q)

module _ {ℓ} {A : Type ℓ} where
  pub Lawful-attempt :
      (m : Action A) (handle : Fault → Action A)
      → Lawful m
      → ((e : Fault) → Lawful (handle e))
      → Lawful (attempt m handle)
  Lawful-attempt m handle p q w =
      after-attempt (λ x. Reached w.store x.1.store) (λ x. Reached w.store x.1.store) m handle w
        (p w) (λ a v h. h) (λ e v h. Reached-trans w.store v.store (handle e v).1.store h (q e v))

  pub Lawful-pure : (a : A) → Lawful (pure a)
  Lawful-pure a w = Reached-refl w.store

  pub Lawful-consult : (f : Reply A) (spec : RunSpec) → Lawful (consult f spec)
  Lawful-consult f spec w = ((f spec w.store).1, refl)

  pub committed-after :
      (clock : ℕ → ℕ) (w : World) (n : ℕ) (o : Result (A × Store))
      → (committed clock w n o).1.store ≡ after w.store o
  committed-after clock w n (ok (a, t)) = refl
  committed-after clock w n (err e) = refl

module _ (clock : ℕ → ℕ) where
  pub Lawful-move : (r : String) (st : RunState) (reason : String) → Lawful (move clock r st reason)
  unfolding apply run_calls
  Lawful-move r st reason w = (
    moves r st reason (from_now clock w 0) (from_now clock w 1) ∷ [],
    committed-after clock w 2
        (set_state w.store r st reason (from_now clock w 0) (from_now clock w 1)),
  )

  pub Lawful-log :
      (r kind line : String) (payload : Fields) → Lawful (log clock r kind line payload)
  unfolding apply run_calls
  Lawful-log r kind line payload w = (logs r kind line payload (from_now clock w 0) ∷ [], refl)

  pub Lawful-create :
      (spec : RunSpec)
      → Lawful (λ w.
        committed clock w 2
          (create_run w.store spec queued (from_now clock w 0) (from_now clock w 1)))
  unfolding apply run_calls
  Lawful-create spec w = (
    creates spec (from_now clock w 0) (from_now clock w 1) ∷ [],
    committed-after clock w 2
        (create_run w.store spec queued (from_now clock w 0) (from_now clock w 1)),
  )

  pub Lawful-answer :
      (r qid line : String)
      → Lawful (λ w.
        committed clock w 2
          (answer_question w.store r qid line (from_now clock w 0) (from_now clock w 1)))
  unfolding apply run_calls
  Lawful-answer r qid line w = (
    answers r qid line (from_now clock w 0) (from_now clock w 1) ∷ [],
    committed-after clock w 2
        (answer_question w.store r qid line (from_now clock w 0) (from_now clock w 1)),
  )

Reached-moved :
    (s : Store) (r : String) (st : RunState) (reason : String) (now ts : ℕ)
    → Reached s (after s (set_state s r st reason now ts))
unfolding apply
Reached-moved s r st reason now ts = Reached-one s (moves r st reason now ts)

pub Reached-safe_set :
    (s : Store) (r : String) (target : RunState) (reason : String) (now ts : ℕ)
    → Reached s (safe_set s r target reason now ts)
unfolding safe_set
Reached-safe_set s r target reason now ts = go (get_run s r)
  where
    go :
        (o : Option RunProjection)
        → Reached s (elim o [
          | none ↦ s
          | some p ↦
              if p.state == target
              then s
              else if can_transition p.state target
              then after s (set_state s r target reason now ts)
              else s
        ])
    go none = Reached-refl s
    go (some p) = elim (Bool-cases (p.state == target)) [
      | inl same ↦ rw same (Reached-refl s)
      | inr apart ↦ rw apart (elim (Bool-cases (can_transition p.state target)) [
        | inl legal ↦ rw legal (Reached-moved s r target reason now ts)
        | inr illegal ↦ rw illegal (Reached-refl s)
      ])
    ]

Reached-leave_planning :
    (s : Store) (r : String) (now ts : ℕ) → Reached s (leave_planning s r now ts)
unfolding leave_planning
Reached-leave_planning s r now ts = go (get_run s r)
  where
    go :
        (o : Option RunProjection)
        → Reached s (elim o [
          | none ↦ s
          | some p ↦
              if p.state == planning
              then after s (set_state s r running "executing on kanban" now ts)
              else s
        ])
    go none = Reached-refl s
    go (some p) = elim (Bool-cases (p.state == planning)) [
      | inl plan ↦ rw plan (Reached-moved s r running "executing on kanban" now ts)
      | inr other ↦ rw other (Reached-refl s)
    ]

Reached-reflect :
    (s : Store) (r : String) (reviewed : Bool) (final : RunState) (reason : String) (clock : ℕ → ℕ)
    → Reached s (reflect s r reviewed final reason clock)
unfolding reflect
Reached-reflect s r true completed reason clock =
    Reached-trans s (safe_set s r review "verifying" (clock 3) (clock 4)) _
      (Reached-safe_set s r review "verifying" (clock 3) (clock 4))
      (Reached-safe_set (safe_set s r review "verifying" (clock 3) (clock 4)) r completed reason
        (clock 5) (clock 6))
Reached-reflect s r false completed reason clock =
    Reached-safe_set s r completed reason (clock 5) (clock 6)
Reached-reflect s r b failed reason clock = Reached-safe_set s r failed reason (clock 5) (clock 6)
Reached-reflect s r b running reason clock = Reached-safe_set s r running reason (clock 5) (clock 6)
Reached-reflect s r b needs_input reason clock =
    Reached-safe_set s r needs_input reason (clock 5) (clock 6)
Reached-reflect s r b _ reason clock = Reached-safe_set s r blocked reason (clock 5) (clock 6)

Reached-log_evidence :
    (render : Reason → String) (s : Store) (spec : RunSpec) (ev : ExecutionEvidence) (ts : ℕ)
    → Reached s (log_evidence render s spec ev ts)
unfolding log_evidence apply run_calls
Reached-log_evidence render s spec ev ts = (
  logs spec.run_id "run.evidence" (render (derive_final_state spec ev).1)
        (field "final" (text (value (derive_final_state spec ev).0))
          (field "evidence" (obj (evidence_to_dict ev)) end))
        ts
      ∷ [],
  refl,
)

pub Reached-reconcile :
    (render : Reason → String) (s : Store) (spec : RunSpec) (ev : ExecutionEvidence) (clock : ℕ → ℕ)
    → Reached s (reconcile_from_evidence render s spec ev clock)
unfolding reconcile_from_evidence
Reached-reconcile render s spec ev clock =
    let logged = log_evidence render s spec ev (clock 0) in
    let start = leave_planning logged spec.run_id (clock 1) (clock 2) in
    Reached-trans s logged _ (Reached-log_evidence render s spec ev (clock 0)) (
      Reached-trans logged start _ (Reached-leave_planning logged spec.run_id (clock 1) (clock 2)) (
        Reached-reflect start spec.run_id (has_review ev) (derive_final_state spec ev).0
          (render (derive_final_state spec ev).1) clock))
