-- ===== src/Run/Store/Lifecycle.antt =====
-- src/hca/run.py: what the operations of `RunStore` do to the state of a run, one by one and over a
-- whole history.
use hermes_concurrent_agents.Common.{
  ℕ, String, ◌≡◌, refl, subst, ◌∙◌, ◌⊎◌, inl, inr, true, Option, none, some, List, [], ◌∷◌, ◌++◌,
  arith, eq_iff, ◌==◌, nat_eq, string_eq, Bool-cases,
}
use hermes_concurrent_agents.Run.State.{RunState, queued, run_state_eq, can_transition}
use hermes_concurrent_agents.Run.Machine.{is_final, final_absorbs, can_transition_refl}
use hermes_concurrent_agents.Run.Spec.{RunSpec}
use hermes_concurrent_agents.Common.Json.{Fields}
use hermes_concurrent_agents.Common.Tables.{row, row-append_some}
use hermes_concurrent_agents.Run.Store.{
  plain, Store, Result, ok, err, RunProjection, row_key_run, append_event, get_run, new_row,
  create_run, set_state, add_question, answer_question,
}
use hermes_concurrent_agents.Run.Store.Writes.{
  set_state_ok, row_of_get_run, get_run_of_row, set_state_moves,
}

-- The calls that write to the store.
pub data Call : Type 0 where
  creates : (spec : RunSpec) (now ts : ℕ) → Call
  moves : (run_id : String) (new_state : RunState) (reason : String) (now ts : ℕ) → Call
  asks : (run_id prompt task_id qid : String) (now ts : ℕ) → Call
  answers : (run_id qid text : String) (now ts : ℕ) → Call
  logs : (run_id kind text : String) (payload : Fields) (ts : ℕ) → Call

-- A call that raises leaves the store as it was.
abbrev pub after {ℓ} : {A : Type ℓ} → Store → Result (A × Store) → Store
after s (ok (a, t)) = t
after s (err e) = s

unfoldable pub apply : Store → Call → Store
apply s (creates spec now ts) = after s (create_run s spec queued now ts)
apply s (moves r st reason now ts) = after s (set_state s r st reason now ts)
apply s (asks r prompt task qid now ts) = after s (add_question s r prompt task qid now ts)
apply s (answers r qid text now ts) = after s (answer_question s r qid text now ts)
apply s (logs r kind text payload ts) = append_event s r kind (plain text) payload ts

unfoldable pub run_calls : Store → List Call → Store
run_calls s [] = s
run_calls s (c ∷ cs) = run_calls (apply s c) cs

-- The calls on questions and events leave the table of runs alone.
pub runs-asks :
    (s : Store) (r prompt task qid : String) (now ts : ℕ)
    → (apply s (asks r prompt task qid now ts)).runs ≡ s.runs
unfolding apply add_question append_event
runs-asks s r prompt task qid now ts = ground arith

pub runs-answers :
    (s : Store) (r qid text : String) (now ts : ℕ)
    → (apply s (answers r qid text now ts)).runs ≡ s.runs
unfolding apply answer_question append_event
runs-answers s r qid text now ts = ground arith

pub runs-logs :
    (s : Store) (r kind text : String) (payload : Fields) (ts : ℕ)
    → (apply s (logs r kind text payload ts)).runs ≡ s.runs
unfolding apply append_event
runs-logs s r kind text payload ts = refl

pub runs-creates :
    (s : Store) (spec : RunSpec) (now ts : ℕ)
    → ((apply s (creates spec now ts)).runs ≡ s.runs)
      ⊎ ((row row_key_run spec.run_id s.runs ≡ none)
          × ((apply s (creates spec now ts)).runs ≡ s.runs ++ new_row spec queued now ∷ []))
unfolding apply create_run append_event
runs-creates s spec now ts = ground arith

pub get_run-runs : (s t : Store) (r : String) → t.runs ≡ s.runs → get_run t r ≡ get_run s r
unfolding get_run
get_run-runs s t r e = rw e

-- What a run may become in one call.
abbrev pub Becomes : RunProjection → Option RunProjection → Type 0
Becomes p none = ⊥
Becomes p (some q) = can_transition p.state q.state ≡ true

stays :
    (s t : Store) (r : String) {p : RunProjection}
    → get_run s r ≡ some p
    → get_run t r ≡ get_run s r
    → Becomes p (get_run t r)
stays s t r {p} h e = rw (e, h) (can_transition_refl p.state)

pub apply-creates :
    (s : Store) (spec : RunSpec) (now ts : ℕ) (r : String) (p : RunProjection)
    → get_run s r ≡ some p
    → get_run (apply s (creates spec now ts)) r ≡ some p
apply-creates s spec now ts r p h = elim (runs-creates s spec now ts) [
  | inl e ↦ get_run-runs s _ r e ∙ h
  | inr (_, e) ↦
      let (x, here, eq) = row_of_get_run s r p h in
      rw eq (get_run_of_row _ r (rw e (row-append_some row_key_run r s.runs _ here)))
]

apply-moves :
    (s : Store) (j : String) (st : RunState) (reason : String) (now ts : ℕ) (r : String)
    (p : RunProjection)
    → get_run s r ≡ some p
    → Becomes p (get_run (apply s (moves j st reason now ts)) r)
unfolding apply
apply-moves s j st reason now ts r p h = go (set_state s j st reason now ts) refl
  where
    go :
        (o : Result (RunProjection × Store))
        → set_state s j st reason now ts ≡ o
        → Becomes p (get_run (after s o) r)
    go (err e) eq = stays s s r h refl
    go (ok (q, t)) eq =
        let (p', found, legal, eq', et) = set_state_ok s t j st reason now ts q eq in
        let (here, state, others) = set_state_moves s t j st reason now ts q eq in
        elim (Bool-cases (j == r)) [
          | inl same ↦
              let e : j ≡ r = (eq_iff j r).0 same in
              let here' : get_run t r ≡ some q = subst (λ k. get_run t k ≡ some q) e here in
              let found' : get_run s r ≡ some p' = subst (λ k. get_run s k ≡ some p') e found in
              let ep : p' ≡ p = ground arith in rw here' (rw state (rw ep at legal))
          | inr other ↦ stays s t r h (others r (λ e. cc ((eq_iff j r).1 e)))
        ]

-- In one call a run stays in the store, and its state stays or moves as the machine allows.
pub apply-Becomes :
    (s : Store) (c : Call) (r : String) {p : RunProjection}
    → get_run s r ≡ some p
    → Becomes p (get_run (apply s c) r)
apply-Becomes s (creates spec now ts) r {p} h =
    rw (apply-creates s spec now ts r p h) (can_transition_refl p.state)
apply-Becomes s (moves j st reason now ts) r {p} h = apply-moves s j st reason now ts r p h
apply-Becomes s (asks j prompt task qid now ts) r h =
    stays s _ r h (get_run-runs s _ r (runs-asks s j prompt task qid now ts))
apply-Becomes s (answers j qid text now ts) r h =
    stays s _ r h (get_run-runs s _ r (runs-answers s j qid text now ts))
apply-Becomes s (logs j kind text payload ts) r h =
    stays s _ r h (get_run-runs s _ r (runs-logs s j kind text payload ts))

state_kept :
    (p : RunProjection) (o : Option RunProjection)
    → is_final p.state ≡ true
    → Becomes p o
    → (q : RunProjection) × (o ≡ some q) × (q.state ≡ p.state)
state_kept p none f b = absurd b
state_kept p (some q) f b = (q, refl, final_absorbs p.state q.state f b)

-- A completed, failed or cancelled run keeps its state under every further sequence of calls.
pub final_run_forever :
    (s : Store) (cs : List Call) (r : String) (p : RunProjection)
    → get_run s r ≡ some p
    → is_final p.state ≡ true
    → (q : RunProjection) × (get_run (run_calls s cs) r ≡ some q) × (q.state ≡ p.state)
unfolding run_calls
final_run_forever s [] r p h f = (p, h, refl)
final_run_forever s (c ∷ cs) r p h f =
    let (q, here, same) = state_kept p (get_run (apply s c) r) f (apply-Becomes s c r h) in
    let (q', here', same') = final_run_forever (apply s c) cs r q here (rw same f) in
    (q', here', same' ∙ same)
