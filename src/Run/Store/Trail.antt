-- ===== src/Run/Store/Trail.antt =====
-- src/hca/run.py: the table of events against the table of runs.
use hermes_concurrent_agents.Common.{
  ℕ, String, ◌≡◌, refl, sym, ap, subst, ◌∙◌, inl, inr, Bool, true, false, some, List, [], ◌∷◌, ◌++◌,
  eq_iff, if◌then◌else◌, ◌==◌, nat_eq, string_eq, Option-cases,
}
use hermes_concurrent_agents.Run.State.{RunState, queued, run_state_eq, can_transition}
use hermes_concurrent_agents.Run.Spec.{RunSpec}
use hermes_concurrent_agents.Common.Json.{end}
use hermes_concurrent_agents.Common.Tables.{row, update, row-append_some, row-append_none}
use hermes_concurrent_agents.Run.Store.{
  RunRow, Question, run_created, moved, question_asked, question_answered, plain, Store, Result, ok,
  err, RunProjection, moved_store, row_key_run, row_key_question, row_to_proj, append_event,
  get_run, new_row, create_run, set_state, new_question, add_question, answer_row, answer_question,
  empty_store,
}
use hermes_concurrent_agents.Run.Store.Lifecycle.{
  Call, creates, moves, asks, answers, logs, after, apply, run_calls,
}
use hermes_concurrent_agents.Run.Store.Writes.{
  set_state_ok, create_run_ok, add_question_ok, answer_question_ok, set_state_moves,
}
use hermes_concurrent_agents.Run.Store.Replay.{
  Move, replay, Legal, state_of, Tells, Told, extend, state_in, extend_quiet, queued_row,
}

created_state :
    (runs : List RunRow) (a : RunRow) (r : String)
    → a.state ≡ queued
    → state_in (runs ++ a ∷ []) r ≡ state_in runs r
unfolding get_run row_to_proj
created_state runs a r q = elim (Option-cases (row row_key_run r runs)) [
  | inl absent ↦ rw (row-append_none row_key_run r runs (a ∷ []) absent, absent) (queued_row a r q)
  | inr (x, here) ↦ rw (row-append_some row_key_run r runs (a ∷ []) here, here)
]

Told-creates :
    (s : Store) (spec : RunSpec) (now ts : ℕ) (r : String)
    → Told s r
    → Told (apply s (creates spec now ts)) r
unfolding apply
Told-creates s spec now ts r h = go (create_run s spec queued now ts) refl
  where
    go :
        (o : Result (RunProjection × Store))
        → create_run s spec queued now ts ≡ o
        → Told (after s o) r
    go (err e) eq = h
    go (ok (q, t)) eq =
        let (absent, _, et) = create_run_ok s t spec queued now ts q eq in
        rw et (
          extend_quiet s (s.runs ++ new_row spec queued now ∷ []) s.questions r "run.created"
            spec.run_id (run_created spec.goal) end ts h (λ mine st. (tt, refl))
            (created_state s.runs (new_row spec queued now) r (unfold new_row in refl)))

Told-asks :
    (s : Store) (j prompt task qid : String) (now ts : ℕ) (r : String)
    → Told s r
    → Told (apply s (asks j prompt task qid now ts)) r
unfolding apply
Told-asks s j prompt task qid now ts r h = go (add_question s j prompt task qid now ts) refl
  where
    go :
        (o : Result (Question × Store))
        → add_question s j prompt task qid now ts ≡ o
        → Told (after s o) r
    go (err e) eq = h
    go (ok (q, t)) eq =
        let (absent, _, et) = add_question_ok s t j prompt task qid now ts q eq in
        rw et (
          extend_quiet s s.runs (s.questions ++ new_question j prompt task qid now ∷ []) r
            "run.needs_input" j (question_asked qid prompt) end ts h (λ mine st. (tt, refl)) refl)

Told-answers :
    (s : Store) (j qid text : String) (now ts : ℕ) (r : String)
    → Told s r
    → Told (apply s (answers j qid text now ts)) r
unfolding apply
Told-answers s j qid text now ts r h = go (answer_question s j qid text now ts) refl
  where
    go :
        (o : Result (Question × Store))
        → answer_question s j qid text now ts ≡ o
        → Told (after s o) r
    go (err e) eq = h
    go (ok (q, t)) eq =
        let (o, here, _, _, _, et) = answer_question_ok s t j qid text now ts q eq in
        rw et (
          extend_quiet s s.runs (update row_key_question qid (answer_row text now) s.questions) r
            "run.responded" j (question_answered qid) end ts h (λ mine st. (tt, refl)) refl)

Move-in_order :
    (mine : Bool) (st from into : RunState)
    → (mine ≡ true → from ≡ st)
    → can_transition from into ≡ true
    → Move mine st from into
Move-in_order true st from into same legal = (same refl, legal)
Move-in_order false st from into same legal = tt

move_told :
    (mine : Bool) (st into st' : RunState)
    → (mine ≡ true → into ≡ st')
    → (mine ≡ false → st ≡ st')
    → (if mine then into else st) ≡ st'
move_told true st into st' hit miss = hit refl
move_told false st into st' hit miss = miss refl

events-moved_store :
    (s : Store) (j : String) (p : RunProjection) (st : RunState) (reason : String) (now ts : ℕ)
    → (moved_store s j p st reason now ts).events
      ≡ s.events
        ++ record {
          id = s.next_id;
          subject = j;
          ts = ts;
          kind = "run.state";
          message = moved p.state st reason;
          payload = end;
        }
          ∷ []
unfolding append_event
events-moved_store s j p st reason now ts = refl

Told-moves :
    (s : Store) (j : String) (st : RunState) (reason : String) (now ts : ℕ) (r : String)
    → Told s r
    → Told (apply s (moves j st reason now ts)) r
unfolding apply
Told-moves s j st reason now ts r h = go (set_state s j st reason now ts) refl
  where
    go :
        (o : Result (RunProjection × Store))
        → set_state s j st reason now ts ≡ o
        → Told (after s o) r
    go (err e) eq = h
    go (ok (q, t)) eq =
        let (p, found, legal, _, et) = set_state_ok s t j st reason now ts q eq in
        let (here, state, others) = set_state_moves s t j st reason now ts q eq in
        let was : (j == r) ≡ true → p.state ≡ state_of s r =
          λ m. rw (subst (λ k. get_run s k ≡ some p) ((eq_iff j r).0 m) found) in
        let now_is : (j == r) ≡ true → st ≡ state_of t r =
          λ m. rw (subst (λ k. get_run t k ≡ some q) ((eq_iff j r).0 m) here) (sym state) in
        let rest : (j == r) ≡ false → state_of s r ≡ state_of t r =
          λ m. rw (others r (λ e. cc ((eq_iff j r).1 e))) in
        subst (λ es. Tells r es (state_of t r))
          (sym (ap (λ (u : Store). u.events) et ∙ events-moved_store s j p st reason now ts))
          (extend r s.events (state_of s r) (state_of t r) _ h
            (Move-in_order (j == r) (state_of s r) p.state st was legal)
            (move_told (j == r) (state_of s r) st (state_of t r) now_is rest))

apply-Told : (s : Store) (c : Call) (r : String) → Told s r → Told (apply s c) r
apply-Told s (creates spec now ts) r h = Told-creates s spec now ts r h
apply-Told s (moves j st reason now ts) r h = Told-moves s j st reason now ts r h
apply-Told s (asks j prompt task qid now ts) r h = Told-asks s j prompt task qid now ts r h
apply-Told s (answers j qid text now ts) r h = Told-answers s j qid text now ts r h
apply-Told s (logs j kind text payload ts) r h =
    unfold apply in
    extend_quiet s s.runs s.questions r kind j (plain text) payload ts h (λ mine st. (tt, refl))
      refl

run_calls-Told : (s : Store) (cs : List Call) (r : String) → Told s r → Told (run_calls s cs) r
unfolding run_calls
run_calls-Told s [] r h = h
run_calls-Told s (c ∷ cs) r h = run_calls-Told (apply s c) cs r (apply-Told s c r h)

empty_store-Told : (r : String) → Told empty_store r
unfolding get_run row
empty_store-Told r = (tt, refl)

-- After any calls on a new store, the moves in the table of events, read in order, are moves that the
-- machine allows, each from the state where the last one ended, and they lead each run from queued to
-- the state that the table of runs holds (queued for a run that is not there).
pub events_tell_state :
    (cs : List Call) (r : String)
    → Legal r queued (run_calls empty_store cs).events
      × (replay r queued (run_calls empty_store cs).events ≡ state_of (run_calls empty_store cs) r)
events_tell_state cs r = run_calls-Told empty_store cs r (empty_store-Told r)
