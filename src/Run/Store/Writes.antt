-- ===== src/Run/Store/Writes.antt =====
-- src/hca/run.py: what each write to the store does, on success, to the state of its run.
use hermes_concurrent_agents.Common.{
  ℕ, String, ◌≡◌, refl, ◌≢◌, inl, inr, true, none, some, [], ◌∷◌, ◌++◌, arith, eq_iff, nat_eq,
  string_eq, or_else, Option-cases,
}
use hermes_concurrent_agents.Run.State.{RunState, run_state_eq, can_transition}
use hermes_concurrent_agents.Run.Spec.{RunSpec}
use hermes_concurrent_agents.Common.Json.{end}
use hermes_concurrent_agents.Common.Tables.{row, update, row-update_self, row-update_ne}
use hermes_concurrent_agents.Run.Store.{
  RunRow, open_status, Question, run_created, question_asked, question_answered, Store, ok,
  RunProjection, moved_proj, moved_store, row_key_run, row_key_question, row_to_proj, append_event,
  get_run, new_row, create_run, set_row, set_state, new_question, add_question, get_question,
  answer_row, answer_question,
}

-- The three outcomes of a move.
pub set_state_ok :
    (s t : Store) (r : String) (new_state : RunState) (reason : String) (now ts : ℕ)
    (q : RunProjection)
    → set_state s r new_state reason now ts ≡ ok (q, t)
    → (p : RunProjection) × (get_run s r ≡ some p)
      × (can_transition p.state new_state ≡ true)
      × (q ≡ moved_proj p new_state reason now)
      × (t ≡ moved_store s r p new_state reason now ts)
unfolding set_state
set_state_ok s t r new_state reason now ts q h = ground arith

pub create_run_ok :
    (s t : Store) (spec : RunSpec) (st : RunState) (now ts : ℕ) (q : RunProjection)
    → create_run s spec st now ts ≡ ok (q, t)
    → (row row_key_run spec.run_id s.runs ≡ none)
      × (q ≡ row_to_proj (new_row spec st now))
      × (t
          ≡ append_event
              (record s { runs = s.runs ++ new_row spec st now ∷ [] })
              spec.run_id
              "run.created"
              (run_created spec.goal)
              end
              ts)
unfolding create_run
create_run_ok s t spec st now ts q h = ground arith

pub add_question_ok :
    (s t : Store) (r prompt task qid : String) (now ts : ℕ) (q : Question)
    → add_question s r prompt task qid now ts ≡ ok (q, t)
    → (row row_key_question qid s.questions ≡ none)
      × (q ≡ new_question r prompt task qid now)
      × (t
          ≡ append_event
              (record s { questions = s.questions ++ new_question r prompt task qid now ∷ [] })
              r
              "run.needs_input"
              (question_asked qid prompt)
              end
              ts)
unfolding add_question
add_question_ok s t r prompt task qid now ts q h = ground arith

pub answer_question_ok :
    (s t : Store) (r qid text : String) (now ts : ℕ) (q : Question)
    → answer_question s r qid text now ts ≡ ok (q, t)
    → (o : Question) × (row row_key_question qid s.questions ≡ some o)
      × (o.asked_by ≡ r)
      × (o.status ≡ open_status)
      × (q ≡ answer_row text now o)
      × (t
          ≡ append_event
              (record s {
                questions = update row_key_question qid (answer_row text now) s.questions;
              })
              r
              "run.responded"
              (question_answered qid)
              end
              ts)
unfolding answer_question get_question
answer_question_ok s t r qid text now ts q h =
    elim (Option-cases (row row_key_question qid s.questions)) [
      | inl e ↦ ground arith
      | inr (o, e) ↦
          (o, e, ground (arith, eq_iff o.asked_by r), ground arith, ground arith, ground arith)
    ]

-- A table row behind a projection.
pub row_of_get_run :
    (s : Store) (r : String) (p : RunProjection)
    → get_run s r ≡ some p
    → (x : RunRow) × (row row_key_run r s.runs ≡ some x) × (p ≡ row_to_proj x)
unfolding get_run
row_of_get_run s r p h = ground arith

pub get_run_of_row :
    (s : Store) (r : String) {x : RunRow}
    → row row_key_run r s.runs ≡ some x
    → get_run s r ≡ some (row_to_proj x)
unfolding get_run
get_run_of_row s r h = rw h

keeps_set :
    (st : RunState) (reason : String) (now : ℕ) (x : RunRow)
    → row_key_run (set_row st reason now x) ≡ row_key_run x
unfolding set_row
keeps_set st reason now x = refl

get_run-moved_store :
    (s : Store) (r : String) (p : RunProjection) (st : RunState) (reason : String) (now ts : ℕ)
    → get_run s r ≡ some p
    → get_run (moved_store s r p st reason now ts) r ≡ some (moved_proj p st reason now)
unfolding get_run append_event set_row row_to_proj
get_run-moved_store s r p st reason now ts h =
    let (x, here, e) = row_of_get_run s r p h in
    rw
      (row-update_self row_key_run (set_row st (or_else reason p.reason) now)
        (keeps_set st (or_else reason p.reason) now) r s.runs here)
      (rw e)

get_run-moved_store_ne :
    (s : Store) (r j : String) (p : RunProjection) (st : RunState) (reason : String) (now ts : ℕ)
    → r ≢ j
    → get_run (moved_store s r p st reason now ts) j ≡ get_run s j
unfolding get_run append_event
get_run-moved_store_ne s r j p st reason now ts n = rw (
    row-update_ne row_key_run (set_row st (or_else reason p.reason) now)
      (keeps_set st (or_else reason p.reason) now) r j s.runs n)

pub set_state_moves :
    (s t : Store) (r : String) (new_state : RunState) (reason : String) (now ts : ℕ)
    (q : RunProjection)
    → set_state s r new_state reason now ts ≡ ok (q, t)
    → (get_run t r ≡ some q)
      × (q.state ≡ new_state)
      × ((j : String) → r ≢ j → get_run t j ≡ get_run s j)
set_state_moves s t r new_state reason now ts q h =
    let (p, found, legal, eq, et) = set_state_ok s t r new_state reason now ts q h in
    rw (et, eq)
      (
        get_run-moved_store s r p new_state reason now ts found,
        refl,
        λ j n. get_run-moved_store_ne s r j p new_state reason now ts n,
      )

-- A move that succeeds gives the run the new state, returns the projection that is then stored, and
-- leaves any other run alone.
pub set_state-get_run :
    (s t : Store) (r j : String) (new_state : RunState) (reason : String) (now ts : ℕ)
    (q : RunProjection)
    → set_state s r new_state reason now ts ≡ ok (q, t)
    → r ≢ j
    → ((get_run t r ≡ some q) × (q.state ≡ new_state)) × (get_run t j ≡ get_run s j)
set_state-get_run s t r j new_state reason now ts q h n =
    let (here, state, others) = set_state_moves s t r new_state reason now ts q h in
    ((here, state), others j n)
