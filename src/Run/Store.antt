-- ===== src/Run/Store.antt =====
-- src/hca/run.py: `RunStore`, its tables and its operations. A read of the clock and a fresh
-- identifier are arguments. An operation that raises has written nothing, so its error stands for the
-- unchanged store. The text of an event is kept as the data that the program formats into it.
pub mod Writes
pub mod Lifecycle
pub mod Replay
pub mod Trail
pub mod Questions
pub mod Specs
pub mod Keys
use hermes_concurrent_agents.Common.{
  ℕ, suc, ◌+◌, String, refl, Bool, true, false, not, ◌&&◌, Option, none, some, List, [], ◌∷◌, ◌++◌,
  map, arith, eqb, if◌then◌else◌, ◌==◌, nat_eq, string_eq, is_empty, or_else, take, filter,
}
use hermes_concurrent_agents.Run.State.{RunState, needs_input, run_state_eq, can_transition}
use hermes_concurrent_agents.Run.Spec.{RunSpec, to_dict, from_dict}
use hermes_concurrent_agents.Common.Json.{Fields, end}
use hermes_concurrent_agents.Common.Tables.{row, update, order_desc, order_asc, first}

pub record RunRow : Type 0 where
  pub run_id : String
  pub state : RunState
  pub goal : String
  pub spec_json : Fields
  pub reason : String
  pub idempotency_key : String
  pub created_at : ℕ
  pub updated_at : ℕ

pub data QuestionStatus : Type 0 where
  open_status answered : QuestionStatus

pub record Question : Type 0 where
  pub question_id : String
  pub asked_by : String  -- the column run_id
  pub task_id : String
  pub prompt : String
  pub status : QuestionStatus
  pub answer : String
  pub asked_at : ℕ  -- the column created_at
  pub answered_at : Option ℕ

pub data Message : Type 0 where
  run_created : (goal : String) → Message
  moved : (from into : RunState) → (reason : String) → Message
  question_asked : (question_id prompt : String) → Message
  question_answered : (question_id : String) → Message
  plain : String → Message

pub record Event : Type 0 where
  pub id : ℕ
  pub subject : String  -- the column run_id
  pub ts : ℕ
  pub kind : String
  pub message : Message
  pub payload : Fields

pub record Store : Type 0 where
  pub runs : List RunRow
  pub questions : List Question
  pub events : List Event
  pub next_id : ℕ  -- of the AUTOINCREMENT column of the events

pub data StoreError : Type 0 where
  integrity unknown_run unknown_question wrong_run already_answered : StoreError
  illegal_transition : RunState → RunState → StoreError

pub data Result {ℓ} (A : Type ℓ) : Type ℓ where
  ok : A → Result A
  err : StoreError → Result A

pub record RunProjection : Type 0 where
  pub run_id : String
  pub state : RunState
  pub goal : String
  pub created_at : ℕ
  pub updated_at : ℕ
  pub reason : String
  pub idempotency_key : String

abbrev pub row_key_run : RunRow → String
row_key_run r = r.run_id

abbrev pub row_key_question : Question → String
row_key_question q = q.question_id

unfoldable pub row_to_proj : RunRow → RunProjection
row_to_proj r = record {
  run_id = r.run_id;
  state = r.state;
  goal = r.goal;
  created_at = r.created_at;
  updated_at = r.updated_at;
  reason = r.reason;
  idempotency_key = r.idempotency_key;
}

abbrev pub map_option {ℓ κ} : {A : Type ℓ} {B : Type κ} → (A → B) → Option A → Option B
map_option f none = none
map_option f (some a) = some (f a)

unfoldable pub append_event : Store → String → String → Message → Fields → ℕ → Store
append_event s run_id kind message payload ts = record s {
  events =
      s.events
      ++ record {
        id = s.next_id;
        subject = run_id;
        ts = ts;
        kind = kind;
        message = message;
        payload = payload;
      }
        ∷ [];
  next_id = suc s.next_id;
}

unfoldable pub get_run : Store → String → Option RunProjection
get_run s run_id = map_option row_to_proj (row row_key_run run_id s.runs)

-- `RunSpec.from_dict` of the stored dictionary: one that it raises on is none here, as a missing row is.
abbrev pub read_spec : Option RunRow → Option RunSpec
read_spec none = none
read_spec (some r) = from_dict r.spec_json

unfoldable pub get_spec : Store → String → Option RunSpec
get_spec s run_id = read_spec (row row_key_run run_id s.runs)

-- The key is indexed, not unique: the newest run that carries it is meant.
unfoldable pub find_by_idempotency_key : Store → String → Option RunProjection
find_by_idempotency_key s key =
    if is_empty key
    then none
    else map_option row_to_proj (
        first (λ r. r.created_at)
          (order_desc (λ r. r.created_at) (filter (λ r. r.idempotency_key == key) s.runs)))

unfoldable pub list_runs : Store → ℕ → List RunProjection
list_runs s limit = map row_to_proj (take limit (order_desc (λ r. r.created_at) s.runs))

-- The row that `create_run` inserts: a creation time of 0 means now.
unfoldable pub new_row : RunSpec → RunState → ℕ → RunRow
new_row spec state now =
    let created : ℕ = if eqb spec.created_at 0 then now else spec.created_at in
    record {
      run_id = spec.run_id;
      state = state;
      goal = spec.goal;
      spec_json = to_dict spec;
      reason = "";
      idempotency_key = spec.idempotency_key;
      created_at = created;
      updated_at = created;
    }

unfoldable pub create_run : Store → RunSpec → RunState → ℕ → ℕ → Result (RunProjection × Store)
create_run s spec state now ts = elim (row row_key_run spec.run_id s.runs) [
  | some taken ↦ err integrity
  | none ↦ ok (
    row_to_proj (new_row spec state now),
    append_event (record s { runs = s.runs ++ new_row spec state now ∷ [] }) spec.run_id
        "run.created" (run_created spec.goal) end ts,
  )
]

-- `UPDATE hca_runs SET state=?, reason=?, updated_at=?`.
unfoldable pub set_row : RunState → String → ℕ → RunRow → RunRow
set_row new_state reason now r = record r { state = new_state; reason = reason; updated_at = now }

-- The projection that a move returns, and the store with its two writes.
abbrev pub moved_proj : RunProjection → RunState → String → ℕ → RunProjection
moved_proj p new_state reason now = record p {
  state = new_state;
  reason = or_else reason p.reason;
  updated_at = now;
}

abbrev pub moved_store : Store → String → RunProjection → RunState → String → ℕ → ℕ → Store
moved_store s run_id p new_state reason now ts =
    append_event
      (record s {
        runs = update row_key_run run_id (set_row new_state (or_else reason p.reason) now) s.runs;
      })
      run_id "run.state" (moved p.state new_state reason) end ts

unfoldable pub set_state :
    Store → String → RunState → String → ℕ → ℕ → Result (RunProjection × Store)
set_state s run_id new_state reason now ts = elim (get_run s run_id) [
  | none ↦ err unknown_run
  | some p ↦
      if can_transition p.state new_state
      then ok (moved_proj p new_state reason now, moved_store s run_id p new_state reason now ts)
      else err (illegal_transition p.state new_state)
]

unfoldable pub new_question : String → String → String → String → ℕ → Question
new_question run_id prompt task_id qid now = record {
  question_id = qid;
  asked_by = run_id;
  task_id = task_id;
  prompt = prompt;
  status = open_status;
  answer = "";
  asked_at = now;
  answered_at = none;
}

unfoldable pub add_question :
    Store → String → String → String → String → ℕ → ℕ → Result (Question × Store)
add_question s run_id prompt task_id qid now ts = elim (row row_key_question qid s.questions) [
  | some taken ↦ err integrity
  | none ↦ ok (
    new_question run_id prompt task_id qid now,
    append_event
        (record s { questions = s.questions ++ new_question run_id prompt task_id qid now ∷ [] })
        run_id "run.needs_input" (question_asked qid prompt) end ts,
  )
]

unfoldable pub get_question : Store → String → Option Question
get_question s qid = row row_key_question qid s.questions

unfoldable pub answer_row : String → ℕ → Question → Question
answer_row text now q = record q { status = answered; answer = text; answered_at = some now }

abbrev pub is_answered : QuestionStatus → Bool
is_answered open_status = false
is_answered answered = true

unfoldable pub answer_question :
    Store → String → String → String → ℕ → ℕ → Result (Question × Store)
answer_question s run_id qid text now ts = elim (get_question s qid) [
  | none ↦ err unknown_question
  | some q ↦
      if not (q.asked_by == run_id)
      then err wrong_run
      else if is_answered q.status
      then err already_answered
      else ok (
        answer_row text now q,
        append_event
            (record s { questions = update row_key_question qid (answer_row text now) s.questions })
            run_id "run.responded" (question_answered qid) end ts,
      )
]

unfoldable pub list_questions : Store → String → List Question
list_questions s run_id =
    order_asc (λ q. q.asked_at) (filter (λ q. q.asked_by == run_id) s.questions)

unfoldable pub open_questions : Store → String → List Question
open_questions s run_id =
    order_asc (λ q. q.asked_at)
      (filter (λ q. q.asked_by == run_id && not (is_answered q.status)) s.questions)

-- The events are in the order of their numbers.
unfoldable pub list_events : Store → String → ℕ → List Event
list_events s run_id limit = take limit (filter (λ e. e.subject == run_id) s.events)

abbrev pub empty_store : Store
empty_store = record { runs = []; questions = []; events = []; next_id = 1 }
