-- ===== src/Scenarios/RunStores.antt =====
-- Histories of the run store for src/hca/run.py.
use hermes_concurrent_agents.Common.{
  String, ◌≡◌, refl, ◌≢◌, false, none, some, List, [], ◌∷◌, ◌==◌, nat_eq, string_eq, filter,
}
use hermes_concurrent_agents.Run.State.{
  queued, planning, running, completed, failed, run_state_eq, can_transition,
}
use hermes_concurrent_agents.Run.Spec.{RunSpec}
use hermes_concurrent_agents.Common.Tables.{row, update}
use hermes_concurrent_agents.Run.Store.{
  answered, Question, Store, integrity, already_answered, ok, err, RunProjection, row_to_proj,
  append_event, get_run, get_spec, find_by_idempotency_key, new_row, create_run, set_row, set_state,
  new_question, add_question, get_question, answer_row, answer_question, empty_store,
}
use hermes_concurrent_agents.Run.Store.Lifecycle.{
  Call, creates, moves, asks, answers, after, apply, run_calls,
}
use hermes_concurrent_agents.Run.Spec.{default_budgets}
use hermes_concurrent_agents.Common.Tables.{row, update}
use hermes_concurrent_agents.Run.Store.Lifecycle.{final_run_forever}
use hermes_concurrent_agents.Run.Store.Replay.{Legal, replay, state_of}
use hermes_concurrent_agents.Run.Store.Trail.{events_tell_state}
use hermes_concurrent_agents.Run.Store.Questions.{answer_kept, answered_twice}
use hermes_concurrent_agents.Run.Store.Specs.{
  spec_kept, created_twice, Newest, HasKey, FromRow, find_by_key,
}

abbrev goal_spec : String → RunSpec
goal_spec r = record {
  run_id = r;
  goal = "ship it";
  project_root = "";
  project_ref = "";
  constraints = [];
  acceptance_criteria = [];
  independent_criteria = false;
  source_profiles = [];
  team = "default";
  concurrency = 1;
  review_policy = "auto";
  input_policy = "allow";
  budgets = default_budgets;
  idempotency_key = "key-1";
  board = "hca";
  created_at = 7;
  schema_version = 4;
}

-- One run is created, planned, run and completed; a late move back is refused.
abbrev history : List Call
history =
    creates (goal_spec "run-a") 7 7
    ∷ moves "run-a" planning "planning" 8 8
    ∷ moves "run-a" running "" 9 9
    ∷ asks "run-a" "which branch?" "t1" "q-1" 10 10
    ∷ answers "run-a" "q-1" "main" 11 11
    ∷ moves "run-a" completed "done" 12 12
    ∷ moves "run-a" running "" 13 13
    ∷ []

abbrev pub finished : Store
finished = run_calls empty_store history

events_tell_state_example :
    Legal "run-a" queued finished.events
    × (replay "run-a" queued finished.events ≡ state_of finished "run-a")
events_tell_state_example = events_tell_state history "run-a"

finished_state : state_of finished "run-a" ≡ completed
unfolding run_calls apply create_run set_state add_question answer_question get_question get_run
    append_event row update set_row new_row row_to_proj can_transition new_question answer_row
finished_state = refl

abbrev pub done_run : RunProjection
done_run = record {
  run_id = "run-a";
  state = completed;
  goal = "ship it";
  created_at = 7;
  updated_at = 12;
  reason = "done";
  idempotency_key = "key-1";
}

pub finished_run : get_run finished "run-a" ≡ some done_run
unfolding run_calls apply create_run set_state add_question answer_question get_question get_run
    append_event row update set_row new_row row_to_proj can_transition new_question answer_row
finished_run = refl

final_run_forever_example :
    (q : RunProjection) × (get_run (run_calls finished (moves "run-a" failed "" 20 20 ∷ [])) "run-a"
      ≡ some q)
    × (q.state ≡ completed)
final_run_forever_example =
    final_run_forever finished (moves "run-a" failed "" 20 20 ∷ []) "run-a" done_run finished_run
      refl

abbrev created : Store
created = after empty_store (create_run empty_store (goal_spec "run-a") queued 7 7)

abbrev first_row : RunProjection
first_row = record {
  run_id = "run-a";
  state = queued;
  goal = "ship it";
  created_at = 7;
  updated_at = 7;
  reason = "";
  idempotency_key = "key-1";
}

created_ok : create_run empty_store (goal_spec "run-a") queued 7 7 ≡ ok (first_row, created)
unfolding create_run row new_row row_to_proj
created_ok = refl

spec_kept_example : get_spec (run_calls created history) "run-a" ≡ some (goal_spec "run-a")
spec_kept_example =
    spec_kept empty_store created (goal_spec "run-a") 7 7 first_row history created_ok

created_twice_example :
    create_run (run_calls created history) (goal_spec "run-a") queued 30 30 ≡ err integrity
created_twice_example =
    created_twice empty_store created (goal_spec "run-a") 7 7 first_row history (goal_spec "run-a")
      queued 30 30 created_ok refl

abbrev key : String
key = "key-1"

find_by_key_example :
    (key ≡ "" → find_by_idempotency_key finished key ≡ none)
    × (key ≢ ""
        → FromRow finished.runs (find_by_idempotency_key finished key)
          × HasKey key (find_by_idempotency_key finished key)
          × Newest
              (filter (λ x. x.idempotency_key == key) finished.runs)
              (find_by_idempotency_key finished key))
find_by_key_example = find_by_key finished key

abbrev asked : Store
asked = after created (add_question created "run-a" "which branch?" "t1" "q-1" 10 10)

abbrev replied : Store
replied = after asked (answer_question asked "run-a" "q-1" "main" 11 11)

abbrev reply : Question
reply = record {
  question_id = "q-1";
  asked_by = "run-a";
  task_id = "t1";
  prompt = "which branch?";
  status = answered;
  answer = "main";
  asked_at = 10;
  answered_at = some 11;
}

replied_ok : answer_question asked "run-a" "q-1" "main" 11 11 ≡ ok (reply, replied)
unfolding create_run add_question answer_question get_question row update append_event new_question
    answer_row
replied_ok = refl

answer_kept_example :
    (get_question (run_calls replied (answers "run-a" "q-1" "other" 12 12 ∷ [])) "q-1" ≡ some reply)
    × (reply.answer ≡ "main")
    × (reply.status ≡ answered)
    × (reply.asked_by ≡ "run-a")
answer_kept_example =
    answer_kept asked replied "run-a" "q-1" "main" 11 11 reply
      (answers "run-a" "q-1" "other" 12 12 ∷ []) replied_ok

answered_twice_example :
    answer_question (run_calls replied []) "run-a" "q-1" "other" 12 12 ≡ err already_answered
answered_twice_example =
    answered_twice asked replied "run-a" "q-1" "main" 11 11 reply [] "other" 12 12 replied_ok
