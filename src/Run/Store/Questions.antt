-- ===== src/Run/Store/Questions.antt =====
-- src/hca/run.py: questions and their answers, over sequences of calls.
use hermes_concurrent_agents.Common.{
  ℕ, String, ◌≡◌, refl, sym, subst, ◌∙◌, ◌≢◌, some, List, [], ◌∷◌, arith, eq_iff, nat_eq, string_eq,
}
use hermes_concurrent_agents.Run.State.{RunState, run_state_eq}
use hermes_concurrent_agents.Run.Spec.{RunSpec}
use hermes_concurrent_agents.Common.Tables.{row, row-append_some, row-update_self, row-update_ne}
use hermes_concurrent_agents.Run.Store.{
  answered, Question, Store, already_answered, Result, ok, err, row_key_question, append_event,
  create_run, set_state, add_question, get_question, answer_row, answer_question,
}
use hermes_concurrent_agents.Run.Store.Lifecycle.{
  Call, creates, moves, asks, answers, logs, after, apply, run_calls,
}
use hermes_concurrent_agents.Run.Store.Writes.{add_question_ok, answer_question_ok}

keeps_answer :
    (text : String) (now : ℕ) (q : Question)
    → row_key_question (answer_row text now q) ≡ row_key_question q
unfolding answer_row
keeps_answer text now q = refl

questions-creates :
    (s : Store) (spec : RunSpec) (now ts : ℕ)
    → (apply s (creates spec now ts)).questions ≡ s.questions
unfolding apply create_run append_event
questions-creates s spec now ts = ground arith

questions-moves :
    (s : Store) (r : String) (st : RunState) (reason : String) (now ts : ℕ)
    → (apply s (moves r st reason now ts)).questions ≡ s.questions
unfolding apply set_state append_event
questions-moves s r st reason now ts = ground arith

get_question-questions :
    (s t : Store) (qid : String)
    → t.questions ≡ s.questions
    → get_question t qid ≡ get_question s qid
unfolding get_question
get_question-questions s t qid e = rw e

kept_asks :
    (s : Store) (j prompt task qid' : String) (now ts : ℕ) (qid : String) (q : Question)
    → get_question s qid ≡ some q
    → get_question (apply s (asks j prompt task qid' now ts)) qid ≡ some q
unfolding apply get_question
kept_asks s j prompt task qid' now ts qid q h = go (add_question s j prompt task qid' now ts) refl
  where
    go :
        (o : Result (Question × Store))
        → add_question s j prompt task qid' now ts ≡ o
        → row row_key_question qid (after s o).questions ≡ some q
    go (err e) eq = h
    go (ok (a, t)) eq =
        let (_, _, et) = add_question_ok s t j prompt task qid' now ts a eq in
        rw et (unfold append_event in row-append_some row_key_question qid s.questions _ h)

kept_answers :
    (s : Store) (j qid' text : String) (now ts : ℕ) (qid : String) (q : Question)
    → get_question s qid ≡ some q
    → q.status ≡ answered
    → get_question (apply s (answers j qid' text now ts)) qid ≡ some q
unfolding apply get_question
kept_answers s j qid' text now ts qid q h done = go (answer_question s j qid' text now ts) refl
  where
    go :
        (o : Result (Question × Store))
        → answer_question s j qid' text now ts ≡ o
        → row row_key_question qid (after s o).questions ≡ some q
    go (err e) eq = h
    go (ok (a, t)) eq =
        let (o, here, _, fresh, _, et) = answer_question_ok s t j qid' text now ts a eq in
        let other : qid' ≢ qid = λ e.
          let same : some o ≡ some q =
            sym (subst (λ k. row row_key_question k s.questions ≡ some o) e here) ∙ h in
          cc in
        rw et (
          unfold append_event in
          row-update_ne row_key_question (answer_row text now) (keeps_answer text now) qid' qid
            s.questions other
          ∙ h)

apply-kept :
    (s : Store) (c : Call) (qid : String) (q : Question)
    → get_question s qid ≡ some q
    → q.status ≡ answered
    → get_question (apply s c) qid ≡ some q
apply-kept s (creates spec now ts) qid q h d =
    get_question-questions s _ qid (questions-creates s spec now ts) ∙ h
apply-kept s (moves j st reason now ts) qid q h d =
    get_question-questions s _ qid (questions-moves s j st reason now ts) ∙ h
apply-kept s (asks j prompt task qid' now ts) qid q h d =
    kept_asks s j prompt task qid' now ts qid q h
apply-kept s (answers j qid' text now ts) qid q h d = kept_answers s j qid' text now ts qid q h d
apply-kept s (logs j kind text payload ts) qid q h d = unfold apply append_event get_question in h

run_calls-kept :
    (s : Store) (cs : List Call) (qid : String) (q : Question)
    → get_question s qid ≡ some q
    → q.status ≡ answered
    → get_question (run_calls s cs) qid ≡ some q
unfolding run_calls
run_calls-kept s [] qid q h d = h
run_calls-kept s (c ∷ cs) qid q h d =
    run_calls-kept (apply s c) cs qid q (apply-kept s c qid q h d) d

refuses_answered :
    (s : Store) (r qid text : String) (now ts : ℕ) (q : Question)
    → get_question s qid ≡ some q
    → q.asked_by ≡ r
    → q.status ≡ answered
    → answer_question s r qid text now ts ≡ err already_answered
unfolding answer_question
refuses_answered s r qid text now ts q h mine done = ground (arith, eq_iff q.asked_by r)

-- The answer that is recorded: after a call that succeeds the question holds the text, it belongs to
-- the run that answered, and no later calls change it.
pub answer_kept :
    (s t : Store) (r qid text : String) (now ts : ℕ) (q : Question) (cs : List Call)
    → answer_question s r qid text now ts ≡ ok (q, t)
    → (get_question (run_calls t cs) qid ≡ some q)
      × (q.answer ≡ text)
      × (q.status ≡ answered)
      × (q.asked_by ≡ r)
answer_kept s t r qid text now ts q cs h =
    let (o, here, mine, fresh, eq, et) = answer_question_ok s t r qid text now ts q h in
    let stored : get_question t qid ≡ some (answer_row text now o) = rw et (
      unfold append_event get_question in
      row-update_self row_key_question (answer_row text now) (keeps_answer text now) qid s.questions
        here) in
    let done : q.status ≡ answered = rw eq (unfold answer_row in refl) in
    (
      run_calls-kept t cs qid q (subst (λ a. get_question t qid ≡ some a) (sym eq) stored) done,
      rw eq (unfold answer_row in refl),
      done,
      rw eq (unfold answer_row in mine),
    )

-- Once a run has answered its question, it is refused a second answer to it, whatever calls come between.
pub answered_twice :
    (s t : Store) (r qid text : String) (now ts : ℕ) (q : Question) (cs : List Call)
    (text' : String) (now' ts' : ℕ)
    → answer_question s r qid text now ts ≡ ok (q, t)
    → answer_question (run_calls t cs) r qid text' now' ts' ≡ err already_answered
answered_twice s t r qid text now ts q cs text' now' ts' h =
    let (here, _, done, mine) = answer_kept s t r qid text now ts q cs h in
    refuses_answered (run_calls t cs) r qid text' now' ts' q here mine done
