-- ===== src/Run/Store/Replay.antt =====
-- src/hca/run.py: what the table of events says of the state of a run, and the table of runs.
use hermes_concurrent_agents.Common.{
  ℕ, String, ◌≡◌, refl, sym, ◌∙◌, inl, inr, Bool, true, false, Option, none, some, List, [], ◌∷◌,
  ◌++◌, eq_iff, if◌then◌else◌, ◌==◌, nat_eq, string_eq, Bool-cases,
}
use hermes_concurrent_agents.Run.State.{RunState, queued, run_state_eq, can_transition}
use hermes_concurrent_agents.Common.Json.{Fields}
use hermes_concurrent_agents.Common.Tables.{row-singleton, row-singleton_ne}
use hermes_concurrent_agents.Run.Store.{
  RunRow, Question, Message, moved, Event, Store, RunProjection, row_key_run, row_to_proj,
  append_event, get_run, empty_store,
}
use hermes_concurrent_agents.Run.Store.Lifecycle.{get_run-runs}

-- What one event says of a run in a given state: its next state, and whether the move is in order.
abbrev told : Bool → RunState → Message → RunState
told mine st (moved from into reason) = if mine then into else st
told mine st _ = st

abbrev pub Move : Bool → RunState → RunState → RunState → Type 0
Move true st from into = (from ≡ st) × (can_transition from into ≡ true)
Move false st from into = Unit {0}

abbrev InOrder : Bool → RunState → Message → Type 0
InOrder mine st (moved from into reason) = Move mine st from into
InOrder mine st _ = Unit {0}

abbrev pub replay : String → RunState → List Event → RunState
replay r st [] = st
replay r st (e ∷ es) = replay r (told (e.subject == r) st e.message) es

abbrev pub Legal : String → RunState → List Event → Type 0
Legal r st [] = Unit {0}
Legal r st (e ∷ es) =
    InOrder (e.subject == r) st e.message × Legal r (told (e.subject == r) st e.message) es

replay-append :
    (r : String) (st : RunState) (es fs : List Event)
    → replay r st (es ++ fs) ≡ replay r (replay r st es) fs
replay-append r st [] fs = refl
replay-append r st (e ∷ es) fs = replay-append r (told (e.subject == r) st e.message) es fs

Legal-append :
    (r : String) (st : RunState) (es fs : List Event)
    → Legal r st es
    → Legal r (replay r st es) fs
    → Legal r st (es ++ fs)
Legal-append r st [] fs l k = k
Legal-append r st (e ∷ es) fs l k =
    (l.0, Legal-append r (told (e.subject == r) st e.message) es fs l.1 k)

abbrev pub state_or : Option RunProjection → RunState
state_or none = queued
state_or (some p) = p.state

-- The state of a run in the table of runs; one that is not there yet counts as queued.
abbrev pub state_of : Store → String → RunState
state_of s r = state_or (get_run s r)

abbrev pub Tells : String → List Event → RunState → Type 0
Tells r es st = Legal r queued es × (replay r queued es ≡ st)

abbrev pub Told : Store → String → Type 0
Told s r = Tells r s.events (state_of s r)

-- One more event, which says of the run what the new store says of it.
pub extend :
    (r : String) (es : List Event) (st st' : RunState) (e : Event)
    → Tells r es st
    → InOrder (e.subject == r) st e.message
    → told (e.subject == r) st e.message ≡ st'
    → Tells r (es ++ e ∷ []) st'
extend r es st st' e (l, same) ok_e next = (
  Legal-append r queued es (e ∷ []) l (rw same (ok_e, tt)),
  replay-append r queued es (e ∷ []) ∙ rw same next,
)

-- The state of a run in a table of runs.
abbrev pub state_in : List RunRow → String → RunState
state_in runs r = state_of (record empty_store { runs = runs }) r

state_of-state_in : (s : Store) (r : String) → state_of s r ≡ state_in s.runs r
state_of-state_in s r = rw (get_run-runs s (record empty_store { runs = s.runs }) r refl)

-- An event that is no move, with the table of runs unchanged as far as this run goes.
pub extend_quiet :
    (s : Store) (runs : List RunRow) (questions : List Question) (r kind : String) (j : String)
    (m : Message) (payload : Fields) (ts : ℕ)
    → Told s r
    → ((mine : Bool) (st : RunState) → InOrder mine st m × (told mine st m ≡ st))
    → state_in runs r ≡ state_in s.runs r
    → Told (append_event (record s { runs = runs; questions = questions }) j kind m payload ts) r
unfolding append_event
extend_quiet s runs questions r kind j m payload ts h quiet same =
    extend r s.events (state_of s r) _ _ h (quiet _ _).0
      ((quiet _ _).1 ∙ state_of-state_in s r ∙ sym same ∙ sym (state_of-state_in _ r))

-- A row that is queued says no more of its run than no row does.
pub queued_row : (a : RunRow) (r : String) → a.state ≡ queued → state_in (a ∷ []) r ≡ queued
unfolding get_run row_to_proj
queued_row a r q = elim (Bool-cases (a.run_id == r)) [
  | inl mine ↦ rw (← (eq_iff a.run_id r).0 mine) (rw (row-singleton row_key_run a) q)
  | inr other ↦ rw (row-singleton_ne row_key_run r a (λ e. cc ((eq_iff a.run_id r).1 e)))
]
