-- ===== src/Run/State.antt =====
-- src/hca/run.py: `RunState`, `VALID_TRANSITIONS` and `can_transition`.
use hermes_concurrent_agents.Common.{
  String, ◌≡◌, refl, ap, ◌↔◌, Bool, true, false, Option, none, some, List, [], ◌∷◌, Eq, ◌==◌,
  string_eq, contains, if◌then◌else◌, eq_iff,
}

pub data RunState : Type 0 where
  queued planning running needs_input review rework stopping completed blocked failed cancelled :
      RunState

-- The value of a member of the enumeration, which is also its column in the store.
unfoldable pub value : RunState → String
value queued = "queued"
value planning = "planning"
value running = "running"
value needs_input = "needs_input"
value review = "review"
value rework = "rework"
value stopping = "stopping"
value completed = "completed"
value blocked = "blocked"
value failed = "failed"
value cancelled = "cancelled"

-- `RunState(text)`, which raises on any other text.
unfoldable pub of_value : String → Option RunState
of_value s =
    if s == "queued"
    then some queued
    else if s == "planning"
    then some planning
    else if s == "running"
    then some running
    else if s == "needs_input"
    then some needs_input
    else if s == "review"
    then some review
    else if s == "rework"
    then some rework
    else if s == "stopping"
    then some stopping
    else if s == "completed"
    then some completed
    else if s == "blocked"
    then some blocked
    else if s == "failed"
    then some failed
    else if s == "cancelled"
    then some cancelled
    else none

pub of_value-value : (s : RunState) → of_value (value s) ≡ some s
unfolding of_value value
of_value-value queued = refl
of_value-value planning = refl
of_value-value running = refl
of_value-value needs_input = refl
of_value-value review = refl
of_value-value rework = refl
of_value-value stopping = refl
of_value-value completed = refl
of_value-value blocked = refl
of_value-value failed = refl
of_value-value cancelled = refl

pub value_inj : (s t : RunState) → value s ≡ value t → s ≡ t
value_inj s t e = cc (of_value-value s, of_value-value t, ap of_value e)

pub value-eq_iff : (s t : RunState) → ((value s == value t) ≡ true) ↔ (s ≡ t)
value-eq_iff s t = (
  λ h. value_inj s t ((eq_iff (value s) (value t)).0 h),
  λ e. (eq_iff (value s) (value t)).1 (ap value e),
)

-- Members of a `str` enumeration are compared as their texts.
instance abbrev pub run_state_eq : Eq RunState
run_state_eq = record { same = λ s t. value s == value t; same_iff = value-eq_iff }

abbrev pub terminal_states : List RunState
terminal_states = completed ∷ blocked ∷ failed ∷ cancelled ∷ []

abbrev always : List RunState
always = failed ∷ blocked ∷ []

unfoldable pub valid_transitions : RunState → List RunState
valid_transitions queued = planning ∷ stopping ∷ always
valid_transitions planning = running ∷ needs_input ∷ stopping ∷ always
valid_transitions running = review ∷ needs_input ∷ rework ∷ stopping ∷ completed ∷ always
valid_transitions needs_input = running ∷ planning ∷ stopping ∷ always
valid_transitions review = rework ∷ completed ∷ stopping ∷ always
valid_transitions rework = running ∷ review ∷ stopping ∷ always
valid_transitions stopping = cancelled ∷ completed ∷ always
valid_transitions completed = []
valid_transitions blocked = planning ∷ running ∷ stopping ∷ []
valid_transitions failed = []
valid_transitions cancelled = []

unfoldable pub can_transition : RunState → RunState → Bool
unfolding valid_transitions value
can_transition src dst = if src == dst then true else contains dst (valid_transitions src)

can_transition_refused : can_transition completed running ≡ false
unfolding can_transition
can_transition_refused = refl
