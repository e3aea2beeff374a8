-- ===== src/Routing.antt =====
-- src/hca/routing.py: logical roles, concrete slots, and the reservation of a free slot; the names of
-- the slots are built as in src/hca/observe.py and src/hca/tmux.py. Texts are lists of code points.
pub mod Names
pub mod Booking
pub mod Refusals
pub mod Tick
use hermes_concurrent_agents.Common.{
  ℕ, zero, suc, ◌+◌, ◌-◌, ◌/◌, ◌%◌, String, refl, Bool, true, false, not, ◌&&◌, ◌||◌, Option, none,
  some, List, [], ◌∷◌, ◌++◌, map, arith, ltb, leb, eqb, if◌then◌else◌, ◌==◌, nat_eq, string_eq,
  length, take, is_nil, filter, find?, contains,
}
use hermes_concurrent_agents.Common.Words.{codes, lower, strip, codes_eq}
use hermes_concurrent_agents.StateDb.{StateDb, list_runs}

-- The characters that a session name keeps.
unfoldable pub is_name_code : ℕ → Bool
is_name_code c =
    leb b'A' c && leb c b'Z'
    || leb b'a' c && leb c b'z'
    || leb b'0' c && leb c b'9'
    || eqb c b'_'
    || eqb c b'.'
    || eqb c b'-'

-- `re.sub(r"[^A-Za-z0-9_.-]+", "-", name)`; `in_run` says that the last character was replaced.
unfoldable pub replace_runs : Bool → List ℕ → List ℕ
unfolding is_name_code
replace_runs in_run [] = []
replace_runs in_run (c ∷ cs) =
    let keep = replace_runs false cs in
    let skip = replace_runs true cs in
    if is_name_code c then c ∷ keep else if in_run then skip else b'-' ∷ skip

unfoldable pub drop_dashes : List ℕ → List ℕ
drop_dashes [] = []
drop_dashes (c ∷ cs) = if eqb c b'-' then drop_dashes cs else c ∷ cs

unfoldable pub drop_dashes_end : List ℕ → List ℕ
drop_dashes_end [] = []
drop_dashes_end (c ∷ cs) =
    let rest = drop_dashes_end cs in if is_nil rest && eqb c b'-' then [] else c ∷ rest

-- `strip("-")`.
unfoldable pub strip_dashes : List ℕ → List ℕ
unfolding drop_dashes drop_dashes_end
strip_dashes cs = drop_dashes_end (drop_dashes cs)

abbrev pub or_codes : List ℕ → List ℕ → List ℕ
or_codes a b = if is_nil a then b else a

unfoldable pub sanitize_session_name : List ℕ → List ℕ
unfolding replace_runs strip_dashes
sanitize_session_name name =
    or_codes (take 80 (strip_dashes (replace_runs false name))) (codes "hca-slot")

-- The decimal digits of a number below `10 ^ fuel`.
digits : ℕ → ℕ → List ℕ → List ℕ
digits zero n later = later
digits (suc fuel) n later =
    let here = (b'0' + n % 10) ∷ later in if ltb n 10 then here else digits fuel (n / 10) here

-- `f"{index:02d}"`.
unfoldable pub two_digits : ℕ → List ℕ
unfolding digits
two_digits n = if ltb n 10 then b'0' ∷ (b'0' + n) ∷ [] else digits n n []

unfoldable pub slot_name : List ℕ → List ℕ → ℕ → List ℕ
unfolding sanitize_session_name two_digits
slot_name fleet role index =
    sanitize_session_name
      (codes "hca-" ++ (fleet ++ (codes "-" ++ (role ++ (codes "-" ++ two_digits index)))))

-- src/hca/models.py: `FleetConfig`, the fields that routing reads.
pub record FleetConfig : Type 0 where
  pub name : List ℕ
  pub profile_slots : List (List ℕ × ℕ)

pub data Kind : Type 0 where
  planner worker reviewer : Kind

abbrev pub same_kind : Kind → Kind → Bool
same_kind planner planner = true
same_kind worker worker = true
same_kind reviewer reviewer = true
same_kind _ _ = false

pub record SlotIdentity : Type 0 where
  pub profile : List ℕ
  pub fleet : List ℕ
  pub role : List ℕ
  pub index : ℕ
  pub kind : Kind

unfoldable pub kind_for_role : List ℕ → Kind
kind_for_role role =
    if role == codes "orchestrator"
    then planner
    else if role == codes "qa"
    then reviewer
    else worker

unfoldable pub slots_from : List ℕ → List ℕ → ℕ → ℕ → List SlotIdentity
unfolding slot_name kind_for_role
slots_from fleet role i zero = []
slots_from fleet role i (suc n) =
    record {
      profile = slot_name fleet role i;
      fleet = fleet;
      role = role;
      index = i;
      kind = kind_for_role role;
    }
    ∷ slots_from fleet role (suc i) n

unfoldable pub slots_of_roles : List ℕ → List (List ℕ × ℕ) → List SlotIdentity
unfolding slots_from
slots_of_roles fleet [] = []
slots_of_roles fleet (rc ∷ rcs) = slots_from fleet rc.0 1 rc.1 ++ slots_of_roles fleet rcs

unfoldable pub concrete_slots : FleetConfig → List SlotIdentity
unfolding slots_of_roles
concrete_slots cfg = slots_of_roles cfg.name cfg.profile_slots

unfoldable pub slots_of_kind : FleetConfig → Kind → List SlotIdentity
slots_of_kind cfg kind = filter (λ s. same_kind s.kind kind) (concrete_slots cfg)

abbrev pub role_aliases : List (String × String)
role_aliases =
    ("planner", "orchestrator")
    ∷ ("orchestrator", "orchestrator")
    ∷ ("reviewer", "qa")
    ∷ ("review", "qa")
    ∷ ("qa", "qa")
    ∷ ("test", "qa")
    ∷ ("testing", "qa")
    ∷ ("coder", "coder")
    ∷ ("coding", "coder")
    ∷ ("code", "coder")
    ∷ ("implement", "coder")
    ∷ ("research", "research")
    ∷ ("researcher", "research")
    ∷ ("investigate", "research")
    ∷ ("docs", "creative")
    ∷ ("documentation", "creative")
    ∷ ("writing", "creative")
    ∷ ("creative", "creative")
    ∷ ("worker", "")
    ∷ ("general", "general")
    ∷ []

abbrev pub alias_in : List (String × String) → List ℕ → Option (List ℕ)
alias_in [] key = none
alias_in (a ∷ as') key = if codes a.0 == key then some (codes a.1) else alias_in as' key

-- `none` stands for the error of an unknown hint.
unfoldable pub resolve_role_hint : Option (List ℕ) → Option (List ℕ)
unfolding lower strip
resolve_role_hint none = some []
resolve_role_hint (some hint) =
    let key = lower (strip hint) in if is_nil key then some [] else alias_in role_aliases key

-- `Reservations.busy`.
unfoldable pub busy : StateDb → List (List ℕ) → List (List ℕ)
busy db reserved = map (λ r. codes r.slot) (list_runs db (some "running")) ++ reserved

-- `set.add` and `set.discard`.
unfoldable pub reserve : List ℕ → List (List ℕ) → List (List ℕ)
reserve profile reserved = if contains profile reserved then reserved else profile ∷ reserved

unfoldable pub release : List ℕ → List (List ℕ) → List (List ℕ)
release profile reserved = filter (λ p. not (p == profile)) reserved

pub data Routed : Type 0 where
  assignment : (task_id : String) (profile role_hint : List ℕ) (kind : Kind) → Routed
  unknown_role : (task_id : String) (hint : Option (List ℕ)) → Routed
  no_slot : (task_id : String) (hint : Option (List ℕ)) → Routed
  all_busy : (task_id : String) (pool : ℕ) (hint : Option (List ℕ)) → Routed

unfoldable pub eligible_worker_pool : FleetConfig → List ℕ → List SlotIdentity
unfolding slots_of_kind concrete_slots
eligible_worker_pool cfg [] = slots_of_kind cfg worker
eligible_worker_pool cfg (c ∷ cs) = filter (λ s. s.role == c ∷ cs) (concrete_slots cfg)

unfoldable pub first_free : List (List ℕ) → List SlotIdentity → Option SlotIdentity
first_free taken pool = find? (λ s. not (contains s.profile taken)) pool

unfoldable pub route_task :
    FleetConfig → StateDb → List (List ℕ) → String → Option (List ℕ) → Routed × List (List ℕ)
unfolding resolve_role_hint eligible_worker_pool first_free busy reserve
route_task cfg db reserved task_id hint = elim (resolve_role_hint hint) [
  | none ↦ (unknown_role task_id hint, reserved)
  | some concrete_role ↦
      let pool = eligible_worker_pool cfg concrete_role in
      if is_nil pool
      then (no_slot task_id hint, reserved)
      else elim (first_free (busy db reserved) pool) [
        | none ↦ (all_busy task_id (length pool) hint, reserved)
        | some slot ↦ (
          assignment task_id slot.profile (or_codes concrete_role (codes "worker")) slot.kind,
          reserve slot.profile reserved,
        )
      ]
]

unfoldable pub free_slot_for_kind :
    FleetConfig → StateDb → List (List ℕ) → Kind → Option SlotIdentity × List (List ℕ)
unfolding first_free busy reserve slots_of_kind
free_slot_for_kind cfg db reserved kind =
    elim (first_free (busy db reserved) (slots_of_kind cfg kind)) [
      | none ↦ (none, reserved)
      | some slot ↦ (some slot, reserve slot.profile reserved)
    ]
