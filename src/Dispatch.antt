-- ===== src/Dispatch.antt =====
-- src/hca/kanban.py: the choice of an idle slot, and the reservation of slots for ready tasks before a
-- dispatch. The rows of the Kanban board and the readings that `admit` takes are arguments, as is the
-- text of an activity; names are lists of code points, and the counters of roles are counts of lists.
pub mod Roles
pub mod Idle
pub mod Booked
pub mod Recounted
pub mod Reserved
pub mod Credits
use hermes_concurrent_agents.Common.{
  ℕ, zero, suc, ◌+◌, ◌*◌, ◌%◌, String, refl, Bool, true, false, not, ◌&&◌, ◌||◌, Option, none, some,
  List, [], ◌∷◌, ◌++◌, map, arith, leb, eqb, if◌then◌else◌, ◌==◌, nat_eq, string_eq, length, is_nil,
  filter, contains,
}
use hermes_concurrent_agents.Common.Json.{end}
use hermes_concurrent_agents.Common.Words.{codes, lower, codes_eq}
use hermes_concurrent_agents.StateDb.{StateDb, list_runs, set_activity}
use hermes_concurrent_agents.Resources.{
  CapacityConfig, CapacitySnapshot, DeviceSignals, Refusal, Decision, waiting, admitted, admit,
}
use hermes_concurrent_agents.Routing.{FleetConfig, slot_name, concrete_slots, busy, reserve}

unfoldable pub starts_with : List ℕ → List ℕ → Bool
starts_with [] cs = true
starts_with (p ∷ ps) [] = false
starts_with (p ∷ ps) (c ∷ cs) = eqb p c && starts_with ps cs

-- `part in text`.
unfoldable pub is_part : List ℕ → List ℕ → Bool
unfolding starts_with
is_part part [] = is_nil part
is_part part (c ∷ cs) = starts_with part (c ∷ cs) || is_part part cs

-- `text.endswith(part)`.
unfoldable pub ends_with : List ℕ → List ℕ → Bool
ends_with part [] = is_nil part
ends_with part (c ∷ cs) = part == c ∷ cs || ends_with part cs

abbrev pub slot_roles : List String
slot_roles = "orchestrator" ∷ "general" ∷ "coder" ∷ "research" ∷ "qa" ∷ "creative" ∷ []

unfoldable pub names_role : List ℕ → String → Bool
unfolding is_part ends_with
names_role a key =
    is_part (codes "-" ++ (codes key ++ codes "-")) a || ends_with (codes "-" ++ codes key) a

unfoldable pub role_among : List String → List ℕ → List ℕ
unfolding names_role
role_among [] a = codes "coder"
role_among (key ∷ keys) a = if names_role a key then codes key else role_among keys a

-- `_role_from_profile`.
unfoldable pub role_from_profile : List ℕ → List ℕ
unfolding lower role_among
role_from_profile profile = role_among slot_roles (lower profile)

-- A dictionary with names for its keys.
abbrev pub lookup_count : List ℕ → List (List ℕ × ℕ) → Option ℕ
lookup_count key [] = none
lookup_count key (e ∷ es) = if e.0 == key then some e.1 else lookup_count key es

abbrev pub put_count : List ℕ → ℕ → List (List ℕ × ℕ) → List (List ℕ × ℕ)
put_count key n [] = (key, n) ∷ []
put_count key n (e ∷ es) = if e.0 == key then (key, n) ∷ es else e ∷ put_count key n es

-- `int(d.get(key, 1) or 1)` and `d.get(key, 0)`.
abbrev pub count_or_one : Option ℕ → ℕ
count_or_one none = 1
count_or_one (some n) = if eqb n 0 then 1 else n

abbrev pub count_or_zero : Option ℕ → ℕ
count_or_zero none = 0
count_or_zero (some n) = n

-- The offsets from `offset` on, `left` of them: the first whose slot is not busy.
unfoldable pub idle_from : List ℕ → List ℕ → List (List ℕ) → ℕ → ℕ → ℕ → ℕ → Option (ℕ × List ℕ)
unfolding slot_name
idle_from fleet role taken slots cursor offset zero = none
idle_from fleet role taken slots cursor offset (suc left) =
    let name = slot_name fleet role (suc ((cursor + offset) % slots)) in
    let rest = idle_from fleet role taken slots cursor (suc offset) left in
    if contains name taken then rest else some (offset, name)

abbrev pub live_slots : StateDb → List (List ℕ)
live_slots db = map (λ r. codes r.slot) (list_runs db (some "running"))

abbrev pub advanced :
    List ℕ → ℕ → List (List ℕ × ℕ) → Option (ℕ × List ℕ) → Option (List ℕ) × List (List ℕ × ℕ)
advanced role cursor cursors none = (none, cursors)
advanced role cursor cursors (some found) =
    (some found.1, put_count role (cursor + found.0 + 1) cursors)

unfoldable pub pick_idle_slot :
    FleetConfig → StateDb → List (List ℕ × ℕ) → List ℕ → Option (List ℕ) × List (List ℕ × ℕ)
unfolding role_from_profile idle_from
pick_idle_slot cfg db cursors assignee =
    let role = role_from_profile assignee in
    let slots = count_or_one (lookup_count role cfg.profile_slots) in
    let cursor = count_or_zero (lookup_count role cursors) in
    advanced role cursor cursors (idle_from cfg.name role (live_slots db) slots cursor 0 slots)

pub record DispatchConfig : Type 0 where
  pub fleet : FleetConfig
  pub board : String
  pub capacity : CapacityConfig
  pub per_role_caps : List (List ℕ × ℕ)

-- A ready, unclaimed task of the board.
pub record ReadyRow : Type 0 where
  pub id : String
  pub assignee : String

-- Why a task waits.
pub data Wait : Type 0 where
  slot_active : (assignee : String) → Wait
  role_full : (role : List ℕ) (cap : ℕ) → Wait
  not_admitted : Refusal → Wait

-- The state of a reservation: the ledger, `Reservations.reserved`, the set `busy`, and the list that
-- is returned.
pub record Reserving : Type 0 where
  pub db : StateDb
  pub reserved : List (List ℕ)
  pub taken : List (List ℕ)
  pub profiles : List (List ℕ)

-- Whether the loop goes on with the next row.
pub data Step : Type 0 where
  next : Reserving → Step
  halt : Reserving → Step

-- How many names have the role.
unfoldable pub count_role : List ℕ → List (List ℕ) → ℕ
count_role role names = length (filter (λ p. role_from_profile p == role) names)

unfoldable pub at_cap : Option ℕ → ℕ → Bool
at_cap none n = false
at_cap (some cap) n = leb cap n

abbrev pub id_allowed : Option (List String) → String → Bool
id_allowed none id = true
id_allowed (some ids) id = contains id ids

abbrev pub cap_of : Option ℕ → ℕ
cap_of none = 0
cap_of (some cap) = cap

module _ (cfg : DispatchConfig) (limit : ℕ) (ids : Option (List String)) (requested : ℕ)
    (device : ℕ → Option DeviceSignals) (snapshot : ℕ → Option CapacitySnapshot) (clock : ℕ → ℕ)
    (say : Wait → String) where
  -- `state.set_activity(kind="admission.wait", …)`.
  unfoldable pub note_wait : StateDb → ReadyRow → Wait → ℕ → StateDb
  unfolding set_activity
  note_wait db row why i =
      set_activity db "admission.wait" (say why) cfg.board row.id "" row.assignee "" end (clock i)

  abbrev pub book : Reserving → StateDb → List ℕ → Reserving
  book t db assignee = record {
    db = db;
    reserved = reserve assignee t.reserved;
    taken = assignee ∷ t.taken;
    profiles = t.profiles ++ assignee ∷ [];
  }

  unfoldable pub decided : ReadyRow → Reserving → ℕ → Decision × StateDb → Step
  unfolding note_wait
  decided row t i (waiting why, db) = halt (record t { db = note_wait db row (not_admitted why) i })
  decided row t i (admitted warnings, db) = next (book t db (codes row.assignee))

  -- The row with the number `i`; `live` are the slots of the active runs.
  unfoldable pub reserve_row : List (List ℕ) → ReadyRow → Reserving → ℕ → Step
  unfolding decided role_from_profile count_role at_cap reserve
  reserve_row live row t i =
      let assignee = codes row.assignee in
      let role = role_from_profile assignee in
      let cap = lookup_count role cfg.per_role_caps in
      if not (id_allowed ids row.id)
      then next t
      else if not (contains assignee (map (λ s. s.profile) (concrete_slots cfg.fleet)))
      then next t
      else if contains assignee t.taken
      then next (record t { db = note_wait t.db row (slot_active row.assignee) i })
      else if at_cap cap (count_role role live + count_role role t.profiles)
      then next (record t { db = note_wait t.db row (role_full role (cap_of cap)) i })
      else decided row t i (
          admit cfg.capacity t.db (device i) (snapshot i) none false requested
            (100 * suc (length t.profiles)) (clock i))

  unfoldable pub reserve_rows : List (List ℕ) → List ReadyRow → Reserving → ℕ → Reserving
  unfolding reserve_row
  reserve_rows live [] t i = t
  reserve_rows live (row ∷ rows) t i =
      if leb limit (length t.profiles) then t else elim (reserve_row live row t i) [
        | halt u ↦ u
        | next u ↦ reserve_rows live rows u (suc i)
      ]

  -- No rows stand for an error of the board's database.
  unfoldable pub pre_reserve_ready : StateDb → List (List ℕ) → Option (List ReadyRow) → Reserving
  unfolding reserve_rows busy
  pre_reserve_ready db reserved none = record {
    db = db;
    reserved = reserved;
    taken = busy db reserved;
    profiles = [];
  }
  pre_reserve_ready db reserved (some rows) =
      reserve_rows (live_slots db) rows
        (record { db = db; reserved = reserved; taken = busy db reserved; profiles = [] }) 0
