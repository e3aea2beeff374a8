-- ===== src/Dispatch/Reserved.antt =====
-- src/hca/kanban.py: the slots that are reserved for ready tasks.
use hermes_concurrent_agents.Common.{
  ℕ, suc, ◌+◌, ◌*◌, ◌<◌, String, ◌≡◌, refl, inl, inr, true, false, Option, none, some, List, [],
  ◌∷◌, arith, leb, nat_eq, string_eq, Bool-cases, length, contains, All,
}
use hermes_concurrent_agents.Common.Words.{codes, codes_eq}
use hermes_concurrent_agents.StateDb.{StateDb}
use hermes_concurrent_agents.Resources.{
  CapacitySnapshot, DeviceSignals, Decision, waiting, admitted, admit,
}
use hermes_concurrent_agents.Routing.{concrete_slots, busy}
use hermes_concurrent_agents.Dispatch.{
  DispatchConfig, ReadyRow, Wait, Reserving, Step, next, halt, role_from_profile, lookup_count,
  live_slots, count_role, at_cap, id_allowed, decided, reserve_row, reserve_rows, pre_reserve_ready,
}
use hermes_concurrent_agents.Dispatch.Roles.{Marks}
use hermes_concurrent_agents.Dispatch.Booked.{Booked, slot_names, Booked-book, with_db}
use hermes_concurrent_agents.Dispatch.Recounted.{count_slots, recounted}

module _ (cfg : DispatchConfig) (limit : ℕ) (first before live : List (List ℕ)) where
  -- A step keeps it.
  abbrev StepBooked : Step → Type 0
  StepBooked (next t) = Booked cfg limit first before live count_role t
  StepBooked (halt t) = Booked cfg limit first before live count_role t

  module _ (ids : Option (List String)) (requested : ℕ) (device : ℕ → Option DeviceSignals)
      (snapshot : ℕ → Option CapacitySnapshot) (clock : ℕ → ℕ) (say : Wait → String) where
    Booked-reserve_row :
        (row : ReadyRow) (t : Reserving) (i : ℕ)
        → Booked cfg limit first before live count_role t
        → length t.profiles < limit
        → StepBooked (reserve_row cfg limit ids requested device snapshot clock say live row t i)
    unfolding reserve_row
    Booked-reserve_row row t i good room =
        let a = codes row.assignee in
        let role = role_from_profile a in
        let cap = lookup_count role cfg.per_role_caps in
        let counted = count_role role live + count_role role t.profiles in
        elim (Bool-cases (id_allowed ids row.id)) [
          | inr foreign ↦ rw foreign good
          | inl mine ↦ rw mine (elim (Bool-cases (contains a (slot_names cfg))) [
            | inr other ↦ rw other good
            | inl known ↦ rw known (elim (Bool-cases (contains a t.taken)) [
              | inl taken ↦ rw taken (with_db cfg limit first before live t _ good)
              | inr idle ↦ rw idle (elim (Bool-cases (at_cap cap counted)) [
                | inl full ↦ rw full (with_db cfg limit first before live t _ good)
                | inr below ↦ rw below (
                    decide
                      (admit cfg.capacity t.db (device i) (snapshot i) none false requested
                        (100 * suc (length t.profiles)) (clock i))
                      known idle below)
              ])
            ])
          ])
        ]
      where
        decide :
            (d : Decision × StateDb)
            → contains (codes row.assignee) (slot_names cfg) ≡ true
            → contains (codes row.assignee) t.taken ≡ false
            → at_cap (lookup_count (role_from_profile (codes row.assignee)) cfg.per_role_caps) (
                count_role (role_from_profile (codes row.assignee)) live
                + count_role (role_from_profile (codes row.assignee)) t.profiles)
              ≡ false
            → StepBooked (decided cfg limit ids requested device snapshot clock say row t i d)
        decide (waiting why, db) known idle below = with_db cfg limit first before live t _ good
        decide (admitted warnings, db) known idle below =
            Booked-book cfg limit first before live t db (codes row.assignee) good room idle known
              below

    Booked-reserve_rows :
        (rows : List ReadyRow) (t : Reserving) (i : ℕ)
        → Booked cfg limit first before live count_role t
        → Booked cfg limit first before live count_role
            (reserve_rows cfg limit ids requested device snapshot clock say live rows t i)
    unfolding reserve_rows
    Booked-reserve_rows [] t i good = good
    Booked-reserve_rows (row ∷ rows) t i good = elim (Bool-cases (leb limit (length t.profiles))) [
      | inl full ↦ rw full good
      | inr room ↦ rw room (
          go (reserve_row cfg limit ids requested device snapshot clock say live row t i)
            (Booked-reserve_row row t i good (ground (arith, room)))
            (λ u h. Booked-reserve_rows rows u (suc i) h))
    ]
      where
        go :
            (x : Step)
            → StepBooked x
            → ((u : Reserving)
                → Booked cfg limit first before live count_role u
                → Booked cfg limit first before live count_role (
                    reserve_rows cfg limit ids requested device snapshot clock say live rows u
                      (suc i)))
            → Booked cfg limit first before live count_role (elim x as (λ _. Reserving) [
              | halt u ↦ u
              | next u ↦
                  reserve_rows cfg limit ids requested device snapshot clock say live rows u (suc i)
            ])
        go (halt u) h later = h
        go (next u) h later = later u h

module _ (cfg : DispatchConfig) (limit : ℕ) (ids : Option (List String)) (requested : ℕ)
    (device : ℕ → Option DeviceSignals) (snapshot : ℕ → Option CapacitySnapshot) (clock : ℕ → ℕ)
    (say : Wait → String) where
  start-Booked :
      (db : StateDb) (reserved : List (List ℕ))
      → Booked cfg limit
          (busy db reserved)
          reserved
          (live_slots db)
          count_role
          (record { db = db; reserved = reserved; taken = busy db reserved; profiles = [] })
  unfolding count_role
  start-Booked db reserved = record {
    within = omega arith;
    distinct = refl;
    free = tt;
    configured = tt;
    caps = λ role cap e. inl refl;
    recorded = λ q. refl;
    held = λ q. refl;
  }

  reserved-Booked :
      (db : StateDb) (reserved : List (List ℕ)) (rows : Option (List ReadyRow))
      → Booked cfg limit
          (busy db reserved)
          reserved
          (live_slots db)
          count_role
          (pre_reserve_ready cfg limit ids requested device snapshot clock say db reserved rows)
  unfolding pre_reserve_ready
  reserved-Booked db reserved none = start-Booked db reserved
  reserved-Booked db reserved (some rows) =
      Booked-reserve_rows cfg limit (busy db reserved) reserved (live_slots db) ids requested device
        snapshot clock say rows
        (record { db = db; reserved = reserved; taken = busy db reserved; profiles = [] }) 0
        (start-Booked db reserved)

  -- If the name of each configured slot marks the slot's role only: whatever tasks are ready and whatever
  -- is admitted, the slots that are reserved for a dispatch are no more than the limit, each a configured
  -- slot, none twice, none that holds a live run or was reserved before, and they bring no role, as the
  -- configuration gives roles to slots, above its cap; with what was reserved before they are the
  -- reservations.
  pub pre_reserved :
      (db : StateDb) (reserved : List (List ℕ)) (rows : Option (List ReadyRow))
      → All (λ s. Marks s.profile s.role) (concrete_slots cfg.fleet)
      → Booked cfg limit
          (busy db reserved)
          reserved
          (live_slots db)
          (count_slots cfg)
          (pre_reserve_ready cfg limit ids requested device snapshot clock say db reserved rows)
  pre_reserved db reserved rows m =
      recounted (busy db reserved) reserved (live_slots db)
        (pre_reserve_ready cfg limit ids requested device snapshot clock say db reserved rows) m
        (reserved-Booked db reserved rows)
