-- ===== src/Dispatch/Credits.antt =====
-- src/hca/kanban.py: the credits of the slots that are reserved for ready tasks.
use hermes_concurrent_agents.Common.{
  ℕ, suc, ◌+◌, ◌*◌, ◌≤◌, String, ◌≡◌, refl, ◌⊎◌, inl, inr, false, Option, none, some, List, [], ◌∷◌,
  map, arith, leb, nat_eq, string_eq, Bool-cases, length, contains, length-append,
}
use hermes_concurrent_agents.Common.Words.{codes, codes_eq}
use hermes_concurrent_agents.StateDb.{StateDb, sum_credits, set_activity}
use hermes_concurrent_agents.Resources.{
  CapacitySnapshot, DeviceSignals, Decision, waiting, admitted, admit,
}
use hermes_concurrent_agents.Resources.Budget.{Promise, admit-Promise}
use hermes_concurrent_agents.Routing.{concrete_slots, busy}
use hermes_concurrent_agents.Dispatch.{
  DispatchConfig, ReadyRow, Wait, slot_active, role_full, not_admitted, cap_of, Reserving, Step,
  next, halt, role_from_profile, lookup_count, live_slots, count_role, at_cap, id_allowed,
  note_wait, decided, reserve_row, reserve_rows, pre_reserve_ready,
}

-- The credits of the leases, with one credit (a hundred units) for each slot reserved so far, are within
-- the configured total; without a reservation nothing is said.
abbrev pub Fits : DispatchConfig → Reserving → Type 0
Fits cfg t =
    (t.profiles ≡ [])
    ⊎ (sum_credits t.db.leases + 100 * length t.profiles ≤ cfg.capacity.max_total_sequences)

abbrev StepFits : DispatchConfig → Step → Type 0
StepFits cfg (next t) = Fits cfg t
StepFits cfg (halt t) = Fits cfg t

module _ (cfg : DispatchConfig) (limit : ℕ) (ids : Option (List String)) (requested : ℕ)
    (device : ℕ → Option DeviceSignals) (snapshot : ℕ → Option CapacitySnapshot) (clock : ℕ → ℕ)
    (say : Wait → String) where
  note_wait-leases :
      (db : StateDb) (row : ReadyRow) (why : Wait) (i : ℕ)
      → (note_wait cfg limit ids requested device snapshot clock say db row why i).leases
        ≡ db.leases
  unfolding note_wait set_activity
  note_wait-leases db row why i = refl

  -- A ledger with no more credits than before does as well.
  Fits-fewer :
      (t : Reserving) (db : StateDb)
      → sum_credits db.leases ≤ sum_credits t.db.leases
      → Fits cfg t
      → Fits cfg (record t { db = db })
  Fits-fewer t db h (inl e) = inl e
  Fits-fewer t db h (inr k) = inr (omega (arith, h, k))

  Fits-noted :
      (t : Reserving) (db : StateDb) (row : ReadyRow) (why : Wait) (i : ℕ)
      → sum_credits db.leases ≤ sum_credits t.db.leases
      → Fits cfg t
      → Fits cfg (record t {
        db = note_wait cfg limit ids requested device snapshot clock say db row why i;
      })
  Fits-noted t db row why i h =
      Fits-fewer t (note_wait cfg limit ids requested device snapshot clock say db row why i)
        (rw (note_wait-leases db row why i) h)

  Fits-decided :
      (row : ReadyRow) (t : Reserving) (i : ℕ) (d : Decision × StateDb)
      → Fits cfg t
      → Promise cfg.capacity (100 * suc (length t.profiles)) t.db d
      → StepFits cfg (decided cfg limit ids requested device snapshot clock say row t i d)
  unfolding decided
  Fits-decided row t i (waiting why, db) good p = Fits-noted t db row (not_admitted why) i p.0 good
  Fits-decided row t i (admitted warnings, db) good p =
      inr (omega (arith, p.1 refl, length-append t.profiles (codes row.assignee ∷ [])))

  Fits-reserve_row :
      (live : List (List ℕ)) (row : ReadyRow) (t : Reserving) (i : ℕ)
      → Fits cfg t
      → StepFits cfg (reserve_row cfg limit ids requested device snapshot clock say live row t i)
  unfolding reserve_row
  Fits-reserve_row live row t i good =
      let a = codes row.assignee in
      let role = role_from_profile a in
      let cap = lookup_count role cfg.per_role_caps in
      let credits = 100 * suc (length t.profiles) in
      elim (Bool-cases (id_allowed ids row.id)) [
        | inr foreign ↦ rw foreign good
        | inl mine ↦
            rw mine
              (elim (Bool-cases (contains a (map (λ s. s.profile) (concrete_slots cfg.fleet)))) [
                | inr other ↦ rw other good
                | inl known ↦ rw known (elim (Bool-cases (contains a t.taken)) [
                  | inl taken ↦
                      rw taken
                        (Fits-noted t t.db row (slot_active row.assignee) i (omega arith) good)
                  | inr idle ↦
                      rw idle
                        (elim (Bool-cases
                          (at_cap cap (count_role role live + count_role role t.profiles))) [
                            | inl full ↦ rw full (
                                Fits-noted t t.db row (role_full role (cap_of cap)) i (omega arith)
                                  good)
                            | inr below ↦ rw below (
                                Fits-decided row t i
                                  (admit cfg.capacity t.db (device i) (snapshot i) none false
                                    requested credits (clock i))
                                  good
                                  (admit-Promise cfg.capacity t.db (device i) (snapshot i) none
                                    false requested credits (clock i)))
                          ])
                ])
              ])
      ]

  Fits-reserve_rows :
      (live : List (List ℕ)) (rows : List ReadyRow) (t : Reserving) (i : ℕ)
      → Fits cfg t
      → Fits cfg (reserve_rows cfg limit ids requested device snapshot clock say live rows t i)
  unfolding reserve_rows
  Fits-reserve_rows live [] t i good = good
  Fits-reserve_rows live (row ∷ rows) t i good = elim (Bool-cases (leb limit (length t.profiles))) [
    | inl full ↦ rw full good
    | inr room ↦ rw room (
        go (reserve_row cfg limit ids requested device snapshot clock say live row t i)
          (Fits-reserve_row live row t i good) (λ u h. Fits-reserve_rows live rows u (suc i) h))
  ]
    where
      go :
          (x : Step)
          → StepFits cfg x
          → ((u : Reserving)
              → Fits cfg u
              → Fits cfg (
                  reserve_rows cfg limit ids requested device snapshot clock say live rows u
                    (suc i)))
          → Fits cfg (elim x as (λ _. Reserving) [
            | halt u ↦ u
            | next u ↦
                reserve_rows cfg limit ids requested device snapshot clock say live rows u (suc i)
          ])
      go (halt u) h later = h
      go (next u) h later = later u h

  -- Whatever tasks are ready and whatever the device and the backend report, where a dispatch reserves
  -- any slots, the credits of the leases and one credit for each reserved slot together are within the
  -- configured total.
  pub reserved_within_budget :
      (db : StateDb) (reserved : List (List ℕ)) (rows : Option (List ReadyRow))
      → Fits cfg
          (pre_reserve_ready cfg limit ids requested device snapshot clock say db reserved rows)
  unfolding pre_reserve_ready
  reserved_within_budget db reserved none = inl refl
  reserved_within_budget db reserved (some rows) =
      Fits-reserve_rows (live_slots db) rows
        (record { db = db; reserved = reserved; taken = busy db reserved; profiles = [] }) 0
        (inl refl)
