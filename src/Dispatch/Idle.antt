-- ===== src/Dispatch/Idle.antt =====
-- src/hca/kanban.py: the round robin over the slots of a role.
use hermes_concurrent_agents.Common.{
  ℕ, zero, suc, ◌+◌, ◌-◌, ◌%◌, ◌≤◌, ◌<◌, ◌≡◌, refl, sym, ap, subst, ◌∙◌, inl, inr, true, false,
  Option, none, some, List, arith, leb, ◌==◌, nat_eq, Bool-cases, contains,
}
use hermes_concurrent_agents.Common.Words.{codes_eq}
use hermes_concurrent_agents.StateDb.{StateDb}
use hermes_concurrent_agents.Routing.{FleetConfig, slot_name}
use hermes_concurrent_agents.Dispatch.{
  role_from_profile, lookup_count, count_or_one, count_or_zero, idle_from, live_slots, advanced,
  pick_idle_slot,
}
use hermes_concurrent_agents.Dispatch.Roles.{Marks, role_from_profile-Marks}
use native.Mathlib.Nat.{mod-lt, mod-eq_of_lt, mod-add-mod, add-mod_left}

-- Every index comes up once in a round.
round : (cursor i slots : ℕ) → i < slots → (o : ℕ) × (o < slots) × ((cursor + o) % slots ≡ i)
round cursor i slots h =
    let c : ℕ = cursor % slots in
    let small : c < slots = mod-lt cursor (ground (arith, h)) in
    elim (Bool-cases (leb c i)) [
      | inl up ↦ (
        i - c,
        ground (arith, up, h),
        sym (mod-add-mod cursor slots (i - c))
            ∙ ap (λ x. x % slots) (sum_up c i (ground (arith, up)))
            ∙ mod-eq_of_lt h,
      )
      | inr down ↦ (
        slots + i - c,
        ground (arith, down, small),
        sym (mod-add-mod cursor slots (slots + i - c))
            ∙ ap (λ x. x % slots) (sum_up c (slots + i) (ground (arith, small)))
            ∙ add-mod_left slots i
            ∙ mod-eq_of_lt h,
      )
    ]
  where
    sum_up : (a b : ℕ) → a ≤ b → a + (b - a) ≡ b
    sum_up a b k = omega arith

module _ (fleet role : List ℕ) (taken : List (List ℕ)) (slots cursor : ℕ) where
  abbrev name_at : ℕ → List ℕ
  name_at o = slot_name fleet role (suc ((cursor + o) % slots))

  -- What a scan finds: an offset whose slot is free, or none in its range.
  abbrev Scanned : ℕ → ℕ → Option (ℕ × List ℕ) → Type 0
  Scanned offset left none =
      (o : ℕ) → offset ≤ o → o < offset + left → contains (name_at o) taken ≡ true
  Scanned offset left (some found) = (found.1 ≡ name_at found.0) × (contains found.1 taken ≡ false)

  Scanned-idle_from :
      (offset left : ℕ) → Scanned offset left (idle_from fleet role taken slots cursor offset left)
  unfolding idle_from
  Scanned-idle_from offset zero = λ o low high. ground arith
  Scanned-idle_from offset (suc left) = elim (Bool-cases (contains (name_at offset) taken)) [
    | inr free ↦ rw free (refl, free)
    | inl held ↦ rw held (
        later (idle_from fleet role taken slots cursor (suc offset) left) held
          (Scanned-idle_from (suc offset) left))
  ]
    where
      later :
          (o : Option (ℕ × List ℕ))
          → contains (name_at offset) taken ≡ true
          → Scanned (suc offset) left o
          → Scanned offset (suc left) o
      later (some found) held h = h
      later none held h = λ o low high. elim (Bool-cases (o == offset)) [
        | inl here ↦
            subst (λ x. contains (name_at x) taken ≡ true) (sym ((nat_eq.same_iff o offset).0 here))
              held
        | inr other ↦ h o (ground (arith, other, nat_eq.same_iff o offset)) (ground (arith, high))
      ]

-- The number of slots that the configuration gives to a role: one if it does not name the role.
abbrev pub slots_of : FleetConfig → List ℕ → ℕ
slots_of cfg role = count_or_one (lookup_count role cfg.profile_slots)

-- What is picked: a slot of the role that holds no live run, or none if all of them hold one.
abbrev pub Picked : FleetConfig → StateDb → List ℕ → Option (List ℕ) → Type 0
Picked cfg db role none =
    (i : ℕ)
    → i < slots_of cfg role
    → contains (slot_name cfg.name role (suc i)) (live_slots db) ≡ true
Picked cfg db role (some name) =
    ((i : ℕ) × (i < slots_of cfg role) × (name ≡ slot_name cfg.name role (suc i)))
    × (contains name (live_slots db) ≡ false)

some_slots : (o : Option ℕ) → 0 < count_or_one o
some_slots none = omega arith
some_slots (some n) = ground arith

Picked-read :
    (cfg : FleetConfig) (db : StateDb) (cursors : List (List ℕ × ℕ)) (assignee : List ℕ)
    → Picked cfg db (role_from_profile assignee) (pick_idle_slot cfg db cursors assignee).0
unfolding pick_idle_slot
Picked-read cfg db cursors assignee =
    go (idle_from cfg.name role (live_slots db) slots cursor 0 slots)
      (Scanned-idle_from cfg.name role (live_slots db) slots cursor 0 slots)
  where
    role : List ℕ
    role = role_from_profile assignee

    slots : ℕ
    slots = slots_of cfg role

    cursor : ℕ
    cursor = count_or_zero (lookup_count role cursors)

    go :
        (o : Option (ℕ × List ℕ))
        → Scanned cfg.name role (live_slots db) slots cursor 0 slots o
        → Picked cfg db role (advanced role cursor cursors o).0
    go none h = λ i small.
        let (o, low, e) = round cursor i slots small in
        subst (λ x. contains (slot_name cfg.name role (suc x)) (live_slots db) ≡ true) e
          (h o (omega arith) (ground (arith, low)))
    go (some found) h = (
      (
        (cursor + found.0) % slots,
        mod-lt (cursor + found.0) (some_slots (lookup_count role cfg.profile_slots)),
        h.0,
      ),
      h.1,
    )

-- If the name of the assignee marks one role only, then from any cursor a slot of that role that holds
-- no live run is picked, and none is picked only if every slot of the role holds one.
pub Picked-idle :
    (cfg : FleetConfig) (db : StateDb) (cursors : List (List ℕ × ℕ)) (assignee role : List ℕ)
    → Marks assignee role
    → Picked cfg db role (pick_idle_slot cfg db cursors assignee).0
Picked-idle cfg db cursors assignee role m =
    subst (λ r. Picked cfg db r (pick_idle_slot cfg db cursors assignee).0)
      (role_from_profile-Marks assignee role m) (Picked-read cfg db cursors assignee)
