-- ===== src/Dispatch/Recounted.antt =====
-- src/hca/kanban.py: the roles of slots as the configuration gives them, and as they are counted.
use hermes_concurrent_agents.Common.{
  ℕ, ◌+◌, ◌≤◌, ◌≡◌, sym, ap, ◌∙◌, ◌⊎◌, inl, inr, Bool, true, false, ◌&&◌, ◌||◌, List, [], ◌∷◌,
  arith, ◌==◌, nat_eq, Bool-cases, and_true, length, filter, All,
}
use hermes_concurrent_agents.Common.Words.{codes_eq}
use hermes_concurrent_agents.Routing.{SlotIdentity, concrete_slots}
use hermes_concurrent_agents.Dispatch.{DispatchConfig, Reserving, role_from_profile, count_role}
use hermes_concurrent_agents.Dispatch.Roles.{Marks, role_from_profile-Marks}
use hermes_concurrent_agents.Dispatch.Booked.{Booked}

-- Whether a name is that of a configured slot of the role.
abbrev pub is_slot_of : List ℕ → List ℕ → List SlotIdentity → Bool
is_slot_of role name [] = false
is_slot_of role name (s ∷ slots) = s.role == role && s.profile == name || is_slot_of role name slots

-- How many of the names are those of configured slots of the role.
abbrev pub count_slots : DispatchConfig → List ℕ → List (List ℕ) → ℕ
count_slots cfg role names =
    length (filter (λ p. is_slot_of role p (concrete_slots cfg.fleet)) names)

is_slot_of-role :
    (role name : List ℕ) (slots : List SlotIdentity)
    → All (λ s. Marks s.profile s.role) slots
    → is_slot_of role name slots ≡ true
    → role_from_profile name ≡ role
is_slot_of-role role name [] m h = cc
is_slot_of-role role name (s ∷ slots) m h =
    elim (Bool-cases (s.role == role && s.profile == name)) [
      | inl here ↦
          let r : s.role ≡ role = (codes_eq.same_iff s.role role).0 (and_true here).0 in
          let n : s.profile ≡ name = (codes_eq.same_iff s.profile name).0 (and_true here).1 in
          ap role_from_profile (sym n) ∙ role_from_profile-Marks s.profile s.role m.0 ∙ r
      | inr away ↦ is_slot_of-role role name slots m.1 (ground (arith, h, away))
    ]

count_slots-le :
    (cfg : DispatchConfig) (role : List ℕ) (names : List (List ℕ))
    → All (λ s. Marks s.profile s.role) (concrete_slots cfg.fleet)
    → count_slots cfg role names ≤ count_role role names
unfolding count_role
count_slots-le cfg role [] m = omega arith
count_slots-le cfg role (p ∷ names) m =
    elim (Bool-cases (is_slot_of role p (concrete_slots cfg.fleet))) [
      | inl slot ↦
          let same =
            (codes_eq.same_iff (role_from_profile p) role).1
              (is_slot_of-role role p (concrete_slots cfg.fleet) m slot) in
          rw (slot, same) (omega (arith, count_slots-le cfg role names m))
      | inr other ↦ rw other (ground (arith, count_slots-le cfg role names m))
    ]

pub recounted :
    {cfg : DispatchConfig} {limit : ℕ} (first before live : List (List ℕ)) (t : Reserving)
    → All (λ s. Marks s.profile s.role) (concrete_slots cfg.fleet)
    → Booked cfg limit first before live count_role t
    → Booked cfg limit first before live (count_slots cfg) t
recounted {cfg} {limit} first before live t m good = record {
  within = good.within;
  distinct = good.distinct;
  free = good.free;
  configured = good.configured;
  caps = λ role cap e. fewer role cap (good.caps role cap e);
  recorded = good.recorded;
  held = good.held;
}
  where
    fewer :
        (role : List ℕ) (cap : ℕ)
        → (count_role role t.profiles ≡ 0)
          ⊎ (count_role role live + count_role role t.profiles ≤ cap)
        → (count_slots cfg role t.profiles ≡ 0)
          ⊎ (count_slots cfg role live + count_slots cfg role t.profiles ≤ cap)
    fewer role cap (inl e) = inl (omega (arith, e, count_slots-le cfg role t.profiles m))
    fewer role cap (inr h) =
        inr (omega (arith, h, count_slots-le cfg role t.profiles m, count_slots-le cfg role live m))
