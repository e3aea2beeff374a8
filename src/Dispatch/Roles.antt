-- ===== src/Dispatch/Roles.antt =====
-- src/hca/kanban.py: the role that is read from a profile's name.
use hermes_concurrent_agents.Common.{
  ℕ, ◌≡◌, ◌∙◌, inl, inr, String, true, List, [], ◌∷◌, map, arith, ◌==◌, nat_eq, string_eq,
  Bool-cases, contains, All,
}
use hermes_concurrent_agents.Common.Words.{codes, lower, codes_eq}
use hermes_concurrent_agents.Dispatch.{slot_roles, names_role, role_among, role_from_profile}

-- The name of a profile marks one role only, up to case: the role stands between dashes or after a dash
-- at the end, and no other role does. In a fleet that is named like a role, no name of another role's
-- slot is such a name.
pub record Marks (profile role : List ℕ) : Type 0 where
  pub is_role : contains role (map codes slot_roles) ≡ true
  pub marked_once : All (λ key. names_role (lower profile) key ≡ (codes key == role)) slot_roles

role_among-marked :
    (keys : List String) (a role : List ℕ)
    → contains role (map codes keys) ≡ true
    → All (λ key. names_role a key ≡ (codes key == role)) keys
    → role_among keys a ≡ role
unfolding role_among
role_among-marked [] a role h k = cc
role_among-marked (key ∷ keys) a role h k = elim (Bool-cases (codes key == role)) [
  | inl same ↦ rw (k.0 ∙ same) ((codes_eq.same_iff (codes key) role).0 same)
  | inr other ↦ rw (k.0 ∙ other) (role_among-marked keys a role (ground (arith, h, other)) k.1)
]

-- The role that a name marks is the one that is read from it.
pub role_from_profile-Marks :
    (profile role : List ℕ) → Marks profile role → role_from_profile profile ≡ role
unfolding role_from_profile
role_from_profile-Marks profile role m =
    role_among-marked slot_roles (lower profile) role m.is_role m.marked_once
