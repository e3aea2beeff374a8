-- ===== src/Team.antt =====
-- src/hca/team.py: the roles of a team, and its selection by name. The bundled templates, read from
-- their files, are an argument.
use hermes_concurrent_agents.Common.{
  ℕ, String, Bool, true, false, ◌||◌, Option, none, some, List, [], ◌∷◌, if◌then◌else◌, ◌==◌,
  nat_eq, string_eq, is_empty, contains,
}

pub record TeamRole : Type 0 where
  pub name : String
  pub kind : String
  pub count : ℕ
  pub description : String

pub record TeamSpec : Type 0 where
  pub name : String
  pub description : String
  pub review_policy : String
  pub max_workers : ℕ
  pub roles : List TeamRole
  pub schema_version : ℕ

abbrev pub find_role : String → List TeamRole → Option TeamRole
find_role kind [] = none
find_role kind (r ∷ rs) = if r.kind == kind then some r else find_role kind rs

unfoldable pub role_of_kind : TeamSpec → String → Option TeamRole
role_of_kind t kind = find_role kind t.roles

abbrev pub count_of : Option TeamRole → ℕ
count_of none = 0
count_of (some r) = r.count

unfoldable pub worker_count : TeamSpec → ℕ
unfolding role_of_kind
worker_count t = count_of (role_of_kind t "worker")

abbrev pub is_present : Option TeamRole → Bool
is_present none = false
is_present (some r) = true

unfoldable pub requires_review : TeamSpec → Bool
unfolding role_of_kind
requires_review t = t.review_policy == "always" || is_present (role_of_kind t "reviewer")

module _ (templates : String → Option TeamSpec) where
  -- No template of the name is a `TeamError`.
  unfoldable pub load_team : String → Option TeamSpec
  load_team name = templates (if is_empty name then "default" else name)

  abbrev pub with_policy : String → Option TeamSpec → Option TeamSpec
  with_policy policy none = none
  with_policy policy (some t) =
      if contains policy ("auto" ∷ "always" ∷ "never" ∷ [])
      then some (record t { review_policy = policy })
      else some t

  unfoldable pub select_team : String → String → Option TeamSpec
  unfolding load_team
  select_team name policy = with_policy policy (load_team name)
