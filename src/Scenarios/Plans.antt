-- ===== src/Scenarios/Plans.antt =====
-- The default planner at a concrete specification.
use hermes_concurrent_agents.Common.{
  ℕ, ◌++◌, ◌≤◌, max, ◌≡◌, refl, true, false, [], ◌∷◌, map, nat_eq, string_eq, length, filter, any,
}
use hermes_concurrent_agents.Run.Spec.{RunSpec}
use hermes_concurrent_agents.Evidence.{review_required}
use hermes_concurrent_agents.Decompose.{is_gate, is_final_node}
use hermes_concurrent_agents.Planner.{is_parallel, default_planner, criterion_groups}
use hermes_concurrent_agents.Planner.Shape.{
  occurs, in_work, copies, kinds, closing_kinds, criteria_shared, planned_size,
}
use hermes_concurrent_agents.Planner.Gates.{planned_ends}
use hermes_concurrent_agents.Scenarios.Evidences.{reviewed_spec}

abbrev three_criteria : RunSpec
three_criteria = record reviewed_spec {
  acceptance_criteria = "a" ∷ "b" ∷ "c" ∷ [];
  independent_criteria = true;
  budgets = record reviewed_spec.budgets { max_workers = 2; max_tasks = 8 };
}

three_parallel : is_parallel three_criteria ≡ true
unfolding is_parallel review_required
three_parallel = refl

three_groups : criterion_groups three_criteria ≡ ("a" ∷ "c" ∷ []) ∷ ("b" ∷ []) ∷ []
unfolding criterion_groups review_required
three_groups = refl

three_ids :
    map (λ n. n.id) (default_planner three_criteria)
    ≡ "work-1" ∷ "work-2" ∷ "integration" ∷ "review-1" ∷ "review-gate-1" ∷ "final" ∷ []
unfolding default_planner review_required
three_ids = refl

criteria_shared_example :
    in_work "c" (default_planner three_criteria) ≡ occurs "c" three_criteria.acceptance_criteria
criteria_shared_example = criteria_shared three_criteria "c" three_parallel

planned_size_example :
    (n : ℕ) × (kinds (default_planner three_criteria)
      ≡ copies n "work" ++ closing_kinds (review_required three_criteria))
    × (2 ≤ n)
    × (n ≤ length three_criteria.acceptance_criteria)
    × (n ≤ max 1 three_criteria.budgets.max_workers)
    × (length (default_planner three_criteria) ≤ three_criteria.budgets.max_tasks)
planned_size_example = planned_size three_criteria three_parallel

planned_ends_example :
    (any is_gate (default_planner three_criteria) ≡ false)
    × (length (filter is_final_node (default_planner three_criteria)) ≡ 1)
planned_ends_example = planned_ends three_criteria
