-- ===== src/Planner/Gates.antt =====
-- src/hca/kanban_orchestrator.py: the kinds of the proposed tasks, as src/hca/decompose.py reads them.
use hermes_concurrent_agents.Common.{
  ℕ, suc, String, ◌≡◌, refl, sym, subst, inl, inr, false, List, [], ◌∷◌, ◌++◌, map, arith, nat_eq,
  string_eq, Bool-cases, length, filter, any, All,
}
use hermes_concurrent_agents.Run.Spec.{RunSpec}
use hermes_concurrent_agents.Evidence.{review_required}
use hermes_concurrent_agents.Decompose.{TaskNode, is_gate, is_final_node}
use hermes_concurrent_agents.Planner.{
  is_parallel, slice_node, slice_nodes, integration_node, single_node, review_nodes, final_node,
  closing_nodes, criterion_groups, default_planner,
}
use hermes_concurrent_agents.Planner.Shape.{planner_parallel}

-- One final task, and none of the kinds that the barrier takes for a gate.
abbrev pub HasOneEnd : List TaskNode → Type 0
HasOneEnd ns = (any is_gate ns ≡ false) × (length (filter is_final_node ns) ≡ 1)

abbrev IsInner : TaskNode → Type 0
IsInner n = (is_gate n ≡ false) × (is_final_node n ≡ false)

prefixed-HasOneEnd : (ns ms : List TaskNode) → All IsInner ns → HasOneEnd ms → HasOneEnd (ns ++ ms)
prefixed-HasOneEnd [] ms h e = e
prefixed-HasOneEnd (n ∷ ns) ms h e = ground (arith, prefixed-HasOneEnd ns ms h.1 e)

slice_nodes-IsInner :
    (spec : RunSpec) (i : ℕ) (gs : List (List String)) → All IsInner (slice_nodes spec i gs)
unfolding slice_nodes slice_node
slice_nodes-IsInner spec i [] = tt
slice_nodes-IsInner spec i (g ∷ gs) = ((refl, refl), slice_nodes-IsInner spec (suc i) gs)

closing_nodes-HasOneEnd : (spec : RunSpec) (parent : String) → HasOneEnd (closing_nodes spec parent)
unfolding closing_nodes review_nodes final_node
closing_nodes-HasOneEnd spec parent = elim (Bool-cases (review_required spec)) [
  | inl reviewed ↦ rw reviewed (refl, refl)
  | inr plain ↦ rw plain (refl, refl)
]

-- The proposed graph has exactly one final task and no task of the kinds that the barrier takes for a
-- gate, so that the barrier never asks its final task to depend on one.
pub planned_ends :
    (spec : RunSpec)
    → (any is_gate (default_planner spec) ≡ false)
      × (length (filter is_final_node (default_planner spec)) ≡ 1)
planned_ends spec = elim (Bool-cases (is_parallel spec)) [
  | inl parallel ↦
      let slices = slice_nodes spec 1 (criterion_groups spec) in
      subst HasOneEnd (sym (planner_parallel spec parallel)) (
        prefixed-HasOneEnd slices
          (integration_node spec (map (λ n. n.id) slices) ∷ closing_nodes spec "integration")
          (slice_nodes-IsInner spec 1 (criterion_groups spec))
          (prefixed-HasOneEnd (integration_node spec (map (λ n. n.id) slices) ∷ [])
            (closing_nodes spec "integration") (unfold integration_node in ((refl, refl), tt))
            (closing_nodes-HasOneEnd spec "integration")))
  | inr single ↦
      unfold default_planner in
      rw single (
        prefixed-HasOneEnd (single_node spec ∷ []) (closing_nodes spec "work")
          (unfold single_node in ((refl, refl), tt)) (closing_nodes-HasOneEnd spec "work"))
]
