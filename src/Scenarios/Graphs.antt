-- ===== src/Scenarios/Graphs.antt =====
-- Task graphs for src/hca/decompose.py.
use hermes_concurrent_agents.Common.{
  String, ◌≡◌, refl, ◌↔◌, true, some, List, [], ◌∷◌, nat_eq, string_eq, All, contains,
}
use hermes_concurrent_agents.Decompose.{
  TaskNode, ids, sort, start_rows, lower_rows, released, kahn, topo_order, ancestors, cyclic,
  over_budget, validate_task_graph,
}
use hermes_concurrent_agents.Common.Counting.{nodup}
use hermes_concurrent_agents.Decompose.Ancestors.{ancestors_iff}
use hermes_concurrent_agents.Decompose.Dependencies.{Reaches}
use hermes_concurrent_agents.Decompose.Cycles.{KnownOnce}
use hermes_concurrent_agents.Decompose.Ranks.{IsAcyclic, topo_order_iff}
use hermes_concurrent_agents.Decompose.Order.{IsTopological}
use hermes_concurrent_agents.Decompose.Barrier.{IsReleasable, validate_iff, valid_order}

-- Implementation, verification, then the final task, listed out of order.
abbrev build : TaskNode
build = record {
  id = "build";
  title = "";
  role_hint = "worker";
  depends_on = [];
  requirements = [];
  acceptance_criteria = "it runs" ∷ [];
  expected_artifacts = [];
  scope = "the parser";
  kind = "work";
}

abbrev verify : TaskNode
verify = record build { id = "verify"; depends_on = "build" ∷ []; kind = "verification" }

abbrev final_task : TaskNode
final_task = record build { id = "final"; depends_on = "verify" ∷ []; kind = "final" }

abbrev chain : List TaskNode
chain = final_task ∷ verify ∷ build ∷ []

-- The final task depends on itself through the verification.
abbrev loop : List TaskNode
loop = final_task ∷ record verify { depends_on = "final" ∷ [] } ∷ build ∷ []

-- One edge is listed twice.
abbrev doubled : List TaskNode
doubled = final_task ∷ record verify { depends_on = "build" ∷ "build" ∷ [] } ∷ build ∷ []

chain_valid : (validate_task_graph chain 20 true).valid ≡ true
unfolding validate_task_graph topo_order start_rows kahn sort lower_rows released ancestors
chain_valid = refl

chain_order : (validate_task_graph chain 20 true).order ≡ "build" ∷ "verify" ∷ "final" ∷ []
unfolding validate_task_graph topo_order start_rows kahn sort lower_rows released ancestors
chain_order = refl

loop_reasons : (validate_task_graph loop 20 true).reasons ≡ cyclic ∷ []
unfolding validate_task_graph topo_order start_rows kahn sort lower_rows released ancestors
loop_reasons = refl

doubled_reasons : (validate_task_graph doubled 20 true).reasons ≡ cyclic ∷ []
unfolding validate_task_graph topo_order start_rows kahn sort lower_rows released ancestors
doubled_reasons = refl

over_budget_reasons : (validate_task_graph chain 2 true).reasons ≡ over_budget 3 2 ∷ []
unfolding validate_task_graph topo_order start_rows kahn sort lower_rows released ancestors
over_budget_reasons = refl

validate_iff_example :
    ((validate_task_graph chain 20 true).valid ≡ true) ↔ IsReleasable chain 20 true
validate_iff_example = validate_iff chain 20 true

valid_order_example :
    let order = (validate_task_graph chain 20 true).order in
    (nodup order ≡ true)
    × All (λ x. contains x (ids chain) ≡ true) order
    × All (λ x. contains x order ≡ true) (ids chain)
    × IsTopological chain [] order
valid_order_example = valid_order chain 20 true chain_valid

topo_order_iff_example :
    ((order : List String) × (topo_order doubled ≡ some order))
    ↔ (IsAcyclic doubled × All (KnownOnce (ids doubled)) doubled)
topo_order_iff_example = topo_order_iff doubled refl

ancestors_iff_example :
    (seen : List String) × (ancestors chain "final" ≡ some seen)
    × ((x : String) → (contains x seen ≡ true) ↔ Reaches chain "final" x)
ancestors_iff_example = ancestors_iff chain "final"
