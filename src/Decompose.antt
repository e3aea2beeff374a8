-- ===== src/Decompose.antt =====
-- src/hca/decompose.py: the barrier that a planner's task graph has to pass. The texts of the reasons
-- are kept as the data that they are formatted from.
pub mod Rows
pub mod Kahn
pub mod Order
pub mod Topological
pub mod Cycles
pub mod Ranks
pub mod Dependencies
pub mod Ancestors
pub mod Checks
pub mod Barrier
use hermes_concurrent_agents.Common.{
  ℕ, zero, suc, ◌+◌, ◌-◌, String, refl, Bool, true, false, not, ◌&&◌, ◌||◌, Option, none, some,
  List, [], ◌∷◌, ◌++◌, map, arith, ltb, eqb, if◌then◌else◌, ◌==◌, nat_eq, string_eq, is_empty,
  is_none, length, is_nil, filter, any, find?, contains,
}
use mathlib.Core.List.{reverse}
use Prim.Native.String.{compare}
use Prim.Native.Nat.{Ordering}
use hermes_concurrent_agents.Common.Counting.{hits}

pub record TaskNode : Type 0 where
  pub id : String
  pub title : String
  pub role_hint : String
  pub depends_on : List String
  pub requirements : List String
  pub acceptance_criteria : List String
  pub expected_artifacts : List String
  pub scope : String
  pub kind : String

abbrev pub ids : List TaskNode → List String
ids nodes = map (λ n. n.id) nodes

-- `nodes[id]`, and `node_map[n.id] = n`: a key that is there keeps its place and takes the new value.
unfoldable pub node : String → List TaskNode → Option TaskNode
node i nodes = find? (λ n. n.id == i) nodes

unfoldable pub put_node : TaskNode → List TaskNode → List TaskNode
put_node n [] = n ∷ []
put_node n (m ∷ ms) = if m.id == n.id then n ∷ ms else m ∷ put_node n ms

abbrev pub text_le : String → String → Bool
text_le a b = elim (compare a b) [ Ordering.gt ↦ false | _ ↦ true ]

unfoldable pub insert_text : String → List String → List String
insert_text a [] = a ∷ []
insert_text a (x ∷ xs) = if text_le a x then a ∷ x ∷ xs else x ∷ insert_text a xs

-- `sorted(ids)`.
unfoldable pub sort : List String → List String
unfolding insert_text
sort [] = []
sort (x ∷ xs) = insert_text x (sort xs)

-- A row of `indeg`: the dependencies of the node that are still to come.
pub record Pending : Type 0 where
  pub task : TaskNode
  pub indegree : ℕ

-- The dependencies that are tasks of the graph, each as often as it is listed.
abbrev pub known : List String → TaskNode → ℕ
known names n = hits n.depends_on names

unfoldable pub start_rows : List String → List TaskNode → List Pending
start_rows names [] = []
start_rows names (n ∷ ns) = record { task = n; indegree = known names n } ∷ start_rows names ns

abbrev pub is_free : Pending → Bool
is_free p = eqb p.indegree 0

abbrev pub row_ids : List Pending → List String
row_ids ps = map (λ p. p.task.id) ps

-- `indeg[m.id] -= 1` for the nodes that depend on `nid`. A count that would fall below 0 stays at 0.
unfoldable pub lower_rows : String → List Pending → List Pending
lower_rows nid [] = []
lower_rows nid (p ∷ ps) =
    (if contains nid p.task.depends_on then record p { indegree = p.indegree - 1 } else p)
    ∷ lower_rows nid ps

-- The nodes whose count falls to 0 by it, in the order of the graph.
unfoldable pub released : String → List Pending → List String
released nid [] = []
released nid (p ∷ ps) =
    if contains nid p.task.depends_on && eqb p.indegree 1
    then p.task.id ∷ released nid ps
    else released nid ps

-- The `while ready` loop. `none` means that the fuel ran out.
unfoldable pub kahn : ℕ → List Pending → List String → List String → Option (List String)
kahn fuel rows [] order = some order
kahn zero rows (nid ∷ ready) order = none
kahn (suc fuel) rows (nid ∷ ready) order =
    kahn fuel (lower_rows nid rows) (sort (ready ++ released nid rows)) (order ++ nid ∷ [])

abbrev pub complete : List TaskNode → Option (List String) → Option (List String)
complete nodes none = none
complete nodes (some order) = if eqb (length order) (length nodes) then some order else none

-- Kahn's algorithm over the values of the dictionary of nodes; `none` if a cycle is left.
unfoldable pub topo_order : List TaskNode → Option (List String)
topo_order nodes =
    let rows = start_rows (ids nodes) nodes in
    complete nodes (kahn (suc (length nodes)) rows (sort (row_ids (filter is_free rows))) [])

-- The `while stack` loop of `_ancestors`, the end of the stack first. `none` means that the fuel ran
-- out.
unfoldable pub collect : ℕ → List TaskNode → List String → List String → Option (List String)
collect fuel nodes [] seen = some seen
collect zero nodes (cur ∷ stack) seen = none
collect (suc fuel) nodes (cur ∷ stack) seen = elim (node cur nodes) [
  | none ↦ collect fuel nodes stack seen
  | some n ↦ elim (contains cur seen) [
    | true ↦ collect fuel nodes stack seen
    | false ↦ collect fuel nodes (reverse n.depends_on ++ stack) (cur ∷ seen)
  ]
]

abbrev pub dependencies : Option TaskNode → List String
dependencies none = []
dependencies (some n) = n.depends_on

unfoldable pub edges : List TaskNode → ℕ
edges [] = 0
edges (n ∷ ns) = length n.depends_on + edges ns

unfoldable pub ancestors : List TaskNode → String → Option (List String)
unfolding node edges collect
ancestors nodes start =
    let first = dependencies (node start nodes) in
    collect (suc (length first + edges nodes)) nodes (reverse first) []

pub data Reason : Type 0 where
  empty_graph cyclic ungated_final : Reason
  duplicate_id no_acceptance no_scope : (id : String) → Reason
  over_budget : (count max_tasks : ℕ) → Reason
  unknown_dependency : (id dependency : String) → Reason
  self_dependency : (id : String) → Reason
  final_count : ℕ → Reason

pub record ValidationResult : Type 0 where
  pub valid : Bool
  pub reasons : List Reason
  pub order : List String

abbrev pub when {ℓ} : {A : Type ℓ} → Bool → A → List A
when b a = if b then a ∷ [] else []

-- The first loop: the dictionary of nodes, and a reason for each identifier that is met again.
unfoldable pub map_nodes : List TaskNode → List TaskNode → List TaskNode
unfolding put_node
map_nodes [] seen = seen
map_nodes (n ∷ ns) seen = map_nodes ns (put_node n seen)

unfoldable pub duplicate_reasons : List TaskNode → List TaskNode → List Reason
unfolding put_node
duplicate_reasons [] seen = []
duplicate_reasons (n ∷ ns) seen =
    when (contains n.id (ids seen)) (duplicate_id n.id) ++ duplicate_reasons ns (put_node n seen)

unfoldable pub edge_reasons : List String → String → List String → List Reason
edge_reasons names i [] = []
edge_reasons names i (dep ∷ deps) =
    when (not (contains dep names)) (unknown_dependency i dep)
    ++ (when (dep == i) (self_dependency i) ++ edge_reasons names i deps)

unfoldable pub dependency_reasons : List String → List TaskNode → List Reason
unfolding edge_reasons
dependency_reasons names [] = []
dependency_reasons names (n ∷ ns) =
    edge_reasons names n.id n.depends_on ++ dependency_reasons names ns

abbrev pub lacks_acceptance : Bool → TaskNode → Bool
lacks_acceptance require n =
    require && (n.kind == "work" || n.kind == "integration") && is_nil n.acceptance_criteria

unfoldable pub form_reasons : Bool → List TaskNode → List Reason
form_reasons require [] = []
form_reasons require (n ∷ ns) =
    when (lacks_acceptance require n) (no_acceptance n.id)
    ++ (when (is_empty n.scope) (no_scope n.id) ++ form_reasons require ns)

abbrev pub is_final_node : TaskNode → Bool
is_final_node n = n.kind == "final"

abbrev pub is_gate : TaskNode → Bool
is_gate n = n.kind == "verification" || n.kind == "rework"

abbrev pub gate_at : List TaskNode → String → Bool
gate_at nodes i = elim (node i nodes) [ none ↦ false | some n ↦ is_gate n ]

abbrev pub gate_reached : List TaskNode → Option (List String) → Bool
gate_reached nodes none = false
gate_reached nodes (some reachable) = any (gate_at nodes) reachable

unfoldable pub final_reasons : List TaskNode → List TaskNode → List Reason
unfolding ancestors
final_reasons nodes node_map = elim (filter is_final_node nodes) [
  | [] ↦ final_count 0 ∷ []
  | final ∷ more ↦
      if not (is_nil more)
      then final_count (length (final ∷ more)) ∷ []
      else when (any is_gate nodes && not (gate_reached node_map (ancestors node_map final.id)))
          ungated_final
]

abbrev pub order_or_nil : Option (List String) → List String
order_or_nil none = []
order_or_nil (some order) = order

unfoldable pub validate_task_graph : List TaskNode → ℕ → Bool → ValidationResult
unfolding map_nodes duplicate_reasons dependency_reasons form_reasons final_reasons
validate_task_graph nodes max_tasks require =
    if is_nil nodes
    then record { valid = false; reasons = empty_graph ∷ []; order = [] }
    else let node_map = map_nodes nodes [] in
      let order = topo_order node_map in
      let reasons =
        duplicate_reasons nodes []
        ++ (when (ltb max_tasks (length node_map)) (over_budget (length node_map) max_tasks)
            ++ (dependency_reasons (ids node_map) nodes
                ++ (form_reasons require nodes
                    ++ (when (is_none order) cyclic ++ final_reasons nodes node_map)))) in
      record { valid = is_nil reasons; reasons = reasons; order = order_or_nil order }
