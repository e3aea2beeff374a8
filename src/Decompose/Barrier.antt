-- ===== src/Decompose/Barrier.antt =====
-- src/hca/decompose.py: `validate_task_graph` against an independent description of a graph that may be
-- released.
use hermes_concurrent_agents.Common.{
  ℕ, ◌≤◌, String, ◌≡◌, refl, ap, ◌↔◌, inl, inr, Bool, true, false, Option, none, some, List, [],
  ◌∷◌, ◌++◌, arith, eq_iff, ltb, ◌==◌, nat_eq, string_eq, is_none, Bool-cases, length, is_nil,
  filter, any, All, contains,
}
use hermes_concurrent_agents.Decompose.{
  TaskNode, ids, topo_order, ancestors, Reason, cyclic, over_budget, map_nodes, duplicate_reasons,
  dependency_reasons, form_reasons, is_final_node, is_gate, final_reasons, validate_task_graph,
}
use hermes_concurrent_agents.Common.Counting.{nodup}
use hermes_concurrent_agents.Decompose.{when, gate_at, gate_reached}
use hermes_concurrent_agents.Decompose.Ancestors.{ancestors_iff}
use hermes_concurrent_agents.Decompose.Dependencies.{Reaches}
use hermes_concurrent_agents.Decompose.Cycles.{KnownOnce}
use hermes_concurrent_agents.Decompose.Ranks.{IsAcyclic, topo_order_iff}
use hermes_concurrent_agents.Decompose.Order.{IsTopological}
use hermes_concurrent_agents.Decompose.Topological.{topo_order_sound}
use hermes_concurrent_agents.Decompose.Checks.{
  no_reasons, when_nil, map_nodes_distinct, duplicate_iff, IsLinked, dependency_iff, IsFormed,
  form_iff,
}

-- The final task has a verification or a rework task among its transitive dependencies.
abbrev pub IsGated : List TaskNode → TaskNode → Type 0
IsGated nodes f = (x : String) × Reaches nodes f.id x × (gate_at nodes x ≡ true)

any_sound :
    (p : String → Bool) (xs : List String)
    → any p xs ≡ true
    → (x : String) × (contains x xs ≡ true) × (p x ≡ true)
any_sound p [] h = cc
any_sound p (x ∷ xs) h = elim (Bool-cases (p x)) [
  | inl hit ↦ (x, ground (arith, eq_iff x x), hit)
  | inr miss ↦ let (y, c, k) = any_sound p xs (rw miss at h) in (y, ground (arith, c), k)
]

any_complete :
    (p : String → Bool) (x : String) (xs : List String)
    → contains x xs ≡ true
    → p x ≡ true
    → any p xs ≡ true
any_complete p x [] c h = cc
any_complete p x (y ∷ ys) c h = elim (Bool-cases (y == x)) [
  | inl same ↦ rw ((eq_iff y x).0 same, h)
  | inr other ↦ ground (arith, any_complete p x ys (ground (arith, other)) h)
]

IsGated-iff :
    (nodes : List TaskNode) (f : TaskNode)
    → (gate_reached nodes (ancestors nodes f.id) ≡ true) ↔ IsGated nodes f
IsGated-iff nodes f =
    let (seen, e, iff) = ancestors_iff nodes f.id in
    rw e (
      λ h. let (x, c, g) = any_sound (gate_at nodes) seen h in (x, (iff x).0 c, g),
      λ (x, r, g). any_complete (gate_at nodes) x seen ((iff x).1 r) g,
    )

abbrev pub HasOneFinal : List TaskNode → Type 0
HasOneFinal nodes =
    (f : TaskNode) × (filter is_final_node nodes ≡ f ∷ [])
    × (any is_gate nodes ≡ true → IsGated nodes f)

final_iff : (nodes : List TaskNode) → (final_reasons nodes nodes ≡ []) ↔ HasOneFinal nodes
unfolding final_reasons
final_iff nodes = go (filter is_final_node nodes) refl
  where
    go :
        (fs : List TaskNode)
        → filter is_final_node nodes ≡ fs
        → (final_reasons nodes nodes ≡ []) ↔ HasOneFinal nodes
    go [] e = (λ h. ground (arith, e), λ (f, k, g). ground (arith, e, k))
    go (f ∷ f' ∷ fs) e = (λ h. ground (arith, e), λ (f, k, g). ground (arith, e, k))
    go (f ∷ []) e = elim (Bool-cases (any is_gate nodes)) [
      | inl gates ↦ (
        λ h. (f, e, λ _. (IsGated-iff nodes f).0 (ground (arith, e, gates))),
        λ (f', k, g).
            let r : gate_reached nodes (ancestors nodes f'.id) ≡ true =
              (IsGated-iff nodes f').1 (g gates) in
            ground (arith, e, k, r),
      )
      | inr none_of ↦ (λ h. (f, e, λ a. cc), λ (f', k, g). ground (arith, e, none_of))
    ]

-- A graph whose tasks may be released.
pub record IsReleasable (nodes : List TaskNode) (max_tasks : ℕ) (require : Bool) : Type 0 where
  pub distinct : nodup (ids nodes) ≡ true
  pub bounded : length nodes ≤ max_tasks
  pub linked : All (λ n. All (IsLinked (ids nodes) n.id) n.depends_on) nodes
  pub formed : All (IsFormed require) nodes
  pub acyclic : IsAcyclic nodes
  pub once : All (KnownOnce (ids nodes)) nodes
  pub one_final : HasOneFinal nodes

-- All the reasons, from the dictionary of nodes on.
abbrev later_reasons : List TaskNode → ℕ → Bool → List TaskNode → List Reason
later_reasons nodes max_tasks require node_map =
    when (ltb max_tasks (length node_map)) (over_budget (length node_map) max_tasks)
    ++ (dependency_reasons (ids node_map) nodes
        ++ (form_reasons require nodes
            ++ (when (is_none (topo_order node_map)) cyclic ++ final_reasons nodes node_map)))

validate_nil :
    (nodes : List TaskNode) (max_tasks : ℕ) (require : Bool)
    → ((validate_task_graph nodes max_tasks require).valid ≡ true) ↔ (
        (is_nil nodes ≡ false)
        × (duplicate_reasons nodes [] ++ later_reasons nodes max_tasks require (map_nodes nodes [])
            ≡ []))
unfolding validate_task_graph
validate_nil [] max_tasks require = (λ h. cc, λ h. cc)
validate_nil (n ∷ ns) max_tasks require = (λ h. (refl, nil_of _ h), λ h. ap is_nil h.1)
  where
    nil_of : (xs : List Reason) → is_nil xs ≡ true → xs ≡ []
    nil_of [] h = refl
    nil_of (x ∷ xs) h = cc

ordered_iff :
    (nodes : List TaskNode)
    → nodup (ids nodes) ≡ true
    → (is_none (topo_order nodes) ≡ false) ↔ (IsAcyclic nodes × All (KnownOnce (ids nodes)) nodes)
ordered_iff nodes n = (
  λ h. (topo_order_iff nodes n).0 (found (topo_order nodes) h),
  λ g. let (order, e) = (topo_order_iff nodes n).1 g in rw e,
)
  where
    found :
        (o : Option (List String)) → is_none o ≡ false → (order : List String) × (o ≡ some order)
    found none h = cc
    found (some order) h = (order, refl)

later_iff :
    (nodes : List TaskNode) (max_tasks : ℕ) (require : Bool)
    → nodup (ids nodes) ≡ true
    → (later_reasons nodes max_tasks require nodes ≡ []) ↔ IsReleasable nodes max_tasks require
later_iff nodes max_tasks require n = (
  λ h.
      let (a, h1) = (no_reasons budget _).0 h in
      let (b, h2) = (no_reasons (dependency_reasons (ids nodes) nodes) _).0 h1 in
      let (c, h3) = (no_reasons (form_reasons require nodes) _).0 h2 in
      let (d, f) = (no_reasons cycle (final_reasons nodes nodes)).0 h3 in
      let (acyclic, once) =
        (ordered_iff nodes n).0 ((when_nil (is_none (topo_order nodes)) cyclic).0 d) in
      record {
        distinct = n;
        bounded = ground (
          arith,
          (when_nil (ltb max_tasks (length nodes)) (over_budget (length nodes) max_tasks)).0 a,
        );
        linked = (dependency_iff (ids nodes) nodes).0 b;
        formed = (form_iff require nodes).0 c;
        acyclic = acyclic;
        once = once;
        one_final = (final_iff nodes).0 f;
      },
  λ r. (no_reasons budget _).1 (
    (when_nil (ltb max_tasks (length nodes)) (over_budget (length nodes) max_tasks)).1
        (ground (arith, r.bounded)),
    (no_reasons (dependency_reasons (ids nodes) nodes) _).1 (
      (dependency_iff (ids nodes) nodes).1 r.linked,
      (no_reasons (form_reasons require nodes) _).1 (
        (form_iff require nodes).1 r.formed,
        (no_reasons cycle (final_reasons nodes nodes)).1 (
          (when_nil (is_none (topo_order nodes)) cyclic).1
              ((ordered_iff nodes n).1 (r.acyclic, r.once)),
          (final_iff nodes).1 r.one_final,
        ),
      ),
    ),
  ),
)
  where
    budget : List Reason
    budget = when (ltb max_tasks (length nodes)) (over_budget (length nodes) max_tasks)

    cycle : List Reason
    cycle = when (is_none (topo_order nodes)) cyclic

-- The barrier accepts a graph exactly if it may be released: distinct identifiers, within the budget,
-- every dependency a task of the graph other than the task itself, acceptance criteria where required
-- and a scope, no cycle, no dependency listed twice, and exactly one final task, which has a
-- verification or rework task among its transitive dependencies if the graph has such a task.
pub validate_iff :
    (nodes : List TaskNode) (max_tasks : ℕ) (require : Bool)
    → ((validate_task_graph nodes max_tasks require).valid ≡ true)
      ↔ IsReleasable nodes max_tasks require
validate_iff nodes max_tasks require = (
  λ h.
      let (some_task, nil) = (validate_nil nodes max_tasks require).0 h in
      let (dup, later) =
        (no_reasons (duplicate_reasons nodes [])
            (later_reasons nodes max_tasks require (map_nodes nodes []))).0
          nil in
      let n : nodup (ids nodes) ≡ true = (duplicate_iff nodes).0 dup in
      (later_iff nodes max_tasks require n).0 (rw (map_nodes_distinct nodes n) at later),
  λ r. (validate_nil nodes max_tasks require).1 (
    some_final nodes r.one_final,
    (no_reasons (duplicate_reasons nodes [])
          (later_reasons nodes max_tasks require (map_nodes nodes []))).1
        (
          (duplicate_iff nodes).1 r.distinct,
          rw (map_nodes_distinct nodes r.distinct)
              ((later_iff nodes max_tasks require r.distinct).1 r),
        ),
  ),
)
  where
    some_final : (ns : List TaskNode) → HasOneFinal ns → is_nil ns ≡ false
    some_final [] (f, e, g) = cc
    some_final (n ∷ ns) h = refl

-- The order that comes with an accepted graph holds each task once, after all its dependencies.
pub valid_order :
    (nodes : List TaskNode) (max_tasks : ℕ) (require : Bool)
    → (validate_task_graph nodes max_tasks require).valid ≡ true
    → let order = (validate_task_graph nodes max_tasks require).order in
      (nodup order ≡ true)
      × All (λ x. contains x (ids nodes) ≡ true) order
      × All (λ x. contains x order ≡ true) (ids nodes)
      × IsTopological nodes [] order
valid_order nodes max_tasks require h =
    let r : IsReleasable nodes max_tasks require = (validate_iff nodes max_tasks require).0 h in
    let (order, e) = (topo_order_iff nodes r.distinct).1 (r.acyclic, r.once) in
    let same : (validate_task_graph nodes max_tasks require).order ≡ order =
      order_of nodes r order e in
    rw same (topo_order_sound nodes r.distinct order e)
  where
    order_of :
        (ns : List TaskNode)
        → IsReleasable ns max_tasks require
        → (order : List String) → topo_order ns ≡ some order
        → (validate_task_graph ns max_tasks require).order ≡ order
    order_of [] r order e = let (f, k, g) = r.one_final in cc
    order_of (n ∷ ns) r order e =
        unfold validate_task_graph in rw (map_nodes_distinct (n ∷ ns) r.distinct, e)
