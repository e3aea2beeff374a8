-- ===== src/Planner/Shape.antt =====
-- src/hca/kanban_orchestrator.py: the size of the proposed graph, and what becomes of the criteria.
use hermes_concurrent_agents.Common.{
  ℕ, zero, suc, ◌+◌, ◌-◌, ◌%◌, ◌≤◌, ◌<◌, max, String, ◌≡◌, refl, sym, ap, subst, ◌∙◌, inl, inr,
  Bool, true, false, List, [], ◌∷◌, ◌++◌, map, arith, if◌then◌else◌, leb→le, ◌==◌, nat_eq,
  string_eq, Bool-cases, and_true, length, length-append,
}
use native.Mathlib.Nat.{mod-lt}
use hermes_concurrent_agents.Run.Spec.{RunSpec}
use hermes_concurrent_agents.Evidence.{review_required}
use hermes_concurrent_agents.Decompose.{TaskNode}
use hermes_concurrent_agents.Planner.{
  graph_overhead, fanout, is_parallel, put_in, empty_groups, distribute, slice_node, slice_nodes,
  integration_node, review_nodes, final_node, closing_nodes, criterion_groups, planned_slices,
  default_planner,
}

abbrev pub occurs : String → List String → ℕ
occurs c [] = 0
occurs c (x ∷ xs) = (if x == c then 1 else 0) + occurs c xs

abbrev pub total : String → List (List String) → ℕ
total c [] = 0
total c (g ∷ gs) = occurs c g + total c gs

-- How often a criterion stands at a task of the kind work.
abbrev pub in_work : String → List TaskNode → ℕ
in_work c [] = 0
in_work c (n ∷ ns) = (if n.kind == "work" then occurs c n.acceptance_criteria else 0) + in_work c ns

occurs-snoc :
    (c d : String) (xs : List String)
    → occurs c (xs ++ d ∷ []) ≡ occurs c xs + (if d == c then 1 else 0)
occurs-snoc c d [] = omega arith
occurs-snoc c d (x ∷ xs) = omega (arith, occurs-snoc c d xs)

total-put_in :
    (c d : String) (k : ℕ) (gs : List (List String))
    → k < length gs
    → total c (put_in k d gs) ≡ total c gs + (if d == c then 1 else 0)
unfolding put_in
total-put_in c d k [] h = omega arith
total-put_in c d zero (g ∷ gs) h = omega (arith, occurs-snoc c d g)
total-put_in c d (suc k) (g ∷ gs) h = omega (arith, total-put_in c d k gs (omega arith))

length-put_in : (k : ℕ) (d : String) (gs : List (List String)) → length (put_in k d gs) ≡ length gs
unfolding put_in
length-put_in k d [] = refl
length-put_in zero d (g ∷ gs) = refl
length-put_in (suc k) d (g ∷ gs) = omega (arith, length-put_in k d gs)

length-distribute :
    (n i : ℕ) (cs : List String) (gs : List (List String))
    → length (distribute n i cs gs) ≡ length gs
unfolding distribute
length-distribute n i [] gs = refl
length-distribute n i (c ∷ cs) gs =
    length-distribute n (suc i) cs (put_in (i % n) c gs) ∙ length-put_in (i % n) c gs

length-empty_groups : (n : ℕ) → length (empty_groups n) ≡ n
length-empty_groups zero = refl
length-empty_groups (suc n) = omega (arith, length-empty_groups n)

total-empty_groups : (c : String) (n : ℕ) → total c (empty_groups n) ≡ 0
total-empty_groups c zero = refl
total-empty_groups c (suc n) = omega (arith, total-empty_groups c n)

total-distribute :
    (c : String) (n i : ℕ) (cs : List String) (gs : List (List String))
    → 0 < n
    → length gs ≡ n
    → total c (distribute n i cs gs) ≡ total c gs + occurs c cs
unfolding distribute
total-distribute c n i [] gs h e = omega arith
total-distribute c n i (d ∷ cs) gs h e = omega (
  arith,
  total-distribute c n (suc i) cs (put_in (i % n) d gs) h (length-put_in (i % n) d gs ∙ e),
  total-put_in c d (i % n) gs (subst (λ m. i % n < m) (sym e) (mod-lt i h)),
)

in_work-append :
    (c : String) (ns ms : List TaskNode) → in_work c (ns ++ ms) ≡ in_work c ns + in_work c ms
in_work-append c [] ms = omega arith
in_work-append c (n ∷ ns) ms = omega (arith, in_work-append c ns ms)

in_work-slice_nodes :
    (c : String) (spec : RunSpec) (i : ℕ) (gs : List (List String))
    → in_work c (slice_nodes spec i gs) ≡ total c gs
unfolding slice_nodes slice_node
in_work-slice_nodes c spec i [] = refl
in_work-slice_nodes c spec i (g ∷ gs) = omega (arith, in_work-slice_nodes c spec (suc i) gs)

in_work-closing_nodes :
    (c : String) (spec : RunSpec) (parent : String) → in_work c (closing_nodes spec parent) ≡ 0
unfolding closing_nodes review_nodes final_node
in_work-closing_nodes c spec parent = elim (Bool-cases (review_required spec)) [
  | inl reviewed ↦ rw reviewed refl
  | inr plain ↦ rw plain refl
]

in_work-integration :
    (c : String) (spec : RunSpec) (ids : List String) (ns : List TaskNode)
    → in_work c (integration_node spec ids ∷ ns) ≡ in_work c ns
unfolding integration_node
in_work-integration c spec ids ns = omega arith

pub planner_parallel :
    (spec : RunSpec)
    → is_parallel spec ≡ true
    → default_planner spec ≡ planned_slices spec (slice_nodes spec 1 (criterion_groups spec))
unfolding default_planner
planner_parallel spec h = rw (h, default_planner) refl

two_slices : (spec : RunSpec) → is_parallel spec ≡ true → 2 ≤ fanout spec
unfolding is_parallel
two_slices spec h = leb→le 2 (fanout spec) (and_true h).1

-- A parallel graph gives every acceptance criterion to its work tasks exactly as often as the run
-- lists it: none is lost and none is given out twice.
pub criteria_shared :
    (spec : RunSpec) (c : String)
    → is_parallel spec ≡ true
    → in_work c (default_planner spec) ≡ occurs c spec.acceptance_criteria
unfolding criterion_groups
criteria_shared spec c h =
    let slices = slice_nodes spec 1 (criterion_groups spec) in
    let rest = integration_node spec (map (λ n. n.id) slices) ∷ closing_nodes spec "integration" in
    ap (in_work c) (planner_parallel spec h)
    ∙ omega (
      arith,
      in_work-append c slices rest,
      in_work-slice_nodes c spec 1 (criterion_groups spec),
      in_work-integration c spec (map (λ n. n.id) slices) (closing_nodes spec "integration"),
      in_work-closing_nodes c spec "integration",
      total-distribute c (fanout spec) 0 spec.acceptance_criteria (empty_groups (fanout spec))
          (omega (arith, two_slices spec h)) (length-empty_groups (fanout spec)),
      total-empty_groups c (fanout spec),
    )

abbrev pub copies : ℕ → String → List String
copies zero t = []
copies (suc n) t = t ∷ copies n t

abbrev pub kinds : List TaskNode → List String
kinds = map (λ n. n.kind)

kinds-append : (ns ms : List TaskNode) → kinds (ns ++ ms) ≡ kinds ns ++ kinds ms
kinds-append [] ms = refl
kinds-append (n ∷ ns) ms = ap (λ ks. n.kind ∷ ks) (kinds-append ns ms)

kinds-slice_nodes :
    (spec : RunSpec) (i : ℕ) (gs : List (List String))
    → kinds (slice_nodes spec i gs) ≡ copies (length gs) "work"
unfolding slice_nodes slice_node
kinds-slice_nodes spec i [] = refl
kinds-slice_nodes spec i (g ∷ gs) = ap (λ ks. "work" ∷ ks) (kinds-slice_nodes spec (suc i) gs)

-- The kinds of the tasks behind the work.
abbrev pub closing_kinds : Bool → List String
closing_kinds true = "integration" ∷ "review" ∷ "gate" ∷ "final" ∷ []
closing_kinds false = "integration" ∷ "final" ∷ []

kinds-closing :
    (spec : RunSpec) (ids : List String)
    → kinds (integration_node spec ids ∷ closing_nodes spec "integration")
      ≡ closing_kinds (review_required spec)
unfolding integration_node closing_nodes review_nodes final_node
kinds-closing spec ids = elim (Bool-cases (review_required spec)) [
  | inl reviewed ↦ rw reviewed refl
  | inr plain ↦ rw plain refl
]

length-kinds : (ns : List TaskNode) → length ns ≡ length (kinds ns)
length-kinds [] = refl
length-kinds (n ∷ ns) = ap suc (length-kinds ns)

length-copies : (n : ℕ) (t : String) → length (copies n t) ≡ n
length-copies zero t = refl
length-copies (suc n) t = ap suc (length-copies n t)

length-closing_kinds :
    (spec : RunSpec) → length (closing_kinds (review_required spec)) ≡ graph_overhead spec
unfolding graph_overhead
length-closing_kinds spec = elim (Bool-cases (review_required spec)) [
  | inl reviewed ↦ rw reviewed refl
  | inr plain ↦ rw plain refl
]

fanout_le :
    (spec : RunSpec)
    → (fanout spec ≤ length spec.acceptance_criteria)
      × (fanout spec ≤ spec.budgets.max_tasks - graph_overhead spec)
      × (fanout spec ≤ max 1 spec.budgets.max_workers)
unfolding fanout
fanout_le spec = (omega arith, omega arith, omega arith)

-- A parallel graph is made of some tasks of the kind work, two at least, and behind them the
-- integration, under review the review and its gate, and the final task. The work tasks are no more than
-- the criteria and the run's budget of workers, and all the tasks no more than its budget of tasks.
pub planned_size :
    (spec : RunSpec)
    → is_parallel spec ≡ true
    → (n : ℕ) × (kinds (default_planner spec)
        ≡ copies n "work" ++ closing_kinds (review_required spec))
      × (2 ≤ n)
      × (n ≤ length spec.acceptance_criteria)
      × (n ≤ max 1 spec.budgets.max_workers)
      × (length (default_planner spec) ≤ spec.budgets.max_tasks)
planned_size spec h =
    let (by_criteria, by_tasks, by_workers) = fanout_le spec in
    let few : length (default_planner spec) ≤ spec.budgets.max_tasks = omega (
      arith,
      length-kinds (default_planner spec),
      ap length shape,
      length-append (copies (fanout spec) "work") (closing_kinds (review_required spec)),
      length-copies (fanout spec) "work",
      length-closing_kinds spec,
      by_tasks,
      two_slices spec h,
    ) in
    (fanout spec, shape, two_slices spec h, by_criteria, by_workers, few)
  where
    groups : length (criterion_groups spec) ≡ fanout spec
    groups =
        unfold criterion_groups in
        omega (
          arith,
          length-distribute (fanout spec) 0 spec.acceptance_criteria (empty_groups (fanout spec)),
          length-empty_groups (fanout spec),
        )

    shape :
        kinds (default_planner spec)
        ≡ copies (fanout spec) "work" ++ closing_kinds (review_required spec)
    shape =
        let slices = slice_nodes spec 1 (criterion_groups spec) in
        let ids = map (λ n. n.id) slices in
        let rest = integration_node spec ids ∷ closing_nodes spec "integration" in
        ap kinds (planner_parallel spec h)
        ∙ kinds-append slices rest
        ∙ ap (λ ks. ks ++ kinds rest) (kinds-slice_nodes spec 1 (criterion_groups spec))
        ∙ ap (λ n. copies n "work" ++ kinds rest) groups
        ∙ ap (λ ks. copies (fanout spec) "work" ++ ks) (kinds-closing spec ids)
