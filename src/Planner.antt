-- ===== src/Planner.antt =====
-- src/hca/kanban_orchestrator.py: `default_planner`, the task graph that is proposed for a run.
pub mod Shape
pub mod Gates
use hermes_concurrent_agents.Common.{
  ℕ, zero, suc, ◌+◌, ◌-◌, ◌/◌, ◌%◌, min, max, String, refl, Bool, not, ◌&&◌, List, [], ◌∷◌, ◌++◌,
  map, arith, ltb, leb, eqb, if◌then◌else◌, nat_eq, string_eq, or_else, length, is_nil,
}
use hermes_concurrent_agents.Run.Spec.{RunSpec}
use hermes_concurrent_agents.Evidence.{review_required}
use hermes_concurrent_agents.Decompose.{TaskNode}
use Prim.Native.String.{◌++◌ as append}

-- `text[:n]`.
take_text : ℕ → String → String
take_text zero s = ""
take_text (suc n) String.[] = ""
take_text (suc n) (String.◌∷◌ c s) = String.◌∷◌ c (take_text n s)

digit : ℕ → String
digit n =
    if eqb n 0
    then "0"
    else if eqb n 1
    then "1"
    else if eqb n 2
    then "2"
    else if eqb n 3
    then "3"
    else if eqb n 4
    then "4"
    else if eqb n 5
    then "5"
    else if eqb n 6
    then "6"
    else if eqb n 7
    then "7"
    else if eqb n 8
    then "8"
    else "9"

-- The decimal text of a number below `10 ^ fuel`.
decimal : ℕ → ℕ → String
unfolding digit
decimal zero n = ""
decimal (suc fuel) n =
    let front = decimal fuel (n / 10) in if ltb n 10 then digit n else append front (digit (n % 10))

unfoldable pub number : ℕ → String
unfolding decimal
number n = decimal (suc n) n

unfoldable pub graph_overhead : RunSpec → ℕ
graph_overhead spec = 2 + (if review_required spec then 2 else 0)

unfoldable pub fanout : RunSpec → ℕ
unfolding graph_overhead
fanout spec =
    min (length spec.acceptance_criteria)
      (min (max 1 spec.budgets.max_workers) (spec.budgets.max_tasks - graph_overhead spec))

unfoldable pub is_parallel : RunSpec → Bool
unfolding fanout
is_parallel spec = spec.independent_criteria && leb 2 (fanout spec)

-- `requested_acceptance or ("goal addressed",)`.
abbrev pub acceptance : RunSpec → List String
acceptance spec =
    if is_nil spec.acceptance_criteria then "goal addressed" ∷ [] else spec.acceptance_criteria

-- `groups[k].append(criterion)`.
unfoldable pub put_in : ℕ → String → List (List String) → List (List String)
put_in k c [] = []
put_in zero c (g ∷ gs) = (g ++ c ∷ []) ∷ gs
put_in (suc k) c (g ∷ gs) = g ∷ put_in k c gs

abbrev pub empty_groups : ℕ → List (List String)
empty_groups zero = []
empty_groups (suc n) = [] ∷ empty_groups n

unfoldable pub distribute : ℕ → ℕ → List String → List (List String) → List (List String)
unfolding put_in
distribute n index [] groups = groups
distribute n index (c ∷ cs) groups = distribute n (suc index) cs (put_in (index % n) c groups)

unfoldable pub slice_node : RunSpec → ℕ → List String → TaskNode
unfolding number take_text
slice_node spec index group = record {
  id = append "work-" (number index);
  title =
      append "Independent work slice "
        (append (number index) (append ": " (take_text 64 spec.goal)));
  role_hint = "worker";
  depends_on = [];
  requirements = [];
  acceptance_criteria = group;
  expected_artifacts = append "independent slice " (append (number index) " result") ∷ [];
  scope = append "Overall goal: " (
      append (take_text 400 spec.goal)
        "\n\nWork only on this independently verifiable slice. Do not assume another worker's mutable checkout. Complete with a concrete result or artifact and include every handoff detail needed by integration.");
  kind = "work";
}

unfoldable pub slice_nodes : RunSpec → ℕ → List (List String) → List TaskNode
unfolding slice_node
slice_nodes spec index [] = []
slice_nodes spec index (g ∷ gs) = slice_node spec index g ∷ slice_nodes spec (suc index) gs

unfoldable pub integration_node : RunSpec → List String → TaskNode
unfolding take_text
integration_node spec work_ids = record {
  id = "integration";
  title = "Integrate the independent work slices";
  role_hint = "worker";
  depends_on = work_ids;
  requirements = [];
  acceptance_criteria = acceptance spec;
  expected_artifacts = "integrated result with parent provenance" ∷ [];
  scope = append "Overall goal: " (
      append (take_text 400 spec.goal)
        "\n\nRead every parent result, reconcile conflicts, and produce one coherent integrated result satisfying all acceptance criteria. Preserve source provenance; never claim a parent artifact that was not actually produced.");
  kind = "integration";
}

unfoldable pub single_node : RunSpec → TaskNode
unfolding take_text
single_node spec = record {
  id = "work";
  title = append "Implement: " (take_text 80 spec.goal);
  role_hint = "worker";
  depends_on = [];
  requirements = [];
  acceptance_criteria = acceptance spec;
  expected_artifacts = "result summary" ∷ [];
  scope =
      append (or_else (take_text 400 spec.goal) "the run goal")
        "\n\nComplete the Kanban task only after producing a concrete result or attachment that addresses the acceptance criteria.";
  kind = "work";
}

unfoldable pub review_nodes : RunSpec → String → List TaskNode
review_nodes spec parent =
    record {
      id = "review-1";
      title = "Independently verify the implementation";
      role_hint = "reviewer";
      depends_on = parent ∷ [];
      requirements = [];
      acceptance_criteria = acceptance spec;
      expected_artifacts = "review verdict and verification evidence" ∷ [];
      scope =
          "Review the preceding implementation against the stated goal and acceptance criteria. Do not modify the implementation. Start the result with exactly `HCA_REVIEW: ACCEPT` when verified, or `HCA_REVIEW: REJECT` followed by specific defects and evidence.";
      kind = "review";
    }
    ∷ record {
      id = "review-gate-1";
      title = "Confirm the accepted review gate";
      role_hint = "planner";
      depends_on = "review-1" ∷ [];
      requirements = [];
      acceptance_criteria = "accepted independent review is cited" ∷ [];
      expected_artifacts = "review gate evidence" ∷ [];
      scope =
          "Confirm that the latest independent review accepted the work. Report `HCA_GATE: PASS` with the accepted review task and result identifiers. Do not alter implementation artifacts.";
      kind = "gate";
    }
    ∷ []

unfoldable pub final_node : String → TaskNode
final_node parent = record {
  id = "final";
  title = "Collect and finalize the run result";
  role_hint = "planner";
  depends_on = parent ∷ [];
  requirements = [];
  acceptance_criteria = [];
  expected_artifacts = [];
  scope = "aggregate accepted task outputs into the final run result";
  kind = "final";
}

-- The end of the graph, behind the implementation.
unfoldable pub closing_nodes : RunSpec → String → List TaskNode
unfolding review_nodes final_node
closing_nodes spec parent =
    if review_required spec
    then review_nodes spec parent ++ final_node "review-gate-1" ∷ []
    else final_node parent ∷ []

unfoldable pub criterion_groups : RunSpec → List (List String)
unfolding distribute fanout
criterion_groups spec =
    distribute (fanout spec) 0 spec.acceptance_criteria (empty_groups (fanout spec))

abbrev pub planned_slices : RunSpec → List TaskNode → List TaskNode
planned_slices spec slices =
    slices ++ integration_node spec (map (λ n. n.id) slices) ∷ closing_nodes spec "integration"

unfoldable pub default_planner : RunSpec → List TaskNode
unfolding is_parallel slice_nodes integration_node single_node closing_nodes criterion_groups
default_planner spec =
    if is_parallel spec
    then planned_slices spec (slice_nodes spec 1 (criterion_groups spec))
    else single_node spec ∷ closing_nodes spec "work"
