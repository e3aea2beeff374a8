-- ===== src/Service/Submit.antt =====
-- src/hca/service.py: `FleetService.run`. The identifier of a new run and the templates of the teams
-- are arguments.
use hermes_concurrent_agents.Common.{
  ℕ, min, max, String, Bool, not, ◌&&◌, Option, none, some, List, [], ◌∷◌, map, ltb, if◌then◌else◌,
  ◌==◌, nat_eq, string_eq, is_empty, filter, contains, length,
}
use hermes_concurrent_agents.Common.Json.{Fields, end, field, num}
use hermes_concurrent_agents.Common.Words.{is_space}
use hermes_concurrent_agents.Run.State.{run_state_eq}
use hermes_concurrent_agents.Run.Spec.{RunBudgets, RunSpec, budgets_from_dict, run_schema_version}
use hermes_concurrent_agents.Run.Store.{Store, RunProjection, get_run, find_by_idempotency_key}
use hermes_concurrent_agents.Team.{TeamSpec, select_team}
use hermes_concurrent_agents.Service.Results.{
  ServiceResult, Report, remote_unsupported, empty_goal, few_criteria, concurrency_too_low,
  replay_of, unknown_resume, invalid_input_policy, unknown_budgets, invalid_budgets, unknown_team,
  too_many_workers, Remedy, no_remedy, advice, refuse, exit_invalid, exit_preflight,
}
use Prim.Native.Char.{code}

pub record ServiceConfig : Type 0 where
  pub role : String
  pub board : String
  pub max_wave_size : ℕ

-- The configuration with the templates of the teams, and the text of the event on a team.
pub record Site : Type 0 where
  pub config : ServiceConfig
  pub templates : String → Option TeamSpec
  pub team_line : TeamSpec → String

-- A value that a caller gives for a budget: an integer, or what `int` raises on. Other values that
-- `int` reads, as texts of digits and fractions, are left out.
pub data BudgetValue : Type 0 where
  whole : ℕ → BudgetValue
  below_zero : BudgetValue
  unreadable : BudgetValue

pub record BudgetEntry : Type 0 where
  pub key : String
  pub value : BudgetValue

-- The arguments of `run`.
pub record RunRequest : Type 0 where
  pub goal : String
  pub project_root : String
  pub constraints : List String
  pub acceptance_criteria : List String
  pub independent_criteria : Bool
  pub team : String
  pub concurrency : ℕ
  pub review_policy : String
  pub input_policy : String
  pub source_profiles : List String
  pub budgets : List BudgetEntry
  pub idempotency_key : String
  pub resume : String
  pub detach : Bool

unfoldable pub drop_front : String → String
unfolding is_space
drop_front String.[] = String.[]
drop_front (String.◌∷◌ c s) = if is_space (code c) then drop_front s else String.◌∷◌ c s

unfoldable pub drop_back : String → String
unfolding is_space
drop_back String.[] = String.[]
drop_back (String.◌∷◌ c s) =
    let rest = drop_back s in
    if is_empty rest && is_space (code c) then String.[] else String.◌∷◌ c rest

-- `text.strip()`.
unfoldable pub stripped : String → String
unfolding drop_front drop_back
stripped s = drop_back (drop_front s)

abbrev pub budget_names : List String
budget_names =
    "max_tasks" ∷ "max_workers" ∷ "wall_seconds" ∷ "max_turns_per_task" ∷ "max_retries"
    ∷ "max_supervisor_replacements" ∷ "max_review_cycles" ∷ "max_disk_mb" ∷ "max_subagents" ∷ []

-- The integers of the caller as a dictionary, unless one is negative or no integer.
abbrev pub budget_fields : List BudgetEntry → Option Fields
budget_fields [] = some end
budget_fields (b ∷ bs) = elim b.value [
  | whole n ↦ elim (budget_fields bs) [ none ↦ none | some fs ↦ some (field b.key (num n) fs) ]
  | below_zero ↦ none
  | unreadable ↦ none
]

abbrev pub parse_fields : Option Fields → Option RunBudgets
parse_fields none = none
parse_fields (some fs) = budgets_from_dict fs

unfoldable pub parsed_budgets : List BudgetEntry → Option RunBudgets
parsed_budgets bs = parse_fields (budget_fields bs)

unfoldable pub concurrency_limit : ServiceConfig → TeamSpec → RunBudgets → ℕ
concurrency_limit cfg team budgets =
    max 1 (min (min team.max_workers budgets.max_workers) cfg.max_wave_size)

unfoldable pub spec_of : ServiceConfig → RunRequest → RunBudgets → String → ℕ → RunSpec
unfolding stripped
spec_of cfg q budgets run_id now = record {
  run_id = run_id;
  goal = stripped q.goal;
  project_root = q.project_root;
  project_ref = "";
  constraints = q.constraints;
  acceptance_criteria = q.acceptance_criteria;
  independent_criteria = q.independent_criteria;
  source_profiles = q.source_profiles;
  team = q.team;
  concurrency = q.concurrency;
  review_policy = q.review_policy;
  input_policy = q.input_policy;
  budgets = budgets;
  idempotency_key = q.idempotency_key;
  board = cfg.board;
  created_at = now;
  schema_version = run_schema_version;
}

-- What the checks on the arguments come to: a refusal, an earlier run to report, or a run to create.
pub data Admission : Type 0 where
  refused : ServiceResult → Admission
  replayed : RunProjection → Option Report → Admission
  admitted : TeamSpec → RunBudgets → Admission

abbrev pub invalid : Report → Remedy → Admission
invalid message remedy = refused (refuse exit_invalid "run" "" "invalid" message remedy)

module _ (site : Site) where
  unfoldable pub within_limit : RunRequest → RunBudgets → Option TeamSpec → Admission
  unfolding concurrency_limit
  within_limit q budgets none =
      invalid (unknown_team q.team) (advice "choose a known --team (default | small | reviewed)")
  within_limit q budgets (some team) =
      if ltb (concurrency_limit site.config team budgets) q.concurrency
      then invalid (too_many_workers q.concurrency (concurrency_limit site.config team budgets))
          (advice "lower --concurrency or select/configure a larger bounded team")
      else admitted team budgets

  unfoldable pub with_budgets : RunRequest → Option RunBudgets → Admission
  unfolding select_team within_limit
  with_budgets q none = invalid invalid_budgets no_remedy
  with_budgets q (some budgets) =
      within_limit q budgets (select_team site.templates q.team q.review_policy)

  abbrev pub unknown_keys : List BudgetEntry → List String
  unknown_keys bs = filter (λ k. not (contains k budget_names)) (map (λ b. b.key) bs)

  unfoldable pub checked : RunRequest → Admission
  unfolding with_budgets parsed_budgets
  checked q =
      if q.concurrency == 0
      then invalid concurrency_too_low no_remedy
      else if not (contains q.input_policy ("allow" ∷ "fail_closed" ∷ []))
      then invalid (invalid_input_policy q.input_policy) (advice "choose allow or fail_closed")
      else if ltb 0 (length (unknown_keys q.budgets))
      then invalid (unknown_budgets (unknown_keys q.budgets)) (advice "known budgets")
      else with_budgets q (parsed_budgets q.budgets)

  abbrev pub replay_or : Option RunProjection → Admission → Admission
  replay_or none rest = rest
  replay_or (some p) rest = replayed p (some (replay_of p.run_id))

  abbrev pub resumed : String → Option RunProjection → Admission
  resumed run_id none = refused (
      refuse exit_invalid "run" run_id "unknown" (unknown_resume run_id)
        (advice "list runs with `hca status` or drop --resume"))
  resumed run_id (some p) = replayed p none

  unfoldable pub admission : RunRequest → Store → Admission
  unfolding checked stripped
  admission q s =
      if is_empty q.resume && not (site.config.role == "single")
      then refused (
          refuse exit_preflight "run" "" "unsupported" remote_unsupported (
            advice
              "run HCA workers on the Kanban board host; a remote model endpoint remains supported through the selected Hermes profile"))
      else if not (is_empty q.resume)
      then resumed q.resume (get_run s q.resume)
      else if is_empty (stripped q.goal)
      then invalid empty_goal (advice "provide a goal: hca run \"<what to build/research/ship>\"")
      else if q.independent_criteria && ltb (length q.acceptance_criteria) 2
      then invalid few_criteria
          (advice "provide two or more --acceptance values, or omit --independent-criteria")
      else if is_empty q.idempotency_key
      then checked q
      else replay_or (find_by_idempotency_key s q.idempotency_key) (checked q)
