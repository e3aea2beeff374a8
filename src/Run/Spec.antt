-- ===== src/Run/Spec.antt =====
-- src/hca/run.py: `RunBudgets` and `RunSpec` with their dictionaries. A tuple is a list, and a time is
-- a number of ticks.
use hermes_concurrent_agents.Common.{
  ℕ, String, ◌≡◌, refl, Bool, false, Option, none, some, List, [], nat_eq, string_eq,
}
use hermes_concurrent_agents.Common.Json.{
  Value, bool, num, text, arr, obj, null, Fields, end, field, get, texts_value, as_text, as_num,
  as_bool, as_texts, get_or, need, ◌>>=◌, items_texts-texts_value,
}

pub record RunBudgets : Type 0 where
  pub max_tasks : ℕ
  pub max_workers : ℕ
  pub wall_seconds : ℕ
  pub max_turns_per_task : ℕ
  pub max_retries : ℕ
  pub max_supervisor_replacements : ℕ
  pub max_review_cycles : ℕ
  pub max_disk_mb : ℕ
  pub max_subagents : ℕ

abbrev pub default_budgets : RunBudgets
default_budgets = record {
  max_tasks = 20;
  max_workers = 4;
  wall_seconds = 3600;
  max_turns_per_task = 200;
  max_retries = 2;
  max_supervisor_replacements = 2;
  max_review_cycles = 2;
  max_disk_mb = 5000;
  max_subagents = 0;
}

unfoldable pub budgets_to_dict : RunBudgets → Fields
budgets_to_dict b = field "max_tasks" (num b.max_tasks) (
    field "max_workers" (num b.max_workers) (
      field "wall_seconds" (num b.wall_seconds) (
        field "max_turns_per_task" (num b.max_turns_per_task) (
          field "max_retries" (num b.max_retries) (
            field "max_supervisor_replacements" (num b.max_supervisor_replacements) (
              field "max_review_cycles" (num b.max_review_cycles) (
                field "max_disk_mb" (num b.max_disk_mb)
                  (field "max_subagents" (num b.max_subagents) end))))))))

-- The keys that are no field are dropped, and a missing field takes its default.
unfoldable pub budgets_from_dict : Fields → Option RunBudgets
budgets_from_dict d = do
  max_tasks ← get_or as_num "max_tasks" default_budgets.max_tasks d
  max_workers ← get_or as_num "max_workers" default_budgets.max_workers d
  wall_seconds ← get_or as_num "wall_seconds" default_budgets.wall_seconds d
  turns ← get_or as_num "max_turns_per_task" default_budgets.max_turns_per_task d
  retries ← get_or as_num "max_retries" default_budgets.max_retries d
  replacements ←
      get_or as_num "max_supervisor_replacements" default_budgets.max_supervisor_replacements d
  cycles ← get_or as_num "max_review_cycles" default_budgets.max_review_cycles d
  disk ← get_or as_num "max_disk_mb" default_budgets.max_disk_mb d
  subagents ← get_or as_num "max_subagents" default_budgets.max_subagents d
  some (record {
    max_tasks = max_tasks;
    max_workers = max_workers;
    wall_seconds = wall_seconds;
    max_turns_per_task = turns;
    max_retries = retries;
    max_supervisor_replacements = replacements;
    max_review_cycles = cycles;
    max_disk_mb = disk;
    max_subagents = subagents;
  })

-- `RunBudgets.from_dict(d.get("budgets"))`: no value, null and the empty dictionary give the defaults.
abbrev optional_dict : Option Value → Option Fields
optional_dict none = some end
optional_dict (some null) = some end
optional_dict (some (obj d)) = some d
optional_dict (some _) = none

pub record RunSpec : Type 0 where
  pub run_id : String
  pub goal : String
  pub project_root : String
  pub project_ref : String
  pub constraints : List String
  pub acceptance_criteria : List String
  pub independent_criteria : Bool
  pub source_profiles : List String
  pub team : String
  pub concurrency : ℕ
  pub review_policy : String
  pub input_policy : String
  pub budgets : RunBudgets
  pub idempotency_key : String
  pub board : String
  pub created_at : ℕ
  pub schema_version : ℕ

abbrev pub run_schema_version : ℕ
run_schema_version = 4

unfoldable pub to_dict : RunSpec → Fields
to_dict s = field "run_id" (text s.run_id) (
    field "goal" (text s.goal) (
      field "project_root" (text s.project_root) (
        field "project_ref" (text s.project_ref) (
          field "constraints" (arr (texts_value s.constraints)) (
            field "acceptance_criteria" (arr (texts_value s.acceptance_criteria)) (
              field "independent_criteria" (bool s.independent_criteria) (
                field "source_profiles" (arr (texts_value s.source_profiles)) (
                  field "team" (text s.team) (
                    field "concurrency" (num s.concurrency) (
                      field "review_policy" (text s.review_policy) (
                        field "input_policy" (text s.input_policy) (
                          field "budgets" (obj (budgets_to_dict s.budgets)) (
                            field "idempotency_key" (text s.idempotency_key) (
                              field "board" (text s.board) (
                                field "created_at" (num s.created_at)
                                  (field "schema_version" (num s.schema_version) end))))))))))))))))

unfoldable pub from_dict : Fields → Option RunSpec
from_dict d = do
  run_id ← need as_text "run_id" d
  goal ← need as_text "goal" d
  project_root ← get_or as_text "project_root" "" d
  project_ref ← get_or as_text "project_ref" "" d
  constraints ← get_or as_texts "constraints" [] d
  criteria ← get_or as_texts "acceptance_criteria" [] d
  independent ← get_or as_bool "independent_criteria" false d
  profiles ← get_or as_texts "source_profiles" [] d
  team ← get_or as_text "team" "default" d
  concurrency ← get_or as_num "concurrency" 1 d
  review_policy ← get_or as_text "review_policy" "auto" d
  input_policy ← get_or as_text "input_policy" "allow" d
  budget_dict ← optional_dict (get "budgets" d)
  budgets ← budgets_from_dict budget_dict
  idempotency_key ← get_or as_text "idempotency_key" "" d
  board ← get_or as_text "board" "hca" d
  created_at ← get_or as_num "created_at" 0 d
  schema_version ← get_or as_num "schema_version" run_schema_version d
  some (record {
    run_id = run_id;
    goal = goal;
    project_root = project_root;
    project_ref = project_ref;
    constraints = constraints;
    acceptance_criteria = criteria;
    independent_criteria = independent;
    source_profiles = profiles;
    team = team;
    concurrency = concurrency;
    review_policy = review_policy;
    input_policy = input_policy;
    budgets = budgets;
    idempotency_key = idempotency_key;
    board = board;
    created_at = created_at;
    schema_version = schema_version;
  })

budgets_round_trip : (b : RunBudgets) → budgets_from_dict (budgets_to_dict b) ≡ some b
unfolding budgets_from_dict budgets_to_dict
budgets_round_trip b = refl

-- A specification that is written to the store is read back unchanged.
pub from_dict-to_dict : (s : RunSpec) → from_dict (to_dict s) ≡ some s
unfolding from_dict to_dict
from_dict-to_dict s = rw (
  items_texts-texts_value s.constraints,
  items_texts-texts_value s.acceptance_criteria,
  items_texts-texts_value s.source_profiles,
  budgets_round_trip s.budgets,
)
