-- ===== src/Service/Budgets.antt =====
-- src/hca/service.py: the budgets that a submission asks for.
use hermes_concurrent_agents.Common.{
  ℕ, String, ◌≡◌, refl, ap, inl, inr, Option, none, some, List, [], ◌∷◌, if◌then◌else◌, ◌==◌,
  nat_eq, string_eq, Bool-cases, All,
}
use hermes_concurrent_agents.Common.Json.{num, Fields, end, field, as_num, get_or}
use hermes_concurrent_agents.Run.Spec.{RunBudgets, budgets_from_dict}
use hermes_concurrent_agents.Service.Submit.{
  BudgetValue, whole, below_zero, unreadable, BudgetEntry, budget_fields, parse_fields,
  parsed_budgets,
}

-- A value that is no negative number.
abbrev pub IsNumber : BudgetValue → Type 0
IsNumber (whole n) = Unit {0}
IsNumber below_zero = ⊥
IsNumber unreadable = ⊥

abbrev number_of : BudgetValue → ℕ
number_of (whole n) = n
number_of _ = 0

-- The number asked for under a name, or else the default.
abbrev pub asked : String → ℕ → List BudgetEntry → ℕ
asked name default [] = default
asked name default (b ∷ bs) = if b.key == name then number_of b.value else asked name default bs

-- The budgets asked for, with the program's defaults.
abbrev pub asked_budgets : List BudgetEntry → RunBudgets
asked_budgets bs = record {
  max_tasks = asked "max_tasks" 20 bs;
  max_workers = asked "max_workers" 4 bs;
  wall_seconds = asked "wall_seconds" 3600 bs;
  max_turns_per_task = asked "max_turns_per_task" 200 bs;
  max_retries = asked "max_retries" 2 bs;
  max_supervisor_replacements = asked "max_supervisor_replacements" 2 bs;
  max_review_cycles = asked "max_review_cycles" 2 bs;
  max_disk_mb = asked "max_disk_mb" 5000 bs;
  max_subagents = asked "max_subagents" 0 bs;
}

-- Numbers make a dictionary that holds each of them under its name, and nothing else does.
numbers_dict :
    (bs : List BudgetEntry)
    → All (λ b. IsNumber b.value) bs
    → (fs : Fields) × (budget_fields bs ≡ some fs)
      × ((name : String) (default : ℕ)
          → get_or as_num name default fs ≡ some (asked name default bs))
numbers_dict [] h = (end, refl, λ name default. refl)
numbers_dict (b ∷ bs) h = go b.value refl h.0 (numbers_dict bs h.1)
  where
    go :
        (v : BudgetValue)
        → b.value ≡ v
        → IsNumber v
        → (fs : Fields) × (budget_fields bs ≡ some fs)
          × ((name : String) (default : ℕ)
              → get_or as_num name default fs ≡ some (asked name default bs))
        → (fs : Fields) × (budget_fields (b ∷ bs) ≡ some fs)
          × ((name : String) (default : ℕ)
              → get_or as_num name default fs ≡ some (asked name default (b ∷ bs)))
    go (whole n) e k (fs, made, read) = (
      field b.key (num n) fs,
      rw (e, made) refl,
      λ name default. elim (Bool-cases (b.key == name)) [
        | inl here ↦ rw (here, e) refl
        | inr away ↦ rw away (read name default)
      ],
    )
    go below_zero e k _ = elim k [ ]
    go unreadable e k _ = elim k [ ]

numbers_only :
    (bs : List BudgetEntry) (fs : Fields)
    → budget_fields bs ≡ some fs
    → All (λ b. IsNumber b.value) bs
numbers_only [] fs h = tt
numbers_only (b ∷ bs) fs h = go b.value (budget_fields bs) refl refl (numbers_only bs)
  where
    go :
        (v : BudgetValue) (o : Option Fields)
        → b.value ≡ v
        → budget_fields bs ≡ o
        → ((rest : Fields) → budget_fields bs ≡ some rest → All (λ b. IsNumber b.value) bs)
        → All (λ b. IsNumber b.value) (b ∷ bs)
    go (whole n) (some rest) e k later = (rw e tt, later rest k)
    go (whole n) none e k later = cc (rw (e, k) at h)
    go below_zero o e k later = cc (rw e at h)
    go unreadable o e k later = cc (rw e at h)

-- Budgets of numbers are read as asked.
pub parsed_budgets-numbers :
    (bs : List BudgetEntry)
    → All (λ b. IsNumber b.value) bs
    → parsed_budgets bs ≡ some (asked_budgets bs)
unfolding parsed_budgets budgets_from_dict
parsed_budgets-numbers bs h =
    let (fs, e, read) = numbers_dict bs h in
    rw e (
      rw
        (
          read "max_tasks" 20,
          read "max_workers" 4,
          read "wall_seconds" 3600,
          read "max_turns_per_task" 200,
          read "max_retries" 2,
          read "max_supervisor_replacements" 2,
          read "max_review_cycles" 2,
          read "max_disk_mb" 5000,
          read "max_subagents" 0,
        )
        refl)

pub parsed_budgets-only :
    (bs : List BudgetEntry) (b : RunBudgets)
    → parsed_budgets bs ≡ some b
    → All (λ b. IsNumber b.value) bs
unfolding parsed_budgets
parsed_budgets-only bs b h = go (budget_fields bs) refl
  where
    go : (o : Option Fields) → budget_fields bs ≡ o → All (λ b. IsNumber b.value) bs
    go (some fs) e = numbers_only bs fs e
    go none e = cc (h, ap parse_fields e)
