-- ===== src/Scenarios/Dispatches.antt =====
-- The dispatch of src/hca/kanban.py at concrete inputs.
use hermes_concurrent_agents.Common.{
  ℕ, ◌+◌, String, ◌≡◌, refl, none, some, List, [], ◌∷◌, nat_eq, string_eq, All,
}
use hermes_concurrent_agents.Common.Tables.{order_desc}
use hermes_concurrent_agents.Common.Words.{codes, lower, codes_eq, same_codes}
use hermes_concurrent_agents.StateDb.{StateDb, empty_db, list_runs, active_lease_credits}
use hermes_concurrent_agents.Resources.{admit}
use hermes_concurrent_agents.Routing.{busy, concrete_slots}
use hermes_concurrent_agents.Dispatch.{
  DispatchConfig, ReadyRow, Wait, starts_with, is_part, ends_with, names_role, role_from_profile,
  live_slots, pick_idle_slot, pre_reserve_ready,
}
use hermes_concurrent_agents.Dispatch.Idle.{Picked, Picked-idle}
use hermes_concurrent_agents.Dispatch.Roles.{Marks}
use hermes_concurrent_agents.Dispatch.Booked.{Booked}
use hermes_concurrent_agents.Dispatch.Recounted.{count_slots}
use hermes_concurrent_agents.Dispatch.Credits.{Fits, reserved_within_budget}
use hermes_concurrent_agents.Dispatch.Reserved.{pre_reserved}
use hermes_concurrent_agents.Scenarios.Ledgers.{small, worker_run}
use hermes_concurrent_agents.Scenarios.Routes.{fleet}

-- A ledger in which the first coder works.
abbrev one_coder : StateDb
one_coder = record empty_db { runs = worker_run "r1" "hca-f-coder-01" "running" ∷ [] }

role_test : role_from_profile (codes "hca-f-QA-01") ≡ codes "qa"
unfolding role_from_profile same_codes
role_test = refl

-- The name of a fleet is taken for the role.
fleet_for_role : role_from_profile (codes "hca-coder-qa-01") ≡ codes "coder"
unfolding role_from_profile same_codes
fleet_for_role = refl

second_coder :
    (pick_idle_slot fleet one_coder [] (codes "hca-f-coder-01")).0 ≡ some (codes "hca-f-coder-02")
unfolding pick_idle_slot same_codes list_runs order_desc
second_coder = refl

coder_marked : Marks (codes "hca-f-coder-01") (codes "coder")
unfolding names_role is_part ends_with starts_with lower same_codes
coder_marked = record {
  is_role = refl;
  marked_once = (refl, (refl, (refl, (refl, (refl, (refl, tt))))));
}

Picked-idle_example :
    Picked fleet one_coder
      (codes "coder")
      (pick_idle_slot fleet one_coder ((codes "coder", 5) ∷ []) (codes "hca-f-coder-01")).0
Picked-idle_example =
    Picked-idle fleet one_coder ((codes "coder", 5) ∷ []) (codes "hca-f-coder-01") (codes "coder")
      coder_marked

abbrev dispatching : DispatchConfig
dispatching = record {
  fleet = fleet;
  board = "hca";
  capacity = small;
  per_role_caps = (codes "coder", 2) ∷ [];
}

abbrev ready : List ReadyRow
ready =
    record { id = "t1"; assignee = "hca-f-coder-01" }
    ∷ record { id = "t2"; assignee = "hca-f-coder-02" }
    ∷ record { id = "t3"; assignee = "hca-f-qa-01" }
    ∷ []

abbrev told : Wait → String
told w = "waiting"

abbrev ticks : ℕ → ℕ
ticks i = 50 + i

-- The busy slot is passed over, and the limit ends the round.
one_reserved :
    (pre_reserve_ready dispatching 1 none 0
      (λ i. none)
      (λ i. none)
      ticks
      told
      one_coder
      []
      (some ready)).profiles
    ≡ codes "hca-f-coder-02" ∷ []
unfolding pre_reserve_ready same_codes list_runs order_desc admit active_lease_credits
    concrete_slots
one_reserved = refl

all_marked : All (λ s. Marks s.profile s.role) (concrete_slots fleet)
unfolding concrete_slots names_role is_part ends_with starts_with lower same_codes
all_marked = (
  record { is_role = refl; marked_once = (refl, (refl, (refl, (refl, (refl, (refl, tt)))))) },
  (
    record { is_role = refl; marked_once = (refl, (refl, (refl, (refl, (refl, (refl, tt)))))) },
    (
      record { is_role = refl; marked_once = (refl, (refl, (refl, (refl, (refl, (refl, tt)))))) },
      tt,
    ),
  ),
)

pre_reserved_example :
    Booked dispatching 1 (busy one_coder []) [] (live_slots one_coder) (count_slots dispatching) (
      pre_reserve_ready dispatching 1 none 0
        (λ i. none)
        (λ i. none)
        ticks
        told
        one_coder
        []
        (some ready))
pre_reserved_example =
    pre_reserved dispatching 1 none 0 (λ i. none) (λ i. none) ticks told one_coder [] (some ready)
      all_marked

reserved_within_budget_example : Fits dispatching (
    pre_reserve_ready dispatching 1 none 0
      (λ i. none)
      (λ i. none)
      ticks
      told
      one_coder
      []
      (some ready))
reserved_within_budget_example =
    reserved_within_budget dispatching 1 none 0 (λ i. none) (λ i. none) ticks told one_coder []
      (some ready)
