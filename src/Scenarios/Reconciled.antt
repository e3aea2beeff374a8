-- ===== src/Scenarios/Reconciled.antt =====
-- The reconciliation of src/hca/service.py at concrete inputs.
use hermes_concurrent_agents.Common.{
  ℕ, ◌+◌, String, ◌≡◌, refl, ◌≢◌, ◌↔◌, ◌⊎◌, inl, inr, true, some, [], ◌∷◌, nat_eq, string_eq,
}
use hermes_concurrent_agents.Run.State.{RunState, planning, completed, blocked, run_state_eq}
use hermes_concurrent_agents.Evidence.{ExecutionEvidence, Reason}
use hermes_concurrent_agents.Evidence.Completion.{Supports}
use hermes_concurrent_agents.Run.Store.{
  Store, create_run, get_run, empty_store, new_row, row_to_proj, append_event,
}
use hermes_concurrent_agents.Common.Tables.{row}
use hermes_concurrent_agents.Run.Store.Lifecycle.{after}
use hermes_concurrent_agents.Service.{reconcile_from_evidence, has_review}
use hermes_concurrent_agents.Service.Moves.{run_state}
use hermes_concurrent_agents.Service.Settle.{finishes}
use hermes_concurrent_agents.Service.Reconcile.{reconciled_iff}
use hermes_concurrent_agents.Scenarios.Evidences.{
  reviewed_spec, built, reviewed_by_name, seen_tasks,
}

abbrev pub in_state : RunState → Store
in_state st = after empty_store (create_run empty_store reviewed_spec st 7 7)

pub in_state_found : (st : RunState) → run_state (in_state st) reviewed_spec.run_id ≡ some st
unfolding create_run row new_row append_event get_run row_to_proj
in_state_found st = refl

abbrev seen : ExecutionEvidence
seen = seen_tasks (built ∷ reviewed_by_name "hca-qa-01" ∷ [])

abbrev rendered : Reason → String
rendered r = "reason"

abbrev clock : ℕ → ℕ
clock n = 20 + n

reconciled_iff_example :
    (run_state
        (reconcile_from_evidence rendered (in_state planning) reviewed_spec seen clock)
        reviewed_spec.run_id
      ≡ some completed)
    ↔ ((planning ≡ completed)
        ⊎ (Supports reviewed_spec seen × (finishes (has_review seen) planning ≡ true)))
reconciled_iff_example =
    reconciled_iff rendered (in_state planning) reviewed_spec seen clock planning
      (in_state_found planning)

-- A blocked run whose evidence is complete stays blocked.
blocked_stays :
    run_state
      (reconcile_from_evidence rendered (in_state blocked) reviewed_spec seen clock)
      reviewed_spec.run_id
    ≢ some completed
blocked_stays h =
    elim ((reconciled_iff rendered (in_state blocked) reviewed_spec seen clock blocked
        (in_state_found blocked)).0
      h) [ inl e ↦ cc | inr both ↦ cc ]
