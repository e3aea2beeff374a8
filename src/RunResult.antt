-- ===== src/RunResult.antt =====
-- src/hca/result.py: the manifest of a run, aggregated from the tables of the store. A summary is kept
-- as the data that it is formatted from, and the digest of the manifest is an argument.
pub mod Outcomes
use hermes_concurrent_agents.Common.{
  ℕ, ◌+◌, String, refl, Bool, true, false, not, ◌&&◌, Option, none, some, List, [], ◌∷◌, ◌++◌, map,
  arith, if◌then◌else◌, ◌==◌, nat_eq, string_eq, is_empty, or_else, filter, contains,
}
use hermes_concurrent_agents.Run.State.{
  RunState, needs_input, review, completed, blocked, failed, cancelled, run_state_eq,
}
use hermes_concurrent_agents.Run.Spec.{RunSpec}
use hermes_concurrent_agents.Common.Json.{Fields}
use hermes_concurrent_agents.Evidence.{Artifact}
use hermes_concurrent_agents.Run.Store.{
  Question, Message, Event, Store, RunProjection, get_run, get_spec, open_questions, list_events,
}

pub record EvidenceRow : Type 0 where
  pub ts : ℕ
  pub kind : String
  pub message : Message

pub data Blocker : Type 0 where
  stated : (reason : String) → Blocker
  awaiting : (prompt question_id : String) → Blocker

pub data Summary : Type 0 where
  completed_goal cancelled_goal blocked_reason failed_reason : String → Summary
  in_progress : RunState → (goal : String) → Summary

-- `manifest_body`.
pub record Manifest : Type 0 where
  pub run_id : String
  pub goal : String
  pub state : RunState
  pub outcome : String
  pub spec : Option RunSpec
  pub evidence : List EvidenceRow
  pub artifacts : List Artifact
  pub unresolved_blockers : List Blocker
  pub open_questions : List Question

pub record RunResult : Type 0 where
  pub body : Manifest
  pub summary : Summary
  pub cleanup : Fields
  pub manifest_sha256 : String

unfoldable pub outcome_for : RunState → String
outcome_for completed = "success"
outcome_for cancelled = "cancelled"
outcome_for blocked = "blocked"
outcome_for failed = "failed"
outcome_for _ = "partial"

abbrev pub explains : RunState → Bool
explains blocked = true
explains failed = true
explains cancelled = true
explains _ = false

abbrev pub awaited : Question → Blocker
awaited q = awaiting q.prompt q.question_id

unfoldable pub blockers_of : RunProjection → List Question → List Blocker
blockers_of p open_qs =
    (if not (is_empty p.reason) && explains p.state then stated p.reason ∷ [] else [])
    ++ map awaited open_qs

abbrev pub evidence_kinds : List String
evidence_kinds =
    "run.state" ∷ "run.created" ∷ "run.needs_input" ∷ "run.responded" ∷ "run.review"
    ∷ "run.completed" ∷ "run.blocked" ∷ "task.complete" ∷ []

unfoldable pub evidence_of : List Event → List EvidenceRow
evidence_of es =
    map (λ e. record { ts = e.ts; kind = e.kind; message = e.message })
      (filter (λ e. contains e.kind evidence_kinds) es)

unfoldable pub summary_of : String → RunProjection → Summary
summary_of outcome p =
    if outcome == "success"
    then completed_goal p.goal
    else if outcome == "cancelled"
    then cancelled_goal p.goal
    else if outcome == "blocked"
    then blocked_reason (or_else p.reason "see unresolved_blockers")
    else if outcome == "failed"
    then failed_reason (or_else p.reason "internal error")
    else in_progress p.state p.goal

unfoldable pub manifest_of : Store → String → RunProjection → List Artifact → Manifest
unfolding outcome_for evidence_of blockers_of
manifest_of s run_id p artifacts = record {
  run_id = run_id;
  goal = p.goal;
  state = p.state;
  outcome = outcome_for p.state;
  spec = get_spec s run_id;
  evidence = evidence_of (list_events s run_id 500);
  artifacts = artifacts;
  unresolved_blockers = blockers_of p (open_questions s run_id);
  open_questions = open_questions s run_id;
}

module _ (digest : Manifest → String) where
  unfoldable pub build_result : Store → String → List Artifact → Fields → Option RunResult
  unfolding manifest_of summary_of
  build_result s run_id artifacts cleanup = elim (get_run s run_id) [
    | none ↦ none
    | some p ↦
        let body = manifest_of s run_id p artifacts in
        some (record {
          body = body;
          summary = summary_of body.outcome p;
          cleanup = cleanup;
          manifest_sha256 = digest body;
        })
  ]
