-- ===== src/Service/Collected.antt =====
-- src/hca/service.py: the artifacts that are read back from the logged evidence.
use hermes_concurrent_agents.Common.{
  ℕ, zero, suc, ◌≤◌, ◌<◌, String, ◌≡◌, refl, ap, Bool, true, false, List, [], ◌∷◌, ◌++◌, arith,
  if◌then◌else◌, ◌==◌, nat_eq, string_eq, take, filter, length, eq_iff,
}
use hermes_concurrent_agents.Common.Json.{Fields, text, obj, end, field}
use hermes_concurrent_agents.Run.State.{value}
use hermes_concurrent_agents.Run.Spec.{RunSpec}
use hermes_concurrent_agents.Evidence.{
  Artifact, TaskEvidence, ExecutionEvidence, Reason, derive_final_state,
}
use hermes_concurrent_agents.Run.Store.{Event, Store, append_event, list_events, plain}
use hermes_concurrent_agents.Service.{
  artifact_to_dict, artifacts_value, task_to_dict, tasks_value, evidence_to_dict, log_evidence,
}
use hermes_concurrent_agents.Service.Collect.{
  latest_evidence, artifact_of, artifacts_of, result_artifact, task_artifacts, all_artifacts,
  collected_artifacts,
}

-- The events of a run, of which 500 are read.
abbrev pub events_of : Store → String → List Event
events_of s r = filter (λ e. e.subject == r) s.events

-- What the tasks of an evidence have to show: their artifacts, and their results.
abbrev pub shown : List TaskEvidence → List Artifact
shown [] = []
shown (t ∷ ts) = (t.artifacts ++ result_artifact t.task_id t.result) ++ shown ts

artifact_of-to_dict : (task : String) (a : Artifact) → artifact_of task (artifact_to_dict a) ≡ a
unfolding artifact_of artifact_to_dict
artifact_of-to_dict task a = refl

artifacts_of-value :
    (task : String) (xs : List Artifact) → artifacts_of task (artifacts_value xs) ≡ xs
unfolding artifacts_value
artifacts_of-value task [] = refl
artifacts_of-value task (a ∷ xs) = rw (artifact_of-to_dict task a, artifacts_of-value task xs) refl

task_artifacts-to_dict :
    (t : TaskEvidence)
    → task_artifacts (task_to_dict t) ≡ t.artifacts ++ result_artifact t.task_id t.result
unfolding task_artifacts task_to_dict
task_artifacts-to_dict t = rw (artifacts_of-value t.task_id t.artifacts) refl

all_artifacts-value : (ts : List TaskEvidence) → all_artifacts (tasks_value ts) ≡ shown ts
unfolding tasks_value
all_artifacts-value [] = refl
all_artifacts-value (t ∷ ts) = rw (task_artifacts-to_dict t, all_artifacts-value ts) refl

module _ {ℓ} {A : Type ℓ} where
  filter-snoc :
      (p : A → Bool) (xs : List A) (e : A)
      → p e ≡ true
      → filter p (xs ++ e ∷ []) ≡ filter p xs ++ e ∷ []
  filter-snoc p [] e h = rw h refl
  filter-snoc p (x ∷ xs) e h = rw (filter-snoc p xs e h) (go (p x))
    where
      go :
          (b : Bool)
          → (if b then x ∷ (filter p xs ++ e ∷ []) else filter p xs ++ e ∷ [])
            ≡ (if b then x ∷ filter p xs else filter p xs) ++ e ∷ []
      go true = refl
      go false = refl

  take-snoc_short :
      (n : ℕ) (xs : List A) (e : A) → length xs < n → take n (xs ++ e ∷ []) ≡ xs ++ e ∷ []
  take-snoc_short zero xs e h = ground arith
  take-snoc_short (suc zero) [] e h = refl
  take-snoc_short (suc (suc n)) [] e h = refl
  take-snoc_short (suc n) (x ∷ xs) e h = ap (λ ys. x ∷ ys) (take-snoc_short n xs e (ground arith))

  take-snoc_long : (n : ℕ) (xs : List A) (e : A) → n ≤ length xs → take n (xs ++ e ∷ []) ≡ take n xs
  take-snoc_long zero xs e h = refl
  take-snoc_long (suc n) [] e h = ground arith
  take-snoc_long (suc n) (x ∷ xs) e h = ap (λ ys. x ∷ ys) (take-snoc_long n xs e (ground arith))

latest-snoc :
    (xs : List Event) (e : Event) (d : Fields)
    → (e.kind == "run.evidence") ≡ true
    → latest_evidence (xs ++ e ∷ []) d ≡ e.payload
latest-snoc [] e d h = rw h refl
latest-snoc (x ∷ xs) e d h = latest-snoc xs e (if x.kind == "run.evidence" then x.payload else d) h

-- The event that logs an evidence.
abbrev logged : (Reason → String) → Store → RunSpec → ExecutionEvidence → ℕ → Event
logged render s spec ev ts = record {
  id = s.next_id;
  subject = spec.run_id;
  ts = ts;
  kind = "run.evidence";
  message = plain (render (derive_final_state spec ev).1);
  payload =
      field "final" (text (value (derive_final_state spec ev).0))
        (field "evidence" (obj (evidence_to_dict ev)) end);
}

events_of-log :
    (render : Reason → String) (s : Store) (spec : RunSpec) (ev : ExecutionEvidence) (ts : ℕ)
    → events_of (log_evidence render s spec ev ts) spec.run_id
      ≡ events_of s spec.run_id ++ logged render s spec ev ts ∷ []
unfolding log_evidence append_event
events_of-log render s spec ev ts =
    filter-snoc (λ e. e.subject == spec.run_id) s.events (logged render s spec ev ts)
      ((eq_iff spec.run_id spec.run_id).1 refl)

-- After an evidence has been logged, the artifacts collected are those of its tasks, with their results
-- cut to 200 characters, if the run had fewer than 500 events before; and if it had 500 or more, they
-- are the ones that were collected before, whatever the evidence is.
pub collected_after_log :
    (render : Reason → String) (s : Store) (spec : RunSpec) (ev : ExecutionEvidence) (ts : ℕ)
    → (length (events_of s spec.run_id) < 500
        → collected_artifacts (log_evidence render s spec ev ts) spec.run_id ≡ shown ev.tasks)
      × (500 ≤ length (events_of s spec.run_id)
          → collected_artifacts (log_evidence render s spec ev ts) spec.run_id
            ≡ collected_artifacts s spec.run_id)
unfolding collected_artifacts list_events
collected_after_log render s spec ev ts = (
  λ short. rw (events_of-log render s spec ev ts) (
      rw (take-snoc_short 500 (events_of s spec.run_id) (logged render s spec ev ts) short) (
        rw
          (latest-snoc (events_of s spec.run_id) (logged render s spec ev ts) end
            ((eq_iff "run.evidence" "run.evidence").1 refl))
          (unfold evidence_to_dict in all_artifacts-value ev.tasks))),
  λ long.
      rw (events_of-log render s spec ev ts)
        (rw (take-snoc_long 500 (events_of s spec.run_id) (logged render s spec ev ts) long) refl),
)
