-- ===== src/Service/Collect.antt =====
-- src/hca/service.py: `_collected_artifacts` and `collect` of `FleetService`.
use hermes_concurrent_agents.Common.{
  ℕ, String, true, ◌||◌, Option, none, some, List, [], ◌∷◌, ◌++◌, if◌then◌else◌, ◌==◌, nat_eq,
  string_eq, is_empty,
}
use hermes_concurrent_agents.Common.Json.{
  Value, Fields, Items, text, arr, obj, nil, cons, end, field, bool, get,
}
use hermes_concurrent_agents.Run.State.{value}
use hermes_concurrent_agents.Evidence.{Artifact}
use hermes_concurrent_agents.Run.Store.{Event, Store, list_events}
use hermes_concurrent_agents.RunResult.{Manifest, RunResult, build_result}
use hermes_concurrent_agents.Service.Effects.{Env, returned, Action, ◌>>◌}
use hermes_concurrent_agents.Service.Results.{
  ServiceResult, unknown_run_id, summarised, advice, no_remedy, manifest, refuse, exit_ok,
  exit_invalid, exit_blocked, exit_runtime,
}
use hermes_concurrent_agents.Service.Halt.{cut}
use hermes_concurrent_agents.Service.Follow.{reconcile_projection}
use Prim.Native.String.{◌++◌ as append}

-- The payload of the last event of the kind, of the events that are read.
abbrev pub latest_evidence : List Event → Fields → Fields
latest_evidence [] found = found
latest_evidence (e ∷ es) found =
    latest_evidence es (if e.kind == "run.evidence" then e.payload else found)

-- `d.get(key, {})` and `d.get(key, [])` of a value with the type that is written, and `d.get(key, default)`.
abbrev pub dict_of : Option Value → Fields
dict_of (some (obj d)) = d
dict_of _ = end

abbrev pub items_of : Option Value → Items
items_of (some (arr vs)) = vs
items_of _ = nil

abbrev pub text_or : String → Option Value → String
text_or default (some (text s)) = s
text_or default _ = default

-- The artifacts of a task, each with the task as the default of its `task_id`.
unfoldable pub artifact_of : String → Fields → Artifact
artifact_of task a = record {
  name = text_or "" (get "name" a);
  kind = text_or "kanban" (get "kind" a);
  ref = text_or "" (get "ref" a);
  task_id = text_or task (get "task_id" a);
}

abbrev pub artifacts_of : String → Items → List Artifact
artifacts_of task nil = []
artifacts_of task (cons v vs) = artifact_of task (dict_of (some v)) ∷ artifacts_of task vs

-- A result that is not empty is an output too.
unfoldable pub result_artifact : String → String → List Artifact
result_artifact task result =
    if is_empty result
    then []
    else record {
      name = append "result:" task;
      kind = "result";
      ref = cut 200 result;
      task_id = task;
    }
      ∷ []

unfoldable pub task_artifacts : Fields → List Artifact
unfolding artifact_of result_artifact
task_artifacts t =
    artifacts_of (text_or "" (get "task_id" t)) (items_of (get "artifacts" t))
    ++ result_artifact (text_or "" (get "task_id" t)) (text_or "" (get "result" t))

abbrev pub all_artifacts : Items → List Artifact
all_artifacts nil = []
all_artifacts (cons t ts) = task_artifacts (dict_of (some t)) ++ all_artifacts ts

unfoldable pub collected_artifacts : Store → String → List Artifact
unfolding task_artifacts
collected_artifacts s run_id =
    let latest = latest_evidence (list_events s run_id 500) end in
    all_artifacts (items_of (get "tasks" (dict_of (get "evidence" latest))))

unfoldable pub collect_code : String → ℕ
collect_code outcome =
    if outcome == "blocked" || outcome == "cancelled"
    then exit_blocked
    else if outcome == "failed"
    then exit_runtime
    else exit_ok

module _ (digest : Manifest → String) where
  unfoldable pub collected : String → Option RunResult → ServiceResult
  unfolding collect_code
  collected run_id none =
      refuse exit_invalid "collect" run_id "unknown" (unknown_run_id run_id)
        (advice "collect expects a high-level HCA run id; list valid ids with `hca run-status`")
  collected run_id (some result) = record {
    success = result.body.outcome == "success" || result.body.outcome == "partial";
    code = collect_code result.body.outcome;
    action = "collect";
    run_id = run_id;
    state = value result.body.state;
    message = summarised result.summary;
    remediation = no_remedy;
    payload = manifest result;
  }

  -- The artifacts and the manifest, from the store as the reconciliation leaves it.
  unfoldable pub aggregate : String → Action ServiceResult
  unfolding collected collected_artifacts
  aggregate run_id w = (
    returned (
        collected run_id (
          build_result digest w.store run_id (collected_artifacts w.store run_id)
            (field "hca_state_preserved" (bool true) end))),
    w,
  )

  module _ (env : Env) where
    -- A run that is missing is not reconciled, which is what the reconciliation does there itself.
    unfoldable pub collect : String → Action ServiceResult
    unfolding aggregate
    collect run_id = reconcile_projection env run_id >> aggregate run_id
