-- ===== src/RunResult/Outcomes.antt =====
-- src/hca/result.py: what the result of a run claims, now and after later calls.
use hermes_concurrent_agents.Common.{
  String, ◌≡◌, refl, sym, subst, ◌∙◌, ◌↔◌, ◌⊎◌, inl, inr, Bool, true, false, not, ◌&&◌, Option,
  none, some, List, [], ◌∷◌, ◌++◌, map, arith, eq_iff, if◌then◌else◌, nat_eq, string_eq, is_empty,
}
use hermes_concurrent_agents.Run.State.{
  RunState, queued, planning, running, needs_input, review, rework, stopping, completed, blocked,
  failed, cancelled, run_state_eq,
}
use hermes_concurrent_agents.Common.Json.{Fields}
use hermes_concurrent_agents.Evidence.{Artifact}
use hermes_concurrent_agents.Run.Store.{Question, Store, RunProjection, get_run, open_questions}
use hermes_concurrent_agents.Run.Store.Lifecycle.{Call, run_calls, final_run_forever}
use hermes_concurrent_agents.RunResult.{
  Blocker, stated, Manifest, RunResult, outcome_for, explains, awaited, blockers_of, manifest_of,
  summary_of, build_result,
}

success_iff : (st : RunState) → (outcome_for st ≡ "success") ↔ (st ≡ completed)
unfolding outcome_for
success_iff completed = (λ h. refl, λ h. refl)
success_iff queued = ground (arith, eq_iff "partial" "success")
success_iff planning = ground (arith, eq_iff "partial" "success")
success_iff running = ground (arith, eq_iff "partial" "success")
success_iff needs_input = ground (arith, eq_iff "partial" "success")
success_iff review = ground (arith, eq_iff "partial" "success")
success_iff rework = ground (arith, eq_iff "partial" "success")
success_iff stopping = ground (arith, eq_iff "partial" "success")
success_iff blocked = ground (arith, eq_iff "blocked" "success")
success_iff failed = ground (arith, eq_iff "failed" "success")
success_iff cancelled = ground (arith, eq_iff "cancelled" "success")

nothing_listed :
    (x : Blocker) (silent explained : Bool) (qs : List Question)
    → ((if not silent && explained then x ∷ [] else []) ++ map awaited qs ≡ [])
      ↔ ((qs ≡ []) × ((explained ≡ false) ⊎ (silent ≡ true)))
nothing_listed x true e [] = (λ h. (refl, inr refl), λ h. refl)
nothing_listed x false false [] = (λ h. (refl, inl refl), λ h. refl)
nothing_listed x false true [] = (λ h. cc, λ h. elim h.1 [ inl a ↦ cc | inr b ↦ cc ])
nothing_listed x true e (q ∷ qs) = (λ h. cc, λ h. cc)
nothing_listed x false false (q ∷ qs) = (λ h. cc, λ h. cc)
nothing_listed x false true (q ∷ qs) = (λ h. cc, λ h. cc)

-- The list of blockers, in both of its parts.
blockers_iff :
    (p : RunProjection) (qs : List Question)
    → (blockers_of p qs ≡ [])
      ↔ ((qs ≡ []) × ((explains p.state ≡ false) ⊎ (is_empty p.reason ≡ true)))
unfolding blockers_of
blockers_iff p qs = nothing_listed (stated p.reason) (is_empty p.reason) (explains p.state) qs

abbrev result_of :
    (Manifest → String) → Store → String → RunProjection → List Artifact → Fields → RunResult
result_of digest s r p artifacts cleanup = record {
  body = manifest_of s r p artifacts;
  summary = summary_of (manifest_of s r p artifacts).outcome p;
  cleanup = cleanup;
  manifest_sha256 = digest (manifest_of s r p artifacts);
}

-- The result of an existing run exists; it claims success exactly if the run is completed, and it
-- names no blocker exactly if no question of the run is open and the run did not end blocked, failed or
-- cancelled with a reason.
pub result_tells :
    (digest : Manifest → String) (s : Store) (r : String) (artifacts : List Artifact)
    (cleanup : Fields) (p : RunProjection)
    → get_run s r ≡ some p
    → (res : RunResult) × ((build_result digest s r artifacts cleanup ≡ some res)
        × (((res.body.outcome ≡ "success") ↔ (p.state ≡ completed))
            × ((res.body.unresolved_blockers ≡ []) ↔ (
                (open_questions s r ≡ [])
                × ((explains p.state ≡ false) ⊎ (is_empty p.reason ≡ true))))))
unfolding build_result
result_tells digest s r artifacts cleanup p h = (
  result_of digest s r p artifacts cleanup,
  (rw (h, build_result) refl, (success_iff p.state, blockers_iff p (open_questions s r))),
)

no_result :
    (digest : Manifest → String) (s : Store) (r : String) (artifacts : List Artifact)
    (cleanup : Fields)
    → get_run s r ≡ none
    → build_result digest s r artifacts cleanup ≡ none
unfolding build_result
no_result digest s r artifacts cleanup e = rw (e, build_result) refl

some_result : {a b : RunResult} → some a ≡ some b → a ≡ b
some_result {a} {b} e = cc

none_result : {A : Type 0} {b : RunResult} → none ≡ some b → A
none_result e = cc

-- Once the result of a run claims success, it claims it after all further calls on the store.
pub success_forever :
    (digest : Manifest → String) (s : Store) (cs : List Call) (r : String)
    (artifacts : List Artifact) (cleanup : Fields) (res : RunResult)
    → build_result digest s r artifacts cleanup ≡ some res
    → res.body.outcome ≡ "success"
    → (later : RunResult) × ((build_result digest (run_calls s cs) r artifacts cleanup ≡ some later)
        × (later.body.outcome ≡ "success"))
success_forever digest s cs r artifacts cleanup res h claim = go (get_run s r) refl
  where
    go :
        (o : Option RunProjection)
        → get_run s r ≡ o
        → (later : RunResult) × ((build_result digest (run_calls s cs) r artifacts cleanup
              ≡ some later)
            × (later.body.outcome ≡ "success"))
    go none e = none_result (sym (no_result digest s r artifacts cleanup e) ∙ h)
    go (some p) e =
        let now = result_tells digest s r artifacts cleanup p e in
        let same : now.0 ≡ res = some_result (sym now.1.0 ∙ h) in
        let done : p.state ≡ completed =
          now.1.1.0.0 (subst (λ x. x.body.outcome ≡ "success") (sym same) claim) in
        let (q, at, kept) = final_run_forever s cs r p e (rw done refl) in
        let after = result_tells digest (run_calls s cs) r artifacts cleanup q at in
        (after.0, (after.1.0, after.1.1.0.1 (kept ∙ done)))
