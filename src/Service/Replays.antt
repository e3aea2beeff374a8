-- ===== src/Service/Replays.antt =====
-- src/hca/service.py: a submission that is repeated under its idempotency key.
use hermes_concurrent_agents.Common.{
  ℕ, suc, String, ◌≡◌, refl, sym, ap, subst, ◌∙◌, ◌≢◌, inl, inr, false, Option, none, some, List,
  [], ◌∷◌, ◌++◌, eq_iff, nat_eq, string_eq, Bool-cases, is_empty,
}
use hermes_concurrent_agents.Run.State.{queued}
use hermes_concurrent_agents.Run.Spec.{RunBudgets, RunSpec}
use hermes_concurrent_agents.RunResult.{Manifest}
use hermes_concurrent_agents.Common.Tables.{row}
use hermes_concurrent_agents.Common.Json.{end}
use hermes_concurrent_agents.Run.Store.{
  Store, ok, RunRow, RunProjection, get_run, row_key_run, row_to_proj, append_event, run_created,
  map_option, new_row, create_run, find_by_idempotency_key,
}
use hermes_concurrent_agents.Run.Store.Keys.{key_found}
use hermes_concurrent_agents.Team.{TeamSpec}
use hermes_concurrent_agents.Service.Effects.{Env, Exit, returned, raised, World, from_now}
use hermes_concurrent_agents.Service.Results.{ServiceResult, Report, replay_of, status_result}
use hermes_concurrent_agents.Service.Follow.{report_on}
use hermes_concurrent_agents.Service.Submit.{
  Site, RunRequest, replayed, admitted, admission, checked, replay_or, spec_of,
}
use hermes_concurrent_agents.Service.Drive.{run}
use hermes_concurrent_agents.Service.Writes.{Reached, Reached-trans}
use hermes_concurrent_agents.Service.Submitted.{Reached-launch}
use hermes_concurrent_agents.Service.Once.{admission-keyed, run-admitted}
use hermes_concurrent_agents.Service.Requests.{Request, served, served_by_calls}

-- A result that is returned and names the run.
abbrev pub Names : String → Exit ServiceResult → Type 0
Names r (returned res) = res.run_id ≡ r
Names r (raised e) = ⊥

pub fresh_creates :
    (s : Store) (spec : RunSpec) (now ts : ℕ)
    → get_run s spec.run_id ≡ none
    → (q : RunProjection) × (t : Store) × (create_run s spec queued now ts ≡ ok (q, t))
unfolding create_run get_run
fresh_creates s spec now ts h = go (row row_key_run spec.run_id s.runs) refl
  where
    go :
        (o : Option RunRow)
        → row row_key_run spec.run_id s.runs ≡ o
        → (q : RunProjection) × (t : Store) × (create_run s spec queued now ts ≡ ok (q, t))
    go none e = (
      row_to_proj (new_row spec queued now),
      append_event (record s { runs = s.runs ++ new_row spec queued now ∷ [] }) spec.run_id
          "run.created" (run_created spec.goal) end ts,
      rw (e, create_run) refl,
    )
    go (some x) e = cc (h, ap (map_option row_to_proj) e)

module _ (env : Env) (site : Site) (digest : Manifest → String) where
  replayed-Names :
      (q : RunRequest) (fresh : String) (w : World) (p : RunProjection) (message : Option Report)
      → admission site q w.store ≡ replayed p message
      → ((run env site q fresh w).1.store ≡ w.store) × Names p.run_id (run env site q fresh w).0
  unfolding run report_on status_result
  replayed-Names q fresh w p message h = rw (h, run) (refl, refl)

  -- The store has what an admitted submission created, whatever was asked later.
  created_later :
      (q : RunRequest) (fresh : String) (w : World) (team : TeamSpec) (budgets : RunBudgets)
      (qs : List Request)
      → admission site q w.store ≡ admitted team budgets
      → q.idempotency_key ≢ ""
      → get_run w.store fresh ≡ none
      → let v = served env site digest qs (run env site q fresh w).1 in
        (p : RunProjection) × (find_by_idempotency_key v.store q.idempotency_key ≡ some p)
        × (p.idempotency_key ≡ q.idempotency_key)
  unfolding spec_of
  created_later q fresh w team budgets qs h key new =
      let spec = spec_of site.config q budgets fresh (from_now env.clock w 0) in
      let w' : World = record w { reads = suc w.reads } in
      let after = (run env site q fresh w).1 in
      let (p, t, created) =
        fresh_creates w.store spec (from_now env.clock w' 0) (from_now env.clock w' 1) new in
      let first : Reached t after.store =
        subst (λ x. Reached t x.1.store) (sym (run-admitted env site q fresh w team budgets h))
          (Reached-launch env site spec team q.detach w' t p created) in
      let v = served env site digest qs after in
      let (cs, e) : Reached t v.store =
        Reached-trans t after.store v.store first (served_by_calls env site digest qs after) in
      subst
        (λ s.
          (x : RunProjection) × (find_by_idempotency_key s q.idempotency_key ≡ some x)
          × (x.idempotency_key ≡ q.idempotency_key))
        (sym e)
        (key_found w.store t spec (from_now env.clock w' 0) (from_now env.clock w' 1) p cs created
          key)

  -- Once a submission with an idempotency key has been admitted under a fresh identifier, and whatever
  -- is requested later, a repetition of it writes nothing, and its result names a run with the key.
  pub submitted_once :
      (q : RunRequest) (fresh later : String) (w : World) (team : TeamSpec) (budgets : RunBudgets)
      (qs : List Request)
      → admission site q w.store ≡ admitted team budgets
      → q.idempotency_key ≢ ""
      → get_run w.store fresh ≡ none
      → let v = served env site digest qs (run env site q fresh w).1 in
        let again = run env site q later v in
        (again.1.store ≡ v.store)
        × ((p : RunProjection) × (find_by_idempotency_key v.store q.idempotency_key ≡ some p)
            × (p.idempotency_key ≡ q.idempotency_key)
            × Names p.run_id again.0)
  submitted_once q fresh later w team budgets qs h key new =
      let (p, found, keyed) = created_later q fresh w team budgets qs h key new in
      let v = served env site digest qs (run env site q fresh w).1 in
      let decided : admission site q v.store ≡ replayed p (some (replay_of p.run_id)) =
        admission-keyed site q w.store v.store team budgets h (not_empty q.idempotency_key key)
        ∙ ap (λ o. replay_or site o (checked site q)) found in
      let (same, names) = replayed-Names q later v p (some (replay_of p.run_id)) decided in
      (same, (p, found, keyed, names))
    where
      not_empty : (k : String) → k ≢ "" → is_empty k ≡ false
      not_empty k n = elim (Bool-cases (is_empty k)) [
        | inl e ↦ absurd (n ((eq_iff k "").0 e))
        | inr e ↦ e
      ]
