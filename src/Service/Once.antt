-- ===== src/Service/Once.antt =====
-- src/hca/service.py: what the arguments of `run` decide, and the second submission under a key.
use hermes_concurrent_agents.Common.{
  suc, String, ◌≡◌, refl, ◌≢◌, Bool, true, false, not, ◌&&◌, Option, none, some, arith, ltb,
  if◌then◌else◌, ◌==◌, nat_eq, string_eq, is_empty, length,
}
use hermes_concurrent_agents.Run.Spec.{RunBudgets}
use hermes_concurrent_agents.Run.Store.{Store, RunProjection, get_run, find_by_idempotency_key}
use hermes_concurrent_agents.Team.{TeamSpec}
use hermes_concurrent_agents.Service.Effects.{Env, World, from_now}
use hermes_concurrent_agents.Service.Drive.{launch, run}
use hermes_concurrent_agents.Service.Results.{ServiceResult}
use hermes_concurrent_agents.Service.Submit.{
  Site, RunRequest, Admission, refused, admitted, admission, checked, stripped, replay_or, spec_of,
  resumed,
}

-- A chain of checks that ended in an admission ends, for the same answers, in its last step.
gates :
    (b c d e k : Bool) (r r' r'' : ServiceResult) (m m' x y y' : Admission) (team : TeamSpec)
    (budgets : RunBudgets)
    → m ≢ admitted team budgets
    → (if b
        then refused r
        else if c
        then m
        else if d
        then refused r'
        else if e
        then refused r''
        else if k
        then x
        else y)
      ≡ admitted team budgets
    → k ≡ false
    → (if b
        then refused r
        else if c
        then m'
        else if d
        then refused r'
        else if e
        then refused r''
        else if k
        then x
        else y')
      ≡ y'
gates true c d e k r r' r'' m m' x y y' team budgets n h f = cc (h)
gates false true d e k r r' r'' m m' x y y' team budgets n h f = absurd (n h)
gates false false true e k r r' r'' m m' x y y' team budgets n h f = cc (h)
gates false false false true k r r' r'' m m' x y y' team budgets n h f = cc (h)
gates false false false false k r r' r'' m m' x y y' team budgets n h f = rw f refl

module _ (site : Site) where
  resumed-admitted :
      (r : String) (o : Option RunProjection) (team : TeamSpec) (budgets : RunBudgets)
      → resumed site r o ≢ admitted team budgets
  resumed-admitted r none team budgets e = ground arith
  resumed-admitted r (some p) team budgets e = ground arith

  -- Where a request with a key has been admitted, it is decided by the key and the arguments alone.
  pub admission-keyed :
      (q : RunRequest) (s t : Store) (team : TeamSpec) (budgets : RunBudgets)
      → admission site q s ≡ admitted team budgets
      → is_empty q.idempotency_key ≡ false
      → admission site q t
        ≡ replay_or site (find_by_idempotency_key t q.idempotency_key) (checked site q)
  unfolding admission
  admission-keyed q s t team budgets h keyed =
      gates (is_empty q.resume && not (site.config.role == "single")) (not (is_empty q.resume))
        (is_empty (stripped q.goal))
        (q.independent_criteria && ltb (length q.acceptance_criteria) 2)
        (is_empty q.idempotency_key) _ _ _ (resumed site q.resume (get_run s q.resume))
        (resumed site q.resume (get_run t q.resume)) (checked site q)
        (replay_or site (find_by_idempotency_key s q.idempotency_key) (checked site q))
        (replay_or site (find_by_idempotency_key t q.idempotency_key) (checked site q)) team budgets
        (resumed-admitted q.resume (get_run s q.resume) team budgets) h keyed

module _ (env : Env) (site : Site) where
  pub run-admitted :
      (q : RunRequest) (fresh : String) (w : World) (team : TeamSpec) (budgets : RunBudgets)
      → admission site q w.store ≡ admitted team budgets
      → run env site q fresh w
        ≡ launch env site
            (spec_of site.config q budgets fresh (from_now env.clock w 0))
            team
            q.detach
            (record w { reads = suc w.reads })
  unfolding run
  run-admitted q fresh w team budgets h = rw (h, run) refl
