-- ===== src/Service/Requests.antt =====
-- src/hca/service.py: histories of requests to `FleetService`, whatever the backend and its answers are.
use hermes_concurrent_agents.Common.{
  ℕ, String, ◌≡◌, sym, subst, ◌∙◌, ap, Bool, true, some, List, [], ◌∷◌, nat_eq, string_eq,
}
use hermes_concurrent_agents.Run.Machine.{is_final}
use hermes_concurrent_agents.RunResult.{Manifest}
use hermes_concurrent_agents.Run.Store.{RunProjection, empty_store, get_run}
use hermes_concurrent_agents.Run.State.{queued}
use hermes_concurrent_agents.Run.Store.Replay.{Legal, replay, state_of}
use hermes_concurrent_agents.Run.Store.Trail.{events_tell_state}
use hermes_concurrent_agents.Run.Store.Lifecycle.{Call, run_calls, final_run_forever}
use hermes_concurrent_agents.Service.Effects.{Env, World}
use hermes_concurrent_agents.Service.Halt.{stop, expire}
use hermes_concurrent_agents.Service.Follow.{reconcile, status}
use hermes_concurrent_agents.Service.Submit.{Site, RunRequest}
use hermes_concurrent_agents.Service.Drive.{run}
use hermes_concurrent_agents.Service.Answers.{respond}
use hermes_concurrent_agents.Service.Recovery.{recover}
use hermes_concurrent_agents.Service.Collect.{collect}
use hermes_concurrent_agents.Service.Writes.{Reached, Reached-refl, Reached-trans}
use hermes_concurrent_agents.Service.Lawful.{Lawful-stop, Lawful-expire}
use hermes_concurrent_agents.Service.Served.{Lawful-reconcile}
use hermes_concurrent_agents.Service.Launches.{Lawful-status}
use hermes_concurrent_agents.Service.Submitted.{Lawful-run}
use hermes_concurrent_agents.Service.Answered.{Lawful-respond, Lawful-collect}
use hermes_concurrent_agents.Service.Recovered.{Lawful-recover}

-- The requests that the command line and the plugin make. A new run takes a fresh identifier.
pub data Request : Type 0 where
  submits : RunRequest → (fresh : String) → Request
  looks collects stops expires : (run_id : String) → Request
  reconciles : (run_id : String) → (dispatch : Bool) → Request
  responds : (run_id question_id answer : String) → Request
  recovers : (run_id task_id profile idempotency_key : String) → Request

module _ (env : Env) (site : Site) (digest : Manifest → String) where
  -- The world after a request, whether it returned or raised.
  unfoldable pub serve : Request → World → World
  serve (submits q fresh) w = (run env site q fresh w).1
  serve (looks r) w = (status env r w).1
  serve (collects r) w = (collect digest env r w).1
  serve (stops r) w = (stop env r w).1
  serve (expires r) w = (expire env r w).1
  serve (reconciles r dispatch) w = (reconcile env r dispatch w).1
  serve (responds r qid answer) w = (respond env r qid answer w).1
  serve (recovers r task profile key) w = (recover env r task profile key w).1

  unfoldable pub served : List Request → World → World
  served [] w = w
  served (q ∷ qs) w = served qs (serve q w)

  Reached-serve : (q : Request) (w : World) → Reached w.store (serve q w).store
  unfolding serve
  Reached-serve (submits q fresh) w = Lawful-run env site q fresh w
  Reached-serve (looks r) w = Lawful-status env r w
  Reached-serve (collects r) w = Lawful-collect env digest r w
  Reached-serve (stops r) w = Lawful-stop env r w
  Reached-serve (expires r) w = Lawful-expire env r w
  Reached-serve (reconciles r dispatch) w = Lawful-reconcile env r dispatch w
  Reached-serve (responds r qid answer) w = Lawful-respond env r qid answer w
  Reached-serve (recovers r task profile key) w = Lawful-recover env r task profile key w

  -- Whatever the backend does, and whether it returns or raises, any history of requests leaves the
  -- store as some sequence of the calls of the run store leaves it.
  pub served_by_calls :
      (qs : List Request) (w : World)
      → (cs : List Call) × ((served qs w).store ≡ run_calls w.store cs)
  unfolding served
  served_by_calls [] w = Reached-refl w.store
  served_by_calls (q ∷ qs) w =
      Reached-trans w.store (serve q w).store (served qs (serve q w)).store (Reached-serve q w)
        (served_by_calls qs (serve q w))

  -- Whatever the backend does, and whether it returns or raises: after any history of requests to a
  -- service on a new store, the moves in the table of events, read in order, are legal, each from the
  -- state where the last one of the run ended, and they lead each run from queued to the state that the
  -- table of runs holds (queued for a run that is not there).
  pub served_trail :
      (qs : List Request) (reads : ℕ) (r : String)
      → let v = served qs (record { store = empty_store; reads = reads }) in
        Legal r queued v.store.events × (replay r queued v.store.events ≡ state_of v.store r)
  served_trail qs reads r =
      let (cs, e) = served_by_calls qs (record { store = empty_store; reads = reads }) in
      subst (λ s. Legal r queued s.events × (replay r queued s.events ≡ state_of s r)) (sym e)
        (events_tell_state cs r)

  -- Whatever the backend does, a completed, failed or cancelled run is in the same state after any
  -- history of requests.
  pub served_final :
      (qs : List Request) (w : World) (r : String) (p : RunProjection)
      → get_run w.store r ≡ some p
      → is_final p.state ≡ true
      → (q : RunProjection) × (get_run (served qs w).store r ≡ some q) × (q.state ≡ p.state)
  served_final qs w r p h f =
      let (cs, e) = served_by_calls qs w in
      let (q, here, same) = final_run_forever w.store cs r p h f in
      (q, ap (λ s. get_run s r) e ∙ here, same)
