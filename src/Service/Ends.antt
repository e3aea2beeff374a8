-- ===== src/Service/Ends.antt =====
-- src/hca/service.py: how a run and its result stand after `stop`, for every backend.
use hermes_concurrent_agents.Common.{
  String, ◌≡◌, refl, ap, ◌∙◌, ◌≢◌, ◌⊎◌, inl, inr, true, false, Option, none, some, nat_eq,
  string_eq, or_else,
}
use hermes_concurrent_agents.Run.State.{
  RunState, queued, planning, running, needs_input, review, rework, stopping, blocked, cancelled,
  run_state_eq, can_transition,
}
use hermes_concurrent_agents.Run.Spec.{RunSpec}
use hermes_concurrent_agents.Common.Json.{end}
use hermes_concurrent_agents.Run.Store.{StoreError, RunProjection, get_spec, illegal_transition}
use hermes_concurrent_agents.Service.Moves.{run_state}
use hermes_concurrent_agents.Service.Effects.{
  Env, Exit, returned, raised, Fault, run_state_error, World, Reply, ◌>>◌, move, log,
}
use hermes_concurrent_agents.Service.Results.{
  ServiceResult, advice, no_remedy, run_cancelled, cancel_unfinished, is_over, status_code, exit_ok,
  exit_blocked, exit_runtime,
}
use hermes_concurrent_agents.Service.Halt.{
  observe, halt_controller, cancel_with, after_cancel, report_blocked, cancelling, stop_caught,
  stopped, stop,
}
use hermes_concurrent_agents.Service.Hoare.{
  after-bind, after-attempt, Present, Stays, Moved, Shows, projection_at, Present-consult, Moved-by,
  Stays-log, Shows-observe, Stays-halt_controller,
}
use Prim.Native.String.{◌++◌ as append}

-- What a stop comes to: the run is cancelled and the exit code is 0, or it is blocked and the code is
-- 4, or the code is 5 and the run has left the state stopping by other hands.
abbrev pub StopEnds : String → Exit ServiceResult × World → Type 0
StopEnds r (raised e, w) = ⊥
StopEnds r (returned res, w) =
    ((res.code ≡ exit_ok) × (run_state w.store r ≡ some cancelled))
    ⊎ (((res.code ≡ exit_blocked) × (run_state w.store r ≡ some blocked))
        ⊎ ((res.code ≡ exit_runtime)
            × ((st : RunState) × (run_state w.store r ≡ some st) × (st ≢ stopping))))

-- The same before the error is caught.
abbrev StopTries : String → Exit ServiceResult × World → Type 0
StopTries r (raised e, w) =
    ((x : StoreError) × (e ≡ run_state_error x))
    × ((st : RunState) × (run_state w.store r ≡ some st) × (st ≢ stopping))
StopTries r (returned res, w) =
    ((res.code ≡ exit_ok) × (run_state w.store r ≡ some cancelled))
    ⊎ ((res.code ≡ exit_blocked) × (run_state w.store r ≡ some blocked))

pub stopping_legal : (st : RunState) → is_over st ≡ false → can_transition st stopping ≡ true
unfolding can_transition
stopping_legal queued h = refl
stopping_legal planning h = refl
stopping_legal running h = refl
stopping_legal needs_input h = refl
stopping_legal review h = refl
stopping_legal rework h = refl
stopping_legal stopping h = refl
stopping_legal blocked h = refl
stopping_legal _ h = cc

cancel_legal : can_transition stopping cancelled ≡ true
unfolding can_transition
cancel_legal = refl

block_legal : can_transition stopping blocked ≡ true
unfolding can_transition
block_legal = refl

refused_other :
    (st into : RunState)
    → can_transition stopping into ≡ true
    → can_transition st into ≡ false
    → st ≢ stopping
refused_other st into legal h e = cc (legal, h, ap (λ s. can_transition s into) e)

shown_cancelled :
    (r : String) (x : Exit ServiceResult × World) → Shows "stop" r cancelled x → StopTries r x
unfolding status_code
shown_cancelled r (returned res, w) (code, _, _, at) = inl (code, at)
shown_cancelled r (raised e, w) h = absurd h

shown_blocked :
    (r : String) (x : Exit ServiceResult × World) → Shows "stop" r blocked x → StopTries r x
unfolding status_code
shown_blocked r (returned res, w) (code, _, _, at) = inr (code, at)
shown_blocked r (raised e, w) h = absurd h

-- A move that was refused is the error that a stop reports.
refused_move :
    (r : String) (st into : RunState) (e : Fault) (w : World)
    → can_transition stopping into ≡ true
    → Moved r st into (raised e, w)
    → StopTries r (raised e, w)
refused_move r st into e w legal (bad, fault, at) =
    ((illegal_transition st into, fault), (st, at, refused_other st into legal bad))

module _ (env : Env) where
  tries-report_blocked :
      (r : String) (w : World)
      → run_state w.store r ≡ some blocked
      → StopTries r (report_blocked env r w)
  unfolding report_blocked
  tries-report_blocked r w h =
      let (p, here, _) = projection_at w.store r blocked h in
      rw (here, report_blocked)
        (shown_blocked r _
          (Shows-observe env "stop" (some cancel_unfinished) no_remedy r blocked w h))

  tries-after_cancel :
      (r : String) (x : Exit String) (st : RunState) (w : World)
      → run_state w.store r ≡ some st
      → StopTries r (after_cancel env r x w)
  unfolding after_cancel
  tries-after_cancel r (returned reason) st w h =
      let lost = advice "inspect HCA state integrity before retrying stop" in
      after-bind (Moved r st cancelled) (StopTries r)
        (move env.clock r cancelled (or_else reason "cancelled by operator"))
        (λ _. observe env "stop" (some run_cancelled) lost r) w
        (Moved-by env.clock r st cancelled (or_else reason "cancelled by operator") w h)
        (λ q v (_, at).
          shown_cancelled r _ (Shows-observe env "stop" (some run_cancelled) lost r cancelled v at))
        (λ e v moved. refused_move r st cancelled e v cancel_legal moved)
  tries-after_cancel r (raised e) st w h =
      let reason : String = append "cancellation incomplete: " (env.describe e) in
      after-bind (Stays r st) (StopTries r) (log env.clock r "run.cancel_incomplete" reason end)
        (λ _. move env.clock r blocked reason >> report_blocked env r) w
        (Stays-log env.clock r "run.cancel_incomplete" reason end st w h)
        (λ _ v at.
          after-bind (Moved r st blocked) (StopTries r) (move env.clock r blocked reason)
            (λ _. report_blocked env r) v (Moved-by env.clock r st blocked reason v at)
            (λ q u (_, now). tries-report_blocked r u now)
            (λ f u moved. refused_move r st blocked f u block_legal moved))
        (λ f v bad. absurd bad)

  Present-cancel_with :
      (f : Option (Reply String)) (spec : Option RunSpec) (r : String) (st : RunState) (w : World)
      → run_state w.store r ≡ some st
      → Present r (cancel_with env f spec w)
  Present-cancel_with (some f) (some spec) r st w h = Present-consult f spec r st w h
  Present-cancel_with none spec r st w h = (st, h)
  Present-cancel_with (some f) none r st w h = (st, h)

  tries-cancelling :
      (r : String) (w : World)
      → run_state w.store r ≡ some stopping
      → StopTries r (cancelling env r w)
  unfolding cancelling
  tries-cancelling r w h =
      let spec = get_spec w.store r in
      let (st, later) = Present-cancel_with env.orch.cancel spec r stopping w h in
      let (answer, v) = cancel_with env env.orch.cancel spec w in
      tries-after_cancel r answer st v later

  tries-stopped :
      (r : String) (st : RunState) (w : World)
      → run_state w.store r ≡ some st
      → is_over st ≡ false
      → StopTries r (stopped env r w)
  unfolding stopped
  tries-stopped r st w h live =
      after-bind (Moved r st stopping) (StopTries r) (move env.clock r stopping "stop requested")
        (λ _. halt_controller env r >> cancelling env r) w
        (Moved-by env.clock r st stopping "stop requested" w h)
        (λ _ v (_, at).
          after-bind (Stays r stopping) (StopTries r) (halt_controller env r)
            (λ _. cancelling env r) v (Stays-halt_controller env r stopping v at)
            (λ _ u now. tries-cancelling r u now) (λ e u bad. absurd bad))
        (λ e v (bad, _, _). cc (bad, stopping_legal st live))

  -- Whatever the backend does, a stop of a run that is not completed, failed or cancelled returns: with
  -- exit code 0 and the run cancelled, with code 4 and the run blocked, or with code 5 and the run in
  -- some other state than stopping, where it was put by the backend.
  pub stop_tells :
      (r : String) (st : RunState) (w : World)
      → run_state w.store r ≡ some st
      → is_over st ≡ false
      → StopEnds r (stop env r w)
  unfolding stop
  stop_tells r st w h live =
      let (p, here, same) = projection_at w.store r st h in
      rw (here, stop)
        (rw (ap is_over same ∙ live) (
          after-attempt (StopTries r) (StopEnds r) (stopped env r) (stop_caught env r p) w
            (tries-stopped r st w h live) ended
            (λ e v ((x, is_state), at). caught p e x v is_state at)))
    where
      ended :
          (res : ServiceResult) (v : World)
          → StopTries r (returned res, v)
          → StopEnds r (returned res, v)
      ended res v (inl done) = inl done
      ended res v (inr stuck) = inr (inl stuck)

      caught :
          (p : RunProjection) (e : Fault) (x : StoreError) (v : World)
          → e ≡ run_state_error x
          → ((st' : RunState) × (run_state v.store r ≡ some st') × (st' ≢ stopping))
          → StopEnds r (stop_caught env r p e v)
      caught p e x v is_state at = rw is_state (inr (inr (refl, at)))
