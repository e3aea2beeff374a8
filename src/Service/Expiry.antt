-- ===== src/Service/Expiry.antt =====
-- src/hca/service.py: how a run and its result stand after `expire`, for every backend.
use hermes_concurrent_agents.Common.{
  String, ◌≡◌, refl, ap, ◌∙◌, ◌⊎◌, inl, inr, true, false, Option, none, some, nat_eq, string_eq,
}
use hermes_concurrent_agents.Run.State.{
  RunState, queued, planning, running, needs_input, review, rework, stopping, completed, blocked,
  failed, cancelled, run_state_eq, can_transition,
}
use hermes_concurrent_agents.Run.Spec.{RunSpec}
use hermes_concurrent_agents.Common.Json.{end, field, obj}
use hermes_concurrent_agents.Evidence.{ExecutionEvidence}
use hermes_concurrent_agents.Run.Store.{RunProjection, get_spec}
use hermes_concurrent_agents.Service.{evidence_to_dict}
use hermes_concurrent_agents.Service.Moves.{run_state}
use hermes_concurrent_agents.Service.Effects.{
  Env, Exit, returned, raised, Done, Fault, World, Reply, ◌>>◌, attempt, consult, move, log, pure,
}
use hermes_concurrent_agents.Service.Results.{
  ServiceResult, no_remedy, is_over, status_code, exit_blocked, exit_runtime,
}
use hermes_concurrent_agents.Service.Halt.{
  observe, cleanup_with, capture_with, log_partial, cleaning, cleaned, cleanup_failed, expire,
}
use hermes_concurrent_agents.Service.Hoare.{
  after-bind, after-attempt, Present, Stays, Moved, Shows, projection_at, Present-consult, Moved-by,
  Stays-log, Shows-observe,
}
use Prim.Native.String.{◌++◌ as append}

-- What an expiry comes to: the run has failed and the code is 5, or it is blocked and the code is 4; an
-- exception only where the backend has ended the run itself.
abbrev pub ExpireEnds : String → Exit ServiceResult × World → Type 0
ExpireEnds r (raised e, w) = (st : RunState) × (run_state w.store r ≡ some st) × (is_over st ≡ true)
ExpireEnds r (returned res, w) =
    ((res.code ≡ exit_runtime) × (run_state w.store r ≡ some failed))
    ⊎ ((res.code ≡ exit_blocked) × (run_state w.store r ≡ some blocked))

-- The run after the cleanup, before it is observed.
abbrev Cleaned : String → Exit RunProjection × World → Type 0
Cleaned r (raised e, w) = (st : RunState) × (run_state w.store r ≡ some st) × (is_over st ≡ true)
Cleaned r (returned q, w) =
    (run_state w.store r ≡ some failed) ⊎ (run_state w.store r ≡ some blocked)

-- The cleanup alone: the run has failed, or it is in the store still.
abbrev Tried : String → Exit RunProjection × World → Type 0
Tried r (raised e, w) = (st : RunState) × (run_state w.store r ≡ some st)
Tried r (returned q, w) = run_state w.store r ≡ some failed

block_refused : (st : RunState) → can_transition st blocked ≡ false → is_over st ≡ true
unfolding can_transition
block_refused completed h = refl
block_refused cancelled h = refl
block_refused failed h = refl
block_refused queued h = cc
block_refused planning h = cc
block_refused running h = cc
block_refused needs_input h = cc
block_refused review h = cc
block_refused rework h = cc
block_refused stopping h = cc
block_refused blocked h = cc

shown_failed :
    (r : String) (x : Exit ServiceResult × World) → Shows "expire" r failed x → ExpireEnds r x
unfolding status_code
shown_failed r (returned res, w) (code, _, _, at) = inl (code, at)
shown_failed r (raised e, w) h = absurd h

shown_blocked :
    (r : String) (x : Exit ServiceResult × World) → Shows "expire" r blocked x → ExpireEnds r x
unfolding status_code
shown_blocked r (returned res, w) (code, _, _, at) = inr (code, at)
shown_blocked r (raised e, w) h = absurd h

module _ (env : Env) where
  Present-cleanup :
      (f : Option (Reply Done)) (g : Option (Reply String)) (spec : Option RunSpec) (r : String)
      (st : RunState) (w : World)
      → run_state w.store r ≡ some st
      → Present r (cleanup_with env f g spec w)
  Present-cleanup (some f) g (some spec) r st w h = Present-consult f spec r st w h
  Present-cleanup none (some g) (some spec) r st w h =
      after-bind (Present r) (Present r) (consult g spec) (λ _. pure tt) w
        (Present-consult g spec r st w h) (λ _ v at. at) (λ e v at. at)
  Present-cleanup (some f) g none r st w h = (st, h)
  Present-cleanup none (some g) none r st w h = (st, h)
  Present-cleanup none none spec r st w h = (st, h)

  Present-log_partial :
      (ev : Option ExecutionEvidence) (r : String) (st : RunState) (w : World)
      → run_state w.store r ≡ some st
      → Present r (log_partial env r ev w)
  unfolding log_partial
  Present-log_partial none r st w h = (st, h)
  Present-log_partial (some ev) r st w h = (
    st,
    Stays-log env.clock r "run.deadline_evidence" "partial evidence captured after deadline cleanup"
        (field "evidence" (obj (evidence_to_dict ev)) end) st w h,
  )

  Present-capture :
      (f : Option (Reply (Option ExecutionEvidence))) (spec : Option RunSpec) (r : String)
      (st : RunState) (w : World)
      → run_state w.store r ≡ some st
      → Present r (capture_with env r f spec w)
  Present-capture (some f) (some spec) r st w h =
      after-bind (Present r) (Present r) (consult f spec) (log_partial env r) w
        (Present-consult f spec r st w h) (λ ev v (st', at). Present-log_partial ev r st' v at)
        (λ e v at. at)
  Present-capture none spec r st w h = (st, h)
  Present-capture (some f) none r st w h = (st, h)

  Tried-failed :
      (r : String) (st : RunState) (w : World)
      → run_state w.store r ≡ some st
      → Tried r
          (move env.clock r failed "wall-time deadline exhausted; partial evidence preserved" w)
  Tried-failed r st w h =
      go (move env.clock r failed "wall-time deadline exhausted; partial evidence preserved" w) (
        Moved-by env.clock r st failed "wall-time deadline exhausted; partial evidence preserved" w
          h)
    where
      go : (x : Exit RunProjection × World) → Moved r st failed x → Tried r x
      go (returned q, v) (_, at) = at
      go (raised e, v) (_, _, at) = (st, at)

  Tried-cleaned :
      (r : String) (st : RunState) (w : World)
      → run_state w.store r ≡ some st
      → Tried r (cleaned env r w)
  unfolding cleaned cleaning
  Tried-cleaned r st w h =
      let last =
        move env.clock r failed "wall-time deadline exhausted; partial evidence preserved" in
      after-bind (Moved r st stopping) (Tried r) (move env.clock r stopping "deadline cleanup")
        (λ _. cleaning env r) w (Moved-by env.clock r st stopping "deadline cleanup" w h)
        (λ _ v (_, at).
          let spec = get_spec v.store r in
          let capture = capture_with env r env.orch.project spec in
          after-bind (Present r) (Tried r) (cleanup_with env env.orch.expire env.orch.cancel spec)
            (λ _. capture >> last) v
            (Present-cleanup env.orch.expire env.orch.cancel spec r stopping v at)
            (λ _ u (st', now).
              after-bind (Present r) (Tried r) capture (λ _. last) u
                (Present-capture env.orch.project spec r st' u now)
                (λ _ t (st'', here). Tried-failed r st'' t here) (λ e t here. here))
            (λ e u now. now))
        (λ e v (_, _, at). (st, at))

  Cleaned-failed :
      (r : String) (e : Fault) (st : RunState) (w : World)
      → run_state w.store r ≡ some st
      → Cleaned r (cleanup_failed env r e w)
  unfolding cleanup_failed
  Cleaned-failed r e st w h =
      let reason : String = append "deadline cancellation incomplete: " (env.describe e) in
      after-bind (Stays r st) (Cleaned r) (log env.clock r "run.cancel_incomplete" reason end)
        (λ _. move env.clock r blocked reason) w
        (Stays-log env.clock r "run.cancel_incomplete" reason end st w h)
        (λ _ v at.
          go (move env.clock r blocked reason v) (Moved-by env.clock r st blocked reason v at))
        (λ f v bad. absurd bad)
    where
      go : (x : Exit RunProjection × World) → Moved r st blocked x → Cleaned r x
      go (returned q, v) (_, at) = inr at
      go (raised f, v) (bad, _, at) = (st, at, block_refused st bad)

  -- Whatever the backend does, an expiry of a run that is not completed, failed or cancelled returns
  -- with exit code 5 and the run failed, or with code 4 and the run blocked; it raises only where the
  -- run has then been ended by the backend.
  pub expire_tells :
      (r : String) (st : RunState) (w : World)
      → run_state w.store r ≡ some st
      → is_over st ≡ false
      → ExpireEnds r (expire env r w)
  unfolding expire
  expire_tells r st w h live =
      let (p, here, same) = projection_at w.store r st h in
      let note =
        log env.clock r "run.controller_budget_exhausted" "controller wall-time budget exhausted"
          end in
      let clean = attempt (cleaned env r) (cleanup_failed env r) in
      let tell = observe env "expire" none no_remedy r in
      rw (here, expire)
        (rw (ap is_over same ∙ live) (
          after-bind (Stays r st) (ExpireEnds r) note (λ _. clean >> tell) w
            (Stays-log env.clock r "run.controller_budget_exhausted"
              "controller wall-time budget exhausted" end st w h)
            (λ _ v at.
              after-bind (Cleaned r) (ExpireEnds r) clean (λ _. tell) v
                (after-attempt (Tried r) (Cleaned r) (cleaned env r) (cleanup_failed env r) v
                  (Tried-cleaned r st v at) (λ q u now. inl now)
                  (λ e u (st', now). Cleaned-failed r e st' u now))
                (λ q u now. tells u now) (λ e u ended. ended))
            (λ e v bad. absurd bad)))
    where
      tells :
          (u : World)
          → (run_state u.store r ≡ some failed) ⊎ (run_state u.store r ≡ some blocked)
          → ExpireEnds r (observe env "expire" none no_remedy r u)
      tells u (inl now) =
          shown_failed r _ (Shows-observe env "expire" none no_remedy r failed u now)
      tells u (inr now) =
          shown_blocked r _ (Shows-observe env "expire" none no_remedy r blocked u now)
