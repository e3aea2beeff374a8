-- ===== src/Service/Effects.antt =====
-- src/hca/service.py: what the methods of `FleetService` do to the world: state and exceptions, where
-- what was written before a raise stays written. The orchestrator is the injected seam of the program,
-- an interface whose optional methods may be missing; it writes to the store through the calls of
-- `RunStore`. The processes of src/hca/controller.py are an interface too.
use hermes_concurrent_agents.Common.{ℕ, suc, ◌+◌, String, Bool, Option, List}
use hermes_concurrent_agents.Run.State.{RunState}
use hermes_concurrent_agents.Run.Spec.{RunSpec}
use hermes_concurrent_agents.Common.Json.{Fields}
use hermes_concurrent_agents.Evidence.{ExecutionEvidence, Reason}
use hermes_concurrent_agents.Run.Store.{
  Store, StoreError, integrity, Result, ok, err, RunProjection, set_state, append_event, plain,
}
use hermes_concurrent_agents.Run.Store.Lifecycle.{Call, run_calls}

abbrev pub Done : Type 0
Done = Unit {0}

-- The exceptions that the methods tell apart. A `RunStateError` is a `RuntimeError`.
pub data Fault : Type 0 where
  run_state_error : StoreError → Fault
  value_error runtime_error other_error : String → Fault

pub data Exit {ℓ} (A : Type ℓ) : Type ℓ where
  returned : A → Exit A
  raised : Fault → Exit A

-- The store, and the number of times that the clock has been read.
pub record World : Type 0 where
  pub store : Store
  pub reads : ℕ

abbrev pub Action {ℓ} : Type ℓ → Type ℓ
Action A = World → Exit A × World

-- What a method of the orchestrator does: how it ends, and its calls on the store.
abbrev pub Reply {ℓ} : Type ℓ → Type ℓ
Reply A = RunSpec → Store → Exit A × List Call

-- An evidence of another type than `ExecutionEvidence` is `none`.
pub record Orchestrator : Type 0 where
  pub plan : Reply RunState
  pub execute : Reply ExecutionEvidence
  pub start : Option (Reply Done)
  pub tick : Option (Bool → Reply (Option ExecutionEvidence))
  pub project : Option (Reply (Option ExecutionEvidence))
  pub sync_questions : Option (Reply Done)
  pub cancel : Option (Reply String)
  pub expire : Option (Reply Done)
  pub respond : Option (String → String → Reply Bool)
  pub recover : Option (String → String → String → Reply Fields)
  pub runtime_status : Option (RunSpec → Store → Exit Fields)

-- `controller_alive`, `launch_controller` and `stop_controller` for a run.
pub record Controllers : Type 0 where
  pub enabled : Bool
  pub alive : String → Exit Bool
  pub launch : String → Exit ℕ
  pub stop : String → Exit Bool

-- What a service is built with: the reads of the clock, the text and the type name of an exception, the
-- text of a reason, the backend, and the controllers.
pub record Env : Type 0 where
  pub clock : ℕ → ℕ
  pub describe : Fault → String
  pub type_name : Fault → String
  pub render : Reason → String
  pub orch : Orchestrator
  pub ctl : Controllers

infixl 5 ◌>>=◌ ◌>>◌
abbrev pub ◌>>=◌ {ℓ κ} : {A : Type ℓ} {B : Type κ} → Action A → (A → Action B) → Action B
◌>>=◌ m f w = let (r, w') = m w in elim r [ returned a ↦ f a w' | raised e ↦ (raised e, w') ]

abbrev pub ◌>>◌ {ℓ κ} : {A : Type ℓ} {B : Type κ} → Action A → Action B → Action B
m >> k = m >>= λ _. k

abbrev pub pure {ℓ} : {A : Type ℓ} → A → Action A
pure a w = (returned a, w)

-- `try` and `except`.
abbrev pub attempt {ℓ} : {A : Type ℓ} → Action A → (Fault → Action A) → Action A
attempt m handle w =
    let (r, w') = m w in elim r [ returned a ↦ (returned a, w') | raised e ↦ handle e w' ]

abbrev pub reading {ℓ} : {A : Type ℓ} → (Store → A) → Action A
reading f w = (returned (f w.store), w)

abbrev pub lift {ℓ} : {A : Type ℓ} → Exit A → Action A
lift e w = (e, w)

-- The integrity error of the database is no `RunStateError`.
abbrev pub fault_of : StoreError → Fault
fault_of integrity = other_error "IntegrityError"
fault_of e = run_state_error e

abbrev pub consult {ℓ} : {A : Type ℓ} → Reply A → RunSpec → Action A
consult f spec w =
    let (e, calls) = f spec w.store in (e, record w { store = run_calls w.store calls })

module _ (clock : ℕ → ℕ) where
  -- The clock of the reads from here on.
  abbrev pub from_now : World → ℕ → ℕ
  from_now w i = clock (w.reads + i)

  abbrev pub committed {ℓ} : {A : Type ℓ} → World → ℕ → Result (A × Store) → Exit A × World
  committed w n (ok (a, t)) = (returned a, record { store = t; reads = w.reads + n })
  committed w n (err e) = (raised (fault_of e), record w { reads = w.reads + n })

  abbrev pub move : String → RunState → String → Action RunProjection
  move run_id target reason w =
      committed w 2 (set_state w.store run_id target reason (from_now w 0) (from_now w 1))

  abbrev pub log : String → String → String → Fields → Action Done
  log run_id kind text payload w = (
    returned tt,
    record {
      store = append_event w.store run_id kind (plain text) payload (from_now w 0);
      reads = suc w.reads;
    },
  )
