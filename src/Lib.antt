-- ===== src/Lib.antt =====
-- Verification of hermes-concurrent-agents, the control plane that turns one goal into a bounded,
-- supervised team of agents. The program's package is src/hca; the paths below are from the
-- repository's root.
--
-- The parts and how they interact. A service call creates a run in the durable run store; a planner
-- proposes a task graph, which has to pass a barrier before its tasks are released; the orchestrator
-- dispatches the tasks and gathers evidence about them; the state of the run is derived from that
-- evidence, never asserted, and written back through the transition machine of the store.
--
-- - Run (src/hca/run.py). Run.State has `RunState` and the transition machine `VALID_TRANSITIONS`,
--   `can_transition`; Run.Machine what it allows over a whole life. Run.Spec has `RunBudgets` and
--   `RunSpec` with `to_dict` and `from_dict`. Run.Store has the tables `hca_runs`, `hca_questions` and
--   `hca_run_events` as the record `Store` with every operation of `RunStore`; its children treat what
--   the operations keep over any sequence of calls (Run.Store.Writes and Lifecycle: the state of a run;
--   Run.Store.Replay and Trail: the event log; Run.Store.Questions; Run.Store.Specs).
-- - Decompose (src/hca/decompose.py): `TaskNode`, `_topo_order` (Kahn's algorithm), `_ancestors` and
--   `validate_task_graph`. Decompose.Rows, Kahn, Order, Topological, Cycles and Ranks treat the order,
--   Decompose.Dependencies and Ancestors the ancestors, Decompose.Checks and Barrier the validation.
-- - Evidence (src/hca/evidence.py): `TaskEvidence`, `ExecutionEvidence`, `review_required` and
--   `derive_final_state`, one function for each group of its checks; Evidence.Stages,
--   Facts and Completion treat when it reports completion.
-- - StateDb (src/hca/state.py): the ledger of worker runs, leases, activity and settings as the record
--   `StateDb`, with the operations of the class of that name. StateDb.Slots and Writes treat its
--   uniqueness constraints, StateDb.Calls sequences of its calls, StateDb.Like the release by prefix with
--   SQLite's LIKE, StateDb.Credits the sum of the leases. Leases (src/hca/leases.py) has the lease of a
--   launched worker.
-- - Resources (src/hca/resources.py): `admit` and its gates on the ledger. Resources.Gates treats the
--   hysteresis of the memory gate, Resources.Budget what an admission says of the credits.
-- - Routing (src/hca/routing.py, with `slot_name` of src/hca/observe.py and `sanitize_session_name` of
--   src/hca/tmux.py): from the logical role of a task to a reserved slot. Routing.Names treats the names,
--   Routing.Booking and Refusals one task, Routing.Tick the tasks of a tick.
-- - RunResult (src/hca/result.py): `build_result`, the manifest of a run. RunResult.Outcomes treats
--   its claims.
-- - Migrations (src/hca/migrations.py): `apply_migrations` and the program's own steps.
--   Migrations.Steps treats failures and the order of versions.
-- - Team (src/hca/team.py): the roles of a team and its selection by name.
-- - Service (src/hca/service.py): `FleetService`. Service itself has `_safe_set` and
--   `_reconcile_from_evidence`, which join Evidence and Run.Store; Service.Effects the world of a method,
--   with the `Orchestrator` protocol and the controller processes as interfaces; Service.Results
--   `ServiceResult` and `_status_result`; Service.Submit and Drive `run`, from its checks to its result;
--   Service.Follow `reconcile`, `_reconcile_projection`, `_ensure_controller` and `status`;
--   Service.Answers `respond`, Service.Recovery `recover`; Service.Halt `stop` and `expire`;
--   Service.Collect `collect`. Service.Moves, Settle and Reconcile treat the reconciliation,
--   Service.Hoare the rules for what holds after a method, Service.Ends and Expiry how a run ends,
--   Service.Writes, Choices, Lawful, Served, Launches, Submitted, Answered, Recovered and Requests
--   what the methods write, Service.Once, Replays and Completes the submissions, Service.Gates,
--   Admitted, Texts, Budgets, Conditions and Created the checks on them, Service.Collected the
--   artifacts that are read back.
-- - Planner (src/hca/kanban_orchestrator.py): `default_planner`, whose graph goes to the barrier.
--   Planner.Shape treats its size and the criteria, Planner.Gates the kinds of its tasks.
-- - Dispatch (src/hca/kanban.py): `_role_from_profile`, `pick_idle_slot` and `pre_reserve_ready`, which
--   join Routing, Resources and StateDb. Dispatch.Roles treats the roles that names mark,
--   Dispatch.Idle the round robin, Dispatch.Booked, Recounted and Reserved the reservations, and
--   Dispatch.Credits their credits.
-- - Common: Boolean tests, lists, JSON values, SQLite tables, the text functions of Python, counting.
--   Scenarios: tests and the theorems at concrete inputs.
--
-- Conventions. A read of the clock and a fresh identifier are arguments. Times are natural numbers of
-- ticks, and other floating-point quantities are scaled to natural numbers where the part says so. A
-- formatted message is kept as the data that it is formatted from. A call that raises is an error
-- value that stands for unchanged state. The SQLite statements of the stores are functions on the list
-- of rows: a primary key refuses a second row, and ORDER BY is a stable sort.
--
-- Loops and fuel. The loops of `_topo_order` and `_ancestors` take fuel and return nothing when it
-- runs out. It is one round more than the graph has tasks, and one more than its edges and the start's
-- dependencies; that this is enough is part of what Decompose.Topological and Decompose.Ancestors treat.
--
-- Not modelled: processes, tmux, SSH and HTTP, the command line and the plugin's schemas, Hermes
-- itself (kanban_db), file permissions, and the rendering of messages. A budget is an integer here: the
-- texts and fractions that Python's `int` takes as well are left out.
pub mod Common
pub mod Run
pub mod Evidence
pub mod RunResult
pub mod Decompose
pub mod StateDb
pub mod Team
pub mod Leases
pub mod Resources
pub mod Routing
pub mod Migrations
pub mod Service
pub mod Planner
pub mod Dispatch
mod Scenarios
