-- ===== src/Scenarios/Ledgers.antt =====
-- The ledger, its leases and the admission at concrete inputs.
use hermes_concurrent_agents.Common.{
  ℕ, ◌≤◌, String, ◌≡◌, refl, ◌↔◌, true, false, not, Option, none, some, List, [], ◌∷◌, map, arith,
  nat_eq, string_eq, length, filter,
}
use hermes_concurrent_agents.StateDb.{
  RunRecord, Lease, StateDb, empty_db, upsert_run, mark_run_status,
}
use hermes_concurrent_agents.Resources.{CapacityConfig, mem_gate}
use hermes_concurrent_agents.Common.Json.{end}
use hermes_concurrent_agents.StateDb.Slots.{holders, rows_of}
use hermes_concurrent_agents.StateDb.Calls.{Call, upserts, marks, perform_all, one_live_run}
use hermes_concurrent_agents.StateDb.Like.{release_lease_prefix, under, release_prefix_exact}
use hermes_concurrent_agents.Leases.{acquire_worker_lease, release_worker_lease, worker_lease_cycle}
use hermes_concurrent_agents.Resources.Gates.{feed, closed_until_low}

abbrev pub worker_run : String → String → String → RunRecord
worker_run run_id slot status = record {
  board = "hca";
  task_id = "t1";
  run_id = run_id;
  slot = slot;
  host = "local";
  tmux_session = slot;
  pid = some 41;
  hermes_session_id = none;
  workspace = none;
  status = status;
  started_at = 5;
  updated_at = 5;
  last_activity = none;
  error = none;
  pid_start_ticks = none;
}

abbrev two_runs : List Call
two_runs =
    upserts (worker_run "1" "coder-01" "running")
    ∷ upserts (worker_run "2" "coder-01" "running")
    ∷ marks "hca" "1" "done" "" 7
    ∷ upserts (worker_run "2" "coder-01" "running")
    ∷ marks "hca" "1" "running" "" 8
    ∷ []

-- The second run has to wait for the slot, and the first does not come back into it.
two_runs_statuses :
    map (λ r. r.status) (perform_all two_runs empty_db).runs ≡ "done" ∷ "running" ∷ []
unfolding upsert_run mark_run_status
two_runs_statuses = refl

one_live_run_example :
    ((slot : String) → length (holders slot (perform_all two_runs empty_db).runs) ≤ 1)
    × ((board run_id : String)
        → length (rows_of board run_id (perform_all two_runs empty_db).runs) ≤ 1)
one_live_run_example = one_live_run two_runs

abbrev lease_of : String → ℕ → Lease
lease_of i credits = record {
  lease_id = i;
  kind = "worker";
  owner = "coder-01";
  credits = credits;
  created_at = 0;
  expires_at = none;
  details = end;
}

abbrev two_leases : StateDb
two_leases = record empty_db {
  leases = lease_of "run:hca:t_1:7" 100 ∷ lease_of "run:hca:tx1:8" 150 ∷ [];
}

-- The underscore of a prefix stands for itself.
release_t_1 :
    map (λ l. l.lease_id) (release_lease_prefix two_leases "run:hca:t_1:").1.leases
    ≡ "run:hca:tx1:8" ∷ []
unfolding release_lease_prefix
release_t_1 = refl

release_prefix_exact_example : release_lease_prefix two_leases "run:hca:t_1:" ≡ (
  length (filter (under "run:hca:t_1:") two_leases.leases),
  record two_leases { leases = filter (λ l. not (under "run:hca:t_1:" l)) two_leases.leases },
)
release_prefix_exact_example = release_prefix_exact two_leases "run:hca:t_1:" refl

worker_lease_cycle_example :
    (acquire_worker_lease
        (acquire_worker_lease two_leases "hca" "t_1" "7" "coder-01" none none "local" 100 3).1
        "hca"
        "t_1"
        "7"
        "coder-01"
        none
        none
        "local"
        100
        4
      ≡ (
        false,
        (acquire_worker_lease two_leases "hca" "t_1" "7" "coder-01" none none "local" 100 3).1,
      ))
    × ((acquire_worker_lease
          (release_worker_lease two_leases "hca" "t_1").1
          "hca"
          "t_1"
          "7"
          "coder-01"
          none
          none
          "local"
          100
          4).0
        ≡ true)
worker_lease_cycle_example =
    worker_lease_cycle two_leases "hca" "t_1" "7" "coder-01" "local" none none 100 3 4 refl refl

abbrev recovering : List (Option ℕ)
recovering = none ∷ some 8500 ∷ some 7600 ∷ []

closed_until_low_example :
    ((mem_gate (feed 9000 7500 empty_db (some 9100 ∷ recovering)) (some 7000) 9000 7500).0 ≡ none)
    ↔ ((q : ℕ) × ((some 7000 ≡ some q) × (q ≤ 7500)))
closed_until_low_example =
    closed_until_low empty_db 9000 7500 9100 recovering (some 7000) (omega arith) (omega arith)
      (tt, (omega arith, (omega arith, tt)))

abbrev pub small : CapacityConfig
small = record {
  max_top_level_runs = 3;
  max_total_sequences = 400;
  memory_high = 9000;
  memory_low = 7500;
  disk_high = 9000;
  disk_min_free = 20480;
  disk_resume_free = 25600;
  disk_strict_percent = false;
}
