-- ===== src/StateDb/Calls.antt =====
-- src/hca/state.py: sequences of calls on the ledger.
use hermes_concurrent_agents.Common.{
  ℕ, ◌≤◌, String, ◌≡◌, refl, inl, inr, Option, none, some, List, [], ◌∷◌, arith, nat_eq, string_eq,
  Bool-cases, length,
}
use hermes_concurrent_agents.Common.Json.{Fields}
use hermes_concurrent_agents.StateDb.{
  RunRecord, StateDb, empty_db, upsert_run, mark_run_status, set_activity, has_lease, acquire_lease,
  release_lease, release_leases_by_owner, drop_expired, set_meta,
}
use hermes_concurrent_agents.StateDb.Slots.{holders, rows_of, IsSlotted}
use hermes_concurrent_agents.StateDb.Writes.{
  upsert_run-IsSlotted, mark_run_status-IsSlotted, set_activity-IsSlotted,
}
use hermes_concurrent_agents.StateDb.Like.{release_lease_prefix}

-- The calls that write the ledger.
pub data Call : Type 0 where
  upserts : RunRecord → Call
  marks : (board run_id status error : String) (now : ℕ) → Call
  notes : (kind message board task_id run_id slot host : String) (payload : Fields) (ts : ℕ) → Call
  acquires :
      (lease_id kind owner : String) (credits : ℕ) (ttl : Option ℕ) (details : Fields) (now : ℕ)
      → Call
  releases : (lease_id : String) → Call
  releases_prefix : (prefix : String) → Call
  releases_owned : (owner : String) (kind : Option String) → Call
  purges : (now : ℕ) → Call
  sets : (key value_text : String) → Call

-- A refused statement leaves the ledger.
abbrev pub or_same : StateDb → Option StateDb → StateDb
or_same db none = db
or_same db (some db') = db'

abbrev pub perform : StateDb → Call → StateDb
perform db (upserts rec) = or_same db (upsert_run db rec)
perform db (marks board run_id status error now) =
    or_same db (mark_run_status db board run_id status error now)
perform db (notes kind message board task_id run_id slot host payload ts) =
    set_activity db kind message board task_id run_id slot host payload ts
perform db (acquires lease_id kind owner credits ttl details now) =
    (acquire_lease db lease_id kind owner credits ttl details now).1
perform db (releases lease_id) = release_lease db lease_id
perform db (releases_prefix prefix) = (release_lease_prefix db prefix).1
perform db (releases_owned owner kind) = (release_leases_by_owner db owner kind).1
perform db (purges now) = drop_expired db now
perform db (sets key value_text) = set_meta db key value_text

abbrev pub perform_all : List Call → StateDb → StateDb
perform_all [] db = db
perform_all (c ∷ cs) db = perform_all cs (perform db c)

or_same-IsSlotted :
    (db : StateDb) (o : Option StateDb)
    → ((db' : StateDb) → o ≡ some db' → IsSlotted db')
    → IsSlotted db
    → IsSlotted (or_same db o)
or_same-IsSlotted db none keep old = old
or_same-IsSlotted db (some db') keep old = keep db' refl

perform-IsSlotted : (db : StateDb) (c : Call) → IsSlotted db → IsSlotted (perform db c)
unfolding acquire_lease release_lease release_lease_prefix release_leases_by_owner drop_expired
    set_meta
perform-IsSlotted db (upserts rec) old =
    or_same-IsSlotted db (upsert_run db rec) (λ db' h. upsert_run-IsSlotted db rec db' h old) old
perform-IsSlotted db (marks board run_id status error now) old =
    or_same-IsSlotted db (mark_run_status db board run_id status error now)
      (λ db' h. mark_run_status-IsSlotted db board run_id status error now db' h old) old
perform-IsSlotted db (notes kind message board task_id run_id slot host payload ts) old =
    set_activity-IsSlotted db kind message board task_id run_id slot host payload ts old
perform-IsSlotted db (acquires lease_id kind owner credits ttl details now) old =
    elim (Bool-cases (has_lease lease_id db.leases)) [
      | inl h ↦ rw (h, perform) old
      | inr h ↦ rw (h, perform) old
    ]
perform-IsSlotted db (releases lease_id) old = old
perform-IsSlotted db (releases_prefix prefix) old = old
perform-IsSlotted db (releases_owned owner kind) old = old
perform-IsSlotted db (purges now) old = old
perform-IsSlotted db (sets key value_text) old = old

-- Whatever calls write to a new ledger, and whichever of them are refused, it never has two live
-- runs in one slot, nor two rows for one run of a board.
pub one_live_run :
    (cs : List Call)
    → ((slot : String) → length (holders slot (perform_all cs empty_db).runs) ≤ 1)
      × ((board run_id : String) → length (rows_of board run_id (perform_all cs empty_db).runs) ≤ 1)
one_live_run cs = from cs empty_db (λ s. omega arith, λ b i. omega arith)
  where
    from : (cs : List Call) (db : StateDb) → IsSlotted db → IsSlotted (perform_all cs db)
    from [] db old = old
    from (c ∷ cs) db old = from cs (perform db c) (perform-IsSlotted db c old)
