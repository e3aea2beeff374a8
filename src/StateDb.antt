-- ===== src/StateDb.antt =====
-- src/hca/state.py: `StateDB`, the ledger of worker runs, leases, activity and settings. A read of the
-- clock is an argument, and a statement that the database refuses is `none`. Credits are counted in
-- hundredths of a sequence.
pub mod Slots
pub mod Writes
pub mod Calls
pub mod Like
pub mod Credits
use hermes_concurrent_agents.Common.{
  ℕ, suc, ◌+◌, String, refl, Bool, true, false, not, ◌&&◌, ◌||◌, Option, none, some, List, [], ◌∷◌,
  ◌++◌, arith, ltb, eqb, if◌then◌else◌, ◌==◌, nat_eq, string_eq, is_empty, or_else, length, take,
  filter, any, find?,
}
use hermes_concurrent_agents.Common.Json.{Fields}
use hermes_concurrent_agents.Common.Tables.{order_desc, first}

pub record RunRecord : Type 0 where
  pub board : String
  pub task_id : String
  pub run_id : String
  pub slot : String
  pub host : String  -- the column `node`
  pub tmux_session : String
  pub pid : Option ℕ
  pub hermes_session_id : Option String
  pub workspace : Option String
  pub status : String
  pub started_at : ℕ
  pub updated_at : ℕ
  pub last_activity : Option String
  pub error : Option String
  pub pid_start_ticks : Option ℕ

pub record Lease : Type 0 where
  pub lease_id : String
  pub kind : String
  pub owner : String
  pub credits : ℕ
  pub created_at : ℕ
  pub expires_at : Option ℕ
  pub details : Fields  -- the column `meta_json`

pub record Activity : Type 0 where
  pub id : ℕ
  pub ts : ℕ
  pub kind : String
  pub board : String
  pub task_id : String
  pub run_id : String
  pub slot : String
  pub host : String
  pub message : String
  pub data_json : Fields

pub record Setting : Type 0 where
  pub key : String
  pub value_text : String

pub record StateDb : Type 0 where
  pub runs : List RunRecord
  pub leases : List Lease
  pub activity : List Activity
  pub meta : List Setting

abbrev pub empty_db : StateDb
empty_db = record { runs = []; leases = []; activity = []; meta = [] }

-- The primary key of a run.
abbrev pub is_run : String → String → RunRecord → Bool
is_run board run_id r = r.board == board && r.run_id == run_id

abbrev pub is_live : RunRecord → Bool
is_live r = r.status == "running"

-- The rows that the index `idx_runs_live_slot` holds for a slot.
abbrev pub holds_slot : String → RunRecord → Bool
holds_slot slot r = is_live r && r.slot == slot

unfoldable pub update_runs :
    (RunRecord → Bool) → (RunRecord → RunRecord) → List RunRecord → List RunRecord
update_runs p f [] = []
update_runs p f (r ∷ rs) = (if p r then f r else r) ∷ update_runs p f rs

-- `DO UPDATE SET` keeps the task and the start of the row.
abbrev pub excluded : RunRecord → RunRecord → RunRecord
excluded rec r = record rec { task_id = r.task_id; started_at = r.started_at }

-- Another row than the one with the key holds the slot.
abbrev pub slot_taken : RunRecord → List RunRecord → Bool
slot_taken rec rs =
    is_live rec && any (λ r. holds_slot rec.slot r && not (is_run rec.board rec.run_id r)) rs

unfoldable pub upsert_run : StateDb → RunRecord → Option StateDb
unfolding update_runs
upsert_run db rec =
    if slot_taken rec db.runs
    then none
    else if any (is_run rec.board rec.run_id) db.runs
    then some
        (record db { runs = update_runs (is_run rec.board rec.run_id) (excluded rec) db.runs })
    else some (record db { runs = db.runs ++ rec ∷ [] })

unfoldable pub list_runs : StateDb → Option String → List RunRecord
list_runs db none = order_desc (λ r. r.started_at) db.runs
list_runs db (some status) =
    order_desc (λ r. r.started_at)
      (if is_empty status then db.runs else filter (λ r. r.status == status) db.runs)

unfoldable pub get_run_record : StateDb → String → String → Option RunRecord
get_run_record db board run_id = find? (is_run board run_id) db.runs

unfoldable pub latest_run_for_task : StateDb → String → String → Option RunRecord
latest_run_for_task db board task_id =
    first (λ r. r.started_at)
      (order_desc (λ r. r.started_at)
        (filter (λ r. r.board == board && r.task_id == task_id) db.runs))

abbrev pub or_null : String → Option String
or_null s = if is_empty s then none else some s

abbrev pub marked : String → String → ℕ → RunRecord → RunRecord
marked status error now r = record r { status = status; error = or_null error; updated_at = now }

-- The update is refused where it would give a slot to a second live run.
unfoldable pub mark_run_status : StateDb → String → String → String → String → ℕ → Option StateDb
unfolding get_run_record update_runs
mark_run_status db board run_id status error now = elim (get_run_record db board run_id) [
  | none ↦ some db
  | some r ↦
      if slot_taken (marked status error now r) db.runs
      then none
      else some
          (record db { runs = update_runs (is_run board run_id) (marked status error now) db.runs })
]

abbrev pub active : String → ℕ → RunRecord → RunRecord
active message ts r = record r { last_activity = some message; updated_at = ts }

abbrev pub entry :
    StateDb → String → String → String → String → String → String → String → Fields → ℕ → Activity
entry db kind message board task_id run_id slot host payload ts = record {
  id = suc (length db.activity);
  ts = ts;
  kind = kind;
  board = board;
  task_id = task_id;
  run_id = run_id;
  slot = slot;
  host = host;
  message = message;
  data_json = payload;
}

unfoldable pub set_activity :
    StateDb → String → String → String → String → String → String → String → Fields → ℕ → StateDb
unfolding update_runs
set_activity db kind message board task_id run_id slot host payload ts = record db {
  activity = db.activity ++ entry db kind message board task_id run_id slot host payload ts ∷ [];
  runs =
      if not (is_empty run_id) && not (is_empty board)
      then update_runs (is_run board run_id) (active (or_else message kind) ts) db.runs
      else db.runs;
}

unfoldable pub recent_activity : StateDb → ℕ → List Activity
recent_activity db limit = take limit (order_desc (λ a. a.id) db.activity)

-- `now + ttl_seconds if ttl_seconds`.
abbrev pub expiry : ℕ → Option ℕ → Option ℕ
expiry now none = none
expiry now (some ttl) = if eqb ttl 0 then none else some (now + ttl)

abbrev pub has_lease : String → List Lease → Bool
has_lease i ls = any (λ l. l.lease_id == i) ls

abbrev pub new_lease : String → String → String → ℕ → Option ℕ → Fields → ℕ → Lease
new_lease lease_id kind owner credits ttl details now = record {
  lease_id = lease_id;
  kind = kind;
  owner = owner;
  credits = credits;
  created_at = now;
  expires_at = expiry now ttl;
  details = details;
}

unfoldable pub acquire_lease :
    StateDb → String → String → String → ℕ → Option ℕ → Fields → ℕ → Bool × StateDb
acquire_lease db lease_id kind owner credits ttl details now =
    if has_lease lease_id db.leases then (false, db) else (
      true,
      record db {
        leases = db.leases ++ new_lease lease_id kind owner credits ttl details now ∷ [];
      },
    )

-- `DELETE FROM leases WHERE …`, and its row count.
abbrev pub delete_leases : (Lease → Bool) → StateDb → ℕ × StateDb
delete_leases p db =
    (length (filter p db.leases), record db { leases = filter (λ l. not (p l)) db.leases })

unfoldable pub release_lease : StateDb → String → StateDb
release_lease db lease_id = (delete_leases (λ l. l.lease_id == lease_id) db).1

abbrev pub of_kind : Option String → Lease → Bool
of_kind none l = true
of_kind (some kind) l = l.kind == kind

unfoldable pub release_leases_by_owner : StateDb → String → Option String → ℕ × StateDb
release_leases_by_owner db owner kind = delete_leases (λ l. l.owner == owner && of_kind kind l) db

abbrev pub is_expired : ℕ → Lease → Bool
is_expired now l = elim l.expires_at [ none ↦ false | some t ↦ ltb t now ]

unfoldable pub drop_expired : StateDb → ℕ → StateDb
drop_expired db now = (delete_leases (is_expired now) db).1

-- `if kind`: the empty kind asks for every lease.
abbrev pub asked_kind : Option String → Lease → Bool
asked_kind none l = true
asked_kind (some kind) l = is_empty kind || l.kind == kind

unfoldable pub list_leases : StateDb → Option String → ℕ → List Lease × StateDb
unfolding drop_expired
list_leases db kind now =
    let kept = drop_expired db now in (filter (asked_kind kind) kept.leases, kept)

unfoldable pub sum_credits : List Lease → ℕ
sum_credits [] = 0
sum_credits (l ∷ ls) = l.credits + sum_credits ls

unfoldable pub active_lease_credits : StateDb → Option String → ℕ → ℕ × StateDb
unfolding drop_expired sum_credits
active_lease_credits db kind now =
    let kept = drop_expired db now in (sum_credits (filter (asked_kind kind) kept.leases), kept)

unfoldable pub setting : String → List Setting → Option String
setting k [] = none
setting k (s ∷ ss) = if s.key == k then some s.value_text else setting k ss

unfoldable pub get_meta : StateDb → String → String → String
unfolding setting
get_meta db key default = elim (setting key db.meta) [ none ↦ default | some v ↦ v ]

-- `INSERT OR REPLACE` deletes the old row.
unfoldable pub set_meta : StateDb → String → String → StateDb
set_meta db key v = record db {
  meta = filter (λ s. not (s.key == key)) db.meta ++ record { key = key; value_text = v } ∷ [];
}
