-- ===== src/Resources.antt =====
-- src/hca/resources.py: `admit`, its two gates, and `estimate_task_credits`. Credits, numbers of
-- sequences and queue depths are in hundredths, pressures in ten-thousandths, disk space in MiB; a
-- record has the fields that `admit` reads. The reading of the device and the diagnostic snapshot of
-- the backend are arguments.
pub mod Gates
pub mod Budget
use hermes_concurrent_agents.Common.{
  ℕ, ◌+◌, ◌-◌, ◌*◌, max, String, refl, Bool, true, false, ◌&&◌, Option, none, some, List, [], ◌∷◌,
  arith, ltb, leb, if◌then◌else◌, ◌==◌, nat_eq, string_eq, length,
}
use hermes_concurrent_agents.StateDb.{StateDb, list_runs, active_lease_credits, get_meta, set_meta}

-- src/hca/models.py: `CapacityConfig`.
pub record CapacityConfig : Type 0 where
  pub max_top_level_runs : ℕ
  pub max_total_sequences : ℕ
  pub memory_high : ℕ
  pub memory_low : ℕ
  pub disk_high : ℕ
  pub disk_min_free : ℕ
  pub disk_resume_free : ℕ
  pub disk_strict_percent : Bool

-- src/hca/models.py: `CapacitySnapshot`.
pub record CapacitySnapshot : Type 0 where
  pub waiting : ℕ
  pub kv_cache_util : Option ℕ
  pub healthy : Bool
  pub detail : String

pub record DeviceSignals : Type 0 where
  pub mem_pressure : Option ℕ
  pub disk_free : Option ℕ
  pub disk_pressure : Option ℕ

pub data Refusal : Type 0 where
  mem_unknown disk_unknown : Refusal
  mem_above_low mem_high disk_not_resumed disk_below_floor : (reading : ℕ) → Refusal
  budget_above_reserve : (requested free reserve : ℕ) → Refusal
  disk_pressed : (reading : ℕ) → Refusal
  backend_unhealthy : (detail : String) → Refusal
  run_cap : (live : ℕ) → Refusal
  credit_budget : (total : ℕ) → Refusal
  cache_pressed queue_deep : (reading : ℕ) → Refusal

-- `allowed` with the warnings, or the reason of the refusal.
pub data Decision : Type 0 where
  admitted : (warnings : List Refusal) → Decision
  waiting : Refusal → Decision

abbrev pub allowed : Decision → Bool
allowed (admitted warnings) = true
allowed (waiting r) = false

abbrev pub mem_key : String
mem_key = "admission_mem_gate"

abbrev pub disk_key : String
disk_key = "admission_disk_floor_gate"

unfoldable pub is_closed : StateDb → String → Bool
is_closed db key = get_meta db key "0" == "1"

unfoldable pub mem_gate : StateDb → Option ℕ → ℕ → ℕ → Option Refusal × StateDb
unfolding is_closed
mem_gate db none high low = if is_closed db mem_key then (some mem_unknown, db) else (none, db)
mem_gate db (some pressure) high low =
    if is_closed db mem_key
    then if leb pressure low
      then (none, set_meta db mem_key "0")
      else (some (mem_above_low pressure), db)
    else if leb high pressure
    then (some (mem_high pressure), set_meta db mem_key "1")
    else (none, db)

unfoldable pub disk_gate : StateDb → Option ℕ → ℕ → ℕ → Option Refusal × StateDb
unfolding is_closed
disk_gate db none minimum resume =
    if is_closed db disk_key then (some disk_unknown, db) else (none, db)
disk_gate db (some free) minimum resume =
    if is_closed db disk_key
    then if leb (max minimum resume) free
      then (none, set_meta db disk_key "0")
      else (some (disk_not_resumed free), db)
    else if ltb free minimum
    then (some (disk_below_floor free), set_meta db disk_key "1")
    else (none, db)

unfoldable pub estimate_task_credits : String → ℕ → Bool → ℕ
estimate_task_credits task_class may_spawn_subagents long_context =
    (if task_class == "llm-heavy"
      then 150
      else if task_class == "tool-heavy"
      then 80
      else if task_class == "memory-heavy"
      then 180
      else 100)
    + (if long_context then 75 else 0)
    + 50 * may_spawn_subagents

-- A run's disk budget has to fit above the reserve.
unfoldable pub budget_refusal : CapacityConfig → Option ℕ → ℕ → Option Refusal
budget_refusal cfg none requested = none
budget_refusal cfg (some free) requested =
    if ltb 0 requested && ltb (free - cfg.disk_min_free) requested
    then some (budget_above_reserve requested free cfg.disk_min_free)
    else none

abbrev pub pressed : ℕ → Option ℕ → Option ℕ
pressed high none = none
pressed high (some p) = if leb high p then some p else none

-- The last check of the device refuses, or leaves a warning.
unfoldable pub pressure_outcome : CapacityConfig → Option ℕ → Decision
pressure_outcome cfg reading = elim (pressed cfg.disk_high reading) [
  | none ↦ admitted []
  | some p ↦
      if cfg.disk_strict_percent then waiting (disk_pressed p) else admitted (disk_pressed p ∷ [])
]

unfoldable pub admit_device :
    CapacityConfig → StateDb → Option DeviceSignals → ℕ → Decision × StateDb
unfolding mem_gate disk_gate budget_refusal pressure_outcome
admit_device cfg db none requested = (admitted [], db)
admit_device cfg db (some dev) requested =
    let mem = mem_gate db dev.mem_pressure cfg.memory_high cfg.memory_low in
    elim mem.0 [
      | some r ↦ (waiting r, mem.1)
      | none ↦
          let disk = disk_gate mem.1 dev.disk_free cfg.disk_min_free cfg.disk_resume_free in
          elim disk.0 [
            | some r ↦ (waiting r, disk.1)
            | none ↦ elim (budget_refusal cfg dev.disk_free requested) [
              | some r ↦ (waiting r, disk.1)
              | none ↦ (pressure_outcome cfg dev.disk_pressure, disk.1)
            ]
          ]
    ]

unfoldable pub running_count : StateDb → Option ℕ → ℕ
running_count db none = length (list_runs db (some "running"))
running_count db (some n) = n

abbrev pub unhealthy : Option CapacitySnapshot → Option String
unhealthy none = none
unhealthy (some c) = if c.healthy then none else some c.detail

abbrev pub cache_reading : Option CapacitySnapshot → Option ℕ
cache_reading none = none
cache_reading (some c) = c.kv_cache_util

abbrev pub queue_reading : Option CapacitySnapshot → ℕ
queue_reading none = 0
queue_reading (some c) = c.waiting

-- The checks after the sum of the leases.
unfoldable pub admit_credits :
    CapacityConfig → List Refusal → Option CapacitySnapshot → ℕ → ℕ → Decision
admit_credits cfg warnings capacity credits leased =
    if ltb cfg.max_total_sequences (leased + credits)
    then waiting (credit_budget (leased + credits))
    else elim (pressed cfg.memory_high (cache_reading capacity)) [
      | some p ↦ waiting (cache_pressed p)
      | none ↦
          if ltb (max 200 cfg.max_total_sequences) (queue_reading capacity)
          then waiting (queue_deep (queue_reading capacity))
          else admitted warnings
    ]

unfoldable pub admit_load :
    CapacityConfig
    → StateDb
    → List Refusal
    → Option CapacitySnapshot
    → Option ℕ
    → Bool
    → ℕ
    → ℕ
    → Decision × StateDb
unfolding running_count admit_credits
admit_load cfg db warnings capacity running_top_level enforce credits now =
    elim (unhealthy capacity) [
      | some detail ↦ (waiting (backend_unhealthy detail), db)
      | none ↦
          if enforce && leb cfg.max_top_level_runs (running_count db running_top_level)
          then (waiting (run_cap (running_count db running_top_level)), db)
          else let leased = active_lease_credits db none now in
            (admit_credits cfg warnings capacity credits leased.0, leased.1)
    ]

unfoldable pub admit :
    CapacityConfig
    → StateDb
    → Option DeviceSignals
    → Option CapacitySnapshot
    → Option ℕ
    → Bool
    → ℕ
    → ℕ
    → ℕ
    → Decision × StateDb
unfolding admit_device admit_load
admit cfg db dev capacity running_top_level enforce requested credits now =
    let device = admit_device cfg db dev requested in
    elim device.0 [
      | waiting r ↦ (waiting r, device.1)
      | admitted warnings ↦
          admit_load cfg device.1 warnings capacity running_top_level enforce credits now
    ]
