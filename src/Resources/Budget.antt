-- ===== src/Resources/Budget.antt =====
-- src/hca/resources.py: the credits of the leases when a launch is admitted.
use hermes_concurrent_agents.Common.{
  ℕ, ◌+◌, ◌≤◌, String, ◌≡◌, refl, sym, Bool, true, false, not, ◌&&◌, Option, none, some, List,
  arith, leb, if◌then◌else◌, nat_eq, string_eq,
}
use hermes_concurrent_agents.StateDb.{
  StateDb, is_expired, drop_expired, asked_kind, sum_credits, active_lease_credits, set_meta,
}
use hermes_concurrent_agents.Resources.{
  CapacityConfig, CapacitySnapshot, DeviceSignals, Refusal, backend_unhealthy, run_cap, Decision,
  admitted, waiting, allowed, mem_gate, disk_gate, admit_device, running_count, unhealthy,
  admit_credits, admit_load, admit,
}
use hermes_concurrent_agents.StateDb.Credits.{sum_credits-filter_le, filter_all}

active_credits :
    (db : StateDb) (now : ℕ)
    → ((active_lease_credits db none now).0
        ≡ sum_credits (active_lease_credits db none now).1.leases)
      × ((active_lease_credits db none now).1 ≡ drop_expired db now)
unfolding active_lease_credits
active_credits db now =
    (rw (filter_all (asked_kind none) (drop_expired db now).leases (λ l. refl)) refl, refl)

drop_expired-sum_credits :
    (db : StateDb) (now : ℕ) → sum_credits (drop_expired db now).leases ≤ sum_credits db.leases
unfolding drop_expired
drop_expired-sum_credits db now = sum_credits-filter_le (λ l. not (is_expired now l)) db.leases

admit_credits-allowed :
    (cfg : CapacityConfig) (warnings : List Refusal) (capacity : Option CapacitySnapshot)
    (credits leased : ℕ)
    → allowed (admit_credits cfg warnings capacity credits leased) ≡ true
    → leased + credits ≤ cfg.max_total_sequences
unfolding admit_credits
admit_credits-allowed cfg warnings capacity credits leased h = ground arith

-- What an admission promises of the ledger that it leaves.
abbrev pub Promise : CapacityConfig → ℕ → StateDb → Decision × StateDb → Type 0
Promise cfg credits db out =
    (sum_credits out.1.leases ≤ sum_credits db.leases)
    × (allowed out.0 ≡ true → sum_credits out.1.leases + credits ≤ cfg.max_total_sequences)

admit_counted :
    (cfg : CapacityConfig) (db : StateDb) (warnings : List Refusal)
    (capacity : Option CapacitySnapshot) (credits now : ℕ)
    → Promise cfg credits db (
      admit_credits cfg warnings capacity credits (active_lease_credits db none now).0,
      (active_lease_credits db none now).1,
    )
admit_counted cfg db warnings capacity credits now = (
  rw (active_credits db now).1 (drop_expired-sum_credits db now),
  λ h.
      rw (sym (active_credits db now).0) (
        admit_credits-allowed cfg warnings capacity credits (active_lease_credits db none now).0 h),
)

admit_load-Promise :
    (cfg : CapacityConfig) (db : StateDb) (warnings : List Refusal)
    (capacity : Option CapacitySnapshot) (running_top_level : Option ℕ) (enforce : Bool)
    (credits now : ℕ)
    → Promise cfg credits db
        (admit_load cfg db warnings capacity running_top_level enforce credits now)
unfolding admit_load
admit_load-Promise cfg db warnings capacity running_top_level enforce credits now =
    health (unhealthy capacity) refl
  where
    refused : (r : Refusal) → Promise cfg credits db (waiting r, db)
    refused r = (omega arith, λ h. cc)

    cap :
        (b : Bool)
        → (enforce && leb cfg.max_top_level_runs (running_count db running_top_level)) ≡ b
        → Promise cfg credits db (
            if b then (waiting (run_cap (running_count db running_top_level)), db) else (
              admit_credits cfg warnings capacity credits (active_lease_credits db none now).0,
              (active_lease_credits db none now).1,
            ))
    cap true e = refused (run_cap (running_count db running_top_level))
    cap false e = admit_counted cfg db warnings capacity credits now

    health :
        (o : Option String)
        → unhealthy capacity ≡ o
        → Promise cfg credits db
            (admit_load cfg db warnings capacity running_top_level enforce credits now)
    health none e =
        rw (e, admit_load)
          (cap (enforce && leb cfg.max_top_level_runs (running_count db running_top_level)) refl)
    health (some detail) e = rw (e, admit_load) (refused (backend_unhealthy detail))

mem_gate-leases :
    (db : StateDb) (r : Option ℕ) (high low : ℕ) → (mem_gate db r high low).1.leases ≡ db.leases
unfolding mem_gate set_meta
mem_gate-leases db none high low = ground arith
mem_gate-leases db (some p) high low = ground arith

disk_gate-leases :
    (db : StateDb) (r : Option ℕ) (low high : ℕ) → (disk_gate db r low high).1.leases ≡ db.leases
unfolding disk_gate set_meta
disk_gate-leases db none low high = ground arith
disk_gate-leases db (some p) low high = ground arith

admit_device-leases :
    (cfg : CapacityConfig) (db : StateDb) (dev : Option DeviceSignals) (requested : ℕ)
    → (admit_device cfg db dev requested).1.leases ≡ db.leases
unfolding admit_device
admit_device-leases cfg db none requested = refl
admit_device-leases cfg db (some dev) requested = ground (
  arith,
  mem_gate-leases db dev.mem_pressure cfg.memory_high cfg.memory_low,
  disk_gate-leases (mem_gate db dev.mem_pressure cfg.memory_high cfg.memory_low).1 dev.disk_free
      cfg.disk_min_free cfg.disk_resume_free,
)

pub admit-Promise :
    (cfg : CapacityConfig) (db : StateDb) (dev : Option DeviceSignals)
    (capacity : Option CapacitySnapshot) (running_top_level : Option ℕ) (enforce : Bool)
    (requested credits now : ℕ)
    → Promise cfg credits db
        (admit cfg db dev capacity running_top_level enforce requested credits now)
unfolding admit
admit-Promise cfg db dev capacity running_top_level enforce requested credits now =
    go (admit_device cfg db dev requested) (admit_device-leases cfg db dev requested)
  where
    go :
        (d : Decision × StateDb)
        → d.1.leases ≡ db.leases
        → Promise cfg credits db (elim d.0 [
          | waiting r ↦ (waiting r, d.1)
          | admitted warnings ↦
              admit_load cfg d.1 warnings capacity running_top_level enforce credits now
        ])
    go (waiting r, db') same = (rw same (omega arith), λ h. cc)
    go (admitted warnings, db') same =
        let p =
          admit_load-Promise cfg db' warnings capacity running_top_level enforce credits now in
        (rw (sym same) p.0, p.1)
