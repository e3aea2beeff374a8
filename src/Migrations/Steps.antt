-- ===== src/Migrations/Steps.antt =====
-- src/hca/migrations.py: failures of a migration, and the order of the versions.
use hermes_concurrent_agents.Common.{
  ℕ, zero, suc, ◌≤◌, ◌<◌, max, sym, subst, take, String, ◌≡◌, refl, ◌⊎◌, inl, inr, Bool, true,
  false, ◌&&◌, Option, none, some, List, [], ◌∷◌, ◌++◌, arith, ltb, leb, eqb, ltb→lt, leb→le,
  eqb_iff, nat_eq, string_eq, Bool-cases, Option-cases, and_true, filter, All, All-map, All-filter,
}
use hermes_concurrent_agents.Common.Tables.{order_asc, Rising, order_asc-Rising, filter-Rising}
use hermes_concurrent_agents.Migrations.{
  Database, Migration, verify, due, run_step, run_steps, Outcome, migrated, too_new, restored,
  unverified, left_over, saved, restore, finish, apply_migrations,
}

-- What an outcome says of the database: migrated and verified at the target, or as it was.
abbrev pub AllOrNothing : Database → ℕ → Outcome × Database → Type 0
AllOrNothing old target (migrated names, db) =
    ((old.version ≡ target) × (names ≡ []) × (db ≡ old))
    ⊎ ((old.version < target) × (db.version ≡ target) × (verify db target ≡ true))
AllOrNothing old target (too_new, db) = (target < old.version) × (db ≡ old)
AllOrNothing old target (restored, db) = (old.version < target) × (db ≡ old)
AllOrNothing old target (unverified, db) =
    (old.version < target) × (db ≡ old) × (verify old old.version ≡ false)
AllOrNothing old target (left_over, db) = ⊥

verify-version : (db : Database) (target : ℕ) → verify db target ≡ true → db.version ≡ target
unfolding verify
verify-version db target h = ground arith

restore-AllOrNothing :
    (old db : Database) (target : ℕ)
    → old.version < target
    → AllOrNothing old target (restore (some old) old.version db)
unfolding restore
restore-AllOrNothing old db target h = elim (Bool-cases (verify old old.version)) [
  | inl good ↦ rw good (h, refl)
  | inr bad ↦ rw bad (h, refl, bad)
]

finish-AllOrNothing :
    (old : Database) (target : ℕ) (out : Option (List String) × Database)
    → old.version < target
    → AllOrNothing old target (finish (some old) old.version target out)
unfolding finish
finish-AllOrNothing old target (none, db) h = restore-AllOrNothing old db target h
finish-AllOrNothing old target (some names, db) h = elim (Bool-cases (verify db target)) [
  | inl good ↦ rw good (inr (h, verify-version db target good, good))
  | inr bad ↦ rw bad (restore-AllOrNothing old db target h)
]

-- With a backup, whatever the steps are and wherever they fail, the database ends migrated and verified
-- at the target version if it began below it, or exactly as it was: where it began at the target, where
-- it began above it, and after a failure, which is told apart if it was damaged before.
pub all_or_nothing :
    (db : Database) (target : ℕ) (steps : List Migration)
    → AllOrNothing db target (apply_migrations db target steps true)
unfolding apply_migrations
all_or_nothing db target steps = elim (Bool-cases (ltb target db.version)) [
  | inl newer ↦ rw (newer, apply_migrations) (ltb→lt target db.version newer, refl)
  | inr older ↦ elim (Bool-cases (eqb db.version target)) [
    | inl same ↦
        rw (older, same, apply_migrations) (inl ((eqb_iff db.version target).0 same, refl, refl))
    | inr apart ↦
        rw (older, apart, apply_migrations)
          (finish-AllOrNothing db target (run_steps (due db.version target steps) [] db)
            (ground (arith, older, apart)))
  ]
]

abbrev IsDue : ℕ → ℕ → List Migration → Type 0
IsDue cur target ms = All (λ m. (cur < m.version) × (m.version ≤ target)) ms

due-IsDue : (cur target : ℕ) (steps : List Migration) → IsDue cur target (due cur target steps)
unfolding due
due-IsDue cur target steps =
    All-map {Q = λ m. (cur < m.version) × (m.version ≤ target)}
      (λ m h. (ltb→lt cur m.version (and_true h).0, leb→le m.version target (and_true h).1))
      (filter (λ m. ltb cur m.version && leb m.version target) (order_asc (λ m. m.version) steps))
      (All-filter (λ m. ltb cur m.version && leb m.version target)
        (order_asc (λ m. m.version) steps))

run_step-version :
    (m : Migration) (db next : Database) → run_step m db ≡ some next → next.version ≡ m.version
unfolding run_step
run_step-version m db next h = ground arith

run_steps-bounds :
    (cur target : ℕ) (ms : List Migration) (names : List String) (db : Database)
    → IsDue cur target ms
    → cur ≤ db.version
    → db.version ≤ target
    → (cur ≤ (run_steps ms names db).1.version) × ((run_steps ms names db).1.version ≤ target)
unfolding run_steps
run_steps-bounds cur target [] names db h a b = (a, b)
run_steps-bounds cur target (m ∷ ms) names db h a b = elim (Option-cases (run_step m db)) [
  | inl failed ↦ rw (failed, run_steps) (a, b)
  | inr (next, e) ↦
      rw (e, run_steps)
        (run_steps-bounds cur target ms (names ++ m.name ∷ []) next h.1
          (omega (arith, run_step-version m db next e, h.0.0))
          (omega (arith, run_step-version m db next e, h.0.1)))
]

-- The versions of the due steps rise, from the present one on.
due-Rising :
    (cur target : ℕ) (steps : List Migration)
    → Rising (λ (m : Migration). m.version) cur (due cur target steps)
unfolding due
due-Rising cur target steps =
    Rising-raise (due cur target steps)
      (filter-Rising (λ (m : Migration). m.version) (λ m. ltb cur m.version && leb m.version target)
        0 0 (order_asc (λ m. m.version) steps) (omega arith)
        (order_asc-Rising (λ (m : Migration). m.version) steps))
      (due-IsDue cur target steps)
  where
    Rising-raise :
        (ms : List Migration)
        → Rising (λ (m : Migration). m.version) 0 ms
        → IsDue cur target ms
        → Rising (λ (m : Migration). m.version) cur ms
    Rising-raise [] h k = tt
    Rising-raise (m ∷ ms) h k = (omega (arith, k.0.0), h.1)

-- One more step does not move the marker back.
run_steps-take_le :
    (k : ℕ) (ms : List Migration) (names : List String) (db : Database)
    → Rising (λ (m : Migration). m.version) db.version ms
    → (run_steps (take k ms) names db).1.version ≤ (run_steps (take (suc k) ms) names db).1.version
unfolding run_steps
run_steps-take_le zero [] names db h = omega arith
run_steps-take_le zero (m ∷ ms) names db h = elim (Option-cases (run_step m db)) [
  | inl failed ↦ rw (failed, run_steps) (omega arith)
  | inr (next, e) ↦ rw (e, run_steps) (omega (arith, run_step-version m db next e, h.0))
]
run_steps-take_le (suc k) [] names db h = omega arith
run_steps-take_le (suc k) (m ∷ ms) names db h = elim (Option-cases (run_step m db)) [
  | inl failed ↦ rw (failed, run_steps) (omega arith)
  | inr (next, e) ↦
      rw (e, run_steps)
        (run_steps-take_le k ms (names ++ m.name ∷ []) next (
          subst (λ v. Rising (λ (m : Migration). m.version) v ms)
            (sym (run_step-version m db next e)) h.1))
]

restore-bounds :
    (backup : Bool) (old db : Database) (target : ℕ)
    → old.version ≤ target
    → (old.version ≤ db.version) × (db.version ≤ target)
    → (old.version ≤ (restore (saved backup old) old.version db).1.version)
      × ((restore (saved backup old) old.version db).1.version ≤ target)
unfolding restore
restore-bounds true old db target h k = (omega arith, h)
restore-bounds false old db target h k = k

finish-bounds :
    (backup : Bool) (old : Database) (target : ℕ) (out : Option (List String) × Database)
    → old.version ≤ target
    → (old.version ≤ out.1.version) × (out.1.version ≤ target)
    → (old.version ≤ (finish (saved backup old) old.version target out).1.version)
      × ((finish (saved backup old) old.version target out).1.version ≤ target)
unfolding finish
finish-bounds backup old target (none, db) h k = restore-bounds backup old db target h k
finish-bounds backup old target (some names, db) h k = elim (Bool-cases (verify db target)) [
  | inl good ↦ rw good k
  | inr bad ↦ rw bad (restore-bounds backup old db target h k)
]

marker_bounds :
    (db : Database) (target : ℕ) (steps : List Migration) (backup : Bool)
    → (db.version ≤ (apply_migrations db target steps backup).1.version)
      × ((apply_migrations db target steps backup).1.version ≤ max target db.version)
unfolding apply_migrations
marker_bounds db target steps backup = elim (Bool-cases (ltb target db.version)) [
  | inl newer ↦ rw (newer, apply_migrations) (omega arith, omega arith)
  | inr older ↦ elim (Bool-cases (eqb db.version target)) [
    | inl same ↦ rw (older, same, apply_migrations) (omega arith, omega arith)
    | inr apart ↦
        let below : db.version ≤ target = ground (arith, older) in
        let bounds =
          finish-bounds backup db target (run_steps (due db.version target steps) [] db) below (
            run_steps-bounds db.version target (due db.version target steps) [] db
              (due-IsDue db.version target steps) (omega arith) below) in
        rw (older, apart, apply_migrations) (bounds.0, omega (arith, bounds.1))
  ]
]

-- No step moves the marker of the version back: the database after `k` of the due steps, or up to the
-- one that failed, is at no higher version than after one more. The whole migration leaves the marker
-- where it was or higher, and not past the target unless it was there already, with a backup or without
-- one, whether the steps succeed or not.
pub forward_only :
    (db : Database) (target : ℕ) (steps : List Migration) (backup : Bool)
    → ((k : ℕ)
        → (run_steps (take k (due db.version target steps)) [] db).1.version
          ≤ (run_steps (take (suc k) (due db.version target steps)) [] db).1.version)
      × ((db.version ≤ (apply_migrations db target steps backup).1.version)
          × ((apply_migrations db target steps backup).1.version ≤ max target db.version))
forward_only db target steps backup = (
  λ k. run_steps-take_le k (due db.version target steps) [] db (due-Rising db.version target steps),
  marker_bounds db target steps backup,
)
