-- ===== src/Run/Store/Keys.antt =====
-- src/hca/run.py: the run that an idempotency key leads back to.
use hermes_concurrent_agents.Common.{
  ℕ, String, ◌≡◌, refl, ◌∙◌, ◌≢◌, inl, inr, Option, none, some, List, [], ◌∷◌, arith, eq_iff, ◌==◌,
  nat_eq, string_eq, Bool-cases, filter,
}
use hermes_concurrent_agents.Run.State.{queued}
use hermes_concurrent_agents.Run.Spec.{RunSpec}
use hermes_concurrent_agents.Common.Tables.{row}
use hermes_concurrent_agents.Run.Store.{
  RunRow, Store, ok, RunProjection, row_key_run, find_by_idempotency_key, new_row, create_run,
}
use hermes_concurrent_agents.Run.Store.Lifecycle.{Call, run_calls}
use hermes_concurrent_agents.Run.Store.Specs.{
  same_order_self, run_calls-SameOrder, created_row, Newest, HasKey, find_by_key,
}

-- A row that is found is among those with its key.
with_key-cons :
    (key r : String) (rows : List RunRow) (z : RunRow)
    → row row_key_run r rows ≡ some z
    → z.idempotency_key ≡ key
    → filter (λ x. x.idempotency_key == key) rows ≢ []
unfolding row
with_key-cons key r [] z h k e = ground arith
with_key-cons key r (x ∷ rows) z h k e = elim (Bool-cases (x.idempotency_key == key)) [
  | inl keyed ↦ ground (arith, keyed)
  | inr other ↦ elim (Bool-cases (row_key_run x == r)) [
    | inl here ↦ ground (arith, here, other, eq_iff x.idempotency_key key)
    | inr away ↦ with_key-cons key r rows z (ground (arith, away)) k (ground (arith, other))
  ]
]

-- Once a run has been created with a key, the lookup of the key finds a run that has it.
pub key_found :
    (s t : Store) (spec : RunSpec) (now ts : ℕ) (q : RunProjection) (cs : List Call)
    → create_run s spec queued now ts ≡ ok (q, t)
    → spec.idempotency_key ≢ ""
    → (p : RunProjection) × (find_by_idempotency_key (run_calls t cs) spec.idempotency_key ≡ some p)
      × (p.idempotency_key ≡ spec.idempotency_key)
key_found s t spec now ts q cs h n =
    let x : RunRow = new_row spec queued now in
    let (z, here, k) =
      run_calls-SameOrder t cs spec.run_id x x (created_row s t spec now ts q h)
        (same_order_self x) in
    let (from, keyed, newest) = (find_by_key (run_calls t cs) spec.idempotency_key).1 n in
    go (find_by_idempotency_key (run_calls t cs) spec.idempotency_key) keyed newest (
      with_key-cons spec.idempotency_key spec.run_id (run_calls t cs).runs z here
        (k.2 ∙ (unfold new_row in refl)))
  where
    go :
        (o : Option RunProjection)
        → HasKey spec.idempotency_key o
        → Newest (filter (λ x. x.idempotency_key == spec.idempotency_key) (run_calls t cs).runs) o
        → filter (λ x. x.idempotency_key == spec.idempotency_key) (run_calls t cs).runs ≢ []
        → (p : RunProjection) × (o ≡ some p) × (p.idempotency_key ≡ spec.idempotency_key)
    go none keyed none_left some_left = absurd (some_left none_left)
    go (some p) keyed newest some_left = (p, refl, keyed)
