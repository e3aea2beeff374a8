-- ===== src/Run/Store/Specs.antt =====
-- src/hca/run.py: the specifications of runs and their idempotency keys, over sequences of calls.
use hermes_concurrent_agents.Common.{
  ℕ, ◌≤◌, String, ◌≡◌, refl, ap, ◌∙◌, ◌≢◌, inl, inr, true, Option, none, some, List, [], ◌∷◌, arith,
  eq_iff, ◌==◌, nat_eq, string_eq, is_empty, or_else, Bool-cases, filter, All, All-filter,
  All-filter_of,
}
use hermes_concurrent_agents.Run.State.{RunState, queued, run_state_eq}
use hermes_concurrent_agents.Run.Spec.{RunSpec, from_dict, from_dict-to_dict}
use hermes_concurrent_agents.Common.Tables.{
  row, order_desc, first, row-append_some, row-append_none, row-singleton, row-update_self,
  row-update_ne, order_desc-All, NoNewer, first-order_desc, Among, All-Among,
}
use hermes_concurrent_agents.Run.Store.{
  RunRow, Store, integrity, Result, ok, err, RunProjection, row_key_run, row_to_proj, map_option,
  append_event, get_spec, find_by_idempotency_key, new_row, create_run, set_row, set_state,
}
use hermes_concurrent_agents.Run.Store.Lifecycle.{
  Call, creates, moves, asks, answers, logs, after, apply, run_calls, runs-creates, runs-asks,
  runs-answers, runs-logs,
}
use hermes_concurrent_agents.Run.Store.Writes.{set_state_ok, create_run_ok}

spec_of_row :
    (s : Store) (r : String) (x : RunRow)
    → row row_key_run r s.runs ≡ some x
    → get_spec s r ≡ from_dict x.spec_json
unfolding get_spec
spec_of_row s r x h = rw h

-- The columns of a run that no call writes again.
abbrev pub SameOrder : RunRow → Option RunRow → Type 0
SameOrder x none = ⊥
SameOrder x (some y) =
    (y.spec_json ≡ x.spec_json)
    × (y.goal ≡ x.goal)
    × (y.idempotency_key ≡ x.idempotency_key)
    × (y.created_at ≡ x.created_at)

abbrev pub same_order_self : (x : RunRow) → SameOrder x (some x)
same_order_self x = (refl, refl, refl, refl)

kept_by_runs :
    (us vs : List RunRow) (r : String) (x : RunRow)
    → vs ≡ us
    → row row_key_run r us ≡ some x
    → SameOrder x (row row_key_run r vs)
kept_by_runs us vs r x e h = rw (e, h) (same_order_self x)

set_row-same :
    (x : RunRow) (st : RunState) (reason : String) (now : ℕ)
    → (row_key_run (set_row st reason now x) ≡ row_key_run x)
      × SameOrder x (some (set_row st reason now x))
unfolding set_row
set_row-same x st reason now = (refl, (refl, refl, refl, refl))

kept_moves :
    (s : Store) (j : String) (st : RunState) (reason : String) (now ts : ℕ) (r : String)
    (x : RunRow)
    → row row_key_run r s.runs ≡ some x
    → SameOrder x (row row_key_run r (apply s (moves j st reason now ts)).runs)
unfolding apply
kept_moves s j st reason now ts r x h = go (set_state s j st reason now ts) refl
  where
    go :
        (o : Result (RunProjection × Store))
        → set_state s j st reason now ts ≡ o
        → SameOrder x (row row_key_run r (after s o).runs)
    go (err e) eq = rw h (same_order_self x)
    go (ok (q, t)) eq =
        let (p, _, _, _, et) = set_state_ok s t j st reason now ts q eq in
        let f : RunRow → RunRow = set_row st (or_else reason p.reason) now in
        let keeps : (y : RunRow) → row_key_run (f y) ≡ row_key_run y =
          λ y. (set_row-same y st (or_else reason p.reason) now).0 in
        rw et (
          unfold append_event in
          elim (Bool-cases (j == r)) [
            | inl same ↦ rw ((eq_iff j r).0 same) (
                rw (row-update_self row_key_run f keeps r s.runs h)
                  (set_row-same x st (or_else reason p.reason) now).1)
            | inr other ↦
                rw (row-update_ne row_key_run f keeps j r s.runs (λ e. cc ((eq_iff j r).1 e)), h)
                  (same_order_self x)
          ])

kept_creates :
    (s : Store) (spec : RunSpec) (now ts : ℕ) (r : String) (x : RunRow)
    → row row_key_run r s.runs ≡ some x
    → SameOrder x (row row_key_run r (apply s (creates spec now ts)).runs)
kept_creates s spec now ts r x h = elim (runs-creates s spec now ts) [
  | inl e ↦ kept_by_runs s.runs _ r x e h
  | inr (_, e) ↦ rw (e, row-append_some row_key_run r s.runs _ h) (same_order_self x)
]

apply-SameOrder :
    (s : Store) (c : Call) (r : String) (x : RunRow)
    → row row_key_run r s.runs ≡ some x
    → SameOrder x (row row_key_run r (apply s c).runs)
apply-SameOrder s (creates spec now ts) r x h = kept_creates s spec now ts r x h
apply-SameOrder s (moves j st reason now ts) r x h = kept_moves s j st reason now ts r x h
apply-SameOrder s (asks j prompt task qid now ts) r x h =
    kept_by_runs s.runs _ r x (runs-asks s j prompt task qid now ts) h
apply-SameOrder s (answers j qid text now ts) r x h =
    kept_by_runs s.runs _ r x (runs-answers s j qid text now ts) h
apply-SameOrder s (logs j kind text payload ts) r x h =
    kept_by_runs s.runs _ r x (runs-logs s j kind text payload ts) h

SameOrder-trans :
    (x y : RunRow) (o : Option RunRow) → SameOrder x (some y) → SameOrder y o → SameOrder x o
SameOrder-trans x y none k l = l
SameOrder-trans x y (some z) k l = cc_all
  where
    cc_all : SameOrder x (some z)
    cc_all = (l.0 ∙ k.0, l.1 ∙ k.1, l.2 ∙ k.2, l.3 ∙ k.3)

pub run_calls-SameOrder :
    (s : Store) (cs : List Call) (r : String) (x y : RunRow)
    → row row_key_run r s.runs ≡ some y
    → SameOrder x (some y)
    → (z : RunRow) × (row row_key_run r (run_calls s cs).runs ≡ some z) × SameOrder x (some z)
unfolding run_calls
run_calls-SameOrder s [] r x y h k = (y, h, k)
run_calls-SameOrder s (c ∷ cs) r x y h k =
    let (z, here, l) = present (row row_key_run r (apply s c).runs) (apply-SameOrder s c r y h) in
    run_calls-SameOrder (apply s c) cs r x z here (SameOrder-trans x y (some z) k l)
  where
    present :
        (o : Option RunRow) → SameOrder y o → (z : RunRow) × (o ≡ some z) × SameOrder y (some z)
    present none l = absurd l
    present (some z) l = (z, refl, l)

pub created_row :
    (s t : Store) (spec : RunSpec) (now ts : ℕ) (q : RunProjection)
    → create_run s spec queued now ts ≡ ok (q, t)
    → row row_key_run spec.run_id t.runs ≡ some (new_row spec queued now)
created_row s t spec now ts q h =
    let (absent, _, et) = create_run_ok s t spec queued now ts q h in
    rw et (
      unfold append_event new_row in
      row-append_none row_key_run spec.run_id s.runs (new_row spec queued now ∷ []) absent
      ∙ row-singleton row_key_run (new_row spec queued now))

-- The specification of a run is what the run was created with, whatever calls follow.
pub spec_kept :
    (s t : Store) (spec : RunSpec) (now ts : ℕ) (q : RunProjection) (cs : List Call)
    → create_run s spec queued now ts ≡ ok (q, t)
    → get_spec (run_calls t cs) spec.run_id ≡ some spec
spec_kept s t spec now ts q cs h =
    let x : RunRow = new_row spec queued now in
    let (z, here, k) =
      run_calls-SameOrder t cs spec.run_id x x (created_row s t spec now ts q h)
        (same_order_self x) in
    spec_of_row (run_calls t cs) spec.run_id z here
    ∙ ap from_dict k.0
    ∙ (unfold new_row in from_dict-to_dict spec)

-- A run identifier is taken for good: no second run is created under it.
pub created_twice :
    (s t : Store) (spec : RunSpec) (now ts : ℕ) (q : RunProjection) (cs : List Call)
    (spec' : RunSpec) (st : RunState) (now' ts' : ℕ)
    → create_run s spec queued now ts ≡ ok (q, t)
    → spec'.run_id ≡ spec.run_id
    → create_run (run_calls t cs) spec' st now' ts' ≡ err integrity
created_twice s t spec now ts q cs spec' st now' ts' h e =
    let x : RunRow = new_row spec queued now in
    let (z, here, k) =
      run_calls-SameOrder t cs spec.run_id x x (created_row s t spec now ts q h)
        (same_order_self x) in
    taken (run_calls t cs) spec' st now' ts' z (rw e here)
  where
    taken :
        (u : Store) (sp : RunSpec) (st : RunState) (now ts : ℕ) (z : RunRow)
        → row row_key_run sp.run_id u.runs ≡ some z
        → create_run u sp st now ts ≡ err integrity
    taken u sp st now ts z h = unfold create_run in ground arith

-- The newest of the rows with a key, for a key that is not empty, and nothing for the empty key.
abbrev pub Newest : List RunRow → Option RunProjection → Type 0
Newest rows none = rows ≡ []
Newest rows (some p) = All (λ x. x.created_at ≤ p.created_at) rows

abbrev pub HasKey : String → Option RunProjection → Type 0
HasKey key none = Unit {0}
HasKey key (some p) = p.idempotency_key ≡ key

abbrev with_key : String → List RunRow → List RunRow
with_key key = filter (λ x. x.idempotency_key == key)

abbrev newest : String → List RunRow → Option RunRow
newest key rows = first (λ x. x.created_at) (order_desc (λ x. x.created_at) (with_key key rows))

first-HasKey :
    (key : String) (rows : List RunRow)
    → All (λ x. (x.idempotency_key == key) ≡ true) rows
    → HasKey key (map_option row_to_proj (first (λ (x : RunRow). x.created_at) rows))
unfolding row_to_proj
first-HasKey key [] h = tt
first-HasKey key (x ∷ rows) h = (eq_iff x.idempotency_key key).0 h.0

newest-HasKey :
    (key : String) (rows : List RunRow) → HasKey key (map_option row_to_proj (newest key rows))
newest-HasKey key rows =
    first-HasKey key (order_desc (λ (x : RunRow). x.created_at) (with_key key rows)) (
      order_desc-All (λ (x : RunRow). x.created_at) (λ x. (x.idempotency_key == key) ≡ true)
        (with_key key rows) (All-filter (λ x. x.idempotency_key == key) rows))

-- What is found is what a row of the table says of its run.
abbrev pub FromRow : List RunRow → Option RunProjection → Type 0
FromRow rows none = Unit {0}
FromRow rows (some p) =
    (z : RunRow) × (Among z rows)
    × (p ≡ record {
      run_id = z.run_id;
      state = z.state;
      goal = z.goal;
      created_at = z.created_at;
      updated_at = z.updated_at;
      reason = z.reason;
      idempotency_key = z.idempotency_key;
    })

first-FromRow :
    (rows xs : List RunRow)
    → All (λ x. Among x rows) xs
    → FromRow rows (map_option row_to_proj (first (λ (x : RunRow). x.created_at) xs))
unfolding row_to_proj
first-FromRow rows [] h = tt
first-FromRow rows (x ∷ xs) h = (x, h.0, refl)

newest-FromRow :
    (key : String) (rows : List RunRow) → FromRow rows (map_option row_to_proj (newest key rows))
newest-FromRow key rows =
    first-FromRow rows (order_desc (λ (x : RunRow). x.created_at) (with_key key rows)) (
      order_desc-All (λ (x : RunRow). x.created_at) (λ x. Among x rows) (with_key key rows)
        (All-filter_of (λ x. Among x rows) (λ x. x.idempotency_key == key) rows (All-Among rows)))

Newest-of_NoNewer :
    (rows : List RunRow) (o : Option RunRow)
    → NoNewer (λ x. x.created_at) rows o
    → Newest rows (map_option row_to_proj o)
unfolding row_to_proj
Newest-of_NoNewer rows none h = h
Newest-of_NoNewer rows (some x) h = h

newest-Newest :
    (key : String) (rows : List RunRow)
    → Newest (with_key key rows) (map_option row_to_proj (newest key rows))
newest-Newest key rows =
    Newest-of_NoNewer (with_key key rows) (newest key rows)
      (first-order_desc (λ x. x.created_at) (with_key key rows))

-- The lookup by idempotency key finds a run of the store, as its row says, with that key, none with the
-- key is newer, and it finds nothing only if no run has the key. The empty key finds nothing.
pub find_by_key :
    (s : Store) (key : String)
    → (key ≡ "" → find_by_idempotency_key s key ≡ none)
      × (key ≢ ""
          → FromRow s.runs (find_by_idempotency_key s key)
            × HasKey key (find_by_idempotency_key s key)
            × Newest
                (filter (λ x. x.idempotency_key == key) s.runs)
                (find_by_idempotency_key s key))
unfolding find_by_idempotency_key
find_by_key s key = (
  λ e. ground (arith, eq_iff key ""),
  λ n. elim (Bool-cases (is_empty key)) [
    | inl e ↦ absurd (n ((eq_iff key "").0 e))
    | inr e ↦ rw e (newest-FromRow key s.runs, newest-HasKey key s.runs, newest-Newest key s.runs)
  ],
)
