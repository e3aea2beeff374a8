-- ===== src/Decompose/Kahn.antt =====
-- src/hca/decompose.py: the invariant of the `while ready` loop of `_topo_order`, and its end.
use hermes_concurrent_agents.Common.{
  ℕ, zero, suc, ◌+◌, ◌≤◌, String, ◌≡◌, refl, ap, ◌∙◌, inl, inr, Bool, true, false, not, ◌||◌, some,
  List, [], ◌∷◌, ◌++◌, arith, eq_iff, ◌==◌, nat_eq, string_eq, Bool-cases, and_true, not-true,
  length, filter, All, length-append, All-map, All-both, All-append, contains,
}
use hermes_concurrent_agents.Decompose.{
  sort, Pending, known, is_free, row_ids, lower_rows, released, kahn,
}
use hermes_concurrent_agents.Common.Counting.{
  nodup, hits, one_if, contains-append, hits-append, hits_le_hits, hits_mono, nodup-snoc,
  nodup-append_of, All-contains, All-apart,
}
use hermes_concurrent_agents.Decompose.Rows.{
  contains-sort, nodup-sort, length-sort, All-sort, falls, released-filter, All-chosen,
  nodup-chosen, contains-chosen, waits, length-released, row_ids-lower, tasks, tasks-lower, lowered,
  All-lower,
}

-- The identifiers of the rows stand among themselves.
pub rows_in :
    (names : List String) (rows : List Pending)
    → All (λ x. contains x names ≡ true) (row_ids rows)
    → All (λ p. contains p.task.id names ≡ true) rows
rows_in names [] h = tt
rows_in names (p ∷ ps) h = (h.0, rows_in names ps h.1)

apart_snoc :
    (x nid : String) (order : List String)
    → contains x order ≡ false
    → (x == nid) ≡ false
    → contains x (order ++ nid ∷ []) ≡ false
apart_snoc x nid order a b =
    ground (arith, contains-append x order (nid ∷ []), eq_iff x nid, eq_iff nid x)

module _ (names : List String) where
  -- A row counts the known dependencies that are not emitted yet.
  abbrev pub Balanced : List String → Pending → Type 0
  Balanced order p = p.indegree + hits order p.task.depends_on ≡ known names p.task

  -- A row is at 0 exactly if its node is emitted or ready.
  abbrev pub Queued : List String → List String → Pending → Type 0
  Queued order ready p = is_free p ≡ (contains p.task.id order || contains p.task.id ready)

  abbrev pub Named : String → Type 0
  Named x = contains x names ≡ true

  pub record Inv (rows : List Pending) (ready order : List String) : Type 0 where
    pub balanced : All (Balanced order) rows
    pub queued : All (Queued order ready) rows
    pub order_nodup : nodup order ≡ true
    pub ready_nodup : nodup ready ≡ true
    pub disjoint : All (λ x. contains x order ≡ false) ready
    pub order_named : All Named order
    pub ready_named : All Named ready
    pub rows_named : row_ids rows ≡ names

  module _ (names_nodup : nodup names ≡ true) where
    -- A dependency that is emitted only now has been counted in its row.
    still_counted :
        (order : List String) (nid : String) (p : Pending)
        → nodup (order ++ nid ∷ []) ≡ true
        → All Named (order ++ nid ∷ [])
        → Balanced order p
        → contains nid p.task.depends_on ≡ true
        → 1 ≤ p.indegree
    still_counted order nid p n k b c = omega (
      arith,
      ap (λ (t : Bool). one_if t) c,
      hits_le_hits (order ++ nid ∷ []) p.task.depends_on n,
      hits_mono p.task.depends_on (order ++ nid ∷ []) names k,
      more,
    )
      where
        more : hits (order ++ nid ∷ []) p.task.depends_on ≡ hits order p.task.depends_on + 1
        more = hits-append order (nid ∷ []) p.task.depends_on ∙ rw c

    Balanced-step :
        (order : List String) (nid : String) (p : Pending)
        → nodup (order ++ nid ∷ []) ≡ true
        → All Named (order ++ nid ∷ [])
        → Balanced order p
        → Balanced (order ++ nid ∷ []) (lowered nid p)
    Balanced-step order nid p n k b = elim (Bool-cases (contains nid p.task.depends_on)) [
      | inl c ↦
          let pos : 1 ≤ p.indegree = still_counted order nid p n k b c in
          let more : hits (order ++ nid ∷ []) p.task.depends_on ≡ hits order p.task.depends_on + 1 =
            hits-append order (nid ∷ []) p.task.depends_on ∙ rw c in
          rw c (omega arith)
      | inr c ↦
          let same : hits (order ++ nid ∷ []) p.task.depends_on ≡ hits order p.task.depends_on + 0 =
            hits-append order (nid ∷ []) p.task.depends_on ∙ rw c in
          rw c (omega arith)
    ]

    Queued-step :
        (rows : List Pending) (ready order : List String) (nid : String) (p : Pending)
        → nodup (order ++ nid ∷ []) ≡ true
        → All Named (order ++ nid ∷ [])
        → Balanced order p
        → Queued order (nid ∷ ready) p
        → contains p.task.id (released nid rows) ≡ falls nid p
        → Queued (order ++ nid ∷ []) (sort (ready ++ released nid rows)) (lowered nid p)
    Queued-step rows ready order nid p n k b q c = ground (
      arith,
      still_counted order nid p n k b,
      contains-append p.task.id order (nid ∷ []),
      contains-sort p.task.id (ready ++ released nid rows),
      contains-append p.task.id ready (released nid rows),
    )

    -- A node that falls to 0 in this round is neither emitted nor ready before it.
    released_new :
        (ready order : List String) (nid : String) (p : Pending)
        → Queued order (nid ∷ ready) p
        → falls nid p ≡ true
        → (contains p.task.id ready ≡ false) × (contains p.task.id (order ++ nid ∷ []) ≡ false)
    released_new ready order nid p q f = ground (arith, contains-append p.task.id order (nid ∷ []))

    module _ (rows : List Pending) (ready order : List String) (nid : String)
        (v : Inv rows (nid ∷ ready) order) where
      emitted_nodup : nodup (order ++ nid ∷ []) ≡ true
      emitted_nodup = nodup-snoc order nid v.order_nodup v.disjoint.0

      emitted-Named : All Named (order ++ nid ∷ [])
      emitted-Named = All-append Named order (nid ∷ []) v.order_named (v.ready_named.0, tt)

      row_ids-nodup : nodup (row_ids rows) ≡ true
      row_ids-nodup = rw v.rows_named names_nodup

      row_ids-Named : All (λ p. Named p.task.id) rows
      row_ids-Named = rows_in names rows (rw v.rows_named (All-contains names))

      contains-released : All (λ p. contains p.task.id (released nid rows) ≡ falls nid p) rows
      contains-released =
          rw (released-filter nid rows) (contains-chosen (falls nid) rows row_ids-nodup)

      All-released :
          (P : String → Type 0)
          → All (λ p. falls nid p ≡ true → P p.task.id) rows
          → All P (released nid rows)
      All-released P h = rw (released-filter nid rows) (All-chosen P (falls nid) rows h)

      nid_new : contains nid ready ≡ false
      nid_new = not-true (and_true {a = not (contains nid ready)} {b = nodup ready} v.ready_nodup).0

      pub step-Inv :
          Inv (lower_rows nid rows) (sort (ready ++ released nid rows)) (order ++ nid ∷ [])
      step-Inv = record {
        balanced =
            All-lower (Balanced order) (Balanced (order ++ nid ∷ [])) nid rows
              (λ p b. Balanced-step order nid p emitted_nodup emitted-Named b) v.balanced;
        queued =
            All-lower
              (λ p.
                Balanced order p
                × (Queued order (nid ∷ ready) p
                    × (contains p.task.id (released nid rows) ≡ falls nid p)))
              (Queued (order ++ nid ∷ []) (sort (ready ++ released nid rows))) nid rows
              (λ p h.
                Queued-step rows ready order nid p emitted_nodup emitted-Named h.0 h.1.0 h.1.1)
              (All-both (Balanced order)
                (λ p.
                  Queued order (nid ∷ ready) p
                  × (contains p.task.id (released nid rows) ≡ falls nid p))
                rows v.balanced
                (All-both (Queued order (nid ∷ ready))
                  (λ p. contains p.task.id (released nid rows) ≡ falls nid p) rows v.queued
                  contains-released));
        order_nodup = emitted_nodup;
        ready_nodup =
            nodup-sort (ready ++ released nid rows)
            ∙ nodup-append_of ready (released nid rows)
                (and_true {a = not (contains nid ready)} {b = nodup ready} v.ready_nodup).1
                (rw (released-filter nid rows) (nodup-chosen (falls nid) rows row_ids-nodup))
                (All-released (λ x. contains x ready ≡ false)
                  (All-map (λ p q f. (released_new ready order nid p q f).0) rows v.queued));
        disjoint =
            All-sort (λ x. contains x (order ++ nid ∷ []) ≡ false) (ready ++ released nid rows)
              (All-append (λ x. contains x (order ++ nid ∷ []) ≡ false) ready (released nid rows)
                (All-map (λ x h. apart_snoc x nid order h.0 h.1) ready
                  (All-both (λ x. contains x order ≡ false) (λ x. (x == nid) ≡ false) ready
                    v.disjoint.1 (All-apart nid ready nid_new)))
                (All-released (λ x. contains x (order ++ nid ∷ []) ≡ false)
                  (All-map (λ p q f. (released_new ready order nid p q f).1) rows v.queued)));
        order_named = emitted-Named;
        ready_named = All-sort Named (ready ++ released nid rows) (
            All-append Named ready (released nid rows) v.ready_named.1
              (All-released Named (All-map (λ p h f. h) rows row_ids-Named)));
        rows_named = row_ids-lower nid rows ∙ v.rows_named;
      }

    -- Within the fuel the loop ends, with the ready list empty and the invariant kept; it has emitted
    -- as many nodes as it no longer waits for.
    pub kahn_end :
        (fuel : ℕ) (rows : List Pending) (ready order : List String)
        → Inv rows ready order
        → length ready + length (filter waits rows) ≤ fuel
        → (rows' : List Pending) × (order' : List String) × (kahn fuel rows ready order
            ≡ some order')
          × Inv rows' [] order'
          × (tasks rows' ≡ tasks rows)
    unfolding kahn
    kahn_end fuel rows [] order v h = (rows, order, refl, v, refl)
    kahn_end zero rows (nid ∷ ready) order v h = absurd (omega arith)
    kahn_end (suc fuel) rows (nid ∷ ready) order v h =
        let (rows', order', e, v', same) =
          kahn_end fuel (lower_rows nid rows) (sort (ready ++ released nid rows))
            (order ++ nid ∷ []) (step-Inv rows ready order nid v)
            (omega (
              arith,
              length-sort (ready ++ released nid rows),
              length-append ready (released nid rows),
              length-released nid rows,
            )) in
        (rows', order', e, v', same ∙ tasks-lower nid rows)
