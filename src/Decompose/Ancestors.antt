-- ===== src/Decompose/Ancestors.antt =====
-- src/hca/decompose.py: the loop of `_ancestors` and its result.
use hermes_concurrent_agents.Common.{
  ℕ, zero, suc, ◌+◌, ◌≤◌, String, ◌≡◌, refl, subst, ◌∙◌, ◌↔◌, inl, inr, true, ◌||◌, Option, none,
  some, List, [], ◌∷◌, ◌++◌, arith, eq_iff, ◌==◌, nat_eq, string_eq, is_some, Bool-cases,
  Option-cases, length, All, length-append, All-map, All-append, contains,
}
use hermes_concurrent_agents.Decompose.{
  TaskNode, node, known, collect, dependencies, edges, ancestors,
}
use hermes_concurrent_agents.Common.Counting.{contains-append, All-contains}
use mathlib.Core.List.{reverse}
use hermes_concurrent_agents.Decompose.Dependencies.{
  length-reverse, contains-reverse, All-reverse, at_member, Depends, Reaches, rest, rest-nil,
  rest_push, direct, further,
}

module _ (nodes : List TaskNode) where
  -- The fuel covers the stack and what may still be pushed.
  collect_ends :
      (fuel : ℕ) (stack seen : List String)
      → length stack + rest nodes seen ≤ fuel
      → (s : List String) × (collect fuel nodes stack seen ≡ some s)
  unfolding collect
  collect_ends fuel [] seen h = (seen, refl)
  collect_ends zero (x ∷ stack) seen h = absurd (omega arith)
  collect_ends (suc fuel) (x ∷ stack) seen h = elim (Option-cases (node x nodes)) [
    | inl absent ↦ rw (absent, collect) (collect_ends fuel stack seen (omega arith))
    | inr (n, here) ↦ elim (Bool-cases (contains x seen)) [
      | inl old ↦ rw (here, old, collect) (collect_ends fuel stack seen (omega arith))
      | inr new ↦
          rw (here, new, collect)
            (collect_ends fuel (reverse n.depends_on ++ stack) (x ∷ seen) (
              omega (
                arith,
                rest_push nodes x seen n here new,
                length-append (reverse n.depends_on) stack,
                length-reverse n.depends_on,
              )))
    ]
  ]

  module _ (start : String) where
    -- What waits on the stack is reached, if it is a task at all.
    abbrev Waiting : String → Type 0
    Waiting x = is_some (node x nodes) ≡ true → Reaches nodes start x

    push-Waiting :
        (x : String) (n : TaskNode)
        → node x nodes ≡ some n
        → Reaches nodes start x
        → All Waiting n.depends_on
    push-Waiting x n here r = go n.depends_on (All-contains n.depends_on)
      where
        go : (ds : List String) → All (λ d. contains d n.depends_on ≡ true) ds → All Waiting ds
        go [] h = tt
        go (d ∷ ds) h = ((λ k. further r (n, here, h.0, k)), go ds h.1)

    -- Whatever is collected is reached.
    collect_sound :
        (fuel : ℕ) (stack seen s : List String)
        → All Waiting stack
        → All (Reaches nodes start) seen
        → collect fuel nodes stack seen ≡ some s
        → All (Reaches nodes start) s
    unfolding collect
    collect_sound fuel [] seen s w r h = subst (All (Reaches nodes start)) (ground arith) r
    collect_sound zero (x ∷ stack) seen s w r h = cc
    collect_sound (suc fuel) (x ∷ stack) seen s w r h = elim (Option-cases (node x nodes)) [
      | inl absent ↦ collect_sound fuel stack seen s w.1 r (rw (absent, collect) at h)
      | inr (n, here) ↦ elim (Bool-cases (contains x seen)) [
        | inl old ↦ collect_sound fuel stack seen s w.1 r (rw (here, old, collect) at h)
        | inr new ↦
            let rx : Reaches nodes start x = w.0 (rw here) in
            collect_sound fuel (reverse n.depends_on ++ stack) (x ∷ seen) s
              (All-append Waiting (reverse n.depends_on) stack
                (All-reverse Waiting n.depends_on (push-Waiting x n here rx)) w.1)
              (rx, r) (rw (here, new, collect) at h)
      ]
    ]

  -- The collected tasks are closed under dependencies, but for what is still on the stack.
  abbrev Covered : List String → List String → String → Type 0
  Covered seen stack y =
      is_some (node y nodes) ≡ true → (contains y seen || contains y stack) ≡ true

  Closed : List String → List String → String → Type 0
  Closed seen stack x =
      (y : String) → Depends nodes x y → (contains y seen || contains y stack) ≡ true

  Closed-skip :
      (x : String) (seen stack : List String) (z : String)
      → (is_some (node x nodes) ≡ true → contains x seen ≡ true)
      → Closed seen (x ∷ stack) z
      → Closed seen stack z
  unfolding Closed
  Closed-skip x seen stack z known c y d = elim (Bool-cases (x == y)) [
    | inl same ↦
        let e : x ≡ y = (eq_iff x y).0 same in
        let in_seen : contains y seen ≡ true =
          subst (λ u. contains u seen ≡ true) e (known (rw e d.3)) in
        ground arith
    | inr other ↦ ground (arith, c y d)
  ]

  Closed-push :
      (x : String) (n : TaskNode) (seen stack : List String) (z : String)
      → Closed seen (x ∷ stack) z
      → Closed (x ∷ seen) (reverse n.depends_on ++ stack) z
  unfolding Closed
  Closed-push x n seen stack z c y d =
      ground (arith, c y d, contains-append y (reverse n.depends_on) stack)

  Closed-new :
      (x : String) (n : TaskNode) (seen stack : List String)
      → node x nodes ≡ some n
      → Closed (x ∷ seen) (reverse n.depends_on ++ stack) x
  unfolding Closed
  Closed-new x n seen stack here y d = ground (
    arith,
    d.1,
    d.2,
    contains-append y (reverse n.depends_on) stack,
    contains-reverse y n.depends_on,
  )

  module _ (start : String) where
    collect-Closed :
        (fuel : ℕ) (stack seen s : List String)
        → Closed seen stack start
        → All (Closed seen stack) seen
        → collect fuel nodes stack seen ≡ some s
        → Closed s [] start × All (Closed s []) s
    unfolding collect
    collect-Closed fuel [] seen s c a h =
        subst (λ u. Closed u [] start × All (Closed u []) u) (ground arith) (c, a)
    collect-Closed zero (x ∷ stack) seen s c a h = cc
    collect-Closed (suc fuel) (x ∷ stack) seen s c a h = elim (Option-cases (node x nodes)) [
      | inl absent ↦
          collect-Closed fuel stack seen s (Closed-skip x seen stack start (λ k. cc) c)
            (All-map {Q = Closed seen stack} (λ z. Closed-skip x seen stack z (λ k. cc)) seen a)
            (rw (absent, collect) at h)
      | inr (n, here) ↦ elim (Bool-cases (contains x seen)) [
        | inl old ↦
            collect-Closed fuel stack seen s (Closed-skip x seen stack start (λ k. old) c)
              (All-map {Q = Closed seen stack} (λ z. Closed-skip x seen stack z (λ k. old)) seen a)
              (rw (here, old, collect) at h)
        | inr new ↦
            collect-Closed fuel (reverse n.depends_on ++ stack) (x ∷ seen) s
              (Closed-push x n seen stack start c)
              (
                Closed-new x n seen stack here,
                All-map {Q = Closed (x ∷ seen) (reverse n.depends_on ++ stack)}
                    (λ z. Closed-push x n seen stack z) seen a,
              )
              (rw (here, new, collect) at h)
      ]
    ]

    reached_in :
        (s : List String) (x : String)
        → Closed s [] start
        → All (Closed s []) s
        → Reaches nodes start x
        → contains x s ≡ true
    unfolding Closed
    reached_in s x c a (direct {y} d) = ground (arith, c y d)
    reached_in s x c a (further {x = z} {y = y} r d) =
        let here : contains z s ≡ true = reached_in s z c a r in
        ground (arith, at_member (Closed s []) z s a here y d)

-- The collection ends, and holds a task exactly if it is a transitive dependency of the start.
pub ancestors_iff :
    (nodes : List TaskNode) (start : String)
    → (seen : List String) × (ancestors nodes start ≡ some seen)
      × ((x : String) → (contains x seen ≡ true) ↔ Reaches nodes start x)
unfolding ancestors Closed
ancestors_iff nodes start =
    let deps = dependencies (node start nodes) in
    let (seen, e) =
      collect_ends nodes (suc (length deps + edges nodes)) (reverse deps) []
        (omega (arith, length-reverse deps, rest-nil nodes)) in
    let (c, a) =
      collect-Closed nodes start (suc (length deps + edges nodes)) (reverse deps) [] seen roots tt
        e in
    (
      seen,
      e,
      λ x. (
        λ m.
            at_member (Reaches nodes start) x seen
              (collect_sound nodes start (suc (length deps + edges nodes)) (reverse deps) [] seen
                waiting tt e)
              m,
        λ r. reached_in nodes start seen x c a r,
      ),
    )
  where
    roots : Closed nodes [] (reverse (dependencies (node start nodes))) start
    roots y (n, here, dep, k) = rw here (contains-reverse y n.depends_on ∙ dep)

    go :
        (n : TaskNode)
        → node start nodes ≡ some n
        → (ds : List String) → All (λ d. contains d n.depends_on ≡ true) ds
        → All (Waiting nodes start) ds
    go n here [] h = tt
    go n here (d ∷ ds) h = ((λ k. direct (n, here, h.0, k)), go n here ds h.1)

    waiting_of :
        (o : Option TaskNode) → node start nodes ≡ o → All (Waiting nodes start) (dependencies o)
    waiting_of none e = tt
    waiting_of (some n) e = go n e n.depends_on (All-contains n.depends_on)

    waiting : All (Waiting nodes start) (reverse (dependencies (node start nodes)))
    waiting =
        All-reverse (Waiting nodes start) (dependencies (node start nodes))
          (waiting_of (node start nodes) refl)
