-- ===== src/Decompose/Ranks.antt =====
-- src/hca/decompose.py: the place of a task in a topological order as a rank.
use hermes_concurrent_agents.Common.{
  ℕ, suc, ◌<◌, String, ◌≡◌, refl, subst, ◌↔◌, inl, inr, true, false, some, List, [], ◌∷◌, ◌++◌,
  arith, eq_iff, if◌then◌else◌, ◌==◌, nat_eq, string_eq, Bool-cases, length, All, All-map, All-both,
  contains,
}
use hermes_concurrent_agents.Decompose.{TaskNode, ids, topo_order}
use hermes_concurrent_agents.Common.Counting.{nodup, contains-append}
use hermes_concurrent_agents.Decompose.Rows.{falls}
use hermes_concurrent_agents.Decompose.Order.{DepsSeen, IsTopological}
use hermes_concurrent_agents.Decompose.Topological.{topo_order_sound}
use mathlib.Core.List.{append_assoc}
use hermes_concurrent_agents.Decompose.Cycles.{KnownOnce, Falls, topo_order_complete, All-once}

place : String → List String → ℕ
place x [] = 0
place x (y ∷ ys) = if y == x then 0 else suc (place x ys)

place_seen :
    (x : String) (seen ys : List String)
    → contains x seen ≡ true
    → place x (seen ++ ys) < length seen
unfolding place
place_seen x [] ys h = cc
place_seen x (y ∷ seen) ys h = ground (arith, place_seen x seen ys)

place_new :
    (x : String) (seen ys : List String)
    → contains x seen ≡ false
    → place x (seen ++ x ∷ ys) ≡ length seen
unfolding place
place_new x [] ys h = ground (arith, eq_iff x x)
place_new x (y ∷ seen) ys h = ground (arith, place_new x seen ys)

new_in_nodup :
    (x : String) (seen ys : List String) → nodup (seen ++ x ∷ ys) ≡ true → contains x seen ≡ false
new_in_nodup x [] ys h = refl
new_in_nodup x (y ∷ seen) ys h =
    ground (arith, contains-append y seen (x ∷ ys), eq_iff x y, eq_iff y x, new_in_nodup x seen ys)

module _ (nodes : List TaskNode) where
  Placed : List String → List String → TaskNode → Type 0
  Placed seen xs n = contains n.id xs ≡ true → Falls (ids nodes) (λ d. place d (seen ++ xs)) n

  place_head :
      (seen : List String) (x : String) (xs : List String) (n : TaskNode)
      → nodup (seen ++ x ∷ xs) ≡ true
      → n.id ≡ x
      → DepsSeen (ids nodes) seen n
      → Falls (ids nodes) (λ d. place d (seen ++ x ∷ xs)) n
  place_head seen x xs n nd e deps =
      All-map
        {Q = λ d.
          contains d (ids nodes) ≡ true → place d (seen ++ x ∷ xs) < place n.id (seen ++ x ∷ xs)}
        (λ d (g : contains d (ids nodes) ≡ true → contains d seen ≡ true) c.
          rw (e, place_new x seen xs (new_in_nodup x seen xs nd))
            (place_seen d seen (x ∷ xs) (g c)))
        n.depends_on deps

  places :
      (seen xs : List String)
      → IsTopological nodes seen xs
      → nodup (seen ++ xs) ≡ true
      → All (Placed seen xs) nodes
  unfolding Placed
  places seen [] t nd = none_placed nodes
    where
      none_placed : (ns : List TaskNode) → All (Placed seen []) ns
      none_placed [] = tt
      none_placed (n ∷ ns) = (λ h. cc, none_placed ns)
  places seen (x ∷ xs) t nd =
      let again : (seen ++ x ∷ []) ++ xs ≡ seen ++ x ∷ xs = append_assoc seen (x ∷ []) xs in
      All-map {Q = Placed seen (x ∷ xs)}
        (λ n h c. elim (Bool-cases (n.id == x)) [
          | inl mine ↦
              place_head seen x xs n nd ((eq_iff n.id x).0 mine) (h.0 ((eq_iff n.id x).0 mine))
          | inr other ↦
              subst (λ zs. Falls (ids nodes) (λ d. place d zs) n) again
                (h.1 (ground (arith, eq_iff x n.id, eq_iff n.id x)))
        ])
        nodes
        (All-both (λ n. n.id ≡ x → DepsSeen (ids nodes) seen n) (Placed (seen ++ x ∷ []) xs) nodes
          t.0 (places (seen ++ x ∷ []) xs t.1 (rw again nd)))

-- A graph has no cycle: its known dependencies fall in some rank.
abbrev pub IsAcyclic : List TaskNode → Type 0
IsAcyclic nodes = (rank : String → ℕ) × All (Falls (ids nodes) rank) nodes

order_IsAcyclic :
    (nodes : List TaskNode) (order : List String)
    → nodup (ids nodes) ≡ true
    → topo_order nodes ≡ some order
    → IsAcyclic nodes
unfolding Placed
order_IsAcyclic nodes order n h =
    let (once, _, out, t) = topo_order_sound nodes n order h in
    (
      (λ d. place d order),
      All-map (λ m (g : Placed nodes [] order m × (contains m.id order ≡ true)). g.0 g.1) nodes
          (All-both (Placed nodes [] order) (λ m. contains m.id order ≡ true) nodes
            (places nodes [] order t once) (ids_All nodes out)),
    )
  where
    ids_All :
        (ns : List TaskNode)
        → All (λ x. contains x order ≡ true) (ids ns)
        → All (λ m. contains m.id order ≡ true) ns
    ids_All [] h = tt
    ids_All (m ∷ ns) h = (h.0, ids_All ns h.1)

-- With distinct identifiers, an order is found exactly if the graph has no cycle and no task lists the
-- same dependency in the graph twice.
pub topo_order_iff :
    (nodes : List TaskNode)
    → nodup (ids nodes) ≡ true
    → ((order : List String) × (topo_order nodes ≡ some order))
      ↔ (IsAcyclic nodes × All (KnownOnce (ids nodes)) nodes)
topo_order_iff nodes n = (
  λ (order, h). (order_IsAcyclic nodes order n h, All-once nodes n order h),
  λ ((rank, falls), once). topo_order_complete nodes rank n once falls,
)
