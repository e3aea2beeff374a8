-- ===== src/Routing/Booking.antt =====
-- src/hca/routing.py: the assignment of one task to a slot.
use hermes_concurrent_agents.Common.{
  ℕ, String, ◌≡◌, refl, sym, ap, subst, ◌∙◌, ◌⊎◌, inl, inr, Bool, true, false, not, Option, none,
  some, List, [], ◌∷◌, arith, if◌then◌else◌, ◌==◌, nat_eq, string_eq, Bool-cases, not-true, length,
  is_nil, filter, find?, contains,
}
use hermes_concurrent_agents.Common.Words.{codes, codes_eq}
use hermes_concurrent_agents.StateDb.{StateDb}
use hermes_concurrent_agents.Routing.{
  FleetConfig, Kind, planner, worker, reviewer, same_kind, SlotIdentity, concrete_slots,
  slots_of_kind, resolve_role_hint, busy, reserve, Routed, assignment, unknown_role, no_slot,
  all_busy, eligible_worker_pool, first_free, route_task, or_codes,
}

-- The profile that was assigned, if any.
abbrev pub profile_of : Routed → Option (List ℕ)
profile_of (assignment t p r k) = some p
profile_of (unknown_role t h) = none
profile_of (no_slot t h) = none
profile_of (all_busy t n h) = none

abbrev pub IsMember : SlotIdentity → List SlotIdentity → Type 0
IsMember s [] = ⊥
IsMember s (x ∷ xs) = (x ≡ s) ⊎ IsMember s xs

find?-sound :
    (p : SlotIdentity → Bool) (xs : List SlotIdentity) (s : SlotIdentity)
    → find? p xs ≡ some s
    → (p s ≡ true) × IsMember s xs
find?-sound p [] s h = cc
find?-sound p (x ∷ xs) s h = elim (Bool-cases (p x)) [
  | inl hit ↦ let same : x ≡ s = ground (arith, hit) in (subst (λ y. p y ≡ true) same hit, inl same)
  | inr miss ↦ let rest = find?-sound p xs s (ground (arith, miss)) in (rest.0, inr rest.1)
]

pub IsMember-filter :
    (p : SlotIdentity → Bool) (xs : List SlotIdentity) (s : SlotIdentity)
    → IsMember s (filter p xs)
    → (p s ≡ true) × IsMember s xs
IsMember-filter p [] s m = elim m [ ]
IsMember-filter p (x ∷ xs) s m = elim (Bool-cases (p x)) [
  | inl hit ↦ kept (IsMember-filter p xs s) hit (subst (λ ys. IsMember s ys) (kept_eq hit) m)
  | inr miss ↦
      let rest = IsMember-filter p xs s (subst (λ ys. IsMember s ys) (lost_eq miss) m) in
      (rest.0, inr rest.1)
]
  where
    kept_eq : p x ≡ true → filter p (x ∷ xs) ≡ x ∷ filter p xs
    kept_eq h = rw h refl

    lost_eq : p x ≡ false → filter p (x ∷ xs) ≡ filter p xs
    lost_eq h = rw h refl

    kept :
        (IsMember s (filter p xs) → (p s ≡ true) × IsMember s xs)
        → p x ≡ true
        → IsMember s (x ∷ filter p xs)
        → (p s ≡ true) × IsMember s (x ∷ xs)
    kept rest h (inl same) = (subst (λ y. p y ≡ true) same h, inl same)
    kept rest h (inr m') = let r = rest m' in (r.0, inr r.1)

-- A slot may run a task with the hint: it has the role that the hint names, or it is a worker where
-- the hint leaves the role open.
abbrev pub Fits : Option (List ℕ) → SlotIdentity → Type 0
Fits hint s =
    ((resolve_role_hint hint ≡ some []) × (s.kind ≡ worker))
    ⊎ ((resolve_role_hint hint ≡ some s.role) × (is_nil s.role ≡ false))

same_kind_eq : (k j : Kind) → same_kind k j ≡ true → k ≡ j
same_kind_eq planner planner h = refl
same_kind_eq worker worker h = refl
same_kind_eq reviewer reviewer h = refl
same_kind_eq planner worker h = cc
same_kind_eq planner reviewer h = cc
same_kind_eq worker planner h = cc
same_kind_eq worker reviewer h = cc
same_kind_eq reviewer planner h = cc
same_kind_eq reviewer worker h = cc

pool-Fits :
    (cfg : FleetConfig) (hint : Option (List ℕ)) (role : List ℕ) (s : SlotIdentity)
    → resolve_role_hint hint ≡ some role
    → IsMember s (eligible_worker_pool cfg role)
    → Fits hint s × IsMember s (concrete_slots cfg)
unfolding eligible_worker_pool slots_of_kind
pool-Fits cfg hint [] s e m =
    let f = IsMember-filter (λ x. same_kind x.kind worker) (concrete_slots cfg) s m in
    (inl (e, same_kind_eq s.kind worker f.0), f.1)
pool-Fits cfg hint (c ∷ cs) s e m =
    let f = IsMember-filter (λ x. x.role == c ∷ cs) (concrete_slots cfg) s m in
    let same = (codes_eq.same_iff s.role (c ∷ cs)).0 f.0 in
    (inr (e ∙ ap some (sym same), subst (λ r. is_nil r ≡ false) (sym same) refl), f.1)

-- The outcome of the search for a free slot, as `route_task` reads it.
abbrev pub routed_to :
    List (List ℕ)
    → String
    → Option (List ℕ)
    → List ℕ
    → List SlotIdentity
    → Option SlotIdentity
    → Routed × List (List ℕ)
routed_to reserved task_id hint role pool none = (all_busy task_id (length pool) hint, reserved)
routed_to reserved task_id hint role pool (some slot) = (
  assignment task_id slot.profile (or_codes role (codes "worker")) slot.kind,
  reserve slot.profile reserved,
)

-- What is said of an assignment: a free slot that fits, booked.
abbrev Booked :
    FleetConfig → StateDb → List (List ℕ) → Option (List ℕ) → Routed × List (List ℕ) → Type 0
Booked cfg db reserved hint out =
    (profile : List ℕ)
    → profile_of out.0 ≡ some profile
    → ((s : SlotIdentity) × ((s.profile ≡ profile)
          × (Fits hint s × IsMember s (concrete_slots cfg))))
      × ((contains profile (busy db reserved) ≡ false) × (out.1 ≡ reserve profile reserved))

routed_to-Booked :
    (cfg : FleetConfig) (db : StateDb) (reserved : List (List ℕ)) (task_id : String)
    (hint : Option (List ℕ)) (role : List ℕ) (o : Option SlotIdentity)
    → resolve_role_hint hint ≡ some role
    → first_free (busy db reserved) (eligible_worker_pool cfg role) ≡ o
    → Booked cfg db reserved hint
        (routed_to reserved task_id hint role (eligible_worker_pool cfg role) o)
unfolding first_free
routed_to-Booked cfg db reserved task_id hint role none e f = λ profile h. cc
routed_to-Booked cfg db reserved task_id hint role (some slot) e f = λ profile h.
    let found =
      find?-sound (λ s. not (contains s.profile (busy db reserved))) (eligible_worker_pool cfg role)
        slot f in
    let same : slot.profile ≡ profile = cc in
    (
      (slot, (same, pool-Fits cfg hint role slot e found.1)),
      (
        subst (λ q. contains q (busy db reserved) ≡ false) same (not-true found.0),
        ap (λ q. reserve q reserved) same,
      ),
    )

abbrev pub searched :
    FleetConfig
    → StateDb
    → List (List ℕ)
    → String
    → Option (List ℕ)
    → List ℕ
    → Bool
    → Routed × List (List ℕ)
searched cfg db reserved task_id hint role true = (no_slot task_id hint, reserved)
searched cfg db reserved task_id hint role false =
    routed_to reserved task_id hint role (eligible_worker_pool cfg role)
      (first_free (busy db reserved) (eligible_worker_pool cfg role))

pub route_task-known :
    (cfg : FleetConfig) (db : StateDb) (reserved : List (List ℕ)) (task_id : String)
    (hint : Option (List ℕ)) (role : List ℕ)
    → resolve_role_hint hint ≡ some role
    → route_task cfg db reserved task_id hint
      ≡ searched cfg db reserved task_id hint role (is_nil (eligible_worker_pool cfg role))
unfolding route_task
route_task-known cfg db reserved task_id hint role e =
    rw (e, route_task) (branches (is_nil (eligible_worker_pool cfg role)))
  where
    branches :
        (b : Bool)
        → (if b
            then (no_slot task_id hint, reserved)
            else routed_to reserved task_id hint role
                (eligible_worker_pool cfg role)
                (first_free (busy db reserved) (eligible_worker_pool cfg role)))
          ≡ searched cfg db reserved task_id hint role b
    branches true = refl
    branches false = refl

pub route_task-unknown :
    (cfg : FleetConfig) (db : StateDb) (reserved : List (List ℕ)) (task_id : String)
    (hint : Option (List ℕ))
    → resolve_role_hint hint ≡ none
    → route_task cfg db reserved task_id hint ≡ (unknown_role task_id hint, reserved)
unfolding route_task
route_task-unknown cfg db reserved task_id hint e = rw (e, route_task) refl

route_task-Booked :
    (cfg : FleetConfig) (db : StateDb) (reserved : List (List ℕ)) (task_id : String)
    (hint : Option (List ℕ))
    → Booked cfg db reserved hint (route_task cfg db reserved task_id hint)
unfolding route_task
route_task-Booked cfg db reserved task_id hint = resolved (resolve_role_hint hint) refl
  where
    found :
        (role : List ℕ)
        → resolve_role_hint hint ≡ some role
        → (b : Bool) → Booked cfg db reserved hint (searched cfg db reserved task_id hint role b)
    found role e true = λ profile h. cc
    found role e false =
        routed_to-Booked cfg db reserved task_id hint role
          (first_free (busy db reserved) (eligible_worker_pool cfg role)) e refl

    resolved :
        (o : Option (List ℕ))
        → resolve_role_hint hint ≡ o
        → Booked cfg db reserved hint (route_task cfg db reserved task_id hint)
    resolved none e =
        subst (λ out. Booked cfg db reserved hint out)
          (sym (route_task-unknown cfg db reserved task_id hint e)) (λ profile h. cc)
    resolved (some role) e =
        subst (λ out. Booked cfg db reserved hint out)
          (sym (route_task-known cfg db reserved task_id hint role e))
          (found role e (is_nil (eligible_worker_pool cfg role)))

-- A task that is assigned gets a configured slot that fits its hint and was not busy, and that slot
-- is then reserved.
pub route_task-books :
    (cfg : FleetConfig) (db : StateDb) (reserved : List (List ℕ)) (task_id : String)
    (hint : Option (List ℕ)) (profile : List ℕ)
    → profile_of (route_task cfg db reserved task_id hint).0 ≡ some profile
    → ((s : SlotIdentity) × ((s.profile ≡ profile)
          × (Fits hint s × IsMember s (concrete_slots cfg))))
      × ((contains profile (busy db reserved) ≡ false)
          × ((route_task cfg db reserved task_id hint).1 ≡ reserve profile reserved))
route_task-books cfg db reserved task_id hint = route_task-Booked cfg db reserved task_id hint
