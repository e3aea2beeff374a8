-- ===== src/Routing/Tick.antt =====
-- src/hca/routing.py: the tasks of a whole tick.
use hermes_concurrent_agents.Common.{
  ℕ, String, ◌≡◌, refl, subst, ◌⊎◌, inl, inr, true, false, ◌||◌, Option, none, some, List, [], ◌∷◌,
  map, arith, ◌==◌, nat_eq, string_eq, Bool-cases, All, All-map, contains,
}
use hermes_concurrent_agents.Common.Words.{codes, codes_eq}
use hermes_concurrent_agents.Common.Counting.{nodup}
use hermes_concurrent_agents.StateDb.{StateDb, list_runs}
use hermes_concurrent_agents.Routing.{FleetConfig, busy, reserve, Routed, route_task}
use hermes_concurrent_agents.Common.Counting.{contains-append}
use hermes_concurrent_agents.Routing.Booking.{profile_of, route_task-books}
use hermes_concurrent_agents.Routing.Refusals.{route_task_unassigned}

abbrev pub with_profile : Option (List ℕ) → List (List ℕ) → List (List ℕ)
with_profile none ps = ps
with_profile (some p) ps = p ∷ ps

-- The profiles that the tasks of a tick are assigned to, in order.
unfoldable pub booked :
    FleetConfig → StateDb → List (List ℕ) → List (String × Option (List ℕ)) → List (List ℕ)
unfolding route_task
booked cfg db reserved [] = []
booked cfg db reserved (t ∷ ts) =
    let out = route_task cfg db reserved t.0 t.1 in
    with_profile (profile_of out.0) (booked cfg db out.1 ts)

pub contains-reserve :
    (p q : List ℕ) (reserved : List (List ℕ))
    → contains q (reserve p reserved) ≡ (p == q || contains q reserved)
unfolding reserve
contains-reserve p q reserved = elim (Bool-cases (contains p reserved)) [
  | inr fresh ↦ rw fresh refl
  | inl held ↦ rw held (known (Bool-cases (p == q)) held)
]
  where
    known :
        (((p == q) ≡ true) ⊎ ((p == q) ≡ false))
        → contains p reserved ≡ true
        → contains q reserved ≡ (p == q || contains q reserved)
    known (inl same) held =
        rw same (subst (λ x. contains x reserved ≡ true) ((codes_eq.same_iff p q).0 same) held)
    known (inr apart) held = rw apart refl

contains-busy :
    (db : StateDb) (reserved : List (List ℕ)) (q : List ℕ)
    → contains q (busy db reserved) ≡ (
        contains q (map (λ r. codes r.slot) (list_runs db (some "running"))) || contains q reserved)
unfolding busy
contains-busy db reserved q =
    contains-append q (map (λ r. codes r.slot) (list_runs db (some "running"))) reserved

busy_after :
    (db : StateDb) (reserved : List (List ℕ)) (p q : List ℕ)
    → contains q (busy db (reserve p reserved)) ≡ false
    → (contains q (busy db reserved) ≡ false) × ((p == q) ≡ false)
busy_after db reserved p q h = ground (
  arith,
  contains-busy db (reserve p reserved) q,
  contains-busy db reserved q,
  contains-reserve p q reserved,
)

absent_of_apart :
    (p : List ℕ) (qs : List (List ℕ)) → All (λ q. (p == q) ≡ false) qs → contains p qs ≡ false
absent_of_apart p [] h = refl
absent_of_apart p (q ∷ qs) h =
    ground (arith, codes_eq.same_iff p q, codes_eq.same_iff q p, absent_of_apart p qs h.1)

-- The profiles of a tick: none twice, none busy before.
abbrev AreBooked : StateDb → List (List ℕ) → List (List ℕ) → Type 0
AreBooked db reserved ps = (nodup ps ≡ true) × All (λ p. contains p (busy db reserved) ≡ false) ps

cons-AreBooked :
    (db : StateDb) (reserved : List (List ℕ)) (p : List ℕ) (ps : List (List ℕ))
    → contains p (busy db reserved) ≡ false
    → AreBooked db (reserve p reserved) ps
    → AreBooked db reserved (p ∷ ps)
cons-AreBooked db reserved p ps free later =
    let after =
      All-map {Q = λ q. (contains q (busy db reserved) ≡ false) × ((p == q) ≡ false)}
        (λ q h. busy_after db reserved p q h) ps later.1 in
    (
      ground (
        arith,
        absent_of_apart p ps (All-map {Q = λ q. (p == q) ≡ false} (λ q h. h.1) ps after),
        later.0,
      ),
      (free, All-map {Q = λ q. contains q (busy db reserved) ≡ false} (λ q h. h.0) ps after),
    )

routed-AreBooked :
    (db : StateDb) (reserved : List (List ℕ)) (out : Routed × List (List ℕ)) (rest : List (List ℕ))
    (o : Option (List ℕ))
    → profile_of out.0 ≡ o
    → ((p : List ℕ)
        → profile_of out.0 ≡ some p
        → (contains p (busy db reserved) ≡ false) × (out.1 ≡ reserve p reserved))
    → (profile_of out.0 ≡ none → out.1 ≡ reserved)
    → AreBooked db out.1 rest
    → AreBooked db reserved (with_profile o rest)
routed-AreBooked db reserved out rest none e books same later =
    subst (λ rs. AreBooked db rs rest) (same e) later
routed-AreBooked db reserved out rest (some p) e books same later =
    cons-AreBooked db reserved p rest (books p e).0
      (subst (λ rs. AreBooked db rs rest) (books p e).1 later)

-- However many tasks are routed one after the other in a tick, no slot is assigned twice, and none
-- that holds a live run or was reserved before.
pub no_double_booking :
    (cfg : FleetConfig) (db : StateDb) (reserved : List (List ℕ))
    (tasks : List (String × Option (List ℕ)))
    → (nodup (booked cfg db reserved tasks) ≡ true)
      × All (λ p. contains p (busy db reserved) ≡ false) (booked cfg db reserved tasks)
unfolding booked
no_double_booking cfg db reserved [] = (refl, tt)
no_double_booking cfg db reserved (t ∷ ts) =
    routed-AreBooked db reserved (route_task cfg db reserved t.0 t.1)
      (booked cfg db (route_task cfg db reserved t.0 t.1).1 ts)
      (profile_of (route_task cfg db reserved t.0 t.1).0) refl
      (λ p h. (route_task-books cfg db reserved t.0 t.1 p h).1)
      (λ h. (route_task_unassigned cfg db reserved t.0 t.1 h).0)
      (no_double_booking cfg db (route_task cfg db reserved t.0 t.1).1 ts)
