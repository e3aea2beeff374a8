-- ===== src/Routing/Refusals.antt =====
-- src/hca/routing.py: the tasks that are not assigned.
use hermes_concurrent_agents.Common.{
  ℕ, String, ◌≡◌, refl, sym, subst, ◌∙◌, inl, inr, Bool, true, false, not, Option, none, some, List,
  [], ◌∷◌, arith, ◌==◌, nat_eq, string_eq, Bool-cases, is_nil, filter, find?, contains,
}
use hermes_concurrent_agents.Common.Words.{codes_eq}
use hermes_concurrent_agents.StateDb.{StateDb}
use hermes_concurrent_agents.Routing.{
  FleetConfig, Kind, planner, worker, reviewer, same_kind, SlotIdentity, concrete_slots,
  slots_of_kind, resolve_role_hint, busy, Routed, eligible_worker_pool, first_free, route_task,
}
use hermes_concurrent_agents.Routing.Booking.{
  profile_of, IsMember, Fits, searched, routed_to, route_task-known, route_task-unknown,
}

IsMember-kept :
    (p : SlotIdentity → Bool) (xs : List SlotIdentity) (s : SlotIdentity)
    → p s ≡ true
    → IsMember s xs
    → IsMember s (filter p xs)
IsMember-kept p [] s h m = m
IsMember-kept p (x ∷ xs) s h (inl same) = rw (subst (λ y. p y ≡ true) (sym same) h) (inl same)
IsMember-kept p (x ∷ xs) s h (inr m) = elim (Bool-cases (p x)) [
  | inl hit ↦ rw hit (inr (IsMember-kept p xs s h m))
  | inr miss ↦ rw miss (IsMember-kept p xs s h m)
]

find?-none :
    (p : SlotIdentity → Bool) (xs : List SlotIdentity) (s : SlotIdentity)
    → find? p xs ≡ none
    → IsMember s xs
    → p s ≡ false
find?-none p [] s h m = elim m [ ]
find?-none p (x ∷ xs) s h (inl same) = subst (λ y. p y ≡ false) same (ground arith)
find?-none p (x ∷ xs) s h (inr m) = find?-none p xs s (ground arith) m

kind_refl : (k : Kind) → same_kind k k ≡ true
kind_refl planner = refl
kind_refl worker = refl
kind_refl reviewer = refl

some_eq : {a b : List ℕ} → some a ≡ some b → a ≡ b
some_eq {a} {b} e = cc

abbrev absurd {ℓ} : {A : Type ℓ} → ⊥ → A
absurd b = elim b [ ]

unroled : (r : List ℕ) → [] ≡ r → is_nil r ≡ false → ⊥
unroled [] e n = cc
unroled (c ∷ cs) e n = cc

no_member : (xs : List SlotIdentity) (s : SlotIdentity) → is_nil xs ≡ true → IsMember s xs → ⊥
no_member [] s n m = m
no_member (x ∷ xs) s n m = cc

pool_of-Fits :
    (cfg : FleetConfig) (hint : Option (List ℕ)) (role : List ℕ) (s : SlotIdentity)
    → resolve_role_hint hint ≡ some role
    → Fits hint s
    → IsMember s (concrete_slots cfg)
    → IsMember s (eligible_worker_pool cfg role)
unfolding eligible_worker_pool slots_of_kind
pool_of-Fits cfg hint [] s e (inl f) m =
    IsMember-kept (λ x. same_kind x.kind worker) (concrete_slots cfg) s
      (subst (λ k. same_kind k worker ≡ true) (sym f.1) refl) m
pool_of-Fits cfg hint (c ∷ cs) s e (inl f) m =
    let bad : c ∷ cs ≡ [] = some_eq (sym e ∙ f.0) in absurd (cc)
pool_of-Fits cfg hint [] s e (inr f) m =
    let bad : [] ≡ s.role = some_eq (sym e ∙ f.0) in absurd (unroled s.role bad f.1)
pool_of-Fits cfg hint (c ∷ cs) s e (inr f) m =
    IsMember-kept (λ x. x.role == c ∷ cs) (concrete_slots cfg) s
      ((codes_eq.same_iff s.role (c ∷ cs)).1 (sym (some_eq (sym e ∙ f.0)))) m

unnamed :
    (hint : Option (List ℕ)) (s : SlotIdentity) → resolve_role_hint hint ≡ none → Fits hint s → ⊥
unnamed hint s e (inl f) = cc
unnamed hint s e (inr f) = cc

abbrev Refused :
    FleetConfig → StateDb → List (List ℕ) → Option (List ℕ) → Routed × List (List ℕ) → Type 0
Refused cfg db reserved hint out =
    profile_of out.0 ≡ none
    → (out.1 ≡ reserved)
      × ((s : SlotIdentity)
          → Fits hint s
          → IsMember s (concrete_slots cfg)
          → contains s.profile (busy db reserved) ≡ true)

pub route_task_unassigned :
    (cfg : FleetConfig) (db : StateDb) (reserved : List (List ℕ)) (task_id : String)
    (hint : Option (List ℕ))
    → profile_of (route_task cfg db reserved task_id hint).0 ≡ none
    → ((route_task cfg db reserved task_id hint).1 ≡ reserved)
      × ((s : SlotIdentity)
          → Fits hint s
          → IsMember s (concrete_slots cfg)
          → contains s.profile (busy db reserved) ≡ true)
route_task_unassigned cfg db reserved task_id hint = resolved (resolve_role_hint hint) refl
  where
    of_pool :
        (role : List ℕ)
        → resolve_role_hint hint ≡ some role
        → (o : Option SlotIdentity)
        → first_free (busy db reserved) (eligible_worker_pool cfg role) ≡ o
        → Refused cfg db reserved hint
            (routed_to reserved task_id hint role (eligible_worker_pool cfg role) o)
    of_pool role e (some slot) f h = cc
    of_pool role e none f h = (
      refl,
      λ s fits m.
          unfold first_free in
          ground (
            arith,
            find?-none (λ x. not (contains x.profile (busy db reserved)))
                (eligible_worker_pool cfg role) s f (pool_of-Fits cfg hint role s e fits m),
          ),
    )

    of_search :
        (role : List ℕ)
        → resolve_role_hint hint ≡ some role
        → (b : Bool) → is_nil (eligible_worker_pool cfg role) ≡ b
        → Refused cfg db reserved hint (searched cfg db reserved task_id hint role b)
    of_search role e false n h =
        of_pool role e (first_free (busy db reserved) (eligible_worker_pool cfg role)) refl h
    of_search role e true n h = (
      refl,
      λ s fits m.
          absurd
            (no_member (eligible_worker_pool cfg role) s n (pool_of-Fits cfg hint role s e fits m)),
    )

    resolved :
        (o : Option (List ℕ))
        → resolve_role_hint hint ≡ o
        → Refused cfg db reserved hint (route_task cfg db reserved task_id hint)
    resolved none e =
        subst (λ out. Refused cfg db reserved hint out)
          (sym (route_task-unknown cfg db reserved task_id hint e))
          (λ h. (refl, λ s fits m. absurd (unnamed hint s e fits)))
    resolved (some role) e =
        subst (λ out. Refused cfg db reserved hint out)
          (sym (route_task-known cfg db reserved task_id hint role e))
          (of_search role e (is_nil (eligible_worker_pool cfg role)) refl)

-- A task that is not assigned leaves the reservations as they are, and then a configured slot that
-- fits its hint holds a live run or is reserved.
pub route_task-refuses :
    (cfg : FleetConfig) (db : StateDb) (reserved : List (List ℕ)) (task_id : String)
    (hint : Option (List ℕ)) (s : SlotIdentity)
    → profile_of (route_task cfg db reserved task_id hint).0 ≡ none
    → Fits hint s
    → IsMember s (concrete_slots cfg)
    → ((route_task cfg db reserved task_id hint).1 ≡ reserved)
      × (contains s.profile (busy db reserved) ≡ true)
route_task-refuses cfg db reserved task_id hint s h fits m =
    let all = route_task_unassigned cfg db reserved task_id hint h in (all.0, all.1 s fits m)
