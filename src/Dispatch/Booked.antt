-- ===== src/Dispatch/Booked.antt =====
-- src/hca/kanban.py: what a reservation of slots for ready tasks keeps.
use hermes_concurrent_agents.Common.{
  ℕ, ◌+◌, ◌≤◌, ◌<◌, ◌≡◌, refl, subst, ◌⊎◌, inl, inr, true, false, ◌||◌, Option, none, some, List,
  [], ◌∷◌, ◌++◌, map, arith, ◌==◌, nat_eq, string_eq, Bool-cases, length, contains, All, All-append,
  length-append,
}
use hermes_concurrent_agents.Common.Words.{codes_eq}
use hermes_concurrent_agents.Common.Counting.{nodup, contains-append, one_if}
use hermes_concurrent_agents.StateDb.{StateDb}
use hermes_concurrent_agents.Routing.{concrete_slots, reserve}
use hermes_concurrent_agents.Routing.Tick.{contains-reserve}
use hermes_concurrent_agents.Dispatch.{
  DispatchConfig, Reserving, role_from_profile, lookup_count, count_role, at_cap,
}

nodup-snoc :
    (ps : List (List ℕ)) (a : List ℕ)
    → nodup ps ≡ true
    → contains a ps ≡ false
    → nodup (ps ++ a ∷ []) ≡ true
nodup-snoc [] a h k = refl
nodup-snoc (p ∷ ps) a h k = ground (
  arith,
  contains-append p ps (a ∷ []),
  codes_eq.same_iff a p,
  codes_eq.same_iff p a,
  nodup-snoc ps a,
)

count_role-snoc :
    (role : List ℕ) (ps : List (List ℕ)) (a : List ℕ)
    → count_role role (ps ++ a ∷ []) ≡ count_role role ps + one_if (role_from_profile a == role)
unfolding count_role
count_role-snoc role [] a = ground arith
count_role-snoc role (p ∷ ps) a = ground (arith, count_role-snoc role ps a)

below_cap : (o : Option ℕ) (cap n : ℕ) → o ≡ some cap → at_cap o n ≡ false → n < cap
unfolding at_cap
below_cap none cap n e h = ground arith
below_cap (some c) cap n e h = ground (arith, e)

-- The names of the configured slots.
abbrev pub slot_names : DispatchConfig → List (List ℕ)
slot_names cfg = map (λ s. s.profile) (concrete_slots cfg.fleet)

module _ (cfg : DispatchConfig) (limit : ℕ) (first before live : List (List ℕ)) where
  -- What holds of the slots reserved so far, if `first` were busy and `before` reserved at the start: no
  -- more than the limit, none twice, none busy, all configured, no role above its cap by them as `count`
  -- counts the names of a role, and these are the new reservations.
  pub record Booked (count : List ℕ → List (List ℕ) → ℕ) (t : Reserving) : Type 0 where
    pub within : length t.profiles ≤ limit
    pub distinct : nodup t.profiles ≡ true
    pub free : All (λ p. contains p first ≡ false) t.profiles
    pub configured : All (λ p. contains p (slot_names cfg) ≡ true) t.profiles
    pub caps :
        (role : List ℕ) (cap : ℕ)
        → lookup_count role cfg.per_role_caps ≡ some cap
        → (count role t.profiles ≡ 0) ⊎ (count role live + count role t.profiles ≤ cap)
    pub recorded :
        (q : List ℕ) → contains q t.reserved ≡ (contains q t.profiles || contains q before)
    pub held : (q : List ℕ) → contains q t.taken ≡ (contains q t.profiles || contains q first)

  pub Booked-book :
      (t : Reserving) (db : StateDb) (a : List ℕ)
      → Booked count_role t
      → length t.profiles < limit
      → contains a t.taken ≡ false
      → contains a (slot_names cfg) ≡ true
      → at_cap
          (lookup_count (role_from_profile a) cfg.per_role_caps)
          (count_role (role_from_profile a) live + count_role (role_from_profile a) t.profiles)
        ≡ false
      → Booked count_role (record {
        db = db;
        reserved = reserve a t.reserved;
        taken = a ∷ t.taken;
        profiles = t.profiles ++ a ∷ [];
      })
  unfolding at_cap
  Booked-book t db a good room idle known below = record {
    within = ground (arith, length-append t.profiles (a ∷ []), room);
    distinct = nodup-snoc t.profiles a good.distinct new;
    free = All-append (λ p. contains p first ≡ false) t.profiles (a ∷ []) good.free (unused, tt);
    configured =
        All-append (λ p. contains p (slot_names cfg) ≡ true) t.profiles (a ∷ []) good.configured
          (known, tt);
    caps = λ role cap e. capped role cap e (Bool-cases (role_from_profile a == role));
    recorded = λ q. ground (
      arith,
      good.recorded q,
      contains-reserve a q t.reserved,
      contains-append q t.profiles (a ∷ []),
      codes_eq.same_iff a q,
      codes_eq.same_iff q a,
    );
    held = λ q. ground (arith, good.held q, contains-append q t.profiles (a ∷ []));
  }
    where
      new : contains a t.profiles ≡ false
      new = ground (arith, good.held a, idle)

      unused : contains a first ≡ false
      unused = ground (arith, good.held a, idle)

      capped :
          (role : List ℕ) (cap : ℕ)
          → lookup_count role cfg.per_role_caps ≡ some cap
          → (((role_from_profile a == role) ≡ true) ⊎ ((role_from_profile a == role) ≡ false))
          → (count_role role (t.profiles ++ a ∷ []) ≡ 0)
            ⊎ (count_role role live + count_role role (t.profiles ++ a ∷ []) ≤ cap)
      capped role cap e (inl same) =
          let r : role_from_profile a ≡ role =
            (codes_eq.same_iff (role_from_profile a) role).0 same in
          let lower =
            below_cap (lookup_count role cfg.per_role_caps) cap
              (count_role role live + count_role role t.profiles) e
              (subst
                (λ x.
                  at_cap (lookup_count x cfg.per_role_caps)
                    (count_role x live + count_role x t.profiles)
                  ≡ false)
                r below) in
          inr (ground (arith, count_role-snoc role t.profiles a, lower, same))
      capped role cap e (inr other) =
          ground (arith, count_role-snoc role t.profiles a, good.caps role cap e, other)

  pub with_db :
      (t : Reserving) (db : StateDb)
      → Booked count_role t
      → Booked count_role (record t { db = db })
  with_db t db good = record {
    within = good.within;
    distinct = good.distinct;
    free = good.free;
    configured = good.configured;
    caps = good.caps;
    recorded = good.recorded;
    held = good.held;
  }
