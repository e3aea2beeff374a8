-- ===== src/Service/Gates.antt =====
-- src/hca/service.py: chains of checks on a submission.
use hermes_concurrent_agents.Common.{
  ◌≡◌, refl, ◌≢◌, ◌⊎◌, inl, inr, Bool, true, false, Option, arith, if◌then◌else◌, nat_eq, string_eq,
}
use hermes_concurrent_agents.Run.Spec.{RunBudgets}
use hermes_concurrent_agents.Run.Store.{RunProjection}
use hermes_concurrent_agents.Team.{TeamSpec}
use hermes_concurrent_agents.Service.Results.{ServiceResult, Report}
use hermes_concurrent_agents.Service.Submit.{Admission, refused, replayed, admitted}

pub admitted_inj :
    (t team : TeamSpec) (b budgets : RunBudgets)
    → admitted t b ≡ admitted team budgets
    → (t ≡ team) × (b ≡ budgets)
admitted_inj t team b budgets e = (cc, cc)

pub refused_apart :
    (r : ServiceResult) (team : TeamSpec) (budgets : RunBudgets) → refused r ≢ admitted team budgets
refused_apart r team budgets e = ground arith

pub replayed_apart :
    (p : RunProjection) (m : Option Report) (team : TeamSpec) (budgets : RunBudgets)
    → replayed p m ≢ admitted team budgets
replayed_apart p m team budgets e = ground arith

-- The answers of the checks in a chain that ends in an admission.
pub gates-into :
    (b c d e k : Bool) (r r' r'' : ServiceResult) (m x y : Admission) (team : TeamSpec)
    (budgets : RunBudgets)
    → m ≢ admitted team budgets
    → (if b
        then refused r
        else if c
        then m
        else if d
        then refused r'
        else if e
        then refused r''
        else if k
        then x
        else y)
      ≡ admitted team budgets
    → (b ≡ false)
      × (c ≡ false)
      × (d ≡ false)
      × (e ≡ false)
      × (((k ≡ true) × (x ≡ admitted team budgets)) ⊎ ((k ≡ false) × (y ≡ admitted team budgets)))
gates-into true c d e k r r' r'' m x y team budgets n h = absurd (refused_apart r team budgets h)
gates-into false true d e k r r' r'' m x y team budgets n h = absurd (n h)
gates-into false false true e k r r' r'' m x y team budgets n h =
    absurd (refused_apart r' team budgets h)
gates-into false false false true k r r' r'' m x y team budgets n h =
    absurd (refused_apart r'' team budgets h)
gates-into false false false false true r r' r'' m x y team budgets n h =
    (refl, refl, refl, refl, inl (refl, h))
gates-into false false false false false r r' r'' m x y team budgets n h =
    (refl, refl, refl, refl, inr (refl, h))
