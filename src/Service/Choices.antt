-- ===== src/Service/Choices.antt =====
-- src/hca/service.py: rules for the steps of a method that choose between actions.
use hermes_concurrent_agents.Common.{
  Bool, true, false, Option, none, some, if◌then◌else◌, nat_eq, string_eq,
}
use hermes_concurrent_agents.Run.State.{run_state_eq}
use hermes_concurrent_agents.Service.Effects.{Exit, World, Action, lift}
use hermes_concurrent_agents.Service.Writes.{Reached, Reached-refl, Lawful}

module _ {ℓ} {A : Type ℓ} where
  pub Lawful-if :
      (b : World → Bool) (m n : Action A)
      → Lawful m
      → Lawful n
      → Lawful (λ w. if b w then m w else n w)
  Lawful-if b m n p q w = go (b w)
    where
      go : (c : Bool) → Reached w.store (if c then m w else n w).1.store
      go true = p w
      go false = q w

  pub Lawful-either :
      (b : Bool) (m n : Action A) → Lawful m → Lawful n → Lawful (if b then m else n)
  Lawful-either true m n p q = p
  Lawful-either false m n p q = q

  pub Lawful-option {κ} :
      {B : Type κ} (o : World → Option B) (m : Action A) (f : B → Action A)
      → Lawful m
      → ((b : B) → Lawful (f b))
      → Lawful {A = A} (λ w. elim (o w) [ none ↦ m w | some b ↦ f b w ])
  Lawful-option {B = B} o m f p q w = go (o w)
    where
      go :
          (x : Option B)
          → Reached w.store
              (elim x as (λ _. Exit A × World) [ none ↦ m w | some b ↦ f b w ]).1.store
      go none = p w
      go (some b) = q b w

  -- An action that chooses by the store what to do.
  pub Lawful-by {κ} :
      {B : Type κ} (o : World → B) (f : B → Action A)
      → ((b : B) → Lawful (f b))
      → Lawful (λ w. f (o w) w)
  Lawful-by o f q w = q (o w) w

  pub Lawful-exit : (e : Exit A) → Lawful (lift e)
  Lawful-exit e w = Reached-refl w.store
