-- ===== src/Costmodel/Learning.antt =====
-- What the cost model learns from an observation, and what it forgets.
use vh26_crackers.Base.{
  ℕ, ◌≡◌, refl, Bool, true, false, ◌&&◌, ℤ, pos, le_ℤ, eq_ℤ, List, [], ◌∷◌, Floats, arith,
}
use vh26_crackers.Contracts.{EventType}
use vh26_crackers.Costmodel.{CostModel, reset, bucket_of, observe, blend, estimate, same_type}

-- One call of `observe`.
pub record Observation (F : Type 0) : Type 0 where
  pub type : EventType
  pub payload_size : ℕ
  pub cost : F

module _ {F : Type 0} ⦃fl : Floats F⦄ (trunc : F → ℤ) where
  -- The bucket of every payload size lies between 0 and 3, whatever the truncation of floats
  -- gives.
  pub bucket_of_bounds :
      (t : EventType) (size : ℕ)
      → (le_ℤ (pos 0) (bucket_of trunc t size) ≡ true)
        × (le_ℤ (bucket_of trunc t size) (pos 3) ≡ true)
  unfolding bucket_of
  bucket_of_bounds t size = ground arith

  abbrev pub same_bucket : EventType → ℕ → EventType → ℕ → Bool
  same_bucket t size u other =
      same_type t u && eq_ℤ (bucket_of trunc t size) (bucket_of trunc u other)

  -- An observation does not change the estimate of a payload of another type or in another
  -- bucket.
  pub observe_local :
      (alpha : F) (m : CostModel F) (t u : EventType) (size other : ℕ) (cost : F)
      → same_bucket u other t size ≡ false
      → estimate trunc (observe trunc alpha m t size cost) u other ≡ estimate trunc m u other
  unfolding observe estimate
  observe_local alpha m t u size other cost h = ground (arith, h)

  unfoldable pub observe_all : F → CostModel F → List (Observation F) → CostModel F
  observe_all alpha m [] = m
  observe_all alpha m (o ∷ os) =
      observe_all alpha (observe trunc alpha m o.type o.payload_size o.cost) os

  config-observe_all :
      (alpha : F) (m : CostModel F) (os : List (Observation F))
      → (observe_all alpha m os).config ≡ m.config
  unfolding observe_all observe
  config-observe_all alpha m [] = refl
  config-observe_all alpha m (o ∷ os) =
      config-observe_all alpha (observe trunc alpha m o.type o.payload_size o.cost) os

  -- After any observations and a reset, every estimate is the prior of its type.
  pub estimate-reset :
      (alpha : F) (m : CostModel F) (os : List (Observation F)) (t : EventType) (size : ℕ)
      → estimate trunc (reset (observe_all alpha m os)) t size ≡ (m.config.tiers t).cost
  unfolding estimate reset blend
  estimate-reset alpha m os t size = rw (config-observe_all alpha m os) refl
