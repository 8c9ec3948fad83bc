-- ===== src/Decision/Batching.antt =====
-- `batch_size` and `batch_cost` of decision.py.
use vh26_crackers.Base.{
  ◌+◌, ◌≡◌, true, ℤ, pos, le_ℤ, Floats, IsFloat, ◌≼◌, arith, sub_ℕ, pos_part, neg_part,
}
use vh26_crackers.Decision.{batch_size, min_ℤ, max_ℤ}

module _ {F : Type 0} ⦃fl : Floats F⦄ where
  -- For bounds in order, the batch size lies between b_min and b_max at every pressure.
  pub batch_size_bounds :
      (p : F) (b_min b_max : ℤ)
      → le_ℤ b_min b_max ≡ true
      → (le_ℤ b_min (batch_size p b_min b_max) ≡ true)
        × (le_ℤ (batch_size p b_min b_max) b_max ≡ true)
  unfolding batch_size
  batch_size_bounds p b_min b_max h = ground arith

clamp_mono :
    (lo hi a b : ℤ) → le_ℤ a b ≡ true → le_ℤ (max_ℤ lo (min_ℤ hi a)) (max_ℤ lo (min_ℤ hi b)) ≡ true
clamp_mono lo hi a b h = ground arith

width_nonneg :
    (a b : ℤ)
    → le_ℤ a b ≡ true
    → le_ℤ (pos 0) (sub_ℕ (pos_part b + neg_part a) (neg_part b + pos_part a)) ≡ true
width_nonneg a b h = ground arith

module _ {F : Type 0} ⦃fl : Floats F⦄ ⦃ops : IsFloat F⦄ where
  -- For bounds in order, a pressure that is no lower gives a batch that is no smaller.
  pub batch_size_mono :
      (p q : F) (b_min b_max : ℤ)
      → le_ℤ b_min b_max ≡ true
      → p ≼ q
      → le_ℤ (batch_size p b_min b_max) (batch_size q b_min b_max) ≡ true
  unfolding batch_size
  batch_size_mono p q b_min b_max h k = clamp_mono b_min b_max _ _ (
      ops.round_mono _ _ (
        ops.add_mono _ _ _ _ (ops.le_refl _) (
          ops.mul_mono _ p q
            (rw (← ops.int_lit 0) (ops.int_mono (pos 0) _ (width_nonneg b_min b_max h))) k)))
