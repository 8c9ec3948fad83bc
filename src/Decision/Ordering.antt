-- ===== src/Decision/Ordering.antt =====
-- `score` of decision.py as a function of time.
use vh26_crackers.Base.{
  Option, Floats, IsFloat, ◌⊘◌, of_int, fmax, ◌≼◌, ◌≺◌, le_fmax_left, le_fmax_right, fmax-le,
  lt_of_lt-le, arith,
}
use vh26_crackers.Contracts.{Event}
use vh26_crackers.Decision.{ScoreWeights, eps, slack, score, cost_or}

module _ {F : Type 0} ⦃fl : Floats F⦄ ⦃ops : IsFloat F⦄ where
  pub fmax_mono : (a b c : F) → a ≼ b → fmax a c ≼ fmax b c
  fmax_mono a b c h =
      fmax-le a c (fmax b c) (ops.le_trans a b _ h (le_fmax_left b c)) (le_fmax_right b c)

  -- a denominator floored at EPS is positive
  pub floored_pos : (a : F) → of_int 0 ≺ fmax a eps
  floored_pos a =
      lt_of_lt-le (of_int 0) eps (fmax a eps) (ops.lit_pos 1 6 (omega arith) (omega arith))
        (le_fmax_right a eps)

  pub div_floored_mono : (a b c : F) → a ≼ b → a ⊘ fmax c eps ≼ b ⊘ fmax c eps
  div_floored_mono a b c h = ops.div_mono a b (fmax c eps) (floored_pos c) h

  pub div_floored_anti : (a b c : F) → of_int 0 ≼ a → b ≼ c → a ⊘ fmax c eps ≼ a ⊘ fmax b eps
  div_floored_anti a b c h k =
      ops.div_anti a (fmax b eps) (fmax c eps) h (floored_pos b) (fmax_mono b c eps k)

  pub div_floored_nonneg : (a c : F) → of_int 0 ≼ a → of_int 0 ≼ a ⊘ fmax c eps
  div_floored_nonneg a c h = ops.div_nonneg a (fmax c eps) h (floored_pos c)

  -- Time only shortens the margin.
  pub slack_anti :
      (e : Event F) (now later capacity : F) (cost : Option F)
      → now ≼ later
      → slack e later capacity cost ≼ slack e now capacity cost
  unfolding slack
  slack_anti e now later capacity cost h =
      ops.sub_mono _ _ _ _ (ops.sub_mono _ _ _ _ (ops.le_refl _) h) (ops.le_refl _)

  -- The score of an event does not fall as time passes, if its value and both weights are not
  -- negative.
  pub score_mono :
      (e : Event F) (now later capacity : F) (w : ScoreWeights F) (cost : Option F)
      → of_int 0 ≼ e.value
      → of_int 0 ≼ w.w1
      → of_int 0 ≼ w.w2
      → now ≼ later
      → score e now capacity w cost ≼ score e later capacity w cost
  unfolding score
  score_mono e now later capacity w cost v p q h =
      ops.add_mono _ _ _ _
        (ops.mul_mono _ _ _ (ops.mul_nonneg _ _ p (div_floored_nonneg e.value (cost_or e cost) v)) (
          div_floored_anti (of_int 1) _ _ (ops.lit_mono 0 1 0 0 (omega arith))
            (slack_anti e now later capacity cost h)))
        (ops.mul_mono _ _ _ q
          (div_floored_mono _ _ _ (fmax_mono _ _ _ (ops.sub_mono _ _ _ _ h (ops.le_refl _)))))
