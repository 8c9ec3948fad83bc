-- ===== src/Base/Order.antt =====
-- Orders of floats, and the laws of `min` and `max`.
use mathlib.Core.Path.{◌≡◌}
use mathlib.Core.Bool.{true, false}
use native.Mathlib.Omega.{arith}
use vh26_crackers.Base.Float.{Floats, IsFloat, ◌≤?◌, ◌<?◌, fmin, fmax}

module _ {F : Type 0} ⦃fl : Floats F⦄ where
  infix 4 ◌≼◌ ◌≺◌
  abbrev pub ◌≼◌ : F → F → Type 0
  a ≼ b = (a ≤? b) ≡ true

  abbrev pub ◌≺◌ : F → F → Type 0
  a ≺ b = (a <? b) ≡ true

module _ {F : Type 0} ⦃fl : Floats F⦄ ⦃ops : IsFloat F⦄ where
  pub le_of_lt : (a b : F) → a ≺ b → a ≼ b
  le_of_lt a b h = ground (arith, ops.le_total a b)

  -- not less is at least
  pub le_of_not-lt : (a b : F) → (a <? b) ≡ false → b ≼ a
  le_of_not-lt a b h = ground arith

  pub lt_of_lt-le : (a b c : F) → a ≺ b → b ≼ c → a ≺ c
  lt_of_lt-le a b c h k = ground (arith, ops.le_trans b c a)

  pub lt_of_le-lt : (a b c : F) → a ≼ b → b ≺ c → a ≺ c
  lt_of_le-lt a b c h k = ground (arith, ops.le_trans c a b)

  pub fmin-le_left : (a b : F) → fmin a b ≼ a
  unfolding fmin
  fmin-le_left a b = ground (arith, ops.le_refl a, le_of_lt b a)

  pub fmin-le_right : (a b : F) → fmin a b ≼ b
  unfolding fmin
  fmin-le_right a b = ground (arith, ops.le_refl b)

  pub le-fmin : (a b c : F) → c ≼ a → c ≼ b → c ≼ fmin a b
  unfolding fmin
  le-fmin a b c h k = ground arith

  pub lt-fmin : (a b c : F) → c ≺ a → c ≺ b → c ≺ fmin a b
  unfolding fmin
  lt-fmin a b c h k = ground arith

  pub le_fmax_left : (a b : F) → a ≼ fmax a b
  unfolding fmax
  le_fmax_left a b = ground (arith, ops.le_refl a, le_of_lt a b)

  pub le_fmax_right : (a b : F) → b ≼ fmax a b
  unfolding fmax
  le_fmax_right a b = ground (arith, ops.le_refl b)

  pub fmax-le : (a b c : F) → a ≼ c → b ≼ c → fmax a b ≼ c
  unfolding fmax
  fmax-le a b c h k = ground arith
