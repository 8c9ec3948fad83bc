-- ===== src/Base/Float.antt =====
-- Python's `float`, as far as the program uses it: an interface, since antt has no floating point.
-- NaN is left out (no value of the program is one), so `<=` is total and `a < b` is `not (b <= a)`.
-- The laws are those of rounded arithmetic: order, signs and monotonicity, never exactness.
use Prim.Native.Nat.{ℕ, ◌*◌, ◌^◌, ◌≤◌, ◌<◌}
use mathlib.Core.Path.{◌≡◌}
use mathlib.Core.Logic.{◌⊎◌}
use mathlib.Core.Bool.{Bool, true, not}
use vh26_crackers.Base.Int.{ℤ, pos, le_ℤ}
use vh26_crackers.Base.Tests.{if◌then◌else◌}

pub record Floats (F : Type 0) : Type 0 where
  pub le : F → F → Bool
  pub plus : F → F → F
  pub minus : F → F → F
  pub times : F → F → F
  pub over : F → F → F
  -- `lit n d` is the decimal literal n / 10 ^ d
  pub lit : ℕ → ℕ → F
  -- an int used where a float stands, and `round(x)`
  pub int : ℤ → F
  pub round : F → ℤ
  -- `float("inf")`, which the program stores and never computes with
  pub inf : F

module _ {F : Type 0} ⦃fl : Floats F⦄ where
  infix 50 ◌≤?◌ ◌<?◌
  abbrev pub ◌≤?◌ : F → F → Bool
  a ≤? b = fl.le a b

  abbrev pub ◌<?◌ : F → F → Bool
  a <? b = not (fl.le b a)

  infixl 65 ◌⊕◌ ◌⊖◌
  infixl 70 ◌⊗◌ ◌⊘◌
  abbrev pub ◌⊕◌ : F → F → F
  a ⊕ b = fl.plus a b

  abbrev pub ◌⊖◌ : F → F → F
  a ⊖ b = fl.minus a b

  abbrev pub ◌⊗◌ : F → F → F
  a ⊗ b = fl.times a b

  abbrev pub ◌⊘◌ : F → F → F
  a ⊘ b = fl.over a b

  -- `float(n)` of a Python int, and the literal `0.0`
  abbrev pub of_int : ℕ → F
  of_int n = fl.lit n 0

  -- `min(a, b)` and `max(a, b)`: the first argument, unless the second is strictly better
  unfoldable pub fmin : F → F → F
  fmin a b = if b <? a then b else a

  unfoldable pub fmax : F → F → F
  fmax a b = if a <? b then b else a

pub record IsFloat (F : Type 0) ⦃fl : Floats F⦄ : Type 0 where
  pub le_refl : (a : F) → (a ≤? a) ≡ true
  pub le_trans : (a b c : F) → (a ≤? b) ≡ true → (b ≤? c) ≡ true → (a ≤? c) ≡ true
  pub le_total : (a b : F) → ((a ≤? b) ≡ true) ⊎ ((b ≤? a) ≡ true)
  pub lit_mono : (m n d e : ℕ) → m * 10 ^ e ≤ n * 10 ^ d → (fl.lit m d ≤? fl.lit n e) ≡ true
  pub add_nonneg : (a b : F) → (of_int 0 ≤? b) ≡ true → (a ≤? a ⊕ b) ≡ true
  pub add_mono : (a b c d : F) → (a ≤? b) ≡ true → (c ≤? d) ≡ true → (a ⊕ c ≤? b ⊕ d) ≡ true
  pub sub_nonneg : (a b : F) → (b ≤? a) ≡ true → (of_int 0 ≤? a ⊖ b) ≡ true
  pub sub-le : (a b : F) → (of_int 0 ≤? b) ≡ true → (a ⊖ b ≤? a) ≡ true
  pub sub_mono : (a b c d : F) → (a ≤? b) ≡ true → (d ≤? c) ≡ true → (a ⊖ c ≤? b ⊖ d) ≡ true
  pub mul_nonneg :
      (a b : F) → (of_int 0 ≤? a) ≡ true → (of_int 0 ≤? b) ≡ true → (of_int 0 ≤? a ⊗ b) ≡ true
  -- a factor of at most one shrinks
  pub mul-le : (a b : F) → (of_int 0 ≤? a) ≡ true → (b ≤? of_int 1) ≡ true → (a ⊗ b ≤? a) ≡ true
  pub mul_mono : (a b c : F) → (of_int 0 ≤? a) ≡ true → (b ≤? c) ≡ true → (a ⊗ b ≤? a ⊗ c) ≡ true
  pub div_nonneg :
      (a b : F) → (of_int 0 ≤? a) ≡ true → (of_int 0 <? b) ≡ true → (of_int 0 ≤? a ⊘ b) ≡ true
  pub div_mono : (a b c : F) → (of_int 0 <? c) ≡ true → (a ≤? b) ≡ true → (a ⊘ c ≤? b ⊘ c) ≡ true
  -- a larger divisor gives no more
  pub div_anti :
      (a b c : F)
      → (of_int 0 ≤? a) ≡ true
      → (of_int 0 <? b) ≡ true
      → (b ≤? c) ≡ true
      → (a ⊘ c ≤? a ⊘ b) ≡ true
  pub lit_pos : (n d : ℕ) → 0 < n → d ≤ 6 → (of_int 0 <? fl.lit n d) ≡ true
  pub int_lit : (n : ℕ) → fl.int (pos n) ≡ fl.lit n 0
  pub int_mono : (a b : ℤ) → le_ℤ a b ≡ true → (fl.int a ≤? fl.int b) ≡ true
  pub round_mono : (a b : F) → (a ≤? b) ≡ true → le_ℤ (fl.round a) (fl.round b) ≡ true
