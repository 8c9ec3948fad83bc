-- ===== src/Base/Scaled.antt =====
-- Signed millionths: a concrete `Floats`, which meets the laws, for tests. The program's own
-- numbers are the interface, not these.
use native.Mathlib.Nat.{
  le-div_iff_mul-le, mul-le-mul_left, mul-le-mul_right, le_of_mul-le-mul_right, one-le-pow,
  div-mul-le_self, le_trans, pow-le-pow_right,
}
use Prim.Native.Nat.{ℕ, suc, ◌+◌, ◌*◌, ◌/◌, ◌^◌, ◌≤◌, ◌<◌}
use mathlib.Core.Path.{◌≡◌}
use mathlib.Core.Bool.{true, not}
use native.Mathlib.Omega.{arith}
use vh26_crackers.Base.Int.{ℤ, pos, negsuc, pos_part, neg_part, sub_ℕ, le_ℤ}
use vh26_crackers.Base.Float.{Floats, IsFloat}

-- The parts of `sub_ℕ a b` differ by what `a` and `b` differ.
sub_ℕ_parts : (a b : ℕ) → pos_part (sub_ℕ a b) + b ≡ neg_part (sub_ℕ a b) + a
sub_ℕ_parts a b = ground arith

le_sub_ℕ : (a b c d : ℕ) → a + d ≤ c + b → le_ℤ (sub_ℕ a b) (sub_ℕ c d) ≡ true
le_sub_ℕ a b c d h = ground arith

abbrev scale : ℕ
scale = 1000000

abbrev plus_ℤ : ℤ → ℤ → ℤ
plus_ℤ a b = sub_ℕ (pos_part a + pos_part b) (neg_part a + neg_part b)

abbrev minus_ℤ : ℤ → ℤ → ℤ
minus_ℤ a b = sub_ℕ (pos_part a + neg_part b) (neg_part a + pos_part b)

abbrev times_ℤ : ℤ → ℤ → ℤ
times_ℤ a b =
    sub_ℕ ((pos_part a * pos_part b + neg_part a * neg_part b) / scale)
      ((pos_part a * neg_part b + neg_part a * pos_part b) / scale)

abbrev over_ℤ : ℤ → ℤ → ℤ
over_ℤ a b =
    sub_ℕ (pos_part a * scale / pos_part b + neg_part a * scale / neg_part b)
      (pos_part a * scale / neg_part b + neg_part a * scale / pos_part b)

instance abbrev pub scaled : Floats ℤ
scaled = record {
  le = le_ℤ;
  plus = plus_ℤ;
  minus = minus_ℤ;
  times = times_ℤ;
  over = over_ℤ;
  lit = λ n d. pos (n * scale / 10 ^ d);
  int = λ a. sub_ℕ (pos_part a * scale) (neg_part a * scale);
  round = λ a. sub_ℕ ((pos_part a + 500000) / scale) ((neg_part a + 500000) / scale);
  inf = pos (10 ^ 30);
}

le_ℤ→le : (a b : ℤ) → le_ℤ a b ≡ true → pos_part a + neg_part b ≤ pos_part b + neg_part a
le_ℤ→le a b h = ground arith

div_mono_ℕ : (x y k : ℕ) → 0 < k → x ≤ y → x / k ≤ y / k
div_mono_ℕ x y k p h = (le-div_iff_mul-le p).1 (le_trans (div-mul-le_self x k) h)

-- x / a ≤ y / b, from x * b ≤ y * a
div_cross : (x y a b : ℕ) → 0 < a → 0 < b → x * b ≤ y * a → x / a ≤ y / b
div_cross x y a b p q h =
    (le-div_iff_mul-le q).1
      (le_of_mul-le-mul_right (omega (arith, h, mul-le-mul_right b (div-mul-le_self x a))) p)

lit_mono_ℤ :
    (m n d e : ℕ)
    → m * 10 ^ e ≤ n * 10 ^ d
    → le_ℤ (pos (m * scale / 10 ^ d)) (pos (n * scale / 10 ^ e)) ≡ true
lit_mono_ℤ m n d e h =
    let p : m * scale / 10 ^ d ≤ n * scale / 10 ^ e =
      div_cross (m * scale) (n * scale) (10 ^ d) (10 ^ e) (one-le-pow d 10 (omega arith))
        (one-le-pow e 10 (omega arith)) (omega arith) in
    ground arith

times_nonneg :
    (a b : ℤ) → le_ℤ (pos 0) a ≡ true → le_ℤ (pos 0) b ≡ true → le_ℤ (pos 0) (times_ℤ a b) ≡ true
times_nonneg (pos a) (pos b) h k = ground arith
times_nonneg (pos a) (negsuc b) h k = ground arith
times_nonneg (negsuc a) b h k = ground arith

times-le :
    (a b : ℤ) → le_ℤ (pos 0) a ≡ true → le_ℤ b (pos scale) ≡ true → le_ℤ (times_ℤ a b) a ≡ true
times-le (pos a) (pos b) h k = ground (arith, mul-le-mul_left {m = b} {n = scale} a)
times-le (pos a) (negsuc b) h k = ground arith
times-le (negsuc a) b h k = ground arith

times_mono :
    (a b c : ℤ) → le_ℤ (pos 0) a ≡ true → le_ℤ b c ≡ true → le_ℤ (times_ℤ a b) (times_ℤ a c) ≡ true
times_mono (pos a) (pos b) (pos c) h k = ground (arith, mul-le-mul_left {m = b} {n = c} a)
times_mono (pos a) (negsuc b) (pos c) h k = ground arith
times_mono (pos a) (pos b) (negsuc c) h k = ground arith
times_mono (pos a) (negsuc b) (negsuc c) h k =
    ground (arith, mul-le-mul_left {m = suc c} {n = suc b} a)
times_mono (negsuc a) b c h k = ground arith

over_mono :
    (a b c : ℤ)
    → not (le_ℤ c (pos 0)) ≡ true
    → le_ℤ a b ≡ true
    → le_ℤ (over_ℤ a c) (over_ℤ b c) ≡ true
over_mono (pos a) (pos b) (pos c) h k = ground (arith, div_mono_ℕ (a * scale) (b * scale) c)
over_mono (pos a) (negsuc b) (pos c) h k = ground arith
over_mono (negsuc a) (pos b) (pos c) h k = ground arith
over_mono (negsuc a) (negsuc b) (pos c) h k =
    ground (arith, div_mono_ℕ (suc b * scale) (suc a * scale) c)
over_mono a b (negsuc c) h k = ground arith

over_nonneg :
    (a b : ℤ)
    → le_ℤ (pos 0) a ≡ true
    → not (le_ℤ b (pos 0)) ≡ true
    → le_ℤ (pos 0) (over_ℤ a b) ≡ true
over_nonneg (pos a) (pos b) h k = ground arith
over_nonneg (pos a) (negsuc b) h k = ground arith
over_nonneg (negsuc a) b h k = ground arith

over_anti :
    (a b c : ℤ)
    → le_ℤ (pos 0) a ≡ true
    → not (le_ℤ b (pos 0)) ≡ true
    → le_ℤ b c ≡ true
    → le_ℤ (over_ℤ a c) (over_ℤ a b) ≡ true
over_anti (pos a) (pos b) (pos c) h k l =
    ground
      (arith, div_cross (a * scale) (a * scale) c b, mul-le-mul_left {m = b} {n = c} (a * scale))
over_anti (pos a) (pos b) (negsuc c) h k l = ground arith
over_anti (pos a) (negsuc b) c h k l = ground arith
over_anti (negsuc a) b c h k l = ground arith

lit_pos_ℤ : (n d : ℕ) → 0 < n → d ≤ 6 → not (le_ℤ (pos (n * scale / 10 ^ d)) (pos 0)) ≡ true
lit_pos_ℤ n d p h =
    let q : 1 ≤ n * scale / 10 ^ d = (le-div_iff_mul-le (one-le-pow d 10 (omega arith))).1 (
      le_trans (omega (arith, pow-le-pow_right {n = 10} (omega arith) h))
        (mul-le-mul_right {m = 1} {n = n} scale p)) in
    ground arith

int_mono_ℤ :
    (a b : ℤ)
    → le_ℤ a b ≡ true
    → le_ℤ
        (sub_ℕ (pos_part a * scale) (neg_part a * scale))
        (sub_ℕ (pos_part b * scale) (neg_part b * scale))
      ≡ true
int_mono_ℤ a b h = le_sub_ℕ _ _ _ _ (omega (arith, le_ℤ→le a b h))

plus_mono :
    (a b c d : ℤ) → le_ℤ a b ≡ true → le_ℤ c d ≡ true → le_ℤ (plus_ℤ a c) (plus_ℤ b d) ≡ true
plus_mono a b c d h k = le_sub_ℕ _ _ _ _ (omega (arith, le_ℤ→le a b h, le_ℤ→le c d k))

minus_mono :
    (a b c d : ℤ) → le_ℤ a b ≡ true → le_ℤ d c ≡ true → le_ℤ (minus_ℤ a c) (minus_ℤ b d) ≡ true
minus_mono a b c d h k = le_sub_ℕ _ _ _ _ (omega (arith, le_ℤ→le a b h, le_ℤ→le d c k))

instance pub scaled-IsFloat : IsFloat ℤ
scaled-IsFloat = record {
  le_refl = λ a. ground arith;
  le_trans = λ a b c h k. ground arith;
  le_total = λ a b. ground arith;
  lit_mono = lit_mono_ℤ;
  add_nonneg = λ a b h. ground arith;
  add_mono = plus_mono;
  sub_nonneg = λ a b h. ground arith;
  sub-le = λ a b h. ground arith;
  sub_mono = minus_mono;
  mul_nonneg = times_nonneg;
  mul-le = times-le;
  mul_mono = times_mono;
  div_nonneg = over_nonneg;
  div_mono = over_mono;
  div_anti = over_anti;
  lit_pos = lit_pos_ℤ;
  int_lit = λ n. ground arith;
  int_mono = int_mono_ℤ;
  round_mono = λ a b h. ground arith;
}
