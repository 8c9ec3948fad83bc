-- ===== src/Metrics/Rate.antt =====
-- `_Ewma` of src/triage/metrics.py: a rate and its trend, averaged over real time. The power
-- `0.5 ** x` is Python's, and a parameter.
use vh26_crackers.Base.{
  ◌≡◌, false, Option, none, some, Floats, IsFloat, ◌≤?◌, ◌⊕◌, ◌⊖◌, ◌⊗◌, ◌⊘◌, of_int, fmax, ◌≼◌,
  if◌then◌else◌, arith, Bool-cases, inl, inr, Option-cases, ◌≺◌,
}

pub record Ewma (F : Type 0) : Type 0 where
  pub half_life : F
  pub level : F
  pub trend : F
  pub last_update : Option F
  pub pending_amount : F

module _ {F : Type 0} ⦃fl : Floats F⦄ where
  unfoldable pub init_ewma : F → Ewma F
  init_ewma half_life = record {
    half_life = half_life;
    level = of_int 0;
    trend = of_int 0;
    last_update = none;
    pending_amount = of_int 0;
  }

  -- what is left of `observe_amount` once time has passed
  unfoldable pub advance : (F → F) → Ewma F → F → F → F → Ewma F
  advance half_power w amount dt now =
      let raw_rate = (amount ⊕ w.pending_amount) ⊘ dt in
      let alpha = of_int 1 ⊖ half_power (dt ⊘ w.half_life) in
      let new_level = alpha ⊗ raw_rate ⊕ (of_int 1 ⊖ alpha) ⊗ w.level in
      record w {
        level = new_level;
        trend = new_level ⊖ w.level;
        last_update = some now;
        pending_amount = of_int 0;
      }

  unfoldable pub observe_amount : (F → F) → Ewma F → F → F → Ewma F
  unfolding advance
  observe_amount half_power w amount now = elim w.last_update [
    | none ↦ record w { last_update = some now; pending_amount = w.pending_amount ⊕ amount }
    | some last ↦
        if now ⊖ last ≤? of_int 0
        then record w { pending_amount = w.pending_amount ⊕ amount }
        else advance half_power w amount (now ⊖ last) now
  ]

  unfoldable pub with_trend : Ewma F → F
  with_trend w = fmax (w.level ⊕ w.trend) (of_int 0)

  unfoldable pub reset_ewma : Ewma F → Ewma F
  reset_ewma w = record w {
    level = of_int 0;
    trend = of_int 0;
    last_update = none;
    pending_amount = of_int 0;
  }

  -- the level and the amount that waits are not negative, and the half-life is positive
  pub record IsRate (w : Ewma F) : Type 0 where
    pub level : of_int 0 ≼ w.level
    pub pending : of_int 0 ≼ w.pending_amount
    pub half_life : of_int 0 ≺ w.half_life

module _ {F : Type 0} ⦃fl : Floats F⦄ ⦃ops : IsFloat F⦄ (half_power : F → F) where
  -- `0.5 ** x` of a number that is not negative lies between 0 and 1.
  pub record IsHalfPower : Type 0 where
    pub floor : (x : F) → of_int 0 ≼ x → of_int 0 ≼ half_power x
    pub ceiling : (x : F) → of_int 0 ≼ x → half_power x ≼ of_int 1

  sum_nonneg : (a b : F) → of_int 0 ≼ a → of_int 0 ≼ b → of_int 0 ≼ a ⊕ b
  sum_nonneg a b h k = ops.le_trans (of_int 0) a (a ⊕ b) h (ops.add_nonneg a b k)

  after_nonneg : (a : F) → (a ≤? of_int 0) ≡ false → of_int 0 ≼ a
  after_nonneg a h = ground (arith, ops.le_total a (of_int 0))

  advance-IsRate :
      (w : Ewma F) (amount dt now : F)
      → IsHalfPower
      → of_int 0 ≼ amount
      → (dt ≤? of_int 0) ≡ false
      → IsRate w
      → IsRate (advance half_power w amount dt now)
  unfolding advance
  advance-IsRate w amount dt now law a later r =
      let x = dt ⊘ w.half_life in
      let p = half_power x in
      let e : of_int 0 ≼ x = ops.div_nonneg dt w.half_life (after_nonneg dt later) r.half_life in
      record {
        level =
            sum_nonneg _ _
              (ops.mul_nonneg _ _ (ops.sub_nonneg (of_int 1) p (law.ceiling x e)) (
                ops.div_nonneg _ dt (sum_nonneg amount w.pending_amount a r.pending)
                  (ground (arith, later))))
              (ops.mul_nonneg _ _
                (ops.sub_nonneg (of_int 1) (of_int 1 ⊖ p) (ops.sub-le (of_int 1) p (law.floor x e)))
                r.level);
        pending = ops.le_refl (of_int 0);
        half_life = r.half_life;
      }

  -- Where 0.5 ** x lies between 0 and 1 for every x that is not negative, observing an amount
  -- that is not negative keeps the level and the waiting amount of a rate non-negative, and its
  -- half-life positive.
  pub observe_amount-IsRate :
      (w : Ewma F) (amount now : F)
      → IsHalfPower
      → of_int 0 ≼ amount
      → IsRate w
      → IsRate (observe_amount half_power w amount now)
  unfolding observe_amount
  observe_amount-IsRate w amount now law a r = elim (Option-cases w.last_update) [
    | inl h ↦
        rw (h, observe_amount)
          (record {
            level = r.level;
            pending = sum_nonneg w.pending_amount amount r.pending a;
            half_life = r.half_life;
          })
    | inr (last, h) ↦
        rw (h, observe_amount)
          (elim (Bool-cases (now ⊖ last ≤? of_int 0)) [
            | inl same ↦ rw same (record {
              level = r.level;
              pending = sum_nonneg w.pending_amount amount r.pending a;
              half_life = r.half_life;
            })
            | inr later ↦ rw later (advance-IsRate w amount (now ⊖ last) now law a later r)
          ])
  ]
