-- ===== src/Admission/Bounds.antt =====
-- A bulk bucket stays within its floor and its ceiling, and the critical bucket is never gated.
use vh26_crackers.Base.{
  Floats, IsFloat, ◌⊕◌, ◌⊖◌, ◌⊗◌, of_int, fmin, fmax, ◌≼◌, fmin-le_left, fmin-le_right, le-fmin,
  le_fmax_left, fmax-le, arith, Option-cases, inl, inr,
}
use vh26_crackers.Admission.{
  CreditBucket, min_bulk_rate_ups, multiplicative_decrease, additive_increase_ups, refill, decrease,
  increase, update_aimd, try_acquire_bucket, reset_bucket,
}

module _ {F : Type 0} ⦃fl : Floats F⦄ where
  -- Rate and capacity lie between the floor and the ceiling, and the credits between zero and the
  -- capacity.
  pub record InBounds (b : CreditBucket F) : Type 0 where
    pub rate_floor : min_bulk_rate_ups ≼ b.rate_ups
    pub rate_ceiling : b.rate_ups ≼ b.max_rate_ups
    pub capacity_floor : min_bulk_rate_ups ≼ b.capacity_units
    pub capacity_ceiling : b.capacity_units ≼ b.max_rate_ups
    pub credits_floor : of_int 0 ≼ b.credits
    pub credits_ceiling : b.credits ≼ b.capacity_units

module _ {F : Type 0} ⦃fl : Floats F⦄ ⦃ops : IsFloat F⦄ where
  floor_nonneg : (x : F) → min_bulk_rate_ups ≼ x → of_int 0 ≼ x
  floor_nonneg x h = ops.le_trans _ _ _ (ops.lit_mono 0 10 0 1 (omega arith)) h

  -- one multiplicative decrease of a value between the floor and the ceiling
  shrunk-le :
      (x : F) → min_bulk_rate_ups ≼ x → fmax min_bulk_rate_ups (x ⊗ multiplicative_decrease) ≼ x
  shrunk-le x h =
      fmax-le min_bulk_rate_ups (x ⊗ multiplicative_decrease) x h
        (ops.mul-le _ _ (floor_nonneg x h) (ops.lit_mono 8 1 1 0 (omega arith)))

  decrease-InBounds : (b : CreditBucket F) (now : F) → InBounds b → InBounds (decrease b now)
  unfolding decrease
  decrease-InBounds b now h = record {
    rate_floor = le_fmax_left _ (b.rate_ups ⊗ multiplicative_decrease);
    rate_ceiling = ops.le_trans _ _ _ (shrunk-le b.rate_ups h.rate_floor) h.rate_ceiling;
    capacity_floor = le_fmax_left _ (b.capacity_units ⊗ multiplicative_decrease);
    capacity_ceiling =
        ops.le_trans _ _ _ (shrunk-le b.capacity_units h.capacity_floor) h.capacity_ceiling;
    credits_floor =
        le-fmin b.credits (fmax min_bulk_rate_ups (b.capacity_units ⊗ multiplicative_decrease))
          (of_int 0) h.credits_floor
          (floor_nonneg _
            (le_fmax_left min_bulk_rate_ups (b.capacity_units ⊗ multiplicative_decrease)));
    credits_ceiling =
        fmin-le_right b.credits
          (fmax min_bulk_rate_ups (b.capacity_units ⊗ multiplicative_decrease));
  }

  grown-le : (x : F) → x ≼ x ⊕ additive_increase_ups
  grown-le x = ops.add_nonneg x _ (ops.lit_mono 0 50 0 1 (omega arith))

  -- one additive increase, capped by the ceiling
  grown_floor : (lo x m : F) → lo ≼ x → x ≼ m → lo ≼ fmin m (x ⊕ additive_increase_ups)
  grown_floor lo x m h k =
      le-fmin m (x ⊕ additive_increase_ups) lo (ops.le_trans _ _ _ h k)
        (ops.le_trans _ _ _ h (grown-le x))

  increase-InBounds : (b : CreditBucket F) (now : F) → InBounds b → InBounds (increase b now)
  unfolding increase
  increase-InBounds b now h = record {
    rate_floor =
        grown_floor min_bulk_rate_ups b.rate_ups b.max_rate_ups h.rate_floor h.rate_ceiling;
    rate_ceiling = fmin-le_left b.max_rate_ups (b.rate_ups ⊕ additive_increase_ups);
    capacity_floor =
        grown_floor min_bulk_rate_ups b.capacity_units b.max_rate_ups h.capacity_floor
          h.capacity_ceiling;
    capacity_ceiling = fmin-le_left b.max_rate_ups (b.capacity_units ⊕ additive_increase_ups);
    credits_floor = h.credits_floor;
    credits_ceiling = ops.le_trans _ _ _ h.credits_ceiling (
        grown_floor b.capacity_units b.capacity_units b.max_rate_ups (ops.le_refl _)
          h.capacity_ceiling);
  }

  -- An AIMD step keeps a bucket within its bounds: rate and capacity between the floor of 10 and
  -- the ceiling, credits between 0 and the capacity.
  pub update_aimd-InBounds :
      (b : CreditBucket F) (pressure now : F) → InBounds b → InBounds (update_aimd b pressure now)
  unfolding update_aimd
  update_aimd-InBounds b pressure now h =
      ground (arith, decrease-InBounds b now h, increase-InBounds b now h)

  refill-InBounds : (b : CreditBucket F) (now : F) → InBounds b → InBounds (refill b now)
  unfolding refill
  refill-InBounds b now h = elim (Option-cases b.last_refill) [
    | inl e ↦
        rw (e, refill)
          (record {
            rate_floor = h.rate_floor;
            rate_ceiling = h.rate_ceiling;
            capacity_floor = h.capacity_floor;
            capacity_ceiling = h.capacity_ceiling;
            credits_floor = h.credits_floor;
            credits_ceiling = h.credits_ceiling;
          })
    | inr (last, e) ↦
        let dt : F = fmax (of_int 0) (now ⊖ last) in
        let gained : of_int 0 ≼ b.rate_ups ⊗ dt =
          ops.mul_nonneg _ _ (floor_nonneg _ h.rate_floor) (le_fmax_left (of_int 0) (now ⊖ last)) in
        rw (e, refill)
          (record {
            rate_floor = h.rate_floor;
            rate_ceiling = h.rate_ceiling;
            capacity_floor = h.capacity_floor;
            capacity_ceiling = h.capacity_ceiling;
            credits_floor =
                le-fmin b.capacity_units (b.credits ⊕ b.rate_ups ⊗ dt) (of_int 0)
                  (floor_nonneg _ h.capacity_floor)
                  (ops.le_trans _ _ _ h.credits_floor (ops.add_nonneg b.credits _ gained));
            credits_ceiling = fmin-le_left b.capacity_units (b.credits ⊕ b.rate_ups ⊗ dt);
          })
  ]

  -- An acquisition of a cost that is not negative keeps a bucket within its bounds.
  pub try_acquire_bucket-InBounds :
      (b : CreditBucket F) (cost now : F)
      → of_int 0 ≼ cost
      → InBounds b
      → InBounds (try_acquire_bucket b cost now).0
  unfolding try_acquire_bucket
  try_acquire_bucket-InBounds b cost now p h =
      let k = refill-InBounds b now h in
      ground (
        arith,
        ops.sub_nonneg (refill b now).credits cost,
        ops.le_trans _ _ _ (ops.sub-le (refill b now).credits cost p) k.credits_ceiling,
      )

  -- A reset bucket is full, and within bounds if its ceiling is no lower than the floor.
  pub reset_bucket-InBounds :
      (b : CreditBucket F) → min_bulk_rate_ups ≼ b.max_rate_ups → InBounds (reset_bucket b)
  unfolding reset_bucket
  reset_bucket-InBounds b h = record {
    rate_floor = h;
    rate_ceiling = ops.le_refl _;
    capacity_floor = h;
    capacity_ceiling = ops.le_refl _;
    credits_floor = floor_nonneg _ h;
    credits_ceiling = ops.le_refl _;
  }
