-- ===== src/Codel/Sampling.antt =====
-- When codel.py samples: the control law, against the sojourns that the interval really saw.
use vh26_crackers.Base.{
  ◌≡◌, refl, true, false, List, [], ◌∷◌, Option, none, some, Floats, IsFloat, ◌<?◌, fmin, ◌≼◌, ◌≺◌,
  fmin-le_left, fmin-le_right, lt_of_lt-le, All, All-map, arith, if◌then◌else◌, Bool-cases, inl,
  inr,
}
use vh26_crackers.Codel.{CoDelController, min_with, still_sampling, interval_over, update, reset}

module _ {F : Type 0} ⦃fl : Floats F⦄ where
  -- `seen` are the sojourns observed since the interval began, the latest first.
  pub record Tracks (c : CoDelController F) (seen : List F) : Type 0 where
    pub lower : All (λ s. c.interval_min ≼ s) seen
    pub idle : c.interval_start ≡ none → seen ≡ []

  -- what the interval has seen after one more observation
  unfoldable pub seen_after : CoDelController F → List F → F → F → List F
  seen_after c seen sojourn now = if interval_over c now then sojourn ∷ [] else sojourn ∷ seen

  pub reset-Tracks : (c : CoDelController F) → Tracks (reset c) []
  unfolding reset
  reset-Tracks c = record { lower = tt; idle = λ _. refl }

module _ {F : Type 0} ⦃fl : Floats F⦄ ⦃ops : IsFloat F⦄ where
  min_with-lower :
      (c : CoDelController F) (seen : List F) (sojourn : F)
      → Tracks c seen
      → All (λ s. min_with c sojourn ≼ s) (sojourn ∷ seen)
  unfolding min_with
  min_with-lower c seen sojourn t = go c.interval_start refl
    where
      go :
          (o : Option F)
          → c.interval_start ≡ o
          → All
              (λ s. (elim o [ none ↦ sojourn | some t ↦ fmin c.interval_min sojourn ]) ≼ s)
              (sojourn ∷ seen)
      go none e = (ops.le_refl sojourn, rw (t.idle e) tt)
      go (some b) e = (
        fmin-le_right c.interval_min sojourn,
        All-map _ _ (λ s h. ops.le_trans _ _ _ (fmin-le_left c.interval_min sojourn) h) seen
            t.lower,
      )

  -- Each update keeps the minimum of the controller below every sojourn observed in its
  -- interval.
  pub update-Tracks :
      (c : CoDelController F) (seen : List F) (sojourn now : F)
      → Tracks c seen
      → Tracks (update c sojourn now) (seen_after c seen sojourn now)
  unfolding update seen_after
  update-Tracks c seen sojourn now t = elim (Bool-cases (interval_over c now)) [
    | inl over ↦
        rw (over, update, seen_after) (record { lower = (ops.le_refl sojourn, tt); idle = λ e. cc })
    | inr open_ ↦
        rw (open_, update, seen_after)
          (record { lower = min_with-lower c seen sojourn t; idle = λ e. cc })
  ]

  above-All :
      (target m : F) (xs : List F) → target ≺ m → All (λ s. m ≼ s) xs → All (λ s. target ≺ s) xs
  above-All target m xs h = All-map _ _ (λ s k. lt_of_lt-le target m s h k) xs

  min_with-le : (c : CoDelController F) (sojourn : F) → min_with c sojourn ≼ sojourn
  unfolding min_with
  min_with-le c sojourn = ground (arith, ops.le_refl sojourn, fmin-le_right c.interval_min sojourn)

  not_above : (m s target : F) → m ≼ s → s ≺ target → (target <? m) ≡ false
  not_above m s target h k = ground (arith, ops.le_trans m s target, ops.le_total s target)

  entered :
      (c : CoDelController F) (sojourn now : F)
      → c.sampling ≡ false
      → (update c sojourn now).sampling ≡ true
      → (interval_over c now ≡ true) × (c.target_seconds ≺ min_with c sojourn)
  unfolding update still_sampling
  entered c sojourn now off on = ground arith

  -- Where the controller tracks the sojourns seen, sampling switches on only at an observation
  -- that ends an interval, and only if all sojourns of that interval, the present one included,
  -- were above the target.
  pub update_enters :
      (c : CoDelController F) (seen : List F) (sojourn now : F)
      → Tracks c seen
      → c.sampling ≡ false
      → (update c sojourn now).sampling ≡ true
      → (interval_over c now ≡ true) × All (λ s. c.target_seconds ≺ s) (sojourn ∷ seen)
  update_enters c seen sojourn now t off on =
      let (over, high) = entered c sojourn now off on in
      (
        over,
        above-All c.target_seconds (min_with c sojourn) (sojourn ∷ seen) high
            (min_with-lower c seen sojourn t),
      )

  -- One sojourn below the target leaves sampling off, whatever the state and the clock are.
  pub update_exits :
      (c : CoDelController F) (sojourn now : F)
      → sojourn ≺ c.target_seconds
      → (update c sojourn now).sampling ≡ false
  unfolding update still_sampling
  update_exits c sojourn now low =
      ground
        (arith, not_above (min_with c sojourn) sojourn c.target_seconds (min_with-le c sojourn))

  -- Sampling that is on stays on at a sojourn that is not below the target.
  pub update_stays :
      (c : CoDelController F) (sojourn now : F)
      → c.sampling ≡ true
      → c.target_seconds ≼ sojourn
      → (update c sojourn now).sampling ≡ true
  unfolding update still_sampling
  update_stays c sojourn now on high = ground arith
