-- ===== src/Decision/Weights.antt =====
-- The live weights of src/triage/decision.py, and `set_weights`.
use vh26_crackers.Base.{
  ◌≡◌, Bool, true, false, not, ◌&&◌, ◌||◌, [], ◌∷◌, Option, none, some, Floats, ◌≤?◌, ◌<?◌, ◌⊖◌,
  ◌⊘◌, of_int, if◌then◌else◌, arith, ◌≼◌, Bool-cases, inl, inr,
}
use vh26_crackers.Config.{abs}
use vh26_crackers.Decision.{ScoreWeights, PressureWeights, sum_from}
use vh26_crackers.Decision.Pressure.{NonNegative}

-- `current_score_weights` and `current_pressure_weights`
pub record Weights (F : Type 0) : Type 0 where
  pub score : ScoreWeights F
  pub pressure : PressureWeights F

-- the keyword arguments of `set_weights`
pub record Updates (F : Type 0) : Type 0 where
  pub w1 : Option F
  pub w2 : Option F
  pub a : Option F
  pub b : Option F
  pub c : Option F
  pub d : Option F

module _ {F : Type 0} where
  abbrev pub or_else : F → Option F → F
  or_else old none = old
  or_else old (some v) = v

  abbrev pub merged_score : ScoreWeights F → Updates F → ScoreWeights F
  merged_score w u = record { w1 = or_else w.w1 u.w1; w2 = or_else w.w2 u.w2 }

  abbrev pub merged_pressure : PressureWeights F → Updates F → PressureWeights F
  merged_pressure w u = record {
    a = or_else w.a u.a;
    b = or_else w.b u.b;
    c = or_else w.c u.c;
    d = or_else w.d u.d;
  }

module _ {F : Type 0} ⦃fl : Floats F⦄ where
  abbrev pub negative : Option F → Bool
  negative none = false
  negative (some v) = v <? of_int 0

  unfoldable pub any_negative : Updates F → Bool
  any_negative u =
      negative u.w1 || negative u.w2 || negative u.a || negative u.b || negative u.c || negative u.d

  abbrev pub score_total : ScoreWeights F → F
  score_total w = sum_from (of_int 0) (w.w1 ∷ w.w2 ∷ [])

  abbrev pub pressure_total : PressureWeights F → F
  pressure_total w = sum_from (of_int 0) (w.a ∷ w.b ∷ w.c ∷ w.d ∷ [])

  -- `_normalized`, where its total is positive
  unfoldable pub normalized_score : ScoreWeights F → ScoreWeights F
  normalized_score w = record { w1 = w.w1 ⊘ score_total w; w2 = w.w2 ⊘ score_total w }

  unfoldable pub normalized_pressure : PressureWeights F → PressureWeights F
  normalized_pressure w = record {
    a = w.a ⊘ pressure_total w;
    b = w.b ⊘ pressure_total w;
    c = w.c ⊘ pressure_total w;
    d = w.d ⊘ pressure_total w;
  }

  -- the two `__post_init__`
  unfoldable pub score_ok : ScoreWeights F → Bool
  score_ok w = not (w.w1 <? of_int 0) && not (w.w2 <? of_int 0)

  unfoldable pub pressure_ok : PressureWeights F → Bool
  pressure_ok w =
      not (w.a <? of_int 0)
      && not (w.b <? of_int 0)
      && not (w.c <? of_int 0)
      && not (w.d <? of_int 0)
      && abs (pressure_total w ⊖ of_int 1) ≤? fl.lit 1 9

  -- the errors that are raised before anything is stored
  unfoldable pub refused : Updates F → ScoreWeights F → PressureWeights F → Bool
  unfolding any_negative normalized_score score_ok
  refused u score pressure =
      any_negative u
      || score_total score ≤? of_int 0
      || pressure_total pressure ≤? of_int 0
      || not (score_ok (normalized_score score))

  -- The weights after the call, and whether it returns (and does not raise a `ValueError`). The
  -- score weights are stored before the pressure weights are built.
  unfoldable pub set_weights : Weights F → Updates F → Weights F × Bool
  unfolding refused normalized_score normalized_pressure pressure_ok
  set_weights w u =
      let score = merged_score w.score u in
      let pressure = merged_pressure w.pressure u in
      if refused u score pressure
      then (w, false)
      else if pressure_ok (normalized_pressure pressure)
      then (
        record { score = normalized_score score; pressure = normalized_pressure pressure },
        true,
      )
      else (record w { score = normalized_score score }, false)

  -- What the two classes promise of the live weights.
  pub record IsLive (w : Weights F) : Type 0 where
    pub w1 : of_int 0 ≼ w.score.w1
    pub w2 : of_int 0 ≼ w.score.w2
    pub pressure : NonNegative w.pressure
    pub total : abs (pressure_total w.pressure ⊖ of_int 1) ≼ fl.lit 1 9

  score_ok_lem : (w : ScoreWeights F) → score_ok w ≡ true → (of_int 0 ≼ w.w1) × (of_int 0 ≼ w.w2)
  unfolding score_ok
  score_ok_lem w h = ground arith

  pressure_ok_lem :
      (w : PressureWeights F)
      → pressure_ok w ≡ true
      → NonNegative w × (abs (pressure_total w ⊖ of_int 1) ≼ fl.lit 1 9)
  unfolding pressure_ok
  pressure_ok_lem w h = (
    record { a = ground arith; b = ground arith; c = ground arith; d = ground arith },
    ground arith,
  )

  accepted :
      (u : Updates F) (score : ScoreWeights F) (pressure : PressureWeights F)
      → refused u score pressure ≡ false
      → score_ok (normalized_score score) ≡ true
  unfolding refused
  accepted u score pressure h = ground arith

  -- Where the live weights are not negative and those of the pressure sum to 1 up to 1e-9, this
  -- holds after set_weights, whatever is submitted and whether or not it is refused.
  pub set_weights-IsLive : (w : Weights F) (u : Updates F) → IsLive w → IsLive (set_weights w u).0
  unfolding set_weights
  set_weights-IsLive w u live =
      let score = merged_score w.score u in
      let pressure = merged_pressure w.pressure u in
      elim (Bool-cases (refused u score pressure)) [
        | inl h ↦ rw h live
        | inr h ↦
            let s = score_ok_lem (normalized_score score) (accepted u score pressure h) in
            elim (Bool-cases (pressure_ok (normalized_pressure pressure))) [
              | inl k ↦
                  let p = pressure_ok_lem (normalized_pressure pressure) k in
                  rw (h, k) (record { w1 = s.0; w2 = s.1; pressure = p.0; total = p.1 })
              | inr k ↦
                  rw (h, k)
                    (record { w1 = s.0; w2 = s.1; pressure = live.pressure; total = live.total })
            ]
      ]

  -- A negative update changes nothing.
  pub set_weights_refuses :
      (w : Weights F) (u : Updates F) → any_negative u ≡ true → set_weights w u ≡ (w, false)
  unfolding set_weights refused
  set_weights_refuses w u h = ground arith
