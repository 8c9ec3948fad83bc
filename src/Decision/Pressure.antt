-- ===== src/Decision/Pressure.antt =====
-- `pressure` of decision.py: bounded, and monotone in the load.
use vh26_crackers.Base.{
  Floats, IsFloat, ◌⊘◌, of_int, fmin, fmax, ◌≼◌, fmin-le_left, fmin-le_right, le-fmin,
  le_fmax_right, arith,
}
use vh26_crackers.Decision.{PressureSignals, PressureWeights, eps, raw_pressure, pressure}
use vh26_crackers.Decision.Ordering.{fmax_mono, div_floored_mono, div_floored_anti}

module _ {F : Type 0} ⦃fl : Floats F⦄ where
  -- `__post_init__` of the weights admits no negative one.
  pub record NonNegative (w : PressureWeights F) : Type 0 where
    pub a : of_int 0 ≼ w.a
    pub b : of_int 0 ≼ w.b
    pub c : of_int 0 ≼ w.c
    pub d : of_int 0 ≼ w.d

  -- One state of the system carries no less load than another: more queued and arriving, longer
  -- waits, busier workers, and no more service. The reference values are those of the program.
  pub record NoLess (s t : PressureSignals F) : Type 0 where
    pub queued : s.qdepth ≼ t.qdepth
    pub arriving : s.arrival_rate_ewma_with_trend ≼ t.arrival_rate_ewma_with_trend
    pub arriving_nonneg : of_int 0 ≼ t.arrival_rate_ewma_with_trend
    pub served : t.service_rate ≼ s.service_rate
    pub waiting : s.p95_sojourn ≼ t.p95_sojourn
    pub busy : s.worker_util ≼ t.worker_util

  abbrev pub with_references : PressureSignals F → F → F → PressureSignals F
  with_references s qmax sla = record s { qmax = qmax; sla_reference = sla }

module _ {F : Type 0} ⦃fl : Floats F⦄ ⦃ops : IsFloat F⦄ where
  -- Pressure lies between 0 and 1 for all signals and all weights.
  pub pressure_bounds :
      (s : PressureSignals F) (w : PressureWeights F)
      → (of_int 0 ≼ pressure s w) × (pressure s w ≼ of_int 1)
  unfolding pressure
  pressure_bounds s w = (
    le-fmin (fmax (raw_pressure s w) (of_int 0)) (of_int 1) (of_int 0)
        (le_fmax_right (raw_pressure s w) (of_int 0)) (ops.lit_mono 0 1 0 0 (omega arith)),
    fmin-le_right (fmax (raw_pressure s w) (of_int 0)) (of_int 1),
  )

  fmin_mono : (a b c : F) → a ≼ b → fmin a c ≼ fmin b c
  fmin_mono a b c h = le-fmin b c _ (ops.le_trans _ a b (fmin-le_left a c) h) (fmin-le_right a c)

  -- an arrival rate over a service rate grows with the first and falls with the second
  ratio_mono : (x y r q : F) → x ≼ y → of_int 0 ≼ y → q ≼ r → x ⊘ fmax r eps ≼ y ⊘ fmax q eps
  ratio_mono x y r q h p k =
      ops.le_trans _ (y ⊘ fmax r eps) _ (div_floored_mono x y r h) (div_floored_anti y q r p k)

  raw_pressure_mono :
      (s t : PressureSignals F) (w : PressureWeights F) (qmax sla : F)
      → NonNegative w
      → NoLess s t
      → raw_pressure (with_references s qmax sla) w ≼ raw_pressure (with_references t qmax sla) w
  unfolding raw_pressure
  raw_pressure_mono s t w qmax sla n h =
      ops.add_mono _ _ _ _
        (ops.add_mono _ _ _ _
          (ops.add_mono _ _ _ _
            (ops.mul_mono _ _ _ n.a (div_floored_mono s.qdepth t.qdepth qmax h.queued))
            (ops.mul_mono _ _ _ n.b (
              ratio_mono s.arrival_rate_ewma_with_trend t.arrival_rate_ewma_with_trend
                s.service_rate t.service_rate h.arriving h.arriving_nonneg h.served)))
          (ops.mul_mono _ _ _ n.c (div_floored_mono s.p95_sojourn t.p95_sojourn sla h.waiting)))
        (ops.mul_mono _ _ _ n.d h.busy)

  -- For weights that are not negative and fixed reference values, a state with no less load has
  -- a pressure that is no lower.
  pub pressure_mono :
      (s t : PressureSignals F) (w : PressureWeights F) (qmax sla : F)
      → NonNegative w
      → NoLess s t
      → pressure (with_references s qmax sla) w ≼ pressure (with_references t qmax sla) w
  unfolding pressure
  pressure_mono s t w qmax sla n h =
      let x : F = raw_pressure (with_references s qmax sla) w in
      let y : F = raw_pressure (with_references t qmax sla) w in
      fmin_mono (fmax x (of_int 0)) (fmax y (of_int 0)) (of_int 1)
        (fmax_mono x y (of_int 0) (raw_pressure_mono s t w qmax sla n h))
