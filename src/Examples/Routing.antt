-- ===== src/Examples/Routing.antt =====
-- Examples for src/triage/decision.py, ladder.py and worker.py.
use vh26_crackers.Base.{ℤ, pos, ◌≡◌, refl, ◌≤◌, true, false, none, some, [], ◌∷◌}
use vh26_crackers.Base.Scaled.{scaled, scaled-IsFloat}
use vh26_crackers.Contracts.{p0}
use vh26_crackers.Decision.{PressureSignals, PressureWeights, ScoreWeights}
use vh26_crackers.Ladder.Ceiling.{rung, ceiling}
use vh26_crackers.Ladder.Reservoir.{ReservoirSampler}
use vh26_crackers.Deferral.{known}
use vh26_crackers.Worker.{Readings, is_defer, resolve}
use vh26_crackers.Worker.Resolve.{resolve-ceiling, resolve_defers_once}
use vh26_crackers.Examples.Data.{whole, a_payment, a_stock}

abbrev weights : PressureWeights ℤ
weights = record { a = pos 300000; b = pos 300000; c = pos 200000; d = pos 200000 }

abbrev quiet : PressureSignals ℤ
quiet = record {
  qdepth = whole 10;
  qmax = whole 400;
  arrival_rate_ewma_with_trend = whole 50;
  service_rate = whole 100;
  p95_sojourn = whole 1;
  sla_reference = whole 5;
  worker_util = pos 500000;
}

abbrev busy : PressureSignals ℤ
busy = record {
  qdepth = whole 100;
  qmax = whole 400;
  arrival_rate_ewma_with_trend = whole 200;
  service_rate = whole 90;
  p95_sojourn = whole 2;
  sla_reference = whole 5;
  worker_util = whole 1;
}

abbrev fair : ScoreWeights ℤ
fair = record { w1 = whole 1; w2 = whole 1 }

-- a window of three, with two events in it
abbrev window : ReservoirSampler ℤ
window = record {
  sample_n = 3;
  count = 2;
  window_start = some (whole 90);
  seq_low = some 1;
  seq_high = some 2;
  last_window_end = some (whole 80);
}

abbrev idle : ReservoirSampler ℤ
idle = record {
  sample_n = 3;
  count = 0;
  window_start = none;
  seq_low = none;
  seq_high = none;
  last_window_end = some (whole 80);
}

abbrev readings : Readings ℤ
readings = record {
  capacity = whole 25;
  estimate = λ e. none;
  already_deferred = "stock" ∷ [];
  is_sampling = true;
}

resolve-ceiling_example : rung (resolve readings a_payment (whole 1) (whole 200)).0 ≤ ceiling p0
resolve-ceiling_example = resolve-ceiling readings a_payment (whole 1) (whole 200)

resolve_defers_once_example : is_defer (resolve readings a_stock (pos 900000) (whole 200)).0 ≡ false
unfolding known
resolve_defers_once_example = resolve_defers_once readings a_stock (pos 900000) (whole 200) refl
