-- ===== src/Examples/Counting.antt =====
-- Examples for src/triage/metrics.py, costmodel.py and the live weights of decision.py.
use vh26_crackers.Base.{
  ℤ, pos, negsuc, sub_ℕ, suc, ◌/◌, ◌≡◌, refl, false, none, some, List, [], ◌∷◌, String,
}
use vh26_crackers.Base.Scaled.{scaled, scaled-IsFloat}
use vh26_crackers.Contracts.{payment, click, Decision, adaptive}
use vh26_crackers.Decision.{sum_from}
use vh26_crackers.Decision.Weights.{Weights, Updates, IsLive}
use vh26_crackers.Costmodel.Learning.{Observation}
use vh26_crackers.Metrics.Rate.{Ewma, IsHalfPower}
use vh26_crackers.Metrics.State.{Metrics, Counters, PerTier}
use vh26_crackers.Metrics.{
  check_conservation, observe_ingest, observe_dequeue, observe_defer, observe_decision,
}
use vh26_crackers.Metrics.Pipeline.{World, Reach, put, get, ended, here, next, Reach-conserves}
use vh26_crackers.Examples.Data.{whole, a_payment, a_click}

abbrev pub half : ℤ → ℤ
half x = pos 500000

abbrev idle_rate : Ewma ℤ
idle_rate = record {
  half_life = whole 2;
  level = pos 0;
  trend = pos 0;
  last_update = some (whole 1);
  pending_amount = whole 1;
}

half-IsHalfPower : IsHalfPower half
half-IsHalfPower = record { floor = λ x h. refl; ceiling = λ x h. refl }

abbrev pub zero_counters : Counters
zero_counters = record {
  ingested = 0;
  processed = 0;
  in_queue = 0;
  in_flight = 0;
  sampled_out = 0;
  shed = 0;
  true_click_count = 0;
  retries = 0;
  exactly_once_violations = 0;
  duplicates_caught = 0;
}

abbrev each : {A : Type 0} → A → PerTier A
each x = record { p0_of = x; p1_of = x; p2_of = x }

abbrev pub fresh_metrics : {R : Type 0} → Metrics ℤ R
fresh_metrics = record {
  counters = zero_counters;
  queue_depth = each 0;
  latency_ms = each [];
  latency_ms_all = [];
  queue_wait_ms = each [];
  queue_wait_ms_all = [];
  sla_met = each 0;
  sla_missed = each 0;
  value_delivered = pos 0;
  value_shed = pos 0;
  weighted_click_count = pos 0;
  ladder_rung = each 0;
  recent_decisions = [];
  recent_sheds = [];
  critical_failure_count = 0;
  replay_admitted_at = [];
  arrival_rate = idle_rate;
  service_rate = idle_rate;
  offered_rate = idle_rate;
  admitted_rate = idle_rate;
  codel = record {
    interval_seconds = pos 100000;
    target_seconds = pos 50000;
    interval_start = none;
    interval_min = pos 0;
    sampling = false;
  };
  mode = adaptive;
  pressure_cache = pos 0;
  pressure_cache_ts = pos 0;
  started_at = pos 0;
}

abbrev start : World ℤ String
start = record { metrics = fresh_metrics; queue = []; flight = []; parked = [] }

-- two events arrive, and the click is taken and shed
abbrev after_put : Metrics ℤ String
after_put =
    observe_ingest half (observe_ingest half fresh_metrics a_payment (whole 100)) a_click
      (whole 101)

abbrev after_get : Metrics ℤ String
after_get = observe_dequeue after_put a_click (whole 102)

abbrev after_shed : Metrics ℤ String
after_shed =
    observe_defer
      (observe_decision after_get a_click Decision.shed "overload" (pos 960000) (whole 102)).0

abbrev end : World ℤ String
end = record { metrics = after_shed; queue = a_payment ∷ []; flight = []; parked = [] }

run : Reach half start end
run =
    next
      (next (next (next here (put a_payment (whole 100))) (put a_click (whole 101)))
        (get a_click (whole 102) [] (a_payment ∷ []) refl))
      (ended a_click Decision.shed "overload" (pos 960000) (whole 102) [] [] refl refl)

Reach-conserves_example :
    (check_conservation after_shed (pos 0) ≡ after_shed)
    × (after_shed.counters.in_queue ≡ 1)
    × (after_shed.counters.in_flight ≡ 0)
Reach-conserves_example =
    Reach-conserves half (record { queue = refl; flight = refl; balance = refl }) run

abbrev live : Weights ℤ
live = record {
  score = record { w1 = pos 700000; w2 = pos 300000 };
  pressure = record { a = pos 350000; b = pos 350000; c = pos 200000; d = pos 100000 };
}

live-IsLive : IsLive live
unfolding sum_from
live-IsLive = record {
  w1 = refl;
  w2 = refl;
  pressure = record { a = refl; b = refl; c = refl; d = refl };
  total = refl;
}

abbrev slider : Updates ℤ
slider = record {
  w1 = some (pos 200000);
  w2 = none;
  a = none;
  b = some (pos 900000);
  c = none;
  d = none;
}

-- `int(x)` of a number of millionths
abbrev truncated : ℤ → ℤ
truncated (pos n) = pos (n / 1000000)
truncated (negsuc n) = sub_ℕ 0 (suc n / 1000000)

abbrev observations : List (Observation ℤ)
observations =
    record { type = click; payload_size = 100; cost = whole 2 }
    ∷ record { type = payment; payload_size = 300; cost = whole 1 }
    ∷ []
