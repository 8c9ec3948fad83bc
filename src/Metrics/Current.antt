-- ===== src/Metrics/Current.antt =====
-- src/triage/metrics.py: the pressure that the workers read, and the reset of the module. `int(x)`
-- of a float is Python's, and a parameter. ladder.py's reservoirs, which `reset` also clears, are
-- not variables of this module.
use vh26_crackers.Base.{
  ℕ, ◌+◌, List, [], ◌∷◌, ltb, Option, none, some, pos, Floats, ◌≤?◌, ◌⊖◌, ◌⊘◌, of_int, fmin,
  if◌then◌else◌,
}
use vh26_crackers.Contracts.{p1, Mode, adaptive}
use vh26_crackers.Config.{Config, TierSpec, sla_seconds, tiers_of}
use vh26_crackers.Decision.{PressureWeights, pressure}
use vh26_crackers.Codel
use vh26_crackers.Metrics.Rate.{with_trend, reset_ewma}
use vh26_crackers.Metrics.State.{Metrics, PerTier}
use vh26_crackers.Metrics.Percentile.{percentile}

abbrev pub per_tier : {A : Type 0} → A → PerTier A
per_tier x = record { p0_of = x; p1_of = x; p2_of = x }

module _ {F : Type 0} ⦃fl : Floats F⦄ where
  abbrev pub qdepth_saturation : F
  qdepth_saturation = of_int 500

  abbrev pub pressure_refresh_seconds : F
  pressure_refresh_seconds = fl.lit 5 2

  -- `min(spec.sla_seconds for spec in ...)`, of which there is at least one in a table that loads
  unfoldable pub least_sla : F → List (TierSpec F) → F
  least_sla best [] = best
  least_sla best (s ∷ rest) = least_sla (fmin best (sla_seconds s)) rest

  -- an empty sequence would raise; that case is taken as zero
  unfoldable pub sla_reference : List (TierSpec F) → F
  unfolding least_sla sla_seconds
  sla_reference [] = of_int 0
  sla_reference (s ∷ rest) = least_sla (sla_seconds s) rest

  -- an index that is out of range would raise; that case is taken as zero
  abbrev pub or_zero : Option F → F
  or_zero none = of_int 0
  or_zero (some x) = x

module _ {F R : Type 0} ⦃fl : Floats F⦄ where
  unfoldable pub compute_pressure : (F → ℕ) → PressureWeights F → Config F → Metrics F R → F
  unfolding sla_reference tiers_of percentile with_trend
  compute_pressure trunc weights config m =
      pressure
        (record {
          qdepth = of_int (m.queue_depth.p0_of + m.queue_depth.p1_of + m.queue_depth.p2_of);
          qmax = qdepth_saturation;
          arrival_rate_ewma_with_trend = with_trend m.arrival_rate;
          service_rate = with_trend m.service_rate;
          p95_sojourn = or_zero (percentile trunc m.queue_wait_ms_all (fl.lit 95 2)) ⊘ of_int 1000;
          sla_reference = sla_reference (tiers_of config p1 config.types);
          worker_util =
              if ltb 0 config.worker_count
              then fmin (fl.int (pos m.counters.in_flight) ⊘ of_int config.worker_count) (of_int 1)
              else of_int 0;
        })
        weights

  -- the value is computed anew when the cached one is too old
  unfoldable pub current_pressure :
      (F → ℕ) → PressureWeights F → Config F → Metrics F R → F → Metrics F R × F
  unfolding compute_pressure
  current_pressure trunc weights config m now =
      if pressure_refresh_seconds ≤? now ⊖ m.pressure_cache_ts
      then (
        record m {
          pressure_cache = compute_pressure trunc weights config m;
          pressure_cache_ts = now;
        },
        compute_pressure trunc weights config m,
      )
      else (m, m.pressure_cache)

  -- `_critical_failures` alone keeps what it has
  unfoldable pub reset : Metrics F R → F → Metrics F R
  unfolding reset_ewma
  reset m now = record m {
    counters = record {
      ingested = 0;
      processed = 0;
      in_queue = 0;
      in_flight = 0;
      sampled_out = 0;
      shed = 0;
      true_click_count = 0;
      retries = 0;
      exactly_once_violations = 0;
      duplicates_caught = 0;
    };
    queue_depth = per_tier 0;
    latency_ms = per_tier [];
    latency_ms_all = [];
    queue_wait_ms = per_tier [];
    queue_wait_ms_all = [];
    sla_met = per_tier 0;
    sla_missed = per_tier 0;
    value_delivered = of_int 0;
    value_shed = of_int 0;
    weighted_click_count = of_int 0;
    ladder_rung = per_tier 0;
    recent_decisions = [];
    recent_sheds = [];
    replay_admitted_at = [];
    arrival_rate = reset_ewma m.arrival_rate;
    service_rate = reset_ewma m.service_rate;
    offered_rate = reset_ewma m.offered_rate;
    admitted_rate = reset_ewma m.admitted_rate;
    codel = Codel.reset m.codel;
    mode = adaptive;
    pressure_cache = of_int 0;
    pressure_cache_ts = of_int 0;
    started_at = now;
  }

  unfoldable pub set_mode : Metrics F R → Mode → Metrics F R
  set_mode m mode = record m { mode = mode }
