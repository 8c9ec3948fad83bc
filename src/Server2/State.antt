-- ===== src/Server2/State.antt =====
-- src/triage/server2.py: the state of the process, its pressure, and what a dequeued event does to
-- it. `_Ewma` is the one of metrics.py again, so its functions are those of Metrics/Rate.
use vh26_crackers.Base.{
  ℕ, ◌+◌, ℤ, pos, ◌+ℤ◌, ◌-ℤ◌, ltb, Bool, List, Option, none, some, Floats, ◌≤?◌, ◌⊕◌, ◌⊖◌, ◌⊗◌, ◌⊘◌,
  of_int, fmin, fmax, if◌then◌else◌,
}
use vh26_crackers.Contracts.{Event, Tier, is_p0, is_p2, is_click, Decision}
use vh26_crackers.Decision.{PressureWeights, pressure, Reason, decide}
use vh26_crackers.Ladder.{cap, decision_rung, rung_decision, escalate}
use vh26_crackers.Ladder.Reservoir.{Rollup, ReservoirSampler}
use vh26_crackers.Codel.{CoDelController, update}
use vh26_crackers.Worker.{escalated}
use vh26_crackers.Metrics.Rate.{Ewma, with_trend, observe_amount}
use vh26_crackers.Metrics.State.{push_bounded}
use vh26_crackers.Metrics.Percentile.{percentile}
use vh26_crackers.Server2.{Reading, P1P2Queue, size}

-- `_ServerState`; the reservoirs are those of clicks and of logs
pub record ServerState (F : Type 0) : Type 0 where
  pub queue : P1P2Queue F
  pub worker_count : ℕ
  pub per_worker_rate : F
  pub sla_reference : F
  pub processed_count : ℕ
  pub batched_count : ℕ
  pub in_flight : ℤ
  pub draining : Bool
  pub latency_ms : List F
  pub queue_wait_ms : List F
  pub arrival_ewma : Ewma F
  pub service_ewma : Ewma F
  pub codel : CoDelController F
  pub click_reservoir : ReservoirSampler F
  pub log_reservoir : ReservoirSampler F
  pub deferred_count : ℕ
  pub sampled_count : ℕ
  pub shed_count : ℕ
  pub shed_critical_count : ℕ
  pub rollups_persisted_count : ℕ
  pub true_click_count : ℕ
  pub weighted_click_count : F
  pub workers_killed_count : ℕ
  pub p1_rung : ℕ
  pub p2_rung : ℕ
  pub pressure_cache : F
  pub pressure_cache_ts : F

-- What the process reads besides: the selection of the queue, the live pressure weights, `0.5 ** x`,
-- and `int(x)`.
pub record Env (F : Type 0) : Type 0 where
  pub selection : Reading F
  pub weights : PressureWeights F
  pub half_power : F → F
  pub trunc : F → ℕ

-- A call of ingress. An exception of the call is caught, and changes nothing here.
pub data Post (F : Type 0) : Type 0 where
  ack : List (Event F) → Decision → Reason F → F → Post F
  deferred : Event F → Reason F → Post F
  shed : Event F → Reason F → F → Post F
  resolved : Event F → Post F
  rollup : Rollup F → Post F

abbrev pub max_one : ℕ → ℕ
max_one n = if ltb n 1 then 1 else n

abbrev pub latency_window : ℕ
latency_window = 4096

module _ {F : Type 0} ⦃fl : Floats F⦄ where
  abbrev pub qdepth_saturation : F
  qdepth_saturation = of_int 500

  abbrev pub pressure_refresh_seconds : F
  pressure_refresh_seconds = fl.lit 5 2

  -- an index that is out of range would raise; that case is taken as zero
  abbrev pub or_zero : Option F → F
  or_zero none = of_int 0
  or_zero (some x) = x

  unfoldable pub compute_pressure : Env F → ServerState F → F
  unfolding size percentile with_trend
  compute_pressure env s =
      let workers : F = of_int (max_one s.worker_count) in
      pressure
        (record {
          qdepth = of_int (size s.queue);
          qmax = qdepth_saturation;
          arrival_rate_ewma_with_trend = with_trend s.arrival_ewma;
          service_rate = fmax (with_trend s.service_ewma) (s.per_worker_rate ⊗ workers);
          p95_sojourn = or_zero (percentile env.trunc s.queue_wait_ms (fl.lit 95 2)) ⊘ of_int 1000;
          sla_reference = s.sla_reference;
          worker_util = fmin (fl.int s.in_flight ⊘ workers) (of_int 1);
        })
        env.weights

  -- the value is computed anew when the cached one is too old
  unfoldable pub pressure_value : Env F → ServerState F → F → ServerState F × F
  unfolding compute_pressure
  pressure_value env s now =
      if pressure_refresh_seconds ≤? now ⊖ s.pressure_cache_ts
      then (
        record s { pressure_cache = compute_pressure env s; pressure_cache_ts = now },
        compute_pressure env s,
      )
      else (s, s.pressure_cache)

  unfoldable pub note_dequeue : ServerState F → Event F → F → ServerState F
  unfolding push_bounded update
  note_dequeue s e now =
      let wait_ms = fmax (of_int 0) ((now ⊖ e.ingest_ts) ⊗ of_int 1000) in
      record s {
        queue_wait_ms = push_bounded latency_window s.queue_wait_ms wait_ms;
        codel = if is_p2 e.tier then update s.codel (wait_ms ⊘ of_int 1000) now else s.codel;
        in_flight = s.in_flight +ℤ pos 1;
      }

  -- the answer capped at the tier's rung
  abbrev pub under_ceiling : Tier → Decision × Reason F → Decision × Reason F
  under_ceiling tier (d, reason) = (rung_decision (cap tier (decision_rung d)), reason)

  -- none is the failed assertion that the event is not P0
  unfoldable pub resolve : ServerState F → Event F → F → F → Option (Decision × Reason F)
  unfolding decide escalate escalated cap decision_rung rung_decision
  resolve s e p now =
      if is_p0 e.tier
      then none
      else let base = decide e p now s.per_worker_rate none in
        some (
          under_ceiling e.tier (
            if is_p2 e.tier
            then escalated (escalate e.tier base.0 p s.codel.sampling) base
            else base))

  -- what `_serve` and `_serve_batch` do for each event once its time has passed
  unfoldable pub completed : Env F → ServerState F → Event F → F → ServerState F
  unfolding push_bounded observe_amount
  completed env s e now = record s {
    in_flight = s.in_flight -ℤ pos 1;
    processed_count = s.processed_count + 1;
    latency_ms =
        push_bounded latency_window s.latency_ms
          (fmax (of_int 0) ((now ⊖ e.ingest_ts) ⊗ of_int 1000));
    service_ewma = observe_amount env.half_power s.service_ewma e.cost now;
    weighted_click_count =
        if is_click e.type then s.weighted_click_count ⊕ of_int 1 else s.weighted_click_count;
  }
