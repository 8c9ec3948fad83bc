-- ===== src/Metrics.antt =====
-- src/triage/metrics.py: the observation points, as functions on the module's variables.
pub mod Percentile
pub mod Rate
pub mod State
pub mod Conservation
pub mod Pipeline
pub mod Current
use vh26_crackers.Base.{
  ℕ, suc, ◌+◌, Bool, true, false, not, ◌&&◌, ℤ, pos, ◌+ℤ◌, eq_ℤ, List, [], ◌∷◌, take, String,
  Floats, ◌≤?◌, ◌⊕◌, ◌⊖◌, ◌⊗◌, ◌⊘◌, of_int, fmax, if◌then◌else◌,
}
use vh26_crackers.Contracts.{
  Event, is_p0, is_p2, is_click, Decision, shed, DecisionTrace, ShedRecord,
}
use vh26_crackers.Codel.{update}
use vh26_crackers.Ladder.{value, decision_rung}
use vh26_crackers.Ladder.Reservoir.{Rollup}
use vh26_crackers.Metrics.Rate.{observe_amount}
use vh26_crackers.Metrics.State.{
  Metrics, LedgerCall, record_trace, record_row, window_size, recent_size, at_tier, push_bounded,
  lookup, without, pred, is_stream_now, is_shed, count_ingest, count_dequeue, count_complete,
  count_decision,
}

module _ {F : Type 0} ⦃fl : Floats F⦄ where
  -- `event.deadline_ts`, as a truth value
  abbrev pub has_deadline : Event F → Bool
  has_deadline e = not (e.deadline_ts ≤? of_int 0 && of_int 0 ≤? e.deadline_ts)

module _ {F R : Type 0} where
  unfoldable pub observe_defer : Metrics F R → Metrics F R
  observe_defer m = record m {
    counters = record m.counters { in_flight = pred m.counters.in_flight };
  }

  unfoldable pub observe_retry : Metrics F R → Metrics F R
  observe_retry m = record m {
    counters = record m.counters {
      in_flight = pred m.counters.in_flight;
      retries = m.counters.retries + 1;
    };
  }

  unfoldable pub observe_exactly_once_violation : Metrics F R → Metrics F R
  observe_exactly_once_violation m = record m {
    counters = record m.counters {
      exactly_once_violations = m.counters.exactly_once_violations + 1;
    };
  }

  unfoldable pub observe_duplicate_caught : Metrics F R → Metrics F R
  observe_duplicate_caught m = record m {
    counters = record m.counters { duplicates_caught = m.counters.duplicates_caught + 1 };
  }

  unfoldable pub observe_replay : Metrics F R → Event F → F → Metrics F R
  unfolding at_tier without
  observe_replay m e now = record m {
    counters = record m.counters { in_queue = m.counters.in_queue + 1 };
    queue_depth = at_tier suc e.tier m.queue_depth;
    replay_admitted_at = (e.event_id, now) ∷ without e.event_id m.replay_admitted_at;
  }

  -- `_check_conservation`, which `snapshot` calls with `deferral.pending_count()`
  unfoldable pub check_conservation : Metrics F R → ℤ → Metrics F R
  check_conservation m deferred_pending =
      let c = m.counters in
      let total =
        pos (c.processed + c.in_queue + c.in_flight + c.sampled_out + c.shed) +ℤ deferred_pending in
      if eq_ℤ (pos c.ingested) total
      then m
      else record m { critical_failure_count = m.critical_failure_count + 1 }

module _ {F R : Type 0} ⦃fl : Floats F⦄ (half_power : F → F) where
  unfoldable pub observe_admission : Metrics F R → F → Bool → F → Metrics F R
  observe_admission m cost admitted now = record m {
    offered_rate = observe_amount half_power m.offered_rate cost now;
    admitted_rate =
        if admitted then observe_amount half_power m.admitted_rate cost now else m.admitted_rate;
  }

  unfoldable pub observe_ingest : Metrics F R → Event F → F → Metrics F R
  unfolding at_tier count_ingest
  observe_ingest m e now = record m {
    counters = count_ingest (is_click e.type) m.counters;
    queue_depth = at_tier suc e.tier m.queue_depth;
    arrival_rate = observe_amount half_power m.arrival_rate e.cost now;
  }

  unfoldable pub observe_complete : Metrics F R → Event F → F → Metrics F R
  unfolding at_tier count_complete push_bounded
  observe_complete m e now =
      let latency = fmax (of_int 0) ((now ⊖ e.ingest_ts) ⊗ fl.lit 10000 1) in
      let in_time = now ≤? e.deadline_ts in
      record m {
        counters = count_complete m.counters;
        weighted_click_count =
            if is_click e.type
            then m.weighted_click_count ⊕ fl.lit 10 1
            else m.weighted_click_count;
        latency_ms = at_tier (λ xs. push_bounded window_size xs latency) e.tier m.latency_ms;
        latency_ms_all = push_bounded window_size m.latency_ms_all latency;
        service_rate = observe_amount half_power m.service_rate e.cost now;
        sla_met = if has_deadline e && in_time then at_tier suc e.tier m.sla_met else m.sla_met;
        sla_missed =
            if has_deadline e && not in_time then at_tier suc e.tier m.sla_missed else m.sla_missed;
        value_delivered =
            if has_deadline e && not in_time
            then m.value_delivered
            else m.value_delivered ⊕ e.value;
      }

module _ {F R : Type 0} ⦃fl : Floats F⦄ where
  unfoldable pub observe_dequeue : Metrics F R → Event F → F → Metrics F R
  unfolding at_tier count_dequeue push_bounded lookup without
  observe_dequeue m e now =
      let admitted_at = lookup e.event_id e.ingest_ts m.replay_admitted_at in
      let wait = fmax (of_int 0) ((now ⊖ admitted_at) ⊗ fl.lit 10000 1) in
      record m {
        counters = count_dequeue m.counters;
        queue_depth = at_tier pred e.tier m.queue_depth;
        replay_admitted_at = without e.event_id m.replay_admitted_at;
        queue_wait_ms = at_tier (λ xs. push_bounded window_size xs wait) e.tier m.queue_wait_ms;
        queue_wait_ms_all = push_bounded window_size m.queue_wait_ms_all wait;
        codel = if is_p2 e.tier then update m.codel (wait ⊘ fl.lit 10000 1) now else m.codel;
      }

  abbrev pub trace_of : Event F → Decision → R → F → F → DecisionTrace F R
  trace_of e d reason pressure now = record {
    seq = e.seq;
    event_id = e.event_id;
    type = e.type;
    tier = e.tier;
    decision = d;
    reason = reason;
    pressure = pressure;
    value = e.value;
    ts = now;
  }

  abbrev pub shed_of : Event F → R → F → F → ShedRecord F R
  shed_of e reason pressure now = record {
    seq = e.seq;
    event_id = e.event_id;
    type = e.type;
    tier = e.tier;
    reason = reason;
    pressure = pressure;
    value = e.value;
    ts = now;
  }

  -- The variables after the call, and the calls of the ledger in their order.
  unfoldable pub observe_decision :
      Metrics F R → Event F → Decision → R → F → F → Metrics F R × List (LedgerCall F R)
  unfolding at_tier count_decision value decision_rung
  observe_decision m e d reason pressure now = (
    record m {
      counters = count_decision d m.counters;
      ladder_rung = at_tier (λ _. value (decision_rung d)) e.tier m.ladder_rung;
      recent_decisions = take recent_size (trace_of e d reason pressure now ∷ m.recent_decisions);
      critical_failure_count =
          if is_p0 e.tier && not (is_stream_now d)
          then m.critical_failure_count + 1
          else m.critical_failure_count;
      value_shed = if is_shed d then m.value_shed ⊕ e.value else m.value_shed;
      recent_sheds =
          if is_shed d
          then take recent_size (shed_of e reason pressure now ∷ m.recent_sheds)
          else m.recent_sheds;
    },
    record_trace (trace_of e d reason pressure now)
        ∷ record_row e.seq d reason pressure e.tier
        ∷ [],
  )

  unfoldable pub observe_rollup : Metrics F R → Rollup F → Metrics F R
  observe_rollup m r = record m {
    weighted_click_count =
        if is_click r.event_type
        then m.weighted_click_count ⊕ fl.int (pos r.observed_count) ⊗ r.sample_weight
        else m.weighted_click_count;
  }
