-- ===== src/Metrics/Conservation.antt =====
-- The conservation equation of src/triage/metrics.py, for each observation point that moves an event.
use vh26_crackers.Base.{ℕ, suc, ◌+◌, ◌≡◌, Bool, true, false, pos, Floats, arith}
use vh26_crackers.Contracts.{Event, Decision, stream_now, micro_batch, defer, sample_rollup, shed}
use vh26_crackers.Metrics.State.{
  Metrics, Counters, count_ingest, count_dequeue, count_complete, count_decision,
}
use vh26_crackers.Metrics.{
  observe_ingest, observe_replay, observe_dequeue, observe_complete, observe_defer, observe_retry,
  observe_decision, check_conservation,
}

-- The three counters of events that are somewhere, and every event is somewhere: `queued`, `held`
-- and `parked` are how many wait in the queue, are in a worker's hands, and are deferred.
pub record Conserved (c : Counters) (queued held parked : ℕ) : Type 0 where
  pub queue : c.in_queue ≡ queued
  pub flight : c.in_flight ≡ held
  pub balance : c.ingested ≡ c.processed + queued + held + parked + c.sampled_out + c.shed

-- the decisions that end an event
abbrev pub ends : Decision → Bool
ends sample_rollup = true
ends shed = true
ends stream_now = false
ends micro_batch = false
ends defer = false

module _ {F R : Type 0} where
  pub observe_replay-Conserved :
      (m : Metrics F R) (e : Event F) (now : F) (q h p : ℕ)
      → Conserved m.counters q h (suc p)
      → Conserved (observe_replay m e now).counters (suc q) h p
  unfolding observe_replay
  observe_replay-Conserved m e now q h p c = record {
    queue = omega (arith, c.queue);
    flight = c.flight;
    balance = omega (arith, c.balance);
  }

  -- a worker's death gives the event back to the queue: `observe_retry`, then `observe_replay`
  pub observe_retry-Conserved :
      (m : Metrics F R) (e : Event F) (now : F) (q h p : ℕ)
      → Conserved m.counters q (suc h) p
      → Conserved (observe_replay (observe_retry m) e now).counters (suc q) h p
  unfolding observe_replay observe_retry
  observe_retry-Conserved m e now q h p c = record {
    queue = omega (arith, c.queue);
    flight = omega (arith, c.flight);
    balance = omega (arith, c.balance);
  }

  -- The check stays silent exactly on conserved counters.
  pub check_conservation-Conserved :
      (m : Metrics F R) (q h p : ℕ) → Conserved m.counters q h p → check_conservation m (pos p) ≡ m
  unfolding check_conservation
  check_conservation-Conserved m q h p c = ground (arith, c.queue, c.flight, c.balance)

module _ {F R : Type 0} ⦃fl : Floats F⦄ where
  pub observe_dequeue-Conserved :
      (m : Metrics F R) (e : Event F) (now : F) (q h p : ℕ)
      → Conserved m.counters (suc q) h p
      → Conserved (observe_dequeue m e now).counters q (suc h) p
  unfolding observe_dequeue count_dequeue
  observe_dequeue-Conserved m e now q h p c = record {
    queue = omega (arith, c.queue);
    flight = omega (arith, c.flight);
    balance = omega (arith, c.balance);
  }

  -- an event that is sampled or shed leaves the worker for good
  pub ends-Conserved :
      (m : Metrics F R) (e : Event F) (d : Decision) (reason : R) (pressure now : F) (q h p : ℕ)
      → ends d ≡ true
      → Conserved m.counters q (suc h) p
      → Conserved (observe_defer (observe_decision m e d reason pressure now).0).counters q h p
  unfolding observe_defer observe_decision count_decision
  ends-Conserved m e d reason pressure now q h p final c = record {
    queue = ground (arith, c.queue);
    flight = ground (arith, c.flight);
    balance = ground (arith, c.balance);
  }

  -- an event that is deferred is parked
  pub parks-Conserved :
      (m : Metrics F R) (e : Event F) (reason : R) (pressure now : F) (q h p : ℕ)
      → Conserved m.counters q (suc h) p
      → Conserved
          (observe_defer (observe_decision m e defer reason pressure now).0).counters
          q
          h
          (suc p)
  unfolding observe_defer observe_decision count_decision
  parks-Conserved m e reason pressure now q h p c = record {
    queue = c.queue;
    flight = omega (arith, c.flight);
    balance = omega (arith, c.balance);
  }

  -- an event that joins a batch stays with the worker
  pub batched-Conserved :
      (m : Metrics F R) (e : Event F) (reason : R) (pressure now : F) (q h p : ℕ)
      → Conserved m.counters q h p
      → Conserved (observe_decision m e micro_batch reason pressure now).0.counters q h p
  unfolding observe_decision count_decision
  batched-Conserved m e reason pressure now q h p c = record {
    queue = c.queue;
    flight = c.flight;
    balance = c.balance;
  }

module _ {F R : Type 0} ⦃fl : Floats F⦄ (half_power : F → F) where
  pub observe_ingest-Conserved :
      (m : Metrics F R) (e : Event F) (now : F) (q h p : ℕ)
      → Conserved m.counters q h p
      → Conserved (observe_ingest half_power m e now).counters (suc q) h p
  unfolding observe_ingest count_ingest
  observe_ingest-Conserved m e now q h p c = record {
    queue = omega (arith, c.queue);
    flight = c.flight;
    balance = omega (arith, c.balance);
  }

  pub observe_complete-Conserved :
      (m : Metrics F R) (e : Event F) (now : F) (q h p : ℕ)
      → Conserved m.counters q (suc h) p
      → Conserved (observe_complete half_power m e now).counters q h p
  unfolding observe_complete count_complete
  observe_complete-Conserved m e now q h p c = record {
    queue = c.queue;
    flight = omega (arith, c.flight);
    balance = omega (arith, c.balance);
  }
