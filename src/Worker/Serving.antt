-- ===== src/Worker/Serving.antt =====
-- src/triage/worker.py: _dispatch_off_path, and the parts of serve and of _serve_batch before and
-- after their sleeps. The Boolean of a result says that no exception was raised.
use vh26_crackers.Base.{
  ℕ, suc, ◌+◌, ℤ, Bool, true, false, List, [], ◌∷◌, Option, none, some, Floats, if◌then◌else◌, zero,
}
use vh26_crackers.Contracts.{Event, EventType, click, log, Decision, defer, sample_rollup}
use vh26_crackers.Decision.{Reason}
use vh26_crackers.Costmodel.{CostModel}
use vh26_crackers.Costmodel
use vh26_crackers.Ladder.Reservoir.{Rollup, add}
use vh26_crackers.Sink.Rollups.{RollupSink, WriteResult, write_rollup}
use vh26_crackers.Checkpoint.{CheckpointStore, begin, mark_done}
use vh26_crackers.Deferral.{DeferralStore, Result, ok, value_error, local}
use vh26_crackers.Deferral
use vh26_crackers.Metrics.{
  observe_complete, observe_defer, observe_exactly_once_violation, observe_rollup,
}
use vh26_crackers.Worker.Pool.{
  Pool, Setup, Stage, Progress, awaits, served, sampled, shed, dropped, leave, finally_done,
  observe,
}

module _ {F S : Type 0} where
  -- a P0 event would be refused, and be lost
  unfoldable pub deferred :
      Pool F S → Event F → Result (DeferralStore F (Reason F)) → Pool F S × Bool
  deferred p e (ok buffer) =
      (record p { buffer = buffer; deferred_count = p.deferred_count + 1 }, true)
  deferred p e value_error = (leave (dropped e) p, false)

  unfoldable pub begin_all : Pool F S → List (Event F) → ℤ → F → Pool F S
  unfolding begin
  begin_all p [] worker_id now = p
  begin_all p (e ∷ es) worker_id now =
      begin_all (record p { checkpoint = (begin p.checkpoint e worker_id now).0 }) es worker_id now

  -- `serve` up to its sleep
  unfoldable pub serve : Pool F S → Event F → ℤ → F → Pool F S
  unfolding begin_all
  serve p e worker_id now = begin_all p (e ∷ []) worker_id now

  -- `_serve_batch` up to its sleep
  unfoldable pub serve_batch : Pool F S → List (Event F) → ℤ → F → Pool F S × Progress F
  unfolding begin_all
  serve_batch p batch worker_id now =
      (begin_all p batch worker_id now, awaits (Stage.batching batch))

  -- `if not self._checkpoint.mark_done(event.event_id)`
  unfoldable pub marked : Pool F S → CheckpointStore F × Bool → Pool F S
  unfolding observe_exactly_once_violation
  marked p (store, true) = record p { checkpoint = store }
  marked p (store, false) = record p {
    checkpoint = store;
    metrics = observe_exactly_once_violation p.metrics;
  }

  unfoldable pub done_times : ℕ → Pool F S → Pool F S × Bool
  unfolding finally_done
  done_times zero p = (p, true)
  done_times (suc n) p =
      let (p', fine) = finally_done p true in
      let rest = done_times n p' in if fine then rest else (p', false)

module _ {F S : Type 0} ⦃fl : Floats F⦄ where
  unfoldable pub persisted : Pool F S → Rollup F → RollupSink F × WriteResult → Pool F S × Bool
  unfolding observe_rollup
  persisted p r (store, WriteResult.integrity_error) = (record p { rollups = store }, false)
  persisted p r (store, WriteResult.written id) =
      (record p { rollups = store; metrics = observe_rollup p.metrics r }, true)

  unfoldable pub sampled_into : Pool F S → Event F → Option (Rollup F) → F → Pool F S × Bool
  unfolding persisted write_rollup
  sampled_into p e none now =
      (leave (sampled e) (record p { sampled_count = p.sampled_count + 1 }), true)
  sampled_into p e (some r) now =
      persisted (leave (sampled e) (record p { sampled_count = p.sampled_count + 1 })) r
        (write_rollup p.rollups r now)

  -- there are reservoirs for clicks and logs only: another type raises `ValueError`
  unfoldable pub add_to_reservoir : EventType → Pool F S → Event F → F → Pool F S × Bool
  unfolding sampled_into add
  add_to_reservoir click p e now =
      let (reservoir, rollup) = add p.click_reservoir e now in
      sampled_into (record p { click_reservoir = reservoir }) e rollup now
  add_to_reservoir log p e now =
      let (reservoir, rollup) = add p.log_reservoir e now in
      sampled_into (record p { log_reservoir = reservoir }) e rollup now
  add_to_reservoir _ p e now = (leave (sampled e) p, false)

  unfoldable pub off_path : Pool F S → Event F → Decision → Reason F → F → Pool F S × Bool
  unfolding deferred add_to_reservoir Deferral.defer
  off_path p e defer reason now = deferred p e (Deferral.defer p.buffer e reason now local)
  off_path p e sample_rollup reason now = add_to_reservoir e.type p e now
  off_path p e Decision.shed reason now =
      (leave (shed e) (record p { shed_count = p.shed_count + 1 }), true)
  off_path p e _ reason now = (p, true)

  unfoldable pub dispatch_off_path :
      Pool F S → Event F → Decision → Reason F → F → F → Pool F S × Bool
  unfolding observe observe_defer off_path
  dispatch_off_path p e result reason pressure now =
      let seen = observe p e result reason pressure now in
      off_path (record seen { metrics = observe_defer seen.metrics }) e result reason now

  unfoldable pub learned : Setup F S → Option (CostModel F) → Event F → Option (CostModel F)
  unfolding Costmodel.observe
  learned c none e = none
  learned c (some m) e = some (Costmodel.observe c.trunc_ℤ c.alpha m e.type e.payload_size e.cost)

  -- the rest of `serve` after the write, if that did not raise
  unfoldable pub written : Setup F S → Pool F S → Event F → Option S → Pool F S × Bool
  unfolding learned marked mark_done
  written c p e none = (p, false)
  written c p e (some sink) = (
    marked
        (leave (served e) (record p {
          sink = sink;
          served_count = p.served_count + 1;
          cost_model = learned c p.cost_model e;
        }))
        (mark_done p.checkpoint e.event_id),
    true,
  )

  -- `serve` after its sleep, and what `_serve_batch` does for each member
  unfoldable pub completed : Setup F S → Pool F S → Event F → F → Pool F S × Bool
  unfolding written observe_complete
  completed c p e now =
      written c (record p { metrics = observe_complete c.half_power p.metrics e now }) e
        (c.sink_write p.sink e)
