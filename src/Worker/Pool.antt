-- ===== src/Worker/Pool.antt =====
-- src/triage/worker.py: the state of class WorkerPool, with what its workers share: the queue, the
-- counters of metrics.py, the checkpoint table, the learned costs, the deferral buffer, the
-- reservoirs of ladder.py, and the sink. A worker's task runs without interruption between two of
-- its awaits, so it is a stage: the await that it stands at, with its local variables.
use vh26_crackers.Base.{
  ℕ, ◌+◌, ℤ, Bool, true, false, ◌&&◌, List, [], ◌∷◌, ◌++◌, map, length, Option, none, some, Floats,
}
use vh26_crackers.Contracts.{Event, Decision}
use vh26_crackers.Config.{Config}
use vh26_crackers.Decision.{Reason, ScoreWeights, PressureWeights}
use vh26_crackers.Costmodel.{CostModel, estimate}
use vh26_crackers.Ladder.Reservoir.{ReservoirSampler}
use vh26_crackers.Sink.Rollups.{RollupSink}
use vh26_crackers.Checkpoint.{CheckpointStore}
use vh26_crackers.Checkpoint
use vh26_crackers.Deferral.{DeferralStore}
use vh26_crackers.Queue.{EventQueue, Selection, enqueue}
use vh26_crackers.Queue.Naive.{try_take, task_done}
use vh26_crackers.Metrics.State.{Metrics, LedgerCall}
use vh26_crackers.Metrics.{observe_dequeue, observe_decision, observe_replay, observe_retry}
use vh26_crackers.Worker.{Readings, resolve}

-- what becomes of an event that the program holds no longer
pub data Gone (F : Type 0) : Type 0 where
  served sampled shed dropped : Event F → Gone F

-- The program keeps no `gone`: it is there to say where each event went, the latest first.
pub record Pool (F S : Type 0) : Type 0 where
  pub queue : EventQueue F
  pub metrics : Metrics F (Reason F)
  pub checkpoint : CheckpointStore F
  pub cost_model : Option (CostModel F)
  pub buffer : DeferralStore F (Reason F)
  pub click_reservoir : ReservoirSampler F
  pub log_reservoir : ReservoirSampler F
  pub rollups : RollupSink F
  pub ledger : List (LedgerCall F (Reason F))
  pub sink : S
  pub served_count : ℕ
  pub batched_count : ℕ
  pub deferred_count : ℕ
  pub sampled_count : ℕ
  pub shed_count : ℕ
  pub recovered_count : ℕ
  pub gone : List (Gone F)

-- What does not change: the configuration and the live weights, Python's `0.5 ** x`, `int(x)` and
-- `==`, the smoothing factor of the learned costs, and the sink's writer (none: it raises).
pub record Setup (F S : Type 0) : Type 0 where
  pub config : Config F
  pub score_weights : ScoreWeights F
  pub pressure_weights : PressureWeights F
  pub half_power : F → F
  pub trunc : F → ℕ
  pub trunc_ℤ : F → ℤ
  pub alpha : F
  pub equal : Event F → Event F → Bool
  pub sink_write : S → Event F → Option S

-- The await at which a worker stands: the queue's, the sleep of `serve` (called by `_handle`
-- directly, or for an extra event with the batch so far and the pressure), the sleep of
-- `_serve_batch`, and its `sleep(0)` before a member (with the batch's size, the time of
-- completion, and the members that are left).
pub data Stage (F : Type 0) : Type 0 where
  waiting : Stage F
  serving : Event F → Stage F
  serving_extra : List (Event F) → F → Event F → Stage F
  batching : List (Event F) → Stage F
  finishing : ℕ → F → List (Event F) → Stage F

-- how far a worker got with `_handle`
pub data Progress (F : Type 0) : Type 0 where
  awaits : Stage F → Progress F
  returns : Progress F
  raises : Progress F

module _ {F : Type 0} where
  unfoldable pub event_of : Gone F → Event F
  event_of (served e) = e
  event_of (sampled e) = e
  event_of (shed e) = e
  event_of (dropped e) = e

  -- the events with a checkpoint row, and those in a local variable alone
  abbrev pub begun : Stage F → List (Event F)
  begun waiting = []
  begun (serving e) = e ∷ []
  begun (serving_extra batch p extra) = extra ∷ []
  begun (batching batch) = batch
  begun (finishing n now todo) = todo

  abbrev pub unbegun : Stage F → List (Event F)
  unbegun waiting = []
  unbegun (serving e) = []
  unbegun (serving_extra batch p extra) = batch
  unbegun (batching batch) = []
  unbegun (finishing n now todo) = []

module _ {F S : Type 0} where
  abbrev pub leave : Gone F → Pool F S → Pool F S
  leave g p = record p { gone = g ∷ p.gone }

  -- local variables that are lost with their task or their call
  unfoldable pub drop_all : List (Event F) → Pool F S → Pool F S
  drop_all es p = record p { gone = map dropped es ++ p.gone }

  unfoldable pub done : Pool F S → Option (EventQueue F) → Pool F S × Bool
  done p none = (p, false)
  done p (some q) = (record p { queue = q }, true)

  -- `finally: self.queue.task_done()`, after a block that ended without an exception or with one
  unfoldable pub finally_done : Pool F S → Bool → Pool F S × Bool
  unfolding done task_done
  finally_done p fine = let (p', counted) = done p (task_done p.queue) in (p', fine && counted)

  -- `metrics.observe_retry(event)`, `self.queue.put_replayed(event)`
  unfoldable pub put_back : Pool F S → List (Event F) → F → Pool F S
  unfolding observe_retry observe_replay enqueue
  put_back p [] now = p
  put_back p (e ∷ es) now =
      put_back
        (record p {
          metrics = observe_replay (observe_retry p.metrics) e now;
          queue = enqueue p.queue e;
        })
        es now

  unfoldable pub recover_worker : Pool F S → ℤ → F → Pool F S
  unfolding put_back Checkpoint.recover_worker
  recover_worker p worker_id now =
      let (store, orphaned) = Checkpoint.recover_worker p.checkpoint worker_id in
      let back = put_back (record p { checkpoint = store }) orphaned now in
      record back { recovered_count = back.recovered_count + length orphaned }

module _ {F S : Type 0} ⦃fl : Floats F⦄ where
  unfoldable pub estimate_of : Setup F S → Option (CostModel F) → Event F → Option F
  unfolding estimate
  estimate_of c none e = none
  estimate_of c (some m) e = some (estimate c.trunc_ℤ m e.type e.payload_size)

  abbrev pub selection : Setup F S → Pool F S → Selection F
  selection c p = record {
    capacity = c.config.worker_capacity_ups;
    weights = c.score_weights;
    estimate = estimate_of c p.cost_model;
    equal = c.equal;
  }

  abbrev pub readings : Setup F S → Pool F S → Readings F
  readings c p = record {
    capacity = c.config.worker_capacity_ups;
    estimate = estimate_of c p.cost_model;
    already_deferred = p.buffer.already_deferred;
    is_sampling = p.metrics.codel.sampling;
  }

  unfoldable pub got : Pool F S → F → Option (Event F × EventQueue F) → Option (Event F × Pool F S)
  unfolding observe_dequeue
  got p now none = none
  got p now (some (e, rest)) =
      some (e, record p { queue = rest; metrics = observe_dequeue p.metrics e now })

  -- `queue.try_get()`, and `queue.get()` once there is an event
  unfoldable pub try_get : Setup F S → Pool F S → F → Option (Event F × Pool F S)
  unfolding got try_take
  try_get c p now = got p now (try_take (selection c p) p.queue now)

  unfoldable pub decided : Setup F S → Pool F S → Event F → F → F → Decision × Reason F
  unfolding resolve
  decided c p e pressure now = resolve (readings c p) e pressure now

  -- `metrics.observe_decision`, with its calls of the ledger
  unfoldable pub observe : Pool F S → Event F → Decision → Reason F → F → F → Pool F S
  unfolding observe_decision
  observe p e d reason pressure now =
      let (m, calls) = observe_decision p.metrics e d reason pressure now in
      record p { metrics = m; ledger = p.ledger ++ calls }
