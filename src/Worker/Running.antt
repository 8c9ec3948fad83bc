-- ===== src/Worker/Running.antt =====
-- The pool of src/triage/worker.py as it runs: which worker goes on, which is killed, what arrives
-- and when the drainer of src/triage/deferral.py ticks is left to the environment. A worker's id is
-- its place on the list, and `_spawn` puts a waiting task in the place of a dead one.
use vh26_crackers.Base.{ℕ, zero, suc, ℤ, pos, List, [], ◌∷◌, some, Floats}
use vh26_crackers.Contracts.{Event}
use vh26_crackers.Queue.{enqueue}
use vh26_crackers.Deferral.{drain_tick, local}
use vh26_crackers.Metrics.{observe_ingest, observe_replay}
use vh26_crackers.Metrics.Current.{current_pressure}
use vh26_crackers.Worker.Pool.{Pool, Setup, Stage}
use vh26_crackers.Worker.Handling.{advance, killed}

pub record World (F S : Type 0) : Type 0 where
  pub pool : Pool F S
  pub workers : List (Stage F)

pub data Action (F : Type 0) : Type 0 where
  arrive : Event F → F → Action F
  wake : ℕ → (ℕ → F) → F → Action F
  kill : ℕ → F → Action F
  drain : F → Action F

-- the worker at a place; a place that is out of range has none
unfoldable pub at_worker : {P W : Type 0} → (ℤ → P → W → P × W) → ℕ → ℕ → P → List W → P × List W
at_worker f i k p [] = (p, [])
at_worker f zero k p (w ∷ ws) = let (p', w') = f (pos k) p w in (p', w' ∷ ws)
at_worker f (suc i) k p (w ∷ ws) = let (p', ws') = at_worker f i (suc k) p ws in (p', w ∷ ws')

module _ {F S : Type 0} where
  unfoldable pub put_replayed : Pool F S → List (Event F) → F → Pool F S
  unfolding observe_replay enqueue
  put_replayed p [] now = p
  put_replayed p (e ∷ es) now =
      put_replayed
        (record p { metrics = observe_replay p.metrics e now; queue = enqueue p.queue e }) es now

module _ {F S : Type 0} ⦃fl : Floats F⦄ where
  -- `queue.put`
  unfoldable pub put : Setup F S → Pool F S → Event F → F → Pool F S
  unfolding observe_ingest enqueue
  put c p e now = record p {
    metrics = observe_ingest c.half_power p.metrics e now;
    queue = enqueue p.queue e;
  }

  -- the drainer that `Engine.start` starts
  unfoldable pub drained : Setup F S → Pool F S → F → Pool F S
  unfolding current_pressure drain_tick put_replayed
  drained c p now =
      let (m, pressure) = current_pressure c.trunc c.pressure_weights c.config p.metrics now in
      let (buffer, batch) = drain_tick p.buffer pressure now (some local) in
      put_replayed (record p { metrics = m; buffer = buffer }) batch now

  unfoldable pub act : Setup F S → World F S → Action F → World F S
  unfolding put drained at_worker advance killed
  act c w (arrive e now) = record w { pool = put c w.pool e now }
  act c w (wake i clock now) =
      let (p, stages) =
        at_worker (λ id p stage. advance c clock id p stage now) i 0 w.pool w.workers in
      record { pool = p; workers = stages }
  act c w (kill i now) =
      let (p, stages) = at_worker (λ id p stage. killed p id stage now) i 0 w.pool w.workers in
      record { pool = p; workers = stages }
  act c w (drain now) = record w { pool = drained c w.pool now }

  unfoldable pub run : Setup F S → World F S → List (Action F) → World F S
  unfolding act
  run c w [] = w
  run c w (a ∷ rest) = run c (act c w a) rest
