-- ===== src/Worker/Handling.antt =====
-- src/triage/worker.py: _handle, _run, and the death of a worker, from one await to the next. The
-- loop of _handle that fills a batch runs on fuel, one more than the queue holds events.
use vh26_crackers.Base.{
  ℕ, zero, suc, ◌+◌, ◌-◌, ℤ, pos, le_ℤ, Bool, true, false, List, [], ◌∷◌, ◌++◌, length, Option,
  none, some, Floats, if◌then◌else◌,
}
use vh26_crackers.Contracts.{Event, Decision, stream_now, micro_batch}
use vh26_crackers.Decision.{Reason, batch_size, default_b_min, default_b_max}
use vh26_crackers.Queue.{qsize}
use vh26_crackers.Metrics.Current.{current_pressure}
use vh26_crackers.Worker.Pool.{
  Pool, Setup, Stage, Progress, awaits, returns, raises, unbegun, drop_all, finally_done,
  recover_worker, try_get, decided, observe,
}
use vh26_crackers.Worker.Serving.{serve, serve_batch, done_times, dispatch_off_path, completed}

-- how many events the `finally` blocks settle when the task is cancelled at a stage
abbrev pub owed : {F : Type 0} → Stage F → ℕ
owed Stage.waiting = 0
owed (Stage.serving e) = 1
owed (Stage.serving_extra batch p extra) = 2
owed (Stage.batching batch) = length batch - 1 + 1
owed (Stage.finishing n now todo) = n - 1 + 1

module _ {F S : Type 0} where
  -- the end of `_serve_batch` and of the `finally` around it, `n` being the size of the batch
  unfoldable pub batch_over : Pool F S × Bool → Pool F S × Progress F
  batch_over (p, true) = (p, returns)
  batch_over (p, false) = (p, raises)

  unfoldable pub dispatched : Pool F S × Bool → Pool F S × Progress F
  dispatched (p, true) = (p, returns)
  dispatched (p, false) = (p, raises)

  -- the loop of `_serve_batch`, at its next member
  unfoldable pub next_member : Pool F S → ℕ → F → List (Event F) → Pool F S × Progress F
  unfolding batch_over done_times
  next_member p n now [] =
      batch_over (done_times (n - 1) (record p { batched_count = p.batched_count + n }))
  next_member p n now (e ∷ es) = (p, awaits (Stage.finishing n now (e ∷ es)))

  unfoldable pub after_member : ℕ → F → List (Event F) → Pool F S × Bool → Pool F S × Progress F
  unfolding next_member done_times
  after_member n now es (p, true) = next_member p n now es
  after_member n now es (p, false) = ((done_times (n - 1) p).0, raises)

  -- An extra event is dealt with, and its `task_done` called; the batch is a local variable, which
  -- an exception loses.
  unfoldable pub after_done :
      (Pool F S → Pool F S × Progress F) → List (Event F) → Pool F S × Bool → Pool F S × Progress F
  unfolding drop_all
  after_done next batch (p, true) = next p
  after_done next batch (p, false) = (drop_all batch p, raises)

  unfoldable pub after_extra :
      (Pool F S → Pool F S × Progress F) → List (Event F) → Pool F S × Bool → Pool F S × Progress F
  unfolding after_done finally_done
  after_extra next batch (p, fine) = after_done next batch (finally_done p fine)

  -- the `finally` of `_run`; its exception would end the task
  unfoldable pub run_done : ℤ → F → Pool F S × Bool → Pool F S × Stage F
  unfolding recover_worker
  run_done worker_id now (p, true) = (p, Stage.waiting)
  run_done worker_id now (p, false) = (recover_worker p worker_id now, Stage.waiting)

  -- `_run` around `_handle`
  unfoldable pub run_on : ℤ → F → Pool F S × Progress F → Pool F S × Stage F
  unfolding run_done finally_done recover_worker
  run_on worker_id now (p, awaits stage) = (p, stage)
  run_on worker_id now (p, returns) = run_done worker_id now (finally_done p true)
  run_on worker_id now (p, raises) =
      run_done worker_id now (finally_done (recover_worker p worker_id now) true)

  -- `task.cancel()` of `kill_worker`, the blocks that it runs, and `_on_worker_done`
  unfoldable pub killed : Pool F S → ℤ → Stage F → F → Pool F S × Stage F
  unfolding drop_all done_times recover_worker
  killed p worker_id stage now = (
    recover_worker (done_times (owed stage) (drop_all (unbegun stage) p)).0 worker_id now,
    Stage.waiting,
  )

module _ {F S : Type 0} ⦃fl : Floats F⦄ where
  unfoldable pub dealt :
      (Pool F S → List (Event F) → Pool F S × Progress F)
      → Pool F S
      → List (Event F)
      → ℤ
      → Event F
      → F
      → F
      → Decision × Reason F
      → Pool F S × Progress F
  unfolding after_extra observe serve dispatch_off_path
  dealt next p batch worker_id extra pressure now (micro_batch, reason) =
      next (observe p extra micro_batch reason pressure now) (batch ++ extra ∷ [])
  dealt next p batch worker_id extra pressure now (stream_now, reason) =
      (serve p extra worker_id now, awaits (Stage.serving_extra batch pressure extra))
  dealt next p batch worker_id extra pressure now (d, reason) =
      after_extra (λ p'. next p' batch) batch (dispatch_off_path p extra d reason pressure now)

  unfoldable pub after_get :
      (Pool F S → List (Event F) → Pool F S × Progress F)
      → Setup F S
      → Pool F S
      → List (Event F)
      → ℤ
      → F
      → F
      → Option (Event F × Pool F S)
      → Pool F S × Progress F
  unfolding dealt decided serve_batch
  after_get next c p batch worker_id pressure now none = serve_batch p batch worker_id now
  after_get next c p batch worker_id pressure now (some (extra, p')) =
      dealt next p' batch worker_id extra pressure now (decided c p' extra pressure now)

  -- `while len(batch) < target_size`, and then `_serve_batch`. The queue shrinks in each round, so
  -- the clock's reading in a round is told by its size.
  unfoldable pub gather :
      Setup F S → (ℕ → F) → ℤ → ℕ → F → Pool F S → List (Event F) → Pool F S × Progress F
  unfolding after_get try_get serve_batch
  gather c clock worker_id zero pressure p batch =
      serve_batch p batch worker_id (clock (qsize p.queue))
  gather c clock worker_id (suc n) pressure p batch =
      if le_ℤ (batch_size pressure default_b_min default_b_max) (pos (length batch))
      then serve_batch p batch worker_id (clock (qsize p.queue))
      else after_get (λ p' b. gather c clock worker_id n pressure p' b) c p batch worker_id pressure
          (clock (qsize p.queue)) (try_get c p (clock (qsize p.queue)))

  unfoldable pub fill :
      Setup F S → (ℕ → F) → ℤ → F → Pool F S → List (Event F) → Pool F S × Progress F
  unfolding gather qsize
  fill c clock worker_id pressure p batch =
      gather c clock worker_id (qsize p.queue + 1) pressure p batch

  unfoldable pub handle_resolved :
      Setup F S
      → (ℕ → F)
      → ℤ
      → Pool F S
      → Event F
      → F
      → F
      → Decision × Reason F
      → Pool F S × Progress F
  unfolding serve observe fill dispatched dispatch_off_path
  handle_resolved c clock worker_id p e pressure now (stream_now, reason) =
      (serve p e worker_id now, awaits (Stage.serving e))
  handle_resolved c clock worker_id p e pressure now (micro_batch, reason) =
      fill c clock worker_id pressure (observe p e micro_batch reason pressure now) (e ∷ [])
  handle_resolved c clock worker_id p e pressure now (d, reason) =
      dispatched (dispatch_off_path p e d reason pressure now)

  unfoldable pub handle : Setup F S → (ℕ → F) → ℤ → Pool F S → Event F → F → Pool F S × Progress F
  unfolding handle_resolved current_pressure decided
  handle c clock worker_id p e now =
      let (m, pressure) = current_pressure c.trunc c.pressure_weights c.config p.metrics now in
      let p' : Pool F S = record p { metrics = m } in
      handle_resolved c clock worker_id p' e pressure now (decided c p' e pressure now)

  -- a worker that waits for the queue goes on only if there is an event
  unfoldable pub taken_on :
      Setup F S → (ℕ → F) → ℤ → Pool F S → F → Option (Event F × Pool F S) → Pool F S × Progress F
  unfolding handle
  taken_on c clock worker_id p now none = (p, awaits Stage.waiting)
  taken_on c clock worker_id p now (some (e, p')) = handle c clock worker_id p' e now

  -- what a worker does once the await of its stage is over
  unfoldable pub resume : Setup F S → (ℕ → F) → ℤ → Pool F S → Stage F → F → Pool F S × Progress F
  unfolding taken_on try_get completed dispatched after_extra fill next_member after_member
  resume c clock worker_id p Stage.waiting now = taken_on c clock worker_id p now (try_get c p now)
  resume c clock worker_id p (Stage.serving e) now = dispatched (completed c p e now)
  resume c clock worker_id p (Stage.serving_extra batch pressure extra) now =
      after_extra (λ p'. fill c clock worker_id pressure p' batch) batch (completed c p extra now)
  resume c clock worker_id p (Stage.batching batch) now = next_member p (length batch) now batch
  resume c clock worker_id p (Stage.finishing n at []) now = next_member p n at []
  resume c clock worker_id p (Stage.finishing n at (e ∷ es)) now =
      after_member n at es (completed c p e at)

  unfoldable pub advance : Setup F S → (ℕ → F) → ℤ → Pool F S → Stage F → F → Pool F S × Stage F
  unfolding run_on resume
  advance c clock worker_id p stage now =
      run_on worker_id now (resume c clock worker_id p stage now)
