-- ===== src/Server2/Endpoints.antt =====
-- src/triage/server2.py: /ingest, /drain and the killing of a worker.
use vh26_crackers.Base.{
  ℕ, ◌+◌, ◌==◌, pos, eq_ℤ, Bool, true, false, ◌&&◌, ◌||◌, List, [], ◌∷◌, length, Option, none, some,
  Floats, if◌then◌else◌,
}
use vh26_crackers.Contracts.{Event, is_p0, is_click, Decision, stream_now, micro_batch}
use vh26_crackers.Decision.{Reason, batch_size, default_b_min, default_b_max}
use vh26_crackers.Metrics.Rate.{observe_amount}
use vh26_crackers.Server2.{P1P2Queue, PutResult, put, size}
use vh26_crackers.Server2.State.{ServerState, Env, pressure_value, note_dequeue, resolve}
use vh26_crackers.Server2.Serving.{dispatch_off_path}
use vh26_crackers.Server2.Handling.{gather, turn}

pub data IngestResult : Type 0 where
  rejected_draining : IngestResult
  rejected_p0 : IngestResult
  accepted : ℕ → IngestResult
  failed : IngestResult

pub data DrainResult : Type 0 where
  drained timeout : DrainResult

module _ {F : Type 0} where
  unfoldable pub has_p0 : List (Event F) → Bool
  has_p0 [] = false
  has_p0 (e ∷ es) = is_p0 e.tier || has_p0 es

  unfoldable pub with_put : ServerState F → PutResult F → Option (ServerState F)
  with_put s (PutResult.queued q) = some (record s { queue = q })
  with_put s PutResult.key_error = none

  unfoldable pub then_accept :
      (ServerState F → Option (ServerState F)) → Option (ServerState F) → Option (ServerState F)
  then_accept rest none = none
  then_accept rest (some s) = rest s

  unfoldable pub answered :
      ServerState F → ℕ → Option (ServerState F) → ServerState F × IngestResult
  answered s n none = (s, IngestResult.failed)
  answered s n (some t) = (t, IngestResult.accepted n)

  -- the result once the loop of `/drain` has ended
  unfoldable pub drain_result : ServerState F → DrainResult
  unfolding size
  drain_result s =
      if size s.queue == 0 && eq_ℤ s.in_flight (pos 0)
      then DrainResult.drained
      else DrainResult.timeout

  unfoldable pub start_draining : ServerState F → ServerState F
  start_draining s = record s { draining = true }

module _ {F : Type 0} ⦃fl : Floats F⦄ where
  -- what is counted for an event before it is put into the queue
  unfoldable pub arrived : Env F → ServerState F → Event F → F → ServerState F
  unfolding observe_amount
  arrived env s e now = record s {
    arrival_ewma = observe_amount env.half_power s.arrival_ewma e.cost now;
    true_click_count = if is_click e.type then s.true_click_count + 1 else s.true_click_count;
  }

  unfoldable pub accept_all : Env F → ServerState F → List (Event F) → F → Option (ServerState F)
  unfolding arrived put with_put then_accept
  accept_all env s [] now = some s
  accept_all env s (e ∷ es) now =
      then_accept (λ t. accept_all env t es now) (with_put (arrived env s e now) (put s.queue e))

  unfoldable pub ingest : Env F → ServerState F → List (Event F) → F → ServerState F × IngestResult
  unfolding has_p0 accept_all answered
  ingest env s es now =
      if s.draining
      then (s, IngestResult.rejected_draining)
      else if has_p0 es
      then (s, IngestResult.rejected_p0)
      else answered s (length es) (accept_all env s es now)

  -- What has happened once a worker that took an event reaches the await which that event is for:
  -- the sleep of `_serve`; that of `_serve_batch`, after the extras; or, off the path, the first call
  -- of ingress, before which `_dispatch_off_path` makes all its changes.
  unfoldable pub reached :
      Env F
      → (ℕ → F)
      → ServerState F
      → Event F
      → F
      → F
      → Option (Decision × Reason F)
      → ServerState F
  unfolding gather dispatch_off_path size
  reached env clock s e p now none = s
  reached env clock s e p now (some (stream_now, reason)) = s
  reached env clock s e p now (some (micro_batch, reason)) =
      (gather env clock (size s.queue + 1) (batch_size p default_b_min default_b_max) p s
        (e ∷ [])).0
  reached env clock s e p now (some (d, reason)) = (dispatch_off_path env s e d reason now).0

  -- the state and the pressure with which the worker resolves the event that it took
  unfoldable pub resolving : Env F → ServerState F → Event F → P1P2Queue F → F → ServerState F × F
  unfolding note_dequeue pressure_value
  resolving env s e rest now =
      pressure_value env (note_dequeue (record s { queue = rest }) e now) now

  abbrev pub count_kill : ServerState F → ServerState F
  count_kill s = record s { workers_killed_count = s.workers_killed_count + 1 }

  -- A worker is cancelled at that await: the cancellation leaves _handle, which has no `finally`.
  unfoldable pub killed_serving :
      Env F → (ℕ → F) → ServerState F → Event F → P1P2Queue F → F → ServerState F
  unfolding resolving reached resolve
  killed_serving env clock s e rest now =
      let at = resolving env s e rest now in
      count_kill (reached env clock at.0 e at.1 now (resolve at.0 e at.1 now))

  -- turns of workers one after the other, and whether none of them raised an exception
  unfoldable pub turns : Env F → (ℕ → F) → ServerState F → List F → ServerState F × Bool
  unfolding turn
  turns env clock s [] = (s, true)
  turns env clock s (t ∷ ts) =
      let one = turn env clock s t in
      let rest = turns env clock one.0 ts in (rest.0, one.2 && rest.1)
