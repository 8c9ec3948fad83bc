-- ===== src/Server1.antt =====
-- src/triage/server1.py: the process that serves P0, the earliest deadline first. The heap of tuples
-- (deadline, seq, event) that heapq keeps is taken as the list of its events in the tuples' order.
pub mod Deadlines
pub mod Serving
use vh26_crackers.Base.{
  ℕ, ◌+◌, ◌==◌, leb, ltb, ℤ, pos, ◌+ℤ◌, ◌-ℤ◌, eq_ℤ, Bool, true, false, not, ◌&&◌, ◌||◌, List, [],
  ◌∷◌, length, Option, none, some, Floats, ◌≤?◌, ◌<?◌, ◌⊖◌, ◌⊗◌, of_int, fmax, if◌then◌else◌,
  insert,
}
use vh26_crackers.Contracts.{Event, Tier, p0, p1, p2, is_p0}
use vh26_crackers.Metrics.State.{push_bounded}
use vh26_crackers.Servers.{ServerSpec, has_tier, is_fixed}

pub record ServerState (F : Type 0) : Type 0 where
  pub queue : List (Event F)
  pub worker_count : ℕ
  pub per_worker_rate : F
  pub processed_count : ℕ
  pub in_flight : ℤ
  pub draining : Bool
  pub latency_ms : List F
  pub queue_wait_ms : List F
  pub workers_killed_count : ℕ

pub data IngestResult : Type 0 where
  rejected_draining : IngestResult
  rejected_tier : IngestResult
  accepted : ℕ → IngestResult

pub data DrainResult : Type 0 where
  drained timeout : DrainResult

abbrev pub latency_window : ℕ
latency_window = 4096

module _ {F : Type 0} where
  unfoldable pub is_provisioned : ServerSpec F → Bool
  unfolding has_tier
  is_provisioned spec =
      not spec.batching
      && ((has_tier p0 spec.tiers && (not (has_tier p1 spec.tiers) && not (has_tier p2 spec.tiers)))
          && is_fixed spec.scaling)

  -- `heappop`, where the heap is not empty
  unfoldable pub get : List (Event F) → Option (Event F × List (Event F))
  get [] = none
  get (e ∷ es) = some (e, es)

  unfoldable pub has_other : List (Event F) → Bool
  has_other [] = false
  has_other (e ∷ es) = not (is_p0 e.tier) || has_other es

  -- the result once the loop of `/drain` has ended
  unfoldable pub drain_result : ServerState F → DrainResult
  drain_result s =
      if length s.queue == 0 && eq_ℤ s.in_flight (pos 0)
      then DrainResult.drained
      else DrainResult.timeout

module _ {F : Type 0} ⦃fl : Floats F⦄ where
  -- The order of the tuples. Where deadline and seq agree, Python compares the events for equality;
  -- a seq is given to one event only, so that these are equal, and no `<` of events is asked for.
  unfoldable pub earlier : Event F → Event F → Bool
  earlier a b =
      a.deadline_ts <? b.deadline_ts || (a.deadline_ts ≤? b.deadline_ts && leb a.seq b.seq)

  -- `heappush`
  unfoldable pub put : List (Event F) → Event F → List (Event F)
  unfolding earlier
  put queue e = insert earlier e queue

  unfoldable pub put_all : List (Event F) → List (Event F) → List (Event F)
  unfolding put
  put_all queue [] = queue
  put_all queue (e ∷ es) = put_all (put queue e) es

  unfoldable pub ingest : ServerState F → List (Event F) → ServerState F × IngestResult
  unfolding has_other put_all
  ingest s es =
      if s.draining
      then (s, IngestResult.rejected_draining)
      else if has_other es
      then (s, IngestResult.rejected_tier)
      else (record s { queue = put_all s.queue es }, IngestResult.accepted (length es))

  -- a worker's turn up to its sleep
  unfoldable pub dequeued : ServerState F → Event F → List (Event F) → F → ServerState F
  unfolding push_bounded
  dequeued s e rest now = record s {
    queue = rest;
    queue_wait_ms =
        push_bounded latency_window s.queue_wait_ms
          (fmax (of_int 0) ((now ⊖ e.ingest_ts) ⊗ of_int 1000));
    in_flight = s.in_flight +ℤ pos 1;
  }

  -- the `finally`, whether the sleep ended or was cancelled
  unfoldable pub released : ServerState F → ServerState F
  released s = record s { in_flight = s.in_flight -ℤ pos 1 }

  -- a worker's turn after its sleep, up to the ack
  unfoldable pub completed : ServerState F → Event F → F → ServerState F
  unfolding released push_bounded
  completed s e now =
      let back = released s in
      record back {
        processed_count = back.processed_count + 1;
        latency_ms =
            push_bounded latency_window back.latency_ms
              (fmax (of_int 0) ((now ⊖ e.ingest_ts) ⊗ of_int 1000));
      }

  -- the cancellation of a worker in its sleep
  unfoldable pub killed : ServerState F → ServerState F
  unfolding released
  killed s = released (record s { workers_killed_count = s.workers_killed_count + 1 })
