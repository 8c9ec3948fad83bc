-- ===== src/Transport/Sweep.antt =====
-- src/triage/transport.py: dispatch, and redispatch_expired with the turns of its loop. Whatever
-- other coroutines do while a delivery is awaited happens before the next line of the loop.
use vh26_crackers.Base.{
  ℕ, ◌+◌, List, [], ◌∷◌, length, String, Option, none, some, Floats, ◌≤?◌, ◌⊖◌, ◌⊘◌, of_int, ◌==◌,
  if◌then◌else◌, get, pop, values, keys,
}
use vh26_crackers.Contracts.{Event}
use vh26_crackers.Transport.{
  DispatchRecord, Transport, Segment, Wire, DispatchResult, SweepResult, record_batch, unindex_all,
  reset,
}
use vh26_crackers.Transport.Acks.{ack, ack_by_event_ids}

-- a call of the transport from the rest of the program
pub data Call (F : Type 0) : Type 0 where
  dispatching : String → List (Event F) → Call F
  acking : ℕ → List String → F → Call F
  events_acking : List String → F → Call F
  sweeping : F → Call F
  resetting : Call F

module _ {F : Type 0} ⦃fl : Floats F⦄ where
  -- other coroutines: a batch without events is refused before it changes anything
  unfoldable pub run_segment : Transport F → Segment F → Transport F
  unfolding record_batch ack ack_by_event_ids
  run_segment s (Segment.recorded server [] now) = s
  run_segment s (Segment.recorded server (e ∷ es) now) = record_batch s server (e ∷ es) now
  run_segment s (Segment.acked n ids now) = ack s n ids now
  run_segment s (Segment.events_acked ids now) = ack_by_event_ids s ids now

  unfoldable pub run_segments : Transport F → List (Segment F) → Transport F
  unfolding run_segment
  run_segments s [] = s
  run_segments s (x ∷ xs) = run_segments (run_segment s x) xs

  -- The id is the number of the dispatch, by which the wire is asked.
  unfoldable pub dispatch :
      Wire F → Transport F → String → List (Event F) → Transport F × DispatchResult
  unfolding record_batch run_segments
  dispatch w s server [] = (s, DispatchResult.value_error)
  dispatch w s server (e ∷ es) =
      let n = s.next_id + 1 in
      (
        run_segments (record_batch s server (e ∷ es) (w.clock n)) (w.meanwhile n),
        if w.delivers n then DispatchResult.dispatched_as n else DispatchResult.delivery_error,
      )

  unfoldable pub expired_ids : F → F → List (ℕ × DispatchRecord F) → List ℕ
  expired_ids now timeout [] = []
  expired_ids now timeout (x ∷ xs) =
      let rest = expired_ids now timeout xs in
      if timeout ≤? now ⊖ x.1.dispatched_ts then x.0 ∷ rest else rest

  -- the record is gone from the table and its events from the index
  unfoldable pub discard : Transport F → ℕ → DispatchRecord F → Transport F
  unfolding pop unindex_all
  discard s n r = record s {
    outstanding = pop ◌==◌ n s.outstanding;
    event_index = unindex_all (keys r.events) s.event_index;
  }

  -- One turn of the loop of `redispatch_expired`: a dispatch that is no longer there raises
  -- `KeyError`, and a record without events is only discarded.
  unfoldable pub redispatch_record :
      Wire F → Transport F → ℕ → Option (DispatchRecord F) → Transport F × SweepResult
  unfolding discard dispatch
  redispatch_record w s n none = (s, SweepResult.key_error)
  redispatch_record w s n (some r) =
      let done = dispatch w (discard s n r) r.server (values r.events) in
      (
        done.0,
        elim done.1 [
          | DispatchResult.dispatched_as m ↦ SweepResult.redispatched (length (values r.events))
          | DispatchResult.value_error ↦ SweepResult.redispatched 0
          | DispatchResult.delivery_error ↦ SweepResult.failed_delivery
        ],
      )

  -- An exception leaves the loop.
  unfoldable pub go_on :
      (ℕ → Transport F × SweepResult) → Transport F → SweepResult → Transport F × SweepResult
  go_on next s (SweepResult.redispatched m) = next m
  go_on next s SweepResult.key_error = (s, SweepResult.key_error)
  go_on next s SweepResult.failed_delivery = (s, SweepResult.failed_delivery)

  -- `total_redispatched` is raised after the loop only
  unfoldable pub sweep_from : Wire F → List ℕ → ℕ → Transport F → Transport F × SweepResult
  unfolding redispatch_record get go_on
  sweep_from w [] total s = (
    record s { total_redispatched = s.total_redispatched + total },
    SweepResult.redispatched total,
  )
  sweep_from w (n ∷ ns) total s =
      let one = redispatch_record w s n (get ◌==◌ n s.outstanding) in
      go_on (λ m. sweep_from w ns (total + m) one.0) one.0 one.1

  unfoldable pub redispatch_expired : Wire F → Transport F → F → Transport F × SweepResult
  unfolding expired_ids sweep_from
  redispatch_expired w s now =
      sweep_from w (expired_ids now (s.ack_timeout_ms ⊘ of_int 1000) s.outstanding) 0 s

  -- Whole calls, one after the other; what overlaps with them is in the wire.
  unfoldable pub run : Wire F → Transport F → List (Call F) → Transport F
  unfolding dispatch ack ack_by_event_ids redispatch_expired reset
  run w s [] = s
  run w s (dispatching server es ∷ cs) = run w (dispatch w s server es).0 cs
  run w s (acking n ids now ∷ cs) = run w (ack s n ids now) cs
  run w s (events_acking ids now ∷ cs) = run w (ack_by_event_ids s ids now) cs
  run w s (sweeping now ∷ cs) = run w (redispatch_expired w s now).0 cs
  run w s (resetting ∷ cs) = run w (reset s) cs
