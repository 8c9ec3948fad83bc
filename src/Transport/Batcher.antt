-- ===== src/Transport/Batcher.antt =====
-- src/triage/transport.py: the batcher of one server: submit, _flush_loop with its awaited dispatches,
-- and the cancellation of its task. What `wait_for` does with a get that is cancelled is asyncio's.
use vh26_crackers.Base.{
  ℕ, ◌+◌, leb, List, [], ◌∷◌, ◌++◌, length, Option, none, some, Floats, ◌⊕◌, if◌then◌else◌,
}
use vh26_crackers.Contracts.{Event}

-- Where the task is: in `wait_for`, in the awaited `_flush`, or cancelled in one of the two.
pub data Phase : Type 0 where
  waiting flushing stopped_waiting stopped_flushing : Phase

-- `queue`, `buffer` and `deadline`; the batches that `_flush` gave to the dispatch function, the
-- oldest first, and those that the handler of the cancellation gave to it
pub record Batcher (F : Type 0) : Type 0 where
  pub batch_size : ℕ
  pub batch_window_seconds : F
  pub queue : List (Event F)
  pub buffer : List (Event F)
  pub deadline : Option F
  pub phase : Phase
  pub flushed : List (List (Event F))
  pub flushed_on_stop : List (List (Event F))

-- What happens next. An exception of a dispatch is caught, and ends it like a result.
pub data Turn (F : Type 0) : Type 0 where
  submit : Event F → Turn F
  got : F → Turn F
  timed_out : Turn F
  dispatch_ended : Turn F
  cancelled : Turn F

module _ {F : Type 0} where
  -- `_flush` calls the dispatch function and awaits it; the buffer is cleared afterwards
  unfoldable pub flush : Batcher F → Batcher F
  flush b = record b { flushed = b.flushed ++ b.buffer ∷ []; phase = Phase.flushing }

  -- after a timeout, an empty buffer is not flushed
  unfoldable pub flush_some : List (Event F) → Batcher F → Batcher F
  unfolding flush
  flush_some [] b = b
  flush_some (e ∷ es) b = flush b

  unfoldable pub after_dispatch : Phase → Batcher F → Batcher F
  after_dispatch Phase.flushing b = record b { buffer = []; deadline = none; phase = Phase.waiting }
  after_dispatch _ b = b

  unfoldable pub after_timeout : Phase → Batcher F → Batcher F
  unfolding flush_some
  after_timeout Phase.waiting b = flush_some b.buffer b
  after_timeout _ b = b

  -- the handler of the cancellation
  unfoldable pub flush_on_stop : List (Event F) → Batcher F → Batcher F
  flush_on_stop [] b = b
  flush_on_stop (e ∷ es) b = record b { flushed_on_stop = b.buffer ∷ [] }

  unfoldable pub stop : Phase → Batcher F → Batcher F
  unfolding flush_on_stop
  stop Phase.waiting b = flush_on_stop b.buffer (record b { phase = Phase.stopped_waiting })
  stop Phase.flushing b = flush_on_stop b.buffer (record b { phase = Phase.stopped_flushing })
  stop _ b = b

module _ {F : Type 0} ⦃fl : Floats F⦄ where
  abbrev pub deadline_from : Option F → F → F → Option F
  deadline_from none now window = some (now ⊕ window)
  deadline_from (some d) now window = some d

  unfoldable pub with_event : Batcher F → Event F → List (Event F) → F → Batcher F
  with_event b e rest now = record b {
    queue = rest;
    buffer = b.buffer ++ e ∷ [];
    deadline = deadline_from b.deadline now b.batch_window_seconds;
  }

  -- a get that finds the queue empty goes on waiting
  unfoldable pub get_from : List (Event F) → Batcher F → F → Batcher F
  unfolding with_event flush
  get_from [] b now = b
  get_from (e ∷ rest) b now =
      if leb b.batch_size (length b.buffer + 1)
      then flush (with_event b e rest now)
      else with_event b e rest now

  unfoldable pub after_get : Phase → Batcher F → F → Batcher F
  unfolding get_from
  after_get Phase.waiting b now = get_from b.queue b now
  after_get _ b now = b

  unfoldable pub turn : Batcher F → Turn F → Batcher F
  unfolding after_get after_timeout after_dispatch stop
  turn b (submit e) = record b { queue = b.queue ++ e ∷ [] }
  turn b (got now) = after_get b.phase b now
  turn b timed_out = after_timeout b.phase b
  turn b dispatch_ended = after_dispatch b.phase b
  turn b cancelled = stop b.phase b

  unfoldable pub turns : Batcher F → List (Turn F) → Batcher F
  unfolding turn
  turns b [] = b
  turns b (t ∷ ts) = turns (turn b t) ts
