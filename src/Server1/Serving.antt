-- ===== src/Server1/Serving.antt =====
-- The workers of server1 against /drain: what it reports is what is queued and being served.
use vh26_crackers.Base.{
  ◌≡◌, ◌∙◌, ℕ, zero, suc, ◌==◌, pos, ◌&&◌, List, [], ◌∷◌, length, Option, none, some, Floats,
  if◌then◌else◌, arith,
}
use vh26_crackers.Contracts.{Event}
use vh26_crackers.Server1.{
  ServerState, drained, timeout, get, ingest, drain_result, dequeued, completed, killed, released,
}

-- what happens to the process, in any order
pub data Move (F : Type 0) : Type 0 where
  arriving : List (Event F) → Move F
  starting : F → Move F
  finishing : Event F → F → Move F
  killing : Move F

module _ {F : Type 0} ⦃fl : Floats F⦄ where
  -- the state, and the number of workers that sleep over an event
  unfoldable pub started :
      ServerState F → ℕ → F → Option (Event F × List (Event F)) → ServerState F × ℕ
  unfolding dequeued
  started s n now none = (s, n)
  started s n now (some (e, rest)) = (dequeued s e rest now, suc n)

  -- finishing and killing need a worker that sleeps
  unfoldable pub step : ServerState F → ℕ → Move F → ServerState F × ℕ
  unfolding ingest get started completed killed
  step s n (arriving es) = ((ingest s es).0, n)
  step s n (starting now) = started s n now (get s.queue)
  step s zero (finishing e now) = (s, zero)
  step s (suc n) (finishing e now) = (completed s e now, n)
  step s zero killing = (s, zero)
  step s (suc n) killing = (killed s, n)

  unfoldable pub run : List (Move F) → ServerState F → ℕ → ServerState F × ℕ
  unfolding step
  run [] s n = (s, n)
  run (m ∷ ms) s n = run ms (step s n m).0 (step s n m).1

  ingest-in_flight :
      (s : ServerState F) (es : List (Event F)) → (ingest s es).0.in_flight ≡ s.in_flight
  unfolding ingest
  ingest-in_flight s es = ground arith

  started-in_flight :
      (s : ServerState F) (n : ℕ) (now : F) (o : Option (Event F × List (Event F)))
      → s.in_flight ≡ pos n
      → (started s n now o).0.in_flight ≡ pos (started s n now o).1
  unfolding started dequeued
  started-in_flight s n now none h = h
  started-in_flight s n now (some x) h = rw h (ground arith)

  step-in_flight :
      (s : ServerState F) (n : ℕ) (m : Move F)
      → s.in_flight ≡ pos n
      → (step s n m).0.in_flight ≡ pos (step s n m).1
  unfolding step completed killed released
  step-in_flight s n (arriving es) h = ingest-in_flight s es ∙ h
  step-in_flight s n (starting now) h = started-in_flight s n now (get s.queue) h
  step-in_flight s zero (finishing e now) h = h
  step-in_flight s (suc n) (finishing e now) h = rw h (ground arith)
  step-in_flight s zero killing h = h
  step-in_flight s (suc n) killing h = rw h (ground arith)

  run-in_flight :
      (ms : List (Move F)) (s : ServerState F) (n : ℕ)
      → s.in_flight ≡ pos n
      → (run ms s n).0.in_flight ≡ pos (run ms s n).1
  unfolding run
  run-in_flight [] s n h = h
  run-in_flight (m ∷ ms) s n h =
      run-in_flight ms (step s n m).0 (step s n m).1 (step-in_flight s n m h)

  -- Where no worker is busy at first, after any arrivals, starts, completions and killed
  -- workers, /drain reports an empty process exactly when no event is queued and no worker is
  -- busy.
  pub run_drains :
      (ms : List (Move F)) (s : ServerState F)
      → s.in_flight ≡ pos 0
      → drain_result (run ms s 0).0
        ≡ (if length (run ms s 0).0.queue == 0 && (run ms s 0).1 == 0 then drained else timeout)
  unfolding drain_result
  run_drains ms s idle = rw (run-in_flight ms s 0 idle) (ground arith)
