-- ===== src/Server2/Leaving.antt =====
-- How the ways in which an event ends change the counts of server2: served, alone or in a batch,
-- deferred, sampled or shed.
use vh26_crackers.Base.{
  ◌≡◌, refl, ℕ, ◌+◌, ℤ, pos, ◌-ℤ◌, List, length, Option, none, some, Floats, ◌≤?◌, ◌⊖◌, arith,
  Bool-cases, inl, inr,
}
use vh26_crackers.Contracts.{
  Event, EventType, payment, order, inventory, click, log, Tier, p0, p1, p2, Decision, stream_now,
  micro_batch, defer, sample_rollup,
}
use vh26_crackers.Decision.{Reason}
use vh26_crackers.Ladder.{value, decision_rung}
use vh26_crackers.Ladder.Reservoir.{Rollup}
use vh26_crackers.Server2.{size}
use vh26_crackers.Server2.State.{ServerState, Env, pressure_value, pressure_refresh_seconds}
use vh26_crackers.Server2.Serving.{
  serve, serve_batch, with_rung, sampled, sample_into, off_path, dispatch_off_path,
}
use vh26_crackers.Server2.Counting.{
  Level, OnFine, finished, down, completed-Level, complete_all-Level,
}

-- the decisions that do not serve the event
abbrev pub IsOff : Decision → Type 0
IsOff stream_now = ⊥
IsOff micro_batch = ⊥
IsOff _ = Unit

module _ {F : Type 0} ⦃fl : Floats F⦄ where
  -- the pressure cache, the rungs and the posted rollups are not counted
  pub pressure_value-Level :
      (env : Env F) (base : ℤ) (busy total : ℕ) (s : ServerState F) (now : F)
      → Level base busy total s
      → Level base busy total (pressure_value env s now).0
  unfolding pressure_value
  pressure_value-Level env base busy total s now l =
      elim (Bool-cases (pressure_refresh_seconds ≤? now ⊖ s.pressure_cache_ts)) [
        | inl old ↦
            rw (old, pressure_value) (record { in_flight = l.in_flight; counted = l.counted })
        | inr recent ↦ rw (recent, pressure_value) l
      ]

  with_rung-Level :
      (base : ℤ) (busy total : ℕ) (t : Tier) (n : ℕ) (s : ServerState F)
      → Level base busy total s
      → Level base busy total (with_rung t n s)
  unfolding with_rung
  with_rung-Level base busy total p0 n s l = l
  with_rung-Level base busy total p1 n s l = record { in_flight = l.in_flight; counted = l.counted }
  with_rung-Level base busy total p2 n s l = record { in_flight = l.in_flight; counted = l.counted }

  sampled-Level :
      (base : ℤ) (busy total : ℕ) (e : Event F) (s : ServerState F) (o : Option (Rollup F))
      → Level base busy total s
      → OnFine (Level base busy total) (sampled e s o)
  unfolding sampled
  sampled-Level base busy total e s none l = l
  sampled-Level base busy total e s (some r) l = record {
    in_flight = l.in_flight;
    counted = l.counted;
  }

  sample_into-Level :
      (base : ℤ) (busy total : ℕ) (t : EventType) (s : ServerState F) (e : Event F) (now : F)
      → Level base busy total s
      → OnFine (Level base busy total) (sample_into t s e now)
  unfolding sample_into
  sample_into-Level base busy total click s e now l =
      sampled-Level base busy total e _ _ (record { in_flight = l.in_flight; counted = l.counted })
  sample_into-Level base busy total log s e now l =
      sampled-Level base busy total e _ _ (record { in_flight = l.in_flight; counted = l.counted })
  sample_into-Level base busy total payment s e now l = tt
  sample_into-Level base busy total order s e now l = tt
  sample_into-Level base busy total inventory s e now l = tt

  off_path-Level :
      (env : Env F) (base : ℤ) (busy waiting total : ℕ) (s : ServerState F) (e : Event F)
      (d : Decision) (reason : Reason F) (now : F)
      → IsOff d
      → Level base busy waiting s
      → waiting + 1 ≡ total
      → OnFine (Level base busy total) (off_path env s e d reason now)
  unfolding off_path
  off_path-Level env base busy waiting total s e stream_now reason now off l k = absurd off
  off_path-Level env base busy waiting total s e micro_batch reason now off l k = absurd off
  off_path-Level env base busy waiting total s e defer reason now off l k = record {
    in_flight = l.in_flight;
    counted = omega (arith, l.counted, k);
  }
  off_path-Level env base busy waiting total s e sample_rollup reason now off l k =
      sample_into-Level base busy total e.type _ e now
        (record { in_flight = l.in_flight; counted = omega (arith, l.counted, k) })
  off_path-Level env base busy waiting total s e Decision.shed reason now off l k =
      pressure_value-Level env base busy total _ now
        (record { in_flight = l.in_flight; counted = omega (arith, l.counted, k) })

  pub dispatch_off_path-Level :
      (env : Env F) (base : ℤ) (busy total : ℕ) (s : ServerState F) (e : Event F) (d : Decision)
      (reason : Reason F) (now : F)
      → IsOff d
      → Level base (busy + 1) total s
      → OnFine (Level base busy total) (dispatch_off_path env s e d reason now)
  unfolding dispatch_off_path
  dispatch_off_path-Level env base busy total s e d reason now off l =
      let waiting = size s.queue + finished s + busy in
      off_path-Level env base busy waiting total _ e d reason now off
        (with_rung-Level base busy waiting e.tier (value (decision_rung d))
          (record s { in_flight = s.in_flight -ℤ pos 1 })
          (record { in_flight = rw l.in_flight (down base busy); counted = refl }))
        (omega (arith, l.counted))

  pub serve_batch-Level :
      (env : Env F) (base : ℤ) (total : ℕ) (s : ServerState F) (batch : List (Event F))
      (reason : Reason F) (p now : F)
      → Level base (length batch) total s
      → OnFine (Level base 0 total) (serve_batch env s batch reason p now)
  unfolding serve_batch
  serve_batch-Level env base total s batch reason p now l =
      let done = complete_all-Level env base total batch s now l in
      record { in_flight = done.in_flight; counted = done.counted }

  pub serve-Level :
      (env : Env F) (base : ℤ) (busy total : ℕ) (s : ServerState F) (e : Event F)
      (reason : Reason F) (p now : F)
      → Level base (busy + 1) total s
      → OnFine (Level base busy total) (serve env s e reason p now)
  unfolding serve
  serve-Level env base busy total s e reason p now l = completed-Level env base busy total s e now l
