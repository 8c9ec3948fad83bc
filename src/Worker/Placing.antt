-- ===== src/Worker/Placing.antt =====
-- Every event of a running pool is in one place: queued, parked, gone, or in a worker's hands.
use mathlib.Core.List.Perm
use mathlib.Core.List.{perm_middle, append_assoc, append-nil, perm_append_comm}
use vh26_crackers.Base.{◌≡◌, refl, ℕ, ◌+◌, ℤ, List, [], ◌∷◌, ◌++◌, map, Perm, Nodup, some, Floats}
use vh26_crackers.Contracts.{Event}
use vh26_crackers.Checkpoint.Workers.{row_events, event_ids}
use vh26_crackers.Deferral.{drain_tick, local}
use vh26_crackers.Deferral.Parked.{parked, Sound, drain_tick-Drains}
use vh26_crackers.Queue.{enqueue}
use vh26_crackers.Queue.Taking.{IsEquality, all_events}
use vh26_crackers.Queue.Naive.{enqueue-perm}
use vh26_crackers.Metrics.{observe_replay}
use vh26_crackers.Metrics.Current.{current_pressure}
use vh26_crackers.Worker.Pool.{Pool, Setup, Stage, event_of}
use vh26_crackers.Worker.Handling.{advance, killed}
use vh26_crackers.Worker.Running.{
  World, Action, arrive, wake, kill, drain, at_worker, put_replayed, put, drained, act, run,
}
use vh26_crackers.Worker.Keeping.{inside}
use vh26_crackers.Worker.Turns.{killed-Stands, advance-Stands}
use vh26_crackers.Worker.Crew.{begun_all, loose_all, Tracked, AllApart, Steps, moved, ids_right}

module _ {F : Type 0} where
  -- the events that arrive during some actions
  unfoldable pub arrivals : List (Action F) → List (Event F)
  arrivals [] = []
  arrivals (arrive e now ∷ more) = e ∷ arrivals more
  arrivals (wake i clock now ∷ more) = arrivals more
  arrivals (kill i now ∷ more) = arrivals more
  arrivals (drain now ∷ more) = arrivals more

module _ {F S : Type 0} where
  -- Each worker's rows are the events that it has begun, there are no other rows, and what is
  -- queued, parked and gone, and what the workers hold without a row and with one, is `all`.
  pub record Placed (w : World F S) (all : List (Event F)) : Type 0 where
    pub tracked : Tracked 0 w.pool.checkpoint.rows w.workers
    pub rows : Perm (row_events w.pool.checkpoint.rows) (begun_all w.workers)
    pub kept : Perm (inside w.pool ++ (loose_all w.workers ++ begun_all w.workers)) all
    pub buffer : Sound w.pool.buffer

  Placed-AllApart :
      (w : World F S) (all : List (Event F))
      → Placed w all
      → Nodup (event_ids all)
      → AllApart w.pool w.workers
  Placed-AllApart w all k u =
      let grouped =
        Perm.append (Perm.refl (loose_all w.workers))
          (Perm.append k.rows (Perm.refl (inside w.pool))) in
      Perm.nodup
        (Perm.map (λ e. e.event_id)
          (Perm.symm (
            Perm.trans grouped (
              Perm.trans (rotated (inside w.pool) (loose_all w.workers) (begun_all w.workers))
                k.kept))))
        u
    where
      rotated : (xs ls bs : List (Event F)) → Perm (ls ++ (bs ++ xs)) (xs ++ (ls ++ bs))
      rotated xs ls bs = rw (← append_assoc ls bs xs) (perm_append_comm (ls ++ bs) xs)

  -- a step of one worker
  step-Placed :
      (f : ℤ → Pool F S → Stage F → Pool F S × Stage F) (i : ℕ) (w : World F S)
      (all : List (Event F))
      → Steps f
      → Nodup (event_ids all)
      → Placed w all
      → Placed
          (record {
            pool = (at_worker f i 0 w.pool w.workers).0;
            workers = (at_worker f i 0 w.pool w.workers).1;
          })
          all
  step-Placed f i w all steps u k =
      let m =
        moved f i (0 + i) 0 w.pool w.workers steps refl (Placed-AllApart w all k u) k.buffer
          k.tracked in
      record {
        tracked = m.tracked;
        rows =
            rw (append-nil (begun_all (at_worker f i 0 w.pool w.workers).1)) at
              (m.orphans [] (rw (append-nil (begun_all w.workers)) k.rows));
        kept = Perm.trans m.kept k.kept;
        buffer = m.buffer;
      }

  Placed-perm :
      (w : World F S) (all all' : List (Event F)) → Perm all all' → Placed w all → Placed w all'
  Placed-perm w all all' h k = record {
    tracked = k.tracked;
    rows = k.rows;
    kept = Perm.trans k.kept h;
    buffer = k.buffer;
  }

  put_replayed-perm :
      (p : Pool F S) (es : List (Event F)) (now : F)
      → (Perm (inside (put_replayed p es now)) (es ++ inside p))
        × ((put_replayed p es now).checkpoint ≡ p.checkpoint)
        × ((put_replayed p es now).buffer ≡ p.buffer)
  unfolding put_replayed
  put_replayed-perm p [] now = (Perm.refl (inside p), refl, refl)
  put_replayed-perm p (e ∷ es) now =
      let p' : Pool F S = record p {
        metrics = observe_replay p.metrics e now;
        queue = enqueue p.queue e;
      } in
      let rest = put_replayed-perm p' es now in
      (
        Perm.trans rest.0 (
            Perm.trans
              (Perm.append (Perm.refl es) (
                Perm.append (enqueue-perm p.queue e)
                  (Perm.refl (parked p.buffer ++ map event_of p.gone))))
              (perm_middle es (inside p))),
        rest.1,
        rest.2,
      )

module _ {F S : Type 0} ⦃fl : Floats F⦄ where
  put-Placed :
      (c : Setup F S) (w : World F S) (e : Event F) (now : F) (all : List (Event F))
      → Placed w all
      → Placed (act c w (arrive e now)) (e ∷ all)
  unfolding act put
  put-Placed c w e now all k = record {
    tracked = k.tracked;
    rows = k.rows;
    kept =
        Perm.trans
          (Perm.append
            (Perm.append (enqueue-perm w.pool.queue e)
              (Perm.refl (parked w.pool.buffer ++ map event_of w.pool.gone)))
            (Perm.refl (loose_all w.workers ++ begun_all w.workers)))
          (Perm.cons e k.kept);
    buffer = k.buffer;
  }

  drain-Placed :
      (c : Setup F S) (w : World F S) (now : F) (all : List (Event F))
      → Placed w all
      → Placed (act c w (drain now)) all
  unfolding act drained
  drain-Placed c w now all k =
      let at = current_pressure c.trunc c.pressure_weights c.config w.pool.metrics now in
      let tick = drain_tick w.pool.buffer at.1 now (some local) in
      let drains = drain_tick-Drains w.pool.buffer at.1 now (some local) k.buffer in
      let p : Pool F S = record w.pool { metrics = at.0; buffer = tick.0 } in
      let back = put_replayed-perm p tick.1 now in
      record {
        tracked = rw back.1 k.tracked;
        rows = rw back.1 k.rows;
        kept =
            Perm.trans
              (Perm.append
                (Perm.trans back.0 (
                  returned tick.1 (all_events w.pool.queue) (parked tick.0) (parked w.pool.buffer)
                    (map event_of w.pool.gone) drains.0))
                (Perm.refl (loose_all w.workers ++ begun_all w.workers)))
              k.kept;
        buffer = rw back.2 drains.1;
      }
    where
      returned :
          (es qs ps old gs : List (Event F))
          → Perm (es ++ ps) old
          → Perm (es ++ (qs ++ (ps ++ gs))) (qs ++ (old ++ gs))
      returned es qs ps old gs h = rw (← append_assoc es qs (ps ++ gs)) (
          Perm.trans (Perm.append (perm_append_comm es qs) (Perm.refl (ps ++ gs))) (
            rw (append_assoc qs es (ps ++ gs), ← append_assoc es ps gs)
              (Perm.append (Perm.refl qs) (Perm.append h (Perm.refl gs)))))

  -- Where == is the identity of events, all ids are distinct and each event is in its place, any
  -- arrivals, turns of workers, killed workers and ticks of the drainer, whichever writes of the
  -- sink fail, leave each event that there was or that arrived in exactly one place: queued,
  -- parked, gone, or in the hands of one worker, whose rows are the events that it has begun.
  pub run-Placed :
      (c : Setup F S) (more : List (Action F)) (w : World F S) (all : List (Event F))
      → IsEquality c.equal
      → Nodup (event_ids (arrivals more ++ all))
      → Placed w all
      → Placed (run c w more) (arrivals more ++ all)
  unfolding run arrivals act
  run-Placed c [] w all law u k = k
  run-Placed c (arrive e now ∷ more) w all law u k =
      let moved_past = perm_middle (arrivals more) all in
      Placed-perm (run c (act c w (arrive e now)) more) _ _ moved_past (
        run-Placed c more (act c w (arrive e now)) (e ∷ all) law
          (Perm.nodup (Perm.map (λ x. x.event_id) (Perm.symm moved_past)) u)
          (put-Placed c w e now all k))
  run-Placed c (wake i clock now ∷ more) w all law u k =
      run-Placed c more (act c w (wake i clock now)) all law u (
        step-Placed (λ id p st. advance c clock id p st now) i w all
          (λ id others total p st v l. advance-Stands id others total c clock p st now law v l)
          (ids_right (arrivals more) all u) k)
  run-Placed c (kill i now ∷ more) w all law u k =
      run-Placed c more (act c w (kill i now)) all law u (
        step-Placed (λ id p st. killed p id st now) i w all
          (λ id others total p st v l. killed-Stands id others total p st now l)
          (ids_right (arrivals more) all u) k)
  run-Placed c (drain now ∷ more) w all law u k =
      run-Placed c more (act c w (drain now)) all law u (drain-Placed c w now all k)
