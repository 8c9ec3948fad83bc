-- ===== src/Metrics/Pipeline.antt =====
-- The pipeline as steps: where each event is, beside the counters of src/triage/metrics.py. The
-- steps are those of src/triage/queue.py (put, get, put_replayed), of src/triage/worker.py (serve,
-- _dispatch_off_path, _handle, _recover_worker) and of the drainer of src/triage/deferral.py. Which
-- event is taken, when, and what is decided is left to the environment.
use vh26_crackers.Base.{
  suc, ◌≡◌, ◌∙◌, ap, subst, true, List, ◌∷◌, ◌++◌, length, length-append, pos, Floats, arith,
}
use vh26_crackers.Contracts.{Event, Decision, defer, micro_batch}
use vh26_crackers.Metrics.State.{Metrics}
use vh26_crackers.Metrics.{
  observe_ingest, observe_replay, observe_dequeue, observe_complete, observe_defer, observe_retry,
  observe_decision, check_conservation,
}
use vh26_crackers.Metrics.Conservation.{
  Conserved, ends, observe_ingest-Conserved, observe_replay-Conserved, observe_dequeue-Conserved,
  observe_complete-Conserved, observe_retry-Conserved, ends-Conserved, parks-Conserved,
  batched-Conserved, check_conservation-Conserved,
}

pub record World (F R : Type 0) : Type 0 where
  pub metrics : Metrics F R
  pub queue : List (Event F)
  pub flight : List (Event F)
  pub parked : List (Event F)

-- taking one member out
length-split :
    {A : Type 0} (zs xs ys : List A) (e : A)
    → zs ≡ xs ++ e ∷ ys
    → length zs ≡ suc (length (xs ++ ys))
length-split zs xs ys e h =
    ap length h ∙ omega (arith, length-append xs (e ∷ ys), length-append xs ys)

module _ {F R : Type 0} ⦃fl : Floats F⦄ (half_power : F → F) where
  pub data Step (w : World F R) : World F R → Type 0 where
    put :
        (e : Event F) (now : F)
        → Step w
            (record w { metrics = observe_ingest half_power w.metrics e now; queue = e ∷ w.queue })
    get :
        (e : Event F) (now : F) (xs ys : List (Event F))
        → w.queue ≡ xs ++ e ∷ ys
        → Step w (record w {
          metrics = observe_dequeue w.metrics e now;
          queue = xs ++ ys;
          flight = e ∷ w.flight;
        })
    serve :
        (e : Event F) (now : F) (xs ys : List (Event F))
        → w.flight ≡ xs ++ e ∷ ys
        → Step w
            (record w { metrics = observe_complete half_power w.metrics e now; flight = xs ++ ys })
    batched :
        (e : Event F) (reason : R) (pressure now : F)
        → Step w (record w {
          metrics = (observe_decision w.metrics e micro_batch reason pressure now).0;
        })
    ended :
        (e : Event F) (d : Decision) (reason : R) (pressure now : F) (xs ys : List (Event F))
        → w.flight ≡ xs ++ e ∷ ys
        → ends d ≡ true
        → Step w (record w {
          metrics = observe_defer (observe_decision w.metrics e d reason pressure now).0;
          flight = xs ++ ys;
        })
    deferred :
        (e : Event F) (reason : R) (pressure now : F) (xs ys : List (Event F))
        → w.flight ≡ xs ++ e ∷ ys
        → Step w (record w {
          metrics = observe_defer (observe_decision w.metrics e defer reason pressure now).0;
          flight = xs ++ ys;
          parked = e ∷ w.parked;
        })
    replayed :
        (e : Event F) (now : F) (xs ys : List (Event F))
        → w.parked ≡ xs ++ e ∷ ys
        → Step w (record w {
          metrics = observe_replay w.metrics e now;
          queue = e ∷ w.queue;
          parked = xs ++ ys;
        })
    recovered :
        (e : Event F) (now : F) (xs ys : List (Event F))
        → w.flight ≡ xs ++ e ∷ ys
        → Step w (record w {
          metrics = observe_replay (observe_retry w.metrics) e now;
          queue = e ∷ w.queue;
          flight = xs ++ ys;
        })

  pub data Reach (w : World F R) : World F R → Type 0 where
    here : Reach w w
    next : {v u : World F R} → Reach w v → Step v u → Reach w u

  abbrev pub Balanced : World F R → Type 0
  Balanced w = Conserved w.metrics.counters (length w.queue) (length w.flight) (length w.parked)

  Step-Balanced : {w v : World F R} → Step w v → Balanced w → Balanced v
  Step-Balanced {w} (put e now) b = observe_ingest-Conserved half_power w.metrics e now _ _ _ b
  Step-Balanced {w} (get e now xs ys h) b = observe_dequeue-Conserved w.metrics e now _ _ _ (
      subst (λ n. Conserved w.metrics.counters n (length w.flight) (length w.parked))
        (length-split w.queue xs ys e h) b)
  Step-Balanced {w} (serve e now xs ys h) b =
      observe_complete-Conserved half_power w.metrics e now _ _ _ (
        subst (λ n. Conserved w.metrics.counters (length w.queue) n (length w.parked))
          (length-split w.flight xs ys e h) b)
  Step-Balanced {w} (batched e reason pressure now) b =
      batched-Conserved w.metrics e reason pressure now _ _ _ b
  Step-Balanced {w} (ended e d reason pressure now xs ys h final) b =
      ends-Conserved w.metrics e d reason pressure now _ _ _ final (
        subst (λ n. Conserved w.metrics.counters (length w.queue) n (length w.parked))
          (length-split w.flight xs ys e h) b)
  Step-Balanced {w} (deferred e reason pressure now xs ys h) b =
      parks-Conserved w.metrics e reason pressure now _ _ _ (
        subst (λ n. Conserved w.metrics.counters (length w.queue) n (length w.parked))
          (length-split w.flight xs ys e h) b)
  Step-Balanced {w} (replayed e now xs ys h) b = observe_replay-Conserved w.metrics e now _ _ _ (
      subst (λ n. Conserved w.metrics.counters (length w.queue) (length w.flight) n)
        (length-split w.parked xs ys e h) b)
  Step-Balanced {w} (recovered e now xs ys h) b = observe_retry-Conserved w.metrics e now _ _ _ (
      subst (λ n. Conserved w.metrics.counters (length w.queue) n (length w.parked))
        (length-split w.flight xs ys e h) b)

  Reach-Balanced : {w v : World F R} → Balanced w → Reach w v → Balanced v
  Reach-Balanced b here = b
  Reach-Balanced b (next r s) = Step-Balanced s (Reach-Balanced b r)

  -- From a state whose counters agree with the events in the queue, in flight and parked, any
  -- sequence of steps (put, get, serve, batch, sample, shed, defer, replay, recovery) leads to a
  -- state where the conservation check on the true number of parked events records no failure
  -- and the counters of the queue and of the events in flight are right.
  pub Reach-conserves :
      {w v : World F R}
      → Balanced w
      → Reach w v
      → (check_conservation v.metrics (pos (length v.parked)) ≡ v.metrics)
        × (v.metrics.counters.in_queue ≡ length v.queue)
        × (v.metrics.counters.in_flight ≡ length v.flight)
  Reach-conserves {w} {v} b r =
      let c = Reach-Balanced b r in
      (check_conservation-Conserved v.metrics _ _ _ c, c.queue, c.flight)
