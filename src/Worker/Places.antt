-- ===== src/Worker/Places.antt =====
-- The operations of a pool against the places of its events: serving, batching, what leaves the
-- path, and recovery.
use mathlib.Core.List.Perm
use mathlib.Core.List.{perm_middle}
use vh26_crackers.Base.{
  ◌≡◌, refl, ap, ℕ, ◌+◌, zero, suc, ◌==◌, ℤ, Bool, true, false, List, [], ◌∷◌, ◌++◌, map, Perm,
  Option, none, some, Floats, Bool-cases, inl, inr,
}
use vh26_crackers.Contracts.{
  Event, EventType, payment, order, inventory, click, log, Decision, stream_now, micro_batch, defer,
  sample_rollup,
}
use vh26_crackers.Decision.{Reason}
use vh26_crackers.Ladder.Reservoir.{Rollup, add}
use vh26_crackers.Sink.Rollups.{RollupSink, WriteResult, write_rollup}
use vh26_crackers.Checkpoint.{CheckpointStore, begin, mark_done}
use vh26_crackers.Checkpoint
use vh26_crackers.Deferral.{DeferralStore, Result, ok, value_error, local}
use vh26_crackers.Deferral.Parked.{Parks, defer-Parks, parked}
use vh26_crackers.Queue.{enqueue}
use vh26_crackers.Queue.Naive.{task_done, enqueue-perm}
use vh26_crackers.Queue.Taking.{all_events}
use vh26_crackers.Metrics.{observe_replay, observe_retry, observe_complete}
use vh26_crackers.Worker.Pool.{
  Pool, Setup, Gone, event_of, served, sampled, shed, dropped, leave, done, finally_done, put_back,
  recover_worker, observe,
}
use vh26_crackers.Worker.Serving.{
  deferred, begin_all, marked, done_times, persisted, sampled_into, add_to_reservoir, off_path,
  dispatch_off_path, learned, written, completed,
}
use vh26_crackers.Worker.Keeping.{Local, Apart, inside, unparked, leave-perm}
use vh26_crackers.Worker.Moves.{Local-give, Local-same, Local-begin, Local-finish, Local-recover}

-- the decisions of `_OFF_PATH`
abbrev pub is_off_path : Decision → Bool
is_off_path defer = true
is_off_path sample_rollup = true
is_off_path Decision.shed = true
is_off_path stream_now = false
is_off_path micro_batch = false

module _ {F S : Type 0} where
  put_back-perm :
      (p : Pool F S) (es : List (Event F)) (now : F)
      → (Perm (inside (put_back p es now)) (es ++ inside p))
        × ((put_back p es now).checkpoint ≡ p.checkpoint)
        × ((put_back p es now).buffer ≡ p.buffer)
  unfolding put_back
  put_back-perm p [] now = (Perm.refl (inside p), refl, refl)
  put_back-perm p (e ∷ es) now =
      let p' : Pool F S = record p {
        metrics = observe_replay (observe_retry p.metrics) e now;
        queue = enqueue p.queue e;
      } in
      let rest = put_back-perm p' es now in
      (
        Perm.trans rest.0 (
            Perm.trans
              (Perm.append (Perm.refl es) (
                Perm.append (enqueue-perm p.queue e)
                  (Perm.refl (parked p.buffer ++ map event_of p.gone))))
              (perm_middle es (inside p))),
        rest.1,
        rest.2,
      )

module _ {F S : Type 0} (w : ℤ) (others : List (Checkpoint.Row F)) (total : List (Event F)) where
  pub finally_done-Local :
      (p : Pool F S) (fine : Bool) (mine loose : List (Event F))
      → Local p w others total mine loose
      → Local (finally_done p fine).0 w others total mine loose
  unfolding finally_done done task_done
  finally_done-Local p fine mine loose l = elim (Bool-cases (p.queue.unfinished == 0)) [
    | inl h ↦ rw h l
    | inr h ↦ rw h (Local-same w others total p _ mine mine loose refl refl refl (Perm.refl mine) l)
  ]

  pub done_times-Local :
      (n : ℕ) (p : Pool F S) (mine loose : List (Event F))
      → Local p w others total mine loose
      → Local (done_times n p).0 w others total mine loose
  unfolding done_times
  done_times-Local zero p mine loose l = l
  done_times-Local (suc n) p mine loose l =
      let once = finally_done-Local p true mine loose l in
      elim (Bool-cases (finally_done p true).1) [
        | inl h ↦ rw h (done_times-Local n (finally_done p true).0 mine loose once)
        | inr h ↦ rw h once
      ]

  pub recover_worker-Local :
      (p : Pool F S) (mine : List (Event F)) (now : F)
      → Local p w others total mine []
      → Local (recover_worker p w now) w others total [] []
  unfolding recover_worker
  recover_worker-Local p mine now l =
      let back =
        put_back-perm (record p { checkpoint = (Checkpoint.recover_worker p.checkpoint w).0 })
          (Checkpoint.recover_worker p.checkpoint w).1 now in
      Local-recover w others total p _ mine back.1 back.2 back.0 l

  pub begin_all-Local :
      (p : Pool F S) (es mine : List (Event F)) (now : F)
      → Apart others total
      → Local p w others total mine es
      → Local (begin_all p es w now) w others total (es ++ mine) []
  unfolding begin_all
  begin_all-Local p [] mine now u l = l
  begin_all-Local p (e ∷ es) mine now u l =
      let begun : Pool F S = record p { checkpoint = (begin p.checkpoint e w now).0 } in
      let rest =
        begin_all-Local begun es (e ∷ mine) now u
          (Local-begin w others total p mine es e now u l) in
      Local-same w others total (begin_all begun es w now) _ (es ++ e ∷ mine) (e ∷ (es ++ mine)) []
        refl refl refl (Perm.symm (perm_middle es mine)) rest

  -- an event that is held goes to the past, whatever else of the pool changes
  pub Local-leave :
      (p : Pool F S) (g : Gone F) (mine loose : List (Event F))
      → Local p w others total mine (event_of g ∷ loose)
      → Local (leave g p) w others total mine loose
  Local-leave p g mine loose l =
      Local-give w others total p (leave g p) mine loose (event_of g) refl l.buffer (leave-perm g p)
        l

  -- what holds after a service: the event is done, or it is still begun
  abbrev pub OnDone : Event F → List (Event F) → List (Event F) → Pool F S × Bool → Type 0
  OnDone e mine loose (p, true) = Local p w others total mine loose
  OnDone e mine loose (p, false) = Local p w others total (e ∷ mine) loose

module _ {F S : Type 0} ⦃fl : Floats F⦄ (w : ℤ) (others : List (Checkpoint.Row F))
    (total : List (Event F)) where
  persisted-Local :
      (p : Pool F S) (r : Rollup F) (x : RollupSink F × WriteResult) (mine loose : List (Event F))
      → Local p w others total mine loose
      → Local (persisted p r x).0 w others total mine loose
  unfolding persisted
  persisted-Local p r (store, WriteResult.integrity_error) mine loose l =
      Local-same w others total p _ mine mine loose refl refl refl (Perm.refl mine) l
  persisted-Local p r (store, WriteResult.written id) mine loose l =
      Local-same w others total p _ mine mine loose refl refl refl (Perm.refl mine) l

  -- the counters and the reservoirs aside
  leaves_as :
      (p p' : Pool F S) (g : Gone F) (mine loose : List (Event F))
      → p'.checkpoint ≡ p.checkpoint
      → p'.buffer ≡ p.buffer
      → inside p' ≡ inside p
      → Local p w others total mine (event_of g ∷ loose)
      → Local (leave g p') w others total mine loose
  leaves_as p p' g mine loose same b h l =
      Local-leave w others total p' g mine loose
        (Local-same w others total p p' mine mine (event_of g ∷ loose) same b h (Perm.refl mine) l)

  sampled_into-Local :
      (p : Pool F S) (e : Event F) (o : Option (Rollup F)) (now : F) (mine loose : List (Event F))
      → Local p w others total mine (e ∷ loose)
      → Local (sampled_into p e o now).0 w others total mine loose
  unfolding sampled_into event_of
  sampled_into-Local p e none now mine loose l =
      leaves_as p _ (sampled e) mine loose refl refl refl l
  sampled_into-Local p e (some r) now mine loose l =
      let counted : Pool F S = record p { sampled_count = p.sampled_count + 1 } in
      persisted-Local (leave (sampled e) counted) r (write_rollup p.rollups r now) mine loose
        (leaves_as p counted (sampled e) mine loose refl refl refl l)

  add_to_reservoir-Local :
      (t : EventType) (p : Pool F S) (e : Event F) (now : F) (mine loose : List (Event F))
      → Local p w others total mine (e ∷ loose)
      → Local (add_to_reservoir t p e now).0 w others total mine loose
  unfolding add_to_reservoir event_of
  add_to_reservoir-Local click p e now mine loose l =
      sampled_into-Local _ e (add p.click_reservoir e now).1 now mine loose
        (Local-same w others total p _ mine mine (e ∷ loose) refl refl refl (Perm.refl mine) l)
  add_to_reservoir-Local log p e now mine loose l =
      sampled_into-Local _ e (add p.log_reservoir e now).1 now mine loose
        (Local-same w others total p _ mine mine (e ∷ loose) refl refl refl (Perm.refl mine) l)
  add_to_reservoir-Local payment p e now mine loose l =
      leaves_as p p (sampled e) mine loose refl refl refl l
  add_to_reservoir-Local order p e now mine loose l =
      leaves_as p p (sampled e) mine loose refl refl refl l
  add_to_reservoir-Local inventory p e now mine loose l =
      leaves_as p p (sampled e) mine loose refl refl refl l

  deferred-Local :
      (p : Pool F S) (e : Event F) (x : Result (DeferralStore F (Reason F)))
      (mine loose : List (Event F))
      → Parks p.buffer e x
      → Local p w others total mine (e ∷ loose)
      → Local (deferred p e x).0 w others total mine loose
  unfolding deferred event_of
  deferred-Local p e value_error mine loose parks l =
      leaves_as p p (dropped e) mine loose refl refl refl l
  deferred-Local p e (ok buffer) mine loose parks l =
      Local-give w others total p _ mine loose e refl parks.1
        (Perm.trans
          (Perm.append (Perm.refl (all_events p.queue))
            (Perm.append parks.0 (Perm.refl (map event_of p.gone))))
          (perm_middle (all_events p.queue) (parked p.buffer ++ map event_of p.gone)))
        l

  off_path-Local :
      (p : Pool F S) (e : Event F) (d : Decision) (reason : Reason F) (now : F)
      (mine loose : List (Event F))
      → Apart others total
      → is_off_path d ≡ true
      → Local p w others total mine (e ∷ loose)
      → Local (off_path p e d reason now).0 w others total mine loose
  unfolding off_path event_of
  off_path-Local p e defer reason now mine loose u h l =
      deferred-Local p e _ mine loose
        (defer-Parks p.buffer e reason now local l.buffer
          (unparked p w others total mine loose e u l))
        l
  off_path-Local p e sample_rollup reason now mine loose u h l =
      add_to_reservoir-Local e.type p e now mine loose l
  off_path-Local p e Decision.shed reason now mine loose u h l =
      leaves_as p _ (shed e) mine loose refl refl refl l
  off_path-Local p e stream_now reason now mine loose u h l = cc
  off_path-Local p e micro_batch reason now mine loose u h l = cc

  -- an event that leaves the path is parked or gone
  pub dispatch_off_path-Local :
      (p : Pool F S) (e : Event F) (d : Decision) (reason : Reason F) (pressure now : F)
      (mine loose : List (Event F))
      → Apart others total
      → is_off_path d ≡ true
      → Local p w others total mine (e ∷ loose)
      → Local (dispatch_off_path p e d reason pressure now).0 w others total mine loose
  unfolding dispatch_off_path observe
  dispatch_off_path-Local p e d reason pressure now mine loose u h l =
      off_path-Local _ e d reason now mine loose u h
        (Local-same w others total p _ mine mine (e ∷ loose) refl refl refl (Perm.refl mine) l)

  marked-Local :
      (p : Pool F S) (e : Event F) (x : CheckpointStore F × Bool) (mine loose : List (Event F))
      → Apart others total
      → x ≡ mark_done p.checkpoint e.event_id
      → Local p w others total (e ∷ mine) loose
      → Local (marked (leave (served e) p) x) w others total mine loose
  unfolding marked event_of
  marked-Local p e (store, true) mine loose u h l =
      Local-finish w others total p _ mine loose e u (ap (λ y. y.0) h) refl
        (leave-perm (served e) p) l
  marked-Local p e (store, false) mine loose u h l =
      Local-finish w others total p _ mine loose e u (ap (λ y. y.0) h) refl
        (leave-perm (served e) p) l

  written-OnDone :
      (c : Setup F S) (p : Pool F S) (e : Event F) (o : Option S) (mine loose : List (Event F))
      → Apart others total
      → Local p w others total (e ∷ mine) loose
      → OnDone w others total e mine loose (written c p e o)
  unfolding written
  written-OnDone c p e none mine loose u l = l
  written-OnDone c p e (some sink) mine loose u l =
      marked-Local
        (record p {
          sink = sink;
          served_count = p.served_count + 1;
          cost_model = learned c p.cost_model e;
        })
        e (mark_done p.checkpoint e.event_id) mine loose u refl
        (Local-same w others total p _ (e ∷ mine) (e ∷ mine) loose refl refl refl
          (Perm.refl (e ∷ mine)) l)

  pub completed-OnDone :
      (c : Setup F S) (p : Pool F S) (e : Event F) (now : F) (mine loose : List (Event F))
      → Apart others total
      → Local p w others total (e ∷ mine) loose
      → OnDone w others total e mine loose (completed c p e now)
  unfolding completed
  completed-OnDone c p e now mine loose u l =
      written-OnDone c (record p { metrics = observe_complete c.half_power p.metrics e now }) e
        (c.sink_write p.sink e) mine loose u
        (Local-same w others total p _ (e ∷ mine) (e ∷ mine) loose refl refl refl
          (Perm.refl (e ∷ mine)) l)
