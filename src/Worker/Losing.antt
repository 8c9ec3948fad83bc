-- ===== src/Worker/Losing.antt =====
-- What a worker's death and a write that raises do to the events and to the counters.
use mathlib.Core.List.Perm
use mathlib.Core.List.{perm_middle}
use vh26_crackers.Base.{
  ◌≡◌, refl, sym, ◌∙◌, subst, ap, ℕ, zero, suc, ◌+◌, ◌==◌, ℤ, pos, Bool, true, false, List, [], ◌∷◌,
  ◌++◌, map, length, Perm, none, Floats, arith, Bool-cases, inl, inr,
}
use vh26_crackers.Contracts.{Event, Tier, p0, p1, p2}
use vh26_crackers.Decision.{Reason}
use vh26_crackers.Checkpoint
use vh26_crackers.Queue.{EventQueue, enqueue, enqueue_at}
use vh26_crackers.Queue.Taking.{all_events}
use vh26_crackers.Queue.Naive.{task_done, enqueue-perm}
use vh26_crackers.Metrics.State.{Metrics, count_complete}
use vh26_crackers.Metrics.{observe_replay, observe_retry, observe_complete, check_conservation}
use vh26_crackers.Metrics.Conservation.{
  Conserved, check_conservation-Conserved, observe_retry-Conserved, observe_complete-Conserved,
}
use vh26_crackers.Worker.Pool.{
  Pool, Setup, Stage, dropped, begun, unbegun, drop_all, done, finally_done, put_back,
  recover_worker,
}
use vh26_crackers.Worker.Serving.{done_times, written, completed}
use vh26_crackers.Worker.Handling.{owed, killed, dispatched, run_done, run_on, resume, advance}

module _ {F : Type 0} where
  -- an event that was put in can be settled
  at_unfinished :
      (t : Tier) (q : EventQueue F) (e : Event F) → (enqueue_at t q e).unfinished ≡ q.unfinished + 1
  unfolding enqueue_at
  at_unfinished p0 q e = refl
  at_unfinished p1 q e = refl
  at_unfinished p2 q e = refl

module _ {F S : Type 0} where
  -- the pools differ in the count of unfinished tasks alone
  abbrev SameBut : Pool F S → Pool F S → Type 0
  SameBut p p' =
      (p'.metrics ≡ p.metrics)
      × (p'.checkpoint ≡ p.checkpoint)
      × (p'.gone ≡ p.gone)
      × (p'.buffer ≡ p.buffer)
      × (all_events p'.queue ≡ all_events p.queue)
      × (p'.sink ≡ p.sink)

  finally_done-SameBut : (p : Pool F S) (fine : Bool) → SameBut p (finally_done p fine).0
  unfolding finally_done done task_done
  finally_done-SameBut p fine = elim (Bool-cases (p.queue.unfinished == 0)) [
    | inl h ↦ rw h (refl, refl, refl, refl, refl, refl)
    | inr h ↦ rw h (refl, refl, refl, refl, refl, refl)
  ]

  done_times-SameBut : (n : ℕ) (p : Pool F S) → SameBut p (done_times n p).0
  unfolding done_times
  done_times-SameBut zero p = (refl, refl, refl, refl, refl, refl)
  done_times-SameBut (suc n) p =
      let p' = (finally_done p true).0 in
      let a = finally_done-SameBut p true in
      let b = done_times-SameBut n p' in
      elim (Bool-cases (finally_done p true).1) [
        | inl h ↦ rw h (b.0 ∙ a.0, b.1 ∙ a.1, b.2 ∙ a.2, b.3 ∙ a.3, b.4 ∙ a.4, b.5 ∙ a.5)
        | inr h ↦ rw h a
      ]

  put_back-places :
      (p : Pool F S) (es : List (Event F)) (now : F)
      → Perm (all_events (put_back p es now).queue) (es ++ all_events p.queue)
        × ((put_back p es now).gone ≡ p.gone)
        × ((put_back p es now).buffer ≡ p.buffer)
  unfolding put_back
  put_back-places p [] now = (Perm.refl (all_events p.queue), refl, refl)
  put_back-places p (e ∷ es) now =
      let p' : Pool F S = record p {
        metrics = observe_replay (observe_retry p.metrics) e now;
        queue = enqueue p.queue e;
      } in
      let rest = put_back-places p' es now in
      (
        Perm.trans rest.0 (
            Perm.trans (Perm.append (Perm.refl es) (enqueue-perm p.queue e))
              (perm_middle es (all_events p.queue))),
        rest.1,
        rest.2,
      )

  -- Where a worker's checkpoint rows are the events that it has begun, its death at any await
  -- puts just these back into the queue, drops just those that it holds without a row, and
  -- leaves the parked events.
  pub killed_lem :
      (p : Pool F S) (w : ℤ) (stage : Stage F) (now : F)
      → Perm (Checkpoint.recover_worker p.checkpoint w).1 (begun stage)
      → Perm (all_events (killed p w stage now).0.queue) (begun stage ++ all_events p.queue)
        × ((killed p w stage now).0.gone ≡ map dropped (unbegun stage) ++ p.gone)
        × ((killed p w stage now).0.buffer ≡ p.buffer)
  unfolding killed recover_worker drop_all
  killed_lem p w stage now h =
      let left = drop_all (unbegun stage) p in
      let settled = (done_times (owed stage) left).0 in
      let same = done_times-SameBut (owed stage) left in
      let store = Checkpoint.recover_worker settled.checkpoint w in
      let back = put_back-places (record settled { checkpoint = store.0 }) store.1 now in
      (
        Perm.trans back.0 (
            Perm.append
              (subst (λ t. Perm (Checkpoint.recover_worker t w).1 (begun stage)) (sym same.1) h)
              (subst (λ es. Perm es (all_events p.queue)) (sym same.4)
                (Perm.refl (all_events p.queue)))),
        back.1 ∙ same.2,
        back.2 ∙ same.3,
      )

  -- one event is given back
  abbrev BackOne : Pool F S → Event F → F → Pool F S → Type 0
  BackOne p e now p' =
      (p'.metrics ≡ observe_replay (observe_retry p.metrics) e now)
      × (p'.queue ≡ enqueue p.queue e)
      × (p'.sink ≡ p.sink)

  put_back_one :
      (p : Pool F S) (es : List (Event F)) (e : Event F) (now : F)
      → es ≡ e ∷ []
      → BackOne p e now (put_back p es now)
  unfolding put_back
  put_back_one p es e now h = rw h (refl, refl, refl)

  recover_one :
      (p : Pool F S) (w : ℤ) (e : Event F) (now : F)
      → (Checkpoint.recover_worker p.checkpoint w).1 ≡ e ∷ []
      → BackOne p e now (recover_worker p w now)
  unfolding recover_worker
  recover_one p w e now own =
      let store = Checkpoint.recover_worker p.checkpoint w in
      put_back_one (record p { checkpoint = store.0 }) store.1 e now own

  killed-metrics :
      (p : Pool F S) (w : ℤ) (stage : Stage F) (e : Event F) (now : F)
      → (Checkpoint.recover_worker p.checkpoint w).1 ≡ e ∷ []
      → (killed p w stage now).0.metrics ≡ observe_replay (observe_retry p.metrics) e now
  unfolding killed drop_all
  killed-metrics p w stage e now own =
      let left = drop_all (unbegun stage) p in
      let settled = (done_times (owed stage) left).0 in
      let same = done_times-SameBut (owed stage) left in
      (recover_one settled w e now
        (subst (λ t. (Checkpoint.recover_worker t w).1 ≡ e ∷ []) (sym same.1) own)).0
      ∙ ap (λ m. observe_replay (observe_retry m) e now) same.0

  -- A worker that dies while it serves an extra event loses the batch that it has in hand: the
  -- extra event is back in the queue, the batch is dropped and stays counted as in flight, and
  -- the conservation check stays silent.
  pub killed_loses_batch :
      (p : Pool F S) (w : ℤ) (batch : List (Event F)) (pressure : F) (extra : Event F) (now : F)
      (queued h parked : ℕ)
      → Conserved p.metrics.counters queued (suc (length batch + h)) parked
      → (Checkpoint.recover_worker p.checkpoint w).1 ≡ extra ∷ []
      → let p' = (killed p w (Stage.serving_extra batch pressure extra) now).0 in
        Perm (all_events p'.queue) (extra ∷ all_events p.queue)
        × (p'.gone ≡ map dropped batch ++ p.gone)
        × (p'.metrics.counters.in_flight ≡ length batch + h)
        × (check_conservation p'.metrics (pos parked) ≡ p'.metrics)
  killed_loses_batch p w batch pressure extra now queued h parked c own =
      let stage = Stage.serving_extra batch pressure extra in
      let places = killed_lem p w stage now (rw own (Perm.refl (extra ∷ []))) in
      let m = killed-metrics p w stage extra now own in
      let after = observe_retry-Conserved p.metrics extra now queued (length batch + h) parked c in
      (places.0, places.1, rw m after.flight, rw m (check_conservation-Conserved _ _ _ _ after))

module _ {F S : Type 0} where
  settled_once :
      (p : Pool F S) (q : EventQueue F) (e : Event F)
      → p.queue ≡ enqueue q e
      → (finally_done p true).1 ≡ true
  unfolding finally_done done task_done enqueue
  settled_once p q e h =
      let n = ap (λ (r : EventQueue F). r.unfinished) h ∙ at_unfinished e.tier q e in
      elim (Bool-cases (p.queue.unfinished == 0)) [
        | inl none_left ↦ absurd (ground (arith, n))
        | inr some_left ↦ rw some_left refl
      ]

  run_done_fine : (w : ℤ) (now : F) (x : Pool F S × Bool) → x.1 ≡ true → (run_done w now x).0 ≡ x.0
  unfolding run_done
  run_done_fine w now (p, true) h = refl
  run_done_fine w now (p, false) h = cc

module _ {F S : Type 0} ⦃fl : Floats F⦄ where
  failed_advance :
      (c : Setup F S) (clock : ℕ → F) (p : Pool F S) (w : ℤ) (e : Event F) (now : F)
      → c.sink_write p.sink e ≡ none
      → (Checkpoint.recover_worker p.checkpoint w).1 ≡ e ∷ []
      → (advance c clock w p (Stage.serving e) now).0
        ≡ (finally_done
            (recover_worker
              (record p { metrics = observe_complete c.half_power p.metrics e now })
              w
              now)
            true).0
  unfolding advance resume completed run_on written dispatched
  failed_advance c clock p w e now fails own =
      let seen : Pool F S = record p { metrics = observe_complete c.half_power p.metrics e now } in
      let back = recover_worker seen w now in
      rw fails (
        run_done_fine w now (finally_done back true)
          (settled_once back seen.queue e (recover_one seen w e now own).1))

  -- Where every event is counted where it is and at least two are in flight, an event whose
  -- write to the sink raises is counted as processed, is not in the sink, and is back in the
  -- queue; one event too few is counted as in flight, and the conservation check stays silent.
  pub failed_write_counts_twice :
      (c : Setup F S) (clock : ℕ → F) (p : Pool F S) (w : ℤ) (e : Event F) (now : F)
      (queued h parked : ℕ)
      → Conserved p.metrics.counters queued (suc (suc h)) parked
      → (Checkpoint.recover_worker p.checkpoint w).1 ≡ e ∷ []
      → c.sink_write p.sink e ≡ none
      → let p' = (advance c clock w p (Stage.serving e) now).0 in
        (p'.metrics.counters.processed ≡ p.metrics.counters.processed + 1)
        × (p'.sink ≡ p.sink)
        × Perm (all_events p'.queue) (e ∷ all_events p.queue)
        × (p'.metrics.counters.in_flight ≡ h)
        × (check_conservation p'.metrics (pos parked) ≡ p'.metrics)
  unfolding observe_replay observe_retry observe_complete count_complete
  failed_write_counts_twice c clock p w e now queued h parked k own fails =
      let seen : Pool F S = record p { metrics = observe_complete c.half_power p.metrics e now } in
      let back = recover_worker seen w now in
      let one = recover_one seen w e now own in
      let same = finally_done-SameBut back true in
      let end = failed_advance c clock p w e now fails own in
      let m = ap (λ (q : Pool F S). q.metrics) end ∙ same.0 ∙ one.0 in
      let after =
        observe_retry-Conserved seen.metrics e now queued h parked
          (observe_complete-Conserved c.half_power p.metrics e now queued (suc h) parked k) in
      (
        ap (λ (x : Metrics F (Reason F)). x.counters.processed) m,
        ap (λ (q : Pool F S). q.sink) end ∙ same.5 ∙ one.2,
        subst (λ es. Perm es (e ∷ all_events p.queue))
            (sym (ap (λ (q : Pool F S). all_events q.queue) end ∙ same.4 ∙ ap all_events one.1))
            (enqueue-perm p.queue e),
        rw m after.flight,
        rw m (check_conservation-Conserved _ _ _ _ after),
      )
