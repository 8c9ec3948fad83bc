-- ===== src/Engine/Resetting.antt =====
-- `Engine.reset`, which leaves the buffer of deferral.py as it is.
use vh26_crackers.Base.{
  ℕ, ◌+◌, zero, suc, ◌≡◌, refl, ◌∙◌, ℤ, pos, List, [], ◌∷◌, Option, none, some, Floats, eq_ℤ, ◌+ℤ◌,
  negsuc, arith, Bool-cases, inl, inr, true, false,
}
use vh26_crackers.Dedup.{Deduplicator}
use vh26_crackers.Metrics.{check_conservation}
use vh26_crackers.Metrics.Current
use vh26_crackers.Generator.{EventGenerator}
use vh26_crackers.Generator
use vh26_crackers.Queue.{EventQueue, tier_events}
use vh26_crackers.Queue.Taking.{all_events}
use vh26_crackers.Queue.Naive.{task_done}
use vh26_crackers.Queue.Naive
use vh26_crackers.Worker.Pool.{Pool, Setup, Stage, done, finally_done}
use vh26_crackers.Worker.Serving.{done_times}
use vh26_crackers.Worker.Handling.{owed}
use vh26_crackers.Worker.Running.{World}
use vh26_crackers.Engine.{Engine, stop_all, reset_pool, reset_world, reset_with, reset}

unbalanced : (n : ℤ) → ¬ (n ≡ pos 0) → eq_ℤ (pos 0) (pos 0 +ℤ n) ≡ false
unbalanced (pos zero) h = absurd (h refl)
unbalanced (pos (suc m)) h = ground arith
unbalanced (negsuc m) h = ground arith

module _ {F S : Type 0} where
  buffer-done : (p : Pool F S) (q : Option (EventQueue F)) → (done p q).0.buffer ≡ p.buffer
  unfolding done
  buffer-done p none = refl
  buffer-done p (some q) = refl

  buffer-done_times : (n : ℕ) (p : Pool F S) → (done_times n p).0.buffer ≡ p.buffer
  unfolding done_times finally_done
  buffer-done_times zero p = refl
  buffer-done_times (suc n) p = elim (Bool-cases (finally_done p true).1) [
    | inl fine ↦
        rw fine (buffer-done_times n (finally_done p true).0 ∙ buffer-done p (task_done p.queue))
    | inr missed ↦ rw missed (buffer-done p (task_done p.queue))
  ]

  buffer-stop_all : (p : Pool F S) (stages : List (Stage F)) → (stop_all p stages).buffer ≡ p.buffer
  unfolding stop_all
  buffer-stop_all p [] = refl
  buffer-stop_all p (stage ∷ stages) =
      buffer-stop_all (done_times (owed stage) p).0 stages ∙ buffer-done_times (owed stage) p

module _ {F S : Type 0} ⦃fl : Floats F⦄ where
  reset_with_lem :
      (new_dedup : Deduplicator) (e e' : Engine F S) (g : Option (EventGenerator F)) (now : F)
      → reset_with new_dedup e g now ≡ some e'
      → e'.world ≡ reset_world e.world now
  unfolding reset_with
  reset_with_lem new_dedup e e' none now h = cc h
  reset_with_lem new_dedup e e' (some g) now h = cc h

  reset_world_lem :
      (w : World F S) (now : F) (n : ℤ)
      → ¬ (n ≡ pos 0)
      → (all_events (reset_world w now).pool.queue ≡ [])
        × ((reset_world w now).pool.buffer ≡ w.pool.buffer)
        × ((check_conservation (reset_world w now).pool.metrics n).critical_failure_count
            ≡ (reset_world w now).pool.metrics.critical_failure_count + 1)
  unfolding reset_world reset_pool check_conservation Current.reset Current.set_mode Naive.clear
      tier_events
  reset_world_lem w now n h = (refl, buffer-stop_all w.pool w.workers, rw (unbalanced n h) refl)

  -- A reset of the engine that does not raise, at a time when the cached count of the parked
  -- events is not zero, empties the queue and leaves the deferral store, rows and count, as it
  -- was, and the next conservation check records a failure.
  pub reset_strands_parked :
      (new_dedup : Deduplicator) (c : Setup F S) (e e' : Engine F S) (now : F)
      → reset new_dedup c e now ≡ some e'
      → ¬ (e.world.pool.buffer.pending ≡ pos 0)
      → (all_events e'.world.pool.queue ≡ [])
        × (e'.world.pool.buffer ≡ e.world.pool.buffer)
        × ((check_conservation e'.world.pool.metrics
              e'.world.pool.buffer.pending).critical_failure_count
            ≡ e'.world.pool.metrics.critical_failure_count + 1)
  unfolding reset
  reset_strands_parked new_dedup c e e' now h waiting =
      let same =
        reset_with_lem new_dedup e e' (Generator.set_rate e.generator c.config.baseline_eps) now
          h in
      let (empty, kept, alarm) = reset_world_lem e.world now e.world.pool.buffer.pending waiting in
      rw (same, kept) (empty, refl, alarm)
