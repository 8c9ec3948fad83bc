-- ===== src/Engine/Ingesting.antt =====
-- `Engine._ingest` against an ideal memory of all keys that were delivered.
use mathlib.Core.List.Perm
use mathlib.Core.List.{perm_middle}
use vh26_crackers.Base.{
  ℕ, ◌+◌, ◌≡◌, sym, Bool, true, false, List, [], ◌∷◌, ◌++◌, String, length, none, Floats, Perm,
  arith,
}
use vh26_crackers.Contracts.{Event}
use vh26_crackers.Dedup.{Hashes, evict, member, check}
use vh26_crackers.Dedup.Check.{Tracks, remember, check-Tracks, capacity-check}
use vh26_crackers.Classifier.{Raw, Classifier, classify}
use vh26_crackers.Metrics.State.{count_ingest}
use vh26_crackers.Metrics.{observe_ingest, observe_duplicate_caught}
use vh26_crackers.Queue.Taking.{all_events}
use vh26_crackers.Queue.Naive.{enqueue-perm}
use vh26_crackers.Worker.Pool.{Setup, Pool}
use vh26_crackers.Worker.Running.{put}
use vh26_crackers.Engine.{Engine, with_pool, put_in, ingest, ingest_all}

module _ {F : Type 0} where
  abbrev pub unless : Bool → Event F → List (Event F) → List (Event F)
  unless true e es = es
  unless false e es = e ∷ es

  unless-perm :
      (seen : Bool) (e : Event F) (xs ys zs : List (Event F))
      → Perm zs (unless seen e ys)
      → Perm (xs ++ zs) (unless seen e xs ++ ys)
  unless-perm true e xs ys zs p = Perm.append (Perm.refl xs) p
  unless-perm false e xs ys zs p = Perm.trans (Perm.append (Perm.refl xs) p) (perm_middle xs ys)

module _ {F : Type 0} ⦃fl : Floats F⦄ where
  -- the events whose key is not among the newest `n` keys that came before
  unfoldable pub fresh_events : ℕ → List String → Classifier F → List (Raw F × F) → List (Event F)
  unfolding classify
  fresh_events n ideal cl [] = []
  fresh_events n ideal cl ((raw, now) ∷ rest) =
      let (cl', e) = classify cl raw none now in
      unless (member e.dedup_key (evict n ideal)) e
        (fresh_events n (remember ideal e.dedup_key) cl' rest)

module _ {F S : Type 0} where
  -- what came in, whether it was put in or suppressed
  abbrev pub seen_count : Pool F S → ℕ
  seen_count p = p.metrics.counters.ingested + p.metrics.counters.duplicates_caught

module _ {F S : Type 0} ⦃fl : Floats F⦄ where
  put_in-perm :
      (c : Setup F S) (p : Pool F S) (event : Event F) (now : F) (seen : Bool)
      → Perm (all_events (put_in c p event now seen).queue) (unless seen event (all_events p.queue))
  unfolding put_in put
  put_in-perm c p event now true = Perm.refl (all_events p.queue)
  put_in-perm c p event now false = enqueue-perm p.queue event

  seen_count-put_in :
      (c : Setup F S) (p : Pool F S) (event : Event F) (now : F) (seen : Bool)
      → seen_count (put_in c p event now seen) ≡ seen_count p + 1
  unfolding put_in put observe_ingest observe_duplicate_caught count_ingest
  seen_count-put_in c p event now true = omega arith
  seen_count-put_in c p event now false = omega arith

  -- From a deduplicator that tracks an ideal memory of all keys, the loop of `_ingest` puts into
  -- the queue just those submissions, classified, whose key is not among the newest `capacity`
  -- keys that came before them, and counts each submission once, as ingested or as a duplicate.
  pub ingest_all_lem :
      (hs : Hashes) (c : Setup F S) (e : Engine F S) (ideal : List String) (raws : List (Raw F × F))
      → Tracks hs e.dedup ideal
      → (seen_count (ingest_all hs c e raws).world.pool ≡ seen_count e.world.pool + length raws)
        × Perm
            (all_events (ingest_all hs c e raws).world.pool.queue)
            (fresh_events e.dedup.capacity ideal e.classifier raws ++ all_events e.world.pool.queue)
  unfolding ingest_all fresh_events ingest
  ingest_all_lem hs c e ideal [] t = (omega arith, Perm.refl (all_events e.world.pool.queue))
  ingest_all_lem hs c e ideal ((raw, now) ∷ rest) t =
      let (cl, event) = classify e.classifier raw none now in
      let (d, seen) = check hs e.dedup event.dedup_key in
      let p = e.world.pool in
      let e' = with_pool (record e { classifier = cl; dedup = d }) (put_in c p event now seen) in
      let (same, t') = check-Tracks hs e.dedup ideal event.dedup_key t in
      let (count, perm) = ingest_all_lem hs c e' (remember ideal event.dedup_key) rest t' in
      (
        omega (arith, count, seen_count-put_in c p event now seen),
        rw (sym same) (
            Perm.trans (rw (capacity-check hs e.dedup event.dedup_key) at perm) (
              unless-perm seen event
                (fresh_events e.dedup.capacity (remember ideal event.dedup_key) cl rest)
                (all_events p.queue) (all_events (put_in c p event now seen).queue)
                (put_in-perm c p event now seen))),
      )
