-- ===== src/Engine/Flooding.antt =====
-- `Engine.chaos_duplicate_flood` sends each source through the path of `_ingest` once more.
use vh26_crackers.Base.{
  ℕ, ◌+◌, ◌≡◌, refl, Bool, true, false, List, [], ◌∷◌, length, none, Floats, arith,
}
use vh26_crackers.Contracts.{Event}
use vh26_crackers.Dedup.{Hashes, check}
use vh26_crackers.Classifier.{classify}
use vh26_crackers.Generator.{Wording, retry}
use vh26_crackers.Metrics.{observe_ingest, observe_duplicate_caught}
use vh26_crackers.Metrics.State.{count_ingest}
use vh26_crackers.Worker.Pool.{Setup, Pool}
use vh26_crackers.Worker.Running.{put}
use vh26_crackers.Engine.{
  Engine, FloodResult, with_pool, put_in, ingest, counted, raw_of, flood_from,
  chaos_duplicate_flood,
}

module _ {F S : Type 0} where
  -- between two results of a flood, the counters of two pools moved as the results say
  pub record Told (p p' : Pool F S) (r r' : FloodResult) (n : ℕ) : Type 0 where
    pub replays : r'.replayed ≡ r.replayed + n
    pub outcomes :
        r'.admitted + r'.suppressed + r.replayed ≡ r.admitted + r.suppressed + r'.replayed
    pub admits :
        p'.metrics.counters.ingested + r.admitted ≡ p.metrics.counters.ingested + r'.admitted
    pub catches :
        p'.metrics.counters.duplicates_caught + r.suppressed
        ≡ p.metrics.counters.duplicates_caught + r'.suppressed

module _ {F S : Type 0} ⦃fl : Floats F⦄ where
  put_in-Told :
      (c : Setup F S) (p : Pool F S) (event : Event F) (now : F) (seen : Bool) (r : FloodResult)
      → Told p
          (put_in c p event now seen)
          r
          (counted seen (record r { replayed = r.replayed + 1 }))
          1
  unfolding put_in put observe_ingest observe_duplicate_caught count_ingest
  put_in-Told c p event now true r = record {
    replays = refl;
    outcomes = omega arith;
    admits = refl;
    catches = omega arith;
  }
  put_in-Told c p event now false r = record {
    replays = refl;
    outcomes = omega arith;
    admits = omega arith;
    catches = refl;
  }

  flood_from-Told :
      (hs : Hashes) (words : Wording F) (c : Setup F S) (e : Engine F S) (r : FloodResult)
      (sources : List (Event F)) (now : F)
      → Told e.world.pool
          (flood_from hs words c e r sources now).0.world.pool
          r
          (flood_from hs words c e r sources now).1
          (length sources)
  unfolding flood_from ingest
  flood_from-Told hs words c e r [] now = record {
    replays = omega arith;
    outcomes = omega arith;
    admits = refl;
    catches = refl;
  }
  flood_from-Told hs words c e r (original ∷ rest) now =
      let (generator, raw) = retry words e.generator (raw_of original) now in
      let (classifier, event) = classify e.classifier raw none now in
      let (dedup, seen) = check hs e.dedup event.dedup_key in
      let p = put_in c e.world.pool event now seen in
      let e' =
        with_pool (record e { generator = generator; classifier = classifier; dedup = dedup }) p in
      let one = put_in-Told c e.world.pool event now seen r in
      let more =
        flood_from-Told hs words c e' (counted seen (record r { replayed = r.replayed + 1 })) rest
          now in
      record {
        replays = omega (arith, one.replays, more.replays);
        outcomes = omega (arith, one.outcomes, more.outcomes);
        admits = omega (arith, one.admits, more.admits);
        catches = omega (arith, one.catches, more.catches);
      }

  -- A flood of duplicates replays each event that the sink names once, its answer counts each as
  -- admitted or as suppressed, and the counters of ingested events and of caught duplicates grow
  -- by just these two numbers.
  pub chaos_duplicate_flood_lem :
      (hs : Hashes) (words : Wording F) (c : Setup F S) (recent : S → ℕ → List (Event F))
      (e : Engine F S) (n : ℕ) (now : F)
      → let (e', r) = chaos_duplicate_flood hs words c recent e n now in
        (r.replayed ≡ length (recent e.world.pool.sink n))
        × (r.admitted + r.suppressed ≡ r.replayed)
        × (e'.world.pool.metrics.counters.ingested
            ≡ e.world.pool.metrics.counters.ingested + r.admitted)
        × (e'.world.pool.metrics.counters.duplicates_caught
            ≡ e.world.pool.metrics.counters.duplicates_caught + r.suppressed)
  unfolding chaos_duplicate_flood
  chaos_duplicate_flood_lem hs words c recent e n now =
      let t =
        flood_from-Told hs words c e (record { replayed = 0; admitted = 0; suppressed = 0 })
          (recent e.world.pool.sink n) now in
      (
        omega (arith, t.replays),
        omega (arith, t.outcomes),
        omega (arith, t.admits),
        omega (arith, t.catches),
      )
