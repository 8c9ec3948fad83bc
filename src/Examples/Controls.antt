-- ===== src/Examples/Controls.antt =====
-- Examples for class Engine of src/triage/app.py.
use vh26_crackers.Base.{
  ℤ, pos, ◌≡◌, refl, ◌+◌, none, some, List, [], ◌∷◌, ◌++◌, length, Perm, String, Option,
}
use vh26_crackers.Base.Scaled.{scaled, scaled-IsFloat}
use vh26_crackers.Classifier.{Raw}
use vh26_crackers.Generator.{Wording, EventGenerator}
use vh26_crackers.Queue.Taking.{all_events}
use vh26_crackers.Metrics.{check_conservation}
use vh26_crackers.Engine.{Engine, reset, ingest_all, chaos_duplicate_flood}
use vh26_crackers.Engine.Ingesting.{fresh_events, seen_count, ingest_all_lem}
use vh26_crackers.Engine.Resetting.{reset_strands_parked}
use vh26_crackers.Engine.Flooding.{chaos_duplicate_flood_lem}
use vh26_crackers.Examples.Data.{whole, a_payment, a_stock}
use vh26_crackers.Examples.Flow.{control}
use vh26_crackers.Examples.Stores.{two_hashes, deduplicator, fresh-Tracks}
use vh26_crackers.Examples.Serving.{a_submission, a_classifier}
use vh26_crackers.Examples.Working.{setup, pool, world}

abbrev words : Wording ℤ
words = record {
  event_id = λ n. "again";
  customer = λ n. "c";
  dedup_key = λ t key n. key;
  scaled_size = λ n m. n;
}

abbrev generator : EventGenerator ℤ
generator = record {
  rate = whole 5;
  payload_multiplier = whole 2;
  emission_number = 7;
  business_numbers = λ t key. 0;
  admission = control;
}

abbrev engine : Engine ℤ (List String)
engine = record {
  generator = generator;
  classifier = a_classifier;
  dedup = deduplicator;
  world = world;
}

-- the second delivery of one key is suppressed
abbrev delivered : List (Raw ℤ × ℤ)
delivered =
    (a_submission, whole 7)
    ∷ (record a_submission { event_id = "e2" }, whole 8)
    ∷ (record a_submission { dedup_key = "a" }, whole 9)
    ∷ []

ingest_all_lem_example :
    let e = ingest_all two_hashes setup engine delivered in
    (seen_count e.world.pool ≡ seen_count pool + length delivered)
    × Perm
        (all_events e.world.pool.queue)
        (fresh_events deduplicator.capacity [] a_classifier delivered ++ all_events pool.queue)
ingest_all_lem_example = ingest_all_lem two_hashes setup engine [] delivered fresh-Tracks

chaos_duplicate_flood_lem_example :
    let (e, r) =
      chaos_duplicate_flood two_hashes words setup
        (λ s n. a_payment ∷ a_stock ∷ [])
        engine
        9
        (whole 7) in
    (r.replayed ≡ 2)
    × (r.admitted + r.suppressed ≡ r.replayed)
    × (e.world.pool.metrics.counters.ingested ≡ pool.metrics.counters.ingested + r.admitted)
    × (e.world.pool.metrics.counters.duplicates_caught
        ≡ pool.metrics.counters.duplicates_caught + r.suppressed)
chaos_duplicate_flood_lem_example =
    chaos_duplicate_flood_lem two_hashes words setup (λ s n. a_payment ∷ a_stock ∷ []) engine 9
      (whole 7)

-- one event is parked
abbrev parking : Engine ℤ (List String)
parking = record engine {
  world = record world { pool = record pool { buffer = record pool.buffer { pending = pos 1 } } };
}

abbrev or_parking : Option (Engine ℤ (List String)) → Engine ℤ (List String)
or_parking none = parking
or_parking (some e) = e

abbrev after_reset : Engine ℤ (List String)
after_reset = or_parking (reset deduplicator setup parking (whole 200))

resets : reset deduplicator setup parking (whole 200) ≡ some after_reset
unfolding reset
resets = refl

one_parked : ¬ (pos 1 ≡ pos 0)
one_parked = λ e. cc e

reset_strands_parked_example :
    (all_events after_reset.world.pool.queue ≡ [])
    × (after_reset.world.pool.buffer ≡ parking.world.pool.buffer)
    × ((check_conservation after_reset.world.pool.metrics
          after_reset.world.pool.buffer.pending).critical_failure_count
        ≡ after_reset.world.pool.metrics.critical_failure_count + 1)
reset_strands_parked_example =
    reset_strands_parked deduplicator setup parking after_reset (whole 200) resets one_parked
