-- ===== src/Engine.antt =====
-- src/triage/app.py: class Engine, when it serves in its own process. The stores that its modules
-- share are those of the pool. The new `Deduplicator()` and `sink.recent` are parameters.
pub mod Ingesting
pub mod Resetting
pub mod Flooding
use vh26_crackers.Base.{
  ℕ, zero, suc, ◌+◌, ◌/◌, Bool, true, false, List, [], ◌∷◌, ◌++◌, String, str_eq, Option, none,
  some, Floats, ◌⊘◌, of_int, if◌then◌else◌,
}
use vh26_crackers.Contracts.{Event, EventType, Mode, adaptive, naive}
use vh26_crackers.Costmodel.{CostModel}
use vh26_crackers.Costmodel
use vh26_crackers.Admission
use vh26_crackers.Ladder.Reservoir
use vh26_crackers.Dedup.{Hashes, Deduplicator, check}
use vh26_crackers.Classifier.{Raw, Classifier, classify}
use vh26_crackers.Generator.{Wording, EventGenerator, emit_single, retry}
use vh26_crackers.Generator
use vh26_crackers.Queue.{EventQueue}
use vh26_crackers.Queue.Taking.{all_events}
use vh26_crackers.Queue.Naive
use vh26_crackers.Metrics.{observe_duplicate_caught}
use vh26_crackers.Metrics.Current
use vh26_crackers.Worker.Pool.{Pool, Setup, Stage, drop_all}
use vh26_crackers.Worker.Serving.{done_times}
use vh26_crackers.Worker.Handling.{owed}
use vh26_crackers.Worker.Running.{World, put}
use vh26_crackers.Worker.Crew.{begun_all, loose_all}

pub record Engine (F S : Type 0) : Type 0 where
  pub generator : EventGenerator F
  pub classifier : Classifier F
  pub dedup : Deduplicator
  pub world : World F S

pub record FloodResult : Type 0 where
  pub replayed : ℕ
  pub admitted : ℕ
  pub suppressed : ℕ

-- the two names that `mode` may have
unfoldable pub mode_of : String → Option Mode
mode_of text =
    if str_eq text "adaptive"
    then some adaptive
    else if str_eq text "naive"
    then some naive
    else none

module _ {F S : Type 0} where
  abbrev pub with_pool : Engine F S → Pool F S → Engine F S
  with_pool e p = record e { world = record e.world { pool = p } }

  -- `self.workers.stop()`: each task is cancelled, and nothing is recovered
  unfoldable pub stop_all : Pool F S → List (Stage F) → Pool F S
  unfolding done_times
  stop_all p [] = p
  stop_all p (stage ∷ stages) = stop_all (done_times (owed stage) p).0 stages

module _ {F : Type 0} where
  unfoldable pub restarted : List (Stage F) → List (Stage F)
  restarted [] = []
  restarted (stage ∷ stages) = Stage.waiting ∷ restarted stages

  abbrev pub raw_of : Event F → Raw F
  raw_of e = record {
    event_id = e.event_id;
    dedup_key = e.dedup_key;
    partition_key = e.partition_key;
    type = e.type;
    payload_size = e.payload_size;
    ingest_ts = some e.ingest_ts;
  }

  unfoldable pub reset_model : Option (CostModel F) → Option (CostModel F)
  unfolding Costmodel.reset
  reset_model none = none
  reset_model (some m) = some (Costmodel.reset m)

abbrev pub counted : Bool → FloodResult → FloodResult
counted true r = record r { suppressed = r.suppressed + 1 }
counted false r = record r { admitted = r.admitted + 1 }

module _ {F : Type 0} ⦃fl : Floats F⦄ where
  abbrev pub spike_rate_eps : F
  spike_rate_eps = of_int 20000 ⊘ of_int 60

module _ {F S : Type 0} ⦃fl : Floats F⦄ where
  unfoldable pub set_mode_to : Engine F S → Option Mode → Option (Engine F S)
  unfolding Naive.set_mode Current.set_mode
  set_mode_to e none = none
  set_mode_to e (some mode) =
      let p = e.world.pool in
      some (
        with_pool e (record p {
          queue = Naive.set_mode p.queue mode;
          metrics = Current.set_mode p.metrics mode;
        }))

  -- none is the `ValueError` of the queue, which comes before any change
  unfoldable pub set_mode : Engine F S → String → Option (Engine F S)
  unfolding mode_of set_mode_to
  set_mode e text = set_mode_to e (mode_of text)

  unfoldable pub put_in : Setup F S → Pool F S → Event F → F → Bool → Pool F S
  unfolding put observe_duplicate_caught
  put_in c p event now true = record p { metrics = observe_duplicate_caught p.metrics }
  put_in c p event now false = put c p event now

  -- one turn of the loop of `_ingest`; `chaos_duplicate_flood` does the same with each retry
  unfoldable pub ingest : Hashes → Setup F S → Engine F S → Raw F → F → Engine F S × Bool
  unfolding classify check put_in
  ingest hs c e raw now =
      let (classifier, event) = classify e.classifier raw none now in
      let (dedup, seen) = check hs e.dedup event.dedup_key in
      (
        with_pool (record e { classifier = classifier; dedup = dedup })
            (put_in c e.world.pool event now seen),
        seen,
      )

  unfoldable pub ingest_all : Hashes → Setup F S → Engine F S → List (Raw F × F) → Engine F S
  unfolding ingest
  ingest_all hs c e [] = e
  ingest_all hs c e ((raw, now) ∷ rest) = ingest_all hs c (ingest hs c e raw now).0 rest

  -- the submission has a type that is known; the draws are those of `emit_single`
  unfoldable pub inject_event :
      Wording F
      → Setup F S
      → Engine F S
      → EventType
      → Option String
      → ℕ
      → ℕ
      → F
      → Engine F S × Event F
  unfolding emit_single classify put
  inject_event words c e type partition_key customer size now =
      let (generator, raw) = emit_single words e.generator type partition_key customer size now in
      let (classifier, event) = classify e.classifier raw none now in
      (
        with_pool (record e { generator = generator; classifier = classifier })
            (put c e.world.pool event now),
        event,
      )

  -- the loop over the sources, each of which is one more that is replayed
  unfoldable pub flood_from :
      Hashes
      → Wording F
      → Setup F S
      → Engine F S
      → FloodResult
      → List (Event F)
      → F
      → Engine F S × FloodResult
  unfolding retry ingest
  flood_from hs words c e r [] now = (e, r)
  flood_from hs words c e r (original ∷ rest) now =
      let (generator, raw) = retry words e.generator (raw_of original) now in
      let (e', seen) = ingest hs c (record e { generator = generator }) raw now in
      flood_from hs words c e' (counted seen (record r { replayed = r.replayed + 1 })) rest now

  unfoldable pub chaos_duplicate_flood :
      Hashes
      → Wording F
      → Setup F S
      → (S → ℕ → List (Event F))
      → Engine F S
      → ℕ
      → F
      → Engine F S × FloodResult
  unfolding flood_from
  chaos_duplicate_flood hs words c recent e n now =
      flood_from hs words c e (record { replayed = 0; admitted = 0; suppressed = 0 })
        (recent e.world.pool.sink n) now

  -- `metrics.reset()` clears ladder.py's reservoirs too. The buffer of deferral.py is left alone.
  unfoldable pub reset_pool : Pool F S → Mode → F → Pool F S
  unfolding reset_model Naive.clear Current.reset Current.set_mode
  reset_pool p mode now = record p {
    cost_model = reset_model p.cost_model;
    checkpoint = record { rows = [] };
    queue = Naive.clear p.queue;
    metrics = Current.set_mode (Current.reset p.metrics now) mode;
    click_reservoir = Reservoir.reset p.click_reservoir;
    log_reservoir = Reservoir.reset p.log_reservoir;
    ledger = [];
  }

  -- the world after the pool has stopped, the modules are reset, and the pool has started again
  unfoldable pub reset_world : World F S → F → World F S
  unfolding stop_all restarted reset_pool drop_all begun_all loose_all
  reset_world w now =
      let lost = all_events w.pool.queue ++ (loose_all w.workers ++ begun_all w.workers) in
      record {
        pool = reset_pool (drop_all lost (stop_all w.pool w.workers)) w.pool.queue.mode now;
        workers = restarted w.workers;
      }

  unfoldable pub reset_with :
      Deduplicator → Engine F S → Option (EventGenerator F) → F → Option (Engine F S)
  unfolding reset_world Admission.reset
  reset_with new_dedup e none now = none
  reset_with new_dedup e (some g) now = some (record e {
    generator = record g { payload_multiplier = of_int 1; admission = Admission.reset g.admission };
    dedup = new_dedup;
    world = reset_world e.world now;
  })

  -- none is the `ValueError` of `set_rate`, which comes before any change
  unfoldable pub reset : Deduplicator → Setup F S → Engine F S → F → Option (Engine F S)
  unfolding reset_with Generator.set_rate
  reset new_dedup c e now =
      reset_with new_dedup e (Generator.set_rate e.generator c.config.baseline_eps) now

  abbrev pub with_generator : Engine F S → Option (EventGenerator F) → Option (Engine F S)
  with_generator e none = none
  with_generator e (some g) = some (record e { generator = g })

  unfoldable pub set_rate : Engine F S → F → Option (Engine F S)
  unfolding Generator.set_rate
  set_rate e rate = with_generator e (Generator.set_rate e.generator rate)

  unfoldable pub spike : Engine F S → Option (Engine F S)
  unfolding set_rate
  spike e = set_rate e spike_rate_eps
