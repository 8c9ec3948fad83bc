-- ===== src/Classifier.antt =====
-- src/triage/classifier.py: a raw submission becomes an event. The submission has the keys that the
-- code reads without a default; `EventType(...)` has succeeded on its type.
pub mod Numbering
use Prim.Native.String.{◌++◌ as ◌followed_by◌}
use vh26_crackers.Base.{
  ℕ, ◌+◌, not, ◌&&◌, List, [], ◌∷◌, String, Option, none, some, Floats, ◌≤?◌, ◌⊕◌, of_int,
  if◌then◌else◌,
}
use vh26_crackers.Contracts.{Event, EventType}
use vh26_crackers.Config.{Config, sla_seconds}
use vh26_crackers.Costmodel.{true_cost}

pub record Raw (F : Type 0) : Type 0 where
  pub event_id : String
  pub dedup_key : String
  pub partition_key : String
  pub type : EventType
  pub payload_size : ℕ
  pub ingest_ts : Option F

pub record Classifier (F : Type 0) : Type 0 where
  pub config : Config F
  pub seq : ℕ

abbrev pub schema_version_now : ℕ
schema_version_now = 1

module _ {F : Type 0} where
  unfoldable pub init : Config F → Classifier F
  init config = record { config = config; seq = 0 }

  unfoldable pub reset_sequence : Classifier F → Classifier F
  reset_sequence c = record c { seq = 0 }

module _ {F : Type 0} ⦃fl : Floats F⦄ where
  -- `x or otherwise`: neither None nor zero counts
  unfoldable pub or_else : Option F → F → F
  or_else none otherwise = otherwise
  or_else (some x) otherwise = if x ≤? of_int 0 && of_int 0 ≤? x then otherwise else x

  -- `clock` is `time.time()`
  unfoldable pub event_of : Classifier F → Raw F → F → Event F
  unfolding true_cost sla_seconds
  event_of c raw ingest_ts =
      let spec = c.config.tiers raw.type in
      record {
        event_id = raw.event_id;
        dedup_key = raw.dedup_key;
        seq = c.seq + 1;
        partition_key = raw.partition_key;
        idempotency_key = "sink:" followed_by raw.dedup_key;
        type = raw.type;
        tier = spec.tier;
        payload_size = raw.payload_size;
        value = spec.value;
        cost = true_cost c.config raw.type raw.payload_size;
        ingest_ts = ingest_ts;
        deadline_ts = ingest_ts ⊕ sla_seconds spec;
        schema_version = schema_version_now;
      }

  unfoldable pub classify : Classifier F → Raw F → Option F → F → Classifier F × Event F
  unfolding or_else event_of
  classify c raw now clock =
      (record c { seq = c.seq + 1 }, event_of c raw (or_else raw.ingest_ts (or_else now clock)))

  -- submissions one after the other, each with the two times that it is classified with
  unfoldable pub classify_all :
      Classifier F → List (Raw F × (Option F × F)) → Classifier F × List (Event F)
  unfolding classify
  classify_all c [] = (c, [])
  classify_all c (x ∷ xs) =
      let one = classify c x.0 x.1.0 x.1.1 in
      let rest = classify_all one.0 xs in (rest.0, one.1 ∷ rest.1)
