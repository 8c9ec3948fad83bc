-- ===== src/Sink.antt =====
-- src/triage/sink.py: the table of delivered events, one row for each idempotency key, and the
-- tables of rollups and of SLA outcomes (Sink/Rollups, Sink/Outcomes). The JSON text of an event is
-- written and read by pydantic, which is a parameter (`Json`).
pub mod Upsert
pub mod Outcomes
pub mod Rollups
pub mod Deliveries
use vh26_crackers.Base.{
  ℕ, ◌+◌, Bool, true, List, [], ◌∷◌, map, take, length, String, Option, none, some, Floats, ◌≤?◌,
  str_eq, sort, if◌then◌else◌,
}
use vh26_crackers.Contracts.{Event, EventType, Tier}

-- One row of `events_sink`; `idempotency_key` is the primary key.
pub record Row (F : Type 0) : Type 0 where
  pub idempotency_key : String
  pub dedup_key : String
  pub latest_event_id : String
  pub latest_seq : ℕ
  pub partition_key : String
  pub event_type : EventType
  pub tier : Tier
  pub payload_json : String
  pub schema_version : ℕ
  pub first_ingest_ts : F
  pub committed_ts : F
  pub attempt_count : ℕ

-- `event.model_dump_json()`, and `Event.model_validate_json(text)`, which raises where it is none
pub record Json (F : Type 0) : Type 0 where
  pub dump : Event F → String
  pub validate : String → Option (Event F)

-- What `read` gives: no row, a row whose text is refused, or an event.
pub data Reading (F : Type 0) : Type 0 where
  absent : Reading F
  invalid : Reading F
  event : Event F → Reading F

module _ {F : Type 0} where
  -- the values of the INSERT
  unfoldable pub new_row : Json F → Event F → F → Row F
  new_row json e committed_ts = record {
    idempotency_key = e.idempotency_key;
    dedup_key = e.dedup_key;
    latest_event_id = e.event_id;
    latest_seq = e.seq;
    partition_key = e.partition_key;
    event_type = e.type;
    tier = e.tier;
    payload_json = json.dump e;
    schema_version = e.schema_version;
    first_ingest_ts = e.ingest_ts;
    committed_ts = committed_ts;
    attempt_count = 1;
  }

  -- `DO UPDATE SET`: all but the first ingest time is `excluded`'s, and the attempts are counted
  unfoldable pub overwrite : Row F → Row F → Row F
  overwrite old excluded = record excluded {
    first_ingest_ts = old.first_ingest_ts;
    attempt_count = old.attempt_count + 1;
  }

  -- `INSERT ... ON CONFLICT(idempotency_key) DO UPDATE`
  unfoldable pub upsert : Row F → List (Row F) → List (Row F)
  unfolding overwrite
  upsert new [] = new ∷ []
  upsert new (r ∷ rs) =
      if str_eq r.idempotency_key new.idempotency_key
      then overwrite r new ∷ rs
      else r ∷ upsert new rs

  -- the table, and its answer
  unfoldable pub write : Json F → List (Row F) → Event F → F → List (Row F) × Bool
  unfolding new_row upsert
  write json rows e committed_ts = (upsert (new_row json e committed_ts) rows, true)

  -- `SELECT ... WHERE idempotency_key = ?`, `fetchone()`
  unfoldable pub find : String → List (Row F) → Option (Row F)
  find k [] = none
  find k (r ∷ rs) = if str_eq r.idempotency_key k then some r else find k rs

  unfoldable pub parsed : Option (Event F) → Reading F
  parsed none = invalid
  parsed (some e) = event e

  unfoldable pub read_row : Json F → Option (Row F) → Reading F
  unfolding parsed
  read_row json none = absent
  read_row json (some r) = parsed (json.validate r.payload_json)

  unfoldable pub read : Json F → List (Row F) → String → Reading F
  unfolding find read_row
  read json rows k = read_row json (find k rows)

  unfoldable pub count : List (Row F) → ℕ
  count rows = length rows

  unfoldable pub attempts_of : Option (Row F) → ℕ
  attempts_of none = 0
  attempts_of (some r) = r.attempt_count

  unfoldable pub attempts : List (Row F) → String → ℕ
  unfolding find attempts_of
  attempts rows k = attempts_of (find k rows)

module _ {F : Type 0} ⦃fl : Floats F⦄ where
  -- `committed_ts DESC`; rows of one time are left as they stand, which SQL does not promise
  abbrev pub newer : Row F → Row F → Bool
  newer a b = b.committed_ts ≤? a.committed_ts

  unfoldable pub recent : Json F → List (Row F) → ℕ → List (Option (Event F))
  recent json rows n = map (λ r. json.validate r.payload_json) (take n (sort newer rows))
