-- ===== src/Contracts.antt =====
-- src/triage/contracts.py: the enumerations, `Event`, and the two records of a decision.
use vh26_crackers.Base.{ℕ, String, Bool, true, false}

pub data Tier : Type 0 where
  p0 p1 p2 : Tier

pub data EventType : Type 0 where
  payment order inventory click log : EventType

pub data Decision : Type 0 where
  stream_now micro_batch defer sample_rollup shed : Decision

pub data Mode : Type 0 where
  adaptive naive : Mode

pub record Event (F : Type 0) : Type 0 where
  pub event_id : String
  pub dedup_key : String
  pub seq : ℕ
  pub partition_key : String
  pub idempotency_key : String
  pub type : EventType
  pub tier : Tier
  pub payload_size : ℕ
  pub value : F
  pub cost : F
  pub ingest_ts : F
  pub deadline_ts : F
  pub schema_version : ℕ

-- A `DecisionTrace` whose fields are all given, as `observe_decision` builds it.
pub record DecisionTrace (F R : Type 0) : Type 0 where
  pub seq : ℕ
  pub event_id : String
  pub type : EventType
  pub tier : Tier
  pub decision : Decision
  pub reason : R
  pub pressure : F
  pub value : F
  pub ts : F

pub record ShedRecord (F R : Type 0) : Type 0 where
  pub seq : ℕ
  pub event_id : String
  pub type : EventType
  pub tier : Tier
  pub reason : R
  pub pressure : F
  pub value : F
  pub ts : F

-- `a is Tier.P0`, and so on: identity of enumeration members.
abbrev pub is_p0 : Tier → Bool
is_p0 p0 = true
is_p0 p1 = false
is_p0 p2 = false

abbrev pub is_p2 : Tier → Bool
is_p2 p0 = false
is_p2 p1 = false
is_p2 p2 = true

abbrev pub is_click : EventType → Bool
is_click click = true
is_click payment = false
is_click order = false
is_click inventory = false
is_click log = false
