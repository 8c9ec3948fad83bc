-- ===== src/Sink/Outcomes.antt =====
-- src/triage/sink.py: the table `sla_outcomes`, one row for each completed event.
pub mod Counting
use vh26_crackers.Base.{
  ℕ, ◌+◌, Bool, true, false, ◌&&◌, ◌||◌, ltb, List, [], ◌∷◌, ◌++◌, length, String, Option, none,
  some, str_eq, filter, if◌then◌else◌,
}
use vh26_crackers.Config.{same_tier}
use vh26_crackers.Contracts.{Event, EventType, Tier}

pub record OutcomeRow (F : Type 0) : Type 0 where
  pub outcome_id : ℕ
  pub event_id : String
  pub seq : ℕ
  pub tier : Tier
  pub event_type : EventType
  pub value : F
  pub met : Bool
  pub latency_ms : F
  pub recorded_ts : F
  pub source : String

pub data OutcomeResult : Type 0 where
  recorded : ℕ → OutcomeResult
  integrity_error : OutcomeResult

-- the arguments of `sla_outcome_count`: `none` puts no condition
pub record Filters : Type 0 where
  pub tier : Option Tier
  pub met : Option Bool
  pub source : Option String

-- `CHECK (source IN ('ingress', 'server1', 'server2'))`
abbrev pub is_source : String → Bool
is_source x = str_eq x "ingress" || (str_eq x "server1" || str_eq x "server2")

abbrev pub same_bool : Bool → Bool → Bool
same_bool true b = b
same_bool false true = false
same_bool false false = true

unfoldable pub holds {ℓ} : {A : Type ℓ} → (A → A → Bool) → Option A → A → Bool
holds same none x = true
holds same (some y) x = same x y

module _ {F : Type 0} where
  -- an `INTEGER PRIMARY KEY` that is left out is one more than the largest
  unfoldable pub next_outcome_id : List (OutcomeRow F) → ℕ
  next_outcome_id [] = 1
  next_outcome_id (r ∷ rs) =
      let rest = next_outcome_id rs in if ltb r.outcome_id rest then rest else r.outcome_id + 1

  abbrev pub outcome_of : Event F → Bool → F → String → F → ℕ → OutcomeRow F
  outcome_of e met latency_ms source now n = record {
    outcome_id = n;
    event_id = e.event_id;
    seq = e.seq;
    tier = e.tier;
    event_type = e.type;
    value = e.value;
    met = met;
    latency_ms = latency_ms;
    recorded_ts = now;
    source = source;
  }

  unfoldable pub write_outcome :
      List (OutcomeRow F) → Event F → Bool → F → String → F → List (OutcomeRow F) × OutcomeResult
  unfolding next_outcome_id
  write_outcome rows e met latency_ms source now =
      if is_source source
      then (
        rows ++ outcome_of e met latency_ms source now (next_outcome_id rows) ∷ [],
        OutcomeResult.recorded (next_outcome_id rows),
      )
      else (rows, OutcomeResult.integrity_error)

  unfoldable pub matches : Filters → OutcomeRow F → Bool
  unfolding holds same_tier
  matches f r =
      holds same_tier f.tier r.tier
      && (holds same_bool f.met r.met && holds str_eq f.source r.source)

  unfoldable pub sla_outcome_count : Filters → List (OutcomeRow F) → ℕ
  unfolding matches
  sla_outcome_count f [] = 0
  sla_outcome_count f (r ∷ rs) =
      let rest = sla_outcome_count f rs in if matches f r then rest + 1 else rest
