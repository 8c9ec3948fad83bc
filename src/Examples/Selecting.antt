-- ===== src/Examples/Selecting.antt =====
-- Examples for src/triage/queue.py.
use vh26_crackers.Base.{
  not, ℤ, pos, eq_ℤ, eq_iff, str_eq, ◌≡◌, refl, ◌&&◌, Bool, true, none, [], ◌∷◌, ◌==◌, arith,
}
use vh26_crackers.Base.Scaled.{scaled, scaled-IsFloat}
use vh26_crackers.Contracts.{Event, EventType, Tier, adaptive}
use vh26_crackers.Costmodel.{same_type}
use vh26_crackers.Config.{same_tier}
use vh26_crackers.Queue.{is_empty, EventQueue, Selection, take_adaptive, tier_events}
use vh26_crackers.Queue.Progress.{IsReflexive, is_some, lower_empty, take_adaptive_succeeds}
use vh26_crackers.Queue.Priority.{OnlyP0, take_adaptive_p0_first}
use vh26_crackers.Queue.Taking.{IsEquality, TakesOne, take_adaptive-TakesOne}
use vh26_crackers.Examples.Data.{whole, a_payment, a_stock, a_click}

-- the comparison of all fields, as a dataclass compares them
abbrev pub equal_events : Event ℤ → Event ℤ → Bool
equal_events a b =
    str_eq a.event_id b.event_id
    && str_eq a.dedup_key b.dedup_key
    && a.seq == b.seq
    && str_eq a.partition_key b.partition_key
    && str_eq a.idempotency_key b.idempotency_key
    && same_type a.type b.type
    && same_tier a.tier b.tier
    && a.payload_size == b.payload_size
    && eq_ℤ a.value b.value
    && eq_ℤ a.cost b.cost
    && eq_ℤ a.ingest_ts b.ingest_ts
    && eq_ℤ a.deadline_ts b.deadline_ts
    && a.schema_version == b.schema_version

eq_ℤ_lem : (x y : ℤ) → eq_ℤ x y ≡ true → x ≡ y
eq_ℤ_lem x y h = ground arith

same_type_lem : (x y : EventType) → same_type x y ≡ true → x ≡ y
unfolding same_type
same_type_lem x y h = ground arith

same_tier_lem : (x y : Tier) → same_tier x y ≡ true → x ≡ y
unfolding same_tier
same_tier_lem x y h = ground arith

pub equal_events-IsEquality : IsEquality equal_events
equal_events-IsEquality a b h = ground (
  arith,
  eq_iff a.event_id b.event_id,
  eq_iff a.dedup_key b.dedup_key,
  eq_iff a.partition_key b.partition_key,
  eq_iff a.idempotency_key b.idempotency_key,
  same_type_lem a.type b.type,
  same_tier_lem a.tier b.tier,
  eq_ℤ_lem a.value b.value,
  eq_ℤ_lem a.cost b.cost,
  eq_ℤ_lem a.ingest_ts b.ingest_ts,
  eq_ℤ_lem a.deadline_ts b.deadline_ts,
)

abbrev pub selection : Selection ℤ
selection = record {
  capacity = whole 25;
  weights = record { w1 = pos 700000; w2 = pos 300000 };
  estimate = λ e. none;
  equal = equal_events;
}

abbrev pub waiting : EventQueue ℤ
waiting = record {
  p0_queue = record { settled = []; pending = a_payment ∷ []; resort_ts = pos 0 };
  p1_queue = record { settled = a_stock ∷ []; pending = []; resort_ts = pos 0 };
  p2_queue = record { settled = []; pending = a_click ∷ []; resort_ts = pos 0 };
  mode = adaptive;
  aging_guard_seconds = whole 2;
  unfinished = 3;
}

take_adaptive-TakesOne_example : TakesOne waiting (take_adaptive selection waiting (whole 110))
take_adaptive-TakesOne_example =
    take_adaptive-TakesOne selection waiting (whole 110) equal_events-IsEquality

same_type_self : (x : EventType) → same_type x x ≡ true
unfolding same_type
same_type_self x = ground arith

same_tier_self : (x : Tier) → same_tier x x ≡ true
unfolding same_tier
same_tier_self x = ground arith

eq_ℤ_self : (x : ℤ) → eq_ℤ x x ≡ true
eq_ℤ_self x = ground arith

pub equal_events-IsReflexive : IsReflexive equal_events
equal_events-IsReflexive a = ground (
  arith,
  eq_iff a.event_id a.event_id,
  eq_iff a.dedup_key a.dedup_key,
  eq_iff a.partition_key a.partition_key,
  eq_iff a.idempotency_key a.idempotency_key,
  same_type_self a.type,
  same_tier_self a.tier,
  eq_ℤ_self a.value,
  eq_ℤ_self a.cost,
  eq_ℤ_self a.ingest_ts,
  eq_ℤ_self a.deadline_ts,
)

take_adaptive_succeeds_example :
    is_some (take_adaptive selection waiting (whole 110))
    ≡ not (is_empty (tier_events waiting.p0_queue) && lower_empty waiting)
take_adaptive_succeeds_example =
    take_adaptive_succeeds selection waiting (whole 110) equal_events-IsReflexive

take_adaptive_p0_first_example : OnlyP0 waiting (take_adaptive selection waiting (whole 110))
unfolding tier_events
take_adaptive_p0_first_example =
    take_adaptive_p0_first selection waiting (whole 110) equal_events-IsEquality
      equal_events-IsReflexive refl
