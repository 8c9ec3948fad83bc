-- ===== src/Examples/Data.antt =====
-- The events and the settings that the examples run on.
use vh26_crackers.Base.{ℕ, ℤ, pos, String, [], ◌∷◌, ◌*◌}
use vh26_crackers.Contracts.{
  Event, EventType, payment, order, inventory, click, log, Tier, p0, p1, p2,
}
use vh26_crackers.Config.{Config, TierSpec}

-- a whole number of seconds, work-units, or of value
abbrev pub whole : ℕ → ℤ
whole n = pos (n * 1000000)

abbrev pub tier_table : EventType → TierSpec ℤ
tier_table payment = record { tier = p0; value = whole 100; sla_ms = 500; cost = whole 1 }
tier_table order = record { tier = p0; value = whole 80; sla_ms = 500; cost = whole 1 }
tier_table inventory = record { tier = p1; value = whole 10; sla_ms = 5000; cost = whole 1 }
tier_table click = record { tier = p2; value = whole 1; sla_ms = 60000; cost = whole 1 }
tier_table log = record { tier = p2; value = whole 1; sla_ms = 60000; cost = whole 1 }

abbrev pub mix_table : EventType → ℤ
mix_table payment = pos 100000
mix_table order = pos 100000
mix_table inventory = pos 200000
mix_table click = pos 300000
mix_table log = pos 300000

-- a baseline of 100 events per second, a spike of ten times that, and twenty workers
abbrev pub settings : Config ℤ
settings = record {
  types = payment ∷ order ∷ inventory ∷ click ∷ log ∷ [];
  tiers = tier_table;
  mix_types = payment ∷ order ∷ inventory ∷ click ∷ log ∷ [];
  mix = mix_table;
  worker_count = 20;
  worker_capacity_ups = whole 25;
  baseline_eps = whole 100;
  spike_multiplier = whole 10;
  calibration = record {
    p0_demand_at_spike_ups = whole 200;
    total_demand_at_spike_ups = whole 1000;
    total_demand_at_baseline_ups = whole 100;
    tolerance_ups = whole 1;
  };
}

abbrev pub event_of : String → EventType → Tier → ℕ → Event ℤ
event_of id type tier seq = record {
  event_id = id;
  dedup_key = id;
  seq = seq;
  partition_key = "k";
  idempotency_key = id;
  type = type;
  tier = tier;
  payload_size = 100;
  value = whole 1;
  cost = whole 1;
  ingest_ts = whole 100;
  deadline_ts = whole 160;
  schema_version = 1;
}

abbrev pub a_payment : Event ℤ
a_payment = event_of "pay" payment p0 1

abbrev pub a_stock : Event ℤ
a_stock = event_of "stock" inventory p1 2

abbrev pub a_click : Event ℤ
a_click = event_of "click" click p2 3
