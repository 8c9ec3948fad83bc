-- ===== src/Admission.antt =====
-- src/triage/admission.py: credit buckets under AIMD control, one for each tier.
pub mod Critical
pub mod Bounds
use vh26_crackers.Base.{
  ℕ, ◌+◌, Bool, true, false, Option, none, some, Floats, ◌≤?◌, ◌<?◌, ◌⊕◌, ◌⊖◌, ◌⊗◌, of_int, fmin,
  fmax, if◌then◌else◌,
}
use vh26_crackers.Contracts.{EventType, Tier, p0, p1, p2, is_p0}
use vh26_crackers.Config.{Config, demand_ups, spike_eps}

pub record CreditBucket (F : Type 0) : Type 0 where
  pub tier : Tier
  pub rate_ups : F
  pub capacity_units : F
  pub max_rate_ups : F
  pub critical : Bool
  pub credits : F
  pub denied_count : ℕ
  pub last_refill : Option F
  pub last_increase_check : Option F
  pub last_decrease_check : Option F

module _ {F : Type 0} ⦃fl : Floats F⦄ where
  abbrev pub high_pressure : F
  high_pressure = fl.lit 85 2

  abbrev pub multiplicative_decrease : F
  multiplicative_decrease = fl.lit 8 1

  abbrev pub additive_increase_ups : F
  additive_increase_ups = fl.lit 50 1

  abbrev pub increase_check_interval_seconds : F
  increase_check_interval_seconds = fl.lit 2 1

  abbrev pub decrease_check_interval_seconds : F
  decrease_check_interval_seconds = fl.lit 5 2

  abbrev pub min_bulk_rate_ups : F
  min_bulk_rate_ups = fl.lit 10 1

  -- `last is None or now - last >= interval`
  unfoldable pub due : Option F → F → F → Bool
  due none now interval = true
  due (some last) now interval = interval ≤? now ⊖ last

  -- a new bucket, with `__post_init__`
  unfoldable pub init_bucket : Tier → F → F → F → Bool → CreditBucket F
  init_bucket tier rate capacity max_rate critical = record {
    tier = tier;
    rate_ups = rate;
    capacity_units = capacity;
    max_rate_ups = max_rate;
    critical = critical;
    credits = capacity;
    denied_count = 0;
    last_refill = none;
    last_increase_check = none;
    last_decrease_check = none;
  }

  unfoldable pub refill : CreditBucket F → F → CreditBucket F
  refill b now = elim b.last_refill [
    | none ↦ record b { last_refill = some now }
    | some last ↦ record b {
      credits = fmin b.capacity_units (b.credits ⊕ b.rate_ups ⊗ fmax (of_int 0) (now ⊖ last));
      last_refill = some now;
    }
  ]

  unfoldable pub decrease : CreditBucket F → F → CreditBucket F
  decrease b now =
      let capacity = fmax min_bulk_rate_ups (b.capacity_units ⊗ multiplicative_decrease) in
      record b {
        rate_ups = fmax min_bulk_rate_ups (b.rate_ups ⊗ multiplicative_decrease);
        capacity_units = capacity;
        credits = fmin b.credits capacity;
        last_decrease_check = some now;
      }

  unfoldable pub increase : CreditBucket F → F → CreditBucket F
  increase b now = record b {
    rate_ups = fmin b.max_rate_ups (b.rate_ups ⊕ additive_increase_ups);
    capacity_units = fmin b.max_rate_ups (b.capacity_units ⊕ additive_increase_ups);
    last_increase_check = some now;
  }

  unfoldable pub update_aimd : CreditBucket F → F → F → CreditBucket F
  unfolding due decrease increase
  update_aimd b pressure now =
      if b.critical
      then b
      else if high_pressure ≤? pressure
      then if due b.last_decrease_check now decrease_check_interval_seconds
        then decrease b now
        else b
      else if due b.last_increase_check now increase_check_interval_seconds
      then increase b now
      else b

  unfoldable pub try_acquire_bucket : CreditBucket F → F → F → CreditBucket F × Bool
  try_acquire_bucket b cost now =
      if b.critical
      then (b, true)
      else let filled = refill b now in
        if cost ≤? filled.credits
        then (record filled { credits = filled.credits ⊖ cost }, true)
        else (record filled { denied_count = filled.denied_count + 1 }, false)

  unfoldable pub reset_bucket : CreditBucket F → CreditBucket F
  reset_bucket b = record b {
    rate_ups = b.max_rate_ups;
    capacity_units = b.max_rate_ups;
    credits = b.max_rate_ups;
    denied_count = 0;
    last_refill = none;
    last_increase_check = none;
    last_decrease_check = none;
  }

-- The dictionary of the three buckets.
pub record AdmissionControl (F : Type 0) : Type 0 where
  pub config : Config F
  pub p0_bucket : CreditBucket F
  pub p1_bucket : CreditBucket F
  pub p2_bucket : CreditBucket F

module _ {F : Type 0} ⦃fl : Floats F⦄ where
  unfoldable pub make_bucket : Config F → Tier → CreditBucket F
  unfolding init_bucket
  make_bucket config tier =
      let demand = demand_ups config (spike_eps config) (some tier) in
      init_bucket tier demand demand demand (is_p0 tier)

  unfoldable pub init_control : Config F → AdmissionControl F
  unfolding make_bucket
  init_control config = record {
    config = config;
    p0_bucket = make_bucket config p0;
    p1_bucket = make_bucket config p1;
    p2_bucket = make_bucket config p2;
  }

  unfoldable pub bucket : AdmissionControl F → Tier → CreditBucket F
  bucket a p0 = a.p0_bucket
  bucket a p1 = a.p1_bucket
  bucket a p2 = a.p2_bucket

  unfoldable pub set_bucket : AdmissionControl F → Tier → CreditBucket F → AdmissionControl F
  set_bucket a p0 b = record a { p0_bucket = b }
  set_bucket a p1 b = record a { p1_bucket = b }
  set_bucket a p2 b = record a { p2_bucket = b }

  unfoldable pub tier_of : AdmissionControl F → EventType → Tier
  tier_of a t = (a.config.tiers t).tier

  unfoldable pub cost_of : AdmissionControl F → EventType → F
  cost_of a t = (a.config.tiers t).cost

  -- the body of `try_acquire`, once the tier and the cost are looked up
  unfoldable pub acquire_for : AdmissionControl F → Tier → F → F → F → AdmissionControl F × Bool
  unfolding bucket set_bucket
  acquire_for a tier cost pressure now =
      let (b, granted) = try_acquire_bucket (update_aimd (bucket a tier) pressure now) cost now in
      (set_bucket a tier b, granted)

  unfoldable pub try_acquire : AdmissionControl F → EventType → F → F → AdmissionControl F × Bool
  unfolding tier_of cost_of
  try_acquire a t pressure now = acquire_for a (tier_of a t) (cost_of a t) pressure now

  unfoldable pub reset : AdmissionControl F → AdmissionControl F
  unfolding reset_bucket
  reset a = record a {
    p0_bucket = reset_bucket a.p0_bucket;
    p1_bucket = reset_bucket a.p1_bucket;
    p2_bucket = reset_bucket a.p2_bucket;
  }
