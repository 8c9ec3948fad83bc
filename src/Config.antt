-- ===== src/Config.antt =====
-- src/triage/config.py: the tier table, the derived quantities and the calibration guard. The
-- table and the mix are functions, each with the list of its keys: reading the YAML file is left
-- out, and a type without a row or a share (a KeyError) is left out with it.
use vh26_crackers.Base.{
  ℕ, Bool, true, false, ◌&&◌, Option, none, some, List, [], ◌∷◌, pos, Floats, ◌≤?◌, ◌<?◌, ◌⊕◌, ◌⊖◌,
  ◌⊗◌, ◌⊘◌, of_int, if◌then◌else◌,
}
use vh26_crackers.Contracts.{EventType, Tier, p0, p1, p2}

pub record TierSpec (F : Type 0) : Type 0 where
  pub tier : Tier
  pub value : F
  pub sla_ms : ℕ
  pub cost : F

pub record Calibration (F : Type 0) : Type 0 where
  pub p0_demand_at_spike_ups : F
  pub total_demand_at_spike_ups : F
  pub total_demand_at_baseline_ups : F
  pub tolerance_ups : F

pub record Config (F : Type 0) : Type 0 where
  pub types : List EventType
  pub tiers : EventType → TierSpec F
  pub mix_types : List EventType
  pub mix : EventType → F
  pub worker_count : ℕ
  pub worker_capacity_ups : F
  pub baseline_eps : F
  pub spike_multiplier : F
  pub calibration : Calibration F

pub record CalibrationCheck (F : Type 0) : Type 0 where
  pub expected : F
  pub actual : F
  pub tolerance : F

-- `spec.tier is tier`
unfoldable pub same_tier : Tier → Tier → Bool
same_tier p0 p0 = true
same_tier p1 p1 = true
same_tier p2 p2 = true
same_tier _ _ = false

-- `tier is None or spec.tier is tier`
unfoldable pub counts_for : Option Tier → Tier → Bool
unfolding same_tier
counts_for none t = true
counts_for (some tier) t = same_tier t tier

module _ {F : Type 0} ⦃fl : Floats F⦄ where
  unfoldable pub sla_seconds : TierSpec F → F
  sla_seconds s = fl.int (pos s.sla_ms) ⊘ fl.lit 1000 0

  -- `abs(x)`
  abbrev pub abs : F → F
  abs x = if x <? of_int 0 then of_int 0 ⊖ x else x

  unfoldable pub check_ok : CalibrationCheck F → Bool
  check_ok c = abs (c.actual ⊖ c.expected) ≤? c.tolerance

  unfoldable pub total_capacity_ups : Config F → F
  total_capacity_ups c = fl.int (pos c.worker_count) ⊗ c.worker_capacity_ups

  unfoldable pub spike_eps : Config F → F
  spike_eps c = c.baseline_eps ⊗ c.spike_multiplier

  -- the generator expressions of `sum`, over the keys that are left
  unfoldable pub sum_over : (EventType → F) → (EventType → Bool) → F → List EventType → F
  sum_over term kept total [] = total
  sum_over term kept total (t ∷ ts) =
      sum_over term kept (if kept t then total ⊕ term t else total) ts

  unfoldable pub weighted_cost_per_event : Config F → Option Tier → F
  unfolding sum_over counts_for
  weighted_cost_per_event c tier =
      sum_over (λ t. c.mix t ⊗ (c.tiers t).cost) (λ t. counts_for tier (c.tiers t).tier) (of_int 0)
        c.types

  unfoldable pub weighted_value_per_event : Config F → Option Tier → F
  unfolding sum_over counts_for
  weighted_value_per_event c tier =
      sum_over (λ t. c.mix t ⊗ (c.tiers t).value) (λ t. counts_for tier (c.tiers t).tier) (of_int 0)
        c.types

  unfoldable pub demand_ups : Config F → F → Option Tier → F
  demand_ups c eps tier = eps ⊗ weighted_cost_per_event c tier

  unfoldable pub tiers_of : Config F → Tier → List EventType → List (TierSpec F)
  unfolding same_tier
  tiers_of c tier [] = []
  tiers_of c tier (t ∷ ts) =
      let rest = tiers_of c tier ts in
      if same_tier (c.tiers t).tier tier then c.tiers t ∷ rest else rest

  unfoldable pub calibration_report : Config F → List (CalibrationCheck F)
  calibration_report c =
      record {
        expected = c.calibration.p0_demand_at_spike_ups;
        actual = demand_ups c (spike_eps c) (some p0);
        tolerance = c.calibration.tolerance_ups;
      }
      ∷ record {
        expected = c.calibration.total_demand_at_spike_ups;
        actual = demand_ups c (spike_eps c) none;
        tolerance = c.calibration.tolerance_ups;
      }
      ∷ record {
        expected = c.calibration.total_demand_at_baseline_ups;
        actual = demand_ups c c.baseline_eps none;
        tolerance = c.calibration.tolerance_ups;
      }
      ∷ []

  unfoldable pub all_ok : List (CalibrationCheck F) → Bool
  unfolding check_ok
  all_ok [] = true
  all_ok (c ∷ cs) = check_ok c && all_ok cs

  -- `sum(self.mix.values())`
  unfoldable pub mix_total : Config F → F
  unfolding sum_over
  mix_total c = sum_over c.mix (λ _. true) (of_int 0) c.mix_types

  -- The report, or none for a `CalibrationError`: no problem may be on the list.
  unfoldable pub verify : Config F → Option (List (CalibrationCheck F))
  verify c =
      if all_ok (calibration_report c)
      then if fl.lit 1 6 <? abs (mix_total c ⊖ of_int 1)
        then none
        else if total_capacity_ups c ≤? demand_ups c (spike_eps c) (some p0)
        then none
        else if demand_ups c (spike_eps c) none ≤? total_capacity_ups c
        then none
        else some (calibration_report c)
      else none
