-- ===== src/Decision/Routing.antt =====
-- `decide` of decision.py: which decision an event gets, in full.
use vh26_crackers.Base.{Option, Floats, IsFloat, ◌≼◌, arith, ◌≤◌}
use vh26_crackers.Contracts.{Event}
use vh26_crackers.Decision.{decide, decide_by_pressure}
use vh26_crackers.Ladder.{value, decision_rung}
use vh26_crackers.Ladder.Ceiling.{rung}

module _ {F : Type 0} ⦃fl : Floats F⦄ ⦃ops : IsFloat F⦄ where
  -- the band of a pressure
  band_mono : (p q : F) → p ≼ q → rung (decide_by_pressure p).0 ≤ rung (decide_by_pressure q).0
  unfolding decide_by_pressure value decision_rung
  band_mono p q h = ground (
    arith,
    ops.le_trans (fl.lit 40 2) p q,
    ops.le_trans (fl.lit 75 2) p q,
    ops.le_trans (fl.lit 40 2) (fl.lit 75 2) q,
    ops.lit_mono 40 75 2 2,
  )

  -- At a pressure that is no lower, decide gives a rung that is no lower.
  pub decide_mono :
      (e : Event F) (p q now capacity : F) (cost : Option F)
      → p ≼ q
      → rung (decide e p now capacity cost).0 ≤ rung (decide e q now capacity cost).0
  unfolding decide
  decide_mono e p q now capacity cost h = ground (arith, band_mono p q h)
