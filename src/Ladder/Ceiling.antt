-- ===== src/Ladder/Ceiling.antt =====
-- The ceilings of ladder.py: what the ladder can make of each tier.
use vh26_crackers.Base.{ℕ, ◌≤◌, ◌≡◌, Bool, Floats, arith}
use vh26_crackers.Contracts.{Tier, p0, p1, p2, Decision}
use vh26_crackers.Ladder.{Rung, value, rung_decision, decision_rung, max_rung, cap, escalate}

-- the rung of a decision, as a number
abbrev pub rung : Decision → ℕ
rung d = value (decision_rung d)

-- the ceiling of a tier, as a number
abbrev pub ceiling : Tier → ℕ
ceiling t = value (max_rung t)

-- The two tables of ladder.py are inverse to one another.
pub decision_rung-rung_decision : (r : Rung) → decision_rung (rung_decision r) ≡ r
unfolding decision_rung rung_decision
decision_rung-rung_decision r = ground arith

pub rung_decision-decision_rung : (d : Decision) → rung_decision (decision_rung d) ≡ d
unfolding decision_rung rung_decision
rung_decision-decision_rung d = ground arith

-- cap lies under the tier's ceiling and under the requested rung, and above every rung that lies
-- under both.
pub cap-greatest :
    (t : Tier) (r q : Rung)
    → value q ≤ ceiling t
    → value q ≤ value r
    → (value (cap t r) ≤ ceiling t) × (value (cap t r) ≤ value r) × (value q ≤ value (cap t r))
unfolding cap value
cap-greatest t r q h k = ground arith

module _ {F : Type 0} ⦃fl : Floats F⦄ where
  -- From a decision under the tier's ceiling, escalate gives a decision that is under the
  -- ceiling and on no lower rung.
  pub escalate_bounds :
      (t : Tier) (d : Decision) (p : F) (sampling : Bool)
      → rung d ≤ ceiling t
      → (rung (escalate t d p sampling).0 ≤ ceiling t) × (rung d ≤ rung (escalate t d p sampling).0)
  unfolding escalate max_rung
  escalate_bounds p0 d p sampling h = ground arith
  escalate_bounds p1 d p sampling h = ground arith
  escalate_bounds p2 d p sampling h = ground arith
