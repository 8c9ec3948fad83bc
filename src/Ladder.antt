-- ===== src/Ladder.antt =====
-- src/triage/ladder.py: the five rungs, the ceiling of each tier, and `escalate`.
pub mod Reservoir
pub mod Ceiling
use vh26_crackers.Base.{
  ℕ, ◌<◌, Bool, ◌&&◌, Option, none, some, leb, ltb, Floats, ◌≤?◌, if◌then◌else◌,
}
use vh26_crackers.Contracts.{Tier, p0, p1, p2, is_p2, Decision}
use vh26_crackers.Decision.{Reason, codel_is_sampling, hard_shed}

-- `Rung` is an `IntEnum`: its members compare as their values.
pub data Rung : Type 0 where
  stream micro_batch defer sample_rollup shed : Rung

unfoldable pub value : Rung → ℕ
value stream = 0
value micro_batch = 1
value defer = 2
value sample_rollup = 3
value shed = 4

unfoldable pub rung_decision : Rung → Decision
rung_decision stream = Decision.stream_now
rung_decision micro_batch = Decision.micro_batch
rung_decision defer = Decision.defer
rung_decision sample_rollup = Decision.sample_rollup
rung_decision shed = Decision.shed

unfoldable pub decision_rung : Decision → Rung
decision_rung Decision.stream_now = stream
decision_rung Decision.micro_batch = micro_batch
decision_rung Decision.defer = defer
decision_rung Decision.sample_rollup = sample_rollup
decision_rung Decision.shed = shed

unfoldable pub max_rung : Tier → Rung
max_rung p0 = stream
max_rung p1 = defer
max_rung p2 = shed

-- `min(rung, MAX_RUNG[tier])`
unfoldable pub cap : Tier → Rung → Rung
unfolding value max_rung
cap tier rung = if ltb (value (max_rung tier)) (value rung) then max_rung tier else rung

module _ {F : Type 0} ⦃fl : Floats F⦄ where
  abbrev pub hard_shed_pressure : F
  hard_shed_pressure = fl.lit 95 2

  -- No reason means that the ladder leaves the answer of `decide` as it is.
  unfoldable pub escalate : Tier → Decision → F → Bool → Decision × Option (Reason F)
  unfolding value rung_decision decision_rung cap
  escalate tier base p codel_sampling =
      if is_p2 tier && (codel_sampling && ltb (value (decision_rung base)) (value sample_rollup))
      then (rung_decision (cap tier (decision_rung Decision.sample_rollup)), some codel_is_sampling)
      else if is_p2 tier && hard_shed_pressure ≤? p
      then (rung_decision (cap tier (decision_rung Decision.shed)), some (hard_shed p))
      else (base, none)
