-- ===== src/Worker/Resolve.antt =====
-- The decision of `_resolve` against the ceilings of ladder.py and the buffer of deferral.py.
use vh26_crackers.Base.{◌≤◌, ◌≡◌, Bool, true, false, Option, Floats, arith}
use vh26_crackers.Contracts.{Event, Tier, Decision}
use vh26_crackers.Decision.{Reason, decide, decide_by_pressure}
use vh26_crackers.Ladder.{value, decision_rung, max_rung, escalate}
use vh26_crackers.Ladder.Ceiling.{rung, ceiling, escalate_bounds}
use vh26_crackers.Deferral.{known}
use vh26_crackers.Worker.{Readings, is_defer, escalated, resolve}

module _ {F : Type 0} ⦃fl : Floats F⦄ where
  -- `decide` alone never samples and never sheds, and streams P0
  decide-ceiling :
      (e : Event F) (p now capacity : F) (cost : Option F)
      → rung (decide e p now capacity cost).0 ≤ ceiling e.tier
  unfolding decide decide_by_pressure value decision_rung max_rung
  decide-ceiling e p now capacity cost = ground arith

  escalated-ceiling :
      (t : Tier) (d : Decision × Reason F) (p : F) (sampling : Bool)
      → rung d.0 ≤ ceiling t
      → rung (escalated (escalate t d.0 p sampling) d).0 ≤ ceiling t
  unfolding escalated escalate
  escalated-ceiling t d p sampling h = ground (arith, escalate_bounds t d.0 p sampling h)

  -- The decision of _resolve never lies above the ceiling of the event's tier: P0 is streamed,
  -- P1 is deferred at the worst, and only P2 is sampled or shed.
  pub resolve-ceiling :
      (w : Readings F) (e : Event F) (p now : F) → rung (resolve w e p now).0 ≤ ceiling e.tier
  unfolding resolve value decision_rung
  resolve-ceiling w e p now =
      let d = decide e p now w.capacity (w.estimate e) in
      ground (
        arith,
        decide-ceiling e p now w.capacity (w.estimate e),
        escalated-ceiling e.tier d p w.is_sampling
            (decide-ceiling e p now w.capacity (w.estimate e)),
      )

  -- An event whose id is among those deferred before is not deferred again by _resolve, whatever
  -- the pressure and the slack are.
  pub resolve_defers_once :
      (w : Readings F) (e : Event F) (p now : F)
      → known e.event_id w.already_deferred ≡ true
      → is_defer (resolve w e p now).0 ≡ false
  unfolding resolve escalated escalate
  resolve_defers_once w e p now h = ground arith
