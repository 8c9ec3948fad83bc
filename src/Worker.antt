-- ===== src/Worker.antt =====
-- src/triage/worker.py: `_resolve`, the decision that a worker takes for one event.
pub mod Resolve
pub mod Pool
pub mod Serving
pub mod Handling
pub mod Running
pub mod Keeping
pub mod Moves
pub mod Places
pub mod Turns
pub mod Crew
pub mod Placing
pub mod Losing
pub mod Fuel
use vh26_crackers.Base.{
  Bool, true, false, ◌&&◌, Option, none, some, Floats, if◌then◌else◌, String, List,
}
use vh26_crackers.Contracts.{
  Event, Tier, is_p2, Decision, stream_now, micro_batch, defer, sample_rollup, shed,
}
use vh26_crackers.Decision.{Reason, decide, already_deferred_once}
use vh26_crackers.Ladder.{escalate}
use vh26_crackers.Deferral.{known}

-- What `_resolve` reads beside the event, the pressure and the clock: the pool's capacity, the
-- learned cost (none without a cost model), the ids of the deferral store, and CoDel's state.
pub record Readings (F : Type 0) : Type 0 where
  pub capacity : F
  pub estimate : Event F → Option F
  pub already_deferred : List String
  pub is_sampling : Bool

abbrev pub is_defer : Decision → Bool
is_defer defer = true
is_defer stream_now = false
is_defer micro_batch = false
is_defer sample_rollup = false
is_defer shed = false

module _ {F : Type 0} ⦃fl : Floats F⦄ where
  -- the ladder's answer, if it gives a reason, and otherwise that of `decide`
  unfoldable pub escalated :
      Decision × Option (Reason F) → Decision × Reason F → Decision × Reason F
  escalated (d, some reason) base = (d, reason)
  escalated (d, none) base = base

  unfoldable pub resolve : Readings F → Event F → F → F → Decision × Reason F
  unfolding escalated known
  resolve w e pressure_value now =
      let (result, reason) = decide e pressure_value now w.capacity (w.estimate e) in
      if is_defer result && known e.event_id w.already_deferred
      then (stream_now, already_deferred_once)
      else if is_p2 e.tier
      then escalated (escalate e.tier result pressure_value w.is_sampling) (result, reason)
      else (result, reason)
