-- ===== src/Codel.antt =====
-- src/triage/codel.py: the controller that says whether P2 is being sampled.
pub mod Sampling
use vh26_crackers.Base.{
  Bool, true, false, not, ◌&&◌, Option, none, some, Floats, ◌≤?◌, ◌<?◌, ◌⊖◌, fmin, if◌then◌else◌,
}

pub record CoDelController (F : Type 0) : Type 0 where
  pub interval_seconds : F
  pub target_seconds : F
  pub interval_start : Option F
  pub interval_min : F
  pub sampling : Bool

module _ {F : Type 0} ⦃fl : Floats F⦄ where
  abbrev pub elapsed_epsilon : F
  elapsed_epsilon = fl.lit 1 4

  unfoldable pub init : F → F → CoDelController F
  init interval target = record {
    interval_seconds = interval;
    target_seconds = target;
    interval_start = none;
    interval_min = fl.inf;
    sampling = false;
  }

  -- the start and the minimum of the interval that the observation falls in
  unfoldable pub start_of : CoDelController F → F → F
  start_of c now = elim c.interval_start [ none ↦ now | some t ↦ t ]

  unfoldable pub min_with : CoDelController F → F → F
  min_with c sojourn = elim c.interval_start [
    | none ↦ sojourn
    | some t ↦ fmin c.interval_min sojourn
  ]

  -- the exit: at once, on one observation below the target
  unfoldable pub still_sampling : CoDelController F → F → Bool
  still_sampling c sojourn = if c.sampling && sojourn <? c.target_seconds then false else c.sampling

  unfoldable pub interval_over : CoDelController F → F → Bool
  unfolding start_of
  interval_over c now = c.interval_seconds ⊖ elapsed_epsilon ≤? now ⊖ start_of c now

  unfoldable pub update : CoDelController F → F → F → CoDelController F
  unfolding start_of min_with still_sampling interval_over
  update c sojourn now =
      let kept = still_sampling c sojourn in
      if interval_over c now
      then record c {
        interval_start = some now;
        interval_min = sojourn;
        sampling = if not kept && c.target_seconds <? min_with c sojourn then true else kept;
      }
      else record c {
        interval_start = some (start_of c now);
        interval_min = min_with c sojourn;
        sampling = kept;
      }

  unfoldable pub reset : CoDelController F → CoDelController F
  reset c = record c { interval_start = none; interval_min = fl.inf; sampling = false }
