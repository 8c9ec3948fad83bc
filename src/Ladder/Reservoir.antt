-- ===== src/Ladder/Reservoir.antt =====
-- `ReservoirSampler` of ladder.py: one rollup for each full window of `sample_n` events.
pub mod Windows
use vh26_crackers.Base.{
  ℕ, zero, suc, ◌+◌, ◌≤◌, Option, none, some, ltb, Floats, ◌⊕◌, fmax, ℤ, pos, if◌then◌else◌, List,
  [], ◌∷◌,
}
use vh26_crackers.Contracts.{Event, EventType}

-- `subtype_counts` always is `{event_type: 1}`.
pub record Rollup (F : Type 0) : Type 0 where
  pub event_type : EventType
  pub window_start : F
  pub window_end : F
  pub sample_weight : F
  pub observed_count : ℕ
  pub subtype_counts : List (EventType × ℕ)
  pub seq_low : ℕ
  pub seq_high : ℕ

pub record ReservoirSampler (F : Type 0) : Type 0 where
  pub sample_n : ℕ
  pub count : ℕ
  pub window_start : Option F
  pub seq_low : Option ℕ
  pub seq_high : Option ℕ
  pub last_window_end : Option F

-- `x if best is None else min(best, x)`, and with `max`
unfoldable pub low_with : Option ℕ → ℕ → ℕ
low_with none x = x
low_with (some best) x = if ltb x best then x else best

unfoldable pub high_with : Option ℕ → ℕ → ℕ
high_with none x = x
high_with (some best) x = if ltb best x then x else best

module _ {F : Type 0} ⦃fl : Floats F⦄ where
  abbrev pub tick : F
  tick = fl.lit 1 6

  -- a new window starts after the end of the one before
  unfoldable pub fresh_start : Option F → F → F
  fresh_start none now = now
  fresh_start (some last) now = fmax now (last ⊕ tick)

  unfoldable pub start_of : ReservoirSampler F → F → F
  unfolding fresh_start
  start_of s now = elim s.window_start [ none ↦ fresh_start s.last_window_end now | some t ↦ t ]

  unfoldable pub finish : ReservoirSampler F → Event F → F → Rollup F
  unfolding start_of low_with high_with
  finish s event now = record {
    event_type = event.type;
    window_start = start_of s now;
    window_end = fmax now (start_of s now ⊕ tick);
    sample_weight = fl.int (pos s.sample_n);
    observed_count = 1;
    subtype_counts = (event.type, 1) ∷ [];
    seq_low = low_with s.seq_low event.seq;
    seq_high = high_with s.seq_high event.seq;
  }

  unfoldable pub add : ReservoirSampler F → Event F → F → ReservoirSampler F × Option (Rollup F)
  unfolding start_of low_with high_with finish
  add s event now =
      if ltb (s.count + 1) s.sample_n
      then (
        record s {
          count = s.count + 1;
          window_start = some (start_of s now);
          seq_low = some (low_with s.seq_low event.seq);
          seq_high = some (high_with s.seq_high event.seq);
        },
        none,
      )
      else (
        record s {
          count = 0;
          window_start = none;
          seq_low = none;
          seq_high = none;
          last_window_end = some (fmax now (start_of s now ⊕ tick));
        },
        some (finish s event now),
      )

  unfoldable pub reset : ReservoirSampler F → ReservoirSampler F
  reset s = record s {
    count = 0;
    window_start = none;
    seq_low = none;
    seq_high = none;
    last_window_end = none;
  }
