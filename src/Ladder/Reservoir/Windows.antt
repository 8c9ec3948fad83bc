-- ===== src/Ladder/Reservoir/Windows.antt =====
-- What a window of the reservoir covers: as many events as its weight says, within its bounds.
use vh26_crackers.Base.{
  pos, ℕ, ◌≤◌, ◌<◌, ◌≡◌, Option, none, some, List, [], length, All, Floats, IsFloat, ◌⊕◌, fmax, ◌≼◌,
  le_fmax_right, arith,
}
use vh26_crackers.Contracts.{Event}
use vh26_crackers.Ladder.Reservoir.{Rollup, ReservoirSampler, finish, tick}

-- a bound that is not set yet bounds nothing
abbrev pub AtLeast : Option ℕ → ℕ → Type 0
AtLeast none x = ⊥
AtLeast (some low) x = low ≤ x

abbrev pub AtMost : Option ℕ → ℕ → Type 0
AtMost none x = ⊥
AtMost (some high) x = x ≤ high

module _ {F : Type 0} where
  -- `seqs` are the sequence numbers of the open window, the latest first.
  pub record Covers (s : ReservoirSampler F) (seqs : List ℕ) : Type 0 where
    pub counted : s.count ≡ length seqs
    pub room : s.count < s.sample_n
    pub low : All (AtLeast s.seq_low) seqs
    pub high : All (AtMost s.seq_high) seqs

module _ {F : Type 0} ⦃fl : Floats F⦄ where
  -- A rollup stands for these events: they are as many as a window holds, its weight times its
  -- count of one is their number, and all lie in its range.
  pub record StandsFor (n : ℕ) (r : Rollup F) (seqs : List ℕ) : Type 0 where
    pub full : length seqs ≡ n
    pub range : All (λ x. (r.seq_low ≤ x) × (x ≤ r.seq_high)) seqs
    pub observed : r.observed_count ≡ 1
    pub weight : r.sample_weight ≡ fl.int (pos (length seqs))

  -- What the result of `add` says of the events so far: no rollup leaves the window open over one
  -- event more; a rollup stands for the whole window, and the next window is empty.
  abbrev pub Accounted : ℕ → List ℕ → ReservoirSampler F × Option (Rollup F) → Type 0
  Accounted n seqs (s, none) = Covers s seqs
  Accounted n seqs (s, some r) = StandsFor n r seqs × Covers s []

module _ {F : Type 0} ⦃fl : Floats F⦄ ⦃ops : IsFloat F⦄ where
  -- A window that opens after an earlier one starts no earlier than that one ended, and its
  -- rollup ends no earlier than it starts.
  pub finish_ordered :
      (s : ReservoirSampler F) (e : Event F) (now last : F)
      → s.window_start ≡ none
      → s.last_window_end ≡ some last
      → (last ≼ (finish s e now).window_start)
        × ((finish s e now).window_start ≼ (finish s e now).window_end)
  unfolding finish
  finish_ordered s e now last h k =
      rw (h, k, finish)
        (
          ops.le_trans last (last ⊕ tick) _
              (ops.add_nonneg last tick (ops.lit_mono 0 1 0 6 (omega arith)))
              (le_fmax_right now (last ⊕ tick)),
          ops.le_trans _ (fmax now (last ⊕ tick) ⊕ tick) _
              (ops.add_nonneg (fmax now (last ⊕ tick)) tick (ops.lit_mono 0 1 0 6 (omega arith)))
              (le_fmax_right now _),
        )
