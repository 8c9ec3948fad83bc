-- ===== src/Sink/Rollups/Window.antt =====
-- The rollups that a reservoir finishes, against the constraints of the table they are written to.
use vh26_crackers.Base.{
  ℕ, ◌+◌, ◌≤◌, ◌≡◌, refl, Option, none, some, true, ltb, List, Floats, IsFloat, ◌⊕◌, ◌<?◌, fmax,
  le_fmax_right, lt_of_lt-le, pos, of_int, ◌≤?◌, false, arith, Bool-cases, inl, inr,
}
use vh26_crackers.Contracts.{Event}
use vh26_crackers.Ladder.Reservoir.{
  Rollup, ReservoirSampler, start_of, finish, add, tick, low_with, high_with,
}
use vh26_crackers.Ladder.Reservoir.Windows.{Covers}
use vh26_crackers.Sink.Rollups.{passes_checks}

seqs_ordered : (low high : Option ℕ) (x : ℕ) → ltb (high_with high x) (low_with low x) ≡ false
unfolding low_with high_with
seqs_ordered none none x = ground arith
seqs_ordered none (some h) x = ground arith
seqs_ordered (some l) none x = ground arith
seqs_ordered (some l) (some h) x = ground arith

module _ {F : Type 0} ⦃fl : Floats F⦄ where
  abbrev pub Storable : Option (Rollup F) → Type 0
  Storable none = Unit
  Storable (some r) = passes_checks r ≡ true

module _ {F : Type 0} ⦃fl : Floats F⦄ ⦃ops : IsFloat F⦄ where
  finish_passes :
      (s : ReservoirSampler F) (e : Event F) (now : F)
      → 1 ≤ s.sample_n
      → (start_of s now <? start_of s now ⊕ tick) ≡ true
      → passes_checks (finish s e now) ≡ true
  unfolding passes_checks finish
  finish_passes s e now positive later =
      let start : F = start_of s now in
      let ends : (start <? fmax now (start ⊕ tick)) ≡ true =
        lt_of_lt-le start (start ⊕ tick) _ later (le_fmax_right now (start ⊕ tick)) in
      let weighs : (of_int 1 ≤? fl.int (pos s.sample_n)) ≡ true =
        rw (ops.int_lit s.sample_n) (ops.lit_mono 1 s.sample_n 0 0 (omega (arith, positive))) in
      rw (ends, weighs, seqs_ordered s.seq_low s.seq_high e.seq) refl

  -- Where a reservoir covers the sequence numbers of its window and a tick after the window's
  -- start is later than the start, whatever rollup add returns passes the checks of the table.
  pub add-Storable :
      (s : ReservoirSampler F) (e : Event F) (now : F) (seqs : List ℕ)
      → Covers s seqs
      → (start_of s now <? start_of s now ⊕ tick) ≡ true
      → Storable (add s e now).1
  unfolding add
  add-Storable s e now seqs c later = elim (Bool-cases (ltb (s.count + 1) s.sample_n)) [
    | inl open_ ↦ rw (open_, add) tt
    | inr full ↦ rw (full, add) (finish_passes s e now (omega (arith, c.room)) later)
  ]
