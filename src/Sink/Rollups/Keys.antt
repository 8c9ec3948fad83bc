-- ===== src/Sink/Rollups/Keys.antt =====
-- When a rollup is refused: within one process only for what it says, after a restart for its id.
use vh26_crackers.Base.{
  ℕ, ◌+◌, ◌≤◌, ◌<◌, ◌≡◌, refl, true, false, not, ◌||◌, List, [], ◌∷◌, length-append, Floats, All,
  All-append, All-map, if◌then◌else◌, arith, Bool-cases, inl, inr,
}
use vh26_crackers.Contracts.{EventType, payment, order, inventory, click, log}
use vh26_crackers.Costmodel.{same_type}
use vh26_crackers.Ladder.Reservoir.{Rollup}
use vh26_crackers.Sink.Rollups.{
  RollupId, RollupRow, RollupSink, written, integrity_error, same_id, passes_checks, has_id,
  has_window, refused, row_of, next_key, write_rollup, rollup_count, reopen,
}

same_type_refl : (t : EventType) → same_type t t ≡ true
unfolding same_type
same_type_refl payment = refl
same_type_refl order = refl
same_type_refl inventory = refl
same_type_refl click = refl
same_type_refl log = refl

module _ {F : Type 0} ⦃fl : Floats F⦄ where
  -- No stored id is beyond the counter.
  abbrev pub UpTo : RollupSink F → Type 0
  UpTo s = All (λ x. x.rollup_id.number ≤ s.rollup_seq) s.rows

  has_id-fresh :
      (k : RollupId) (n : ℕ) (rows : List (RollupRow F))
      → All (λ x. x.rollup_id.number ≤ n) rows
      → n < k.number
      → has_id k rows ≡ false
  unfolding has_id same_id
  has_id-fresh k n [] h lt = refl
  has_id-fresh k n (x ∷ xs) h lt = ground (arith, has_id-fresh k n xs h.1 lt, h.0)

  -- Where no stored id is beyond the counter, a rollup is refused exactly when it breaks a check
  -- or its window is stored already; it adds one row otherwise, none when it is refused, and no
  -- stored id is beyond the counter afterwards.
  pub write_rollup_lem :
      (s : RollupSink F) (r : Rollup F) (now : F)
      → UpTo s
      → ((write_rollup s r now).1 ≡ (
          if not (passes_checks r) || has_window r s.rows
          then integrity_error
          else written (next_key s r)))
        × (rollup_count (write_rollup s r now).0
            ≡ rollup_count s + (if not (passes_checks r) || has_window r s.rows then 0 else 1))
        × UpTo (write_rollup s r now).0
  unfolding write_rollup refused rollup_count
  write_rollup_lem s r now u =
      let fresh = has_id-fresh (next_key s r) s.rollup_seq s.rows u (omega arith) in
      let older : All (λ x. x.rollup_id.number ≤ s.rollup_seq + 1) s.rows =
        All-map _ _ (λ x h. omega (arith, h)) s.rows u in
      elim (Bool-cases (not (passes_checks r) || has_window r s.rows)) [
        | inl bad ↦ rw (fresh, bad) (refl, omega arith, older)
        | inr good ↦
            rw (fresh, good)
              (
                refl,
                omega (arith, length-append s.rows (row_of (next_key s r) r now ∷ [])),
                All-append _ s.rows (row_of (next_key s r) r now ∷ []) older (omega arith, tt),
              )
      ]

  abbrev pub new_sink : RollupSink F
  new_sink = record { rows = []; rollup_seq = 0 }

  write_rollup_first :
      (r : Rollup F) (now : F)
      → passes_checks r ≡ true
      → write_rollup new_sink r now ≡ (
        record { rows = row_of (next_key new_sink r) r now ∷ []; rollup_seq = 1 },
        written (next_key new_sink r),
      )
  unfolding write_rollup refused has_id has_window
  write_rollup_first r now ok = rw ok refl

  -- A rollup that a new store accepted makes the store, once it is opened again, refuse the next
  -- rollup of the same type, whatever that says, and leave its table of one row as it is.
  pub reopen_refuses :
      (r next : Rollup F) (now later : F)
      → passes_checks r ≡ true
      → next.event_type ≡ r.event_type
      → ((write_rollup new_sink r now).1 ≡ written (next_key new_sink r))
        × ((write_rollup (reopen (write_rollup new_sink r now).0) next later).1 ≡ integrity_error)
        × (rollup_count (write_rollup (reopen (write_rollup new_sink r now).0) next later).0 ≡ 1)
  unfolding write_rollup refused rollup_count reopen has_id same_id
  reopen_refuses r next now later ok same =
      let taken : same_type r.event_type next.event_type ≡ true =
        rw same (same_type_refl r.event_type) in
      rw (write_rollup_first r now ok, taken)
        (elim (Bool-cases (passes_checks next)) [
          | inl good ↦ rw good (refl, refl, refl)
          | inr bad ↦ rw bad (refl, refl, refl)
        ])
