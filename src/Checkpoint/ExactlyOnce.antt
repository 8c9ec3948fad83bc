-- ===== src/Checkpoint/ExactlyOnce.antt =====
-- The checkpoint table never holds an event twice, and tells a second completion from the first.
use mathlib.Core.List.{Perm, perm_middle}
use mathlib.Core.List.Perm
use vh26_crackers.Base.{
  All, ap, pos, negsuc, eq_ℤ, ◌+◌, ◌≡◌, refl, true, false, ◌||◌, str_eq, eq_iff, ℤ, List, [], ◌∷◌,
  ◌++◌, map, String, length, length-append, arith, Bool-cases, inl, inr, if◌then◌else◌,
}
use vh26_crackers.Contracts.{Event}
use vh26_crackers.Checkpoint.{
  Row, CheckpointStore, row_id, has_row, delete_row, rows_of, rows_without, begin, mark_done,
  recover_worker, in_flight_count, is_in_flight,
}

eq_ℤ-sound : (a b : ℤ) → eq_ℤ a b ≡ true → a ≡ b
eq_ℤ-sound (pos m) (pos n) h = ap pos (ground (arith, h))
eq_ℤ-sound (pos m) (negsuc n) h = ground (arith, h)
eq_ℤ-sound (negsuc m) (pos n) h = ground (arith, h)
eq_ℤ-sound (negsuc m) (negsuc n) h = ap negsuc (ground (arith, h))

eq_ℤ_same : (a : ℤ) → eq_ℤ a a ≡ true
eq_ℤ_same a = ground arith

eq_ℤ-complete : (a b : ℤ) → eq_ℤ a b ≡ false → ¬ (a ≡ b)
eq_ℤ-complete a b h = λ same. cc (h, same, eq_ℤ_same a)

module _ {F : Type 0} where
  -- the primary key
  abbrev pub Unique : List (Row F) → Type 0
  Unique [] = Unit
  Unique (r ∷ rs) = (has_row (row_id r) rs ≡ false) × Unique rs

  has_row-append :
      (k : String) (xs ys : List (Row F)) → has_row k (xs ++ ys) ≡ (has_row k xs || has_row k ys)
  unfolding has_row
  has_row-append k [] ys = refl
  has_row-append k (x ∷ xs) ys = ground (arith, has_row-append k xs ys)

  append-Unique :
      (xs : List (Row F)) (r : Row F)
      → has_row (row_id r) xs ≡ false
      → Unique xs
      → Unique (xs ++ r ∷ [])
  unfolding has_row
  append-Unique [] r h u = (refl, tt)
  append-Unique (x ∷ xs) r h u = ground (
    arith,
    has_row-append (row_id x) xs (r ∷ []),
    eq_iff (row_id r) (row_id x),
    eq_iff (row_id x) (row_id r),
    append-Unique xs r,
  )

  has_row-delete_row :
      (k j : String) (xs : List (Row F))
      → has_row j (delete_row k xs) ≡ (if str_eq k j then false else has_row j xs)
  unfolding has_row delete_row
  has_row-delete_row k j [] = ground arith
  has_row-delete_row k j (x ∷ xs) =
      ground
        (arith, has_row-delete_row k j xs, eq_iff (row_id x) k, eq_iff (row_id x) j, eq_iff k j)

  delete_row-Unique : (k : String) (xs : List (Row F)) → Unique xs → Unique (delete_row k xs)
  unfolding delete_row
  delete_row-Unique k [] u = tt
  delete_row-Unique k (x ∷ xs) u =
      ground (arith, has_row-delete_row k (row_id x) xs, delete_row-Unique k xs u.1)

  delete_row_absent : (k : String) (xs : List (Row F)) → has_row k xs ≡ false → delete_row k xs ≡ xs
  unfolding has_row delete_row
  delete_row_absent k [] h = refl
  delete_row_absent k (x ∷ xs) h = ground (arith, delete_row_absent k xs)

  length-delete_row :
      (k : String) (xs : List (Row F))
      → Unique xs
      → length (delete_row k xs) + (if has_row k xs then 1 else 0) ≡ length xs
  unfolding has_row delete_row
  length-delete_row k [] u = refl
  length-delete_row k (x ∷ xs) u =
      ground (arith, length-delete_row k xs u.1, eq_iff (row_id x) k, delete_row_absent k xs)

  -- On a table without repeated events begin keeps the table so, is refused exactly when the
  -- event is in flight, adds one row otherwise, and leaves the event in flight.
  pub begin_lem :
      (s : CheckpointStore F) (e : Event F) (w : ℤ) (now : F)
      → Unique s.rows
      → Unique (begin s e w now).0.rows
        × ((begin s e w now).1 ≡ (if is_in_flight s e.event_id then false else true))
        × (in_flight_count (begin s e w now).0
            ≡ in_flight_count s + (if is_in_flight s e.event_id then 0 else 1))
        × (is_in_flight (begin s e w now).0 e.event_id ≡ true)
  unfolding begin is_in_flight in_flight_count has_row
  begin_lem s e w now u = elim (Bool-cases (has_row e.event_id s.rows)) [
    | inl old ↦ rw (old, begin) (u, refl, omega arith, old)
    | inr new ↦
        let r : Row F = record {
          event = e;
          idempotency_key = e.idempotency_key;
          worker_id = w;
          started_ts = now;
        } in
        rw (new, begin)
          (
            append-Unique s.rows r new u,
            refl,
            omega (arith, length-append s.rows (r ∷ [])),
            ground (arith, has_row-append e.event_id s.rows (r ∷ []), eq_iff e.event_id e.event_id),
          )
  ]

  -- On a table without repeated events mark_done keeps the table so, succeeds exactly when the
  -- event is in flight, removes one row in that case, and changes no other event.
  pub mark_done_lem :
      (s : CheckpointStore F) (k j : String)
      → Unique s.rows
      → Unique (mark_done s k).0.rows
        × ((mark_done s k).1 ≡ is_in_flight s k)
        × (in_flight_count (mark_done s k).0 + (if is_in_flight s k then 1 else 0)
            ≡ in_flight_count s)
        × (is_in_flight (mark_done s k).0 j ≡ (if str_eq k j then false else is_in_flight s j))
  unfolding mark_done is_in_flight in_flight_count
  mark_done_lem s k j u =
      let shorter = length-delete_row k s.rows u in
      (
        delete_row-Unique k s.rows u,
        ground (arith, shorter),
        shorter,
        has_row-delete_row k j s.rows,
      )

  pub split-perm : (w : ℤ) (rs : List (Row F)) → Perm (rows_of w rs ++ rows_without w rs) rs
  unfolding rows_of rows_without
  split-perm w [] = Perm.refl []
  split-perm w (r ∷ rs) = elim (Bool-cases (eq_ℤ r.worker_id w)) [
    | inl his ↦ rw his (Perm.cons r (split-perm w rs))
    | inr other ↦ rw other (
        Perm.trans (perm_middle (rows_of w rs) (rows_without w rs)) (Perm.cons r (split-perm w rs)))
  ]

  rows_of-Owned : (w : ℤ) (rs : List (Row F)) → All (λ r. r.worker_id ≡ w) (rows_of w rs)
  unfolding rows_of
  rows_of-Owned w [] = tt
  rows_of-Owned w (r ∷ rs) = elim (Bool-cases (eq_ℤ r.worker_id w)) [
    | inl his ↦ rw his (eq_ℤ-sound r.worker_id w his, rows_of-Owned w rs)
    | inr other ↦ rw other (rows_of-Owned w rs)
  ]

  rows_without-Others :
      (w : ℤ) (rs : List (Row F)) → All (λ r. ¬ (r.worker_id ≡ w)) (rows_without w rs)
  unfolding rows_without
  rows_without-Others w [] = tt
  rows_without-Others w (r ∷ rs) = elim (Bool-cases (eq_ℤ r.worker_id w)) [
    | inl his ↦ rw his (rows_without-Others w rs)
    | inr other ↦ rw other (eq_ℤ-complete r.worker_id w other, rows_without-Others w rs)
  ]

  -- The rows of a table split into those of one worker, whose events are handed back, and those
  -- that stay, all of other workers.
  pub record Recovers (s : CheckpointStore F) (w : ℤ) (result : CheckpointStore F × List (Event F))
      : Type 0 where
    pub rows_back : List (Row F)
    pub events_back : result.1 ≡ map (λ r. r.event) rows_back
    pub owned : All (λ r. r.worker_id ≡ w) rows_back
    pub others : All (λ r. ¬ (r.worker_id ≡ w)) result.0.rows
    pub together : Perm (rows_back ++ result.0.rows) s.rows

  -- The rows of the table split, up to order, into rows of the given worker, whose events
  -- recover_worker hands back, and the rows that it leaves, all of other workers.
  pub recover_worker-Recovers : (s : CheckpointStore F) (w : ℤ) → Recovers s w (recover_worker s w)
  unfolding recover_worker
  recover_worker-Recovers s w = record {
    rows_back = rows_of w s.rows;
    events_back = refl;
    owned = rows_of-Owned w s.rows;
    others = rows_without-Others w s.rows;
    together = split-perm w s.rows;
  }
