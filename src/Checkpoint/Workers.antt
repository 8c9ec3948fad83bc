-- ===== src/Checkpoint/Workers.antt =====
-- The rows of one worker and those of the others, under the operations of the checkpoint table.
use mathlib.Core.List.Perm
use mathlib.Core.List.{
  Nodup-cons, filter-eq_self, mem-map_of_mem, mem-cons_self, mem-cons_of_mem, map-append,
  append-nil, perm_append_singleton,
}
use mathlib.Core.Logic.{if_neg, if_pos}
use vh26_crackers.Base.{
  ◌≡◌, refl, ◌∙◌, ap, sym, subst, ◌≢◌, true, false, str_eq, eq_iff, ℤ, eq_ℤ, List, [], ◌∷◌, ◌++◌,
  map, Perm, Nodup, Mem, filter, String, arith, Bool-cases, inl, inr,
}
use vh26_crackers.Contracts.{Event}
use vh26_crackers.Checkpoint.{
  Row, CheckpointStore, has_row, delete_row, rows_of, rows_without, begin, mark_done,
}

same_worker : (w : ℤ) → eq_ℤ w w ≡ true
same_worker w = ground arith

module _ {F : Type 0} where
  -- the events of some rows, and the ids of some events
  abbrev pub row_events : List (Row F) → List (Event F)
  row_events = map (λ r. r.event)

  abbrev pub event_ids : List (Event F) → List String
  event_ids = map (λ e. e.event_id)

  rows_of-append :
      (w : ℤ) (xs ys : List (Row F)) → rows_of w (xs ++ ys) ≡ rows_of w xs ++ rows_of w ys
  unfolding rows_of
  rows_of-append w [] ys = refl
  rows_of-append w (x ∷ xs) ys = ground (arith, rows_of-append w xs ys)

  rows_without-append :
      (w : ℤ) (xs ys : List (Row F))
      → rows_without w (xs ++ ys) ≡ rows_without w xs ++ rows_without w ys
  unfolding rows_without
  rows_without-append w [] ys = refl
  rows_without-append w (x ∷ xs) ys = ground (arith, rows_without-append w xs ys)

  -- what recovery leaves
  pub rows_of-rows_without : (w : ℤ) (xs : List (Row F)) → rows_of w (rows_without w xs) ≡ []
  unfolding rows_of rows_without
  rows_of-rows_without w [] = refl
  rows_of-rows_without w (x ∷ xs) = ground (arith, rows_of-rows_without w xs)

  pub rows_without_twice :
      (w : ℤ) (xs : List (Row F)) → rows_without w (rows_without w xs) ≡ rows_without w xs
  unfolding rows_without
  rows_without_twice w [] = refl
  rows_without_twice w (x ∷ xs) = ground (arith, rows_without_twice w xs)

  rows_of-delete_row :
      (w : ℤ) (k : String) (xs : List (Row F))
      → rows_of w (delete_row k xs) ≡ delete_row k (rows_of w xs)
  unfolding rows_of delete_row
  rows_of-delete_row w k [] = refl
  rows_of-delete_row w k (x ∷ xs) = ground (arith, rows_of-delete_row w k xs)

  rows_without-delete_row :
      (w : ℤ) (k : String) (xs : List (Row F))
      → rows_without w (delete_row k xs) ≡ delete_row k (rows_without w xs)
  unfolding rows_without delete_row
  rows_without-delete_row w k [] = refl
  rows_without-delete_row w k (x ∷ xs) = ground (arith, rows_without-delete_row w k xs)

  unlike : (k : String) (e : Event F) → Dec (e.event_id ≢ k)
  unlike k e = elim (Bool-cases (str_eq e.event_id k)) [
    | inl h ↦ no (λ other. other ((eq_iff e.event_id k).0 h))
    | inr h ↦ yes (λ same. cc (h, (eq_iff e.event_id k).1 same))
  ]

  events-delete_row :
      (k : String) (xs : List (Row F))
      → row_events (delete_row k xs) ≡ filter (unlike k) (row_events xs)
  unfolding delete_row
  events-delete_row k [] = refl
  events-delete_row k (x ∷ xs) = elim (Bool-cases (str_eq x.event.event_id k)) [
    | inl h ↦ rw h (
        events-delete_row k xs
        ∙ sym (if_neg (unlike k x.event) (λ other. other ((eq_iff x.event.event_id k).0 h)) _ _))
    | inr h ↦ rw h (
        ap (◌∷◌ x.event) (events-delete_row k xs)
        ∙ sym (if_pos (unlike k x.event) (λ same. cc (h, (eq_iff x.event.event_id k).1 same)) _ _))
  ]

  pub not_in_rows :
      (k : String) (xs : List (Row F)) → ¬ Mem k (event_ids (row_events xs)) → has_row k xs ≡ false
  unfolding has_row
  not_in_rows k [] h = refl
  not_in_rows k (x ∷ xs) h = elim (Bool-cases (str_eq x.event.event_id k)) [
    | inl same ↦ absurd (
        h (
          subst (λ j. Mem j (event_ids (row_events (x ∷ xs)))) ((eq_iff x.event.event_id k).0 same)
            mem-cons_self))
    | inr other ↦ rw other (not_in_rows k xs (λ m. h (mem-cons_of_mem x.event.event_id m)))
  ]

  filter_one :
      (e : Event F) (es : List (Event F))
      → Nodup (event_ids (e ∷ es))
      → filter (unlike e.event_id) (e ∷ es) ≡ es
  filter_one e es u =
      if_neg (unlike e.event_id e) (λ k. k refl) _ _ ∙ (filter-eq_self (unlike e.event_id)).1 others
    where
      others : (x : Event F) → Mem x es → x.event_id ≢ e.event_id
      others x m same =
          (Nodup-cons.0 u).0 (subst (λ i. Mem i (event_ids es)) same (mem-map_of_mem _ m))

  -- Where the ids are distinct, the row of an event goes, and the others stay.
  pub delete_row-perm :
      (e : Event F) (xs : List (Row F)) (es : List (Event F))
      → Perm (row_events xs) (e ∷ es)
      → Nodup (event_ids (e ∷ es))
      → Perm (row_events (delete_row e.event_id xs)) es
  delete_row-perm e xs es p u =
      subst (λ zs. Perm zs es) (sym (events-delete_row e.event_id xs))
        (rw (filter_one e es u) at (Perm.filter (unlike e.event_id) p))

  absent-delete_row : (k : String) (xs : List (Row F)) → has_row k xs ≡ false → delete_row k xs ≡ xs
  unfolding has_row delete_row
  absent-delete_row k [] h = refl
  absent-delete_row k (x ∷ xs) h = ground (arith, absent-delete_row k xs)

  -- A worker's completion of an event that no other worker has leaves the others' rows.
  pub mark_done_others :
      (s : CheckpointStore F) (w : ℤ) (k : String)
      → has_row k (rows_without w s.rows) ≡ false
      → rows_without w (mark_done s k).0.rows ≡ rows_without w s.rows
  unfolding mark_done
  mark_done_others s w k h =
      rows_without-delete_row w k s.rows ∙ absent-delete_row k (rows_without w s.rows) h

  pub mark_done_own :
      (s : CheckpointStore F) (w : ℤ) (e : Event F) (es : List (Event F))
      → Perm (row_events (rows_of w s.rows)) (e ∷ es)
      → Nodup (event_ids (e ∷ es))
      → Perm (row_events (rows_of w (mark_done s e.event_id).0.rows)) es
  unfolding mark_done
  mark_done_own s w e es p u =
      subst (λ zs. Perm (row_events zs) es) (sym (rows_of-delete_row w e.event_id s.rows))
        (delete_row-perm e (rows_of w s.rows) es p u)

  abbrev row_for : Event F → ℤ → F → Row F
  row_for e w now = record {
    event = e;
    idempotency_key = e.idempotency_key;
    worker_id = w;
    started_ts = now;
  }

  pub begin_others :
      (s : CheckpointStore F) (w : ℤ) (e : Event F) (now : F)
      → rows_without w (begin s e w now).0.rows ≡ rows_without w s.rows
  unfolding begin rows_without
  begin_others s w e now = elim (Bool-cases (has_row e.event_id s.rows)) [
    | inl old ↦ rw old refl
    | inr new ↦
        rw (new, rows_without-append w s.rows (row_for e w now ∷ []), rows_without, same_worker w)
          (append-nil (rows_without w s.rows))
  ]

  pub begin_own :
      (s : CheckpointStore F) (w : ℤ) (e : Event F) (now : F)
      → has_row e.event_id s.rows ≡ false
      → Perm (row_events (rows_of w (begin s e w now).0.rows)) (e ∷ row_events (rows_of w s.rows))
  unfolding begin rows_of
  begin_own s w e now h =
      rw
        (
          h,
          rows_of-append w s.rows (row_for e w now ∷ []),
          rows_of,
          same_worker w,
          map-append (λ (r : Row F). r.event) (rows_of w s.rows) (row_for e w now ∷ []),
        )
        (perm_append_singleton e (row_events (rows_of w s.rows)))
