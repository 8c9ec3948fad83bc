-- ===== src/Deferral/Batch.antt =====
-- What `pop_ready_batch` takes from the buffer, and what it leaves.
use mathlib.Core.List.Perm
use mathlib.Core.List.{map-append, perm_middle, append_assoc, append-nil}
use vh26_crackers.Base.{
  ℕ, ◌+◌, ◌≤◌, ◌≡◌, List, [], ◌∷◌, ◌++◌, map, take, drop, Perm, Nodup, Option, none, some, Floats,
  sort, sort-perm, length, length-map, length-append, length-take-le, length-perm, take-append-drop,
  arith, Bool-cases, inl, inr, if◌then◌else◌,
}
use vh26_crackers.Deferral.{
  Row, DeferralStore, Origin, same_origin, of_origin, before, ready, delete_ids, pop_ready_batch,
}
use vh26_crackers.Deferral.Delete.{ids, delete_ids-perm}

module _ {F R : Type 0} where
  -- the rows that a batch of one origin cannot touch
  unfoldable pub of_others : Option Origin → List (Row F R) → List (Row F R)
  of_others none rows = []
  of_others (some o) [] = []
  of_others (some o) (r ∷ rs) =
      let rest = of_others (some o) rs in if same_origin r.origin o then rest else r ∷ rest

  origin-perm :
      (o : Option Origin) (rows : List (Row F R)) → Perm rows (of_origin o rows ++ of_others o rows)
  unfolding of_origin of_others
  origin-perm none rows = rw append-nil (Perm.refl rows)
  origin-perm (some o) [] = Perm.refl []
  origin-perm (some o) (r ∷ rs) = elim (Bool-cases (same_origin r.origin o)) [
    | inl his ↦ rw his (Perm.cons r (origin-perm (some o) rs))
    | inr other ↦ rw other (
        Perm.trans (Perm.cons r (origin-perm (some o) rs))
          (Perm.symm (perm_middle (of_origin (some o) rs) (of_others (some o) rs))))
  ]

module _ {F R : Type 0} ⦃fl : Floats F⦄ where
  -- what the origin still holds behind the batch
  unfoldable pub left_behind : DeferralStore F R → ℕ → Option Origin → List (Row F R)
  left_behind s limit origin = drop limit (sort before (of_origin origin s.rows))

  pub ready-perm :
      (s : DeferralStore F R) (limit : ℕ) (o : Option Origin)
      → Perm s.rows (ready s limit o ++ (left_behind s limit o ++ of_others o s.rows))
  unfolding ready left_behind
  ready-perm s limit o =
      let q : List (Row F R) = sort before (of_origin o s.rows) in
      rw
        (
          ← append_assoc (take limit q) (drop limit q) (of_others o s.rows),
          take-append-drop limit q,
        )
        (Perm.trans (origin-perm o s.rows) (
          Perm.append (Perm.symm (sort-perm before (of_origin o s.rows)))
            (Perm.refl (of_others o s.rows))))

  -- the rows that stay are those behind the batch and those of the other origins
  pub remaining-perm :
      (s : DeferralStore F R) (limit : ℕ) (o : Option Origin)
      → Nodup (ids s.rows)
      → Perm (pop_ready_batch s limit o).0.rows (left_behind s limit o ++ of_others o s.rows)
  unfolding pop_ready_batch
  remaining-perm s limit o u =
      delete_ids-perm (ready s limit o) (left_behind s limit o ++ of_others o s.rows) s.rows
        (ready-perm s limit o) u

  -- Where the row ids are distinct, the batch that is popped and the events that stay are
  -- together, up to order, the events that were parked.
  pub pop_ready_batch-perm :
      (s : DeferralStore F R) (limit : ℕ) (o : Option Origin)
      → Nodup (ids s.rows)
      → Perm
          ((pop_ready_batch s limit o).1 ++ map (λ r. r.event) (pop_ready_batch s limit o).0.rows)
          (map (λ r. r.event) s.rows)
  unfolding pop_ready_batch
  pop_ready_batch-perm s limit o u =
      rw (← map-append (λ r. r.event) (ready s limit o) (delete_ids (ids (ready s limit o)) s.rows))
        (Perm.map (λ r. r.event)
          (Perm.trans (Perm.append (Perm.refl (ready s limit o)) (remaining-perm s limit o u))
            (Perm.symm (ready-perm s limit o))))

  -- as many rows go as events are handed out
  pub length-pop_ready_batch :
      (s : DeferralStore F R) (limit : ℕ) (o : Option Origin)
      → Nodup (ids s.rows)
      → length (pop_ready_batch s limit o).0.rows + length (pop_ready_batch s limit o).1
        ≡ length s.rows
  length-pop_ready_batch s limit o u = omega (
    arith,
    length-perm (pop_ready_batch-perm s limit o u),
    length-append (pop_ready_batch s limit o).1
        (map (λ r. r.event) (pop_ready_batch s limit o).0.rows),
    length-map (λ (r : Row F R). r.event) s.rows,
    length-map (λ (r : Row F R). r.event) (pop_ready_batch s limit o).0.rows,
  )

  -- A batch is never larger than its limit.
  pub length-batch-le :
      (s : DeferralStore F R) (limit : ℕ) (o : Option Origin)
      → length (pop_ready_batch s limit o).1 ≤ limit
  unfolding pop_ready_batch ready
  length-batch-le s limit o = omega (
    arith,
    length-map (λ (r : Row F R). r.event) (ready s limit o),
    length-take-le limit (sort before (of_origin o s.rows)),
  )
