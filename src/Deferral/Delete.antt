-- ===== src/Deferral/Delete.antt =====
-- Deleting a batch of rows by their ids removes exactly those rows.
use mathlib.Core.List.Perm
use mathlib.Core.List.{Nodup-cons, filter-eq_self, mem-map_of_mem}
use mathlib.Core.Logic.{if_neg}
use vh26_crackers.Base.{
  ℕ, ◌≡◌, refl, ◌∙◌, subst, ◌≢◌, List, [], ◌∷◌, ◌++◌, map, Perm, Nodup, Mem, filter,
}
use vh26_crackers.Deferral.{Row, dec_other, delete_ids}

module _ {F R : Type 0} where
  abbrev pub ids : List (Row F R) → List ℕ
  ids = map (λ r. r.defer_id)

  -- the row itself goes, and the rows with other ids stay
  filter_one :
      (r : Row F R) (zs : List (Row F R))
      → Nodup (ids (r ∷ zs))
      → filter (dec_other r.defer_id) (r ∷ zs) ≡ zs
  unfolding dec_other
  filter_one r zs u =
      if_neg (dec_other r.defer_id r) (λ k. k refl) _ _
      ∙ (filter-eq_self (dec_other r.defer_id)).1 others
    where
      others : (x : Row F R) → Mem x zs → x.defer_id ≢ r.defer_id
      others x m e = (Nodup-cons.0 u).0 (subst (λ i. Mem i (ids zs)) e (mem-map_of_mem _ m))

  -- Where the ids are unique, deleting the ids of some rows leaves the others.
  pub delete_ids-perm :
      (batch rest rows : List (Row F R))
      → Perm rows (batch ++ rest)
      → Nodup (ids rows)
      → Perm (delete_ids (ids batch) rows) rest
  unfolding delete_ids
  delete_ids-perm [] rest rows p u = p
  delete_ids-perm (r ∷ batch) rest rows p u =
      let u' : Nodup (ids (r ∷ (batch ++ rest))) = Perm.nodup (Perm.map (λ r. r.defer_id) p) u in
      let q : Perm (filter (dec_other r.defer_id) rows) (batch ++ rest) =
        rw (filter_one r (batch ++ rest) u') at (Perm.filter (dec_other r.defer_id) p) in
      delete_ids-perm batch rest (filter (dec_other r.defer_id) rows) q
        (Perm.nodup (Perm.map (λ r. r.defer_id) (Perm.symm q)) ((Nodup-cons.0 u').1))
