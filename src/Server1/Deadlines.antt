-- ===== src/Server1/Deadlines.antt =====
-- The queue of server1 hands its events out in the order of their deadlines.
use mathlib.Core.List.{Perm, perm_middle}
use mathlib.Core.List.Perm
use vh26_crackers.Base.{
  ◌≡◌, ◌⊎◌, inl, inr, Bool-cases, ◌≤◌, ◌≺◌, ◌≼◌, ◌<?◌, All-map, true, List, [], ◌∷◌, ◌++◌, Option,
  none, some, Floats, IsFloat, insert, IsSorted, insert-IsSorted, insert-perm, arith, All,
}
use vh26_crackers.Contracts.{Event}
use vh26_crackers.Server1.{earlier, get, put, put_all}

module _ {F : Type 0} ⦃fl : Floats F⦄ ⦃ops : IsFloat F⦄ where
  earlier_total : (a b : Event F) → (earlier a b ≡ true) ⊎ (earlier b a ≡ true)
  unfolding earlier
  earlier_total a b = ground (arith, ops.le_total a.deadline_ts b.deadline_ts)

  earlier_trans : (a b c : Event F) → earlier a b ≡ true → earlier b c ≡ true → earlier a c ≡ true
  unfolding earlier
  earlier_trans a b c h k = ground (
    arith,
    h,
    k,
    ops.le_trans a.deadline_ts b.deadline_ts c.deadline_ts,
    ops.le_trans c.deadline_ts a.deadline_ts b.deadline_ts,
    ops.le_trans b.deadline_ts c.deadline_ts a.deadline_ts,
    ops.le_total a.deadline_ts b.deadline_ts,
    ops.le_total b.deadline_ts c.deadline_ts,
    ops.le_total a.deadline_ts c.deadline_ts,
  )

  abbrev pub InOrder : List (Event F) → Type 0
  InOrder q = IsSorted earlier q

  put_all-InOrder : (es q : List (Event F)) → InOrder q → InOrder (put_all q es)
  unfolding put_all put
  put_all-InOrder [] q h = h
  put_all-InOrder (e ∷ es) q h =
      put_all-InOrder es (insert earlier e q)
        (insert-IsSorted earlier earlier_total earlier_trans e q h)

  put_all-perm : (es q : List (Event F)) → Perm (put_all q es) (es ++ q)
  unfolding put_all put
  put_all-perm [] q = Perm.refl q
  put_all-perm (e ∷ es) q =
      Perm.trans (put_all-perm es (insert earlier e q))
        (Perm.trans (Perm.append (Perm.refl es) (insert-perm earlier e q)) (perm_middle es q))

  -- an earlier deadline, or the same deadline and no later a seq
  abbrev pub NoLater : Event F → Event F → Type 0
  NoLater e x =
      (e.deadline_ts ≺ x.deadline_ts)
      ⊎ ((e.deadline_ts ≼ x.deadline_ts) × (x.deadline_ts ≼ e.deadline_ts) × (e.seq ≤ x.seq))

  -- what a get hands out of a queue
  abbrev pub HandsOut : List (Event F) → Option (Event F × List (Event F)) → Type 0
  HandsOut all none = Perm all []
  HandsOut all (some (e, rest)) = Perm all (e ∷ rest) × All (NoLater e) rest × InOrder rest

  earlier-NoLater : (e x : Event F) → earlier e x ≡ true → NoLater e x
  unfolding earlier
  earlier-NoLater e x h = elim (Bool-cases (e.deadline_ts <? x.deadline_ts)) [
    | inl before ↦ inl before
    | inr tie ↦ inr (ground (arith, h, tie), ground (arith, h, tie), ground (arith, h, tie))
  ]

  HandsOut-get : (xs : List (Event F)) → InOrder xs → HandsOut xs (get xs)
  unfolding get
  HandsOut-get [] s = Perm.refl []
  HandsOut-get (x ∷ xs) s = (
    Perm.refl (x ∷ xs),
    All-map (λ y. earlier x y ≡ true) (NoLater x) (earlier-NoLater x) xs s.0,
    s.1,
  )

  HandsOut-perm :
      (xs ys : List (Event F)) (o : Option (Event F × List (Event F)))
      → Perm ys xs
      → HandsOut xs o
      → HandsOut ys o
  HandsOut-perm xs ys none p h = Perm.trans p h
  HandsOut-perm xs ys (some (e, rest)) p h = (Perm.trans p h.0, h.1, h.2)

  -- After any events are put into a queue that is in the order of its deadlines, get fails only
  -- if there are no events at all; otherwise it hands out one of them whose deadline is before
  -- that of each other, or equal to it with a seq that is at most the other's, and leaves the
  -- others, in order.
  pub put_all-HandsOut :
      (q es : List (Event F)) → InOrder q → HandsOut (es ++ q) (get (put_all q es))
  put_all-HandsOut q es h =
      HandsOut-perm (put_all q es) (es ++ q) (get (put_all q es)) (Perm.symm (put_all-perm es q))
        (HandsOut-get (put_all q es) (put_all-InOrder es q h))
