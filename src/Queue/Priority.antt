-- ===== src/Queue/Priority.antt =====
-- The absolute priority of P0 in the adaptive selection.
use vh26_crackers.Base.{◌≡◌, refl, true, false, ◌∷◌, Option, none, some, Floats, Perm}
use vh26_crackers.Contracts.{Event}
use vh26_crackers.Queue.{
  TierQueue, EventQueue, Selection, tier_events, is_empty, from_p0, pop_best_by_score,
  take_adaptive,
}
use vh26_crackers.Queue.Taking.{IsEquality, Takes, pop_best_by_score-Takes}
use vh26_crackers.Queue.Progress.{IsReflexive, is_some, pop_best_succeeds}

module _ {F : Type 0} where
  -- one event of P0 is handed out and leaves its tier, and the other tiers are as they were
  pub record TakesP0 (q r : EventQueue F) (e : Event F) : Type 0 where
    pub from_its_tier : Perm (tier_events q.p0_queue) (e ∷ tier_events r.p0_queue)
    pub p1_same : r.p1_queue ≡ q.p1_queue
    pub p2_same : r.p2_queue ≡ q.p2_queue

  abbrev pub OnlyP0 : EventQueue F → Option (Event F × EventQueue F) → Type 0
  OnlyP0 q none = ⊥
  OnlyP0 q (some (e, r)) = TakesP0 q r e

  from_p0-OnlyP0 :
      (q : EventQueue F) (o : Option (Event F × TierQueue F))
      → is_some o ≡ true
      → Takes q.p0_queue o
      → OnlyP0 q (from_p0 q o)
  unfolding from_p0
  from_p0-OnlyP0 q none found t = cc
  from_p0-OnlyP0 q (some (e, u)) found t = record {
    from_its_tier = t;
    p1_same = refl;
    p2_same = refl;
  }

module _ {F : Type 0} ⦃fl : Floats F⦄ where
  -- Where == is the identity of events and a P0 event is queued, the adaptive selection hands
  -- out an event of P0, whatever has waited in the other tiers: P0 holds just that event less,
  -- and P1 and P2 are left as they are.
  pub take_adaptive_p0_first :
      (s : Selection F) (q : EventQueue F) (now : F)
      → IsEquality s.equal
      → IsReflexive s.equal
      → is_empty (tier_events q.p0_queue) ≡ false
      → OnlyP0 q (take_adaptive s q now)
  unfolding take_adaptive
  take_adaptive_p0_first s q now law reflexive waiting = rw waiting (
      from_p0-OnlyP0 q (pop_best_by_score s q.p0_queue now)
        (pop_best_succeeds s q.p0_queue now reflexive waiting)
        (pop_best_by_score-Takes s q.p0_queue now law))
