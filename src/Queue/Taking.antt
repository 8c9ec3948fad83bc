-- ===== src/Queue/Taking.antt =====
-- What the adaptive selection takes from the queue, and what it leaves.
use mathlib.Core.List.Perm
use mathlib.Core.List.{perm_middle, append-nil}
use vh26_crackers.Base.{
  ◌≡◌, refl, Bool, true, List, [], ◌∷◌, ◌++◌, Perm, Option, none, some, Floats, Bool-cases, inl,
  inr, sort, sort-perm, ◌≤?◌, ◌⊖◌,
}
use vh26_crackers.Contracts.{Event}
use vh26_crackers.Queue.{
  TierQueue, EventQueue, Selection, tier_events, remove_first, remove_event, with_settled,
  with_pending, and_event, push_front, settled_popped, no_resort, pick_against, take_aged,
  best_from, pop_last, taken, pop_settled, is_empty, sort_order, better_score, maybe_resort,
  pick_by_score, pop_best_by_score, from_p0, from_p1, from_p2, take_lower, take_adaptive,
}

-- Events that `==` identifies are identical.
abbrev pub IsEquality : {F : Type 0} → (Event F → Event F → Bool) → Type 0
IsEquality {F} equal = (a b : Event F) → equal a b ≡ true → a ≡ b

module _ {F : Type 0} where
  -- what a removal leaves, if it succeeds
  abbrev pub Removes : Event F → List (Event F) → Option (List (Event F)) → Type 0
  Removes e xs none = Unit
  Removes e xs (some ys) = Perm xs (e ∷ ys)

  -- what a tier holds is the event that is taken and what the tier then holds
  abbrev pub Takes : TierQueue F → Option (Event F × TierQueue F) → Type 0
  Takes t none = Unit
  Takes t (some (e, rest)) = Perm (tier_events t) (e ∷ tier_events rest)

  remove_first-Removes :
      (equal : Event F → Event F → Bool) (e : Event F) (xs : List (Event F))
      → IsEquality equal
      → Removes e xs (remove_first equal e xs)
  unfolding remove_first
  remove_first-Removes equal e [] law = tt
  remove_first-Removes equal e (x ∷ xs) law = elim (Bool-cases (equal x e)) [
    | inl h ↦ rw (h, law x e h) (Perm.refl (e ∷ xs))
    | inr h ↦ rw h (kept (remove_first equal e xs) (remove_first-Removes equal e xs law))
  ]
    where
      kept :
          (o : Option (List (Event F)))
          → Removes e xs o
          → Removes e (x ∷ xs) (elim o [ none ↦ none | some ys ↦ some (x ∷ ys) ])
      kept none r = tt
      kept (some ys) r = Perm.trans (Perm.cons x r) (Perm.swap e x ys)

  settled-Takes :
      (t : TierQueue F) (e : Event F) (o : Option (List (Event F)))
      → Removes e t.settled o
      → Takes t (and_event e (with_settled t o))
  unfolding and_event with_settled tier_events
  settled-Takes t e none r = tt
  settled-Takes t e (some ys) r = Perm.append r (Perm.refl t.pending)

  pending-Takes :
      (t : TierQueue F) (e : Event F) (otherwise : Option (TierQueue F))
      (o : Option (List (Event F)))
      → Takes t (and_event e otherwise)
      → Removes e t.pending o
      → Takes t (and_event e (with_pending t otherwise o))
  unfolding and_event with_pending tier_events
  pending-Takes t e otherwise none k r = k
  pending-Takes t e otherwise (some ys) k r =
      Perm.trans (Perm.append (Perm.refl t.settled) r) (perm_middle t.settled ys)

  pub taken-Takes :
      (equal : Event F → Event F → Bool) (t : TierQueue F) (e : Event F)
      → IsEquality equal
      → Takes t (taken equal t e)
  unfolding taken remove_event
  taken-Takes equal t e law =
      pending-Takes t e (with_settled t (remove_first equal e t.settled))
        (remove_first equal e t.pending)
        (settled-Takes t e (remove_first equal e t.settled)
          (remove_first-Removes equal e t.settled law))
        (remove_first-Removes equal e t.pending law)

  -- a list is its last member and the others
  abbrev pub Pops : List (Event F) → Option (Event F × List (Event F)) → Type 0
  Pops xs none = xs ≡ []
  Pops xs (some (e, rest)) = Perm xs (e ∷ rest)

  push_front-Pops :
      (x : Event F) (xs : List (Event F)) (o : Option (Event F × List (Event F)))
      → Pops xs o
      → Pops (x ∷ xs) (push_front x o)
  unfolding push_front
  push_front-Pops x xs none p = rw p (Perm.refl (x ∷ []))
  push_front-Pops x xs (some (e, rest)) p = Perm.trans (Perm.cons x p) (Perm.swap e x rest)

  pop_last-Pops : (xs : List (Event F)) → Pops xs (pop_last xs)
  unfolding pop_last
  pop_last-Pops [] = refl
  pop_last-Pops (x ∷ xs) = push_front-Pops x xs (pop_last xs) (pop_last-Pops xs)

  popped-Takes :
      (t : TierQueue F) (o : Option (Event F × List (Event F)))
      → Pops t.settled o
      → Takes t (settled_popped t o)
  unfolding settled_popped tier_events
  popped-Takes t none p = tt
  popped-Takes t (some (e, rest)) p = Perm.append p (Perm.refl t.pending)

  pop_settled-Takes : (t : TierQueue F) → Takes t (pop_settled t)
  unfolding pop_settled
  pop_settled-Takes t = popped-Takes t (pop_last t.settled) (pop_last-Pops t.settled)

  Takes-perm :
      (t u : TierQueue F) (o : Option (Event F × TierQueue F))
      → Perm (tier_events t) (tier_events u)
      → Takes u o
      → Takes t o
  Takes-perm t u none p k = tt
  Takes-perm t u (some (e, rest)) p k = Perm.trans p k

module _ {F : Type 0} ⦃fl : Floats F⦄ where
  maybe_resort-perm :
      (s : Selection F) (t : TierQueue F) (now : F)
      → Perm (tier_events t) (tier_events (maybe_resort s t now))
  unfolding maybe_resort tier_events
  maybe_resort-perm s t now = elim (Bool-cases (no_resort t now)) [
    | inl h ↦ rw h (Perm.refl (t.settled ++ t.pending))
    | inr h ↦
        rw (h, append-nil (sort (sort_order s now) (t.settled ++ t.pending)))
          (Perm.symm (sort-perm (sort_order s now) (t.settled ++ t.pending)))
  ]

  picked-Takes :
      (s : Selection F) (t : TierQueue F) (now : F) (b : Option (Event F))
      (l : Option (Event F × List (Event F)))
      → IsEquality s.equal
      → Takes t (pick_against s t now b l)
  unfolding pick_against
  picked-Takes s t now none l law = pop_settled-Takes t
  picked-Takes s t now (some b) none law = taken-Takes s.equal t b law
  picked-Takes s t now (some b) (some (last, rest)) law =
      elim (Bool-cases (better_score s now b last)) [
        | inl h ↦ rw h (taken-Takes s.equal t b law)
        | inr h ↦ rw h (pop_settled-Takes t)
      ]

  pub pop_best_by_score-Takes :
      (s : Selection F) (t : TierQueue F) (now : F)
      → IsEquality s.equal
      → Takes t (pop_best_by_score s t now)
  unfolding pop_best_by_score pick_by_score
  pop_best_by_score-Takes s t now law =
      let u = maybe_resort s t now in
      Takes-perm t u _ (maybe_resort-perm s t now) (
        picked-Takes s u now (best_from (better_score s now) none u.pending) (pop_last u.settled)
          law)

-- everything that is queued
abbrev pub all_events : {F : Type 0} → EventQueue F → List (Event F)
all_events q = tier_events q.p0_queue ++ (tier_events q.p1_queue ++ tier_events q.p2_queue)

module _ {F : Type 0} where
  abbrev pub TakesOne : EventQueue F → Option (Event F × EventQueue F) → Type 0
  TakesOne q none = Unit
  TakesOne q (some (e, rest)) =
      Perm (all_events q) (e ∷ all_events rest) × (rest.unfinished ≡ q.unfinished)

  pub from_p0-TakesOne :
      (q : EventQueue F) (o : Option (Event F × TierQueue F))
      → Takes q.p0_queue o
      → TakesOne q (from_p0 q o)
  unfolding from_p0
  from_p0-TakesOne q none k = tt
  from_p0-TakesOne q (some (e, t)) k =
      (Perm.append k (Perm.refl (tier_events q.p1_queue ++ tier_events q.p2_queue)), refl)

  pub from_p1-TakesOne :
      (q : EventQueue F) (o : Option (Event F × TierQueue F))
      → Takes q.p1_queue o
      → TakesOne q (from_p1 q o)
  unfolding from_p1
  from_p1-TakesOne q none k = tt
  from_p1-TakesOne q (some (e, t)) k = (
    Perm.trans
        (Perm.append (Perm.refl (tier_events q.p0_queue))
          (Perm.append k (Perm.refl (tier_events q.p2_queue))))
        (perm_middle (tier_events q.p0_queue) (tier_events t ++ tier_events q.p2_queue)),
    refl,
  )

  pub from_p2-TakesOne :
      (q : EventQueue F) (o : Option (Event F × TierQueue F))
      → Takes q.p2_queue o
      → TakesOne q (from_p2 q o)
  unfolding from_p2
  from_p2-TakesOne q none k = tt
  from_p2-TakesOne q (some (e, t)) k = (
    Perm.trans
        (Perm.append (Perm.refl (tier_events q.p0_queue)) (
          Perm.trans (Perm.append (Perm.refl (tier_events q.p1_queue)) k)
            (perm_middle (tier_events q.p1_queue) (tier_events t))))
        (perm_middle (tier_events q.p0_queue) (tier_events q.p1_queue ++ tier_events t)),
    refl,
  )

module _ {F : Type 0} ⦃fl : Floats F⦄ where
  take_lower-TakesOne :
      (s : Selection F) (q : EventQueue F) (now : F)
      → IsEquality s.equal
      → TakesOne q (take_lower s q now)
  unfolding take_lower
  take_lower-TakesOne s q now law = elim (Bool-cases (is_empty (tier_events q.p1_queue))) [
    | inl h ↦ elim (Bool-cases (is_empty (tier_events q.p2_queue))) [
      | inl k ↦ rw (h, k) tt
      | inr k ↦ rw (h, k) (from_p2-TakesOne q _ (pop_best_by_score-Takes s q.p2_queue now law))
    ]
    | inr h ↦ rw h (from_p1-TakesOne q _ (pop_best_by_score-Takes s q.p1_queue now law))
  ]

  take_aged-TakesOne :
      (s : Selection F) (q : EventQueue F) (now : F) (o : Option (Event F))
      → IsEquality s.equal
      → TakesOne q (take_aged s q now o)
  unfolding take_aged
  take_aged-TakesOne s q now none law = take_lower-TakesOne s q now law
  take_aged-TakesOne s q now (some e) law =
      elim (Bool-cases (q.aging_guard_seconds ≤? now ⊖ e.ingest_ts)) [
        | inl h ↦ rw h (from_p2-TakesOne q _ (taken-Takes s.equal q.p2_queue e law))
        | inr h ↦ rw h (take_lower-TakesOne s q now law)
      ]

  -- Where events that == identifies are identical, an event that the adaptive selection takes
  -- and the events that it leaves are together, up to order, the events that were queued, and
  -- the count of unfinished tasks is unchanged.
  pub take_adaptive-TakesOne :
      (s : Selection F) (q : EventQueue F) (now : F)
      → IsEquality s.equal
      → TakesOne q (take_adaptive s q now)
  unfolding take_adaptive
  take_adaptive-TakesOne s q now law = elim (Bool-cases (is_empty (tier_events q.p0_queue))) [
    | inl h ↦ rw h (take_aged-TakesOne s q now _ law)
    | inr h ↦ rw h (from_p0-TakesOne q _ (pop_best_by_score-Takes s q.p0_queue now law))
  ]
