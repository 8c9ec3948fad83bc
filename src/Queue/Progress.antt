-- ===== src/Queue/Progress.antt =====
-- The adaptive selection succeeds on every queue that is not empty.
use mathlib.Core.List.{append-nil}
use vh26_crackers.Base.{
  ◌≡◌, refl, Bool, true, false, ◌||◌, List, [], ◌∷◌, ◌++◌, Option, none, some, Floats, Bool-cases,
  inl, inr, arith, sort, length-sort, length, not, ◌&&◌, ◌<?◌, ◌∙◌,
}
use vh26_crackers.Contracts.{Event}
use vh26_crackers.Queue.{
  TierQueue, EventQueue, Selection, tier_events, remove_first, remove_event, with_settled,
  with_pending, and_event, push_front, settled_popped, no_resort, pick_against, take_aged,
  best_from, pop_last, taken, pop_settled, is_empty, sort_order, better_score, maybe_resort,
  pick_by_score, pop_best_by_score, from_p0, from_p1, from_p2, take_lower, take_adaptive,
}

abbrev pub is_some : {A : Type 0} → Option A → Bool
is_some none = false
is_some (some x) = true

-- `==` holds between an event and itself.
abbrev pub IsReflexive : {F : Type 0} → (Event F → Event F → Bool) → Type 0
IsReflexive {F} equal = (a : Event F) → equal a a ≡ true

module _ {F : Type 0} (equal : Event F → Event F → Bool) where
  unfoldable has : Event F → List (Event F) → Bool
  has e [] = false
  has e (x ∷ xs) = equal x e || has e xs

  has-append : (e : Event F) (xs ys : List (Event F)) → has e (xs ++ ys) ≡ (has e xs || has e ys)
  unfolding has
  has-append e [] ys = refl
  has-append e (x ∷ xs) ys = ground (arith, has-append e xs ys)

  removable :
      (e : Event F) (xs : List (Event F))
      → has e xs ≡ true
      → is_some (remove_first equal e xs) ≡ true
  unfolding has remove_first
  removable e [] h = cc h
  removable e (x ∷ xs) h = ground (arith, removable e xs)

  -- what a scan finds is one of the events that it went through
  abbrev Found : List (Event F) → Option (Event F) → Type 0
  Found xs none = xs ≡ []
  Found xs (some b) = has b xs ≡ true

  Found-cons :
      (b x : Event F) (xs : List (Event F)) (o : Option (Event F))
      → Found (x ∷ xs) o
      → Found (b ∷ x ∷ xs) o
  unfolding has
  Found-cons b x xs none h = cc h
  Found-cons b x xs (some c) h = ground (arith, h)

  Found-skip :
      (b x : Event F) (xs : List (Event F)) (o : Option (Event F))
      → Found (b ∷ xs) o
      → Found (b ∷ x ∷ xs) o
  unfolding has
  Found-skip b x xs none h = cc h
  Found-skip b x xs (some c) h = ground (arith, h)

  Found-best_from :
      (better : Event F → Event F → Bool) (b : Event F) (xs : List (Event F))
      → IsReflexive equal
      → Found (b ∷ xs) (best_from better (some b) xs)
  unfolding best_from has
  Found-best_from better b [] law = ground (arith, law b)
  Found-best_from better b (x ∷ xs) law = elim (Bool-cases (better x b)) [
    | inl h ↦ rw h (Found-cons b x xs _ (Found-best_from better x xs law))
    | inr h ↦ rw h (Found-skip b x xs _ (Found-best_from better b xs law))
  ]

  Found-best_none :
      (better : Event F → Event F → Bool) (xs : List (Event F))
      → IsReflexive equal
      → Found xs (best_from better none xs)
  unfolding best_from
  Found-best_none better [] law = refl
  Found-best_none better (x ∷ xs) law = Found-best_from better x xs law

  some_removed :
      (t : TierQueue F) (e : Event F) (o p : Option (List (Event F)))
      → (is_some o || is_some p) ≡ true
      → is_some (and_event e (with_pending t (with_settled t o) p)) ≡ true
  unfolding and_event with_pending with_settled
  some_removed t e none none h = cc h
  some_removed t e none (some p) h = refl
  some_removed t e (some o) none h = refl
  some_removed t e (some o) (some p) h = refl

  taken_succeeds :
      (t : TierQueue F) (e : Event F)
      → has e (tier_events t) ≡ true
      → is_some (taken equal t e) ≡ true
  unfolding taken remove_event tier_events with_settled with_pending and_event
  taken_succeeds t e h =
      some_removed t e (remove_first equal e t.settled) (remove_first equal e t.pending) (
        ground
          (arith, has-append e t.settled t.pending, removable e t.settled, removable e t.pending))

module _ {F : Type 0} where
  push_front_succeeds :
      (x : Event F) (o : Option (Event F × List (Event F))) → is_some (push_front x o) ≡ true
  unfolding push_front
  push_front_succeeds x none = refl
  push_front_succeeds x (some (e, rest)) = refl

  popped_succeeds :
      (t : TierQueue F) (o : Option (Event F × List (Event F)))
      → is_some (settled_popped t o) ≡ is_some o
  unfolding settled_popped
  popped_succeeds t none = refl
  popped_succeeds t (some (e, rest)) = refl

  pop_last_succeeds : (xs : List (Event F)) → is_some (pop_last xs) ≡ not (is_empty xs)
  unfolding pop_last
  pop_last_succeeds [] = refl
  pop_last_succeeds (x ∷ xs) = push_front_succeeds x (pop_last xs)

  pop_succeeds : (t : TierQueue F) → is_empty t.settled ≡ false → is_some (pop_settled t) ≡ true
  unfolding pop_settled
  pop_succeeds t h =
      ground (arith, popped_succeeds t (pop_last t.settled), pop_last_succeeds t.settled)

module _ {F : Type 0} ⦃fl : Floats F⦄ where
  empty-append : (xs ys : List (Event F)) → is_empty (xs ++ ys) ≡ (is_empty xs && is_empty ys)
  empty-append [] ys = refl
  empty-append (x ∷ xs) ys = refl

  empty_iff-length : (xs ys : List (Event F)) → length xs ≡ length ys → is_empty xs ≡ is_empty ys
  empty_iff-length [] [] h = refl
  empty_iff-length [] (y ∷ ys) h = ground (arith, h)
  empty_iff-length (x ∷ xs) [] h = ground (arith, h)
  empty_iff-length (x ∷ xs) (y ∷ ys) h = refl

  resort_keeps :
      (s : Selection F) (t : TierQueue F) (now : F)
      → is_empty (tier_events (maybe_resort s t now)) ≡ is_empty (tier_events t)
  unfolding tier_events maybe_resort
  resort_keeps s t now = elim (Bool-cases (no_resort t now)) [
    | inl h ↦ rw h refl
    | inr h ↦
        rw (h, append-nil (sort (sort_order s now) (t.settled ++ t.pending)))
          (empty_iff-length _ (t.settled ++ t.pending)
            (length-sort (sort_order s now) (t.settled ++ t.pending)))
  ]

  pending_found :
      (s : Selection F) (t : TierQueue F) (b : Event F)
      → has s.equal b t.pending ≡ true
      → has s.equal b (tier_events t) ≡ true
  unfolding tier_events
  pending_found s t b h = ground (arith, has-append s.equal b t.settled t.pending)

  pick_succeeds :
      (s : Selection F) (t : TierQueue F) (now : F) (b : Option (Event F))
      (l : Option (Event F × List (Event F)))
      → Found s.equal t.pending b
      → is_empty (tier_events t) ≡ false
      → is_some l ≡ not (is_empty t.settled)
      → is_some (pick_against s t now b l) ≡ true
  unfolding pick_against tier_events
  pick_succeeds s t now none l f h k =
      pop_succeeds t (ground (arith, empty-append t.settled t.pending, f, h))
  pick_succeeds s t now (some b) none f h k = taken_succeeds s.equal t b (pending_found s t b f)
  pick_succeeds s t now (some b) (some (last, rest)) f h k = ground (
    arith,
    taken_succeeds s.equal t b (pending_found s t b f),
    pop_succeeds t (ground (arith, k)),
  )

  pub pop_best_succeeds :
      (s : Selection F) (t : TierQueue F) (now : F)
      → IsReflexive s.equal
      → is_empty (tier_events t) ≡ false
      → is_some (pop_best_by_score s t now) ≡ true
  unfolding pop_best_by_score pick_by_score
  pop_best_succeeds s t now law h =
      let u = maybe_resort s t now in
      pick_succeeds s u now (best_from (better_score s now) none u.pending) (pop_last u.settled)
        (Found-best_none s.equal (better_score s now) u.pending law) (resort_keeps s t now ∙ h)
        (pop_last_succeeds u.settled)

  p0_same :
      (q : EventQueue F) (o : Option (Event F × TierQueue F)) → is_some (from_p0 q o) ≡ is_some o
  unfolding from_p0
  p0_same q none = refl
  p0_same q (some (e, t)) = refl

  p1_same :
      (q : EventQueue F) (o : Option (Event F × TierQueue F)) → is_some (from_p1 q o) ≡ is_some o
  unfolding from_p1
  p1_same q none = refl
  p1_same q (some (e, t)) = refl

  p2_same :
      (q : EventQueue F) (o : Option (Event F × TierQueue F)) → is_some (from_p2 q o) ≡ is_some o
  unfolding from_p2
  p2_same q none = refl
  p2_same q (some (e, t)) = refl

  -- whether nothing is queued below P0
  abbrev pub lower_empty : EventQueue F → Bool
  lower_empty q = is_empty (tier_events q.p1_queue) && is_empty (tier_events q.p2_queue)

  lower_succeeds :
      (s : Selection F) (q : EventQueue F) (now : F)
      → IsReflexive s.equal
      → is_some (take_lower s q now) ≡ not (lower_empty q)
  unfolding take_lower
  lower_succeeds s q now law = ground (
    arith,
    p1_same q (pop_best_by_score s q.p1_queue now),
    p2_same q (pop_best_by_score s q.p2_queue now),
    pop_best_succeeds s q.p1_queue now law,
    pop_best_succeeds s q.p2_queue now law,
  )

  empty_has :
      (equal : Event F → Event F → Bool) (e : Event F) (xs : List (Event F))
      → has equal e xs ≡ true
      → is_empty xs ≡ false
  unfolding has
  empty_has equal e [] h = cc h
  empty_has equal e (x ∷ xs) h = refl

  aged_succeeds :
      (s : Selection F) (q : EventQueue F) (now : F) (o : Option (Event F))
      → IsReflexive s.equal
      → Found s.equal (tier_events q.p2_queue) o
      → is_some (take_aged s q now o) ≡ not (lower_empty q)
  unfolding take_aged
  aged_succeeds s q now none law f = lower_succeeds s q now law
  aged_succeeds s q now (some e) law f = ground (
    arith,
    lower_succeeds s q now law,
    p2_same q (taken s.equal q.p2_queue e),
    taken_succeeds s.equal q.p2_queue e f,
    empty_has s.equal e (tier_events q.p2_queue) f,
  )

  -- Where == holds between an event and itself, the adaptive selection takes an event exactly
  -- when one of the three tiers is not empty.
  pub take_adaptive_succeeds :
      (s : Selection F) (q : EventQueue F) (now : F)
      → IsReflexive s.equal
      → is_some (take_adaptive s q now) ≡ not (is_empty (tier_events q.p0_queue) && lower_empty q)
  unfolding take_adaptive
  take_adaptive_succeeds s q now law =
      let o = best_from (λ a b. a.ingest_ts <? b.ingest_ts) none (tier_events q.p2_queue) in
      ground (
        arith,
        p0_same q (pop_best_by_score s q.p0_queue now),
        pop_best_succeeds s q.p0_queue now law,
        aged_succeeds s q now o law (
            Found-best_none s.equal (λ a b. a.ingest_ts <? b.ingest_ts) (tier_events q.p2_queue)
              law),
      )
