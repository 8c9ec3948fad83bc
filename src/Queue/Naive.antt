-- ===== src/Queue/Naive.antt =====
-- src/triage/queue.py: the naive selection, the mode, and what the queue does besides selecting.
-- The two asyncio events of the class, which only wake waiting tasks, are left out.
use mathlib.Core.List.Perm
use mathlib.Core.List.{append-nil, append_assoc, perm_middle, perm_append_singleton}
use vh26_crackers.Base.{
  ℕ, ◌-◌, ◌≤◌, ◌≡◌, refl, Bool, ltb, ◌==◌, List, [], ◌∷◌, ◌++◌, length, subst, Option, none, some,
  Floats, All, All-append, All-map, Perm, arith, if◌then◌else◌, Bool-cases, inl, inr,
}
use vh26_crackers.Contracts.{Event, Tier, p0, p1, p2, Mode, adaptive, naive}
use vh26_crackers.Queue.{
  TierQueue, EventQueue, Selection, append, enqueue_at, enqueue, tier_events, qsize, taken,
  and_event, from_p0, from_p1, from_p2, take_adaptive,
}
use vh26_crackers.Queue.Taking.{
  IsEquality, TakesOne, all_events, taken-Takes, from_p0-TakesOne, from_p1-TakesOne,
  from_p2-TakesOne, take_adaptive-TakesOne,
}

module _ {F : Type 0} where
  -- the inner loop, for the candidates of one tier
  unfoldable pub earliest_of :
      Tier → List (Event F) → Option (Tier × Event F) → Option (Tier × Event F)
  earliest_of t [] best = best
  earliest_of t (x ∷ xs) none = earliest_of t xs (some (t, x))
  earliest_of t (x ∷ xs) (some (u, best)) =
      earliest_of t xs (if ltb x.seq best.seq then some (t, x) else some (u, best))

  unfoldable pub earliest : EventQueue F → Option (Tier × Event F)
  unfolding earliest_of tier_events
  earliest q =
      let of_p0 = earliest_of p0 (tier_events q.p0_queue) none in
      let of_p1 = earliest_of p1 (tier_events q.p1_queue) of_p0 in
      earliest_of p2 (tier_events q.p2_queue) of_p1

  unfoldable pub remove_best :
      (Event F → Event F → Bool)
      → EventQueue F
      → Option (Tier × Event F)
      → Option (Event F × EventQueue F)
  unfolding taken from_p0 from_p1 from_p2
  remove_best equal q none = none
  remove_best equal q (some (p0, e)) = from_p0 q (taken equal q.p0_queue e)
  remove_best equal q (some (p1, e)) = from_p1 q (taken equal q.p1_queue e)
  remove_best equal q (some (p2, e)) = from_p2 q (taken equal q.p2_queue e)

  unfoldable pub take_naive :
      (Event F → Event F → Bool) → EventQueue F → Option (Event F × EventQueue F)
  unfolding earliest remove_best
  take_naive equal q = remove_best equal q (earliest q)

  unfoldable pub set_mode : EventQueue F → Mode → EventQueue F
  set_mode q mode = record q { mode = mode }

  -- none is the `ValueError` of a call too many
  unfoldable pub task_done : EventQueue F → Option (EventQueue F)
  task_done q =
      if q.unfinished == 0 then none else some (record q { unfinished = q.unfinished - 1 })

  abbrev pub cleared : TierQueue F → TierQueue F
  cleared t = record t { settled = []; pending = [] }

  -- `dropped` never exceeds the unfinished count, so the subtraction is that of the integers
  unfoldable pub clear : EventQueue F → EventQueue F
  unfolding qsize
  clear q = record q {
    p0_queue = cleared q.p0_queue;
    p1_queue = cleared q.p1_queue;
    p2_queue = cleared q.p2_queue;
    unfinished = q.unfinished - qsize q;
  }

  abbrev pub tier_depth : Tier → EventQueue F → ℕ
  tier_depth p0 q = length (tier_events q.p0_queue)
  tier_depth p1 q = length (tier_events q.p1_queue)
  tier_depth p2 q = length (tier_events q.p2_queue)

module _ {F : Type 0} ⦃fl : Floats F⦄ where
  unfoldable pub take_by : Mode → Selection F → EventQueue F → F → Option (Event F × EventQueue F)
  unfolding take_naive take_adaptive
  take_by naive s q now = take_naive s.equal q
  take_by adaptive s q now = take_adaptive s q now

  unfoldable pub try_take : Selection F → EventQueue F → F → Option (Event F × EventQueue F)
  unfolding take_by
  try_take s q now = take_by q.mode s q now

module _ {F : Type 0} where
  append-perm :
      (e : Event F) (t : TierQueue F) → Perm (tier_events (append e t)) (e ∷ tier_events t)
  unfolding append tier_events
  append-perm e t =
      Perm.trans (Perm.append (Perm.refl t.settled) (perm_append_singleton e t.pending))
        (perm_middle t.settled t.pending)

  at-perm :
      (t : Tier) (q : EventQueue F) (e : Event F)
      → Perm (all_events (enqueue_at t q e)) (e ∷ all_events q)
  unfolding enqueue_at
  at-perm p0 q e =
      Perm.append (append-perm e q.p0_queue)
        (Perm.refl (tier_events q.p1_queue ++ tier_events q.p2_queue))
  at-perm p1 q e =
      Perm.trans
        (Perm.append (Perm.refl (tier_events q.p0_queue))
          (Perm.append (append-perm e q.p1_queue) (Perm.refl (tier_events q.p2_queue))))
        (perm_middle (tier_events q.p0_queue) (tier_events q.p1_queue ++ tier_events q.p2_queue))
  at-perm p2 q e =
      Perm.trans
        (Perm.append (Perm.refl (tier_events q.p0_queue)) (
          Perm.trans (Perm.append (Perm.refl (tier_events q.p1_queue)) (append-perm e q.p2_queue))
            (perm_middle (tier_events q.p1_queue) (tier_events q.p2_queue))))
        (perm_middle (tier_events q.p0_queue) (tier_events q.p1_queue ++ tier_events q.p2_queue))

  -- an event that is put in is queued beside the others
  pub enqueue-perm :
      (q : EventQueue F) (e : Event F) → Perm (all_events (enqueue q e)) (e ∷ all_events q)
  unfolding enqueue
  enqueue-perm q e = at-perm e.tier q e

  -- the member that is found so far comes before all that were seen
  abbrev Foremost : List (Event F) → Option (Tier × Event F) → Type 0
  Foremost seen none = seen ≡ []
  Foremost seen (some (t, e)) = All (λ x. e.seq ≤ x.seq) seen

  earliest_of-Foremost :
      (t : Tier) (xs seen : List (Event F)) (best : Option (Tier × Event F))
      → Foremost seen best
      → Foremost (seen ++ xs) (earliest_of t xs best)
  unfolding earliest_of
  earliest_of-Foremost t [] seen best h = rw (append-nil seen) h
  earliest_of-Foremost t (x ∷ xs) seen none h =
      rw h (earliest_of-Foremost t xs (x ∷ []) (some (t, x)) (omega arith, tt))
  earliest_of-Foremost t (x ∷ xs) seen (some (u, b)) h =
      subst (λ zs. Foremost zs (earliest_of t (x ∷ xs) (some (u, b))))
        (append_assoc seen (x ∷ []) xs)
        (earliest_of-Foremost t xs (seen ++ x ∷ [])
          (if ltb x.seq b.seq then some (t, x) else some (u, b))
          (elim (Bool-cases (ltb x.seq b.seq)) [
            | inl h' ↦ rw h' (
                All-append (λ y. x.seq ≤ y.seq) seen (x ∷ [])
                  (All-map (λ y. b.seq ≤ y.seq) (λ y. x.seq ≤ y.seq) (λ y k. ground arith) seen h)
                  (omega arith, tt))
            | inr h' ↦ rw h' (All-append (λ y. b.seq ≤ y.seq) seen (x ∷ []) h (ground arith, tt))
          ]))

  -- what is handed out comes before everything that was queued
  abbrev pub HandsOutFirst : EventQueue F → Option (Event F × EventQueue F) → Type 0
  HandsOutFirst q none = Unit
  HandsOutFirst q (some (e, rest)) = All (λ x. e.seq ≤ x.seq) (all_events q)

  earliest-Foremost : (q : EventQueue F) → Foremost (all_events q) (earliest q)
  unfolding earliest
  earliest-Foremost q =
      subst (λ zs. Foremost zs (earliest q))
        (append_assoc (tier_events q.p0_queue) (tier_events q.p1_queue) (tier_events q.p2_queue))
        (earliest_of-Foremost p2 (tier_events q.p2_queue)
          (tier_events q.p0_queue ++ tier_events q.p1_queue) _
          (earliest_of-Foremost p1 (tier_events q.p1_queue) (tier_events q.p0_queue) _
            (earliest_of-Foremost p0 (tier_events q.p0_queue) [] none refl)))

  from_p0-First :
      (q : EventQueue F) (e : Event F) (o : Option (TierQueue F))
      → All (λ x. e.seq ≤ x.seq) (all_events q)
      → HandsOutFirst q (from_p0 q (and_event e o))
  unfolding from_p0 and_event
  from_p0-First q e none h = tt
  from_p0-First q e (some t) h = h

  from_p1-First :
      (q : EventQueue F) (e : Event F) (o : Option (TierQueue F))
      → All (λ x. e.seq ≤ x.seq) (all_events q)
      → HandsOutFirst q (from_p1 q (and_event e o))
  unfolding from_p1 and_event
  from_p1-First q e none h = tt
  from_p1-First q e (some t) h = h

  from_p2-First :
      (q : EventQueue F) (e : Event F) (o : Option (TierQueue F))
      → All (λ x. e.seq ≤ x.seq) (all_events q)
      → HandsOutFirst q (from_p2 q (and_event e o))
  unfolding from_p2 and_event
  from_p2-First q e none h = tt
  from_p2-First q e (some t) h = h

  remove_best-First :
      (equal : Event F → Event F → Bool) (q : EventQueue F) (o : Option (Tier × Event F))
      → Foremost (all_events q) o
      → HandsOutFirst q (remove_best equal q o)
  unfolding remove_best taken
  remove_best-First equal q none h = tt
  remove_best-First equal q (some (p0, e)) h = from_p0-First q e _ h
  remove_best-First equal q (some (p1, e)) h = from_p1-First q e _ h
  remove_best-First equal q (some (p2, e)) h = from_p2-First q e _ h

  -- An event that the naive selection hands out has the least sequence number of all the events
  -- in the queue, whatever their tiers are.
  pub take_naive-HandsOutFirst :
      (equal : Event F → Event F → Bool) (q : EventQueue F) → HandsOutFirst q (take_naive equal q)
  unfolding take_naive
  take_naive-HandsOutFirst equal q = remove_best-First equal q (earliest q) (earliest-Foremost q)

  remove_best-TakesOne :
      (equal : Event F → Event F → Bool) (q : EventQueue F) (o : Option (Tier × Event F))
      → IsEquality equal
      → TakesOne q (remove_best equal q o)
  unfolding remove_best
  remove_best-TakesOne equal q none law = tt
  remove_best-TakesOne equal q (some (p0, e)) law =
      from_p0-TakesOne q _ (taken-Takes equal q.p0_queue e law)
  remove_best-TakesOne equal q (some (p1, e)) law =
      from_p1-TakesOne q _ (taken-Takes equal q.p1_queue e law)
  remove_best-TakesOne equal q (some (p2, e)) law =
      from_p2-TakesOne q _ (taken-Takes equal q.p2_queue e law)

module _ {F : Type 0} ⦃fl : Floats F⦄ where
  by-TakesOne :
      (mode : Mode) (s : Selection F) (q : EventQueue F) (now : F)
      → IsEquality s.equal
      → TakesOne q (take_by mode s q now)
  unfolding take_by take_naive
  by-TakesOne naive s q now law = remove_best-TakesOne s.equal q (earliest q) law
  by-TakesOne adaptive s q now law = take_adaptive-TakesOne s q now law

  -- Where events that == identifies are identical, an event that the queue hands out in either
  -- mode and the events that it keeps are together, up to order, the events that were queued.
  pub try_take-TakesOne :
      (s : Selection F) (q : EventQueue F) (now : F)
      → IsEquality s.equal
      → TakesOne q (try_take s q now)
  unfolding try_take
  try_take-TakesOne s q now law = by-TakesOne q.mode s q now law
