-- ===== src/Queue.antt =====
-- src/triage/queue.py: the selection of the next event. The clock is an argument of each call, and
-- equality of events, which `list.remove` uses, is Python's and a parameter.
pub mod Taking
pub mod Priority
pub mod Progress
pub mod Naive
use vh26_crackers.Base.{
  ℕ, suc, ◌+◌, ◌-◌, ltb, ◌==◌, Bool, true, false, not, ◌&&◌, ◌||◌, List, [], ◌∷◌, ◌++◌, length,
  Option, none, some, Floats, ◌≤?◌, ◌<?◌, ◌⊖◌, ◌⊕◌, of_int, if◌then◌else◌, sort,
}
use vh26_crackers.Contracts.{Event, Tier, p0, p1, p2, Mode, adaptive, naive}
use vh26_crackers.Decision.{ScoreWeights, score}

-- `_settled`, `_pending` and `_resort_ts` of one tier; the tail of `settled` is served first.
pub record TierQueue (F : Type 0) : Type 0 where
  pub settled : List (Event F)
  pub pending : List (Event F)
  pub resort_ts : F

pub record EventQueue (F : Type 0) : Type 0 where
  pub p0_queue : TierQueue F
  pub p1_queue : TierQueue F
  pub p2_queue : TierQueue F
  pub mode : Mode
  pub aging_guard_seconds : F
  pub unfinished : ℕ

-- What a selection reads: the capacity of a worker, the live weights, the learned costs, and `==`.
pub record Selection (F : Type 0) : Type 0 where
  pub capacity : F
  pub weights : ScoreWeights F
  pub estimate : Event F → Option F
  pub equal : Event F → Event F → Bool

module _ {F : Type 0} where
  unfoldable pub tier_events : TierQueue F → List (Event F)
  tier_events t = t.settled ++ t.pending

  unfoldable pub qsize : EventQueue F → ℕ
  unfolding tier_events
  qsize q =
      length (tier_events q.p0_queue)
      + length (tier_events q.p1_queue)
      + length (tier_events q.p2_queue)

  unfoldable pub append : Event F → TierQueue F → TierQueue F
  append e t = record t { pending = t.pending ++ e ∷ [] }

  unfoldable pub enqueue_at : Tier → EventQueue F → Event F → EventQueue F
  unfolding append
  enqueue_at p0 q e = record q { p0_queue = append e q.p0_queue; unfinished = q.unfinished + 1 }
  enqueue_at p1 q e = record q { p1_queue = append e q.p1_queue; unfinished = q.unfinished + 1 }
  enqueue_at p2 q e = record q { p2_queue = append e q.p2_queue; unfinished = q.unfinished + 1 }

  unfoldable pub enqueue : EventQueue F → Event F → EventQueue F
  unfolding enqueue_at
  enqueue q e = enqueue_at e.tier q e

  -- `xs.remove(e)`: the first that is equal goes, or a `ValueError`
  unfoldable pub remove_first :
      (Event F → Event F → Bool) → Event F → List (Event F) → Option (List (Event F))
  remove_first equal e [] = none
  remove_first equal e (x ∷ xs) =
      let rest = remove_first equal e xs in
      if equal x e then some xs else elim rest [ none ↦ none | some ys ↦ some (x ∷ ys) ]

  unfoldable pub with_settled : TierQueue F → Option (List (Event F)) → Option (TierQueue F)
  with_settled t none = none
  with_settled t (some rest) = some (record t { settled = rest })

  unfoldable pub with_pending :
      TierQueue F → Option (TierQueue F) → Option (List (Event F)) → Option (TierQueue F)
  with_pending t otherwise none = otherwise
  with_pending t otherwise (some rest) = some (record t { pending = rest })

  -- `_remove`: from the pending events, or else from the settled ones
  unfoldable pub remove_event :
      (Event F → Event F → Bool) → TierQueue F → Event F → Option (TierQueue F)
  unfolding remove_first with_settled with_pending
  remove_event equal t e =
      with_pending t (with_settled t (remove_first equal e t.settled))
        (remove_first equal e t.pending)

  -- the member that comes out of a scan which keeps its best so far
  unfoldable pub best_from :
      (Event F → Event F → Bool) → Option (Event F) → List (Event F) → Option (Event F)
  best_from better best [] = best
  best_from better none (x ∷ xs) = best_from better (some x) xs
  best_from better (some b) (x ∷ xs) = best_from better (if better x b then some x else some b) xs

  abbrev pub earlier_seq : Event F → Event F → Bool
  earlier_seq a b = ltb a.seq b.seq

  -- the queue around what was taken from one tier
  unfoldable pub from_p0 :
      EventQueue F → Option (Event F × TierQueue F) → Option (Event F × EventQueue F)
  from_p0 q none = none
  from_p0 q (some (e, t)) = some (e, record q { p0_queue = t })

  unfoldable pub from_p1 :
      EventQueue F → Option (Event F × TierQueue F) → Option (Event F × EventQueue F)
  from_p1 q none = none
  from_p1 q (some (e, t)) = some (e, record q { p1_queue = t })

  unfoldable pub from_p2 :
      EventQueue F → Option (Event F × TierQueue F) → Option (Event F × EventQueue F)
  from_p2 q none = none
  from_p2 q (some (e, t)) = some (e, record q { p2_queue = t })

  unfoldable pub push_front :
      Event F → Option (Event F × List (Event F)) → Option (Event F × List (Event F))
  push_front x none = some (x, [])
  push_front x (some (e, rest)) = some (e, x ∷ rest)

  -- `settled.pop()`: the last event, and the others
  unfoldable pub pop_last : List (Event F) → Option (Event F × List (Event F))
  unfolding push_front
  pop_last [] = none
  pop_last (x ∷ xs) = push_front x (pop_last xs)

  abbrev pub is_empty : List (Event F) → Bool
  is_empty [] = true
  is_empty (x ∷ xs) = false

  unfoldable pub and_event : Event F → Option (TierQueue F) → Option (Event F × TierQueue F)
  and_event e none = none
  and_event e (some rest) = some (e, rest)

  -- `_remove` of an event that a scan has found, with the event
  unfoldable pub taken :
      (Event F → Event F → Bool) → TierQueue F → Event F → Option (Event F × TierQueue F)
  unfolding remove_event and_event
  taken equal t e = and_event e (remove_event equal t e)

  unfoldable pub settled_popped :
      TierQueue F → Option (Event F × List (Event F)) → Option (Event F × TierQueue F)
  settled_popped t none = none
  settled_popped t (some (e, rest)) = some (e, record t { settled = rest })

  unfoldable pub pop_settled : TierQueue F → Option (Event F × TierQueue F)
  unfolding settled_popped pop_last
  pop_settled t = settled_popped t (pop_last t.settled)

module _ {F : Type 0} ⦃fl : Floats F⦄ where
  abbrev pub resort_interval_seconds : F
  resort_interval_seconds = fl.lit 5 2

  abbrev pub score_of : Selection F → F → Event F → F
  score_of s now e = score e now s.capacity s.weights (s.estimate e)

  -- the order of the sort, by `(score, -seq)`
  unfoldable pub sort_order : Selection F → F → Event F → Event F → Bool
  sort_order s now a b =
      score_of s now a <? score_of s now b
      || (score_of s now a ≤? score_of s now b && not (ltb a.seq b.seq))

  -- a higher score, or the same score and an earlier arrival
  unfoldable pub better_score : Selection F → F → Event F → Event F → Bool
  better_score s now a b =
      score_of s now b <? score_of s now a
      || ((score_of s now a ≤? score_of s now b && score_of s now b ≤? score_of s now a)
          && ltb a.seq b.seq)

  -- the two early returns: nothing is new, or the last sort is recent, and something is settled
  unfoldable pub no_resort : TierQueue F → F → Bool
  no_resort t now =
      (is_empty t.pending && not (is_empty t.settled))
      || (now ⊖ t.resort_ts <? resort_interval_seconds && not (is_empty t.settled))

  unfoldable pub maybe_resort : Selection F → TierQueue F → F → TierQueue F
  unfolding sort_order no_resort
  maybe_resort s t now = if no_resort t now then t else record {
    settled = sort (sort_order s now) (t.settled ++ t.pending);
    pending = [];
    resort_ts = now;
  }

  -- the best pending event against the last settled one
  unfoldable pub pick_against :
      Selection F
      → TierQueue F
      → F
      → Option (Event F)
      → Option (Event F × List (Event F))
      → Option (Event F × TierQueue F)
  unfolding better_score taken pop_settled
  pick_against s t now none last = pop_settled t
  pick_against s t now (some best) none = taken s.equal t best
  pick_against s t now (some best) (some (last, rest)) =
      if better_score s now best last then taken s.equal t best else pop_settled t

  unfoldable pub pick_by_score : Selection F → TierQueue F → F → Option (Event F × TierQueue F)
  unfolding best_from better_score pick_against pop_last
  pick_by_score s t now =
      pick_against s t now (best_from (better_score s now) none t.pending) (pop_last t.settled)

  unfoldable pub pop_best_by_score : Selection F → TierQueue F → F → Option (Event F × TierQueue F)
  unfolding maybe_resort pick_by_score
  pop_best_by_score s t now = pick_by_score s (maybe_resort s t now) now

  -- P1 and P2, once the aging guard has not fired
  unfoldable pub take_lower : Selection F → EventQueue F → F → Option (Event F × EventQueue F)
  unfolding tier_events from_p1 from_p2 pop_best_by_score
  take_lower s q now =
      if not (is_empty (tier_events q.p1_queue))
      then from_p1 q (pop_best_by_score s q.p1_queue now)
      else if not (is_empty (tier_events q.p2_queue))
      then from_p2 q (pop_best_by_score s q.p2_queue now)
      else none

  -- P2 first, if its oldest event has waited for as long as the aging guard
  unfoldable pub take_aged :
      Selection F → EventQueue F → F → Option (Event F) → Option (Event F × EventQueue F)
  unfolding taken take_lower from_p2
  take_aged s q now none = take_lower s q now
  take_aged s q now (some oldest) =
      if q.aging_guard_seconds ≤? now ⊖ oldest.ingest_ts
      then from_p2 q (taken s.equal q.p2_queue oldest)
      else take_lower s q now

  unfoldable pub take_adaptive : Selection F → EventQueue F → F → Option (Event F × EventQueue F)
  unfolding tier_events best_from take_aged from_p0 pop_best_by_score
  take_adaptive s q now =
      if not (is_empty (tier_events q.p0_queue))
      then from_p0 q (pop_best_by_score s q.p0_queue now)
      else take_aged s q now
          (best_from (λ a b. a.ingest_ts <? b.ingest_ts) none (tier_events q.p2_queue))
