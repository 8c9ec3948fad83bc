-- ===== src/Server2.antt =====
-- src/triage/server2.py: the process that serves P1 and P2, and its queue. The record of a tier and
-- Python's operations on lists are those of Queue.antt; the selection is the file's own.
pub mod SameOrder
pub mod Serving
pub mod Handling
pub mod Counting
pub mod Leaving
pub mod Turns
pub mod Unchanged
pub mod Filling
pub mod Draining
pub mod Endpoints
pub mod State
use vh26_crackers.Base.{
  ℕ, ◌+◌, Bool, true, false, not, ltb, sort, ◌&&◌, ◌||◌, List, [], ◌∷◌, ◌++◌, length, Option, none,
  some, Floats, ◌≤?◌, ◌<?◌, ◌⊖◌, if◌then◌else◌,
}
use vh26_crackers.Contracts.{Event, Tier, p0, p1, p2}
use vh26_crackers.Decision.{ScoreWeights, score}
use vh26_crackers.Queue.{
  TierQueue, tier_events, append, remove_first, with_settled, with_pending, and_event, best_from,
  pop_last, pop_settled, is_empty,
}
use vh26_crackers.Servers.{ServerSpec, has_tier, is_fixed}

pub record P1P2Queue (F : Type 0) : Type 0 where
  pub capacity_units_per_sec : F
  pub p1_queue : TierQueue F
  pub p2_queue : TierQueue F
  pub aging_guard_seconds : F

-- What the queue reads besides: `decision.current_score_weights`, and `==` of events.
pub record Reading (F : Type 0) : Type 0 where
  pub weights : ScoreWeights F
  pub equal : Event F → Event F → Bool

-- A tier that the dictionaries do not have raises `KeyError`.
pub data PutResult (F : Type 0) : Type 0 where
  queued : P1P2Queue F → PutResult F
  key_error : PutResult F

module _ {F : Type 0} where
  unfoldable pub put_at : Tier → P1P2Queue F → Event F → PutResult F
  unfolding append
  put_at p0 q e = PutResult.key_error
  put_at p1 q e = PutResult.queued (record q { p1_queue = append e q.p1_queue })
  put_at p2 q e = PutResult.queued (record q { p2_queue = append e q.p2_queue })

  unfoldable pub put : P1P2Queue F → Event F → PutResult F
  unfolding put_at
  put q e = put_at e.tier q e

  unfoldable pub size : P1P2Queue F → ℕ
  unfolding tier_events
  size q = length (tier_events q.p1_queue) + length (tier_events q.p2_queue)

  -- the queue around what was taken from one tier
  unfoldable pub out_of_p1 :
      P1P2Queue F → Option (Event F × TierQueue F) → Option (Event F × P1P2Queue F)
  out_of_p1 q none = none
  out_of_p1 q (some (e, t)) = some (e, record q { p1_queue = t })

  unfoldable pub out_of_p2 :
      P1P2Queue F → Option (Event F × TierQueue F) → Option (Event F × P1P2Queue F)
  out_of_p2 q none = none
  out_of_p2 q (some (e, t)) = some (e, record q { p2_queue = t })

  -- The spec is refused by the first check that fails.
  unfoldable pub is_provisioned : ServerSpec F → Bool
  unfolding has_tier
  is_provisioned spec =
      (not (has_tier p0 spec.tiers) && (has_tier p1 spec.tiers && has_tier p2 spec.tiers))
      && (spec.batching && not (is_fixed spec.scaling))

  -- `_remove`, with the event: from the pending events, or else from the settled ones
  unfoldable pub remove : Reading F → TierQueue F → Event F → Option (Event F × TierQueue F)
  unfolding remove_first with_settled with_pending and_event
  remove r t e = and_event e (
      with_pending t (with_settled t (remove_first r.equal e t.settled))
        (remove_first r.equal e t.pending))

module _ {F : Type 0} ⦃fl : Floats F⦄ where
  abbrev pub resort_interval_seconds : F
  resort_interval_seconds = fl.lit 5 2

  -- `_score`, on the cost that the event states
  abbrev pub score_of : F → Reading F → F → Event F → F
  score_of capacity r now e = score e now capacity r.weights none

  -- the key `(score, -seq)`
  unfoldable pub sort_order : F → Reading F → F → Event F → Event F → Bool
  sort_order capacity r now a b =
      score_of capacity r now a <? score_of capacity r now b
      || (score_of capacity r now a ≤? score_of capacity r now b && not (ltb a.seq b.seq))

  -- a higher score, or the same score and a lower seq
  unfoldable pub better_score : F → Reading F → F → Event F → Event F → Bool
  better_score capacity r now a b =
      score_of capacity r now b <? score_of capacity r now a
      || ((score_of capacity r now a ≤? score_of capacity r now b
            && score_of capacity r now b ≤? score_of capacity r now a)
          && ltb a.seq b.seq)

  -- the two early returns
  unfoldable pub no_resort : TierQueue F → F → Bool
  no_resort t now =
      (is_empty t.pending && not (is_empty t.settled))
      || (now ⊖ t.resort_ts <? resort_interval_seconds && not (is_empty t.settled))

  unfoldable pub maybe_resort : F → Reading F → TierQueue F → F → TierQueue F
  unfolding sort_order no_resort
  maybe_resort capacity r t now = if no_resort t now then t else record {
    settled = sort (sort_order capacity r now) (t.settled ++ t.pending);
    pending = [];
    resort_ts = now;
  }

  -- the best pending event against the last settled one
  unfoldable pub pick_against :
      F
      → Reading F
      → TierQueue F
      → F
      → Option (Event F)
      → Option (Event F × List (Event F))
      → Option (Event F × TierQueue F)
  unfolding better_score remove pop_settled
  pick_against capacity r t now none last = pop_settled t
  pick_against capacity r t now (some best) none = remove r t best
  pick_against capacity r t now (some best) (some (last, rest)) =
      if better_score capacity r now best last then remove r t best else pop_settled t

  unfoldable pub pick_by_score : F → Reading F → TierQueue F → F → Option (Event F × TierQueue F)
  unfolding best_from better_score pick_against pop_last
  pick_by_score capacity r t now =
      pick_against capacity r t now (best_from (better_score capacity r now) none t.pending)
        (pop_last t.settled)

  unfoldable pub pop_best_by_score :
      F → Reading F → TierQueue F → F → Option (Event F × TierQueue F)
  unfolding maybe_resort pick_by_score
  pop_best_by_score capacity r t now = pick_by_score capacity r (maybe_resort capacity r t now) now

  -- the order of service once no P2 event is overdue
  unfoldable pub next_by_tier : Reading F → P1P2Queue F → F → Option (Event F × P1P2Queue F)
  unfolding tier_events out_of_p1 out_of_p2 pop_best_by_score
  next_by_tier r q now =
      if not (is_empty (tier_events q.p1_queue))
      then out_of_p1 q (pop_best_by_score q.capacity_units_per_sec r q.p1_queue now)
      else if not (is_empty (tier_events q.p2_queue))
      then out_of_p2 q (pop_best_by_score q.capacity_units_per_sec r q.p2_queue now)
      else none

  unfoldable pub unless_overdue :
      Reading F → P1P2Queue F → F → Option (Event F) → Option (Event F × P1P2Queue F)
  unfolding remove out_of_p2 next_by_tier
  unless_overdue r q now none = next_by_tier r q now
  unless_overdue r q now (some oldest) =
      if q.aging_guard_seconds ≤? now ⊖ oldest.ingest_ts
      then out_of_p2 q (remove r q.p2_queue oldest)
      else next_by_tier r q now

  unfoldable pub try_get : Reading F → P1P2Queue F → F → Option (Event F × P1P2Queue F)
  unfolding tier_events best_from unless_overdue
  try_get r q now =
      unless_overdue r q now
        (best_from (λ a b. a.ingest_ts <? b.ingest_ts) none (tier_events q.p2_queue))
