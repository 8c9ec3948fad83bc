-- ===== src/Server2/SameOrder.antt =====
-- The queue of server2 against that of the single process: the same events in the same order.
use vh26_crackers.Base.{
  List, ◌≡◌, refl, [], Option, none, some, Floats, ◌≤?◌, ◌⊖◌, Bool-cases, inl, inr,
}
use vh26_crackers.Contracts.{Event, Mode}
use vh26_crackers.Queue.{
  TierQueue, EventQueue, Selection, tier_events, is_empty, taken, remove_event, from_p1, from_p2,
  take_lower, take_aged, take_adaptive, pop_last, best_from,
}
use vh26_crackers.Queue
use vh26_crackers.Server2.{
  P1P2Queue, Reading, out_of_p1, out_of_p2, remove, sort_order, better_score, no_resort,
  maybe_resort, pick_against, pick_by_score, pop_best_by_score, next_by_tier, unless_overdue,
  try_get,
}

module _ {F : Type 0} where
  -- the queue of the single process with an empty P0 tier
  abbrev pub without_p0 : F → P1P2Queue F → EventQueue F
  without_p0 zero_ q = record {
    p0_queue = record { settled = []; pending = []; resort_ts = zero_ };
    p1_queue = q.p1_queue;
    p2_queue = q.p2_queue;
    mode = Mode.adaptive;
    aging_guard_seconds = q.aging_guard_seconds;
    unfinished = 0;
  }

  -- what the single process selects by, with no learned cost
  abbrev pub selection_of : F → Reading F → Selection F
  selection_of capacity r = record {
    capacity = capacity;
    weights = r.weights;
    estimate = λ e. none;
    equal = r.equal;
  }

  same_remove :
      (capacity : F) (r : Reading F) (t : TierQueue F) (e : Event F)
      → taken (selection_of capacity r).equal t e ≡ remove r t e
  unfolding taken remove remove_event
  same_remove capacity r t e = refl

  abbrev pub both : F → Option (Event F × P1P2Queue F) → Option (Event F × EventQueue F)
  both zero_ none = none
  both zero_ (some (e, q)) = some (e, without_p0 zero_ q)

  both-out_of_p1 :
      (z : F) (q : P1P2Queue F) (o : Option (Event F × TierQueue F))
      → from_p1 (without_p0 z q) o ≡ both z (out_of_p1 q o)
  unfolding from_p1 out_of_p1
  both-out_of_p1 z q none = refl
  both-out_of_p1 z q (some (e, t)) = refl

  both-out_of_p2 :
      (z : F) (q : P1P2Queue F) (o : Option (Event F × TierQueue F))
      → from_p2 (without_p0 z q) o ≡ both z (out_of_p2 q o)
  unfolding from_p2 out_of_p2
  both-out_of_p2 z q none = refl
  both-out_of_p2 z q (some (e, t)) = refl

module _ {F : Type 0} ⦃fl : Floats F⦄ where
  same_pick_against :
      (c : F) (r : Reading F) (t : TierQueue F) (now : F) (b : Option (Event F))
      (l : Option (Event F × List (Event F)))
      → Queue.pick_against (selection_of c r) t now b l ≡ pick_against c r t now b l
  unfolding Queue.pick_against pick_against Queue.better_score better_score
  same_pick_against c r t now none l = refl
  same_pick_against c r t now (some b) none = same_remove c r t b
  same_pick_against c r t now (some b) (some (last, rest)) = rw (same_remove c r t b) refl

  same_pop :
      (c : F) (r : Reading F) (t : TierQueue F) (now : F)
      → Queue.pop_best_by_score (selection_of c r) t now ≡ pop_best_by_score c r t now
  unfolding Queue.pop_best_by_score pop_best_by_score Queue.pick_by_score pick_by_score
      Queue.maybe_resort maybe_resort Queue.sort_order sort_order Queue.no_resort no_resort
      Queue.better_score better_score
  same_pop c r t now =
      same_pick_against c r (maybe_resort c r t now) now
        (best_from (better_score c r now) none (maybe_resort c r t now).pending)
        (pop_last (maybe_resort c r t now).settled)

  both-next :
      (r : Reading F) (q : P1P2Queue F) (now z : F)
      → take_lower (selection_of q.capacity_units_per_sec r) (without_p0 z q) now
        ≡ both z (next_by_tier r q now)
  unfolding take_lower next_by_tier
  both-next r q now z = elim (Bool-cases (is_empty (tier_events q.p1_queue))) [
    | inr some_p1 ↦
        rw (some_p1, same_pop q.capacity_units_per_sec r q.p1_queue now)
          (both-out_of_p1 z q (pop_best_by_score q.capacity_units_per_sec r q.p1_queue now))
    | inl no_p1 ↦ rw no_p1 (elim (Bool-cases (is_empty (tier_events q.p2_queue))) [
      | inr some_p2 ↦
          rw (some_p2, same_pop q.capacity_units_per_sec r q.p2_queue now)
            (both-out_of_p2 z q (pop_best_by_score q.capacity_units_per_sec r q.p2_queue now))
      | inl no_p2 ↦ rw no_p2 refl
    ])
  ]

  both-overdue :
      (r : Reading F) (q : P1P2Queue F) (now z : F) (o : Option (Event F))
      → take_aged (selection_of q.capacity_units_per_sec r) (without_p0 z q) now o
        ≡ both z (unless_overdue r q now o)
  unfolding take_aged unless_overdue
  both-overdue r q now z none = both-next r q now z
  both-overdue r q now z (some oldest) =
      elim (Bool-cases (q.aging_guard_seconds ≤? now ⊖ oldest.ingest_ts)) [
        | inl due ↦
            rw (due, same_remove q.capacity_units_per_sec r q.p2_queue oldest)
              (both-out_of_p2 z q (remove r q.p2_queue oldest))
        | inr fresh ↦ rw fresh (both-next r q now z)
      ]

  pub try_get-adaptive :
      (r : Reading F) (q : P1P2Queue F) (now z : F)
      → take_adaptive (selection_of q.capacity_units_per_sec r) (without_p0 z q) now
        ≡ both z (try_get r q now)
  unfolding take_adaptive try_get tier_events
  try_get-adaptive r q now z = both-overdue r q now z _
