-- ===== src/Server2/Counting.antt =====
-- The counts of server2 over one turn of a worker: each event that leaves the queue is counted once,
-- and the number of events in flight comes back to what it was.
use vh26_crackers.Base.{
  ◌≡◌, subst, ℕ, suc, ◌+◌, ℤ, pos, negsuc, ◌+ℤ◌, ◌-ℤ◌, true, false, List, [], ◌∷◌, length,
  length-append, length-perm, Option, none, some, Floats, arith,
}
use vh26_crackers.Contracts.{Event}
use vh26_crackers.Queue.{tier_events}
use vh26_crackers.Queue.Taking.{IsEquality, TakesOne, take_adaptive-TakesOne}
use vh26_crackers.Server2.{P1P2Queue, Reading, size, try_get}
use vh26_crackers.Server2.SameOrder.{selection_of, without_p0, both, try_get-adaptive}
use vh26_crackers.Server2.State.{ServerState, Env, note_dequeue, completed}
use vh26_crackers.Server2.Serving.{Served, complete_all}

up : (base : ℤ) (k : ℕ) → (base +ℤ pos k) +ℤ pos 1 ≡ base +ℤ pos (k + 1)
up (pos m) k = ground arith
up (negsuc m) k = ground arith

pub down : (base : ℤ) (k : ℕ) → (base +ℤ pos (k + 1)) -ℤ pos 1 ≡ base +ℤ pos k
down (pos m) k = ground arith
down (negsuc m) k = ground arith

one_more {ℓ} : {A : Type ℓ} (es : List A) → suc (length es) ≡ length es + 1
one_more es = omega arith

module _ {F : Type 0} where
  -- what a successful try_get leaves is one event less
  abbrev pub Smaller : P1P2Queue F → Option (Event F × P1P2Queue F) → Type 0
  Smaller q none = Unit
  Smaller q (some (e, rest)) = size rest + 1 ≡ size q

  TakesOne-Smaller :
      (z : F) (q : P1P2Queue F) (o : Option (Event F × P1P2Queue F))
      → TakesOne (without_p0 z q) (both z o)
      → Smaller q o
  unfolding size tier_events
  TakesOne-Smaller z q none t = tt
  TakesOne-Smaller z q (some (e, rest)) t = omega (
    arith,
    length-perm t.0,
    length-append (tier_events q.p1_queue) (tier_events q.p2_queue),
    length-append (tier_events rest.p1_queue) (tier_events rest.p2_queue),
  )

  abbrev pub finished : ServerState F → ℕ
  finished s = s.processed_count + s.deferred_count + s.sampled_count + s.shed_count

  -- `busy` events are in flight above the base, and with those that wait or are finished there
  -- are `total`
  pub record Level (base : ℤ) (busy total : ℕ) (s : ServerState F) : Type 0 where
    pub in_flight : s.in_flight ≡ base +ℤ pos busy
    pub counted : size s.queue + finished s + busy ≡ total

  -- an exception leaves nothing to say
  abbrev pub OnFine : (ServerState F → Type 0) → Served F → Type 0
  OnFine P (s, posts, true) = P s
  OnFine P (s, posts, false) = Unit

module _ {F : Type 0} ⦃fl : Floats F⦄ where
  pub try_get-Smaller :
      (s : Reading F) (q : P1P2Queue F) (now : F) → IsEquality s.equal → Smaller q (try_get s q now)
  try_get-Smaller s q now law = TakesOne-Smaller now q (try_get s q now) (
      subst (TakesOne (without_p0 now q)) (try_get-adaptive s q now now) (
        take_adaptive-TakesOne (selection_of q.capacity_units_per_sec s) (without_p0 now q) now
          law))

  pub note_dequeue-Level :
      (base : ℤ) (busy total : ℕ) (s : ServerState F) (rest : P1P2Queue F) (e : Event F) (now : F)
      → Level base busy total s
      → size rest + 1 ≡ size s.queue
      → Level base (busy + 1) total (note_dequeue (record s { queue = rest }) e now)
  unfolding note_dequeue
  note_dequeue-Level base busy total s rest e now l smaller = record {
    in_flight = rw l.in_flight (up base busy);
    counted = omega (arith, l.counted, smaller);
  }

  pub completed-Level :
      (env : Env F) (base : ℤ) (busy total : ℕ) (s : ServerState F) (e : Event F) (now : F)
      → Level base (busy + 1) total s
      → Level base busy total (completed env s e now)
  unfolding completed
  completed-Level env base busy total s e now l = record {
    in_flight = rw l.in_flight (down base busy);
    counted = omega (arith, l.counted);
  }

  pub complete_all-Level :
      (env : Env F) (base : ℤ) (total : ℕ) (es : List (Event F)) (s : ServerState F) (now : F)
      → Level base (length es) total s
      → Level base 0 total (complete_all env s es now)
  unfolding complete_all
  complete_all-Level env base total [] s now l = l
  complete_all-Level env base total (e ∷ es) s now l = complete_all-Level env base total es _ now (
      completed-Level env base (length es) total s e now
        (subst (λ k. Level base k total s) (one_more es) l))
