-- ===== src/Server2/Filling.antt =====
-- The loop of _handle ends: for a full batch, an empty queue or an exception, never for its fuel.
use vh26_crackers.Base.{
  ◌≡◌, refl, subst, ◌⊎◌, inl, inr, ℕ, zero, suc, ◌<◌, ℤ, pos, le_ℤ, true, false, not, List, [], ◌∷◌,
  ◌++◌, length, Option, none, some, Floats, arith, Bool-cases,
}
use vh26_crackers.Contracts.{Event, Decision, stream_now, micro_batch, defer, sample_rollup}
use vh26_crackers.Decision.{Reason}
use vh26_crackers.Queue.{tier_events, is_empty}
use vh26_crackers.Queue.Taking.{IsEquality}
use vh26_crackers.Queue.Progress.{IsReflexive, is_some, lower_empty, take_adaptive_succeeds}
use vh26_crackers.Server2.{P1P2Queue, Reading, size, try_get}
use vh26_crackers.Server2.SameOrder.{selection_of, without_p0, both, try_get-adaptive}
use vh26_crackers.Server2.State.{ServerState, Env, Post, note_dequeue, resolve}
use vh26_crackers.Server2.Serving.{Served, served_alone}
use vh26_crackers.Server2.Handling.{
  Gathered, prepend, after_alone, after_resolve, after_get, gather,
}
use vh26_crackers.Server2.Counting.{Smaller, try_get-Smaller}
use vh26_crackers.Server2.Unchanged.{served_alone-queue}

module _ {F : Type 0} ⦃fl : Floats F⦄ where
  -- why the loop stopped, unless an exception ended it
  abbrev pub Stopped : ℤ → Gathered F → Type 0
  Stopped target (s, batch, posts, true) =
      (le_ℤ target (pos (length batch)) ≡ true) ⊎ (size s.queue ≡ 0)
  Stopped target (s, batch, posts, false) = Unit

  -- the rest of the loop stops from every state whose queue is small enough
  abbrev StopsBelow : ℕ → ℤ → (ServerState F → List (Event F) → Gathered F) → Type 0
  StopsBelow n target next =
      (t : ServerState F) (b : List (Event F)) → size t.queue < n → Stopped target (next t b)

  after_alone-Stopped :
      (n : ℕ) (target : ℤ) (next : ServerState F → Gathered F) (batch : List (Event F))
      (x : Served F)
      → ((t : ServerState F) → size t.queue < n → Stopped target (next t))
      → size x.0.queue < n
      → Stopped target (after_alone next batch x)
  unfolding after_alone
  after_alone-Stopped n target next batch (s, posts, true) go lt =
      prepended target posts (next s) (go s lt)
    where
      prepended :
          (target : ℤ) (posts : List (Post F)) (g : Gathered F)
          → Stopped target g
          → Stopped target (prepend posts g)
      prepended target posts (t, b, more, true) h = h
      prepended target posts (t, b, more, false) h = tt
  after_alone-Stopped n target next batch (s, posts, false) go lt = tt

  solo-Stopped :
      (n : ℕ) (target : ℤ) (next : ServerState F → List (Event F) → Gathered F) (env : Env F)
      (s : ServerState F) (batch : List (Event F)) (extra : Event F) (d : Decision)
      (reason : Reason F) (p now : F)
      → StopsBelow n target next
      → size s.queue < n
      → Stopped target
          (after_alone (λ t. next t batch) batch (served_alone env s extra d reason p now))
  solo-Stopped n target next env s batch extra d reason p now go lt =
      after_alone-Stopped n target (λ t. next t batch) batch
        (served_alone env s extra d reason p now) (λ t. go t batch)
        (rw (served_alone-queue env s extra d reason p now) lt)

  after_resolve-Stopped :
      (n : ℕ) (target : ℤ) (next : ServerState F → List (Event F) → Gathered F) (env : Env F)
      (s : ServerState F) (batch : List (Event F)) (extra : Event F) (p now : F)
      (o : Option (Decision × Reason F))
      → StopsBelow n target next
      → size s.queue < n
      → Stopped target (after_resolve next env s batch extra p now o)
  unfolding after_resolve
  after_resolve-Stopped n target next env s batch extra p now none go lt = tt
  after_resolve-Stopped n target next env s batch extra p now (some (micro_batch, reason)) go lt =
      go s (batch ++ extra ∷ []) lt
  after_resolve-Stopped n target next env s batch extra p now (some (stream_now, reason)) go lt =
      solo-Stopped n target next env s batch extra stream_now reason p now go lt
  after_resolve-Stopped n target next env s batch extra p now (some (defer, reason)) go lt =
      solo-Stopped n target next env s batch extra defer reason p now go lt
  after_resolve-Stopped n target next env s batch extra p now (some (sample_rollup, reason)) go lt =
      solo-Stopped n target next env s batch extra sample_rollup reason p now go lt
  after_resolve-Stopped n target next env s batch extra p now (some (Decision.shed, reason)) go lt =
      solo-Stopped n target next env s batch extra Decision.shed reason p now go lt

  length-is_empty : (xs : List (Event F)) → is_empty xs ≡ true → length xs ≡ 0
  length-is_empty [] h = refl
  length-is_empty (x ∷ xs) h = cc

  -- a get that finds nothing
  abbrev EmptyIfNone : P1P2Queue F → Option (Event F × P1P2Queue F) → Type 0
  EmptyIfNone q none = size q ≡ 0
  EmptyIfNone q (some x) = Unit

  none-EmptyIfNone :
      (q : P1P2Queue F) (z : F) (o : Option (Event F × P1P2Queue F))
      → is_some (both z o) ≡ not (lower_empty (without_p0 z q))
      → EmptyIfNone q o
  unfolding size
  none-EmptyIfNone q z none h =
      ground (
        arith,
        h,
        length-is_empty (tier_events q.p1_queue),
        length-is_empty (tier_events q.p2_queue),
      )
  none-EmptyIfNone q z (some x) h = tt

  try_get-EmptyIfNone :
      (s : Reading F) (q : P1P2Queue F) (now : F)
      → IsReflexive s.equal
      → EmptyIfNone q (try_get s q now)
  unfolding tier_events
  try_get-EmptyIfNone s q now law = none-EmptyIfNone q now (try_get s q now) (
      subst (λ o. is_some o ≡ not (lower_empty (without_p0 now q))) (try_get-adaptive s q now now)
        (take_adaptive_succeeds (selection_of q.capacity_units_per_sec s) (without_p0 now q) now
          law))

  after_get-Stopped :
      (n : ℕ) (target : ℤ) (next : ServerState F → List (Event F) → Gathered F) (env : Env F)
      (s : ServerState F) (batch : List (Event F)) (p now : F) (o : Option (Event F × P1P2Queue F))
      → StopsBelow n target next
      → size s.queue < suc n
      → Smaller s.queue o
      → EmptyIfNone s.queue o
      → Stopped target (after_get next env s batch p now o)
  unfolding after_get note_dequeue
  after_get-Stopped n target next env s batch p now none go lt smaller empty = inr empty
  after_get-Stopped n target next env s batch p now (some (extra, rest)) go lt smaller empty =
      let noted = note_dequeue (record s { queue = rest }) extra now in
      after_resolve-Stopped n target next env noted batch extra p now (resolve noted extra p now) go
        (omega (arith, lt, smaller))

  -- Where == is the identity of events, a run of the loop on more fuel than the queue holds
  -- events ends in an exception, with a batch of the target size, or with an empty queue.
  pub gather-Stopped :
      (env : Env F) (clock : ℕ → F) (n : ℕ) (target : ℤ) (p : F) (s : ServerState F)
      (batch : List (Event F))
      → IsEquality env.selection.equal
      → IsReflexive env.selection.equal
      → size s.queue < n
      → Stopped target (gather env clock n target p s batch)
  unfolding gather
  gather-Stopped env clock zero target p s batch law same lt = absurd (omega (arith, lt))
  gather-Stopped env clock (suc n) target p s batch law same lt =
      elim (Bool-cases (le_ℤ target (pos (length batch)))) [
        | inl full ↦ rw full (inl full)
        | inr room ↦ rw room (
            after_get-Stopped n target (λ t b. gather env clock n target p t b) env s batch p
              (clock n) (try_get env.selection s.queue (clock n))
              (λ t b below. gather-Stopped env clock n target p t b law same below) lt
              (try_get-Smaller env.selection s.queue (clock n) law)
              (try_get-EmptyIfNone env.selection s.queue (clock n) same))
      ]
