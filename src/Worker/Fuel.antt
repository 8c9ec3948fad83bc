-- ===== src/Worker/Fuel.antt =====
-- The loop of _handle that fills a batch: every fuel beyond the size of the queue gives one result.
use vh26_crackers.Base.{
  ◌≡◌, refl, ℕ, zero, suc, ◌+◌, ◌<◌, ℤ, pos, le_ℤ, Bool, true, false, List, [], ◌∷◌, ◌++◌, length,
  length-append, length-perm, Option, none, some, Floats, arith, Bool-cases, inl, inr, ◌==◌,
}
use vh26_crackers.Contracts.{
  Event, EventType, payment, order, inventory, click, log, Decision, stream_now, micro_batch, defer,
  sample_rollup,
}
use vh26_crackers.Decision.{Reason, batch_size, default_b_min, default_b_max}
use vh26_crackers.Ladder.Reservoir.{Rollup, add}
use vh26_crackers.Sink.Rollups.{RollupSink, WriteResult, write_rollup}
use vh26_crackers.Deferral.{DeferralStore, Result, ok, value_error, local}
use vh26_crackers.Deferral
use vh26_crackers.Queue.{EventQueue, tier_events, qsize}
use vh26_crackers.Queue.Taking.{IsEquality, TakesOne, all_events}
use vh26_crackers.Queue.Naive.{task_done, try_take, try_take-TakesOne}
use vh26_crackers.Worker.Pool.{
  Pool, Setup, Progress, sampled, leave, done, finally_done, selection, got, try_get, decided,
  observe,
}
use vh26_crackers.Worker.Serving.{
  deferred, persisted, sampled_into, add_to_reservoir, off_path, dispatch_off_path,
}
use vh26_crackers.Worker.Handling.{after_done, after_extra, dealt, after_get, gather}

module _ {F : Type 0} where
  length-all_events : (q : EventQueue F) → length (all_events q) ≡ qsize q
  unfolding qsize
  length-all_events q = omega (
    arith,
    length-append (tier_events q.p0_queue) (tier_events q.p1_queue ++ tier_events q.p2_queue),
    length-append (tier_events q.p1_queue) (tier_events q.p2_queue),
  )

module _ {F S : Type 0} where
  finally_done-qsize :
      (p : Pool F S) (fine : Bool) → qsize (finally_done p fine).0.queue ≡ qsize p.queue
  unfolding finally_done done task_done qsize
  finally_done-qsize p fine = elim (Bool-cases (p.queue.unfinished == 0)) [
    | inl h ↦ rw h refl
    | inr h ↦ rw h refl
  ]

module _ {F S : Type 0} ⦃fl : Floats F⦄ where
  persisted-queue :
      (p : Pool F S) (r : Rollup F) (x : RollupSink F × WriteResult)
      → (persisted p r x).0.queue ≡ p.queue
  unfolding persisted
  persisted-queue p r (store, WriteResult.integrity_error) = refl
  persisted-queue p r (store, WriteResult.written id) = refl

  sampled_into-queue :
      (p : Pool F S) (e : Event F) (o : Option (Rollup F)) (now : F)
      → (sampled_into p e o now).0.queue ≡ p.queue
  unfolding sampled_into
  sampled_into-queue p e none now = refl
  sampled_into-queue p e (some r) now =
      persisted-queue (leave (sampled e) (record p { sampled_count = p.sampled_count + 1 })) r
        (write_rollup p.rollups r now)

  add_to_reservoir-queue :
      (t : EventType) (p : Pool F S) (e : Event F) (now : F)
      → (add_to_reservoir t p e now).0.queue ≡ p.queue
  unfolding add_to_reservoir
  add_to_reservoir-queue click p e now = sampled_into-queue _ e (add p.click_reservoir e now).1 now
  add_to_reservoir-queue log p e now = sampled_into-queue _ e (add p.log_reservoir e now).1 now
  add_to_reservoir-queue payment p e now = refl
  add_to_reservoir-queue order p e now = refl
  add_to_reservoir-queue inventory p e now = refl

  deferred-queue :
      (p : Pool F S) (e : Event F) (x : Result (DeferralStore F (Reason F)))
      → (deferred p e x).0.queue ≡ p.queue
  unfolding deferred
  deferred-queue p e (ok buffer) = refl
  deferred-queue p e value_error = refl

  off_path-queue :
      (p : Pool F S) (e : Event F) (d : Decision) (reason : Reason F) (now : F)
      → (off_path p e d reason now).0.queue ≡ p.queue
  unfolding off_path
  off_path-queue p e defer reason now =
      deferred-queue p e (Deferral.defer p.buffer e reason now local)
  off_path-queue p e sample_rollup reason now = add_to_reservoir-queue e.type p e now
  off_path-queue p e Decision.shed reason now = refl
  off_path-queue p e stream_now reason now = refl
  off_path-queue p e micro_batch reason now = refl

  dispatch_off_path-queue :
      (p : Pool F S) (e : Event F) (d : Decision) (reason : Reason F) (pressure now : F)
      → (dispatch_off_path p e d reason pressure now).0.queue ≡ p.queue
  unfolding dispatch_off_path observe
  dispatch_off_path-queue p e d reason pressure now = off_path-queue _ e d reason now

  -- two continuations that agree on every pool whose queue is smaller
  abbrev Agree : ℕ → (next next' : Pool F S → List (Event F) → Pool F S × Progress F) → Type 0
  Agree k next next' =
      (p : Pool F S) (b : List (Event F)) → qsize p.queue < k → next p b ≡ next' p b

  after_done-Agree :
      (k : ℕ) (next next' : Pool F S → List (Event F) → Pool F S × Progress F)
      (batch : List (Event F)) (x : Pool F S × Bool)
      → Agree k next next'
      → qsize x.0.queue < k
      → after_done (λ p. next p batch) batch x ≡ after_done (λ p. next' p batch) batch x
  unfolding after_done
  after_done-Agree k next next' batch (p, true) same lt = same p batch lt
  after_done-Agree k next next' batch (p, false) same lt = refl

  after_extra-Agree :
      (k : ℕ) (next next' : Pool F S → List (Event F) → Pool F S × Progress F)
      (batch : List (Event F)) (x : Pool F S × Bool)
      → Agree k next next'
      → qsize x.0.queue < k
      → after_extra (λ p. next p batch) batch x ≡ after_extra (λ p. next' p batch) batch x
  unfolding after_extra
  after_extra-Agree k next next' batch (p, fine) same lt =
      after_done-Agree k next next' batch (finally_done p fine) same
        (omega (arith, finally_done-qsize p fine))

  off-Agree :
      (k : ℕ) (next next' : Pool F S → List (Event F) → Pool F S × Progress F) (p : Pool F S)
      (batch : List (Event F)) (e : Event F) (d : Decision) (reason : Reason F) (pressure now : F)
      → Agree k next next'
      → qsize p.queue < k
      → after_extra (λ p'. next p' batch) batch (dispatch_off_path p e d reason pressure now)
        ≡ after_extra (λ p'. next' p' batch) batch (dispatch_off_path p e d reason pressure now)
  off-Agree k next next' p batch e d reason pressure now same lt =
      after_extra-Agree k next next' batch (dispatch_off_path p e d reason pressure now) same
        (rw (dispatch_off_path-queue p e d reason pressure now) lt)

  dealt-Agree :
      (k : ℕ) (next next' : Pool F S → List (Event F) → Pool F S × Progress F) (p : Pool F S)
      (batch : List (Event F)) (w : ℤ) (extra : Event F) (pressure now : F)
      (d : Decision × Reason F)
      → Agree k next next'
      → qsize p.queue < k
      → dealt next p batch w extra pressure now d ≡ dealt next' p batch w extra pressure now d
  unfolding dealt observe
  dealt-Agree k next next' p batch w extra pressure now (micro_batch, reason) same lt =
      same (observe p extra micro_batch reason pressure now) (batch ++ extra ∷ []) lt
  dealt-Agree k next next' p batch w extra pressure now (stream_now, reason) same lt = refl
  dealt-Agree k next next' p batch w extra pressure now (defer, reason) same lt =
      off-Agree k next next' p batch extra defer reason pressure now same lt
  dealt-Agree k next next' p batch w extra pressure now (sample_rollup, reason) same lt =
      off-Agree k next next' p batch extra sample_rollup reason pressure now same lt
  dealt-Agree k next next' p batch w extra pressure now (Decision.shed, reason) same lt =
      off-Agree k next next' p batch extra Decision.shed reason pressure now same lt

  -- what is taken leaves a smaller queue
  abbrev Shrinks : ℕ → Option (Event F × Pool F S) → Type 0
  Shrinks k none = Unit
  Shrinks k (some (e, p)) = qsize p.queue < k

  got-Shrinks :
      (p : Pool F S) (now : F) (o : Option (Event F × EventQueue F))
      → TakesOne p.queue o
      → Shrinks (qsize p.queue) (got p now o)
  unfolding got
  got-Shrinks p now none k = tt
  got-Shrinks p now (some (e, rest)) k =
      omega (arith, length-perm k.0, length-all_events p.queue, length-all_events rest)

  try_get-Shrinks :
      (c : Setup F S) (p : Pool F S) (now : F)
      → IsEquality c.equal
      → Shrinks (qsize p.queue) (try_get c p now)
  unfolding try_get
  try_get-Shrinks c p now law =
      got-Shrinks p now (try_take (selection c p) p.queue now)
        (try_take-TakesOne (selection c p) p.queue now law)

  after_get-Agree :
      (k : ℕ) (next next' : Pool F S → List (Event F) → Pool F S × Progress F) (c : Setup F S)
      (p : Pool F S) (batch : List (Event F)) (w : ℤ) (pressure now : F)
      (o : Option (Event F × Pool F S))
      → Agree k next next'
      → Shrinks k o
      → after_get next c p batch w pressure now o ≡ after_get next' c p batch w pressure now o
  unfolding after_get
  after_get-Agree k next next' c p batch w pressure now none same lt = refl
  after_get-Agree k next next' c p batch w pressure now (some (extra, p')) same lt =
      dealt-Agree k next next' p' batch w extra pressure now (decided c p' extra pressure now) same
        lt

  -- Where == is the identity of events, the loop that fills a batch has the same result on any
  -- two amounts of fuel that exceed the size of the queue.
  pub gather_enough :
      (c : Setup F S) (clock : ℕ → F) (w : ℤ) (n m : ℕ) (pressure : F) (p : Pool F S)
      (batch : List (Event F))
      → IsEquality c.equal
      → qsize p.queue < n
      → qsize p.queue < m
      → gather c clock w n pressure p batch ≡ gather c clock w m pressure p batch
  unfolding gather
  gather_enough c clock w zero m pressure p batch law h k = absurd (omega arith)
  gather_enough c clock w (suc n) zero pressure p batch law h k = absurd (omega arith)
  gather_enough c clock w (suc n) (suc m) pressure p batch law h k =
      let now = clock (qsize p.queue) in
      elim (Bool-cases
        (le_ℤ (batch_size pressure default_b_min default_b_max) (pos (length batch)))) [
          | inl full ↦ rw full refl
          | inr room ↦ rw room (
              after_get-Agree (qsize p.queue) (λ p' b. gather c clock w n pressure p' b)
                (λ p' b. gather c clock w m pressure p' b) c p batch w pressure now
                (try_get c p now)
                (λ p' b lt.
                  gather_enough c clock w n m pressure p' b law (omega arith) (omega arith))
                (try_get-Shrinks c p now law))
        ]
