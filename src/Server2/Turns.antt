-- ===== src/Server2/Turns.antt =====
-- One turn of a worker of server2, from the queue to the calls of ingress.
use vh26_crackers.Base.{
  ◌≡◌, sym, ◌∙◌, subst, ℕ, zero, suc, ◌+◌, ℤ, pos, negsuc, ◌+ℤ◌, le_ℤ, true, false, List, [], ◌∷◌,
  ◌++◌, length, length-append, Option, none, some, Floats, arith, Bool-cases, inl, inr,
}
use vh26_crackers.Contracts.{Event, Decision, stream_now, micro_batch, defer, sample_rollup}
use vh26_crackers.Decision.{Reason, batch_size, default_b_min, default_b_max}
use vh26_crackers.Queue.Taking.{IsEquality}
use vh26_crackers.Server2.{P1P2Queue, size, try_get}
use vh26_crackers.Server2.State.{ServerState, Env, Post, pressure_value, note_dequeue}
use vh26_crackers.Server2.Serving.{Served, served_alone}
use vh26_crackers.Server2.Handling.{
  Gathered, prepend, after_alone, after_resolve, after_get, gather, batch_served, handle_resolved,
  handle, turn_on, turn,
}
use vh26_crackers.Server2.Counting.{
  Level, OnFine, Smaller, finished, try_get-Smaller, note_dequeue-Level,
}
use vh26_crackers.Server2.Leaving.{
  pressure_value-Level, dispatch_off_path-Level, serve_batch-Level, serve-Level,
}

pub plus_zero : (z : ℤ) → z +ℤ pos 0 ≡ z
plus_zero (pos m) = ground arith
plus_zero (negsuc m) = ground arith

module _ {F : Type 0} where
  -- the events of the batch are those in flight
  abbrev OnGathered : ℤ → ℕ → Gathered F → Type 0
  OnGathered base total (s, batch, posts, true) = Level base (length batch) total s
  OnGathered base total (s, batch, posts, false) = Unit

module _ {F : Type 0} ⦃fl : Floats F⦄ where
  prepend-Level :
      (base : ℤ) (total : ℕ) (posts : List (Post F)) (g : Gathered F)
      → OnGathered base total g
      → OnGathered base total (prepend posts g)
  prepend-Level base total posts (s, batch, more, true) l = l
  prepend-Level base total posts (s, batch, more, false) l = tt

  after_alone-Level :
      (base : ℤ) (total : ℕ) (next : ServerState F → Gathered F) (batch : List (Event F))
      (x : Served F)
      → ((t : ServerState F) → Level base (length batch) total t → OnGathered base total (next t))
      → OnFine (Level base (length batch) total) x
      → OnGathered base total (after_alone next batch x)
  unfolding after_alone
  after_alone-Level base total next batch (s, posts, true) go l =
      prepend-Level base total posts (next s) (go s l)
  after_alone-Level base total next batch (s, posts, false) go l = tt

  -- the rest of the loop, for the state and the batch that it goes on with
  abbrev GoesOn : ℤ → ℕ → (ServerState F → List (Event F) → Gathered F) → Type 0
  GoesOn base total next =
      (t : ServerState F) (b : List (Event F))
      → Level base (length b) total t
      → OnGathered base total (next t b)

  alone-GoesOn :
      (base : ℤ) (total : ℕ) (next : ServerState F → List (Event F) → Gathered F) (env : Env F)
      (s : ServerState F) (batch : List (Event F)) (extra : Event F) (d : Decision)
      (reason : Reason F) (p now : F)
      → GoesOn base total next
      → OnFine (Level base (length batch) total) (served_alone env s extra d reason p now)
      → OnGathered base total
          (after_alone (λ t. next t batch) batch (served_alone env s extra d reason p now))
  alone-GoesOn base total next env s batch extra d reason p now go l =
      after_alone-Level base total (λ t. next t batch) batch
        (served_alone env s extra d reason p now) (λ t. go t batch) l

  after_resolve-Level :
      (base : ℤ) (total : ℕ) (next : ServerState F → List (Event F) → Gathered F) (env : Env F)
      (s : ServerState F) (batch : List (Event F)) (extra : Event F) (p now : F)
      (o : Option (Decision × Reason F))
      → GoesOn base total next
      → Level base (length batch + 1) total s
      → OnGathered base total (after_resolve next env s batch extra p now o)
  unfolding after_resolve served_alone
  after_resolve-Level base total next env s batch extra p now none go l = tt
  after_resolve-Level base total next env s batch extra p now (some (micro_batch, reason)) go l =
      go s (batch ++ extra ∷ [])
        (subst (λ k. Level base k total s) (sym (length-append batch (extra ∷ []))) l)
  after_resolve-Level base total next env s batch extra p now (some (stream_now, reason)) go l =
      alone-GoesOn base total next env s batch extra stream_now reason p now go
        (serve-Level env base (length batch) total s extra reason p now l)
  after_resolve-Level base total next env s batch extra p now (some (defer, reason)) go l =
      alone-GoesOn base total next env s batch extra defer reason p now go
        (dispatch_off_path-Level env base (length batch) total s extra defer reason now tt l)
  after_resolve-Level base total next env s batch extra p now (some (sample_rollup, reason)) go l =
      alone-GoesOn base total next env s batch extra sample_rollup reason p now go (
        dispatch_off_path-Level env base (length batch) total s extra sample_rollup reason now tt l)
  after_resolve-Level base total next env s batch extra p now (some (Decision.shed, reason)) go l =
      alone-GoesOn base total next env s batch extra Decision.shed reason p now go (
        dispatch_off_path-Level env base (length batch) total s extra Decision.shed reason now tt l)

  after_get-Level :
      (base : ℤ) (total : ℕ) (next : ServerState F → List (Event F) → Gathered F) (env : Env F)
      (s : ServerState F) (batch : List (Event F)) (p now : F) (o : Option (Event F × P1P2Queue F))
      → GoesOn base total next
      → Level base (length batch) total s
      → Smaller s.queue o
      → OnGathered base total (after_get next env s batch p now o)
  unfolding after_get
  after_get-Level base total next env s batch p now none go l smaller = l
  after_get-Level base total next env s batch p now (some (extra, rest)) go l smaller =
      after_resolve-Level base total next env _ batch extra p now _ go
        (note_dequeue-Level base (length batch) total s rest extra now l smaller)

  gather-Level :
      (env : Env F) (clock : ℕ → F) (base : ℤ) (total n : ℕ) (target : ℤ) (p : F)
      → IsEquality env.selection.equal
      → GoesOn base total (λ t b. gather env clock n target p t b)
  unfolding gather
  gather-Level env clock base total zero target p law s batch l = l
  gather-Level env clock base total (suc n) target p law s batch l =
      elim (Bool-cases (le_ℤ target (pos (length batch)))) [
        | inl full ↦ rw full l
        | inr room ↦ rw room (
            after_get-Level base total (λ t b. gather env clock n target p t b) env s batch p
              (clock n) (try_get env.selection s.queue (clock n))
              (gather-Level env clock base total n target p law) l
              (try_get-Smaller env.selection s.queue (clock n) law))
      ]

  batch_served-Level :
      (env : Env F) (base : ℤ) (total : ℕ) (reason : Reason F) (p now : F) (g : Gathered F)
      → OnGathered base total g
      → OnFine (Level base 0 total) (batch_served env reason p now g)
  unfolding batch_served
  batch_served-Level env base total reason p now (s, batch, posts, true) l =
      serve_batch-Level env base total s batch reason p now l
  batch_served-Level env base total reason p now (s, batch, posts, false) l = tt

  handle_resolved-Level :
      (env : Env F) (clock : ℕ → F) (base : ℤ) (total : ℕ) (s : ServerState F) (e : Event F)
      (p now : F) (o : Option (Decision × Reason F))
      → IsEquality env.selection.equal
      → Level base 1 total s
      → OnFine (Level base 0 total) (handle_resolved env clock s e p now o)
  unfolding handle_resolved
  handle_resolved-Level env clock base total s e p now none law l = tt
  handle_resolved-Level env clock base total s e p now (some (stream_now, reason)) law l =
      serve-Level env base 0 total s e reason p now l
  handle_resolved-Level env clock base total s e p now (some (micro_batch, reason)) law l =
      let fuel = size s.queue + 1 in
      let target = batch_size p default_b_min default_b_max in
      batch_served-Level env base total reason p now (gather env clock fuel target p s (e ∷ []))
        (gather-Level env clock base total fuel target p law s (e ∷ []) l)
  handle_resolved-Level env clock base total s e p now (some (defer, reason)) law l =
      dispatch_off_path-Level env base 0 total s e defer reason now tt l
  handle_resolved-Level env clock base total s e p now (some (sample_rollup, reason)) law l =
      dispatch_off_path-Level env base 0 total s e sample_rollup reason now tt l
  handle_resolved-Level env clock base total s e p now (some (Decision.shed, reason)) law l =
      dispatch_off_path-Level env base 0 total s e Decision.shed reason now tt l

  turn_on-Level :
      (env : Env F) (clock : ℕ → F) (base : ℤ) (total : ℕ) (s : ServerState F) (now : F)
      (o : Option (Event F × P1P2Queue F))
      → IsEquality env.selection.equal
      → Smaller s.queue o
      → Level base 0 total s
      → OnFine (Level base 0 total) (turn_on env clock s now o)
  unfolding turn_on handle
  turn_on-Level env clock base total s now none law smaller l = l
  turn_on-Level env clock base total s now (some (e, rest)) law smaller l =
      let noted = note_dequeue (record s { queue = rest }) e now in
      handle_resolved-Level env clock base total (pressure_value env noted now).0 e _ now _ law (
        pressure_value-Level env base 1 total noted now
          (note_dequeue-Level base 0 total s rest e now l smaller))

  -- what a turn that raised no exception leaves as it was
  abbrev pub Settled : ServerState F → Served F → Type 0
  Settled s (t, posts, true) =
      (t.in_flight ≡ s.in_flight) × (size t.queue + finished t ≡ size s.queue + finished s)
  Settled s (t, posts, false) = Unit

  Settled-Level :
      (s : ServerState F) (x : Served F)
      → OnFine (Level s.in_flight 0 (size s.queue + finished s)) x
      → Settled s x
  Settled-Level s (t, posts, true) l =
      (l.in_flight ∙ plus_zero s.in_flight, omega (arith, l.counted))
  Settled-Level s (t, posts, false) l = tt

  -- Where events that == identifies are identical, a turn of a worker that raises no exception
  -- leaves as many events in flight as before, and as many events that wait or are counted as
  -- processed, deferred, sampled or shed.
  pub turn-Settled :
      (env : Env F) (clock : ℕ → F) (s : ServerState F) (now : F)
      → IsEquality env.selection.equal
      → Settled s (turn env clock s now)
  unfolding turn
  turn-Settled env clock s now law = Settled-Level s (turn env clock s now) (
      turn_on-Level env clock s.in_flight (size s.queue + finished s) s now
        (try_get env.selection s.queue now) law (try_get-Smaller env.selection s.queue now law)
        (record { in_flight = sym (plus_zero s.in_flight); counted = omega arith }))
