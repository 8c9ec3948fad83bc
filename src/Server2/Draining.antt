-- ===== src/Server2/Draining.antt =====
-- What is accepted by /ingest of server2, and what a killed worker leaves behind for /drain.
use vh26_crackers.Base.{
  ◌≡◌, refl, sym, ◌∙◌, ap, subst, ℕ, suc, ◌+◌, pos, ◌+ℤ◌, true, false, List, [], ◌∷◌, ◌++◌, length,
  length-append, Option, none, some, Floats, arith, Bool-cases, inl, inr, if-pos, if-neg,
}
use vh26_crackers.Contracts.{Event, Tier, p0, p1, p2, is_p0, stream_now}
use vh26_crackers.Decision.{Reason}
use vh26_crackers.Queue.{TierQueue, tier_events, append}
use vh26_crackers.Queue.Taking.{IsEquality}
use vh26_crackers.Server2.{P1P2Queue, put_at, put, size, try_get}
use vh26_crackers.Server2.State.{ServerState, Env, resolve}
use vh26_crackers.Server2.Serving.{Served}
use vh26_crackers.Server2.Handling.{turn}
use vh26_crackers.Server2.Endpoints.{
  IngestResult, timeout, has_p0, with_put, then_accept, answered, drain_result, arrived, accept_all,
  ingest, reached, resolving, killed_serving, turns,
}
use vh26_crackers.Server2.Counting.{finished, note_dequeue-Level, try_get-Smaller, Smaller}
use vh26_crackers.Server2.Leaving.{pressure_value-Level}
use vh26_crackers.Server2.Turns.{Settled, turn-Settled, plus_zero}

module _ {F : Type 0} where
  -- one more event waits, and the rest is as it was
  record Grown (n : ℕ) (s t : ServerState F) : Type 0 where
    waiting : size t.queue ≡ size s.queue + n
    in_flight : t.in_flight ≡ s.in_flight
    finished_count : finished t ≡ finished s

  abbrev GrownBy : ℕ → ServerState F → Option (ServerState F) → Type 0
  GrownBy n s none = ⊥
  GrownBy n s (some t) = Grown n s t

  length-tier_append :
      (t : TierQueue F) (e : Event F)
      → length (tier_events (append e t)) ≡ length (tier_events t) + 1
  unfolding tier_events append
  length-tier_append t e = omega (
    arith,
    length-append t.settled (t.pending ++ e ∷ []),
    length-append t.settled t.pending,
    length-append t.pending (e ∷ []),
  )

  with_put-Grown :
      (t : Tier) (s : ServerState F) (e : Event F)
      → is_p0 t ≡ false
      → GrownBy 1 s (with_put s (put_at t s.queue e))
  unfolding with_put put_at size
  with_put-Grown p0 s e h = cc
  with_put-Grown p1 s e h = record {
    waiting = omega (arith, length-tier_append s.queue.p1_queue e);
    in_flight = refl;
    finished_count = refl;
  }
  with_put-Grown p2 s e h = record {
    waiting = omega (arith, length-tier_append s.queue.p2_queue e);
    in_flight = refl;
    finished_count = refl;
  }

  then_accept-Grown :
      (n : ℕ) (s : ServerState F) (rest : ServerState F → Option (ServerState F))
      (o : Option (ServerState F))
      → GrownBy 1 s o
      → ((t : ServerState F) → GrownBy n t (rest t))
      → GrownBy (suc n) s (then_accept rest o)
  unfolding then_accept
  then_accept-Grown n s rest none g go = g
  then_accept-Grown n s rest (some t) g go = later (rest t) (go t)
    where
      later : (o : Option (ServerState F)) → GrownBy n t o → GrownBy (suc n) s o
      later none h = h
      later (some u) h = record {
        waiting = omega (arith, g.waiting, h.waiting);
        in_flight = h.in_flight ∙ g.in_flight;
        finished_count = h.finished_count ∙ g.finished_count;
      }

  -- what the endpoint answers, and how the queue grows with it
  abbrev pub Answered : ServerState F → List (Event F) → ServerState F × IngestResult → Type 0
  Answered s es (t, IngestResult.failed) = ⊥
  Answered s es (t, IngestResult.accepted n) =
      (s.draining ≡ false)
      × (has_p0 es ≡ false)
      × (n ≡ length es)
      × (size t.queue ≡ size s.queue + n)
      × (t.in_flight ≡ s.in_flight)
  Answered s es (t, IngestResult.rejected_draining) = (s.draining ≡ true) × (t ≡ s)
  Answered s es (t, IngestResult.rejected_p0) = (s.draining ≡ false) × (has_p0 es ≡ true) × (t ≡ s)

  answered-Answered :
      (s : ServerState F) (es : List (Event F)) (o : Option (ServerState F))
      → s.draining ≡ false
      → has_p0 es ≡ false
      → GrownBy (length es) s o
      → Answered s es (answered s (length es) o)
  unfolding answered
  answered-Answered s es none open_ clean g = g
  answered-Answered s es (some t) open_ clean g = (open_, clean, refl, g.waiting, g.in_flight)

module _ {F : Type 0} ⦃fl : Floats F⦄ where
  arrived-GrownBy :
      (env : Env F) (s : ServerState F) (e : Event F) (now : F) (o : Option (ServerState F))
      → GrownBy 1 (arrived env s e now) o
      → GrownBy 1 s o
  unfolding arrived
  arrived-GrownBy env s e now none g = g
  arrived-GrownBy env s e now (some t) g = record {
    waiting = g.waiting;
    in_flight = g.in_flight;
    finished_count = g.finished_count;
  }

  accept_all-Grown :
      (env : Env F) (s : ServerState F) (es : List (Event F)) (now : F)
      → has_p0 es ≡ false
      → GrownBy (length es) s (accept_all env s es now)
  unfolding accept_all has_p0 put arrived
  accept_all-Grown env s [] now clean = record {
    waiting = omega arith;
    in_flight = refl;
    finished_count = refl;
  }
  accept_all-Grown env s (e ∷ es) now clean =
      let own = with_put-Grown e.tier (arrived env s e now) e (ground (arith, clean)) in
      then_accept-Grown (length es) s (λ t. accept_all env t es now)
        (with_put (arrived env s e now) (put s.queue e))
        (arrived-GrownBy env s e now (with_put (arrived env s e now) (put s.queue e)) own)
        (λ t. accept_all-Grown env t es now (ground (arith, clean)))

  -- The /ingest endpoint of server2 never fails with a KeyError: it refuses a batch while
  -- draining, and else one that has a P0 event, and leaves the state as it was; it accepts any
  -- other batch whole, so that the queue grows by its length and no more events are in flight.
  pub ingest_lem :
      (env : Env F) (s : ServerState F) (es : List (Event F)) (now : F)
      → Answered s es (ingest env s es now)
  unfolding ingest
  ingest_lem env s es now = elim (Bool-cases s.draining) [
    | inl closing ↦ subst (Answered s es) (sym (if-pos _ _ closing)) (closing, refl)
    | inr open_ ↦ elim (Bool-cases (has_p0 es)) [
      | inl bad ↦ subst (Answered s es) (sym (if-neg _ _ open_ ∙ if-pos _ _ bad)) (open_, bad, refl)
      | inr clean ↦ subst (Answered s es) (sym (if-neg _ _ open_ ∙ if-neg _ _ clean)) (
          answered-Answered s es (accept_all env s es now) open_ clean
            (accept_all-Grown env s es now clean))
    ]
  ]

  -- the events in flight after turns without exceptions
  Settled-in_flight :
      (s : ServerState F) (x : Served F) → Settled s x → x.2 ≡ true → x.0.in_flight ≡ s.in_flight
  Settled-in_flight s (t, posts, true) h fine = h.0
  Settled-in_flight s (t, posts, false) h fine = cc

  turns-in_flight :
      (env : Env F) (clock : ℕ → F) (ts : List F) (s : ServerState F)
      → IsEquality env.selection.equal
      → (turns env clock s ts).1 ≡ true
      → (turns env clock s ts).0.in_flight ≡ s.in_flight
  unfolding turns
  turns-in_flight env clock [] s law fine = refl
  turns-in_flight env clock (t ∷ ts) s law fine =
      let one = turn env clock s t in
      turns-in_flight env clock ts one.0 law (ground (arith, fine))
      ∙ Settled-in_flight s one (turn-Settled env clock s t law) (ground (arith, fine))

  resolving-in_flight :
      (env : Env F) (s : ServerState F) (e : Event F) (rest : P1P2Queue F) (now : F)
      → size rest + 1 ≡ size s.queue
      → (resolving env s e rest now).0.in_flight ≡ s.in_flight +ℤ pos 1
  unfolding resolving
  resolving-in_flight env s e rest now smaller =
      (pressure_value-Level env s.in_flight 1 (size s.queue + finished s) _ now (
        note_dequeue-Level s.in_flight 0 (size s.queue + finished s) s rest e now
          (record { in_flight = sym (plus_zero s.in_flight); counted = omega arith })
          smaller)).in_flight

  -- an event that is streamed is in flight when its worker is killed
  killed_serving-in_flight :
      (env : Env F) (clock : ℕ → F) (s : ServerState F) (e : Event F) (rest : P1P2Queue F) (now : F)
      (reason : Reason F)
      → size rest + 1 ≡ size s.queue
      → (let at = resolving env s e rest now in resolve at.0 e at.1 now ≡ some (stream_now, reason))
      → (killed_serving env clock s e rest now).in_flight ≡ s.in_flight +ℤ pos 1
  unfolding killed_serving reached
  killed_serving-in_flight env clock s e rest now reason smaller streams =
      rw streams (resolving-in_flight env s e rest now smaller)

  Smaller-some :
      (q : P1P2Queue F) (o : Option (Event F × P1P2Queue F)) (e : Event F) (rest : P1P2Queue F)
      → Smaller q o
      → o ≡ some (e, rest)
      → size rest + 1 ≡ size q
  Smaller-some q none e rest h found = cc
  Smaller-some q (some x) e rest h found = subst (Smaller q) found h

  timeout_if_busy : (s : ServerState F) → s.in_flight ≡ pos 1 → drain_result s ≡ timeout
  unfolding drain_result
  timeout_if_busy s busy = rw busy (ground arith)

  -- Where == is the identity of events, nothing is in flight, and a worker is killed during the
  -- sleep of an event that it took and decided to stream, the event stays counted as in flight:
  -- however many turns without exceptions follow, /drain ends in a timeout.
  pub killed_never_drains :
      (env : Env F) (clock : ℕ → F) (s : ServerState F) (e : Event F) (rest : P1P2Queue F) (now : F)
      (ts : List F) (reason : Reason F)
      → IsEquality env.selection.equal
      → s.in_flight ≡ pos 0
      → try_get env.selection s.queue now ≡ some (e, rest)
      → (let at = resolving env s e rest now in resolve at.0 e at.1 now ≡ some (stream_now, reason))
      → (turns env clock (killed_serving env clock s e rest now) ts).1 ≡ true
      → drain_result (turns env clock (killed_serving env clock s e rest now) ts).0 ≡ timeout
  killed_never_drains env clock s e rest now ts reason law idle found streams fine =
      let smaller =
        Smaller-some s.queue (try_get env.selection s.queue now) e rest
          (try_get-Smaller env.selection s.queue now law) found in
      timeout_if_busy _ (
        turns-in_flight env clock ts _ law fine
        ∙ killed_serving-in_flight env clock s e rest now reason smaller streams
        ∙ ap (λ z. z +ℤ pos 1) idle)
