-- ===== src/Transport/Batches.antt =====
-- Where the submitted events of the batcher are, in each phase of its task.
use mathlib.Core.List.{append_assoc, append-nil}
use vh26_crackers.Base.{
  ◌≡◌, refl, sym, ◌∙◌, ap, ℕ, ◌+◌, ◌<◌, leb, List, [], ◌∷◌, ◌++◌, length, length-append, none,
  Floats, arith, Bool-cases, inl, inr, subst, if-pos, if-neg,
}
use vh26_crackers.Contracts.{Event}
use vh26_crackers.Transport.Batcher.{
  Phase, Batcher, Turn, submit, got, timed_out, dispatch_ended, cancelled, stop, after_dispatch,
  after_timeout, with_event, get_from, after_get, turn, turns,
}
use vh26_crackers.Transport.Flushing.{
  joined, ByPhase, Holds, flush-Holds, flush_some-Holds, submit-ByPhase, stop_waiting-Holds,
  stop_flushing-Holds,
}

module _ {F : Type 0} where
  abbrev pub submitted : List (Turn F) → List (Event F)
  submitted [] = []
  submitted (submit e ∷ ts) = e ∷ submitted ts
  submitted (_ ∷ ts) = submitted ts

  dispatch_ended-Holds :
      (n : ℕ) (seen : List (Event F)) (p : Phase) (b : Batcher F)
      → 0 < n
      → b.phase ≡ p
      → Holds n seen b
      → ByPhase n seen p b
      → Holds n seen (after_dispatch p b)
  unfolding after_dispatch
  dispatch_ended-Holds n seen Phase.flushing b positive now h k = record {
    same_size = h.same_size;
    fits = h.fits;
    by_phase = (k.0, positive, k.3);
  }
  dispatch_ended-Holds n seen Phase.waiting b positive now h k = h
  dispatch_ended-Holds n seen Phase.stopped_waiting b positive now h k = h
  dispatch_ended-Holds n seen Phase.stopped_flushing b positive now h k = h

  timed_out-Holds :
      (n : ℕ) (seen : List (Event F)) (p : Phase) (b : Batcher F)
      → b.phase ≡ p
      → Holds n seen b
      → ByPhase n seen p b
      → Holds n seen (after_timeout p b)
  unfolding after_timeout
  timed_out-Holds n seen Phase.waiting b now h k =
      flush_some-Holds n seen b b.buffer refl now h.same_size h.fits k
  timed_out-Holds n seen Phase.flushing b now h k = h
  timed_out-Holds n seen Phase.stopped_waiting b now h k = h
  timed_out-Holds n seen Phase.stopped_flushing b now h k = h

  cancelled-Holds :
      (n : ℕ) (seen : List (Event F)) (p : Phase) (b : Batcher F)
      → Holds n seen b
      → ByPhase n seen p b
      → Holds n seen (stop p b)
  unfolding stop
  cancelled-Holds n seen Phase.waiting b h k =
      stop_waiting-Holds n seen b b.buffer refl h.same_size h.fits k
  cancelled-Holds n seen Phase.flushing b h k =
      stop_flushing-Holds n seen b b.buffer refl h.same_size h.fits k
  cancelled-Holds n seen Phase.stopped_waiting b h k = h
  cancelled-Holds n seen Phase.stopped_flushing b h k = h

module _ {F : Type 0} ⦃fl : Floats F⦄ where
  get_from-Holds :
      (n : ℕ) (seen : List (Event F)) (b : Batcher F) (queue : List (Event F)) (now : F)
      → b.queue ≡ queue
      → b.phase ≡ Phase.waiting
      → Holds n seen b
      → ByPhase n seen Phase.waiting b
      → Holds n seen (get_from queue b now)
  unfolding get_from with_event
  get_from-Holds n seen b [] now same idle h k = h
  get_from-Holds n seen b (e ∷ rest) now same idle h k =
      let longer = length-append b.buffer (e ∷ []) in
      let all_seen : joined b.flushed ++ ((b.buffer ++ e ∷ []) ++ rest) ≡ seen =
        ap (λ zs. joined b.flushed ++ zs)
          (append_assoc b.buffer (e ∷ []) rest ∙ ap (λ zs. b.buffer ++ zs) (sym same))
        ∙ k.0 in
      elim (Bool-cases (leb b.batch_size (length b.buffer + 1))) [
        | inl full ↦ subst (Holds n seen) (sym (if-pos _ _ full)) (
            flush-Holds n seen (with_event b e rest now) h.same_size h.fits all_seen
              (omega (arith, longer), omega (arith, longer, k.1)) k.2)
        | inr small ↦ subst (Holds n seen) (sym (if-neg _ _ small)) (record {
          same_size = h.same_size;
          fits = h.fits;
          by_phase =
              subst (λ p. ByPhase n seen p (with_event b e rest now)) (sym idle)
                (all_seen, ground (arith, small, longer, h.same_size), k.2);
        })
      ]

  got-Holds :
      (n : ℕ) (seen : List (Event F)) (p : Phase) (b : Batcher F) (now : F)
      → b.phase ≡ p
      → Holds n seen b
      → ByPhase n seen p b
      → Holds n seen (after_get p b now)
  unfolding after_get
  got-Holds n seen Phase.waiting b now idle h k = get_from-Holds n seen b b.queue now refl idle h k
  got-Holds n seen Phase.flushing b now idle h k = h
  got-Holds n seen Phase.stopped_waiting b now idle h k = h
  got-Holds n seen Phase.stopped_flushing b now idle h k = h

  turns-Holds :
      (n : ℕ) (ts : List (Turn F)) (seen : List (Event F)) (b : Batcher F)
      → 0 < n
      → Holds n seen b
      → Holds n (seen ++ submitted ts) (turns b ts)
  unfolding turns turn
  turns-Holds n [] seen b positive h = subst (λ xs. Holds n xs b) (sym (append-nil seen)) h
  turns-Holds n (submit e ∷ ts) seen b positive h =
      subst (λ xs. Holds n xs (turns (turn b (submit e)) ts))
        (append_assoc seen (e ∷ []) (submitted ts))
        (turns-Holds n ts (seen ++ e ∷ []) (turn b (submit e)) positive (record {
          same_size = h.same_size;
          fits = h.fits;
          by_phase = submit-ByPhase n seen b.phase b e h.by_phase;
        }))
  turns-Holds n (got now ∷ ts) seen b positive h =
      turns-Holds n ts seen (turn b (got now)) positive
        (got-Holds n seen b.phase b now refl h h.by_phase)
  turns-Holds n (timed_out ∷ ts) seen b positive h =
      turns-Holds n ts seen (turn b timed_out) positive
        (timed_out-Holds n seen b.phase b refl h h.by_phase)
  turns-Holds n (dispatch_ended ∷ ts) seen b positive h =
      turns-Holds n ts seen (turn b dispatch_ended) positive
        (dispatch_ended-Holds n seen b.phase b positive refl h h.by_phase)
  turns-Holds n (cancelled ∷ ts) seen b positive h =
      turns-Holds n ts seen (turn b cancelled) positive
        (cancelled-Holds n seen b.phase b h h.by_phase)

  abbrev pub new_batcher : ℕ → F → Batcher F
  new_batcher n window = record {
    batch_size = n;
    batch_window_seconds = window;
    queue = [];
    buffer = [];
    deadline = none;
    phase = Phase.waiting;
    flushed = [];
    flushed_on_stop = [];
  }

  -- For a batch size that is not zero and any submissions, gets, timeouts, ends of dispatches
  -- and cancellations, no batch of `_flush` is empty or too large. While the task waits, the
  -- batches, the buffer and the queue are together, in order, the events submitted; during a
  -- dispatch the batches, whose last is the buffer, and the queue are. A task cancelled while it
  -- waits has dispatched its buffer too, and one cancelled during a dispatch has dispatched the
  -- last batch again; what is queued stays undispatched.
  pub batcher-Holds :
      (n : ℕ) (window : F) (ts : List (Turn F))
      → 0 < n
      → Holds n (submitted ts) (turns (new_batcher n window) ts)
  batcher-Holds n window ts positive =
      turns-Holds n ts [] (new_batcher n window) positive
        (record { same_size = refl; fits = tt; by_phase = (refl, positive, refl) })
