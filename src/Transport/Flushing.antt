-- ===== src/Transport/Flushing.antt =====
-- Where the events of the batcher are, by the phase of its task, around one flush or submission.
use mathlib.Core.List.{append_assoc, append-nil}
use vh26_crackers.Base.{
  ◌≡◌, refl, sym, ◌∙◌, ap, ℕ, ◌≤◌, ◌<◌, List, [], ◌∷◌, ◌++◌, length, arith, All, All-append, subst,
}
use vh26_crackers.Contracts.{Event}
use vh26_crackers.Transport.Batcher.{Phase, Batcher, flush, flush_some, flush_on_stop}

module _ {F : Type 0} where
  abbrev pub joined : List (List (Event F)) → List (Event F)
  joined [] = []
  joined (b ∷ bs) = b ++ joined bs

  -- a batch is neither empty nor too large
  abbrev pub Fits : ℕ → List (Event F) → Type 0
  Fits n batch = (0 < length batch) × (length batch ≤ n)

  -- the last batch that was given to the dispatch function
  pub record Ends (batches : List (List (Event F))) (last : List (Event F)) : Type 0 where
    pub before : List (List (Event F))
    pub same : batches ≡ before ++ last ∷ []

  -- The events so far, in their order, by the phase of the task. While it waits, the buffer is not
  -- dispatched; during a dispatch the buffer is the last batch; a task that was cancelled while it
  -- waited has dispatched the buffer, and one that was cancelled during a dispatch has dispatched
  -- the last batch a second time. What is queued is dispatched in no phase.
  abbrev pub ByPhase : ℕ → List (Event F) → Phase → Batcher F → Type 0
  ByPhase n seen Phase.waiting b =
      (joined b.flushed ++ (b.buffer ++ b.queue) ≡ seen)
      × (length b.buffer < n)
      × (b.flushed_on_stop ≡ [])
  ByPhase n seen Phase.flushing b =
      (joined b.flushed ++ b.queue ≡ seen)
      × Ends b.flushed b.buffer
      × Fits n b.buffer
      × (b.flushed_on_stop ≡ [])
  ByPhase n seen Phase.stopped_waiting b =
      (joined b.flushed ++ (joined b.flushed_on_stop ++ b.queue) ≡ seen)
      × All (Fits n) b.flushed_on_stop
  ByPhase n seen Phase.stopped_flushing b =
      (joined b.flushed ++ b.queue ≡ seen)
      × Ends b.flushed b.buffer
      × (b.flushed_on_stop ≡ b.buffer ∷ [])

  pub record Holds (n : ℕ) (seen : List (Event F)) (b : Batcher F) : Type 0 where
    pub same_size : b.batch_size ≡ n
    pub fits : All (Fits n) b.flushed
    pub by_phase : ByPhase n seen b.phase b

  joined-append : (xs ys : List (List (Event F))) → joined (xs ++ ys) ≡ joined xs ++ joined ys
  joined-append [] ys = refl
  joined-append (x ∷ xs) ys =
      ap (λ zs. x ++ zs) (joined-append xs ys) ∙ sym (append_assoc x (joined xs) (joined ys))

  joined-flush :
      (flushed : List (List (Event F))) (buffer queue : List (Event F))
      → joined (flushed ++ buffer ∷ []) ++ queue ≡ joined flushed ++ (buffer ++ queue)
  joined-flush flushed buffer queue =
      ap (λ zs. zs ++ queue)
        (joined-append flushed (buffer ∷ []) ∙ ap (λ zs. joined flushed ++ zs) (append-nil buffer))
      ∙ append_assoc (joined flushed) buffer queue

  pub flush-Holds :
      (n : ℕ) (seen : List (Event F)) (b : Batcher F)
      → b.batch_size ≡ n
      → All (Fits n) b.flushed
      → joined b.flushed ++ (b.buffer ++ b.queue) ≡ seen
      → Fits n b.buffer
      → b.flushed_on_stop ≡ []
      → Holds n seen (flush b)
  unfolding flush
  flush-Holds n seen b size_ fits all_seen own none_yet = record {
    same_size = size_;
    fits = All-append (Fits n) b.flushed (b.buffer ∷ []) fits (own, tt);
    by_phase = (
      joined-flush b.flushed b.buffer b.queue ∙ all_seen,
      record { before = b.flushed; same = refl },
      own,
      none_yet,
    );
  }

  pub flush_some-Holds :
      (n : ℕ) (seen : List (Event F)) (b : Batcher F) (buffer : List (Event F))
      → b.buffer ≡ buffer
      → b.phase ≡ Phase.waiting
      → b.batch_size ≡ n
      → All (Fits n) b.flushed
      → ByPhase n seen Phase.waiting b
      → Holds n seen (flush_some buffer b)
  unfolding flush_some
  flush_some-Holds n seen b [] same idle size_ fits h = record {
    same_size = size_;
    fits = fits;
    by_phase = subst (λ p. ByPhase n seen p b) (sym idle) h;
  }
  flush_some-Holds n seen b (e ∷ es) same idle size_ fits h =
      flush-Holds n seen b size_ fits h.0 (omega (arith, ap length same), omega (arith, h.1)) h.2

  -- one more at the end of a sum of two or of three
  snoc₂ :
      (xs ys seen : List (Event F)) (e : Event F)
      → xs ++ ys ≡ seen
      → xs ++ (ys ++ e ∷ []) ≡ seen ++ e ∷ []
  snoc₂ xs ys seen e h = sym (append_assoc xs ys (e ∷ [])) ∙ ap (λ zs. zs ++ e ∷ []) h

  snoc₃ :
      (xs ys zs seen : List (Event F)) (e : Event F)
      → xs ++ (ys ++ zs) ≡ seen
      → xs ++ (ys ++ (zs ++ e ∷ [])) ≡ seen ++ e ∷ []
  snoc₃ xs ys zs seen e h =
      ap (λ ws. xs ++ ws) (sym (append_assoc ys zs (e ∷ []))) ∙ snoc₂ xs (ys ++ zs) seen e h

  pub submit-ByPhase :
      (n : ℕ) (seen : List (Event F)) (p : Phase) (b : Batcher F) (e : Event F)
      → ByPhase n seen p b
      → ByPhase n (seen ++ e ∷ []) p (record b { queue = b.queue ++ e ∷ [] })
  submit-ByPhase n seen Phase.waiting b e h =
      (snoc₃ (joined b.flushed) b.buffer b.queue seen e h.0, h.1, h.2)
  submit-ByPhase n seen Phase.flushing b e h =
      (snoc₂ (joined b.flushed) b.queue seen e h.0, h.1, h.2, h.3)
  submit-ByPhase n seen Phase.stopped_waiting b e h =
      (snoc₃ (joined b.flushed) (joined b.flushed_on_stop) b.queue seen e h.0, h.1)
  submit-ByPhase n seen Phase.stopped_flushing b e h =
      (snoc₂ (joined b.flushed) b.queue seen e h.0, h.1, h.2)

  pub stop_waiting-Holds :
      (n : ℕ) (seen : List (Event F)) (b : Batcher F) (buffer : List (Event F))
      → b.buffer ≡ buffer
      → b.batch_size ≡ n
      → All (Fits n) b.flushed
      → ByPhase n seen Phase.waiting b
      → Holds n seen (flush_on_stop buffer (record b { phase = Phase.stopped_waiting }))
  unfolding flush_on_stop
  stop_waiting-Holds n seen b [] same size_ fits h = record {
    same_size = size_;
    fits = fits;
    by_phase = rw (h.2) (ap (λ xs. joined b.flushed ++ (xs ++ b.queue)) (sym same) ∙ h.0, tt);
  }
  stop_waiting-Holds n seen b (e ∷ es) same size_ fits h = record {
    same_size = size_;
    fits = fits;
    by_phase = (
      ap (λ xs. joined b.flushed ++ (xs ++ b.queue)) (append-nil b.buffer) ∙ h.0,
      ((omega (arith, ap length same), omega (arith, h.1)), tt),
    );
  }

  pub stop_flushing-Holds :
      (n : ℕ) (seen : List (Event F)) (b : Batcher F) (buffer : List (Event F))
      → b.buffer ≡ buffer
      → b.batch_size ≡ n
      → All (Fits n) b.flushed
      → ByPhase n seen Phase.flushing b
      → Holds n seen (flush_on_stop buffer (record b { phase = Phase.stopped_flushing }))
  unfolding flush_on_stop
  stop_flushing-Holds n seen b [] same size_ fits h = absurd (omega (arith, ap length same, h.2.0))
  stop_flushing-Holds n seen b (e ∷ es) same size_ fits h = record {
    same_size = size_;
    fits = fits;
    by_phase = (h.0, h.1, refl);
  }
