-- ===== src/Worker/Turns.antt =====
-- One worker from an await to the next: what it holds at the end is what its stage says.
use mathlib.Core.List.Perm
use mathlib.Core.List.{perm_append_singleton, append-nil}
use vh26_crackers.Base.{
  ◌≡◌, refl, subst, ℕ, zero, suc, ◌+◌, ◌-◌, ℤ, pos, le_ℤ, Bool, true, false, List, [], ◌∷◌, ◌++◌,
  length, map, Option, none, some, Floats, Bool-cases, inl, inr,
}
use vh26_crackers.Contracts.{Event, Decision, stream_now, micro_batch, defer, sample_rollup}
use vh26_crackers.Decision.{Reason, batch_size, default_b_min, default_b_max}
use vh26_crackers.Checkpoint
use vh26_crackers.Deferral.Parked.{parked}
use vh26_crackers.Queue.{EventQueue, qsize}
use vh26_crackers.Queue.Taking.{IsEquality, TakesOne}
use vh26_crackers.Queue.Naive.{try_take, try_take-TakesOne}
use vh26_crackers.Metrics.Current.{current_pressure}
use vh26_crackers.Worker.Pool.{
  Pool, Setup, Stage, Progress, awaits, returns, raises, begun, unbegun, event_of, drop_all,
  finally_done, recover_worker, selection, got, try_get, decided, observe,
}
use vh26_crackers.Worker.Serving.{
  begin_all, serve, serve_batch, done_times, dispatch_off_path, completed,
}
use vh26_crackers.Worker.Handling.{
  batch_over, next_member, after_member, after_done, after_extra, run_done, run_on, owed, killed,
  dealt, after_get, gather, fill, dispatched, handle_resolved, handle, taken_on, resume, advance,
}
use vh26_crackers.Worker.Keeping.{Local, Apart}
use vh26_crackers.Worker.Moves.{Local-begin, Local-take, Local-same, Local-loose, Local-drop}
use vh26_crackers.Worker.Places.{
  finally_done-Local, done_times-Local, recover_worker-Local, begin_all-Local, is_off_path,
  dispatch_off_path-Local, OnDone, completed-OnDone,
}

module _ {F S : Type 0} (w : ℤ) (others : List (Checkpoint.Row F)) (total : List (Event F)) where
  -- a worker at an await holds what its stage says; one whose call has ended holds events with a
  -- row at most
  abbrev pub Fits : Pool F S × Progress F → Type 0
  Fits (p, awaits stage) = Local p w others total (begun stage) (unbegun stage)
  Fits (p, returns) = Local p w others total [] []
  Fits (p, raises) = (mine : List (Event F)) × Local p w others total mine []

  batch_over-Fits : (x : Pool F S × Bool) → Local x.0 w others total [] [] → Fits (batch_over x)
  unfolding batch_over
  batch_over-Fits (p, true) l = l
  batch_over-Fits (p, false) l = ([], l)

  next_member-Fits :
      (p : Pool F S) (n : ℕ) (now : F) (es : List (Event F))
      → Local p w others total es []
      → Fits (next_member p n now es)
  unfolding next_member
  next_member-Fits p n now [] l =
      let over : Pool F S = record p { batched_count = p.batched_count + n } in
      batch_over-Fits (done_times (n - 1) over) (
        done_times-Local w others total (n - 1) over [] []
          (Local-same w others total p over [] [] [] refl refl refl (Perm.refl []) l))
  next_member-Fits p n now (e ∷ es) l = l

  after_member-Fits :
      (n : ℕ) (now : F) (e : Event F) (es : List (Event F)) (x : Pool F S × Bool)
      → OnDone w others total e es [] x
      → Fits (after_member n now es x)
  unfolding after_member
  after_member-Fits n now e es (p, true) l = next_member-Fits p n now es l
  after_member-Fits n now e es (p, false) l =
      (e ∷ es, done_times-Local w others total (n - 1) p (e ∷ es) [] l)

  -- the rest of a call, from every pool in which the worker has the batch in hand
  abbrev GoesOn : List (Event F) → (Pool F S → Pool F S × Progress F) → Type 0
  GoesOn batch next = (p : Pool F S) → Local p w others total [] batch → Fits (next p)

  after_done-Fits :
      (next : Pool F S → Pool F S × Progress F) (batch : List (Event F)) (x : Pool F S × Bool)
      → GoesOn batch next
      → (mine : List (Event F)) → Local x.0 w others total mine batch
      → (x.1 ≡ true → mine ≡ [])
      → Fits (after_done next batch x)
  unfolding after_done
  after_done-Fits next batch (p, true) go mine l none_left =
      go p (subst (λ zs. Local p w others total zs batch) (none_left refl) l)
  after_done-Fits next batch (p, false) go mine l none_left =
      (mine, Local-drop w others total p mine batch l)

  after_extra-Fits :
      (next : Pool F S → Pool F S × Progress F) (batch : List (Event F)) (x : Pool F S × Bool)
      → GoesOn batch next
      → (mine : List (Event F)) → Local x.0 w others total mine batch
      → (x.1 ≡ true → mine ≡ [])
      → Fits (after_extra next batch x)
  unfolding after_extra finally_done
  after_extra-Fits next batch (p, true) go mine l none_left =
      after_done-Fits next batch (finally_done p true) go mine
        (finally_done-Local w others total p true mine batch l) (λ _. none_left refl)
  after_extra-Fits next batch (p, false) go mine l none_left =
      after_done-Fits next batch (finally_done p false) go mine
        (finally_done-Local w others total p false mine batch l) (λ h. cc)

  after_served-Fits :
      (next : Pool F S → Pool F S × Progress F) (batch : List (Event F)) (e : Event F)
      (x : Pool F S × Bool)
      → GoesOn batch next
      → OnDone w others total e [] batch x
      → Fits (after_extra next batch x)
  after_served-Fits next batch e (p, true) go l =
      after_extra-Fits next batch (p, true) go [] l (λ _. refl)
  after_served-Fits next batch e (p, false) go l =
      after_extra-Fits next batch (p, false) go (e ∷ []) l (λ h. cc)

  served-Fits :
      (e : Event F) (x : Pool F S × Bool) → OnDone w others total e [] [] x → Fits (dispatched x)
  unfolding dispatched
  served-Fits e (p, true) l = l
  served-Fits e (p, false) l = (e ∷ [], l)

  left-Fits : (x : Pool F S × Bool) → Local x.0 w others total [] [] → Fits (dispatched x)
  unfolding dispatched
  left-Fits (p, true) l = l
  left-Fits (p, false) l = ([], l)

  serve_batch-Fits :
      (p : Pool F S) (batch : List (Event F)) (now : F)
      → Apart others total
      → Local p w others total [] batch
      → Fits (serve_batch p batch w now)
  unfolding serve_batch
  serve_batch-Fits p batch now u l =
      subst (λ zs. Local (begin_all p batch w now) w others total zs []) (append-nil batch)
        (begin_all-Local w others total p batch [] now u l)

  -- what a stage says of the pool, at the end of a turn
  abbrev pub Stands : Pool F S × Stage F → Type 0
  Stands (p, stage) = Local p w others total (begun stage) (unbegun stage)

  run_done-Stands :
      (now : F) (x : Pool F S × Bool) → Local x.0 w others total [] [] → Stands (run_done w now x)
  unfolding run_done
  run_done-Stands now (p, true) l = l
  run_done-Stands now (p, false) l = recover_worker-Local w others total p [] now l

  run_on-Stands : (now : F) (x : Pool F S × Progress F) → Fits x → Stands (run_on w now x)
  unfolding run_on
  run_on-Stands now (p, awaits stage) l = l
  run_on-Stands now (p, returns) l =
      run_done-Stands now (finally_done p true) (finally_done-Local w others total p true [] [] l)
  run_on-Stands now (p, raises) (mine, l) =
      let recovered = recover_worker p w now in
      run_done-Stands now (finally_done recovered true) (
        finally_done-Local w others total recovered true [] []
          (recover_worker-Local w others total p mine now l))

  -- a killed worker's rows are handed back, and what it held without a row is dropped
  pub killed-Stands :
      (p : Pool F S) (stage : Stage F) (now : F)
      → Local p w others total (begun stage) (unbegun stage)
      → Stands (killed p w stage now)
  unfolding killed
  killed-Stands p stage now l =
      let left = drop_all (unbegun stage) p in
      recover_worker-Local w others total (done_times (owed stage) left).0 (begun stage) now (
        done_times-Local w others total (owed stage) left (begun stage) []
          (Local-drop w others total p (begun stage) (unbegun stage) l))

module _ {F S : Type 0} ⦃fl : Floats F⦄ (w : ℤ) (others : List (Checkpoint.Row F))
    (total : List (Event F)) where
  -- an event that is taken from the queue is in hand
  abbrev TookOne : List (Event F) → Option (Event F × Pool F S) → Type 0
  TookOne batch none = Unit
  TookOne batch (some (e, p)) = Local p w others total [] (e ∷ batch)

  got-TookOne :
      (p : Pool F S) (now : F) (o : Option (Event F × EventQueue F)) (batch : List (Event F))
      → TakesOne p.queue o
      → Local p w others total [] batch
      → TookOne batch (got p now o)
  unfolding got
  got-TookOne p now none batch k l = tt
  got-TookOne p now (some (e, rest)) batch k l =
      Local-take w others total p _ [] batch e refl l.buffer
        (Perm.append k.0 (Perm.refl (parked p.buffer ++ map event_of p.gone))) l

  try_get-TookOne :
      (c : Setup F S) (p : Pool F S) (now : F) (batch : List (Event F))
      → IsEquality c.equal
      → Local p w others total [] batch
      → TookOne batch (try_get c p now)
  unfolding try_get
  try_get-TookOne c p now batch law l =
      got-TookOne p now (try_take (selection c p) p.queue now) batch
        (try_take-TakesOne (selection c p) p.queue now law) l

  -- the rest of the loop, for the pool and the batch that it goes on with
  abbrev FillsOn : (Pool F S → List (Event F) → Pool F S × Progress F) → Type 0
  FillsOn next =
      (p : Pool F S) (batch : List (Event F))
      → Local p w others total [] batch
      → Fits w others total (next p batch)

  gone-Fits :
      (next : Pool F S → List (Event F) → Pool F S × Progress F) (p : Pool F S)
      (batch : List (Event F)) (extra : Event F) (d : Decision) (reason : Reason F)
      (pressure now : F)
      → Apart others total
      → FillsOn next
      → is_off_path d ≡ true
      → Local p w others total [] (extra ∷ batch)
      → Fits w others total (
          after_extra (λ p'. next p' batch) batch (dispatch_off_path p extra d reason pressure now))
  gone-Fits next p batch extra d reason pressure now u go h l =
      after_extra-Fits w others total (λ p'. next p' batch) batch
        (dispatch_off_path p extra d reason pressure now) (λ p'. go p' batch) []
        (dispatch_off_path-Local w others total p extra d reason pressure now [] batch u h l)
        (λ _. refl)

  dealt-Fits :
      (next : Pool F S → List (Event F) → Pool F S × Progress F) (p : Pool F S)
      (batch : List (Event F)) (extra : Event F) (pressure now : F) (d : Decision × Reason F)
      → Apart others total
      → FillsOn next
      → Local p w others total [] (extra ∷ batch)
      → Fits w others total (dealt next p batch w extra pressure now d)
  unfolding dealt observe serve
  dealt-Fits next p batch extra pressure now (micro_batch, reason) u go l =
      go (observe p extra micro_batch reason pressure now) (batch ++ extra ∷ []) (
        Local-same w others total p _ [] [] (batch ++ extra ∷ []) refl refl refl (Perm.refl []) (
          Local-loose w others total p [] (extra ∷ batch) (batch ++ extra ∷ [])
            (perm_append_singleton extra batch) l))
  dealt-Fits next p batch extra pressure now (stream_now, reason) u go l =
      Local-begin w others total p [] batch extra now u l
  dealt-Fits next p batch extra pressure now (defer, reason) u go l =
      gone-Fits next p batch extra defer reason pressure now u go refl l
  dealt-Fits next p batch extra pressure now (sample_rollup, reason) u go l =
      gone-Fits next p batch extra sample_rollup reason pressure now u go refl l
  dealt-Fits next p batch extra pressure now (Decision.shed, reason) u go l =
      gone-Fits next p batch extra Decision.shed reason pressure now u go refl l

  after_get-Fits :
      (next : Pool F S → List (Event F) → Pool F S × Progress F) (c : Setup F S) (p : Pool F S)
      (batch : List (Event F)) (pressure now : F) (o : Option (Event F × Pool F S))
      → Apart others total
      → FillsOn next
      → TookOne batch o
      → Local p w others total [] batch
      → Fits w others total (after_get next c p batch w pressure now o)
  unfolding after_get
  after_get-Fits next c p batch pressure now none u go k l =
      serve_batch-Fits w others total p batch now u l
  after_get-Fits next c p batch pressure now (some (extra, p')) u go k l =
      dealt-Fits next p' batch extra pressure now (decided c p' extra pressure now) u go k

  gather-Fits :
      (c : Setup F S) (clock : ℕ → F) (n : ℕ) (pressure : F)
      → IsEquality c.equal
      → Apart others total
      → FillsOn (gather c clock w n pressure)
  unfolding gather
  gather-Fits c clock zero pressure law u p batch l =
      serve_batch-Fits w others total p batch (clock (qsize p.queue)) u l
  gather-Fits c clock (suc n) pressure law u p batch l =
      elim (Bool-cases
        (le_ℤ (batch_size pressure default_b_min default_b_max) (pos (length batch)))) [
          | inl full ↦ rw full (serve_batch-Fits w others total p batch (clock (qsize p.queue)) u l)
          | inr room ↦ rw room (
              after_get-Fits (λ p' b. gather c clock w n pressure p' b) c p batch pressure
                (clock (qsize p.queue)) (try_get c p (clock (qsize p.queue))) u
                (gather-Fits c clock n pressure law u)
                (try_get-TookOne c p (clock (qsize p.queue)) batch law l) l)
        ]

  fill-Fits :
      (c : Setup F S) (clock : ℕ → F) (pressure : F)
      → IsEquality c.equal
      → Apart others total
      → FillsOn (fill c clock w pressure)
  unfolding fill
  fill-Fits c clock pressure law u p batch l =
      gather-Fits c clock (qsize p.queue + 1) pressure law u p batch l

  resolved-Fits :
      (c : Setup F S) (clock : ℕ → F) (p : Pool F S) (e : Event F) (pressure now : F)
      (d : Decision × Reason F)
      → IsEquality c.equal
      → Apart others total
      → Local p w others total [] (e ∷ [])
      → Fits w others total (handle_resolved c clock w p e pressure now d)
  unfolding handle_resolved observe serve
  resolved-Fits c clock p e pressure now (stream_now, reason) law u l =
      Local-begin w others total p [] [] e now u l
  resolved-Fits c clock p e pressure now (micro_batch, reason) law u l =
      fill-Fits c clock pressure law u (observe p e micro_batch reason pressure now) (e ∷ [])
        (Local-same w others total p _ [] [] (e ∷ []) refl refl refl (Perm.refl []) l)
  resolved-Fits c clock p e pressure now (defer, reason) law u l =
      left-Fits w others total (dispatch_off_path p e defer reason pressure now)
        (dispatch_off_path-Local w others total p e defer reason pressure now [] [] u refl l)
  resolved-Fits c clock p e pressure now (sample_rollup, reason) law u l =
      left-Fits w others total (dispatch_off_path p e sample_rollup reason pressure now) (
        dispatch_off_path-Local w others total p e sample_rollup reason pressure now [] [] u refl l)
  resolved-Fits c clock p e pressure now (Decision.shed, reason) law u l =
      left-Fits w others total (dispatch_off_path p e Decision.shed reason pressure now) (
        dispatch_off_path-Local w others total p e Decision.shed reason pressure now [] [] u refl l)

  taken_on-Fits :
      (c : Setup F S) (clock : ℕ → F) (p : Pool F S) (now : F) (o : Option (Event F × Pool F S))
      → IsEquality c.equal
      → Apart others total
      → TookOne [] o
      → Local p w others total [] []
      → Fits w others total (taken_on c clock w p now o)
  unfolding taken_on handle
  taken_on-Fits c clock p now none law u k l = l
  taken_on-Fits c clock p now (some (e, p')) law u k l =
      let at = current_pressure c.trunc c.pressure_weights c.config p'.metrics now in
      let seen : Pool F S = record p' { metrics = at.0 } in
      resolved-Fits c clock seen e at.1 now (decided c seen e at.1 now) law u
        (Local-same w others total p' seen [] [] (e ∷ []) refl refl refl (Perm.refl []) k)

  resume-Fits :
      (c : Setup F S) (clock : ℕ → F) (p : Pool F S) (stage : Stage F) (now : F)
      → IsEquality c.equal
      → Apart others total
      → Local p w others total (begun stage) (unbegun stage)
      → Fits w others total (resume c clock w p stage now)
  unfolding resume
  resume-Fits c clock p Stage.waiting now law u l =
      taken_on-Fits c clock p now (try_get c p now) law u (try_get-TookOne c p now [] law l) l
  resume-Fits c clock p (Stage.serving e) now law u l =
      served-Fits w others total e (completed c p e now)
        (completed-OnDone w others total c p e now [] [] u l)
  resume-Fits c clock p (Stage.serving_extra batch pressure extra) now law u l =
      after_served-Fits w others total (λ p'. fill c clock w pressure p' batch) batch extra
        (completed c p extra now) (λ p'. fill-Fits c clock pressure law u p' batch)
        (completed-OnDone w others total c p extra now [] batch u l)
  resume-Fits c clock p (Stage.batching batch) now law u l =
      next_member-Fits w others total p (length batch) now batch l
  resume-Fits c clock p (Stage.finishing n at []) now law u l =
      next_member-Fits w others total p n at [] l
  resume-Fits c clock p (Stage.finishing n at (e ∷ es)) now law u l =
      after_member-Fits w others total n at e es (completed c p e at)
        (completed-OnDone w others total c p e at es [] u l)

  pub advance-Stands :
      (c : Setup F S) (clock : ℕ → F) (p : Pool F S) (stage : Stage F) (now : F)
      → IsEquality c.equal
      → Apart others total
      → Local p w others total (begun stage) (unbegun stage)
      → Stands w others total (advance c clock w p stage now)
  unfolding advance
  advance-Stands c clock p stage now law u l =
      run_on-Stands w others total now (resume c clock w p stage now)
        (resume-Fits c clock p stage now law u l)
