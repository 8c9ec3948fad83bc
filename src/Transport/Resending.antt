-- ===== src/Transport/Resending.antt =====
-- Whatever the wire does, a dispatch, an ack and a sweep forget no event: what leaves an expired
-- record is in the new one.
use vh26_crackers.Base.{
  ℕ, ◌+◌, ◌≡◌, refl, true, ◌⊎◌, inl, inr, List, [], ◌∷◌, String, Option, none, some, ◌==◌, Floats,
  get, All-pop, All-put, get-All, arith, Bool-cases, values, All-map,
}
use vh26_crackers.Contracts.{Event}
use vh26_crackers.Dedup.{member}
use vh26_crackers.Transport.{
  DispatchRecord, Transport, Segment, Wire, SweepResult, record_batch, by_event_id, event_ids,
}
use vh26_crackers.Transport.Sweep.{
  run_segment, run_segments, dispatch, discard, redispatch_record, sweep_from, redispatch_expired,
}
use vh26_crackers.Transport.Held.{
  held, held-put_self, held-put_new, held-pop, put-Issued, Labelled, by_event_id-Labelled,
  member-values, get_unissued, has-by_event_id, member-set_update,
}
use vh26_crackers.Transport.{init, reset}
use vh26_crackers.Transport.Sweep.{
  Call, dispatching, acking, events_acking, sweeping, resetting, go_on, run,
}
use vh26_crackers.Transport.Safety.{Safe, SafeBut, ack-Safe, ack_by_event_ids-Safe}

module _ {F : Type 0} ⦃fl : Floats F⦄ where
  but : (es : List (Event F)) (s : Transport F) → Safe s → SafeBut es s
  but es s safe = record {
    issued = safe.issued;
    labelled = safe.labelled;
    kept = λ k other h. safe.kept k h;
  }

  record_batch-Safe :
      (s : Transport F) (server : String) (es : List (Event F)) (now : F)
      → SafeBut es s
      → Safe (record_batch s server es now)
  unfolding record_batch
  record_batch-Safe s server es now safe =
      let r : DispatchRecord F = record {
        server = server;
        dispatched_ts = now;
        events = by_event_id es [];
      } in
      let fresh = get_unissued (s.next_id + 1) s.next_id s.outstanding safe.issued (omega arith) in
      record {
        issued =
            put-Issued (s.next_id + 1) (s.next_id + 1) r s.outstanding (omega arith)
              (All-map _ _ (λ x h. omega (arith, h)) s.outstanding safe.issued);
        labelled =
            All-put ◌==◌ _ (s.next_id + 1) r s.outstanding (λ j. by_event_id-Labelled es [] tt)
              safe.labelled;
        kept = λ k h. elim (Bool-cases (member k (event_ids es))) [
          | inl mine ↦ inr (
              held-put_self k (s.next_id + 1) r s.outstanding
                (ground (arith, mine, has-by_event_id k es [])))
          | inr other ↦
              elim (safe.kept k other
                (ground (arith, h, other, member-set_update k (event_ids es) s.dispatched))) [
                  | inl done ↦ inl done
                  | inr there ↦ inr (held-put_new k (s.next_id + 1) r s.outstanding fresh there)
                ]
        ];
      }

  run_segment-Safe : (s : Transport F) (x : Segment F) → Safe s → Safe (run_segment s x)
  unfolding run_segment
  run_segment-Safe s (Segment.recorded server [] now) safe = safe
  run_segment-Safe s (Segment.recorded server (e ∷ es) now) safe =
      record_batch-Safe s server (e ∷ es) now (but (e ∷ es) s safe)
  run_segment-Safe s (Segment.acked n ids now) safe = ack-Safe s n ids now safe
  run_segment-Safe s (Segment.events_acked ids now) safe = ack_by_event_ids-Safe s ids now safe

  run_segments-Safe : (s : Transport F) (xs : List (Segment F)) → Safe s → Safe (run_segments s xs)
  unfolding run_segments
  run_segments-Safe s [] safe = safe
  run_segments-Safe s (x ∷ xs) safe =
      run_segments-Safe (run_segment s x) xs (run_segment-Safe s x safe)

  dispatch-Safe :
      (w : Wire F) (s : Transport F) (server : String) (e : Event F) (es : List (Event F))
      → SafeBut (e ∷ es) s
      → Safe (dispatch w s server (e ∷ es)).0
  unfolding dispatch
  dispatch-Safe w s server e es safe =
      run_segments-Safe _ (w.meanwhile (s.next_id + 1))
        (record_batch-Safe s server (e ∷ es) (w.clock (s.next_id + 1)) safe)

  discard-SafeBut :
      (s : Transport F) (n : ℕ) (r : DispatchRecord F)
      → get ◌==◌ n s.outstanding ≡ some r
      → Safe s
      → SafeBut (values r.events) (discard s n r)
  unfolding discard
  discard-SafeBut s n r found safe = record {
    issued = All-pop ◌==◌ _ n s.outstanding safe.issued;
    labelled = All-pop ◌==◌ _ n s.outstanding safe.labelled;
    kept = λ k other h. elim (safe.kept k h) [
      | inl done ↦ inl done
      | inr there ↦ elim (held-pop k n r s.outstanding found there) [
        | inl still ↦ inr still
        | inr mine ↦
            let own = get-All ◌==◌ (λ r. Labelled r.events) n r s.outstanding safe.labelled found in
            ground (arith, mine, other, member-values k r.events own)
      ]
    ];
  }

  -- all of an expired dispatch's events go into the new one
  resent-Safe :
      (w : Wire F) (s : Transport F) (server : String) (es : List (Event F))
      → SafeBut es s
      → Safe (dispatch w s server es).0
  unfolding dispatch
  resent-Safe w s server [] safe = record {
    issued = safe.issued;
    labelled = safe.labelled;
    kept = λ k h. safe.kept k refl h;
  }
  resent-Safe w s server (e ∷ es) safe = dispatch-Safe w s server e es safe

  redispatch_record-Safe :
      (w : Wire F) (s : Transport F) (n : ℕ) (o : Option (DispatchRecord F))
      → get ◌==◌ n s.outstanding ≡ o
      → Safe s
      → Safe (redispatch_record w s n o).0
  unfolding redispatch_record
  redispatch_record-Safe w s n none found safe = safe
  redispatch_record-Safe w s n (some r) found safe =
      resent-Safe w (discard s n r) r.server (values r.events) (discard-SafeBut s n r found safe)

  go_on-Safe :
      (next : ℕ → Transport F × SweepResult) (s : Transport F) (x : SweepResult)
      → Safe s
      → ((m : ℕ) → Safe (next m).0)
      → Safe (go_on next s x).0
  unfolding go_on
  go_on-Safe next s (SweepResult.redispatched m) safe all = all m
  go_on-Safe next s SweepResult.key_error safe all = safe
  go_on-Safe next s SweepResult.failed_delivery safe all = safe

  sweep_from-Safe :
      (w : Wire F) (ns : List ℕ) (total : ℕ) (s : Transport F)
      → Safe s
      → Safe (sweep_from w ns total s).0
  unfolding sweep_from
  sweep_from-Safe w [] total s safe = record {
    issued = safe.issued;
    labelled = safe.labelled;
    kept = safe.kept;
  }
  sweep_from-Safe w (n ∷ ns) total s safe =
      let one = redispatch_record w s n (get ◌==◌ n s.outstanding) in
      let after : Safe one.0 = redispatch_record-Safe w s n _ refl safe in
      go_on-Safe _ one.0 one.1 after (λ m. sweep_from-Safe w ns (total + m) one.0 after)

  init-Safe : (t : F) → Safe (init t)
  unfolding member
  init-Safe t = record { issued = tt; labelled = tt; kept = λ k h. cc }

  run-Safe : (w : Wire F) (cs : List (Call F)) (s : Transport F) → Safe s → Safe (run w s cs)
  unfolding run redispatch_expired reset
  run-Safe w [] s safe = safe
  run-Safe w (dispatching server es ∷ cs) s safe =
      run-Safe w cs _ (resent-Safe w s server es (but es s safe))
  run-Safe w (acking n ids now ∷ cs) s safe = run-Safe w cs _ (ack-Safe s n ids now safe)
  run-Safe w (events_acking ids now ∷ cs) s safe =
      run-Safe w cs _ (ack_by_event_ids-Safe s ids now safe)
  run-Safe w (sweeping now ∷ cs) s safe = run-Safe w cs _ (sweep_from-Safe w _ 0 s safe)
  run-Safe w (resetting ∷ cs) s safe = run-Safe w cs _ (init-Safe s.ack_timeout_ms)

  -- After any calls on a new transport, whichever deliveries fail and whatever batches and acks
  -- arrive while a delivery is awaited, every event id that was dispatched is resolved or held
  -- by an outstanding dispatch.
  pub run-Kept :
      (w : Wire F) (timeout : F) (cs : List (Call F)) (k : String)
      → member k (run w (init timeout) cs).dispatched ≡ true
      → (member k (run w (init timeout) cs).resolved ≡ true)
        ⊎ (held k (run w (init timeout) cs).outstanding ≡ true)
  run-Kept w timeout cs k = (run-Safe w cs (init timeout) (init-Safe timeout)).kept k
