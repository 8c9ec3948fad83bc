-- ===== src/Deferral/Backlog.antt =====
-- The cached count of the buffer against its rows.
use vh26_crackers.Base.{
  ℕ, ◌+◌, ◌≡◌, refl, true, false, List, [], ◌∷◌, pos, Option, length, length-append, length-map,
  Nodup, Floats, arith, if◌then◌else◌,
}
use vh26_crackers.Contracts.{Event, is_p0}
use vh26_crackers.Deferral.{
  Row, DeferralStore, Origin, ok, known, has_event, refresh_in, new_row, next_id, upsert, defer,
  pop_ready_batch, ready,
}
use vh26_crackers.Deferral.Delete.{ids}
use vh26_crackers.Deferral.Batch.{length-pop_ready_batch}

module _ {F R : Type 0} where
  -- `_pending_count` is the number of rows
  abbrev pub Counted : DeferralStore F R → Type 0
  Counted s = s.pending ≡ pos (length s.rows)

  length-refresh_in :
      (rows : List (Row F R)) (e : Event F) (reason : R) (now : F) (o : Origin)
      → length (refresh_in rows e reason now o) ≡ length rows
  unfolding refresh_in
  length-refresh_in [] e reason now o = refl
  length-refresh_in (r ∷ rs) e reason now o = ground (arith, length-refresh_in rs e reason now o)

  -- a refreshed row takes no room, a new one takes one
  pub length-upsert :
      (rows : List (Row F R)) (e : Event F) (reason : R) (now : F) (o : Origin)
      → length (upsert rows e reason now o)
        ≡ (if has_event e.event_id rows then length rows else length rows + 1)
  unfolding upsert
  length-upsert rows e reason now o = ground (
    arith,
    length-refresh_in rows e reason now o,
    length-append rows (new_row (next_id rows) e reason now o ∷ []),
  )

  -- Where the pending count is right, the store has a row for the event exactly when the event
  -- is known, and defer succeeds, the event is not P0 and the pending count is right afterwards.
  pub defer-Counted :
      (s t : DeferralStore F R) (e : Event F) (reason : R) (now : F) (o : Origin)
      → Counted s
      → has_event e.event_id s.rows ≡ known e.event_id s.already_deferred
      → defer s e reason now o ≡ ok t
      → (is_p0 e.tier ≡ false) × Counted t
  unfolding defer
  defer-Counted s t e reason now o c same h = ground (arith, length-upsert s.rows e reason now o)

  -- Where the pending count was right, an event that is known and has no row is deferred into a
  -- new row, and the pending count stays at the old number of rows.
  pub defer_drifts :
      (s t : DeferralStore F R) (e : Event F) (reason : R) (now : F) (o : Origin)
      → Counted s
      → known e.event_id s.already_deferred ≡ true
      → has_event e.event_id s.rows ≡ false
      → defer s e reason now o ≡ ok t
      → (t.pending ≡ pos (length s.rows)) × (length t.rows ≡ length s.rows + 1)
  unfolding defer
  defer_drifts s t e reason now o c k m h = ground (arith, length-upsert s.rows e reason now o)

module _ {F R : Type 0} ⦃fl : Floats F⦄ where
  -- Where the row ids are distinct and the pending count is right, it is right after a batch is
  -- popped.
  pub pop_ready_batch-Counted :
      (s : DeferralStore F R) (limit : ℕ) (o : Option Origin)
      → Nodup (ids s.rows)
      → Counted s
      → Counted (pop_ready_batch s limit o).0
  unfolding pop_ready_batch
  pop_ready_batch-Counted s limit o u c = ground (
    arith,
    length-pop_ready_batch s limit o u,
    length-map (λ (r : Row F R). r.event) (ready s limit o),
  )
