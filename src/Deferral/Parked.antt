-- ===== src/Deferral/Parked.antt =====
-- The events of the buffer, under `defer` and a tick of the drainer.
use mathlib.Core.List.Perm
use mathlib.Core.List.Nodup
use mathlib.Core.List.{
  Nodup-cons, not-mem-nil, eq-or-mem_of_mem-cons, map-append, perm_append_singleton, mem-cons_self,
  mem-cons_of_mem,
}
use mathlib.Core.Logic.{if_neg, if_pos}
use mathlib.Core.Logic.Or
use mathlib.Core.HLevel.{⊥_prop}
use vh26_crackers.Base.{
  ℕ, ◌<◌, ◌≡◌, refl, subst, false, str_eq, eq_iff, String, List, [], ◌∷◌, ◌++◌, map, All,
  All-append, All-map, Perm, Nodup, Mem, filter, Option, Floats, ◌≤?◌, arith, Bool-cases, inl, inr,
}
use vh26_crackers.Contracts.{Event, is_p0}
use vh26_crackers.Checkpoint.Workers.{event_ids}
use vh26_crackers.Deferral.{
  Row, DeferralStore, Origin, Result, ok, value_error, has_event, new_row, next_id, upsert, defer,
  dec_other, delete_ids, pop_ready_batch, ready, drain_tick, drain_pressure_threshold,
  drain_batch_per_tick,
}
use vh26_crackers.Deferral.Delete.{ids}
use vh26_crackers.Deferral.Batch.{
  pop_ready_batch-perm, ready-perm, remaining-perm, left_behind, of_others,
}

module _ {F R : Type 0} where
  abbrev pub parked : DeferralStore F R → List (Event F)
  parked s = map (λ r. r.event) s.rows

  -- a row is found by the id of its event
  abbrev pub Named : Row F R → Type 0
  Named r = r.event_id ≡ r.event.event_id

  pub record Sound (s : DeferralStore F R) : Type 0 where
    pub named : All Named s.rows
    pub distinct : Nodup (ids s.rows)

  not_in_buffer :
      (k : String) (rows : List (Row F R))
      → All Named rows
      → ¬ Mem k (event_ids (map (λ r. r.event) rows))
      → has_event k rows ≡ false
  unfolding has_event
  not_in_buffer k [] n h = refl
  not_in_buffer k (r ∷ rs) n h = elim (Bool-cases (str_eq r.event_id k)) [
    | inl same ↦
        let e : r.event.event_id ≡ k = cc (n.0, (eq_iff r.event_id k).0 same) in
        absurd (h (subst (λ j. Mem j (event_ids (map (λ r. r.event) (r ∷ rs)))) e mem-cons_self))
    | inr other ↦ rw other (not_in_buffer k rs n.1 (λ m. h (mem-cons_of_mem r.event.event_id m)))
  ]

  next_id_above : (rows : List (Row F R)) → All (λ r. r.defer_id < next_id rows) rows
  unfolding next_id
  next_id_above [] = tt
  next_id_above (r ∷ rs) =
      let n = next_id (r ∷ rs) in
      (
        ground arith,
        All-map (λ x. x.defer_id < next_id rs) (λ x. x.defer_id < n) (λ x k. ground arith) rs
            (next_id_above rs),
      )

  above-not-mem :
      (n : ℕ) (rows : List (Row F R)) → All (λ r. r.defer_id < n) rows → ¬ Mem n (ids rows)
  above-not-mem n [] h = not-mem-nil
  above-not-mem n (r ∷ rs) h = λ m.
      Or.elim ⊥_prop (eq-or-mem_of_mem-cons m) (λ e. omega (arith, h.0)) (above-not-mem n rs h.1)

  deferred_into :
      (s : DeferralStore F R) (e : Event F) (reason : R) (now : F) (o : Origin)
      → Sound s
      → ¬ Mem e.event_id (event_ids (parked s))
      → upsert s.rows e reason now o ≡ s.rows ++ new_row (next_id s.rows) e reason now o ∷ []
  unfolding upsert
  deferred_into s e reason now o w h = rw (not_in_buffer e.event_id s.rows w.named h) refl

  -- what `defer` makes of the buffer, where it does not refuse the event
  abbrev pub Parks : DeferralStore F R → Event F → Result (DeferralStore F R) → Type 0
  Parks s e value_error = Unit
  Parks s e (ok t) = Perm (parked t) (e ∷ parked s) × Sound t

  pub defer-Parks :
      (s : DeferralStore F R) (e : Event F) (reason : R) (now : F) (o : Origin)
      → Sound s
      → ¬ Mem e.event_id (event_ids (parked s))
      → Parks s e (defer s e reason now o)
  unfolding defer
  defer-Parks s e reason now o w h = elim (Bool-cases (is_p0 e.tier)) [
    | inl critical ↦ rw critical tt
    | inr other ↦
        rw (other, deferred_into s e reason now o w h)
          (
            rw
                (map-append (λ (r : Row F R). r.event) s.rows
                  (new_row (next_id s.rows) e reason now o ∷ []))
                (perm_append_singleton e (parked s)),
            record {
              named = All-append Named s.rows _ w.named (refl, tt);
              distinct =
                  rw
                    (map-append (λ (r : Row F R). r.defer_id) s.rows
                      (new_row (next_id s.rows) e reason now o ∷ []))
                    (Perm.nodup (Perm.symm (perm_append_singleton (next_id s.rows) (ids s.rows))) (
                      Nodup-cons.1 (
                        above-not-mem (next_id s.rows) s.rows (next_id_above s.rows),
                        w.distinct,
                      )));
            },
          )
  ]

  All-delete_ids :
      (is : List ℕ) (rows : List (Row F R)) → All Named rows → All Named (delete_ids is rows)
  unfolding delete_ids
  All-delete_ids [] rows h = h
  All-delete_ids (i ∷ is) rows h = All-delete_ids is (filter (dec_other i) rows) (kept i rows h)
    where
      kept :
          (i : ℕ) (rows : List (Row F R)) → All Named rows → All Named (filter (dec_other i) rows)
      kept i [] h = tt
      kept i (r ∷ rs) h = elim (dec_other i r) [
        | yes k ↦ rw (if_pos (dec_other i r) k) (h.0, kept i rs h.1)
        | no k ↦ rw (if_neg (dec_other i r) k) (kept i rs h.1)
      ]

module _ {F R : Type 0} ⦃fl : Floats F⦄ where
  -- what a tick hands out and what it leaves
  abbrev pub Drains : DeferralStore F R → DeferralStore F R × List (Event F) → Type 0
  Drains s (t, events) = Perm (events ++ parked t) (parked s) × Sound t

  popped-Sound :
      (s : DeferralStore F R) (limit : ℕ) (o : Option Origin)
      → Sound s
      → Sound (pop_ready_batch s limit o).0
  popped-Sound s limit o w = record {
    named = unfold pop_ready_batch in All-delete_ids (ids (ready s limit o)) s.rows w.named;
    distinct =
        let apart : Nodup (ids (ready s limit o ++ (left_behind s limit o ++ of_others o s.rows))) =
          Perm.nodup (Perm.map (λ r. r.defer_id) (ready-perm s limit o)) w.distinct in
        Perm.nodup (Perm.map (λ r. r.defer_id) (Perm.symm (remaining-perm s limit o w.distinct))) (
          Nodup.of_append_right (ids (ready s limit o)) (
            rw
              (map-append (λ (r : Row F R). r.defer_id) (ready s limit o)
                (left_behind s limit o ++ of_others o s.rows))
              at apart));
  }

  pub drain_tick-Drains :
      (s : DeferralStore F R) (pressure now : F) (o : Option Origin)
      → Sound s
      → Drains s (drain_tick s pressure now o)
  unfolding drain_tick
  drain_tick-Drains s pressure now o w = elim (Bool-cases (drain_pressure_threshold ≤? pressure)) [
    | inl high ↦ rw high (Perm.refl (parked s), w)
    | inr low ↦ rw low (
      pop_ready_batch-perm s drain_batch_per_tick o w.distinct,
      let t = popped-Sound s drain_batch_per_tick o w in
          record { named = t.named; distinct = t.distinct },
    )
  ]
