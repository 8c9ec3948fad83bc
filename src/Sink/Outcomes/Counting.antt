-- ===== src/Sink/Outcomes/Counting.antt =====
-- What the counts over the SLA outcomes add up to.
use vh26_crackers.Base.{
  ◌+◌, ◌<◌, ◌≡◌, refl, Bool, true, false, not, ◌&&◌, List, [], ◌∷◌, ◌++◌, String, none, some,
  if◌then◌else◌, arith, Bool-cases, inl, inr, All, All-map,
}
use vh26_crackers.Contracts.{Event}
use vh26_crackers.Sink.Outcomes.{
  OutcomeRow, Filters, is_source, holds, next_outcome_id, outcome_of, write_outcome, matches,
  sla_outcome_count,
}

abbrev pub with_met : Filters → Bool → Filters
with_met f b = record f { met = some b }

module _ {F : Type 0} where
  -- a row either met its SLA or did not
  matches_split :
      (f : Filters) (r : OutcomeRow F)
      → f.met ≡ none
      → (matches (with_met f true) r ≡ (matches f r && r.met))
        × (matches (with_met f false) r ≡ (matches f r && not r.met))
  unfolding matches holds
  matches_split f r any = elim (Bool-cases r.met) [
    | inl met ↦ rw (any, met) (ground arith, ground arith)
    | inr missed ↦ rw (any, missed) (ground arith, ground arith)
  ]

  sla_outcome_count-append :
      (f : Filters) (xs ys : List (OutcomeRow F))
      → sla_outcome_count f (xs ++ ys) ≡ sla_outcome_count f xs + sla_outcome_count f ys
  unfolding sla_outcome_count
  sla_outcome_count-append f [] ys = omega arith
  sla_outcome_count-append f (x ∷ xs) ys = ground (arith, sla_outcome_count-append f xs ys)

  -- The outcomes that met their SLA and those that missed it, with the same conditions on tier
  -- and source, are together those that are counted without a condition on `met`.
  pub sla_outcome_count_split :
      (f : Filters) (rows : List (OutcomeRow F))
      → f.met ≡ none
      → sla_outcome_count (with_met f true) rows + sla_outcome_count (with_met f false) rows
        ≡ sla_outcome_count f rows
  unfolding sla_outcome_count
  sla_outcome_count_split f [] any = refl
  sla_outcome_count_split f (r ∷ rs) any =
      let met = (matches_split f r any).0 in
      let missed = (matches_split f r any).1 in
      rw (met, missed) (ground (arith, sla_outcome_count_split f rs any))

  -- An outcome of a known source raises exactly the counts whose conditions it meets, by one;
  -- one of another source is refused and changes no count.
  pub sla_outcome_count-write :
      (f : Filters) (rows : List (OutcomeRow F)) (e : Event F) (met : Bool) (ms : F)
      (source : String) (now : F)
      → sla_outcome_count f (write_outcome rows e met ms source now).0
        ≡ sla_outcome_count f rows
          + (if is_source source && matches f (outcome_of e met ms source now 0) then 1 else 0)
  unfolding write_outcome sla_outcome_count matches
  sla_outcome_count-write f rows e met ms source now = elim (Bool-cases (is_source source)) [
    | inl known ↦
        rw (known, write_outcome)
          (sla_outcome_count-append f rows
            (outcome_of e met ms source now (next_outcome_id rows) ∷ []))
    | inr other ↦ rw (other, write_outcome) (omega arith)
  ]

  -- The id of a new outcome is above every id in the table.
  pub next_outcome_id_fresh :
      (rows : List (OutcomeRow F)) → All (λ r. r.outcome_id < next_outcome_id rows) rows
  unfolding next_outcome_id
  next_outcome_id_fresh [] = tt
  next_outcome_id_fresh (r ∷ rs) =
      (ground arith, All-map _ _ (λ x h. ground (arith, h)) rs (next_outcome_id_fresh rs))
