-- ===== src/Classifier/Numbering.antt =====
-- The numbers, tiers and deadlines of the events that a classifier makes.
use vh26_crackers.Base.{
  ◌≡◌, refl, ap, ℕ, zero, suc, ◌+◌, List, [], ◌∷◌, map, length, Option, Floats, IsFloat, ◌≼◌,
  of_int, arith, All,
}
use vh26_crackers.Contracts.{Event, EventType}
use vh26_crackers.Config.{Config, sla_seconds}
use vh26_crackers.Classifier.{Raw, Classifier, classify, classify_all, event_of}

-- the numbers from `k + 1` on
abbrev pub numbers : ℕ → ℕ → List ℕ
numbers k zero = []
numbers k (suc n) = (k + 1) ∷ numbers (k + 1) n

module _ {F : Type 0} ⦃fl : Floats F⦄ ⦃ops : IsFloat F⦄ where
  -- what the table of tiers says of an event of its type
  abbrev pub ByTable : Config F → Event F → Type 0
  ByTable config e =
      (e.tier ≡ (config.tiers e.type).tier)
      × (e.value ≡ (config.tiers e.type).value)
      × (e.ingest_ts ≼ e.deadline_ts)

  sla_nonneg : (config : Config F) (t : EventType) → of_int 0 ≼ sla_seconds (config.tiers t)
  unfolding sla_seconds
  sla_nonneg config t =
      ops.div_nonneg _ _
        (rw (ops.int_lit (config.tiers t).sla_ms) (ops.lit_mono 0 _ 0 0 (omega arith)))
        (ops.lit_pos 1000 0 (omega arith) (omega arith))

  -- Submissions that are classified one after the other get consecutive numbers from the
  -- classifier's own on, the tier and the value that the table has for their type, and a
  -- deadline that is not before their ingest time.
  pub classify_all_lem :
      (c : Classifier F) (xs : List (Raw F × (Option F × F)))
      → (map (λ e. e.seq) (classify_all c xs).1 ≡ numbers c.seq (length xs))
        × All (ByTable c.config) (classify_all c xs).1
        × ((classify_all c xs).0.seq ≡ c.seq + length xs)
  unfolding classify_all classify event_of
  classify_all_lem c [] = (refl, tt, omega arith)
  classify_all_lem c (x ∷ xs) =
      let next = classify c x.0 x.1.0 x.1.1 in
      let rest = classify_all_lem next.0 xs in
      (
        ap (◌∷◌ (c.seq + 1)) rest.0,
        ((refl, refl, ops.add_nonneg _ _ (sla_nonneg c.config x.0.type)), rest.1),
        omega (arith, rest.2),
      )
