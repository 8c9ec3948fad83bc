-- ===== src/Metrics/Percentile.antt =====
-- `percentile` of src/triage/metrics.py. `int(x)` of a float that is not negative is a parameter.
use vh26_crackers.Base.{
  ℕ, zero, suc, ◌+◌, ◌-◌, ◌≤◌, ◌<◌, ◌≡◌, refl, sym, ◌∙◌, subst, Bool, ltb, List, [], ◌∷◌, length,
  Option, none, some, Floats, IsFloat, ◌≤?◌, ◌⊕◌, ◌⊖◌, ◌⊗◌, of_int, sort, length-sort, ◌==◌,
  if◌then◌else◌, All, All-sort, sort-IsSorted, IsSorted, ◌≼◌, arith, Bool-cases, inl, inr,
}

abbrev pub min_ℕ : ℕ → ℕ → ℕ
min_ℕ a b = if ltb b a then b else a

module _ {F : Type 0} where
  -- `xs[k]`, none where it raises IndexError
  unfoldable pub get_elem? : List F → ℕ → Option F
  get_elem? [] k = none
  get_elem? (x ∷ xs) zero = some x
  get_elem? (x ∷ xs) (suc k) = get_elem? xs k

module _ {F : Type 0} ⦃fl : Floats F⦄ where
  abbrev pub no_larger : F → F → Bool
  no_larger a b = a ≤? b

  unfoldable pub between : Option F → Option F → F → Option F
  between none high weight = none
  between (some a) none weight = none
  between (some a) (some b) weight = some (a ⊕ (b ⊖ a) ⊗ weight)

  unfoldable pub at_rank : (F → ℕ) → List F → F → Option F
  unfolding get_elem? between
  at_rank trunc ordered rank =
      let low = trunc rank in
      let high = min_ℕ (low + 1) (length ordered - 1) in
      if low == high
      then get_elem? ordered low
      else between (get_elem? ordered low) (get_elem? ordered high) (rank ⊖ of_int low)

  -- no answer where an index is out of range
  unfoldable pub percentile : (F → ℕ) → List F → F → Option F
  unfolding at_rank
  percentile trunc [] q = some (of_int 0)
  percentile trunc (x ∷ []) q = some x
  percentile trunc (x ∷ y ∷ xs) q =
      at_rank trunc (sort no_larger (x ∷ y ∷ xs)) (of_int (length (y ∷ xs)) ⊗ q)

module _ {F : Type 0} ⦃fl : Floats F⦄ ⦃ops : IsFloat F⦄ (trunc : F → ℕ) where
  -- What Python's `int` does on a float that is not negative: it rounds down.
  pub record IsTrunc : Type 0 where
    pub below : (x : F) → of_int 0 ≼ x → of_int (trunc x) ≼ x
    pub at_most : (x : F) (n : ℕ) → x ≼ of_int n → trunc x ≤ n

module _ {F : Type 0} where
  get_elem?-All :
      (P : F → Type 0) (xs : List F) (k : ℕ)
      → All P xs
      → k < length xs
      → (a : F) × (get_elem? xs k ≡ some a) × P a
  unfolding get_elem?
  get_elem?-All P [] k h lt = absurd (omega (arith, lt))
  get_elem?-All P (x ∷ xs) zero h lt = (x, refl, h.0)
  get_elem?-All P (x ∷ xs) (suc k) h lt = get_elem?-All P xs k h.1 (omega (arith, lt))

module _ {F : Type 0} ⦃fl : Floats F⦄ where
  get_elem?-IsSorted :
      (xs : List F) (j k : ℕ)
      → IsSorted no_larger xs
      → j < k
      → k < length xs
      → (a : F) × (b : F) × (get_elem? xs j ≡ some a) × (get_elem? xs k ≡ some b) × (a ≼ b)
  unfolding get_elem?
  get_elem?-IsSorted [] j k h lt le = absurd (omega (arith, le))
  get_elem?-IsSorted (x ∷ xs) j zero h lt le = absurd (omega (arith, lt))
  get_elem?-IsSorted (x ∷ xs) zero (suc k) h lt le =
      let (b, found, larger) = get_elem?-All (λ y. x ≼ y) xs k h.0 (omega (arith, le)) in
      (x, b, refl, found, larger)
  get_elem?-IsSorted (x ∷ xs) (suc j) (suc k) h lt le =
      get_elem?-IsSorted xs j k h.1 (omega (arith, lt)) (omega (arith, le))

module _ {F : Type 0} ⦃fl : Floats F⦄ ⦃ops : IsFloat F⦄ where
  -- the answer is there, and no smaller than any bound below all samples
  abbrev pub AtLeast : F → Option F → Type 0
  AtLeast m none = ⊥
  AtLeast m (some v) = m ≼ v

  at_rank-AtLeast :
      (trunc : F → ℕ) (m : F) (xs : List F) (rank : F)
      → IsTrunc trunc
      → IsSorted no_larger xs
      → All (λ x. m ≼ x) xs
      → of_int 0 ≼ rank
      → trunc rank < length xs
      → AtLeast m (at_rank trunc xs rank)
  unfolding at_rank between
  at_rank-AtLeast trunc m xs rank law sorted above nonneg inside =
      let low = trunc rank in
      let high = min_ℕ (low + 1) (length xs - 1) in
      elim (Bool-cases (low == high)) [
        | inl last ↦
            let (a, found, large) = get_elem?-All (λ x. m ≼ x) xs low above inside in
            rw (last, found) large
        | inr inner ↦
            let (a, b, at_low, at_high, order) =
              get_elem?-IsSorted xs low high sorted (ground (arith, inner, inside))
                (ground (arith, inside)) in
            let (a', found, large) = get_elem?-All (λ x. m ≼ x) xs low above inside in
            let part = (b ⊖ a) ⊗ (rank ⊖ of_int low) in
            let part_nonneg : of_int 0 ≼ part =
              ops.mul_nonneg (b ⊖ a) (rank ⊖ of_int low) (ops.sub_nonneg b a order)
                (ops.sub_nonneg rank (of_int low) (law.below rank nonneg)) in
            let own : m ≼ a = subst (AtLeast m) (sym found ∙ at_low) large in
            rw (inner, at_low, at_high)
              (ops.le_trans m a (a ⊕ part) own (ops.add_nonneg a part part_nonneg))
      ]

  -- A percentile at a rank between 0 and 1 always has its indices in range, and where all
  -- samples are at least m, which is at most 0, so is the percentile.
  pub percentile_bounds :
      (trunc : F → ℕ) (m : F) (xs : List F) (q : F)
      → IsTrunc trunc
      → All (λ x. m ≼ x) xs
      → m ≼ of_int 0
      → of_int 0 ≼ q
      → q ≼ of_int 1
      → AtLeast m (percentile trunc xs q)
  unfolding percentile
  percentile_bounds trunc m [] q law above low nonneg le_one = low
  percentile_bounds trunc m (x ∷ []) q law above low nonneg le_one = above.0
  percentile_bounds trunc m (x ∷ y ∷ xs) q law above low nonneg le_one =
      let all : List F = x ∷ y ∷ xs in
      let n : ℕ = length (y ∷ xs) in
      let last : F = of_int n in
      let top : of_int 0 ≼ last = ops.lit_mono 0 n 0 0 (omega arith) in
      let rank_le : last ⊗ q ≼ last = ops.mul-le last q top le_one in
      let low_le : trunc (last ⊗ q) ≤ n = law.at_most (last ⊗ q) n rank_le in
      at_rank-AtLeast trunc m (sort no_larger all) (last ⊗ q) law
        (sort-IsSorted no_larger ops.le_total ops.le_trans all)
        (All-sort no_larger (λ x. m ≼ x) all above) (ops.mul_nonneg last q top nonneg)
        (omega (arith, low_le, length-sort no_larger all))
