-- ===== src/Base/Dict.antt =====
-- Python's `dict`: a list of keys and values in the order of insertion, with a test for its keys.
use mathlib.Core.Path.{◌≡◌, refl, subst}
use mathlib.Core.Bool.{Bool, true, false, ◌||◌}
use mathlib.Core.Option.{Option, none, some}
use mathlib.Core.List.{List, [], ◌∷◌, map}
use mathlib.Core.Logic.{◌↔◌, inl, inr}
use native.Mathlib.Omega.{arith}
use vh26_crackers.Base.Lists.{All}
use vh26_crackers.Base.Tests.{if◌then◌else◌, Bool-cases}

module _ {K V : Type 0} (same : K → K → Bool) where
  -- `d.get(k)`
  unfoldable pub get : K → List (K × V) → Option V
  get k [] = none
  get k (x ∷ xs) = if same x.0 k then some x.1 else get k xs

  -- `k in d`
  unfoldable pub has : K → List (K × V) → Bool
  has k [] = false
  has k (x ∷ xs) = same x.0 k || has k xs

  -- `d[k] = v`: a key that is there keeps its place
  unfoldable pub put : K → V → List (K × V) → List (K × V)
  put k v [] = (k, v) ∷ []
  put k v (x ∷ xs) = if same x.0 k then (x.0, v) ∷ xs else x ∷ put k v xs

  -- `d.pop(k, None)`
  unfoldable pub pop : K → List (K × V) → List (K × V)
  pop k [] = []
  pop k (x ∷ xs) = if same x.0 k then xs else x ∷ pop k xs

  pub has-put :
      ((a b : K) → (same a b ≡ true) ↔ (a ≡ b))
      → (k j : K) (v : V) (xs : List (K × V)) → has j (put k v xs) ≡ (same k j || has j xs)
  unfolding has put
  has-put eq k j v [] = refl
  has-put eq k j v (x ∷ xs) = elim (Bool-cases (same x.0 k)) [
    | inl own ↦ rw (own, (eq x.0 k).0 own) (ground arith)
    | inr other ↦ rw other (ground (arith, has-put eq k j v xs))
  ]

  -- a key that is left out is the one that is popped
  pub has-pop :
      ((a b : K) → (same a b ≡ true) ↔ (a ≡ b))
      → (k j : K) (xs : List (K × V)) → same k j ≡ false
      → has j (pop k xs) ≡ has j xs
  unfolding has pop
  has-pop eq k j [] h = refl
  has-pop eq k j (x ∷ xs) h = elim (Bool-cases (same x.0 k)) [
    | inl own ↦ rw (own, (eq x.0 k).0 own, h) refl
    | inr other ↦ rw (other, has-pop eq k j xs h) refl
  ]

  pub All-pop : (P : K × V → Type 0) (k : K) (xs : List (K × V)) → All P xs → All P (pop k xs)
  unfolding pop
  All-pop P k [] h = tt
  All-pop P k (x ∷ xs) h = elim (Bool-cases (same x.0 k)) [
    | inl own ↦ rw own h.1
    | inr other ↦ rw other (h.0, All-pop P k xs h.1)
  ]

  pub All-put :
      (P : K × V → Type 0) (k : K) (v : V) (xs : List (K × V))
      → ((j : K) → P (j, v))
      → All P xs
      → All P (put k v xs)
  unfolding put
  All-put P k v [] new h = (new k, tt)
  All-put P k v (x ∷ xs) new h = elim (Bool-cases (same x.0 k)) [
    | inl own ↦ rw own (new x.0, h.1)
    | inr other ↦ rw other (h.0, All-put P k v xs new h.1)
  ]

  abbrev pub OnSome : (V → Type 0) → Option V → Type 0
  OnSome P none = Unit
  OnSome P (some v) = P v

  get-OnSome :
      (P : V → Type 0) (k : K) (xs : List (K × V)) → All (λ x. P x.1) xs → OnSome P (get k xs)
  unfolding get
  get-OnSome P k [] h = tt
  get-OnSome P k (x ∷ xs) h = elim (Bool-cases (same x.0 k)) [
    | inl own ↦ rw own h.0
    | inr other ↦ rw other (get-OnSome P k xs h.1)
  ]

  pub get-All :
      (P : V → Type 0) (k : K) (v : V) (xs : List (K × V))
      → All (λ x. P x.1) xs
      → get k xs ≡ some v
      → P v
  get-All P k v xs h found = subst (OnSome P) found (get-OnSome P k xs h)

module _ {K V : Type 0} where
  abbrev pub values : List (K × V) → List V
  values xs = map (λ x. x.1) xs

  abbrev pub keys : List (K × V) → List K
  keys xs = map (λ x. x.0) xs
