-- ===== src/Dedup/Recent.antt =====
-- The exact set of dedup.py as a list of keys, the oldest first.
use vh26_crackers.Base.{
  ℕ, ◌+◌, ◌≤◌, ◌≡◌, refl, sym, ◌∙◌, ◌⊎◌, inl, inr, true, false, ◌||◌, ltb, str_eq, eq_iff, List, [],
  ◌∷◌, ◌++◌, String, length, length-append, arith, Bool-cases,
}
use vh26_crackers.Dedup.{member, remove, move_to_end, evict}

-- No key stands twice.
abbrev pub Distinct : List String → Type 0
Distinct [] = Unit
Distinct (x ∷ xs) = (member x xs ≡ false) × Distinct xs

length-remove-le :
    (k : String) (xs : List String)
    → (length (remove k xs) ≤ length xs) × (length xs ≤ length (remove k xs) + 1)
unfolding remove
length-remove-le k [] = omega arith
length-remove-le k (x ∷ xs) = ground (arith, length-remove-le k xs)

length-remove :
    (k : String) (xs : List String) → member k xs ≡ true → length (remove k xs) + 1 ≡ length xs
unfolding remove member
length-remove k [] h = cc
length-remove k (x ∷ xs) h = ground (arith, length-remove k xs)

remove_absent : (k : String) (xs : List String) → member k xs ≡ false → remove k xs ≡ xs
unfolding remove member
remove_absent k [] h = refl
remove_absent k (x ∷ xs) h = ground (arith, remove_absent k xs)

pub member-append :
    (j : String) (xs ys : List String) → member j (xs ++ ys) ≡ (member j xs || member j ys)
unfolding member
member-append j [] ys = refl
member-append j (x ∷ xs) ys = ground (arith, member-append j xs ys)

member-remove :
    (j k : String) (xs : List String) → member j xs ≡ false → member j (remove k xs) ≡ false
unfolding member remove
member-remove j k [] h = refl
member-remove j k (x ∷ xs) h = ground (arith, member-remove j k xs)

member-remove_self : (k : String) (xs : List String) → Distinct xs → member k (remove k xs) ≡ false
unfolding member remove
member-remove_self k [] d = refl
member-remove_self k (x ∷ xs) d = ground (arith, eq_iff x k, member-remove_self k xs d.1)

remove-Distinct : (k : String) (xs : List String) → Distinct xs → Distinct (remove k xs)
unfolding remove
remove-Distinct k [] d = tt
remove-Distinct k (x ∷ xs) d = ground (arith, remove-Distinct k xs d.1, member-remove x k xs d.0)

append-Distinct :
    (k : String) (xs : List String) → member k xs ≡ false → Distinct xs → Distinct (xs ++ k ∷ [])
unfolding member
append-Distinct k [] h d = (refl, tt)
append-Distinct k (x ∷ xs) h d =
    ground (arith, member-append x xs (k ∷ []), eq_iff x k, eq_iff k x, append-Distinct k xs)

pub move_to_end-Distinct :
    (k : String) (xs : List String) → Distinct xs → Distinct (move_to_end k xs)
unfolding move_to_end
move_to_end-Distinct k xs d =
    append-Distinct k (remove k xs) (member-remove_self k xs d) (remove-Distinct k xs d)

-- what is in the list after a key is moved to its end
pub member-move_to_end :
    (j k : String) (xs : List String)
    → member j (move_to_end k xs) ≡ true
    → (j ≡ k) ⊎ (member j xs ≡ true)
unfolding move_to_end member
member-move_to_end j k xs h =
    ground (arith, eq_iff k j, member-append j (remove k xs) (k ∷ []), member-remove j k xs)

pub member-evict :
    (n : ℕ) (j : String) (xs : List String) → member j (evict n xs) ≡ true → member j xs ≡ true
unfolding evict member
member-evict n j [] h = h
member-evict n j (x ∷ xs) h = ground (arith, member-evict n j xs)

pub evict_fits : (n : ℕ) (xs : List String) → length xs ≤ n → evict n xs ≡ xs
unfolding evict
evict_fits n [] h = refl
evict_fits n (x ∷ xs) h = ground arith

-- The loop leaves no more than the capacity.
pub length-evict-le : (n : ℕ) (xs : List String) → length (evict n xs) ≤ n
unfolding evict
length-evict-le n [] = omega arith
length-evict-le n (x ∷ xs) = ground (arith, length-evict-le n xs)

evict_over : (n : ℕ) (x : String) (xs : List String) → n ≤ length xs → evict n (x ∷ xs) ≡ evict n xs
unfolding evict
evict_over n x xs h = ground arith

length-move_to_end : (k : String) (xs : List String) → length xs ≤ length (move_to_end k xs)
unfolding move_to_end
length-move_to_end k xs = omega (arith, length-append (remove k xs) (k ∷ []), length-remove-le k xs)

-- a key that is too old to stay does not matter
evict_head :
    (n : ℕ) (k x : String) (xs : List String)
    → n ≤ length xs
    → member x xs ≡ false
    → evict n (move_to_end k (x ∷ xs)) ≡ evict n (move_to_end k xs)
unfolding move_to_end
evict_head n k x xs h fresh = elim (Bool-cases (str_eq x k)) [
  | inl same ↦
      let e : x ≡ k = (eq_iff x k).0 same in rw (same, remove, remove_absent k xs (rw (← e) fresh))
  | inr other ↦
      rw (other, remove)
        (evict_over n x (move_to_end k xs) (omega (arith, length-move_to_end k xs)))
]

-- To move a key and keep the newest `n`, the newest `n` are all that matter.
pub evict-move_to_end :
    (n : ℕ) (k : String) (xs : List String)
    → Distinct xs
    → evict n (move_to_end k (evict n xs)) ≡ evict n (move_to_end k xs)
evict-move_to_end n k [] d = rw (evict_fits n [] (omega arith))
evict-move_to_end n k (x ∷ xs) d = elim (Bool-cases (ltb n (length (x ∷ xs)))) [
  | inl over ↦
      let old : n ≤ length xs = ground arith in
      rw (evict_over n x xs old) (evict-move_to_end n k xs d.1 ∙ sym (evict_head n k x xs old d.0))
  | inr fits ↦ rw (evict_fits n (x ∷ xs) (ground arith))
]

-- a key that is found takes no room
pub evict_hit :
    (n : ℕ) (k : String) (xs : List String)
    → member k (evict n xs) ≡ true
    → Distinct xs
    → move_to_end k (evict n xs) ≡ evict n (move_to_end k xs)
evict_hit n k xs h d =
    sym (evict_fits n (move_to_end k (evict n xs)) fits) ∙ evict-move_to_end n k xs d
  where
    fits : length (move_to_end k (evict n xs)) ≤ n
    fits =
        unfold move_to_end in
        omega (
          arith,
          length-append (remove k (evict n xs)) (k ∷ []),
          length-remove k (evict n xs) h,
          length-evict-le n xs,
        )
