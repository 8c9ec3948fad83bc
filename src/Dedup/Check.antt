-- ===== src/Dedup/Check.antt =====
-- `Deduplicator.check` against an ideal memory that forgets nothing.
use vh26_crackers.Base.{
  ℕ, ◌≤◌, ◌≡◌, refl, sym, ◌∙◌, ap, ap₂, ◌⊎◌, inl, inr, Bool, true, false, List, [], ◌∷◌, String,
  length, arith, Bool-cases,
}
use vh26_crackers.Dedup.{
  Hashes, Deduplicator, might_contain, add, member, move_to_end, evict, admit, check,
}
use vh26_crackers.Dedup.Bloom.{might_contain-add_self, might_contain-add}
use vh26_crackers.Dedup.Recent.{
  Distinct, move_to_end-Distinct, member-move_to_end, member-evict, length-evict-le,
  evict-move_to_end, evict_hit,
}

-- `ideal` holds every key ever delivered, once, in the order of the last delivery. The exact set
-- is its newest part, and the filter admits to all of it.
pub record Tracks (hs : Hashes) (d : Deduplicator) (ideal : List String) : Type 0 where
  pub window : d.exact ≡ evict d.capacity ideal
  pub distinct : Distinct ideal
  pub filtered : (j : String) → member j ideal ≡ true → might_contain hs d.bloom j ≡ true

-- what a delivery does to the ideal memory
abbrev pub remember : List String → String → List String
remember ideal key = move_to_end key ideal

filtered_after :
    (hs : Hashes) (d : Deduplicator) (ideal : List String) (k j : String)
    → Tracks hs d ideal
    → member j (move_to_end k ideal) ≡ true
    → might_contain hs (add hs d.bloom k) j ≡ true
filtered_after hs d ideal k j t m = go (member-move_to_end j k ideal m)
  where
    go : (j ≡ k) ⊎ (member j ideal ≡ true) → might_contain hs (add hs d.bloom k) j ≡ true
    go (inl same) = rw same (might_contain-add_self hs d.bloom k)
    go (inr old) = might_contain-add hs d.bloom k j (t.filtered j old)

admit-Tracks :
    (hs : Hashes) (d : Deduplicator) (ideal : List String) (k : String)
    → Tracks hs d ideal
    → Tracks hs (admit hs d k) (remember ideal k)
unfolding admit
admit-Tracks hs d ideal k t = record {
  window = rw t.window (evict-move_to_end d.capacity k ideal t.distinct);
  distinct = move_to_end-Distinct k ideal t.distinct;
  filtered = λ j. filtered_after hs d ideal k j t;
}

hit-Tracks :
    (hs : Hashes) (d : Deduplicator) (ideal : List String) (k : String)
    → Tracks hs d ideal
    → member k d.exact ≡ true
    → Tracks hs (record d { exact = move_to_end k d.exact }) (remember ideal k)
hit-Tracks hs d ideal k t h = record {
  window = rw t.window (evict_hit d.capacity k ideal (rw t.window at h) t.distinct);
  distinct = move_to_end-Distinct k ideal t.distinct;
  filtered = λ j m. still_filtered j (member-move_to_end j k ideal m);
}
  where
    still_filtered :
        (j : String) → (j ≡ k) ⊎ (member j ideal ≡ true) → might_contain hs d.bloom j ≡ true
    still_filtered j (inl same) =
        rw same (t.filtered k (member-evict d.capacity k ideal (rw t.window at h)))
    still_filtered j (inr old) = t.filtered j old

-- what the filter has never seen is in no window
unseen :
    (hs : Hashes) (d : Deduplicator) (ideal : List String) (k : String)
    → Tracks hs d ideal
    → might_contain hs d.bloom k ≡ false
    → member k (evict d.capacity ideal) ≡ false
unseen hs d ideal k t never = elim (Bool-cases (member k (evict d.capacity ideal))) [
  | inl found ↦ cc (never, t.filtered k (member-evict d.capacity k ideal found))
  | inr missing ↦ missing
]

-- Where the deduplicator tracks an ideal memory, a delivery is suppressed exactly when its key
-- is among the newest `capacity` keys, and the deduplicator tracks the memory after the
-- delivery.
pub check-Tracks :
    (hs : Hashes) (d : Deduplicator) (ideal : List String) (k : String)
    → Tracks hs d ideal
    → ((check hs d k).1 ≡ member k (evict d.capacity ideal))
      × Tracks hs (check hs d k).0 (remember ideal k)
unfolding check
check-Tracks hs d ideal k t = elim (Bool-cases (might_contain hs d.bloom k)) [
  | inl maybe ↦ elim (Bool-cases (member k d.exact)) [
    | inl old ↦
        rw (maybe, old, check) (sym old ∙ ap (member k) t.window, hit-Tracks hs d ideal k t old)
    | inr new ↦
        rw (maybe, new, check) (sym new ∙ ap (member k) t.window, admit-Tracks hs d ideal k t)
  ]
  | inr never ↦ rw (never, check) (sym (unseen hs d ideal k t never), admit-Tracks hs d ideal k t)
]

-- the answers to a sequence of deliveries
unfoldable pub check_all : Hashes → Deduplicator → List String → Deduplicator × List Bool
check_all hs d [] = (d, [])
check_all hs d (k ∷ ks) =
    let (d', seen) = check hs d k in
    let (last, answers) = check_all hs d' ks in (last, seen ∷ answers)

-- the answers of the ideal memory, asked about its newest `n` keys
unfoldable pub ideal_answers : ℕ → List String → List String → List Bool
ideal_answers n ideal [] = []
ideal_answers n ideal (k ∷ ks) = member k (evict n ideal) ∷ ideal_answers n (remember ideal k) ks

pub capacity-check :
    (hs : Hashes) (d : Deduplicator) (k : String) → (check hs d k).0.capacity ≡ d.capacity
unfolding check
capacity-check hs d k = ground arith

-- From a deduplicator that tracks an ideal memory of all keys, the answers to any sequence of
-- deliveries are those of the ideal memory asked about its newest `capacity` keys.
pub check_all-ideal :
    (hs : Hashes) (d : Deduplicator) (ideal ks : List String)
    → Tracks hs d ideal
    → (check_all hs d ks).1 ≡ ideal_answers d.capacity ideal ks
unfolding check_all ideal_answers
check_all-ideal hs d ideal [] t = refl
check_all-ideal hs d ideal (k ∷ ks) t =
    let (answer, t') = check-Tracks hs d ideal k t in
    ap₂ (λ x xs. x ∷ xs) answer
      (check_all-ideal hs (check hs d k).0 (remember ideal k) ks t'
        ∙ ap (λ n. ideal_answers n (remember ideal k) ks) (capacity-check hs d k))

-- The exact set of a deduplicator that tracks an ideal memory has at most `capacity` keys.
pub length-exact-le :
    (hs : Hashes) (d : Deduplicator) (ideal : List String)
    → Tracks hs d ideal
    → length d.exact ≤ d.capacity
length-exact-le hs d ideal t = rw t.window (length-evict-le d.capacity ideal)
