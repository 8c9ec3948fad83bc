-- ===== src/Dedup/Bloom.antt =====
-- The Bloom filter of dedup.py has no false negatives.
use vh26_crackers.Base.{ℕ, ◌/◌, ◌%◌, ◌≡◌, refl, Bool, true, List, [], ◌∷◌, String, arith}
use vh26_crackers.Dedup.{BloomFilter, Hashes, slots, set_bit, set_bits, all_set, add, might_contain}

-- Setting bits clears none.
set_bits_keeps :
    (bits : ℕ → ℕ → Bool) (xs : List ℕ) (i j : ℕ) → bits i j ≡ true → set_bits bits xs i j ≡ true
unfolding set_bits
set_bits_keeps bits [] i j h = h
set_bits_keeps bits (x ∷ xs) i j h = set_bits_keeps (set_bit bits x) xs i j (ground arith)

all_set_keeps :
    (bits : ℕ → ℕ → Bool) (xs ys : List ℕ)
    → all_set bits ys ≡ true
    → all_set (set_bits bits xs) ys ≡ true
unfolding all_set
all_set_keeps bits xs [] h = refl
all_set_keeps bits xs (y ∷ ys) h =
    ground (arith, set_bits_keeps bits xs (y / 8) (y % 8), all_set_keeps bits xs ys)

all_set-set_bits : (bits : ℕ → ℕ → Bool) (xs : List ℕ) → all_set (set_bits bits xs) xs ≡ true
unfolding all_set set_bits
all_set-set_bits bits [] = refl
all_set-set_bits bits (x ∷ xs) = ground (
  arith,
  set_bits_keeps (set_bit bits x) xs (x / 8) (x % 8) set_here,
  all_set-set_bits (set_bit bits x) xs,
)
  where
    set_here : set_bit bits x (x / 8) (x % 8) ≡ true
    set_here = ground arith

-- A key that was added is found.
pub might_contain-add_self :
    (hs : Hashes) (f : BloomFilter) (k : String) → might_contain hs (add hs f k) k ≡ true
unfolding add might_contain
might_contain-add_self hs f k = all_set-set_bits f.bits (slots hs f k)

-- A key that the Bloom filter reports is reported after any other key is added.
pub might_contain-add :
    (hs : Hashes) (f : BloomFilter) (k j : String)
    → might_contain hs f j ≡ true
    → might_contain hs (add hs f k) j ≡ true
unfolding add might_contain
might_contain-add hs f k j h = all_set_keeps f.bits (slots hs f k) (slots hs f j) h
