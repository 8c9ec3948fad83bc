-- ===== src/Dedup.antt =====
-- src/triage/dedup.py: a Bloom filter as a candidate check, and the bounded exact set behind it.
-- Keys are texts. The two 64-bit slices of SHA-256 are arguments, and the filter is taken with its
-- sizes: computing them from a rate uses logarithms.
pub mod Bloom
pub mod Recent
pub mod Check
use vh26_crackers.Base.{
  ℕ, zero, suc, ◌+◌, ◌*◌, ◌%◌, ◌/◌, ◌^◌, Bool, true, false, not, ◌&&◌, ◌||◌, ltb, ◌==◌, str_eq,
  List, [], ◌∷◌, ◌++◌, String, length, if◌then◌else◌,
}

-- The bits of `_bits`, each by its position: bit `slot % 8` of byte `slot // 8`.
pub record BloomFilter : Type 0 where
  pub num_bits : ℕ
  pub num_hashes : ℕ
  pub bits : ℕ → ℕ → Bool

-- `h1` and `h2` of `_slots`
pub record Hashes : Type 0 where
  pub h1 : String → ℕ
  pub h2 : String → ℕ

-- the members `i` of `range(num_hashes)`, from `i` on
unfoldable pub slots_from : ℕ → ℕ → ℕ → ℕ → ℕ → List ℕ
slots_from zero i a b m = []
slots_from (suc n) i a b m = (a + i * b) % m ∷ slots_from n (i + 1) a b m

unfoldable pub slots : Hashes → BloomFilter → String → List ℕ
unfolding slots_from
slots hs f key = slots_from f.num_hashes 0 (hs.h1 key) (hs.h2 key) f.num_bits

-- `self._bits[slot // 8] |= 1 << (slot % 8)`
unfoldable pub set_bit : (ℕ → ℕ → Bool) → ℕ → ℕ → ℕ → Bool
set_bit bits slot byte bit = (byte == slot / 8 && bit == slot % 8) || bits byte bit

unfoldable pub set_bits : (ℕ → ℕ → Bool) → List ℕ → ℕ → ℕ → Bool
unfolding set_bit
set_bits bits [] = bits
set_bits bits (slot ∷ rest) = set_bits (set_bit bits slot) rest

unfoldable pub all_set : (ℕ → ℕ → Bool) → List ℕ → Bool
all_set bits [] = true
all_set bits (slot ∷ rest) = bits (slot / 8) (slot % 8) && all_set bits rest

unfoldable pub add : Hashes → BloomFilter → String → BloomFilter
unfolding slots set_bits
add hs f key = record f { bits = set_bits f.bits (slots hs f key) }

unfoldable pub might_contain : Hashes → BloomFilter → String → Bool
unfolding slots all_set
might_contain hs f key = all_set f.bits (slots hs f key)

-- `OrderedDict` with no values: its keys, the oldest first.
unfoldable pub member : String → List String → Bool
member k [] = false
member k (x ∷ xs) = str_eq x k || member k xs

unfoldable pub remove : String → List String → List String
remove k [] = []
remove k (x ∷ xs) = if str_eq x k then xs else x ∷ remove k xs

-- `d[k] = None; d.move_to_end(k)`: the key goes last, whether it was there or not
unfoldable pub move_to_end : String → List String → List String
unfolding remove
move_to_end k xs = remove k xs ++ k ∷ []

-- `while len(d) > capacity: d.popitem(last=False)`
unfoldable pub evict : ℕ → List String → List String
evict capacity [] = []
evict capacity (x ∷ xs) =
    let rest = evict capacity xs in if ltb capacity (length (x ∷ xs)) then rest else x ∷ xs

pub record Deduplicator : Type 0 where
  pub bloom : BloomFilter
  pub exact : List String
  pub capacity : ℕ

unfoldable pub admit : Hashes → Deduplicator → String → Deduplicator
unfolding move_to_end evict
admit hs d key = record d {
  bloom = add hs d.bloom key;
  exact = evict d.capacity (move_to_end key d.exact);
}

unfoldable pub check : Hashes → Deduplicator → String → Deduplicator × Bool
unfolding admit move_to_end member
check hs d key =
    if not (might_contain hs d.bloom key)
    then (admit hs d key, false)
    else if member key d.exact
    then (record d { exact = move_to_end key d.exact }, true)
    else (admit hs d key, false)

unfoldable pub exact_set_size : Deduplicator → ℕ
exact_set_size d = length d.exact
