-- ===== src/Hiraishin/Defs.antt =====
-- The operations of storage/src/hiraishin.c; a key that is no pointer at all is `none`.
use silokatana.Base.{ℕ, ◌+◌, ◌%◌, Option, none, some, List, [], ◌∷◌, ◌==◌, if◌then◌else◌}
use silokatana.Util.{sax_hash, djb_hash, Bytes, setbit, getbit, word}

abbrev pub HashFunc : Type 0
HashFunc = List ℕ → ℕ

pub record Hiraishin : Type 0 where
  pub bitset : Bytes
  pub size : ℕ
  pub count : ℕ
  pub hashfuncs : List HashFunc

-- HIRAISHIN_BITS
abbrev pub hiraishin_bits : ℕ
hiraishin_bits = 433_494_437

unfoldable pub new : Hiraishin
new = record {
  bitset = λ _. 0;
  size = hiraishin_bits;
  count = 0;
  hashfuncs = sax_hash ∷ djb_hash ∷ [];
}

-- The loop over the hash functions in `hiraishin_add`.
unfoldable pub add_bits : List HashFunc → ℕ → List ℕ → Bytes → Bytes
add_bits [] size k bits = bits
add_bits (f ∷ fs) size k bits = add_bits fs size k (setbit bits (f k % size))

unfoldable pub add : Hiraishin → Option (List ℕ) → Hiraishin
unfolding add_bits
add h none = h
add h (some k) = record h {
  bitset = add_bits h.hashfuncs h.size k h.bitset;
  count = (h.count + 1) % word;
}

-- The loop in `hiraishin_get`, with its early return.
unfoldable pub get_bits : List HashFunc → ℕ → List ℕ → Bytes → ℕ
get_bits [] size k bits = 1
get_bits (f ∷ fs) size k bits =
    let rest = get_bits fs size k bits in if getbit bits (f k % size) == 0 then 0 else rest

unfoldable pub get : Hiraishin → Option (List ℕ) → ℕ
unfolding get_bits
get h none = 0
get h (some k) = get_bits h.hashfuncs h.size k h.bitset
