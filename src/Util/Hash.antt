-- ===== src/Util/Hash.antt =====
-- The hash functions of storage/include/util.h. Each reads its key up to the NUL.
use Prim.Native.Nat.{bit_xor}
use silokatana.Base.{ℕ, ◌+◌, ◌-◌, ◌*◌, ◌/◌, ◌%◌, ◌^◌, ◌≡◌, ap, List, [], ◌∷◌, ltb, if◌then◌else◌}
use silokatana.Base.CStr.{c_str}

abbrev pub word : ℕ
word = 2 ^ 32

sax_loop : ℕ → List ℕ → ℕ
sax_loop h [] = h
sax_loop h (c ∷ key) = sax_loop (bit_xor h ((h * 2 ^ 5 % word + h / 2 ^ 2 + c) % word)) key

-- h ^= (h << 5) + (h >> 2) + (unsigned char) *key
unfoldable pub sax_hash : List ℕ → ℕ
unfolding sax_loop
sax_hash key = sax_loop 0 (c_str key)

sdbm_loop : ℕ → List ℕ → ℕ
sdbm_loop h [] = h
sdbm_loop h (c ∷ key) = sdbm_loop ((c + h * 2 ^ 6 % word + h * 2 ^ 16 % word + word - h) % word) key

-- h = (unsigned char) *key + (h << 6) + (h << 16) - h
unfoldable pub sdbm_hash : List ℕ → ℕ
unfolding sdbm_loop
sdbm_hash key = sdbm_loop 0 (c_str key)

-- `(unsigned int) *key` of a signed `char`: the sign of a byte from 128 on is extended.
unfoldable pub char_word : ℕ → ℕ
char_word c = if ltb c 128 then c else c + (word - 256)

djb_loop : ℕ → List ℕ → ℕ
djb_loop h [] = h
djb_loop h (c ∷ key) = djb_loop ((h * 2 ^ 5 % word + h + char_word c) % word) key

-- h = ((h << 5) + h) + (unsigned int) *key, from 5381
unfoldable pub djb_hash : List ℕ → ℕ
unfolding djb_loop char_word
djb_hash key = djb_loop 5381 (c_str key)

-- Blocks that show the same string have the same hash.
pub djb_hash-c_str : (s t : List ℕ) → c_str s ≡ c_str t → djb_hash s ≡ djb_hash t
unfolding djb_hash
djb_hash-c_str s t e = ap (djb_loop 5381) e
