-- ===== src/Hiraishin/Reports.antt =====
-- The filter never denies a key that was added, whatever is added later.
use silokatana.Base.{
  ℕ, ◌+◌, ◌%◌, ◌/◌, ◌<◌, ◌≡◌, ◌≢◌, refl, Option, none, some, List, [], ◌∷◌, ◌==◌, arith, Bool-cases,
  inl, inr,
}
use silokatana.Base.CStr.{c_str}
use silokatana.Util.{
  Bytes, setbit, getbit, setbit-small, getbit-setbit, getbit-setbit_self, sax_hash, djb_hash,
}
use silokatana.Hiraishin.Defs.{
  Hiraishin, HashFunc, new, add, add_bits, get, get_bits, hiraishin_bits,
}

abbrev pub IsSmall : Bytes → Type 0
IsSmall bits = (i : ℕ) → bits i < 256

-- The bits of `k` under the functions `fs` are all set.
abbrev AllSet : List HashFunc → ℕ → List ℕ → Bytes → Type 0
AllSet [] size k bits = Unit
AllSet (f ∷ fs) size k bits = (getbit bits (f k % size) ≢ 0) × AllSet fs size k bits

get_bits-AllSet :
    (fs : List HashFunc) (size : ℕ) (k : List ℕ) (bits : Bytes)
    → AllSet fs size k bits
    → get_bits fs size k bits ≡ 1
unfolding get_bits
get_bits-AllSet [] size k bits h = refl
get_bits-AllSet (f ∷ fs) size k bits h = ground (arith, get_bits-AllSet fs size k bits h.1, h.0)

AllSet-get_bits :
    (fs : List HashFunc) (size : ℕ) (k : List ℕ) (bits : Bytes)
    → get_bits fs size k bits ≡ 1
    → AllSet fs size k bits
unfolding get_bits
AllSet-get_bits [] size k bits h = tt
AllSet-get_bits (f ∷ fs) size k bits h = elim (Bool-cases (getbit bits (f k % size) == 0)) [
  | inl e ↦ absurd (ground arith)
  | inr e ↦ (ground arith, AllSet-get_bits fs size k bits (ground arith))
]

AllSet-setbit :
    (fs : List HashFunc) (size : ℕ) (k : List ℕ) (bits : Bytes) (i : ℕ)
    → IsSmall bits
    → AllSet fs size k bits
    → AllSet fs size k (setbit bits i)
AllSet-setbit [] size k bits i small h = tt
AllSet-setbit (f ∷ fs) size k bits i small h =
    (getbit-setbit bits small i (f k % size) h.0, AllSet-setbit fs size k bits i small h.1)

add_bits-IsSmall :
    (gs : List HashFunc) (size : ℕ) (j : List ℕ) (bits : Bytes)
    → IsSmall bits
    → IsSmall (add_bits gs size j bits)
unfolding add_bits
add_bits-IsSmall [] size j bits small = small
add_bits-IsSmall (g ∷ gs) size j bits small =
    add_bits-IsSmall gs size j (setbit bits (g j % size)) (setbit-small bits small (g j % size))

AllSet-add_bits :
    (gs fs : List HashFunc) (size : ℕ) (j k : List ℕ) (bits : Bytes)
    → IsSmall bits
    → AllSet fs size k bits
    → AllSet fs size k (add_bits gs size j bits)
unfolding add_bits
AllSet-add_bits [] fs size j k bits small h = h
AllSet-add_bits (g ∷ gs) fs size j k bits small h =
    AllSet-add_bits gs fs size j k (setbit bits (g j % size)) (setbit-small bits small (g j % size))
      (AllSet-setbit fs size k bits (g j % size) small h)

add_bits-AllSet :
    (fs : List HashFunc) (size : ℕ) (k : List ℕ) (bits : Bytes)
    → IsSmall bits
    → AllSet fs size k (add_bits fs size k bits)
unfolding add_bits
add_bits-AllSet [] size k bits small = tt
add_bits-AllSet (f ∷ fs) size k bits small =
    let i = f k % size in
    let small' = setbit-small bits small i in
    let first =
      AllSet-add_bits fs (f ∷ []) size k k (setbit bits i) small'
        (getbit-setbit_self bits small i, tt) in
    (first.0, add_bits-AllSet fs size k (setbit bits i) small')

-- The block holds bytes, and the size is the one that the block was allocated for.
pub record IsValid (h : Hiraishin) : Type 0 where
  pub bytes : IsSmall h.bitset
  pub sized : h.size ≡ hiraishin_bits

pub new-IsValid : IsValid new
unfolding new
new-IsValid = record { bytes = λ i. omega arith; sized = refl }

pub add-IsValid : (h : Hiraishin) (k : Option (List ℕ)) → IsValid h → IsValid (add h k)
unfolding add
add-IsValid h none v = v
add-IsValid h (some k) v = record {
  bytes = add_bits-IsSmall h.hashfuncs h.size k h.bitset v.bytes;
  sized = v.sized;
}

-- A key that the filter reports stays reported when another is added.
pub get-add :
    (h : Hiraishin) (j k : List ℕ)
    → IsValid h
    → get h (some k) ≡ 1
    → get (add h (some j)) (some k) ≡ 1
unfolding get add
get-add h j k v e = get_bits-AllSet h.hashfuncs h.size k _ (
    AllSet-add_bits h.hashfuncs h.hashfuncs h.size j k h.bitset v.bytes
      (AllSet-get_bits h.hashfuncs h.size k h.bitset e))

pub get-add_self : (h : Hiraishin) (k : List ℕ) → IsValid h → get (add h (some k)) (some k) ≡ 1
unfolding get add
get-add_self h k v =
    get_bits-AllSet h.hashfuncs h.size k _ (add_bits-AllSet h.hashfuncs h.size k h.bitset v.bytes)

abbrev pub add_all : Hiraishin → List (List ℕ) → Hiraishin
add_all h [] = h
add_all h (k ∷ ks) = add_all (add h (some k)) ks

get-add_all :
    (h : Hiraishin) (ks : List (List ℕ)) (k : List ℕ)
    → IsValid h
    → get h (some k) ≡ 1
    → get (add_all h ks) (some k) ≡ 1
get-add_all h [] k v e = e
get-add_all h (j ∷ ks) k v e =
    get-add_all (add h (some j)) ks k (add-IsValid h (some j) v) (get-add h j k v e)

-- In a valid filter, a key that is added is reported after any further additions.
pub no_false_negative :
    (h : Hiraishin) (k : List ℕ) (ks : List (List ℕ))
    → IsValid h
    → get (add_all (add h (some k)) ks) (some k) ≡ 1
no_false_negative h k ks v =
    get-add_all (add h (some k)) ks k (add-IsValid h (some k) v) (get-add_self h k v)

-- Every index that the macros form lies in the block of `(size + 1)` bytes.
pub bit_in_block :
    (h : Hiraishin) (f : HashFunc) (k : List ℕ) → IsValid h → f k % h.size / 8 < h.size + 1
bit_in_block h f k v = rw v.sized (omega arith)

-- Blocks that show the same string are reported alike.
pub get-c_str :
    (h : Hiraishin) (a b : List ℕ)
    → h.hashfuncs ≡ sax_hash ∷ djb_hash ∷ []
    → c_str a ≡ c_str b
    → get h (some a) ≡ get h (some b)
unfolding get sax_hash djb_hash
get-c_str h a b funcs e = rw (funcs, e) refl
