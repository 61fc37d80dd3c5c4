-- ===== src/Util/Bitset.antt =====
-- The macros `SETBIT_1` and `GETBIT` of storage/include/util.h, over a block of bytes.
use Prim.Native.Nat.{bit_and, bit_or}
use silokatana.Base.{
  Bool-cases, inl, inr, ◌≤◌, ℕ, zero, suc, ◌/◌, ◌%◌, ◌^◌, ◌<◌, ◌≡◌, ◌≢◌, ◌&&◌, ◌||◌, refl, Bool,
  true, not, arith, ◌==◌, if◌then◌else◌,
}

abbrev pub Bytes : Type 0
Bytes = ℕ → ℕ

abbrev pub update : Bytes → ℕ → ℕ → Bytes
update f i v j = if i == j then v else f j

-- bitset[i / CHAR_BIT] |= (1 << (i % CHAR_BIT))
unfoldable pub setbit : Bytes → ℕ → Bytes
setbit bits i = update bits (i / 8) (bit_or (bits (i / 8)) (2 ^ (i % 8)) % 256)

-- bitset[i / CHAR_BIT] & (1 << (i % CHAR_BIT))
unfoldable pub getbit : Bytes → ℕ → ℕ
getbit bits i = bit_and (bits (i / 8)) (2 ^ (i % 8))

-- A test of every number up to a bound.
every : (ℕ → Bool) → ℕ → Bool
every test zero = test zero
every test (suc top) = every test top && test (suc top)

every_at : (test : ℕ → Bool) (top i : ℕ) → i ≤ top → every test top ≡ true → test i ≡ true
unfolding every
every_at test zero i h e = let z : zero ≡ i = omega arith in rw z at e
every_at test (suc top) i h e = elim (Bool-cases (i == suc top)) [
  | inl f ↦ ground arith
  | inr f ↦ let lower : i ≤ top = ground arith in ground (arith, every_at test top i lower)
]

-- A bit that is set, or that was set before, is set.
sets : ℕ → ℕ → ℕ → Bool
sets x i j =
    let y = bit_or x (2 ^ i) % 256 in
    not (bit_and y (2 ^ i) == 0) && (bit_and x (2 ^ j) == 0 || not (bit_and y (2 ^ j) == 0))

-- The test of one byte, at every pair of places.
sets_byte : ℕ → Bool
sets_byte x = every (λ i. every (λ j. sets x i j) 7) 7

sets_all : every sets_byte 255 ≡ true
unfolding every sets sets_byte
sets_all = refl

sets_lem : (x i j : ℕ) → x < 256 → i < 8 → j < 8 → sets x i j ≡ true
unfolding sets_byte
sets_lem x i j hx hi hj =
    let at_x = every_at sets_byte 255 x (omega arith) sets_all in
    let at_i = every_at (λ p. every (λ q. sets x p q) 7) 7 i (omega arith) at_x in
    every_at (λ q. sets x i q) 7 j (omega arith) at_i

module _ (bits : Bytes) (small : (i : ℕ) → bits i < 256) where
  pub setbit-small : (i j : ℕ) → setbit bits i j < 256
  unfolding setbit
  setbit-small i j = ground (arith, small j)

  -- Setting a bit sets it, and clears no other.
  pub getbit-setbit : (i j : ℕ) → getbit bits j ≢ 0 → getbit (setbit bits i) j ≢ 0
  unfolding getbit setbit sets
  getbit-setbit i j h =
      ground
        (arith, sets_lem (bits (i / 8)) (i % 8) (j % 8) (small (i / 8)) (omega arith) (omega arith))

  pub getbit-setbit_self : (i : ℕ) → getbit (setbit bits i) i ≢ 0
  unfolding getbit setbit sets
  getbit-setbit_self i =
      ground
        (arith, sets_lem (bits (i / 8)) (i % 8) (i % 8) (small (i / 8)) (omega arith) (omega arith))
