-- ===== src/Buffer/BigEndian.antt =====
-- The big-endian numbers of storage/src/buffer.c: what the readers make of the writers' bytes.
use Prim.Native.Nat.{bit_or}
use silokatana.Base.{
  ℕ, ◌+◌, ◌-◌, ◌*◌, ◌%◌, ◌^◌, ◌<◌, ◌≡◌, ap, ◌∙◌, List, ◌∷◌, ◌++◌, arith, true, false, ltb,
  if◌then◌else◌, Bool-cases, inl, inr,
}
use mathlib.Core.Path.{ap₂}
use silokatana.Base.Bits.{bit_or_disjoint, bit_or_split, zero-bit_or, le-bit_or, bit_or-lt}
use silokatana.Buffer.Defs.{
  int_bytes, long_bytes, short_bytes, extend_sign, u16_from_big, u32_from_big, u64_from_big,
  byte_at, word,
}

-- Four bytes shifted and joined make the number that they spell.
join4 :
    (a b c d : ℕ)
    → a < 256
    → b < 256
    → c < 256
    → d < 256
    → bit_or (bit_or (bit_or (a * 2 ^ 24) (b * 2 ^ 16)) (c * 2 ^ 8)) d
      ≡ a * 2 ^ 24 + b * 2 ^ 16 + c * 2 ^ 8 + d
join4 a b c d ha hb hc hd =
    let e₁ = bit_or_disjoint 24 a (b * 2 ^ 16) (omega arith) (omega arith) in
    let f₁ : a * 2 ^ 24 + b * 2 ^ 16 ≡ (a * 2 ^ 8 + b) * 2 ^ 16 = omega arith in
    let e₂ = bit_or_disjoint 16 (a * 2 ^ 8 + b) (c * 2 ^ 8) (omega arith) (omega arith) in
    let f₂ : (a * 2 ^ 8 + b) * 2 ^ 16 + c * 2 ^ 8 ≡ (a * 2 ^ 16 + b * 2 ^ 8 + c) * 2 ^ 8 =
      omega arith in
    let e₃ = bit_or_disjoint 8 (a * 2 ^ 16 + b * 2 ^ 8 + c) d (omega arith) (omega arith) in
    rw (e₁, f₁, e₂, f₂, e₃) (omega arith)

-- `u32_from_big` reads back every `int` from the bytes that `buffer_putint` writes.
pub u32_from_big-int_bytes :
    (val : ℕ) (rest : List ℕ) → val < 2 ^ 32 → u32_from_big (int_bytes val ++ rest) ≡ val
unfolding u32_from_big int_bytes
u32_from_big-int_bytes val rest h =
    let top : byte_at val 24 * 2 ^ 24 % word ≡ byte_at val 24 * 2 ^ 24 = omega arith in
    rw (top, zero-bit_or)
      (join4 (byte_at val 24) (byte_at val 16) (byte_at val 8) (byte_at val 0) (omega arith)
          (omega arith) (omega arith) (omega arith)
        ∙ omega arith)

or_ones : (t : ℕ) → t < 2 ^ 32 → bit_or t (2 ^ 32 - 1) ≡ 2 ^ 32 - 1
or_ones t h =
    omega (arith, le-bit_or 32 t (2 ^ 32 - 1) h, bit_or-lt 32 t (2 ^ 32 - 1) h (omega arith))

-- The upper four bytes: none of them is lost.
join_high :
    (a b c d : ℕ)
    → a < 256
    → b < 256
    → c < 256
    → d < 256
    → bit_or (bit_or (bit_or (a * 2 ^ 56) (b * 2 ^ 48)) (c * 2 ^ 40)) (d * 2 ^ 32)
      ≡ (a * 2 ^ 24 + b * 2 ^ 16 + c * 2 ^ 8 + d) * 2 ^ 32
join_high a b c d ha hb hc hd =
    let e₁ = bit_or_disjoint 56 a (b * 2 ^ 48) (omega arith) (omega arith) in
    let f₁ : a * 2 ^ 56 + b * 2 ^ 48 ≡ (a * 2 ^ 8 + b) * 2 ^ 48 = omega arith in
    let e₂ = bit_or_disjoint 48 (a * 2 ^ 8 + b) (c * 2 ^ 40) (omega arith) (omega arith) in
    let f₂ : (a * 2 ^ 8 + b) * 2 ^ 48 + c * 2 ^ 40 ≡ (a * 2 ^ 16 + b * 2 ^ 8 + c) * 2 ^ 40 =
      omega arith in
    let e₃ =
      bit_or_disjoint 40 (a * 2 ^ 16 + b * 2 ^ 8 + c) (d * 2 ^ 32) (omega arith) (omega arith) in
    rw (e₁, f₁, e₂, f₂, e₃) (omega arith)

-- The lower bytes under `t`, where `t` has all that stands above them.
join_low :
    (t a b c d : ℕ)
    → t < 2 ^ 32
    → a < 256
    → b < 256
    → c < 256
    → d < 256
    → bit_or (bit_or (bit_or (t * 2 ^ 32 + a * 2 ^ 24) (b * 2 ^ 16)) (c * 2 ^ 8)) d
      ≡ t * 2 ^ 32 + (a * 2 ^ 24 + b * 2 ^ 16 + c * 2 ^ 8 + d)
join_low t a b c d ht ha hb hc hd =
    let f₀ : t * 2 ^ 32 + a * 2 ^ 24 ≡ (t * 2 ^ 8 + a) * 2 ^ 24 = omega arith in
    let e₁ = bit_or_disjoint 24 (t * 2 ^ 8 + a) (b * 2 ^ 16) (omega arith) (omega arith) in
    let f₁ : (t * 2 ^ 8 + a) * 2 ^ 24 + b * 2 ^ 16 ≡ (t * 2 ^ 16 + a * 2 ^ 8 + b) * 2 ^ 16 =
      omega arith in
    let e₂ =
      bit_or_disjoint 16 (t * 2 ^ 16 + a * 2 ^ 8 + b) (c * 2 ^ 8) (omega arith) (omega arith) in
    let f₂ : (t * 2 ^ 16 + a * 2 ^ 8 + b) * 2 ^ 16 + c * 2 ^ 8
        ≡ (t * 2 ^ 24 + a * 2 ^ 16 + b * 2 ^ 8 + c) * 2 ^ 8 =
      omega arith in
    let e₃ =
      bit_or_disjoint 8 (t * 2 ^ 24 + a * 2 ^ 16 + b * 2 ^ 8 + c) d (omega arith) (omega arith) in
    rw (f₀, e₁, f₁, e₂, f₂, e₃) (omega arith)

-- What the sign of the byte at 4 makes of the bytes above it.
sign_byte : ℕ → ℕ → ℕ
sign_byte t a = if ltb a 128 then t else 2 ^ 32 - 1

or_sign_byte :
    (t a : ℕ)
    → t < 2 ^ 32
    → a < 256
    → bit_or (t * 2 ^ 32) (extend_sign (a * 2 ^ 24)) ≡ sign_byte t a * 2 ^ 32 + a * 2 ^ 24
unfolding extend_sign sign_byte
or_sign_byte t a ht ha = elim (Bool-cases (ltb a 128)) [
  | inl small ↦
      let p : ltb (a * 2 ^ 24) (2 ^ 31) ≡ true = ground arith in
      rw (p, small) (bit_or_disjoint 32 t (a * 2 ^ 24) (omega arith) (ground arith))
  | inr big ↦
      let p : ltb (a * 2 ^ 24) (2 ^ 31) ≡ false = ground arith in
      let e : t * 2 ^ 32 ≡ t * 2 ^ 32 + 0 = omega arith in
      let f : a * 2 ^ 24 + (2 ^ 64 - 2 ^ 32) ≡ (2 ^ 32 - 1) * 2 ^ 32 + a * 2 ^ 24 = omega arith in
      rw (p, big, f)
        (ap (λ x. bit_or x ((2 ^ 32 - 1) * 2 ^ 32 + a * 2 ^ 24)) e
          ∙ bit_or_split 32 t (2 ^ 32 - 1) 0 (a * 2 ^ 24) (omega arith) (omega arith)
          ∙ ap₂ (λ x y. x * 2 ^ 32 + y) (or_ones t ht) (zero-bit_or (a * 2 ^ 24)))
]

narrow : (x : ℕ) → x < 2 ^ 31 → extend_sign (x % word) ≡ x
unfolding extend_sign
narrow x h = ground arith

narrow_byte : (x : ℕ) → x < 256 → extend_sign x ≡ x
unfolding extend_sign
narrow_byte x h = ground arith

-- Of the bytes that `buffer_putlong` writes, `u64_from_big` reads back the number while its bit 31 is
-- clear. Where that bit is set, the sign of the fifth byte has overwritten the upper half by ones.
pub u64_from_big-long_bytes :
    (val : ℕ) (rest : List ℕ)
    → val < 2 ^ 64
    → u64_from_big (long_bytes val ++ rest)
      ≡ (if ltb (val % 2 ^ 32) (2 ^ 31) then val else val % 2 ^ 32 + (2 ^ 64 - 2 ^ 32))
unfolding u64_from_big long_bytes sign_byte
u64_from_big-long_bytes val rest h =
    let b₀ = byte_at val 56 in
    let b₁ = byte_at val 48 in
    let b₂ = byte_at val 40 in
    let b₃ = byte_at val 32 in
    let b₄ = byte_at val 24 in
    let t = b₀ * 2 ^ 24 + b₁ * 2 ^ 16 + b₂ * 2 ^ 8 + b₃ in
    let high = join_high b₀ b₁ b₂ b₃ (omega arith) (omega arith) (omega arith) (omega arith) in
    let e₄ : b₄ * 2 ^ 24 % word ≡ b₄ * 2 ^ 24 = omega arith in
    let mid = or_sign_byte t b₄ (omega arith) (omega arith) in
    let n₅ = narrow (byte_at val 16 * 2 ^ 16) (omega arith) in
    let n₆ = narrow (byte_at val 8 * 2 ^ 8) (omega arith) in
    let n₇ : extend_sign (byte_at val 0) ≡ byte_at val 0 =
      narrow_byte (byte_at val 0) (omega arith) in
    let low =
      join_low (sign_byte t b₄) b₄ (byte_at val 16) (byte_at val 8) (byte_at val 0) (ground arith)
        (omega arith) (omega arith) (omega arith) (omega arith) in
    rw (zero-bit_or, high, e₄, mid, n₅, n₆, n₇, low) (ground arith)

-- `u16_from_big` takes the bytes at 2 and 3: of a block that starts with a written `short`, it reads
-- the two bytes behind that, whatever the `short` was.
pub u16_from_big-short_bytes :
    (val a b : ℕ) (rest : List ℕ)
    → a < 256
    → b < 256
    → u16_from_big (short_bytes val ++ a ∷ b ∷ rest) ≡ a * 2 ^ 8 + b
unfolding u16_from_big short_bytes
u16_from_big-short_bytes val a b rest ha hb =
    let e : a * 2 ^ 8 % 2 ^ 16 ≡ a * 2 ^ 8 = omega arith in
    rw (zero-bit_or, e, bit_or_disjoint 8 a b (omega arith) (omega arith)) (omega arith)
