-- ===== src/Examples/Buffer.antt =====
-- Concrete buffers and numbers (storage/src/buffer.c).
use silokatana.Base.{
  ℕ, ◌<◌, ◌+◌, ◌^◌, ◌≤◌, ◌≡◌, refl, [], ◌∷◌, ◌++◌, arith, ltb, if◌then◌else◌, ◌%◌, ◌*◌, ◌-◌,
}
use silokatana.Buffer.{
  Buffer, new, putnstr, next_power, int_bytes, long_bytes, short_bytes, u16_from_big, u32_from_big,
  u64_from_big, Holds, Gives, IsString, new-Holds, putnstr-IsString, next_power_lem,
  u32_from_big-int_bytes, u64_from_big-long_bytes, u16_from_big-short_bytes,
}

abbrev empty : Buffer
empty = new 10

empty-Holds : Holds empty []
empty-Holds = (new-Holds 10 (omega arith)).0

next_power_lem_example : (k : ℕ) × (next_power 33 ≡ 2 ^ k) × (33 ≤ 2 ^ k) × (2 ^ k < 2 * 33)
next_power_lem_example = next_power_lem 33 (omega arith) (omega arith)

empty-nul : empty.nul ≡ 0
empty-nul = empty-Holds.mark

putnstr-IsString_example : Gives (putnstr empty (7 ∷ 8 ∷ 9 ∷ []) 2) (IsString (7 ∷ 8 ∷ []))
putnstr-IsString_example =
    putnstr-IsString empty [] empty-Holds (7 ∷ 8 ∷ 9 ∷ []) 2 (omega arith)
      (omega (arith, empty-nul))

u32_from_big-int_bytes_example : u32_from_big (int_bytes 0xdead_beef ++ []) ≡ 0xdead_beef
u32_from_big-int_bytes_example = u32_from_big-int_bytes 0xdead_beef [] (omega arith)

-- The first offset that does not come back.
u64_from_big-long_bytes_example : u64_from_big (long_bytes 0x8000_0000 ++ []) ≡ (
    if ltb (0x8000_0000 % 2 ^ 32) (2 ^ 31)
    then 0x8000_0000
    else 0x8000_0000 % 2 ^ 32 + (2 ^ 64 - 2 ^ 32))
u64_from_big-long_bytes_example = u64_from_big-long_bytes 0x8000_0000 [] (omega arith)

u64_from_big_runs : u64_from_big (long_bytes 0x8000_0000) ≡ 0xffff_ffff_8000_0000
unfolding u64_from_big long_bytes
u64_from_big_runs = refl

u16_from_big-short_bytes_example : u16_from_big (short_bytes 0x1234 ++ 5 ∷ 6 ∷ []) ≡ 5 * 2 ^ 8 + 6
u16_from_big-short_bytes_example =
    u16_from_big-short_bytes 0x1234 5 6 [] (omega arith) (omega arith)
