-- ===== src/Buffer/Defs.antt =====
-- The operations of storage/src/buffer.c. `realloc` keeps the old cells and leaves the new ones
-- undetermined; `malloc` and `realloc` are taken to succeed, as the source does.
use Prim.Native.Nat.{bit_or}
use silokatana.Base.{
  ℕ, ◌+◌, ◌-◌, ◌*◌, ◌/◌, ◌%◌, ◌^◌, Option, none, some, List, [], ◌∷◌, ◌++◌, ltb, leb, ◌==◌,
  if◌then◌else◌, length, take, drop, replicate, get_or,
}
use silokatana.Base.CStr.{c_str}
use mathlib.Core.List.{map}

abbrev pub Cells : Type 0
Cells = List (Option ℕ)

-- `buf` is the block of `buflen` cells, or no block at all while `buflen` is 0.
pub record Buffer : Type 0 where
  pub buf : Cells
  pub nul : ℕ
  pub buflen : ℕ

abbrev pub word : ℕ
word = 2 ^ 32

-- x |= x >> k
unfoldable pub smear : ℕ → ℕ → ℕ
smear x k = bit_or x (x / 2 ^ k)

unfoldable pub next_power : ℕ → ℕ
unfolding smear
next_power x =
    let x₀ = (x + word - 1) % word in
    let x₁ = smear x₀ 1 in
    let x₂ = smear x₁ 2 in
    let x₃ = smear x₂ 4 in let x₄ = smear x₃ 8 in let x₅ = smear x₄ 16 in (x₅ + 1) % word

unfoldable pub realloc : Cells → ℕ → Cells
realloc cells n = take n (cells ++ replicate (n - length cells) none)

unfoldable pub extend_by : Buffer → ℕ → Buffer
unfolding realloc
extend_by b len =
    let need = len + b.nul in
    if leb need b.buflen
    then b
    else (let b₁ = if b.buflen == 0 then record b { buflen = 32 } else b in
        let size = next_power need in record b₁ { buflen = size; buf = realloc b₁.buf size })

-- `memcpy(&buf[at], bytes, n)`, and with one byte `buf[at] = byte`.
unfoldable pub write_at : Cells → ℕ → List ℕ → Option Cells
write_at cells at bytes =
    if leb (at + length bytes) (length cells)
    then some (take at cells ++ (map some bytes ++ drop (at + length bytes) cells))
    else none

-- A write at the mark `NUL`, which moves on by as much.
unfoldable pub push : Buffer → List ℕ → Option Buffer
push b bytes = elim (write_at b.buf b.nul bytes) [
  | none ↦ none
  | some cells ↦ some (record b { buf = cells; nul = b.nul + length bytes })
]

-- `buf[NUL] = '\0'`, which leaves the mark.
unfoldable pub terminate : Buffer → Option Buffer
terminate b = elim (write_at b.buf b.nul (0 ∷ [])) [
  | none ↦ none
  | some cells ↦ some (record b { buf = cells })
]

infixl 5 ◌>>=◌
abbrev pub ◌>>=◌ : Option Buffer → (Buffer → Option Buffer) → Option Buffer
none >>= f = none
some b >>= f = f b

unfoldable pub new : ℕ → Buffer
new reserve =
    let b : Buffer = record { buf = []; nul = 0; buflen = 0 } in
    if reserve == 0 then b else extend_by b (reserve + 1)

unfoldable pub clear : Buffer → Option Buffer
clear b = let b₀ = record b { nul = 0 } in if length b.buf == 0 then some b₀ else terminate b₀

-- `str` is the block that the pointer shows, and a `memcpy` past its end faults.
unfoldable pub putnstr : Buffer → List ℕ → ℕ → Option Buffer
putnstr b str n =
    if leb n (length str) then push (extend_by b (n + 1)) (take n str) >>= terminate else none

unfoldable pub putstr : Buffer → List ℕ → Option Buffer
putstr b str =
    let len = length (c_str str) in push (extend_by b (len + 1)) (take len str) >>= terminate

-- `buffer_scatf` of what its format makes. Where that does not fit at once, `_string_vprintf` reads its
-- arguments a second time, which is undefined.
unfoldable pub scatf : Buffer → List ℕ → Option Buffer
scatf b made = if ltb (length made) (b.buflen - b.nul) then push b made >>= terminate else none

unfoldable pub putc : Buffer → ℕ → Option Buffer
putc b c = push (extend_by b 2) (c ∷ []) >>= terminate

-- (val >> k) & 0xff
abbrev pub byte_at : ℕ → ℕ → ℕ
byte_at val k = val / 2 ^ k % 256

unfoldable pub int_bytes : ℕ → List ℕ
int_bytes val = byte_at val 24 ∷ byte_at val 16 ∷ byte_at val 8 ∷ byte_at val 0 ∷ []

unfoldable pub putint : Buffer → ℕ → Option Buffer
putint b val = push (extend_by b 4) (int_bytes val)

unfoldable pub short_bytes : ℕ → List ℕ
short_bytes val = byte_at val 8 ∷ byte_at val 0 ∷ []

unfoldable pub putshort : Buffer → ℕ → Option Buffer
putshort b val = push (extend_by b 2) (short_bytes val)

unfoldable pub long_bytes : ℕ → List ℕ
long_bytes val =
    byte_at val 56
    ∷ byte_at val 48
    ∷ byte_at val 40
    ∷ byte_at val 32
    ∷ byte_at val 24
    ∷ byte_at val 16
    ∷ byte_at val 8
    ∷ byte_at val 0
    ∷ []

unfoldable pub putlong : Buffer → ℕ → Option Buffer
putlong b val = push (extend_by b 8) (long_bytes val)

-- The value that the pattern of an `int` converts to as a `uint64_t`: its sign is extended.
unfoldable pub extend_sign : ℕ → ℕ
extend_sign w = if ltb w (2 ^ 31) then w else w + (2 ^ 64 - 2 ^ 32)

-- A byte `buf[i]` of a block; the callers hand over blocks that are long enough.
abbrev byte : List ℕ → ℕ → ℕ
byte buf i = get_or buf i 0

-- It reads the bytes at 2 and 3, and not those at 0 and 1.
unfoldable pub u16_from_big : List ℕ → ℕ
u16_from_big buf =
    let v₀ = bit_or 0 (byte buf 2 * 2 ^ 8) % 2 ^ 16 in bit_or v₀ (byte buf 3) % 2 ^ 16

unfoldable pub u32_from_big : List ℕ → ℕ
u32_from_big buf =
    let v₀ = bit_or 0 (byte buf 0 * 2 ^ 24 % word) in
    let v₁ = bit_or v₀ (byte buf 1 * 2 ^ 16) in
    let v₂ = bit_or v₁ (byte buf 2 * 2 ^ 8) in bit_or v₂ (byte buf 3)

-- The upper four bytes are widened before they are shifted, the lower four are shifted as `int`.
unfoldable pub u64_from_big : List ℕ → ℕ
unfolding extend_sign
u64_from_big buf =
    let v₀ = bit_or 0 (byte buf 0 * 2 ^ 56) in
    let v₁ = bit_or v₀ (byte buf 1 * 2 ^ 48) in
    let v₂ = bit_or v₁ (byte buf 2 * 2 ^ 40) in
    let v₃ = bit_or v₂ (byte buf 3 * 2 ^ 32) in
    let v₄ = bit_or v₃ (extend_sign (byte buf 4 * 2 ^ 24 % word)) in
    let v₅ = bit_or v₄ (extend_sign (byte buf 5 * 2 ^ 16 % word)) in
    let v₆ = bit_or v₅ (extend_sign (byte buf 6 * 2 ^ 8 % word)) in
    bit_or v₆ (extend_sign (byte buf 7))

-- Hands the block over and starts again at its front.
unfoldable pub detach : Buffer → Cells × Buffer
detach b = (b.buf, record b { nul = 0 })
