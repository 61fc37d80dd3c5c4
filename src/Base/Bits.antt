-- ===== src/Base/Bits.antt =====
-- Laws of `bit_or` at variables, from the recursion on digits that they stand for.
use Prim.Native.Nat.{
  ℕ, zero, suc, ◌+◌, ◌-◌, ◌*◌, ◌/◌, ◌%◌, ◌^◌, ◌≤◌, ◌<◌, max, bit_or, digits, bit_or-bitwise,
}
use mathlib.Core.Path.{◌≡◌, refl, sym, ◌∙◌, ap₂}
use native.Mathlib.Nat.{pow-suc}
use native.Mathlib.Omega.{arith}

-- The digits of an `or`, on fuel.
abbrev ors : ℕ → ℕ → ℕ → ℕ
ors fuel x y = digits (λ y. y) max fuel x y

-- Fuel that covers the first number is enough, and one more changes nothing.
spare : (fuel x y : ℕ) → x ≤ fuel → ors (suc fuel) x y ≡ ors fuel x y
spare zero zero y h = refl
spare (suc fuel) zero y h = refl
spare (suc fuel) (suc x) y h = omega (arith, spare fuel (suc x / 2) (y / 2) (omega arith))
spare zero (suc x) y h = absurd (omega arith)

spares : (k fuel x y : ℕ) → fuel ≡ k + x → ors fuel x y ≡ ors x x y
spares zero fuel x y h = let e : fuel ≡ x = omega arith in rw e refl
spares (suc k) zero x y h = absurd (omega arith)
spares (suc k) (suc fuel) x y h = spare fuel x y (omega arith) ∙ spares k fuel x y (omega arith)

pub zero-bit_or : (b : ℕ) → bit_or 0 b ≡ b
zero-bit_or b = bit_or-bitwise 0 b

-- The last digit of an `or`, and the `or` of the digits before it.
pub bit_or_step : (a b : ℕ) → bit_or a b ≡ bit_or (a / 2) (b / 2) * 2 + max (a % 2) (b % 2)
bit_or_step zero b = omega (arith, zero-bit_or (b / 2), zero-bit_or b)
bit_or_step (suc x) b =
    let half = suc x / 2 in
    let lower : ors x half (b / 2) ≡ bit_or half (b / 2) =
      spares (x - half) x half (b / 2) (omega arith) ∙ sym (bit_or-bitwise half (b / 2)) in
    omega (arith, lower, bit_or-bitwise (suc x) b)

-- An `or` works on the digits above place `k` and on those below it separately.
pub bit_or_split :
    (k a b r s : ℕ)
    → r < 2 ^ k
    → s < 2 ^ k
    → bit_or (a * 2 ^ k + r) (b * 2 ^ k + s) ≡ bit_or a b * 2 ^ k + bit_or r s
bit_or_split zero zero zero zero zero h g = omega (arith, zero-bit_or 0)
bit_or_split zero a b r s h g =
    let r0 : r ≡ 0 = omega arith in
    let s0 : s ≡ 0 = omega arith in
    let ea : a * 2 ^ 0 + r ≡ a = omega arith in
    let eb : b * 2 ^ 0 + s ≡ b = omega arith in rw (ea, eb, r0, s0) (omega (arith, zero-bit_or 0))
bit_or_split (suc k) a b r s h g =
    let p : 2 ^ suc k ≡ 2 ^ k * 2 = pow-suc 2 k in
    let ha : (a * 2 ^ suc k + r) / 2 ≡ a * 2 ^ k + r / 2 = rw p (omega arith) in
    let hb : (b * 2 ^ suc k + s) / 2 ≡ b * 2 ^ k + s / 2 = rw p (omega arith) in
    let la : (a * 2 ^ suc k + r) % 2 ≡ r % 2 = rw p (omega arith) in
    let lb : (b * 2 ^ suc k + s) % 2 ≡ s % 2 = rw p (omega arith) in
    let ih = bit_or_split k a b (r / 2) (s / 2) (omega arith) (omega arith) in
    rw (bit_or_step (a * 2 ^ suc k + r) (b * 2 ^ suc k + s), ha, hb, la, lb, ih, bit_or_step r s, p)
      (omega arith)

pub bit_or-zero : (k a : ℕ) → a < 2 ^ k → bit_or a 0 ≡ a
bit_or-zero zero a h = let e : a ≡ 0 = omega arith in rw e (zero-bit_or 0)
bit_or-zero (suc k) a h =
    omega (arith, pow-suc 2 k, bit_or_step a 0, bit_or-zero k (a / 2) (omega (arith, pow-suc 2 k)))

pub bit_or-lt : (k a b : ℕ) → a < 2 ^ k → b < 2 ^ k → bit_or a b < 2 ^ k
bit_or-lt zero a b h g =
    let ea : a ≡ 0 = omega arith in
    let eb : b ≡ 0 = omega arith in rw (ea, eb) (omega (arith, zero-bit_or 0))
bit_or-lt (suc k) a b h g = omega (
  arith,
  pow-suc 2 k,
  bit_or_step a b,
  bit_or-lt k (a / 2) (b / 2) (omega (arith, pow-suc 2 k)) (omega (arith, pow-suc 2 k)),
)

pub le-bit_or : (k a b : ℕ) → a < 2 ^ k → (a ≤ bit_or a b) × (b ≤ bit_or a b)
le-bit_or zero a b h = let ea : a ≡ 0 = omega arith in rw (ea, zero-bit_or b) (omega arith)
le-bit_or (suc k) a b h =
    omega (arith, bit_or_step a b, le-bit_or k (a / 2) (b / 2) (omega (arith, pow-suc 2 k)))

-- Where the digits do not overlap an `or` is a sum.
pub bit_or_disjoint : (k a s : ℕ) → a < 2 ^ 64 → s < 2 ^ k → bit_or (a * 2 ^ k) s ≡ a * 2 ^ k + s
bit_or_disjoint k a s h g =
    let ea : a * 2 ^ k + 0 ≡ a * 2 ^ k = omega arith in
    let es : 0 * 2 ^ k + s ≡ s = omega arith in
    let t = bit_or_split k a 0 0 s (omega arith) g in
    sym (ap₂ bit_or ea es) ∙ t ∙ ap₂ (λ x y. x * 2 ^ k + y) (bit_or-zero 64 a h) (zero-bit_or s)

pub bit_or_comm : (k a b : ℕ) → a < 2 ^ k → b < 2 ^ k → bit_or a b ≡ bit_or b a
bit_or_comm zero a b h g =
    let ea : a ≡ 0 = omega arith in let eb : b ≡ 0 = omega arith in rw (ea, eb)
bit_or_comm (suc k) a b h g = omega (
  arith,
  pow-suc 2 k,
  bit_or_step a b,
  bit_or_step b a,
  bit_or_comm k (a / 2) (b / 2) (omega (arith, pow-suc 2 k)) (omega (arith, pow-suc 2 k)),
)
