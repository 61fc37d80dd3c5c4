-- ===== src/Buffer/Power.antt =====
-- `_next_power` of storage/src/buffer.c: the size that a buffer grows to.
use silokatana.Base.{
  ℕ, zero, suc, ◌+◌, ◌-◌, ◌*◌, ◌/◌, ◌%◌, ◌^◌, ◌≤◌, ◌<◌, ◌≡◌, refl, sym, ap, ◌∙◌, arith, leb, ltb,
  Bool-cases, inl, inr,
}
use Prim.Native.Nat.{bit_or}
use mathlib.Core.Path.{ap₂}
use native.Mathlib.Nat.{pow-suc, pow-le-pow_right, mul-le-mul_left, lt-mul-div-succ}
use silokatana.Base.Bits.{bit_or-lt, le-bit_or, bit_or_split, bit_or-zero}
use silokatana.Buffer.Defs.{smear, next_power, word}

smear_bounds : (x k : ℕ) → x < 2 ^ 30 → (x ≤ smear x k) × (smear x k < 2 ^ 30)
unfolding smear
smear_bounds x k h =
    let q : x / 2 ^ k ≤ x = grind arith in
    ((le-bit_or 30 x (x / 2 ^ k) h).0, bit_or-lt 30 x (x / 2 ^ k) h (omega arith))

smear_all : ℕ → ℕ
smear_all x = smear (smear (smear (smear (smear x 1) 2) 4) 8) 16

smear_all_bounds : (x : ℕ) → x < 2 ^ 30 → (x ≤ smear_all x) × (smear_all x < 2 ^ 30)
unfolding smear_all
smear_all_bounds x h =
    let b₁ = smear_bounds x 1 h in
    let b₂ = smear_bounds (smear x 1) 2 b₁.1 in
    let b₃ = smear_bounds (smear (smear x 1) 2) 4 b₂.1 in
    let b₄ = smear_bounds (smear (smear (smear x 1) 2) 4) 8 b₃.1 in
    let b₅ = smear_bounds (smear (smear (smear (smear x 1) 2) 4) 8) 16 b₄.1 in omega arith

next_power-smear_all : (x : ℕ) → 0 < x → x ≤ 2 ^ 30 → next_power x ≡ (smear_all (x - 1) + 1) % word
unfolding next_power smear_all
next_power-smear_all x p h = let e : (x + word - 1) % word ≡ x - 1 = omega arith in rw e

-- For sizes from 1 to 2 ^ 30, `_next_power` is no less than its argument and at most 2 ^ 30.
pub next_power_bounds : (x : ℕ) → 0 < x → x ≤ 2 ^ 30 → (x ≤ next_power x) × (next_power x ≤ 2 ^ 30)
next_power_bounds x p h =
    rw (next_power-smear_all x p h) (omega (arith, smear_all_bounds (x - 1) (omega arith)))

pow-pos : (n : ℕ) → 0 < 2 ^ n
pow-pos zero = omega arith
pow-pos (suc n) = omega (arith, pow-suc 2 n, pow-pos n)

pow-add : (m n : ℕ) → 2 ^ (m + n) ≡ 2 ^ m * 2 ^ n
pow-add zero n = let e : 0 + n ≡ n = omega arith in rw e (omega arith)
pow-add (suc m) n =
    let e : suc m + n ≡ suc (m + n) = omega arith in
    rw (e, pow-suc 2 (m + n), pow-suc 2 m, pow-add m n) (omega arith)

-- The high part of a number divided by `w`.
high_div : (x w m q : ℕ) → 0 < w → w * m ≤ x + m → m ≤ w * q → m ≤ x / w + q
high_div x w m q p h g = elim (Bool-cases (ltb (x / w + q) m)) [
  | inl less ↦
      let some_ : x / w + q + 1 ≤ m = ground (arith, less) in
      absurd (omega (arith, mul-le-mul_left w some_, lt-mul-div-succ x p))
  | inr enough ↦ ground (arith, enough)
]

-- Of `n` digits the first `w` are ones.
abbrev Spread : ℕ → ℕ → ℕ → Type 0
Spread n w x = (x < 2 ^ n) × (2 ^ n ≤ x + 2 ^ (n - w))

-- In a number of more digits than `w`, with the first of them ones, an `or` with its first digits.
or_high :
    (w m x : ℕ)
    → 0 < w
    → x < 2 ^ w * 2 ^ m
    → 2 ^ w * 2 ^ m ≤ x + 2 ^ m
    → 2 ^ w * 2 ^ m ≤ bit_or x (x / 2 ^ w) + 2 ^ (m - w)
or_high w m x p small high =
    let a = 2 ^ w - 1 in
    let r = x - a * 2 ^ m in
    let s = x / 2 ^ w in
    let one : a + 1 ≡ 2 ^ w = omega (arith, pow-pos w) in
    let whole : (a + 1) * 2 ^ m ≡ 2 ^ w * 2 ^ m = rw one refl in
    let top : a * 2 ^ m + r ≡ x = omega (arith, whole, high) in
    let low : r < 2 ^ m = omega (arith, whole, small) in
    let part : s < 2 ^ m = grind (arith, small) in
    let none_ : 0 * 2 ^ m + s ≡ s = omega arith in
    let more : 2 ^ m ≤ 2 ^ (w + (m - w)) = pow-le-pow_right (omega arith) (omega arith) in
    let wide : 2 ^ m ≤ 2 ^ w * 2 ^ (m - w) = omega (arith, pow-add w (m - w), more) in
    let far : 2 ^ m ≤ s + 2 ^ (m - w) =
      high_div x (2 ^ w) (2 ^ m) (2 ^ (m - w)) (pow-pos w) high wide in
    let parts : bit_or x s ≡ a * 2 ^ m + bit_or r s =
      sym (ap₂ bit_or top none_)
      ∙ bit_or_split m a 0 r s low part
      ∙ ap (λ y. y * 2 ^ m + bit_or r s) (bit_or-zero w a (omega (arith, pow-pos w))) in
    omega (arith, parts, far, whole, le-bit_or m r s low)

-- One more shift doubles the ones.
smear-Spread : (n w x : ℕ) → 0 < w → Spread n w x → Spread n (2 * w) (smear x w)
unfolding smear
smear-Spread n w x p (small, high) =
    let less : x / 2 ^ w ≤ x = grind arith in
    (
      bit_or-lt n x (x / 2 ^ w) small (omega arith),
      elim (Bool-cases (leb w n)) [
        | inl inside ↦
            let m = n - w in
            let all : 2 ^ n ≡ 2 ^ w * 2 ^ m =
              ap (λ k. 2 ^ k) (ground (arith, inside)) ∙ pow-add w m in
            let left : n - 2 * w ≡ m - w = omega arith in
            let h = or_high w m x p (omega (arith, all)) (omega (arith, all)) in
            rw left (omega (arith, all, h))
        | inr past ↦
            let gone : n - w ≡ 0 = ground (arith, past) in
            let none_ : 2 ^ (n - w) ≡ 1 = ap (λ k. 2 ^ k) gone in
            omega (arith, le-bit_or n x (x / 2 ^ w) small, pow-pos (n - 2 * w))
      ],
    )

-- The number of digits of a number that is not 0.
digits : (k y : ℕ) → 0 < y → y < 2 ^ k → (n : ℕ) × (n ≤ k) × (y < 2 ^ n) × (2 ^ n ≤ 2 * y)
digits zero y p h = absurd (omega (arith, p, h))
digits (suc k) y p h = elim (Bool-cases (ltb y (2 ^ k))) [
  | inl less ↦
      let (n, few, small, high) = digits k y p (ground (arith, less)) in
      (n, omega arith, small, high)
  | inr enough ↦
      let top : 2 ^ k ≤ y = ground (arith, enough) in
      (suc k, omega arith, h, omega (arith, pow-suc 2 k, top))
]

-- The shifts fill a number of at most 30 digits with ones.
smear_all-ones : (n y : ℕ) → n ≤ 30 → y < 2 ^ n → 2 ^ n ≤ 2 * y → smear_all y + 1 ≡ 2 ^ n
unfolding smear_all
smear_all-ones zero y few small high = absurd (omega arith)
smear_all-ones (suc m) y few small high =
    let less : suc m - 1 ≡ m = omega arith in
    let start : Spread (suc m) 1 y = (small, rw less (omega (arith, pow-suc 2 m))) in
    let s₁ = smear-Spread (suc m) 1 y (omega arith) start in
    let s₂ = smear-Spread (suc m) 2 (smear y 1) (omega arith) s₁ in
    let s₃ = smear-Spread (suc m) 4 (smear (smear y 1) 2) (omega arith) s₂ in
    let s₄ = smear-Spread (suc m) 8 (smear (smear (smear y 1) 2) 4) (omega arith) s₃ in
    let s₅ = smear-Spread (suc m) 16 (smear (smear (smear (smear y 1) 2) 4) 8) (omega arith) s₄ in
    let gone : suc m - 32 ≡ 0 = omega arith in
    let none_ : 2 ^ (suc m - 32) ≡ 1 = ap (λ k. 2 ^ k) gone in omega (arith, s₅, none_)

-- For sizes from 1 to 2 ^ 30, `_next_power` is a power of two, no less than its argument and less than
-- twice its argument, which is the least power of two that holds it.
pub next_power_lem :
    (x : ℕ) → 0 < x → x ≤ 2 ^ 30 → (k : ℕ) × (next_power x ≡ 2 ^ k) × (x ≤ 2 ^ k) × (2 ^ k < 2 * x)
unfolding next_power smear
next_power_lem zero p h = absurd (omega arith)
next_power_lem (suc zero) p h = (0, refl, omega arith, omega arith)
next_power_lem (suc (suc y)) p h =
    let (n, few, small, high) = digits 30 (suc y) (omega arith) (omega arith) in
    let fits : 2 ^ n ≤ 2 ^ 30 = pow-le-pow_right (omega arith) few in
    let before : suc (suc y) - 1 ≡ suc y = omega arith in
    let ones = smear_all-ones n (suc y) few small high in
    (
      n,
      rw (next_power-smear_all (suc (suc y)) p h, before, ones) (omega (arith, fits)),
      omega arith,
      omega arith,
    )
