-- ===== src/Response/Numerals.antt =====
-- The numerals of the answers are those that the request parser reads.
use silokatana.Base.{
  ℕ, zero, suc, ◌+◌, ◌*◌, ◌/◌, ◌%◌, ◌≤◌, ◌<◌, ◌≡◌, refl, ◌∙◌, true, List, [], ◌∷◌, ◌++◌, ltb, leb,
  arith, Bool-cases, inl, inr, ◌-◌,
}
use silokatana.Request.{All, IsDigit, Spells, table, atoi, atoi_from, int_max}
use silokatana.Response.Defs.{decimal, decimal_from}

table_digit : (d : ℕ) → d < 10 → table (48 + d) ≡ 2
unfolding table
table_digit d h = ground arith

All-snoc : (xs : List ℕ) (d : ℕ) → All IsDigit xs → d < 10 → All IsDigit (xs ++ (48 + d) ∷ [])
All-snoc [] d a h = (table_digit d h, tt)
All-snoc (x ∷ xs) d (p, a) h = (p, All-snoc xs d a h)

decimal_from-All : (fuel n : ℕ) → All IsDigit (decimal_from fuel n)
unfolding decimal_from
decimal_from-All zero n = (table_digit (n % 10) (omega arith), tt)
decimal_from-All (suc fuel) n = elim (Bool-cases (ltb n 10)) [
  | inl e ↦ rw (decimal_from, e) (table_digit n (ground arith), tt)
  | inr e ↦
      rw (decimal_from, e)
        (All-snoc (decimal_from fuel (n / 10)) (n % 10) (decimal_from-All fuel (n / 10))
          (omega arith))
]

atoi_from-snoc :
    (acc : ℕ) (xs : List ℕ) (d : ℕ)
    → atoi_from acc (xs ++ (48 + d) ∷ []) ≡ atoi_from acc xs * 10 + d
unfolding atoi_from
atoi_from-snoc acc [] d = omega arith
atoi_from-snoc acc (x ∷ xs) d = atoi_from-snoc (acc * 10 + (x - 48)) xs d

atoi_from-decimal_from : (fuel n : ℕ) → n ≤ fuel → atoi_from 0 (decimal_from fuel n) ≡ n
unfolding decimal_from atoi_from
atoi_from-decimal_from zero n h = omega arith
atoi_from-decimal_from (suc fuel) n h = elim (Bool-cases (ltb n 10)) [
  | inl e ↦ rw (decimal_from, e) (omega arith)
  | inr e ↦
      rw (decimal_from, e)
        (atoi_from-snoc 0 (decimal_from fuel (n / 10)) (n % 10)
          ∙ (omega (arith, atoi_from-decimal_from fuel (n / 10) (omega arith))))
]

-- The digits of `%d` are read back by `atoi`, for every `int` that is not negative.
pub decimal-Spells : (n : ℕ) → n ≤ int_max → Spells (decimal n) n
unfolding decimal atoi
decimal-Spells n h =
    let v = atoi_from-decimal_from n n (omega arith) in
    let e : leb n int_max ≡ true = ground arith in
    record { digits = decimal_from-All n n; value = rw (v, e) refl }
