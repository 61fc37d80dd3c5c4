-- ===== src/Jikukan/Keys.antt =====
-- The order of the keys, as the tests of the skip list read it.
use silokatana.Base.{ℕ, ◌≡◌, ◌∙◌, List, true, false, arith}
use silokatana.Base.CStr.{
  c_str, strcmp, strcmp_trans, strcmp-swap_gt, strcmp-swap_lt, strcmp_refl, str_eq, str_eq_iff,
}
use silokatana.Jikukan.Defs.{cmp_lt}

pub cmp_lt-congr_left : (a b c : List ℕ) → c_str a ≡ c_str b → cmp_lt a c ≡ cmp_lt b c
unfolding cmp_lt strcmp
cmp_lt-congr_left a b c e = rw (cmp_lt, strcmp, e)

pub cmp_lt-congr_right : (a b c : List ℕ) → c_str a ≡ c_str b → cmp_lt c a ≡ cmp_lt c b
unfolding cmp_lt strcmp
cmp_lt-congr_right a b c e = rw (cmp_lt, strcmp, e)

pub cmp_lt_irrefl : (a : List ℕ) → cmp_lt a a ≡ false
unfolding cmp_lt
cmp_lt_irrefl a = ground (arith, strcmp_refl a)

pub cmp_lt_trans : (a b c : List ℕ) → cmp_lt a b ≡ true → cmp_lt b c ≡ true → cmp_lt a c ≡ true
unfolding cmp_lt
cmp_lt_trans a b c h k = ground (arith, strcmp_trans a b c)

pub cmp_lt_asym : (a b : List ℕ) → cmp_lt a b ≡ true → cmp_lt b a ≡ false
unfolding cmp_lt
cmp_lt_asym a b h = ground (arith, strcmp-swap_lt a b)

pub cmp_lt_total : (a b : List ℕ) → cmp_lt a b ≡ false → str_eq a b ≡ false → cmp_lt b a ≡ true
unfolding cmp_lt str_eq
cmp_lt_total a b h k = ground (arith, strcmp-swap_gt a b)

-- A key that compares equal is not smaller.
pub str_eq-not-cmp_lt : (a b : List ℕ) → str_eq a b ≡ true → cmp_lt a b ≡ false
str_eq-not-cmp_lt a b h = cmp_lt-congr_left a b b ((str_eq_iff a b).0 h) ∙ cmp_lt_irrefl b
