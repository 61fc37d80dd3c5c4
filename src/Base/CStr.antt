-- ===== src/Base/CStr.antt =====
-- C strings: a block of bytes is a list, and its string ends at the first NUL or at the list's end.
-- `strcmp` is the library function that the sources order their keys by.
use Prim.Native.Nat.{ℕ, compare, Ordering, ◌≤◌}
use mathlib.Core.Path.{◌≡◌, refl, ap}
use mathlib.Core.Bool.{Bool, true, false}
use mathlib.Core.Logic.{◌↔◌, inl, inr}
use mathlib.Core.List.{List, [], ◌∷◌, ◌++◌}
use native.Mathlib.Omega.{arith}
use silokatana.Base.Lists.{length, take}
use silokatana.Base.Tests.{◌==◌, if◌then◌else◌, Bool-cases}

-- The bytes of a block before its first NUL, as `strlen` and `strcmp` read it.
unfoldable pub c_str : List ℕ → List ℕ
c_str [] = []
c_str (b ∷ bs) = let rest = c_str bs in if b == 0 then [] else b ∷ rest

pub length-c_str : (s : List ℕ) → length (c_str s) ≤ length s
unfolding c_str
length-c_str [] = omega arith
length-c_str (b ∷ bs) = ground (arith, length-c_str bs)

pub length-c_str_nul : (s t : List ℕ) → length (c_str (s ++ 0 ∷ t)) ≤ length s
unfolding c_str
length-c_str_nul [] t = omega arith
length-c_str_nul (b ∷ s) t = ground (arith, length-c_str_nul s t)

-- The order of two strings as `strcmp` computes it.
unfoldable pub lex : List ℕ → List ℕ → Ordering
lex [] [] = Ordering.eq
lex [] (b ∷ t) = Ordering.lt
lex (a ∷ s) [] = Ordering.gt
lex (a ∷ s) (b ∷ t) =
    let rest = lex s t in
    elim (compare a b) [
      | Ordering.lt ↦ Ordering.lt
      | Ordering.gt ↦ Ordering.gt
      | Ordering.eq ↦ rest
    ]

-- The sign of `strcmp(s, t)`.
unfoldable pub strcmp : List ℕ → List ℕ → Ordering
strcmp s t = lex (c_str s) (c_str t)

pub lex_refl : (s : List ℕ) → lex s s ≡ Ordering.eq
unfolding lex
lex_refl [] = refl
lex_refl (a ∷ s) = ground (arith, lex_refl s)

pub lex-eq : (s t : List ℕ) → lex s t ≡ Ordering.eq → s ≡ t
unfolding lex
lex-eq [] [] h = refl
lex-eq [] (b ∷ t) h = cc
lex-eq (a ∷ s) [] h = cc
lex-eq (a ∷ s) (b ∷ t) h = ground (arith, lex-eq s t)

pub lex-swap_lt : (s t : List ℕ) → lex s t ≡ Ordering.lt → lex t s ≡ Ordering.gt
unfolding lex
lex-swap_lt [] [] h = cc
lex-swap_lt [] (b ∷ t) h = refl
lex-swap_lt (a ∷ s) [] h = cc
lex-swap_lt (a ∷ s) (b ∷ t) h = ground (arith, lex-swap_lt s t)

pub lex-swap_gt : (s t : List ℕ) → lex s t ≡ Ordering.gt → lex t s ≡ Ordering.lt
unfolding lex
lex-swap_gt [] [] h = cc
lex-swap_gt [] (b ∷ t) h = cc
lex-swap_gt (a ∷ s) [] h = refl
lex-swap_gt (a ∷ s) (b ∷ t) h = ground (arith, lex-swap_gt s t)

pub lex_trans :
    (s t u : List ℕ) → lex s t ≡ Ordering.lt → lex t u ≡ Ordering.lt → lex s u ≡ Ordering.lt
unfolding lex
lex_trans [] [] u h k = cc
lex_trans [] (b ∷ t) [] h k = cc
lex_trans [] (b ∷ t) (c ∷ u) h k = refl
lex_trans (a ∷ s) [] u h k = cc
lex_trans (a ∷ s) (b ∷ t) [] h k = cc
lex_trans (a ∷ s) (b ∷ t) (c ∷ u) h k = ground (arith, lex_trans s t u)

pub strcmp_refl : (s : List ℕ) → strcmp s s ≡ Ordering.eq
unfolding strcmp
strcmp_refl s = lex_refl (c_str s)

pub strcmp_eq : (s t : List ℕ) → strcmp s t ≡ Ordering.eq → c_str s ≡ c_str t
unfolding strcmp
strcmp_eq s t h = lex-eq (c_str s) (c_str t) h

pub strcmp-swap_lt : (s t : List ℕ) → strcmp s t ≡ Ordering.lt → strcmp t s ≡ Ordering.gt
unfolding strcmp
strcmp-swap_lt s t h = lex-swap_lt (c_str s) (c_str t) h

pub strcmp-swap_gt : (s t : List ℕ) → strcmp s t ≡ Ordering.gt → strcmp t s ≡ Ordering.lt
unfolding strcmp
strcmp-swap_gt s t h = lex-swap_gt (c_str s) (c_str t) h

pub strcmp_trans :
    (s t u : List ℕ)
    → strcmp s t ≡ Ordering.lt
    → strcmp t u ≡ Ordering.lt
    → strcmp s u ≡ Ordering.lt
unfolding strcmp
strcmp_trans s t u h k = lex_trans (c_str s) (c_str t) (c_str u) h k

-- Whether `strcmp(s, t) == 0`, as a test.
unfoldable pub str_eq : List ℕ → List ℕ → Bool
str_eq s t = elim (strcmp s t) [ Ordering.eq ↦ true | _ ↦ false ]

pub str_eq_iff : (s t : List ℕ) → (str_eq s t ≡ true) ↔ (c_str s ≡ c_str t)
unfolding str_eq strcmp
str_eq_iff s t = (
  λ h. ground (arith, lex-eq (c_str s) (c_str t)),
  λ e. ground (arith, lex_refl (c_str t), ap (λ x. lex x (c_str t)) e),
)

-- What stands behind a block is not part of its string if it starts with a NUL.
pub str_eq_refl : (s : List ℕ) → str_eq s s ≡ true
str_eq_refl s = (str_eq_iff s s).1 refl

pub c_str-append : (s t : List ℕ) → c_str t ≡ [] → c_str (s ++ t) ≡ c_str s
unfolding c_str
c_str-append [] t h = h
c_str-append (b ∷ s) t h = rw (c_str-append s t h)

pub str_eq-c_str : (s t u : List ℕ) → c_str t ≡ c_str u → str_eq s t ≡ str_eq s u
str_eq-c_str s t u e = ground (arith, str_eq_iff s t, str_eq_iff s u)

-- Equal strings compare alike with any other.
pub strcmp_congr : (s t u : List ℕ) → strcmp s t ≡ Ordering.eq → strcmp s u ≡ strcmp t u
unfolding strcmp
strcmp_congr s t u h = ap (λ x. lex x (c_str u)) (lex-eq (c_str s) (c_str t) h)

pub take-c_str : (s : List ℕ) → take (length (c_str s)) s ≡ c_str s
unfolding c_str
take-c_str [] = refl
take-c_str (b ∷ s) = elim (Bool-cases (b == 0)) [
  | inl e ↦ rw e refl
  | inr e ↦ rw e (ap (λ t. b ∷ t) (take-c_str s))
]

-- A string that a NUL ends, whatever stands behind it.
pub c_str-nul : (s t : List ℕ) → c_str (c_str s ++ 0 ∷ t) ≡ c_str s
unfolding c_str
c_str-nul [] t = refl
c_str-nul (b ∷ s) t = elim (Bool-cases (b == 0)) [
  | inl e ↦ rw e refl
  | inr e ↦ rw (e, e) (ap (λ r. b ∷ r) (c_str-nul s t))
]
