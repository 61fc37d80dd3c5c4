-- ===== src/Base/Lists.antt =====
-- Lists measured and indexed by native numbers, under the library's names.
use Prim.Native.Nat.{ℕ, zero, suc, ◌+◌, ◌-◌, ◌<◌, ◌≤◌, min, compare, Ordering}
use mathlib.Core.Path.{◌≡◌, refl, ap, ◌∙◌}
use mathlib.Core.Option.{Option, none, some}
use mathlib.Core.List.{List, [], ◌∷◌, ◌++◌}
use native.Mathlib.Omega.{arith}

module _ {ℓ} {A : Type ℓ} where
  abbrev pub length : List A → ℕ
  length [] = 0
  length (x ∷ xs) = suc (length xs)

  abbrev pub get_elem? : List A → ℕ → Option A
  get_elem? [] i = none
  get_elem? (x ∷ xs) zero = some x
  get_elem? (x ∷ xs) (suc i) = get_elem? xs i

  abbrev pub get_or : List A → ℕ → A → A
  get_or [] i d = d
  get_or (x ∷ xs) zero d = x
  get_or (x ∷ xs) (suc i) d = get_or xs i d

  abbrev pub take : ℕ → List A → List A
  take zero xs = []
  take (suc n) [] = []
  take (suc n) (x ∷ xs) = x ∷ take n xs

  abbrev pub drop : ℕ → List A → List A
  drop zero xs = xs
  drop (suc n) [] = []
  drop (suc n) (x ∷ xs) = drop n xs

  abbrev pub replicate : ℕ → A → List A
  replicate zero a = []
  replicate (suc n) a = a ∷ replicate n a

  pub length-append : (xs ys : List A) → length (xs ++ ys) ≡ length xs + length ys
  length-append [] ys = omega arith
  length-append (x ∷ xs) ys = omega (arith, length-append xs ys)

  pub length-take : (n : ℕ) (xs : List A) → length (take n xs) ≡ min n (length xs)
  length-take zero xs = omega arith
  length-take (suc n) [] = omega arith
  length-take (suc n) (x ∷ xs) = omega (arith, length-take n xs)

  pub length-drop : (n : ℕ) (xs : List A) → length (drop n xs) ≡ length xs - n
  length-drop zero xs = omega arith
  length-drop (suc n) [] = omega arith
  length-drop (suc n) (x ∷ xs) = omega (arith, length-drop n xs)

  pub length-replicate : (n : ℕ) (a : A) → length (replicate n a) ≡ n
  length-replicate zero a = refl
  length-replicate (suc n) a = ap suc (length-replicate n a)

module _ {ℓ} {A : Type ℓ} where
  pub take-length_append : (xs ys : List A) → take (length xs) (xs ++ ys) ≡ xs
  take-length_append [] ys = refl
  take-length_append (x ∷ xs) ys = ap (λ t. x ∷ t) (take-length_append xs ys)

  pub drop-length_append : (xs ys : List A) → drop (length xs) (xs ++ ys) ≡ ys
  drop-length_append [] ys = refl
  drop-length_append (x ∷ xs) ys = drop-length_append xs ys

  pub get_elem?-lt : (xs : List A) (i : ℕ) → i < length xs → (a : A) × (get_elem? xs i ≡ some a)
  get_elem?-lt [] i h = absurd (omega arith)
  get_elem?-lt (x ∷ xs) zero h = (x, refl)
  get_elem?-lt (x ∷ xs) (suc i) h = get_elem?-lt xs i (omega arith)

  pub get_elem?-eq-get_or :
      (xs : List A) (i : ℕ) (d : A) → i < length xs → get_elem? xs i ≡ some (get_or xs i d)
  get_elem?-eq-get_or [] i d h = absurd (omega arith)
  get_elem?-eq-get_or (x ∷ xs) zero d h = refl
  get_elem?-eq-get_or (x ∷ xs) (suc i) d h = get_elem?-eq-get_or xs i d (omega arith)

  pub get_or-take-drop :
      (xs : List A) (x : A) (i j : ℕ) (d : A)
      → i ≤ length xs
      → get_or (take i xs ++ (x ∷ drop i xs)) j d ≡ elim (compare j i) [
        | Ordering.lt ↦ get_or xs j d
        | Ordering.eq ↦ x
        | Ordering.gt ↦ get_or xs (j - 1) d
      ]
  get_or-take-drop xs x zero zero d h = refl
  get_or-take-drop xs x zero (suc j) d h = let e : suc j - 1 ≡ j = omega arith in ground (arith, e)
  get_or-take-drop [] x (suc i) j d h = absurd (omega arith)
  get_or-take-drop (y ∷ xs) x (suc i) zero d h = ground arith
  get_or-take-drop (y ∷ xs) x (suc i) (suc zero) d h = ground (arith, get_or-take-drop xs x i 0 d)
  get_or-take-drop (y ∷ xs) x (suc i) (suc (suc j)) d h =
      ground (arith, get_or-take-drop xs x i (suc j) d)

module _ {ℓ} {A : Type ℓ} where
  pub drop-drop : (a b : ℕ) (xs : List A) → drop (a + b) xs ≡ drop b (drop a xs)
  drop-drop zero b xs = let e : 0 + b ≡ b = omega arith in ap (λ n. drop n xs) e
  drop-drop (suc a) zero [] = let e : suc a + 0 ≡ suc a = omega arith in ap (λ n. drop n []) e
  drop-drop (suc a) (suc b) [] =
      let e : suc a + suc b ≡ suc (a + suc b) = omega arith in ap (λ n. drop n []) e
  drop-drop (suc a) b (x ∷ xs) =
      let e : suc a + b ≡ suc (a + b) = omega arith in
      ap (λ n. drop n (x ∷ xs)) e ∙ drop-drop a b xs

module _ {ℓ κ} {A : Type ℓ} where
  abbrev pub All : (A → Type κ) → List A → Type κ
  All P [] = Unit {κ}
  All P (x ∷ xs) = P x × All P xs

module _ {ℓ κ κ'} {A : Type ℓ} {P : A → Type κ} {Q : A → Type κ'} where
  pub All-map : ((x : A) → P x → Q x) → (xs : List A) → All P xs → All Q xs
  All-map f [] h = tt
  All-map f (x ∷ xs) (p, h) = (f x p, All-map f xs h)
