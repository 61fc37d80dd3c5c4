-- ===== src/Silopit/Blocks.antt =====
-- The blocks of a file, one behind the other, each with a key, its NUL and an offset.
use silokatana.Base.{
  inl, inr, true, ◌⊎◌, ℕ, zero, suc, ◌+◌, ◌*◌, ◌<◌, ◌≡◌, refl, sym, ap, ◌∙◌, List, [], ◌∷◌, ◌++◌,
  some, length, take, drop, get_elem?, length-append, arith, All, drop-drop, drop-length_append,
  take-length_append, subst,
}
use silokatana.Base.CStr.{c_str, c_str-nul}
use silokatana.Buffer.{long_bytes}
use silokatana.Jikukan.{SkipNode, Opt, cmp_lt}
use silokatana.Log.{length-long_bytes}
use silokatana.Silopit.Walk.{Rising}
use mathlib.Core.List.{append_assoc}

-- The nodes that are no deletions.
abbrev pub adds : List SkipNode → List SkipNode
adds [] = []
adds (n ∷ ns) = elim n.opt [ Opt.add ↦ n ∷ adds ns | Opt.del ↦ adds ns ]

abbrev pub block : SkipNode → List ℕ
block n = c_str n.key ++ 0 ∷ long_bytes n.val

abbrev pub blocks : List SkipNode → List ℕ
blocks [] = []
blocks (n ∷ ns) = block n ++ blocks ns

pub opt_cases : (o : Opt) → (o ≡ Opt.add) ⊎ (o ≡ Opt.del)
opt_cases Opt.add = inl refl
opt_cases Opt.del = inr refl

-- The keys of the nodes that are no deletions have one length.
abbrev pub Even : ℕ → List SkipNode → Type 0
Even len xs = All (λ n. n.opt ≡ Opt.add → length (c_str n.key) ≡ len) xs

abbrev pub OfLength : ℕ → List SkipNode → Type 0
OfLength len xs = All (λ n. length (c_str n.key) ≡ len) xs

pub Even-adds : (len : ℕ) (xs : List SkipNode) → Even len xs → OfLength len (adds xs)
Even-adds len [] h = tt
Even-adds len (n ∷ ns) (e, h) = elim (opt_cases n.opt) [
  | inl a ↦ rw a (e a, Even-adds len ns h)
  | inr d ↦ rw d (Even-adds len ns h)
]

length-block : (n : SkipNode) (len : ℕ) → length (c_str n.key) ≡ len → length (block n) ≡ len + 9
length-block n len e =
    omega (arith, e, length-append (c_str n.key) (0 ∷ long_bytes n.val), length-long_bytes n.val)

pub length-blocks :
    (len : ℕ) (xs : List SkipNode) → OfLength len xs → length (blocks xs) ≡ length xs * (len + 9)
length-blocks len [] h = omega arith
length-blocks len (n ∷ ns) (e, h) =
    length-append (block n) (blocks ns)
    ∙ omega (arith, length-block n len e, length-blocks len ns h)

-- What stands at a block's place.
pub drop-blocks :
    (len : ℕ) (xs : List SkipNode) (i : ℕ) (n : SkipNode)
    → OfLength len xs
    → get_elem? xs i ≡ some n
    → drop (i * (len + 9)) (blocks xs) ≡ block n ++ blocks (drop (suc i) xs)
drop-blocks len [] i n h e = absurd (ground (arith, e))
drop-blocks len (x ∷ xs) zero n (k, h) e =
    let z : zero * (len + 9) ≡ 0 = omega arith in
    let same : x ≡ n = ground (arith, e) in rw z (ap (λ y. block y ++ blocks xs) same)
drop-blocks len (x ∷ xs) (suc i) n (k, h) e =
    let s : suc i * (len + 9) ≡ length (block x) + i * (len + 9) =
      omega (arith, length-block x len k) in
    ap (λ m. drop m (block x ++ blocks xs)) s
    ∙ drop-drop (length (block x)) (i * (len + 9)) (block x ++ blocks xs)
    ∙ ap (drop (i * (len + 9))) (drop-length_append (block x) (blocks xs))
    ∙ drop-blocks len xs i n h e

pub c_str-block : (n : SkipNode) (rest : List ℕ) → c_str (block n ++ rest) ≡ c_str n.key
c_str-block n rest =
    ap c_str (append_assoc (c_str n.key) (0 ∷ long_bytes n.val) rest)
    ∙ c_str-nul n.key (long_bytes n.val ++ rest)

-- The offset stands behind the key and its NUL.
pub take-block :
    (n : SkipNode) (len : ℕ) (rest : List ℕ)
    → length (c_str n.key) ≡ len
    → take 8 (drop (len + 1) (block n ++ rest)) ≡ long_bytes n.val
take-block n len rest e =
    let key = c_str n.key ++ 0 ∷ [] in
    let parts : block n ++ rest ≡ key ++ (long_bytes n.val ++ rest) =
      append_assoc (c_str n.key) (0 ∷ long_bytes n.val) rest
      ∙ sym (append_assoc (c_str n.key) (0 ∷ []) (long_bytes n.val ++ rest)) in
    let size : len + 1 ≡ length key = omega (arith, e, length-append (c_str n.key) (0 ∷ [])) in
    ap (λ m. take 8 (drop m (block n ++ rest))) size
    ∙ ap (λ b. take 8 (drop (length key) b)) parts
    ∙ ap (take 8) (drop-length_append key (long_bytes n.val ++ rest))
    ∙ ap (λ m. take m (long_bytes n.val ++ rest)) (sym (length-long_bytes n.val))
    ∙ take-length_append (long_bytes n.val) rest

-- The keys of a part rise as those of the whole.
pub above-adds :
    (k : List ℕ) (xs : List SkipNode)
    → All (λ m. cmp_lt k m.key ≡ true) xs
    → All (λ m. cmp_lt k m.key ≡ true) (adds xs)
above-adds k [] h = tt
above-adds k (n ∷ ns) (e, h) = elim (opt_cases n.opt) [
  | inl a ↦ rw a (e, above-adds k ns h)
  | inr d ↦ rw d (above-adds k ns h)
]

pub adds-Rising : (xs : List SkipNode) → Rising xs → Rising (adds xs)
adds-Rising [] h = tt
adds-Rising (n ∷ ns) (e, h) = elim (opt_cases n.opt) [
  | inl a ↦ rw a (above-adds n.key ns e, adds-Rising ns h)
  | inr d ↦ rw d (adds-Rising ns h)
]

pub All-get_elem? :
    (P : SkipNode → Type 0) (xs : List SkipNode) (i : ℕ) (n : SkipNode)
    → All P xs
    → get_elem? xs i ≡ some n
    → P n
All-get_elem? P [] i n h e = absurd (ground (arith, e))
All-get_elem? P (x ∷ xs) zero n (p, h) e = subst P (ground (arith, e)) p
All-get_elem? P (x ∷ xs) (suc i) n (p, h) e = All-get_elem? P xs i n h e

pub Rising-lt :
    (xs : List SkipNode) (i j : ℕ) (n m : SkipNode)
    → Rising xs
    → i < j
    → get_elem? xs i ≡ some n
    → get_elem? xs j ≡ some m
    → cmp_lt n.key m.key ≡ true
Rising-lt [] i j n m h lt e f = absurd (ground (arith, e))
Rising-lt (x ∷ xs) zero zero n m h lt e f = absurd (omega arith)
Rising-lt (x ∷ xs) zero (suc j) n m (a, h) lt e f =
    let same : x ≡ n = ground (arith, e) in
    subst (λ y. cmp_lt y.key m.key ≡ true) same
      (All-get_elem? (λ y. cmp_lt x.key y.key ≡ true) xs j m a f)
Rising-lt (x ∷ xs) (suc i) zero n m h lt e f = absurd (omega arith)
Rising-lt (x ∷ xs) (suc i) (suc j) n m (a, h) lt e f = Rising-lt xs i j n m h (omega arith) e f
