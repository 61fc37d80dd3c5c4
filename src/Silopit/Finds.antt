-- ===== src/Silopit/Finds.antt =====
-- What `_read_offset` of storage/src/silopit.c finds in a file that `_write_mmap` has made.
use Prim.Native.Nat.{Ordering}
use silokatana.Base.{
  drop-drop, ℕ, zero, suc, ◌+◌, ◌*◌, ◌^◌, ◌<◌, ◌≡◌, refl, sym, ap, ◌∙◌, List, [], ◌∷◌, Option, none,
  some, true, false, Bool-cases, length, take, drop, get_elem?, get_elem?-lt, arith, All, inl, inr,
}
use silokatana.Base.CStr.{c_str, strcmp, str_eq, str_eq_iff, strcmp_eq}
use silokatana.Buffer.{long_bytes, u64_from_big, u64_from_big-long_bytes}
use silokatana.Log.{recalled}
use silokatana.Jikukan.{SkipNode, Opt, cmp_lt, str_eq-not-cmp_lt, str_eq_sym, str_eq_trans}
use silokatana.Silopit.Files.{block_key, block_offset, read_offset}
use silokatana.Silopit.Reads.{IsSorted, read_offset-Offers}
use silokatana.Silopit.Walk.{Rising, find_key}
use silokatana.Silopit.Blocks.{
  adds, blocks, Even, Even-adds, length-blocks, drop-blocks, c_str-block, take-block, adds-Rising,
  Rising-lt, All-get_elem?,
}
use silokatana.Silopit.Writes.{file_of}
use mathlib.Core.List.{append-nil}

-- The offset of a node that a search has found, or 0.
abbrev pub offset_of : Option SkipNode → ℕ
offset_of none = 0
offset_of (some n) = recalled n.val

-- What the files say for a node of the list: 0 for a deletion.
abbrev pub node_offset : Option SkipNode → ℕ
node_offset none = 0
node_offset (some n) = elim n.opt [ Opt.add ↦ recalled n.val | Opt.del ↦ 0 ]

-- The offset fits its 8 bytes.
abbrev pub FitsOffset : SkipNode → Type 0
FitsOffset n = n.val < 2 ^ 64

cmp_lt-strcmp : (a b : List ℕ) → cmp_lt a b ≡ true → strcmp a b ≡ Ordering.lt
unfolding cmp_lt
cmp_lt-strcmp a b h = ground arith

strcmp-c_str : (a b c d : List ℕ) → c_str a ≡ c_str c → c_str b ≡ c_str d → strcmp a b ≡ strcmp c d
unfolding strcmp
strcmp-c_str a b c d e f = rw (strcmp, e, f)

str_eq-strcmp : (a b : List ℕ) → str_eq a b ≡ true → strcmp a b ≡ Ordering.eq
unfolding str_eq
str_eq-strcmp a b h = ground arith

pub other_key : (a b k : List ℕ) → cmp_lt a b ≡ true → str_eq b k ≡ true → str_eq a k ≡ false
other_key a b k lt e = elim (Bool-cases (str_eq a k)) [
  | inl same ↦ absurd (cc (str_eq-not-cmp_lt a b (str_eq_trans a k b same (str_eq_sym b k e)), lt))
  | inr other ↦ other
]

find_key-at :
    (xs : List SkipNode) (i : ℕ) (n : SkipNode) (k : List ℕ)
    → Rising xs
    → get_elem? xs i ≡ some n
    → str_eq n.key k ≡ true
    → find_key xs k ≡ some n
find_key-at [] i n k h e same = absurd (ground (arith, e))
find_key-at (x ∷ xs) zero n k h e same =
    let q : x ≡ n = ground (arith, e) in
    let here : str_eq x.key k ≡ true = ap (λ y. str_eq y.key k) q ∙ same in rw here (ap some q)
find_key-at (x ∷ xs) (suc i) n k (a, h) e same =
    let other =
      other_key x.key n.key k (All-get_elem? (λ m. cmp_lt x.key m.key ≡ true) xs i n a e) same in
    rw other (find_key-at xs i n k h e same)

pub find_key-none :
    (xs : List SkipNode) (k : List ℕ) → All (λ n. str_eq n.key k ≡ false) xs → find_key xs k ≡ none
find_key-none [] k h = refl
find_key-none (x ∷ xs) k (e, h) = rw e (find_key-none xs k h)

pub All-at :
    (P : SkipNode → Type 0) (xs : List SkipNode)
    → ((i : ℕ) (n : SkipNode) → i < length xs → get_elem? xs i ≡ some n → P n)
    → All P xs
All-at P [] h = tt
All-at P (x ∷ xs) h =
    (h zero x (omega arith) refl, All-at P xs (λ i n lt e. h (suc i) n (omega arith) e))

module _ (len : ℕ) (key : List ℕ) (xs : List SkipNode) (rising : Rising xs)
    (even : Even len xs) where
  pub block_key-file_of :
      (i : ℕ) (n : SkipNode)
      → get_elem? (adds xs) i ≡ some n
      → c_str (block_key (file_of len key xs) i) ≡ c_str n.key
  unfolding block_key
  block_key-file_of i n e =
      let w : i * (len + 1 + 8) ≡ i * (len + 9) = ap (λ v. i * v) (omega arith) in
      ap (λ m. c_str (drop m (blocks (adds xs)))) w
      ∙ ap c_str (drop-blocks len (adds xs) i n (Even-adds len xs even) e)
      ∙ c_str-block n (blocks (drop (suc i) (adds xs)))

  pub block_offset-file_of :
      (i : ℕ) (n : SkipNode)
      → get_elem? (adds xs) i ≡ some n
      → block_offset (file_of len key xs) i ≡ long_bytes n.val
  unfolding block_offset
  block_offset-file_of i n e =
      let bytes = blocks (adds xs) in
      let w : i * (len + 1 + 8) ≡ i * (len + 9) = ap (λ v. i * v) (omega arith) in
      let of = Even-adds len xs even in
      ap (λ m. take 8 (drop (m + (len + 1)) bytes)) w
      ∙ ap (take 8) (drop-drop (i * (len + 9)) (len + 1) bytes)
      ∙ ap (λ b. take 8 (drop (len + 1) b)) (drop-blocks len (adds xs) i n of e)
      ∙ take-block n len (blocks (drop (suc i) (adds xs)))
          (All-get_elem? (λ m. length (c_str m.key) ≡ len) (adds xs) i n of e)

  pub file_of-IsSorted : IsSorted (file_of len key xs)
  file_of-IsSorted = record {
    whole =
        let w : length (adds xs) * (len + 1 + 8) ≡ length (adds xs) * (len + 9) =
          ap (λ v. length (adds xs) * v) (omega arith) in
        omega (arith, w, length-blocks len (adds xs) (Even-adds len xs even));
    rising = λ i j lt there.
        let (n, at_i) = get_elem?-lt (adds xs) i (omega arith) in
        let (m, at_j) = get_elem?-lt (adds xs) j there in
        strcmp-c_str (block_key (file_of len key xs) i) (block_key (file_of len key xs) j) n.key
          m.key (block_key-file_of i n at_i) (block_key-file_of j m at_j)
        ∙ cmp_lt-strcmp n.key m.key
            (Rising-lt (adds xs) i j n m (adds-Rising xs rising) lt at_i at_j);
  }

  -- The search of the file's blocks finds what a search of the nodes finds.
  pub read_offset-file_of :
      All FitsOffset (adds xs)
      → (k : List ℕ)
      → read_offset (some (file_of len key xs)) k ≡ some (offset_of (find_key (adds xs) k))
  read_offset-file_of fits k =
      let file = file_of len key xs in
      let (off, run, offers) = read_offset-Offers file k file_of-IsSorted in
      elim offers [
        | inl (i, lt, same, is) ↦
            let (n, at_i) = get_elem?-lt (adds xs) i lt in
            let eq : c_str k ≡ c_str n.key =
              strcmp_eq k (block_key file i) same ∙ block_key-file_of i n at_i in
            let found =
              find_key-at (adds xs) i n k (adds-Rising xs rising) at_i
                ((str_eq_iff n.key k).1 (sym eq)) in
            let val : off ≡ recalled n.val =
              is
              ∙ ap u64_from_big (block_offset-file_of i n at_i)
              ∙ ap u64_from_big (sym (append-nil (long_bytes n.val)))
              ∙ u64_from_big-long_bytes n.val []
                  (All-get_elem? FitsOffset (adds xs) i n fits at_i) in
            run ∙ ap some (val ∙ ap offset_of (sym found))
        | inr (zero_, others) ↦
            let none_there = find_key-none (adds xs) k (
              All-at (λ n. str_eq n.key k ≡ false) (adds xs)
                (λ i n lt at_i. elim (Bool-cases (str_eq n.key k)) [
                  | inl e ↦ absurd (
                      others i lt (
                        str_eq-strcmp k (block_key file i) (
                          (str_eq_iff k (block_key file i)).1
                            (sym (block_key-file_of i n at_i ∙ (str_eq_iff n.key k).0 e)))))
                  | inr e ↦ e
                ])) in
            run ∙ ap some (zero_ ∙ ap offset_of (sym none_there))
      ]
