-- ===== src/Examples/Table.antt =====
-- A table of index files (storage/src/meta.c).
use Prim.Native.Nat.{Ordering}
use silokatana.Base.{
  ◌∙◌, ℕ, zero, suc, ◌+◌, ◌<◌, ◌≡◌, ◌≢◌, refl, ap, none, some, List, [], ◌∷◌, length, replicate,
  arith, ap,
}
use silokatana.Base.CStr.{strcmp, lex, c_str}
use silokatana.Meta.{MetaNode, Meta, search, get, set, IsSorted, set_full, end_at}

abbrev node : ℕ → MetaNode
node k = record { end = k ∷ []; index_name = 48 ∷ []; count = 1; lsn = 1 }

abbrev pair : Meta
pair = record { nodes = node 5 ∷ node 9 ∷ [] }

get_runs : get pair (7 ∷ []) ≡ some (some 1)
unfolding get search strcmp lex c_str
get_runs = refl

-- A table of 9,999 files: their ends are strings of one repeated letter, each longer than the last.
rows : ℕ → ℕ → List MetaNode
rows zero k = []
rows (suc n) k =
    record { end = replicate k 97; index_name = []; count = 1; lsn = 0 } ∷ rows n (suc k)

length-rows : (n k : ℕ) → length (rows n k) ≡ n
unfolding rows
length-rows zero k = refl
length-rows (suc n) k = ap suc (length-rows n (suc k))

at-rows : (n k i : ℕ) → i < n → end_at (rows n k) i ≡ replicate (k + i) 97
unfolding rows
at-rows zero k i h = absurd (omega arith)
at-rows (suc n) k zero h = let e : k ≡ k + 0 = omega arith in ap (λ j. replicate j 97) e
at-rows (suc n) k (suc i) h =
    let e : suc k + i ≡ k + suc i = omega arith in
    at-rows n (suc k) i (omega arith) ∙ ap (λ j. replicate j 97) e

strcmp-replicate : (i j : ℕ) → i < j → strcmp (replicate i 97) (replicate j 97) ≡ Ordering.lt
unfolding strcmp lex c_str
strcmp-replicate i zero h = absurd (omega arith)
strcmp-replicate zero (suc j) h = refl
strcmp-replicate (suc i) (suc j) h = strcmp-replicate i j (omega arith)

module _ (n : ℕ) where
  rows-IsSorted : IsSorted (rows n 1)
  rows-IsSorted i j h lt =
      let size = length-rows n 1 in
      rw (at-rows n 1 i (omega arith), at-rows n 1 j (omega arith))
        (strcmp-replicate (1 + i) (1 + j) (omega arith))

  rows-fresh : (i : ℕ) → i < length (rows n 1) → strcmp [] (end_at (rows n 1) i) ≢ Ordering.eq
  rows-fresh i lt e =
      let size = length-rows n 1 in
      let first = strcmp-replicate 0 (1 + i) (omega arith) in
      let r = rw (at-rows n 1 i (omega arith)) at e in cc

abbrev unnamed : MetaNode
unnamed = record { end = []; index_name = []; count = 1; lsn = 0 }

set_full_example : set (record { nodes = rows 9999 1 }) unnamed ≡ none
set_full_example =
    set_full (record { nodes = rows 9999 1 }) unnamed (rows-IsSorted 9999)
      (omega (arith, length-rows 9999 1)) (rows-fresh 9999)
