-- ===== src/Silopit/Recalls.antt =====
-- The list that `_read_mmap` of storage/src/silopit.c makes of a file.
use silokatana.Base.{
  ℕ, suc, ◌+◌, ◌*◌, ◌≤◌, ◌<◌, ◌≡◌, refl, sym, ap, ◌∙◌, Bool, List, [], ◌∷◌, Option, none, some,
  true, leb, length, arith, All, get_elem?, if◌then◌else◌,
}
use silokatana.Base.CStr.{c_str, str_eq-c_str}
use silokatana.Buffer.{u64_from_big, u64_from_big-long_bytes, long_bytes}
use silokatana.Log.{recalled}
use silokatana.Jikukan.{
  SkipNode, Opt, Entry, put, Jikukan, Refines, insert-Refines, new-Refines, max_key_size,
}
use silokatana.Jikukan
use silokatana.Silopit.Files.{SiloFile, insert_blocks, read_mmap, block_key, block_offset}
use silokatana.Silopit.Reads.{block_bound}
use silokatana.Silopit.Walk.{Rising}
use silokatana.Silopit.Blocks.{adds, Even, All-get_elem?}
use silokatana.Silopit.Writes.{file_of}
use silokatana.Silopit.Finds.{FitsOffset, block_key-file_of, block_offset-file_of, file_of-IsSorted}
use silokatana.Silopit.Held.{puts}
use mathlib.Core.List.{append-nil}

-- What a file says of a node.
abbrev pub filed : SkipNode → Entry
filed n = (recalled n.val, Opt.add)

-- Tables that say the same of every key.
pub Refines-same :
    (list : Jikukan) (t u : List ℕ → Option Entry)
    → ((k : List ℕ) → t k ≡ u k)
    → Refines list t
    → Refines list u
Refines-same list t u same r = record {
  valid = r.valid;
  finds = λ k. let (o, run, is) = r.finds k in (o, run, is ∙ same k);
}

put-c_str :
    (t : List ℕ → Option Entry) (a b : List ℕ) (e : Entry)
    → c_str a ≡ c_str b
    → (k : List ℕ) → put t a e k ≡ put t b e k
put-c_str t a b e h k = ap (λ c. if c then some e else t k) (str_eq-c_str k a b h)

module _ (coin : ℕ → Bool) (len : ℕ) (key : List ℕ) (xs : List SkipNode) (rising : Rising xs)
    (even : Even len xs) (offsets : All FitsOffset (adds xs)) (le : len ≤ max_key_size)
    (keys : All (λ n. length (c_str n.key) ≤ max_key_size) (adds xs)) where
  abbrev file : SiloFile
  file = file_of len key xs

  insert_blocks_step :
      (i rounds : ℕ) (n : SkipNode) (list list' : Jikukan)
      → get_elem? (adds xs) i ≡ some n
      → i < length (adds xs)
      → Jikukan.insert coin list (block_key file i) (recalled n.val) Opt.add ≡ some (1, list')
      → insert_blocks coin file (suc rounds) i list ≡ insert_blocks coin file rounds (i + 1) list'
  unfolding insert_blocks
  insert_blocks_step i rounds n list list' at lt run =
      let sorted = file_of-IsSorted len key xs rising even in
      let there : leb ((i + 1) * (len + 1 + 8)) (length (file_of len key xs).blks) ≡ true =
        ground (arith, block_bound i (length (adds xs)) (len + 1 + 8) lt, sorted.whole) in
      let val : u64_from_big (block_offset (file_of len key xs) i) ≡ recalled n.val =
        ap u64_from_big (block_offset-file_of len key xs rising even i n at)
        ∙ ap u64_from_big (sym (append-nil (long_bytes n.val)))
        ∙ u64_from_big-long_bytes n.val [] (All-get_elem? FitsOffset (adds xs) i n offsets at) in
      rw (insert_blocks, there, val, run) refl

  insert_blocks-Refines :
      (ns : List SkipNode) (i : ℕ) (list : Jikukan) (t : List ℕ → Option Entry)
      → ((j : ℕ) (n : SkipNode) → get_elem? ns j ≡ some n → get_elem? (adds xs) (i + j) ≡ some n)
      → i + length ns ≤ length (adds xs)
      → Refines list t
      → list.count + length ns ≤ list.size
      → (list' : Jikukan) × (insert_blocks coin file (length ns) i list ≡ some list')
        × Refines list' (puts filed ns t)
        × (list'.size ≡ list.size)
        × (list'.count ≤ list.count + length ns)
  unfolding insert_blocks
  insert_blocks-Refines [] i list t same low r room = (list, refl, r, refl, omega arith)
  insert_blocks-Refines (n ∷ ns) i list t same low r room =
      let start : i + 0 ≡ i = omega arith in
      let at : get_elem? (adds xs) i ≡ some n =
        ap (get_elem? (adds xs)) (sym start) ∙ same 0 n refl in
      let bytes = block_key-file_of len key xs rising even i n at in
      let fit : length (c_str (block_key (file_of len key xs) i)) ≤ max_key_size = omega (
        arith,
        ap length bytes,
        All-get_elem? (λ m. length (c_str m.key) ≤ max_key_size) (adds xs) i n keys at,
      ) in
      let (one, run, r₁, size, count) =
        insert-Refines coin list t (block_key (file_of len key xs) i) (recalled n.val) Opt.add r
          (omega (arith, room)) fit in
      let r₂ =
        Refines-same one (put t (block_key (file_of len key xs) i) (filed n))
          (put t n.key (filed n))
          (put-c_str t (block_key (file_of len key xs) i) n.key (filed n) bytes) r₁ in
      let (list', runs, r₃, size', count') =
        insert_blocks-Refines ns (i + 1) one (put t n.key (filed n))
          (λ j m e.
            let next : i + suc j ≡ i + 1 + j = omega arith in
            ap (get_elem? (adds xs)) (sym next) ∙ same (suc j) m e)
          (omega (arith, low)) r₂ (omega (arith, room, size, count)) in
      (
        list',
        insert_blocks_step i (length ns) n list one at (omega (arith, low)) run ∙ runs,
        r₃,
        size' ∙ size,
        omega (arith, count, count'),
      )

  -- The list has the additions of the file, and room for `count` more nodes.
  pub read_mmap-Refines :
      (count : ℕ)
      → (list : Jikukan) × (read_mmap coin (some (file_of len key xs)) count ≡ some list)
        × Refines list (puts filed (adds xs) (λ k. none))
        × (list.size ≡ length (adds xs) + count + 1)
        × (list.count ≤ length (adds xs))
  unfolding read_mmap Jikukan.new
  read_mmap-Refines count =
      let c = length (adds xs) in
      let (list, run, r, size, few) =
        insert_blocks-Refines (adds xs) 0 (Jikukan.new (c + count + 1)) (λ k. none)
          (λ j n e. let zero_ : j ≡ 0 + j = omega arith in ap (get_elem? (adds xs)) (sym zero_) ∙ e)
          (omega arith) (new-Refines (c + count + 1)) (omega arith) in
      (list, run, r, size, omega (arith, few))
