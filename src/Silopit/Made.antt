-- ===== src/Silopit/Made.antt =====
-- The whole of a file that `_write_mmap` makes, and what `_read_offset` finds in it.
use silokatana.Base.{
  ℕ, zero, suc, ◌+◌, ◌-◌, ◌*◌, ◌^◌, ◌≤◌, ◌<◌, ◌≡◌, refl, ap, List, [], ◌∷◌, ◌++◌, none, some, true,
  false, leb, ◌==◌, Bool-cases, length, replicate, arith, All, inl, inr,
}
use silokatana.Base.CStr.{c_str}
use silokatana.Buffer.{Buffer, Holds, detach, detach-Holds}
use silokatana.Jikukan.{SkipNode, max_key_size, cmp_lt, cmp_lt_irrefl, cmp_lt_trans}
use silokatana.Silopit.Files.{prepare_stats, copy_cells, key_block, make_file}
use silokatana.Silopit.Walk.{Rising}
use silokatana.Silopit.Blocks.{adds, blocks, Even, Even-adds, length-blocks}
use silokatana.Silopit.Writes.{
  last_of, put_nodes-Holds, count_nodes-Even, copy_cells-written, file_of,
}

-- The 32 bytes of a key.
abbrev pub whole_key : List ℕ → List ℕ
whole_key key = c_str key ++ replicate (max_key_size - length (c_str key)) 0

abbrev pub FitsKey : SkipNode → Type 0
FitsKey n = length (c_str n.key) ≤ max_key_size

le_mul : (w k : ℕ) → 0 < k → w ≤ w * k
le_mul w zero h = absurd (omega arith)
le_mul w (suc k) h = omega arith

-- The last of some nodes has what all have, and none has a greater key.
pub last_of-Rising :
    (P : SkipNode → Type 0) (n : SkipNode) (ns : List SkipNode)
    → Rising (n ∷ ns)
    → All P (n ∷ ns)
    → (last : SkipNode) × (last_of ns (some n) ≡ some last)
      × P last
      × All (λ m. cmp_lt last.key m.key ≡ false) (n ∷ ns)
last_of-Rising P n [] h (p, _) = (n, refl, p, (cmp_lt_irrefl n.key, tt))
last_of-Rising P n (m ∷ ns) ((e, _), h) (p, q) =
    let (last, run, pl, (top, tops)) = last_of-Rising P m ns h q in
    (
      last,
      run,
      pl,
      (
        elim (Bool-cases (cmp_lt last.key n.key)) [
          | inl lt ↦ absurd (cc (cmp_lt_trans last.key n.key m.key lt e, top))
          | inr ge ↦ ge
        ],
        (top, tops),
      ),
    )

module _ (stale : ℕ) (buf : Buffer) (n : SkipNode) (ns ys : List SkipNode) (len : ℕ) where
  -- Where the keys rise, fit their array and have one length, and some node is no deletion, a file is
  -- made of all nodes but the deletions, and the nodes behind them are left.
  pub make_file-Even :
      Holds buf []
      → Rising (n ∷ ns)
      → All FitsKey (n ∷ ns)
      → Even len (n ∷ ns)
      → 0 < length (adds (n ∷ ns))
      → length (blocks (adds (n ∷ ns))) + 64 ≤ 2 ^ 30
      → (last : SkipNode) × (buf' : Buffer) × (make_file stale buf
            ((n ∷ ns) ++ ys)
            (length (n ∷ ns))
          ≡ some (file_of len (whole_key last.key) (n ∷ ns), last, buf', ys))
        × Holds buf' []
        × FitsKey last
        × All (λ m. cmp_lt last.key m.key ≡ false) (n ∷ ns)
  unfolding make_file prepare_stats key_block
  make_file-Even h rising fits even some_ small =
      let xs = n ∷ ns in
      let (last, is_last, fit, top) = last_of-Rising FitsKey n ns rising fits in
      let (m, counted, _, tops) = count_nodes-Even len xs ys 0 0 even (omega arith) in
      let longest : m ≡ len = tops (inr some_) in
      let (b, put, held) = put_nodes-Holds xs ys buf [] 0 none h (omega (arith, small)) in
      let (rest, cells, empty) = detach-Holds b (blocks (adds xs)) held in
      let size : (m + 1 + 8) * (0 + length (adds xs)) ≡ (len + 1 + 8) * length (adds xs) =
        rw longest (ap (λ k. (len + 1 + 8) * k) (omega arith)) in
      let bytes : (len + 1 + 8) * length (adds xs) ≡ length (blocks (adds xs)) =
        omega (arith, length-blocks len (adds xs) (Even-adds len xs even)) in
      let pos : ((len + 1 + 8) * length (adds xs) == 0) ≡ false =
        ground (arith, le_mul (len + 1 + 8) (length (adds xs)) some_) in
      let copied : copy_cells stale ((len + 1 + 8) * length (adds xs)) (detach b).0
          ≡ some (blocks (adds xs)) =
        rw (bytes, cells) (copy_cells-written stale (blocks (adds xs)) rest) in
      let short : leb (length (c_str last.key)) max_key_size ≡ true = ground (arith, fit) in
      let number : 0 + length (adds xs) ≡ length (adds xs) = omega arith in
      (
        last,
        (detach b).1,
        rw (counted, size, pos, put, is_last, copied, key_block, short, longest, number) refl,
        empty,
        fit,
        top,
      )
