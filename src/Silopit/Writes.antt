-- ===== src/Silopit/Writes.antt =====
-- What `_write_mmap` of storage/src/silopit.c puts into a file: the blocks of the nodes that are no
-- deletions, and their number.
use silokatana.Base.{
  ℕ, suc, ◌+◌, ◌*◌, ◌^◌, ◌≤◌, ◌<◌, ◌≡◌, refl, sym, ap, ◌∙◌, List, [], ◌∷◌, ◌++◌, Option, some, ltb,
  if◌then◌else◌, length, length-append, arith, inl, inr, subst, ◌⊎◌,
}
use silokatana.Base.CStr.{c_str, take-c_str}
use silokatana.Buffer.{
  Buffer, Cells, Holds, putstr, putc, putlong, putstr-IsString, putc-IsString, putlong-Holds,
  long_bytes,
}
use silokatana.Log.{length-long_bytes}
use silokatana.Jikukan.{SkipNode, Opt}
use silokatana.Silopit.Files.{SiloFile, f_crc, count_nodes, put_nodes, copy_cells}
use silokatana.Silopit.Blocks.{adds, block, blocks, Even, opt_cases}
use mathlib.Core.List.{map, append_assoc, append-nil}

abbrev pub last_of : List SkipNode → Option SkipNode → Option SkipNode
last_of [] last = last
last_of (n ∷ ns) last = last_of ns (some n)

-- One node that is no deletion.
put_block :
    (buf : Buffer) (s : List ℕ) (n : SkipNode)
    → Holds buf s
    → length s + length (block n) + 64 ≤ 2 ^ 30
    → (b₁ : Buffer) × (b₂ : Buffer) × (b₃ : Buffer) × (putstr buf n.key ≡ some b₁)
      × (putc b₁ 0 ≡ some b₂)
      × (putlong b₂ n.val ≡ some b₃)
      × Holds b₃ (s ++ block n)
put_block buf s n h small =
    let key = c_str n.key in
    let size = length-append key (0 ∷ long_bytes n.val) in
    let (b₁, run₁, i₁) = putstr-IsString buf s h n.key (omega (arith, small, size, h.mark)) in
    let h₁ = subst (λ t. Holds b₁ (s ++ t)) (take-c_str n.key) i₁.holds in
    let (b₂, run₂, i₂) =
      putc-IsString b₁ (s ++ key) h₁ 0
        (omega (arith, small, size, h₁.mark, length-append s key, length-long_bytes n.val)) in
    let (b₃, run₃, h₃) = putlong-Holds b₂ ((s ++ key) ++ 0 ∷ []) i₂.holds n.val (
      omega (
        arith,
        small,
        size,
        i₂.holds.mark,
        length-append s key,
        length-append (s ++ key) (0 ∷ []),
        length-long_bytes n.val,
      )) in
    let parts : ((s ++ key) ++ 0 ∷ []) ++ long_bytes n.val ≡ s ++ block n =
      append_assoc (s ++ key) (0 ∷ []) (long_bytes n.val)
      ∙ append_assoc s key (0 ∷ long_bytes n.val) in
    (b₁, b₂, b₃, run₁, run₂, run₃, subst (λ t. Holds b₃ t) parts h₃)

module _ (n : SkipNode) (k : ℕ) (x : List SkipNode) where
  put_nodes-add :
      (buf : Buffer) (count : ℕ) (last : Option SkipNode) (b₁ b₂ b₃ : Buffer)
      → n.opt ≡ Opt.add
      → putstr buf n.key ≡ some b₁
      → putc b₁ 0 ≡ some b₂
      → putlong b₂ n.val ≡ some b₃
      → put_nodes (suc k) (n ∷ x) buf count last ≡ put_nodes k x b₃ (count + 1) (some n)
  unfolding put_nodes
  put_nodes-add buf count last b₁ b₂ b₃ a r₁ r₂ r₃ = simp (a, r₁, r₂, r₃)

  put_nodes-del :
      (buf : Buffer) (count : ℕ) (last : Option SkipNode)
      → n.opt ≡ Opt.del
      → put_nodes (suc k) (n ∷ x) buf count last ≡ put_nodes k x buf count (some n)
  unfolding put_nodes
  put_nodes-del buf count last d = simp (d)

  count_nodes-add :
      (real longest : ℕ)
      → n.opt ≡ Opt.add
      → count_nodes (suc k) (n ∷ x) real longest
        ≡ count_nodes k x
            (real + 1)
            (if ltb longest (length (c_str n.key)) then length (c_str n.key) else longest)
  unfolding count_nodes
  count_nodes-add real longest a = simp (a)

  count_nodes-del :
      (real longest : ℕ)
      → n.opt ≡ Opt.del
      → count_nodes (suc k) (n ∷ x) real longest ≡ count_nodes k x real longest
  unfolding count_nodes
  count_nodes-del real longest d = simp (d)

adds_add : (n : SkipNode) (ns : List SkipNode) → n.opt ≡ Opt.add → adds (n ∷ ns) ≡ n ∷ adds ns
adds_add n ns a = simp (a)

adds_del : (n : SkipNode) (ns : List SkipNode) → n.opt ≡ Opt.del → adds (n ∷ ns) ≡ adds ns
adds_del n ns d = simp (d)

pub put_nodes-Holds :
    (xs ys : List SkipNode) (buf : Buffer) (s : List ℕ) (count : ℕ) (last : Option SkipNode)
    → Holds buf s
    → length s + length (blocks (adds xs)) + 64 ≤ 2 ^ 30
    → (buf' : Buffer) × (put_nodes (length xs) (xs ++ ys) buf count last
        ≡ some (buf', count + length (adds xs), last_of xs last, ys))
      × Holds buf' (s ++ blocks (adds xs))
unfolding put_nodes
put_nodes-Holds [] ys buf s count last h small = (
  buf,
  ap (λ c. some (buf, c, last, ys)) (omega arith),
  subst (λ t. Holds buf t) (sym (append-nil s)) h,
)
put_nodes-Holds (n ∷ xs) ys buf s count last h small = elim (opt_cases n.opt) [
  | inl a ↦
      let size : length (blocks (adds (n ∷ xs))) ≡ length (block n) + length (blocks (adds xs)) =
        ap (λ l. length (blocks l)) (adds_add n xs a)
        ∙ length-append (block n) (blocks (adds xs)) in
      let (b₁, b₂, b, r₁, r₂, r₃, h₁) = put_block buf s n h (omega (arith, small, size)) in
      let (buf', runs, h₂) =
        put_nodes-Holds xs ys b (s ++ block n) (count + 1) (some n) h₁
          (omega (arith, small, size, length-append s (block n))) in
      let number : count + 1 + length (adds xs) ≡ count + length (adds (n ∷ xs)) =
        omega (arith, ap length (adds_add n xs a)) in
      (
        buf',
        put_nodes-add n (length xs) (xs ++ ys) buf count last b₁ b₂ b a r₁ r₂ r₃
            ∙ runs
            ∙ ap (λ c. some (buf', c, last_of xs (some n), ys)) number,
        subst (λ t. Holds buf' t)
            (append_assoc s (block n) (blocks (adds xs))
              ∙ ap (λ l. s ++ blocks l) (sym (adds_add n xs a)))
            h₂,
      )
  | inr d ↦
      let (buf', runs, h₂) =
        put_nodes-Holds xs ys buf s count (some n) h
          (omega (arith, small, ap (λ l. length (blocks l)) (adds_del n xs d))) in
      (
        buf',
        put_nodes-del n (length xs) (xs ++ ys) buf count last d
            ∙ runs
            ∙ ap (λ l. some (buf', count + length l, last_of xs (some n), ys))
                (sym (adds_del n xs d)),
        subst (λ l. Holds buf' (s ++ blocks l)) (sym (adds_del n xs d)) h₂,
      )
]

-- The lengths that `_prepare_stats` goes by.
pub count_nodes-Even :
    (len : ℕ) (xs ys : List SkipNode) (real longest : ℕ)
    → Even len xs
    → longest ≤ len
    → (m : ℕ) × (count_nodes (length xs) (xs ++ ys) real longest
        ≡ some (real + length (adds xs), m))
      × (m ≤ len)
      × ((longest ≡ len) ⊎ (0 < length (adds xs)) → m ≡ len)
unfolding count_nodes
count_nodes-Even len [] ys real longest h le = (
  longest,
  ap (λ c. some (c, longest)) (omega arith),
  le,
  λ o. elim o [ inl e ↦ e | inr lt ↦ absurd (omega arith) ],
)
count_nodes-Even len (n ∷ xs) ys real longest (e, h) le = elim (opt_cases n.opt) [
  | inl a ↦
      let k : length (c_str n.key) ≡ len = e a in
      let longer : (if ltb longest (length (c_str n.key)) then length (c_str n.key) else longest)
          ≡ len =
        ground (arith, k, le) in
      let (m, run, low, top) = count_nodes-Even len xs ys (real + 1) len h (omega arith) in
      let number : real + 1 + length (adds xs) ≡ real + length (adds (n ∷ xs)) =
        omega (arith, ap length (adds_add n xs a)) in
      (
        m,
        count_nodes-add n (length xs) (xs ++ ys) real longest a
            ∙ ap (λ l. count_nodes (length xs) (xs ++ ys) (real + 1) l) longer
            ∙ run
            ∙ ap (λ c. some (c, m)) number,
        low,
        λ o. top (inl refl),
      )
  | inr d ↦
      let (m, run, low, top) = count_nodes-Even len xs ys real longest h le in
      (
        m,
        count_nodes-del n (length xs) (xs ++ ys) real longest d
            ∙ run
            ∙ ap (λ l. some (real + length l, m)) (sym (adds_del n xs d)),
        low,
        subst (λ l. (longest ≡ len) ⊎ (0 < length l) → m ≡ len) (sym (adds_del n xs d)) top,
      )
]

pub copy_cells-written :
    (stale : ℕ) (s : List ℕ) (rest : Cells)
    → copy_cells stale (length s) (map some s ++ rest) ≡ some s
unfolding copy_cells
copy_cells-written stale [] rest = refl
copy_cells-written stale (b ∷ s) rest = rw (copy_cells-written stale s rest) refl

-- The file of some nodes.
abbrev pub file_of : ℕ → List ℕ → List SkipNode → SiloFile
file_of len key xs = record {
  blks = blocks (adds xs);
  footer = record {
    key = key;
    count = length (adds xs);
    crc = f_crc;
    size = (len + 1 + 8) * length (adds xs);
    max_len = len + 1;
  };
}
