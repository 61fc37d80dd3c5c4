-- ===== src/Silopit/Updates.antt =====
-- What `silopit_getoff` of storage/src/silopit.c finds after a merge into the one file.
use silokatana.Base.{
  ℕ, ◌+◌, ◌*◌, ◌%◌, ◌^◌, ◌≤◌, ◌<◌, ◌≡◌, refl, sym, ap, ◌∙◌, Bool, List, [], ◌∷◌, Option, none, some,
  true, false, ltb, Bool-cases, length, arith, All, All-map, inl, inr, subst, ◌==◌,
}
use silokatana.Base.CStr.{c_str, str_eq, str_eq_iff}
use silokatana.Level.{Slice}
use silokatana.Log.{recalled}
use silokatana.Meta.{size}
use silokatana.Jikukan.{
  SkipNode, Opt, Entry, entry, put, Jikukan, Refines, insert-Refines, insert_node, max_key_size,
  cmp_lt, lookup,
}
use silokatana.Silopit.Files.{first_node}
use silokatana.Silopit.Defs.{Silopit, getoff}
use silokatana.Silopit.Flush.{flush_list, flush_merged, merge, silopit_max_count}
use silokatana.Silopit.Walk.{
  Rising, first_node-Behind, find_key, find_key-cases, All-Memᴰ, lookup-Behind, All-Behind,
}
use silokatana.Silopit.Blocks.{adds, adds-Rising}
use silokatana.Silopit.Finds.{node_offset, offset_of}
use silokatana.Silopit.Fresh.{
  Fits, Fits-Even, Fits-FitsOffset, some-adds, find_key-adds, All-adds, length-adds,
}
use silokatana.Silopit.Merged.{FitsEntry, recalled_entry, node_entry, entry-some, node_offset-entry}
use silokatana.Silopit.Tables.{HasFile}
use silokatana.Silopit.Held.{getoff-HasFile, puts, over, puts-find_key}
use silokatana.Silopit.Recalls.{read_mmap-Refines, filed, Refines-same}
use silokatana.Silopit.Again.{
  said, rewritten, rewritten-HasFile, merge_into-none, flush_step, flush_rest, flush_merged-again,
}

-- The offset of a key after the merge: what the table has for it, or what was found before.
abbrev pub renewed : Option Entry → ℕ → ℕ
renewed none off = recalled off
renewed (some e) off = recalled_entry (some e)

recalled_low : (off : ℕ) → off < 2 ^ 64 → recalled off < 2 ^ 64
recalled_low off h = elim (Bool-cases (ltb (off % 2 ^ 32) (2 ^ 31))) [
  | inl e ↦ rw e h
  | inr e ↦ rw e (omega arith)
]

-- What the additions and the new nodes say together.
abbrev union : List SkipNode → List SkipNode → List ℕ → Option Entry
union xs ns k = over said (find_key ns k) (over filed (find_key (adds xs) k) none)

union-renewed :
    (o a : Option SkipNode)
    → recalled_entry (over said o (over filed a none)) ≡ renewed (entry o) (offset_of a)
union-renewed (some n) a = refl
union-renewed none none = refl
union-renewed none (some n) = refl

module _ (len : ℕ) (k : List ℕ) (e : Entry) where
  same_length : (n : SkipNode) → str_eq n.key k ≡ true → length (c_str k) ≡ length (c_str n.key)
  same_length n h = ap length (sym ((str_eq_iff n.key k).0 h))

  said-FitsEntry :
      (n : SkipNode) → Fits len n → str_eq n.key k ≡ true → said n ≡ e → FitsEntry len k e
  said-FitsEntry n (fit, one) same is =
      let bytes = same_length n same in
      subst (λ x. FitsEntry len k x) is
        (omega (arith, fit, bytes), λ a. ((one a).0, bytes ∙ (one a).1))

  filed-FitsEntry :
      (n : SkipNode)
      → (length (c_str n.key) ≤ max_key_size) × (n.val < 2 ^ 64) × (length (c_str n.key) ≡ len)
      → str_eq n.key k ≡ true
      → filed n ≡ e
      → FitsEntry len k e
  filed-FitsEntry n (fit, low, one) same is =
      let bytes = same_length n same in
      subst (λ x. FitsEntry len k x) is
        (omega (arith, fit, bytes), λ a. (recalled_low n.val low, bytes ∙ one))

  union-FitsEntry :
      (xs ns : List SkipNode)
      → All (Fits len) xs
      → All (Fits len) ns
      → union xs ns k ≡ some e
      → FitsEntry len k e
  union-FitsEntry xs ns old new is = elim (find_key-cases ns k) [
    | inl (n, run, m, same) ↦
        said-FitsEntry n (All-Memᴰ (Fits len) ns n new m) same (ground (arith, is, run))
    | inr (gone, _) ↦ elim (find_key-cases (adds xs) k) [
      | inl (n, run, m, same) ↦
          let Whole = λ (y : SkipNode).
            (length (c_str y.key) ≤ max_key_size)
            × (y.val < 2 ^ 64)
            × (length (c_str y.key) ≡ len) in
          let all : All Whole (adds xs) = All-adds Whole xs (
            All-map {Q = λ y. y.opt ≡ Opt.add → Whole y} (λ y f a. (f.0, (f.1 a).0, (f.1 a).1)) xs
              old) in
          filed-FitsEntry n (All-Memᴰ Whole (adds xs) n all m) same (ground (arith, is, run, gone))
      | inr (lost, _) ↦ absurd (ground (arith, is, gone, lost))
    ]
  ]

module _ (stale : ℕ) (coin : ℕ → Bool) (s : Silopit) (len : ℕ) (h : HasFile s len) where
  found_before :
      (sk : Slice) (before : ℕ)
      → getoff s sk ≡ some (before, s)
      → node_offset (find_key h.xs sk.bytes) ≡ before
  found_before sk before was = ground (arith, was, getoff-HasFile s len h sk)

  keys_old : All (λ n. length (c_str n.key) ≤ max_key_size) (adds h.xs)
  keys_old =
      All-adds (λ n. length (c_str n.key) ≤ max_key_size) h.xs
        (All-map {Q = λ n. n.opt ≡ Opt.add → length (c_str n.key) ≤ max_key_size} (λ n f a. f.0)
          h.xs h.fits)

  -- The nodes and those of the file come together in one list.
  flush_list-merged :
      (n : SkipNode) (ns : List SkipNode)
      → len ≤ max_key_size
      → All (λ m. cmp_lt h.entry.end m.key ≡ false) (n ∷ ns)
      → All (Fits len) (n ∷ ns)
      → (list' : Jikukan) × (flush_list stale coin s (n ∷ ns) (length (n ∷ ns))
          ≡ flush_merged stale s (some list'))
        × Refines list' (puts said (n ∷ ns) (puts filed (adds h.xs) (λ k. none)))
        × (list'.count ≤ length (adds h.xs) + length (n ∷ ns))
  unfolding flush_list insert_node
  flush_list-merged n ns le (e, top) (fit, fits) =
      let xs = n ∷ ns in
      let count = length xs in
      let (list, run, r, size_, few) =
        read_mmap-Refines coin len h.key h.xs h.rising (Fits-Even len h.xs h.fits)
          (Fits-FitsOffset len h.xs h.fits) le keys_old count in
      let t = puts filed (adds h.xs) (λ k. none) in
      let (one, run₁, r₁, size₁, few₁) =
        insert-Refines coin list t n.key n.val n.opt r (omega (arith, size_, few)) fit.0 in
      let (list', runs, r₂, few₂) =
        flush_rest stale s len h coin xs count ns (0 + 1) one (put t n.key (said n)) top
          (All-map {Q = λ m. length (c_str m.key) ≤ max_key_size} (λ m f. f.0) ns fits) r₁
          (omega (arith, size_, size₁, few, few₁)) in
      (
        list',
        flush_step stale s len h coin xs count n ns 0 none list one e
              (merge_into-none stale s len h coin xs count list run) run₁
            ∙ runs,
        r₂,
        omega (arith, few, few₁, few₂),
      )

  union-puts :
      (ns : List SkipNode)
      → Rising ns
      → (k : List ℕ) → puts said ns (puts filed (adds h.xs) (λ j. none)) k ≡ union h.xs ns k
  union-puts ns rising k =
      puts-find_key said ns (puts filed (adds h.xs) (λ j. none)) k rising
      ∙ ap (over said (find_key ns k))
          (puts-find_key filed (adds h.xs) (λ j. none) k (adds-Rising h.xs h.rising))

  abbrev Renews : (List ℕ → Option Entry) → Silopit → Type 0
  Renews table s' =
      (sk : Slice) (off : ℕ)
      → getoff s sk ≡ some (off, s)
      → getoff s' sk ≡ some (renewed (table sk.bytes) off, s')

  -- A list of the entries goes to the file, in which every key is found.
  flush_merged-union :
      (list : Jikukan) (t : List ℕ → Option Entry) (xs : List SkipNode)
      → Refines list t
      → ((k : List ℕ) (e : Entry) → t k ≡ some e → FitsEntry len k e)
      → first_node list ≡ some xs
      → length xs ≡ list.count
      → Rising xs
      → All (Fits len) xs
      → ((k : List ℕ) → lookup list k ≡ some (find_key xs k))
      → 0 < length (adds xs)
      → len ≤ max_key_size
      → list.count ≤ silopit_max_count * 2
      → (s' : Silopit) × (flush_merged stale s (some list) ≡ some s')
        × (s'.hiraishin ≡ s.hiraishin)
        × HasFile s' len
        × ((sk : Slice) → getoff s' sk ≡ some (recalled_entry (t sk.bytes), s'))
  flush_merged-union list t [] r of walk size_ rising fits finds some_ le few = absurd (omega arith)
  flush_merged-union list t (n ∷ ns) r of walk size_ rising fits finds some_ le few =
      let (last, buf, run, held, top) =
        flush_merged-again stale s len h list n ns walk size_ rising fits some_ le few in
      let s' = rewritten stale s len h last buf (n ∷ ns) in
      let (h', kept) = rewritten-HasFile stale s len h last buf (n ∷ ns) held rising fits top in
      (
        s',
        run,
        refl,
        h',
        λ sk.
            let (o, found, is) = r.finds sk.bytes in
            let same : find_key (n ∷ ns) sk.bytes ≡ o = ground (arith, finds sk.bytes, found) in
            getoff-HasFile s' len h' sk
            ∙ ap (λ l. some (node_offset (find_key l sk.bytes), s')) kept
            ∙ ap (λ x. some (node_offset x, s')) same
            ∙ ap (λ v. some (v, s')) (node_offset-entry o ∙ ap recalled_entry is),
      )

  merge_nodes :
      (list : Jikukan) (xs : List SkipNode)
      → first_node list ≡ some xs
      → length xs ≡ list.count
      → Rising xs
      → All (λ m. cmp_lt h.entry.end m.key ≡ false) xs
      → All (Fits len) xs
      → len ≤ max_key_size
      → length (adds h.xs) + list.count ≤ silopit_max_count * 2
      → (k : List ℕ) (off : ℕ) → union h.xs xs k ≡ some (off, Opt.add)
      → 0 < length xs
      → (s' : Silopit) × (merge stale coin s list false ≡ some s')
        × (s'.hiraishin ≡ s.hiraishin)
        × HasFile s' len
        × ((sk : Slice) → getoff s' sk ≡ some (recalled_entry (union h.xs xs sk.bytes), s'))
  unfolding merge
  merge_nodes list [] walk size_ rising top fits le few k off has pos = absurd (omega arith)
  merge_nodes list (n ∷ ns) walk size_ rising top fits le few k off has pos =
      let xs = n ∷ ns in
      let (all, flushed, r, count) = flush_list-merged n ns le top fits in
      let t = union h.xs xs in
      let r₁ =
        Refines-same all (puts said xs (puts filed (adds h.xs) (λ j. none))) t
          (union-puts xs rising) r in
      let of : (j : List ℕ) (e : Entry) → t j ≡ some e → FitsEntry len j e =
        λ j e is. union-FitsEntry len j e h.xs xs h.fits fits is in
      let (nodes, walked, b) = first_node-Behind all r₁.valid in
      let fit =
        All-Behind all r₁.valid nodes b (Fits len)
          (λ p m e. of m.key (m.val, m.opt) (node_entry all t r₁ p m e)) in
      let finds = lookup-Behind all r₁.valid nodes b in
      let (o, run, is) = r₁.finds k in
      let (m, there) = entry-some o (off, Opt.add) (is ∙ has) in
      let add : m.opt ≡ Opt.add = ground (arith, there, is, has) in
      let found : find_key nodes k ≡ some m = ground (arith, finds k, run, there) in
      let (s', done, filter, h', gets) =
        flush_merged-union all t nodes r₁ of walked (omega (arith, b.size)) b.rising fit finds
          (some-adds nodes k m found add) le (omega (arith, few, count, size_)) in
      let one : (size s.meta == 0) ≡ false = rw h.only refl in
      let ran : flush_list stale coin s xs list.count ≡ some s' =
        ap (flush_list stale coin s xs) (sym size_) ∙ flushed ∙ done in
      (s', rw (merge, walk, one, ran) refl, filter, h', gets)

  -- On a table with one file whose end is behind all keys of a list that says what the table says,
  -- where the file and the list have at most 131,072 nodes together, some node of the list is an
  -- addition, the keys fit their array, those of the additions have the length of the file's, and
  -- their offsets fit 8 bytes, `silopit_merge` of the list does not fault, and leaves one file and the
  -- filter as it was. After it, `silopit_getoff` finds for each key of the list the offset that the
  -- list has for it, as a file recalls it, or 0 for a deletion, and for every other key what it found
  -- before, recalled once more.
  pub getoff-merge_again :
      (list : Jikukan) (table : List ℕ → Option Entry)
      → Refines list table
      → ((k : List ℕ) (e : Entry)
          → table k ≡ some e
          → FitsEntry len k e × (cmp_lt h.entry.end k ≡ false))
      → length (adds h.xs) + list.count ≤ silopit_max_count * 2
      → (k : List ℕ) (off : ℕ) → table k ≡ some (off, Opt.add)
      → (s' : Silopit) × (merge stale coin s list false ≡ some s')
        × (s'.hiraishin ≡ s.hiraishin)
        × HasFile s' len
        × ((sk : Slice) (before : ℕ)
            → getoff s sk ≡ some (before, s)
            → getoff s' sk ≡ some (renewed (table sk.bytes) before, s'))
  getoff-merge_again list table r of few k off has =
      let (xs, walk, b) = first_node-Behind list r.valid in
      let finds = lookup-Behind list r.valid xs b in
      let said_of : (j : List ℕ) → entry (find_key xs j) ≡ table j = λ j.
        let (o, run, is) = r.finds j in
        let same : find_key xs j ≡ o = ground (arith, finds j, run) in ap entry same ∙ is in
      let fit =
        All-Behind list r.valid xs b (Fits len)
          (λ p m e. (of m.key (m.val, m.opt) (node_entry list table r p m e)).0) in
      let top =
        All-Behind list r.valid xs b (λ m. cmp_lt h.entry.end m.key ≡ false)
          (λ p m e. (of m.key (m.val, m.opt) (node_entry list table r p m e)).1) in
      let (m, found) = entry-some (find_key xs k) (off, Opt.add) (said_of k ∙ has) in
      let is : said m ≡ (off, Opt.add) = ground (arith, said_of k, has, found) in
      let le : len ≤ max_key_size =
        (let (small, one) = (of k (off, Opt.add) has).0 in omega (arith, small, (one refl).1)) in
      let (s', run, filter, h', gets) =
        merge_nodes list xs walk (omega (arith, b.size)) b.rising top fit le few k off
          (ap (λ o. over said o (over filed (find_key (adds h.xs) k) none)) found ∙ ap some is)
          (omega (arith, length-adds xs, some-adds xs k m found (ap (λ e. e.1) is))) in
      (
        s',
        run,
        filter,
        h',
        λ sk before was.
            let j = sk.bytes in
            let old : offset_of (find_key (adds h.xs) j) ≡ before =
              find_key-adds h.xs j h.rising ∙ found_before sk before was in
            gets sk
            ∙ ap (λ v. some (v, s'))
                (union-renewed (find_key xs j) (find_key (adds h.xs) j)
                  ∙ ap (λ v. renewed (entry (find_key xs j)) v) old
                  ∙ ap (λ e. renewed e before) (said_of j)),
      )
