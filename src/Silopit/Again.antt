-- ===== src/Silopit/Again.antt =====
-- `_flush_list` of storage/src/silopit.c on a table with one file whose end is behind all keys: the
-- nodes are merged with those of the file, which is written anew.
use silokatana.Base.{
  le→leb, ℕ, ◌+◌, ◌*◌, ◌≤◌, ◌<◌, ◌≡◌, refl, sym, ap, ◌∙◌, Bool, List, [], ◌∷◌, Option, none, some,
  true, false, leb, length, arith, All, All-map, inl, inr, get_elem?,
}
use silokatana.Base.CStr.{str_eq, str_eq_refl}
use silokatana.Buffer.{Buffer, Holds}
use silokatana.Meta.{MetaNode, get-one, set_byname, rename_end, size}
use silokatana.Meta
use silokatana.Jikukan.{
  SkipNode, Entry, put, Jikukan, Refines, insert-Refines, insert_node, max_key_size, cmp_lt,
}
use silokatana.Silopit.Files.{first_node, make_file, read_mmap}
use silokatana.Silopit.Defs.{Silopit, write_mmap, update_file}
use silokatana.Silopit.Flush.{
  flush_from, flush_merged, flush_merge_list, merge_into, silopit_max_count,
}
use silokatana.Silopit.Walk.{Rising}
use silokatana.Silopit.Blocks.{adds}
use silokatana.Silopit.Writes.{file_of}
use silokatana.Silopit.Made.{FitsKey, make_file-Even, whole_key}
use silokatana.Silopit.Fresh.{Fits, Fits-Even, small_blocks}
use silokatana.Silopit.Tables.{HasFile}
use silokatana.Silopit.Held.{meta_one, puts}
use mathlib.Core.List.{append-nil}

-- What a memory table says of a node.
abbrev pub said : SkipNode → Entry
said n = (n.val, n.opt)

module _ (stale : ℕ) (s : Silopit) (len : ℕ) (h : HasFile s len) where
  -- The table with the file written anew.
  abbrev pub rewritten : SkipNode → Buffer → List SkipNode → Silopit
  rewritten last buf xs = record s {
    meta = record { nodes = record h.entry { end = last.key } ∷ [] };
    buf = buf;
    files = update_file s.files s.name (file_of len (whole_key last.key) xs);
  }

  set_byname-one :
      (mn : MetaNode)
      → mn.index_name ≡ s.name
      → set_byname s.meta mn ≡ record { nodes = record h.entry { end = mn.end } ∷ [] }
  unfolding set_byname rename_end
  set_byname-one mn e =
      let same : str_eq mn.index_name h.entry.index_name ≡ true =
        ap (λ n. str_eq n h.entry.index_name) (e ∙ sym h.named) ∙ str_eq_refl h.entry.index_name in
      ap (λ m. set_byname m mn) (meta_one s.meta h.entry h.only) ∙ rw (set_byname, same) refl

  write_mmap-again :
      (n : SkipNode) (ns : List SkipNode)
      → Rising (n ∷ ns)
      → All (Fits len) (n ∷ ns)
      → 0 < length (adds (n ∷ ns))
      → len ≤ max_key_size
      → length (n ∷ ns) ≤ silopit_max_count * 2
      → (last : SkipNode) × (buf : Buffer) × (write_mmap stale s (n ∷ ns) (length (n ∷ ns)) false
          ≡ some (rewritten last buf (n ∷ ns), []))
        × Holds buf []
        × All (λ m. cmp_lt last.key m.key ≡ false) (n ∷ ns)
  unfolding write_mmap
  write_mmap-again n ns rising fits some_ le few =
      let xs = n ∷ ns in
      let even = Fits-Even len xs fits in
      let (last, buf, run, held, _, top) =
        make_file-Even stale s.buf n ns [] len h.empty rising
          (All-map {Q = FitsKey} (λ m f. f.0) xs fits) even some_
          (small_blocks len xs even le few) in
      let whole : make_file stale s.buf xs (length xs)
          ≡ some (file_of len (whole_key last.key) xs, last, buf, []) =
        ap (λ x. make_file stale s.buf x (length xs)) (sym (append-nil xs)) ∙ run in
      let entry : MetaNode = record {
        end = last.key;
        index_name = s.name;
        count = length (adds xs);
        lsn = 0;
      } in
      (last, buf, rw (write_mmap, whole, set_byname-one entry refl) refl, held, top)

  pub rewritten-HasFile :
      (last : SkipNode) (buf : Buffer) (xs : List SkipNode)
      → Holds buf []
      → Rising xs
      → All (Fits len) xs
      → All (λ m. cmp_lt last.key m.key ≡ false) xs
      → (f : HasFile (rewritten last buf xs) len) × (f.xs ≡ xs)
  rewritten-HasFile last buf xs held rising fits top = (
    record {
      entry = record h.entry { end = last.key };
      only = refl;
      named = h.named;
      xs = xs;
      key = whole_key last.key;
      file = rw (str_eq_refl s.name) refl;
      rising = rising;
      fits = fits;
      top = top;
      empty = held;
    },
    refl,
  )

  module _ (coin : ℕ → Bool) (x : List SkipNode) (count : ℕ) where
    pub found_at :
        (n : SkipNode) → cmp_lt h.entry.end n.key ≡ false → Meta.get s.meta n.key ≡ some (some 0)
    found_at n top = elim (get-one h.entry n.key) [
      | inl (hit, _) ↦ ap (λ m. Meta.get m n.key) (meta_one s.meta h.entry h.only) ∙ hit
      | inr (_, lt) ↦ absurd (cc (top, lt))
    ]

    at_hand : str_eq s.name h.entry.index_name ≡ true
    at_hand = ap (str_eq s.name) h.named ∙ str_eq_refl s.name

    pub merge_into-some :
        (list : Jikukan) → merge_into stale coin x count s 0 (some list) ≡ some (s, list)
    unfolding merge_into
    merge_into-some list =
        let at : get_elem? s.meta.nodes 0 ≡ some h.entry = ap (λ l. get_elem? l 0) h.only in
        rw (merge_into, at, at_hand) refl

    pub merge_into-none :
        (list : Jikukan)
        → read_mmap coin (some (file_of len h.key h.xs)) count ≡ some list
        → merge_into stale coin x count s 0 none ≡ some (s, list)
    unfolding merge_into
    merge_into-none list run =
        let at : get_elem? s.meta.nodes 0 ≡ some h.entry = ap (λ l. get_elem? l 0) h.only in
        rw (merge_into, at, at_hand, h.file, run) refl

    pub flush_step :
        (n : SkipNode) (ns : List SkipNode) (pos : ℕ) (held : Option Jikukan) (list list' : Jikukan)
        → cmp_lt h.entry.end n.key ≡ false
        → merge_into stale coin x count s 0 held ≡ some (s, list)
        → insert_node coin list n ≡ some (1, list')
        → flush_from stale coin x count s (n ∷ ns) pos held
          ≡ flush_from stale coin x count s ns (pos + 1) (some list')
    unfolding flush_from
    flush_step n ns pos held list list' top into run =
        rw (flush_from, found_at n top, into, run) refl

    -- The nodes from one on enter the list at hand.
    pub flush_rest :
        (ns : List SkipNode) (pos : ℕ) (list : Jikukan) (t : List ℕ → Option Entry)
        → All (λ m. cmp_lt h.entry.end m.key ≡ false) ns
        → All FitsKey ns
        → Refines list t
        → list.count + length ns ≤ list.size
        → (list' : Jikukan) × (flush_from stale coin x count s ns pos (some list)
            ≡ flush_merged stale s (some list'))
          × Refines list' (puts said ns t)
          × (list'.count ≤ list.count + length ns)
    unfolding flush_from insert_node
    flush_rest [] pos list t top keys r room = (list, refl, r, omega arith)
    flush_rest (n ∷ ns) pos list t (e, top) (k, keys) r room =
        let (one, run, r₁, size_, few) =
          insert-Refines coin list t n.key n.val n.opt r (omega (arith, room)) k in
        let (list', runs, r₂, few') =
          flush_rest ns (pos + 1) one (put t n.key (said n)) top keys r₁
            (omega (arith, room, size_, few)) in
        (
          list',
          flush_step n ns pos (some list) list one e (merge_into-some list) run ∙ runs,
          r₂,
          omega (arith, few, few'),
        )

  -- The merged list goes to the file.
  pub flush_merged-again :
      (list : Jikukan) (n : SkipNode) (ns : List SkipNode)
      → first_node list ≡ some (n ∷ ns)
      → length (n ∷ ns) ≡ list.count
      → Rising (n ∷ ns)
      → All (Fits len) (n ∷ ns)
      → 0 < length (adds (n ∷ ns))
      → len ≤ max_key_size
      → list.count ≤ silopit_max_count * 2
      → (last : SkipNode) × (buf : Buffer) × (flush_merged stale s (some list)
          ≡ some (rewritten last buf (n ∷ ns)))
        × Holds buf []
        × All (λ m. cmp_lt last.key m.key ≡ false) (n ∷ ns)
  unfolding flush_merged flush_merge_list
  flush_merged-again list n ns walk size_ rising fits some_ le few =
      let (last, buf, run, held, top) =
        write_mmap-again n ns rising fits some_ le (omega (arith, size_, few)) in
      let one : leb list.count (silopit_max_count * 2) ≡ true =
        le→leb list.count (silopit_max_count * 2) few in
      let done : write_mmap stale s (n ∷ ns) list.count false
          ≡ some (rewritten last buf (n ∷ ns), []) =
        ap (λ c. write_mmap stale s (n ∷ ns) c false) (sym size_) ∙ run in
      (last, buf, rw (flush_merged, walk, flush_merge_list, one, done) refl, held, top)
