-- ===== src/Silopit/Merged.antt =====
-- What `silopit_getoff` of storage/src/silopit.c finds once `silopit_merge` has made the first file.
use silokatana.Base.{
  none, ℕ, ◌*◌, ◌≤◌, ◌<◌, ◌≡◌, refl, sym, ap, ◌∙◌, Bool, List, [], ◌∷◌, Option, some, true, false,
  Bool-cases, ◌==◌, length, arith, All, All-map, inl, inr, ◌^◌,
}
use silokatana.Base.CStr.{str_eq_refl, str_eq, str_eq_iff}
use silokatana.Silopit.Tables.{HasFile}
use silokatana.Meta.{first_entry}
use silokatana.Buffer.{Holds, Buffer}
use silokatana.Level.{Slice}
use silokatana.Meta.{size, get-one, MetaNode}
use silokatana.Log.{recalled}
use silokatana.Silopit.Blocks.{opt_cases}
use silokatana.Base.CStr.{str_eq_refl, c_str}
use silokatana.Jikukan.{
  Entry, entry, Refines, lookup-Found, SkipNode, Opt, Jikukan, IsValid, lookup, cmp_lt,
  max_key_size, cmp_lt-congr_right,
}
use silokatana.Silopit.Files.{first_node}
use silokatana.Silopit.Defs.{Silopit, getoff, getoff_at, update_file, silo_name}
use silokatana.Silopit.Flush.{flush_new_list, merge, silopit_max_count}
use silokatana.Silopit.Walk.{
  Rising, first_node-Behind, find_key, find_key-cases, All-Memᴰ, lookup-Behind, All-Behind,
}
use silokatana.Silopit.Blocks.{adds}
use silokatana.Silopit.Writes.{file_of}
use silokatana.Silopit.Made.{whole_key}
use silokatana.Silopit.Finds.{node_offset, find_key-none, read_offset-file_of}
use silokatana.Silopit.Fresh.{
  Fits-Even, Fits-FitsOffset, IsFresh, Fits, with_file, flush_new_list-one, some-adds,
  find_key-adds,
}

pub behind_none :
    (xs : List SkipNode) (last k : List ℕ)
    → All (λ m. cmp_lt last m.key ≡ false) xs
    → cmp_lt last k ≡ true
    → All (λ m. str_eq m.key k ≡ false) xs
behind_none xs last k h lt =
    All-map
      (λ m top. elim (Bool-cases (str_eq m.key k)) [
        | inl e ↦ absurd (cc (cmp_lt-congr_right m.key k last ((str_eq_iff m.key k).0 e), top, lt))
        | inr e ↦ e
      ])
      xs h

module _ (s : Silopit) (len : ℕ) (last : SkipNode) (buf : Buffer) (xs : List SkipNode) where
  getoff-with_file :
      Rising xs
      → All (Fits len) xs
      → All (λ m. cmp_lt last.key m.key ≡ false) xs
      → (sk : Slice)
      → getoff (with_file s len last buf xs) sk
        ≡ some (node_offset (find_key xs sk.bytes), with_file s len last buf xs)
  unfolding getoff getoff_at
  getoff-with_file rising fits top sk =
      let s' = with_file s len last buf xs in
      let k = sk.bytes in
      let file = file_of len (whole_key last.key) xs in
      let entry : MetaNode = record {
        end = last.key;
        index_name = silo_name 0;
        count = length (adds xs);
        lsn = 1;
      } in
      elim (get-one entry k) [
        | inl (hit, _) ↦
            let read =
              read_offset-file_of len (whole_key last.key) xs rising (Fits-Even len xs fits)
                (Fits-FitsOffset len xs fits) k in
            let there : update_file s.files (silo_name 0) file (silo_name 0) ≡ some file =
              rw (str_eq_refl (silo_name 0)) refl in
            rw (getoff, hit, there, read, find_key-adds xs k rising) refl
        | inr (missed, lt) ↦
            let absent = find_key-none xs k (behind_none xs last.key k top lt) in
            rw (getoff, missed, absent) refl
      ]

with_file-HasFile :
    (s : Silopit) (len : ℕ) (last : SkipNode) (buf : Buffer) (xs : List SkipNode)
    → Holds buf []
    → Rising xs
    → All (Fits len) xs
    → All (λ m. cmp_lt last.key m.key ≡ false) xs
    → HasFile (with_file s len last buf xs) len
with_file-HasFile s len last buf xs held rising fits top = record {
  entry =
      first_entry
        (record { end = last.key; index_name = silo_name 0; count = length (adds xs); lsn = 0 });
  only = refl;
  named = refl;
  xs = xs;
  key = whole_key last.key;
  file = rw (str_eq_refl (silo_name 0)) refl;
  rising = rising;
  fits = fits;
  top = top;
  empty = held;
}

module _ (stale : ℕ) (coin : ℕ → Bool) (s : Silopit) (len : ℕ) (f : IsFresh s) where
  abbrev Gets : Silopit → Jikukan → Type 0
  Gets s' list =
      (sk : Slice) (o : Option SkipNode)
      → lookup list sk.bytes ≡ some o
      → getoff s' sk ≡ some (node_offset o, s')

  merge_walked :
      (list : Jikukan) (xs : List SkipNode)
      → first_node list ≡ some xs
      → length xs ≡ list.count
      → Rising xs
      → All (Fits len) xs
      → ((k : List ℕ) → lookup list k ≡ some (find_key xs k))
      → 0 < length (adds xs)
      → len ≤ max_key_size
      → list.count ≤ silopit_max_count * 2
      → (s' : Silopit) × (merge stale coin s list false ≡ some s')
        × (s'.hiraishin ≡ s.hiraishin)
        × HasFile s' len
        × Gets s' list
  unfolding merge
  merge_walked list [] walk size_ rising fits finds some_ le few = absurd (omega arith)
  merge_walked list (n ∷ ns) walk size_ rising fits finds some_ le few =
      let (last, buf, run, held, top) =
        flush_new_list-one stale s len f n ns rising fits some_ le (omega (arith, size_, few)) in
      let none_yet : (size s.meta == 0) ≡ true = rw f.no_files refl in
      let flushed : flush_new_list stale s (n ∷ ns) list.count
          ≡ some (with_file s len last buf (n ∷ ns), []) =
        ap (flush_new_list stale s (n ∷ ns)) (sym size_) ∙ run in
      (
        with_file s len last buf (n ∷ ns),
        rw (merge, walk, none_yet, flushed) refl,
        refl,
        with_file-HasFile s len last buf (n ∷ ns) held rising fits top,
        λ sk o is.
            let same : find_key (n ∷ ns) sk.bytes ≡ o = ground (arith, finds sk.bytes, is) in
            getoff-with_file s len last buf (n ∷ ns) rising fits top sk
            ∙ ap (λ r. some (node_offset r, with_file s len last buf (n ∷ ns))) same,
      )

  getoff-merge_list :
      (list : Jikukan)
      → IsValid list
      → ((p : ℕ) (n : SkipNode) → list.nodes p ≡ some n → Fits len n)
      → list.count ≤ silopit_max_count * 2
      → (k : List ℕ) (n : SkipNode) → lookup list k ≡ some (some n)
      → n.opt ≡ Opt.add
      → (s' : Silopit) × (merge stale coin s list false ≡ some s')
        × (s'.hiraishin ≡ s.hiraishin)
        × HasFile s' len
        × Gets s' list
  getoff-merge_list list v fits few k n there add =
      let (xs, walk, b) = first_node-Behind list v in
      let all = All-Behind list v xs b (Fits len) fits in
      let finds = lookup-Behind list v xs b in
      let found : find_key xs k ≡ some n = ground (arith, finds k, there) in
      let le : len ≤ max_key_size = elim (find_key-cases xs k) [
        | inl (m, has, mem, _) ↦
            let same : m ≡ n = ground (arith, has, found) in
            let (fit, one) = All-Memᴰ (Fits len) xs m all mem in
            omega (arith, fit, (one (ap (λ x. x.opt) same ∙ add)).1)
        | inr (lost, _) ↦ absurd (ground (arith, lost, found))
      ] in
      merge_walked list xs walk (omega (arith, b.size)) b.rising all finds
        (some-adds xs k n found add) le few

-- What the files say for the entry of a key: 0 for a deletion, and for no entry.
abbrev pub recalled_entry : Option Entry → ℕ
recalled_entry none = 0
recalled_entry (some (off, Opt.add)) = recalled off
recalled_entry (some (off, Opt.del)) = 0

abbrev pub FitsEntry : ℕ → List ℕ → Entry → Type 0
FitsEntry len k (off, opt) =
    (length (c_str k) ≤ max_key_size) × (opt ≡ Opt.add → (off < 2 ^ 64) × (length (c_str k) ≡ len))

pub entry-some :
    (o : Option SkipNode) (e : Entry) → entry o ≡ some e → (n : SkipNode) × (o ≡ some n)
entry-some none e h = absurd (ground (arith, h))
entry-some (some n) e h = (n, refl)

pub node_offset-entry : (o : Option SkipNode) → node_offset o ≡ recalled_entry (entry o)
node_offset-entry none = refl
node_offset-entry (some n) = elim (opt_cases n.opt) [ inl a ↦ rw a refl | inr d ↦ rw d refl ]

pub node_entry :
    (list : Jikukan) (table : List ℕ → Option Entry)
    → Refines list table
    → (p : ℕ) (n : SkipNode) → list.nodes p ≡ some n
    → table n.key ≡ some (n.val, n.opt)
node_entry list table r p n there =
    let (o, run, is) = r.finds n.key in
    let found =
      lookup-Found list r.valid n.key
        (record { at = p; node = n; there = there; same = str_eq_refl n.key }) in
    let same : o ≡ some n = ground (arith, run, found) in sym is ∙ ap entry same

module _ (stale : ℕ) (coin : ℕ → Bool) (s : Silopit) (len : ℕ) (f : IsFresh s) (list : Jikukan)
    (table : List ℕ → Option Entry) (r : Refines list table) where
  -- Where no file is there and nothing is in the buffer, and a list that says what the table says has
  -- at most 131,072 nodes, some of them additions, with keys that fit their array, one length for the
  -- keys of the additions, and offsets of these that fit 8 bytes, `silopit_merge` of the list does not
  -- fault, and leaves one file and the filter as it was. After it, `silopit_getoff` of any key does not fault,
  -- changes nothing, and finds the offset that the table has for the key, as a file recalls it, or 0
  -- for a deletion and for a key that is not in the table.
  pub getoff-merge :
      ((k : List ℕ) (e : Entry) → table k ≡ some e → FitsEntry len k e)
      → list.count ≤ silopit_max_count * 2
      → (k : List ℕ) (off : ℕ) → table k ≡ some (off, Opt.add)
      → (s' : Silopit) × (merge stale coin s list false ≡ some s')
        × (s'.hiraishin ≡ s.hiraishin)
        × HasFile s' len
        × ((sk : Slice) → getoff s' sk ≡ some (recalled_entry (table sk.bytes), s'))
  getoff-merge fits few k off has =
      let (o, run, is) = r.finds k in
      let (n, there) = entry-some o (off, Opt.add) (is ∙ has) in
      let add : n.opt ≡ Opt.add = ground (arith, there, is, has) in
      let (s', ran, filter, one_file, gets) =
        getoff-merge_list stale coin s len f list r.valid
          (λ p m e. fits m.key (m.val, m.opt) (node_entry list table r p m e)) few k n
          (run ∙ ap some there) add in
      (
        s',
        ran,
        filter,
        one_file,
        λ sk.
            let (x, found, says) = r.finds sk.bytes in
            gets sk x found ∙ ap (λ v. some (v, s')) (node_offset-entry x ∙ ap recalled_entry says),
      )
