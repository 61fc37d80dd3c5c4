-- ===== src/Silopit/Fresh.antt =====
-- `silopit_merge` of storage/src/silopit.c while no file is there: it makes one file, and
-- `silopit_getoff` finds in it what the list has.
use silokatana.Base.{
  ℕ, zero, suc, ◌+◌, ◌*◌, ◌^◌, ◌≤◌, ◌<◌, ◌≡◌, refl, sym, ap, ◌∙◌, List, [], ◌∷◌, some, true, false,
  Bool-cases, leb, length, arith, All, All-map, inl, inr,
}
use silokatana.Base.CStr.{c_str, str_eq}
use silokatana.Buffer.{Holds, Buffer}
use silokatana.Meta.{set-first, MetaNode, first_entry}
use silokatana.Jikukan.{
  SkipNode, Opt, cmp_lt, max_key_size, str_eq_sym, str_eq_trans, str_eq-not-cmp_lt,
}
use silokatana.Silopit.Files.{make_file, SiloFile}
use silokatana.Silopit.Defs.{Silopit, write_mmap, update_file, silo_name}
use silokatana.Silopit.Flush.{write_new, flush_new_list, silopit_max_count}
use silokatana.Silopit.Walk.{Rising, find_key}
use silokatana.Silopit.Blocks.{adds, blocks, Even, opt_cases, above-adds, Even-adds, length-blocks}
use silokatana.Silopit.Writes.{file_of}
use silokatana.Silopit.Made.{make_file-Even, whole_key}
use silokatana.Silopit.Finds.{FitsOffset, node_offset, offset_of, find_key-none}
use mathlib.Core.List.{append-nil}

-- A key in front of one that is looked for is another.
pub before_other : (a b k : List ℕ) → cmp_lt a b ≡ true → str_eq a k ≡ true → str_eq b k ≡ false
before_other a b k lt e = elim (Bool-cases (str_eq b k)) [
  | inl same ↦ absurd (cc (str_eq-not-cmp_lt a b (str_eq_trans a k b e (str_eq_sym b k same)), lt))
  | inr other ↦ other
]

-- The additions say of a key what all nodes say.
pub find_key-adds :
    (xs : List SkipNode) (k : List ℕ)
    → Rising xs
    → offset_of (find_key (adds xs) k) ≡ node_offset (find_key xs k)
find_key-adds [] k h = refl
find_key-adds (x ∷ xs) k (a, h) = elim (opt_cases x.opt) [
  | inl add ↦ elim (Bool-cases (str_eq x.key k)) [
    | inl e ↦ rw (add, e) refl
    | inr e ↦ rw (add, e) (find_key-adds xs k h)
  ]
  | inr del ↦ elim (Bool-cases (str_eq x.key k)) [
    | inl e ↦
        rw (del, e)
          (ap offset_of (
            find_key-none (adds xs) k (
              All-map (λ m lt. before_other x.key m.key k lt e) (adds xs) (above-adds x.key xs a))))
    | inr e ↦ rw (del, e) (find_key-adds xs k h)
  ]
]

before_find :
    (x : SkipNode) (xs : List SkipNode) (k : List ℕ)
    → str_eq x.key k ≡ false
    → find_key xs k ≡ find_key (x ∷ xs) k
before_find x xs k e = rw e refl

pub some-adds :
    (xs : List SkipNode) (k : List ℕ) (n : SkipNode)
    → find_key xs k ≡ some n
    → n.opt ≡ Opt.add
    → 0 < length (adds xs)
some-adds [] k n e o = absurd (ground (arith, e))
some-adds (x ∷ xs) k n e o = elim (opt_cases x.opt) [
  | inl add ↦ rw add (omega arith)
  | inr del ↦ elim (Bool-cases (str_eq x.key k)) [
    | inl same ↦ absurd (ground (arith, e, same, del, o))
    | inr other ↦ rw del (some-adds xs k n (before_find x xs k other ∙ e) o)
  ]
]

pub length-adds : (xs : List SkipNode) → length (adds xs) ≤ length xs
length-adds [] = omega arith
length-adds (x ∷ xs) = elim (opt_cases x.opt) [
  | inl a ↦ rw a (omega (arith, length-adds xs))
  | inr d ↦ rw d (omega (arith, length-adds xs))
]

-- What holds of every addition.
pub All-adds :
    (P : SkipNode → Type 0) (xs : List SkipNode)
    → All (λ n. n.opt ≡ Opt.add → P n) xs
    → All P (adds xs)
All-adds P [] h = tt
All-adds P (x ∷ xs) (p, h) = elim (opt_cases x.opt) [
  | inl a ↦ rw a (p a, All-adds P xs h)
  | inr d ↦ rw d (All-adds P xs h)
]

mul_le : (a b c d : ℕ) → a ≤ c → b ≤ d → a * b ≤ c * d
mul_le zero b c d h k = omega arith
mul_le (suc a) b zero d h k = absurd (omega arith)
mul_le (suc a) b (suc c) d h k = omega (arith, mul_le a b c d (omega arith) k)

-- No file is there, and nothing in the buffer.
pub record IsFresh (s : Silopit) : Type 0 where
  pub no_files : s.meta.nodes ≡ []
  pub empty : Holds s.buf []

-- What a node must be for a file: its key fits an array, and, if it is no deletion, has the one length,
-- and its offset fits 8 bytes.
abbrev pub Fits : ℕ → SkipNode → Type 0
Fits len n =
    (length (c_str n.key) ≤ max_key_size)
    × (n.opt ≡ Opt.add → (n.val < 2 ^ 64) × (length (c_str n.key) ≡ len))

pub Fits-Even : (len : ℕ) (xs : List SkipNode) → All (Fits len) xs → Even len xs
Fits-Even len xs h =
    All-map {Q = λ n. n.opt ≡ Opt.add → length (c_str n.key) ≡ len} (λ n f a. (f.1 a).1) xs h

pub Fits-FitsOffset : (len : ℕ) (xs : List SkipNode) → All (Fits len) xs → All FitsOffset (adds xs)
Fits-FitsOffset len xs h =
    All-adds FitsOffset xs
      (All-map {Q = λ n. n.opt ≡ Opt.add → FitsOffset n} (λ n f a. (f.1 a).0) xs h)

write_mmap_new :
    (stale : ℕ) (s : Silopit) (x : List SkipNode) (count : ℕ) (file : SiloFile) (last : SkipNode)
    (buf : Buffer) (rest : List SkipNode)
    → s.meta.nodes ≡ []
    → make_file stale s.buf x count ≡ some (file, last, buf, rest)
    → write_mmap stale s x count true
      ≡ some (
        record s {
          meta = record {
            nodes =
                first_entry (record {
                  end = last.key;
                  index_name = s.name;
                  count = file.footer.count;
                  lsn = 0;
                })
                ∷ [];
          };
          buf = buf;
          files = update_file s.files s.name file;
        },
        rest,
      )
unfolding write_mmap
write_mmap_new stale s x count file last buf rest e run =
    let entry : MetaNode = record {
      end = last.key;
      index_name = s.name;
      count = file.footer.count;
      lsn = 0;
    } in
    rw (write_mmap, run, set-first s.meta entry e) refl

-- A table with one file.
abbrev pub with_file : Silopit → ℕ → SkipNode → Buffer → List SkipNode → Silopit
with_file s len last buf xs =
    let file = file_of len (whole_key last.key) xs in
    record s {
      name = silo_name 0;
      meta = record {
        nodes =
            first_entry (record {
              end = last.key;
              index_name = silo_name 0;
              count = file.footer.count;
              lsn = 0;
            })
            ∷ [];
      };
      buf = buf;
      files = update_file s.files (silo_name 0) file;
    }

pub small_blocks :
    (len : ℕ) (xs : List SkipNode)
    → Even len xs
    → len ≤ max_key_size
    → length xs ≤ silopit_max_count * 2
    → length (blocks (adds xs)) + 64 ≤ 2 ^ 30
small_blocks len xs even le few = omega (
  arith,
  length-blocks len (adds xs) (Even-adds len xs even),
  mul_le (length (adds xs)) (len + 9) (silopit_max_count * 2) (max_key_size + 9)
      (omega (arith, length-adds xs, few)) (omega (arith, le)),
)

module _ (stale : ℕ) (s : Silopit) (len : ℕ) (f : IsFresh s) where
  pub flush_new_list-one :
      (n : SkipNode) (ns : List SkipNode)
      → Rising (n ∷ ns)
      → All (Fits len) (n ∷ ns)
      → 0 < length (adds (n ∷ ns))
      → len ≤ max_key_size
      → length (n ∷ ns) ≤ silopit_max_count * 2
      → (last : SkipNode) × (buf : Buffer) × (flush_new_list stale s (n ∷ ns) (length (n ∷ ns))
          ≡ some (with_file s len last buf (n ∷ ns), []))
        × Holds buf []
        × All (λ m. cmp_lt last.key m.key ≡ false) (n ∷ ns)
  unfolding flush_new_list write_new
  flush_new_list-one n ns rising fits some_ le few =
      let even = Fits-Even len (n ∷ ns) fits in
      let (last, buf, run, held, _, top) =
        make_file-Even stale s.buf n ns [] len f.empty rising
          (All-map (λ m (h : Fits len m). h.0) (n ∷ ns) fits) even some_
          (small_blocks len (n ∷ ns) even le few) in
      let one : leb (length (n ∷ ns)) (silopit_max_count * 2) ≡ true = ground (arith, few) in
      let file = file_of len (whole_key last.key) (n ∷ ns) in
      let whole : make_file stale s.buf (n ∷ ns) (length (n ∷ ns)) ≡ some (file, last, buf, []) =
        ap (λ x. make_file stale s.buf x (length (n ∷ ns))) (sym (append-nil (n ∷ ns))) ∙ run in
      let written =
        write_mmap_new stale (record s { name = silo_name 0 }) (n ∷ ns) (length (n ∷ ns)) file last
          buf [] f.no_files whole in
      let named : write_new stale s (n ∷ ns) (length (n ∷ ns))
          ≡ some (with_file s len last buf (n ∷ ns), []) =
        ap (λ k. write_mmap stale (record s { name = silo_name k }) (n ∷ ns) (length (n ∷ ns)) true)
          (ap length f.no_files)
        ∙ written in
      (last, buf, rw (flush_new_list, one) named, held, top)
