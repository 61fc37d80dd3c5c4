-- ===== src/Silopit/Held.antt =====
-- A table of storage/src/silopit.c with one file, as the first merge leaves it.
use silokatana.Base.{
  ℕ, ◌≡◌, refl, ap, ◌∙◌, List, [], ◌∷◌, Option, none, some, true, false, Bool-cases, All-map, inl,
  inr, get_elem?,
}
use silokatana.Base.CStr.{str_eq}
use silokatana.Level.{Slice}
use silokatana.Meta.{MetaNode, get-one}
use silokatana.Meta
use silokatana.Jikukan.{SkipNode, Entry, put, str_eq_sym}
use silokatana.Silopit.Defs.{Silopit, getoff, getoff_at}
use silokatana.Silopit.Tables.{HasFile}
use silokatana.Silopit.Walk.{Rising, find_key}
use silokatana.Silopit.Finds.{node_offset, find_key-none, read_offset-file_of}
use silokatana.Silopit.Fresh.{before_other, Fits-Even, Fits-FitsOffset, find_key-adds}
use silokatana.Silopit.Merged.{behind_none}

pub meta_one : (m : Meta.Meta) (e : MetaNode) → m.nodes ≡ e ∷ [] → m ≡ record { nodes = e ∷ [] }
meta_one m e h = ap (λ (nodes : List MetaNode). record { nodes = nodes }) h

module _ (s : Silopit) (len : ℕ) (h : HasFile s len) where
  pub getoff-HasFile : (sk : Slice) → getoff s sk ≡ some (node_offset (find_key h.xs sk.bytes), s)
  unfolding getoff getoff_at
  getoff-HasFile sk =
      let k = sk.bytes in
      let at : get_elem? s.meta.nodes 0 ≡ some h.entry = ap (λ l. get_elem? l 0) h.only in
      let table = meta_one s.meta h.entry h.only in
      elim (get-one h.entry k) [
        | inl (hit, _) ↦
            let there = ap (λ m. Meta.get m k) table ∙ hit in
            let read =
              read_offset-file_of len h.key h.xs h.rising (Fits-Even len h.xs h.fits)
                (Fits-FitsOffset len h.xs h.fits) k in
            let file = ap s.files h.named ∙ h.file in
            rw (getoff, there, getoff_at, at, file, read, find_key-adds h.xs k h.rising)
              (ap (λ name. some (node_offset (find_key h.xs k), record s { name = name })) h.named)
        | inr (missed, lt) ↦
            let gone = ap (λ m. Meta.get m k) table ∙ missed in
            let absent = find_key-none h.xs k (behind_none h.xs h.entry.end k h.top lt) in
            rw (getoff, gone, absent) refl
      ]

-- The table after entries for some nodes.
abbrev pub puts :
    (SkipNode → Entry) → List SkipNode → (List ℕ → Option Entry) → List ℕ → Option Entry
puts f [] t = t
puts f (n ∷ ns) t = puts f ns (put t n.key (f n))

abbrev pub over : (SkipNode → Entry) → Option SkipNode → Option Entry → Option Entry
over f none e = e
over f (some n) e = some (f n)

apart : (a b : List ℕ) → str_eq a b ≡ false → str_eq b a ≡ false
apart a b h = elim (Bool-cases (str_eq b a)) [
  | inl e ↦ absurd (cc (str_eq_sym b a e, h))
  | inr e ↦ e
]

pub puts-find_key :
    (f : SkipNode → Entry) (ns : List SkipNode) (t : List ℕ → Option Entry) (k : List ℕ)
    → Rising ns
    → puts f ns t k ≡ over f (find_key ns k) (t k)
puts-find_key f [] t k h = refl
puts-find_key f (n ∷ ns) t k (a, h) = elim (Bool-cases (str_eq n.key k)) [
  | inl same ↦
      let absent = find_key-none ns k (All-map (λ m lt. before_other n.key m.key k lt same) ns a) in
      let here : str_eq k n.key ≡ true = str_eq_sym n.key k same in
      let entered : put t n.key (f n) k ≡ some (f n) = rw here refl in
      puts-find_key f ns (put t n.key (f n)) k h ∙ rw (absent, same) entered
  | inr other ↦
      let kept : put t n.key (f n) k ≡ t k = rw (apart n.key k other) refl in
      puts-find_key f ns (put t n.key (f n)) k h ∙ rw (other, kept) refl
]
