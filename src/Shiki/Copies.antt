-- ===== src/Shiki/Copies.antt =====
-- `shiki_set` and `shiki_get` for slices whose blocks have more bytes than they say.
use silokatana.Base.{
  ℕ, ◌+◌, ◌%◌, ◌<◌, ◌≤◌, ◌≡◌, ◌≢◌, refl, ◌∙◌, List, [], none, some, true, false, inl, inr, leb,
  ◌==◌, length, take, length-take, arith, Option-cases, Bool-cases,
}
use silokatana.Base.CStr.{c_str}
use silokatana.Ht.{Ht, get_congr}
use silokatana.Ht
use silokatana.Level.{Slice}
use silokatana.Shiki.Defs.{Shiki, copy, set, get, set_absent, add_node}
use silokatana.Shiki.Valid.{IsValid, IsSlice, view}
use silokatana.Shiki.Cache.{copy-IsSlice, set-stored}
use silokatana.Level.{size_max}

-- The block that the cache makes of a slice.
abbrev pub own : Slice → Slice
own s = record { bytes = take s.len s.bytes; len = s.len }

own-IsSlice : (s : Slice) → s.len ≤ length s.bytes → IsSlice (own s)
own-IsSlice s h = omega (arith, length-take s.len s.bytes, h)

copy-own : (s : Slice) → s.len ≤ length s.bytes → copy s ≡ some (own s)
unfolding copy
copy-own s h = let e : leb s.len (length s.bytes) ≡ true = ground (arith, h) in rw e refl

module _ (slack : ℕ → List ℕ) (lru : Shiki) (sk sv : Slice) where
  pub get_absent : Ht.get lru.ht sk.bytes ≡ none → get slack lru sk ≡ some (none, lru)
  unfolding get
  get_absent absent = elim (Bool-cases (lru.buffer == 0)) [
    | inl e ↦ rw e refl
    | inr e ↦ rw (e, absent) refl
  ]

  module _ (hk : sk.len ≤ length sk.bytes) (hv : sv.len ≤ length sv.bytes)
      (named : c_str (own sk).bytes ≡ c_str sk.bytes) (absent : Ht.get lru.ht sk.bytes ≡ none) where
    own_absent : Ht.get lru.ht (own sk).bytes ≡ none
    own_absent = get_congr lru.ht (own sk).bytes sk.bytes named ∙ absent

    set-own : lru.buffer ≢ 0 → set slack lru sk sv ≡ set slack lru (own sk) (own sv)
    unfolding set set_absent add_node
    set-own on =
        let off : (lru.buffer == 0) ≡ false = ground arith in
        let k = copy-IsSlice (own sk) (own-IsSlice sk hk) in
        let v = copy-IsSlice (own sv) (own-IsSlice sv hv) in
        rw (off, absent, own_absent, set_absent, add_node, copy-own sk hk, copy-own sv hv, k, v)
          refl

-- What the cache needs to take a value for a key that it does not have: a NUL behind the key's copy,
-- and room in the cold list.
pub record Room (slack : ℕ → List ℕ) (lru : Shiki) (size : ℕ) : Type 0 where
  pub nul : c_str (slack lru.heap.next) ≡ []
  pub fits : (lru.level_old.used_size + size) % size_max < lru.level_old.allow_size

pub set-Room :
    (slack : ℕ → List ℕ) (lru : Shiki) (sk sv : Slice)
    → IsValid lru
    → sk.len ≤ length sk.bytes
    → sv.len ≤ length sv.bytes
    → c_str (own sk).bytes ≡ c_str sk.bytes
    → Ht.get lru.ht sk.bytes ≡ none
    → Room slack lru (sk.len + sv.len)
    → (lru' : Shiki) × (set slack lru sk sv ≡ some lru')
unfolding set
set-Room slack lru sk sv valid hk hv named absent room = elim (Bool-cases (lru.buffer == 0)) [
  | inl e ↦ (lru, rw e refl)
  | inr e ↦
      let on : lru.buffer ≢ 0 = ground (arith, e) in
      let (lru', run, _, _) =
        set-stored slack lru valid (own sk) (own sv) (own-IsSlice sk hk) (own-IsSlice sv hv)
          room.nul (own_absent slack lru sk sv hk hv named absent) on room.fits in
      (lru', set-own slack lru sk sv hk hv named absent on ∙ run)
]

-- A key of which the client sees nothing is not in the table.
pub absent-view :
    (lru : Shiki) (k : List ℕ) → IsValid lru → view lru k ≡ none → Ht.get lru.ht k ≡ none
unfolding view
absent-view lru k v e = elim (Option-cases (Ht.get lru.ht k)) [
  | inl f ↦ f
  | inr (p, f) ↦ let l = v.linked k p f in absurd (ground (arith, l.live, f, e))
]
