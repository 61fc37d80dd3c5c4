-- ===== src/Index/Disk.antt =====
-- What the files of offsets say of the keys of an index.
use silokatana.Base.{
  ℕ, ◌≡◌, refl, ap, ◌∙◌, List, ◌++◌, Option, none, some, inl, inr, get_elem?, Option-cases,
}
use silokatana.Hiraishin
use silokatana.Level.{Slice}
use silokatana.Meta
use silokatana.Silopit.{Silopit, getoff, getoff_at, read_offset, IsFresh}
use silokatana.Index.Values.{StoredAt, StoredAt-append}
use silokatana.Index.Maps.{Map, empty}

-- What an offset that was found says of a key's value, 0 for none.
abbrev pub Locates : List ℕ → ℕ → Option (Option (List ℕ)) → Type 0
Locates db off none = off ≡ 0
Locates db off (some none) = off ≡ 0
Locates db off (some (some v)) = StoredAt db off v

-- The files give each key the offset of the value that the map has for it.
abbrev pub OnDisk : List ℕ → Silopit → Map → Type 0
OnDisk db s disk =
    (sk : Slice) → (off : ℕ) × (getoff s sk ≡ some (off, s)) × Locates db off (disk sk.bytes)

Locates-append :
    (db bytes : List ℕ) (off : ℕ) (x : Option (Option (List ℕ)))
    → Locates db off x
    → Locates (db ++ bytes) off x
Locates-append db bytes off none h = h
Locates-append db bytes off (some none) h = h
Locates-append db bytes off (some (some v)) h = StoredAt-append db off v bytes h

-- The search of the files does not go by the filter.
module _ (s : Silopit) (h : Hiraishin.Hiraishin) (sk : Slice) where
  abbrev filtered : Silopit
  filtered = record s { hiraishin = h }

  abbrev refiltered : Option (ℕ × Silopit) → Option (ℕ × Silopit)
  refiltered none = none
  refiltered (some (off, t)) = some (off, record t { hiraishin = h })

  getoff_at-filter : (i : ℕ) → getoff_at filtered sk i ≡ refiltered (getoff_at s sk i)
  unfolding getoff_at
  getoff_at-filter i = elim (Option-cases (get_elem? s.meta.nodes i)) [
    | inl e ↦ rw (getoff_at, e) refl
    | inr (mn, e) ↦ elim (Option-cases (read_offset (s.files mn.index_name) sk.bytes)) [
      | inl r ↦ rw (getoff_at, e, r) refl
      | inr (off, r) ↦ rw (getoff_at, e, r) refl
    ]
  ]

  getoff-filter : getoff filtered sk ≡ refiltered (getoff s sk)
  unfolding getoff
  getoff-filter = elim (Option-cases (Meta.get s.meta sk.bytes)) [
    | inl e ↦ rw (getoff, e) refl
    | inr (none, e) ↦ rw (getoff, e) refl
    | inr (some i, e) ↦ rw (getoff, e) (getoff_at-filter i)
  ]

pub OnDisk-append :
    (db bytes : List ℕ) (s : Silopit) (h : Hiraishin.Hiraishin) (disk : Map)
    → OnDisk db s disk
    → OnDisk (db ++ bytes) (record s { hiraishin = h }) disk
OnDisk-append db bytes s h disk d sk =
    let (off, run, l) = d sk in
    (
      off,
      getoff-filter s h sk ∙ ap (refiltered s h sk) run,
      Locates-append db bytes off (disk sk.bytes) l,
    )

-- Where no file is there, no key has a value in one.
pub fresh-OnDisk : (db : List ℕ) (s : Silopit) → IsFresh s → OnDisk db s empty
unfolding getoff
fresh-OnDisk db s f sk =
    let missed : Meta.get s.meta sk.bytes ≡ some none = Meta.get-none s.meta sk.bytes f.no_files in
    (0, rw (getoff, missed) refl, refl)
