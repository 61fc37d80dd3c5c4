-- ===== src/Index/Views.antt =====
-- The index of storage/src/index.c as three maps: of the memory table, of the parked one, and of the
-- files of offsets.
use silokatana.Base.{
  ℕ, ◌≡◌, ◌⊎◌, refl, List, Option, none, some, Bool-cases, Option-cases, false, inl, inr, ◌==◌,
  arith,
}
use silokatana.Hiraishin
use silokatana.Jikukan.{Jikukan}
use silokatana.Level.{Slice}
use silokatana.Silopit.{getoff}
use silokatana.Index.Defs.{Index, Got, missing, deleted, value, get, find, fetch, parked}
use silokatana.Index.Values.{slice_value, read_value-StoredAt}
use silokatana.Index.Maps.{Map, Refines, Reported, Parks}
use silokatana.Index.Gets.{
  Tells, hit, hit-Refines, Lists-FindsValue, Lists-FindsDeleted, Lists-none, parked-StoredAt,
  fetch-StoredAt,
}
use silokatana.Index.Disk.{OnDisk, Locates}

pub record Whole (indx : Index) (m old disk : Map) : Type 0 where
  pub refines : Refines indx m old
  pub files : OnDisk indx.log.db indx.silopit disk
  pub reported : Reported indx.silopit.hiraishin disk

abbrev pub known : Option (Option (List ℕ)) → Option (List ℕ)
known none = none
known (some x) = x

-- A deletion in the parked table does not hide what the files have.
abbrev pub behind : Option (Option (List ℕ)) → Option (Option (List ℕ)) → Option (List ℕ)
behind (some (some v)) y = some v
behind (some none) y = known y
behind none y = known y

abbrev pub above : Option (Option (List ℕ)) → Option (List ℕ) → Option (List ℕ)
above none y = y
above (some x) y = x

-- The value of a key under the three maps.
abbrev pub view : Map → Map → Map → List ℕ → Option (List ℕ)
view m old disk k = above (m k) (behind (old k) (disk k))

-- A key that has a value has it in one of the maps.
view-cases :
    (m old disk : Map) (k v : List ℕ)
    → view m old disk k ≡ some v
    → (m k ≡ some (some v)) ⊎ (old k ≡ some (some v)) ⊎ (disk k ≡ some (some v))
view-cases m old disk k v h = ground arith

module _ (indx : Index) (m old disk : Map) (sk : Slice) (w : Whole indx m old disk) where
  pub hit-Whole : Whole (hit indx) m old disk
  hit-Whole = record {
    refines = hit-Refines indx m old sk w.refines;
    files = w.files;
    reported = w.reported;
  }

  -- An answer that leaves the index as it is.
  abbrev Answers : Option (Got × Index) → Option (List ℕ) → Type 0
  Answers r x = (got : Got) × (r ≡ some (got, indx)) × Tells x got

  fetch-Locates :
      (off : ℕ) (x : Option (Option (List ℕ)))
      → getoff indx.silopit sk ≡ some (off, indx.silopit)
      → Locates indx.log.db off x
      → Answers (fetch indx sk 0) (known x)
  unfolding fetch
  fetch-Locates off none run h = (missing, rw (fetch, run, h) refl, inl refl)
  fetch-Locates off (some none) run h = (missing, rw (fetch, run, h) refl, inl refl)
  fetch-Locates off (some (some v)) run h =
      let e : (off == 0) ≡ false = ground (arith, h.later) in
      (
        value (slice_value v),
        rw (fetch, run, e, read_value-StoredAt indx.log.db off v h) refl,
        refl,
      )

  fetch-files : Answers (fetch indx sk 0) (known (disk sk.bytes))
  fetch-files = let (off, run, h) = w.files sk in fetch-Locates off (disk sk.bytes) run h

  parked-none :
      (park : Option Jikukan)
      → Parks indx.log.db park old
      → (old sk.bytes ≡ none) ⊎ (old sk.bytes ≡ some none)
      → parked park sk ≡ some 0
  unfolding parked
  parked-none none p h = refl
  parked-none (some list) p (inl h) = rw (parked, Lists-none indx.log.db list old p sk.bytes h) refl
  parked-none (some list) p (inr h) =
      let f = Lists-FindsDeleted indx.log.db list old p sk.bytes h in rw (parked, f.run, f.opt) refl

  find_behind : m sk.bytes ≡ none → Answers (find indx sk) (behind (old sk.bytes) (disk sk.bytes))
  unfolding find
  find_behind h =
      let absent = Lists-none indx.log.db indx.list m w.refines.lists sk.bytes h in
      elim (Option-cases (old sk.bytes)) [
        | inl o ↦
            let zero_ = parked-none indx.park.list w.refines.parks (inl o) in
            rw (find, absent, zero_, o) fetch-files
        | inr (none, o) ↦
            let zero_ = parked-none indx.park.list w.refines.parks (inr o) in
            rw (find, absent, zero_, o) fetch-files
        | inr (some v, o) ↦
            let (off, has, s) =
              parked-StoredAt indx m old sk w.refines indx.park.list v w.refines.parks o in
            let e : behind (old sk.bytes) (disk sk.bytes) ≡ some v = rw o refl in
            (
              value (slice_value v),
              rw (find, absent, has) (fetch-StoredAt indx sk off v s),
              rw o refl,
            )
      ]

  pub find-view : Answers (find indx sk) (view m old disk sk.bytes)
  unfolding find
  find-view = elim (Option-cases (m sk.bytes)) [
    | inl h ↦ rw h (find_behind h)
    | inr (none, h) ↦
        let f = Lists-FindsDeleted indx.log.db indx.list m w.refines.lists sk.bytes h in
        rw h (deleted, rw (find, f.run, f.opt) refl, inr refl)
    | inr (some v, h) ↦
        let f = Lists-FindsValue indx.log.db indx.list m w.refines.lists sk.bytes v h in
        rw h (
          value (slice_value v),
          rw (find, f.run, f.opt) (fetch-StoredAt indx sk f.node.val v f.stored),
          refl,
        )
  ]

module _ (indx : Index) (m old disk : Map) (sk : Slice) (w : Whole indx m old disk) where
  view_reported :
      (v : List ℕ)
      → view m old disk sk.bytes ≡ some v
      → Hiraishin.get indx.silopit.hiraishin (some sk.bytes) ≡ 1
  view_reported v h = elim (view-cases m old disk sk.bytes v h) [
    | inl e ↦ w.refines.reported sk.bytes v e
    | inr (inl e) ↦ w.refines.reported_old sk.bytes v e
    | inr (inr e) ↦ w.reported sk.bytes v e
  ]

  pub get-view_kept :
      (got : Got) × (indx' : Index) × (get indx sk ≡ some (got, indx'))
      × Tells (view m old disk sk.bytes) got
      × Whole indx' m old disk
      × (indx'.silopit ≡ indx.silopit)
  unfolding get
  get-view_kept = elim (Bool-cases (Hiraishin.get indx.silopit.hiraishin (some sk.bytes) == 0)) [
    | inr e ↦
        let (got, run, tells) =
          find-view (hit indx) m old disk sk (hit-Whole indx m old disk sk w) in
        (got, hit indx, rw e run, tells, hit-Whole indx m old disk sk w, refl)
    | inl e ↦ elim (Option-cases (view m old disk sk.bytes)) [
      | inl none_ ↦ (missing, indx, rw e refl, rw none_ (inl refl), w, refl)
      | inr (v, h) ↦ absurd (ground (arith, e, view_reported v h))
    ]
  ]

  -- For every key `index_get` does not fault, and changes none of the three maps: it returns 1 and the
  -- value with its length where the memory table has one for the key, or, if it does not have the key,
  -- the parked table has one, or, if that has none either, the files have one. Otherwise it returns 0
  -- or -1.
  pub get-view :
      (got : Got) × (indx' : Index) × (get indx sk ≡ some (got, indx'))
      × Tells (view m old disk sk.bytes) got
      × Whole indx' m old disk
  get-view = let (got, next, run, tells, w', _) = get-view_kept in (got, next, run, tells, w')
