-- ===== src/Index/Merges.antt =====
-- What `_merge_job` of storage/src/index.c does to the maps of the index while no file is there.
use silokatana.Base.{
  ℕ, ◌*◌, ◌^◌, ◌<◌, ◌≤◌, ◌≡◌, refl, ap, sym, ◌∙◌, List, ◌++◌, Option, none, some, Bool, arith,
  subst, length, length-append,
}
use silokatana.Hiraishin
use silokatana.Base.CStr.{c_str}
use silokatana.Jikukan.{max_key_size, Jikukan, Opt, Entry}
use silokatana.Buffer.{int_bytes}
use silokatana.Log.{recalled}
use silokatana.Silopit.{
  Silopit, getoff-merge, recalled_entry, FitsEntry, IsFresh, silopit_max_count, HasFile,
}
use silokatana.Index.Defs.{Index, merge_job}
use silokatana.Index.Values.{StoredAt}
use silokatana.Index.Maps.{Map, empty, Refines, Says, Lists, Parks, Reported, empty-Reported}
use silokatana.Index.Disk.{Locates}
use silokatana.Index.Views.{Whole, view, above, behind}

-- An offset inside a value file of less than 2 ^ 31 bytes is recalled as it is.
pub recalled-StoredAt :
    (db : List ℕ) (off : ℕ) (v : List ℕ)
    → StoredAt db off v
    → length db < 2 ^ 31
    → recalled off ≡ off
recalled-StoredAt db off v s small =
    let low : off < 2 ^ 31 = omega (
      arith,
      s.place,
      small,
      ap length s.split,
      length-append s.before (int_bytes (length v) ++ (v ++ s.behind)),
    ) in
    ground (arith, low)

pub Locates-Says :
    (db : List ℕ) (e : Option Entry) (x : Option (Option (List ℕ)))
    → length db < 2 ^ 31
    → Says db e x
    → Locates db (recalled_entry e) x
Locates-Says db none none small s = refl
Locates-Says db none (some x) small s = absurd s
Locates-Says db (some e) none small s = absurd s
Locates-Says db (some (off, Opt.add)) (some none) small s = absurd s
Locates-Says db (some (off, Opt.add)) (some (some v)) small s =
    subst (λ a. StoredAt db a v) (sym (recalled-StoredAt db off v s small)) s
Locates-Says db (some (off, Opt.del)) (some none) small s = refl
Locates-Says db (some (off, Opt.del)) (some (some v)) small s = absurd s

-- The keys of a map fit their array, and those with a value have one length.
abbrev pub OfKeys : ℕ → Map → Type 0
OfKeys len m =
    (k : List ℕ) (x : Option (List ℕ))
    → m k ≡ some x
    → (length (c_str k) ≤ max_key_size) × ((v : List ℕ) → x ≡ some v → length (c_str k) ≡ len)

pub FitsEntry-Says :
    (db : List ℕ) (len : ℕ) (m : Map) (k : List ℕ) (e : Entry) (x : Option (Option (List ℕ)))
    → OfKeys len m
    → m k ≡ x
    → Says db (some e) x
    → FitsEntry len k e
FitsEntry-Says db len m k e none keys is s = absurd s
FitsEntry-Says db len m k (off, Opt.add) (some none) keys is s = absurd s
FitsEntry-Says db len m k (off, Opt.add) (some (some v)) keys is s =
    let (fit, one) = keys k (some v) is in (fit, λ a. (omega (arith, s.low), one v refl))
FitsEntry-Says db len m k (off, Opt.del) (some none) keys is s =
    ((keys k none is).0, λ a. absurd (ground (arith, a)))
FitsEntry-Says db len m k (off, Opt.del) (some (some v)) keys is s = absurd s

pub value_entry :
    (db : List ℕ) (e : Option Entry) (v : List ℕ)
    → Says db e (some (some v))
    → (off : ℕ) × (e ≡ some (off, Opt.add))
value_entry db none v s = absurd s
value_entry db (some (off, Opt.add)) v s = (off, refl)
value_entry db (some (off, Opt.del)) v s = absurd s

-- What must be for the first merge: a parked table, and no file yet.
pub record Mergeable (indx : Index) (list : Jikukan) : Type 0 where
  pub parks : indx.park.list ≡ some list
  pub no_file : IsFresh indx.silopit
  pub near : length indx.log.db < 2 ^ 31
  pub few : list.count ≤ silopit_max_count * 2

-- With nothing parked and other files.
abbrev pub written : Index → Silopit → Index
written indx s = record indx { silopit = s; park = record indx.park { list = none } }

pub written-Refines :
    (indx : Index) (m old : Map) (s : Silopit)
    → Refines indx m old
    → s.hiraishin ≡ indx.silopit.hiraishin
    → Refines (written indx s) m empty
written-Refines indx m old s r e = record {
  log = r.log;
  begun = r.begun;
  filter = subst Hiraishin.IsValid (sym e) r.filter;
  funcs = ap (λ h. h.hashfuncs) e ∙ r.funcs;
  reported = subst (λ h. Reported h m) (sym e) r.reported;
  reported_old = empty-Reported s.hiraishin;
  lists = r.lists;
  parks = λ k. refl;
  tables = r.tables;
}

view_moved : (x y : Option (Option (List ℕ))) → above x (behind none y) ≡ above x (behind y none)
view_moved (some x) y = refl
view_moved none none = refl
view_moved none (some none) = refl
view_moved none (some (some v)) = refl

module _ (stale : ℕ) (coin : ℕ → Bool) (indx : Index) (m old : Map) (list : Jikukan) (len : ℕ) where
  pub parks-Lists : Refines indx m old → indx.park.list ≡ some list → Lists indx.log.db list old
  parks-Lists r e = subst (λ p. Parks indx.log.db p old) e r.parks

  -- Where no file is there, the value file has less than 2 ^ 31 bytes, and a table is parked that has
  -- a value, at most 131,072 nodes, keys that fit their array, and one length for the keys with values,
  -- `_merge_job` does not fault: it leaves one file, nothing is parked after it, the memory table is as
  -- it was, the files have the map that the parked table had, and the value of every key under the
  -- three maps is as before.
  pub merge_job-Whole :
      Refines indx m old
      → Mergeable indx list
      → OfKeys len old
      → (k v : List ℕ) → old k ≡ some (some v)
      → (indx' : Index) × (merge_job stale coin indx ≡ some indx')
        × Whole indx' m empty old
        × (indx'.park.list ≡ none)
        × (indx'.list ≡ indx.list)
        × HasFile indx'.silopit len
        × ((j : List ℕ) → view m empty old j ≡ view m old empty j)
  unfolding merge_job
  merge_job-Whole r g keys k v has =
      let l = parks-Lists r g.parks in
      let (off, entered) =
        value_entry indx.log.db (l.table k) v
          (subst (λ x. Says indx.log.db (l.table k) x) has (l.says k)) in
      let fits : (j : List ℕ) (e : Entry) → l.table j ≡ some e → FitsEntry len j e = λ j e is.
        FitsEntry-Says indx.log.db len old j e (old j) keys refl
          (subst (λ x. Says indx.log.db x (old j)) is (l.says j)) in
      let (s, run, filter, one_file, gets) =
        getoff-merge stale coin indx.silopit len g.no_file list l.table l.refines fits g.few k off
          entered in
      (
        written indx s,
        rw (merge_job, g.parks, run) refl,
        record {
          refines = written-Refines indx m old s r filter;
          files = λ sk. (
            recalled_entry (l.table sk.bytes),
            gets sk,
            Locates-Says indx.log.db (l.table sk.bytes) (old sk.bytes) g.near (l.says sk.bytes),
          );
          reported = subst (λ h. Reported h old) (sym filter) r.reported_old;
        },
        refl,
        refl,
        one_file,
        λ j. view_moved (m j) (old j),
      )
