-- ===== src/Index/Maps.antt =====
-- The index as two maps from keys to values: of the memory table, and of the table that is parked. A
-- key that neither has is looked for in the files of offsets.
use silokatana.Base.{
  ℕ, ◌<◌, ◌≡◌, refl, sym, ◌∙◌, List, [], ◌∷◌, ◌++◌, Option, none, some, Bool-cases, true, false,
  inl, inr, length, if◌then◌else◌, arith,
}
use silokatana.Base.CStr.{str_eq, str_eq_iff}
use silokatana.Util.{sax_hash, djb_hash}
use silokatana.Hiraishin
use silokatana.Hiraishin.{get-add, get-add_self, get-c_str, add-IsValid}
use silokatana.Jikukan.{Jikukan, Opt, put, Entry}
use silokatana.Jikukan
use silokatana.Log.{IsOpen}
use silokatana.Index.Defs.{Index}
use silokatana.Index.Values.{StoredAt, StoredAt-append}

-- A key has a value, or is deleted, or nothing is known of it.
abbrev pub Map : Type 0
Map = List ℕ → Option (Option (List ℕ))

abbrev pub empty : Map
empty k = none

abbrev pub assign : Map → List ℕ → Option (List ℕ) → Map
assign m key x k = if str_eq k key then some x else m k

-- What the entry of a key says of its value, which an addition has in the value file.
abbrev pub Says : List ℕ → Option Entry → Option (Option (List ℕ)) → Type 0
Says db none none = Unit
Says db none (some x) = ⊥
Says db (some e) none = ⊥
Says db (some (off, Opt.add)) (some none) = ⊥
Says db (some (off, Opt.add)) (some (some v)) = StoredAt db off v
Says db (some (off, Opt.del)) (some none) = Unit
Says db (some (off, Opt.del)) (some (some v)) = ⊥

-- A list says what a map says.
pub record Lists (db : List ℕ) (list : Jikukan) (m : Map) : Type 0 where
  pub table : List ℕ → Option Entry
  pub refines : Jikukan.Refines list table
  pub says : (k : List ℕ) → Says db (table k) (m k)

abbrev pub Parks : List ℕ → Option Jikukan → Map → Type 0
Parks db none m = (k : List ℕ) → m k ≡ none
Parks db (some list) m = Lists db list m

-- The filter reports the keys that have a value.
abbrev pub Reported : Hiraishin.Hiraishin → Map → Type 0
Reported h m = (k v : List ℕ) → m k ≡ some (some v) → Hiraishin.get h (some k) ≡ 1

pub record Refines (indx : Index) (m old : Map) : Type 0 where
  pub log : IsOpen indx.log
  pub begun : 0 < length indx.log.db
  pub filter : Hiraishin.IsValid indx.silopit.hiraishin
  pub funcs : indx.silopit.hiraishin.hashfuncs ≡ sax_hash ∷ djb_hash ∷ []
  pub reported : Reported indx.silopit.hiraishin m
  pub reported_old : Reported indx.silopit.hiraishin old
  pub lists : Lists indx.log.db indx.list m
  pub parks : Parks indx.log.db indx.park.list old
  pub tables : 0 < indx.max_mtbl_size

Says-append :
    (db bytes : List ℕ) (e : Option Entry) (x : Option (Option (List ℕ)))
    → Says db e x
    → Says (db ++ bytes) e x
Says-append db bytes none none s = s
Says-append db bytes none (some x) s = s
Says-append db bytes (some e) none s = s
Says-append db bytes (some (off, Opt.add)) (some none) s = s
Says-append db bytes (some (off, Opt.add)) (some (some v)) s = StoredAt-append db off v bytes s
Says-append db bytes (some (off, Opt.del)) (some none) s = s
Says-append db bytes (some (off, Opt.del)) (some (some v)) s = s

pub Lists-append :
    (db bytes : List ℕ) (list : Jikukan) (m : Map) → Lists db list m → Lists (db ++ bytes) list m
Lists-append db bytes list m l = record {
  table = l.table;
  refines = l.refines;
  says = λ k. Says-append db bytes (l.table k) (m k) (l.says k);
}

pub Parks-append :
    (db bytes : List ℕ) (park : Option Jikukan) (m : Map)
    → Parks db park m
    → Parks (db ++ bytes) park m
Parks-append db bytes none m p = p
Parks-append db bytes (some list) m p = Lists-append db bytes list m p

pub Says-assign :
    (db : List ℕ) (table : List ℕ → Option Entry) (m : Map) (key : List ℕ) (e : Entry)
    (x : Option (List ℕ))
    → ((k : List ℕ) → Says db (table k) (m k))
    → Says db (some e) (some x)
    → (k : List ℕ) → Says db (put table key e k) (assign m key x k)
Says-assign db table m key e x old now k = elim (Bool-cases (str_eq k key)) [
  | inl same ↦ rw same now
  | inr other ↦ rw other (old k)
]

pub assign_other :
    (m : Map) (key : List ℕ) (x : Option (List ℕ)) (k : List ℕ)
    → str_eq k key ≡ false
    → assign m key x k ≡ m k
assign_other m key x k e = rw e refl

assign_same :
    (m : Map) (key : List ℕ) (x : Option (List ℕ)) (k : List ℕ)
    → str_eq k key ≡ true
    → assign m key x k ≡ some x
assign_same m key x k e = rw e refl

-- The key that is added is reported, and every key that was stays so.
pub Reported-add :
    (h : Hiraishin.Hiraishin) (m : Map) (key : List ℕ) (x : List ℕ)
    → Hiraishin.IsValid h
    → h.hashfuncs ≡ sax_hash ∷ djb_hash ∷ []
    → Reported h m
    → Reported (Hiraishin.add h (some key)) (assign m key (some x))
unfolding Hiraishin.add
Reported-add h m key x v funcs old k w has = elim (Bool-cases (str_eq k key)) [
  | inl same ↦
      get-c_str (Hiraishin.add h (some key)) k key funcs ((str_eq_iff k key).0 same)
      ∙ get-add_self h key v
  | inr other ↦ get-add h key k v (old k w (sym (assign_other m key (some x) k other) ∙ has))
]

pub Reported-keep :
    (h : Hiraishin.Hiraishin) (m : Map) (key : List ℕ)
    → Hiraishin.IsValid h
    → Reported h m
    → Reported (Hiraishin.add h (some key)) m
Reported-keep h m key v old k w has = get-add h key k v (old k w has)

pub Reported-deleted :
    (h : Hiraishin.Hiraishin) (m : Map) (key : List ℕ)
    → Reported h m
    → Reported h (assign m key none)
Reported-deleted h m key old k w has = elim (Bool-cases (str_eq k key)) [
  | inl same ↦ absurd (ground (arith, has, assign_same m key none k same))
  | inr other ↦ old k w (sym (assign_other m key none k other) ∙ has)
]

pub empty-Reported : (h : Hiraishin.Hiraishin) → Reported h empty
empty-Reported h k v e = absurd (ground (arith, e))
