-- ===== src/Examples/Merging.antt =====
-- An index whose parked table goes to the first file (storage/src/index.c, storage/src/silopit.c).
use silokatana.Base.{
  ℕ, ◌+◌, ◌*◌, ◌≤◌, ◌≡◌, ap, ◌∙◌, inl, inr, Bool-cases, refl, true, false, Option, some, none, List,
  ◌++◌, length, arith, false, false, false,
}
use silokatana.Base.CStr.{c_str, str_eq, str_eq_iff, strcmp, lex}
use silokatana.Buffer
use silokatana.Buffer.{new-Holds}
use silokatana.Hiraishin
use silokatana.Jikukan
use silokatana.Jikukan.{
  Jikukan, Opt, Entry, SkipNode, put, Refines, new-Refines, insert, insert-Refines, max_key_size,
  lookup,
}
use silokatana.Level.{Slice}
use silokatana.Log.{Log, value_bytes, payload}
use silokatana.Meta
use silokatana.Silopit.{
  HasFile, Silopit, IsFresh, FitsEntry, recalled_entry, getoff, getoff-merge, merge,
  silopit_max_count,
}
use silokatana.Index
use silokatana.Index.{
  Index, Got, Map, Whole, view, get, get-view, add, add_room, Grows, Whole-Grows, merge_job,
  merge_job-Whole, Mergeable, OfKeys, assign, empty, empty-Reported, Reported-add, new-Lists, Lists,
  Says, Says-assign, StoredAt-value_bytes, Tells,
}
use silokatana.Examples.Log.{fresh, name, text}
use silokatana.Examples.Index.{tails, no_files, index_of}

no_files-IsFresh : IsFresh no_files
unfolding Meta.new
no_files-IsFresh = record { no_files = refl; empty = (new-Holds 100 (omega arith)).0 }

abbrev pub nothing : List ℕ → Option Entry
nothing k = none

-- The value of the name stands behind the magic.
abbrev pub table : List ℕ → Option Entry
table = put nothing name.bytes (4, Opt.add)

pub name_fits : length (c_str name.bytes) ≤ max_key_size
unfolding c_str
name_fits = omega arith

pub name_one : length (c_str name.bytes) ≡ 1
unfolding c_str
name_one = refl

pub name_same : str_eq name.bytes name.bytes ≡ true
unfolding str_eq strcmp lex c_str
name_same = refl

pub with_name :
    (list' : Jikukan) × (insert tails (Jikukan.new 2) name.bytes 4 Opt.add ≡ some (1, list'))
    × Refines list' table
    × (list'.size ≡ (Jikukan.new 2).size)
    × (list'.count ≤ (Jikukan.new 2).count + 1)
unfolding Jikukan.new
with_name =
    insert-Refines tails (Jikukan.new 2) nothing name.bytes 4 Opt.add (new-Refines 2) (omega arith)
      name_fits

abbrev pub filled : Jikukan
filled = with_name.0

pub filled_few : filled.count ≤ silopit_max_count * 2
unfolding Jikukan.new
filled_few = omega (arith, with_name.4)

table_fits : (k : List ℕ) (e : Entry) → table k ≡ some e → FitsEntry 1 k e
table_fits k (off, opt) is = elim (Bool-cases (str_eq k name.bytes)) [
  | inl same ↦
      let bytes : length (c_str k) ≡ 1 = ap length ((str_eq_iff k name.bytes).0 same) ∙ name_one in
      let at : off ≡ 4 = ground (arith, is, same) in
      (omega (arith, bytes), λ a. (omega (arith, at), bytes))
  | inr other ↦ absurd (ground (arith, is, other))
]

table_name : table name.bytes ≡ some (4, Opt.add)
table_name = rw name_same refl

getoff-merge_example :
    (s' : Silopit) × (merge 0 tails no_files filled false ≡ some s')
    × (s'.hiraishin ≡ no_files.hiraishin)
    × HasFile s' 1
    × ((sk : Slice) → getoff s' sk ≡ some (recalled_entry (table sk.bytes), s'))
getoff-merge_example =
    getoff-merge 0 tails no_files 1 no_files-IsFresh filled table with_name.2 table_fits filled_few
      name.bytes 4 table_name

-- The index with the name's value, whose table is parked.
abbrev pub written_log : Log
written_log = record fresh {
  db = fresh.db ++ value_bytes (some text);
  db_alloc = length (fresh.db ++ value_bytes (some text));
}

abbrev pub stored : Map
stored = assign empty name.bytes (some (payload text))

abbrev pub reporting : Silopit
reporting = record no_files { hiraishin = Hiraishin.add Hiraishin.new (some name.bytes) }

abbrev pub parking : Index
parking = record (index_of 2) {
  log = written_log;
  silopit = reporting;
  park = record { list = some filled; lsn = 0 };
}

pub filled-Lists : Lists written_log.db filled stored
filled-Lists = record {
  table = table;
  refines = with_name.2;
  says =
      Says-assign written_log.db nothing empty name.bytes (4, Opt.add) (some (payload text))
        (λ k. tt)
        (StoredAt-value_bytes fresh.db text refl (omega arith) (omega arith) (omega arith));
}

pub parking-Refines : Index.Refines parking empty stored
unfolding Hiraishin.new Hiraishin.add
parking-Refines = record {
  log = record {
    logs = refl;
    buf = (new-Holds 100 (omega arith)).0;
    db_buf = (new-Holds 100 (omega arith)).0;
    at_end = refl;
  };
  begun = omega arith;
  filter = Hiraishin.add-IsValid Hiraishin.new (some name.bytes) Hiraishin.new-IsValid;
  funcs = refl;
  reported = empty-Reported reporting.hiraishin;
  reported_old =
      Reported-add Hiraishin.new empty name.bytes (payload text) Hiraishin.new-IsValid refl
        (empty-Reported Hiraishin.new);
  lists = new-Lists written_log.db 2;
  parks = filled-Lists;
  tables = omega arith;
}

parking-Mergeable : Mergeable parking filled
unfolding Buffer.int_bytes Meta.new
parking-Mergeable = record {
  parks = refl;
  no_file = record { no_files = refl; empty = (new-Holds 100 (omega arith)).0 };
  near = omega arith;
  few = filled_few;
}

pub stored-OfKeys : OfKeys 1 stored
stored-OfKeys k x is = elim (Bool-cases (str_eq k name.bytes)) [
  | inl same ↦
      let bytes : length (c_str k) ≡ 1 = ap length ((str_eq_iff k name.bytes).0 same) ∙ name_one in
      (omega (arith, bytes), λ v e. bytes)
  | inr other ↦ absurd (ground (arith, is, other))
]

pub stored_name : stored name.bytes ≡ some (some (payload text))
stored_name = rw name_same refl

merge_job-Whole_example :
    (indx' : Index) × (merge_job 0 tails parking ≡ some indx')
    × Whole indx' empty empty stored
    × (indx'.park.list ≡ none)
    × (indx'.list ≡ parking.list)
    × HasFile indx'.silopit 1
    × ((j : List ℕ) → view empty empty stored j ≡ view empty stored empty j)
merge_job-Whole_example =
    merge_job-Whole 0 tails parking empty stored filled 1 parking-Refines parking-Mergeable
      stored-OfKeys name.bytes (payload text) stored_name

merged_index :
    (indx' : Index) × (merge_job 0 tails parking ≡ some indx')
    × Whole indx' empty empty stored
    × (indx'.park.list ≡ none)
    × (indx'.list ≡ parking.list)
    × HasFile indx'.silopit 1
    × ((j : List ℕ) → view empty empty stored j ≡ view empty stored empty j)
merged_index =
    merge_job-Whole 0 tails parking empty stored filled 1 parking-Refines parking-Mergeable
      stored-OfKeys name.bytes (payload text) stored_name

get-view_example :
    (got : Got) × (indx' : Index) × (get merged_index.0 name ≡ some (got, indx'))
    × Tells (view empty empty stored name.bytes) got
    × Whole indx' empty empty stored
get-view_example = get-view merged_index.0 empty empty stored name merged_index.2
