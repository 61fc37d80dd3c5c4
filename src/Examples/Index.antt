-- ===== src/Examples/Index.antt =====
-- An index, empty at first (storage/src/index.c).
use silokatana.Base.{
  Option, ◌-◌, sym, ap, ◌∙◌, ℕ, ◌+◌, ◌^◌, ◌<◌, ◌≤◌, ◌≡◌, refl, true, false, some, none, [], Bool,
  length, arith,
}
use silokatana.Base.CStr.{c_str, str_eq, strcmp, lex}
use silokatana.Buffer
use silokatana.Hiraishin
use silokatana.Jikukan
use silokatana.Jikukan.{max_key_size, Jikukan}
use silokatana.Log.{Log, value_bytes, Op}
use silokatana.Log
use silokatana.Meta
use silokatana.Silopit.{Silopit, Directory}
use silokatana.Index
use silokatana.Index.{
  new-Refines, Index, Got, Map, empty, assign, Refines, Tells, slice_value, value, add, get,
  add-Refines, add-Refines_full, get-Refines, get-parked, new-Lists, empty-Reported,
}
use silokatana.Examples.Log.{write_all, fresh, fresh-IsOpen, name, name-Fits, text, text-Fits}

abbrev pub tails : ℕ → Bool
tails draw = false

abbrev pub no_files : Silopit
no_files = record {
  name = [];
  meta = Meta.new;
  hiraishin = Hiraishin.new;
  buf = Buffer.new 100;
  files = λ n. none;
}

-- An index whose memory tables take `size` keys.
abbrev pub index_of : ℕ → Index
index_of size = record {
  lsn = 0;
  bg_merge_count = 0;
  mtbl_rem_count = 0;
  max_mtbl_size = 2;
  hiraishin_hits = 0;
  log = fresh;
  silopit = no_files;
  list = Jikukan.new size;
  park = record { list = none; lsn = 0 };
}

pub index_of-Refines : (size : ℕ) → Refines (index_of size) empty empty
unfolding Hiraishin.new
index_of-Refines size = record {
  log = fresh-IsOpen;
  begun = omega arith;
  filter = Hiraishin.new-IsValid;
  funcs = refl;
  reported = empty-Reported Hiraishin.new;
  reported_old = empty-Reported Hiraishin.new;
  lists = new-Lists fresh.db size;
  parks = λ k. refl;
  tables = omega arith;
}

name_fits : length (c_str name.bytes) ≤ max_key_size
unfolding c_str
name_fits = omega arith

text_space : 4 + length (value_bytes (some text)) < 2 ^ 63
unfolding Buffer.int_bytes
text_space = omega arith

size_room : (Jikukan.new 2).count < (Jikukan.new 2).size
unfolding Jikukan.new
size_room = omega arith

one_room : (Jikukan.new 1).count < (Jikukan.new 1).size
unfolding Jikukan.new
one_room = omega arith

abbrev stored : Map
stored = assign empty name.bytes (some text.bytes)

add-Refines_example :
    (indx' : Index) × (add write_all tails (index_of 2) name (some text) ≡ some (1, indx'))
    × Refines indx' stored empty
add-Refines_example =
    add-Refines write_all tails (λ f b. refl) (index_of 2) empty empty name (some text)
      (index_of-Refines 2) name-Fits text-Fits name_fits text_space size_room

-- An index whose memory table takes one key, and has it.
with_one :
    (indx' : Index) × (add write_all tails (index_of 1) name (some text) ≡ some (1, indx'))
    × Refines indx' stored empty
with_one =
    add-Refines write_all tails (λ f b. refl) (index_of 1) empty empty name (some text)
      (index_of-Refines 1) name-Fits text-Fits name_fits text_space one_room

-- What the table has room for, and the length of the value file.
abbrev left : Option (ℕ × Index) → ℕ × ℕ
left none = (1, 0)
left (some (ret, indx)) = (indx.list.size - indx.list.count, length indx.log.db)

left_none : left (add write_all tails (index_of 1) name (some text)) ≡ (0, 10)
unfolding add Index.note Jikukan.notfull Jikukan.insert Jikukan.new Jikukan.descend Jikukan.seek
    Jikukan.has_key Jikukan.add_node Jikukan.key_array Jikukan.new_level Jikukan.link
    Jikukan.set_forward Jikukan.pool_alloc Log.append Log.put_value Log.put_index Log.read_cells
    c_str strcmp lex str_eq Buffer.putint Buffer.push Buffer.write_at Buffer.extend_by Buffer.new
    Buffer.next_power Buffer.int_bytes Buffer.putnstr Buffer.terminate Buffer.detach Buffer.putlong
    Buffer.long_bytes
left_none = refl

one_left : left (some (1, with_one.0)) ≡ (0, 10)
one_left = sym (ap left with_one.1) ∙ left_none

one_full : with_one.0.list.size ≤ with_one.0.list.count
one_full = omega (arith, ap (λ p. p.0) one_left)

one_space : length with_one.0.log.db + length (value_bytes (some text)) < 2 ^ 63
unfolding Buffer.int_bytes
one_space = omega (arith, ap (λ p. p.1) one_left)

-- The table with the name is parked.
add-Refines_full_example :
    (indx' : Index) × (add write_all tails with_one.0 name (some text) ≡ some (1, indx'))
    × Refines indx' stored stored
add-Refines_full_example =
    add-Refines_full write_all tails (λ f b. refl) with_one.0 stored empty name (some text)
      with_one.2 name-Fits text-Fits name_fits one_space one_full

-- The index with the name's value.
with_text :
    (indx' : Index) × (add write_all tails (index_of 2) name (some text) ≡ some (1, indx'))
    × Refines indx' stored empty
with_text =
    add-Refines write_all tails (λ f b. refl) (index_of 2) empty empty name (some text)
      (index_of-Refines 2) name-Fits text-Fits name_fits text_space size_room

name_stored : stored name.bytes ≡ some (some text.bytes)
unfolding str_eq strcmp lex c_str
name_stored = refl

get-Refines_example :
    (got : Got) × (indx' : Index) × (get with_text.0 name ≡ some (got, indx'))
    × Tells (some text.bytes) got
    × Refines indx' stored empty
get-Refines_example =
    get-Refines with_text.0 stored empty name with_text.2 (some text.bytes) name_stored

abbrev put : Op
put = record { sk = name; sv = some text }

abbrev forget : Op
forget = record { sk = name; sv = none }

abbrev no_directory : Directory
no_directory n = none

new-Refines_example :
    (indx : Index) × (Index.new 0 tails write_all no_directory [] none [] true 2 true ≡ some indx)
    × Refines indx empty empty
new-Refines_example = new-Refines write_all tails (λ f b. refl) 0 no_directory true 2 (omega arith)
