-- ===== src/Examples/Memory.antt =====
-- A memory table (storage/src/jikukan.c).
use silokatana.Base.{
  ℕ, ◌+◌, ◌<◌, ◌≤◌, ◌≡◌, false, some, none, Option, List, [], ◌∷◌, Bool, length, arith,
  if◌then◌else◌, ◌==◌, true,
}
use silokatana.Base.CStr.{c_str}
use silokatana.Jikukan.{
  Jikukan, Opt, Entry, put, Refines, new-Refines, insert, insert-Refines, insert_full, max_key_size,
}
use silokatana.Jikukan.{SkipNode, lookup}
use silokatana.Silopit.{first_node, Rising, find_key, lookup-find_key}
use silokatana.Jikukan

-- The second node gets a second level.
abbrev coin : ℕ → Bool
coin draw = if draw == 0 then true else false

abbrev key_b : List ℕ
key_b = 66 ∷ 0 ∷ []

abbrev key_a : List ℕ
key_a = 65 ∷ 0 ∷ []

b_fits : length (c_str key_b) ≤ max_key_size
unfolding c_str
b_fits = omega arith

a_fits : length (c_str key_a) ≤ max_key_size
unfolding c_str
a_fits = omega arith

abbrev nothing : List ℕ → Option Entry
nothing k = none

abbrev Grown : Jikukan → ℕ → (List ℕ → Option Entry) → List ℕ → ℕ → Type 0
Grown list count m key val =
    (list' : Jikukan) × (insert coin list key val Opt.add ≡ some (1, list'))
    × Refines list' (put m key (val, Opt.add))
    × (list'.size ≡ list.size)
    × (list'.count ≤ count + 1)

with_b : Grown (Jikukan.new 2) 0 nothing key_b 7
unfolding Jikukan.new
with_b =
    insert-Refines coin (Jikukan.new 2) nothing key_b 7 Opt.add (new-Refines 2) (omega arith) b_fits

abbrev list_b : Jikukan
list_b = with_b.0

b_room : list_b.count < list_b.size
unfolding Jikukan.new
b_room = omega (arith, with_b.3, with_b.4)

insert-Refines_example : Grown list_b list_b.count (put nothing key_b (7, Opt.add)) key_a 9
insert-Refines_example =
    insert-Refines coin list_b (put nothing key_b (7, Opt.add)) key_a 9 Opt.add with_b.2 b_room
      a_fits

lookup-find_key_example :
    (xs : List SkipNode) × (first_node list_b ≡ some xs)
    × (length xs ≡ list_b.count)
    × Rising xs
    × ((k : List ℕ) → lookup list_b k ≡ some (find_key xs k))
lookup-find_key_example = lookup-find_key list_b with_b.2.valid
