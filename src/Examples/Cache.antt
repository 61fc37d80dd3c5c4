-- ===== src/Examples/Cache.antt =====
-- A cache with one value, and the fault of a full one (storage/src/shiki.c).
use silokatana.Base.{
  Bool-cases, inl, inr, ℕ, ◌+◌, ◌*◌, ◌/◌, ◌%◌, ◌<◌, ◌≡◌, ◌≢◌, refl, none, some, List, [], ◌∷◌,
  arith, replicate, ◌^◌, if◌then◌else◌,
}
use silokatana.Base.CStr.{c_str, str_eq, strcmp, lex}
use silokatana.Ht
use silokatana.Level
use silokatana.Base.Int.{is_minus_one, above, incr}
use silokatana.Level.{Slice, LevelNode}
use silokatana.Util.{djb_hash, char_word}
use silokatana.Shiki.{
  set_absent, add_node, copy, set_node, touch_cold, make_room, promote, stay_cold, Shiki, new, set,
  get, remove, IsValid, view, new-IsValid, set-stored, remove-view, HasRoom, get_hit,
}

abbrev clean : ℕ → List ℕ
clean p = 0 ∷ []

clean-nul : (p : ℕ) → c_str (clean p) ≡ []
unfolding c_str
clean-nul p = refl

abbrev golden : ℕ → ℕ
golden n = n * 618 / 1000

abbrev cache : Shiki
cache = new golden 2000

cache-IsValid : IsValid cache
cache-IsValid = new-IsValid golden 2000

abbrev key : Slice
key = record { bytes = 65 ∷ []; len = 1 }

abbrev value : Slice
value = record { bytes = 7 ∷ 8 ∷ []; len = 2 }

cache-absent : Ht.get cache.ht key.bytes ≡ none
unfolding new Ht.get Ht.new
cache-absent = refl

cache-on : cache.buffer ≢ 0
unfolding new
cache-on = omega arith

cache-room :
    (cache.level_old.used_size + (key.len + value.len)) % 2 ^ 64 < cache.level_old.allow_size
unfolding new
cache-room = omega arith

set-stored_example :
    (lru' : Shiki) × (set clean cache key value ≡ some lru')
    × IsValid lru'
    × ((k : List ℕ) → view lru' k ≡ (if str_eq k key.bytes then some value else view cache k))
set-stored_example =
    set-stored clean cache cache-IsValid key value refl refl (clean-nul cache.heap.next)
      cache-absent cache-on cache-room

remove-view_example :
    (lru' : Shiki) × (remove cache key ≡ some lru')
    × IsValid lru'
    × ((k : List ℕ) → view lru' k ≡ (if str_eq k key.bytes then none else view cache k))
remove-view_example = remove-view cache key cache-IsValid cache-on

abbrev big : Slice
big = record { bytes = replicate 800 1; len = 800 }

-- The cache when the value has been stored.
abbrev filled : Shiki
filled = elim (set clean cache key value) [ none ↦ cache | some lru ↦ lru ]

filled-IsValid : IsValid filled
filled-IsValid = let (lru, run, v, _) = set-stored_example in rw (filled, run) v

filled-on : filled.buffer ≢ 0
unfolding set set_absent add_node copy set_node touch_cold make_room promote stay_cold new Ht.get
    Ht.new Ht.set Ht.find_slot Ht.walk Level.alloc Level.store Level.remove_link Level.unlink
    Level.set_head is_minus_one above incr c_str str_eq strcmp lex djb_hash char_word
filled-on = omega arith

filled-found : Ht.get filled.ht key.bytes ≡ some 1
unfolding set set_absent add_node copy set_node touch_cold make_room promote stay_cold new Ht.get
    Ht.new Ht.set Ht.find_slot Ht.walk Level.alloc Level.store Level.remove_link Level.unlink
    Level.set_head is_minus_one above incr c_str str_eq strcmp lex djb_hash char_word
filled-found = refl

filled-room : (node : LevelNode) → filled.heap.cell 1 ≡ some node → HasRoom filled node
unfolding set set_absent add_node copy set_node touch_cold make_room promote stay_cold new Ht.get
    Ht.new Ht.set Ht.find_slot Ht.walk Level.alloc Level.store Level.remove_link Level.unlink
    Level.set_head is_minus_one above incr c_str str_eq strcmp lex djb_hash char_word
filled-room node e = elim (Bool-cases (is_minus_one node.hits)) [
  | inl f ↦ rw f (omega arith)
  | inr f ↦ rw f (omega arith)
]

get_hit_example :
    (lru' : Shiki) × (get clean filled key ≡ some (view filled key.bytes, lru'))
    × IsValid lru'
    × ((k : List ℕ) → view lru' k ≡ view filled k)
get_hit_example = get_hit clean filled filled-IsValid key 1 filled-on filled-found filled-room
