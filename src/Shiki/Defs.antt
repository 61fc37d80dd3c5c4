-- ===== src/Shiki/Defs.antt =====
-- The operations of storage/src/shiki.c. `slack p` is what stands in memory behind the key block that
-- is allocated with the node at `p`: the block itself has no room for a NUL.
use silokatana.Base.{
  ℕ, ◌+◌, ◌%◌, List, Option, none, some, ◌>>=◌, ltb, leb, ◌==◌, if◌then◌else◌, length, take,
}
use silokatana.Base.Int.{pos, negsuc, incr, is_minus_one, above}
use silokatana.Ht.{Ht}
use silokatana.Ht
use silokatana.Level.{Slice, LevelNode, Heap, load, store, alloc}
use silokatana.Level
use silokatana.Level.{Level, minus, size_max, key_block}

pub record Shiki : Type 0 where
  pub buffer : ℕ
  pub ht : Ht ℕ
  pub level_old : Level
  pub level_new : Level
  pub heap : Heap

-- MAXHITS and PRIME
abbrev pub max_hits : ℕ
max_hits = 3

abbrev pub prime : ℕ
prime = 16_785_407

-- `ratio` is the multiplication by 0.618 in floating point, cut to an integer.
unfoldable pub new : (ℕ → ℕ) → ℕ → Shiki
new ratio buffer_size =
    let size_level_new = ratio buffer_size in
    let size_level_old = minus buffer_size size_level_new in
    record {
      buffer = if ltb 1023 buffer_size then 1 else 0;
      ht = Ht.new prime;
      level_old = record {
        count = 0;
        allow_size = size_level_old;
        used_size = 0;
        first = none;
        last = none;
      };
      level_new = record {
        count = 0;
        allow_size = size_level_new;
        used_size = 0;
        first = none;
        last = none;
      };
      heap = record { next = 1; cell = λ _. none };
    }

-- `malloc(len)`, `memset` and `memcpy` of `len` bytes; a read past the source block faults.
unfoldable pub copy : Slice → Option Slice
copy s =
    if leb s.len (length s.bytes)
    then some (record { bytes = take s.len s.bytes; len = s.len })
    else none

-- The branch of `_shiki_set_node` past MAXHITS.
unfoldable pub promote : Shiki → Level → Ht ℕ → Heap → ℕ → Option Shiki
promote lru old ht heap n = do
  (new₁, heap₁) ← Level.set_head lru.level_new (some n) heap
  node ← load heap₁ n
  heap₂ ← store heap₁ n (record node { hits = negsuc 0 })
  some (record lru {
    level_old = record old { used_size = minus old.used_size node.size };
    level_new = record new₁ { used_size = (new₁.used_size + node.size) % size_max };
    ht = ht;
    heap = heap₂;
  })

unfoldable pub stay_cold : Shiki → Level → Ht ℕ → Heap → ℕ → Option Shiki
stay_cold lru old ht heap n = do
  (old₁, heap₁) ← Level.set_head old (some n) heap
  some (record lru { level_old = old₁; ht = ht; heap = heap₁ })

module _ (slack : ℕ → List ℕ) where
  -- Either branch of `_shiki_set_node` starts by making room in its list.
  unfoldable pub make_room : Level → Ht ℕ → Heap → Option (Level × Ht ℕ × Heap)
  make_room level ht heap =
      if leb level.allow_size level.used_size
      then Level.free_last slack level ht heap
      else some (level, ht, heap)

  -- The branch for a node of the hot list.
  unfoldable pub touch_hot : Shiki → ℕ → Option Shiki
  touch_hot lru n = do
    (new₀, ht₀, heap₀) ← make_room lru.level_new lru.ht lru.heap
    (new₁, heap₁) ← Level.remove_link new₀ (some n) heap₀
    (new₂, heap₂) ← Level.set_head new₁ (some n) heap₁
    some (record lru { level_new = new₂; ht = ht₀; heap = heap₂ })

  -- The branch for a node of the cold list, which is promoted once it is hit often.
  unfoldable pub touch_cold : Shiki → ℕ → Option Shiki
  touch_cold lru n = do
    (old₀, ht₀, heap₀) ← make_room lru.level_old lru.ht lru.heap
    node ← load heap₀ n
    heap₁ ← store heap₀ n (record node { hits = incr node.hits })
    (old₁, heap₂) ← Level.remove_link old₀ (some n) heap₁
    moved ← load heap₂ n
    if above moved.hits max_hits
        then promote lru old₁ ht₀ heap₂ n
        else stay_cold lru old₁ ht₀ heap₂ n

  unfoldable pub set_node : Shiki → Option ℕ → Option Shiki
  set_node lru none = some lru
  set_node lru (some n) = do
    node ← load lru.heap n
    if is_minus_one node.hits then touch_hot lru n else touch_cold lru n

  -- The new node of `shiki_set`, entered in the table and not yet in a list.
  unfoldable pub add_node : Shiki → Slice → Slice → ℕ → Option (ℕ × Shiki)
  add_node lru sk sv size = do
    k ← copy sk
    v ← copy sv
    let node : LevelNode = record {
      hits = pos 1;
      size = size;
      sk = k;
      sv = v;
      nxt = none;
      pre = none;
    }
    some (
      lru.heap.next,
      record lru {
        level_old = record lru.level_old {
          used_size = (lru.level_old.used_size + size) % size_max;
          count = (lru.level_old.count + 1) % size_max;
        };
        ht = Ht.set lru.ht (key_block slack lru.heap.next node) lru.heap.next;
        heap = (alloc lru.heap node).1;
      },
    )

  unfoldable pub set_absent : Shiki → Slice → Slice → Option Shiki
  set_absent lru sk sv = do (n, lru') ← add_node lru sk sv (sk.len + sv.len); set_node lru' (some n)

  -- A key that is already there keeps its value.
  unfoldable pub set : Shiki → Slice → Slice → Option Shiki
  set lru sk sv = if lru.buffer == 0 then some lru else elim (Ht.get lru.ht sk.bytes) [
    | none ↦ set_absent lru sk sv
    | some n ↦ set_node lru (some n)
  ]

  -- The value of a hit is read from the node after it has been moved.
  unfoldable pub get_present : Shiki → ℕ → Option (Option Slice × Shiki)
  get_present lru n = do
    lru' ← set_node lru (some n)
    node ← load lru'.heap n
    some (some node.sv, lru')

  unfoldable pub get : Shiki → Slice → Option (Option Slice × Shiki)
  get lru sk =
      if lru.buffer == 0
      then some (none, lru)
      else elim (Ht.get lru.ht sk.bytes) [ none ↦ some (none, lru) | some n ↦ get_present lru n ]

unfoldable pub remove_present : Shiki → Slice → ℕ → Option Shiki
remove_present lru sk n = do
  node ← load lru.heap n
  let hot = is_minus_one node.hits
  (level, heap) ← Level.free_node (if hot then lru.level_new else lru.level_old) (some n) lru.heap
  some (record lru {
    level_new = if hot then level else lru.level_new;
    level_old = if hot then lru.level_old else level;
    ht = Ht.remove lru.ht sk.bytes;
    heap = heap;
  })

unfoldable pub remove : Shiki → Slice → Option Shiki
remove lru sk =
    if lru.buffer == 0
    then some lru
    else elim (Ht.get lru.ht sk.bytes) [ none ↦ some lru | some n ↦ remove_present lru sk n ]
