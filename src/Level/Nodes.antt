-- ===== src/Level/Nodes.antt =====
-- The nodes of storage/include/level.h on a heap that gives every allocation a new address.
use silokatana.Base.{ℕ, ◌+◌, Option, none, some, List, ◌==◌, if◌then◌else◌}
use silokatana.Base.Int.{ℤ}

-- struct slice: `data` is the block behind the pointer, `len` the length that goes with it.
pub record Slice : Type 0 where
  pub bytes : List ℕ
  pub len : ℕ

pub record LevelNode : Type 0 where
  pub hits : ℤ
  pub size : ℕ
  pub sk : Slice
  pub sv : Slice
  pub nxt : Option ℕ
  pub pre : Option ℕ

pub record Heap : Type 0 where
  pub next : ℕ
  pub cell : ℕ → Option LevelNode

abbrev pub update : (ℕ → Option LevelNode) → ℕ → Option LevelNode → ℕ → Option LevelNode
update f p v q = if p == q then v else f q

abbrev pub load : Heap → ℕ → Option LevelNode
load h p = h.cell p

-- A write through a pointer to a node that is not there faults.
unfoldable pub store : Heap → ℕ → LevelNode → Option Heap
store h p node = elim (h.cell p) [
  | none ↦ none
  | some old ↦ some (record h { cell = update h.cell p (some node) })
]

unfoldable pub alloc : Heap → LevelNode → ℕ × Heap
alloc h node = (h.next, record { next = h.next + 1; cell = update h.cell h.next (some node) })

unfoldable pub free : Heap → ℕ → Option Heap
free h p = elim (h.cell p) [
  | none ↦ none
  | some old ↦ some (record h { cell = update h.cell p none })
]
