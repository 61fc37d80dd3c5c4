-- ===== src/Level/Defs.antt =====
-- The operations of storage/src/level.c, statement by statement. A `size_t` wraps at 2 ^ 64.
use silokatana.Base.{ℕ, ◌+◌, ◌-◌, ◌%◌, ◌^◌, List, ◌++◌, Option, none, some, ◌>>=◌}
use silokatana.Ht.{Ht}
use silokatana.Ht
use silokatana.Level.Nodes.{LevelNode, Heap, load, store, free}

pub record Level : Type 0 where
  pub count : ℕ
  pub allow_size : ℕ
  pub used_size : ℕ
  pub first : Option ℕ
  pub last : Option ℕ

abbrev pub size_max : ℕ
size_max = 2 ^ 64

abbrev pub minus : ℕ → ℕ → ℕ
minus a b = (a + size_max - b) % size_max

unfoldable pub set_head : Level → Option ℕ → Heap → Option (Level × Heap)
set_head level none heap = some (level, heap)
set_head level (some n) heap =
    let counted = record level { count = (level.count + 1) % size_max } in
    elim level.first [
      | none ↦ some (record counted { first = some n }, heap)
      | some f ↦ do
        node ← load heap n
        heap' ← store heap n (record node { pre = none; nxt = some f })
        some (record counted { first = some n }, heap')
    ]

-- The cases of `level_remove_link` on the two neighbours of the node at `n`.
unfoldable pub unlink : Level → ℕ → LevelNode → Option ℕ → Option ℕ → Heap → Option (Level × Heap)
unlink level n node none none heap = some (level, heap)
unlink level n node none (some next) heap = do
  heap' ← store heap n (record node { nxt = none })
  some (record level { first = some next }, heap')
unlink level n node (some prev) none heap = do
  heap' ← store heap n (record node { pre = none })
  some (record level { last = some prev }, heap')
unlink level n node (some prev) (some next) heap = do
  before ← load heap prev
  heap₁ ← store heap prev (record before { nxt = some next })
  now ← load heap₁ n
  heap₂ ← store heap₁ n (record now { nxt = none; pre = none })
  some (level, heap₂)

unfoldable pub remove_link : Level → Option ℕ → Heap → Option (Level × Heap)
remove_link level none heap = some (level, heap)
remove_link level (some n) heap = do
  node ← load heap n
  unlink (record level { count = minus level.count 1 }) n node node.pre node.nxt heap

unfoldable pub free_node : Level → Option ℕ → Heap → Option (Level × Heap)
free_node level none heap = some (level, heap)
free_node level (some n) heap = do
  node ← load heap n
  (level', heap₁) ←
      remove_link (record level { used_size = minus level.used_size node.size }) (some n) heap
  heap₂ ← free heap₁ n
  some (level', heap₂)

module _ (slack : ℕ → List ℕ) where
  -- The block that a node's key pointer shows: its bytes, and what stands behind them in memory.
  abbrev pub key_block : ℕ → LevelNode → List ℕ
  key_block n node = node.sk.bytes ++ slack n

  -- It reads through `level->last` at once.
  unfoldable pub free_last : Level → Ht ℕ → Heap → Option (Level × Ht ℕ × Heap)
  free_last level h heap = elim level.last [
    | none ↦ none
    | some n ↦ do
      node ← load heap n
      (level', heap') ← free_node level (some n) heap
      some (level', Ht.remove h (key_block n node), heap')
  ]
