-- ===== src/Silopit/Flush.antt =====
-- How storage/src/silopit.c spreads the nodes of a list over files. The lock that readers wait for
-- while a file is written, and `mutexer.lsn`, change nothing that is written.
use silokatana.Base.{
  ℕ, zero, suc, ◌+◌, ◌-◌, ◌*◌, ◌/◌, ◌%◌, Bool, true, false, Option, none, some, List, [], ◌∷◌,
  ◌>>=◌, leb, ◌==◌, if◌then◌else◌, get_elem?,
}
use silokatana.Base.CStr.{str_eq}
use silokatana.Hiraishin.{Hiraishin}
use silokatana.Hiraishin
use silokatana.Jikukan.{Jikukan, SkipNode, Opt}
use silokatana.Jikukan
use silokatana.Jikukan.Opt.{add, del}
use silokatana.Meta
use silokatana.Silopit.Files.{first_node, read_mmap}
use silokatana.Silopit.Defs.{Silopit, silo_name, write_mmap}

-- SILOPIT_MAX_COUNT
abbrev pub silopit_max_count : ℕ
silopit_max_count = 65_536

module _ (stale : ℕ) where
  -- A file is named after the number of the files.
  unfoldable pub write_new : Silopit → List SkipNode → ℕ → Option (Silopit × List SkipNode)
  write_new s x count =
      write_mmap stale (record s { name = silo_name (Meta.size s.meta) }) x count true

  -- The loop over the full files.
  unfoldable pub write_full : ℕ → Silopit → List SkipNode → Option (Silopit × List SkipNode)
  unfolding write_new
  write_full zero s x = some (s, x)
  write_full (suc n) s x = elim (write_new s x silopit_max_count) [
    | none ↦ none
    | some (s', x') ↦ write_full n s' x'
  ]

  unfoldable pub flush_merge_list : Silopit → List SkipNode → ℕ → Option (Silopit × List SkipNode)
  unfolding write_full
  flush_merge_list s x count =
      if leb count (silopit_max_count * 2) then write_mmap stale s x count false else (do
        (s₁, x₁) ← write_mmap stale s x silopit_max_count false
        (s₂, x₂) ← write_full ((count - silopit_max_count * 2) / silopit_max_count) s₁ x₁
        write_new s₂ x₂ (count % silopit_max_count + silopit_max_count))

  unfoldable pub flush_new_list : Silopit → List SkipNode → ℕ → Option (Silopit × List SkipNode)
  unfolding write_full
  flush_new_list s x count = if leb count (silopit_max_count * 2) then write_new s x count else (do
    (s₁, x₁) ← write_full (count / silopit_max_count - 1) s x
    write_new s₁ x₁ (silopit_max_count + count % silopit_max_count))

  -- `if (merge)`: the merged list goes to its files.
  unfoldable pub flush_merged : Silopit → Option Jikukan → Option Silopit
  unfolding flush_merge_list first_node
  flush_merged s none = some s
  flush_merged s (some merge) = do
    h ← first_node merge
    (s', _) ← flush_merge_list s h merge.count
    some s'

  module _ (coin : ℕ → Bool) (x : List SkipNode) (count : ℕ) where
    -- The list that a node of the file at entry `i` goes into: the one at hand, while it is of that
    -- file, or what the file holds. The entry is read once more when the list at hand has been written.
    unfoldable pub merge_into : Silopit → ℕ → Option Jikukan → Option (Silopit × Jikukan)
    unfolding flush_merged
    merge_into s i merge = elim (get_elem? s.meta.nodes i) [
      | none ↦ none
      | some info ↦ elim (str_eq s.name info.index_name) [
        | true ↦ elim merge [
          | some list ↦ some (s, list)
          | none ↦ do list ← read_mmap coin (s.files s.name) count; some (s, list)
        ]
        | false ↦ do
          s₁ ← flush_merged s merge
          now ← get_elem? s₁.meta.nodes i
          list ← read_mmap coin (s₁.files now.index_name) count
          some (record s₁ { name = now.index_name }, list)
      ]
    ]

    -- The loop of `_flush_list` from the node `cur` at place `pos` on.
    unfoldable pub flush_from : Silopit → List SkipNode → ℕ → Option Jikukan → Option Silopit
    unfolding merge_into flush_new_list
    flush_from s [] pos merge = flush_merged s merge
    flush_from s (cur ∷ rest) pos merge = elim (Meta.get s.meta cur.key) [
      | none ↦ none
      | some none ↦ do
        s₁ ← flush_merged s merge
        (s₂, _) ← flush_new_list s₁ x (count - pos)
        some s₂
      | some (some i) ↦ elim (merge_into s i merge) [
        | none ↦ none
        | some (s₁, list) ↦ elim (Jikukan.insert_node coin list cur) [
          | none ↦ none
          | some (_, list') ↦ flush_from s₁ rest (pos + 1) (some list')
        ]
      ]
    ]

  unfoldable pub flush_list : (ℕ → Bool) → Silopit → List SkipNode → ℕ → Option Silopit
  unfolding flush_from
  flush_list coin s x flush_count = flush_from coin x flush_count s x 0 none

  -- The items of a recovered log enter the filter.
  unfoldable pub add_items : List SkipNode → Hiraishin → Hiraishin
  add_items [] h = h
  add_items (cur ∷ rest) h = elim cur.opt [
    | add ↦ add_items rest (Hiraishin.add h (some cur.key))
    | del ↦ add_items rest h
  ]

  unfoldable pub merge : (ℕ → Bool) → Silopit → Jikukan → Bool → Option Silopit
  unfolding flush_list add_items flush_new_list
  merge coin s list fromlog = do
    x ← first_node list
    let s₀ = if fromlog then record s { hiraishin = add_items x s.hiraishin } else s
    if Meta.size s₀.meta == 0
        then (do (s₁, _) ← flush_new_list s₀ x list.count; some s₁)
        else flush_list coin s₀ x list.count
