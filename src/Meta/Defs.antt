-- ===== src/Meta/Defs.antt =====
-- The operations of storage/src/meta.c. The result `none` of `set` is the fault of a write past the
-- array; a search takes fuel, and `none` says that it ran out or read past the entries.
use Prim.Native.Nat.{Ordering}
use silokatana.Base.{
  ℕ, zero, suc, ◌+◌, ◌-◌, ◌/◌, ◌%◌, ◌^◌, Option, none, some, List, [], ◌∷◌, ◌++◌, ◌>>=◌, ltb, leb,
  ◌==◌, if◌then◌else◌, length, take, drop, get_elem?,
}
use silokatana.Base.CStr.{strcmp, str_eq}

pub record MetaNode : Type 0 where
  pub end : List ℕ
  pub index_name : List ℕ
  pub count : ℕ
  pub lsn : ℕ

-- `size` is the number of the entries in use, the length of `nodes`.
pub record Meta : Type 0 where
  pub nodes : List MetaNode

abbrev pub size : Meta → ℕ
size m = length m.nodes

-- META_MAX_COUNT
abbrev pub meta_max : ℕ
meta_max = 10_000

-- Where a search stopped: at an entry whose end is the key, or at the place for it.
pub data Place : Type 0 where
  hit : ℕ → Place
  gap : ℕ → Place

abbrev pub place_index : Place → ℕ
place_index (hit i) = i
place_index (gap i) = i

-- The loop that `meta_get` and `meta_set` share.
unfoldable pub search : ℕ → List ℕ → List MetaNode → ℕ → ℕ → Option Place
search zero key nodes left right = none
search (suc fuel) key nodes left right =
    let i = (right - left) / 2 + left in
    let lower = search fuel key nodes left i in
    let upper = search fuel key nodes (i + 1) right in
    let probe : Option Place = elim (get_elem? nodes i) [
      | none ↦ none
      | some node ↦ elim (strcmp key node.end) [
        | Ordering.eq ↦ some (hit i)
        | Ordering.lt ↦ lower
        | Ordering.gt ↦ upper
      ]
    ] in
    if ltb left right then probe else some (gap left)

unfoldable pub new : Meta
new = record { nodes = [] }

-- The index of the entry that the returned pointer shows, or `none` for NULL.
unfoldable pub get : Meta → List ℕ → Option (Option ℕ)
get m key = do
  place ← search (size m + 1) key m.nodes 0 (size m)
  let i = place_index place
  some (if i == size m then none else some i)

-- The `memmove` carries one entry more than there is, and so needs a free one behind the last.
unfoldable pub insert_at : Meta → ℕ → MetaNode → Option Meta
insert_at m i node =
    if leb meta_max (size m + 1)
    then none
    else some (record {
      nodes = take i m.nodes ++ (record node { lsn = (size m + 1) % 2 ^ 32 } ∷ drop i m.nodes);
    })

abbrev place_set : Meta → MetaNode → Place → Option Meta
place_set m node (hit i) = some m
place_set m node (gap i) = insert_at m i node

unfoldable pub set : Meta → MetaNode → Option Meta
set m node = do place ← search (size m + 1) node.end m.nodes 0 (size m); place_set m node place

-- The end of the first entry with the node's name is written, and its other fields stay.
unfoldable pub rename_end : MetaNode → List MetaNode → List MetaNode
rename_end node [] = []
rename_end node (n ∷ nodes) =
    let rest = rename_end node nodes in
    if str_eq node.index_name n.index_name then record n { end = node.end } ∷ nodes else n ∷ rest

unfoldable pub set_byname : Meta → MetaNode → Meta
unfolding rename_end
set_byname m node = record { nodes = rename_end node m.nodes }
