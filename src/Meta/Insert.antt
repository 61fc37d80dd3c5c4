-- ===== src/Meta/Insert.antt =====
-- `meta_set` on a sorted table: it keeps the order, and enters a node whose end is new.
use Prim.Native.Nat.{Ordering}
use silokatana.Base.{
  ℕ, ◌%◌, ◌^◌, ◌≢◌, true, leb, ◌+◌, ◌≤◌, ◌<◌, ◌≡◌, none, some, List, ◌∷◌, ◌++◌, length, take, drop,
  arith,
}
use silokatana.Base.CStr.{strcmp}
use silokatana.Meta.Defs.{MetaNode, Meta, Place, hit, gap, set, insert_at, search, size, meta_max}
use silokatana.Meta.Search.{end_at, IsSorted, IsPlace, search_place}

-- The node as `meta_set` enters it.
abbrev numbered : Meta → MetaNode → MetaNode
numbered m node = record node { lsn = (size m + 1) % 2 ^ 32 }

abbrev entered : Meta → ℕ → MetaNode → List MetaNode
entered m i node = take i m.nodes ++ (numbered m node ∷ drop i m.nodes)

-- What `meta_set` leaves: the table itself if an entry has the end already, and else the table with
-- one entry more, which stands at its place with the new size for its number.
abbrev pub Kept : Meta → MetaNode → Meta → Type 0
Kept m node m' =
    (i : ℕ) × (i < size m) × (strcmp node.end (end_at m.nodes i) ≡ Ordering.eq) × (m' ≡ m)

abbrev pub Entered : Meta → MetaNode → Meta → Type 0
Entered m node m' =
    (i : ℕ) × IsPlace m.nodes node.end (gap i)
    × (m'.nodes ≡ take i m.nodes ++ (record node { lsn = (size m + 1) % 2 ^ 32 } ∷ drop i m.nodes))

-- On a table in order with at most one free place, an entry whose end is new makes `meta_set` write
-- past the array.
pub set_full :
    (m : Meta) (node : MetaNode)
    → IsSorted m.nodes
    → meta_max ≤ size m + 1
    → ((i : ℕ) → i < size m → strcmp node.end (end_at m.nodes i) ≢ Ordering.eq)
    → set m node ≡ none
unfolding set insert_at
set_full m node sorted full new =
    let (p, e, place) = search_place m.nodes node.end sorted in placed p e place
  where
    placed :
        (p : Place)
        → search (length m.nodes + 1) node.end m.nodes 0 (length m.nodes) ≡ some p
        → IsPlace m.nodes node.end p
        → set m node ≡ none
    placed (hit i) e (lt, o, _, _) = absurd (new i lt o)
    placed (gap i) e place = let f : leb meta_max (size m + 1) ≡ true = ground arith in rw (e, f)
