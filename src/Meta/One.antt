-- ===== src/Meta/One.antt =====
-- A table of storage/src/meta.c from its first entry on.
use Prim.Native.Nat.{Ordering}
use silokatana.Base.{ℕ, ◌≡◌, ◌⊎◌, refl, List, [], ◌∷◌, none, some, true, false, inl, inr, arith}
use silokatana.Base.CStr.{strcmp, strcmp-swap_lt, strcmp-swap_gt}
use silokatana.Jikukan.{cmp_lt}
use silokatana.Meta.Defs.{Meta, MetaNode, search, set, get, insert_at}

-- The entry as the first of a table.
abbrev pub first_entry : MetaNode → MetaNode
first_entry node = record node { lsn = 1 }

pub set-first :
    (m : Meta) (node : MetaNode)
    → m.nodes ≡ []
    → set m node ≡ some (record { nodes = first_entry node ∷ [] })
unfolding set search insert_at
set-first m node e = rw (e, search) refl

pub get-none : (m : Meta) (k : List ℕ) → m.nodes ≡ [] → get m k ≡ some none
unfolding get search
get-none m k e = rw (e, search) refl

module _ (node : MetaNode) (k : List ℕ) where
  abbrev one : Meta
  one = record { nodes = node ∷ [] }

  GetsOne : Type 0
  GetsOne =
      ((get one k ≡ some (some 0)) × (cmp_lt node.end k ≡ false))
      ⊎ ((get one k ≡ some none) × (cmp_lt node.end k ≡ true))

  compared : (o : Ordering) → strcmp k node.end ≡ o → GetsOne
  unfolding get search cmp_lt GetsOne
  compared Ordering.eq e =
      inl (rw (get, search, e) refl, ground (arith, strcmp-swap_lt node.end k, e))
  compared Ordering.lt e =
      inl (rw (get, search, e) refl, ground (arith, strcmp-swap_lt node.end k, e))
  compared Ordering.gt e =
      inr (rw (get, search, e) refl, ground (arith, strcmp-swap_gt k node.end, e))

  -- The table finds its entry for a key that is not behind the entry's end, and no other.
  pub get-one :
      ((get one k ≡ some (some 0)) × (cmp_lt node.end k ≡ false))
      ⊎ ((get one k ≡ some none) × (cmp_lt node.end k ≡ true))
  unfolding GetsOne
  get-one = compared (strcmp k node.end) refl
