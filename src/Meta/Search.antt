-- ===== src/Meta/Search.antt =====
-- The binary search of storage/src/meta.c on a sorted table: it ends, reads no entry past the end,
-- and finds the first entry whose end is not below the key.
use Prim.Native.Nat.{Ordering}
use silokatana.Base.{
  ℕ, zero, suc, ◌+◌, ◌-◌, ◌/◌, ◌≤◌, ◌<◌, ◌≡◌, refl, ◌∙◌, Option, none, some, List, [], length,
  get_or, arith, ltb, Bool-cases, inl, inr, get_elem?-eq-get_or, ◌≢◌,
}
use silokatana.Base.CStr.{strcmp, strcmp-swap_lt, strcmp-swap_gt, strcmp_trans, strcmp_congr}
use silokatana.Meta.Defs.{MetaNode, Meta, Place, hit, gap, search}

abbrev pub no_node : MetaNode
no_node = record { end = []; index_name = []; count = 0; lsn = 0 }

abbrev pub end_at : List MetaNode → ℕ → List ℕ
end_at nodes i = (get_or nodes i no_node).end

-- The ends rise strictly.
abbrev pub IsSorted : List MetaNode → Type 0
IsSorted nodes =
    (i j : ℕ) → i < j → j < length nodes → strcmp (end_at nodes i) (end_at nodes j) ≡ Ordering.lt

-- The end at `i` is above, at or below the key.
abbrev pub Above : List MetaNode → List ℕ → ℕ → Type 0
Above nodes key i = strcmp key (end_at nodes i) ≡ Ordering.lt

abbrev pub Below : List MetaNode → List ℕ → ℕ → Type 0
Below nodes key i = strcmp key (end_at nodes i) ≡ Ordering.gt

-- What a place says of the table: the entries in front of it end below the key, and those behind it
-- end above the key; at a hit the entry ends at the key, and at a gap it ends above.
abbrev pub IsPlace : List MetaNode → List ℕ → Place → Type 0
IsPlace nodes key (hit i) =
    (i < length nodes)
    × (strcmp key (end_at nodes i) ≡ Ordering.eq)
    × ((j : ℕ) → j < i → Below nodes key j)
    × ((j : ℕ) → i < j → j < length nodes → Above nodes key j)
IsPlace nodes key (gap i) =
    (i ≤ length nodes)
    × ((j : ℕ) → j < i → Below nodes key j)
    × ((j : ℕ) → i ≤ j → j < length nodes → Above nodes key j)

module _ (nodes : List MetaNode) (key : List ℕ) (sorted : IsSorted nodes) where
  above_up : (i j : ℕ) → Above nodes key i → i ≤ j → j < length nodes → Above nodes key j
  above_up i j a le lt = elim (Bool-cases (ltb i j)) [
    | inl q ↦ strcmp_trans key (end_at nodes i) (end_at nodes j) a (sorted i j (ground arith) lt)
    | inr q ↦ let e : i ≡ j = ground arith in rw (← e) a
  ]

  Below-down : (i j : ℕ) → Below nodes key i → j ≤ i → i < length nodes → Below nodes key j
  Below-down i j b le lt = elim (Bool-cases (ltb j i)) [
    | inl q ↦ strcmp-swap_lt (end_at nodes j) key (
        strcmp_trans (end_at nodes j) (end_at nodes i) key (sorted j i (ground arith) lt)
          (strcmp-swap_gt key (end_at nodes i) b))
    | inr q ↦ let e : i ≡ j = ground arith in rw (← e) b
  ]

  at_hit :
      (i : ℕ)
      → i < length nodes
      → strcmp key (end_at nodes i) ≡ Ordering.eq
      → IsPlace nodes key (hit i)
  at_hit i lt e = (
    lt,
    e,
    λ j q.
        strcmp_congr key (end_at nodes i) (end_at nodes j) e
        ∙ strcmp-swap_lt (end_at nodes j) (end_at nodes i) (sorted j i q lt),
    λ j q r. strcmp_congr key (end_at nodes i) (end_at nodes j) e ∙ sorted i j q r,
  )

  record Inv (left right : ℕ) : Type 0 where
    ordered : left ≤ right
    inside : right ≤ length nodes
    below : (j : ℕ) → j < left → Below nodes key j
    above : (j : ℕ) → right ≤ j → j < length nodes → Above nodes key j

  abbrev Found : Option Place → Type 0
  Found r = (p : Place) × (r ≡ some p) × IsPlace nodes key p

  choose :
      (o : Ordering) (i : ℕ) (low up : Option Place)
      → (o ≡ Ordering.lt → Found low)
      → (o ≡ Ordering.gt → Found up)
      → (o ≡ Ordering.eq → IsPlace nodes key (hit i))
      → Found (elim o [ Ordering.eq ↦ some (hit i) | Ordering.lt ↦ low | Ordering.gt ↦ up ])
  choose Ordering.lt i low up l u h = l refl
  choose Ordering.gt i low up l u h = u refl
  choose Ordering.eq i low up l u h = (hit i, refl, h refl)

  lower :
      (left right i : ℕ)
      → Inv left right
      → Above nodes key i
      → left ≤ i
      → i < length nodes
      → Inv left i
  lower left right i inv a le lt = record {
    ordered = le;
    inside = omega arith;
    below = inv.below;
    above = λ j q r. above_up i j a q r;
  }

  upper : (left right i : ℕ) → Inv left right → Below nodes key i → i < right → Inv (i + 1) right
  upper left right i inv b lt = record {
    ordered = omega arith;
    inside = inv.inside;
    below = λ j q. Below-down i j b (omega arith) (omega (arith, inv.inside));
    above = inv.above;
  }

  search-Found :
      (fuel left right : ℕ)
      → right - left < fuel
      → Inv left right
      → Found (search fuel key nodes left right)
  unfolding search
  search-Found zero left right h inv = absurd (omega arith)
  search-Found (suc fuel) left right h inv = elim (Bool-cases (ltb left right)) [
    | inr stop ↦
        let e : left ≡ right = ground (arith, inv.ordered) in
        (
          gap left,
          rw stop,
          (omega (arith, inv.ordered, inv.inside), inv.below, λ j q. inv.above j (omega arith)),
        )
    | inl go ↦
        let i = (right - left) / 2 + left in
        let below_right : i < right = ground arith in
        let lt : i < length nodes = omega (arith, inv.inside) in
        let e = get_elem?-eq-get_or nodes i no_node lt in
        rw (go, e)
          (choose (strcmp key (end_at nodes i)) i (search fuel key nodes left i)
            (search fuel key nodes (i + 1) right)
            (λ o.
              search-Found fuel left i (omega arith) (lower left right i inv o (omega arith) lt))
            (λ o.
              search-Found fuel (i + 1) right (omega arith) (upper left right i inv o below_right))
            (λ o. at_hit i lt o))
  ]

  -- On a sorted table the search ends at the place of the key.
  pub search_place : Found (search (length nodes + 1) key nodes 0 (length nodes))
  search_place = search-Found (length nodes + 1) 0 (length nodes) (omega arith) (record {
    ordered = omega arith;
    inside = omega arith;
    below = λ j q. absurd (omega arith);
    above = λ j q r. absurd (omega arith);
  })

-- `meta_get` on a sorted table: the first entry whose end is not below the key, and NULL where every
-- entry ends below it.
abbrev pub Covers : List MetaNode → List ℕ → Option ℕ → Type 0
Covers nodes key none = (j : ℕ) → j < length nodes → Below nodes key j
Covers nodes key (some i) =
    (i < length nodes)
    × (strcmp key (end_at nodes i) ≢ Ordering.gt)
    × ((j : ℕ) → j < i → Below nodes key j)
