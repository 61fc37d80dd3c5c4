-- ===== src/Silopit/Reads.antt =====
-- The binary search of `_read_offset` in storage/src/silopit.c.
use Prim.Native.Nat.{Ordering}
use silokatana.Base.{
  ℕ, zero, suc, ◌+◌, ◌-◌, ◌*◌, ◌/◌, ◌≤◌, ◌<◌, ◌≡◌, ◌≢◌, ◌⊎◌, refl, Option, some, List, length,
  arith, ltb, leb, Bool-cases, inl, inr, true,
}
use silokatana.Base.CStr.{strcmp, strcmp-swap_lt, strcmp-swap_gt, strcmp_trans}
use silokatana.Buffer.{u64_from_big}
use silokatana.Silopit.Files.{SiloFile, block_key, block_offset, search_blocks, read_offset}

-- The blocks are all there, and their keys rise strictly.
pub record IsSorted (file : SiloFile) : Type 0 where
  pub whole : file.footer.count * (file.footer.max_len + 8) ≤ length file.blks
  pub rising :
      (i j : ℕ)
      → i < j
      → j < file.footer.count
      → strcmp (block_key file i) (block_key file j) ≡ Ordering.lt

-- The offset of a block with the key, or 0 where no block has it.
abbrev pub Offers : SiloFile → List ℕ → ℕ → Type 0
Offers file key off =
    ((i : ℕ) × (i < file.footer.count)
      × (strcmp key (block_key file i) ≡ Ordering.eq)
      × (off ≡ u64_from_big (block_offset file i)))
    ⊎ ((off ≡ 0) × ((i : ℕ) → i < file.footer.count → strcmp key (block_key file i) ≢ Ordering.eq))

-- A product of numbers that `omega` does not take apart.
pub block_bound : (i n w : ℕ) → i < n → (i + 1) * w ≤ n * w
block_bound i zero w h = absurd (omega arith)
block_bound i (suc n) w h = elim (Bool-cases (ltb i n)) [
  | inl q ↦ omega (arith, block_bound i n w (ground (arith, q)))
  | inr q ↦ let e : i ≡ n = ground (arith, h, q) in rw e (omega arith)
]

module _ (file : SiloFile) (key : List ℕ) (sorted : IsSorted file) where
  -- The blocks outside of the range that is left have other keys.
  record Inv (left right : ℕ) : Type 0 where
    ordered : left ≤ right
    inside : right ≤ file.footer.count
    below : (j : ℕ) → j < left → strcmp key (block_key file j) ≡ Ordering.gt
    above :
        (j : ℕ) → right ≤ j → j < file.footer.count → strcmp key (block_key file j) ≡ Ordering.lt

  above_all :
      (i j : ℕ)
      → strcmp key (block_key file i) ≡ Ordering.lt
      → i ≤ j
      → j < file.footer.count
      → strcmp key (block_key file j) ≡ Ordering.lt
  above_all i j a le lt = elim (Bool-cases (ltb i j)) [
    | inl q ↦
        strcmp_trans key (block_key file i) (block_key file j) a
          (sorted.rising i j (ground (arith, q)) lt)
    | inr q ↦ let e : i ≡ j = ground (arith, q, le) in rw (← e) a
  ]

  below_all :
      (i j : ℕ)
      → strcmp key (block_key file i) ≡ Ordering.gt
      → j ≤ i
      → i < file.footer.count
      → strcmp key (block_key file j) ≡ Ordering.gt
  below_all i j b le lt = elim (Bool-cases (ltb j i)) [
    | inl q ↦ strcmp-swap_lt (block_key file j) key (
        strcmp_trans (block_key file j) (block_key file i) key
          (sorted.rising j i (ground (arith, q)) lt) (strcmp-swap_gt key (block_key file i) b))
    | inr q ↦ let e : i ≡ j = ground (arith, q, le) in rw (← e) b
  ]

  abbrev Ends : Option ℕ → Type 0
  Ends r = (off : ℕ) × (r ≡ some off) × Offers file key off

  -- A round, from what either half of the range gives.
  compared :
      (o : Ordering) (i : ℕ) (low up : Option ℕ)
      → i < file.footer.count
      → strcmp key (block_key file i) ≡ o
      → (o ≡ Ordering.lt → Ends low)
      → (o ≡ Ordering.gt → Ends up)
      → Ends (elim o [
        | Ordering.eq ↦ some (u64_from_big (block_offset file i))
        | Ordering.lt ↦ low
        | Ordering.gt ↦ up
      ])
  compared Ordering.lt i low up lt e l u = l refl
  compared Ordering.gt i low up lt e l u = u refl
  compared Ordering.eq i low up lt e l u = (_, refl, inl (i, lt, e, refl))

  exhausted : (left right : ℕ) → Inv left right → right ≤ left → Offers file key 0
  exhausted left right inv stop = inr (
    refl,
    λ j q e. elim (Bool-cases (ltb j left)) [
      | inl p ↦ absurd (ground (arith, e, inv.below j (ground (arith, p))))
      | inr p ↦ absurd (ground (arith, e, inv.above j (ground (arith, p, stop)) q))
    ],
  )

  search_blocks-Ends :
      (fuel left right : ℕ)
      → right - left < fuel
      → Inv left right
      → Ends (search_blocks fuel file key left right)
  unfolding search_blocks
  search_blocks-Ends zero left right h inv = absurd (omega arith)
  search_blocks-Ends (suc fuel) left right h inv = elim (Bool-cases (ltb left right)) [
    | inr stop ↦ (0, rw (search_blocks, stop) refl, exhausted left right inv (ground (arith, stop)))
    | inl go ↦
        let i = (right - left) / 2 + left in
        let less : left < right = ground (arith, go) in
        let within : i < right = omega (arith, less) in
        let lt : i < file.footer.count = omega (arith, inv.inside, within) in
        let low : left ≤ i = omega arith in
        let there : leb ((i + 1) * (file.footer.max_len + 8)) (length file.blks) ≡ true =
          ground
            (arith, block_bound i file.footer.count (file.footer.max_len + 8) lt, sorted.whole) in
        rw (search_blocks, go, there)
          (compared (strcmp key (block_key file i)) i (search_blocks fuel file key left i)
            (search_blocks fuel file key (i + 1) right) lt refl
            (λ o. search_blocks-Ends fuel left i (omega (arith, h, less, within)) (record {
              ordered = low;
              inside = omega (arith, lt);
              below = inv.below;
              above = λ j q r. above_all i j o q r;
            }))
            (λ o. search_blocks-Ends fuel (i + 1) right (omega (arith, h, less, low)) (record {
              ordered = omega (arith, within);
              inside = inv.inside;
              below = λ j q. below_all i j o (omega (arith, q)) lt;
              above = inv.above;
            })))
  ]

  pub read_offset-Offers :
      (off : ℕ) × (read_offset (some file) key ≡ some off) × Offers file key off
  unfolding read_offset
  read_offset-Offers =
      search_blocks-Ends (suc file.footer.count) 0 file.footer.count (omega arith) (record {
        ordered = omega arith;
        inside = omega arith;
        below = λ j q. absurd (omega (arith, q));
        above = λ j q r. absurd (omega (arith, q, r));
      })
