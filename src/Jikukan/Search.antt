-- ===== src/Jikukan/Search.antt =====
-- The search of a valid list: it never faults, its fuel is enough, and it ends between the smaller keys
-- and the others.
use silokatana.Base.{
  ℕ, zero, suc, ◌+◌, ◌≤◌, ◌<◌, ◌≡◌, ◌⊎◌, refl, some, inl, inr, arith, List, [], ◌∷◌, length,
  Bool-cases, ◌==◌, true, false,
}
use silokatana.Jikukan.Defs.{SkipNode, Jikukan, hdr, seek, cmp_lt, descend}
use silokatana.Jikukan.Valid.{IsCell, IsValid}

module _ (list : Jikukan) (v : IsValid list) (key : List ℕ) where
  -- A node whose key is smaller, and an end of the search.
  pub record Smaller (p : ℕ) : Type 0 where
    pub node : SkipNode
    pub there : list.nodes p ≡ some node
    pub lt : cmp_lt node.key key ≡ true

  pub record Larger (p : ℕ) : Type 0 where
    pub node : SkipNode
    pub there : list.nodes p ≡ some node
    pub ge : cmp_lt node.key key ≡ false

  abbrev pub Before : ℕ → Type 0
  Before p = (p ≡ hdr) ⊎ Smaller p

  abbrev pub After : ℕ → Type 0
  After p = (p ≡ hdr) ⊎ Larger p

  -- Level `i` passes the key between `p` and the node that it shows.
  pub record Cut (i p : ℕ) : Type 0 where
    pub before : Before p
    pub to : ℕ
    pub cell : list.forward p i ≡ some to
    pub after : After to

  rank_le : (p : ℕ) → Before p → v.rank p ≤ list.count
  rank_le p (inl e) = rw e (omega (arith, v.rank_hdr))
  rank_le p (inr s) = (v.counted p (record { node = s.node; there = s.there })).1

  seek-Cut :
      (fuel i p : ℕ)
      → Before p
      → IsCell list.forward p i
      → list.count < v.rank p + fuel
      → (q : ℕ) × (seek fuel list key i p ≡ some q) × Cut i q
  unfolding seek
  seek-Cut zero i p b c h = absurd (omega (arith, rank_le p b))
  seek-Cut (suc fuel) i p b c h = elim (Bool-cases (c.to == hdr)) [
    | inl e ↦ (
      p,
      rw (seek, c.cell, e),
      record { before = b; to = c.to; cell = c.cell; after = inl (ground arith) },
    )
    | inr e ↦ elim (v.ahead p i c.to c.cell) [
      | inl f ↦ absurd (ground arith)
      | inr a ↦ elim (Bool-cases (cmp_lt a.shown.node.key key)) [
        | inl lt ↦
            let next : Before c.to =
              inr (record { node = a.shown.node; there = a.shown.there; lt = lt }) in
            let (q, run, cut) = seek-Cut fuel i c.to next a.tall (omega (arith, h, a.higher)) in
            (q, rw (seek, c.cell, e, a.shown.there, lt) run, cut)
        | inr ge ↦ (
          p,
          rw (seek, c.cell, e, a.shown.there, ge),
          record {
            before = b;
            to = c.to;
            cell = c.cell;
            after = inr (record { node = a.shown.node; there = a.shown.there; ge = ge });
          },
        )
      ]
    ]
  ]

  -- The entries of `update`, from level `i` on.
  abbrev pub Cuts : ℕ → List ℕ → Type 0
  Cuts i [] = Unit
  Cuts i (u ∷ us) = Cut i u × Cuts (suc i) us

  descend-Cuts :
      (k p : ℕ) (us : List ℕ)
      → Before p
      → IsCell list.forward p k
      → Cuts (suc k) us
      → (q : ℕ) × (update : List ℕ) × (descend (suc k) list key p us ≡ some (q, q ∷ update))
        × Cuts 0 (q ∷ update)
        × (suc (length update) ≡ suc k + length us)
  unfolding descend
  descend-Cuts zero p us b c cs =
      let (q, run, cut) = seek-Cut (suc list.count) 0 p b c (omega arith) in
      (q, us, rw (descend, run), (cut, cs), omega arith)
  descend-Cuts (suc k) p us b c cs =
      let (q, run, cut) = seek-Cut (suc list.count) (suc k) p b c (omega arith) in
      let below = v.down q k (record { to = cut.to; cell = cut.cell }) in
      let (r, update, rest, cuts, size) = descend-Cuts k q (q ∷ us) cut.before below (cut, cs) in
      (r, update, rw (descend, run) rest, cuts, omega (arith, size))

  -- The search from the header.
  pub search_lem :
      (q : ℕ) × (update : List ℕ) × (descend (suc list.level) list key hdr []
        ≡ some (q, q ∷ update))
      × Cuts 0 (q ∷ update)
      × (suc (length update) ≡ suc list.level)
  search_lem =
      let (q, update, run, cuts, size) =
        descend-Cuts list.level hdr [] (inl refl) (v.header list.level v.low) tt in
      (q, update, run, cuts, omega (arith, size))
