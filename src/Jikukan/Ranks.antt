-- ===== src/Jikukan/Ranks.antt =====
-- The ranks behind an insertion: the new node stands behind the last smaller one, and every pointer of
-- the old list agrees with the new ranks.
use silokatana.Base.{
  ℕ, suc, ◌≤◌, ◌<◌, ◌≡◌, ◌≢◌, ◌⊎◌, sym, ap, ◌∙◌, Option, some, inl, inr, arith, List, [], ◌∷◌,
  Bool-cases, ◌==◌, ◌&&◌, ltb, leb, if◌then◌else◌,
}
use silokatana.Jikukan.Defs.{Jikukan, hdr, write_cell}
use silokatana.Jikukan.Keys.{cmp_lt_trans}
use silokatana.Jikukan.Valid.{IsNode, IsCell, IsValid}
use silokatana.Jikukan.Search.{Before, Cut}
use silokatana.Jikukan.Lookup.{behind}

-- A write to a cell, and what a read sees of it.
pub write_cell-cases :
    (f : ℕ → ℕ → Option ℕ) (p i y q j w : ℕ)
    → write_cell f p i y q j ≡ some w
    → ((q ≡ p) × (j ≡ i) × (w ≡ y)) ⊎ ((f q j ≡ some w) × (q ≡ p → j ≢ i))
write_cell-cases f p i y q j w e = elim (Bool-cases (q == p)) [
  | inl a ↦ elim (Bool-cases (j == i)) [
    | inl b ↦ inl (ground arith, ground arith, ground (arith, a, b, e))
    | inr b ↦ inr (ground (arith, a, b, e), λ h k. ground (arith, b, k))
  ]
  | inr a ↦ inr (ground (arith, a, e), λ h k. ground (arith, a, h))
]

module _ (list : Jikukan) (v : IsValid list) (key : List ℕ) (q : ℕ)
    (start : Cut list v key 0 q) where
  abbrev pub new_rank : ℕ → ℕ
  new_rank p =
      if p == list.next
      then suc (v.rank q)
      else if ltb (v.rank q) (v.rank p)
      then suc (v.rank p)
      else v.rank p

  -- Every node that is smaller ranks up to `q`.
  pub rank_up_to : (u : ℕ) → Before list v key u → v.rank u ≤ v.rank q
  rank_up_to u (inl e) = let z : v.rank u ≡ 0 = rw e v.rank_hdr in omega arith
  rank_up_to u (inr s) = elim (Bool-cases (ltb (v.rank q) (v.rank u))) [
    | inl lt ↦
        let (low, high) = v.counted u (record { node = s.node; there = s.there }) in
        elim (v.successor q start.to start.cell) [
          | inl (e, last) ↦ absurd (ground (arith, lt, high, last))
          | inr next ↦ elim start.after [
            | inl e ↦ absurd (ground (arith, ap v.rank e, v.rank_hdr, next))
            | inr y ↦ elim (Bool-cases (v.rank start.to == v.rank u)) [
              | inl same ↦
                  let e : start.to ≡ u =
                    v.once start.to u (record { node = y.node; there = y.there })
                      (record { node = s.node; there = s.there }) (ground (arith, same)) in
                  absurd (ground (arith, ap list.nodes e, s.there, s.lt, y.there, y.ge))
              | inr other ↦
                  let o =
                    v.ordered start.to u y.node s.node y.there s.there
                      (ground (arith, other, lt, next)) in
                  absurd (ground (arith, cmp_lt_trans y.node.key s.node.key key o s.lt, y.ge))
            ]
          ]
        ]
    | inr ge ↦ ground (arith, ge)
  ]

  pub rank_most : v.rank q ≤ list.count
  rank_most = rank_bound start.before
    where
      rank_bound : Before list v key q → v.rank q ≤ list.count
      rank_bound (inl f) = rw f (omega (arith, v.rank_hdr))
      rank_bound (inr s) = (v.counted q (record { node = s.node; there = s.there })).1

  pub old_node : (u : ℕ) → Before list v key u → u ≢ list.next
  old_node u (inl e) h = omega (arith, v.started)
  old_node u (inr s) h = let (gone, _) = v.fresh u 0 (omega arith) in ground (arith, gone, s.there)

  -- The node that a cut shows ranks behind `q`.
  pub rank_past : (i u : ℕ) (c : Cut list v key i u) → (c.to ≡ hdr) ⊎ (v.rank q < v.rank c.to)
  rank_past i u c = elim c.after [
    | inl e ↦ inl e
    | inr y ↦ inr (behind list v key q c.to y.node start.before y.there y.ge)
  ]

  module _ (top : ℕ) where
    -- The memory with the new node's array.
    abbrev pub cells : ℕ → ℕ → Option ℕ
    cells p i = if p == list.next && leb i top then some 0 else list.forward p i

    abbrev pub Shown : ℕ → Type 0
    Shown y = (y ≡ list.next) ⊎ IsNode list y

    abbrev pub Good : ℕ → ℕ → ℕ → Type 0
    Good p i y = (y ≡ hdr) ⊎ (Shown y × IsCell cells y i × (new_rank p < new_rank y))

    abbrev pub Heads : List ℕ → Type 0
    Heads [] = Unit
    Heads (u ∷ us) = u ≡ q

    abbrev pub Next : ℕ → ℕ → Type 0
    Next p y = ((y ≡ hdr) × (new_rank p ≡ suc list.count)) ⊎ (new_rank y ≡ suc (new_rank p))

    -- The levels below `k` are linked.
    pub record Linked (f : ℕ → ℕ → Option ℕ) (k : ℕ) : Type 0 where
      pub same : (p i : ℕ) → IsCell cells p i → IsCell f p i
      pub only : (p i : ℕ) → IsCell f p i → IsCell cells p i
      pub later : (p i : ℕ) → k ≤ i → f p i ≡ cells p i
      pub good : (p i y : ℕ) → i < k → f p i ≡ some y → Good p i y
      pub next : (p y : ℕ) → 0 < k → f p 0 ≡ some y → Next p y

    pub cells-old : (p i : ℕ) → p ≢ list.next → cells p i ≡ list.forward p i
    cells-old p i h = ground arith

    -- A pointer of the old list is good.
    pub old-Good : (p i y : ℕ) → p ≢ list.next → list.forward p i ≡ some y → Good p i y
    old-Good p i y h e = elim (v.ahead p i y e) [
      | inl f ↦ inl f
      | inr a ↦
          let n : y ≢ list.next = λ g.
            (let (gone, _) = v.fresh y 0 (omega arith) in ground (arith, gone, a.shown.there)) in
          inr (
            inr a.shown,
            record { to = a.tall.to; cell = cells-old y i n ∙ a.tall.cell },
            ground (arith, a.higher),
          )
    ]

    rank-eq : (p : ℕ) → (p ≡ hdr) ⊎ IsNode list p → v.rank p ≡ v.rank q → p ≡ q
    rank-eq p (inl e) h = elim start.before [
      | inl f ↦ e ∙ sym f
      | inr s ↦
          let z : v.rank p ≡ 0 = rw e v.rank_hdr in
          absurd (omega (arith, z, h, v.counted q (record { node = s.node; there = s.there })))
    ]
    rank-eq p (inr n) h = elim start.before [
      | inl f ↦
          let z : v.rank q ≡ 0 = rw f v.rank_hdr in absurd (omega (arith, z, h, v.counted p n))
      | inr s ↦ v.once p q n (record { node = s.node; there = s.there }) h
    ]

    -- At level 0 the pointers of the old list, but for that of `q`, show the next node still.
    pub old-next : (p y : ℕ) → p ≢ list.next → p ≢ q → list.forward p 0 ≡ some y → Next p y
    old-next p y h other e =
        let apart : v.rank p ≢ v.rank q = λ r. other (rank-eq p (v.owned p 0 y e) r) in
        elim (v.successor p y e) [
          | inl (f, last) ↦ let most = rank_most in inl (f, ground (arith, apart, last, most))
          | inr n ↦ elim (v.ahead p 0 y e) [
            | inl f ↦ absurd (ground (arith, ap v.rank f, v.rank_hdr, n))
            | inr a ↦
                let m : y ≢ list.next = λ g.
                  (let (gone, _) = v.fresh y 0 (omega arith) in
                    ground (arith, gone, a.shown.there)) in
                inr (ground (arith, apart, n, m))
          ]
        ]
