-- ===== src/Jikukan/Lookup.antt =====
-- `jikukan_lookup` on a valid list: it returns the one node with the key, or NULL where no node has it.
use silokatana.Base.{
  ap, ltb, ℕ, ◌≤◌, ◌<◌, ◌≡◌, ◌⊎◌, refl, sym, ◌∙◌, none, some, inl, inr, arith, List, Bool-cases,
  ◌==◌, true, false,
}
use silokatana.Base.CStr.{str_eq, str_eq_iff}
use silokatana.Jikukan.Defs.{SkipNode, Jikukan, hdr, cmp_lt, has_key, lookup}
use silokatana.Jikukan.Keys.{cmp_lt_trans, cmp_lt-congr_right, str_eq-not-cmp_lt}
use silokatana.Jikukan.Valid.{IsValid}
use silokatana.Jikukan.Search.{Before, Cut, search_lem, Larger}

-- No node has the key.
abbrev pub Absent : Jikukan → List ℕ → Type 0
Absent list key = (p : ℕ) (n : SkipNode) → list.nodes p ≡ some n → str_eq n.key key ≡ false

-- The node at `p` has it.
pub record Found (list : Jikukan) (key : List ℕ) : Type 0 where
  pub at : ℕ
  pub node : SkipNode
  pub there : list.nodes at ≡ some node
  pub same : str_eq node.key key ≡ true

module _ (list : Jikukan) (v : IsValid list) (key : List ℕ) where
  -- A node that is not smaller stands behind one that is.
  pub behind :
      (q p : ℕ) (n : SkipNode)
      → Before list v key q
      → list.nodes p ≡ some n
      → cmp_lt n.key key ≡ false
      → v.rank q < v.rank p
  behind q p n (inl e) t h =
      let zero_rank : v.rank q ≡ 0 = rw e v.rank_hdr in
      omega (arith, zero_rank, v.counted p (record { node = n; there = t }))
  behind q p n (inr s) t h = elim (Bool-cases (ltb (v.rank q) (v.rank p))) [
    | inl lt ↦ ground (arith, lt)
    | inr ge ↦ elim (Bool-cases (v.rank p == v.rank q)) [
      | inl same ↦
          let e : p ≡ q =
            v.once p q (record { node = n; there = t }) (record { node = s.node; there = s.there })
              (ground (arith, same)) in
          absurd (ground (arith, ap list.nodes e, s.there, s.lt))
      | inr other ↦
          let o = v.ordered p q n s.node t s.there (ground (arith, ge, other)) in
          absurd (cc (cmp_lt_trans n.key s.node.key key o s.lt))
    ]
  ]

  -- The node behind the cut of level 0 is the first that is not smaller.
  pub first :
      (q p : ℕ) (n : SkipNode) (c : Cut list v key 0 q)
      → list.nodes p ≡ some n
      → cmp_lt n.key key ≡ false
      → (y : Larger list v key c.to) × (v.rank c.to ≤ v.rank p)
  first q p n c t h =
      let far = behind q p n c.before t h in
      let (low, high) = v.counted p (record { node = n; there = t }) in
      elim (v.successor q c.to c.cell) [
        | inl (e, last) ↦ absurd (omega arith)
        | inr next ↦ elim c.after [
          | inl e ↦ absurd (ground (arith, ap v.rank e, v.rank_hdr))
          | inr y ↦ (y, omega arith)
        ]
      ]

  only :
      (q p : ℕ) (n : SkipNode) (c : Cut list v key 0 q)
      → list.nodes p ≡ some n
      → str_eq n.key key ≡ true
      → c.to ≡ p
  only q p n c t same =
      let (y, le) = first q p n c t (str_eq-not-cmp_lt n.key key same) in
      elim (Bool-cases (v.rank c.to == v.rank p)) [
        | inl e ↦
            v.once c.to p (record { node = y.node; there = y.there })
              (record { node = n; there = t }) (ground (arith, e))
        | inr e ↦
            let o = v.ordered c.to p y.node n y.there t (ground (arith, e, le)) in
            let eq = cmp_lt-congr_right n.key key y.node.key ((str_eq_iff n.key key).0 same) in
            absurd (ground (arith, o, eq, y.ge))
      ]

  not_hdr : (p : ℕ) → Larger list v key p → p == hdr ≡ false
  not_hdr p y = elim (Bool-cases (p == hdr)) [
    | inl e ↦
        let f : p ≡ hdr = ground (arith, e) in
        absurd (ground (arith, ap list.nodes f, v.no_node, y.there))
    | inr e ↦ e
  ]

  -- The test behind the search finds the node, or shows that there is none.
  pub has_key-cases :
      (q : ℕ) (c : Cut list v key 0 q)
      → ((f : Found list key) × (c.to ≡ f.at) × (has_key list key c.to ≡ some true))
        ⊎ (Absent list key × (has_key list key c.to ≡ some false))
  unfolding has_key
  has_key-cases q c = elim c.after [
    | inl e ↦ inr (
      λ p n t. elim (Bool-cases (str_eq n.key key)) [
        | inl same ↦ absurd (ground (arith, ap list.nodes (sym e ∙ only q p n c t same), v.no_node))
        | inr f ↦ f
      ],
      rw e,
    )
    | inr y ↦
        let off : c.to == hdr ≡ false = not_hdr c.to y in
        elim (Bool-cases (str_eq y.node.key key)) [
          | inl same ↦ inl (
            record { at = c.to; node = y.node; there = y.there; same = same },
            refl,
            rw (off, y.there, same),
          )
          | inr other ↦ inr (
            λ p n t. elim (Bool-cases (str_eq n.key key)) [
              | inl same ↦
                  absurd (ground (arith, ap list.nodes (only q p n c t same), y.there, other))
              | inr f ↦ f
            ],
            rw (off, y.there, other),
          )
        ]
  ]

  pub lookup-cases :
      ((f : Found list key) × (lookup list key ≡ some (some f.node)))
      ⊎ (Absent list key × (lookup list key ≡ some none))
  unfolding lookup
  lookup-cases =
      let (q, update, run, (cut, _), size) = search_lem list v key in
      elim (has_key-cases q cut) [
        | inl (f, e, found) ↦ inl (f, rw (lookup, run, cut.cell, found, e, f.there))
        | inr (absent, found) ↦ inr (absent, rw (lookup, run, cut.cell, found))
      ]
