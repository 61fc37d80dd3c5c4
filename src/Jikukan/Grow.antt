-- ===== src/Jikukan/Grow.antt =====
-- The list with a new node is valid.
use silokatana.Base.{
  ◌∙◌, sym, ℕ, suc, ◌+◌, ◌≤◌, ◌<◌, ◌≡◌, ◌≢◌, ◌⊎◌, Option, Option-cases, none, some, inl, inr, arith,
  List, Bool-cases, ◌==◌, ltb, leb, true, false, if◌then◌else◌,
}
use silokatana.Base.CStr.{c_str}
use silokatana.Jikukan.Defs.{SkipNode, Jikukan, hdr, cmp_lt, max_level, update_node}
use silokatana.Jikukan.Keys.{cmp_lt-congr_left, cmp_lt-congr_right, cmp_lt_total}
use silokatana.Jikukan.Valid.{IsNode, IsCell, IsValid}
use silokatana.Jikukan.Search.{Cut}
use silokatana.Jikukan.Lookup.{Absent, behind}
use silokatana.Jikukan.Ranks.{
  new_rank, rank_up_to, cells, Good, Linked, cells-old, old-Good, rank_most,
}

module _ (list : Jikukan) (v : IsValid list) (key : List ℕ) (q : ℕ) (start : Cut list v key 0 q)
    (absent : Absent list key) (top : ℕ) (low : top ≤ max_level) (g : ℕ → ℕ → Option ℕ)
    (l : Linked list v key q start top g (suc top)) (node : SkipNode)
    (same : c_str node.key ≡ c_str key) (pool : List ℕ) where
  abbrev pub grown : Jikukan
  grown = record {
    count = list.count + 1;
    size = list.size;
    level = if ltb list.level top then top else list.level;
    pool = pool;
    next = list.next + 1;
    nodes = update_node list.nodes list.next node;
    forward = g;
  }

  abbrev rank : ℕ → ℕ
  rank = new_rank list v key q start

  abbrev cells₀ : ℕ → ℕ → Option ℕ
  cells₀ = cells list v key q start top

  -- A node of the new list is the new one or an old one.
  node-cases :
      (p : ℕ) (n : SkipNode)
      → grown.nodes p ≡ some n
      → ((p ≡ list.next) × (n ≡ node)) ⊎ ((p ≢ list.next) × (list.nodes p ≡ some n))
  node-cases p n e = elim (Bool-cases (p == list.next)) [
    | inl a ↦ inl (ground arith, ground (arith, a, e))
    | inr a ↦ inr (λ h. ground (arith, a, h), ground (arith, a, e))
  ]

  old_address : (p : ℕ) → IsNode list p → p ≢ list.next
  old_address p n h = let (gone, _) = v.fresh p 0 (omega arith) in ground (arith, gone, n.there)

  now : (p : ℕ) → IsNode list p → IsNode grown p
  now p n = record { node = n.node; there = ground (arith, old_address p n, n.there) }

  the_node : (p : ℕ) → p ≡ list.next → IsNode grown p
  the_node p e = record { node = node; there = ground arith }

  cell-cases :
      (p i : ℕ)
      → IsCell cells₀ p i
      → ((p ≡ list.next) × (i ≤ top)) ⊎ ((p ≢ list.next) × IsCell list.forward p i)
  cell-cases p i c = elim (Bool-cases (p == list.next)) [
    | inl a ↦ elim (Bool-cases (leb i top)) [
      | inl b ↦ inl (ground arith, ground (arith, b))
      | inr b ↦
          let e : p ≡ list.next = ground (arith, a) in
          let (_, no_cell) = v.fresh p i (omega (arith, e)) in
          absurd (ground (arith, no_cell, c.cell, b))
    ]
    | inr a ↦
        inr (λ h. ground (arith, a, h), record { to = c.to; cell = ground (arith, a, c.cell) })
  ]

  old_cell : (p i : ℕ) → IsCell list.forward p i → IsCell cells₀ p i
  old_cell p i c = elim (Bool-cases (p == list.next)) [
    | inl a ↦
        let e : p ≡ list.next = ground (arith, a) in
        let (_, no_cell) = v.fresh p i (omega (arith, e)) in
        absurd (ground (arith, no_cell, c.cell))
    | inr a ↦ record { to = c.to; cell = ground (arith, a, c.cell) }
  ]

  new_cell : (p i : ℕ) → p ≡ list.next → i ≤ top → IsCell cells₀ p i
  new_cell p i e h = record { to = 0; cell = ground arith }

  -- Every pointer is good.
  good : (p i y : ℕ) → g p i ≡ some y → Good list v key q start top p i y
  good p i y e = elim (Bool-cases (leb i top)) [
    | inl low_ ↦ l.good p i y (ground (arith, low_)) e
    | inr high ↦
        let c = sym (l.later p i (ground (arith, high))) ∙ e in
        elim (cell-cases p i (record { to = y; cell = c })) [
          | inl (a, b) ↦ absurd (ground (arith, b, high))
          | inr (n, d) ↦
              old-Good list v key q start top p i y n
                (sym (cells-old list v key q start top p i n) ∙ c)
        ]
  ]

  grown-counted : (p : ℕ) → IsNode grown p → (0 < rank p) × (rank p ≤ list.count + 1)
  grown-counted p n = elim (node-cases p n.node n.there) [
    | inl (a, _) ↦
        let most = rank_most list v key q start in (ground (arith, a), ground (arith, a, most))
    | inr (a, t) ↦
        let (pos, most) = v.counted p (record { node = n.node; there = t }) in
        (ground (arith, pos, a), ground (arith, most, a))
  ]

  -- The new rank is no old one, and the old ones stay apart.
  old_rank : (p : ℕ) → p ≢ list.next → rank p ≢ suc (v.rank q)
  old_rank p a h = ground arith

  grown-once : (p r : ℕ) → IsNode grown p → IsNode grown r → rank p ≡ rank r → p ≡ r
  grown-once p r n m e = elim (node-cases p n.node n.there) [
    | inl (a, _) ↦ elim (node-cases r m.node m.there) [
      | inl (b, _) ↦ a ∙ sym b
      | inr (b, _) ↦ absurd (old_rank r b (ground (arith, a, e)))
    ]
    | inr (a, t) ↦ elim (node-cases r m.node m.there) [
      | inl (b, _) ↦ absurd (old_rank p a (ground (arith, b, e)))
      | inr (b, s) ↦
          v.once p r (record { node = n.node; there = t }) (record { node = m.node; there = s })
            (ground (arith, a, b, e))
    ]
  ]

  grown-ordered :
      (p r : ℕ) (n m : SkipNode)
      → grown.nodes p ≡ some n
      → grown.nodes r ≡ some m
      → rank p < rank r
      → cmp_lt n.key m.key ≡ true
  grown-ordered p r n m s t lt = elim (node-cases p n s) [
    | inl (a, e) ↦ elim (node-cases r m t) [
      | inl (b, _) ↦ absurd (ground (arith, a, b, lt))
      | inr (b, t') ↦
          let far : v.rank q < v.rank r = ground (arith, a, b, lt) in
          let big : cmp_lt m.key key ≡ false = not_smaller r m t' far in
          let o = cmp_lt_total m.key key big (absent r m t') in
          rw e (cmp_lt-congr_left node.key key m.key same ∙ o)
    ]
    | inr (a, s') ↦ elim (node-cases r m t) [
      | inl (b, e) ↦
          let near : v.rank p ≤ v.rank q = ground (arith, a, b, lt) in
          rw e (cmp_lt-congr_right node.key key n.key same ∙ smaller p n s' near)
      | inr (b, t') ↦ v.ordered p r n m s' t' (ground (arith, a, b, lt))
    ]
  ]
    where
      not_smaller :
          (r : ℕ) (m : SkipNode)
          → list.nodes r ≡ some m
          → v.rank q < v.rank r
          → cmp_lt m.key key ≡ false
      not_smaller r m t far = elim (Bool-cases (cmp_lt m.key key)) [
        | inl c ↦
            let up =
              rank_up_to list v key q start r (inr (record { node = m; there = t; lt = c })) in
            absurd (omega arith)
        | inr c ↦ c
      ]

      smaller :
          (p : ℕ) (n : SkipNode)
          → list.nodes p ≡ some n
          → v.rank p ≤ v.rank q
          → cmp_lt n.key key ≡ true
      smaller p n s near = elim (Bool-cases (cmp_lt n.key key)) [
        | inl c ↦ c
        | inr c ↦ let far = behind list v key q p n start.before s c in absurd (omega arith)
      ]

  grown-fresh : (p i : ℕ) → list.next + 1 ≤ p → (grown.nodes p ≡ none) × (g p i ≡ none)
  grown-fresh p i h =
      let (gone, no_cell) = v.fresh p i (omega arith) in
      let far : p ≢ list.next = λ e. omega (arith, e) in
      (ground (arith, gone, far), no_pointer no_cell)
    where
      no_pointer : list.forward p i ≡ none → g p i ≡ none
      no_pointer no_cell = elim (Option-cases (g p i)) [
        | inl e ↦ e
        | inr (y, e) ↦ elim (cell-cases p i (l.only p i (record { to = y; cell = e }))) [
          | inl (a, _) ↦ absurd (omega (arith, a))
          | inr (a, c) ↦ absurd (ground (arith, no_cell, c.cell))
        ]
      ]

  pub grown-IsValid : IsValid grown
  grown-IsValid = record {
    rank = rank;
    rank_hdr = ground (arith, v.rank_hdr, v.started);
    low = ground (arith, v.low);
    no_node = ground (arith, v.no_node, v.started);
    header = λ i h. l.same hdr i (old_cell hdr i (v.header i h));
    idle = λ i a h.
        l.later hdr i (ground (arith, a))
        ∙ cells-old list v key q start top hdr i (λ e. omega (arith, e, v.started))
        ∙ v.idle i (ground (arith, a)) h;
    owned = λ p i y e. elim (cell-cases p i (l.only p i (record { to = y; cell = e }))) [
      | inl (a, _) ↦ inr (the_node p a)
      | inr (a, c) ↦ elim (v.owned p i c.to c.cell) [ inl h ↦ inl h | inr n ↦ inr (now p n) ]
    ];
    ground_cell = λ p n. elim (node-cases p n.node n.there) [
      | inl (a, _) ↦ l.same p 0 (new_cell p 0 a (omega arith))
      | inr (a, t) ↦
          l.same p 0 (old_cell p 0 (v.ground_cell p (record { node = n.node; there = t })))
    ];
    down = λ p i c. elim (cell-cases p (suc i) (l.only p (suc i) c)) [
      | inl (a, h) ↦ l.same p i (new_cell p i a (omega arith))
      | inr (a, d) ↦ l.same p i (old_cell p i (v.down p i d))
    ];
    ahead = λ p i y e. elim (good p i y e) [
      | inl a ↦ inl a
      | inr (inl a, c, lt) ↦ inr (record { shown = the_node y a; tall = l.same y i c; higher = lt })
      | inr (inr n, c, lt) ↦ inr (record { shown = now y n; tall = l.same y i c; higher = lt })
    ];
    successor = λ p y e. elim (l.next p y (omega arith) e) [
      | inl (a, last) ↦ inl (a, omega (arith, last))
      | inr n ↦ inr n
    ];
    counted = grown-counted;
    once = grown-once;
    ordered = grown-ordered;
    started = omega (arith, v.started);
    fresh = grown-fresh;
  }
