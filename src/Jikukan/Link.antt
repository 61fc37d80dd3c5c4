-- ===== src/Jikukan/Link.antt =====
-- The loop that links a new node: it never faults, and the pointers that it leaves agree with the new
-- ranks.
use silokatana.Base.{
  Option-cases, ℕ, suc, ◌+◌, ◌≤◌, ◌<◌, ◌≡◌, ◌≢◌, ◌⊎◌, refl, sym, ap, ◌∙◌, Option, some, inl, inr,
  arith, List, [], ◌∷◌, Bool-cases, ◌==◌, ltb, length,
}
use silokatana.Jikukan.Defs.{Jikukan, link, set_forward, write_cell}
use silokatana.Jikukan.Valid.{IsCell, IsValid}
use silokatana.Jikukan.Search.{Cut, Cuts}
use silokatana.Jikukan.Ranks.{
  write_cell-cases, rank_up_to, old_node, rank_past, cells, Good, Next, Linked, Heads, cells-old,
  old-Good, old-next,
}

module _ (list : Jikukan) (v : IsValid list) (key : List ℕ) (q : ℕ) (start : Cut list v key 0 q)
    (top : ℕ) where
  module _ (f : ℕ → ℕ → Option ℕ) (k : ℕ) (l : Linked list v key q start top f k) (le : k ≤ top)
      (u : ℕ) (c : Cut list v key k u) where
    abbrev linked : ℕ → ℕ → Option ℕ
    linked = write_cell (write_cell f list.next k c.to) u k list.next

    read_u : f u k ≡ some c.to
    read_u =
        l.later u k (omega arith)
        ∙ cells-old list v key q start top u k (old_node list v key q start u c.before)
        ∙ c.cell

    read_x : f list.next k ≡ some 0
    read_x = l.later list.next k (omega arith) ∙ ground arith

    linked-cases :
        (p i y : ℕ)
        → linked p i ≡ some y
        → ((p ≡ u) × (i ≡ k) × (y ≡ list.next))
          ⊎ ((p ≡ list.next) × (i ≡ k) × (y ≡ c.to))
          ⊎ ((f p i ≡ some y) × (p ≡ u → i ≢ k) × (p ≡ list.next → i ≢ k))
    linked-cases p i y e =
        elim (write_cell-cases (write_cell f list.next k c.to) u k list.next p i y e) [
          | inl a ↦ inl a
          | inr (e₁, away) ↦ elim (write_cell-cases f list.next k c.to p i y e₁) [
            | inl b ↦ inr (inl b)
            | inr (e₂, apart) ↦ inr (inr (e₂, away, apart))
          ]
        ]

    linked-IsCell : (p i : ℕ) → IsCell f p i → IsCell linked p i
    linked-IsCell p i d = elim (Option-cases (linked p i)) [
      | inl e ↦ absurd (ground (arith, e, d.cell))
      | inr (y, e) ↦ record { to = y; cell = e }
    ]

    linked-Good : (p i y : ℕ) → i < suc k → linked p i ≡ some y → Good list v key q start top p i y
    linked-Good p i y lt e = elim (linked-cases p i y e) [
      | inl (a, b, d) ↦
          let here : IsCell (cells list v key q start top) y i = record {
            to = 0;
            cell = ground (arith, le);
          } in
          let low = rank_up_to list v key q start u c.before in
          let n = old_node list v key q start u c.before in
          inr (inl d, here, ground (arith, a, d, low, n))
      | inr (inl (a, b, d)) ↦ rw (d, b) (new_good p a)
      | inr (inr (e₁, away, apart)) ↦ elim (Bool-cases (ltb i k)) [
        | inl low ↦ l.good p i y (ground (arith, low)) e₁
        | inr high ↦
            let b : i ≡ k = ground (arith, high, lt) in
            let n : p ≢ list.next = λ a. apart a b in
            let g = sym (l.later p i (omega (arith, b))) ∙ e₁ in
            old-Good list v key q start top p i y n
              (sym (cells-old list v key q start top p i n) ∙ g)
      ]
    ]
      where
        new_good : (p : ℕ) → p ≡ list.next → Good list v key q start top p k c.to
        new_good p a = elim (v.ahead u k c.to c.cell) [
          | inl e ↦ inl e
          | inr h ↦ elim (rank_past list v key q start k u c) [
            | inl e ↦ inl e
            | inr past ↦
                let n : c.to ≢ list.next = λ g.
                  (let (gone, _) = v.fresh c.to 0 (omega arith) in
                    ground (arith, gone, h.shown.there)) in
                inr (
                  inr h.shown,
                  record {
                    to = h.tall.to;
                    cell = cells-old list v key q start top c.to k n ∙ h.tall.cell;
                  },
                  ground (arith, a, past, n),
                )
          ]
        ]

    linked-next :
        (k ≡ 0 → u ≡ q)
        → (p y : ℕ) → 0 < suc k
        → linked p 0 ≡ some y
        → Next list v key q start top p y
    linked-next first p y pos e = elim (linked-cases p 0 y e) [
      | inl (a, b, d) ↦
          let at_q = first (sym b) in
          let n = old_node list v key q start u c.before in
          inr (ground (arith, a, d, ap v.rank at_q, n))
      | inr (inl (a, b, d)) ↦ after_new p y a d (cell_q b)
      | inr (inr (e₁, away, apart)) ↦ elim (Bool-cases (k == 0)) [
        | inl zero_k ↦
            let b : 0 ≡ k = ground (arith, zero_k) in
            let n : p ≢ list.next = λ a. apart a b in
            let m : p ≢ q = λ a. away (a ∙ sym (first (sym b))) b in
            let g = sym (l.later p 0 (omega (arith, b))) ∙ e₁ in
            old-next list v key q start top p y n m
              (sym (cells-old list v key q start top p 0 n) ∙ g)
        | inr more ↦ l.next p y (ground (arith, more)) e₁
      ]
    ]
      where
        cell_q : 0 ≡ k → list.forward q 0 ≡ some c.to
        cell_q b = rw (← first (sym b), b) c.cell

        after_new :
            (p y : ℕ)
            → p ≡ list.next
            → y ≡ c.to
            → list.forward q 0 ≡ some c.to
            → Next list v key q start top p y
        after_new p y a d here = elim (v.successor q c.to here) [
          | inl (e, last) ↦ inl (d ∙ e, ground (arith, a, last))
          | inr n ↦ elim (v.ahead q 0 c.to here) [
            | inl e ↦ absurd (ground (arith, ap v.rank e, v.rank_hdr, n))
            | inr h ↦
                let m : c.to ≢ list.next = λ g.
                  (let (gone, _) = v.fresh c.to 0 (omega arith) in
                    ground (arith, gone, h.shown.there)) in
                inr (ground (arith, a, d, n, m))
          ]
        ]

    linked-only : (p i : ℕ) → IsCell linked p i → IsCell (cells list v key q start top) p i
    linked-only p i d = elim (linked-cases p i d.to d.cell) [
      | inl (a, b, e) ↦ l.only p i (record { to = c.to; cell = rw (a, b) read_u })
      | inr (inl (a, b, e)) ↦ l.only p i (record { to = 0; cell = rw (a, b) read_x })
      | inr (inr (e, _, _)) ↦ l.only p i (record { to = d.to; cell = e })
    ]

    step : (k ≡ 0 → u ≡ q) → Linked list v key q start top linked (suc k)
    step first = record {
      same = λ p i d. linked-IsCell p i (l.same p i d);
      only = λ p i d. linked-only p i d;
      later = λ p i h. ground (arith, l.later p i);
      good = linked-Good;
      next = linked-next first;
    }

    link-step : (us : List ℕ) → link f list.next k (u ∷ us) ≡ link linked list.next (suc k) us
    unfolding link set_forward
    link-step us =
        let w : write_cell f list.next k c.to u k ≡ some c.to =
          ground (arith, old_node list v key q start u c.before, read_u) in
        rw (link, read_u, set_forward, read_x, w)

  -- The whole loop.
  pub link-Linked :
      (f : ℕ → ℕ → Option ℕ) (k : ℕ) (us : List ℕ)
      → Linked list v key q start top f k
      → k + length us ≡ suc top
      → Cuts list v key k us
      → (k ≡ 0 → Heads list v key q start top us)
      → (g : ℕ → ℕ → Option ℕ) × (link f list.next k us ≡ some g)
        × Linked list v key q start top g (suc top)
  unfolding link
  link-Linked f k [] l size cuts first =
      let e : suc top ≡ k = omega (arith, size) in (f, refl, rw e l)
  link-Linked f k (u ∷ us) l size (cut, cuts) first =
      let (g, run, done) =
        link-Linked (linked f k l (omega arith) u cut) (suc k) us
          (step f k l (omega arith) u cut first) (omega arith) cuts (λ e. absurd (omega arith)) in
      (g, link-step f k l (omega arith) u cut us ∙ run, done)
