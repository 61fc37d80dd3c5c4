-- ===== src/Silopit/Walk.antt =====
-- The walk along level 0 of a valid list, as storage/src/silopit.c makes it: each node once, in the
-- order of the keys.
use silokatana.Base.{
  if◌then◌else◌, ℕ, zero, suc, ◌+◌, ◌<◌, ◌≡◌, ◌⊎◌, refl, sym, ap, ◌∙◌, List, [], ◌∷◌, Option, none,
  some, Bool-cases, true, false, ◌==◌, inl, inr, length, arith, All, All-map, subst,
}
use mathlib.Core.List.{Memᴰ}
use silokatana.Base.CStr.{str_eq}
use silokatana.Jikukan.{
  SkipNode, Jikukan, hdr, cmp_lt, IsValid, lookup, lookup-Found, lookup-Absent,
}
use silokatana.Silopit.Files.{nodes_from, first_node}

-- The keys rise strictly.
abbrev pub Rising : List SkipNode → Type 0
Rising [] = Unit
Rising (n ∷ ns) = All (λ m. cmp_lt n.key m.key ≡ true) ns × Rising ns

module _ (list : Jikukan) (v : IsValid list) where
  abbrev StandsBehind : ℕ → SkipNode → Type 0
  StandsBehind r n = (q : ℕ) × (list.nodes q ≡ some n) × (r < v.rank q)

  -- The nodes of higher rank than `r`, each once.
  pub record Behind (r : ℕ) (xs : List SkipNode) : Type 0 where
    pub size : length xs + r ≡ list.count
    pub rising : Rising xs
    pub sound : All (StandsBehind r) xs
    pub complete : (q : ℕ) (n : SkipNode) → list.nodes q ≡ some n → r < v.rank q → Memᴰ n xs

  end_Behind : (r : ℕ) → r ≡ list.count → Behind r []
  end_Behind r e = record {
    size = omega arith;
    rising = tt;
    sound = tt;
    complete = λ q n t lt. absurd (omega (arith, v.counted q (record { node = n; there = t })));
  }

  cons_Behind :
      (r y : ℕ) (node : SkipNode) (xs : List SkipNode)
      → list.nodes y ≡ some node
      → v.rank y ≡ suc r
      → Behind (v.rank y) xs
      → Behind r (node ∷ xs)
  cons_Behind r y node xs t e b = record {
    size = omega (arith, b.size);
    rising = (All-map (λ m s. v.ordered y s.0 node m t s.1 s.2) xs b.sound, b.rising);
    sound = ((y, t, omega arith), All-map (λ m s. (s.0, s.1, omega (arith, s.2))) xs b.sound);
    complete = λ q n t' lt. elim (Bool-cases (v.rank q == v.rank y)) [
      | inl same ↦
          let p : q ≡ y =
            v.once q y (record { node = n; there = t' }) (record { node = node; there = t })
              (ground (arith, same)) in
          Memᴰ.head (ground (arith, ap list.nodes p, t, t'))
      | inr other ↦ Memᴰ.tail (b.complete q n t' (ground (arith, other)))
    ];
  }

  nodes_from-Behind :
      (fuel p y : ℕ)
      → list.forward p 0 ≡ some y
      → list.count < fuel + v.rank p
      → (xs : List SkipNode) × (nodes_from fuel list y ≡ some xs) × Behind (v.rank p) xs
  unfolding nodes_from
  nodes_from-Behind zero p y cell h = elim (v.owned p 0 y cell) [
    | inl e ↦ absurd (omega (arith, ap v.rank e, v.rank_hdr))
    | inr n ↦ absurd (omega (arith, v.counted p n))
  ]
  nodes_from-Behind (suc fuel) p y cell h = elim (v.successor p y cell) [
    | inl (e, last) ↦
        let stop : (y == hdr) ≡ true = ground (arith, e) in
        ([], rw (nodes_from, stop) refl, end_Behind (v.rank p) last)
    | inr next ↦ elim (v.ahead p 0 y cell) [
      | inl e ↦ absurd (omega (arith, ap v.rank e, v.rank_hdr))
      | inr a ↦
          let go : (y == hdr) ≡ false = elim (Bool-cases (y == hdr)) [
            | inl e ↦
                let q : y ≡ hdr = ground (arith, e) in
                absurd (ground (arith, ap list.nodes q, v.no_node, a.shown.there))
            | inr e ↦ e
          ] in
          let c = v.ground_cell y a.shown in
          let (xs, run, b) = nodes_from-Behind fuel y c.to c.cell (omega (arith, h, next)) in
          (
            a.shown.node ∷ xs,
            rw (nodes_from, go, a.shown.there, c.cell, run) refl,
            cons_Behind (v.rank p) y a.shown.node xs a.shown.there next b,
          )
    ]
  ]

  -- The walk from the header does not run out of fuel, and meets every node of a valid list once.
  pub first_node-Behind : (xs : List SkipNode) × (first_node list ≡ some xs) × Behind 0 xs
  unfolding first_node
  first_node-Behind =
      let c = v.header 0 (omega arith) in
      let (xs, run, b) =
        nodes_from-Behind (suc list.count) hdr c.to c.cell (omega (arith, v.rank_hdr)) in
      (xs, rw (c.cell, run) refl, subst (λ r. Behind r xs) v.rank_hdr b)

-- The first node with a key, node by node.
abbrev pub find_key : List SkipNode → List ℕ → Option SkipNode
find_key [] k = none
find_key (n ∷ ns) k = let rest = find_key ns k in if str_eq n.key k then some n else rest

pub All-Memᴰ :
    (P : SkipNode → Type 0) (xs : List SkipNode) (n : SkipNode) → All P xs → Memᴰ n xs → P n
All-Memᴰ P [] n h m = elim m [ ]
All-Memᴰ P (x ∷ xs) n (p, h) (Memᴰ.head e) = subst P (sym e) p
All-Memᴰ P (x ∷ xs) n (p, h) (Memᴰ.tail m) = All-Memᴰ P xs n h m

pub find_key-cases :
    (xs : List SkipNode) (k : List ℕ)
    → ((n : SkipNode) × (find_key xs k ≡ some n) × Memᴰ n xs × (str_eq n.key k ≡ true))
      ⊎ ((find_key xs k ≡ none) × All (λ n. str_eq n.key k ≡ false) xs)
find_key-cases [] k = inr (refl, tt)
find_key-cases (x ∷ xs) k = elim (Bool-cases (str_eq x.key k)) [
  | inl e ↦ inl (x, rw e refl, Memᴰ.head refl, e)
  | inr e ↦ elim (find_key-cases xs k) [
    | inl (n, run, m, same) ↦ inl (n, rw e run, Memᴰ.tail m, same)
    | inr (run, all) ↦ inr (rw e run, (e, all))
  ]
]

module _ (list : Jikukan) (v : IsValid list) (xs : List SkipNode) (b : Behind list v 0 xs) where
  -- A lookup in the list is a search of its nodes.
  pub lookup-Behind : (k : List ℕ) → lookup list k ≡ some (find_key xs k)
  lookup-Behind k = elim (find_key-cases xs k) [
    | inl (n, found, m, same) ↦
        let (q, t, lt) = All-Memᴰ (StandsBehind list v 0) xs n b.sound m in
        lookup-Found list v k (record { at = q; node = n; there = t; same = same })
        ∙ ap some (sym found)
    | inr (none_there, all) ↦
        lookup-Absent list v k (λ p n t.
          All-Memᴰ (λ x. str_eq x.key k ≡ false) xs n all
            (b.complete p n t (v.counted p (record { node = n; there = t })).0))
        ∙ ap some (sym none_there)
  ]

  -- What holds of every node of the list holds of the nodes of the walk.
  pub All-Behind :
      (P : SkipNode → Type 0) → ((p : ℕ) (n : SkipNode) → list.nodes p ≡ some n → P n) → All P xs
  All-Behind P h = All-map (λ m s. h s.0 m s.1) xs b.sound

-- On a valid list the walk along level 0 does not fault, its nodes are as many as `count` says and
-- rise strictly, and for every key `jikukan_lookup` finds what a search of these nodes, one after the
-- other, finds.
pub lookup-find_key :
    (list : Jikukan)
    → IsValid list
    → (xs : List SkipNode) × (first_node list ≡ some xs)
      × (length xs ≡ list.count)
      × Rising xs
      × ((k : List ℕ) → lookup list k ≡ some (find_key xs k))
lookup-find_key list v =
    let (xs, run, b) = first_node-Behind list v in
    (xs, run, omega (arith, b.size), b.rising, lookup-Behind list v xs b)
