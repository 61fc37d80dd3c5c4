-- ===== src/Jikukan/Enter.antt =====
-- `jikukan_insert` implements the update of the map, on every path.
use silokatana.Base.{
  length-replicate, length-take, length-append, ap, ℕ, zero, suc, ◌+◌, ◌-◌, ◌≤◌, ◌<◌, ◌≡◌, ◌≢◌, ◌⊎◌,
  refl, Option, some, inl, inr, arith, List, [], ◌∷◌, ◌++◌, Bool, Bool-cases, ◌==◌, ltb, true,
  false, if◌then◌else◌, length, take, replicate, lt→ltb, le→ltb, ◌*◌,
}
use silokatana.Base.CStr.{c_str, str_eq, str_eq_iff}
use silokatana.Jikukan.Defs.{
  SkipNode, Opt, Jikukan, hdr, max_level, max_key_size, insert, notfull, overwrite, add_node,
  new_level, pool_alloc, link,
}
use silokatana.Jikukan.Valid.{IsValid}
use silokatana.Jikukan.Search.{Cut, Cuts, search_lem}
use silokatana.Jikukan.Lookup.{Absent, Found, has_key-cases}
use silokatana.Jikukan.Ranks.{Heads, cells, Linked}
use silokatana.Jikukan.Link.{link-Linked}
use silokatana.Jikukan.Insert.{
  before_write, overwritten, overwritten-IsValid, written, key_array-c_str,
}
use silokatana.Jikukan.Grow.{grown, grown-IsValid}
use silokatana.Jikukan.Maps.{
  Entry, entry, put, Refines, Enters, str_eq_sym, str_eq_trans, Enters-Refines,
}

-- The two ways of an insertion.
module _ (list : Jikukan) (v : IsValid list) (key : List ℕ) (val : ℕ) (opt : Opt) where
  overwritten-Enters :
      (f : Found list key) → Enters list (overwritten list v key f val opt) key (val, opt)
  overwritten-Enters f = record {
    found = record {
      at = f.at;
      node = written list v key f val opt;
      there = ground arith;
      same = f.same;
    };
    is_entry = refl;
    keeps = λ k other g.
        (let apart : g.at ≢ f.at = λ e.
            (let n : g.node ≡ f.node = ground (arith, ap list.nodes e, g.there, f.there) in
              let both =
                str_eq_trans k g.node.key key (str_eq_sym g.node.key k g.same) (rw n f.same) in
              cc (both, other)) in
          (
            record {
              at = g.at;
              node = g.node;
              there = ground (arith, apart, g.there);
              same = g.same;
            },
            refl,
          ));
    adds = λ k other absent p n e.
        (let (m, t, same) = before_write list v key f val opt p n e in rw (← same) (absent p m t));
  }

  module _ (q : ℕ) (start : Cut list v key 0 q) (absent : Absent list key) (top : ℕ)
      (low : top ≤ max_level) (g : ℕ → ℕ → Option ℕ) (l : Linked list v key q start top g (suc top))
      (node : SkipNode) (same : c_str node.key ≡ c_str key) (pool : List ℕ) where
    grown-Enters :
        entry (some node) ≡ some (val, opt)
        → Enters list (grown list v key q start absent top low g l node same pool) key (val, opt)
    grown-Enters is = record {
      found = record {
        at = list.next;
        node = node;
        there = ground arith;
        same = (str_eq_iff node.key key).1 same;
      };
      is_entry = is;
      keeps = λ k other f.
          (let apart : f.at ≢ list.next = λ e.
              (let (gone, _) = v.fresh f.at 0 (omega (arith, e)) in
                ground (arith, gone, f.there)) in
            (
              record {
                at = f.at;
                node = f.node;
                there = ground (arith, apart, f.there);
                same = f.same;
              },
              refl,
            ));
      adds = λ k other none_ p n e. elim (Bool-cases (p == list.next)) [
        | inl a ↦ elim (Bool-cases (str_eq n.key k)) [
          | inl both ↦
              let is_node : n ≡ node = ground (arith, a, e) in
              let eq =
                str_eq_trans k n.key key (str_eq_sym n.key k both)
                  (rw is_node ((str_eq_iff node.key key).1 same)) in
              cc (eq, other)
          | inr f ↦ f
        ]
        | inr a ↦ none_ p n (ground (arith, a, e))
      ];
    }

module _ (list : Jikukan) (v : IsValid list) (key : List ℕ) where
  -- The entries of `update` for the levels that the new node adds.
  raised-Cuts :
      (n i : ℕ) → list.level < i → i + n ≤ suc max_level → Cuts list v key i (replicate n hdr)
  raised-Cuts zero i h le = tt
  raised-Cuts (suc n) i h le = (
    record { before = inl refl; to = hdr; cell = v.idle i h (omega arith); after = inl refl },
    raised-Cuts n (suc i) (omega arith) (omega arith),
  )

  Cuts-append :
      (i : ℕ) (us ws : List ℕ)
      → Cuts list v key i us
      → Cuts list v key (i + length us) ws
      → Cuts list v key i (us ++ ws)
  Cuts-append i [] ws c d = let e : i ≡ i + 0 = omega arith in rw e d
  Cuts-append i (u ∷ us) ws (c, cs) d =
      let e : suc i + length us ≡ i + suc (length us) = omega arith in
      (c, Cuts-append (suc i) us ws cs (rw e d))

  Cuts-take : (n i : ℕ) (us : List ℕ) → Cuts list v key i us → Cuts list v key i (take n us)
  Cuts-take zero i us c = tt
  Cuts-take (suc n) i [] c = tt
  Cuts-take (suc n) i (u ∷ us) (c, cs) = (c, Cuts-take n (suc i) us cs)

  module _ (q : ℕ) (update : List ℕ) (cut : Cut list v key 0 q) (cuts : Cuts list v key 1 update)
      (size : suc (length update) ≡ suc list.level) (top : ℕ) (low : top ≤ max_level) where
    raised : List ℕ
    raised = if ltb list.level top then replicate (top - list.level) hdr else []

    all : List ℕ
    all = take (suc top) ((q ∷ update) ++ raised)

    all-Cuts : Cuts list v key 0 all
    unfolding all raised
    all-Cuts =
        Cuts-take (suc top) 0 ((q ∷ update) ++ raised)
          (Cuts-append 0 (q ∷ update) raised (cut, cuts) (more (Bool-cases (ltb list.level top))))
      where
        more :
            (ltb list.level top ≡ true) ⊎ (ltb list.level top ≡ false)
            → Cuts list v key
                (0 + length (q ∷ update))
                (if ltb list.level top then replicate (top - list.level) hdr else [])
        more (inl e) = rw e (
            raised-Cuts (top - list.level) (0 + length (q ∷ update)) (omega (arith, size))
              (ground (arith, size, e, low)))
        more (inr e) = rw e tt

    length-raised : length raised ≡ top - list.level
    unfolding raised
    length-raised = ground (arith, length-replicate (top - list.level) hdr)

    length-all : length all ≡ suc top
    unfolding all
    length-all = omega (
      arith,
      length-take (suc top) ((q ∷ update) ++ raised),
      length-append (q ∷ update) raised,
      length-raised,
      size,
    )

    all-Heads : Heads list v key q cut top all
    unfolding all
    all-Heads = refl

    linked_all :
        (g : ℕ → ℕ → Option ℕ) × (link (cells list v key q cut top) list.next 0 all ≡ some g)
        × Linked list v key q cut top g (suc top)
    linked_all =
        link-Linked list v key q cut top (cells list v key q cut top) 0 all
          (record {
            same = λ p i c. c;
            only = λ p i c. c;
            later = λ p i h. refl;
            good = λ p i y h. absurd (omega arith);
            next = λ p y h. absurd (omega arith);
          })
          (omega (arith, length-all)) all-Cuts (λ e. all-Heads)

new_level-le : (coin : ℕ → Bool) (draw left : ℕ) → new_level coin draw left ≤ left
unfolding new_level
new_level-le coin draw zero = omega arith
new_level-le coin draw (suc left) = ground (arith, new_level-le coin (draw + 1) left)

module _ (coin : ℕ → Bool) (list : Jikukan) (m : List ℕ → Option Entry) (key : List ℕ) (val : ℕ)
    (opt : Opt) (r : Refines list m) where
  -- While the list is not full and the key fits its array, `jikukan_insert` does not fault and returns
  -- 1: the list stays valid, and its lookups find the new entry under the key and the old ones elsewhere.
  pub insert-Refines :
      list.count < list.size
      → length (c_str key) ≤ max_key_size
      → (list' : Jikukan) × (insert coin list key val opt ≡ some (1, list'))
        × Refines list' (put m key (val, opt))
        × (list'.size ≡ list.size)
        × (list'.count ≤ list.count + 1)
  unfolding insert notfull overwrite add_node all raised
  insert-Refines room fits =
      let v = r.valid in
      let open_ : ltb list.count list.size ≡ true = lt→ltb list.count list.size room in
      let (q, update, run, (cut, cuts), size) = search_lem list v key in
      elim (has_key-cases list v key q cut) [
        | inl (f, e, found) ↦ (
          overwritten list v key f val opt,
          rw (insert, notfull, open_, run, cut.cell, found, overwrite, e, f.there, e),
          Enters-Refines list (overwritten list v key f val opt) m key (val, opt) r
              (overwritten-IsValid list v key f val opt) (overwritten-Enters list v key val opt f),
          refl,
          omega arith,
        )
        | inr (absent, found) ↦
            let top = new_level coin 0 max_level in
            let low = new_level-le coin 0 max_level in
            let (block, made, same) = key_array-c_str key fits in
            let (g, linked, l) = linked_all list v key q update cut cuts size top low in
            let node : SkipNode = record { val = val; opt = opt; key = block } in
            let pool = pool_alloc list.pool (56 + top * 8) in
            (
              grown list v key q cut absent top low g l node same pool,
              rw (insert, notfull, open_, run, cut.cell, found, add_node, made, linked),
              Enters-Refines list (grown list v key q cut absent top low g l node same pool) m key
                  (val, opt) r (grown-IsValid list v key q cut absent top low g l node same pool)
                  (grown-Enters list v key val opt q cut absent top low g l node same pool refl),
              refl,
              omega arith,
            )
      ]

  -- A full list is as it was, and the result is 0.
  pub insert_full : list.size ≤ list.count → insert coin list key val opt ≡ some (0, list)
  unfolding insert notfull
  insert_full full =
      let e : ltb list.count list.size ≡ false = le→ltb list.count list.size full in
      rw (insert, notfull, e)
