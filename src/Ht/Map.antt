-- ===== src/Ht/Map.antt =====
-- The table as a map from strings: `get` after `set` and after `remove`.
use silokatana.Base.{
  ℕ, ◌+◌, ◌%◌, ◌≡◌, ◌≤◌, refl, true, false, none, some, List, [], ◌∷◌, ◌==◌, if◌then◌else◌, arith,
  Bool-cases, Option-cases, inl, inr, ◌≢◌, ◌⊎◌,
}
use silokatana.Base.CStr.{str_eq, str_eq_iff, c_str}
use silokatana.Util.{djb_hash, djb_hash-c_str}
use silokatana.Ht.Defs.{HtNode, Ht, find_slot, set, walk, get, unlink, remove}

str_eq_left : (j k l : List ℕ) → str_eq j k ≡ true → str_eq j l ≡ str_eq k l
str_eq_left j k l e = ground (arith, str_eq_iff j k, str_eq_iff j l, str_eq_iff k l)

hash_eq : (j k : List ℕ) → str_eq j k ≡ true → djb_hash j ≡ djb_hash k
hash_eq j k e = djb_hash-c_str j k ((str_eq_iff j k).0 e)

str_eq_symm : (j k : List ℕ) → str_eq j k ≡ str_eq k j
str_eq_symm j k = ground (arith, str_eq_iff j k, str_eq_iff k j)

module _ {ℓ} {V : Type ℓ} where
  -- How many nodes of a chain have the key.
  abbrev pub count : List ℕ → List (HtNode V) → ℕ
  count k [] = 0
  count k (node ∷ next) = (if str_eq k node.key then 1 else 0) + count k next

  -- No string stands twice in a chain.
  pub record IsDistinct (h : Ht V) : Type ℓ where
    pub once : (k : List ℕ) → count k (h.nodes (djb_hash k % h.cap)) ≤ 1

  walk-eq-none : (k : List ℕ) (c : List (HtNode V)) → count k c ≡ 0 → walk k c ≡ none
  unfolding walk
  walk-eq-none k [] h = refl
  walk-eq-none k (node ∷ next) h = ground (arith, walk-eq-none k next)

  count-eq-zero : (k : List ℕ) (c : List (HtNode V)) → walk k c ≡ none → count k c ≡ 0
  unfolding walk
  count-eq-zero k [] h = refl
  count-eq-zero k (node ∷ next) h = ground (arith, count-eq-zero k next)

  walk_congr :
      (j k : List ℕ) (c : List (HtNode V))
      → str_eq j k ≡ true
      → (walk j c ≡ walk k c) × (count j c ≡ count k c)
  unfolding walk
  walk_congr j k [] e = (refl, refl)
  walk_congr j k (node ∷ next) e =
      let (p, q) = walk_congr j k next e in rw (str_eq_left j k node.key e, p, q) (refl, refl)

  -- What `ht_get` finds after `ht_set`: the new value under the new key, the old one elsewhere.
  pub get-set :
      (h : Ht V) (k j : List ℕ) (v : V)
      → get (set h k v) j ≡ (if str_eq j k then some v else get h j)
  unfolding get set find_slot
  get-set h k j v =
      let same = djb_hash k % h.cap == djb_hash j % h.cap in
      elim (Bool-cases same) [
        | inl e ↦ let q : djb_hash k % h.cap ≡ djb_hash j % h.cap = ground arith in rw (e, q)
        | inr e ↦ elim (Bool-cases (str_eq j k)) [
          | inl f ↦ absurd (ground (arith, hash_eq j k f))
          | inr f ↦ rw (e, f)
        ]
      ]

  pub set-IsDistinct :
      (h : Ht V) (k : List ℕ) (v : V) → IsDistinct h → get h k ≡ none → IsDistinct (set h k v)
  unfolding get set find_slot
  set-IsDistinct h k v d absent = record {
    once = λ j. ground (
      arith,
      d.once j,
      hash_eq j k,
      count-eq-zero k (h.nodes (djb_hash k % h.cap)) absent,
      walk_congr j k (h.nodes (djb_hash k % h.cap)),
    );
  }

  -- What is left of a chain without its first node that has the key.
  pub record Unlinked (k : List ℕ) (c c' : List (HtNode V)) : Type ℓ where
    pub found : walk k c ≢ none
    pub fewer : (j : List ℕ) → count j c' ≤ count j c
    pub walks : (j : List ℕ) → count k c ≤ 1 → walk j c' ≡ (if str_eq j k then none else walk j c)

  unlink-none : (k : List ℕ) (c : List (HtNode V)) → unlink k c ≡ none → walk k c ≡ none
  unfolding unlink walk
  unlink-none k [] h = refl
  unlink-none k (node ∷ next) h = ground (arith, unlink-none k next)

  unlink-some : (k : List ℕ) (c c' : List (HtNode V)) → unlink k c ≡ some c' → Unlinked k c c'
  unfolding unlink walk
  unlink-some k [] c' h = cc
  unlink-some k (node ∷ next) c' h = elim (Bool-cases (str_eq k node.key)) [
    | inl here ↦
        let e : next ≡ c' = ground arith in
        record {
          found = ground arith;
          fewer = λ j. rw (← e) (omega arith);
          walks = λ j one. rw (← e) (
              ground (
                arith,
                walk-eq-none k next,
                walk_congr j k next,
                str_eq_left j k node.key,
                str_eq_symm j k,
                str_eq_left k node.key j,
                str_eq_symm node.key j,
              ));
        }
    | inr other ↦ elim (Option-cases (unlink k next)) [
      | inl e ↦ cc (ground_none e other h)
      | inr (d, e) ↦
          let r = unlink-some k next d e in
          let f : node ∷ d ≡ c' = ground arith in
          record {
            found = ground (arith, r.found);
            fewer = λ j. rw (← f) (omega (arith, r.fewer j));
            walks = λ j one. rw (← f) (ground (arith, r.walks j, str_eq_left j k node.key));
          }
    ]
  ]
    where
      ground_none :
          unlink k next ≡ none
          → str_eq k node.key ≡ false
          → (if str_eq k node.key
              then some next
              else elim (unlink k next) [ none ↦ none | some c ↦ some (node ∷ c) ])
            ≡ some c'
          → false ≡ true
      ground_none e o q = ground arith

  -- In a table with no key twice, `ht_remove` makes `ht_get` find nothing under the key, and every
  -- other key keeps its value.
  pub get-remove :
      (h : Ht V) (k j : List ℕ)
      → IsDistinct h
      → get (remove h k) j ≡ (if str_eq j k then none else get h j)
  unfolding get remove find_slot
  get-remove h k j d =
      let c = h.nodes (djb_hash k % h.cap) in
      elim (Option-cases (unlink k c)) [
        | inl e ↦ rw (e, remove) (absent e (Bool-cases (str_eq j k)))
        | inr (c', e) ↦
            let same = djb_hash k % h.cap == djb_hash j % h.cap in
            rw (e, remove)
              (elim (Bool-cases same) [
                | inl t ↦
                    let q : djb_hash k % h.cap ≡ djb_hash j % h.cap = ground arith in
                    rw (t, (unlink-some k c c' e).walks j (d.once k), q)
                | inr t ↦ elim (Bool-cases (str_eq j k)) [
                  | inl f ↦ absurd (ground (arith, hash_eq j k f))
                  | inr f ↦ rw (t, f)
                ]
              ])
      ]
    where
      absent :
          unlink k (h.nodes (djb_hash k % h.cap)) ≡ none
          → (str_eq j k ≡ true) ⊎ (str_eq j k ≡ false)
          → walk j (h.nodes (djb_hash j % h.cap))
            ≡ (if str_eq j k then none else walk j (h.nodes (djb_hash j % h.cap)))
      absent e (inl f) =
          rw (f, hash_eq j k f, (walk_congr j k (h.nodes (djb_hash k % h.cap)) f).0)
            (unlink-none k (h.nodes (djb_hash k % h.cap)) e)
      absent e (inr f) = rw f

  pub remove-IsDistinct : (h : Ht V) (k : List ℕ) → IsDistinct h → IsDistinct (remove h k)
  unfolding remove find_slot
  remove-IsDistinct h k d =
      let c = h.nodes (djb_hash k % h.cap) in
      elim (Option-cases (unlink k c)) [
        | inl e ↦ rw (e, remove) d
        | inr (c', e) ↦
            rw (e, remove)
              (record {
                once = λ j. ground (arith, d.once j, (unlink-some k c c' e).fewer j, hash_eq j k);
              })
      ]

  -- Blocks that show the same string find the same value.
  pub get_congr : (h : Ht V) (j k : List ℕ) → c_str j ≡ c_str k → get h j ≡ get h k
  unfolding get find_slot
  get_congr h j k e =
      rw (djb_hash-c_str j k e)
        (walk_congr j k (h.nodes (djb_hash k % h.cap)) ((str_eq_iff j k).1 e)).0
