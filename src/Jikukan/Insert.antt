-- ===== src/Jikukan/Insert.antt =====
-- `jikukan_insert` keeps the invariant: a new node takes its place in the order, and a node that was
-- there takes the new value.
use silokatana.Base.{
  ap, ◌∙◌, ℕ, zero, suc, ◌-◌, ◌≤◌, ◌≡◌, refl, some, inl, inr, arith, List, [], ◌∷◌, ◌++◌,
  Bool-cases, ◌==◌, leb, true, length, take, replicate,
}
use silokatana.Base.CStr.{c_str, c_str-append}
use silokatana.Jikukan.Defs.{SkipNode, Opt, Jikukan, max_key_size, update_node, key_array}
use silokatana.Jikukan.Valid.{IsNode, IsValid}
use silokatana.Jikukan.Lookup.{Found}

-- A write of a value and an operation: every node stays where it is, with its key.
module _ (list : Jikukan) (v : IsValid list) (key : List ℕ) (f : Found list key) (val : ℕ)
    (opt : Opt) where
  abbrev pub written : SkipNode
  written = record f.node { val = val; opt = opt }

  abbrev pub overwritten : Jikukan
  overwritten = record list { nodes = update_node list.nodes f.at written }

  -- The node that stood at an address.
  pub before_write :
      (p : ℕ) (n : SkipNode)
      → overwritten.nodes p ≡ some n
      → (m : SkipNode) × (list.nodes p ≡ some m) × (m.key ≡ n.key)
  before_write p n e = elim (Bool-cases (p == f.at)) [
    | inl a ↦ (f.node, ground (arith, a, f.there), ground (arith, a, e))
    | inr a ↦ (n, ground (arith, a, e), refl)
  ]

  old : (p : ℕ) → IsNode overwritten p → IsNode list p
  old p n = let (m, e, _) = before_write p n.node n.there in record { node = m; there = e }

  now : (p : ℕ) → IsNode list p → IsNode overwritten p
  now p n = elim (Bool-cases (p == f.at)) [
    | inl a ↦ record { node = written; there = ground (arith, a) }
    | inr a ↦ record { node = n.node; there = ground (arith, a, n.there) }
  ]

  pub overwritten-IsValid : IsValid overwritten
  overwritten-IsValid = record {
    rank = v.rank;
    rank_hdr = v.rank_hdr;
    low = v.low;
    no_node = ground (arith, v.no_node, f.there);
    header = v.header;
    idle = v.idle;
    owned = λ p i y e. elim (v.owned p i y e) [ inl g ↦ inl g | inr n ↦ inr (now p n) ];
    ground_cell = λ p n. v.ground_cell p (old p n);
    down = v.down;
    ahead = λ p i y e. elim (v.ahead p i y e) [
      | inl g ↦ inl g
      | inr a ↦ inr (record { shown = now y a.shown; tall = a.tall; higher = a.higher })
    ];
    successor = v.successor;
    counted = λ p n. v.counted p (old p n);
    once = λ p q n m e. v.once p q (old p n) (old q m) e;
    ordered = λ p q n m a b lt.
        (let (n', a', e) = before_write p n a in
          let (m', b', g) = before_write q m b in rw (← e, ← g) (v.ordered p q n' m' a' b' lt));
    started = v.started;
    fresh = λ p i h. (let (gone, none_) = v.fresh p i h in (ground (arith, gone, f.there), none_));
  }

take-c_str : (s : List ℕ) → take (length (c_str s)) s ≡ c_str s
unfolding c_str
take-c_str [] = refl
take-c_str (b ∷ s) = ground (arith, take-c_str s)

c_str-c_str : (s : List ℕ) → c_str (c_str s) ≡ c_str s
unfolding c_str
c_str-c_str [] = refl
c_str-c_str (b ∷ s) = ground (arith, c_str-c_str s)

c_str-zeros : (n : ℕ) → c_str (replicate n 0) ≡ []
unfolding c_str
c_str-zeros zero = refl
c_str-zeros (suc n) = refl

-- The array of a key that fits shows the same string.
pub key_array-c_str :
    (key : List ℕ)
    → length (c_str key) ≤ max_key_size
    → (block : List ℕ) × (key_array key ≡ some block) × (c_str block ≡ c_str key)
unfolding key_array
key_array-c_str key h =
    let klen = length (c_str key) in
    let zeros = replicate (max_key_size - klen) 0 in
    let e : leb klen max_key_size ≡ true = ground (arith, h) in
    (
      take klen key ++ zeros,
      rw (key_array, e),
      c_str-append (take klen key) zeros (c_str-zeros (max_key_size - klen))
          ∙ ap c_str (take-c_str key)
          ∙ c_str-c_str key,
    )
