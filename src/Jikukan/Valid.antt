-- ===== src/Jikukan/Valid.antt =====
-- The invariant of the skip list. `rank` counts the nodes along level 0, the header at 0: a forward
-- pointer of any level shows a node of higher rank, at level 0 the next one, and the keys are in the
-- order of the ranks.
use silokatana.Base.{true, ℕ, suc, ◌≤◌, ◌<◌, ◌≡◌, ◌⊎◌, refl, Option, none, some, inl, arith}
use silokatana.Jikukan.Defs.{SkipNode, Jikukan, hdr, max_level, new, cmp_lt}

-- A node that stands in the list.
pub record IsNode (list : Jikukan) (p : ℕ) : Type 0 where
  pub node : SkipNode
  pub there : list.nodes p ≡ some node

-- A cell of an array `forward`.
pub record IsCell (forward : ℕ → ℕ → Option ℕ) (p i : ℕ) : Type 0 where
  pub to : ℕ
  pub cell : forward p i ≡ some to

-- What a forward pointer of level `i` shows, from a node of rank `r`.
pub record Ahead (list : Jikukan) (rank : ℕ → ℕ) (r i y : ℕ) : Type 0 where
  pub shown : IsNode list y
  pub tall : IsCell list.forward y i
  pub higher : r < rank y

pub record IsValid (list : Jikukan) : Type 0 where
  pub rank : ℕ → ℕ
  pub rank_hdr : rank hdr ≡ 0
  pub low : list.level ≤ max_level
  pub no_node : list.nodes hdr ≡ none
  pub header : (i : ℕ) → i ≤ max_level → IsCell list.forward hdr i
  pub idle : (i : ℕ) → list.level < i → i ≤ max_level → list.forward hdr i ≡ some hdr
  pub owned : (p i y : ℕ) → list.forward p i ≡ some y → (p ≡ hdr) ⊎ IsNode list p
  pub ground_cell : (p : ℕ) → IsNode list p → IsCell list.forward p 0
  pub down : (p i : ℕ) → IsCell list.forward p (suc i) → IsCell list.forward p i
  pub ahead : (p i y : ℕ) → list.forward p i ≡ some y → (y ≡ hdr) ⊎ Ahead list rank (rank p) i y
  pub successor :
      (p y : ℕ)
      → list.forward p 0 ≡ some y
      → ((y ≡ hdr) × (rank p ≡ list.count)) ⊎ (rank y ≡ suc (rank p))
  pub counted : (p : ℕ) → IsNode list p → (0 < rank p) × (rank p ≤ list.count)
  pub once : (p q : ℕ) → IsNode list p → IsNode list q → rank p ≡ rank q → p ≡ q
  pub ordered :
      (p q : ℕ) (n m : SkipNode)
      → list.nodes p ≡ some n
      → list.nodes q ≡ some m
      → rank p < rank q
      → cmp_lt n.key m.key ≡ true
  pub started : hdr < list.next
  pub fresh : (p i : ℕ) → list.next ≤ p → (list.nodes p ≡ none) × (list.forward p i ≡ none)

pub new-IsValid : (size : ℕ) → IsValid (new size)
unfolding new
new-IsValid size = record {
  rank = λ p. 0;
  rank_hdr = refl;
  low = omega arith;
  no_node = refl;
  header = λ i h. record { to = hdr; cell = ground arith };
  idle = λ i a h. ground arith;
  owned = λ p i y e. inl (ground arith);
  ground_cell = λ p n. absurd (ground (arith, n.there));
  down = λ p i c. record { to = hdr; cell = ground (arith, c.cell) };
  ahead = λ p i y e. inl (ground arith);
  successor = λ p y e. inl (ground arith, refl);
  counted = λ p n. absurd (ground (arith, n.there));
  once = λ p q n m e. absurd (ground (arith, n.there));
  ordered = λ p q n m e f. absurd (ground arith);
  started = omega arith;
  fresh = λ p i h. (refl, ground arith);
}
