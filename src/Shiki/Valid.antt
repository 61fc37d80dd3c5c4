-- ===== src/Shiki/Valid.antt =====
-- The invariant of the cache and what a client sees of it. A slice's block has as many bytes as its
-- length says, and `slack` starts with a NUL wherever the allocator put a key.
use silokatana.Base.CStr.{c_str}
use silokatana.Base.{
  ℕ, ◌≡◌, ◌<◌, refl, sym, ap, ◌∙◌, Option, none, some, List, length, arith, Option-cases, inl, inr,
}
use silokatana.Ht.{Ht, IsDistinct}
use silokatana.Ht
use silokatana.Level.{Slice, LevelNode, Heap, pre_of, Moves}
use silokatana.Shiki.Defs.{Shiki, new}
use silokatana.Shiki.Touch.{Touched}

abbrev pub IsSlice : Slice → Type 0
IsSlice s = length s.bytes ≡ s.len

-- The node that the table has for a key is there, and has that key.
pub record Linked (heap : Heap) (k : List ℕ) (p : ℕ) : Type 0 where
  pub node : LevelNode
  pub live : heap.cell p ≡ some node
  pub named : c_str node.sk.bytes ≡ c_str k
  pub below : p < heap.next

pub record IsValid (lru : Shiki) : Type 0 where
  pub flat : (q : ℕ) → pre_of (lru.heap.cell q) ≡ none
  pub old_last : lru.level_old.last ≡ none
  pub new_last : lru.level_new.last ≡ none
  pub distinct : IsDistinct lru.ht
  pub linked : (k : List ℕ) (p : ℕ) → Ht.get lru.ht k ≡ some p → Linked lru.heap k p

-- The value that is cached for a key.
abbrev pub value_at : Heap → Option ℕ → Option Slice
value_at heap none = none
value_at heap (some p) = elim (heap.cell p) [ none ↦ none | some node ↦ some node.sv ]

unfoldable pub view : Shiki → List ℕ → Option Slice
view lru k = value_at lru.heap (Ht.get lru.ht k)

pub new-IsValid : (ratio : ℕ → ℕ) (size : ℕ) → IsValid (new ratio size)
unfolding new Ht.new Ht.get
new-IsValid ratio size = record {
  flat = λ q. refl;
  old_last = refl;
  new_last = refl;
  distinct = record { once = λ k. omega arith };
  linked = λ k p e. absurd (ground arith);
}

Linked-Moves : (a b : Heap) (k : List ℕ) (p : ℕ) → Moves a b → Linked a k p → Linked b k p
Linked-Moves a b k p m l = elim (Option-cases (b.cell p)) [
  | inl f ↦ absurd (ground (arith, m.same p, l.live))
  | inr (node', f) ↦ record {
    node = node';
    live = f;
    named = ground (arith, m.same p, l.live, l.named);
    below = omega (arith, m.next, l.below);
  }
]

value_at-Moves : (a b : Heap) (o : Option ℕ) → Moves a b → value_at b o ≡ value_at a o
value_at-Moves a b none m = refl
value_at-Moves a b (some p) m = ground (arith, m.same p)

-- A move keeps the invariant, and shows the client nothing.
pub Touched-IsValid : (a b : Shiki) → Touched a b → IsValid a → IsValid b
Touched-IsValid a b t v = record {
  flat = λ q. t.moves.flat q (v.flat q);
  old_last = t.old_last ∙ v.old_last;
  new_last = t.new_last ∙ v.new_last;
  distinct = rw t.ht v.distinct;
  linked = λ k p e.
      Linked-Moves a.heap b.heap k p t.moves (v.linked k p (ap (λ h. Ht.get h k) (sym t.ht) ∙ e));
}

pub view-Touched : (a b : Shiki) (k : List ℕ) → Touched a b → view b k ≡ view a k
unfolding view
view-Touched a b k t =
    value_at-Moves a.heap b.heap (Ht.get b.ht k) t.moves
    ∙ ap (λ h. value_at a.heap (Ht.get h k)) t.ht
