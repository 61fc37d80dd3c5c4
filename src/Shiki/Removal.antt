-- ===== src/Shiki/Removal.antt =====
-- `shiki_remove` takes a key out of the cache and frees its node.
use silokatana.Base.{
  ℕ, ◌⊎◌, ◌≢◌, ◌==◌, true, false, if◌then◌else◌, ap, ◌≡◌, sym, ◌∙◌, Option, none, some, List, arith,
  Bool-cases, Option-cases, inl, inr,
}
use silokatana.Base.CStr.{c_str, str_eq, str_eq_iff}
use silokatana.Base.Int.{is_minus_one}
use silokatana.Ht.{Ht, get-remove, remove-IsDistinct, get_congr}
use silokatana.Ht
use silokatana.Level.{
  Slice, Level, LevelNode, Heap, free, pre_of, payload, Moves, minus, Moves-live, remove_link-Moves,
}
use silokatana.Level
use silokatana.Shiki.Defs.{Shiki, remove, remove_present}
use silokatana.Shiki.Valid.{Linked, IsValid, view, value_at}

-- `level_free_node` moves the links, and takes the node's cell away.
free_node-freed :
    (level : Level) (n : ℕ) (heap : Heap) (node : LevelNode)
    → heap.cell n ≡ some node
    → node.pre ≡ none
    → (level' : Level) × (heap₁ : Heap) × (Level.free_node level (some n) heap
        ≡ some (level', record heap₁ { cell = Level.update heap₁.cell n none }))
      × (level'.last ≡ level.last)
      × Moves heap heap₁
unfolding Level.free_node free
free_node-freed level n heap node e flat =
    let less = record level { used_size = minus level.used_size node.size } in
    let (level', heap₁, run, use', m) = remove_link-Moves less n heap node e flat in
    let (node', e', _) = Moves-live heap heap₁ n node m e in
    (level', heap₁, rw (e, run, free, e'), use'.last, m)

module _ (lru : Shiki) (v : IsValid lru) (sk : Slice) (n : ℕ)
    (present : Ht.get lru.ht sk.bytes ≡ some n) (heap₁ : Heap) (m : Moves lru.heap heap₁) where
  abbrev freed : Heap
  freed = record heap₁ { cell = Level.update heap₁.cell n none }

  apart :
      (k : List ℕ) (p : ℕ)
      → str_eq k sk.bytes ≡ false
      → Ht.get lru.ht k ≡ some p
      → n ≡ p
      → false ≡ true
  apart k p f e q =
      let l = v.linked k p e in
      let l' = v.linked sk.bytes n present in
      let same : some l.node ≡ some l'.node = sym l.live ∙ ap lru.heap.cell (sym q) ∙ l'.live in
      let key : l.node.sk.bytes ≡ l'.node.sk.bytes = ground arith in
      sym f ∙ (str_eq_iff k sk.bytes).1 (sym l.named ∙ ap c_str key ∙ l'.named)

  freed-Linked :
      (k : List ℕ) (p : ℕ) → Ht.get (Ht.remove lru.ht sk.bytes) k ≡ some p → Linked freed k p
  freed-Linked k p e =
      let g = sym (get-remove lru.ht sk.bytes k v.distinct) ∙ e in
      elim (Bool-cases (str_eq k sk.bytes)) [
        | inl f ↦ absurd (ground arith)
        | inr f ↦
            let e' : Ht.get lru.ht k ≡ some p = ground arith in
            let l = v.linked k p e' in
            let (node', live', same) = Moves-live lru.heap heap₁ p l.node m l.live in
            record {
              node = node';
              live = ground (arith, apart k p f e');
              named = ground (arith, l.named);
              below = omega (arith, m.next, l.below);
            }
      ]

  freed-value :
      (k : List ℕ)
      → value_at freed (Ht.get (Ht.remove lru.ht sk.bytes) k)
        ≡ (if str_eq k sk.bytes then none else value_at lru.heap (Ht.get lru.ht k))
  freed-value k = elim (Bool-cases (str_eq k sk.bytes)) [
    | inl f ↦ rw (get-remove lru.ht sk.bytes k v.distinct, f)
    | inr f ↦
        rw (get-remove lru.ht sk.bytes k v.distinct, f) (old f (Option-cases (Ht.get lru.ht k)))
  ]
    where
      old :
          str_eq k sk.bytes ≡ false
          → (Ht.get lru.ht k ≡ none) ⊎ ((p : ℕ) × (Ht.get lru.ht k ≡ some p))
          → value_at freed (Ht.get lru.ht k) ≡ value_at lru.heap (Ht.get lru.ht k)
      old f (inl e) = rw e
      old f (inr (p, e)) = rw e (ground (arith, m.same p, apart k p f e))

  -- The cache with the key taken out, whichever of the two headers was written.
  abbrev without : Level → Level → Shiki
  without old new = record lru {
    level_old = old;
    level_new = new;
    ht = Ht.remove lru.ht sk.bytes;
    heap = freed;
  }

  without-IsValid :
      (old new : Level) → old.last ≡ none → new.last ≡ none → IsValid (without old new)
  without-IsValid old new o w = record {
    flat = λ q. ground (arith, m.flat q, v.flat q);
    old_last = o;
    new_last = w;
    distinct = remove-IsDistinct lru.ht sk.bytes v.distinct;
    linked = freed-Linked;
  }

-- What `shiki_remove` promises of its result.
abbrev Removed : Shiki → Slice → Option Shiki → Type 0
Removed lru sk r =
    (lru' : Shiki) × (r ≡ some lru')
    × IsValid lru'
    × ((k : List ℕ) → view lru' k ≡ (if str_eq k sk.bytes then none else view lru k))

remove_present-Removed :
    (lru : Shiki) (sk : Slice) (n : ℕ)
    → IsValid lru
    → Ht.get lru.ht sk.bytes ≡ some n
    → Removed lru sk (remove_present lru sk n)
unfolding remove_present view
remove_present-Removed lru sk n v e =
    let l = v.linked sk.bytes n e in
    let flat : l.node.pre ≡ none = ground (arith, v.flat n, l.live) in
    elim (Bool-cases (is_minus_one l.node.hits)) [
      | inl hot ↦
          let (level', heap₁, run, last, m) =
            free_node-freed lru.level_new n lru.heap l.node l.live flat in
          (
            without lru v sk n e heap₁ m lru.level_old level',
            rw (l.live, hot, run),
            without-IsValid lru v sk n e heap₁ m lru.level_old level' v.old_last
                (last ∙ v.new_last),
            freed-value lru v sk n e heap₁ m,
          )
      | inr cold ↦
          let (level', heap₁, run, last, m) =
            free_node-freed lru.level_old n lru.heap l.node l.live flat in
          (
            without lru v sk n e heap₁ m level' lru.level_new,
            rw (l.live, cold, run),
            without-IsValid lru v sk n e heap₁ m level' lru.level_new (last ∙ v.old_last)
                v.new_last,
            freed-value lru v sk n e heap₁ m,
          )
    ]

-- On a valid cache that is on, `shiki_remove` does not fault and keeps the cache valid; the key is not
-- cached after it, and every other key keeps its value.
pub remove-view :
    (lru : Shiki) (sk : Slice)
    → IsValid lru
    → lru.buffer ≢ 0
    → (lru' : Shiki) × (remove lru sk ≡ some lru')
      × IsValid lru'
      × ((k : List ℕ) → view lru' k ≡ (if str_eq k sk.bytes then none else view lru k))
unfolding remove view
remove-view lru sk v on =
    let off : lru.buffer == 0 ≡ false = ground arith in
    elim (Option-cases (Ht.get lru.ht sk.bytes)) [
      | inl e ↦ (lru, rw (off, e), v, λ k. absent k e)
      | inr (n, e) ↦ rw (off, e) (remove_present-Removed lru sk n v e)
    ]
  where
    absent :
        (k : List ℕ)
        → Ht.get lru.ht sk.bytes ≡ none
        → value_at lru.heap (Ht.get lru.ht k)
          ≡ (if str_eq k sk.bytes then none else value_at lru.heap (Ht.get lru.ht k))
    absent k e = elim (Bool-cases (str_eq k sk.bytes)) [
      | inl f ↦ rw (f, get_congr lru.ht k sk.bytes ((str_eq_iff k sk.bytes).0 f), e)
      | inr f ↦ rw f
    ]
