-- ===== src/Shiki/Cache.antt =====
-- The cache as a map: what `shiki_set`, `shiki_get` and `shiki_remove` do to the values that a client
-- sees, and the fault of a full list.
use silokatana.Base.{
  ℕ, ◌+◌, ◌≡◌, refl, sym, ap, ◌∙◌, none, some, List, [], ◌∷◌, ◌≢◌, ◌==◌, ◌<◌, ◌++◌, false, true,
  leb, take, length, arith, Option-cases, inl, inr, leb, take, true, ◌∷◌, Bool-cases, if◌then◌else◌,
  ◌%◌, ◌⊎◌,
}
use silokatana.Base.CStr.{c_str, str_eq, str_eq_iff, c_str-append, str_eq-c_str}
use silokatana.Ht.{
  Ht, IsDistinct, get-set, set-IsDistinct, get-remove, remove-IsDistinct, get_congr,
}
use silokatana.Ht
use silokatana.Level.{Slice, LevelNode, Heap, pre_of, payload, Moves, load, alloc}
use silokatana.Base.Int.{pos, is_minus_one}
use silokatana.Level.{size_max, alloc}
use silokatana.Level
use silokatana.Shiki.Defs.{Shiki, set, get, set_absent, get_present, add_node, set_node, copy}
use silokatana.Shiki.Touch.{HasRoom, set_node-Touched}
use silokatana.Shiki.Valid.{IsSlice, Linked, IsValid, view, value_at, Touched-IsValid, view-Touched}

take-length {ℓ} : {A : Type ℓ} (xs : List A) → take (length xs) xs ≡ xs
take-length [] = refl
take-length (x ∷ xs) = ap (λ t. x ∷ t) (take-length xs)

pub copy-IsSlice : (s : Slice) → IsSlice s → copy s ≡ some s
unfolding copy
copy-IsSlice s h =
    let e : leb s.len (length s.bytes) ≡ true = ground arith in
    rw e (ap (λ b. some (record { bytes = b; len = s.len })) (rw (← h) (take-length s.bytes)))

value_at-live :
    (heap : Heap) (p : ℕ) (node : LevelNode)
    → heap.cell p ≡ some node
    → value_at heap (some p) ≡ some node.sv
value_at-live heap p node e = ground arith

flat_node :
    (heap : Heap) (p : ℕ) (node : LevelNode)
    → pre_of (heap.cell p) ≡ none
    → heap.cell p ≡ some node
    → node.pre ≡ none
flat_node heap p node f e = ground arith

module _ (slack : ℕ → List ℕ) (lru : Shiki) (v : IsValid lru) (sk : Slice) where
  -- On a valid cache that is on, `shiki_get` of a key whose node is in a list with room does not
  -- fault: it returns the cached value, keeps the cache valid, and changes no cached value.
  pub get_hit :
      (p : ℕ)
      → lru.buffer ≢ 0
      → Ht.get lru.ht sk.bytes ≡ some p
      → ((node : LevelNode) → lru.heap.cell p ≡ some node → HasRoom lru node)
      → (lru' : Shiki) × (get slack lru sk ≡ some (view lru sk.bytes, lru'))
        × IsValid lru'
        × ((k : List ℕ) → view lru' k ≡ view lru k)
  unfolding get get_present view
  get_hit p on e room =
      let l = v.linked sk.bytes p e in
      let flat = flat_node lru.heap p l.node (v.flat p) l.live in
      let (lru', run, t) = set_node-Touched slack lru p l.node l.live flat (room l.node l.live) in
      let (node', e', same) = Level.Moves-live lru.heap lru'.heap p l.node t.moves l.live in
      let kept : some node'.sv ≡ some l.node.sv = ground arith in
      let off : lru.buffer == 0 ≡ false = ground arith in
      (
        lru',
        rw (off, e, get_present, run, e')
            (ap (λ o. some (o, lru')) (kept ∙ sym (value_at-live lru.heap p l.node l.live))),
        Touched-IsValid lru lru' t v,
        λ k. unfold view in view-Touched lru lru' k t,
      )

abbrev fresh_node : Slice → Slice → LevelNode
fresh_node sk sv = record {
  hits = pos 1;
  size = sk.len + sv.len;
  sk = sk;
  sv = sv;
  nxt = none;
  pre = none;
}

-- What `shiki_set` has made of the cache when it has entered its node and not yet moved it.
abbrev entered : Shiki → List ℕ → Slice → Slice → Shiki
entered lru key sk sv = record lru {
  level_old = record lru.level_old {
    used_size = (lru.level_old.used_size + (sk.len + sv.len)) % size_max;
    count = (lru.level_old.count + 1) % size_max;
  };
  ht = Ht.set lru.ht key lru.heap.next;
  heap = record {
    next = lru.heap.next + 1;
    cell = Level.update lru.heap.cell lru.heap.next (some (fresh_node sk sv));
  };
}

module _ (lru : Shiki) (v : IsValid lru) (sk sv : Slice) (key : List ℕ)
    (same : c_str key ≡ c_str sk.bytes) (absent : Ht.get lru.ht key ≡ none) where
  entered-Linked :
      (k : List ℕ) (p : ℕ)
      → Ht.get (Ht.set lru.ht key lru.heap.next) k ≡ some p
      → Linked (entered lru key sk sv).heap k p
  entered-Linked k p e =
      let g = sym (get-set lru.ht key k lru.heap.next) ∙ e in
      elim (Bool-cases (str_eq k key)) [
        | inl f ↦
            let q : lru.heap.next ≡ p = ground arith in
            record {
              node = fresh_node sk sv;
              live = ground arith;
              named = sym same ∙ sym ((str_eq_iff k key).0 f);
              below = omega arith;
            }
        | inr f ↦
            let l = v.linked k p (ground arith) in
            record {
              node = l.node;
              live = ground (arith, l.live, l.below);
              named = l.named;
              below = omega (arith, l.below);
            }
      ]

  entered-view :
      (k : List ℕ)
      → view (entered lru key sk sv) k ≡ (if str_eq k sk.bytes then some sv else view lru k)
  unfolding view
  entered-view k = elim (Bool-cases (str_eq k key)) [
    | inl f ↦
        rw (get-set, f, ← str_eq-c_str k key sk.bytes same, f)
          (value_at-live ((entered lru key sk sv).heap) lru.heap.next (fresh_node sk sv)
            (ground arith))
    | inr f ↦
        rw (get-set, f, ← str_eq-c_str k key sk.bytes same, f)
          (old (Option-cases (Ht.get lru.ht k)))
  ]
    where
      old :
          (Ht.get lru.ht k ≡ none) ⊎ ((p : ℕ) × (Ht.get lru.ht k ≡ some p))
          → value_at (entered lru key sk sv).heap (Ht.get lru.ht k)
            ≡ value_at lru.heap (Ht.get lru.ht k)
      old (inl e) = rw e
      old (inr (p, e)) = let l = v.linked k p e in rw e (ground (arith, l.below))

  entered-IsValid : IsValid (entered lru key sk sv)
  entered-IsValid = record {
    flat = λ q. ground (arith, v.flat q);
    old_last = v.old_last;
    new_last = v.new_last;
    distinct = set-IsDistinct lru.ht key lru.heap.next v.distinct absent;
    linked = entered-Linked;
  }

module _ (slack : ℕ → List ℕ) (lru : Shiki) (v : IsValid lru) (sk sv : Slice) (hk : IsSlice sk)
    (hv : IsSlice sv) where
  add_node-entered :
      add_node slack lru sk sv (sk.len + sv.len)
      ≡ some (lru.heap.next, entered lru (sk.bytes ++ slack lru.heap.next) sk sv)
  unfolding add_node alloc
  add_node-entered = rw (copy-IsSlice sk hk, copy-IsSlice sv hv)

  -- The table key is the string of the new node, and is not there yet.
  module _ (nul : c_str (slack lru.heap.next) ≡ []) (absent : Ht.get lru.ht sk.bytes ≡ none)
      (on : lru.buffer ≢ 0) where
    key : List ℕ
    key = sk.bytes ++ slack lru.heap.next

    key_same : c_str key ≡ c_str sk.bytes
    unfolding key
    key_same = c_str-append sk.bytes (slack lru.heap.next) nul

    key_absent : Ht.get lru.ht key ≡ none
    key_absent = get_congr lru.ht key sk.bytes key_same ∙ absent

    set_opened : set slack lru sk sv ≡ set_node slack (entered lru key sk sv) (some lru.heap.next)
    unfolding set set_absent key
    set_opened =
        let off : lru.buffer == 0 ≡ false = ground arith in
        rw (off, absent, set_absent, add_node-entered)

    entered-cell : (entered lru key sk sv).heap.cell lru.heap.next ≡ some (fresh_node sk sv)
    entered-cell = ground arith

    pub set-stored :
        (lru.level_old.used_size + (sk.len + sv.len)) % size_max < lru.level_old.allow_size
        → (lru' : Shiki) × (set slack lru sk sv ≡ some lru')
          × IsValid lru'
          × ((k : List ℕ) → view lru' k ≡ (if str_eq k sk.bytes then some sv else view lru k))
    unfolding is_minus_one
    set-stored fits =
        let valid = entered-IsValid lru v sk sv key key_same key_absent in
        let (lru', run, t) =
          set_node-Touched slack (entered lru key sk sv) lru.heap.next (fresh_node sk sv)
            entered-cell refl fits in
        (
          lru',
          set_opened ∙ run,
          Touched-IsValid (entered lru key sk sv) lru' t valid,
          λ k.
              view-Touched (entered lru key sk sv) lru' k t
              ∙ entered-view lru v sk sv key key_same key_absent k,
        )
