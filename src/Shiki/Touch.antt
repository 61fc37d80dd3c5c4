-- ===== src/Shiki/Touch.antt =====
-- `_shiki_set_node` while the node's list has room: it moves the node and changes nothing else, and
-- when the list is full it faults, since no list ever has a last node.
use silokatana.Base.{
  ℕ, ◌+◌, ◌%◌, ◌≡◌, ◌≤◌, ◌<◌, refl, ◌∙◌, true, false, Option, none, some, List, leb, if◌then◌else◌,
  arith, Bool-cases, inl, inr,
}
use silokatana.Base.Int.{negsuc, incr, is_minus_one, above}
use silokatana.Ht.{Ht}
use silokatana.Level.{
  Level, LevelNode, Heap, free_last, minus, size_max, Moves, Moves-trans, Moves-live, store-Moves,
  set_head-Moves, remove_link-Moves,
}
use silokatana.Shiki.Defs.{
  Shiki, promote, stay_cold, make_room, set_node, touch_cold, max_hits, touch_hot,
}

-- What a move leaves of the cache.
pub record Touched (a b : Shiki) : Type 0 where
  pub buffer : b.buffer ≡ a.buffer
  pub ht : b.ht ≡ a.ht
  pub old_last : b.level_old.last ≡ a.level_old.last
  pub new_last : b.level_new.last ≡ a.level_new.last
  pub moves : Moves a.heap b.heap

abbrev Done : Option Shiki → Shiki → Type 0
Done m a = (b : Shiki) × (m ≡ some b) × Touched a b

-- The list that a node is in, by its mark, has room.
abbrev pub HasRoom : Shiki → LevelNode → Type 0
HasRoom lru node =
    if is_minus_one node.hits
    then lru.level_new.used_size < lru.level_new.allow_size
    else lru.level_old.used_size < lru.level_old.allow_size

module _ (slack : ℕ → List ℕ) where
  make_room-room :
      (level : Level) (ht : Ht ℕ) (heap : Heap)
      → level.used_size < level.allow_size
      → make_room slack level ht heap ≡ some (level, ht, heap)
  unfolding make_room
  make_room-room level ht heap h =
      let e : leb level.allow_size level.used_size ≡ false = ground arith in rw e

  -- A full list that has no last node faults.
  pub make_room-full :
      (level : Level) (ht : Ht ℕ) (heap : Heap)
      → level.allow_size ≤ level.used_size
      → level.last ≡ none
      → make_room slack level ht heap ≡ none
  unfolding make_room free_last
  make_room-full level ht heap h f =
      let e : leb level.allow_size level.used_size ≡ true = ground arith in
      rw (e, free_last) (unfold free_last in rw f)

  module _ (lru : Shiki) (n : ℕ) (node : LevelNode) (e : lru.heap.cell n ≡ some node)
      (flat : node.pre ≡ none) where
    touch_hot-Touched :
        lru.level_new.used_size < lru.level_new.allow_size → Done (touch_hot slack lru n) lru
    unfolding touch_hot
    touch_hot-Touched room =
        let (new₁, heap₁, run₁, use₁, m₁) =
          remove_link-Moves lru.level_new n lru.heap node e flat in
        let (node₁, e₁, _) = Moves-live lru.heap heap₁ n node m₁ e in
        let (new₂, heap₂, run₂, use₂, m₂) = set_head-Moves new₁ n heap₁ node₁ e₁ in
        (
          record lru { level_new = new₂; heap = heap₂ },
          rw (make_room-room lru.level_new lru.ht lru.heap room, run₁, run₂),
          record {
            buffer = refl;
            ht = refl;
            old_last = refl;
            new_last = use₂.last ∙ use₁.last;
            moves = Moves-trans lru.heap heap₁ heap₂ m₁ m₂;
          },
        )

-- The two ends of the cold branch, on a heap that comes of a move.
module _ (lru : Shiki) (heap : Heap) (m : Moves lru.heap heap) (n : ℕ) (node : LevelNode)
    (e : heap.cell n ≡ some node) (flat : node.pre ≡ none) where
  promote-Touched :
      (old : Level) → old.last ≡ lru.level_old.last → Done (promote lru old lru.ht heap n) lru
  unfolding promote
  promote-Touched old last =
      let (new₁, heap₁, run₁, use₁, m₁) = set_head-Moves lru.level_new n heap node e in
      let (node₁, e₁, _) = Moves-live heap heap₁ n node m₁ e in
      let flat₁ : node₁.pre ≡ none = ground (arith, m₁.flat n) in
      let (heap₂, run₂, m₂, _) =
        store-Moves heap₁ n node₁ (record node₁ { hits = negsuc 0 }) e₁ refl flat₁ in
      (
        record lru {
          level_old = record old { used_size = minus old.used_size node₁.size };
          level_new = record new₁ { used_size = (new₁.used_size + node₁.size) % size_max };
          heap = heap₂;
        },
        rw (run₁, e₁, run₂),
        record {
          buffer = refl;
          ht = refl;
          old_last = last;
          new_last = use₁.last;
          moves = Moves-trans lru.heap heap heap₂ m (Moves-trans heap heap₁ heap₂ m₁ m₂);
        },
      )

  stay_cold-Touched :
      (old : Level) → old.last ≡ lru.level_old.last → Done (stay_cold lru old lru.ht heap n) lru
  unfolding stay_cold
  stay_cold-Touched old last =
      let (old₁, heap₁, run₁, use₁, m₁) = set_head-Moves old n heap node e in
      (
        record lru { level_old = old₁; heap = heap₁ },
        rw run₁,
        record {
          buffer = refl;
          ht = refl;
          old_last = use₁.last ∙ last;
          new_last = refl;
          moves = Moves-trans lru.heap heap heap₁ m m₁;
        },
      )

  cold_end :
      (old : Level)
      → old.last ≡ lru.level_old.last
      → Done
          (if above node.hits max_hits
            then promote lru old lru.ht heap n
            else stay_cold lru old lru.ht heap n)
          lru
  cold_end old last = elim (Bool-cases (above node.hits max_hits)) [
    | inl f ↦ rw f (promote-Touched old last)
    | inr f ↦ rw f (stay_cold-Touched old last)
  ]

module _ (slack : ℕ → List ℕ) (lru : Shiki) (n : ℕ) (node : LevelNode)
    (e : lru.heap.cell n ≡ some node) (flat : node.pre ≡ none) where
  touch_cold-Touched :
      lru.level_old.used_size < lru.level_old.allow_size → Done (touch_cold slack lru n) lru
  unfolding touch_cold
  touch_cold-Touched room =
      let hit = record node { hits = incr node.hits } in
      let (heap₁, run₁, m₁, e₁) = store-Moves lru.heap n node hit e refl flat in
      let (old₁, heap₂, run₂, use₂, m₂) = remove_link-Moves lru.level_old n heap₁ hit e₁ flat in
      let (node₂, e₂, _) = Moves-live heap₁ heap₂ n hit m₂ e₁ in
      let flat₂ : node₂.pre ≡ none = ground (arith, m₂.flat n) in
      let (b, run, t) =
        cold_end lru heap₂ (Moves-trans lru.heap heap₁ heap₂ m₁ m₂) n node₂ e₂ flat₂ old₁
          use₂.last in
      (b, rw (make_room-room slack lru.level_old lru.ht lru.heap room, e, run₁, run₂, e₂) run, t)

  -- A node whose list has room is moved.
  pub set_node-Touched :
      HasRoom lru node → (b : Shiki) × (set_node slack lru (some n) ≡ some b) × Touched lru b
  unfolding set_node
  set_node-Touched room = elim (Bool-cases (is_minus_one node.hits)) [
    | inl hot ↦ rw (e, hot) (touch_hot-Touched slack lru n node e flat (rw hot at room))
    | inr cold ↦ rw (e, cold) (touch_cold-Touched (rw cold at room))
  ]

  -- Where neither list has a last node, a move into a full list faults.
  pub set_node-full :
      ¬ HasRoom lru node
      → lru.level_old.last ≡ none
      → lru.level_new.last ≡ none
      → set_node slack lru (some n) ≡ none
  unfolding set_node touch_hot touch_cold
  set_node-full full o w = elim (Bool-cases (is_minus_one node.hits)) [
    | inl hot ↦
        let f = rw hot at full in
        rw (e, hot, make_room-full slack lru.level_new lru.ht lru.heap (omega arith) w)
    | inr cold ↦
        let f = rw cold at full in
        rw (e, cold, make_room-full slack lru.level_old lru.ht lru.heap (omega arith) o)
  ]
