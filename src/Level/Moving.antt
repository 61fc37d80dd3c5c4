-- ===== src/Level/Moving.antt =====
-- Moving a node between the lists of storage/src/level.c changes links and marks only. Heaps on which
-- no node has a predecessor stay so, and on them no list ever learns its last node.
use silokatana.Base.{
  ℕ, ◌+◌, ◌%◌, ◌≡◌, refl, ap, ◌∙◌, Option, none, some, arith, Option-cases, inl, inr,
}
use silokatana.Level.Nodes.{Slice, LevelNode, Heap, store, update}
use silokatana.Level.Defs.{Level, set_head, remove_link, unlink, minus, size_max}

abbrev pub pre_of : Option LevelNode → Option ℕ
pre_of none = none
pre_of (some node) = node.pre

-- What a node carries: key, value and size.
abbrev pub payload : Option LevelNode → Option (Slice × Slice × ℕ)
payload none = none
payload (some node) = some (node.sk, node.sv, node.size)

pub record Moves (a b : Heap) : Type 0 where
  pub next : b.next ≡ a.next
  pub same : (q : ℕ) → payload (b.cell q) ≡ payload (a.cell q)
  pub flat : (q : ℕ) → pre_of (a.cell q) ≡ none → pre_of (b.cell q) ≡ none

pub Moves-refl : (a : Heap) → Moves a a
Moves-refl a = record { next = refl; same = λ q. refl; flat = λ q h. h }

pub Moves-trans : (a b c : Heap) → Moves a b → Moves b c → Moves a c
Moves-trans a b c f g = record {
  next = g.next ∙ f.next;
  same = λ q. g.same q ∙ f.same q;
  flat = λ q h. g.flat q (f.flat q h);
}

-- A node that was there before a move is there after it.
pub Moves-live :
    (a b : Heap) (p : ℕ) (node : LevelNode)
    → Moves a b
    → a.cell p ≡ some node
    → (node' : LevelNode) × (b.cell p ≡ some node') × (payload (some node') ≡ payload (some node))
Moves-live a b p node m e = elim (Option-cases (b.cell p)) [
  | inl f ↦ absurd (ground (arith, m.same p))
  | inr (node', f) ↦ (node', f, ground (arith, m.same p))
]

-- What a move leaves of a list's header.
pub record SameUse (a b : Level) : Type 0 where
  pub last : b.last ≡ a.last
  pub used : b.used_size ≡ a.used_size
  pub allow : b.allow_size ≡ a.allow_size

-- A write that changes marks and links alone.
pub store-Moves :
    (heap : Heap) (n : ℕ) (old node : LevelNode)
    → heap.cell n ≡ some old
    → payload (some node) ≡ payload (some old)
    → node.pre ≡ none
    → (heap' : Heap) × (store heap n node ≡ some heap')
      × Moves heap heap'
      × (heap'.cell n ≡ some node)
unfolding store
store-Moves heap n old node e same flat = (
  record heap { cell = update heap.cell n (some node) },
  rw (e, store),
  record { next = refl; same = λ q. ground arith; flat = λ q h. ground arith },
  ground arith,
)

opened :
    (level : Level) (n : ℕ) (heap : Heap) (node : LevelNode)
    → heap.cell n ≡ some node
    → remove_link level (some n) heap
      ≡ unlink (record level { count = minus level.count 1 }) n node node.pre node.nxt heap
unfolding remove_link
opened level n heap node e = rw e

module _ (level : Level) (n : ℕ) (heap : Heap) (node : LevelNode)
    (e : heap.cell n ≡ some node) where
  pub set_head-Moves :
      (level' : Level) × (heap' : Heap) × (set_head level (some n) heap ≡ some (level', heap'))
      × SameUse level level'
      × Moves heap heap'
  unfolding set_head
  set_head-Moves = elim (Option-cases level.first) [
    | inl f ↦ (
      record level { count = (level.count + 1) % size_max; first = some n },
      heap,
      rw (f, set_head),
      record { last = refl; used = refl; allow = refl },
      Moves-refl heap,
    )
    | inr (first, f) ↦
        let (heap', run, m, _) =
          store-Moves heap n node (record node { pre = none; nxt = some first }) e refl refl in
        (
          record level { count = (level.count + 1) % size_max; first = some n },
          heap',
          rw (f, set_head, e, run),
          record { last = refl; used = refl; allow = refl },
          m,
        )
  ]

  unlink-Moves :
      (nxt : Option ℕ)
      → node.pre ≡ none
      → (level' : Level) × (heap' : Heap) × (unlink level n node none nxt heap
          ≡ some (level', heap'))
        × SameUse level level'
        × Moves heap heap'
  unfolding unlink
  unlink-Moves none flat =
      (level, heap, refl, record { last = refl; used = refl; allow = refl }, Moves-refl heap)
  unlink-Moves (some next) flat =
      let (heap', run, m, _) = store-Moves heap n node (record node { nxt = none }) e refl flat in
      (
        record level { first = some next },
        heap',
        rw run,
        record { last = refl; used = refl; allow = refl },
        m,
      )

pub remove_link-Moves :
    (level : Level) (n : ℕ) (heap : Heap) (node : LevelNode)
    → heap.cell n ≡ some node
    → node.pre ≡ none
    → (level' : Level) × (heap' : Heap) × (remove_link level (some n) heap ≡ some (level', heap'))
      × SameUse level level'
      × Moves heap heap'
remove_link-Moves level n heap node e flat =
    let less = record level { count = minus level.count 1 } in
    let (level', heap', run, use', m) = unlink-Moves less n heap node e node.nxt flat in
    (
      level',
      heap',
      opened level n heap node e ∙ ap (λ p. unlink less n node p node.nxt heap) flat ∙ run,
      record { last = use'.last; used = use'.used; allow = use'.allow },
      m,
    )
