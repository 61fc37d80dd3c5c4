-- ===== src/Jikukan/Defs.antt =====
-- The operations of storage/src/jikukan.c. `none` is a fault, or a search that ran out of fuel.
use Prim.Native.Nat.{Ordering}
use silokatana.Base.{
  ℕ, zero, suc, ◌+◌, ◌-◌, ◌*◌, ◌%◌, ◌^◌, Bool, true, false, Option, none, some, List, [], ◌∷◌, ◌++◌,
  ◌>>=◌, ◌&&◌, ltb, leb, ◌==◌, if◌then◌else◌, length, take, replicate,
}
use silokatana.Base.CStr.{c_str, strcmp, str_eq}

pub data Opt : Type 0 where
  add del : Opt

-- MAXLEVEL and SILOKATANA_MAX_KEY_SIZE
abbrev pub max_level : ℕ
max_level = 15

abbrev pub max_key_size : ℕ
max_key_size = 32

-- `forward` stands in the list's memory.
pub record SkipNode : Type 0 where
  pub val : ℕ
  pub opt : Opt
  pub key : List ℕ

-- `pool` has the bytes left in each pool, the current one first, and `next` is the first address that
-- was never handed out. The header's key is never written: it has no node.
pub record Jikukan : Type 0 where
  pub count : ℕ
  pub size : ℕ
  pub level : ℕ
  pub pool : List ℕ
  pub next : ℕ
  pub nodes : ℕ → Option SkipNode
  pub forward : ℕ → ℕ → Option ℕ

abbrev pub hdr : ℕ
hdr = 1

-- A pool of 8092 bytes, 24 of them for its own fields.
abbrev pub pool_size : ℕ
pool_size = 8_068

-- `_pool_alloc`; `rem` is unsigned.
unfoldable pub pool_alloc : List ℕ → ℕ → List ℕ
pool_alloc [] size = []
pool_alloc (rem ∷ pools) size =
    let fresh = (pool_size + 2 ^ 32 - size) % 2 ^ 32 ∷ (rem ∷ pools) in
    if ltb rem size then fresh else (rem + 2 ^ 32 - size) % 2 ^ 32 ∷ pools

unfoldable pub new : ℕ → Jikukan
new size = record {
  count = 0;
  size = size;
  level = 0;
  pool = 0 ∷ [];
  next = 2;
  nodes = λ p. none;
  forward = λ p i. if p == hdr && leb i max_level then some hdr else none;
}

unfoldable pub notfull : Jikukan → Bool
notfull list = ltb list.count list.size

unfoldable pub cmp_lt : List ℕ → List ℕ → Bool
cmp_lt a b = elim (strcmp a b) [ Ordering.lt ↦ true | _ ↦ false ]

-- `while (x->forward[i] != NIL && cmp_lt(x->forward[i]->key, key))`, on fuel.
unfoldable pub seek : ℕ → Jikukan → List ℕ → ℕ → ℕ → Option ℕ
seek zero list key i x = none
seek (suc fuel) list key i x = elim (list.forward x i) [
  | none ↦ none
  | some y ↦ elim (y == hdr) [
    | true ↦ some x
    | false ↦ elim (list.nodes y) [
      | none ↦ none
      | some node ↦ elim (cmp_lt node.key key) [ true ↦ seek fuel list key i y | false ↦ some x ]
    ]
  ]
]

-- The loop over the levels below a number, from the top. The result is the node where it ends, and
-- `update` from level 0 on, which `jikukan_lookup` does not keep.
unfoldable pub descend : ℕ → Jikukan → List ℕ → ℕ → List ℕ → Option (ℕ × List ℕ)
unfolding seek
descend zero list key x update = some (x, update)
descend (suc i) list key x update = elim (seek (suc list.count) list key i x) [
  | none ↦ none
  | some y ↦ descend i list key y (y ∷ update)
]

-- `x != NIL && cmp_eq(x->key, key)`
unfoldable pub has_key : Jikukan → List ℕ → ℕ → Option Bool
has_key list key x =
    if x == hdr
    then some false
    else elim (list.nodes x) [ none ↦ none | some node ↦ some (str_eq node.key key) ]

-- The node that the returned pointer shows, or `none` for NULL.
unfoldable pub lookup : Jikukan → List ℕ → Option (Option SkipNode)
unfolding descend has_key
lookup list key = do
  (x, _) ← descend (suc list.level) list key hdr []
  y ← list.forward x 0
  found ← has_key list key y
  some (if found then list.nodes y else none)

-- How often `rand() < RAND_MAX/2` holds in turn, and no more than the levels that are left. A coin
-- stands for a call of `rand`.
unfoldable pub new_level : (ℕ → Bool) → ℕ → ℕ → ℕ
new_level coin draw zero = 0
new_level coin draw (suc left) =
    let more = new_level coin (draw + 1) left in if coin draw then suc more else 0

abbrev pub write_cell : (ℕ → ℕ → Option ℕ) → ℕ → ℕ → ℕ → ℕ → ℕ → Option ℕ
write_cell forward p i y q j = if q == p && j == i then some y else forward q j

-- `p->forward[i] = y`
unfoldable pub set_forward : (ℕ → ℕ → Option ℕ) → ℕ → ℕ → ℕ → Option (ℕ → ℕ → Option ℕ)
set_forward forward p i y = elim (forward p i) [
  | none ↦ none
  | some old ↦ some (write_cell forward p i y)
]

-- The loop that links a new node `x` behind those of `update`, from level `i` on.
unfoldable pub link : (ℕ → ℕ → Option ℕ) → ℕ → ℕ → List ℕ → Option (ℕ → ℕ → Option ℕ)
link forward x i [] = some forward
link forward x i (u ∷ update) = do
  z ← forward u i
  forward₁ ← set_forward forward x i z
  forward₂ ← set_forward forward₁ u i x
  link forward₂ x (suc i) update

abbrev pub update_node : (ℕ → Option SkipNode) → ℕ → SkipNode → ℕ → Option SkipNode
update_node nodes p node q = if q == p then some node else nodes q

-- The node that is there already takes the new value.
unfoldable pub overwrite : Jikukan → ℕ → ℕ → Opt → Option Jikukan
overwrite list x val opt = elim (list.nodes x) [
  | none ↦ none
  | some node ↦
      some (record list { nodes = update_node list.nodes x (record node { val = val; opt = opt }) })
]

-- The bytes of a key in its array, which the pool has set to zero; a longer key runs past it.
unfoldable pub key_array : List ℕ → Option (List ℕ)
key_array key =
    let klen = length (c_str key) in
    if leb klen max_key_size
    then some (take klen key ++ replicate (max_key_size - klen) 0)
    else none

-- A new node of levels 0 to `top`: a struct of 56 bytes with one pointer, and 8 more for each level.
unfoldable pub add_node : Jikukan → List ℕ → ℕ → Opt → List ℕ → ℕ → Option Jikukan
add_node list key val opt update top =
    let x = list.next in
    let raised = if ltb list.level top then replicate (top - list.level) hdr else [] in
    let cells : ℕ → ℕ → Option ℕ =
      λ p i. if p == x && leb i top then some 0 else list.forward p i in
    do
      block ← key_array key
      forward ← link cells x 0 (take (suc top) (update ++ raised))
      some (record {
        count = list.count + 1;
        size = list.size;
        level = if ltb list.level top then top else list.level;
        pool = pool_alloc list.pool (56 + top * 8);
        next = x + 1;
        nodes = update_node list.nodes x (record { val = val; opt = opt; key = block });
        forward = forward;
      })

unfoldable pub insert : (ℕ → Bool) → Jikukan → List ℕ → ℕ → Opt → Option (ℕ × Jikukan)
unfolding descend has_key notfull
insert coin list key val opt =
    if notfull list
    then (do
      (x, update) ← descend (suc list.level) list key hdr []
      y ← list.forward x 0
      found ← has_key list key y
      list' ←
          if found
          then overwrite list y val opt
          else add_node list key val opt update (new_level coin 0 max_level)
      some (1, list'))
    else some (0, list)

unfoldable pub insert_node : (ℕ → Bool) → Jikukan → SkipNode → Option (ℕ × Jikukan)
unfolding insert
insert_node coin list node = insert coin list node.key node.val node.opt
