-- ===== src/Silopit/Files.antt =====
-- The files of storage/src/silopit.c: what is written and what is read of one. A node pointer that is
-- followed along `forward[0]` is the list of the nodes from it on.
use Prim.Native.Nat.{Ordering}
use silokatana.Base.{
  ℕ, zero, suc, ◌+◌, ◌-◌, ◌*◌, ◌/◌, Bool, true, false, Option, none, some, List, [], ◌∷◌, ◌++◌,
  ◌>>=◌, ltb, leb, ◌==◌, if◌then◌else◌, length, take, drop, replicate,
}
use silokatana.Base.CStr.{c_str, strcmp}
use silokatana.Buffer.{Buffer, Cells, putstr, putc, putlong, detach, u64_from_big}
use silokatana.Jikukan.{Jikukan, SkipNode, Opt, hdr, max_key_size}
use silokatana.Jikukan
use silokatana.Jikukan.Opt.{add, del}

-- F_CRC
abbrev pub f_crc : ℕ
f_crc = 2011

pub record Footer : Type 0 where
  pub key : List ℕ
  pub count : ℕ
  pub crc : ℕ
  pub size : ℕ
  pub max_len : ℕ

pub record SiloFile : Type 0 where
  pub blks : List ℕ
  pub footer : Footer

pub record Stats : Type 0 where
  pub mmap_size : ℕ
  pub max_len : ℕ

-- The nodes from `x` on, up to the header.
unfoldable pub nodes_from : ℕ → Jikukan → ℕ → Option (List SkipNode)
nodes_from zero list x = none
nodes_from (suc fuel) list x = elim (x == hdr) [
  | true ↦ some []
  | false ↦ do
    node ← list.nodes x
    y ← list.forward x 0
    rest ← nodes_from fuel list y
    some (node ∷ rest)
]

-- `list->hdr->forward[0]`
unfoldable pub first_node : Jikukan → Option (List SkipNode)
unfolding nodes_from
first_node list = do x ← list.forward hdr 0; nodes_from (suc list.count) list x

-- The loop of `_prepare_stats`; past the last node it reads the header's key, which is not set. The
-- least and greatest offset of the source are never used.
unfoldable pub count_nodes : ℕ → List SkipNode → ℕ → ℕ → Option (ℕ × ℕ)
count_nodes zero x real_count max_len = some (real_count, max_len)
count_nodes (suc n) [] real_count max_len = none
count_nodes (suc n) (node ∷ x) real_count max_len =
    let klen = length (c_str node.key) in
    let longer = if ltb max_len klen then klen else max_len in
    elim node.opt [
      | add ↦ count_nodes n x (real_count + 1) longer
      | del ↦ count_nodes n x real_count max_len
    ]

unfoldable pub prepare_stats : List SkipNode → ℕ → Option Stats
unfolding count_nodes
prepare_stats x count = do
  (real_count, max_len) ← count_nodes count x 0 0
  some (record { mmap_size = (max_len + 1 + 8) * real_count; max_len = max_len + 1 })

-- The loop of `_write_mmap`: what is added to the buffer, how many nodes are no deletions, the node
-- that was last and those that are left.
unfoldable pub put_nodes :
    ℕ
    → List SkipNode
    → Buffer
    → ℕ
    → Option SkipNode
    → Option (Buffer × ℕ × Option SkipNode × List SkipNode)
put_nodes zero x buf count last = some (buf, count, last, x)
put_nodes (suc n) [] buf count last = none
put_nodes (suc n) (node ∷ x) buf count last = elim node.opt [
  | add ↦ do
    b₁ ← putstr buf node.key
    b₂ ← putc b₁ 0
    b₃ ← putlong b₂ node.val
    put_nodes n x b₃ (count + 1) (some node)
  | del ↦ put_nodes n x buf count (some node)
]

-- The block of 32 bytes that starts with a key's string.
unfoldable pub key_block : List ℕ → Option (List ℕ)
key_block key =
    if leb (length (c_str key)) max_key_size
    then some (c_str key ++ replicate (max_key_size - length (c_str key)) 0)
    else none

-- A `memcpy` from a buffer: a byte that was never written reads as `stale`, and one past the
-- allocation is a fault.
unfoldable pub copy_cells : ℕ → ℕ → Cells → Option (List ℕ)
copy_cells stale zero cells = some []
copy_cells stale (suc n) [] = none
copy_cells stale (suc n) (c ∷ cells) = elim (copy_cells stale n cells) [
  | none ↦ none
  | some bytes ↦ some (elim c [ none ↦ stale | some b ↦ b ] ∷ bytes)
]

-- What `_write_mmap` puts into a file, with the buffer and the nodes that are left. A file with no
-- entry would start at -1, where `lseek` fails.
unfoldable pub make_file :
    ℕ → Buffer → List SkipNode → ℕ → Option (SiloFile × SkipNode × Buffer × List SkipNode)
unfolding prepare_stats put_nodes
make_file stale buf x count = do
  stats ← prepare_stats x count
  sizes ← if stats.mmap_size == 0 then none else some stats.mmap_size
  (buf₁, real, end, rest) ← put_nodes count x buf 0 none
  last ← end
  blks ← copy_cells stale sizes (detach buf₁).0
  key ← key_block last.key
  some (
    record {
      blks = blks;
      footer = record {
        key = key;
        count = real;
        crc = f_crc;
        size = sizes;
        max_len = stats.max_len;
      };
    },
    last,
    (detach buf₁).1,
    rest,
  )

-- `blks[i].key`, a pointer into the blocks, and `blks[i].offset`.
unfoldable pub block_key : SiloFile → ℕ → List ℕ
block_key file i = drop (i * (file.footer.max_len + 8)) file.blks

unfoldable pub block_offset : SiloFile → ℕ → List ℕ
block_offset file i = take 8 (drop (i * (file.footer.max_len + 8) + file.footer.max_len) file.blks)

-- The search of `_read_offset`, on fuel; 0 when the key is not found, and a fault past the blocks.
unfoldable pub search_blocks : ℕ → SiloFile → List ℕ → ℕ → ℕ → Option ℕ
search_blocks zero file key left right = none
search_blocks (suc fuel) file key left right =
    let i = (right - left) / 2 + left in
    elim (ltb left right) [
      | false ↦ some 0
      | true ↦ elim (leb ((i + 1) * (file.footer.max_len + 8)) (length file.blks)) [
        | false ↦ none
        | true ↦ elim (strcmp key (block_key file i)) [
          | Ordering.eq ↦ some (u64_from_big (block_offset file i))
          | Ordering.lt ↦ search_blocks fuel file key left i
          | Ordering.gt ↦ search_blocks fuel file key (i + 1) right
        ]
      ]
    ]

unfoldable pub read_offset : Option SiloFile → List ℕ → Option ℕ
unfolding search_blocks
read_offset none key = some 0
read_offset (some file) key = search_blocks (suc file.footer.count) file key 0 file.footer.count

-- The loop of `_read_mmap` over the blocks from `i` on.
unfoldable pub insert_blocks : (ℕ → Bool) → SiloFile → ℕ → ℕ → Jikukan → Option Jikukan
insert_blocks coin file zero i merge = some merge
insert_blocks coin file (suc n) i merge =
    if leb ((i + 1) * (file.footer.max_len + 8)) (length file.blks)
    then (do
      (_, merge') ←
          Jikukan.insert coin merge (block_key file i) (u64_from_big (block_offset file i)) add
      insert_blocks coin file n (i + 1) merge')
    else none

-- `_read_mmap`; a file that cannot be opened ends the process.
unfoldable pub read_mmap : (ℕ → Bool) → Option SiloFile → ℕ → Option Jikukan
unfolding insert_blocks
read_mmap coin none count = none
read_mmap coin (some file) count =
    insert_blocks coin file file.footer.count 0 (Jikukan.new (file.footer.count + count + 1))
