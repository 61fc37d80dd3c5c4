-- ===== src/Index/Defs.antt =====
-- The operations of storage/src/index.c. `none` is a fault, or the exit of __PANIC.
use silokatana.Base.{
  ℕ, ◌+◌, ◌-◌, ◌%◌, ◌^◌, Bool, true, false, Option, none, some, List, [], ◌∷◌, ◌++◌, ◌>>=◌, ◌&&◌,
  ltb, ◌==◌, if◌then◌else◌, length, take, drop, replicate,
}
use silokatana.Base.CStr.{c_str}
use silokatana.Buffer.{u32_from_big}
use silokatana.Level.{Slice}
use silokatana.Log.{Log, Entry, opt_of}
use silokatana.Log
use silokatana.Jikukan.{Jikukan, SkipNode, Opt}
use silokatana.Jikukan
use silokatana.Hiraishin
use silokatana.Silopit.{Silopit, SiloFile, Directory}
use silokatana.Silopit
use silokatana.Meta.{MetaNode}

-- The list that waits for the merge thread, or `none` for NULL, and its number.
pub record IndxPark : Type 0 where
  pub list : Option Jikukan
  pub lsn : ℕ

pub record Index : Type 0 where
  pub lsn : ℕ
  pub bg_merge_count : ℕ
  pub mtbl_rem_count : ℕ
  pub max_mtbl_size : ℕ
  pub hiraishin_hits : ℕ
  pub log : Log
  pub silopit : Silopit
  pub list : Jikukan
  pub park : IndxPark

-- What `index_get` returns: 0; -1; 1 with nothing in `sv`; 1 with a value.
pub data Got : Type 0 where
  missing : Got
  deleted : Got
  unset : Got
  value : Slice → Got

-- The reads from the value file, which the rest of the function leads to; a short value is filled up
-- with zeros. The reads themselves do not fail.
unfoldable pub read_value : List ℕ → ℕ → Option Got
read_value db off =
    let be32len = take 4 (drop off db) in
    let value_len = u32_from_big be32len in
    let text = take value_len (drop (off + 4) db) in
    let sv : Slice = record {
      bytes = text ++ replicate (value_len + 1 - length text) 0;
      len = value_len;
    } in
    if ltb off (2 ^ 63) && length be32len == 4
    then (if ltb value_len (2 ^ 31 - 1) then some (value sv) else none)
    else some unset

-- `value_off` where 0 stands for none.
unfoldable pub fetch : Index → Slice → ℕ → Option (Got × Index)
unfolding read_value
fetch indx sk value_off = do
  (off, silopit) ←
      if value_off == 0 then Silopit.getoff indx.silopit sk else some (value_off, indx.silopit)
  got ← if off == 0 then some missing else read_value indx.log.db off
  some (got, record indx { silopit = silopit })

-- The offset that the parked list has for a key.
unfoldable pub parked : Option Jikukan → Slice → Option ℕ
parked none sk = some 0
parked (some list) sk = elim (Jikukan.lookup list sk.bytes) [
  | none ↦ none
  | some none ↦ some 0
  | some (some node) ↦ some (elim node.opt [ Opt.add ↦ node.val | Opt.del ↦ 0 ])
]

-- The part of `index_get` behind the filter.
unfoldable pub find : Index → Slice → Option (Got × Index)
unfolding fetch parked
find indx sk = elim (Jikukan.lookup indx.list sk.bytes) [
  | none ↦ none
  | some none ↦ do off ← parked indx.park.list sk; fetch indx sk off
  | some (some node) ↦ elim node.opt [
    | Opt.del ↦ some (deleted, indx)
    | Opt.add ↦ fetch indx sk node.val
  ]
]

unfoldable pub get : Index → Slice → Option (Got × Index)
unfolding find
get indx sk =
    if Hiraishin.get indx.silopit.hiraishin (some sk.bytes) == 0
    then some (missing, indx)
    else find (record indx { hiraishin_hits = (indx.hiraishin_hits + 1) % 2 ^ 64 }) sk

-- The branch of `index_add` for a full list. It parks the list over whatever was parked before; the
-- thread that it starts runs as `merge_job`.
unfoldable pub rotate : Index → Option Index
rotate indx = do
  log ← Log.next indx.log
  some (record indx {
    bg_merge_count = indx.bg_merge_count + 1;
    park = record { list = some indx.list; lsn = indx.lsn };
    mtbl_rem_count = 0;
    list = Jikukan.new indx.max_mtbl_size;
    lsn = indx.lsn + 1;
    log = log;
  })

-- What a key's operation leaves in the filter and the counters.
unfoldable pub note : Index → Slice → Option Slice → Index
note indx sk none = record indx { mtbl_rem_count = indx.mtbl_rem_count + 1 }
note indx sk (some sv) = record indx {
  silopit = record indx.silopit {
    hiraishin = Hiraishin.add indx.silopit.hiraishin (some sk.bytes);
  };
}

abbrev pub opt_for : Option Slice → Opt
opt_for none = Opt.del
opt_for (some sv) = Opt.add

module _ (write : List ℕ → List ℕ → Option (List ℕ)) (coin : ℕ → Bool) where
  unfoldable pub add : Index → Slice → Option Slice → Option (ℕ × Index)
  unfolding rotate note
  add indx sk sv = do
    (value_offset, log) ← Log.append write indx.log sk sv
    let logged = record indx { log = log }
    ready ← if Jikukan.notfull indx.list then some logged else rotate logged
    (_, list) ← Jikukan.insert coin ready.list sk.bytes value_offset (opt_for sv)
    some (1, note (record ready { list = list }) sk sv)

-- An insertion of `_log_read`, whose result is not looked at. `key` is its array, and the string of
-- one that has no NUL runs past it.
abbrev pub reinsert : (ℕ → Bool) → Option Jikukan → List ℕ → ℕ → Opt → Option Jikukan
reinsert coin none key off opt = none
reinsert coin (some list) key off opt =
    if ltb (length (c_str key)) (length key)
    then (do (_, list') ← Jikukan.insert coin list key off opt; some list')
    else none

module _ (stale : ℕ) (coin : ℕ → Bool) where
  -- `_merge_job` as one step, under its lock. Without a parked list it reads through NULL.
  unfoldable pub merge_job : Index → Option Index
  merge_job indx = elim indx.park.list [
    | none ↦ none
    | some list ↦ do
      silopit ← Silopit.merge stale coin indx.silopit list false
      some (record indx { silopit = silopit; park = record indx.park { list = none } })
  ]

  -- `_index_flush`, after which the list is freed and the index goes away.
  unfoldable pub flush : Index → Option Silopit
  flush indx =
      if ltb 0 indx.list.count
      then Silopit.merge stale coin indx.silopit indx.list false
      else some indx.silopit

  -- The list that a recovery with result 1 filled goes to the files, and a new one takes its place.
  unfoldable pub recover :
      Bool → ℕ → Silopit → List (Option (List ℕ)) → Log → Option (Silopit × Jikukan)
  recover held max_mtbl_size silopit logs log = do
    (ret, filled) ←
        Log.recovery (reinsert coin) held log.islog logs (some (Jikukan.new max_mtbl_size))
    list ← filled
    elim (ret == 0) [
      | true ↦ some (silopit, list)
      | false ↦ do
        silopit' ← Silopit.merge stale coin silopit list true
        some (silopit', Jikukan.new max_mtbl_size)
    ]

  -- The directory gives the value file, the files of offsets and the log files.
  unfoldable pub new :
      (List ℕ → List ℕ → Option (List ℕ))
      → Directory
      → List (List ℕ × SiloFile)
      → Option (List ℕ)
      → List (Option (List ℕ))
      → Bool
      → ℕ
      → Bool
      → Option Index
  unfolding recover
  new write files dir db logs held max_mtbl_size tolog = do
    silopit ← Silopit.new files dir
    log ← Log.new write db tolog
    (silopit', list) ← recover held max_mtbl_size silopit logs log
    log' ← Log.next log
    some (record {
      lsn = 0;
      bg_merge_count = 0;
      mtbl_rem_count = 0;
      max_mtbl_size = max_mtbl_size;
      hiraishin_hits = 0;
      log = log';
      silopit = silopit';
      list = list;
      park = record { list = none; lsn = 0 };
    })

-- The loop of `index_allcount`.
unfoldable pub sum_counts : List MetaNode → ℕ → ℕ
sum_counts [] c = c
sum_counts (node ∷ nodes) c = sum_counts nodes ((c + node.count) % 2 ^ 64)

unfoldable pub allcount : Index → ℕ
unfolding sum_counts
allcount indx = sum_counts indx.silopit.meta.nodes 0
