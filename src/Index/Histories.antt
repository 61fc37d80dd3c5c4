-- ===== src/Index/Histories.antt =====
-- Any order of additions, deletions, reads and merges of the index of storage/src/index.c, while all
-- offsets fit one file: a merge is the step that `_merge_job` takes under its lock.
use silokatana.Base.{ℕ, ◌+◌, ◌^◌, ◌<◌, ◌≤◌, ◌≡◌, ◌⊎◌, List, Option, none, some, Bool, length}
use silokatana.Base.CStr.{c_str}
use silokatana.Jikukan.{lookup, Opt, SkipNode, Jikukan, max_key_size}
use silokatana.Level.{Slice}
use silokatana.Log.{Fits, Fitting, value_bytes}
use silokatana.Index.Defs.{Index, Got, add, get, merge_job}
use silokatana.Index.Maps.{Map, assign, empty}
use silokatana.Index.Notes.{contents}
use silokatana.Index.Views.{Whole}
use silokatana.Index.Merges.{OfKeys}
use silokatana.Index.Readiness.{Held, Ready}
use silokatana.Index.Keeping.{Keeps}

module _ (write : List ℕ → List ℕ → Option (List ℕ)) (coin : ℕ → Bool) (stale len : ℕ) where
  abbrev HasLength : Slice → Option Slice → Type 0
  HasLength sk sv = (v : List ℕ) → contents sv ≡ some v → length (c_str sk.bytes) ≡ len

  -- The indexes that operations lead to, with what the additions and deletions among them have last
  -- said of each key. A table that is full is parked only where nothing is parked.
  pub data Runs (start : Index) : Index → Map → Type 0 where
    begun : Runs start start empty
    added :
        {indx indx' : Index} {all : Map} {ret : ℕ} (sk : Slice) (sv : Option Slice)
        → Runs start indx all
        → Fits sk
        → Fitting sv
        → length (c_str sk.bytes) ≤ max_key_size
        → HasLength sk sv
        → length indx.log.db + length (value_bytes sv) < 2 ^ 63
        → (indx.list.count < indx.list.size) ⊎ (indx.park.list ≡ none)
        → add write coin indx sk sv ≡ some (ret, indx')
        → Runs start indx' (assign all sk.bytes (contents sv))
    asked :
        {indx indx' : Index} {all : Map} {got : Got} (sk : Slice)
        → Runs start indx all
        → get indx sk ≡ some (got, indx')
        → Runs start indx' all
    merged :
        {indx indx' : Index} {all : Map} (list : Jikukan) (k : List ℕ) (node : SkipNode)
        → Runs start indx all
        → Ready indx list
        → lookup list k ≡ some (some node)
        → node.opt ≡ Opt.add
        → merge_job stale coin indx ≡ some indx'
        → Runs start indx' all

  -- The three maps of an index, one of which has the last value of each key.
  record Holding (indx : Index) (all : Map) : Type 0 where
    m : Map
    old : Map
    disk : Map
    whole : Whole indx m old disk
    keeps : Keeps m old disk all
    keys : OfKeys len m
    keys_old : OfKeys len old
    held : Held indx.silopit len
