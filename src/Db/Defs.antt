-- ===== src/Db/Defs.antt =====
-- The operations of storage/src/db.c. `none` is a fault, or the exit of __PANIC.
use silokatana.Base.{
  ℕ, ◌+◌, ◌*◌, ◌/◌, ◌%◌, ◌^◌, Bool, true, false, Option, none, some, List, [], ◌∷◌, ◌++◌, ◌>>=◌,
  ◌==◌, if◌then◌else◌,
}
use silokatana.Buffer.{Buffer, Cells, scatf, detach}
use silokatana.Buffer
use silokatana.Level.{Slice}
use silokatana.Log.{log_buffer_size, read_cells}
use silokatana.Shiki.{Shiki, copy}
use silokatana.Shiki
use silokatana.Silopit.{Directory, SiloFile}
use silokatana.Silopit
use silokatana.Index.{Index, Got, missing, deleted, unset, value}
use silokatana.Index

-- `start_time` is never used.
pub record Silokatana : Type 0 where
  pub lru : Shiki
  pub indx : Index
  pub buf : Buffer
  pub lru_cached : ℕ
  pub lru_missing : ℕ

-- MTBL_MAX_COUNT
abbrev pub mtbl_max_count : ℕ
mtbl_max_count = 5_000_000

-- The numbers that `db_info` prints, before they are cut to an `int`.
pub record Info : Type 0 where
  pub total : ℕ
  pub hot : ℕ
  pub cold : ℕ
  pub allowed : ℕ

unfoldable pub usage : Shiki → Info
usage lru =
    let mb = 1024 * 1024 in
    record {
      total = (lru.level_new.used_size + lru.level_old.used_size) % 2 ^ 64 / mb;
      hot = lru.level_new.used_size / mb;
      cold = lru.level_old.used_size / mb;
      allowed = (lru.level_old.allow_size + lru.level_new.allow_size) % 2 ^ 64 / mb;
    }

-- `format` is what the format of `db_info` makes of its numbers.
unfoldable pub info : (Info → List ℕ) → Silokatana → Option (List ℕ × Silokatana)
unfolding usage
info format db = do
  buf ← Buffer.clear db.buf
  buf' ← scatf buf (format (usage db.lru))
  infos ← read_cells (buf'.nul + 1) (detach buf').0
  some (infos, record db { buf = (detach buf').1 })

-- The copy that a hit hands over, with a NUL behind it.
unfoldable pub copy_hit : Slice → Option Slice
copy_hit sv_l = do c ← copy sv_l; some (record { bytes = c.bytes ++ 0 ∷ []; len = c.len })

unfoldable pub exists : Silokatana → Slice → Option (Bool × Silokatana)
exists db sk = do
  (got, indx) ← Index.get db.indx sk
  there ← elim got [
    | value sv ↦ some true
    | unset ↦ none
    | missing ↦ some false
    | deleted ↦ some false
  ]
  some (there, record db { indx = indx })

module _ (slack : ℕ → List ℕ) where
  -- What is read from the index goes to the cache; a value that was not set is read only if that is on.
  unfoldable pub cache : Shiki → Slice → Got → Option Shiki
  cache lru sk (value sv) = Shiki.set slack lru sk sv
  cache lru sk unset = if lru.buffer == 0 then some lru else none
  cache lru sk missing = some lru
  cache lru sk deleted = some lru

  -- The branch of `db_get` for a key that is not cached.
  unfoldable pub get_index : Silokatana → Slice → Option (Got × Silokatana)
  unfolding cache
  get_index db sk = do
    (got, indx) ← Index.get db.indx sk
    lru ← cache db.lru sk got
    some (got, record db { lru = lru; indx = indx; lru_missing = (db.lru_missing + 1) % 2 ^ 64 })

  unfoldable pub get : Silokatana → Slice → Option (Got × Silokatana)
  unfolding get_index copy_hit
  get db sk = elim (Shiki.get slack db.lru sk) [
    | none ↦ none
    | some (none, lru) ↦ get_index (record db { lru = lru }) sk
    | some (some sv_l, lru) ↦ do
      sv ← copy_hit sv_l
      some (value sv, record db { lru = lru; lru_cached = (db.lru_cached + 1) % 2 ^ 64 })
  ]

module _ (write : List ℕ → List ℕ → Option (List ℕ)) (coin : ℕ → Bool) where
  unfoldable pub add : Silokatana → Slice → Slice → Option (ℕ × Silokatana)
  add db sk sv = do
    lru ← Shiki.remove db.lru sk
    (ret, indx) ← Index.add write coin db.indx sk (some sv)
    some (ret, record db { lru = lru; indx = indx })

  unfoldable pub remove : Silokatana → Slice → Option Silokatana
  remove db sk = do
    lru ← Shiki.remove db.lru sk
    (ret, indx) ← Index.add write coin db.indx sk none
    some (record db { lru = lru; indx = indx })

  -- The directory gives the files, as in `index_new`.
  unfoldable pub db_open :
      ℕ
      → (ℕ → ℕ)
      → Directory
      → List (List ℕ × SiloFile)
      → Option (List ℕ)
      → List (Option (List ℕ))
      → Bool
      → ℕ
      → Bool
      → Option Silokatana
  db_open stale ratio files dir db logs held bufferpool_size is_log_recovery = do
    indx ← Index.new stale coin write files dir db logs held mtbl_max_count is_log_recovery
    some (record {
      lru = Shiki.new ratio bufferpool_size;
      indx = indx;
      buf = Buffer.new log_buffer_size;
      lru_cached = 0;
      lru_missing = 0;
    })

  -- What `db_close` leaves in the files of offsets.
  unfoldable pub close : ℕ → Silokatana → Option Silopit.Silopit
  close stale db = Index.flush stale coin db.indx
