-- ===== src/Log/Defs.antt =====
-- The operations of storage/src/log.c. `none` is a fault, or the exit of __PANIC.
use silokatana.Base.{
  ℕ, zero, suc, ◌+◌, ◌-◌, ◌%◌, ◌^◌, Bool, true, false, Option, none, some, List, [], ◌∷◌, ◌++◌,
  ◌>>=◌, leb, ltb, ◌==◌, if◌then◌else◌, length, take, drop, replicate, get_or, ◌*◌,
}
use silokatana.Buffer.{Buffer, Cells, putint, putnstr, putlong, detach, u32_from_big, u64_from_big}
use silokatana.Buffer
use silokatana.Level.{Slice}
use silokatana.Jikukan.{Opt, max_key_size}
use silokatana.Jikukan.Opt.{add, del}

-- The file behind each descriptor stands in its place.
pub record Log : Type 0 where
  pub islog : Bool
  pub db_alloc : ℕ
  pub buf : Buffer
  pub db_buf : Buffer
  pub db : List ℕ
  pub indx : List ℕ

-- DB_MAGIC, as a little-endian host writes it.
abbrev pub db_magic : List ℕ
db_magic = 221 ∷ 7 ∷ 0 ∷ 0 ∷ []

-- LOG_BUFFER_SIZE
abbrev pub log_buffer_size : ℕ
log_buffer_size = 1024 * 100

-- The first bytes of a block; one that was never written is a fault.
unfoldable pub read_cells : ℕ → Cells → Option (List ℕ)
read_cells zero cells = some []
read_cells (suc n) [] = none
read_cells (suc n) (none ∷ cells) = none
read_cells (suc n) (some c ∷ cells) = elim (read_cells n cells) [
  | none ↦ none
  | some bytes ↦ some (c ∷ bytes)
]

-- The letter of an operation: "A" with a value, "D" without.
abbrev pub letter : Option Slice → ℕ
letter none = b'D'
letter (some sv) = b'A'

-- `write` gives the file with all the bytes behind it, or `none` where fewer were written.
module _ (write : List ℕ → List ℕ → Option (List ℕ)) where
  -- `db` is the value file, if it is there.
  unfoldable pub new : Option (List ℕ) → Bool → Option Log
  new db islog = do
    file ← elim db [ none ↦ write [] db_magic | some bytes ↦ some bytes ]
    some (record {
      islog = islog;
      db_alloc = elim db [ none ↦ 4 | some bytes ↦ length bytes ];
      buf = Buffer.new log_buffer_size;
      db_buf = Buffer.new log_buffer_size;
      db = file;
      indx = [];
    })

  -- The branch of `log_append` for a value.
  unfoldable pub put_value : Log → Option Slice → Option Log
  put_value l none = some l
  put_value l (some sv) = do
    b ← putint l.db_buf sv.len
    c ← putnstr b sv.bytes sv.len
    db_line ← read_cells c.nul (detach c).0
    db ← write l.db db_line
    some (record l { db = db; db_buf = (detach c).1; db_alloc = (l.db_alloc + c.nul) % 2 ^ 64 })

  -- The branch of `log_append` for the log.
  unfoldable pub put_index : Log → Slice → ℕ → ℕ → Option Log
  put_index l sk db_offset mark = do
    b ← putint l.buf sk.len
    c ← putnstr b sk.bytes sk.len
    d ← putlong c db_offset
    e ← putnstr d (mark ∷ []) 1
    line ← read_cells e.nul (detach e).0
    indx ← write l.indx line
    some (record l { indx = indx; buf = (detach e).1 })

  unfoldable pub append : Log → Slice → Option Slice → Option (ℕ × Log)
  append l sk sv = do
    l₁ ← put_value l sv
    l₂ ← if l.islog then put_index l₁ sk l.db_alloc (letter sv) else some l₁
    some (l.db_alloc, l₂)

-- `log_next` opens an empty file.
unfoldable pub next : Log → Option Log
next l = do
  buf ← Buffer.clear l.buf
  db_buf ← Buffer.clear l.db_buf
  some (record l { buf = buf; db_buf = db_buf; indx = [] })

-- The `read` of a number of bytes, which ends the process when there are fewer.
unfoldable pub read : ℕ → List ℕ → Option (List ℕ × List ℕ)
read n file = if leb n (length file) then some (take n file, drop n file) else none

pub record Entry : Type 0 where
  pub key : List ℕ
  pub off : ℕ
  pub opt : Opt

-- A round of the loop in `_log_read`, with `isize` and what is behind the record. The key goes to an
-- array of 32 bytes, and a longer one faults.
unfoldable pub read_record : List ℕ → Option (Entry × ℕ × List ℕ)
read_record file = do
  (klenstr, f₁) ← read 4 file
  let klen = u32_from_big klenstr
  (key, f₂) ← if leb klen max_key_size then read klen f₁ else none
  (offstr, f₃) ← read 8 f₂
  (optstr, f₄) ← read 1 f₃
  some (
    record {
      key = key ++ replicate (max_key_size - klen) 0;
      off = u64_from_big offstr;
      opt = if get_or optstr 0 0 == b'A' then add else del;
    },
    4 + klen + 8 + 1,
    f₄,
  )

module _ {ℓ} {L : Type ℓ} (insert : L → List ℕ → ℕ → Opt → L) where
  abbrev pub enter : L → Entry → L
  enter list e = insert list e.key e.off e.opt

  -- The loop of `_log_read`, on fuel. `rem` is an int, of which only the test against 0 is made: 0
  -- stands for what is not positive.
  unfoldable pub read_records : ℕ → ℕ → List ℕ → L → Option L
  read_records zero rem file list = none
  read_records (suc fuel) zero file list = some list
  read_records (suc fuel) (suc rem) file list = elim (read_record file) [
    | none ↦ none
    | some (e, isize, rest) ↦ read_records fuel (suc rem - isize) rest (enter list e)
  ]

  -- `_log_read` of a file that may be missing; its result is 0 or 1. The length of the file is cut
  -- to an int, and where that is negative the loop does not run.
  unfoldable pub log_read : Option (List ℕ) → L → Option (ℕ × L)
  log_read none list = some (0, list)
  log_read (some file) list =
      let size = length file % 2 ^ 32 in
      let rem = if ltb size (2 ^ 31) then size else 0 in
      elim (size == 0) [
        | true ↦ some (0, list)
        | false ↦ elim (read_records (suc rem) rem file list) [
          | none ↦ none
          | some list' ↦ some (1, list')
        ]
      ]

  -- Of the log files that the directory lists, the first is read, and then the last of the others.
  unfoldable pub last_log : List (Option (List ℕ)) → Option (Option (List ℕ))
  last_log [] = none
  last_log (f ∷ fs) = elim (last_log fs) [ none ↦ some f | some g ↦ some g ]

  -- Each name is copied with the bytes behind it, 1024 from a field of 256: `held` says whether they
  -- are in the block that `readdir` gave.
  unfoldable pub recovery : Bool → Bool → List (Option (List ℕ)) → L → Option (ℕ × L)
  recovery held false logs list = some (0, list)
  recovery held true [] list = some (0, list)
  recovery false true (f ∷ fs) list = none
  recovery true true (f ∷ fs) list = do
    (ret, list₁) ← log_read f list
    if ret == 0
        then some (0, list₁)
        else elim (last_log fs) [ none ↦ some (ret, list₁) | some g ↦ log_read g list₁ ]
