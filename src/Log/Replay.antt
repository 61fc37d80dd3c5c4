-- ===== src/Log/Replay.antt =====
-- What `_log_read` makes of the records that `log_append` wrote.
use silokatana.Base.{
  false, zero, ◌==◌, ℕ, ◌+◌, ◌-◌, ◌%◌, ◌^◌, ◌≤◌, ◌<◌, ◌≡◌, refl, sym, ◌∙◌, ap, true, Option, none,
  some, List, [], ◌∷◌, ◌++◌, ltb, leb, if◌then◌else◌, length, replicate, arith, length-append,
  take-length_append, drop-length_append, suc,
}
use silokatana.Jikukan.{max_key_size}
use silokatana.Buffer.{
  int_bytes, long_bytes, u32_from_big-int_bytes, u64_from_big-long_bytes, u32_from_big,
  u64_from_big,
}
use silokatana.Level.{Slice}
use silokatana.Jikukan.{Opt}
use silokatana.Log.Defs.{
  Entry, letter, read, read_record, Log, enter, read_records, append, log_read,
}
use silokatana.Log.Append.{
  record_bytes, length-int_bytes, length-long_bytes, Fits, value_bytes, Fitting, IsOpen,
  append-Written, payload, length-payload,
}
use mathlib.Core.List.{append-nil, append_assoc}

-- The offset that comes back: while its bit 31 is clear, the one that was written.
abbrev pub recalled : ℕ → ℕ
recalled off = if ltb (off % 2 ^ 32) (2 ^ 31) then off else off % 2 ^ 32 + (2 ^ 64 - 2 ^ 32)

abbrev pub opt_of : Option Slice → Opt
opt_of none = Opt.del
opt_of (some sv) = Opt.add

-- What is read of the record of an operation.
abbrev pub entry_of : Slice → ℕ → Option Slice → Entry
entry_of sk off sv = record {
  key = payload sk ++ replicate (max_key_size - sk.len) 0;
  off = recalled off;
  opt = opt_of sv;
}

opt_letter : (sv : Option Slice) → (if letter sv == b'A' then Opt.add else Opt.del) ≡ opt_of sv
opt_letter none = refl
opt_letter (some sv) = refl

read_front :
    (n : ℕ) (bytes rest : List ℕ) → length bytes ≡ n → read n (bytes ++ rest) ≡ some (bytes, rest)
unfolding read
read_front n bytes rest h =
    let e : leb (length bytes) (length (bytes ++ rest)) ≡ true =
      ground (arith, length-append bytes rest) in
    rw (← h, e, take-length_append, drop-length_append) refl

read_record-record_bytes :
    (sk : Slice) (sv : Option Slice) (off : ℕ) (rest : List ℕ)
    → length (payload sk) ≡ sk.len
    → sk.len ≤ max_key_size
    → off < 2 ^ 64
    → read_record (record_bytes sk off (letter sv) ++ rest)
      ≡ some (entry_of sk off sv, 4 + sk.len + 8 + 1, rest)
unfolding read_record
read_record-record_bytes sk sv off rest full short h =
    let key = payload sk in
    let tail = letter sv ∷ rest in
    let layout : record_bytes sk off (letter sv) ++ rest
        ≡ int_bytes sk.len ++ (key ++ (long_bytes off ++ tail)) =
      append_assoc (int_bytes sk.len) _ rest
      ∙ ap (λ t. int_bytes sk.len ++ t)
          (append_assoc key _ rest ∙ ap (λ t. key ++ t) (append_assoc (long_bytes off) _ rest)) in
    let klen : u32_from_big (int_bytes sk.len) ≡ sk.len =
      ap u32_from_big (sym (append-nil (int_bytes sk.len)))
      ∙ u32_from_big-int_bytes sk.len [] (omega arith) in
    let back : u64_from_big (long_bytes off) ≡ recalled off =
      ap u64_from_big (sym (append-nil (long_bytes off))) ∙ u64_from_big-long_bytes off [] h in
    let e : leb sk.len max_key_size ≡ true = ground (arith, short) in
    let r₁ =
      read_front 4 (int_bytes sk.len) (key ++ (long_bytes off ++ tail)) (length-int_bytes sk.len) in
    let r₂ = read_front sk.len key (long_bytes off ++ tail) full in
    let r₃ = read_front 8 (long_bytes off) tail (length-long_bytes off) in
    let r₄ = read_front 1 (letter sv ∷ []) rest refl in
    rw (layout, r₁, klen, e, r₂, r₃, r₄, back, opt_letter sv) refl

-- A write to the store: a value, or `none` for a deletion.
pub record Op : Type 0 where
  pub sk : Slice
  pub sv : Option Slice

-- Keys that `_log_read` has room for, values that a buffer has room for, and a value file that stays
-- below 2 ^ 64 bytes.
abbrev pub Room : ℕ → List Op → Type 0
Room n [] = Unit
Room n (op ∷ ops) =
    Fits op.sk
    × (op.sk.len ≤ max_key_size)
    × Fitting op.sv
    × (n + length (value_bytes op.sv) < 2 ^ 64)
    × Room (n + length (value_bytes op.sv)) ops

-- The records of the operations, from a value file of `n` bytes on.
abbrev pub records : ℕ → List Op → List ℕ
records n [] = []
records n (op ∷ ops) =
    record_bytes op.sk n (letter op.sv) ++ records (n + length (value_bytes op.sv)) ops

abbrev pub append_all : (List ℕ → List ℕ → Option (List ℕ)) → Log → List Op → Option Log
append_all write l [] = some l
append_all write l (op ∷ ops) = elim (append write l op.sk op.sv) [
  | none ↦ none
  | some (off, l') ↦ append_all write l' ops
]

append_all-Written :
    (write : List ℕ → List ℕ → Option (List ℕ))
    → ((file bytes : List ℕ) → write file bytes ≡ some (file ++ bytes))
    → (l : Log) (ops : List Op) → IsOpen l
    → Room (length l.db) ops
    → (l' : Log) × (append_all write l ops ≡ some l')
      × (l'.indx ≡ l.indx ++ records (length l.db) ops)
append_all-Written write appends l [] o r = (l, refl, sym (append-nil l.indx))
append_all-Written write appends l (op ∷ ops) o (fk, short, fv, room, r) =
    let (l₁, run₁, (indx₁, db₁, o₁)) = append-Written write appends l op.sk op.sv o fk fv room in
    let n = length l.db + length (value_bytes op.sv) in
    let e : length l₁.db ≡ n = ap length db₁ ∙ length-append l.db (value_bytes op.sv) in
    let (l₂, run₂, indx₂) = append_all-Written write appends l₁ ops o₁ (rw e r) in
    (
      l₂,
      rw (append_all, run₁) run₂,
      indx₂
          ∙ ap (λ i. i ++ records (length l₁.db) ops) indx₁
          ∙ append_assoc l.indx _ _
          ∙ ap (λ k. l.indx ++ (record_bytes op.sk (length l.db) (letter op.sv) ++ records k ops))
              e,
    )

module _ {ℓ} {L : Type ℓ} (insert : L → List ℕ → ℕ → Opt → L) where
  -- The entries of the operations, in their order.
  abbrev pub replay : L → ℕ → List Op → L
  replay list n [] = list
  replay list n (op ∷ ops) =
      replay (enter insert list (entry_of op.sk n op.sv)) (n + length (value_bytes op.sv)) ops

  -- A round that leaves as much to be read as the file has.
  round :
      (fuel isize : ℕ) (file : List ℕ) (list : L) (e : Entry) (rest : List ℕ)
      → read_record file ≡ some (e, isize, rest)
      → length file ≡ isize + length rest
      → 0 < isize
      → read_records insert (suc fuel) (length file) file list
        ≡ read_records insert fuel (length rest) rest (enter insert list e)
  unfolding read_records
  round fuel isize [] list e rest h size pos = absurd (omega arith)
  round fuel isize (c ∷ file) list e rest h size pos =
      let left : suc (length file) - isize ≡ length rest = omega arith in
      rw (read_records, h, left) refl

  length-record_bytes :
      (sk : Slice) (off mark : ℕ)
      → length (payload sk) ≡ sk.len
      → length (record_bytes sk off mark) ≡ 4 + sk.len + 8 + 1
  length-record_bytes sk off mark full = omega (
    arith,
    full,
    length-append (int_bytes sk.len) (payload sk ++ (long_bytes off ++ (mark ∷ []))),
    length-append (payload sk) (long_bytes off ++ (mark ∷ [])),
    length-append (long_bytes off) (mark ∷ []),
    length-int_bytes sk.len,
    length-long_bytes off,
  )

  -- More fuel than bytes is enough.
  read_records-records :
      (fuel n : ℕ) (ops : List Op) (list : L)
      → Room n ops
      → length (records n ops) < fuel
      → read_records insert fuel (length (records n ops)) (records n ops) list
        ≡ some (replay list n ops)
  unfolding read_records
  read_records-records zero n ops list r h = absurd (omega arith)
  read_records-records (suc fuel) n [] list r h = refl
  read_records-records (suc fuel) n (op ∷ ops) list (fk, short, fv, room, r) h =
      let m = n + length (value_bytes op.sv) in
      let line = record_bytes op.sk n (letter op.sv) in
      let size = length-record_bytes op.sk n (letter op.sv) (length-payload op.sk fk) in
      let whole : length (line ++ records m ops) ≡ 4 + op.sk.len + 8 + 1 + length (records m ops) =
        omega (arith, size, length-append line (records m ops)) in
      let one =
        read_record-record_bytes op.sk op.sv n (records m ops) (length-payload op.sk fk) short
          (omega arith) in
      round fuel (4 + op.sk.len + 8 + 1) (line ++ records m ops) list (entry_of op.sk n op.sv)
        (records m ops) one whole (omega arith)
      ∙ read_records-records fuel m ops (enter insert list (entry_of op.sk n op.sv)) r
          (omega (arith, whole, h))

  -- The length of a file below 2 ^ 31 bytes is not cut.
  read_whole :
      (file : List ℕ) (list list' : L)
      → 0 < length file
      → length file < 2 ^ 31
      → read_records insert (suc (length file)) (length file) file list ≡ some list'
      → log_read insert (some file) list ≡ some (1, list')
  unfolding log_read
  read_whole file list list' pos low run =
      let whole : length file % 2 ^ 32 ≡ length file = omega (arith, low) in
      let some_ : (length file % 2 ^ 32 == 0) ≡ false = ground (arith, pos, whole) in
      let positive : ltb (length file % 2 ^ 32) (2 ^ 31) ≡ true = ground (arith, low, whole) in
      rw (log_read, some_, positive, whole, run) refl

  read_all :
      (n : ℕ) (op : Op) (ops : List Op) (list : L)
      → Room n (op ∷ ops)
      → length (records n (op ∷ ops)) < 2 ^ 31
      → log_read insert (some (records n (op ∷ ops))) list ≡ some (1, replay list n (op ∷ ops))
  read_all n op ops list r low =
      let file = records n (op ∷ ops) in
      let m = n + length (value_bytes op.sv) in
      let pos : 0 < length file = omega (
        arith,
        length-record_bytes op.sk n (letter op.sv) (length-payload op.sk r.0),
        length-append (record_bytes op.sk n (letter op.sv)) (records m ops),
      ) in
      let run = read_records-records (suc (length file)) n (op ∷ ops) list r (omega arith) in
      read_whole file list (replay list n (op ∷ ops)) pos low run

  -- For an open log that starts empty, a `write` that writes everything, keys of at most 32 bytes,
  -- values that a buffer and the value file have room for, and operations whose records are less
  -- than 2 ^ 31 bytes together: `_log_read` of the file that the operations leave, of which there
  -- is at least one, finishes within its fuel with result 1. It enters each key, filled up with
  -- zeros, with its offset as `u64_from_big` reads it and its operation, in the order of the
  -- operations.
  pub log_read-append_all :
      (write : List ℕ → List ℕ → Option (List ℕ))
      → ((file bytes : List ℕ) → write file bytes ≡ some (file ++ bytes))
      → (l : Log) (op : Op) (ops : List Op) (list : L) → IsOpen l
      → l.indx ≡ []
      → Room (length l.db) (op ∷ ops)
      → length (records (length l.db) (op ∷ ops)) < 2 ^ 31
      → (l' : Log) × (append_all write l (op ∷ ops) ≡ some l')
        × (log_read insert (some l'.indx) list ≡ some (1, replay list (length l.db) (op ∷ ops)))
  log_read-append_all write appends l op ops list o start r low =
      let (l', run, indx) = append_all-Written write appends l (op ∷ ops) o r in
      let all : l'.indx ≡ records (length l.db) (op ∷ ops) =
        indx ∙ ap (λ i. i ++ records (length l.db) (op ∷ ops)) start in
      (l', run, rw all (read_all (length l.db) op ops list r low))
