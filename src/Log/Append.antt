-- ===== src/Log/Append.antt =====
-- What `log_append` writes: a record behind the log, and the value behind the values.
use silokatana.Base.{
  ◌<◌, length-append, length-take, sym, ◌∙◌, ℕ, ◌+◌, ◌%◌, ◌^◌, ◌≤◌, ◌≡◌, refl, ap, true, Option,
  none, some, List, [], ◌∷◌, ◌++◌, length, take, arith, sym, ◌∙◌,
}
use silokatana.Buffer.{
  Buffer, Cells, Holds, putint-Holds, putnstr-IsString, putlong-Holds, detach-Holds, int_bytes,
  long_bytes, detach,
}
use silokatana.Level.{Slice}
use silokatana.Log.Defs.{Log, read_cells, put_value, put_index, append, letter}
use mathlib.Core.List.{map, append-nil, append_assoc}

-- The log is on, both buffers are empty, and the next value goes to the end of its file.
pub record IsOpen (l : Log) : Type 0 where
  pub logs : l.islog ≡ true
  pub buf : Holds l.buf []
  pub db_buf : Holds l.db_buf []
  pub at_end : l.db_alloc ≡ length l.db

-- A slice whose block has the bytes that it says, few enough for a buffer.
pub record Fits (s : Slice) : Type 0 where
  pub full : s.len ≤ length s.bytes
  pub small : s.len + 64 ≤ 2 ^ 30

-- The bytes that a slice stands for; more can stand behind them in its block, such as a NUL.
abbrev pub payload : Slice → List ℕ
payload s = take s.len s.bytes

pub length-payload : (s : Slice) → Fits s → length (payload s) ≡ s.len
length-payload s f = omega (arith, length-take s.len s.bytes, f.full)

abbrev pub Fitting : Option Slice → Type 0
Fitting none = Unit
Fitting (some sv) = Fits sv

abbrev pub value_bytes : Option Slice → List ℕ
value_bytes none = []
value_bytes (some sv) = int_bytes sv.len ++ payload sv

abbrev pub record_bytes : Slice → ℕ → ℕ → List ℕ
record_bytes sk off mark = int_bytes sk.len ++ (payload sk ++ (long_bytes off ++ (mark ∷ [])))

read_cells-written :
    (s : List ℕ) (rest : Cells) → read_cells (length s) (map some s ++ rest) ≡ some s
unfolding read_cells
read_cells-written [] rest = refl
read_cells-written (x ∷ s) rest = rw (read_cells-written s rest)

-- The line that a full buffer hands over, and the empty buffer that stays.
line_lem :
    (b : Buffer) (s : List ℕ)
    → Holds b s
    → (read_cells b.nul (detach b).0 ≡ some s) × Holds (detach b).1 []
line_lem b s h =
    let (rest, cells, empty) = detach-Holds b s h in
    (rw (cells, h.mark) (read_cells-written s rest), empty)

pub length-int_bytes : (n : ℕ) → length (int_bytes n) ≡ 4
unfolding int_bytes
length-int_bytes n = refl

pub length-long_bytes : (n : ℕ) → length (long_bytes n) ≡ 8
unfolding long_bytes
length-long_bytes n = refl

module _ (write : List ℕ → List ℕ → Option (List ℕ))
    (appends : (file bytes : List ℕ) → write file bytes ≡ some (file ++ bytes)) where
  put_value-Fitting :
      (l : Log) (sv : Option Slice)
      → IsOpen l
      → Fitting sv
      → length l.db + length (value_bytes sv) < 2 ^ 64
      → (l' : Log) × (put_value write l sv ≡ some l')
        × ((l'.db ≡ l.db ++ value_bytes sv) × (l'.indx ≡ l.indx) × IsOpen l')
  unfolding put_value
  put_value-Fitting l none o f room = (l, refl, (sym (append-nil l.db), refl, o))
  put_value-Fitting l (some sv) o f room =
      let (b, run₁, h₁) = putint-Holds l.db_buf [] o.db_buf sv.len (omega (arith, o.db_buf.mark)) in
      let (c, run₂, h₂) =
        putnstr-IsString b _ h₁ sv.bytes sv.len (omega (arith, f.full))
          (omega (arith, f.small, h₁.mark, length-int_bytes sv.len)) in
      let (run₃, empty) = line_lem c _ h₂.holds in
      let grown : (l.db_alloc + c.nul) % 2 ^ 64 ≡ length (l.db ++ value_bytes (some sv)) = omega (
        arith,
        o.at_end,
        h₂.holds.mark,
        length-append (int_bytes sv.len) (payload sv),
        length-append l.db (value_bytes (some sv)),
        room,
      ) in
      (
        record l {
          db = l.db ++ value_bytes (some sv);
          db_buf = (detach c).1;
          db_alloc = (l.db_alloc + c.nul) % 2 ^ 64;
        },
        rw (run₁, run₂, run₃, appends) refl,
        (refl, refl, record { logs = o.logs; buf = o.buf; db_buf = empty; at_end = grown }),
      )

  put_index-Fits :
      (l : Log) (sk : Slice) (off mark : ℕ)
      → IsOpen l
      → Fits sk
      → (l' : Log) × (put_index write l sk off mark ≡ some l')
        × ((l'.indx ≡ l.indx ++ record_bytes sk off mark) × (l'.db ≡ l.db) × IsOpen l')
  unfolding put_index
  put_index-Fits l sk off mark o f =
      let key = payload sk in
      let (b, run₁, h₁) = putint-Holds l.buf [] o.buf sk.len (omega (arith, o.buf.mark)) in
      let n₁ : b.nul ≡ 4 = h₁.mark ∙ length-int_bytes sk.len in
      let (c, run₂, h₂) =
        putnstr-IsString b (int_bytes sk.len) h₁ sk.bytes sk.len (omega (arith, f.full))
          (omega (arith, f.small, n₁)) in
      let n₂ : c.nul ≡ 4 + sk.len = omega (
        arith,
        h₂.holds.mark,
        length-append (int_bytes sk.len) key,
        length-int_bytes sk.len,
        length-payload sk f,
      ) in
      let (d, run₃, h₃) =
        putlong-Holds c (int_bytes sk.len ++ key) h₂.holds off (omega (arith, f.small, n₂)) in
      let n₃ : d.nul ≡ 12 + sk.len = omega (
        arith,
        h₃.mark,
        length-append (int_bytes sk.len ++ key) (long_bytes off),
        n₂,
        h₂.holds.mark,
        length-long_bytes off,
      ) in
      let (e, run₄, h₄) =
        putnstr-IsString d ((int_bytes sk.len ++ key) ++ long_bytes off) h₃ (mark ∷ []) 1
          (omega arith) (omega (arith, f.small, n₃)) in
      let (run₅, empty) =
        line_lem e (((int_bytes sk.len ++ key) ++ long_bytes off) ++ mark ∷ []) h₄.holds in
      let line : ((int_bytes sk.len ++ key) ++ long_bytes off) ++ mark ∷ []
          ≡ record_bytes sk off mark =
        append_assoc (int_bytes sk.len ++ key) (long_bytes off) (mark ∷ [])
        ∙ append_assoc (int_bytes sk.len) key (long_bytes off ++ mark ∷ []) in
      (
        record l { indx = l.indx ++ record_bytes sk off mark; buf = (detach e).1 },
        rw (run₁, run₂, run₃, run₄, run₅, appends, line) refl,
        (refl, refl, record { logs = o.logs; buf = empty; db_buf = o.db_buf; at_end = o.at_end }),
      )

  -- With an open log, a `write` that writes everything, and a key and a value that a buffer and the
  -- value file have room for, `log_append` does not fault: it returns
  -- the length of the value file, adds the value, if any, to that file and one record to the log, with
  -- the key, that offset and the letter of the operation, and leaves the log as ready as before.
  pub append-Written :
      (l : Log) (sk : Slice) (sv : Option Slice)
      → IsOpen l
      → Fits sk
      → Fitting sv
      → length l.db + length (value_bytes sv) < 2 ^ 64
      → (l' : Log) × (append write l sk sv ≡ some (length l.db, l'))
        × ((l'.indx ≡ l.indx ++ record_bytes sk (length l.db) (letter sv))
            × (l'.db ≡ l.db ++ value_bytes sv)
            × IsOpen l')
  unfolding append
  append-Written l sk sv o f g room =
      let (l₁, run₁, (db₁, indx₁, o₁)) = put_value-Fitting l sv o g room in
      let (l₂, run₂, (indx₂, db₂, o₂)) = put_index-Fits l₁ sk (length l.db) (letter sv) o₁ f in
      (
        l₂,
        rw (run₁, o.logs, o.at_end, run₂) refl,
        (indx₂ ∙ ap (λ i. i ++ record_bytes sk (length l.db) (letter sv)) indx₁, db₂ ∙ db₁, o₂),
      )
