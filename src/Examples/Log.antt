-- ===== src/Examples/Log.antt =====
-- A log of a write and a deletion (storage/src/log.c).
use silokatana.Base.{
  ◌^◌, ℕ, ◌+◌, ◌≡◌, ◌<◌, refl, true, some, none, Option, List, [], ◌∷◌, ◌++◌, length, arith,
}
use silokatana.Buffer
use silokatana.Buffer.{new-Holds}
use silokatana.Level.{Slice}
use silokatana.Jikukan.{Opt}
use silokatana.Log.{
  Log, Op, IsOpen, Fits, append, append-Written, append_all, log_read, log_read-append_all, replay,
  Room, record_bytes, value_bytes, letter, records,
}

abbrev pub write_all : List ℕ → List ℕ → Option (List ℕ)
write_all file bytes = some (file ++ bytes)

-- The value file has its four bytes of magic.
abbrev pub fresh : Log
fresh = record {
  islog = true;
  db_alloc = 4;
  buf = Buffer.new 100;
  db_buf = Buffer.new 100;
  db = 221 ∷ 7 ∷ 0 ∷ 0 ∷ [];
  indx = [];
}

pub fresh-IsOpen : IsOpen fresh
fresh-IsOpen = record {
  logs = refl;
  buf = (new-Holds 100 (omega arith)).0;
  db_buf = (new-Holds 100 (omega arith)).0;
  at_end = refl;
}

abbrev pub name : Slice
name = record { bytes = 65 ∷ []; len = 1 }

pub name-Fits : Fits name
name-Fits = record { full = omega arith; small = omega arith }

abbrev pub text : Slice
text = record { bytes = 7 ∷ 8 ∷ []; len = 2 }

pub text-Fits : Fits text
text-Fits = record { full = omega arith; small = omega arith }

text-room : 4 + length (value_bytes (some text)) < 2 ^ 64
unfolding Buffer.int_bytes
text-room = omega arith

append-Written_example :
    (l' : Log) × (append write_all fresh name (some text) ≡ some (4, l'))
    × ((l'.indx ≡ [] ++ record_bytes name 4 (letter (some text)))
        × (l'.db ≡ fresh.db ++ value_bytes (some text))
        × IsOpen l')
append-Written_example =
    append-Written write_all (λ f b. refl) fresh name (some text) fresh-IsOpen name-Fits text-Fits
      text-room

abbrev put : Op
put = record { sk = name; sv = some text }

abbrev forget : Op
forget = record { sk = name; sv = none }

both-Room : Room 4 (put ∷ forget ∷ [])
unfolding Buffer.int_bytes
both-Room =
    (name-Fits, omega arith, text-Fits, text-room, (name-Fits, omega arith, tt, omega arith, tt))

abbrev collect : List (List ℕ × ℕ × Opt) → List ℕ → ℕ → Opt → List (List ℕ × ℕ × Opt)
collect list key off opt = (key, off, opt) ∷ list

both_short : length (records 4 (put ∷ forget ∷ [])) < 2 ^ 31
unfolding Buffer.int_bytes Buffer.long_bytes
both_short = omega arith

log_read-append_all_example :
    (l' : Log) × (append_all write_all fresh (put ∷ forget ∷ []) ≡ some l')
    × (log_read collect (some l'.indx) [] ≡ some (1, replay collect [] 4 (put ∷ forget ∷ [])))
log_read-append_all_example =
    log_read-append_all collect write_all (λ f b. refl) fresh put (forget ∷ []) [] fresh-IsOpen refl
      both-Room both_short
