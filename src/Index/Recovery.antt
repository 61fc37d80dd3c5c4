-- ===== src/Index/Recovery.antt =====
-- What `index_new` of storage/src/index.c recovers from the log that `log_append` wrote.
use silokatana.Base.{ℕ, ◌+◌, ◌<◌, List, [], ◌∷◌, Option, length}
use silokatana.Jikukan.{Jikukan, Opt, Entry, put, max_key_size}
use silokatana.Jikukan
use silokatana.Log.{Log, Op, entry_of, value_bytes}

-- The table of the operations, from a value file of `n` bytes on.
abbrev pub replay_table : (List ℕ → Option Entry) → ℕ → List Op → List ℕ → Option Entry
replay_table m n [] = m
replay_table m n (op ∷ ops) =
    let e = entry_of op.sk n op.sv in
    replay_table (put m e.key (e.off, e.opt)) (n + length (value_bytes op.sv)) ops

-- A key in its array of 32 bytes leaves room for a NUL.
abbrev pub Terminated : List Op → Type 0
Terminated [] = Unit
Terminated (op ∷ ops) = (op.sk.len < max_key_size) × Terminated ops
