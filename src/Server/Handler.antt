-- ===== src/Server/Handler.antt =====
-- `read_handler` of server/src/siloserver.c: what a read from a client's socket leads to.
use silokatana.Base.{true, false, ℕ, Bool, Option, none, some, List, [], length, ◌==◌}
use silokatana.Request.{Request, Parsed, parse}
use silokatana.Request
use silokatana.Server.Defs.{Store, Reply, process}

-- The connection is closed, or waits for more bytes, or a request was run and the next one can come.
pub data Handled {ℓ} (D : Type ℓ) : Type ℓ where
  closed : D → Handled D
  waits : D → Request → Handled D
  answered : Request → Reply D → Handled D

-- `request_clean`, which frees the arguments.
abbrev pub clean : Request → Request
clean req = record req { argv = [] }

-- Bytes that `request_append` refuses are dropped.
unfoldable pub received : Request → List ℕ → Request
received req buf = elim (Request.append req buf) [ none ↦ req | some req' ↦ req' ]

-- `buf` is what the `read` gave.
unfoldable pub read_handler {ℓ} :
    {D : Type ℓ} → Store D → Bool → D → Request → List ℕ → Option (Handled D)
unfolding received
read_handler store spare db req buf = elim (length buf == 0) [
  | true ↦ some (closed db)
  | false ↦ elim (parse (received req buf)) [
    | Parsed.fault ↦ none
    | Parsed.failed req' ↦ some (closed db)
    | Parsed.waiting req' ↦ some (waits db req')
    | Parsed.parsed req' ↦ elim (process store spare db req') [
      | none ↦ none
      | some reply ↦ some (answered (clean req') reply)
    ]
  ]
]
