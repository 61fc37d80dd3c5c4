-- ===== src/Server/Defs.antt =====
-- `_process_cmd` of server/src/siloserver.c, one function for each command. `none` is a fault.
use silokatana.Base.{
  ℕ, ◌-◌, Bool, Option, none, some, List, [], ◌∷◌, ◌++◌, ◌>>=◌, ◌==◌, if◌then◌else◌, drop,
  get_elem?,
}
use silokatana.Level.{Slice}
use silokatana.Request.{Request, Term, Cmd}
use silokatana.Response.{Response, Status, detch}
use silokatana.Response

-- The operations of storage/src/db.c as the server calls them. A lookup gives the block of the value
-- when it returns 1, and `none` when it returns anything else.
pub record Store {ℓ} (D : Type ℓ) : Type ℓ where
  pub add : D → Slice → Slice → Option D
  pub get : D → Slice → Option (Option (List ℕ) × D)
  pub exists : D → Slice → Option (Bool × D)
  pub remove : D → Slice → Option D
  pub info : D → Option (List ℕ × D)

-- What the server has done: it has sent bytes, or has closed the store to exit.
pub data Reply {ℓ} (D : Type ℓ) : Type ℓ where
  sent : D → List ℕ → Reply D
  stopped : D → Reply D

-- The slice of an argument, whose block ends in a NUL.
unfoldable pub slice_of : Term → Option Slice
slice_of t = elim t.bytes [
  | none ↦ none
  | some v ↦ some (record { bytes = v ++ 0 ∷ []; len = t.len })
]

-- `req->argv[i]`
unfoldable pub arg : Request → ℕ → Option Slice
unfolding slice_of
arg req i = elim (get_elem? req.argv i) [ none ↦ none | some t ↦ slice_of t ]

module _ {ℓ} {D : Type ℓ} where
  -- An answer goes through an empty buffer.
  unfoldable pub answer : D → Response → Option (Reply D)
  answer db resp = do ack ← detch resp []; some (sent db ack)

  unfoldable pub default : D → Option (Reply D)
  unfolding answer
  default db = answer db (Response.new 0 Status.err)

  -- `spare` says whether the allocator's block for an array of length 0 has room for a pointer.
  module _ (store : Store D) (spare : Bool) where
    unfoldable pub set : D → Request → Option (Reply D)
    set db req =
        if req.argc == 3
        then (do
          sk ← arg req 1
          sv ← arg req 2
          db' ← store.add db sk sv
          answer db' (Response.new 0 Status.ok))
        else default db

    -- The loop of `mset` over the terms behind the command, two at a time.
    unfoldable pub add_pairs : D → List Term → Option D
    add_pairs db [] = some db
    add_pairs db (k ∷ []) = none
    add_pairs db (k ∷ v ∷ rest) = do
      sk ← slice_of k
      sv ← slice_of v
      db' ← store.add db sk sv
      add_pairs db' rest

    unfoldable pub mset : D → Request → Option (Reply D)
    mset db req = do db' ← add_pairs db (drop 1 req.argv); answer db' (Response.new 0 Status.ok)

    -- On a miss the code writes NULL to the first of no arguments.
    unfoldable pub found : D → Option (List ℕ) → Option (Reply D)
    found db (some data_) =
        answer db (record { argc = 1; status = Status.ok_200; argv = some data_ ∷ [] })
    found db none = if spare then answer db (Response.new 0 Status.ok_404) else none

    unfoldable pub get : D → Request → Option (Reply D)
    get db req =
        if req.argc == 2
        then (do sk ← arg req 1; (value, db') ← store.get db sk; found db' value)
        else default db

    -- The loop of `mget`.
    unfoldable pub get_all : D → List Term → Option (List (Option (List ℕ)) × D)
    get_all db [] = some ([], db)
    get_all db (k ∷ rest) = do
      sk ← slice_of k
      (value, db₁) ← store.get db sk
      (values, db₂) ← get_all db₁ rest
      some (value ∷ values, db₂)

    unfoldable pub mget : D → Request → Option (Reply D)
    mget db req = do
      (values, db') ← get_all db (drop 1 req.argv)
      answer db' (record { argc = req.argc - 1; status = Status.ok_200; argv = values })

    unfoldable pub info : D → Option (Reply D)
    info db = do
      (infos, db') ← store.info db
      answer db' (record { argc = 1; status = Status.ok_200; argv = some infos ∷ [] })

    -- The loop of `del`.
    unfoldable pub remove_all : D → List Term → Option D
    remove_all db [] = some db
    remove_all db (k ∷ rest) = do sk ← slice_of k; db' ← store.remove db sk; remove_all db' rest

    unfoldable pub del : D → Request → Option (Reply D)
    del db req = do db' ← remove_all db (drop 1 req.argv); answer db' (Response.new 0 Status.ok)

    -- ":1\r\n", or ":-1\r\n"
    unfoldable pub exists : D → Request → Option (Reply D)
    exists db req = do
      sk ← arg req 1
      (there, db') ← store.exists db sk
      some (
          sent db'
            (if there then b':' ∷ b'1' ∷ 13 ∷ 10 ∷ [] else b':' ∷ b'-' ∷ b'1' ∷ 13 ∷ 10 ∷ []))

    -- `_process_cmd`
    unfoldable pub process : D → Request → Option (Reply D)
    process db req = elim req.cmd [
      | Cmd.ping ↦ answer db (Response.new 0 Status.ok_pong)
      | Cmd.get ↦ get db req
      | Cmd.mget ↦ mget db req
      | Cmd.set ↦ set db req
      | Cmd.mset ↦ mset db req
      | Cmd.del ↦ del db req
      | Cmd.info ↦ info db
      | Cmd.exists ↦ exists db req
      | Cmd.shutdown ↦ some (stopped db)
      | Cmd.unknow ↦ default db
    ]
