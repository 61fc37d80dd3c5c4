-- ===== src/Db/Wire.antt =====
-- A client's bytes, from a read of server/src/siloserver.c through storage/src/db.c to the answer.
use silokatana.Base.{
  ◌<◌, ◌≤◌, ◌^◌, ◌+◌, ℕ, ◌≡◌, refl, ap, Bool, some, List, [], ◌++◌, length, ltb, false, ◌==◌, arith,
  Option, ◌∷◌,
}
use silokatana.Response.{Value, arg_of, buf_size}
use silokatana.Db.Answers.{store, process-store}
use silokatana.Db.Serves.{Sound, Takes}
use silokatana.Db.Defs.{Silokatana, Info}
use silokatana.Index.{Map, Refines}
use silokatana.Log.{value_bytes}
use silokatana.Jikukan.{max_key_size}
use silokatana.Request.{
  Cmd, wire_arg, find_cmd, cmds, to_lower, command_term, Request, Arg, IsIdle, IsWire, Parsed,
  parse, parse-wire, complete, cleared, max_buffsize,
}
use silokatana.Request
use mathlib.Core.List.{map}
use silokatana.Server.{
  block, ok_line, Store, Reply, process, read_handler, received, clean, answered,
}

-- A connection with nothing unread, on which a request arrives.
pub record Arrives (req : Request) (bytes : List ℕ) (a : Arg) (args : List Arg) : Type 0 where
  pub unread : req.querybuf ≡ []
  pub idle : IsIdle (record req { querybuf = bytes })
  pub wire : IsWire bytes a args []

-- The connection with the request's arguments.
abbrev pub asked : Request → List ℕ → Arg → List Arg → Request
asked req bytes a args = cleared (complete (record req { querybuf = bytes }) a args 0)

read_handler-Arrives {ℓ} :
    {D : Type ℓ} (st : Store D) (spare : Bool) (db : D) (req : Request) (bytes : List ℕ) (a : Arg)
    (args : List Arg) (reply : Reply D)
    → Arrives req bytes a args
    → process st spare db (asked req bytes a args) ≡ some reply
    → read_handler st spare db req bytes ≡ some (answered (clean (asked req bytes a args)) reply)
unfolding read_handler received Request.append
read_handler-Arrives st spare db req bytes a args reply w run =
    let small : ltb max_buffsize (length req.querybuf + length bytes) ≡ false =
      ground (arith, ap length w.unread, w.idle.small) in
    let some_ : (length bytes == 0) ≡ false = ground (arith, ap length w.wire.layout) in
    let whole : req.querybuf ++ bytes ≡ bytes = ap (λ q. q ++ bytes) w.unread in
    rw
      (
        read_handler,
        some_,
        received,
        small,
        whole,
        parse-wire (record req { querybuf = bytes }) a args w.idle w.wire,
        run,
      )
      refl

module _ (slack : ℕ → List ℕ) (write : List ℕ → List ℕ → Option (List ℕ)) (coin : ℕ → Bool)
    (format : Info → List ℕ) (spare : Bool)
    (appends : (file bytes : List ℕ) → write file bytes ≡ some (file ++ bytes)) where
  -- For an index with its invariant and a memory table that is not full, a cache that is off or
  -- keeps its invariant, and a write that writes everything, where the log, the cache and the
  -- answer have room and the cache, if it is on, has a NUL behind its copy of the key: when a `set`
  -- arrives on a connection with nothing unread, of a key of at most 32 bytes and a value of at
  -- most 2 ^ 30 - 64, neither with a NUL in it, and then a `get` of that key on such a connection,
  -- the lengths of key and value in both requests written as plain decimal numerals and the command
  -- names in any case of their letters, `read_handler` answers the first by OK, and the second by
  -- the value with its length.
  pub read_handler-store :
      (db : Silokatana) (m old : Map) (req₁ req₂ : Request) (bytes₁ bytes₂ : List ℕ) (a₁ a₂ : Arg)
      (key v : Value)
      → Arrives req₁ bytes₁ a₁ (arg_of key ∷ arg_of v ∷ [])
      → Arrives req₂ bytes₂ a₂ (arg_of key ∷ [])
      → find_cmd cmds (map to_lower a₁.bytes) ≡ Cmd.set
      → find_cmd cmds (map to_lower a₂.bytes) ≡ Cmd.get
      → Refines db.indx m old
      → db.indx.list.count < db.indx.list.size
      → length key.bytes ≤ max_key_size
      → length v.bytes + 64 ≤ 2 ^ 30
      → length db.indx.log.db + length (value_bytes (some (block v.bytes))) < 2 ^ 63
      → Sound db.lru
      → Takes slack db.lru (block key.bytes) (length v.bytes)
      → length (wire_arg (arg_of v) []) < buf_size
      → (db₁ : Silokatana) × (db₂ : Silokatana) × (left₁ : Request) × (left₂ : Request)
        × (read_handler (store slack write coin format) spare db req₁ bytes₁
            ≡ some (answered left₁ (Reply.sent db₁ ok_line)))
        × (read_handler (store slack write coin format) spare db₁ req₂ bytes₂
            ≡ some (answered left₂ (Reply.sent db₂ (wire_arg (arg_of v) []))))
  read_handler-store db m old req₁ req₂ bytes₁ bytes₂ a₁ a₂ key v w₁ w₂ set_ get_ r room short small
        space sound takes fits =
      let st = store slack write coin format in
      let args = arg_of key ∷ arg_of v ∷ [] in
      let now₁ = asked req₁ bytes₁ a₁ args in
      let now₂ = asked req₂ bytes₂ a₂ (arg_of key ∷ []) in
      let (db₁, db₂, stored, told) =
        process-store slack write coin format spare appends db m old now₁ now₂ (command_term a₁)
          (command_term a₂) key v r room short small space sound takes (set_, refl, refl)
          (get_, refl, refl) fits in
      (
        db₁,
        db₂,
        clean now₁,
        clean now₂,
        read_handler-Arrives st spare db req₁ bytes₁ a₁ args _ w₁ stored,
        read_handler-Arrives st spare db₁ req₂ bytes₂ a₂ (arg_of key ∷ []) _ w₂ told,
      )
