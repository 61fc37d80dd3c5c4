-- ===== src/Server/Replies.antt =====
-- What a client is told: the value that it has stored (server/src/siloserver.c).
use silokatana.Base.{ℕ, ◌<◌, ◌≡◌, refl, some, List, [], ◌∷◌, ◌++◌, length, arith, Bool}
use silokatana.Base.CStr.{c_str}
use silokatana.Level.{Slice}
use silokatana.Request.{Request, Term, Cmd, wire_arg}
use silokatana.Response.{
  put_arg, Value, arg_of, Response, Status, detch, strcat, put_all, put_args, put_arg-wire_arg,
  buf_size,
}
use silokatana.Response
use silokatana.Server.Defs.{Store, Reply, slice_of, arg, answer, set, get, found, process}

-- The block that the parser makes of an argument.
abbrev pub term : List ℕ → Term
term v = record { len = length v; bytes = some v }

abbrev pub block : List ℕ → Slice
block v = record { bytes = v ++ 0 ∷ []; len = length v }

-- "+OK\r\n"
abbrev pub ok_line : List ℕ
ok_line = b'+' ∷ b'O' ∷ b'K' ∷ 13 ∷ 10 ∷ []

-- The answer with one value.
answer_value {ℓ} :
    {D : Type ℓ} (db : D) (v : Value) (data_ : List ℕ)
    → c_str data_ ≡ v.bytes
    → length (wire_arg (arg_of v) []) < buf_size
    → answer db (record { argc = 1; status = Status.ok_200; argv = some data_ ∷ [] })
      ≡ some (Reply.sent db (wire_arg (arg_of v) []))
unfolding answer detch put_all put_args
answer_value db v data_ same room =
    let shown : put_arg [] (some data_) ≡ put_arg [] (some v.bytes) =
      unfold put_arg in rw (same, v.clean) refl in
    rw (answer, detch, put_all, put_args, shown, put_arg-wire_arg [] v (omega (arith, room))) refl

module _ {ℓ} {D : Type ℓ} (store : Store D) (spare : Bool) where
  -- Where the store takes a value, and then gives a block for its key that shows the same string, the
  -- `set` is answered by OK and the `get` behind it by the value with its length, if the buffer has
  -- room for that.
  pub process-set_get :
      (db : D) (req₁ req₂ : Request) (c₁ c₂ : Term) (key : List ℕ) (v : Value)
      → (db₁ db₂ : D) (data_ : List ℕ) → store.add db (block key) (block v.bytes) ≡ some db₁
      → store.get db₁ (block key) ≡ some (some data_, db₂)
      → c_str data_ ≡ v.bytes
      → (req₁.cmd ≡ Cmd.set) × (req₁.argc ≡ 3) × (req₁.argv ≡ c₁ ∷ term key ∷ term v.bytes ∷ [])
      → (req₂.cmd ≡ Cmd.get) × (req₂.argc ≡ 2) × (req₂.argv ≡ c₂ ∷ term key ∷ [])
      → length (wire_arg (arg_of v) []) < buf_size
      → (process store spare db req₁ ≡ some (Reply.sent db₁ ok_line))
        × (process store spare db₁ req₂ ≡ some (Reply.sent db₂ (wire_arg (arg_of v) [])))
  unfolding process set get arg slice_of found answer detch strcat put_all put_args Response.new
  process-set_get db req₁ req₂ c₁ c₂ key v db₁ db₂ data_ added got same (m₁, n₁, a₁) (m₂, n₂, a₂)
        room =
      (
        rw (process, m₁, n₁, a₁, added) refl,
        rw (process, m₂, n₂, a₂, got) (answer_value db₂ v data_ same room),
      )
