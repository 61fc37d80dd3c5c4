-- ===== src/Db/Answers.antt =====
-- The commands of server/src/siloserver.c over the database of storage/src/db.c.
use silokatana.Base.{
  ℕ, ◌+◌, ◌^◌, ◌<◌, ◌≤◌, ◌≡◌, refl, ap, sym, ◌∙◌, Bool, Option, none, some, List, [], ◌∷◌, ◌++◌,
  ◌>>=◌, length, length-append, take-length_append, arith,
}
use silokatana.Base.CStr.{c_str, c_str-append}
use silokatana.Jikukan.{max_key_size}
use silokatana.Log.{Fits, payload, value_bytes}
use silokatana.Request.{Request, Term, Cmd, wire_arg}
use silokatana.Response.{Value, arg_of, buf_size}
use silokatana.Index.{Got, missing, deleted, unset, value, Map, Refines}
use silokatana.Server.{Store, Reply, process, term, block, ok_line, process-set_get}
use silokatana.Db.Defs.{Silokatana, Info}
use silokatana.Db.Defs
use silokatana.Db.Serves.{Sound, Takes, get-add}

-- What the server sees of a result: the block of the value if it is 1, which must have been set.
unfoldable pub seen : Got → Option (Option (List ℕ))
seen missing = some none
seen deleted = some none
seen unset = none
seen (value sv) = some (some sv.bytes)

-- The operations of db.h, as the server calls them.
unfoldable pub store :
    (ℕ → List ℕ)
    → (List ℕ → List ℕ → Option (List ℕ))
    → (ℕ → Bool)
    → (Info → List ℕ)
    → Store Silokatana
unfolding seen
store slack write coin format = record {
  add = λ db sk sv. (do (ret, db') ← Defs.add write coin db sk sv; some db');
  get = λ db sk. (do (got, db') ← Defs.get slack db sk; shown ← seen got; some (shown, db'));
  exists = Defs.exists;
  remove = Defs.remove write coin;
  info = Defs.info format;
}

payload-block : (v : List ℕ) → payload (block v) ≡ v
payload-block v = take-length_append v (0 ∷ [])

block-Fits : (v : List ℕ) → length v + 64 ≤ 2 ^ 30 → Fits (block v)
block-Fits v small = record { full = omega (arith, length-append v (0 ∷ [])); small = small }

block-c_str : (v : List ℕ) → c_str (v ++ 0 ∷ []) ≡ c_str v
block-c_str v = c_str-append v (0 ∷ []) (unfold c_str in refl)

module _ (slack : ℕ → List ℕ) (write : List ℕ → List ℕ → Option (List ℕ)) (coin : ℕ → Bool)
    (format : Info → List ℕ) (spare : Bool)
    (appends : (file bytes : List ℕ) → write file bytes ≡ some (file ++ bytes)) where
  -- Where the memory table is not full, a write writes everything, and the log, the cache and the
  -- answer have room, a `set` of a key of at most 32 bytes is answered by OK, and the `get` behind it
  -- by the value with its length: through the database, its cache, its index, its log and its table.
  pub process-store :
      (db : Silokatana) (m old : Map) (req₁ req₂ : Request) (c₁ c₂ : Term) (key v : Value)
      → Refines db.indx m old
      → db.indx.list.count < db.indx.list.size
      → length key.bytes ≤ max_key_size
      → length v.bytes + 64 ≤ 2 ^ 30
      → length db.indx.log.db + length (value_bytes (some (block v.bytes))) < 2 ^ 63
      → Sound db.lru
      → Takes slack db.lru (block key.bytes) (length v.bytes)
      → (req₁.cmd ≡ Cmd.set)
        × (req₁.argc ≡ 3)
        × (req₁.argv ≡ c₁ ∷ term key.bytes ∷ term v.bytes ∷ [])
      → (req₂.cmd ≡ Cmd.get) × (req₂.argc ≡ 2) × (req₂.argv ≡ c₂ ∷ term key.bytes ∷ [])
      → length (wire_arg (arg_of v) []) < buf_size
      → (db₁ : Silokatana) × (db₂ : Silokatana) × (process
            (store slack write coin format)
            spare
            db
            req₁
          ≡ some (Reply.sent db₁ ok_line))
        × (process (store slack write coin format) spare db₁ req₂
            ≡ some (Reply.sent db₂ (wire_arg (arg_of v) [])))
  unfolding store seen
  process-store db m old req₁ req₂ c₁ c₂ key v r room short small space sound takes s g fits =
      let sk = block key.bytes in
      let sv = block v.bytes in
      let named : c_str (payload sk) ≡ c_str sk.bytes =
        ap c_str (payload-block key.bytes) ∙ sym (block-c_str key.bytes) in
      let fit : length (c_str sk.bytes) ≤ max_key_size =
        omega (arith, short, ap length (block-c_str key.bytes ∙ key.clean)) in
      let (db₁, db₂, added, got, _, _) =
        get-add slack write coin appends db m old sk sv r room
          (block-Fits key.bytes (omega (arith, short))) (block-Fits v.bytes small) named fit space
          sound takes in
      let back : payload sv ++ 0 ∷ [] ≡ v.bytes ++ 0 ∷ [] =
        ap (λ b. b ++ 0 ∷ []) (payload-block v.bytes) in
      let same : c_str (payload sv ++ 0 ∷ []) ≡ v.bytes =
        ap c_str back ∙ block-c_str v.bytes ∙ v.clean in
      let (stored, told) =
        process-set_get (store slack write coin format) spare db req₁ req₂ c₁ c₂ key.bytes v db₁ db₂
          (payload sv ++ 0 ∷ []) (rw added refl) (rw got refl) same s g fits in
      (db₁, db₂, stored, told)
