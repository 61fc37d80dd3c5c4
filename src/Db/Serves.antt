-- ===== src/Db/Serves.antt =====
-- What storage/src/db.c gives back of what it was given, with the cache in front of the index.
use silokatana.Base.{
  ◌⊎◌, ◌≤◌, ◌≡◌, ◌%◌, ℕ, ◌+◌, ◌^◌, ◌<◌, refl, ap, ◌∙◌, List, [], ◌∷◌, ◌++◌, Option, none, some,
  Bool, Bool-cases, true, inl, inr, ◌==◌, length, length-append, arith,
}
use silokatana.Base.CStr.{c_str, str_eq, str_eq_iff}
use silokatana.Ht
use silokatana.Level.{Slice}
use silokatana.Jikukan.{max_key_size}
use silokatana.Log.{Fits, payload, length-payload, value_bytes}
use silokatana.Shiki.{Shiki, Room, own, set-Room, get_absent, absent-view, remove-view, view}
use silokatana.Shiki
use silokatana.Index.{
  missing, deleted, Index, Got, value, slice_value, assign, Map, Refines, add-Refines, get-Refines,
}
use silokatana.Index
use silokatana.Db.Defs.{remove, Silokatana, add, get, get_index, cache}

-- The cache is off, or it is valid.
abbrev pub Sound : Shiki → Type 0
Sound lru = (lru.buffer ≡ 0) ⊎ Shiki.IsValid lru

-- Once the key is removed, the cache is off, or has room for the key and a value.
abbrev pub Takes : (ℕ → List ℕ) → Shiki → Slice → ℕ → Type 0
Takes slack lru sk len =
    (lru' : Shiki)
    → Shiki.remove lru sk ≡ some lru'
    → (lru'.buffer ≡ 0) ⊎ Room slack lru' (sk.len + len)

-- What `shiki_remove` leaves: a cache without the key.
record Cleared (slack : ℕ → List ℕ) (lru : Shiki) (sk : Slice) : Type 0 where
  lru' : Shiki
  removed : Shiki.remove lru sk ≡ some lru'
  misses : Shiki.get slack lru' sk ≡ some (none, lru')
  absent : (lru'.buffer ≡ 0) ⊎ (Shiki.IsValid lru' × (Ht.get lru'.ht sk.bytes ≡ none))

Sound-Cleared : (slack : ℕ → List ℕ) (lru : Shiki) (sk : Slice) → Sound lru → Cleared slack lru sk
unfolding Shiki.remove Shiki.get
Sound-Cleared slack lru sk (inl off) =
    let e : (lru.buffer == 0) ≡ true = ground (arith, off) in
    record { lru' = lru; removed = rw e refl; misses = rw e refl; absent = inl off }
Sound-Cleared slack lru sk (inr valid) = elim (Bool-cases (lru.buffer == 0)) [
  | inl e ↦ record {
    lru' = lru;
    removed = rw e refl;
    misses = rw e refl;
    absent = inl (ground (arith, e));
  }
  | inr e ↦
      let (lru', run, v', views) = remove-view lru sk valid (ground (arith, e)) in
      let same : str_eq sk.bytes sk.bytes ≡ true = (str_eq_iff sk.bytes sk.bytes).1 refl in
      let gone : view lru' sk.bytes ≡ none = views sk.bytes ∙ rw same refl in
      let none_there = absent-view lru' sk.bytes v' gone in
      record {
        lru' = lru';
        removed = run;
        misses = get_absent slack lru' sk sk none_there;
        absent = inr (v', none_there);
      }
]

Cleared-set :
    (slack : ℕ → List ℕ) (lru : Shiki) (sk sv : Slice) (c : Cleared slack lru sk)
    → sk.len ≤ length sk.bytes
    → sv.len ≤ length sv.bytes
    → c_str (payload sk) ≡ c_str sk.bytes
    → (c.lru'.buffer ≡ 0) ⊎ Room slack c.lru' (sk.len + sv.len)
    → (lru'' : Shiki) × (Shiki.set slack c.lru' sk sv ≡ some lru'')
unfolding Shiki.set
Cleared-set slack lru sk sv c hk hv named (inl off) =
    let e : (c.lru'.buffer == 0) ≡ true = ground (arith, off) in (c.lru', rw e refl)
Cleared-set slack lru sk sv c hk hv named (inr room) = elim c.absent [
  | inl off ↦ let e : (c.lru'.buffer == 0) ≡ true = ground (arith, off) in (c.lru', rw e refl)
  | inr (valid, absent) ↦ set-Room slack c.lru' sk sv valid hk hv named absent room
]

module _ (slack : ℕ → List ℕ) (write : List ℕ → List ℕ → Option (List ℕ)) (coin : ℕ → Bool)
    (appends : (file bytes : List ℕ) → write file bytes ≡ some (file ++ bytes)) (db : Silokatana)
    (m old : Map) (sk sv : Slice) where
  -- Where the memory table is not full, a write writes everything, the key's string is no longer than
  -- its length, and the log and the cache have room, `db_add` does not fault and returns 1:
  -- the map of the memory table has the value then, and `db_get` returns 1 and that value.
  pub get-add :
      Refines db.indx m old
      → db.indx.list.count < db.indx.list.size
      → Fits sk
      → Fits sv
      → c_str (payload sk) ≡ c_str sk.bytes
      → length (c_str sk.bytes) ≤ max_key_size
      → length db.indx.log.db + length (value_bytes (some sv)) < 2 ^ 63
      → Sound db.lru
      → Takes slack db.lru sk sv.len
      → (db₁ : Silokatana) × (db₂ : Silokatana) × (add write coin db sk sv ≡ some (1, db₁))
        × (get slack db₁ sk ≡ some (value (slice_value (payload sv)), db₂))
        × Refines db₁.indx (assign m sk.bytes (some (payload sv))) old
        × Refines db₂.indx (assign m sk.bytes (some (payload sv))) old
  unfolding add get get_index cache
  get-add r room key val named fits space sound takes =
      let now = assign m sk.bytes (some (payload sv)) in
      let c = Sound-Cleared slack db.lru sk sound in
      let (indx₁, added, r₁) =
        add-Refines write coin appends db.indx m old sk (some sv) r key val fits space room in
      let same : str_eq sk.bytes sk.bytes ≡ true = (str_eq_iff sk.bytes sk.bytes).1 refl in
      let has : now sk.bytes ≡ some (some (payload sv)) = rw same refl in
      let (got, indx₂, found, tells, r₂) =
        get-Refines indx₁ now old sk r₁ (some (payload sv)) has in
      let len = length-payload sv val in
      let (lru₂, cached) =
        Cleared-set slack db.lru sk (slice_value (payload sv)) c key.full
          (omega (arith, length-append (payload sv) (0 ∷ []))) named
          (rw len (takes c.lru' c.removed)) in
      let run : Index.get indx₁ sk ≡ some (value (slice_value (payload sv)), indx₂) =
        found ∙ ap (λ g. some (g, indx₂)) tells in
      (
        record db { lru = c.lru'; indx = indx₁ },
        record db { lru = lru₂; indx = indx₂; lru_missing = (db.lru_missing + 1) % 2 ^ 64 },
        rw (c.removed, added) refl,
        rw (get, c.misses, get_index, run, cache, cached) refl,
        r₁,
        r₂,
      )

module _ (slack : ℕ → List ℕ) (write : List ℕ → List ℕ → Option (List ℕ)) (coin : ℕ → Bool)
    (appends : (file bytes : List ℕ) → write file bytes ≡ some (file ++ bytes)) (db : Silokatana)
    (m old : Map) (sk : Slice) where
  -- Where the memory table is not full, a write writes everything and the key fits, `db_remove` does
  -- not fault: the key is deleted in the map of the memory table, whatever the cache, the parked
  -- table and the files had for it, and `db_get` returns 0 or -1.
  pub get_removed :
      Refines db.indx m old
      → db.indx.list.count < db.indx.list.size
      → Fits sk
      → length (c_str sk.bytes) ≤ max_key_size
      → length db.indx.log.db < 2 ^ 63
      → Sound db.lru
      → (db₁ : Silokatana) × (db₂ : Silokatana) × (got : Got) × (remove write coin db sk ≡ some db₁)
        × (get slack db₁ sk ≡ some (got, db₂))
        × ((got ≡ missing) ⊎ (got ≡ deleted))
        × Refines db₁.indx (assign m sk.bytes none) old
        × Refines db₂.indx (assign m sk.bytes none) old
  unfolding remove get get_index cache
  get_removed r room key fits space sound =
      let now = assign m sk.bytes none in
      let c = Sound-Cleared slack db.lru sk sound in
      let (indx₁, added, r₁) =
        add-Refines write coin appends db.indx m old sk none r key tt fits (omega (arith, space))
          room in
      let same : str_eq sk.bytes sk.bytes ≡ true = (str_eq_iff sk.bytes sk.bytes).1 refl in
      let has : now sk.bytes ≡ some none = rw same refl in
      let (got, indx₂, found, tells, r₂) = get-Refines indx₁ now old sk r₁ none has in
      let keeps : cache slack c.lru' sk got ≡ some c.lru' = elim tells [
        | inl e ↦ rw e refl
        | inr e ↦ rw e refl
      ] in
      (
        record db { lru = c.lru'; indx = indx₁ },
        record db { lru = c.lru'; indx = indx₂; lru_missing = (db.lru_missing + 1) % 2 ^ 64 },
        got,
        rw (c.removed, added) refl,
        rw (get, c.misses, get_index, found, keeps) refl,
        tells,
        r₁,
        r₂,
      )
