-- ===== src/Examples/Database.antt =====
-- A database with a cache (storage/src/db.c), and commands over it (server/src/siloserver.c).
use silokatana.Base.{
  ℕ, ◌+◌, ◌*◌, ◌/◌, ◌^◌, ◌<◌, ◌≤◌, ◌≡◌, ◌⊎◌, refl, some, none, List, [], ◌∷◌, length, arith, inr,
  subst,
}
use silokatana.Base.CStr.{c_str}
use silokatana.Buffer
use silokatana.Ht
use silokatana.Jikukan
use silokatana.Jikukan.{max_key_size}
use silokatana.Level.{Slice}
use silokatana.Log.{value_bytes}
use silokatana.Shiki
use silokatana.Shiki.{Shiki, Room}
use silokatana.Index.{Got, missing, deleted, value, slice_value, assign, empty, Refines}
use silokatana.Db.{Silokatana, Sound, Takes, add, get, remove, get-add, get_removed}
use silokatana.Examples.Log.{write_all, name, name-Fits, text, text-Fits}
use silokatana.Examples.Index.{tails, index_of, index_of-Refines}

abbrev golden : ℕ → ℕ
golden n = n * 618 / 1000

abbrev pub clean : ℕ → List ℕ
clean p = 0 ∷ []

abbrev pub fresh : Silokatana
fresh = record {
  lru = Shiki.new golden 2000;
  indx = index_of 2;
  buf = Buffer.new 100;
  lru_cached = 0;
  lru_missing = 0;
}

pub fresh-Sound : Sound fresh.lru
fresh-Sound = inr (Shiki.new-IsValid golden 2000)

pub fresh-Takes : (sk : Slice) (len : ℕ) → sk.len + len < 100 → Takes clean fresh.lru sk len
unfolding Shiki.remove Shiki.new Ht.get Ht.new Ht.walk c_str
fresh-Takes sk len h lru' run =
    let e : Shiki.new golden 2000 ≡ lru' = ground (arith, run) in
    inr
      (subst (λ l. Room clean l (sk.len + len)) e (record { nul = refl; fits = omega (arith, h) }))

pub room : (Jikukan.new 2).count < (Jikukan.new 2).size
unfolding Jikukan.new
room = omega arith

name_fits : length (c_str name.bytes) ≤ max_key_size
unfolding c_str
name_fits = omega arith

text_space : 4 + length (value_bytes (some text)) < 2 ^ 63
unfolding Buffer.int_bytes
text_space = omega arith

get-add_example :
    (db₁ : Silokatana) × (db₂ : Silokatana) × (add write_all tails fresh name text ≡ some (1, db₁))
    × (get clean db₁ name ≡ some (value (slice_value text.bytes), db₂))
    × Refines db₁.indx (assign empty name.bytes (some text.bytes)) empty
    × Refines db₂.indx (assign empty name.bytes (some text.bytes)) empty
get-add_example =
    get-add clean write_all tails (λ f b. refl) fresh empty empty name text (index_of-Refines 2)
      room name-Fits text-Fits refl name_fits text_space fresh-Sound
      (fresh-Takes name 2 (omega arith))

get_removed_example :
    (db₁ : Silokatana) × (db₂ : Silokatana) × (got : Got) × (remove write_all tails fresh name
      ≡ some db₁)
    × (get clean db₁ name ≡ some (got, db₂))
    × ((got ≡ missing) ⊎ (got ≡ deleted))
    × Refines db₁.indx (assign empty name.bytes none) empty
    × Refines db₂.indx (assign empty name.bytes none) empty
get_removed_example =
    get_removed clean write_all tails (λ f b. refl) fresh empty empty name (index_of-Refines 2) room
      name-Fits name_fits (omega arith) fresh-Sound
