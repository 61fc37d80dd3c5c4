-- ===== src/Index/Values.antt =====
-- The values in the value file that `index_get` of storage/src/index.c reads.
use silokatana.Base.{
  ℕ, ◌+◌, ◌-◌, ◌^◌, ◌<◌, ◌≤◌, ◌≡◌, refl, ap, sym, ◌∙◌, List, [], ◌∷◌, ◌++◌, some, true, ltb, length,
  take, drop, arith, take-length_append, drop-length_append, drop-drop,
}
use silokatana.Buffer.{int_bytes, u32_from_big, u32_from_big-int_bytes}
use silokatana.Log.{payload, value_bytes, length-int_bytes}
use silokatana.Level.{Slice}
use silokatana.Index.Defs.{value, read_value}
use mathlib.Core.List.{append-nil, append_assoc}

-- The value `v` with its length stands in the file at an offset, which is not 0.
pub record StoredAt (db : List ℕ) (off : ℕ) (v : List ℕ) : Type 0 where
  pub before : List ℕ
  pub behind : List ℕ
  pub split : db ≡ before ++ (int_bytes (length v) ++ (v ++ behind))
  pub place : length before ≡ off
  pub later : 0 < off
  pub low : off < 2 ^ 63
  pub small : length v + 64 ≤ 2 ^ 30

-- What `index_get` hands over for a value: a block of its own, with a NUL behind the value.
abbrev pub slice_value : List ℕ → Slice
slice_value v = record { bytes = v ++ 0 ∷ []; len = length v }

pub StoredAt-append :
    (db : List ℕ) (off : ℕ) (v bytes : List ℕ) → StoredAt db off v → StoredAt (db ++ bytes) off v
StoredAt-append db off v bytes s = record {
  before = s.before;
  behind = s.behind ++ bytes;
  split =
      ap (λ d. d ++ bytes) s.split
      ∙ append_assoc s.before (int_bytes (length v) ++ (v ++ s.behind)) bytes
      ∙ ap (λ r. s.before ++ r)
          (append_assoc (int_bytes (length v)) (v ++ s.behind) bytes
            ∙ ap (λ r. int_bytes (length v) ++ r) (append_assoc v s.behind bytes));
  place = s.place;
  later = s.later;
  low = s.low;
  small = s.small;
}

pub StoredAt-value_bytes :
    (db : List ℕ) (sv : Slice)
    → length (payload sv) ≡ sv.len
    → 0 < length db
    → length db < 2 ^ 63
    → sv.len + 64 ≤ 2 ^ 30
    → StoredAt (db ++ value_bytes (some sv)) (length db) (payload sv)
StoredAt-value_bytes db sv full pos low small = record {
  before = db;
  behind = [];
  split =
      ap (λ n. db ++ (int_bytes n ++ payload sv)) (sym full)
      ∙ ap (λ r. db ++ (int_bytes (length (payload sv)) ++ r)) (sym (append-nil (payload sv)));
  place = refl;
  later = pos;
  low = low;
  small = omega (arith, full);
}

take-int_bytes : (n : ℕ) (r : List ℕ) → take 4 (int_bytes n ++ r) ≡ int_bytes n
unfolding int_bytes
take-int_bytes n r = refl

drop-int_bytes : (n : ℕ) (r : List ℕ) → drop 4 (int_bytes n ++ r) ≡ r
unfolding int_bytes
drop-int_bytes n r = refl

u32_from_big-lem : (n : ℕ) → n < 2 ^ 32 → u32_from_big (int_bytes n) ≡ n
u32_from_big-lem n h =
    ap u32_from_big (sym (append-nil (int_bytes n))) ∙ u32_from_big-int_bytes n [] h

pub read_value-StoredAt :
    (db : List ℕ) (off : ℕ) (v : List ℕ)
    → StoredAt db off v
    → read_value db off ≡ some (value (slice_value v))
unfolding read_value
read_value-StoredAt db off v s =
    let rest = v ++ s.behind in
    let at : drop off db ≡ int_bytes (length v) ++ rest =
      ap (drop off) s.split
      ∙ ap (λ n. drop n (s.before ++ (int_bytes (length v) ++ rest))) (sym s.place)
      ∙ drop-length_append s.before (int_bytes (length v) ++ rest) in
    let four : take 4 (drop off db) ≡ int_bytes (length v) =
      ap (take 4) at ∙ take-int_bytes (length v) rest in
    let len : u32_from_big (int_bytes (length v)) ≡ length v =
      u32_from_big-lem (length v) (omega (arith, s.small)) in
    let body : drop (off + 4) db ≡ rest =
      drop-drop off 4 db ∙ ap (drop 4) at ∙ drop-int_bytes (length v) rest in
    let whole : take (length v) rest ≡ v = take-length_append v s.behind in
    let one : length v + 1 - length v ≡ 1 = omega arith in
    let low : ltb off (2 ^ 63) ≡ true = ground (arith, s.low) in
    let short : ltb (length v) (2 ^ 31 - 1) ≡ true = ground (arith, s.small) in
    rw (four, len, body, whole, one, low, length-int_bytes, short) refl
