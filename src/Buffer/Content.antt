-- ===== src/Buffer/Content.antt =====
-- What a buffer holds: the bytes in front of the mark. Every write of storage/src/buffer.c finds
-- room, adds its bytes behind those, and keeps the block as long as `buflen` says.
use silokatana.Base.{
  ℕ, zero, suc, ◌+◌, ◌-◌, ◌^◌, ◌≤◌, ◌<◌, ◌≡◌, refl, ap, ◌∙◌, Option, none, some, List, [], ◌∷◌,
  ◌++◌, true, leb, ◌==◌, length, take, drop, replicate, get_elem?, arith, length-append,
  length-take, length-drop, length-replicate, Bool-cases, inl, inr,
}
use mathlib.Core.List.{map, append_assoc, map-append}
use silokatana.Buffer.Defs.{
  Cells, Buffer, realloc, extend_by, next_power, write_at, push, terminate,
}
use silokatana.Buffer.Power.{next_power_bounds}

pub length-map-some : (s : List ℕ) → length (map some s) ≡ length s
length-map-some [] = refl
length-map-some (x ∷ s) = ap suc (length-map-some s)

-- `s` is written in front of the mark, and the block has the length that `buflen` says.
pub record Holds (b : Buffer) (s : List ℕ) : Type 0 where
  pub rest : Cells
  pub cells : b.buf ≡ map some s ++ rest
  pub mark : b.nul ≡ length s
  pub room : length b.buf ≡ b.buflen

pub Holds-le : {b : Buffer} {s : List ℕ} → Holds b s → b.nul ≤ b.buflen
Holds-le {b} {s} h =
    omega (arith, ap length h.cells, length-append (map some s) h.rest, length-map-some s)

abbrev pub Gives : Option Buffer → (Buffer → Type 0) → Type 0
Gives m P = (b : Buffer) × (m ≡ some b) × P b

length-realloc : (cells : Cells) (n : ℕ) → length (realloc cells n) ≡ n
unfolding realloc
length-realloc cells n = omega (
  arith,
  length-take n (cells ++ replicate (n - length cells) none),
  length-append cells (replicate (n - length cells) none),
  length-replicate {A = Option ℕ} (n - length cells) none,
)

take-append_le {ℓ} :
    {A : Type ℓ} (n : ℕ) (xs ys : List A)
    → length xs ≤ n
    → take n (xs ++ ys) ≡ xs ++ take (n - length xs) ys
take-append_le n [] ys h = let e : n - 0 ≡ n = omega arith in rw e
take-append_le zero (x ∷ xs) ys h = absurd (omega arith)
take-append_le (suc n) (x ∷ xs) ys h =
    let e : suc n - suc (length xs) ≡ n - length xs = omega arith in
    rw e (ap (λ t. x ∷ t) (take-append_le n xs ys (omega arith)))

drop-append_le {ℓ} :
    {A : Type ℓ} (n k : ℕ) (xs ys : List A) → n ≡ length xs + k → drop n (xs ++ ys) ≡ drop k ys
drop-append_le n k [] ys h = let e : n ≡ k = omega arith in rw e
drop-append_le zero k (x ∷ xs) ys h = absurd (omega arith)
drop-append_le (suc n) k (x ∷ xs) ys h = drop-append_le n k xs ys (omega arith)

realloc-Holds :
    (cells : Cells) (s : List ℕ) (rest : Cells) (n : ℕ)
    → cells ≡ map some s ++ rest
    → length s ≤ n
    → (rest' : Cells) × (realloc cells n ≡ map some s ++ rest')
unfolding realloc
realloc-Holds cells s rest n e h =
    let more = replicate (n - length cells) none in
    (
      take (n - length (map some s)) (rest ++ more),
      ap (λ c. take n (c ++ more)) e
          ∙ ap (take n) (append_assoc (map some s) rest more)
          ∙ take-append_le n (map some s) (rest ++ more) (rw length-map-some h),
    )

module _ (b : Buffer) (s : List ℕ) (h : Holds b s) where
  -- Room is made for `len` more bytes, and nothing written is lost.
  pub extend_by-Holds :
      (len : ℕ)
      → 0 < len
      → len + b.nul ≤ 2 ^ 30
      → Holds (extend_by b len) s × (len + b.nul ≤ (extend_by b len).buflen)
  unfolding extend_by
  extend_by-Holds len pos small = elim (Bool-cases (leb (len + b.nul) b.buflen)) [
    | inl fits ↦ rw fits (h, ground arith)
    | inr full ↦
        rw full (elim (Bool-cases (b.buflen == 0)) [ inl e ↦ rw e grown | inr e ↦ rw e grown ])
  ]
    where
      size : ℕ
      size = next_power (len + b.nul)

      grown :
          Holds (record { buf = realloc b.buf size; nul = b.nul; buflen = size }) s
          × (len + b.nul ≤ size)
      grown =
          let bound = next_power_bounds (len + b.nul) (omega arith) small in
          let (rest', e) = realloc-Holds b.buf s h.rest size h.cells (omega (arith, h.mark)) in
          (
            record { rest = rest'; cells = e; mark = h.mark; room = length-realloc b.buf size },
            bound.0,
          )

  -- A write at the mark of bytes that fit.
  write_at-mark :
      (bytes : List ℕ)
      → b.nul + length bytes ≤ b.buflen
      → (rest' : Cells) × (write_at b.buf b.nul bytes
          ≡ some (map some s ++ (map some bytes ++ rest')))
        × (length (map some s ++ (map some bytes ++ rest')) ≡ b.buflen)
  unfolding write_at
  write_at-mark bytes fits =
      let le : leb (b.nul + length bytes) (length b.buf) ≡ true = rw h.room (ground arith) in
      let front : take b.nul b.buf ≡ map some s =
        rw (h.cells, h.mark, ← length-map-some s) (take-all (map some s) h.rest) in
      let back : drop (b.nul + length bytes) b.buf ≡ drop (length bytes) h.rest =
        rw h.cells
          (drop-append_le _ _ (map some s) h.rest (omega (arith, h.mark, length-map-some s))) in
      (
        drop (length bytes) h.rest,
        rw (le, front, back),
        omega (
          arith,
          length-append (map some s) (map some bytes ++ drop (length bytes) h.rest),
          length-append (map some bytes) (drop (length bytes) h.rest),
          length-drop (length bytes) h.rest,
          length-append (map some s) h.rest,
          ap length h.cells,
          h.room,
          h.mark,
          length-map-some s,
          length-map-some bytes,
        ),
      )
    where
      take-all : (xs ys : Cells) → take (length xs) (xs ++ ys) ≡ xs
      take-all [] ys = refl
      take-all (x ∷ xs) ys = ap (λ t. x ∷ t) (take-all xs ys)

  pub push-Holds :
      (bytes : List ℕ)
      → b.nul + length bytes ≤ b.buflen
      → Gives (push b bytes) λ c. Holds c (s ++ bytes) × (c.buflen ≡ b.buflen)
  unfolding push
  push-Holds bytes fits =
      let (rest', e, size) = write_at-mark bytes fits in
      (
        record b { buf = map some s ++ (map some bytes ++ rest'); nul = b.nul + length bytes },
        rw (e, push),
        (
          record {
            rest = rest';
            cells = rw (map-append, append_assoc);
            mark = omega (arith, h.mark, length-append s bytes);
            room = size;
          },
          refl,
        ),
      )

  pub terminate-Holds :
      b.nul + 1 ≤ b.buflen
      → Gives (terminate b) λ c. Holds c s × (get_elem? c.buf c.nul ≡ some (some 0))
  unfolding terminate
  terminate-Holds fits =
      let (rest', e, size) = write_at-mark (0 ∷ []) fits in
      (
        record b { buf = map some s ++ (some 0 ∷ rest') },
        rw (e, terminate),
        (
          record { rest = some 0 ∷ rest'; cells = refl; mark = h.mark; room = size },
          rw h.mark (at-mark s rest'),
        ),
      )
    where
      at-mark :
          (t : List ℕ) (rest' : Cells)
          → get_elem? (map some t ++ (some 0 ∷ rest')) (length t) ≡ some (some 0)
      at-mark [] rest' = refl
      at-mark (x ∷ t) rest' = at-mark t rest'
