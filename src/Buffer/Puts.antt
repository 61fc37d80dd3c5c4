-- ===== src/Buffer/Puts.antt =====
-- The writers of storage/src/buffer.c: none of them leaves the block, and each adds its bytes.
use silokatana.Base.{
  ℕ, ◌+◌, ◌^◌, ◌≤◌, ◌<◌, ◌≡◌, refl, some, List, [], ◌∷◌, ◌++◌, true, leb, length, take, get_elem?,
  arith, Bool-cases, inl, inr, ◌==◌, length-append, length-take,
}
use silokatana.Base.CStr.{c_str, length-c_str}
use mathlib.Core.List.{map}
use silokatana.Buffer.Defs.{
  Cells, Buffer, new, extend_by, clear, detach, push, terminate, putnstr, putstr, putc, putint,
  putlong, putshort, int_bytes, long_bytes, short_bytes, ◌>>=◌,
}
use silokatana.Buffer.Content.{Holds, Gives, extend_by-Holds, push-Holds, terminate-Holds}

-- `c` holds `s`, and a NUL stands behind it.
pub record IsString (s : List ℕ) (c : Buffer) : Type 0 where
  pub holds : Holds c s
  pub ends : get_elem? c.buf c.nul ≡ some (some 0)

module _ (b : Buffer) (s : List ℕ) (h : Holds b s) where
  put_raw :
      (len : ℕ) (bytes : List ℕ)
      → len ≡ length bytes
      → 0 < len
      → len + b.nul ≤ 2 ^ 30
      → Gives (push (extend_by b len) bytes) λ c. Holds c (s ++ bytes)
  put_raw len bytes e pos small =
      let (g, room) = extend_by-Holds b s h len (omega arith) small in
      let (c, run, (held, _)) =
        push-Holds (extend_by b len) s g bytes (omega (arith, g.mark, h.mark)) in
      (c, run, held)

  put-IsString :
      (len : ℕ) (bytes : List ℕ)
      → len ≡ length bytes + 1
      → len + b.nul ≤ 2 ^ 30
      → Gives (push (extend_by b len) bytes >>= terminate) (IsString (s ++ bytes))
  put-IsString len bytes e small =
      let (g, room) = extend_by-Holds b s h len (omega arith) small in
      let (c, run, (held, size)) =
        push-Holds (extend_by b len) s g bytes (omega (arith, g.mark, h.mark)) in
      let (d, stop, (kept, ends)) =
        terminate-Holds c (s ++ bytes) held
          (omega (arith, held.mark, h.mark, length-append s bytes)) in
      (d, rw (run, stop), record { holds = kept; ends = ends })

  -- While the buffer stays within 2 ^ 30 bytes, `buffer_putnstr` does not fault: what was written
  -- stays, the first `n` bytes of `str` follow it, and a NUL stands behind them.
  pub putnstr-IsString :
      (str : List ℕ) (n : ℕ)
      → n ≤ length str
      → n + 1 + b.nul ≤ 2 ^ 30
      → Gives (putnstr b str n) (IsString (s ++ take n str))
  unfolding putnstr
  putnstr-IsString str n fits small =
      let le : leb n (length str) ≡ true = ground arith in
      rw le (put-IsString (n + 1) (take n str) (omega (arith, length-take n str)) small)

  pub putstr-IsString :
      (str : List ℕ)
      → length (c_str str) + 1 + b.nul ≤ 2 ^ 30
      → Gives (putstr b str) (IsString (s ++ take (length (c_str str)) str))
  unfolding putstr
  putstr-IsString str small =
      put-IsString (length (c_str str) + 1) _
        (omega (arith, length-take (length (c_str str)) str, length-c_str str)) small

  pub putc-IsString : (c : ℕ) → 2 + b.nul ≤ 2 ^ 30 → Gives (putc b c) (IsString (s ++ c ∷ []))
  unfolding putc
  putc-IsString c small = put-IsString 2 (c ∷ []) refl small

  pub putint-Holds :
      (val : ℕ) → 4 + b.nul ≤ 2 ^ 30 → Gives (putint b val) λ c. Holds c (s ++ int_bytes val)
  unfolding putint int_bytes
  putint-Holds val small = put_raw 4 _ refl (omega arith) small

  pub putshort-Holds :
      (val : ℕ) → 2 + b.nul ≤ 2 ^ 30 → Gives (putshort b val) λ c. Holds c (s ++ short_bytes val)
  unfolding putshort short_bytes
  putshort-Holds val small = put_raw 2 _ refl (omega arith) small

  -- While the buffer stays within 2 ^ 30 bytes, `buffer_putlong` does not fault: what was written
  -- stays, and the eight bytes of `val` follow it.
  pub putlong-Holds :
      (val : ℕ) → 8 + b.nul ≤ 2 ^ 30 → Gives (putlong b val) λ c. Holds c (s ++ long_bytes val)
  unfolding putlong long_bytes
  putlong-Holds val small = put_raw 8 _ refl (omega arith) small

-- The block that `buffer_detach` hands over starts with what was written, and the buffer is empty.
pub detach-Holds :
    (b : Buffer) (s : List ℕ)
    → Holds b s
    → (rest : Cells) × ((detach b).0 ≡ map some s ++ rest) × Holds (detach b).1 []
unfolding detach
detach-Holds b s h =
    (h.rest, h.cells, record { rest = b.buf; cells = refl; mark = refl; room = h.room })

-- `buffer_clear` does not fault, and leaves a buffer that holds nothing.
pub clear-Holds : (b : Buffer) (s : List ℕ) → Holds b s → Gives (clear b) λ c. Holds c []
unfolding clear
clear-Holds b s h = elim (Bool-cases (length b.buf == 0)) [
  | inl e ↦ rw e (
    record b { nul = 0 },
    refl,
    record { rest = b.buf; cells = refl; mark = refl; room = h.room },
  )
  | inr e ↦
      let (c, run, (held, _)) =
        terminate-Holds (record b { nul = 0 }) []
          (record { rest = b.buf; cells = refl; mark = refl; room = h.room })
          (ground (arith, h.room)) in
      rw e (c, run, held)
]

-- A new buffer of a reserve below 2 ^ 30 is empty, and has the room that was reserved.
pub new-Holds :
    (reserve : ℕ) → reserve + 1 ≤ 2 ^ 30 → Holds (new reserve) [] × (reserve ≤ (new reserve).buflen)
unfolding new
new-Holds reserve small =
    let empty : Buffer = record { buf = []; nul = 0; buflen = 0 } in
    let held : Holds empty [] = record { rest = []; cells = refl; mark = refl; room = refl } in
    elim (Bool-cases (reserve == 0)) [
      | inl e ↦ rw e (held, ground arith)
      | inr e ↦
          let (g, room) = extend_by-Holds empty [] held (reserve + 1) (omega arith) (omega arith) in
          rw e (g, omega arith)
    ]
