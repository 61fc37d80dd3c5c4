-- ===== src/Response/Answers.antt =====
-- The answer with several values is laid out as a request is.
use silokatana.Base.{
  ℕ, ◌+◌, ◌≤◌, ◌<◌, ◌≡◌, refl, ap, ◌∙◌, true, some, List, [], ◌∷◌, ◌++◌, ltb, length, arith,
  length-append,
}
use silokatana.Base.CStr.{c_str}
use silokatana.Request.{Arg, wire_arg, int_max}
use silokatana.Response.Defs.{buf_size, strcat, decimal, line_end, put_arg}
use silokatana.Response.Numerals.{decimal-Spells}
use mathlib.Core.List.{append_assoc}

-- A string of the store: its bytes up to the NUL.
pub record Value : Type 0 where
  pub bytes : List ℕ
  pub clean : c_str bytes ≡ bytes
  pub short : length bytes ≤ int_max

abbrev pub arg_of : Value → Arg
arg_of v = record {
  numeral = decimal (length v.bytes);
  bytes = v.bytes;
  spells = decimal-Spells (length v.bytes) v.short;
}

strcat-room : (a s : List ℕ) → length a + length s < buf_size → strcat a s ≡ some (a ++ s)
unfolding strcat
strcat-room a s h = let e : ltb (length a + length s) buf_size ≡ true = ground arith in rw e refl

pub put_arg-wire_arg :
    (a : List ℕ) (v : Value)
    → length a + length (wire_arg (arg_of v) []) < buf_size
    → put_arg a (some v.bytes) ≡ some (a ++ wire_arg (arg_of v) [])
unfolding put_arg
put_arg-wire_arg a v h =
    let num = decimal (length v.bytes) in
    let head = b'$' ∷ (num ++ line_end) in
    let size : length (wire_arg (arg_of v) []) ≡ length num + length v.bytes + 5 = omega (
      arith,
      length-append num (13 ∷ 10 ∷ (v.bytes ++ line_end)),
      length-append v.bytes line_end,
    ) in
    let n₁ = length-append num line_end in
    let n₂ = length-append a head in
    let n₃ = length-append (a ++ head) v.bytes in
    let e₁ = strcat-room a head (omega arith) in
    let e₂ = strcat-room (a ++ head) v.bytes (omega arith) in
    let e₃ = strcat-room ((a ++ head) ++ v.bytes) line_end (omega arith) in
    let layout : ((a ++ head) ++ v.bytes) ++ line_end ≡ a ++ wire_arg (arg_of v) [] =
      append_assoc (a ++ head) v.bytes line_end
      ∙ append_assoc a head (v.bytes ++ line_end)
      ∙ ap (λ t. a ++ (b'$' ∷ t)) (append_assoc num line_end (v.bytes ++ line_end)) in
    rw (v.clean, e₁, e₂, e₃, layout) refl
