-- ===== src/Response/Defs.antt =====
-- The operations of server/src/response.c. The answer is a string in an array of 10240 bytes, and a
-- `strcat` past its end is the fault `none`.
use silokatana.Base.{
  ℕ, zero, suc, ◌+◌, ◌/◌, ◌%◌, Option, none, some, List, [], ◌∷◌, ◌++◌, ◌>>=◌, ltb, if◌then◌else◌,
  length, replicate,
}
use silokatana.Base.CStr.{c_str}

pub data Status : Type 0 where
  ok ok_200 ok_404 ok_pong err : Status

-- An argument that is NULL is `none`, and the others are the blocks that they point to.
pub record Response : Type 0 where
  pub argc : ℕ
  pub status : Status
  pub argv : List (Option (List ℕ))

unfoldable pub new : ℕ → Status → Response
new argc status = record { argc = argc; status = status; argv = replicate argc none }

-- BUF_SIZE
abbrev pub buf_size : ℕ
buf_size = 10_240

unfoldable pub strcat : List ℕ → List ℕ → Option (List ℕ)
strcat ackbuf str = if ltb (length ackbuf + length str) buf_size then some (ackbuf ++ str) else none

-- `%d` of a number that is no more than its fuel.
unfoldable pub decimal_from : ℕ → ℕ → List ℕ
decimal_from zero n = (48 + n % 10) ∷ []
decimal_from (suc fuel) n =
    let upper = decimal_from fuel (n / 10) in
    if ltb n 10 then (48 + n) ∷ [] else upper ++ (48 + n % 10) ∷ []

unfoldable pub decimal : ℕ → List ℕ
unfolding decimal_from
decimal n = decimal_from n n

-- "\r\n", and "$-1\r\n"
abbrev pub line_end : List ℕ
line_end = 13 ∷ 10 ∷ []

abbrev pub null_bulk : List ℕ
null_bulk = b'$' ∷ b'-' ∷ b'1' ∷ line_end

-- A round of the loop over the arguments.
unfoldable pub put_arg : List ℕ → Option (List ℕ) → Option (List ℕ)
put_arg ackbuf none = strcat ackbuf null_bulk
put_arg ackbuf (some arg) = do
  a₁ ← strcat ackbuf (b'$' ∷ (decimal (length (c_str arg)) ++ line_end))
  a₂ ← strcat a₁ (c_str arg)
  strcat a₂ line_end

unfoldable pub put_args : List ℕ → List (Option (List ℕ)) → Option (List ℕ)
put_args ackbuf [] = some ackbuf
put_args ackbuf (arg ∷ args) = do a ← put_arg ackbuf arg; put_args a args

-- What follows the switch on the status.
unfoldable pub put_all : Response → List ℕ → Option (List ℕ)
put_all res ackbuf = do
  a ← if ltb 1 res.argc then strcat ackbuf (b'*' ∷ (decimal res.argc ++ line_end)) else some ackbuf
  put_args a res.argv

-- "+OK\r\n", "+PONG\r\n" and "-ERROR\r\n"
unfoldable pub detch : Response → List ℕ → Option (List ℕ)
detch res ackbuf = elim res.status [
  | ok ↦ do a ← strcat ackbuf (b'+' ∷ b'O' ∷ b'K' ∷ line_end); put_all res a
  | ok_200 ↦ put_all res ackbuf
  | ok_404 ↦ strcat ackbuf null_bulk
  | ok_pong ↦ strcat ackbuf (b'+' ∷ b'P' ∷ b'O' ∷ b'N' ∷ b'G' ∷ line_end)
  | err ↦ strcat ackbuf (b'-' ∷ b'E' ∷ b'R' ∷ b'R' ∷ b'O' ∷ b'R' ∷ line_end)
]
