-- ===== src/Request/Defs.antt =====
-- The operations of server/src/request.c. `querybuf` has the `len` bytes that were received; behind
-- them the array is zero up to its end, and a read past its end is a fault, as is an `int` overflow.
use silokatana.Base.{
  ℕ, zero, suc, ◌+◌, ◌-◌, ◌*◌, ◌^◌, Bool, true, false, ◌||◌, ◌&&◌, Option, none, some, List, [],
  ◌∷◌, ◌++◌, ltb, leb, ◌==◌, if◌then◌else◌, length, take, drop, replicate,
}
use silokatana.Base.CStr.{str_eq}
use mathlib.Core.List.{map}

-- The values of `_table`; its other entries are 0.
unfoldable pub table : ℕ → ℕ
table c =
    if c == 10 || c == 13 || c == 36 || c == 42
    then 3
    else if leb 48 c && leb c 57
    then 2
    else if c == 69 || c == 71 || c == 84
    then 1
    else 0

pub data Cmd : Type 0 where
  ping get mget set mset del info exists shutdown unknow : Cmd

-- REQ_MAX_BUFFSIZE
abbrev pub max_buffsize : ℕ
max_buffsize = 10_240

abbrev pub int_max : ℕ
int_max = 2 ^ 31 - 1

-- A term whose data pointer is still NULL has no bytes.
pub record Term : Type 0 where
  pub len : ℕ
  pub bytes : Option (List ℕ)

pub record Request : Type 0 where
  pub querybuf : List ℕ
  pub argc : ℕ
  pub argv : List Term
  pub pos : ℕ
  pub multilen : ℕ
  pub lastlen : ℕ
  pub idx : ℕ
  pub cmd : Cmd

abbrev pub len : Request → ℕ
len req = length req.querybuf

unfoldable pub new : Request
new = record {
  querybuf = [];
  argc = 0;
  argv = [];
  pos = 0;
  multilen = 0;
  lastlen = 0;
  idx = 0;
  cmd = ping;
}

-- Strings over the bytes of their letters.
abbrev pub method_name : Cmd → List ℕ
method_name ping = b'p' ∷ b'i' ∷ b'n' ∷ b'g' ∷ []
method_name get = b'g' ∷ b'e' ∷ b't' ∷ []
method_name mget = b'm' ∷ b'g' ∷ b'e' ∷ b't' ∷ []
method_name set = b's' ∷ b'e' ∷ b't' ∷ []
method_name mset = b'm' ∷ b's' ∷ b'e' ∷ b't' ∷ []
method_name del = b'd' ∷ b'e' ∷ b'l' ∷ []
method_name info = b'i' ∷ b'n' ∷ b'f' ∷ b'o' ∷ []
method_name exists = b'e' ∷ b'x' ∷ b'i' ∷ b's' ∷ b't' ∷ b's' ∷ []
method_name shutdown = b's' ∷ b'h' ∷ b'u' ∷ b't' ∷ b'd' ∷ b'o' ∷ b'w' ∷ b'n' ∷ []
method_name unknow = b'u' ∷ b'n' ∷ b'k' ∷ b'n' ∷ b'o' ∷ b'w' ∷ b' ' ∷ b'c' ∷ b'm' ∷ b'd' ∷ []

-- The rows of `_cmds`, in their order.
abbrev pub cmds : List Cmd
cmds = ping ∷ get ∷ mget ∷ set ∷ mset ∷ del ∷ info ∷ exists ∷ shutdown ∷ unknow ∷ []

unfoldable pub find_cmd : List Cmd → List ℕ → Cmd
find_cmd [] v = unknow
find_cmd (c ∷ cs) v = let rest = find_cmd cs v in if str_eq v (method_name c) then c else rest

-- The bytes from 'A' to 'Z' become lower case.
unfoldable pub to_lower : ℕ → ℕ
to_lower c = if leb b'A' c && leb c b'Z' then c + 32 else c

unfoldable pub atoi_from : ℕ → List ℕ → ℕ
atoi_from n [] = n
atoi_from n (c ∷ cs) = atoi_from (n * 10 + (c - 48)) cs

-- `atoi` of a string of digits; a value that is no `int` is a fault.
unfoldable pub atoi : List ℕ → Option ℕ
unfolding atoi_from
atoi sb = let n = atoi_from 0 sb in if leb n int_max then some n else none

-- How `req_state_len` ends: STATE_FAIL, STATE_CONTINUE with the new position and the digits, or a
-- read past the array.
pub data Scan : Type 0 where
  fail : Scan
  continue : ℕ → List ℕ → Scan
  overrun : Scan

-- Its loop over the bytes from `i` on; `first` says that none was read yet.
unfoldable pub scan : List ℕ → ℕ → Bool → Bool → List ℕ → Scan
scan [] i first term sb = if ltb i max_buffsize then fail else overrun
scan (c ∷ rest) i first term sb =
    let carriage = scan rest (i + 1) false true sb in
    let begun = scan rest (i + 1) false term sb in
    let digit = scan rest (i + 1) false term (sb ++ c ∷ []) in
    if c == 0
    then fail
    else if c == 13
    then carriage
    else if c == 10
    then (if term then continue (i + 1) sb else fail)
    else if first
    then (if table c == 3 then begun else fail)
    else (if table c == 2 then digit else fail)

unfoldable pub state_len : Request → Scan
state_len req = scan (drop req.pos req.querybuf) req.pos true false []

-- `request_append`; `none` is its result -1.
unfoldable pub append : Request → List ℕ → Option Request
append req buf =
    if ltb max_buffsize (len req + length buf)
    then none
    else some (record req { querybuf = req.querybuf ++ buf })

-- How `request_parse` ends: a fault, or its results -1, 0 and 1.
pub data Parsed : Type 0 where
  fault : Parsed
  failed waiting parsed : Request → Parsed

abbrev pub set_term : List Term → ℕ → Term → Option (List Term)
set_term [] i t = none
set_term (x ∷ xs) zero t = some (t ∷ xs)
set_term (x ∷ xs) (suc i) t = elim (set_term xs i t) [ none ↦ none | some ys ↦ some (x ∷ ys) ]

-- What is left behind a request is moved to the front; `idx` is written by the other branch alone.
unfoldable pub finish : Request → Parsed
finish req =
    if ltb req.pos (len req)
    then parsed (record req { querybuf = drop req.pos req.querybuf; pos = 0; multilen = 0 })
    else parsed (record req { querybuf = []; pos = 0; multilen = 0; lastlen = 0; idx = 0 })

-- The argument's bytes and the command, which the first argument names.
unfoldable pub take_arg : Request → ℕ → List ℕ × Cmd
unfolding to_lower find_cmd
take_arg req argv_len =
    let v = take argv_len (drop req.pos req.querybuf) in
    let w = map to_lower v in if req.idx == 0 then (w, find_cmd cmds w) else (v, req.cmd)

-- The end of a round: the write to `argv[idx]`, which faults past the terms.
unfoldable pub put_arg : Request → ℕ → List ℕ × Cmd → Option Request
put_arg req argv_len (v, cmd) =
    elim (set_term req.argv req.idx (record { len = argv_len; bytes = some v })) [
      | none ↦ none
      | some argv ↦ some (record req {
        argv = argv;
        cmd = cmd;
        idx = req.idx + 1;
        pos = req.pos + (argv_len + 2);
        lastlen = 0;
      })
    ]

unfoldable pub store_arg : Request → ℕ → Option Request
store_arg req argv_len = put_arg req argv_len (take_arg req argv_len)

-- The length of the next argument, and the request with the position behind its header.
pub data Length : Type 0 where
  bad broken : Length
  known : ℕ → Request → Length

unfoldable pub header : Request → Length
header req = elim (state_len req) [
  | fail ↦ bad
  | overrun ↦ broken
  | continue pos sb ↦ elim (atoi sb) [ none ↦ broken | some n ↦ known n (record req { pos = pos }) ]
]

-- The length that was read before the request was cut off, or the next header.
unfoldable pub next_length : Request → Length
next_length req = if req.lastlen == 0 then header req else known req.lastlen req

-- `while (req->multilen)`
unfoldable pub read_args : ℕ → Request → Parsed
read_args zero req = finish req
read_args (suc m) req = elim (next_length req) [
  | bad ↦ failed (record req { multilen = suc m })
  | broken ↦ fault
  | known n req₁ ↦
      let pause = waiting (record req₁ { lastlen = n; multilen = suc m }) in
      let go : Parsed = elim (store_arg req₁ n) [ none ↦ fault | some req₂ ↦ read_args m req₂ ] in
      if ltb int_max (req₁.pos + n)
      then fault
      else if ltb (req₁.pos + n) (len req₁)
      then go
      else pause
]

-- `request_parse`
unfoldable pub parse : Request → Parsed
parse req =
    if req.multilen == 0
    then elim (header req) [
      | bad ↦ failed req
      | broken ↦ fault
      | known n req₁ ↦ read_args n (record req₁ {
        argc = n;
        multilen = n;
        argv = replicate n (record { len = 0; bytes = none });
      })
    ]
    else read_args req.multilen req
