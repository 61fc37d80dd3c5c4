-- ===== src/Request/Parsing.antt =====
-- `request_parse` on a whole request: the command and the arguments, what is left in the buffer, and
-- what a second request in the same buffer meets.
use silokatana.Base.{
  length, length-drop, ap, ltb, le→ltb, lt→ltb, false, ℕ, suc, ◌+◌, ◌≡◌, ◌≤◌, refl, ap, ◌∙◌, List,
  [], ◌∷◌, ◌++◌, length, drop, replicate, arith, true, some, ◌==◌, inr, ltb, false, lt→ltb,
}
use silokatana.Request.Defs.{
  Request, Term, parse, finish, max_buffsize, len, to_lower, find_cmd, cmds, Parsed,
}
use silokatana.Request.Scanning.{Spells, header_known, past}
use silokatana.Request.RoundTrip.{
  Arg, wire_args, terms_of, blank, read_args-rest, round_done, behind, after,
}
use mathlib.Core.List.{map}

-- `*<count>\r\n`, and the arguments.
pub record IsWire (bytes : List ℕ) (a : Arg) (args : List Arg) (tail : List ℕ) : Type 0 where
  pub count : List ℕ
  pub counted : Spells count (suc (length args))
  pub layout : bytes ≡ 42 ∷ (count ++ 13 ∷ 10 ∷ wire_args (a ∷ args) tail)

-- A request between two packets: nothing of it has been read.
pub record IsIdle (req : Request) : Type 0 where
  pub start : req.pos ≡ 0
  pub multi : req.multilen ≡ 0
  pub last : req.lastlen ≡ 0
  pub index : req.idx ≡ 0
  pub small : len req ≤ max_buffsize

-- The first argument names the command, in any case of its letters.
abbrev pub command_term : Arg → Term
command_term a = record { len = length a.bytes; bytes = some (map to_lower a.bytes) }

-- The request when its last argument has been taken.
abbrev pub complete : Request → Arg → List Arg → ℕ → Request
complete req a args p = record req {
  argc = suc (length args);
  multilen = suc (length args);
  argv = command_term a ∷ terms_of args;
  idx = 1 + length args;
  cmd = find_cmd cmds (map to_lower a.bytes);
  pos = p;
  lastlen = 0;
}

parse-complete :
    (req : Request) (a : Arg) (args : List Arg) (tail : List ℕ)
    → IsIdle req
    → IsWire req.querybuf a args tail
    → (p : ℕ) × (drop p req.querybuf ≡ tail) × (parse req ≡ finish (complete req a args p))
unfolding parse
parse-complete req a args tail idle wire =
    let n = suc (length args) in
    let here : drop req.pos req.querybuf
        ≡ 42 ∷ (wire.count ++ 13 ∷ 10 ∷ wire_args (a ∷ args) tail) =
      ap (λ p. drop p req.querybuf) idle.start ∙ wire.layout in
    let p₀ = req.pos + length wire.count + 3 in
    let at : drop p₀ req.querybuf ≡ wire_args (a ∷ args) tail =
      past req wire.count (wire_args (a ∷ args) tail) here in
    let begun = record req { pos = p₀; argc = n; multilen = n; argv = replicate n blank } in
    let now =
      after begun (length args) a (wire_args args tail) idle.last at idle.small true []
        (replicate (length args) blank) in
    let z : req.idx == 0 ≡ true = ground (arith, idle.index) in
    let step =
      round_done begun (length args) a (wire_args args tail) idle.last at idle.small true []
        (replicate (length args) blank) z refl idle.index in
    let (p, left, run) =
      read_args-rest args tail now (command_term a ∷ [])
        (behind begun (length args) a (wire_args args tail) idle.last at idle.small) idle.small refl
        refl (omega (arith, idle.index)) (omega arith) in
    let m : req.multilen == 0 ≡ true = ground (arith, idle.multi) in
    (
      p,
      left,
      rw
          (
            m,
            header_known req 42 wire.count (wire_args (a ∷ args) tail) n (inr refl) wire.counted
                here,
          )
          (step ∙ run),
    )

-- The cleared request of a parser that has read all it was given.
abbrev pub cleared : Request → Request
cleared req = record req { querybuf = []; pos = 0; multilen = 0; lastlen = 0; idx = 0 }

drop-nil : (p : ℕ) (xs : List ℕ) → drop p xs ≡ [] → length xs ≤ p
drop-nil p xs e = omega (arith, ap length e, length-drop p xs)

-- Where nothing of it was read yet, a request that is alone in the buffer, however its numerals are
-- spelled, comes back as result 1 with its arguments, the first of them in lower case, with the
-- command that this names, and with the parser's state cleared.
pub parse-wire :
    (req : Request) (a : Arg) (args : List Arg)
    → IsIdle req
    → IsWire req.querybuf a args []
    → parse req ≡ Parsed.parsed (cleared (complete req a args 0))
unfolding finish
parse-wire req a args idle wire =
    let (p, left, run) = parse-complete req a args [] idle wire in
    let e : ltb p (len req) ≡ false = le→ltb p (len req) (drop-nil p req.querybuf left) in
    run ∙ unfold finish in rw e

-- What a parser is left with when bytes stand behind the request: they move to the front, and the
-- index of the next argument keeps its old value.
abbrev pub stale : Request → Arg → List Arg → List ℕ → Request
stale req a args tail = record (complete req a args 0) { querybuf = tail; multilen = 0 }

-- Where nothing of it was read yet, a request with more bytes behind it comes back in the same way,
-- but for the buffer, which has those bytes, and the index of the next argument, which is not reset.
pub parse-wire_more :
    (req : Request) (a : Arg) (args : List Arg) (t : ℕ) (tail : List ℕ)
    → IsIdle req
    → IsWire req.querybuf a args (t ∷ tail)
    → parse req ≡ Parsed.parsed (stale req a args (t ∷ tail))
unfolding finish
parse-wire_more req a args t tail idle wire =
    let (p, left, run) = parse-complete req a args (t ∷ tail) idle wire in
    let e : ltb p (len req) ≡ true =
      lt→ltb p (len req) (omega (arith, ap length left, length-drop p req.querybuf)) in
    run ∙ moved p left e
  where
    moved :
        (p : ℕ)
        → drop p req.querybuf ≡ t ∷ tail
        → ltb p (len req) ≡ true
        → finish (complete req a args p) ≡ Parsed.parsed (stale req a args (t ∷ tail))
    moved p left e = rw (e, left)
