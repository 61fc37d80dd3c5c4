-- ===== src/Request/RoundTrip.antt =====
-- `request_parse` on a well-formed request: it takes every argument, and leaves what stands behind.
use silokatana.Base.{
  take-length_append, drop-length_append, Bool, ◌==◌, if◌then◌else◌, ℕ, zero, suc, ◌+◌, ◌≡◌, ◌≤◌,
  ◌<◌, refl, ap, sym, ◌∙◌, none, some, List, [], ◌∷◌, ◌++◌, length, drop, take, replicate, arith,
  true, false, length-append, length-drop, drop-drop, ltb, inl, le→ltb, lt→ltb,
}
use silokatana.Request.Defs.{
  Request, Term, Cmd, Parsed, read_args, store_arg, set_term, take_arg, finish, known, max_buffsize,
  len, int_max, next_length, to_lower, find_cmd, cmds, put_arg,
}
use mathlib.Core.List.{map, append_assoc}
use silokatana.Request.Scanning.{Spells, header_known, past}

-- An argument, and the numeral that stands in its header.
pub record Arg : Type 0 where
  pub numeral : List ℕ
  pub bytes : List ℕ
  pub spells : Spells numeral (length bytes)

-- `$<numeral>\r\n<bytes>\r\n`
abbrev pub wire_arg : Arg → List ℕ → List ℕ
wire_arg a rest = 36 ∷ (a.numeral ++ 13 ∷ 10 ∷ (a.bytes ++ 13 ∷ 10 ∷ rest))

abbrev pub wire_args : List Arg → List ℕ → List ℕ
wire_args [] rest = rest
wire_args (a ∷ args) rest = wire_arg a (wire_args args rest)

abbrev pub term_of : Arg → Term
term_of a = record { len = length a.bytes; bytes = some a.bytes }

abbrev pub blank : Term
blank = record { len = 0; bytes = none }

set_term-append :
    (done : List Term) (x t : Term) (xs : List Term) (i : ℕ)
    → i ≡ length done
    → set_term (done ++ x ∷ xs) i t ≡ some (done ++ t ∷ xs)
set_term-append [] x t xs zero e = refl
set_term-append [] x t xs (suc i) e = absurd (omega arith)
set_term-append (d ∷ done) x t xs zero e = absurd (omega arith)
set_term-append (d ∷ done) x t xs (suc i) e = rw (set_term-append done x t xs i (omega arith))

-- One round of the loop, at an argument that has arrived.
module _ (req : Request) (m : ℕ) (a : Arg) (rest : List ℕ) (fresh : req.lastlen ≡ 0)
    (here : drop req.pos req.querybuf ≡ wire_arg a rest) (small : len req ≤ max_buffsize) where
  abbrev pub start : ℕ
  start = req.pos + length a.numeral + 3

  at_start : drop start req.querybuf ≡ a.bytes ++ 13 ∷ 10 ∷ rest
  at_start = past req a.numeral (a.bytes ++ 13 ∷ 10 ∷ rest) here

  pub behind : drop (start + (length a.bytes + 2)) req.querybuf ≡ rest
  behind =
      drop-drop start (length a.bytes + 2) req.querybuf
      ∙ ap (drop (length a.bytes + 2)) at_start
      ∙ drop-drop (length a.bytes) 2 (a.bytes ++ 13 ∷ 10 ∷ rest)
      ∙ ap (drop 2) (drop-length_append a.bytes (13 ∷ 10 ∷ rest))

  fits : start + length a.bytes < len req
  fits = omega (
    arith,
    ap length at_start,
    length-drop start req.querybuf,
    length-append a.bytes (13 ∷ 10 ∷ rest),
  )

  abbrev at_arg : Request
  at_arg = record req { pos = start }

  next : next_length req ≡ known (length a.bytes) at_arg
  unfolding next_length
  next =
      let z : req.lastlen == 0 ≡ true = ground arith in
      rw z (
        header_known req 36 a.numeral (a.bytes ++ 13 ∷ 10 ∷ rest) (length a.bytes) (inl refl)
          a.spells here)

  pub round : read_args (suc m) req ≡ elim (store_arg at_arg (length a.bytes)) [
    | none ↦ Parsed.fault
    | some req₂ ↦ read_args m req₂
  ]
  unfolding read_args
  round =
      let e : ltb int_max (start + length a.bytes) ≡ false =
        le→ltb int_max (start + length a.bytes) (omega (arith, fits)) in
      let f : ltb (start + length a.bytes) (len req) ≡ true = lt→ltb _ _ fits in
      rw (next, read_args, e, f)

  -- The request after the round, where `first` says that the argument names the command.
  abbrev pub after : Bool → List Term → List Term → Request
  after first done more = record req {
    argv =
        done
        ++ record {
          len = length a.bytes;
          bytes = some (if first then map to_lower a.bytes else a.bytes);
        }
          ∷ more;
    cmd = if first then find_cmd cmds (map to_lower a.bytes) else req.cmd;
    idx = req.idx + 1;
    pos = start + (length a.bytes + 2);
    lastlen = 0;
  }

  taken :
      (first : Bool)
      → req.idx == 0 ≡ first
      → take_arg at_arg (length a.bytes) ≡ (
        if first then map to_lower a.bytes else a.bytes,
        if first then find_cmd cmds (map to_lower a.bytes) else req.cmd,
      )
  unfolding take_arg
  taken first z =
      let v : take (length a.bytes) (drop start req.querybuf) ≡ a.bytes =
        ap (take (length a.bytes)) at_start ∙ take-length_append a.bytes (13 ∷ 10 ∷ rest) in
      rw (v, z) (pick first)
    where
      pick :
          (first : Bool)
          → ◌≡◌ {A = List ℕ × Cmd}
              (if first
                then (map to_lower a.bytes, find_cmd cmds (map to_lower a.bytes))
                else (a.bytes, req.cmd))
              (
                if first then map to_lower a.bytes else a.bytes,
                if first then find_cmd cmds (map to_lower a.bytes) else req.cmd,
              )
      pick true = refl
      pick false = refl

  put_found :
      (first : Bool) (done more : List Term)
      → set_term req.argv req.idx (record {
        len = length a.bytes;
        bytes = some (if first then map to_lower a.bytes else a.bytes);
      })
        ≡ some (
            done
            ++ record {
              len = length a.bytes;
              bytes = some (if first then map to_lower a.bytes else a.bytes);
            }
              ∷ more)
      → put_arg at_arg (length a.bytes) (
        if first then map to_lower a.bytes else a.bytes,
        if first then find_cmd cmds (map to_lower a.bytes) else req.cmd,
      )
        ≡ some (after first done more)
  unfolding put_arg
  put_found first done more s = rw (s, put_arg)

  stored :
      (first : Bool) (done more : List Term)
      → req.idx == 0 ≡ first
      → req.argv ≡ done ++ blank ∷ more
      → req.idx ≡ length done
      → store_arg at_arg (length a.bytes) ≡ some (after first done more)
  unfolding store_arg put_arg
  stored first done more z e i =
      let v = if first then map to_lower a.bytes else a.bytes in
      let t : Term = record { len = length a.bytes; bytes = some v } in
      let s : set_term req.argv req.idx t ≡ some (done ++ t ∷ more) =
        ap (λ l. set_term l req.idx t) e ∙ set_term-append done blank t more req.idx i in
      ap (put_arg at_arg (length a.bytes)) (taken first z) ∙ put_found first done more s

  -- The whole round.
  pub round_done :
      (first : Bool) (done more : List Term)
      → req.idx == 0 ≡ first
      → req.argv ≡ done ++ blank ∷ more
      → req.idx ≡ length done
      → read_args (suc m) req ≡ read_args m (after first done more)
  round_done first done more z e i = rw (round, stored first done more z e i)

-- The terms that later arguments become.
abbrev pub terms_of : List Arg → List Term
terms_of [] = []
terms_of (a ∷ args) = term_of a ∷ terms_of args

-- The loop from its second round on.
pub read_args-rest :
    (args : List Arg) (tail : List ℕ) (req : Request) (done : List Term)
    → drop req.pos req.querybuf ≡ wire_args args tail
    → len req ≤ max_buffsize
    → req.lastlen ≡ 0
    → req.argv ≡ done ++ replicate (length args) blank
    → req.idx ≡ length done
    → 0 < length done
    → (p : ℕ) × (drop p req.querybuf ≡ tail)
      × (read_args (length args) req
          ≡ finish (record req {
            argv = done ++ terms_of args;
            idx = length done + length args;
            pos = p;
            lastlen = 0;
          }))
unfolding read_args
read_args-rest [] tail req done here small fresh e i pos =
    (req.pos, here, λ j. finish (record req { argv = e j; idx = (sum i) j; lastlen = fresh j }))
  where
    sum : req.idx ≡ length done → req.idx ≡ length done + 0
    sum q = omega arith
read_args-rest (a ∷ args) tail req done here small fresh e i pos =
    let rest = wire_args args tail in
    let blanks = replicate (length args) blank in
    let now = after req (length args) a rest fresh here small false done blanks in
    let done' = done ++ term_of a ∷ [] in
    let longer : length done' ≡ length done + 1 = length-append done (term_of a ∷ []) in
    let z : req.idx == 0 ≡ false = ground arith in
    let step = round_done req (length args) a rest fresh here small false done blanks z e i in
    let (p, left, run) =
      read_args-rest args tail now done' (behind req (length args) a rest fresh here small) small
        refl (sym (append_assoc done (term_of a ∷ []) blanks)) (omega arith) (omega arith) in
    let total : length done' + length args ≡ length done + suc (length args) = omega arith in
    (
      p,
      left,
      step ∙ run ∙ (λ j. finish (record req {
        argv = append_assoc done (term_of a ∷ []) (terms_of args) j;
        idx = total j;
        pos = p;
        lastlen = 0;
      })),
    )
