-- ===== src/Request/Pipeline.antt =====
-- Two requests in one buffer: `request_parse` leaves `idx` behind the first one, and the second one
-- is written past its terms.
use silokatana.Base.{
  ℕ, zero, suc, ◌+◌, ◌≡◌, ◌≤◌, refl, ap, ◌∙◌, List, [], ◌∷◌, ◌++◌, length, drop, replicate,
  length-replicate, arith, true, none, ◌==◌, inr,
}
use silokatana.Request.Defs.{
  Request, Term, Parsed, parse, put_arg, store_arg, take_arg, set_term, max_buffsize, len,
}
use silokatana.Request.Scanning.{header_known, past}
use silokatana.Request.RoundTrip.{Arg, wire_args, blank, round}
use silokatana.Request.Parsing.{IsWire, IsIdle, stale, parse-wire_more}

set_term-past : (ts : List Term) (i : ℕ) (t : Term) → length ts ≤ i → set_term ts i t ≡ none
set_term-past [] i t h = refl
set_term-past (x ∷ ts) zero t h = absurd (omega arith)
set_term-past (x ∷ ts) (suc i) t h = rw (set_term-past ts i t (omega arith))

store_arg-past : (req : Request) (n : ℕ) → length req.argv ≤ req.idx → store_arg req n ≡ none
unfolding store_arg put_arg take_arg
store_arg-past req n h = rw (set_term-past req.argv req.idx _ h, store_arg, put_arg)

-- With an index that was not reset, a request of no more arguments than that faults at its first.
pub parse-stale :
    (req : Request) (b : Arg) (bs : List Arg) (tail : List ℕ)
    → req.multilen ≡ 0
    → req.lastlen ≡ 0
    → req.pos ≡ 0
    → len req ≤ max_buffsize
    → suc (length bs) ≤ req.idx
    → IsWire req.querybuf b bs tail
    → parse req ≡ Parsed.fault
unfolding parse
parse-stale req b bs tail multi last start small index wire =
    let n = suc (length bs) in
    let here : drop req.pos req.querybuf ≡ 42 ∷ (wire.count ++ 13 ∷ 10 ∷ wire_args (b ∷ bs) tail) =
      ap (λ p. drop p req.querybuf) start ∙ wire.layout in
    let begun = record req {
      pos = req.pos + length wire.count + 3;
      argc = n;
      multilen = n;
      argv = replicate n blank;
    } in
    let at = past req wire.count (wire_args (b ∷ bs) tail) here in
    let m : req.multilen == 0 ≡ true = ground (arith, multi) in
    let step = round begun (length bs) b (wire_args bs tail) last at small in
    let now = record begun { pos = begun.pos + length b.numeral + 3 } in
    let over : store_arg now (length b.bytes) ≡ none =
      store_arg-past now (length b.bytes) (omega (arith, length-replicate n blank)) in
    rw (m, header_known req 42 wire.count (wire_args (b ∷ bs) tail) n (inr refl) wire.counted here)
      (step ∙ rw over)

-- Of two requests in one buffer, the second with no more arguments than the first, `request_parse`
-- returns the first, with the second left in the buffer, and faults at its next call.
pub parse-pipelined :
    (req : Request) (a : Arg) (args : List Arg) (b : Arg) (bs : List Arg) (tail : List ℕ)
    → IsIdle req
    → (second : List ℕ) → IsWire second b bs tail
    → IsWire req.querybuf a args second
    → length second ≤ max_buffsize
    → length bs ≤ length args
    → (next : Request) × (parse req ≡ Parsed.parsed next)
      × (next.querybuf ≡ second)
      × (parse next ≡ Parsed.fault)
parse-pipelined req a args b bs tail idle [] w wire small fewer = absurd (nothing (w.layout))
  where
    nothing : {c : ℕ} {xs : List ℕ} → [] ≡ c ∷ xs → ⊥
    nothing e = cc
parse-pipelined req a args b bs tail idle (t ∷ more) w wire small fewer = (
  stale req a args (t ∷ more),
  parse-wire_more req a args t more idle wire,
  refl,
  parse-stale (stale req a args (t ∷ more)) b bs tail refl refl refl small (omega arith) w,
)
