-- ===== src/Examples/Protocol.antt =====
-- Requests as a client sends them (server/src/request.c).
use silokatana.Base.{ℕ, ◌≡◌, refl, List, [], ◌∷◌, arith}
use silokatana.Request
use silokatana.Request.{
  Request, Parsed, Arg, Spells, IsIdle, IsWire, parse, complete, cleared, stale, parse-wire,
  parse-wire_more, parse-pipelined, wire_args, atoi, table,
}

-- The numerals of one digit.
one-Spells : Spells (49 ∷ []) 1
unfolding atoi table
one-Spells = record { digits = (refl, tt); value = refl }

four-Spells : Spells (52 ∷ []) 4
unfolding atoi table
four-Spells = record { digits = (refl, tt); value = refl }

abbrev ping_arg : Arg
ping_arg = record { numeral = 52 ∷ []; bytes = 80 ∷ 73 ∷ 78 ∷ 71 ∷ []; spells = four-Spells }

-- `*1\r\n$4\r\nPING\r\n`
abbrev ping_wire : List ℕ → List ℕ
ping_wire rest = 42 ∷ 49 ∷ 13 ∷ 10 ∷ wire_args (ping_arg ∷ []) rest

ping_wire-IsWire : (rest : List ℕ) → IsWire (ping_wire rest) ping_arg [] rest
ping_wire-IsWire rest = record { count = 49 ∷ []; counted = one-Spells; layout = refl }

abbrev received : List ℕ → Request
received bytes = record Request.new { querybuf = bytes }

once-IsIdle : IsIdle (received (ping_wire []))
unfolding Request.new
once-IsIdle = record { start = refl; multi = refl; last = refl; index = refl; small = omega arith }

twice-IsIdle : IsIdle (received (ping_wire (ping_wire [])))
unfolding Request.new
twice-IsIdle = record { start = refl; multi = refl; last = refl; index = refl; small = omega arith }

parse-wire_example :
    parse (received (ping_wire []))
    ≡ Parsed.parsed (cleared (complete (received (ping_wire [])) ping_arg [] 0))
parse-wire_example =
    parse-wire (received (ping_wire [])) ping_arg [] once-IsIdle (ping_wire-IsWire [])

parse-wire_more_example :
    parse (received (ping_wire (ping_wire [])))
    ≡ Parsed.parsed (stale (received (ping_wire (ping_wire []))) ping_arg [] (ping_wire []))
parse-wire_more_example =
    parse-wire_more (received (ping_wire (ping_wire []))) ping_arg [] 42
      (49 ∷ 13 ∷ 10 ∷ wire_args (ping_arg ∷ []) []) twice-IsIdle (ping_wire-IsWire (ping_wire []))

parse-pipelined_example :
    (next : Request) × (parse (received (ping_wire (ping_wire []))) ≡ Parsed.parsed next)
    × (next.querybuf ≡ ping_wire [])
    × (parse next ≡ Parsed.fault)
parse-pipelined_example =
    parse-pipelined (received (ping_wire (ping_wire []))) ping_arg [] ping_arg [] [] twice-IsIdle
      (ping_wire []) (ping_wire-IsWire []) (ping_wire-IsWire (ping_wire [])) (omega arith)
      (omega arith)
