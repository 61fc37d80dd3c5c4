-- ===== src/Examples/Client.antt =====
-- The bytes of a client that writes "hi" under "k" and reads it back (server/src/siloserver.c).
use silokatana.Base.{ℕ, ◌+◌, ◌^◌, ◌<◌, ◌≡◌, refl, true, some, List, [], ◌∷◌, length, arith}
use silokatana.Base.CStr.{c_str, str_eq, strcmp, lex}
use silokatana.Buffer
use silokatana.Request
use silokatana.Request.{
  Request, Cmd, Arg, IsIdle, IsWire, Spells, atoi, table, wire_arg, wire_args, find_cmd, cmds,
  to_lower,
}
use silokatana.Response.{Value, arg_of, decimal, decimal_from, buf_size}
use silokatana.Server.{Reply, read_handler, answered, ok_line, block}
use silokatana.Log.{value_bytes}
use silokatana.Db.{Silokatana, Arrives, store, read_handler-store}
use silokatana.Db.{Info}
use silokatana.Examples.Log.{write_all}
use silokatana.Examples.Index.{tails, index_of-Refines}
use silokatana.Examples.Database.{fresh, fresh-Sound, fresh-Takes, clean, room}
use silokatana.Index.{empty}
use mathlib.Core.List.{map}

abbrev hello : Value
unfolding c_str
hello = record { bytes = 104 ∷ 105 ∷ []; clean = refl; short = omega arith }

abbrev greeting : Value
unfolding c_str
greeting = record { bytes = 107 ∷ []; clean = refl; short = omega arith }

hello_space : 4 + length (value_bytes (some (block hello.bytes))) < 2 ^ 63
unfolding Buffer.int_bytes hello
hello_space = omega arith

hello_room : length (wire_arg (arg_of hello) []) < buf_size
unfolding decimal decimal_from hello
hello_room = omega arith

abbrev no_text : Info → List ℕ
no_text info = []

three-Spells : Spells (51 ∷ []) 3
unfolding atoi table
three-Spells = record { digits = (refl, tt); value = refl }

two-Spells : Spells (50 ∷ []) 2
unfolding atoi table
two-Spells = record { digits = (refl, tt); value = refl }

-- "SET" and "get"
abbrev set_arg : Arg
set_arg = record { numeral = 51 ∷ []; bytes = 83 ∷ 69 ∷ 84 ∷ []; spells = three-Spells }

abbrev get_arg : Arg
get_arg = record { numeral = 51 ∷ []; bytes = 103 ∷ 101 ∷ 116 ∷ []; spells = three-Spells }

abbrev set_bytes : List ℕ
set_bytes = 42 ∷ 51 ∷ 13 ∷ 10 ∷ wire_args (set_arg ∷ arg_of greeting ∷ arg_of hello ∷ []) []

abbrev get_bytes : List ℕ
get_bytes = 42 ∷ 50 ∷ 13 ∷ 10 ∷ wire_args (get_arg ∷ arg_of greeting ∷ []) []

set-Arrives : Arrives Request.new set_bytes set_arg (arg_of greeting ∷ arg_of hello ∷ [])
unfolding Request.new greeting hello decimal decimal_from
set-Arrives = record {
  unread = refl;
  idle = record { start = refl; multi = refl; last = refl; index = refl; small = omega arith };
  wire = record { count = 51 ∷ []; counted = three-Spells; layout = refl };
}

get-Arrives : Arrives Request.new get_bytes get_arg (arg_of greeting ∷ [])
unfolding Request.new greeting decimal decimal_from
get-Arrives = record {
  unread = refl;
  idle = record { start = refl; multi = refl; last = refl; index = refl; small = omega arith };
  wire = record { count = 50 ∷ []; counted = two-Spells; layout = refl };
}

set_named : find_cmd cmds (map to_lower set_arg.bytes) ≡ Cmd.set
unfolding find_cmd to_lower str_eq strcmp lex c_str
set_named = refl

get_named : find_cmd cmds (map to_lower get_arg.bytes) ≡ Cmd.get
unfolding find_cmd to_lower str_eq strcmp lex c_str
get_named = refl

read_handler-store_example :
    (db₁ : Silokatana) × (db₂ : Silokatana) × (left₁ : Request) × (left₂ : Request) × (read_handler
        (store clean write_all tails no_text)
        true
        fresh
        Request.new
        set_bytes
      ≡ some (answered left₁ (Reply.sent db₁ ok_line)))
    × (read_handler (store clean write_all tails no_text) true db₁ Request.new get_bytes
        ≡ some (answered left₂ (Reply.sent db₂ (wire_arg (arg_of hello) []))))
unfolding greeting hello
read_handler-store_example =
    read_handler-store clean write_all tails no_text true (λ f b. refl) fresh empty empty
      Request.new Request.new set_bytes get_bytes set_arg get_arg greeting hello set-Arrives
      get-Arrives set_named get_named (index_of-Refines 2) room (omega arith) (omega arith)
      hello_space fresh-Sound (fresh-Takes (block greeting.bytes) 2 (omega arith)) hello_room
