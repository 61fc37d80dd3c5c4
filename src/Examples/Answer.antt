-- ===== src/Examples/Answer.antt =====
-- The answer with two values (server/src/response.c).
use silokatana.Base.{refl, List, [], ◌∷◌, arith}
use silokatana.Base.CStr.{c_str}
use silokatana.Response.{Value}

abbrev seven : Value
unfolding c_str
seven = record { bytes = 7 ∷ []; clean = refl; short = omega arith }

abbrev pair : Value
unfolding c_str
pair = record { bytes = 8 ∷ 9 ∷ []; clean = refl; short = omega arith }
