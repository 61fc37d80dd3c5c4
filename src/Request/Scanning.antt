-- ===== src/Request/Scanning.antt =====
-- The scanner of server/src/request.c on a well-formed header: a marker, digits, CR and LF.
use silokatana.Base.{
  ◌∙◌, sym, ◌⊎◌, inl, inr, ◌==◌, ◌≤◌, ℕ, ◌+◌, ◌≡◌, ap, List, [], ◌∷◌, ◌++◌, length, drop, drop-drop,
  drop-length_append, arith, false, some, ◌⊎◌, suc,
}
use silokatana.Request.Defs.{Request, table, scan, state_len, continue, atoi, header, known}
use mathlib.Core.List.{append-nil, append_assoc}
use mathlib.Core.Path.{ap₂, sym}

abbrev pub All {ℓ κ} : {A : Type ℓ} → (A → Type κ) → List A → Type κ
All P [] = Unit
All P (x ∷ xs) = P x × All P xs

abbrev pub IsDigit : ℕ → Type 0
IsDigit c = table c ≡ 2

-- `ds` is a decimal numeral of `n`, and `n` is an `int`.
pub record Spells (ds : List ℕ) (n : ℕ) : Type 0 where
  pub digits : All IsDigit ds
  pub value : atoi ds ≡ some n

-- The bytes '$' and '*', the only markers that begin a header and are no line end.
abbrev pub IsMarker : ℕ → Type 0
IsMarker m = (m ≡ 36) ⊎ (m ≡ 42)

digit_range : (c : ℕ) → table c ≡ 2 → (48 ≤ c) × (c ≤ 57)
unfolding table
digit_range c h = ground arith

scan_digit :
    (c : ℕ) (rest : List ℕ) (i : ℕ) (sb : List ℕ)
    → table c ≡ 2
    → scan (c ∷ rest) i false false sb ≡ scan rest (i + 1) false false (sb ++ c ∷ [])
unfolding scan
scan_digit c rest i sb d =
    let r = digit_range c d in
    let e₀ : c == 0 ≡ false = ground arith in
    let e₁ : c == 13 ≡ false = ground arith in
    let e₂ : c == 10 ≡ false = ground arith in rw (e₀, e₁, e₂, d)

scan_digits :
    (ds rest : List ℕ) (i j : ℕ) (sb : List ℕ)
    → All IsDigit ds
    → i + length ds + 2 ≡ j
    → scan (ds ++ 13 ∷ 10 ∷ rest) i false false sb ≡ continue j (sb ++ ds)
scan_digits [] rest i j sb h e =
    let f : i + 1 + 1 ≡ j = omega arith in unfold scan in ap₂ continue f (sym (append-nil sb))
scan_digits (c ∷ ds) rest i j sb h e =
    scan_digit c (ds ++ 13 ∷ 10 ∷ rest) i sb h.0
    ∙ scan_digits ds rest (i + 1) j (sb ++ c ∷ []) h.1 (omega arith)
    ∙ ap (continue j) (append_assoc sb (c ∷ []) ds)

-- The scanner passes the marker and the line end, and returns the digits.
pub state_len-header :
    (req : Request) (m : ℕ) (ds rest : List ℕ)
    → IsMarker m
    → All IsDigit ds
    → drop req.pos req.querybuf ≡ m ∷ (ds ++ 13 ∷ 10 ∷ rest)
    → state_len req ≡ continue (req.pos + length ds + 3) ds
unfolding state_len scan table
state_len-header req m ds rest (inl e) h d =
    rw (d, e) (scan_digits ds rest (req.pos + 1) (req.pos + length ds + 3) [] h (omega arith))
state_len-header req m ds rest (inr e) h d =
    rw (d, e) (scan_digits ds rest (req.pos + 1) (req.pos + length ds + 3) [] h (omega arith))

pub header_known :
    (req : Request) (m : ℕ) (ds rest : List ℕ) (n : ℕ)
    → IsMarker m
    → Spells ds n
    → drop req.pos req.querybuf ≡ m ∷ (ds ++ 13 ∷ 10 ∷ rest)
    → header req ≡ known n (record req { pos = req.pos + length ds + 3 })
unfolding header
header_known req m ds rest n k h d =
    rw (header, state_len-header req m ds rest k h.digits d, h.value)

-- The position behind a header shows what stands behind it.
pub past :
    (req : Request) {m : ℕ} (ds rest : List ℕ)
    → drop req.pos req.querybuf ≡ m ∷ (ds ++ 13 ∷ 10 ∷ rest)
    → drop (req.pos + length ds + 3) req.querybuf ≡ rest
past req ds rest here =
    let e : req.pos + length ds + 3 ≡ req.pos + suc (length ds + 2) = omega arith in
    ap (λ n. drop n req.querybuf) e
    ∙ drop-drop req.pos (suc (length ds + 2)) req.querybuf
    ∙ ap (drop (suc (length ds + 2))) here
    ∙ drop-drop (length ds) 2 (ds ++ 13 ∷ 10 ∷ rest)
    ∙ ap (drop 2) (drop-length_append ds (13 ∷ 10 ∷ rest))
