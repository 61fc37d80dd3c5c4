-- ===== src/Examples/Filter.antt =====
-- A filter with keys, and a hash table (storage/src/hiraishin.c, storage/src/ht.c).
use silokatana.Base.{ℕ, ◌≡◌, refl, none, some, [], ◌∷◌, if◌then◌else◌, arith}
use silokatana.Base.CStr.{str_eq}
use silokatana.Hiraishin.{no_false_negative, new-IsValid}
use silokatana.Hiraishin
use silokatana.Ht.{Ht, get-remove, get-set, IsDistinct, set-IsDistinct}
use silokatana.Ht

no_false_negative_example :
    Hiraishin.get
      (Hiraishin.add_all (Hiraishin.add Hiraishin.new (some (1 ∷ []))) ((2 ∷ []) ∷ []))
      (some (1 ∷ []))
    ≡ 1
no_false_negative_example = no_false_negative Hiraishin.new (1 ∷ []) ((2 ∷ []) ∷ []) new-IsValid

abbrev bare : Ht ℕ
bare = Ht.new 7

bare-get : Ht.get bare (1 ∷ []) ≡ none
unfolding Ht.get Ht.new
bare-get = refl

bare-IsDistinct : IsDistinct bare
unfolding Ht.new
bare-IsDistinct = record { once = λ k. omega arith }

abbrev single : Ht ℕ
single = Ht.set bare (1 ∷ []) 11

single-IsDistinct : IsDistinct single
single-IsDistinct = set-IsDistinct bare (1 ∷ []) 11 bare-IsDistinct bare-get

get-set_example :
    Ht.get (Ht.set bare (1 ∷ []) 11) (1 ∷ [])
    ≡ (if str_eq (1 ∷ []) (1 ∷ []) then some 11 else Ht.get bare (1 ∷ []))
get-set_example = get-set bare (1 ∷ []) (1 ∷ []) 11

get-remove_example :
    Ht.get (Ht.remove single (1 ∷ [])) (2 ∷ [])
    ≡ (if str_eq (2 ∷ []) (1 ∷ []) then none else Ht.get single (2 ∷ []))
get-remove_example = get-remove single (1 ∷ []) (2 ∷ []) single-IsDistinct
