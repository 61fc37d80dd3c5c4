-- ===== src/Ht/Defs.antt =====
-- The operations of storage/src/ht.c. A key is the block that its pointer shows, the array of chains
-- is a function from the slot, and a chain is the list of its nodes.
use silokatana.Base.{ℕ, ◌+◌, ◌-◌, ◌%◌, ◌^◌, Option, none, some, List, [], ◌∷◌, ◌==◌, if◌then◌else◌}
use silokatana.Base.CStr.{str_eq}
use silokatana.Util.{djb_hash}

pub record HtNode {ℓ} (V : Type ℓ) : Type ℓ where
  pub key : List ℕ
  pub value : V

pub record Ht {ℓ} (V : Type ℓ) : Type ℓ where
  pub size : ℕ
  pub cap : ℕ
  pub nodes : ℕ → List (HtNode V)

module _ {ℓ} {V : Type ℓ} where
  unfoldable pub find_slot : Ht V → List ℕ → ℕ
  find_slot h key = djb_hash key % h.cap

  unfoldable pub new : ℕ → Ht V
  new cap = record { size = 0; cap = cap; nodes = λ _. [] }

  abbrev pub update : (ℕ → List (HtNode V)) → ℕ → List (HtNode V) → ℕ → List (HtNode V)
  update f i c j = if i == j then c else f j

  -- A new node is linked in front of its chain, whatever the chain holds.
  unfoldable pub set : Ht V → List ℕ → V → Ht V
  set h key value =
      let slot = find_slot h key in
      record h {
        nodes = update h.nodes slot (record { key = key; value = value } ∷ h.nodes slot);
        size = (h.size + 1) % 2 ^ 64;
      }

  unfoldable pub walk : List ℕ → List (HtNode V) → Option V
  walk key [] = none
  walk key (node ∷ next) =
      let rest = walk key next in if str_eq key node.key then some node.value else rest

  unfoldable pub get : Ht V → List ℕ → Option V
  unfolding walk
  get h key = walk key (h.nodes (find_slot h key))

  -- The chain without its first node that has the key; `none` where no node has it.
  unfoldable pub unlink : List ℕ → List (HtNode V) → Option (List (HtNode V))
  unlink key [] = none
  unlink key (node ∷ next) =
      let rest : Option (List (HtNode V)) = elim (unlink key next) [
        | none ↦ none
        | some c ↦ some (node ∷ c)
      ] in
      if str_eq key node.key then some next else rest

  unfoldable pub remove : Ht V → List ℕ → Ht V
  unfolding unlink
  remove h key =
      let slot = find_slot h key in
      elim (unlink key (h.nodes slot)) [
        | none ↦ h
        | some c ↦ record h { nodes = update h.nodes slot c; size = (h.size + 2 ^ 64 - 1) % 2 ^ 64 }
      ]
