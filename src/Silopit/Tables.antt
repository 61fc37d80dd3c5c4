-- ===== src/Silopit/Tables.antt =====
-- A table of storage/src/silopit.c with one file.
use silokatana.Base.{List, [], ◌∷◌, ℕ, ◌≡◌, some, false, All}
use silokatana.Buffer.{Holds}
use silokatana.Meta.{MetaNode}
use silokatana.Jikukan.{SkipNode, cmp_lt}
use silokatana.Silopit.Defs.{Silopit}
use silokatana.Silopit.Walk.{Rising}
use silokatana.Silopit.Writes.{file_of}
use silokatana.Silopit.Fresh.{Fits}

-- The one file has the additions among some nodes, and the table's end is behind all of them.
pub record HasFile (s : Silopit) (len : ℕ) : Type 0 where
  pub entry : MetaNode
  pub only : s.meta.nodes ≡ entry ∷ []
  pub named : entry.index_name ≡ s.name
  pub xs : List SkipNode
  pub key : List ℕ
  pub file : s.files s.name ≡ some (file_of len key xs)
  pub rising : Rising xs
  pub fits : All (Fits len) xs
  pub top : All (λ m. cmp_lt entry.end m.key ≡ false) xs
  pub empty : Holds s.buf []
