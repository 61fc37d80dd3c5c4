-- ===== src/Examples/Files.antt =====
-- A file of two blocks (storage/src/silopit.c).
use silokatana.Base.{[], ◌∷◌}
use silokatana.Silopit.{SiloFile, f_crc}

-- The keys "A" and "B" with the offsets 4 and 11.
abbrev two_blocks : SiloFile
two_blocks = record {
  blks = 65 ∷ 0 ∷ 0 ∷ 0 ∷ 0 ∷ 0 ∷ 0 ∷ 0 ∷ 0 ∷ 4 ∷ 66 ∷ 0 ∷ 0 ∷ 0 ∷ 0 ∷ 0 ∷ 0 ∷ 0 ∷ 0 ∷ 11 ∷ [];
  footer = record { key = 66 ∷ 0 ∷ []; count = 2; crc = f_crc; size = 20; max_len = 2 };
}
