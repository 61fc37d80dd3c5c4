-- ===== src/Examples/Joining.antt =====
-- An index whose parked table goes into the file that is there (storage/src/silopit.c).
use silokatana.Base.{refl, some, none, [], ◌∷◌, arith, if◌then◌else◌}
use silokatana.Base.CStr.{str_eq, str_eq_refl}
use silokatana.Buffer
use silokatana.Buffer.{new-Holds}
use silokatana.Jikukan
use silokatana.Jikukan.{Jikukan, Opt, SkipNode, cmp_lt_irrefl}
use silokatana.Silopit.{Silopit, HasFile, SiloFile, file_of}
use silokatana.Index
use silokatana.Index.{Index, Map, view, OfKeys, OnDisk, empty}
use silokatana.Examples.Log.{name}
use silokatana.Examples.Merging.{name_fits, name_one, reporting, parking}

-- The file has the name's offset.
abbrev node : SkipNode
node = record { val = 4; opt = Opt.add; key = name.bytes }

abbrev one_file : SiloFile
one_file = file_of 1 name.bytes (node ∷ [])

abbrev holding : Silopit
holding = record reporting {
  name = 48 ∷ [];
  meta = record {
    nodes = record { end = name.bytes; index_name = 48 ∷ []; count = 1; lsn = 1 } ∷ [];
  };
  files = λ n. if str_eq n (48 ∷ []) then some one_file else none;
}

holding-HasFile : HasFile holding 1
holding-HasFile = record {
  entry = record { end = name.bytes; index_name = 48 ∷ []; count = 1; lsn = 1 };
  only = refl;
  named = refl;
  xs = node ∷ [];
  key = name.bytes;
  file = rw (str_eq_refl (48 ∷ [])) refl;
  rising = (tt, tt);
  fits = ((name_fits, λ a. (omega arith, name_one)), tt);
  top = (cmp_lt_irrefl name.bytes, tt);
  empty = (new-Holds 100 (omega arith)).0;
}

abbrev joining : Index
joining = record parking { silopit = holding }
