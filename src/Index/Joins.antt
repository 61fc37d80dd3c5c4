-- ===== src/Index/Joins.antt =====
-- What `_merge_job` of storage/src/index.c does to the maps of the index once there is a file.
use silokatana.Base.{ℕ, ◌+◌, ◌*◌, ◌^◌, ◌<◌, ◌≤◌, ◌≡◌, List, Option, none, some, false, length}
use silokatana.Hiraishin
use silokatana.Jikukan.{Jikukan, cmp_lt}
use silokatana.Silopit.{HasFile, adds, silopit_max_count}
use silokatana.Index.Defs.{Index}
use silokatana.Index.Maps.{Map}

-- What a merge leaves in the files: what was parked, over what was there.
abbrev pub joined : Option (Option (List ℕ)) → Option (Option (List ℕ)) → Option (Option (List ℕ))
joined none y = y
joined (some x) y = some x

abbrev pub overlay : Map → Map → Map
overlay old disk k = joined (old k) (disk k)

-- What must be for a merge into the file: a parked table with no key behind the file's end.
pub record Joinable (indx : Index) (list : Jikukan) (old : Map) (len : ℕ)
    (h : HasFile indx.silopit len) : Type 0 where
  pub parks : indx.park.list ≡ some list
  pub near : length indx.log.db < 2 ^ 31
  pub few : length (adds h.xs) + list.count ≤ silopit_max_count * 2
  pub inside : (k : List ℕ) (x : Option (List ℕ)) → old k ≡ some x → cmp_lt h.entry.end k ≡ false
