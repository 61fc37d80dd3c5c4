-- ===== src/Index/Reach.antt =====
-- The first opening of the index of storage/src/index.c.
use silokatana.Base.{ℕ, ◌*◌, ◌<◌, ◌≡◌, refl, List, [], ◌++◌, Option, none, some, Bool, true, arith}
use silokatana.Buffer.{clear-Holds, new-Holds}
use silokatana.Buffer
use silokatana.Meta
use silokatana.Hiraishin
use silokatana.Jikukan.{max_key_size}
use silokatana.Jikukan
use silokatana.Log.{Log, Fits, Fitting, value_bytes, db_magic, log_buffer_size, recovery}
use silokatana.Log
use silokatana.Silopit.{Silopit, Directory, load}
use silokatana.Silopit
use silokatana.Index.Defs.{Index, new, recover}
use silokatana.Index.Maps.{empty, Refines, empty-Reported}
use silokatana.Index.Notes.{new-Lists}

module _ (write : List ℕ → List ℕ → Option (List ℕ)) (coin : ℕ → Bool) where
  -- With the log on, tables that have room, and a write that writes everything, `index_new` in an
  -- empty directory does not fault, and the index that it opens has the invariant with two empty maps.
  pub new-Refines :
      ((file bytes : List ℕ) → write file bytes ≡ some (file ++ bytes))
      → (stale : ℕ) (files : Directory) (held : Bool) (size : ℕ) → 0 < size
      → (indx : Index) × (new stale coin write files [] none [] held size true ≡ some indx)
        × Refines indx empty empty
  unfolding new recover Silopit.new load Log.new recovery Log.next Hiraishin.new
  new-Refines appends stale files held size room =
      let b = new-Holds log_buffer_size (omega arith) in
      let (buf, run, h) = clear-Holds _ [] b.0 in
      (
        record {
          lsn = 0;
          bg_merge_count = 0;
          mtbl_rem_count = 0;
          max_mtbl_size = size;
          hiraishin_hits = 0;
          log = record {
            islog = true;
            db_alloc = 4;
            buf = buf;
            db_buf = buf;
            db = db_magic;
            indx = [];
          };
          silopit = record {
            name = [];
            meta = Meta.new;
            hiraishin = Hiraishin.new;
            buf = Buffer.new (1024 * 1024 * 4);
            files = files;
          };
          list = Jikukan.new size;
          park = record { list = none; lsn = 0 };
        },
        rw (appends, run) refl,
        record {
          log = record { logs = refl; buf = h; db_buf = h; at_end = refl };
          begun = omega arith;
          filter = Hiraishin.new-IsValid;
          funcs = refl;
          reported = empty-Reported Hiraishin.new;
          reported_old = empty-Reported Hiraishin.new;
          lists = new-Lists db_magic size;
          parks = λ k. refl;
          tables = room;
        },
      )
