-- ===== src/Index/Notes.antt =====
-- What the steps of `index_add` in storage/src/index.c keep.
use silokatana.Base.{
  ℕ, ◌+◌, ◌^◌, ◌<◌, ◌≡◌, refl, ap, sym, List, [], ◌++◌, Option, none, some, length, arith,
  length-append, subst,
}
use silokatana.Hiraishin
use silokatana.Jikukan.{Jikukan, Opt, put, Entry, max_key_size, notfull}
use silokatana.Jikukan
use silokatana.Level.{Slice}
use silokatana.Log.{
  payload, length-payload, Log, IsOpen, Fits, Fitting, value_bytes, append-Written,
}
use silokatana.Log
use silokatana.Buffer.{clear-Holds}
use silokatana.Index.Defs.{Index, note, rotate, opt_for}
use silokatana.Index.Values.{StoredAt-value_bytes}
use silokatana.Index.Maps.{
  Map, assign, empty, Says, Lists, Parks, Refines, Lists-append, Parks-append, Reported,
  Reported-add, Reported-keep, Reported-deleted, empty-Reported,
}
use silokatana.Silopit.{Silopit}

abbrev pub contents : Option Slice → Option (List ℕ)
contents none = none
contents (some sv) = some (payload sv)

pub Says-opt_for :
    (db : List ℕ) (sv : Option Slice)
    → Fitting sv
    → 0 < length db
    → length db < 2 ^ 63
    → Says (db ++ value_bytes sv) (some (length db, opt_for sv)) (some (contents sv))
Says-opt_for db none f pos low = tt
Says-opt_for db (some sv) f pos low =
    StoredAt-value_bytes db sv (length-payload sv f) pos low (omega (arith, f.small))

-- What the index keeps when a table `m` takes the new entry and `note` has run.
pub note-Refines :
    (indx : Index) (m old : Map) (sk : Slice) (sv : Option Slice) (list' : Jikukan)
    → Refines indx m old
    → Lists indx.log.db list' (assign m sk.bytes (contents sv))
    → Refines (note (record indx { list = list' }) sk sv) (assign m sk.bytes (contents sv)) old
unfolding note Hiraishin.add
note-Refines indx m old sk none list' r l = record {
  log = r.log;
  begun = r.begun;
  filter = r.filter;
  funcs = r.funcs;
  reported = Reported-deleted indx.silopit.hiraishin m sk.bytes r.reported;
  reported_old = r.reported_old;
  lists = l;
  parks = r.parks;
  tables = r.tables;
}
note-Refines indx m old sk (some sv) list' r l =
    let h = indx.silopit.hiraishin in
    record {
      log = r.log;
      begun = r.begun;
      filter = Hiraishin.add-IsValid h (some sk.bytes) r.filter;
      funcs = r.funcs;
      reported = Reported-add h m sk.bytes (payload sv) r.filter r.funcs r.reported;
      reported_old = Reported-keep h old sk.bytes r.filter r.reported_old;
      lists = l;
      parks = r.parks;
      tables = r.tables;
    }

-- The index with another log that has more in its value file.
pub logged-Refines :
    (indx : Index) (m old : Map) (l : Log) (bytes : List ℕ)
    → Refines indx m old
    → IsOpen l
    → l.db ≡ indx.log.db ++ bytes
    → Refines (record indx { log = l }) m old
logged-Refines indx m old l bytes r o e = record {
  log = o;
  begun = omega (arith, r.begun, ap length e, length-append indx.log.db bytes);
  filter = r.filter;
  funcs = r.funcs;
  reported = r.reported;
  reported_old = r.reported_old;
  lists =
      subst (λ d. Lists d indx.list m) (sym e) (Lists-append indx.log.db bytes indx.list m r.lists);
  parks =
      subst (λ d. Parks d indx.park.list old) (sym e)
        (Parks-append indx.log.db bytes indx.park.list old r.parks);
  tables = r.tables;
}

pub new-Lists : (db : List ℕ) (size : ℕ) → Lists db (Jikukan.new size) empty
new-Lists db size = record { table = λ k. none; refines = Jikukan.new-Refines size; says = λ k. tt }

-- The full table is parked over what was parked, and a new one takes its place.
pub rotate-Refines :
    (indx : Index) (m old : Map)
    → Refines indx m old
    → (indx' : Index) × (rotate indx ≡ some indx')
      × Refines indx' empty m
      × (indx'.list ≡ Jikukan.new indx.max_mtbl_size)
      × (indx'.log.db ≡ indx.log.db)
      × (indx'.silopit ≡ indx.silopit)
unfolding rotate Log.next
rotate-Refines indx m old r =
    let (buf, run₁, h₁) = clear-Holds indx.log.buf [] r.log.buf in
    let (db_buf, run₂, h₂) = clear-Holds indx.log.db_buf [] r.log.db_buf in
    let l : Log = record indx.log { buf = buf; db_buf = db_buf; indx = [] } in
    (
      record indx {
        bg_merge_count = indx.bg_merge_count + 1;
        park = record { list = some indx.list; lsn = indx.lsn };
        mtbl_rem_count = 0;
        list = Jikukan.new indx.max_mtbl_size;
        lsn = indx.lsn + 1;
        log = l;
      },
      rw (run₁, run₂) refl,
      record {
        log = record { logs = r.log.logs; buf = h₁; db_buf = h₂; at_end = r.log.at_end };
        begun = r.begun;
        filter = r.filter;
        funcs = r.funcs;
        reported = empty-Reported indx.silopit.hiraishin;
        reported_old = r.reported;
        lists = new-Lists indx.log.db indx.max_mtbl_size;
        parks = r.lists;
        tables = r.tables;
      },
      refl,
      refl,
      refl,
    )

-- An index with a filter that reports no less, a value file that has no less, and the same files of
-- offsets.
pub record Grows (a b : Index) : Type 0 where
  pub filter : Hiraishin.Hiraishin
  pub bytes : List ℕ
  pub same : b.silopit ≡ record a.silopit { hiraishin = filter }
  pub more : b.log.db ≡ a.log.db ++ bytes
  pub reports : (m : Map) → Reported a.silopit.hiraishin m → Reported filter m

pub note-Grows :
    (a indx : Index) (sk : Slice) (sv : Option Slice) (bytes : List ℕ)
    → Hiraishin.IsValid a.silopit.hiraishin
    → indx.silopit ≡ a.silopit
    → indx.log.db ≡ a.log.db ++ bytes
    → Grows a (note indx sk sv)
unfolding note
note-Grows a indx sk none bytes v e d = record {
  filter = a.silopit.hiraishin;
  bytes = bytes;
  same = e;
  more = d;
  reports = λ m r. r;
}
note-Grows a indx sk (some sv) bytes v e d = record {
  filter = Hiraishin.add a.silopit.hiraishin (some sk.bytes);
  bytes = bytes;
  same = ap (λ (s : Silopit). record s { hiraishin = Hiraishin.add s.hiraishin (some sk.bytes) }) e;
  more = d;
  reports = λ m r. Reported-keep a.silopit.hiraishin m sk.bytes v r;
}
