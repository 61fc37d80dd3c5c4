-- ===== src/Index/Adds.antt =====
-- What `index_add` does to the maps of the index.
use silokatana.Base.{
  ℕ, ◌+◌, ◌^◌, ◌<◌, ◌≤◌, ◌≡◌, refl, sym, List, ◌++◌, Option, none, some, Bool, true, false, length,
  arith, subst, ltb, le→ltb, lt→ltb,
}
use silokatana.Base.CStr.{c_str}
use silokatana.Jikukan.{Jikukan, Opt, put, Entry, max_key_size, notfull}
use silokatana.Jikukan
use silokatana.Level.{Slice}
use silokatana.Log.{
  payload, length-payload, Log, IsOpen, Fits, Fitting, value_bytes, append-Written,
}
use silokatana.Log
use silokatana.Index.Defs.{Index, note, add, opt_for}
use silokatana.Index.Maps.{Map, assign, empty, Says, Refines, Says-assign}
use silokatana.Base.{◌∙◌}
use silokatana.Index.Notes.{
  contents, Says-opt_for, note-Refines, logged-Refines, rotate-Refines, Grows, note-Grows,
}

note_park : (indx : Index) (sk : Slice) (sv : Option Slice) → (note indx sk sv).park ≡ indx.park
unfolding note
note_park indx sk none = refl
note_park indx sk (some sv) = refl

module _ (write : List ℕ → List ℕ → Option (List ℕ)) (coin : ℕ → Bool)
    (appends : (file bytes : List ℕ) → write file bytes ≡ some (file ++ bytes)) (indx : Index)
    (m old : Map) (sk : Slice) (sv : Option Slice) where
  -- The insertion and the note behind it, in an index whose log has the value at an offset.
  insert-Refines_lem :
      (ready : Index) (n o : Map) (off : ℕ)
      → Refines ready n o
      → Says ready.log.db (some (off, opt_for sv)) (some (contents sv))
      → ready.list.count < ready.list.size
      → length (c_str sk.bytes) ≤ max_key_size
      → (list' : Jikukan) × (Jikukan.insert coin ready.list sk.bytes off (opt_for sv)
          ≡ some (1, list'))
        × Refines (note (record ready { list = list' }) sk sv) (assign n sk.bytes (contents sv)) o
  insert-Refines_lem ready n o off r now room fits =
      let l = r.lists in
      let (list', run, ref, size, count) =
        Jikukan.insert-Refines coin ready.list l.table sk.bytes off (opt_for sv) l.refines room
          fits in
      (
        list',
        run,
        note-Refines ready n o sk sv list' r (record {
          table = put l.table sk.bytes (off, opt_for sv);
          refines = ref;
          says =
              Says-assign ready.log.db l.table n sk.bytes (off, opt_for sv) (contents sv) l.says
                now;
        }),
      )

  module _ (r : Refines indx m old) (key : Fits sk) (val : Fitting sv)
      (fits : length (c_str sk.bytes) ≤ max_key_size)
      (space : length indx.log.db + length (value_bytes sv) < 2 ^ 63) where
    logged_lem :
        (l : Log) × (Log.append write indx.log sk sv ≡ some (length indx.log.db, l))
        × Refines (record indx { log = l }) m old
        × (l.db ≡ indx.log.db ++ value_bytes sv)
        × Says l.db (some (length indx.log.db, opt_for sv)) (some (contents sv))
    logged_lem =
        let (l, run, (wrote, grew, open_)) =
          append-Written write appends indx.log sk sv r.log key val (omega (arith, space)) in
        (
          l,
          run,
          logged-Refines indx m old l (value_bytes sv) r open_ grew,
          grew,
          subst (λ d. Says d (some (length indx.log.db, opt_for sv)) (some (contents sv)))
              (sym grew) (Says-opt_for indx.log.db sv val r.begun (omega (arith, space))),
        )

    pub add_room :
        indx.list.count < indx.list.size
        → (indx' : Index) × (add write coin indx sk sv ≡ some (1, indx'))
          × Refines indx' (assign m sk.bytes (contents sv)) old
          × Grows indx indx'
          × (indx'.park ≡ indx.park)
    unfolding add notfull note
    add_room room =
        let (l, run, ready, grew, now) = logged_lem in
        let open_ : ltb indx.list.count indx.list.size ≡ true =
          lt→ltb indx.list.count indx.list.size room in
        let (list', ran, done) =
          insert-Refines_lem (record indx { log = l }) m old (length indx.log.db) ready now room
            fits in
        let next = record indx { log = l; list = list' } in
        (
          note next sk sv,
          rw (run, open_, ran) refl,
          done,
          note-Grows indx next sk sv (value_bytes sv) r.filter refl grew,
          note_park next sk sv,
        )

    pub add_full :
        indx.list.size ≤ indx.list.count
        → (indx' : Index) × (add write coin indx sk sv ≡ some (1, indx'))
          × Refines indx' (assign empty sk.bytes (contents sv)) m
          × Grows indx indx'
    unfolding add notfull Jikukan.new
    add_full full =
        let (l, run, logged, grew, now) = logged_lem in
        let shut : ltb indx.list.count indx.list.size ≡ false =
          le→ltb indx.list.count indx.list.size full in
        let (turned, rotated, ready, fresh, same, files) =
          rotate-Refines (record indx { log = l }) m old logged in
        let (list', ran, done) =
          insert-Refines_lem turned empty m (length indx.log.db) ready
            (subst (λ d. Says d (some (length indx.log.db, opt_for sv)) (some (contents sv)))
              (sym same) now)
            (rw fresh r.tables) fits in
        let next = record turned { list = list' } in
        (
          note next sk sv,
          rw (run, shut, rotated, ran) refl,
          done,
          note-Grows indx next sk sv (value_bytes sv) r.filter files (same ∙ grew),
        )

    -- While the memory table is not full, a write writes everything, and the key and the value fit,
    -- `index_add` does not fault and returns 1: the key is assigned the value, or is deleted, in the
    -- map of the memory table, and the map of the parked table is as it was.
    pub add-Refines :
        indx.list.count < indx.list.size
        → (indx' : Index) × (add write coin indx sk sv ≡ some (1, indx'))
          × Refines indx' (assign m sk.bytes (contents sv)) old
    add-Refines room = let (next, run, done, _, _) = add_room room in (next, run, done)

    -- When the memory table is full, a write writes everything, and the key and the value fit,
    -- `index_add` does not fault and returns 1: the table is parked over what was parked before, and
    -- the new one has the key only.
    pub add-Refines_full :
        indx.list.size ≤ indx.list.count
        → (indx' : Index) × (add write coin indx sk sv ≡ some (1, indx'))
          × Refines indx' (assign empty sk.bytes (contents sv)) m
    add-Refines_full full = let (next, run, done, _) = add_full full in (next, run, done)
