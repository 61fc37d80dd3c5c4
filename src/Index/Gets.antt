-- ===== src/Index/Gets.antt =====
-- What `index_get` of storage/src/index.c finds in the two tables of the index.
use silokatana.Base.{
  ℕ, ◌+◌, ◌%◌, ◌^◌, ◌≡◌, ◌⊎◌, refl, ap, sym, ◌∙◌, List, Option, none, some, Bool-cases, false, inl,
  inr, ◌==◌, arith, subst,
}
use silokatana.Hiraishin
use silokatana.Jikukan.{Jikukan, Opt, SkipNode, Entry, entry, lookup}
use silokatana.Level.{Slice}
use silokatana.Index.Defs.{Index, Got, missing, deleted, value, get, find, fetch, parked}
use silokatana.Index.Values.{StoredAt, slice_value, read_value-StoredAt}
use silokatana.Index.Maps.{Map, Says, Lists, Parks, Refines}

-- The answer for a key that has a value, and for one that is deleted.
abbrev pub Tells : Option (List ℕ) → Got → Type 0
Tells (some v) got = got ≡ value (slice_value v)
Tells none got = (got ≡ missing) ⊎ (got ≡ deleted)

-- The list of a map finds a node for each key that has a value, and for each that is deleted.
pub record FindsValue (db : List ℕ) (list : Jikukan) (k v : List ℕ) : Type 0 where
  pub node : SkipNode
  pub run : lookup list k ≡ some (some node)
  pub opt : node.opt ≡ Opt.add
  pub stored : StoredAt db node.val v

pub record FindsDeleted (list : Jikukan) (k : List ℕ) : Type 0 where
  pub node : SkipNode
  pub run : lookup list k ≡ some (some node)
  pub opt : node.opt ≡ Opt.del

FindsValue-cases :
    (db : List ℕ) (list : Jikukan) (k v : List ℕ) (o : Option SkipNode) (e : Option Entry)
    → lookup list k ≡ some o
    → entry o ≡ e
    → Says db e (some (some v))
    → FindsValue db list k v
FindsValue-cases db list k v o none run is s = absurd s
FindsValue-cases db list k v none (some (off, Opt.add)) run is s = absurd (ground (arith, is))
FindsValue-cases db list k v (some n) (some (off, Opt.add)) run is s =
    let val : n.val ≡ off = ground (arith, is) in
    record {
      node = n;
      run = run;
      opt = ground (arith, is);
      stored = subst (λ a. StoredAt db a v) (sym val) s;
    }
FindsValue-cases db list k v o (some (off, Opt.del)) run is s = absurd s

FindsDeleted-cases :
    (db : List ℕ) (list : Jikukan) (k : List ℕ) (o : Option SkipNode) (e : Option Entry)
    → lookup list k ≡ some o
    → entry o ≡ e
    → Says db e (some none)
    → FindsDeleted list k
FindsDeleted-cases db list k o none run is s = absurd s
FindsDeleted-cases db list k o (some (off, Opt.add)) run is s = absurd s
FindsDeleted-cases db list k none (some (off, Opt.del)) run is s = absurd (ground (arith, is))
FindsDeleted-cases db list k (some n) (some (off, Opt.del)) run is s = record {
  node = n;
  run = run;
  opt = ground (arith, is);
}

finds_none :
    (db : List ℕ) (o : Option SkipNode) (e : Option Entry) → entry o ≡ e → Says db e none → o ≡ none
finds_none db none e is s = refl
finds_none db (some n) none is s = absurd (ground (arith, is))
finds_none db (some n) (some e) is s = absurd s

module _ (db : List ℕ) (list : Jikukan) (m : Map) (l : Lists db list m) (k : List ℕ) where
  Says-as : (x : Option (Option (List ℕ))) → m k ≡ x → Says db (l.table k) x
  Says-as x h = subst (λ y. Says db (l.table k) y) h (l.says k)

  pub Lists-FindsValue : (v : List ℕ) → m k ≡ some (some v) → FindsValue db list k v
  Lists-FindsValue v h =
      let (o, run, is) = l.refines.finds k in
      FindsValue-cases db list k v o (l.table k) run is (Says-as (some (some v)) h)

  pub Lists-FindsDeleted : m k ≡ some none → FindsDeleted list k
  Lists-FindsDeleted h =
      let (o, run, is) = l.refines.finds k in
      FindsDeleted-cases db list k o (l.table k) run is (Says-as (some none) h)

  pub Lists-none : m k ≡ none → lookup list k ≡ some none
  Lists-none h =
      let (o, run, is) = l.refines.finds k in
      run ∙ ap some (finds_none db o (l.table k) is (Says-as none h))

pub fetch-StoredAt :
    (indx : Index) (sk : Slice) (off : ℕ) (v : List ℕ)
    → StoredAt indx.log.db off v
    → fetch indx sk off ≡ some (value (slice_value v), indx)
unfolding fetch
fetch-StoredAt indx sk off v s =
    let e : (off == 0) ≡ false = ground (arith, s.later) in
    rw (e, read_value-StoredAt indx.log.db off v s, e) refl

-- The index with one more hit of its filter.
abbrev pub hit : Index → Index
hit indx = record indx { hiraishin_hits = (indx.hiraishin_hits + 1) % 2 ^ 64 }

module _ (indx : Index) (m old : Map) (sk : Slice) (r : Refines indx m old) where
  reported_run :
      Hiraishin.get indx.silopit.hiraishin (some sk.bytes) ≡ 1 → get indx sk ≡ find (hit indx) sk
  unfolding get
  reported_run e = rw e refl

  pub hit-Refines : Refines (hit indx) m old
  hit-Refines = record {
    log = r.log;
    begun = r.begun;
    filter = r.filter;
    funcs = r.funcs;
    reported = r.reported;
    reported_old = r.reported_old;
    lists = r.lists;
    parks = r.parks;
    tables = r.tables;
  }

  get_value :
      (v : List ℕ)
      → m sk.bytes ≡ some (some v)
      → get indx sk ≡ some (value (slice_value v), hit indx)
  unfolding find
  get_value v h =
      let f = Lists-FindsValue indx.log.db indx.list m r.lists sk.bytes v h in
      reported_run (r.reported sk.bytes v h)
      ∙ rw (find, f.run, f.opt, fetch-StoredAt (hit indx) sk f.node.val v f.stored) refl

  get_deleted :
      m sk.bytes ≡ some none
      → (got : Got) × (indx' : Index) × (get indx sk ≡ some (got, indx'))
        × Tells none got
        × Refines indx' m old
  unfolding get find
  get_deleted h =
      let f = Lists-FindsDeleted indx.log.db indx.list m r.lists sk.bytes h in
      elim (Bool-cases (Hiraishin.get indx.silopit.hiraishin (some sk.bytes) == 0)) [
        | inl e ↦ (missing, indx, rw e refl, inl refl, r)
        | inr e ↦ (deleted, hit indx, rw (e, find, f.run, f.opt) refl, inr refl, hit-Refines)
      ]

  -- For a key that the map of the memory table has, `index_get` does not fault, and changes neither
  -- map: it returns 1 and the value with its length, or, if the key is deleted, 0 or -1.
  pub get-Refines :
      (x : Option (List ℕ))
      → m sk.bytes ≡ some x
      → (got : Got) × (indx' : Index) × (get indx sk ≡ some (got, indx'))
        × Tells x got
        × Refines indx' m old
  get-Refines none h = get_deleted h
  get-Refines (some v) h = (value (slice_value v), hit indx, get_value v h, refl, hit-Refines)

  pub parked-StoredAt :
      (park : Option Jikukan) (v : List ℕ)
      → Parks indx.log.db park old
      → old sk.bytes ≡ some (some v)
      → (off : ℕ) × (parked park sk ≡ some off) × StoredAt indx.log.db off v
  unfolding parked
  parked-StoredAt none v p h = absurd (ground (arith, p sk.bytes, h))
  parked-StoredAt (some list) v p h =
      let f = Lists-FindsValue indx.log.db list old p sk.bytes v h in
      (f.node.val, rw (parked, f.run, f.opt) refl, f.stored)

  -- For a key that the memory table does not have and that has a value in the parked one, `index_get`
  -- does not fault, returns 1 and that value with its length, and changes neither map.
  pub get-parked :
      (v : List ℕ)
      → m sk.bytes ≡ none
      → old sk.bytes ≡ some (some v)
      → (indx' : Index) × (get indx sk ≡ some (value (slice_value v), indx')) × Refines indx' m old
  unfolding find
  get-parked v h there =
      let run = Lists-none indx.log.db indx.list m r.lists sk.bytes h in
      let (off, has, s) = parked-StoredAt indx.park.list v r.parks there in
      (
        hit indx,
        reported_run (r.reported_old sk.bytes v there)
            ∙ rw (find, run, has, fetch-StoredAt (hit indx) sk off v s) refl,
        hit-Refines,
      )
