-- ===== src/Index/Keeping.antt =====
-- Where an index has the last value of each key: in the memory table, in the parked one, or in the
-- files of offsets.
use silokatana.Base.{
  ℕ, ◌≡◌, ◌⊎◌, refl, sym, List, Option, none, some, Bool-cases, inl, inr, arith, subst, ◌∙◌, ◌≤◌,
}
use silokatana.Base.CStr.{str_eq}
use silokatana.Level.{Slice}
use silokatana.Silopit.{Silopit, IsFresh}
use silokatana.Index.Defs.{Index}
use silokatana.Index.Values.{StoredAt}
use silokatana.Jikukan.{SkipNode, Opt, Entry, entry, lookup, Jikukan, max_key_size}
use silokatana.Base.{length, ap}
use silokatana.Base.CStr.{c_str, str_eq_iff}
use silokatana.Index.Merges.{OfKeys}
use silokatana.Silopit.{entry-some}
use silokatana.Base.{◌≤◌}
use silokatana.Index.Joins.{overlay}
use silokatana.Index.Maps.{Says, Lists, Map, assign_other, assign, empty, Refines, Reported}
use silokatana.Index.Notes.{Grows}
use silokatana.Index.Disk.{OnDisk, Locates, OnDisk-append, fresh-OnDisk}
use silokatana.Index.Views.{Whole, above, behind}

pub Whole-Grows :
    (a b : Index) (m old m' old' disk : Map)
    → Whole a m old disk
    → Grows a b
    → Refines b m' old'
    → Whole b m' old' disk
Whole-Grows a b m old m' old' disk w g r = record {
  refines = r;
  files =
      subst (λ s. OnDisk b.log.db s disk) (sym g.same)
        (subst (λ d. OnDisk d (record a.silopit { hiraishin = g.filter }) disk) (sym g.more)
          (OnDisk-append a.log.db g.bytes a.silopit g.filter disk w.files));
  reported =
      subst (λ (s : Silopit). Reported s.hiraishin disk) (sym g.same) (g.reports disk w.reported);
}

-- Where the last value of a key is found.
abbrev pub Last :
    Option (Option (List ℕ)) → Option (Option (List ℕ)) → Option (Option (List ℕ)) → List ℕ → Type 0
Last x y z v =
    (x ≡ some (some v))
    ⊎ ((x ≡ none) × (y ≡ some (some v)))
    ⊎ ((x ≡ none) × (y ≡ none) × (z ≡ some (some v)))

abbrev pub Keeps : Map → Map → Map → Map → Type 0
Keeps m old disk all = (k v : List ℕ) → all k ≡ some (some v) → Last (m k) (old k) (disk k) v

pub assign-Keeps :
    (m old disk all : Map) (key : List ℕ) (x : Option (List ℕ))
    → Keeps m old disk all
    → Keeps (assign m key x) old disk (assign all key x)
assign-Keeps m old disk all key x h k v e = elim (Bool-cases (str_eq k key)) [
  | inl same ↦ inl (ground (arith, e, same))
  | inr other ↦
      let before : all k ≡ some (some v) = ground (arith, e, other) in
      subst (λ y. Last y (old k) (disk k) v) (sym (assign_other m key x k other)) (h k v before)
]

-- The map of the memory table moves on where nothing was parked.
pub rotate-Keeps :
    (m old disk all : Map)
    → ((k : List ℕ) → old k ≡ none)
    → Keeps m old disk all
    → Keeps empty m disk all
rotate-Keeps m old disk all unused h k v e = elim (h k v e) [
  | inl there ↦ inr (inl (refl, there))
  | inr (inl (_, there)) ↦ absurd (ground (arith, there, unused k))
  | inr (inr (absent, _, there)) ↦ inr (inr (refl, absent, there))
]

-- The map of the parked table moves on where no file was there.
pub merge-Keeps :
    (m old disk all : Map)
    → ((k v : List ℕ) → ¬ (disk k ≡ some (some v)))
    → Keeps m old disk all
    → Keeps m empty old all
merge-Keeps m old disk all unused h k v e = elim (h k v e) [
  | inl there ↦ inl there
  | inr (inl (absent, there)) ↦ inr (inr (absent, refl, there))
  | inr (inr (_, _, there)) ↦ absurd (unused k v there)
]

pub Last-view :
    (x y z : Option (Option (List ℕ))) (v : List ℕ) → Last x y z v → above x (behind y z) ≡ some v
Last-view x y z v h = ground arith

pub fresh_unused :
    (db : List ℕ) (s : Silopit) (disk : Map)
    → IsFresh s
    → OnDisk db s disk
    → (k v : List ℕ) → ¬ (disk k ≡ some (some v))
fresh_unused db s disk f d k v e =
    let sk : Slice = record { bytes = k; len = 0 } in
    let (off, run, at) = d sk in
    let (z, run', is) = fresh-OnDisk db s f sk in
    let stored : StoredAt db off v = subst (λ x. Locates db off x) e at in
    let same : off ≡ z = ground (arith, run, run') in omega (arith, stored.later, same, is)

pub assign-OfKeys :
    (len : ℕ) (m : Map) (key : List ℕ) (x : Option (List ℕ))
    → OfKeys len m
    → length (c_str key) ≤ max_key_size
    → ((v : List ℕ) → x ≡ some v → length (c_str key) ≡ len)
    → OfKeys len (assign m key x)
assign-OfKeys len m key x h fit one k y e = elim (Bool-cases (str_eq k key)) [
  | inl same ↦
      let is : x ≡ y = ground (arith, e, same) in
      let bytes : length (c_str key) ≡ length (c_str k) =
        ap length (sym ((str_eq_iff k key).0 same)) in
      (omega (arith, fit, bytes), λ v f. sym bytes ∙ one v (is ∙ f))
  | inr other ↦ h k y (sym (assign_other m key x k other) ∙ e)
]

pub empty-OfKeys : (len : ℕ) → OfKeys len empty
empty-OfKeys len k x e = absurd (ground (arith, e))

-- An addition in the list has a value in the map.
addition_value :
    (db : List ℕ) (e : Option Entry) (off : ℕ) (x : Option (Option (List ℕ)))
    → e ≡ some (off, Opt.add)
    → Says db e x
    → (v : List ℕ) × (x ≡ some (some v))
addition_value db none off x is s = absurd (ground (arith, is))
addition_value db (some (o, Opt.del)) off x is s = absurd (ground (arith, is))
addition_value db (some (o, Opt.add)) off none is s = absurd s
addition_value db (some (o, Opt.add)) off (some none) is s = absurd s
addition_value db (some (o, Opt.add)) off (some (some v)) is s = (v, refl)

pub Lists-value :
    (db : List ℕ) (list : Jikukan) (m : Map) (k : List ℕ) (node : SkipNode)
    → Lists db list m
    → lookup list k ≡ some (some node)
    → node.opt ≡ Opt.add
    → (v : List ℕ) × (m k ≡ some (some v))
Lists-value db list m k node l there add =
    let (o, run, is) = l.refines.finds k in
    let found : o ≡ some node = ground (arith, run, there) in
    let entered : l.table k ≡ some (node.val, Opt.add) =
      sym is ∙ ap entry found ∙ ap (λ opt. some (node.val, opt)) add in
    addition_value db (l.table k) node.val (m k) entered (l.says k)

said_entry :
    (db : List ℕ) (e : Option Entry) (x : Option (List ℕ))
    → Says db e (some x)
    → (y : Entry) × (e ≡ some y)
said_entry db none x s = absurd s
said_entry db (some y) x s = (y, refl)

-- A key that the map has is in the list.
pub Lists-node :
    (db : List ℕ) (list : Jikukan) (m : Map) (k : List ℕ) (x : Option (List ℕ))
    → Lists db list m
    → m k ≡ some x
    → (node : SkipNode) × (lookup list k ≡ some (some node))
Lists-node db list m k x l there =
    let (e, entered) =
      said_entry db (l.table k) x (subst (λ y. Says db (l.table k) y) there (l.says k)) in
    let (o, run, is) = l.refines.finds k in
    let (node, has) = entry-some o e (is ∙ entered) in (node, run ∙ ap some has)

pub join-Keeps :
    (m old disk all : Map) → Keeps m old disk all → Keeps m empty (overlay old disk) all
join-Keeps m old disk all h k v e = elim (h k v e) [
  | inl there ↦ inl there
  | inr (inl (absent, there)) ↦ inr (inr (absent, refl, rw there refl))
  | inr (inr (absent, gone, there)) ↦ inr (inr (absent, refl, rw (gone, there) refl))
]
