-- ===== src/Jikukan/Maps.antt =====
-- The skip list as a map from keys to what was last entered for them.
use silokatana.Base.{
  refl, arith, ap, ◌∙◌, sym, ℕ, ◌<◌, ◌≡◌, Option, none, some, inl, inr, arith, List, Bool-cases,
  true, false, if◌then◌else◌,
}
use silokatana.Base.CStr.{str_eq, str_eq_iff}
use silokatana.Jikukan.Defs.{SkipNode, Opt, Jikukan, lookup, new}
use silokatana.Jikukan.Keys.{cmp_lt-congr_left, cmp_lt-congr_right, cmp_lt_irrefl}
use silokatana.Jikukan.Valid.{IsValid, new-IsValid}
use silokatana.Jikukan.Lookup.{Absent, Found, lookup-cases}

abbrev pub Entry : Type 0
Entry = ℕ × Opt

-- What a node says of its key.
abbrev pub entry : Option SkipNode → Option Entry
entry none = none
entry (some n) = some (n.val, n.opt)

abbrev pub put : (List ℕ → Option Entry) → List ℕ → Entry → List ℕ → Option Entry
put m key e k = if str_eq k key then some e else m k

-- A valid list, whose lookups do not fault and find what the map says.
pub record Refines (list : Jikukan) (m : List ℕ → Option Entry) : Type 0 where
  pub valid : IsValid list
  pub finds : (k : List ℕ) → (o : Option SkipNode) × (lookup list k ≡ some o) × (entry o ≡ m k)

module _ (list : Jikukan) (v : IsValid list) (k : List ℕ) where
  not_less : (a b : Found list k) → ¬ (v.rank a.at < v.rank b.at)
  not_less a b lt =
      let o = v.ordered a.at b.at a.node b.node a.there b.there lt in
      let left = cmp_lt-congr_left a.node.key k b.node.key ((str_eq_iff a.node.key k).0 a.same) in
      let right = cmp_lt-congr_right b.node.key k k ((str_eq_iff b.node.key k).0 b.same) in
      ground (arith, left, right, o, cmp_lt_irrefl k)

  -- Two nodes with one key are one.
  pub Found_once : (a b : Found list k) → a.node ≡ b.node
  Found_once a b =
      let e : a.at ≡ b.at =
        v.once a.at b.at (record { node = a.node; there = a.there })
          (record { node = b.node; there = b.there }) (omega (arith, not_less a b, not_less b a)) in
      ground (arith, ap list.nodes e, a.there, b.there)

  pub lookup-Found : (f : Found list k) → lookup list k ≡ some (some f.node)
  lookup-Found f = elim (lookup-cases list v k) [
    | inl (g, e) ↦ e ∙ ap (λ n. some (some n)) (Found_once g f)
    | inr (absent, _) ↦ absurd (cc (absent f.at f.node f.there, f.same))
  ]

  pub lookup-Absent : Absent list k → lookup list k ≡ some none
  lookup-Absent absent = elim (lookup-cases list v k) [
    | inl (g, e) ↦ absurd (cc (absent g.at g.node g.there, g.same))
    | inr (_, e) ↦ e
  ]

-- What an insertion changes: the key has the entry, and every other key has the node that it had.
pub record Enters (a b : Jikukan) (key : List ℕ) (e : Entry) : Type 0 where
  pub found : Found b key
  pub is_entry : entry (some found.node) ≡ some e
  pub keeps :
      (k : List ℕ) → str_eq k key ≡ false → (f : Found a k) → (g : Found b k) × (g.node ≡ f.node)
  pub adds : (k : List ℕ) → str_eq k key ≡ false → Absent a k → Absent b k

pub str_eq_sym : (a b : List ℕ) → str_eq a b ≡ true → str_eq b a ≡ true
str_eq_sym a b h = (str_eq_iff b a).1 (sym ((str_eq_iff a b).0 h))

pub str_eq_trans : (a b c : List ℕ) → str_eq a b ≡ true → str_eq b c ≡ true → str_eq a c ≡ true
str_eq_trans a b c h k = (str_eq_iff a c).1 ((str_eq_iff a b).0 h ∙ (str_eq_iff b c).0 k)

pub Enters-Refines :
    (a b : Jikukan) (m : List ℕ → Option Entry) (key : List ℕ) (e : Entry)
    → Refines a m
    → IsValid b
    → Enters a b key e
    → Refines b (put m key e)
Enters-Refines a b m key e r w c = record {
  valid = w;
  finds = λ k. elim (Bool-cases (str_eq k key)) [
    | inl same ↦
        let f : Found b k = record {
          at = c.found.at;
          node = c.found.node;
          there = c.found.there;
          same = str_eq_trans c.found.node.key key k c.found.same (str_eq_sym k key same);
        } in
        (some f.node, lookup-Found b w k f, rw same c.is_entry)
    | inr other ↦
        let (o, run, is) = r.finds k in
        elim (lookup-cases a r.valid k) [
          | inl (f, old) ↦
              let (g, kept) = c.keeps k other f in
              let before : some f.node ≡ o = cc (old, run) in
              (
                some g.node,
                lookup-Found b w k g,
                rw other (ap (λ n. entry (some n)) kept ∙ ap entry before ∙ is),
              )
          | inr (absent, old) ↦
              let before : none ≡ o = cc (old, run) in
              (none, lookup-Absent b w k (c.adds k other absent), rw other (ap entry before ∙ is))
        ]
  ];
}

-- A new list says nothing of any key.
pub new-Refines : (size : ℕ) → Refines (new size) (λ k. none)
unfolding new
new-Refines size = record {
  valid = new-IsValid size;
  finds = λ k. (
    none,
    lookup-Absent (new size) (new-IsValid size) k (λ p n e. absurd (ground (arith, e))),
    refl,
  );
}
