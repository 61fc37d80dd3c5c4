-- ===== src/Index/Readiness.antt =====
-- What must be for `_merge_job` of storage/src/index.c, with no file and with one.
use silokatana.Base.{
  false, ◌<◌, ℕ, ◌≡◌, ◌⊎◌, sym, List, some, inl, inr, subst, ◌∙◌, ◌≤◌, ◌^◌, ◌∷◌, [],
}
use silokatana.Silopit.{Silopit, IsFresh}
use silokatana.Index.Defs.{Index}
use silokatana.Jikukan.{SkipNode, lookup, Jikukan}
use silokatana.Base.{length, ap}
use silokatana.Hiraishin.{Hiraishin}
use silokatana.Silopit.{HasFile}
use silokatana.Meta.{MetaNode}
use silokatana.Jikukan.{cmp_lt}
use silokatana.Base.{◌*◌, ◌≤◌, ◌+◌}
use silokatana.Silopit.{SiloFile, file_of, silopit_max_count}
use silokatana.Index.Merges.{Mergeable}
use silokatana.Index.Joins.{Joinable}
use silokatana.Index.Maps.{Lists, Map}
use silokatana.Index.Notes.{Grows}
use silokatana.Index.Keeping.{Lists-node}

-- A table with no file, or with one.
abbrev pub Held : Silopit → ℕ → Type 0
Held s len = IsFresh s ⊎ HasFile s len

pub filter-Held :
    (s : Silopit) (f : Hiraishin) (len : ℕ) → Held s len → Held (record s { hiraishin = f }) len
filter-Held s f len (inl h) = inl (record { no_files = h.no_files; empty = h.empty })
filter-Held s f len (inr h) = inr (record {
  entry = h.entry;
  only = h.only;
  named = h.named;
  xs = h.xs;
  key = h.key;
  file = h.file;
  rising = h.rising;
  fits = h.fits;
  top = h.top;
  empty = h.empty;
})

pub Grows-Held : (a b : Index) (len : ℕ) → Grows a b → Held a.silopit len → Held b.silopit len
Grows-Held a b len g h = subst (λ t. Held t len) (sym g.same) (filter-Held a.silopit g.filter len h)

-- What must be for a merge: a parked table, a short value file, a list that fits one file together
-- with the file that is there, and no key of it behind the end of that file.
pub record Ready (indx : Index) (list : Jikukan) : Type 0 where
  pub parks : indx.park.list ≡ some list
  pub near : length indx.log.db < 2 ^ 31
  pub few : list.count ≤ silopit_max_count * 2
  pub joint :
      (e : MetaNode) (file : SiloFile)
      → indx.silopit.meta.nodes ≡ e ∷ []
      → indx.silopit.files e.index_name ≡ some file
      → file.footer.count + list.count ≤ silopit_max_count * 2
  pub inside :
      (e : MetaNode) (k : List ℕ) (node : SkipNode)
      → indx.silopit.meta.nodes ≡ e ∷ []
      → lookup list k ≡ some (some node)
      → cmp_lt e.end k ≡ false

pub Ready-Mergeable :
    (indx : Index) (list : Jikukan) → Ready indx list → IsFresh indx.silopit → Mergeable indx list
Ready-Mergeable indx list g f = record { parks = g.parks; no_file = f; near = g.near; few = g.few }

pub Ready-Joinable :
    (indx : Index) (list : Jikukan) (old : Map) (len : ℕ) (h : HasFile indx.silopit len)
    → Ready indx list
    → Lists indx.log.db list old
    → Joinable indx list old len h
Ready-Joinable indx list old len h g l = record {
  parks = g.parks;
  near = g.near;
  few = g.joint h.entry (file_of len h.key h.xs) h.only (ap indx.silopit.files h.named ∙ h.file);
  inside = λ k x there.
      let (node, found) = Lists-node indx.log.db list old k x l there in
      g.inside h.entry k node h.only found;
}
