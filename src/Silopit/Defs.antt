-- ===== src/Silopit/Defs.antt =====
-- The state of storage/src/silopit.c and its operations on one file. A file is opened under the string
-- of its name, and `none` is a fault or the exit of __PANIC.
use silokatana.Base.{
  length, ℕ, zero, suc, ◌+◌, ◌*◌, Bool, true, false, Option, none, some, List, [], ◌∷◌, ◌++◌, ◌>>=◌,
  leb, ◌==◌, if◌then◌else◌, get_elem?,
}
use silokatana.Base.CStr.{str_eq}
use silokatana.Buffer.{Buffer}
use silokatana.Buffer
use silokatana.Hiraishin.{Hiraishin}
use silokatana.Hiraishin
use silokatana.Jikukan.{SkipNode}
use silokatana.Level.{Slice}
use silokatana.Meta.{Meta, MetaNode}
use silokatana.Meta
use silokatana.Response.{decimal}
use silokatana.Silopit.Files.{SiloFile, f_crc, make_file, block_key, read_offset}

abbrev pub Directory : Type 0
Directory = List ℕ → Option SiloFile

pub record Silopit : Type 0 where
  pub name : List ℕ
  pub meta : Meta
  pub hiraishin : Hiraishin
  pub buf : Buffer
  pub files : Directory

abbrev pub update_file : Directory → List ℕ → SiloFile → Directory
update_file files name file n = if str_eq n name then some file else files n

-- "%d.silopit"
unfoldable pub silo_name : ℕ → List ℕ
silo_name n = decimal n ++ b'.' ∷ b's' ∷ b'i' ∷ b'l' ∷ b'o' ∷ b'p' ∷ b'i' ∷ b't' ∷ []

-- `_write_mmap`, with the nodes behind those that it has written.
unfoldable pub write_mmap :
    ℕ → Silopit → List SkipNode → ℕ → Bool → Option (Silopit × List SkipNode)
write_mmap stale s x count need_new = do
  (file, last, buf, rest) ← make_file stale s.buf x count
  let mn : MetaNode = record {
    end = last.key;
    index_name = s.name;
    count = file.footer.count;
    lsn = 0;
  }
  meta ← if need_new then Meta.set s.meta mn else some (Meta.set_byname s.meta mn)
  some (record s { meta = meta; buf = buf; files = update_file s.files s.name file }, rest)

-- `_add_hiraishin`, from block `i` on.
unfoldable pub add_hiraishin : SiloFile → ℕ → ℕ → Hiraishin → Option Hiraishin
add_hiraishin file zero i h = some h
add_hiraishin file (suc n) i h =
    if leb ((i + 1) * (file.footer.max_len + 8)) (length file.blks)
    then add_hiraishin file n (i + 1) (Hiraishin.add h (some (block_key file i)))
    else none

-- The loop of `_silopit_load` over the files of the directory whose names have ".silopit".
unfoldable pub load : List (List ℕ × SiloFile) → Silopit → Option Silopit
unfolding add_hiraishin
load [] s = some s
load ((name, file) ∷ dir) s = elim (file.footer.crc == f_crc) [
  | false ↦ none
  | true ↦ elim (file.footer.count == 0) [
    | true ↦ load dir s
    | false ↦ do
      h ← add_hiraishin file file.footer.count 0 s.hiraishin
      meta ←
          Meta.set s.meta (record {
            end = file.footer.key;
            index_name = name;
            count = file.footer.count;
            lsn = 0;
          })
      load dir (record s { hiraishin = h; meta = meta })
  ]
]

unfoldable pub new : Directory → List (List ℕ × SiloFile) → Option Silopit
unfolding load
new files dir = load dir (record {
  name = [];
  meta = Meta.new;
  hiraishin = Hiraishin.new;
  buf = Buffer.new (1024 * 1024 * 4);
  files = files;
})

-- What `silopit_getoff` does with the entry at an index; the name is kept.
unfoldable pub getoff_at : Silopit → Slice → ℕ → Option (ℕ × Silopit)
getoff_at s sk i = do
  mn ← get_elem? s.meta.nodes i
  off ← read_offset (s.files mn.index_name) sk.bytes
  some (off, record s { name = mn.index_name })

-- 0 stands for no offset.
unfoldable pub getoff : Silopit → Slice → Option (ℕ × Silopit)
unfolding getoff_at
getoff s sk = do
  found ← Meta.get s.meta sk.bytes
  elim found [ none ↦ some (0, s) | some i ↦ getoff_at s sk i ]
