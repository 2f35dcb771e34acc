-- ===== src/Posix/Same.antt =====
-- A name that a call leaves alone: it keeps its inode, and the inode its content and time.
use distributed_systems_afsv.Base.{
  ℕ, ◌≡◌, refl, ◌∙◌, Option, none, some, arith, Bytes, Option-cases, inl, inr, equal_refl,
  Bool-cases,
}
use distributed_systems_afsv.Base.Dict
use distributed_systems_afsv.Posix.{Fs, find, read_file, mtime_of, unlink}
use distributed_systems_afsv.Posix.Laws.{IsFs}

pub record Same (path : Bytes) (fs gs : Fs) : Type 0 where
  pub name : find path gs ≡ find path fs
  pub inode : (j : ℕ) → find path fs ≡ some j → gs.inodes j ≡ fs.inodes j

pub Same-refl : (path : Bytes) (fs : Fs) → Same path fs fs
Same-refl path fs = record { name = refl; inode = λ j h. refl }

pub Same-read_file :
    (path : Bytes) (fs gs : Fs) → Same path fs gs → read_file path gs ≡ read_file path fs
unfolding read_file
Same-read_file path fs gs h = elim (Option-cases (find path fs)) [
  | inl missing ↦ ground (arith, h.name, missing)
  | inr (j, found) ↦ ground (arith, h.name, found, h.inode j found)
]

pub Same-mtime_of :
    (path : Bytes) (fs gs : Fs) → Same path fs gs → mtime_of path gs ≡ mtime_of path fs
unfolding mtime_of
Same-mtime_of path fs gs h = elim (Option-cases (find path fs)) [
  | inl missing ↦ ground (arith, h.name, missing)
  | inr (j, found) ↦ ground (arith, h.name, found, h.inode j found)
]

erase-IsFs :
    (path : Bytes) (fs : Fs) → IsFs fs → IsFs (record fs { names = Dict.erase path fs.names })
erase-IsFs path fs w = record {
  below = λ q i h. ground (arith, Dict.lookup-erase path q fs.names, h, w.below q i);
  alone = λ p q i h k. ground (
    arith,
    Dict.lookup-erase path p fs.names,
    Dict.lookup-erase path q fs.names,
    h,
    k,
    w.alone p q i,
  );
}

-- `unlink` leaves the file system as it was, or takes the name away.
pub data Unlinked (path : Bytes) (fs gs : Fs) : Type 0 where
  refused : gs ≡ fs → Unlinked path fs gs
  gone : find path gs ≡ none → IsFs gs → Unlinked path fs gs

pub unlink-Unlinked :
    (kernel : Option ℕ) (path : Bytes) (fs : Fs)
    → IsFs fs
    → Unlinked path fs (unlink kernel path fs).1
unfolding unlink
unlink-Unlinked (some errno) path fs w = refused refl
unlink-Unlinked none path fs w = elim (Option-cases (find path fs)) [
  | inl missing ↦ refused (ground (arith, missing))
  | inr (i, found) ↦ elim (Bool-cases (fs.inodes i).is_dir) [
    | inl dir ↦ refused (ground (arith, found, dir))
    | inr file ↦
        rw (unlink, found, file)
          (gone (Dict.lookup-erase path path fs.names ∙ rw (equal_refl path) refl)
            (erase-IsFs path fs w))
  ]
]
