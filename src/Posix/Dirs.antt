-- ===== src/Posix/Dirs.antt =====
-- Directories of the file system behind their laws.
use distributed_systems_afsv.Base.{
  ℕ, ◌≡◌, refl, ◌∙◌, true, none, some, arith, Bytes, equal, equal_refl, equal_iff, if◌then◌else◌,
}
use distributed_systems_afsv.Base.Dict
use distributed_systems_afsv.Posix
use distributed_systems_afsv.Posix.{Fs, find, make, eexist}
use distributed_systems_afsv.Posix.Laws.{IsFs}

pub mkdir_new :
    (path now : Bytes) (fs : Fs)
    → find path fs ≡ none
    → Posix.mkdir none path now fs ≡ (0, make true path now fs)
unfolding Posix.mkdir
mkdir_new path now fs missing = rw (Posix.mkdir, missing) refl

pub mkdir_there :
    (path now : Bytes) (i : ℕ) (fs : Fs)
    → find path fs ≡ some i
    → Posix.mkdir none path now fs ≡ (eexist, fs)
unfolding Posix.mkdir
mkdir_there path now i fs there = rw (Posix.mkdir, there) refl

pub rmdir_there :
    (path : Bytes) (i : ℕ) (fs : Fs)
    → find path fs ≡ some i
    → (fs.inodes i).is_dir ≡ true
    → Posix.rmdir none path fs ≡ (0, record fs { names = Dict.erase path fs.names })
unfolding Posix.rmdir
rmdir_there path i fs there dir = rw (Posix.rmdir, there, dir) refl

pub make-find :
    (path now : Bytes) (fs : Fs)
    → (find path (make true path now fs) ≡ some fs.next)
      × (((make true path now fs).inodes fs.next).is_dir ≡ true)
make-find path now fs =
    (Dict.lookup-insert path path fs.next fs.names ∙ rw (equal_refl path) refl, ground arith)

make-find_ne :
    (path now q : Bytes) (fs : Fs)
    → find q (make true path now fs) ≡ (if equal path q then some fs.next else find q fs)
make-find_ne path now q fs = Dict.lookup-insert path q fs.next fs.names

pub make-IsFs : (path now : Bytes) (fs : Fs) → IsFs fs → IsFs (make true path now fs)
make-IsFs path now fs w = record {
  below = λ q i h. ground (arith, make-find_ne path now q fs, h, w.below q i);
  alone = λ p q i h k. ground (
    arith,
    make-find_ne path now p fs,
    make-find_ne path now q fs,
    h,
    k,
    w.alone p q i,
    w.below p i,
    w.below q i,
    equal_iff path p,
    equal_iff path q,
  );
}

-- A name that is there keeps its inode, and the inode what is in it.
pub record Keeps (fs gs : Fs) : Type 0 where
  pub name : (q : Bytes) (i : ℕ) → find q fs ≡ some i → find q gs ≡ some i
  pub inode : (q : Bytes) (i : ℕ) → find q fs ≡ some i → gs.inodes i ≡ fs.inodes i

pub Keeps-refl : (fs : Fs) → Keeps fs fs
Keeps-refl fs = record { name = λ q i h. h; inode = λ q i h. refl }

pub Keeps-trans : {fs gs hs : Fs} → Keeps fs gs → Keeps gs hs → Keeps fs hs
Keeps-trans a b = record {
  name = λ q i h. b.name q i (a.name q i h);
  inode = λ q i h. b.inode q i (a.name q i h) ∙ a.inode q i h;
}

pub make-Keeps :
    (path now : Bytes) (fs : Fs) → IsFs fs → find path fs ≡ none → Keeps fs (make true path now fs)
make-Keeps path now fs w missing = record {
  name = λ q i h. ground (arith, make-find_ne path now q fs, equal_iff path q, missing, h);
  inode = λ q i h. ground (arith, w.below q i h);
}
