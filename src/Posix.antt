-- ===== src/Posix.antt =====
-- What both programs use of the file system: names, inodes behind them, and descriptors that go on
-- naming an inode when its name is gone. Where the kernel may refuse for a reason that is not
-- modelled (permissions, a missing parent, a directory that is not empty), the caller passes the
-- errno as a fault, or, where nobody reads the errno, leaves the call out. The time of a write is
-- an argument, a `struct timespec` as raw bytes.
pub mod Laws
pub mod Dirs
pub mod Same
use distributed_systems_afsv.Base.{
  ◌∷◌, ℕ, ◌+◌, ◌-◌, Bool, true, false, not, Option, none, some, List, [], ◌++◌, ◌==◌, if◌then◌else◌,
  Bytes, length, take, drop, replicate,
}
use distributed_systems_afsv.Base.Dict
use distributed_systems_afsv.Base.Dict.{Dict}

-- The fields of `struct stat` that the programs pass on without reading them.
pub record Attributes : Type 0 where
  pub st_dev : ℕ
  pub st_ino : ℕ
  pub st_mode : ℕ
  pub st_nlink : ℕ
  pub st_uid : ℕ
  pub st_gid : ℕ
  pub st_rdev : ℕ
  pub st_blksize : ℕ
  pub st_blocks : ℕ
  pub st_atim : Bytes
  pub st_ctim : Bytes

pub record Inode : Type 0 where
  pub is_dir : Bool
  pub content : Bytes
  pub mtime : Bytes
  pub attributes : Attributes

pub record Fs : Type 0 where
  pub names : Dict ℕ
  pub inodes : ℕ → Inode
  pub next : ℕ

abbrev pub enoent : ℕ
enoent = 2

abbrev pub eio : ℕ
eio = 5

abbrev pub ebadf : ℕ
ebadf = 9

abbrev pub eexist : ℕ
eexist = 17

abbrev pub enotdir : ℕ
enotdir = 20

abbrev pub eisdir : ℕ
eisdir = 21

abbrev pub no_attributes : Attributes
no_attributes = record {
  st_dev = 0;
  st_ino = 0;
  st_mode = 0;
  st_nlink = 0;
  st_uid = 0;
  st_gid = 0;
  st_rdev = 0;
  st_blksize = 0;
  st_blocks = 0;
  st_atim = [];
  st_ctim = [];
}

abbrev pub set_inode : ℕ → Inode → Fs → Fs
set_inode i n fs = record fs { inodes = λ j. if i == j then n else fs.inodes j }

-- A new name with a new inode.
abbrev pub make : Bool → Bytes → Bytes → Fs → Fs
make is_dir path now fs = record {
  names = Dict.insert path fs.next fs.names;
  inodes = λ j.
      if fs.next == j
      then record { is_dir = is_dir; content = []; mtime = now; attributes = no_attributes }
      else fs.inodes j;
  next = fs.next + 1;
}

-- The inode of a name.
abbrev pub find : Bytes → Fs → Option ℕ
find path fs = Dict.lookup path fs.names

-- `open` with `O_CREAT | O_TRUNC`, which `creat` and an output stream with `trunc` come to: the
-- inode that is written from then on. A file that is there keeps its inode;
-- the call that opens a directory so is refused, and does not come here.
unfoldable pub create : Bytes → Bytes → Fs → ℕ × Fs
create path now fs = elim (find path fs) [
  | none ↦ (fs.next, make false path now fs)
  | some i ↦
      (i, set_inode i (record (fs.inodes i) { is_dir = false; content = []; mtime = now }) fs)
]

-- A write at the end of an open file.
unfoldable pub append : ℕ → Bytes → Bytes → Fs → Fs
append i b now fs =
    let n = fs.inodes i in set_inode i (record n { content = n.content ++ b; mtime = now }) fs

-- `pwrite`, which fills a gap behind the end of the file with zeros; no bytes change nothing.
unfoldable pub write_at : ℕ → ℕ → Bytes → Bytes → Fs → Fs
write_at i offset [] now fs = fs
write_at i offset (x ∷ xs) now fs =
    let b = x ∷ xs in
    let n = fs.inodes i in
    let front = take offset n.content ++ replicate (offset - length n.content) 0 in
    set_inode i
      (record n { content = front ++ (b ++ drop (offset + length b) n.content); mtime = now }) fs

-- `ftruncate`, which lengthens a file with zeros.
unfoldable pub set_size : ℕ → ℕ → Bytes → Fs → Fs
set_size i size now fs =
    let n = fs.inodes i in
    set_inode i
      (record n {
        content = take size n.content ++ replicate (size - length n.content) 0;
        mtime = now;
      })
      fs

-- `rename` where it is not refused: the name moves, with whatever inode it has; a missing source is
-- an error. Whether it is refused, also for a directory under the new name, the caller decides.
unfoldable pub rename : Bytes → Bytes → Fs → Fs
rename from to fs = elim (find from fs) [
  | none ↦ fs
  | some i ↦ record fs { names = Dict.insert to i (Dict.erase from fs.names) }
]

-- The errno, 0 for success.
unfoldable pub unlink : Option ℕ → Bytes → Fs → ℕ × Fs
unlink (some errno) path fs = (errno, fs)
unlink none path fs = elim (find path fs) [
  | none ↦ (enoent, fs)
  | some i ↦
      (if (fs.inodes i).is_dir
        then (eisdir, fs)
        else (0, record fs { names = Dict.erase path fs.names }))
]

unfoldable pub mkdir : Option ℕ → Bytes → Bytes → Fs → ℕ × Fs
mkdir (some errno) path now fs = (errno, fs)
mkdir none path now fs = elim (find path fs) [
  | none ↦ (0, make true path now fs)
  | some i ↦ (eexist, fs)
]

unfoldable pub rmdir : Option ℕ → Bytes → Fs → ℕ × Fs
rmdir (some errno) path fs = (errno, fs)
rmdir none path fs = elim (find path fs) [
  | none ↦ (enoent, fs)
  | some i ↦
      (if (fs.inodes i).is_dir
        then (0, record fs { names = Dict.erase path fs.names })
        else (enotdir, fs))
]

-- What a read of the whole file under a name gives.
unfoldable pub read_file : Bytes → Fs → Option Bytes
read_file path fs = elim (find path fs) [ none ↦ none | some i ↦ some (fs.inodes i).content ]

-- The `st_mtim` of a name.
unfoldable pub mtime_of : Bytes → Fs → Option Bytes
mtime_of path fs = elim (find path fs) [ none ↦ none | some i ↦ some (fs.inodes i).mtime ]

-- The name of a file that is no directory.
unfoldable pub is_file : Bytes → Fs → Bool
is_file path fs = elim (find path fs) [ none ↦ false | some i ↦ not (fs.inodes i).is_dir ]
