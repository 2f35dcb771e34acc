-- ===== src/Start.antt =====
-- How the two programs start: `main` of afs_client.cc up to fuse_main, and `main` of afs_server.cc
-- up to the service.
pub mod Options
pub mod Slots
pub mod Overflow
pub mod Loading
pub mod Mounted
pub mod Directories
use distributed_systems_afsv.Base.{
  ℕ, ℤ, Bool, true, false, not, ◌||◌, ◌&&◌, Option, none, some, List, [], ◌∷◌, ◌++◌, ◌==◌,
  if◌then◌else◌, Bytes, codes,
}
use distributed_systems_afsv.Client.{Client}
use distributed_systems_afsv.Dirty
use distributed_systems_afsv.Journal.{Disk, Env}
use distributed_systems_afsv.Modified
use distributed_systems_afsv.Posix
use distributed_systems_afsv.Posix.{Fs, find, eexist}
use distributed_systems_afsv.Server.{Server}
use distributed_systems_afsv.Start.Options.{
  Opt, Args, Parsed, exited, overflowed, parsed, parse, new_args, get_elem?,
}

-- `root.back() != '/'`, and the slash that is then put behind it.
unfoldable pub ends_in_slash : Bytes → Bool
ends_in_slash [] = false
ends_in_slash (c ∷ []) = c == b'/'
ends_in_slash (c ∷ d ∷ r) = ends_in_slash (d ∷ r)

unfoldable pub with_slash : Bytes → Bytes
unfolding ends_in_slash
with_slash root = if ends_in_slash root then root else root ++ (b'/' ∷ [])

-- What the two tables find: their files, what the system answers, and what the memory of `counter`
-- held.
pub record Tables : Type 0 where
  pub modified_disk : Disk
  pub modified_env : Env
  pub modified_counter : ℤ
  pub dirty_disk : Disk
  pub dirty_env : Env
  pub dirty_counter : ℤ

-- The end of the client's `main`: an exit code, a write behind the array of arguments, a failed
-- assertion, or a client that fuse_main serves with the arguments and a channel to the server.
pub data Started : Type 0 where
  ended : ℕ → Started
  overrun : Started
  aborted : Started
  mounted : Client → Args → Started

-- The constructor of `afs_data_t` over the cache directory `fs`, and the slash behind its root. The
-- members are constructed in the order of their declarations, `last_modified` first.
unfoldable pub start_data : Tables → Fs → Bytes → Option Client
unfolding with_slash
start_data t fs root = elim (Modified.boot t.modified_env t.modified_counter t.modified_disk) [
  | none ↦ none
  | some (modified, modified_disk) ↦ elim (Dirty.boot t.dirty_env t.dirty_counter t.dirty_disk) [
    | none ↦ none
    | some (dirty, dirty_disk) ↦ some (record {
      cache_root = with_slash root;
      modified = modified;
      modified_disk = modified_disk;
      dirty = dirty;
      dirty_disk = dirty_disk;
      fs = fs;
      fds = λ fd. none;
      next_fd = 3;
    })
  ]
]

-- `fuse_main_argv[mount_dir_arg_index]`, `none` where the index is -1.
unfoldable pub mount_point : Args → Option Bytes
unfolding get_elem?
mount_point a = elim a.mount_dir_arg_index [ none ↦ none | some i ↦ get_elem? i a.argv ]

-- `stat(path, &sb) != 0 || !S_ISDIR(sb.st_mode)` is `not (is_dir path)`.
unfoldable pub start_client : (Bytes → Bool) → Tables → Fs → Bytes → List Opt → Started
unfolding parse start_data mount_point
start_client is_dir t fs argv0 opts = elim (parse opts (new_args argv0)) [
  | exited code ↦ ended code
  | overflowed ↦ overrun
  | parsed a ↦ elim a.cache_root [
    | none ↦ ended 1
    | some root ↦ elim (mount_point a) [
      | none ↦ ended 1
      | some dir ↦ elim (is_dir root && is_dir dir) [
        | false ↦ ended 1
        | true ↦ elim (start_data t fs root) [ none ↦ aborted | some c ↦ mounted c a ]
      ]
    ]
  ]
]

-- The end of the server's `main`: an exit code, or a service on a port.
pub data Served : Type 0 where
  stopped : ℕ → Served
  serving : Bytes → Bytes → Server → Served

-- `mkdir(…) < 0 && errno != 17`
unfoldable pub make_dir : Option ℕ → Bytes → Bytes → Fs → Bool × Fs
make_dir kernel path now fs =
    let (errno, fs') = Posix.mkdir kernel path now fs in ((errno == 0) || (errno == eexist), fs')

-- The names that the server makes below its root.
abbrev pub cache_dir : Bytes → Bytes
cache_dir root = root ++ codes "cache"

abbrev pub fs_dir : Bytes → Bytes
fs_dir root = root ++ codes "fs_root"

-- `args` are the arguments behind the name of the program; `stat` and the two `mkdir` may be
-- refused.
unfoldable pub start_server :
    (Bytes → Bool) → Option ℕ → Option ℕ → Bytes → List Bytes → Fs → Served
start_server is_dir first second now [] fs = stopped 1
start_server is_dir first second now (dir ∷ more) fs =
    let root = with_slash dir in
    let (made, fs1) = make_dir first (cache_dir root) now fs in
    let (made', fs2) = make_dir second (fs_dir root) now fs1 in
    if not (is_dir dir)
    then stopped 1
    else if not made
    then stopped 1
    else if not made'
    then stopped 1
    else serving root (elim more [ [] ↦ codes "53706" | port ∷ rest ↦ port ])
        (record { fs = fs2; locked = false })
