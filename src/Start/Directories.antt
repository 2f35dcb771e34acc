-- ===== src/Start/Directories.antt =====
-- The two directories that `main` of afs_server.cc makes below its root, on the first start and on
-- the later ones.
use distributed_systems_afsv.Base.{
  ℕ, ◌≡◌, ◌≢◌, refl, Bool, true, false, none, some, List, [], ◌∷◌, Bytes, codes, Option-cases, inl,
  inr,
}
use distributed_systems_afsv.Posix.{Fs, find}
use distributed_systems_afsv.Posix.Dirs.{
  mkdir_new, mkdir_there, make-find, make-IsFs, Keeps, Keeps-refl, Keeps-trans, make-Keeps,
}
use distributed_systems_afsv.Posix.Laws.{IsFs}
use distributed_systems_afsv.Start.{with_slash, make_dir, cache_dir, fs_dir, serving, start_server}

-- A call of `make_dir` that is not refused: the name is there, and nothing that was there changes.
record Made (path now : Bytes) (fs : Fs) : Type 0 where
  fs' : Fs
  result : make_dir none path now fs ≡ (true, fs')
  inode : ℕ
  there : find path fs' ≡ some inode
  keeps : Keeps fs fs'
  well : IsFs fs'

make_dir-Made : (path now : Bytes) (fs : Fs) → IsFs fs → Made path now fs
unfolding make_dir
make_dir-Made path now fs w = elim (Option-cases (find path fs)) [
  | inl missing ↦ record {
    fs' = _;
    result = rw (mkdir_new path now fs missing) refl;
    inode = fs.next;
    there = (make-find path now fs).0;
    keeps = make-Keeps path now fs w missing;
    well = make-IsFs path now fs w;
  }
  | inr (i, there) ↦ record {
    fs' = fs;
    result = rw (mkdir_there path now i fs there) refl;
    inode = i;
    there = there;
    keeps = Keeps-refl fs;
    well = w;
  }
]

make_dir_again :
    (path now : Bytes) (i : ℕ) (fs : Fs)
    → find path fs ≡ some i
    → make_dir none path now fs ≡ (true, fs)
unfolding make_dir
make_dir_again path now i fs there = rw (mkdir_there path now i fs there) refl

abbrev pub port_of : List Bytes → Bytes
port_of [] = codes "53706"
port_of (port ∷ rest) = port

module _ (is_dir : Bytes → Bool) (now dir : Bytes) (root_dir : is_dir dir ≡ true) where
  start_server_ok :
      (more : List Bytes) (fs fs1 fs2 : Fs)
      → make_dir none (cache_dir (with_slash dir)) now fs ≡ (true, fs1)
      → make_dir none (fs_dir (with_slash dir)) now fs1 ≡ (true, fs2)
      → start_server is_dir none none now (dir ∷ more) fs
        ≡ serving (with_slash dir) (port_of more) (record { fs = fs2; locked = false })
  unfolding start_server
  start_server_ok [] fs fs1 fs2 first second = rw (start_server, first, second, root_dir) refl
  start_server_ok (port ∷ rest) fs fs1 fs2 first second =
      rw (start_server, first, second, root_dir) refl

  -- A start that comes to its service: both directories are there, what was there before is as it
  -- was, and a start on what it leaves changes nothing, on whatever port.
  pub record Serves (more : List Bytes) (fs : Fs) : Type 0 where
    pub fs' : Fs
    pub result :
        start_server is_dir none none now (dir ∷ more) fs
        ≡ serving (with_slash dir) (port_of more) (record { fs = fs'; locked = false })
    pub cache_there : find (cache_dir (with_slash dir)) fs' ≢ none
    pub fs_there : find (fs_dir (with_slash dir)) fs' ≢ none
    pub keeps : Keeps fs fs'
    pub well : IsFs fs'
    pub again :
        (later : List Bytes)
        → start_server is_dir none none now (dir ∷ later) fs'
          ≡ serving (with_slash dir) (port_of later) (record { fs = fs'; locked = false })

  -- A start of the server whose root is a directory comes to its service, on the port of its
  -- second argument or on 53706: `cache` and `fs_root` exist below the root, with a slash between,
  -- every name that was there still has its inode with the same content, and another start on what
  -- it leaves changes no file. The file system is well-formed before, which it is then also after,
  -- and no `mkdir` is refused for another reason than that the name exists.
  pub start_server-Serves : (more : List Bytes) (fs : Fs) → IsFs fs → Serves more fs
  start_server-Serves more fs w =
      let root = with_slash dir in
      let first = make_dir-Made (cache_dir root) now fs w in
      let second = make_dir-Made (fs_dir root) now first.fs' first.well in
      let cache_there = second.keeps.name (cache_dir root) first.inode first.there in
      record {
        fs' = second.fs';
        result = start_server_ok more fs first.fs' second.fs' first.result second.result;
        cache_there = λ h. cc;
        fs_there = λ h. cc (h, second.there);
        keeps = Keeps-trans first.keeps second.keeps;
        well = second.well;
        again = λ later.
            start_server_ok later second.fs' second.fs' second.fs'
              (make_dir_again (cache_dir root) now first.inode second.fs' cache_there)
              (make_dir_again (fs_dir root) now second.inode second.fs' second.there);
      }
