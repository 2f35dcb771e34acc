-- ===== src/Posix/Laws.antt =====
-- The file system behind its laws: what each call does to the content under a name.
use distributed_systems_afsv.Base.{
  Option, ℕ, ◌<◌, ◌≡◌, ◌≢◌, refl, true, false, not, none, some, [], ◌++◌, arith, if◌then◌else◌,
  Bytes, equal, equal_iff, equal_refl, Option-cases, inl, inr,
}
use distributed_systems_afsv.Base.Dict
use distributed_systems_afsv.Posix.{
  Fs, find, create, append, rename, read_file, mtime_of, is_file, unlink,
}

-- No name has an inode that is still to be made, and no two names have one inode.
pub record IsFs (fs : Fs) : Type 0 where
  pub below : (path : Bytes) (i : ℕ) → find path fs ≡ some i → i < fs.next
  pub alone : (p q : Bytes) (i : ℕ) → find p fs ≡ some i → find q fs ≡ some i → p ≡ q

-- The inode of a created file is empty, and under its name.
pub create-find :
    (path now : Bytes) (fs : Fs) → find path (create path now fs).1 ≡ some (create path now fs).0
unfolding create
create-find path now fs =
    ground (arith, Dict.lookup-insert path path fs.next fs.names, equal_refl path)

pub create-inode :
    (path now : Bytes) (fs : Fs)
    → (((create path now fs).1.inodes (create path now fs).0).content ≡ [])
      × (((create path now fs).1.inodes (create path now fs).0).mtime ≡ now)
      × (((create path now fs).1.inodes (create path now fs).0).is_dir ≡ false)
unfolding create
create-inode path now fs = ground arith

pub append-find :
    (i : ℕ) (b now path : Bytes) (fs : Fs) → find path (append i b now fs) ≡ find path fs
unfolding append
append-find i b now path fs = refl

pub append-inode :
    (i : ℕ) (b now : Bytes) (fs : Fs)
    → (((append i b now fs).inodes i).content ≡ (fs.inodes i).content ++ b)
      × (((append i b now fs).inodes i).mtime ≡ now)
unfolding append
append-inode i b now fs = ground arith

rename_lookup :
    (from to q : Bytes) (i : ℕ) (fs : Fs)
    → Dict.lookup q (Dict.insert to i (Dict.erase from fs.names))
      ≡ (if equal to q then some i else if equal from q then none else find q fs)
rename_lookup from to q i fs =
    ground (
      arith,
      Dict.lookup-insert to q i (Dict.erase from fs.names),
      Dict.lookup-erase from q fs.names,
    )

pub append-is_dir :
    (i : ℕ) (b now : Bytes) (fs : Fs) → ((append i b now fs).inodes i).is_dir ≡ (fs.inodes i).is_dir
unfolding append
append-is_dir i b now fs = ground arith

pub rename-find :
    (from to q : Bytes) (i : ℕ) (fs : Fs)
    → find from fs ≡ some i
    → find q (rename from to fs)
      ≡ (if equal to q then some i else if equal from q then none else find q fs)
unfolding rename
rename-find from to q i fs h = ground (arith, h, rename_lookup from to q i fs)

pub create-find_ne :
    (path now q : Bytes) (fs : Fs) → path ≢ q → find q (create path now fs).1 ≡ find q fs
unfolding create
create-find_ne path now q fs ne =
    ground (arith, Dict.lookup-insert path q fs.next fs.names, equal_iff path q)

-- A file with another name has another inode, which `create` leaves alone.
pub create-other :
    (path now q : Bytes) (j : ℕ) (fs : Fs)
    → IsFs fs
    → path ≢ q
    → find q fs ≡ some j
    → (create path now fs).0 ≢ j × ((create path now fs).1.inodes j ≡ fs.inodes j)
unfolding create
create-other path now q j fs w ne h = ground (arith, w.below q j h, w.alone path q j)

pub append-other :
    (i j : ℕ) (b now : Bytes) (fs : Fs) → i ≢ j → (append i b now fs).inodes j ≡ fs.inodes j
unfolding append
append-other i j b now fs ne = ground arith

pub create-IsFs : (path now : Bytes) (fs : Fs) → IsFs fs → IsFs (create path now fs).1
unfolding create
create-IsFs path now fs w = record {
  below = λ q j h.
      ground (arith, w.below q j, Dict.lookup-insert path q fs.next fs.names, w.below path j);
  alone = λ q r j hq hr. ground (
    arith,
    w.alone q r j,
    w.below q j,
    w.below r j,
    equal_iff path q,
    equal_iff path r,
    Dict.lookup-insert path q fs.next fs.names,
    Dict.lookup-insert path r fs.next fs.names,
  );
}

pub append-IsFs : (i : ℕ) (b now : Bytes) (fs : Fs) → IsFs fs → IsFs (append i b now fs)
unfolding append
append-IsFs i b now fs w = record { below = w.below; alone = w.alone }

rename_missing : (from to : Bytes) (fs : Fs) → find from fs ≡ none → rename from to fs ≡ fs
unfolding rename
rename_missing from to fs h = rw (rename, h) refl

rename_found :
    (from to : Bytes) (i : ℕ) (fs : Fs)
    → find from fs ≡ some i
    → rename from to fs ≡ record fs { names = Dict.insert to i (Dict.erase from fs.names) }
unfolding rename
rename_found from to i fs h = rw (rename, h) refl

pub inodes-rename : (from to : Bytes) (j : ℕ) (fs : Fs) → (rename from to fs).inodes j ≡ fs.inodes j
unfolding rename
inodes-rename from to j fs = ground arith

pub read_file_found :
    (path : Bytes) (i : ℕ) (fs : Fs)
    → find path fs ≡ some i
    → read_file path fs ≡ some (fs.inodes i).content
unfolding read_file
read_file_found path i fs h = rw (read_file, h) refl

pub read_file_missing : (path : Bytes) (fs : Fs) → find path fs ≡ none → read_file path fs ≡ none
unfolding read_file
read_file_missing path fs h = rw (read_file, h) refl

pub is_file_found :
    (path : Bytes) (i : ℕ) (fs : Fs)
    → find path fs ≡ some i
    → is_file path fs ≡ not (fs.inodes i).is_dir
unfolding is_file
is_file_found path i fs h = rw (is_file, h) refl

pub mtime_of_missing : (path : Bytes) (fs : Fs) → find path fs ≡ none → mtime_of path fs ≡ none
unfolding mtime_of
mtime_of_missing path fs h = rw (mtime_of, h) refl

pub mtime_of_found :
    (path : Bytes) (i : ℕ) (fs : Fs)
    → find path fs ≡ some i
    → mtime_of path fs ≡ some (fs.inodes i).mtime
unfolding mtime_of
mtime_of_found path i fs h = rw (mtime_of, h) refl

pub rename-IsFs : (from to : Bytes) (fs : Fs) → IsFs fs → IsFs (rename from to fs)
rename-IsFs from to fs w = elim (Option-cases (find from fs)) [
  | inl missing ↦ rw (rename_missing from to fs missing) w
  | inr (i, e) ↦ rw (rename_found from to i fs e) (record {
    below = λ q j h. ground (arith, w.below q j, w.below from i, e, rename_lookup from to q i fs);
    alone = λ q r j hq hr. ground (
      arith,
      w.alone q r j,
      w.alone from q j,
      w.alone from r j,
      e,
      equal_iff to q,
      equal_iff to r,
      equal_iff from q,
      equal_iff from r,
      rename_lookup from to q i fs,
      rename_lookup from to r i fs,
    );
  })
]

-- A file whose name was removed is not there.
pub unlink_gone :
    (path : Bytes) (fs : Fs) → is_file path fs ≡ true → find path (unlink none path fs).1 ≡ none
unfolding unlink is_file
unlink_gone path fs h = ground (arith, Dict.lookup-erase path path fs.names, equal_refl path)

pub unlink_not_refused :
    (kernel : Option ℕ) (path : Bytes) (fs : Fs)
    → kernel ≡ none
    → is_file path fs ≡ true
    → find path (unlink kernel path fs).1 ≡ none
unlink_not_refused kernel path fs works h = rw works (unlink_gone path fs h)
