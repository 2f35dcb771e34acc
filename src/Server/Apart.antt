-- ===== src/Server/Apart.antt =====
-- Calls of `Write` for different files, in steps and in any order: none of them gets in the way of
-- another, although `rename` is called without the mutex.
pub mod Steps
pub mod Runs
use distributed_systems_afsv.Base.{
  ℕ, ◌≡◌, ◌≢◌, refl, sym, ap, ◌∙◌, Bool-cases, inl, inr, true, false, Option, none, some, List, [],
  ◌∷◌, ◌++◌, append_assoc, append-nil, arith, Bytes, equal, equal_ne, equal_refl, if◌then◌else◌,
  ◌==◌,
}
use distributed_systems_afsv.Hash.{Sha256}
use distributed_systems_afsv.Posix.{Fs, find, read_file, create, append, rename}
use distributed_systems_afsv.Posix.Laws.{
  IsFs, create-find, create-find_ne, create-inode, create-other, create-IsFs, append-find,
  append-inode, append-other, append-IsFs, rename-find, rename-IsFs, inodes-rename, read_file_found,
}
use distributed_systems_afsv.Posix.Same.{Same, Same-refl}
use distributed_systems_afsv.Proto.{
  FilepathContent, Status, ok, cancelled, not_found, unavailable, no_content,
}
use distributed_systems_afsv.Server.{Server, WriteEnv, fs_path, temp_path}
use distributed_systems_afsv.Server.Temporary.{
  payload, AllFor, temp_path-ne-fs_path, fs_path_injective,
}
use distributed_systems_afsv.Server.Threads.{
  Phase, starting, writing, closed, stamped, answered, failed, advance, Running, step, schedule,
}
use distributed_systems_afsv.Stream.{concat}

-- A name with a content.
pub record Has (name b : Bytes) (fs : Fs) : Type 0 where
  pub inode : ℕ
  pub found : find name fs ≡ some inode
  pub content : (fs.inodes inode).content ≡ b

Same-Has : (name b : Bytes) (fs gs : Fs) → Same name fs gs → Has name b fs → Has name b gs
Same-Has name b fs gs same h = record {
  inode = h.inode;
  found = same.name ∙ h.found;
  content = ap (λ n. n.content) (same.inode h.inode h.found) ∙ h.content;
}

-- The last message that was read names the file, unless one is still to come.
abbrev pub Named : Bytes → FilepathContent → List FilepathContent → Type 0
Named p last [] = last.filepath ≡ p
Named p last (m ∷ ms) = Unit

module _ (sha : Sha256) (root p : Bytes) (all : List FilepathContent) where
  -- What the files have where a call for `p` with the messages `all` stands.
  abbrev pub Good : Fs → Phase → Type 0
  Good fs (starting ms) = ms ≡ all
  Good fs (writing msg last i ms) =
      (msg.filepath ≡ p)
      × AllFor p ms
      × Named p last ms
      × (find (temp_path sha root p) fs ≡ some i)
      × ((fs.inodes i).content ++ payload ms ≡ payload all)
  Good fs (closed msg last) = (last.filepath ≡ p) × Has (temp_path sha root p) (payload all) fs
  Good fs (stamped last ts) = (last.filepath ≡ p) × Has (temp_path sha root p) (payload all) fs
  Good fs (answered ok ts) = Has (fs_path root p) (payload all) fs
  Good fs (answered _ ts) = Unit
  Good fs failed = Unit

-- The two names of `Write` for a file are left alone.
pub record Frame (sha : Sha256) (root p : Bytes) (fs gs : Fs) : Type 0 where
  pub temp : Same (temp_path sha root p) fs gs
  pub file : Same (fs_path root p) fs gs

pub Frame-refl : (sha : Sha256) (root p : Bytes) (fs : Fs) → Frame sha root p fs fs
Frame-refl sha root p fs = record {
  temp = Same-refl (temp_path sha root p) fs;
  file = Same-refl (fs_path root p) fs;
}

pub Frame-Good :
    (sha : Sha256) (root p : Bytes) (all : List FilepathContent) (fs gs : Fs) (phase : Phase)
    → Frame sha root p fs gs
    → Good sha root p all fs phase
    → Good sha root p all gs phase
Frame-Good sha root p all fs gs (starting ms) f h = h
Frame-Good sha root p all fs gs (writing msg last i ms) f (hm, hs, hl, found, content) = (
  hm,
  hs,
  hl,
  f.temp.name ∙ found,
  ap (λ n. n.content ++ payload ms) (f.temp.inode i found) ∙ content,
)
Frame-Good sha root p all fs gs (closed msg last) f (hl, h) =
    (hl, Same-Has (temp_path sha root p) (payload all) fs gs f.temp h)
Frame-Good sha root p all fs gs (stamped last ts) f (hl, h) =
    (hl, Same-Has (temp_path sha root p) (payload all) fs gs f.temp h)
Frame-Good sha root p all fs gs (answered ok ts) f h =
    Same-Has (fs_path root p) (payload all) fs gs f.file h
Frame-Good sha root p all fs gs (answered not_found ts) f h = tt
Frame-Good sha root p all fs gs (answered cancelled ts) f h = tt
Frame-Good sha root p all fs gs (answered unavailable ts) f h = tt
Frame-Good sha root p all fs gs failed f h = tt

-- Names that a call for `p` leaves alone.
module _ (sha : Sha256) (root p q : Bytes) (now : Bytes) (fs : Fs) (w : IsFs fs)
    (apart : temp_path sha root p ≢ temp_path sha root q) where
  create-Same :
      (name : Bytes)
      → temp_path sha root p ≢ name
      → Same name fs (create (temp_path sha root p) now fs).1
  create-Same name ne = record {
    name = create-find_ne (temp_path sha root p) now name fs ne;
    inode = λ j h. (create-other (temp_path sha root p) now name j fs w ne h).1;
  }

  pub create-Frame : Frame sha root q fs (create (temp_path sha root p) now fs).1
  create-Frame = record {
    temp = create-Same (temp_path sha root q) apart;
    file = create-Same (fs_path root q) (temp_path-ne-fs_path sha root p q);
  }

  append-Same :
      (i : ℕ) (b name : Bytes)
      → find (temp_path sha root p) fs ≡ some i
      → temp_path sha root p ≢ name
      → Same name fs (append i b now fs)
  append-Same i b name found ne = record {
    name = append-find i b now name fs;
    inode = λ j h.
        append-other i j b now fs
          (λ e. ne (w.alone (temp_path sha root p) name j (found ∙ ap some e) h));
  }

  pub append-Frame :
      (i : ℕ) (b : Bytes)
      → find (temp_path sha root p) fs ≡ some i
      → Frame sha root q fs (append i b now fs)
  append-Frame i b found = record {
    temp = append-Same i b (temp_path sha root q) found apart;
    file = append-Same i b (fs_path root q) found (temp_path-ne-fs_path sha root p q);
  }

  rename-Same :
      (i : ℕ) (name : Bytes)
      → find (temp_path sha root p) fs ≡ some i
      → fs_path root p ≢ name
      → temp_path sha root p ≢ name
      → Same name fs (rename (temp_path sha root p) (fs_path root p) fs)
  rename-Same i name found ne ne' = record {
    name =
        rename-find (temp_path sha root p) (fs_path root p) name i fs found
        ∙ rw (equal_ne (fs_path root p) name ne, equal_ne (temp_path sha root p) name ne') refl;
    inode = λ j h. inodes-rename (temp_path sha root p) (fs_path root p) j fs;
  }

  pub rename-Frame :
      (i : ℕ)
      → find (temp_path sha root p) fs ≡ some i
      → Frame sha root q fs (rename (temp_path sha root p) (fs_path root p) fs)
  rename-Frame i found = record {
    temp =
        rename-Same i (temp_path sha root q) found (λ e. temp_path-ne-fs_path sha root q p (sym e))
          apart;
    file =
        rename-Same i (fs_path root q) found
          (λ e. apart (ap (temp_path sha root) (fs_path_injective sha root p q e)))
          (temp_path-ne-fs_path sha root p q);
  }
