-- ===== src/Server.antt =====
-- `AFSServiceImpl` of afs_server.cc, one call at a time. `none` as the result of `write` is a call
-- that waits for the mutex for ever; of `ls`, `readdir` on a null pointer.
pub mod Temporary
pub mod Write
pub mod Threads
pub mod Race
pub mod Fetch
pub mod Apart
use distributed_systems_afsv.Base.{
  ℕ, zero, suc, ℤ, pos, negsuc, Bool, true, false, Option, none, some, List, [], ◌∷◌, ◌++◌, map,
  ◌==◌, if◌then◌else◌, Bytes, codes, length, take,
}
use distributed_systems_afsv.Hash.{Sha256, hash_file_path}
use distributed_systems_afsv.Posix
use distributed_systems_afsv.Posix.{Fs, Inode, find, create, append, rename, mtime_of, enoent}
use distributed_systems_afsv.Proto.{
  Meta, FilepathContent, MetaContent, StatContent, Response, Status, ok, not_found, cancelled,
  no_meta, no_content, no_stat, no_response,
}
use distributed_systems_afsv.Stream.{send_file, bufsize}

pub record Server : Type 0 where
  pub fs : Fs
  pub locked : Bool

-- What the system answers during one `Write`: whether the temporary file opens, the time of the
-- writes, whether the client cancelled, what an uninitialised `struct stat` holds, and whether
-- `rename` succeeds; it does not where the target is a directory or its parent is missing.
pub record WriteEnv : Type 0 where
  pub opens : Bool
  pub now : Bytes
  pub is_cancelled : Bool
  pub uninitialised : Bytes
  pub renames : Bool

-- The message that the handler's `msg` holds after the first `Read`, and after the last.
abbrev pub first_msg : List FilepathContent → FilepathContent
first_msg [] = no_content
first_msg (m ∷ ms) = m

abbrev pub last_msg : FilepathContent → List FilepathContent → FilepathContent
last_msg m [] = m
last_msg m (n ∷ ms) = last_msg n ms

-- `file << msg.b()` for each message.
unfoldable pub append_all : ℕ → Bytes → List FilepathContent → Fs → Fs
append_all i now [] fs = fs
append_all i now (m ∷ ms) fs = append_all i now ms (append i m.b now fs)

abbrev pub or_uninitialised : Option Bytes → Bytes → Bytes
or_uninitialised none garbage = garbage
or_uninitialised (some ts) garbage = ts

-- The response of a call that ends in a return code and an errno, 0 for success.
abbrev pub respond : ℕ → Response
respond errno =
    if errno == 0 then no_response else record { return_code = negsuc 0; error_number = errno }

unfoldable pub get_meta : Bytes → Meta
get_meta filepath = no_meta

-- `opendir` and `readdir`: the names of a directory, `none` if it does not open.
unfoldable pub ls : Option (List Bytes) → Option (List Bytes)
ls none = none
ls (some names) = some names

module _ (root : Bytes) where
  -- `getServerFilepath` of a file of the file system.
  unfoldable pub fs_path : Bytes → Bytes
  fs_path filepath = root ++ (codes "fs_root/" ++ filepath)

  -- The messages that the stream takes before the client is gone; `kernel` is the errno for an open
  -- that the system refuses. A directory opens, and no read of it succeeds or meets its end.
  unfoldable pub get_content : Option ℕ → ℕ → Bytes → Server → List MetaContent
  get_content (some errno) budget filepath s =
      take budget (record { file_exists = false; timestamp = []; b = [] } ∷ [])
  get_content none budget filepath s = elim (find (fs_path filepath) s.fs) [
    | none ↦ take budget (record { file_exists = false; timestamp = []; b = [] } ∷ [])
    | some i ↦
        (let n = s.fs.inodes i in
          if n.is_dir
          then []
          else map (λ b. record { file_exists = true; timestamp = n.mtime; b = b })
              (send_file bufsize budget n.content).0)
  ]

  unfoldable pub stat : Option ℕ → Bytes → Server → StatContent
  stat (some errno) filepath s = record no_stat { return_code = negsuc 0; error_number = errno }
  stat none filepath s = elim (find (fs_path filepath) s.fs) [
    | none ↦ record no_stat { return_code = negsuc 0; error_number = enoent }
    | some i ↦
        (let n = s.fs.inodes i in
          let a = n.attributes in
          record {
            return_code = pos 0;
            error_number = 0;
            st_dev = a.st_dev;
            st_ino = a.st_ino;
            st_mode = a.st_mode;
            st_nlink = a.st_nlink;
            st_uid = a.st_uid;
            st_gid = a.st_gid;
            st_rdev = a.st_rdev;
            st_size = length n.content;
            st_blksize = a.st_blksize;
            st_blocks = a.st_blocks;
            st_atim = a.st_atim;
            st_mtim = n.mtime;
            st_ctim = a.st_ctim;
          })
  ]

  -- `kernel` is the errno for a refusal that the model leaves open.
  unfoldable pub unlink : Option ℕ → Bytes → Server → Response × Server
  unlink kernel filepath s =
      let (errno, fs) = Posix.unlink kernel (fs_path filepath) s.fs in
      (respond errno, record s { fs = fs })

  unfoldable pub rmdir : Option ℕ → Bytes → Server → Response × Server
  rmdir kernel filepath s =
      let (errno, fs) = Posix.rmdir kernel (fs_path filepath) s.fs in
      (respond errno, record s { fs = fs })

  unfoldable pub mkdir : Option ℕ → Bytes → Bytes → Server → Response × Server
  mkdir kernel now filepath s =
      let (errno, fs) = Posix.mkdir kernel (fs_path filepath) now s.fs in
      (respond errno, record s { fs = fs })

module _ (sha : Sha256) (root : Bytes) where
  -- `getServerFilepath` of a temporary file.
  unfoldable pub temp_path : Bytes → Bytes
  temp_path filepath = root ++ (codes "cache/" ++ hash_file_path sha filepath)

  -- What is left of `Write` when the file is written and the mutex is free.
  unfoldable pub finish_write :
      WriteEnv → FilepathContent → FilepathContent → Fs → Status × Bytes × Server
  finish_write env msg last fs =
      if env.is_cancelled then (cancelled, [], record { fs = fs; locked = false }) else (
        ok,
        or_uninitialised (mtime_of (temp_path msg.filepath) fs) env.uninitialised,
        record {
          fs =
              if env.renames
              then rename (temp_path last.filepath) (fs_path root last.filepath) fs
              else fs;
          locked = false;
        },
      )

  unfoldable pub write : WriteEnv → List FilepathContent → Server → Option (Status × Bytes × Server)
  unfolding finish_write append_all
  write env msgs s =
      let msg = first_msg msgs in
      let (i, fs) = create (temp_path msg.filepath) env.now s.fs in
      if s.locked
      then none
      else if env.opens
      then some (finish_write env msg (last_msg no_content msgs) (append_all i env.now msgs fs))
      else some (not_found, [], record s { locked = true })
