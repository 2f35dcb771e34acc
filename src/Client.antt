-- ===== src/Client.antt =====
-- The state of afs_client.cc (`afs_data_t`, the cache directory and the descriptors of the process)
-- and what its handlers share. The handlers are in the modules below.
pub mod Stub
pub mod Open
pub mod Release
pub mod Mutate
pub mod Access
pub mod Crash
use distributed_systems_afsv.Base.{
  ℕ, ◌+◌, ◌-◌, ◌^◌, ℤ, pos, negate, Bool, true, false, Option, none, some, List, [], ◌∷◌, ◌==◌, ltb,
  if◌then◌else◌, Bytes,
}
use distributed_systems_afsv.Dirty
use distributed_systems_afsv.Dirty.{IsDirty}
use distributed_systems_afsv.Hash.{Sha256, cache_path}
use distributed_systems_afsv.Journal
use distributed_systems_afsv.Journal.{Disk, Env, run}
use distributed_systems_afsv.Modified
use distributed_systems_afsv.Modified.{LastModified}
use distributed_systems_afsv.Posix
use distributed_systems_afsv.Posix.{Fs, find, create, append, enoent}
use distributed_systems_afsv.Proto.{Status, ok, MetaContent}

-- `afs_data_t`, each table beside its files; the names of `fs` are those of the cache directory.
pub record Client : Type 0 where
  pub cache_root : Bytes
  pub modified : LastModified
  pub modified_disk : Disk
  pub dirty : IsDirty
  pub dirty_disk : Disk
  pub fs : Fs
  pub fds : ℕ → Option ℕ
  pub next_fd : ℕ

-- What the system answers during one handler: at the tables' files; at the calls that open or make a
-- local file, or work on a descriptor, and at `unlink`, which it may refuse with an errno; the time,
-- and how many writes to a stream succeed.
pub record OpEnv : Type 0 where
  pub modified_env : Env
  pub dirty_env : Env
  pub refusal : Option ℕ
  pub unlink_refusal : Option ℕ
  pub now : Bytes
  pub budget : ℕ

-- `(uint64_t) -1`, which `fi->fh` holds after an `open` that failed.
abbrev pub failed_fh : ℕ
failed_fh = 2 ^ 64 - 1

abbrev pub is_ok : Status → Bool
is_ok ok = true
is_ok _ = false

abbrev pub or_errno : Option ℕ → ℕ
or_errno none = enoent
or_errno (some errno) = errno

abbrev pub keep_modified : Client → LastModified × List Journal.Effect → Client
keep_modified c r = record c { modified = r.0; modified_disk = run r.1 c.modified_disk }

abbrev pub keep_dirty : Client → IsDirty × List Journal.Effect → Client
keep_dirty c r = record c { dirty = r.0; dirty_disk = run r.1 c.dirty_disk }

-- The result of `afs_open`: the code, `fi->fh`, and the client.
pub record Opened : Type 0 where
  pub code : ℤ
  pub fh : ℕ
  pub client : Client

-- `ofile << msg.b()` for each message.
unfoldable pub append_blocks : ℕ → Bytes → List MetaContent → Fs → Fs
append_blocks i now [] fs = fs
append_blocks i now (m ∷ ms) fs = append_blocks i now ms (append i m.b now fs)

-- The message that `msg` holds after the last `Read`.
abbrev pub last_block : MetaContent → List MetaContent → MetaContent
last_block m [] = m
last_block m (n ∷ ms) = last_block n ms

module _ (sha : Sha256) where
  -- `cachepath(path)`
  unfoldable pub cached : Client → Bytes → Bytes
  unfolding cache_path
  cached c path = cache_path sha c.cache_root path

  abbrev pub set_modified : OpEnv → Bytes → Bytes → Client → Client
  set_modified env path ts c =
      keep_modified c (Modified.set sha env.modified_env path ts c.modified)

  abbrev pub erase_modified : Bytes → Client → Client
  erase_modified path c = keep_modified c (Modified.erase sha path c.modified)

  abbrev pub set_dirty : OpEnv → Bytes → Bool → Client → Client
  set_dirty env path state c = keep_dirty c (Dirty.set sha env.dirty_env path state c.dirty)

  abbrev pub erase_dirty : Bytes → Client → Client
  erase_dirty path c = keep_dirty c (Dirty.erase sha path c.dirty)

  -- `unlink(cachepath(path))`, whose result is not read.
  abbrev pub unlink_cache : OpEnv → Bytes → Client → Client
  unlink_cache env path c = record c {
    fs = (Posix.unlink env.unlink_refusal (cached c path) c.fs).1;
  }

  -- `open(cachepath(path), fi->flags)`; FUSE passes no `O_CREAT` and no `O_TRUNC`.
  unfoldable pub open_local : OpEnv → Bytes → Client → ℕ × Client
  open_local env path c = elim env.refusal [
    | some errno ↦ (failed_fh, c)
    | none ↦ elim (find (cached c path) c.fs) [
      | none ↦ (failed_fh, c)
      | some i ↦ (
        c.next_fd,
        record c {
          fds = λ fd. if c.next_fd == fd then some i else c.fds fd;
          next_fd = c.next_fd + 1;
        },
      )
    ]
  ]

  -- `fi->fh = open(…); if (fi->fh < 0) return -errno; … return 0;`, where `fh` has no sign.
  unfoldable pub give_file : OpEnv → Bytes → Client → Opened
  unfolding open_local
  give_file env path c =
      let (fh, c') = open_local env path c in
      if ltb fh 0
      then record { code = negate (or_errno env.refusal); fh = fh; client = c' }
      else record { code = pos 0; fh = fh; client = c' }
