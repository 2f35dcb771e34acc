-- ===== src/Examples.antt =====
-- The concrete inputs at which the theorems are applied: a digest that stands for SHA-256, a server
-- and a client with one file each, and the tables of a client that has just started.
mod Tables
mod Remote
mod Names
mod Calls
mod Sessions
mod Starts
mod Streams
mod Worlds
mod Runs
mod Apart
mod Crashes
mod Logs
mod Faults
use distributed_systems_afsv.Base.{
  ℕ, zero, suc, ◌+◌, ◌%◌, ◌<◌, ◌≡◌, refl, ap, pos, true, false, none, some, List, [], ◌∷◌, arith,
  Bytes, codes, length, replicate, All,
}
use distributed_systems_afsv.Client.{Client, OpEnv}
use distributed_systems_afsv.Dirty.{IsDirty}
use distributed_systems_afsv.Hash.{Sha256, hash_path, cache_path}
use distributed_systems_afsv.Journal.{Disk, healthy}
use distributed_systems_afsv.Modified.{LastModified, timespec_size}
use distributed_systems_afsv.Posix.{Fs, Inode, no_attributes}
use distributed_systems_afsv.Proto.{FilepathContent}
use distributed_systems_afsv.Server.{Server, WriteEnv, fs_path}
use distributed_systems_afsv.System.{Network}

abbrev pub checksum : Bytes → ℕ
checksum [] = 0
checksum (c ∷ cs) = c + checksum cs

abbrev sample_digest : Bytes → Bytes
sample_digest m = checksum m % 256 ∷ replicate 31 0

zeros-bytes : (n : ℕ) → All (λ b. b < 256) (replicate n 0)
zeros-bytes zero = tt
zeros-bytes (suc n) = (omega arith, zeros-bytes n)

pub sample_digest-bytes : (m : Bytes) → All (λ b. b < 256) (sample_digest m)
sample_digest-bytes m = (omega arith, zeros-bytes 31)

-- A digest of 32 bytes: the sum of the bytes, and zeros.
abbrev pub sample_sha : Sha256
sample_sha = record {
  digest = sample_digest;
  digest_length = λ m. refl;
  digest_bytes = sample_digest-bytes;
}

-- Two paths with different digests.
abbrev pub path_a : Bytes
path_a = codes "/a"

abbrev pub path_b : Bytes
path_b = codes "/b"

abbrev pub text : Bytes
text = codes "hello"

abbrev pub noon : Bytes
noon = replicate timespec_size 12

abbrev pub one_o_clock : Bytes
one_o_clock = replicate timespec_size 13

abbrev pub server_root : Bytes
server_root = codes "/srv/"

abbrev pub cache_root : Bytes
cache_root = codes "/tmp/"

-- The files of a table when its first process has started.
abbrev pub new_disk : Disk
new_disk = record { snapshot = none; log = some []; tmp = none }

abbrev pub new_dirty : IsDirty
new_dirty = record { table = []; log_is_open = true; counter = pos 0 }

abbrev pub new_modified : LastModified
new_modified = record { table = []; log_is_open = true; counter = pos 0 }

abbrev pub file_inode : Inode
file_inode = record { is_dir = false; content = text; mtime = noon; attributes = no_attributes }

-- One file, under one name.
abbrev pub one_file : Bytes → Fs
one_file path = record { names = (path, 0) ∷ []; inodes = λ i. file_inode; next = 1 }

abbrev pub sample_server : Server
sample_server = record { fs = one_file (fs_path server_root path_b); locked = false }

-- A client with a cached copy of `path_a`, dirty or not.
abbrev pub dirty_client : Client
dirty_client = record {
  cache_root = cache_root;
  modified = record new_modified { table = (hash_path sample_sha path_a, noon) ∷ [] };
  modified_disk = new_disk;
  dirty = record new_dirty { table = (hash_path sample_sha path_a, true) ∷ [] };
  dirty_disk = new_disk;
  fs = one_file (cache_path sample_sha cache_root path_a);
  fds = λ fd. some 0;
  next_fd = 3;
}

abbrev pub clean_client : Client
clean_client = record dirty_client { dirty = new_dirty }

abbrev pub write_env : WriteEnv
write_env = record {
  opens = true;
  now = one_o_clock;
  is_cancelled = false;
  uninitialised = [];
  renames = true;
}

abbrev pub live : Network
live = record { up = true; budget = 100; write_env = write_env; kernel = none; names = [] }

abbrev pub down : Network
down = record live { up = false }

abbrev pub quiet : OpEnv
quiet = record {
  modified_env = healthy;
  dirty_env = healthy;
  refusal = none;
  unlink_refusal = none;
  now = one_o_clock;
  budget = 100;
}

-- The local system refuses with `EACCES`.
abbrev pub refusing : OpEnv
refusing = record quiet { refusal = some 13 }

abbrev pub upload_of : Bytes → FilepathContent
upload_of path = record { filepath = path; b = text }
