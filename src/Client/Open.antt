-- ===== src/Client/Open.antt =====
-- `afs_open`.
use distributed_systems_afsv.Base.{
  none, some, false, List, [], ◌∷◌, if◌then◌else◌, negate, ℕ, Bytes, equal,
}
use distributed_systems_afsv.Client.{
  Client, OpEnv, Opened, append_blocks, last_block, is_ok, cached, set_modified, erase_modified,
  set_dirty, unlink_cache, give_file,
}
use distributed_systems_afsv.Client.Stub.{Stub}
use distributed_systems_afsv.Hash.{Sha256}
use distributed_systems_afsv.Modified
use distributed_systems_afsv.Modified.{local_creat_file}
use distributed_systems_afsv.Posix.{create, eio}
use distributed_systems_afsv.Proto.{MetaContent, Status}

module _ (sha : Sha256) where
  -- The cache file gets the blocks that came, if the stream to it opens; the code does not ask.
  unfoldable pub store_blocks : OpEnv → Bytes → List MetaContent → Client → Client
  unfolding append_blocks
  store_blocks env path msgs c = record c {
    fs = elim env.refusal [
      | some errno ↦ c.fs
      | none ↦
          (let (i, fs) = create (cached sha c path) env.now c.fs in append_blocks i env.now msgs fs)
    ];
  }

  -- `close(creat(cachepath(path), 00777))`, which may fail unseen.
  unfoldable pub creat_cache : OpEnv → Bytes → Client → Client
  creat_cache env path c = record c {
    fs = elim env.refusal [
      | some errno ↦ c.fs
      | none ↦ (create (cached sha c path) env.now c.fs).1
    ];
  }

  -- The end of `afs_open` behind a download.
  unfoldable pub finish_open : OpEnv → Bytes → Client → Opened
  finish_open env path c = give_file sha env path (set_dirty sha env path false c)

  -- `get file from server, or create a new one`, on what the stream gave.
  unfoldable pub receive : OpEnv → Bytes → ℕ → List MetaContent → Status → Client → Opened
  receive env path fh [] status c = record { code = negate eio; fh = fh; client = c }
  receive env path fh (msg ∷ more) status c =
      let c' = store_blocks env path (msg ∷ more) c in
      if msg.file_exists
      then (if is_ok status
          then finish_open env path (set_modified sha env path (last_block msg more).timestamp c')
          else record { code = negate eio; fh = fh; client = c' })
      else finish_open env path
          (creat_cache env path (set_modified sha env path local_creat_file c))

module _ (sha : Sha256) {R : Type 0} (stub : Stub R) where
  unfoldable pub download : OpEnv → Bytes → ℕ → R → Client → Opened
  download env path fh r c =
      let (msgs, status) = stub.get_content path r in receive sha env path fh msgs status c

  -- `fh` is what `fi->fh` held before.
  unfoldable pub afs_open : OpEnv → Bytes → ℕ → R → Client → Opened
  afs_open env path fh r c =
      let stat_content = stub.stat path r in
      if Modified.count sha path c.modified
      then (if equal (Modified.get sha path c.modified) local_creat_file
          then give_file sha env path c
          else if equal stat_content.st_mtim (Modified.get sha path c.modified)
          then give_file sha env path c
          else download env path fh r (unlink_cache sha env path (erase_modified sha path c)))
      else download env path fh r c
