-- ===== src/System/Names.antt =====
-- `afs_unlink`, `afs_mkdir` and `afs_rmdir` of the client on a server that answers.
use distributed_systems_afsv.Base.{
  ◌≡◌, ◌≢◌, refl, ap, ◌∙◌, ℕ, true, false, none, some, pos, negate, arith, Bytes, equal, equal_refl,
  equal_ne,
}
use distributed_systems_afsv.Base.Dict
use distributed_systems_afsv.Client.{Client, OpEnv, cached}
use distributed_systems_afsv.Client.Mutate.{afs_unlink, afs_mkdir, afs_rmdir}
use distributed_systems_afsv.Dirty
use distributed_systems_afsv.Dirty.{IsDirty}
use distributed_systems_afsv.Dirty.Session.{lookup-erase_key}
use distributed_systems_afsv.Hash.{Sha256, hash_path}
use distributed_systems_afsv.Modified
use distributed_systems_afsv.Posix
use distributed_systems_afsv.Posix.{Fs, find, read_file, is_file, eexist, make}
use distributed_systems_afsv.Posix.Dirs.{mkdir_new, mkdir_there, rmdir_there, make-find}
use distributed_systems_afsv.Posix.Laws.{unlink_gone}
use distributed_systems_afsv.Server
use distributed_systems_afsv.Server.{Server, fs_path, stat}
use distributed_systems_afsv.Server.Temporary.{fs_path_injective}
use distributed_systems_afsv.System.{Network, afs_stub}
use distributed_systems_afsv.System.Tables.{modified_count-erase}

dirty_get-erase :
    (sha : Sha256) (path : Bytes) (m : IsDirty)
    → Dirty.get sha path (Dirty.erase sha path m).0 ≡ false
unfolding Dirty.get Dirty.erase
dirty_get-erase sha path m =
    let k = hash_path sha path in ground (arith, lookup-erase_key k k m, equal_refl k)

unlink_result :
    (path : Bytes) (fs : Fs) → is_file path fs ≡ true → (Posix.unlink none path fs).0 ≡ 0
unfolding Posix.unlink is_file
unlink_result path fs h = ground (arith, h)

unlink_no_file : (path : Bytes) (fs : Fs) → is_file path (Posix.unlink none path fs).1 ≡ false
unfolding Posix.unlink is_file
unlink_no_file path fs = ground (arith, Dict.lookup-erase path path fs.names, equal_refl path)

unlink_other :
    (path q : Bytes) (fs : Fs)
    → equal path q ≡ false
    → read_file q (Posix.unlink none path fs).1 ≡ read_file q fs
unfolding Posix.unlink read_file
unlink_other path q fs ne = ground (arith, Dict.lookup-erase path q fs.names, ne)

module _ (sha : Sha256) (root : Bytes) (net : Network) (up : net.up ≡ true)
    (answers : net.kernel ≡ none) where
  -- When the server answers and has the file, and the local system does not refuse to remove the
  -- cached copy, `afs_unlink` returns 0: the server no longer has the name, every other file keeps
  -- its content, and the client has no cached copy, no timestamp and nothing to upload for the
  -- file.
  pub unlink_removes :
      (env : OpEnv) (path q : Bytes) (s : Server) (c : Client)
      → env.unlink_refusal ≡ none
      → is_file (fs_path root path) s.fs ≡ true
      → path ≢ q
      → let (code, s', c') = afs_unlink sha (afs_stub sha root net) env path s c in
        (code ≡ pos 0)
        × (find (fs_path root path) s'.fs ≡ none)
        × (read_file (fs_path root q) s'.fs ≡ read_file (fs_path root q) s.fs)
        × (is_file (cached sha c path) c'.fs ≡ false)
        × (Modified.count sha path c'.modified ≡ false)
        × (Dirty.get sha path c'.dirty ≡ false)
  unfolding afs_unlink Server.unlink
  unlink_removes env path q s c works file ne =
      let done = unlink_result (fs_path root path) s.fs file in
      let apart = equal_ne _ _ (λ e. ne (fs_path_injective sha root path q e)) in
      (
        rw (up, answers, done) refl,
        rw (up, answers) (unlink_gone (fs_path root path) s.fs file),
        rw (up, answers) (unlink_other (fs_path root path) (fs_path root q) s.fs apart),
        rw works (unlink_no_file (cached sha c path) c.fs),
        modified_count-erase sha path c.modified,
        dirty_get-erase sha path c.dirty,
      )

  afs_mkdir_new :
      (path : Bytes) (s : Server)
      → find (fs_path root path) s.fs ≡ none
      → afs_mkdir (afs_stub sha root net) path s
        ≡ (pos 0, record s { fs = make true (fs_path root path) net.write_env.now s.fs })
  unfolding afs_mkdir Server.mkdir
  afs_mkdir_new path s missing =
      rw (up, answers, mkdir_new (fs_path root path) net.write_env.now s.fs missing) refl

  module _ (path : Bytes) (s : Server) (i : ℕ)
      (there : find (fs_path root path) s.fs ≡ some i) where
    afs_mkdir_there : afs_mkdir (afs_stub sha root net) path s ≡ (negate eexist, s)
    unfolding afs_mkdir Server.mkdir
    afs_mkdir_there =
        rw (up, answers, mkdir_there (fs_path root path) net.write_env.now i s.fs there) refl

    afs_rmdir_there :
        (s.fs.inodes i).is_dir ≡ true
        → afs_rmdir (afs_stub sha root net) path s ≡ (
          pos 0,
          record s { fs = record s.fs { names = Dict.erase (fs_path root path) s.fs.names } },
        )
    unfolding afs_rmdir Server.rmdir
    afs_rmdir_there dir = rw (up, answers, rmdir_there (fs_path root path) i s.fs there dir) refl

  -- When the server answers and has no such name, `afs_mkdir` returns 0 and `Stat` then finds the
  -- name; another `afs_mkdir` returns -EEXIST and changes nothing, and an `afs_rmdir` instead
  -- returns 0 and the name is gone.
  pub rmdir-mkdir :
      (path : Bytes) (s : Server)
      → find (fs_path root path) s.fs ≡ none
      → let (made, s1) = afs_mkdir (afs_stub sha root net) path s in
        let (again, s2) = afs_mkdir (afs_stub sha root net) path s1 in
        let (removed, s3) = afs_rmdir (afs_stub sha root net) path s1 in
        (made ≡ pos 0)
        × ((stat root none path s1).return_code ≡ pos 0)
        × ((again ≡ negate eexist) × (s2 ≡ s1))
        × (removed ≡ pos 0)
        × (find (fs_path root path) s3.fs ≡ none)
  rmdir-mkdir path s missing =
      let name = fs_path root path in
      let s1 : Server = record s { fs = make true name net.write_env.now s.fs } in
      let (there, dir) = make-find name net.write_env.now s.fs in
      let again = afs_mkdir_there path s1 s.fs.next there in
      let removed = afs_rmdir_there path s1 s.fs.next there dir in
      rw (afs_mkdir_new path s missing) (
        refl,
        unfold stat in rw (stat, there) refl,
        (ap (λ r. r.0) again, ap (λ r. r.1) again),
        ap (λ r. r.0) removed,
        ap (λ r. find name r.1.fs) removed
            ∙ Dict.lookup-erase name name s1.fs.names
            ∙ rw (equal_refl name) refl,
      )
