-- ===== src/Examples/Names.antt =====
-- Names that go and come, at concrete inputs.
use distributed_systems_afsv.Base.{
  ◌≡◌, ◌≢◌, refl, ap, true, false, none, pos, negate, arith, equal, inr,
}
use distributed_systems_afsv.Base.Dict
use distributed_systems_afsv.Client.{Client, cached}
use distributed_systems_afsv.Hash.{cache_path, hash_path, hex_string, hex_digit, c_str}
use distributed_systems_afsv.System.Making.{Made, mknod_to_open}
use distributed_systems_afsv.Examples.Remote.{live-IsLive, dirty_client-shared, dirty_client-old}
use distributed_systems_afsv.Client.Mutate.{afs_unlink, afs_mkdir, afs_rmdir}
use distributed_systems_afsv.Dirty
use distributed_systems_afsv.Modified
use distributed_systems_afsv.Posix.{find, read_file, is_file, eexist}
use distributed_systems_afsv.Server.{fs_path, stat}
use distributed_systems_afsv.System.{afs_stub}
use distributed_systems_afsv.System.Names.{unlink_removes, rmdir-mkdir}
use distributed_systems_afsv.Examples.{
  sample_sha, path_a, path_b, server_root, sample_server, dirty_client, live, checksum, quiet,
  clean_client, one_file, cache_root,
}

path_b-ne-path_a : path_b ≢ path_a
path_b-ne-path_a h = omega (arith, ap checksum h)

sample_server-file : is_file (fs_path server_root path_b) sample_server.fs ≡ true
unfolding is_file fs_path Dict.lookup equal
sample_server-file = refl

pub sample_server-free : find (fs_path server_root path_a) sample_server.fs ≡ none
unfolding fs_path Dict.lookup equal
sample_server-free = refl

unlink_removes_example :
    let (code, s', c') =
      afs_unlink sample_sha
        (afs_stub sample_sha server_root live)
        quiet
        path_b
        sample_server
        dirty_client in
    (code ≡ pos 0)
    × (find (fs_path server_root path_b) s'.fs ≡ none)
    × (read_file (fs_path server_root path_a) s'.fs
        ≡ read_file (fs_path server_root path_a) sample_server.fs)
    × (is_file (cached sample_sha dirty_client path_b) c'.fs ≡ false)
    × (Modified.count sample_sha path_b c'.modified ≡ false)
    × (Dirty.get sample_sha path_b c'.dirty ≡ false)
unlink_removes_example =
    unlink_removes sample_sha server_root live refl refl quiet path_b path_a sample_server
      dirty_client refl sample_server-file path_b-ne-path_a

rmdir-mkdir_example :
    let (made, s1) = afs_mkdir (afs_stub sample_sha server_root live) path_a sample_server in
    let (again, s2) = afs_mkdir (afs_stub sample_sha server_root live) path_a s1 in
    let (removed, s3) = afs_rmdir (afs_stub sample_sha server_root live) path_a s1 in
    (made ≡ pos 0)
    × ((stat server_root none path_a s1).return_code ≡ pos 0)
    × ((again ≡ negate eexist) × (s2 ≡ s1))
    × (removed ≡ pos 0)
    × (find (fs_path server_root path_a) s3.fs ≡ none)
rmdir-mkdir_example =
    rmdir-mkdir sample_sha server_root live refl refl path_a sample_server sample_server-free

-- The first client has only another file in its cache, the second an older copy.
abbrev maker : Client
maker = record clean_client { fs = one_file (cache_path sample_sha cache_root path_b) }

maker-absent : find (cached sample_sha maker path_a) maker.fs ≡ none
unfolding cached Dict.lookup Dict.count equal hash_path hex_string c_str hex_digit
maker-absent = refl

mknod_to_open_example :
    Made sample_sha server_root live live path_a quiet quiet 0 sample_server maker clean_client
mknod_to_open_example =
    mknod_to_open sample_sha server_root live live path_a quiet quiet 0 sample_server maker
      clean_client live-IsLive refl refl sample_server-free refl maker-absent refl refl refl
      (omega arith) (inr (dirty_client-shared, dirty_client-old))
