-- ===== src/Examples/Remote.antt =====
-- Client and server at concrete inputs.
use distributed_systems_afsv.Base.{
  ◌≡◌, ◌≢◌, inr, refl, ap, false, true, none, some, [], ◌∷◌, pos, negate, arith, length, equal,
  ◌++◌, Bytes, All, ◌≤◌, equal_iff,
}
use distributed_systems_afsv.Client.{Client, cached}
use distributed_systems_afsv.Client.Access.{afs_getattr, afs_truncate}
use distributed_systems_afsv.Client.Access.RoundTrip.{truncate_not_uploaded}
use distributed_systems_afsv.Client.Mutate.{afs_mknod, afs_unlink}
use distributed_systems_afsv.Client.Open.{afs_open}
use distributed_systems_afsv.Client.Release.{returned, afs_release}
use distributed_systems_afsv.Base.Dict
use distributed_systems_afsv.Dirty
use distributed_systems_afsv.Hash.{hash_path, hex_string, hex_digit, c_str}
use distributed_systems_afsv.Modified
use distributed_systems_afsv.Modified.{local_creat_file}
use distributed_systems_afsv.Posix.{read_file, is_file, eio, eexist}
use distributed_systems_afsv.Posix.Laws.{IsFs}
use distributed_systems_afsv.Proto.{ok, not_found, cancelled, no_stat}
use distributed_systems_afsv.Server.{Server, fs_path, write}
use distributed_systems_afsv.Server.Temporary.{Stored}
use distributed_systems_afsv.Server.Write.{write_replaces, write-cancelled, write-not_found}
use distributed_systems_afsv.Stream.{concat, send_file, bufsize, send_file_lem}
use distributed_systems_afsv.System.{afs_stub}
use distributed_systems_afsv.System.Close.{IsLive, Closed}
use distributed_systems_afsv.System.Down.{open_down_discards, names_down}
use distributed_systems_afsv.System.Opening.{Fresh}
use distributed_systems_afsv.System.Reopen.{close_to_open}
use distributed_systems_afsv.Examples.{
  checksum, sample_sha, path_a, path_b, text, one_o_clock, server_root, one_file, sample_server,
  dirty_client, clean_client, write_env, live, down, quiet, upload_of,
}

pub live-IsLive : IsLive live
live-IsLive = record { up = refl; opens = refl; live = refl; renames = refl }

path_a-ne-path_b : path_a ≢ path_b
path_a-ne-path_b h = omega (arith, ap checksum h)

pub dirty_client-dirty : Dirty.get sample_sha path_a dirty_client.dirty ≡ true
unfolding Dirty.get Dict.lookup Dict.count equal hash_path hex_string c_str hex_digit
dirty_client-dirty = refl

pub dirty_client-content :
    read_file (cached sample_sha dirty_client path_a) dirty_client.fs ≡ some text
unfolding cached read_file Dict.lookup Dict.count equal hash_path hex_string c_str hex_digit
dirty_client-content = refl

dirty_client-file : is_file (cached sample_sha dirty_client path_a) dirty_client.fs ≡ true
unfolding cached is_file Dict.lookup Dict.count equal hash_path hex_string c_str hex_digit
dirty_client-file = refl

dirty_client-known : Modified.count sample_sha path_a dirty_client.modified ≡ true
unfolding Modified.count Dict.lookup Dict.count equal hash_path hex_string c_str hex_digit
dirty_client-known = refl

pub dirty_client-shared :
    equal (Modified.get sample_sha path_a dirty_client.modified) local_creat_file ≡ false
unfolding Modified.get equal Dict.lookup Dict.count hash_path hex_string c_str hex_digit
dirty_client-shared = refl

dirty_client-stamped : equal [] (Modified.get sample_sha path_a dirty_client.modified) ≡ false
unfolding Modified.get equal Dict.lookup Dict.count hash_path hex_string c_str hex_digit
dirty_client-stamped = refl

pub dirty_client-old :
    equal one_o_clock (Modified.get sample_sha path_a dirty_client.modified) ≡ false
unfolding Modified.get equal Dict.lookup Dict.count hash_path hex_string c_str hex_digit
dirty_client-old = refl

pub one_file-IsFs : (path : Bytes) → IsFs (one_file path)
unfolding Dict.lookup
one_file-IsFs path = record {
  below = λ p i h. ground (arith, h);
  alone = λ p q i h k. ground (arith, equal_iff path p, equal_iff path q);
}

close_to_open_example :
    (closed : Closed sample_sha server_root live quiet path_a text 3 sample_server dirty_client)
    × Fresh sample_sha server_root live quiet path_a text one_o_clock 0 closed.server clean_client
close_to_open_example =
    close_to_open sample_sha server_root live live quiet quiet path_a text 3 0 sample_server
      dirty_client clean_client live-IsLive refl refl dirty_client-dirty dirty_client-content
      (omega arith) refl refl refl (omega arith) (inr (dirty_client-shared, dirty_client-old))

pub one_o_clock-shared : equal one_o_clock local_creat_file ≡ false
unfolding equal
one_o_clock-shared = refl

write_replaces_example :
    (s' : Server) × (write sample_sha server_root write_env
        (upload_of path_a ∷ upload_of path_a ∷ [])
        sample_server
      ≡ some (ok, one_o_clock, s'))
    × Stored server_root path_a (text ++ text) one_o_clock s'
    × (read_file (fs_path server_root path_b) s'.fs
        ≡ read_file (fs_path server_root path_b) sample_server.fs)
    × IsFs s'.fs
unfolding concat
write_replaces_example =
    write_replaces sample_sha server_root write_env path_a path_b (upload_of path_a)
      (upload_of path_a ∷ []) sample_server (one_file-IsFs (fs_path server_root path_b)) refl
      (refl, (refl, tt)) refl refl refl path_a-ne-path_b

write-cancelled_example :
    (s' : Server) × (write sample_sha server_root
        (record write_env { is_cancelled = true })
        (upload_of path_b ∷ [])
        sample_server
      ≡ some (cancelled, [], s'))
    × (read_file (fs_path server_root path_b) s'.fs
        ≡ read_file (fs_path server_root path_b) sample_server.fs)
    × (s'.locked ≡ false)
write-cancelled_example =
    write-cancelled sample_sha server_root (record write_env { is_cancelled = true })
      (upload_of path_b) [] sample_server path_b refl (one_file-IsFs (fs_path server_root path_b))
      refl refl

write-not_found_example :
    (s' : Server) × (write sample_sha server_root
        (record write_env { opens = false })
        (upload_of path_a ∷ [])
        sample_server
      ≡ some (not_found, [], s'))
    × (write sample_sha server_root write_env (upload_of path_b ∷ []) s' ≡ none)
write-not_found_example =
    write-not_found sample_sha server_root (record write_env { opens = false }) write_env
      (upload_of path_a ∷ []) (upload_of path_b ∷ []) sample_server refl refl

open_down_discards_example :
    let after =
      afs_open sample_sha
        (afs_stub sample_sha server_root down)
        quiet
        path_a
        0
        sample_server
        dirty_client in
    (after.code ≡ negate eio)
    × (read_file (cached sample_sha dirty_client path_a) after.client.fs ≡ none)
    × (Modified.count sample_sha path_a after.client.modified ≡ false)
    × (after.client.dirty ≡ dirty_client.dirty)
open_down_discards_example =
    open_down_discards sample_sha server_root down refl quiet path_a 0 sample_server dirty_client
      dirty_client-known dirty_client-shared dirty_client-stamped dirty_client-file refl

names_down_example :
    let (code, s', c') =
      afs_unlink sample_sha
        (afs_stub sample_sha server_root down)
        quiet
        path_b
        sample_server
        dirty_client in
    ((code ≡ pos 0) × (s' ≡ sample_server) × (Modified.count sample_sha path_b c'.modified ≡ false))
    × (afs_mknod sample_sha
          (afs_stub sample_sha server_root down)
          quiet
          path_b
          sample_server
          dirty_client
        ≡ returned (pos eexist) sample_server dirty_client)
    × (afs_getattr (afs_stub sample_sha server_root down) path_b sample_server
        ≡ (pos 0, some no_stat))
names_down_example =
    names_down sample_sha server_root down refl quiet path_b sample_server dirty_client

pub clean_client-clean : Dirty.get sample_sha path_a clean_client.dirty ≡ false
unfolding Dirty.get Dict.lookup
clean_client-clean = refl

truncate_not_uploaded_example :
    (d : Client) × (afs_release sample_sha
        (afs_stub sample_sha server_root live)
        quiet
        path_a
        3
        sample_server
        (afs_truncate sample_sha quiet path_a 2 clean_client).1
      ≡ returned (pos 0) sample_server d)
truncate_not_uploaded_example =
    truncate_not_uploaded sample_sha (afs_stub sample_sha server_root live) quiet quiet path_a 2 3
      sample_server clean_client clean_client-clean

send_file_lem_example :
    ((send_file bufsize 100 text).1 ≡ true)
    × (concat (send_file bufsize 100 text).0 ≡ text)
    × All (λ m. length m ≤ bufsize) (send_file bufsize 100 text).0
send_file_lem_example = send_file_lem 100 text (omega arith)
