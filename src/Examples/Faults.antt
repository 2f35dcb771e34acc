-- ===== src/Examples/Faults.antt =====
-- System calls that fail and are not looked at, at concrete inputs.
use distributed_systems_afsv.Examples.Remote.{
  one_file-IsFs, one_o_clock-shared, dirty_client-dirty, dirty_client-content,
}
use distributed_systems_afsv.Base.{◌≡◌, refl, false, none, arith, Bytes, codes, equal}
use distributed_systems_afsv.Base.Dict
use distributed_systems_afsv.Client.{Client, cached}
use distributed_systems_afsv.Hash.{hash_path, hex_string, hex_digit, c_str, cache_path}
use distributed_systems_afsv.Modified
use distributed_systems_afsv.Modified.{local_creat_file}
use distributed_systems_afsv.Posix.{find, read_file, mtime_of, is_file}
use distributed_systems_afsv.Posix.Laws.{IsFs}
use distributed_systems_afsv.Server.{Server, fs_path}
use distributed_systems_afsv.Server.Temporary.{Stored}
use distributed_systems_afsv.System.{Network}
use distributed_systems_afsv.System.Lost.{Lost, close_loses}
use distributed_systems_afsv.System.Unfilled.{Unfilled, open_without_copy}
use distributed_systems_afsv.Examples.{
  new_modified, sample_sha, path_a, path_b, server_root, cache_root, text, noon, one_o_clock,
  dirty_client, clean_client, one_file, file_inode, live, write_env, quiet, refusing,
}

-- The server has the file with another content than the client.
abbrev old_text : Bytes
old_text = codes "old"

abbrev older : Server
older = record {
  fs = record (one_file (fs_path server_root path_a)) {
    inodes = λ i. record file_inode { content = old_text };
  };
  locked = false;
}

older-IsFs : IsFs older.fs
older-IsFs =
    let w = one_file-IsFs (fs_path server_root path_a) in
    record { below = w.below; alone = w.alone }

older-Stored : Stored server_root path_a old_text noon older
unfolding fs_path read_file mtime_of is_file Dict.lookup equal
older-Stored = record { content = refl; mtime = refl; file = refl; free = refl }

-- `rename` fails at the server.
abbrev no_rename : Network
no_rename = record live { write_env = record write_env { renames = false } }

noon-one_o_clock : equal noon one_o_clock ≡ false
unfolding equal
noon-one_o_clock = refl

close_loses_example :
    Lost sample_sha server_root no_rename live quiet quiet path_a text old_text noon 3 3 older
      dirty_client
close_loses_example =
    close_loses sample_sha server_root no_rename live quiet quiet path_a text old_text noon 3 3
      older dirty_client older-IsFs older-Stored refl refl refl refl refl dirty_client-dirty
      dirty_client-content one_o_clock-shared noon-one_o_clock refl refl refl (omega arith)

-- A client that has another file in its cache.
abbrev stranger : Client
stranger = record clean_client {
  fs = one_file (cache_path sample_sha cache_root path_b);
  modified = new_modified;
}

stranger-unknown : Modified.count sample_sha path_a stranger.modified ≡ false
unfolding Modified.count Dict.count
stranger-unknown = refl

stranger-absent : find (cached sample_sha stranger path_a) stranger.fs ≡ none
unfolding cached Dict.lookup Dict.count equal hash_path hex_string c_str hex_digit
stranger-absent = refl

open_without_copy_example :
    Unfilled sample_sha server_root live live refusing quiet path_a old_text noon 0 0 older stranger
open_without_copy_example =
    open_without_copy sample_sha server_root live live refusing quiet path_a old_text noon 0 0 13
      older stranger stranger-unknown stranger-absent older-Stored refl refl refl (omega arith) refl
      refl
