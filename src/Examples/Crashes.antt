-- ===== src/Examples/Crashes.antt =====
-- Crashes of the client at concrete inputs.
use distributed_systems_afsv.Base.{
  ◌≡◌, refl, true, false, some, pos, arith, codes, equal, inr, take, sym, ap, ◌∙◌,
}
use distributed_systems_afsv.Base.Dict
use distributed_systems_afsv.Client.{Client, cached}
use distributed_systems_afsv.Client.Crash.{survivors, land_all, unlink_writes, write_writes}
use distributed_systems_afsv.Dirty
use distributed_systems_afsv.Hash.{hash_path, hex_string, hex_digit, c_str}
use distributed_systems_afsv.Hash.Keys.{hash_path-IsKey}
use distributed_systems_afsv.Journal.{Disk, healthy}
use distributed_systems_afsv.Modified
use distributed_systems_afsv.Modified.{LastModified, boot}
use distributed_systems_afsv.Posix.{read_file, is_file, mtime_of}
use distributed_systems_afsv.Server.{Server, fs_path}
use distributed_systems_afsv.Server.Temporary.{Stored}
use distributed_systems_afsv.Start.{with_slash}
use distributed_systems_afsv.Start.Mounted.{IsDurable}
use distributed_systems_afsv.System.{afs_stub}
use distributed_systems_afsv.System.Crash.{Restored, crashed_at}
use distributed_systems_afsv.System.Crash.Closing.{crash-Restored}
use distributed_systems_afsv.System.Crash.Reading.{ReadsNow, crash-Reads}
use distributed_systems_afsv.Client.Access.{afs_write}
use distributed_systems_afsv.System.Crash.Writing.{Marked, crash-Marked}
use distributed_systems_afsv.System.Crash.Removal.{Ghost, unlink-Ghost}
use distributed_systems_afsv.System.Tables.{dirty_get-set, modified_get-set, modified_count-set}
use distributed_systems_afsv.Examples.Remote.{one_file-IsFs, dirty_client-content}
use distributed_systems_afsv.Examples.{
  sample_sha, path_a, text, noon, one_o_clock, server_root, one_file, dirty_client, new_modified,
  new_disk, new_dirty, live, quiet,
}
use distributed_systems_afsv.Examples.Sessions.{
  new_dirty-IsDurable, one_entry, one_entry-IsDurable, new_modified-IsDurable, noon-IsTimespec,
}

-- One stamp, and its files.
abbrev stamped : LastModified × Disk
stamped = Modified.commit (Modified.set sample_sha healthy path_a noon new_modified) new_disk

stamped-IsDurable : Modified.Calls.IsDurable stamped.0 stamped.1
unfolding Modified.set
stamped-IsDurable =
    Modified.Calls.set_key-IsDurable healthy (hash_path sample_sha path_a) noon new_modified
      new_disk (hash_path-IsKey sample_sha path_a) noon-IsTimespec new_modified-IsDurable refl refl

-- A client with a write to upload, whose files agree with its tables.
abbrev logged_client : Client
logged_client = record dirty_client {
  modified = stamped.0;
  modified_disk = stamped.1;
  dirty = one_entry.0;
  dirty_disk = one_entry.1;
}

logged_client-IsDurable : IsDurable logged_client
logged_client-IsDurable = record { modified = stamped-IsDurable; dirty = one_entry-IsDurable }

-- The server that it got the file from.
abbrev origin : Server
origin = record { fs = one_file (fs_path server_root path_a); locked = false }

origin-Stored : Stored server_root path_a text noon origin
unfolding fs_path read_file mtime_of is_file Dict.lookup equal
origin-Stored = record { content = refl; mtime = refl; file = refl; free = refl }

root-slash : logged_client.cache_root ≡ with_slash (codes "/tmp")
unfolding with_slash
root-slash = refl

one_o_clock-IsTimespec : Modified.Replay.IsTimespec one_o_clock
unfolding equal
one_o_clock-IsTimespec = record { size = refl; not_erased = refl }

logged_client-dirty : Dirty.get sample_sha path_a logged_client.dirty ≡ true
logged_client-dirty = dirty_get-set sample_sha healthy path_a true new_dirty

logged_client-known : Modified.count sample_sha path_a logged_client.modified ≡ true
logged_client-known = modified_count-set sample_sha healthy path_a noon new_modified

logged_client-stamp : Modified.get sample_sha path_a logged_client.modified ≡ noon
logged_client-stamp = modified_get-set sample_sha healthy path_a noon new_modified

logged_client-content :
    read_file (cached sample_sha logged_client path_a) logged_client.fs ≡ some text
unfolding cached
logged_client-content = unfold cached in dirty_client-content

logged_client-file : is_file (cached sample_sha logged_client path_a) logged_client.fs ≡ true
unfolding cached is_file Dict.lookup Dict.count equal hash_path hex_string c_str hex_digit
logged_client-file = refl

-- A crash behind the upload and one write to the log of `is_dirty_t`.
crash-Restored_example :
    Restored sample_sha server_root live quiet path_a text
      (codes "/tmp")
      healthy
      (pos 4)
      healthy
      (pos 4)
      origin
      logged_client
      (crashed_at sample_sha server_root live quiet path_a 2 origin logged_client)
crash-Restored_example =
    crash-Restored sample_sha server_root live quiet path_a text (codes "/tmp") healthy (pos 4)
      healthy (pos 4) origin logged_client logged_client-IsDurable root-slash
      (one_file-IsFs (fs_path server_root path_a)) one_o_clock-IsTimespec refl refl refl refl refl
      logged_client-dirty logged_client-content (omega arith) 2

-- A crash behind the name line of `last_modified_t`.
crash-Reads_example :
    let x = crashed_at sample_sha server_root live quiet path_a 3 origin logged_client in
    (r : Restored sample_sha server_root live quiet path_a text
      (codes "/tmp")
      healthy
      (pos 4)
      healthy
      (pos 4)
      origin
      logged_client
      x)
    × ReadsNow sample_sha server_root live path_a quiet 0 x.server r.client text
crash-Reads_example =
    crash-Reads sample_sha server_root live live quiet quiet path_a text (codes "/tmp") healthy
      (pos 4) healthy (pos 4) 0 origin logged_client logged_client-IsDurable root-slash
      (one_file-IsFs (fs_path server_root path_a)) one_o_clock-IsTimespec refl refl refl refl refl
      logged_client-dirty logged_client-content (omega arith)
      (logged_client-known, inr (origin-Stored.mtime ∙ ap some (sym logged_client-stamp))) refl refl
      refl (omega arith) 3

unlink-Ghost_example :
    Ghost sample_sha server_root live path_a text noon
      (codes "/tmp")
      healthy
      (pos 4)
      healthy
      (pos 4)
      quiet
      0
      (land_all
        (take 1 (
          unlink_writes sample_sha
            (afs_stub sample_sha server_root live)
            quiet
            path_a
            origin
            logged_client))
        (survivors origin logged_client))
unlink-Ghost_example =
    unlink-Ghost sample_sha server_root live live path_a text noon (codes "/tmp") healthy (pos 4)
      healthy (pos 4) quiet quiet 0 origin logged_client refl logged_client-IsDurable refl refl
      root-slash logged_client-file logged_client-known logged_client-stamp origin-Stored refl refl

-- A crash of a write behind the line that marks the file.
abbrev clean_logged : Client
clean_logged = record logged_client { dirty = new_dirty; dirty_disk = new_disk }

clean_logged-IsDurable : IsDurable clean_logged
clean_logged-IsDurable = record {
  modified = stamped-IsDurable;
  dirty = new_dirty-IsDurable (pos 0);
}

clean_logged-root : clean_logged.cache_root ≡ with_slash (codes "/tmp")
unfolding with_slash
clean_logged-root = refl

crash-Marked_example :
    Marked sample_sha quiet path_a
      (codes "abc")
      (codes "/tmp")
      7
      3
      healthy
      (pos 4)
      healthy
      (pos 4)
      origin
      clean_logged
      (land_all
        (take 1 (write_writes sample_sha quiet path_a (codes "abc") 7 3 clean_logged))
        (survivors origin clean_logged))
    × (land_all
          (write_writes sample_sha quiet path_a (codes "abc") 7 3 clean_logged)
          (survivors origin clean_logged)
        ≡ survivors origin (afs_write sample_sha quiet path_a (codes "abc") 7 3 clean_logged).1)
crash-Marked_example =
    crash-Marked sample_sha quiet path_a (codes "abc") (codes "/tmp") 7 3 healthy (pos 4) healthy
      (pos 4) origin clean_logged clean_logged-IsDurable clean_logged-root refl refl refl 1
