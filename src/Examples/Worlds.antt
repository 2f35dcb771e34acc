-- ===== src/Examples/Worlds.antt =====
-- Snapshots and calls that meet, at concrete inputs.
use distributed_systems_afsv.Base.{
  ◌≡◌, ◌≢◌, ap, refl, pos, Bool, true, false, some, List, [], ◌∷◌, arith, Bytes, equal,
}
use distributed_systems_afsv.Base.Dict
use distributed_systems_afsv.Dirty
use distributed_systems_afsv.Dirty.{IsDirty}
use distributed_systems_afsv.Dirty.Cadence.{AllChange, Snapshot, ten_sets-Snapshot}
use distributed_systems_afsv.Dirty.Lost.{set_rename_loses}
use distributed_systems_afsv.Dirty.Restart.{Restarts}
use distributed_systems_afsv.Hash.{hash_path, hex_string, hex_digit, c_str}
use distributed_systems_afsv.Journal.{Disk, Env, healthy, run, next_counter, is_zero}
use distributed_systems_afsv.Modified
use distributed_systems_afsv.Modified.{LastModified}
use distributed_systems_afsv.Modified.Marker.{IsFresh, behind, Resurrects, set-Resurrects}
use distributed_systems_afsv.Modified.Replay.{IsTimespec}
use distributed_systems_afsv.Hash.Keys.{hash_path-IsKey}
use distributed_systems_afsv.Posix.{find}
use distributed_systems_afsv.Server.{fs_path}
use distributed_systems_afsv.System.Mixed.{mixed_open_stays, opened, replaced}
use distributed_systems_afsv.System.Opening.{Fresh}
use distributed_systems_afsv.Server.Temporary.{Stored, payload}
use distributed_systems_afsv.Examples.{
  sample_sha, path_a, path_b, text, noon, one_o_clock, server_root, sample_server, dirty_client,
  new_dirty, new_modified, checksum, new_disk, live, quiet, write_env, upload_of,
}
use distributed_systems_afsv.Examples.Remote.{one_file-IsFs, one_o_clock-shared}
use distributed_systems_afsv.Examples.Sessions.{new_dirty-IsDurable, noon-IsTimespec}

-- The system refuses `rename`.
abbrev stuck : Env
stuck = record healthy { renames = false }

abbrev due : IsDirty
due = record new_dirty { counter = pos 9 }

due-changes : Dirty.is_set (hash_path sample_sha path_a) true due ≡ false
unfolding Dirty.is_set Dict.lookup
due-changes = refl

due-due : is_zero (next_counter due.counter) ≡ true
unfolding is_zero next_counter
due-due = refl

set_rename_loses_example :
    (Dirty.get sample_sha path_a (Dirty.set sample_sha stuck path_a true due).0 ≡ true)
    × Restarts [] healthy (pos 4) (run (Dirty.set sample_sha stuck path_a true due).1 new_disk)
set_rename_loses_example =
    set_rename_loses sample_sha stuck healthy (pos 4) path_a true [] due new_disk due-changes
      due-due refl refl refl refl refl (new_dirty-IsDurable (pos 9)).holds

-- The same file, closed and written in turn.
abbrev turns : List (Bytes × Bool)
turns =
    (path_a, true)
    ∷ (path_a, false)
    ∷ (path_a, true)
    ∷ (path_a, false)
    ∷ (path_a, true)
    ∷ (path_a, false)
    ∷ (path_a, true)
    ∷ (path_a, false)
    ∷ (path_a, true)
    ∷ (path_a, false)
    ∷ []

turns-change : AllChange healthy turns new_dirty
unfolding Dirty.is_set Dirty.set_key Dirty.do_snapshot Dict.lookup Dict.insert Dict.count equal
    is_zero next_counter
turns-change = (refl, (refl, (refl, (refl, (refl, (refl, (refl, (refl, (refl, (refl, tt))))))))))

ten_sets-Snapshot_example : Snapshot healthy turns new_dirty
ten_sets-Snapshot_example =
    ten_sets-Snapshot healthy turns new_dirty turns-change (omega arith) (refl, refl, refl)

sample_server-found : find (fs_path server_root path_b) sample_server.fs ≡ some 0
unfolding fs_path Dict.lookup equal
sample_server-found = refl

dirty_client-unknown : Modified.count sample_sha path_b dirty_client.modified ≡ false
unfolding Modified.count Dict.lookup Dict.count equal hash_path hex_string c_str hex_digit
dirty_client-unknown = refl

mixed_open_stays_example :
    Fresh sample_sha server_root live quiet path_b text one_o_clock 0
      (replaced sample_sha server_root live noon path_b quiet quiet write_env
        (upload_of path_b ∷ upload_of path_b ∷ [])
        0
        sample_server
        dirty_client)
      (opened sample_sha server_root live noon path_b quiet quiet write_env
        (upload_of path_b ∷ upload_of path_b ∷ [])
        0
        sample_server
        dirty_client
        0)
    × Stored server_root path_b (payload (upload_of path_b ∷ upload_of path_b ∷ [])) one_o_clock (
        replaced sample_sha server_root live noon path_b quiet quiet write_env
          (upload_of path_b ∷ upload_of path_b ∷ [])
          0
          sample_server
          dirty_client)
mixed_open_stays_example =
    mixed_open_stays sample_sha server_root live noon path_b quiet quiet write_env
      (upload_of path_b ∷ upload_of path_b ∷ []) 0 sample_server dirty_client 0 0 (one_file-IsFs _)
      sample_server-found refl (omega arith) refl dirty_client-unknown refl refl refl
      one_o_clock-shared

-- A table right behind its snapshot, and due for the next.
abbrev stamped : LastModified
stamped = record new_modified { table = (hash_path sample_sha path_a, noon) ∷ []; counter = pos 9 }

abbrev stamped_disk : Disk
stamped_disk = record new_disk {
  snapshot = some (Modified.Replay.encode_all (Modified.Replay.records stamped.table));
}

stamped-IsFresh : IsFresh stamped stamped_disk
unfolding Dict.lookup
stamped-IsFresh = record {
  is_open = refl;
  unique = (refl, tt);
  keyed = ((hash_path-IsKey sample_sha path_a, noon-IsTimespec), tt);
  snapshot = refl;
  log = refl;
}

hash_a-ne-hash_b : hash_path sample_sha path_a ≢ hash_path sample_sha path_b
unfolding hash_path hex_string c_str hex_digit
hash_a-ne-hash_b h = omega (arith, ap checksum h)

one_o_clock-IsTimespec : IsTimespec one_o_clock
unfolding equal
one_o_clock-IsTimespec = record { size = refl; not_erased = refl }

stamped-known : Modified.count sample_sha path_a stamped ≡ true
unfolding Modified.count Dict.lookup Dict.count equal hash_path hex_string c_str hex_digit
stamped-known = refl

stamped-changes :
    Modified.is_set
      (hash_path sample_sha path_b)
      one_o_clock
      (behind sample_sha healthy healthy (pos 4) path_a path_b one_o_clock stamped stamped_disk).0
    ≡ false
unfolding Modified.is_set Modified.erase Dict.lookup Dict.count Dict.erase equal hash_path
    hex_string c_str hex_digit
stamped-changes = refl

stamped-due : is_zero (next_counter stamped.counter) ≡ true
unfolding is_zero next_counter
stamped-due = refl

set-Resurrects_example :
    (Modified.count sample_sha path_a
        (behind sample_sha healthy healthy (pos 4) path_a path_b one_o_clock stamped stamped_disk).0
      ≡ false)
    × Resurrects sample_sha healthy healthy (pos 4) path_a path_b one_o_clock stamped stamped_disk
set-Resurrects_example =
    set-Resurrects sample_sha healthy healthy (pos 4) path_a path_b one_o_clock stamped stamped_disk
      stamped-IsFresh one_o_clock-IsTimespec hash_a-ne-hash_b stamped-known stamped-changes
      stamped-due refl refl refl
