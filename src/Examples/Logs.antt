-- ===== src/Examples/Logs.antt =====
-- Crashes in a call of `last_modified_t` at concrete inputs.
use distributed_systems_afsv.Base.{
  ◌≡◌, refl, false, none, some, [], ◌∷◌, pos, equal, replicate, take,
}
use distributed_systems_afsv.Base.Dict
use distributed_systems_afsv.Hash.{hash_path, hex_string, hex_digit, c_str}
use distributed_systems_afsv.Journal
use distributed_systems_afsv.Journal.{Disk, healthy, run, is_zero, next_counter}
use distributed_systems_afsv.Journal.Always.{Always}
use distributed_systems_afsv.Modified
use distributed_systems_afsv.Modified.{LastModified, boot}
use distributed_systems_afsv.Modified.Broken.{set-broken}
use distributed_systems_afsv.Modified.Crash.Calls.{Recovers, crash-Recovers}
use distributed_systems_afsv.Examples.{
  sample_sha, path_a, path_b, noon, one_o_clock, new_modified, new_disk,
}
use distributed_systems_afsv.Examples.Sessions.{new_modified-IsDurable, noon-IsTimespec}

crash-Recovers_example :
    let k = hash_path sample_sha path_a in
    Always
      (Recovers k [] (Dict.insert k noon []) healthy (pos 4))
      (Modified.set sample_sha healthy path_a noon new_modified).1
      new_disk
    × Always
        (Recovers k [] (Dict.erase k []) healthy (pos 4))
        (Modified.erase sample_sha path_a new_modified).1
        new_disk
crash-Recovers_example =
    crash-Recovers sample_sha healthy healthy (pos 4) path_a noon new_modified new_disk
      new_modified-IsDurable noon-IsTimespec refl

-- The process that starts on the name line of `path_a`.
abbrev started : LastModified
started = record new_modified { table = (hash_path sample_sha path_a, replicate 16 0) ∷ [] }

abbrev name_line : Disk
name_line = record new_disk { log = some (Modified.text_line (hash_path sample_sha path_a)) }

starts :
    boot healthy
      (pos 0)
      (run (take 1 (Modified.set sample_sha healthy path_a noon new_modified).1) new_disk)
    ≡ some (started, name_line)
unfolding boot Modified.load Modified.load_file Modified.load_loop Modified.load_entry
    Modified.read_into Journal.outcome Modified.set Modified.set_key Modified.is_set
    Modified.log_entry Modified.text_line run Journal.apply Journal.getline is_zero next_counter
    Dict.lookup Dict.insert Dict.count equal hash_path hex_string c_str hex_digit
starts = refl

not_set : Modified.is_set (hash_path sample_sha path_a) noon new_modified ≡ false
unfolding Modified.is_set Dict.lookup
not_set = refl

not_set_yet : Modified.is_set (hash_path sample_sha path_b) one_o_clock started ≡ false
unfolding Modified.is_set Dict.lookup equal hash_path hex_string c_str hex_digit
not_set_yet = refl

not_due : is_zero (next_counter (pos 0)) ≡ false
unfolding is_zero next_counter
not_due = refl

set-broken_example :
    boot healthy
      (pos 4)
      (run (Modified.set sample_sha healthy path_b one_o_clock started).1 name_line)
    ≡ none
set-broken_example =
    set-broken sample_sha healthy healthy healthy (pos 0) (pos 4) path_a path_b noon one_o_clock
      new_modified started new_disk name_line new_modified-IsDurable not_set refl starts not_set_yet
      not_due
