-- ===== src/Examples/Sessions.antt =====
-- Sessions, crashes and torn logs at concrete inputs.
use distributed_systems_afsv.Base.{
  ◌≡◌, ◌⊎◌, refl, false, true, none, List, [], ◌∷◌, pos, negsuc, ℤ, equal, Bool, Option, Bytes,
}
use distributed_systems_afsv.Base.Dict
use distributed_systems_afsv.Base.Dict.{Dict, NodupKeys}
use distributed_systems_afsv.Hash.{hash_path}
use distributed_systems_afsv.Journal.{Disk, append_log, healthy, apply, run, next_counter, is_zero}
use distributed_systems_afsv.Journal.Always.{Always}
use distributed_systems_afsv.Dirty
use distributed_systems_afsv.Dirty.{IsDirty}
use distributed_systems_afsv.Dirty.Recovery.{set_key-IsDurable}
use distributed_systems_afsv.Hash.Keys.{hash_path-IsKey}
use distributed_systems_afsv.Dirty.Session.{steps-Refines}
use distributed_systems_afsv.Dirty.Crash.{crash-Restarts}
use distributed_systems_afsv.Modified
use distributed_systems_afsv.Modified.{local_creat_file, load, boot, set_key}
use distributed_systems_afsv.Modified.Replay.{IsTimespec}
use distributed_systems_afsv.Modified.Session.{sessions-Refines}
use distributed_systems_afsv.Modified.LocalFile.{set_local_aborts}
use distributed_systems_afsv.Examples.{
  sample_sha, path_a, path_b, text, noon, new_disk, new_dirty, new_modified,
}

pub new_dirty-IsDurable :
    (counter : ℤ) → Dirty.Recovery.IsDurable (record new_dirty { counter = counter }) new_disk
unfolding Dirty.Replay.encode_all Dirty.Replay.verdict Dict.lookup
new_dirty-IsDurable counter = record {
  is_open = refl;
  unique = tt;
  keyed = tt;
  holds = record {
    snap = [];
    logged = [];
    snapshot_file = refl;
    log_file = refl;
    snap_keys = tt;
    log_keys = tt;
    agrees = λ k. refl;
  };
}

pub new_modified-IsDurable : Modified.Calls.IsDurable new_modified new_disk
unfolding Modified.Replay.encode_all Modified.Replay.replay Dict.lookup
new_modified-IsDurable = record {
  is_open = refl;
  unique = tt;
  keyed = tt;
  holds = record {
    snap = [];
    logged = [];
    snapshot_file = refl;
    log_file = refl;
    snap_readable = tt;
    log_readable = tt;
    agrees = λ k. refl;
  };
}

pub noon-IsTimespec : IsTimespec noon
unfolding equal
noon-IsTimespec = record { size = refl; not_erased = refl }

abbrev nothing : Bytes → Option Bool
nothing k = none

abbrev no_stamp : Bytes → Option Bytes
no_stamp k = none

new_dirty-Refines : Dirty.Session.Refines nothing new_dirty new_disk
unfolding Dict.lookup
new_dirty-Refines = record { durable = new_dirty-IsDurable (pos 0); shows = λ k. refl }

new_modified-Refines : Modified.Session.Refines no_stamp new_modified new_disk
unfolding Dict.lookup
new_modified-Refines = record { durable = new_modified-IsDurable; shows = λ k. refl }

-- A write, a crash of the process between calls, an upload, and an `unlink`.
abbrev dirty_events : List Dirty.Session.Event
dirty_events =
    Dirty.Session.setting healthy path_a true
    ∷ Dirty.Session.restarting healthy (negsuc 6)
    ∷ Dirty.Session.setting healthy path_b false
    ∷ Dirty.Session.erasing path_a
    ∷ []

steps-Refines_example :
    Dirty.Session.StepTo
      (Dirty.Session.spec sample_sha dirty_events nothing)
      (Dirty.Session.steps sample_sha dirty_events (new_dirty, new_disk))
steps-Refines_example =
    steps-Refines sample_sha dirty_events nothing new_dirty new_disk
      ((refl, refl), (refl, ((refl, refl), (tt, tt)))) new_dirty-Refines

abbrev modified_events : List Modified.Session.Event
modified_events =
    Modified.Session.setting healthy path_a noon
    ∷ Modified.Session.restarting healthy (negsuc 6)
    ∷ Modified.Session.erasing path_a
    ∷ []

sessions-Refines_example :
    Modified.Session.StepTo
      (Modified.Session.spec sample_sha modified_events no_stamp)
      (Modified.Session.steps sample_sha modified_events (new_modified, new_disk))
sessions-Refines_example =
    sessions-Refines sample_sha modified_events no_stamp new_modified new_disk
      ((refl, refl, noon-IsTimespec), (refl, (tt, tt))) new_modified-Refines

-- A table with one entry, and its files.
abbrev pub one_entry : IsDirty × Disk
one_entry = Dirty.commit (Dirty.set sample_sha healthy path_a true new_dirty) new_disk

pub one_entry-IsDurable : Dirty.Recovery.IsDurable one_entry.0 one_entry.1
unfolding Dirty.set
one_entry-IsDurable =
    set_key-IsDurable healthy (hash_path sample_sha path_a) true new_dirty new_disk
      (hash_path-IsKey sample_sha path_a) (new_dirty-IsDurable (pos 0)) refl refl

crash-Restarts_example :
    let k = hash_path sample_sha path_b in
    let before = Dirty.Restart.Restarts one_entry.0.table healthy (pos 4) in
    Always
      (λ d'.
        before d'
        ⊎ Dirty.Restart.Restarts (Dict.insert k true one_entry.0.table) healthy (pos 4) d')
      (Dirty.set sample_sha healthy path_b true one_entry.0).1
      one_entry.1
    × Always
        (λ d'.
          before d' ⊎ Dirty.Restart.Restarts (Dict.erase k one_entry.0.table) healthy (pos 4) d')
        (Dirty.erase sample_sha path_b one_entry.0).1
        one_entry.1
crash-Restarts_example =
    crash-Restarts sample_sha healthy healthy (pos 4) path_b true one_entry.0 one_entry.1
      one_entry-IsDurable refl refl

not_due : is_zero (next_counter new_modified.counter) ≡ false
unfolding is_zero next_counter
not_due = refl

local_not_set : Modified.is_set (hash_path sample_sha path_a) local_creat_file new_modified ≡ false
unfolding Modified.is_set Dict.lookup
local_not_set = refl

set_local_aborts_example :
    boot healthy (pos 0) (
      apply
        (append_log text)
        (run (Modified.set sample_sha healthy path_a local_creat_file new_modified).1 new_disk))
    ≡ none
set_local_aborts_example =
    set_local_aborts sample_sha healthy healthy (pos 0) path_a text new_modified new_disk
      new_modified-IsDurable local_not_set not_due
