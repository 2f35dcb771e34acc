-- ===== src/Dirty/Lost.antt =====
-- A snapshot of `is_dirty_t` whose `rename` fails: the result of `rename` is not read, and the log
-- is truncated all the same.
use distributed_systems_afsv.Base.{
  ℤ, ◌≡◌, refl, ap, ◌∙◌, Bool, true, false, some, [], ◌∷◌, ◌++◌, arith, Bytes, equal_refl,
}
use distributed_systems_afsv.Base.Dict
use distributed_systems_afsv.Base.Dict.{Dict}
use distributed_systems_afsv.Hash.{Sha256, hash_path}
use distributed_systems_afsv.Journal.{
  Disk, append_log, truncate_log, create_tmp, Env, apply, run, next_counter, is_zero, content,
}
use distributed_systems_afsv.Journal.Always.{run-append}
use distributed_systems_afsv.Dirty.{
  IsDirty, set_line, write_entries, is_set, set_key, set, get, get_key, do_snapshot,
}
use distributed_systems_afsv.Dirty.Files.{Holds, run-write_entries}
use distributed_systems_afsv.Dirty.Recovery.{log_line-open}
use distributed_systems_afsv.Dirty.Replay.{encode_all, records}
use distributed_systems_afsv.Dirty.Restart.{Restarts, start-Restarts}
use distributed_systems_afsv.Dirty.Session.{lookup-set}

-- The disk with an empty log: what the last snapshot holds, and no more.
abbrev pub without_log : Disk → Disk
without_log d = record d { log = some [] }

Holds-same :
    {t : Dict Bool} {d : Disk} (e : Disk)
    → e.snapshot ≡ d.snapshot
    → e.log ≡ d.log
    → Holds t d
    → Holds t e
Holds-same e snapshot log h = record {
  snap = h.snap;
  logged = h.logged;
  snapshot_file = ap content snapshot ∙ h.snapshot_file;
  log_file = ap content log ∙ h.log_file;
  snap_keys = h.snap_keys;
  log_keys = h.log_keys;
  agrees = h.agrees;
}

run_snapshot :
    (t : Dict Bool) (d : Disk)
    → run (create_tmp ∷ (write_entries t ++ ([] ++ (truncate_log ∷ [])))) d
      ≡ record d { tmp = some (encode_all (records t)); log = some [] }
unfolding run apply
run_snapshot t d =
    run-append (write_entries t) (truncate_log ∷ []) (record d { tmp = some [] })
    ∙ ap (run (truncate_log ∷ [])) (run-write_entries t d [])

run-set_key :
    (env : Env) (k : Bytes) (b : Bool) (m : IsDirty) (d : Disk)
    → is_set k b m ≡ false
    → is_zero (next_counter m.counter) ≡ true
    → m.log_is_open ≡ true
    → env.tmp_opens ≡ true
    → env.renames ≡ false
    → env.log_opens ≡ true
    → run (set_key env k b m).1 d
      ≡ record d { tmp = some (encode_all (records (Dict.insert k b m.table))); log = some [] }
unfolding set_key do_snapshot run apply
run-set_key env k b m d differs due opened tmp fails log =
    rw (set_key, do_snapshot, differs, due, tmp, fails, log, log_line-open m (set_line k b) opened)
      (run_snapshot (Dict.insert k b m.table) (apply (append_log (set_line k b)) d))

-- If `rename` fails in the snapshot that a `set` makes, the value that was set is in memory, and
-- the process that starts next has the table `t`, where `t` is what the old snapshot holds without
-- any line of the log. The `set` changes the table and is due for a snapshot, the log is open, and
-- the temporary file and the log can be opened, here and at the next start.
pub set_rename_loses :
    (sha : Sha256) (env next : Env) (counter : ℤ) (path : Bytes) (b : Bool) (t : Dict Bool)
    (m : IsDirty) (d : Disk)
    → is_set (hash_path sha path) b m ≡ false
    → is_zero (next_counter m.counter) ≡ true
    → m.log_is_open ≡ true
    → env.tmp_opens ≡ true
    → env.renames ≡ false
    → env.log_opens ≡ true
    → next.log_opens ≡ true
    → Holds t (without_log d)
    → (get sha path (set sha env path b m).0 ≡ b)
      × Restarts t next counter (run (set sha env path b m).1 d)
unfolding set get get_key
set_rename_loses sha env next counter path b t m d differs due opened tmp fails log opens h =
    let k = hash_path sha path in
    let after = run-set_key env k b m d differs due opened tmp fails log in
    (
      ground (arith, lookup-set env k k b m, equal_refl k),
      start-Restarts t next counter (run (set_key env k b m).1 d) opens (
          rw after (
            Holds-same
              (record d {
                tmp = some (encode_all (records (Dict.insert k b m.table)));
                log = some [];
              })
              refl refl h)),
    )
