-- ===== src/Modified/Crash.antt =====
-- What a crash at any write of a call of `last_modified_t` leaves to the process that starts next.
pub mod Snapshot
pub mod Calls
use distributed_systems_afsv.Base.{
  ℕ, ℤ, suc, ◌-◌, ◌≤◌, ◌≡◌, ◌≢◌, refl, sym, ap, ◌∙◌, Option, none, some, ◌⊎◌, inl, inr, List, [],
  ◌∷◌, ◌++◌, arith, Bytes, Bool-cases, if◌then◌else◌, true, false, equal, equal_ne, ◌&&◌, length,
  length-append, replicate, Bool, append-nil,
}
use distributed_systems_afsv.Base.Dict
use distributed_systems_afsv.Base.Dict.{Dict, NodupKeys}
use distributed_systems_afsv.Hash.{Sha256, hash_path}
use distributed_systems_afsv.Hash.Keys.{IsKey, hash_path-IsKey}
use distributed_systems_afsv.Journal.{
  outcome, Disk, Effect, append_log, create_tmp, rename_tmp, truncate_log, Env, content, apply, run,
  next_counter, is_zero,
}
use distributed_systems_afsv.Journal.Always.{Always, Always-append, Always-mono, getline-line}
use distributed_systems_afsv.Modified.{
  LastModified, text_line, erased, write_entries, do_snapshot, is_set, set_key, erase_key, set,
  erase, load, boot, load_entry, read_into, load_loop, timespec_size,
}
use distributed_systems_afsv.Modified.Calls.{IsDurable, log_entry-open, erased-Holds}
use distributed_systems_afsv.Modified.Load.{load_file-encode_all, load_loop_round}
use distributed_systems_afsv.Modified.Marks.{OrMark, replay-OrMark, lookup-ne-erased}
use distributed_systems_afsv.Modified.Marker.{boot_loaded}
use distributed_systems_afsv.Modified.Recovery.{
  Holds, Keyed, insert-Keyed, append_log-Holds, records-Readable, run-write_entries,
  fresh_files-Holds,
}
use distributed_systems_afsv.Modified.Replay.{
  IsTimespec, encode_all, last_stamp, replay, records, replay-records,
}
use distributed_systems_afsv.Modified.Torn.{
  load-append, line-ne-nil, length-text_line, length-last_stamp,
}

-- The table that is found, where the call changes the entry of `k` in `t` and leaves `u`: one of the
-- two; `t` but for that entry; or `u`, but for names without an entry, which may have the mark of an
-- erased one.
pub data Crashed (k : Bytes) (t u found : Dict Bytes) : Type 0 where
  old : ((j : Bytes) → Dict.lookup j found ≡ Dict.lookup j t) → Crashed k t u found
  new : ((j : Bytes) → Dict.lookup j found ≡ Dict.lookup j u) → Crashed k t u found
  torn : ((j : Bytes) → k ≢ j → Dict.lookup j found ≡ Dict.lookup j t) → Crashed k t u found
  marked : ((j : Bytes) → OrMark (Dict.lookup j found) (Dict.lookup j u)) → Crashed k t u found

-- The files load.
pub record Loads (k : Bytes) (t u : Dict Bytes) (d : Disk) : Type 0 where
  pub found : Dict Bytes
  pub loaded : load d ≡ some found
  pub shows : Crashed k t u found

pub Holds-load :
    (t : Dict Bytes) (d : Disk)
    → Holds t d
    → (found : Dict Bytes) × (load d ≡ some found)
      × ((j : Bytes) → Dict.lookup j found ≡ Dict.lookup j t)
unfolding load
Holds-load t d h =
    let first = load_file-encode_all d.snapshot h.snap [] h.snapshot_file h.snap_readable in
    let second = load_file-encode_all d.log h.logged (replay [] h.snap) h.log_file h.log_readable in
    (replay (replay [] h.snap) h.logged, rw (load, first, second) refl, h.agrees)

module _ (k : Bytes) (t u : Dict Bytes) where
  pub Holds-old : (d : Disk) → Holds t d → Loads k t u d
  Holds-old d h =
      let (found, loaded, same) = Holds-load t d h in
      record { found = found; loaded = loaded; shows = old same }

  pub Holds-new : (d : Disk) → Holds u d → Loads k t u d
  Holds-new d h =
      let (found, loaded, same) = Holds-load u d h in
      record { found = found; loaded = loaded; shows = new same }

  -- The snapshot of `u` beside the log that made it.
  pub Holds-marked :
      (d : Disk) (tmp : Option Bytes)
      → Holds u d
      → NodupKeys u
      → Keyed u
      → Loads k t u (record { snapshot = some (encode_all (records u)); log = d.log; tmp = tmp })
  unfolding load
  Holds-marked d tmp h unique keyed =
      let first =
        load_file-encode_all (some (encode_all (records u))) (records u) [] refl
          (records-Readable u keyed) in
      let second =
        load_file-encode_all d.log h.logged (replay [] (records u)) h.log_file h.log_readable in
      record {
        found = replay (replay [] (records u)) h.logged;
        loaded = rw (load, first, second) refl;
        shows = marked (λ j.
            replay-OrMark h.logged (replay [] h.snap) u (replay [] (records u)) j (sym (h.agrees j))
              (replay-records j u unique) (lookup-ne-erased u j keyed));
      }

-- A name line with no timestamp behind it takes the bytes that the last round left in `ts`.
pub load_entry-torn :
    (k ts : Bytes) (t : Dict Bytes)
    → length ts ≡ timespec_size
    → (u : Dict Bytes) × (load_entry k ts t ≡ some u)
      × ((j : Bytes) → k ≢ j → Dict.lookup j u ≡ Dict.lookup j t)
unfolding load_entry
load_entry-torn k ts t size = elim (Bool-cases (equal ts erased && Dict.count k t)) [
  | inl gone ↦
      (Dict.erase k t, rw gone refl, λ j ne. Dict.lookup-erase k j t ∙ rw (equal_ne k j ne) refl)
  | inr entered ↦ (
    Dict.insert k ts t,
    rw (entered, size) refl,
    λ j ne. Dict.lookup-insert k j ts t ∙ rw (equal_ne k j ne) refl,
  )
]

pub Holds-torn :
    (k : Bytes) (t u : Dict Bytes) (d : Disk)
    → IsKey k
    → Holds t d
    → Loads k t u (apply (append_log (text_line k)) d)
unfolding text_line
Holds-torn k t u d hk h =
    let (f, enough, read) = load-append t d (text_line k) h in
    let ts = last_stamp (replicate timespec_size 0) h.logged in
    let base = replay (replay [] h.snap) h.logged in
    let more : f ≡ suc (f - 1) = omega (arith, enough, length-text_line k) in
    let size : length ts ≡ timespec_size =
      length-last_stamp (replicate timespec_size 0) h.logged refl h.log_readable in
    let (found, entered, others) = load_entry-torn k ts base size in
    let entered' : load_entry k (read_into ts []) base ≡ some found = unfold read_into in entered in
    let round =
      load_loop_round (suc (f - 1)) (k ++ b'\n' ∷ []) ts base k [] (line-ne-nil k [])
        (getline-line k [] hk.one_line) hk.size entered' in
    record {
      found = found;
      loaded =
          read
          ∙ ap (λ n. outcome (load_loop (suc n) (text_line k) ts base)) more
          ∙ ap outcome round
          ∙ (unfold load_loop outcome in refl);
      shows = torn (λ j ne. others j ne ∙ h.agrees j);
    }
