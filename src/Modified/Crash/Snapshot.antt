-- ===== src/Modified/Crash/Snapshot.antt =====
-- The writes of a snapshot: what each of them leaves behind.
use distributed_systems_afsv.Base.{
  ◌≡◌, Option, none, some, inl, inr, [], ◌∷◌, ◌++◌, Bytes, Bool-cases, if◌then◌else◌, true, false,
  Bool,
}
use distributed_systems_afsv.Base.Dict.{Dict, NodupKeys}
use distributed_systems_afsv.Journal.{
  Disk, create_tmp, rename_tmp, truncate_log, Env, content, apply,
}
use distributed_systems_afsv.Journal.Always.{Always, Always-append, Always-mono}
use distributed_systems_afsv.Modified.{LastModified, text_line, write_entries, do_snapshot}
use distributed_systems_afsv.Modified.Recovery.{Holds, Keyed, run-write_entries, fresh_files-Holds}
use distributed_systems_afsv.Modified.Replay.{encode_all, records}
use distributed_systems_afsv.Modified.Crash.{Loads, Holds-new, Holds-marked}

module _ (t u : Dict Bytes) where
  Holds-tmp : (d : Disk) (x : Option Bytes) → Holds u d → Holds u (record d { tmp = x })
  Holds-tmp d x h = record {
    snap = h.snap;
    logged = h.logged;
    snapshot_file = h.snapshot_file;
    log_file = h.log_file;
    snap_readable = h.snap_readable;
    log_readable = h.log_readable;
    agrees = h.agrees;
  }

  write_entries-Always :
      (es : Dict Bytes) (d : Disk) → Holds u d → Always (Holds u) (write_entries es) d
  unfolding write_entries apply
  write_entries-Always [] d h = h
  write_entries-Always ((k, ts) ∷ es) d h =
      let d1 : Disk = record d { tmp = some (content d.tmp ++ text_line k) } in
      let d2 : Disk = record d1 { tmp = some (content d1.tmp ++ text_line ts) } in
      (h, (Holds-tmp d d1.tmp h, write_entries-Always es d2 (Holds-tmp d d2.tmp h)))

  module _ (k : Bytes) (unique : NodupKeys u) (keyed : Keyed u) where
    -- The rename, and the new log where it opens.
    last_writes :
        (log_opens : Bool) (d : Disk)
        → Holds u d
        → Always
            (Loads k t u)
            (rename_tmp ∷ (if log_opens then truncate_log ∷ [] else []))
            (record d { tmp = some (encode_all (records u)) })
    unfolding apply
    last_writes false d h = (
      Holds-new k t u _ (Holds-tmp d (some (encode_all (records u))) h),
      Holds-marked k t u d none h unique keyed,
    )
    last_writes true d h = (
      Holds-new k t u _ (Holds-tmp d (some (encode_all (records u))) h),
      (
        Holds-marked k t u d none h unique keyed,
        Holds-new k t u _ (fresh_files-Holds u d unique keyed h),
      ),
    )

    snapshot_writes :
        (log_opens : Bool) (d : Disk)
        → Holds u d
        → Always
            (Loads k t u)
            (create_tmp
              ∷ (write_entries u
                  ++ (rename_tmp ∷ [] ++ (if log_opens then truncate_log ∷ [] else []))))
            d
    unfolding apply
    snapshot_writes log_opens d h = (
      Holds-new k t u d h,
      Always-append (Loads k t u) (write_entries u) _ (record d { tmp = some [] })
          (Always-mono (Holds u) (Loads k t u) (write_entries u) _ (Holds-new k t u)
            (write_entries-Always u _ (Holds-tmp d (some []) h)))
          (rw (run-write_entries u d []) (last_writes log_opens d h)),
    )

    pub do_snapshot-Always :
        (env : Env) (m : LastModified) (d : Disk)
        → m.table ≡ u
        → env.renames ≡ true
        → Holds u d
        → Always (Loads k t u) (do_snapshot env m).1 d
    unfolding do_snapshot
    do_snapshot-Always env m d same ok h = elim (Bool-cases env.tmp_opens) [
      | inl opens ↦ rw (do_snapshot, opens, ok, same) (snapshot_writes env.log_opens d h)
      | inr fails ↦ rw (do_snapshot, fails) (Holds-new k t u d h)
    ]
