-- ===== src/Dirty/Files.antt =====
-- The invariant that ties the files of `is_dirty_t` to its table, and that a snapshot keeps it at
-- every write.
use distributed_systems_afsv.Base.{
  ◌≡◌, inl, inr, refl, sym, ap, ◌∙◌, Bool, true, false, Option, none, some, List, [], ◌∷◌, ◌++◌,
  append_assoc, append-nil, arith, if◌then◌else◌, Bytes, equal, Bool-cases, All, All-append,
}
use distributed_systems_afsv.Base.Dict
use distributed_systems_afsv.Base.Dict.{Dict, NodupKeys}
use distributed_systems_afsv.Hash.Keys.{IsKey}
use distributed_systems_afsv.Journal.{
  Disk, append_log, create_tmp, rename_tmp, truncate_log, Env, content, apply, run,
}
use distributed_systems_afsv.Journal.Always.{Always, Always-append}
use distributed_systems_afsv.Dirty.{IsDirty, set_line, write_entries, do_snapshot}
use distributed_systems_afsv.Dirty.Replay.{
  Rec, HasKey, encode, encode_all, update, verdict, records, verdict-snoc, verdict-verdict,
  verdict-records,
}

-- The files hold records that make the table `t`.
pub record Holds (t : Dict Bool) (d : Disk) : Type 0 where
  pub snap : List Rec
  pub logged : List Rec
  pub snapshot_file : content d.snapshot ≡ encode_all snap
  pub log_file : content d.log ≡ encode_all logged
  pub snap_keys : All HasKey snap
  pub log_keys : All HasKey logged
  pub agrees : (k : Bytes) → verdict k logged (verdict k snap none) ≡ Dict.lookup k t

-- Every key of the table has the shape that the loader asserts.
abbrev pub Keyed : Dict Bool → Type 0
Keyed t = All (λ e. IsKey e.0) t

records-keys : (t : Dict Bool) → Keyed t → All HasKey (records t)
unfolding records
records-keys [] h = tt
records-keys (e ∷ t) h = (h.0, records-keys t h.1)

pub insert-Keyed :
    (k : Bytes) (b : Bool) (t : Dict Bool) → IsKey k → Keyed t → Keyed (Dict.insert k b t)
unfolding Dict.insert
insert-Keyed k b [] hk h = (hk, tt)
insert-Keyed k b (e ∷ t) hk h = ground (arith, insert-Keyed k b t hk h.1)

pub erase-Keyed : (k : Bytes) (t : Dict Bool) → Keyed t → Keyed (Dict.erase k t)
unfolding Dict.erase
erase-Keyed k [] h = tt
erase-Keyed k (e ∷ t) h = ground (arith, erase-Keyed k t h.1)

encode_all-append :
    (rs : List Rec) (r : Rec) → encode_all (rs ++ r ∷ []) ≡ encode_all rs ++ encode r
unfolding encode_all
encode_all-append [] r = append-nil (encode r)
encode_all-append (s ∷ rs) r =
    ap (λ b. encode s ++ b) (encode_all-append rs r)
    ∙ sym (append_assoc (encode s) (encode_all rs) (encode r))

lookup-update :
    (r : Rec) (t : Dict Bool) (k : Bytes)
    → Dict.lookup k (update r t) ≡ (if equal r.0 k then r.1 else Dict.lookup k t)
lookup-update (j, none) t k = Dict.lookup-erase j k t
lookup-update (j, some b) t k = Dict.lookup-insert j k b t

-- One more line in the log, and the table that it updates.
pub append_log-Holds :
    (r : Rec) {t : Dict Bool} {d : Disk}
    → HasKey r
    → Holds t d
    → Holds (update r t) (apply (append_log (encode r)) d)
unfolding apply
append_log-Holds r {t} {d} hk h = record {
  snap = h.snap;
  logged = h.logged ++ r ∷ [];
  snapshot_file = h.snapshot_file;
  log_file = ap (λ b. b ++ encode r) h.log_file ∙ sym (encode_all-append h.logged r);
  snap_keys = h.snap_keys;
  log_keys = All-append _ h.logged _ h.log_keys (hk, tt);
  agrees = λ k.
      verdict-snoc k h.logged r (verdict k h.snap none)
      ∙ ap (λ o. if equal r.0 k then r.1 else o) (h.agrees k)
      ∙ sym (lookup-update r t k);
}

-- The temporary file is never read.
Holds-tmp :
    {t : Dict Bool} {d : Disk} (x : Option Bytes) → Holds t d → Holds t (record d { tmp = x })
Holds-tmp x h = record {
  snap = h.snap;
  logged = h.logged;
  snapshot_file = h.snapshot_file;
  log_file = h.log_file;
  snap_keys = h.snap_keys;
  log_keys = h.log_keys;
  agrees = h.agrees;
}

write_entries-Holds :
    (es : Dict Bool) {t : Dict Bool} (d : Disk) → Holds t d → Always (Holds t) (write_entries es) d
unfolding write_entries apply
write_entries-Holds [] d h = h
write_entries-Holds ((k, b) ∷ es) d h =
    (h, write_entries-Holds es _ (Holds-tmp (some (content d.tmp ++ set_line k b)) h))

pub run-write_entries :
    (es : Dict Bool) (d : Disk) (x : Bytes)
    → run (write_entries es) (record d { tmp = some x })
      ≡ record d { tmp = some (x ++ encode_all (records es)) }
unfolding write_entries run apply records encode_all
run-write_entries [] d x = rw (append-nil x) refl
run-write_entries ((k, b) ∷ es) d x =
    run-write_entries es d (x ++ set_line k b)
    ∙ rw (append_assoc x (set_line k b) (encode_all (records es))) refl

module _ (t : Dict Bool) (d : Disk) (unique : NodupKeys t) (keyed : Keyed t) (h : Holds t d) where
  -- The new snapshot beside the old log: the log is read again, and changes nothing.
  renamed-Holds : Holds t (record d { snapshot = some (encode_all (records t)); tmp = none })
  renamed-Holds = record {
    snap = records t;
    logged = h.logged;
    snapshot_file = refl;
    log_file = h.log_file;
    snap_keys = records-keys t keyed;
    log_keys = h.log_keys;
    agrees = λ k.
        ap (verdict k h.logged) (verdict-records k t unique ∙ sym (h.agrees k))
        ∙ verdict-verdict k h.logged (verdict k h.snap none)
        ∙ h.agrees k;
  }

  truncated-Holds :
      Holds t (record d { snapshot = some (encode_all (records t)); tmp = none; log = some [] })
  unfolding encode_all verdict
  truncated-Holds = record {
    snap = records t;
    logged = [];
    snapshot_file = refl;
    log_file = refl;
    snap_keys = records-keys t keyed;
    log_keys = tt;
    agrees = λ k. verdict-records k t unique;
  }

  last_writes-Holds :
      (log_opens : Bool)
      → Always
          (Holds t)
          (rename_tmp ∷ [] ++ (if log_opens then truncate_log ∷ [] else []))
          (record d { tmp = some (encode_all (records t)) })
  unfolding apply
  last_writes-Holds true = (Holds-tmp _ h, (renamed-Holds, truncated-Holds))
  last_writes-Holds false = (Holds-tmp _ h, renamed-Holds)

  -- The writes of a snapshot whose `rename` succeeds.
  pub snapshot_writes-Holds :
      (log_opens : Bool)
      → Always
          (Holds t)
          (create_tmp
            ∷ (write_entries t
                ++ (rename_tmp ∷ [] ++ (if log_opens then truncate_log ∷ [] else []))))
          d
  unfolding apply
  snapshot_writes-Holds log_opens = (
    h,
    Always-append (Holds t) (write_entries t) _ _ (write_entries-Holds t _ (Holds-tmp _ h))
        (rw (run-write_entries t d []) (last_writes-Holds log_opens)),
  )

pub do_snapshot-Holds :
    (env : Env) (m : IsDirty) (d : Disk)
    → NodupKeys m.table
    → Keyed m.table
    → Holds m.table d
    → env.renames ≡ true
    → Always (Holds m.table) (do_snapshot env m).1 d
unfolding do_snapshot
do_snapshot-Holds env m d unique keyed h ok = elim (Bool-cases env.tmp_opens) [
  | inl opens ↦ rw (opens, ok) (snapshot_writes-Holds m.table d unique keyed h env.log_opens)
  | inr fails ↦ rw fails h
]

pub table-do_snapshot : (env : Env) (m : IsDirty) → (do_snapshot env m).0.table ≡ m.table
unfolding do_snapshot
table-do_snapshot env m = ground arith

pub do_snapshot-is_open :
    (env : Env) (m : IsDirty)
    → env.log_opens ≡ true
    → m.log_is_open ≡ true
    → (do_snapshot env m).0.log_is_open ≡ true
unfolding do_snapshot
do_snapshot-is_open env m opens h = ground arith
