-- ===== src/Modified/Recovery.antt =====
-- Restart of `last_modified_t`: the invariant that ties the files to the table, kept by every call
-- that returns and whose timestamp has its sixteen bytes.
use distributed_systems_afsv.Base.{
  ◌≡◌, refl, sym, ap, ◌∙◌, true, Option, none, some, inl, inr, List, [], ◌∷◌, ◌++◌, append_assoc,
  append-nil, arith, Bytes, Bool-cases, All, All-append,
}
use distributed_systems_afsv.Base.Dict
use distributed_systems_afsv.Base.Dict.{Dict, NodupKeys}
use distributed_systems_afsv.Hash.Keys.{IsKey}
use distributed_systems_afsv.Journal.{
  Disk, append_log, create_tmp, rename_tmp, truncate_log, Env, content, apply, run,
}
use distributed_systems_afsv.Journal.Always.{run-append}
use distributed_systems_afsv.Modified.{LastModified, text_line, write_entries, do_snapshot}
use distributed_systems_afsv.Modified.Replay.{
  Rec, IsTimespec, Readable, stamp, encode, encode_all, update, replay, records, replay-append,
  replay-records, update-same,
}

-- The files hold records that make the table `t`.
pub record Holds (t : Dict Bytes) (d : Disk) : Type 0 where
  pub snap : List Rec
  pub logged : List Rec
  pub snapshot_file : content d.snapshot ≡ encode_all snap
  pub log_file : content d.log ≡ encode_all logged
  pub snap_readable : All Readable snap
  pub log_readable : All Readable logged
  pub agrees : (k : Bytes) → Dict.lookup k (replay (replay [] snap) logged) ≡ Dict.lookup k t

-- Every entry of the table can be read back.
abbrev pub Keyed : Dict Bytes → Type 0
Keyed t = All (λ e. IsKey e.0 × IsTimespec e.1) t

pub records-Readable : (t : Dict Bytes) → Keyed t → All Readable (records t)
unfolding records
records-Readable [] h = tt
records-Readable (e ∷ t) h = (h.0, records-Readable t h.1)

pub insert-Keyed :
    (k ts : Bytes) (t : Dict Bytes) → IsKey k → IsTimespec ts → Keyed t → Keyed (Dict.insert k ts t)
unfolding Dict.insert
insert-Keyed k ts [] hk hs h = ((hk, hs), tt)
insert-Keyed k ts (e ∷ t) hk hs h = ground (arith, insert-Keyed k ts t hk hs h.1)

pub erase-Keyed : (k : Bytes) (t : Dict Bytes) → Keyed t → Keyed (Dict.erase k t)
unfolding Dict.erase
erase-Keyed k [] h = tt
erase-Keyed k (e ∷ t) h = ground (arith, erase-Keyed k t h.1)

encode_all-append :
    (rs : List Rec) (r : Rec) → encode_all (rs ++ r ∷ []) ≡ encode_all rs ++ encode r
unfolding encode_all
encode_all-append [] r = append-nil (encode r)
encode_all-append (s ∷ rs) r =
    ap (λ b. encode s ++ b) (encode_all-append rs r)
    ∙ sym (append_assoc (encode s) (encode_all rs) (encode r))

replay_one :
    (r : Rec) (t : Dict Bytes) (k : Bytes)
    → Dict.lookup k (replay t (r ∷ [])) ≡ Dict.lookup k (update r t)
unfolding replay
replay_one r t k = refl

-- One more entry in the log, written by two flushes.
pub append_log-Holds :
    (k : Bytes) (o : Option Bytes) {t : Dict Bytes} {d : Disk}
    → Readable (k, o)
    → Holds t d
    → Holds
        (update (k, o) t)
        (run (append_log (text_line k) ∷ append_log (text_line (stamp o)) ∷ []) d)
unfolding apply run
append_log-Holds k o {t} {d} hr h = record {
  snap = h.snap;
  logged = h.logged ++ (k, o) ∷ [];
  snapshot_file = h.snapshot_file;
  log_file =
      append_assoc (content d.log) (text_line k) (text_line (stamp o))
      ∙ ap (λ b. b ++ encode (k, o)) h.log_file
      ∙ sym (encode_all-append h.logged (k, o));
  snap_readable = h.snap_readable;
  log_readable = All-append Readable h.logged _ h.log_readable (hr, tt);
  agrees = λ j.
      ap (Dict.lookup j) (replay-append (replay [] h.snap) h.logged ((k, o) ∷ []))
      ∙ replay_one (k, o) (replay (replay [] h.snap) h.logged) j
      ∙ update-same (k, o) (replay (replay [] h.snap) h.logged) t h.agrees j;
}

pub logged-append_log :
    (k : Bytes) (o : Option Bytes) {t : Dict Bytes} {d : Disk} (hr : Readable (k, o))
    (h : Holds t d)
    → (append_log-Holds k o hr h).logged ≡ h.logged ++ (k, o) ∷ []
unfolding append_log-Holds
logged-append_log k o hr h = refl

pub run-write_entries :
    (es : Dict Bytes) (d : Disk) (x : Bytes)
    → run (write_entries es) (record d { tmp = some x })
      ≡ record d { tmp = some (x ++ encode_all (records es)) }
unfolding write_entries run apply records encode_all
run-write_entries [] d x = rw (append-nil x) refl
run-write_entries ((k, ts) ∷ es) d x =
    run-write_entries es d ((x ++ text_line k) ++ text_line ts) ∙ simp append_assoc

module _ (t : Dict Bytes) (d : Disk) (unique : NodupKeys t) (keyed : Keyed t) (h : Holds t d) where
  -- The snapshot alone, with an empty log.
  pub fresh_files-Holds :
      Holds t (record d { snapshot = some (encode_all (records t)); tmp = none; log = some [] })
  unfolding encode_all replay
  fresh_files-Holds = record {
    snap = records t;
    logged = [];
    snapshot_file = refl;
    log_file = refl;
    snap_readable = records-Readable t keyed;
    log_readable = tt;
    agrees = λ k. replay-records k t unique;
  }

  snapshot_writes-Holds :
      Holds t (run (create_tmp ∷ (write_entries t ++ (rename_tmp ∷ truncate_log ∷ []))) d)
  unfolding run apply
  snapshot_writes-Holds =
      rw (run-append (write_entries t) (rename_tmp ∷ truncate_log ∷ []))
        (rw (run-write_entries t d []) fresh_files-Holds)

pub do_snapshot-Holds :
    (env : Env) (m : LastModified) (d : Disk)
    → NodupKeys m.table
    → Keyed m.table
    → Holds m.table d
    → env.renames ≡ true
    → env.log_opens ≡ true
    → Holds m.table (run (do_snapshot env m).1 d)
unfolding do_snapshot
do_snapshot-Holds env m d unique keyed h ok opens = elim (Bool-cases env.tmp_opens) [
  | inl some_tmp ↦ rw (some_tmp, ok, opens) (snapshot_writes-Holds m.table d unique keyed h)
  | inr fails ↦ rw fails (unfold run in h)
]
