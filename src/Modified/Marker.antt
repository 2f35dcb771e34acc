-- ===== src/Modified/Marker.antt =====
-- The marker of an erased entry behind a snapshot that no longer has the entry: a crash in
-- `do_snapshot` of `last_modified_t` between its rename and its new log.
use distributed_systems_afsv.Base.{
  ℤ, ◌≡◌, ◌≢◌, refl, sym, ap, ◌∙◌, true, false, none, some, List, [], ◌∷◌, ◌++◌, append_assoc,
  append-nil, arith, Bytes, equal_refl, equal_ne, if◌then◌else◌,
}
use distributed_systems_afsv.Base.Dict
use distributed_systems_afsv.Base.Dict.{Dict, NodupKeys}
use distributed_systems_afsv.Hash.{Sha256, hash_path}
use distributed_systems_afsv.Hash.Keys.{IsKey, hash_path-IsKey}
use distributed_systems_afsv.Journal.{
  Disk, Effect, append_log, create_tmp, rename_tmp, truncate_log, Env, apply, run, next_counter,
  is_zero,
}
use distributed_systems_afsv.Journal.Always.{run-append}
use distributed_systems_afsv.Modified.{
  LastModified, text_line, erased, write_entries, do_snapshot, is_set, set_key, erase_key, get_key,
  commit, set, erase, get, count, load, boot,
}
use distributed_systems_afsv.Modified.Calls.{log_entry-open, lookup-erase_key}
use distributed_systems_afsv.Modified.Load.{load_file-encode_all}
use distributed_systems_afsv.Modified.Recovery.{
  Keyed, erase-Keyed, insert-Keyed, records-Readable, run-write_entries,
}
use distributed_systems_afsv.Modified.Replay.{
  IsTimespec, encode_all, update, replay, records, replay-records,
}

-- The files right behind a snapshot of the table.
pub record IsFresh (m : LastModified) (d : Disk) : Type 0 where
  pub is_open : m.log_is_open ≡ true
  pub unique : NodupKeys m.table
  pub keyed : Keyed m.table
  pub snapshot : d.snapshot ≡ some (encode_all (records m.table))
  pub log : d.log ≡ some []

module _ (k j ts : Bytes) (m : LastModified) (hk : IsKey k) (hj : IsKey j) (hs : IsTimespec ts)
    (ne : k ≢ j) where
  abbrev table' : Dict Bytes
  table' = Dict.insert j ts (Dict.erase k m.table)

  -- The writes of the `set` but the last.
  abbrev writes : List Effect
  writes =
      append_log (text_line j)
      ∷ append_log (text_line ts)
      ∷ create_tmp
      ∷ (write_entries table' ++ (rename_tmp ∷ []))

  abbrev erasing : List Effect
  erasing = append_log (text_line k) ∷ append_log (text_line erased) ∷ []

  -- The disk that the crash leaves.
  crashed : Disk → Disk
  crashed d = record {
    snapshot = some (encode_all (records table'));
    log = some (encode_all ((k, none) ∷ (j, some ts) ∷ []));
    tmp = none;
  }

  run-crashed : (d : Disk) → d.log ≡ some [] → run writes (run erasing d) ≡ crashed d
  unfolding run apply crashed encode_all
  run-crashed d empty =
      let logged =
        run (append_log (text_line j) ∷ append_log (text_line ts) ∷ []) (run erasing d) in
      run-append (write_entries table') (rename_tmp ∷ []) (record logged { tmp = some [] })
      ∙ ap (run (rename_tmp ∷ [])) (run-write_entries table' logged [])
      ∙ rw empty (simp (append_assoc, append-nil))

  load-crashed :
      (d : Disk)
      → NodupKeys m.table
      → Keyed m.table
      → (u : Dict Bytes) × (load (crashed d) ≡ some u) × (Dict.lookup k u ≡ some erased)
  unfolding load crashed replay Dict.count
  load-crashed d unique keyed =
      let keyed' = insert-Keyed j ts (Dict.erase k m.table) hj hs (erase-Keyed k m.table keyed) in
      let base = replay [] (records table') in
      let first =
        load_file-encode_all (some (encode_all (records table'))) (records table') [] refl
          (records-Readable table' keyed') in
      let second =
        load_file-encode_all (some (encode_all ((k, none) ∷ (j, some ts) ∷ [])))
          ((k, none) ∷ (j, some ts) ∷ []) base refl (hk, ((hj, hs), tt)) in
      let gone : Dict.lookup k base ≡ none =
        replay-records k table' (
          Dict.insert-NodupKeys j ts (Dict.erase k m.table) (Dict.erase-NodupKeys k m.table unique))
        ∙ ground (
          arith,
          Dict.lookup-insert j k ts (Dict.erase k m.table),
          Dict.lookup-erase k k m.table,
          equal_refl k,
          equal_ne j k (λ e. ne (sym e)),
        ) in
      (
        Dict.insert j ts (update (k, none) base),
        rw (load, first, second) refl,
        ground (
          arith,
          gone,
          Dict.lookup-insert j k ts (update (k, none) base),
          Dict.lookup-insert k k erased base,
          equal_refl k,
          equal_ne j k (λ e. ne (sym e)),
        ),
      )

  set_key-writes :
      (env : Env) (n : LastModified)
      → n.table ≡ Dict.erase k m.table
      → is_set j ts n ≡ false
      → is_zero (next_counter n.counter) ≡ true
      → n.log_is_open ≡ true
      → env.tmp_opens ≡ true
      → env.renames ≡ true
      → env.log_opens ≡ true
      → (set_key env j ts n).1 ≡ writes ++ (truncate_log ∷ [])
  unfolding set_key do_snapshot
  set_key-writes env n same differs due opened tmp renames log =
      rw (set_key, do_snapshot, differs, due, log_entry-open n j ts opened, tmp, renames, log, same)
        (simp append_assoc)

  erase_key-writes :
      m.log_is_open ≡ true
      → Dict.count k m.table ≡ true
      → (erase_key k m).0 ≡ record m { table = Dict.erase k m.table }
        × ((erase_key k m).1 ≡ erasing)
  unfolding erase_key
  erase_key-writes opened there =
      (rw (erase_key, there) refl, rw (erase_key, there, log_entry-open m k erased opened) refl)

pub boot_loaded :
    (env : Env) (counter : ℤ) (d : Disk) (u : Dict Bytes)
    → load d ≡ some u
    → (disk : Disk) × (boot env counter d
        ≡ some (record { table = u; log_is_open = env.log_opens; counter = counter }, disk))
unfolding boot
boot_loaded env counter d u h =
    (run (if env.log_opens then append_log [] ∷ [] else []) d, rw (boot, h) refl)

module _ (sha : Sha256) (env next : Env) (counter : ℤ) (p q ts : Bytes) (m : LastModified)
    (d : Disk) where
  -- Memory and files behind `erase`.
  abbrev pub behind : LastModified × Disk
  behind = commit (erase sha p m) d

  -- A crash between the rename and the truncation of the log in the `set`, and the next start.
  pub record Resurrects : Type 0 where
    pub before : List Effect
    pub shape : (set sha env q ts behind.0).1 ≡ before ++ (truncate_log ∷ [])
    pub memory : LastModified
    pub disk : Disk
    pub started : boot next counter (run before behind.1) ≡ some (memory, disk)
    pub known : count sha p memory ≡ true
    pub stamp : get sha p memory ≡ erased

  -- An entry that `erase` removed comes back after a crash: the entry of `p` is in the snapshot
  -- and the log is empty, `erase` logs its mark, and a `set` of another name makes the next
  -- snapshot, which no longer has `p`. If the process stops between the rename and the truncation
  -- of the log, the one that starts next counts `p` as known, with the mark as its timestamp,
  -- where `count` was false before the crash. The snapshot holds the table, whose timestamps have
  -- their sixteen bytes and are not the mark; `p` is in it; the `set` changes the table, is due
  -- for a snapshot and has such a timestamp; the names have different digests; and all files open
  -- and the rename succeeds.
  pub set-Resurrects :
      IsFresh m d
      → IsTimespec ts
      → hash_path sha p ≢ hash_path sha q
      → count sha p m ≡ true
      → is_set (hash_path sha q) ts behind.0 ≡ false
      → is_zero (next_counter m.counter) ≡ true
      → env.tmp_opens ≡ true
      → env.renames ≡ true
      → env.log_opens ≡ true
      → (count sha p behind.0 ≡ false) × Resurrects
  unfolding set erase count get get_key Dict.count
  set-Resurrects fresh hs ne there differs due tmp renames log =
      let k = hash_path sha p in
      let j = hash_path sha q in
      let hk = hash_path-IsKey sha p in
      let hj = hash_path-IsKey sha q in
      let erases = erase_key-writes k j ts m hk hj hs ne fresh.is_open there in
      let crash = run-crashed k j ts m hk hj hs ne d fresh.log in
      let (u, loaded, marked) = load-crashed k j ts m hk hj hs ne d fresh.unique fresh.keyed in
      let (disk, boots) = boot_loaded next counter (crashed k j ts m hk hj hs ne d) u loaded in
      let made =
        set_key-writes k j ts m hk hj hs ne env (erase_key k m).0 (ap (λ n. n.table) erases.0)
          differs (ap (λ n. is_zero (next_counter n.counter)) erases.0 ∙ due)
          (ap (λ n. n.log_is_open) erases.0 ∙ fresh.is_open) tmp renames log in
      (
        ground (arith, lookup-erase_key k k m, equal_refl k),
        record {
          before = writes k j ts m hk hj hs ne;
          shape = made;
          memory = record { table = u; log_is_open = next.log_opens; counter = counter };
          disk = disk;
          started =
              ap (λ ws. boot next counter (run (writes k j ts m hk hj hs ne) (run ws d))) erases.1
              ∙ ap (boot next counter) crash
              ∙ boots;
          known = ground (arith, marked);
          stamp = ground (arith, marked);
        },
      )
