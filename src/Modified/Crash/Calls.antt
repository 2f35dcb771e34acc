-- ===== src/Modified/Crash/Calls.antt =====
-- A crash in `set` or `erase`, and the process that starts next.
use distributed_systems_afsv.Base.{ℤ, ◌≡◌, refl, some, inl, inr, [], ◌∷◌, Bytes, Bool-cases, true}
use distributed_systems_afsv.Base.Dict
use distributed_systems_afsv.Base.Dict.{Dict, NodupKeys}
use distributed_systems_afsv.Hash.{Sha256, hash_path}
use distributed_systems_afsv.Hash.Keys.{IsKey, hash_path-IsKey}
use distributed_systems_afsv.Journal.{Disk, append_log, Env, apply, run, next_counter, is_zero}
use distributed_systems_afsv.Journal.Always.{Always, Always-mono}
use distributed_systems_afsv.Modified.{
  LastModified, text_line, erased, is_set, set_key, erase_key, set, erase, boot,
}
use distributed_systems_afsv.Modified.Calls.{IsDurable, log_entry-open, erased-Holds}
use distributed_systems_afsv.Modified.Marker.{boot_loaded}
use distributed_systems_afsv.Modified.Recovery.{Holds, insert-Keyed, append_log-Holds}
use distributed_systems_afsv.Modified.Replay.{IsTimespec}
use distributed_systems_afsv.Modified.Crash.{Loads, Crashed, Holds-old, Holds-new, Holds-torn}
use distributed_systems_afsv.Modified.Crash.Snapshot.{do_snapshot-Always}

module _ (env : Env) (k : Bytes) (m : LastModified) (d : Disk) (hk : IsKey k)
    (h : IsDurable m d) where
  set_key-Always :
      (ts : Bytes)
      → IsTimespec ts
      → env.renames ≡ true
      → Always (Loads k m.table (Dict.insert k ts m.table)) (set_key env k ts m).1 d
  unfolding set_key apply run
  set_key-Always ts hs ok =
      let u = Dict.insert k ts m.table in
      let n : LastModified = record m { table = u; counter = next_counter m.counter } in
      let d2 = run (append_log (text_line k) ∷ append_log (text_line ts) ∷ []) d in
      let after : Holds u d2 = append_log-Holds k (some ts) (hk, hs) h.holds in
      let unique = Dict.insert-NodupKeys k ts m.table h.unique in
      let keyed = insert-Keyed k ts m.table hk hs h.keyed in
      let before = Holds-old k m.table u d h.holds in
      let between = Holds-torn k m.table u d hk h.holds in
      elim (Bool-cases (is_set k ts m)) [
        | inl same ↦ rw (set_key, same) before
        | inr differs ↦ elim (Bool-cases (is_zero (next_counter m.counter))) [
          | inl due ↦
              rw (set_key, differs, due, log_entry-open m k ts h.is_open)
                (
                  before,
                  (between, do_snapshot-Always m.table u k unique keyed env n d2 refl ok after),
                )
          | inr wait ↦
              rw (set_key, differs, wait, log_entry-open m k ts h.is_open)
                (before, (between, Holds-new k m.table u d2 after))
        ]
      ]

  erase_key-Always : Always (Loads k m.table (Dict.erase k m.table)) (erase_key k m).1 d
  unfolding erase_key apply run
  erase_key-Always =
      let u = Dict.erase k m.table in
      let d2 = run (append_log (text_line k) ∷ append_log (text_line erased) ∷ []) d in
      let before = Holds-old k m.table u d h.holds in
      elim (Bool-cases (Dict.count k m.table)) [
        | inr missing ↦ rw (erase_key, missing) before
        | inl there ↦
            let after : Holds u d2 = erased-Holds k m d hk h there in
            rw (erase_key, there, log_entry-open m k erased h.is_open)
              (before, (Holds-torn k m.table u d hk h.holds, Holds-new k m.table u d2 after))
      ]

-- The process that starts next comes to a table.
pub record Recovers (k : Bytes) (t u : Dict Bytes) (next : Env) (counter : ℤ) (d : Disk)
    : Type 0 where
  pub found : Dict Bytes
  pub disk : Disk
  pub started :
      boot next counter d
      ≡ some (record { table = found; log_is_open = next.log_opens; counter = counter }, disk)
  pub shows : Crashed k t u found

pub Loads-Recovers :
    (k : Bytes) (t u : Dict Bytes) (next : Env) (counter : ℤ) (d : Disk)
    → Loads k t u d
    → Recovers k t u next counter d
Loads-Recovers k t u next counter d h =
    let (disk, started) = boot_loaded next counter d h.found h.loaded in
    record { found = h.found; disk = disk; started = started; shows = h.shows }

-- A crash before, between or after the writes of `set` or `erase` of `last_modified_t`, those of a
-- snapshot included: the process that starts next fails no assertion, and finds the entries of the
-- table before the call; or those of the table after it; or those of the table before but for the
-- name of the call, whose entry may be anything; or those of the table after, where names that
-- have no entry may have the mark of an erased one. The table and its files agree before the call,
-- the timestamp has sixteen bytes and is not the mark, and `rename` succeeds.
pub crash-Recovers :
    (sha : Sha256) (env next : Env) (counter : ℤ) (path ts : Bytes) (m : LastModified) (d : Disk)
    → IsDurable m d
    → IsTimespec ts
    → env.renames ≡ true
    → let k = hash_path sha path in
      Always
        (Recovers k m.table (Dict.insert k ts m.table) next counter)
        (set sha env path ts m).1
        d
      × Always (Recovers k m.table (Dict.erase k m.table) next counter) (erase sha path m).1 d
unfolding set erase
crash-Recovers sha env next counter path ts m d h hs ok =
    let k = hash_path sha path in
    let hk = hash_path-IsKey sha path in
    let u = Dict.insert k ts m.table in
    let v = Dict.erase k m.table in
    (
      Always-mono (Loads k m.table u) (Recovers k m.table u next counter) _ d
          (Loads-Recovers k m.table u next counter) (set_key-Always env k m d hk h ts hs ok),
      Always-mono (Loads k m.table v) (Recovers k m.table v next counter) _ d
          (Loads-Recovers k m.table v next counter) (erase_key-Always env k m d hk h),
    )
