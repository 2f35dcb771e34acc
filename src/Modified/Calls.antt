-- ===== src/Modified/Calls.antt =====
-- `set` and `erase` of `last_modified_t` keep the files and the table together.
use distributed_systems_afsv.Base.{
  ◌≡◌, true, none, some, [], ◌∷◌, arith, if◌then◌else◌, Bytes, equal, equal_iff, Bool-cases,
  Option-cases, inl, inr,
}
use distributed_systems_afsv.Base.Dict
use distributed_systems_afsv.Base.Dict.{Dict, NodupKeys}
use distributed_systems_afsv.Hash.Keys.{IsKey}
use distributed_systems_afsv.Journal.{Disk, append_log, Env, run, next_counter, is_zero}
use distributed_systems_afsv.Journal.Always.{run-append}
use distributed_systems_afsv.Modified.{
  LastModified, text_line, erased, do_snapshot, log_entry, is_set, set_key, erase_key,
}
use distributed_systems_afsv.Modified.Replay.{IsTimespec}
use distributed_systems_afsv.Modified.Recovery.{
  Holds, Keyed, insert-Keyed, erase-Keyed, append_log-Holds, do_snapshot-Holds,
}

-- The log is open, and the files hold the table.
pub record IsDurable (m : LastModified) (d : Disk) : Type 0 where
  pub is_open : m.log_is_open ≡ true
  pub unique : NodupKeys m.table
  pub keyed : Keyed m.table
  pub holds : Holds m.table d

table-do_snapshot : (env : Env) (m : LastModified) → (do_snapshot env m).0.table ≡ m.table
unfolding do_snapshot
table-do_snapshot env m = ground arith

do_snapshot-is_open :
    (env : Env) (m : LastModified)
    → env.log_opens ≡ true
    → m.log_is_open ≡ true
    → (do_snapshot env m).0.log_is_open ≡ true
unfolding do_snapshot
do_snapshot-is_open env m opens h = ground arith

pub log_entry-open :
    (m : LastModified) (k ts : Bytes)
    → m.log_is_open ≡ true
    → log_entry m k ts ≡ append_log (text_line k) ∷ append_log (text_line ts) ∷ []
unfolding log_entry
log_entry-open m k ts h = ground arith

-- Memory after a `set` that changes the table, before any snapshot.
abbrev changed : Bytes → Bytes → LastModified → LastModified
changed k ts m = record m { table = Dict.insert k ts m.table; counter = next_counter m.counter }

module _ (env : Env) (k ts : Bytes) (m : LastModified) (d : Disk) (hk : IsKey k)
    (hs : IsTimespec ts) (h : IsDurable m d) (ok : env.renames ≡ true)
    (opens : env.log_opens ≡ true) where
  new-IsDurable :
      IsDurable (changed k ts m) (run (append_log (text_line k) ∷ append_log (text_line ts) ∷ []) d)
  new-IsDurable = record {
    is_open = h.is_open;
    unique = Dict.insert-NodupKeys k ts m.table h.unique;
    keyed = insert-Keyed k ts m.table hk hs h.keyed;
    holds = append_log-Holds k (some ts) (hk, hs) h.holds;
  }

  snapshot-IsDurable :
      (d' : Disk)
      → IsDurable (changed k ts m) d'
      → IsDurable (do_snapshot env (changed k ts m)).0 (run (do_snapshot env (changed k ts m)).1 d')
  snapshot-IsDurable d' x = record {
    is_open = do_snapshot-is_open env (changed k ts m) opens x.is_open;
    unique = rw table-do_snapshot x.unique;
    keyed = rw table-do_snapshot x.keyed;
    holds =
        rw table-do_snapshot
          (do_snapshot-Holds env (changed k ts m) d' x.unique x.keyed x.holds ok opens);
  }

  pub set_key-IsDurable : IsDurable (set_key env k ts m).0 (run (set_key env k ts m).1 d)
  unfolding set_key
  set_key-IsDurable = elim (Bool-cases (is_set k ts m)) [
    | inl same ↦ rw same (unfold run in h)
    | inr differs ↦ elim (Bool-cases (is_zero (next_counter m.counter))) [
      | inl due ↦
          rw (differs, due, log_entry-open m k ts h.is_open, run-append)
            (snapshot-IsDurable _ new-IsDurable)
      | inr wait ↦ rw (differs, wait, log_entry-open m k ts h.is_open) new-IsDurable
    ]
  ]

module _ (k : Bytes) (m : LastModified) (d : Disk) (hk : IsKey k) (h : IsDurable m d) where
  pub erased-Holds :
      Dict.count k m.table ≡ true
      → Holds
          (Dict.erase k m.table)
          (run (append_log (text_line k) ∷ append_log (text_line erased) ∷ []) d)
  erased-Holds found = let after = append_log-Holds k none hk h.holds in rw found at after

  pub erase_key-IsDurable : IsDurable (erase_key k m).0 (run (erase_key k m).1 d)
  unfolding erase_key
  erase_key-IsDurable = elim (Bool-cases (Dict.count k m.table)) [
    | inl found ↦
        rw (found, log_entry-open m k erased h.is_open)
          (record {
            is_open = h.is_open;
            unique = Dict.erase-NodupKeys k m.table h.unique;
            keyed = erase-Keyed k m.table h.keyed;
            holds = erased-Holds found;
          })
    | inr missing ↦ rw missing (unfold run in h)
  ]

is_set-lookup :
    (k ts : Bytes) (m : LastModified) → is_set k ts m ≡ true → Dict.lookup k m.table ≡ some ts
unfolding is_set
is_set-lookup k ts m h = elim (Option-cases (Dict.lookup k m.table)) [
  | inl missing ↦ ground arith
  | inr (old, e) ↦ ground (arith, e, equal_iff old ts)
]

pub lookup-set_key :
    (env : Env) (k j ts : Bytes) (m : LastModified)
    → Dict.lookup j (set_key env k ts m).0.table
      ≡ (if equal k j then some ts else Dict.lookup j m.table)
unfolding set_key do_snapshot
lookup-set_key env k j ts m =
    ground (arith, Dict.lookup-insert k j ts m.table, equal_iff k j, is_set-lookup k ts m)

pub lookup-erase_key :
    (k j : Bytes) (m : LastModified)
    → Dict.lookup j (erase_key k m).0.table ≡ (if equal k j then none else Dict.lookup j m.table)
unfolding erase_key Dict.count
lookup-erase_key k j m = ground (arith, Dict.lookup-erase k j m.table, equal_iff k j)
