-- ===== src/Dirty/Recovery.antt =====
-- Restart and crash of `is_dirty_t`: the invariant that ties the files to the table, and that every
-- operation keeps it at every write.
use distributed_systems_afsv.Base.{
  ◌≡◌, ◌⊎◌, inl, inr, Bool, true, none, some, [], ◌∷◌, arith, Bytes, Bool-cases,
}
use distributed_systems_afsv.Base.Dict
use distributed_systems_afsv.Base.Dict.{Dict, NodupKeys}
use distributed_systems_afsv.Hash.Keys.{IsKey}
use distributed_systems_afsv.Journal.{Disk, append_log, Env, apply, run, next_counter, is_zero}
use distributed_systems_afsv.Journal.Always.{Always, Always-mono, Always-run}
use distributed_systems_afsv.Dirty.{
  IsDirty, set_line, erase_line, log_line, is_set, do_snapshot, set_key, erase_key,
}
use distributed_systems_afsv.Dirty.Files.{
  Holds, Keyed, insert-Keyed, erase-Keyed, append_log-Holds, do_snapshot-Holds, table-do_snapshot,
  do_snapshot-is_open,
}

pub log_line-open :
    (m : IsDirty) (b : Bytes) → m.log_is_open ≡ true → log_line m b ≡ append_log b ∷ []
unfolding log_line
log_line-open m b h = ground arith

-- The log is open, and the files hold the table.
pub record IsDurable (m : IsDirty) (d : Disk) : Type 0 where
  pub is_open : m.log_is_open ≡ true
  pub unique : NodupKeys m.table
  pub keyed : Keyed m.table
  pub holds : Holds m.table d

-- Memory after a `set` that changes the table, before any snapshot.
abbrev changed : Bytes → Bool → IsDirty → IsDirty
changed k b m = record m { table = Dict.insert k b m.table; counter = next_counter m.counter }

module _ (env : Env) (k : Bytes) (b : Bool) (m : IsDirty) (d : Disk) (hk : IsKey k)
    (h : IsDurable m d) (ok : env.renames ≡ true) where
  new-Holds : Holds (Dict.insert k b m.table) (apply (append_log (set_line k b)) d)
  new-Holds = append_log-Holds (k, some b) hk h.holds

  new_keys : NodupKeys (Dict.insert k b m.table) × Keyed (Dict.insert k b m.table)
  new_keys = (Dict.insert-NodupKeys k b m.table h.unique, insert-Keyed k b m.table hk h.keyed)

  snapshot-Holds :
      Always
        (Holds (Dict.insert k b m.table))
        (do_snapshot env (changed k b m)).1
        (apply (append_log (set_line k b)) d)
  snapshot-Holds = do_snapshot-Holds env (changed k b m) _ new_keys.0 new_keys.1 new-Holds ok

  -- Before the line reaches the log the files hold the old table, and from then on the new one.
  pub set_key-Always :
      Always (λ d. Holds m.table d ⊎ Holds (Dict.insert k b m.table) d) (set_key env k b m).1 d
  unfolding set_key
  set_key-Always = elim (Bool-cases (is_set k b m)) [
    | inl same ↦ rw same (inl h.holds)
    | inr differs ↦ elim (Bool-cases (is_zero (next_counter m.counter))) [
      | inl due ↦
          rw (differs, due, log_line-open m _ h.is_open)
            (
              inl h.holds,
              Always-mono (Holds (Dict.insert k b m.table))
                  (λ d. Holds m.table d ⊎ Holds (Dict.insert k b m.table) d) _ _ (λ d x. inr x)
                  snapshot-Holds,
            )
      | inr wait ↦ rw (differs, wait, log_line-open m _ h.is_open) (inl h.holds, inr new-Holds)
    ]
  ]

  -- After the call the files hold the new table, and the log is open.
  pub set_key-IsDurable :
      env.log_opens ≡ true → IsDurable (set_key env k b m).0 (run (set_key env k b m).1 d)
  unfolding set_key run
  set_key-IsDurable opens = elim (Bool-cases (is_set k b m)) [
    | inl same ↦ rw same h
    | inr differs ↦ elim (Bool-cases (is_zero (next_counter m.counter))) [
      | inl due ↦
          rw (differs, due, log_line-open m _ h.is_open)
            (record {
              is_open = do_snapshot-is_open env (changed k b m) opens h.is_open;
              unique = rw table-do_snapshot new_keys.0;
              keyed = rw table-do_snapshot new_keys.1;
              holds =
                  rw table-do_snapshot
                    (Always-run (Holds (Dict.insert k b m.table)) _ _ snapshot-Holds);
            })
      | inr wait ↦
          rw (differs, wait, log_line-open m _ h.is_open)
            (record {
              is_open = h.is_open;
              unique = new_keys.0;
              keyed = new_keys.1;
              holds = new-Holds;
            })
    ]
  ]

module _ (k : Bytes) (m : IsDirty) (d : Disk) (hk : IsKey k) (h : IsDurable m d) where
  erased-Holds : Holds (Dict.erase k m.table) (apply (append_log (erase_line k)) d)
  erased-Holds = append_log-Holds (k, none) hk h.holds

  pub erase_key-Always :
      Always (λ d. Holds m.table d ⊎ Holds (Dict.erase k m.table) d) (erase_key k m).1 d
  unfolding erase_key
  erase_key-Always = elim (Bool-cases (Dict.count k m.table)) [
    | inl found ↦ rw (found, log_line-open m _ h.is_open) (inl h.holds, inr erased-Holds)
    | inr missing ↦ rw missing (inl h.holds)
  ]

  pub erase_key-IsDurable : IsDurable (erase_key k m).0 (run (erase_key k m).1 d)
  unfolding erase_key run
  erase_key-IsDurable = elim (Bool-cases (Dict.count k m.table)) [
    | inl found ↦
        rw (found, log_line-open m _ h.is_open)
          (record {
            is_open = h.is_open;
            unique = Dict.erase-NodupKeys k m.table h.unique;
            keyed = erase-Keyed k m.table h.keyed;
            holds = erased-Holds;
          })
    | inr missing ↦ rw missing h
  ]
