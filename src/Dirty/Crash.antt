-- ===== src/Dirty/Crash.antt =====
-- A crash at any write of a call of `is_dirty_t`, and the process that starts next.
use distributed_systems_afsv.Base.{ℤ, ◌≡◌, Bool, true, ◌⊎◌, inl, inr, Bytes}
use distributed_systems_afsv.Base.Dict
use distributed_systems_afsv.Base.Dict.{Dict, NodupKeys}
use distributed_systems_afsv.Hash.{Sha256, hash_path}
use distributed_systems_afsv.Hash.Keys.{hash_path-IsKey}
use distributed_systems_afsv.Journal.{Disk, Env}
use distributed_systems_afsv.Journal.Always.{Always, Always-mono}
use distributed_systems_afsv.Dirty.{IsDirty, set, erase}
use distributed_systems_afsv.Dirty.Recovery.{IsDurable, set_key-Always, erase_key-Always}
use distributed_systems_afsv.Dirty.Files.{Holds}
use distributed_systems_afsv.Dirty.Restart.{Restarts, start-Restarts}

module _ (sha : Sha256) where
  -- A crash before, between or after the writes of `set`, those of a snapshot included: the
  -- process that starts next finds the old table or the new one, and its files hold what it finds.
  -- The table and its files agree before the call, `rename` succeeds in it, and the next process
  -- can open the log.
  pub set-crash :
      (env next : Env) (counter : ℤ) (path : Bytes) (b : Bool) (m : IsDirty) (d : Disk)
      → IsDurable m d
      → env.renames ≡ true
      → next.log_opens ≡ true
      → Always
          (λ d'.
            Restarts m.table next counter d'
            ⊎ Restarts (Dict.insert (hash_path sha path) b m.table) next counter d')
          (set sha env path b m).1
          d
  unfolding set
  set-crash env next counter path b m d h ok opens =
      let k = hash_path sha path in
      Always-mono (λ d'. Holds m.table d' ⊎ Holds (Dict.insert k b m.table) d') _ _ d
        (λ d' x. elim x [
          | inl old ↦ inl (start-Restarts m.table next counter d' opens old)
          | inr new ↦ inr (start-Restarts (Dict.insert k b m.table) next counter d' opens new)
        ])
        (set_key-Always env k b m d (hash_path-IsKey sha path) h ok)

  -- A crash before or after the write of `erase`: the process that starts next finds the old table
  -- or the one without the name, and its files hold what it finds. The table and its files agree
  -- before the call, and the next process can open the log.
  pub erase-crash :
      (next : Env) (counter : ℤ) (path : Bytes) (m : IsDirty) (d : Disk)
      → IsDurable m d
      → next.log_opens ≡ true
      → Always
          (λ d'.
            Restarts m.table next counter d'
            ⊎ Restarts (Dict.erase (hash_path sha path) m.table) next counter d')
          (erase sha path m).1
          d
  unfolding erase
  erase-crash next counter path m d h opens =
      let k = hash_path sha path in
      Always-mono (λ d'. Holds m.table d' ⊎ Holds (Dict.erase k m.table) d') _ _ d
        (λ d' x. elim x [
          | inl old ↦ inl (start-Restarts m.table next counter d' opens old)
          | inr new ↦ inr (start-Restarts (Dict.erase k m.table) next counter d' opens new)
        ])
        (erase_key-Always k m d (hash_path-IsKey sha path) h)

  -- A crash before, between or after the writes of `set` or `erase` of `is_dirty_t`, those of a
  -- snapshot included: the process that starts next finds the table before the call or the one
  -- after it, and its files hold what it finds. The table and its files agree before the call,
  -- `rename` succeeds in it, and the next process can open the log.
  pub crash-Restarts :
      (env next : Env) (counter : ℤ) (path : Bytes) (b : Bool) (m : IsDirty) (d : Disk)
      → IsDurable m d
      → env.renames ≡ true
      → next.log_opens ≡ true
      → let k = hash_path sha path in
        let before = Restarts m.table next counter in
        Always
          (λ d'. before d' ⊎ Restarts (Dict.insert k b m.table) next counter d')
          (set sha env path b m).1
          d
        × Always
            (λ d'. before d' ⊎ Restarts (Dict.erase k m.table) next counter d')
            (erase sha path m).1
            d
  crash-Restarts env next counter path b m d h ok opens =
      (set-crash env next counter path b m d h ok opens, erase-crash next counter path m d h opens)
