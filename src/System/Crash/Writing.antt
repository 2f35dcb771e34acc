-- ===== src/System/Crash/Writing.antt =====
-- A crash of the client in `afs_write`, which marks the file for upload before it changes it.
use distributed_systems_afsv.Base.{
  equal_refl, arith, ℕ, ℤ, ◌≡◌, refl, sym, ap, ◌∙◌, true, Bool, none, some, ◌⊎◌, inl, inr, List,
  map, Bytes, take,
}
use mathlib.Core.Path.{subst}
use distributed_systems_afsv.Base.Dict
use distributed_systems_afsv.Base.Dict.{Dict}
use distributed_systems_afsv.Client.{Client, OpEnv}
use distributed_systems_afsv.Client.Access.{afs_write, on_fd}
use distributed_systems_afsv.Client.Crash.{
  Survivors, survivors, land_all, Throughout, Throughout-take, Throughout-append,
  Throughout-dirties, land_all-append, land_all-dirties, dirties, write_writes, pwrite_writes,
}
use distributed_systems_afsv.Dirty
use distributed_systems_afsv.Dirty.Crash.{set-crash}
use distributed_systems_afsv.Dirty.Recovery.{set_key-IsDurable}
use distributed_systems_afsv.Dirty.Restart.{Restarts, start-Restarts}
use distributed_systems_afsv.Hash.{Sha256, hash_path}
use distributed_systems_afsv.Hash.Keys.{hash_path-IsKey}
use distributed_systems_afsv.Journal
use distributed_systems_afsv.Journal.{Disk, Env}
use distributed_systems_afsv.Modified
use distributed_systems_afsv.Modified.{LastModified}
use distributed_systems_afsv.Modified.Crash.{Holds-load}
use distributed_systems_afsv.Modified.Marker.{boot_loaded}
use distributed_systems_afsv.Posix.{Fs, write_at}
use distributed_systems_afsv.Start.{start_data, with_slash}
use distributed_systems_afsv.Start.Mounted.{IsDurable, dirty_get-same, modified_get-same}
use distributed_systems_afsv.System.Crash.{tables_of}
use distributed_systems_afsv.System.Tables.{dirty_get-set}

-- What is left by a crash behind the first `n` writes of `afs_write`.
abbrev pub written_at :
    {R : Type 0} → Sha256 → OpEnv → Bytes → Bytes → ℕ → ℕ → ℕ → R → Client → Survivors R
written_at sha env path buf offset fh n r c =
    land_all (take n (write_writes sha env path buf offset fh c)) (survivors r c)

module _ (sha : Sha256) {R : Type 0} (env : OpEnv) (path buf dir : Bytes) (offset fh : ℕ)
    (menv : Env) (mcounter : ℤ) (denv : Env) (dcounter : ℤ) (r : R) (c : Client) where
  -- A client starts that has the timestamp of the file, and either the cache and the mark of the
  -- file are as they were, or the file is to be uploaded.
  pub record Marked (x : Survivors R) : Type 0 where
    pub client : Client
    pub result : start_data (tables_of x menv mcounter denv dcounter) x.fs dir ≡ some client
    pub root : client.cache_root ≡ c.cache_root
    pub cache : client.fs ≡ x.fs
    pub stamp : Modified.get sha path client.modified ≡ Modified.get sha path c.modified
    pub known : Modified.count sha path client.modified ≡ Modified.count sha path c.modified
    pub marked :
        ((x.fs ≡ c.fs) × (Dirty.get sha path client.dirty ≡ Dirty.get sha path c.dirty))
        ⊎ (Dirty.get sha path client.dirty ≡ true)

  abbrev setting : List Journal.Effect
  setting = (Dirty.set sha env.dirty_env path true c.dirty).1

  module _ (durable : IsDurable c) (same : c.cache_root ≡ with_slash dir)
      (renames : env.dirty_env.renames ≡ true) (opens : env.dirty_env.log_opens ≡ true)
      (dopens : denv.log_opens ≡ true) where
    restarted :
        (fs : Fs) (e : Disk) {t : Dict Bool}
        → (again : Restarts t denv dcounter e)
        → ((fs ≡ c.fs) × (Dirty.get sha path again.memory ≡ Dirty.get sha path c.dirty))
          ⊎ (Dirty.get sha path again.memory ≡ true)
        → Marked (record { fs = fs; modified_disk = c.modified_disk; dirty_disk = e; server = r })
    unfolding start_data
    restarted fs e again marked =
        let (found, loaded, entries) =
          Holds-load c.modified.table c.modified_disk durable.modified.holds in
        let (disk, started) = boot_loaded menv mcounter c.modified_disk found loaded in
        let memory : LastModified = record {
          table = found;
          log_is_open = menv.log_opens;
          counter = mcounter;
        } in
        let entry = modified_get-same sha path memory c.modified (entries (hash_path sha path)) in
        record {
          client = record {
            cache_root = with_slash dir;
            modified = memory;
            modified_disk = disk;
            dirty = again.memory;
            dirty_disk = again.disk;
            fs = fs;
            fds = λ fd. none;
            next_fd = 3;
          };
          result = rw (start_data, started, again.started) refl;
          root = sym same;
          cache = refl;
          stamp = entry.0;
          known = entry.1;
          marked = marked;
        }

    abbrev changed : Dict Bool
    changed = Dict.insert (hash_path sha path) true c.dirty.table

    dirty_again :
        (e : Disk)
        → (again : Restarts changed denv dcounter e) → Dirty.get sha path again.memory ≡ true
    unfolding Dirty.get
    dirty_again e again =
        let k = hash_path sha path in
        let entry : Dict.lookup k again.memory.table ≡ some true =
          again.same k ∙ Dict.lookup-insert k k true c.dirty.table ∙ rw (equal_refl k) refl in
        ground (arith, entry)

    marking : Throughout Marked (map dirties setting) (survivors r c)
    marking =
        Throughout-dirties _ Marked setting (survivors r c)
          (λ e q. elim q [
            | inl again ↦ restarted c.fs e again (
                inl (
                  refl,
                  dirty_get-same sha path again.memory c.dirty (again.same (hash_path sha path)),
                ))
            | inr again ↦ restarted c.fs e again (inr (dirty_again e again))
          ])
          (set-crash sha env.dirty_env denv dcounter path true c.dirty c.dirty_disk durable.dirty
            renames dopens)

    set-Restarts :
        Restarts
          (Dirty.set sha env.dirty_env path true c.dirty).0.table
          denv
          dcounter
          (Journal.run setting c.dirty_disk)
    unfolding Dirty.set
    set-Restarts =
        let k = hash_path sha path in
        start-Restarts _ denv dcounter _ dopens
          (set_key-IsDurable env.dirty_env k true c.dirty c.dirty_disk (hash_path-IsKey sha path)
            durable.dirty renames opens).holds

    after_write :
        (fs : Fs)
        → Marked (record (survivors r c) { fs = fs; dirty_disk = Journal.run setting c.dirty_disk })
    after_write fs =
        let again = set-Restarts in
        let m = (Dirty.set sha env.dirty_env path true c.dirty).0 in
        restarted fs (Journal.run setting c.dirty_disk) again (
          inr (
            dirty_get-same sha path again.memory m (again.same (hash_path sha path))
            ∙ dirty_get-set sha env.dirty_env path true c.dirty))

    writing :
        (o : ℕ ⊎ ℕ)
        → Throughout Marked
            (pwrite_writes sha env buf offset o c)
            (record (survivors r c) { dirty_disk = Journal.run setting c.dirty_disk })
    unfolding pwrite_writes
    writing (inl errno) = after_write c.fs
    writing (inr i) = (after_write c.fs, after_write (write_at i offset buf env.now c.fs))

    write_writes-Throughout :
        Throughout Marked (write_writes sha env path buf offset fh c) (survivors r c)
    unfolding write_writes
    write_writes-Throughout =
        Throughout-append Marked (map dirties setting) _ (survivors r c) marking (
          subst (Throughout Marked (pwrite_writes sha env buf offset (on_fd env fh c) c))
            (sym (land_all-dirties setting (survivors r c))) (writing (on_fd env fh c)))

  write_writes-afs_write :
      (o : ℕ ⊎ ℕ)
      → on_fd env fh c ≡ o
      → land_all
          (pwrite_writes sha env buf offset o c)
          (record (survivors r c) { dirty_disk = Journal.run setting c.dirty_disk })
        ≡ survivors r (afs_write sha env path buf offset fh c).1
  unfolding afs_write pwrite_writes
  write_writes-afs_write (inl errno) h = rw (afs_write, h) refl
  write_writes-afs_write (inr i) h = rw (afs_write, h) refl

-- A crash in `afs_write`. If the client stops before, between or after the writes of `afs_write`,
-- the process that starts next comes up on the same cache directory, with the entry of the file in
-- `last_modified_t` as it was, and either no file of the cache has changed and the file is dirty
-- or not as before, or the file is dirty, so that it will be uploaded. The writes, all of them,
-- come to what the handler does. The client's tables agree with their files before the call,
-- `rename` succeeds in `is_dirty_t`, its log can be opened, then and at the start, and the cache
-- directory is the one of the process before, up to a slash at its end.
pub crash-Marked :
    (sha : Sha256) {R : Type 0} (env : OpEnv) (path buf dir : Bytes) (offset fh : ℕ) (menv : Env)
    (mcounter : ℤ) (denv : Env) (dcounter : ℤ) (r : R) (c : Client)
    → IsDurable c
    → c.cache_root ≡ with_slash dir
    → env.dirty_env.renames ≡ true
    → env.dirty_env.log_opens ≡ true
    → denv.log_opens ≡ true
    → (n : ℕ)
    → Marked sha env path buf dir offset fh menv mcounter denv dcounter r c
        (land_all (take n (write_writes sha env path buf offset fh c)) (survivors r c))
      × (land_all (write_writes sha env path buf offset fh c) (survivors r c)
          ≡ survivors r (afs_write sha env path buf offset fh c).1)
unfolding write_writes
crash-Marked sha env path buf dir offset fh menv mcounter denv dcounter r c durable same renames
      opens dopens n =
    let P = Marked sha env path buf dir offset fh menv mcounter denv dcounter r c in
    let ds = (Dirty.set sha env.dirty_env path true c.dirty).1 in
    let x = survivors r c in
    (
      Throughout-take P n (write_writes sha env path buf offset fh c) x (
          write_writes-Throughout sha env path buf dir offset fh menv mcounter denv dcounter r c
            durable same renames opens dopens),
      land_all-append (map dirties ds) _ x
          ∙ ap (land_all (pwrite_writes sha env buf offset (on_fd env fh c) c))
              (land_all-dirties ds x)
          ∙ write_writes-afs_write sha env path buf dir offset fh menv mcounter denv dcounter r c
              (on_fd env fh c) refl,
    )
