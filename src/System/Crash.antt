-- ===== src/System/Crash.antt =====
-- A crash of the client while it closes a file that it has changed, and the client that starts on
-- what is left.
pub mod Closing
pub mod Reading
pub mod Removal
pub mod Writing
use distributed_systems_afsv.Base.{
  ℕ, ℤ, ◌<◌, ◌≡◌, ◌≢◌, refl, sym, ap, ◌∙◌, Bool, true, false, Option, none, some, ◌⊎◌, inl, inr,
  List, ◌∷◌, ◌++◌, map, Bytes, length, take, equal_ne, if◌then◌else◌,
}
use mathlib.Core.Path.{subst}
use distributed_systems_afsv.Base.Dict
use distributed_systems_afsv.Base.Dict.{Dict}
use distributed_systems_afsv.Client.{Client, OpEnv, is_ok, cached}
use distributed_systems_afsv.Client.Crash.{
  Survivors, survivors, land_all, Throughout, Throughout-take, Throughout-append,
  Throughout-dirties, Throughout-modifies, land_all-dirties, dirties, modifies, release_writes,
  upload_writes, uploaded_writes,
}
use distributed_systems_afsv.Client.Release.{messages}
use distributed_systems_afsv.Client.Stub.{Stub}
use distributed_systems_afsv.Dirty
use distributed_systems_afsv.Dirty.Restart.{Restarts, start-Restarts}
use distributed_systems_afsv.Dirty.Session
use distributed_systems_afsv.Hash.{Sha256, hash_path}
use distributed_systems_afsv.Journal
use distributed_systems_afsv.Journal.{Disk, Env}
use distributed_systems_afsv.Journal.Always.{Always, Always-here, Always-run}
use distributed_systems_afsv.Modified
use distributed_systems_afsv.Modified.Crash.{old, Holds-load}
use distributed_systems_afsv.Modified.Crash.Calls.{Recovers, crash-Recovers}
use distributed_systems_afsv.Modified.Marker.{boot_loaded}
use distributed_systems_afsv.Modified.Replay.{IsTimespec}
use distributed_systems_afsv.Posix.{read_file}
use distributed_systems_afsv.Posix.Laws.{IsFs}
use distributed_systems_afsv.Posix.Same.{Same, Same-refl}
use distributed_systems_afsv.Proto.{ok, no_meta, Status, Meta}
use distributed_systems_afsv.Server.{Server, fs_path}
use distributed_systems_afsv.Server.Temporary.{Stored}
use distributed_systems_afsv.Server.Write.{after_write, after_write-Stored, after_write-IsFs}
use distributed_systems_afsv.Start.{Tables, start_data, with_slash}
use distributed_systems_afsv.Start.Mounted.{IsDurable, dirty_get-same, modified_get-same}
use distributed_systems_afsv.Stream.{send_file, bufsize}
use distributed_systems_afsv.System.{Network, afs_stub}
use distributed_systems_afsv.System.Close.{stub_write}
use distributed_systems_afsv.System.Transfer.{send_file-Blocks, payload-messages}
use distributed_systems_afsv.System.Uploads.{Uploaded, waits, fails, goes, stub_write-Uploaded}

-- What the next process of the client finds in its tables.
abbrev pub tables_of : {R : Type 0} → Survivors R → Env → ℤ → Env → ℤ → Tables
tables_of x modified_env modified_counter dirty_env dirty_counter = record {
  modified_disk = x.modified_disk;
  modified_env = modified_env;
  modified_counter = modified_counter;
  dirty_disk = x.dirty_disk;
  dirty_env = dirty_env;
  dirty_counter = dirty_counter;
}

module _ (sha : Sha256) (root : Bytes) (net : Network) (env : OpEnv) (path b dir : Bytes)
    (menv : Env) (mcounter : ℤ) (denv : Env) (dcounter : ℤ) (s : Server) (c : Client) where
  -- The server has the content, or it has what it had and the client still has it to upload.
  pub data Safe (server : Server) (client : Client) : Type 0 where
    uploads : Stored root path b net.write_env.now server → Safe server client
    keeps :
        ((q : Bytes) → Same (fs_path root q) s.fs server.fs)
        → Dirty.get sha path client.dirty ≡ true
        → Modified.get sha path client.modified ≡ Modified.get sha path c.modified
        → Modified.count sha path client.modified ≡ Modified.count sha path c.modified
        → Safe server client

  -- A client starts, with the content of the file in its cache, and with every other file as clean
  -- or dirty as it was.
  pub record Restored (x : Survivors Server) : Type 0 where
    pub client : Client
    pub result : start_data (tables_of x menv mcounter denv dcounter) x.fs dir ≡ some client
    pub content : read_file (cached sha client path) client.fs ≡ some b
    pub safe : Safe x.server client
    pub well : IsFs x.server.fs
    pub others :
        (q : Bytes)
        → hash_path sha path ≢ hash_path sha q
        → Dirty.get sha q client.dirty ≡ Dirty.get sha q c.dirty

  abbrev pub key : Bytes
  key = hash_path sha path

  abbrev pub stamped : Dict Bytes
  stamped = Dict.insert key net.write_env.now c.modified.table

  abbrev pub cleaned : Dict Bool
  cleaned = Dict.insert key false c.dirty.table

  abbrev pub Recovered : Disk → Type 0
  Recovered = Recovers key c.modified.table stamped menv mcounter

  abbrev pub Boots : Disk → Type 0
  Boots d = Restarts c.dirty.table denv dcounter d ⊎ Restarts cleaned denv dcounter d

  module _ (same : c.cache_root ≡ with_slash dir)
      (has : read_file (cached sha c path) c.fs ≡ some b) where
    pub restored :
        (d e : Disk) (server : Server) (t : Dict Bool)
        → (m : Recovered d) → (again : Restarts t denv dcounter e)
        → ((j : Bytes) → key ≢ j → Dict.lookup j t ≡ Dict.lookup j c.dirty.table)
        → Stored root path b net.write_env.now server
          ⊎ (((q : Bytes) → Same (fs_path root q) s.fs server.fs)
              × (Dirty.get sha path again.memory ≡ true)
              × (Dict.lookup key m.found ≡ Dict.lookup key c.modified.table))
        → IsFs server.fs
        → Restored (record { fs = c.fs; modified_disk = d; dirty_disk = e; server = server })
    unfolding start_data cached
    restored d e server t m again keeps_others safe well = record {
      client = record {
        cache_root = with_slash dir;
        modified = record { table = m.found; log_is_open = menv.log_opens; counter = mcounter };
        modified_disk = m.disk;
        dirty = again.memory;
        dirty_disk = again.disk;
        fs = c.fs;
        fds = λ fd. none;
        next_fd = 3;
      };
      result = rw (start_data, m.started, again.started) refl;
      content = ap (λ r. read_file (r ++ key) c.fs) (sym same) ∙ has;
      safe = elim safe [
        | inl stored ↦ uploads stored
        | inr (files, dirty, entry) ↦
            let (stamp, known) =
              modified_get-same sha path
                (record { table = m.found; log_is_open = menv.log_opens; counter = mcounter })
                c.modified entry in
            keeps files dirty stamp known
      ];
      well = well;
      others = λ q apart.
          dirty_get-same sha q again.memory c.dirty
            (again.same (hash_path sha q) ∙ keeps_others (hash_path sha q) apart);
    }

    pub stored_on :
        (d e : Disk) (server : Server)
        → Recovered d
        → Boots e
        → Stored root path b net.write_env.now server
        → IsFs server.fs
        → Restored (record { fs = c.fs; modified_disk = d; dirty_disk = e; server = server })
    stored_on d e server m (inl again) stored well =
        restored d e server c.dirty.table m again (λ j apart. refl) (inl stored) well
    stored_on d e server m (inr again) stored well =
        restored d e server cleaned m again
          (λ j apart.
            Dict.lookup-insert key j false c.dirty.table
            ∙ ap (λ e. if e then some false else Dict.lookup j c.dirty.table)
                (equal_ne key j apart))
          (inl stored) well

-- What is left by a crash behind the first `n` writes of `afs_release`.
abbrev pub crashed_at :
    Sha256 → Bytes → Network → OpEnv → Bytes → ℕ → Server → Client → Survivors Server
crashed_at sha root net env path n s c =
    land_all (take n (release_writes sha (afs_stub sha root net) env path s c)) (survivors s c)
