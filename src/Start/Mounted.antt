-- ===== src/Start/Mounted.antt =====
-- A client that starts on the cache directory of one that ran before.
use distributed_systems_afsv.Base.{
  ◌<◌, ◌≡◌, refl, ap, Bool, true, none, some, List, ◌∷◌, ◌++◌, Bytes, length, All, arith, sym, ℤ,
}
use distributed_systems_afsv.Client.{Client, cached}
use distributed_systems_afsv.Dirty
use distributed_systems_afsv.Dirty.{IsDirty}
use distributed_systems_afsv.Dirty.Recovery
use distributed_systems_afsv.Dirty.Restart
use distributed_systems_afsv.Hash.{Sha256, hash_path}
use distributed_systems_afsv.Modified
use distributed_systems_afsv.Modified.{LastModified}
use distributed_systems_afsv.Base.Dict
use distributed_systems_afsv.Journal.{Env}
use distributed_systems_afsv.Start.{Tables, mounted, start_data, start_client, with_slash}
use distributed_systems_afsv.Start.Options.{Opt, Args, slots, default_server}
use distributed_systems_afsv.Start.Slots.{
  IsSetting, arguments, last_cache, last_mount, last_server, parse-new_args,
}

-- The files that a client left, for a process whose logs open.
abbrev pub left_by : Client → Env → ℤ → Env → ℤ → Tables
left_by c modified_env modified_counter dirty_env dirty_counter = record {
  modified_disk = c.modified_disk;
  modified_env = modified_env;
  modified_counter = modified_counter;
  dirty_disk = c.dirty_disk;
  dirty_env = dirty_env;
  dirty_counter = dirty_counter;
}

-- A client whose files agree with its tables.
pub record IsDurable (c : Client) : Type 0 where
  pub modified : Modified.Calls.IsDurable c.modified c.modified_disk
  pub dirty : Dirty.Recovery.IsDurable c.dirty c.dirty_disk

-- What the tables and the names of the cache say.
pub record Agrees (sha : Sha256) (c d : Client) : Type 0 where
  pub fs : d.fs ≡ c.fs
  pub cached : (path : Bytes) → cached sha d path ≡ cached sha c path
  pub dirty : (path : Bytes) → Dirty.get sha path d.dirty ≡ Dirty.get sha path c.dirty
  pub modified :
      (path : Bytes) → Modified.get sha path d.modified ≡ Modified.get sha path c.modified
  pub known :
      (path : Bytes) → Modified.count sha path d.modified ≡ Modified.count sha path c.modified

pub dirty_get-same :
    (sha : Sha256) (path : Bytes) (m n : IsDirty)
    → Dict.lookup (hash_path sha path) m.table ≡ Dict.lookup (hash_path sha path) n.table
    → Dirty.get sha path m ≡ Dirty.get sha path n
unfolding Dirty.get
dirty_get-same sha path m n h = ground (arith, h)

pub modified_get-same :
    (sha : Sha256) (path : Bytes) (m n : LastModified)
    → Dict.lookup (hash_path sha path) m.table ≡ Dict.lookup (hash_path sha path) n.table
    → (Modified.get sha path m ≡ Modified.get sha path n)
      × (Modified.count sha path m ≡ Modified.count sha path n)
unfolding Modified.get Modified.count Dict.count
modified_get-same sha path m n h = (ground (arith, h), ground (arith, h))

module _ (sha : Sha256) (c : Client) (menv : Env) (mcounter : ℤ) (denv : Env) (dcounter : ℤ)
    (root : Bytes) where
  -- The client that `start_data` makes from the files of `c`.
  pub record Remade : Type 0 where
    pub client : Client
    pub result : start_data (left_by c menv mcounter denv dcounter) c.fs root ≡ some client
    pub durable : IsDurable client
    pub agrees : Agrees sha c client

  pub start_data-Remade :
      IsDurable c
      → menv.log_opens ≡ true
      → denv.log_opens ≡ true
      → c.cache_root ≡ with_slash root
      → Remade
  unfolding start_data cached
  start_data-Remade h mopens dopens same =
      let m =
        Modified.Restart.start-Restarts c.modified.table menv mcounter c.modified_disk mopens
          h.modified.keyed h.modified.holds in
      let d =
        Dirty.Restart.start-Restarts c.dirty.table denv dcounter c.dirty_disk dopens
          h.dirty.holds in
      record {
        client = record {
          cache_root = with_slash root;
          modified = m.memory;
          modified_disk = m.disk;
          dirty = d.memory;
          dirty_disk = d.disk;
          fs = c.fs;
          fds = λ fd. none;
          next_fd = 3;
        };
        result = rw (start_data, m.started, d.started) refl;
        durable = record { modified = m.durable; dirty = d.durable };
        agrees = record {
          fs = refl;
          cached = λ path. ap (λ r. r ++ hash_path sha path) (sym same);
          dirty = λ path. dirty_get-same sha path d.memory c.dirty (d.same (hash_path sha path));
          modified = λ path.
              (modified_get-same sha path m.memory c.modified (m.same (hash_path sha path))).0;
          known = λ path.
              (modified_get-same sha path m.memory c.modified (m.same (hash_path sha path))).1;
        };
      }

  -- What the client's `main` comes to.
  pub record Remounted (is_dir : Bytes → Bool) (argv0 : Bytes) (os : List Opt) : Type 0 where
    pub client : Client
    pub args : Args
    pub result :
        start_client is_dir (left_by c menv mcounter denv dcounter) c.fs argv0 os
        ≡ mounted client args
    pub argv : args.argv ≡ argv0 ∷ arguments os
    pub server_addr : args.server_addr ≡ last_server os default_server
    pub durable : IsDurable client
    pub agrees : Agrees sha c client

  -- A client that starts on the cache directory and the logs that another left: `main` comes to
  -- fuse_main with the arguments of its options, the last `-s` as the server, and a client that
  -- finds the cached files of every path where they were, with the entry of every path in both
  -- tables as it was, and whose logs agree with its tables again. The options are neither `-h` nor
  -- unknown, add less than ten arguments, and name a cache and a mount directory that exist, the
  -- cache directory is the one of the client before, up to a slash at its end, the files of that
  -- client agree with its tables, and both logs open.
  pub start_client-Remounted :
      (is_dir : Bytes → Bool) (argv0 dir : Bytes) (os : List Opt)
      → All IsSetting os
      → length (arguments os) < slots
      → last_cache os none ≡ some root
      → last_mount os none ≡ some dir
      → is_dir root ≡ true
      → is_dir dir ≡ true
      → IsDurable c
      → menv.log_opens ≡ true
      → denv.log_opens ≡ true
      → c.cache_root ≡ with_slash root
      → Remounted is_dir argv0 os
  unfolding start_client
  start_client-Remounted is_dir argv0 dir os settings room cache mount root_dir mount_dir h mopens
        dopens same =
      let p = parse-new_args argv0 os settings room in
      let made = start_data-Remade h mopens dopens same in
      record {
        client = made.client;
        args = p.final;
        result =
            rw
              (
                start_client, p.result, p.cache_root, cache, p.mount_point, mount, root_dir,
                mount_dir, made.result,
              )
              refl;
        argv = p.argv;
        server_addr = p.server_addr;
        durable = made.durable;
        agrees = made.agrees;
      }
