-- ===== src/System/Honest/Run.antt =====
-- One server and any number of clients that work on one file, in any order of their calls.
pub mod Coherent
use distributed_systems_afsv.Base.{
  ℕ, ℤ, ◌<◌, length, none, ◌≡◌, ◌≢◌, sym, ap, ◌∙◌, true, some, ◌==◌, if◌then◌else◌, Bytes,
  Bool-cases, inl, inr,
}
use mathlib.Core.Option.{some-injective}
use mathlib.Core.Path.{subst}
use distributed_systems_afsv.Client.{Client, OpEnv, cached}
use distributed_systems_afsv.Client.Access.{afs_write}
use distributed_systems_afsv.Client.Crash.{Survivors}
use distributed_systems_afsv.Client.Mutate.{afs_mknod, afs_unlink}
use distributed_systems_afsv.Client.Open.{afs_open}
use distributed_systems_afsv.Client.Release.{returned, afs_release}
use distributed_systems_afsv.Hash.{Sha256}
use distributed_systems_afsv.Journal.{Env}
use distributed_systems_afsv.Dirty
use distributed_systems_afsv.Modified.Replay.{IsTimespec}
use distributed_systems_afsv.Modified
use distributed_systems_afsv.Modified.{local_creat_file}
use distributed_systems_afsv.Posix.{mtime_of, read_file}
use distributed_systems_afsv.Posix.Laws.{IsFs}
use distributed_systems_afsv.Server.{fs_path, Server}
use distributed_systems_afsv.Start.{start_data, with_slash}
use distributed_systems_afsv.Start.Mounted.{left_by, IsDurable, Agrees, start_data-Remade}
use distributed_systems_afsv.System.{Network, afs_stub}
use distributed_systems_afsv.System.Crash.{Restored, uploads, keeps, tables_of, crashed_at}
use distributed_systems_afsv.System.Crash.Closing.{crash-Restored}
use distributed_systems_afsv.System.Crash.Writing.{written_at}
use distributed_systems_afsv.System.Honest.{
  IsHonest, renewed-IsHonest, IsHonest-server, same-IsHonest, dirty-IsHonest,
}
use distributed_systems_afsv.System.Honest.Open.{afs_open-IsHonest, afs_write-IsHonest}
use distributed_systems_afsv.System.Honest.Unlink.{afs_unlink-IsHonest, afs_unlink-others}
use distributed_systems_afsv.System.Honest.Upload.{
  After, Sent, kept, stored, Whole, afs_release-Sent, afs_mknod-Sent,
}

pub record World : Type 0 where
  pub server : Server
  pub clients : ℕ → Client

-- Client `n` and the server behind a call.
abbrev pub put : ℕ → Client → Server → World → World
put n c s y = record { server = s; clients = λ k. if n == k then c else y.clients k }

-- A property of every client, if the new one has it, and so have the others.
pub put_all :
    (P : Client → Type 0) (n : ℕ) (c : Client) (s : Server) (y : World)
    → P c
    → ((k : ℕ) → P (y.clients k))
    → (k : ℕ) → P ((put n c s y).clients k)
put_all P n c s y one others k = elim (Bool-cases (n == k)) [
  | inl same ↦ rw same one
  | inr other ↦ rw other (others k)
]

module _ (sha : Sha256) (root p : Bytes) where
  -- The time of a `Write` that neither the server nor a client has for the file.
  pub record IsNew (net : Network) (y : World) : Type 0 where
    pub server : mtime_of (fs_path root p) y.server.fs ≢ some net.write_env.now
    pub clients : (k : ℕ) → Modified.get sha p (y.clients k).modified ≢ net.write_env.now

  -- A call of client `n` for the file, with whatever the network and the systems answer, or a
  -- restart of the client. A handler that ends the process or waits for ever makes no step.
  pub data Step (y : World) : World → Type 0 where
    opens :
        (net : Network) (env : OpEnv) (fh n : ℕ)
        → env.refusal ≡ none
        → mtime_of (fs_path root p) y.server.fs ≢ some local_creat_file
        → Step y (
            put n
              (afs_open sha (afs_stub sha root net) env p fh y.server (y.clients n)).client
              y.server
              y)
    writes :
        (env : OpEnv) (buf : Bytes) (offset fh n : ℕ)
        → Step y (put n (afs_write sha env p buf offset fh (y.clients n)).1 y.server y)
    closes :
        (net : Network) (env : OpEnv) (fh n : ℕ) (code : ℤ) (s : Server) (c : Client)
        → afs_release sha (afs_stub sha root net) env p fh y.server (y.clients n)
          ≡ returned code s c
        → Whole sha root p net y.server env (y.clients n)
        → IsNew net y
        → Step y (put n c s y)
    makes :
        (net : Network) (env : OpEnv) (n : ℕ) (code : ℤ) (s : Server) (c : Client)
        → afs_mknod sha (afs_stub sha root net) env p y.server (y.clients n) ≡ returned code s c
        → IsNew net y
        → Step y (put n c s y)
    unlinks :
        (net : Network) (env : OpEnv) (n : ℕ) (code : ℤ) (s : Server) (c : Client)
        → afs_unlink sha (afs_stub sha root net) env p y.server (y.clients n) ≡ (code, s, c)
        → Step y (put n c s y)
    restarts :
        (modified_env dirty_env : Env) (modified_counter dirty_counter : ℤ) (cache_root : Bytes)
        (n : ℕ) (c : Client)
        → IsDurable (y.clients n)
        → modified_env.log_opens ≡ true
        → dirty_env.log_opens ≡ true
        → (y.clients n).cache_root ≡ with_slash cache_root
        → start_data
            (left_by (y.clients n) modified_env modified_counter dirty_env dirty_counter)
            (y.clients n).fs
            cache_root
          ≡ some c
        → Step y (put n c y.server y)
    -- A crash in a close of a changed file, behind some of its writes, and a start on what is left.
    crashes :
        (net : Network) (env : OpEnv) (b cache_root : Bytes) (modified_env dirty_env : Env)
        (modified_counter dirty_counter : ℤ) (cut n : ℕ) (c : Client)
        → IsDurable (y.clients n)
        → (y.clients n).cache_root ≡ with_slash cache_root
        → IsTimespec net.write_env.now
        → net.write_env.renames ≡ true
        → env.modified_env.renames ≡ true
        → env.dirty_env.renames ≡ true
        → env.refusal ≡ none
        → dirty_env.log_opens ≡ true
        → Dirty.get sha p (y.clients n).dirty ≡ true
        → read_file (cached sha (y.clients n) p) (y.clients n).fs ≡ some b
        → length b < env.budget
        → IsNew net y
        → start_data
            (tables_of
              (crashed_at sha root net env p cut y.server (y.clients n))
              modified_env
              modified_counter
              dirty_env
              dirty_counter)
            (crashed_at sha root net env p cut y.server (y.clients n)).fs
            cache_root
          ≡ some c
        → Step y (put n c (crashed_at sha root net env p cut y.server (y.clients n)).server y)
    -- The same in a write.
    crashes_writing :
        (env : OpEnv) (buf cache_root : Bytes) (modified_env dirty_env : Env)
        (modified_counter dirty_counter : ℤ) (offset fh cut n : ℕ) (c : Client)
        → IsDurable (y.clients n)
        → (y.clients n).cache_root ≡ with_slash cache_root
        → env.dirty_env.renames ≡ true
        → env.dirty_env.log_opens ≡ true
        → dirty_env.log_opens ≡ true
        → start_data
            (tables_of
              (written_at sha env p buf offset fh cut y.server (y.clients n))
              modified_env
              modified_counter
              dirty_env
              dirty_counter)
            (written_at sha env p buf offset fh cut y.server (y.clients n)).fs
            cache_root
          ≡ some c
        → Step y (put n c y.server y)

  pub data Reach (y : World) : World → Type 0 where
    here : Reach y y
    next : {z u : World} → Reach y z → Step z u → Reach y u

  pub record IsCoherent (y : World) : Type 0 where
    pub well : IsFs y.server.fs
    pub honest : (n : ℕ) → IsHonest sha root p y.server (y.clients n)
