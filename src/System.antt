-- ===== src/System.antt =====
-- The client on the service of afs_server.cc: the stub that stands for gRPC between them.
pub mod Lost
pub mod Unfilled
pub mod Tables
pub mod Transfer
pub mod Crash
pub mod Close
pub mod Opening
pub mod Reopen
pub mod Down
pub mod Making
pub mod Names
pub mod Mixed
pub mod Uploads
pub mod Honest
pub mod Session
use distributed_systems_afsv.Base.{
  ℕ, Bool, true, false, Option, none, some, List, [], if◌then◌else◌, Bytes,
}
use distributed_systems_afsv.Client.Stub.{Stub}
use distributed_systems_afsv.Hash.{Sha256}
use distributed_systems_afsv.Posix.{Fs, find}
use distributed_systems_afsv.Proto.{Meta, Status, ok, unavailable, no_meta, no_stat, no_response}
use distributed_systems_afsv.Server
use distributed_systems_afsv.Server.{Server, WriteEnv, fs_path}
use distributed_systems_afsv.Stream.{send_file, bufsize}

-- What happens between client and server: whether the server answers, the writes to the stream of
-- `GetContent` that succeed, what the server's system answers, and the names in a directory.
pub record Network : Type 0 where
  pub up : Bool
  pub budget : ℕ
  pub write_env : WriteEnv
  pub kernel : Option ℕ
  pub names : List Bytes

-- Whether the stream of `GetContent` reached its end.
unfoldable pub sent_all : Bytes → Option ℕ → ℕ → Bytes → Server → Bool
sent_all root (some errno) budget path s = true
sent_all root none budget path s = elim (find (fs_path root path) s.fs) [
  | none ↦ true
  | some i ↦ (send_file bufsize budget (s.fs.inodes i).content).1
]

-- A call fails with `unavailable` and the defaults if the server does not answer.
abbrev pub afs_stub : Sha256 → Bytes → Network → Stub Server
afs_stub sha root net = record {
  ls = λ path s. if net.up then net.names else [];
  get_content = λ path s.
      if net.up
      then (
        Server.get_content root net.kernel net.budget path s,
        if sent_all root net.kernel net.budget path s then ok else unavailable,
      )
      else ([], unavailable);
  write = λ msgs s.
      if net.up
      then (elim (Server.write sha root net.write_env msgs s) [
        | none ↦ none
        | some (status, ts, s') ↦ some (status, record no_meta { timestamp = ts }, s')
      ])
      else some (unavailable, no_meta, s);
  stat = λ path s. if net.up then Server.stat root net.kernel path s else no_stat;
  unlink = λ path s. if net.up then Server.unlink root net.kernel path s else (no_response, s);
  rmdir = λ path s. if net.up then Server.rmdir root net.kernel path s else (no_response, s);
  mkdir = λ path s.
      if net.up then Server.mkdir root net.kernel net.write_env.now path s else (no_response, s);
}
