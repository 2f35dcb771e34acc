-- ===== src/Client/Release.antt =====
-- `afs_release` and the upload in it.
use distributed_systems_afsv.Base.{
  ℤ, pos, false, Option, none, some, List, map, ◌==◌, if◌then◌else◌, ℕ, Bytes,
}
use distributed_systems_afsv.Client.{Client, OpEnv, is_ok, cached, set_modified, set_dirty}
use distributed_systems_afsv.Client.Stub.{Stub}
use distributed_systems_afsv.Dirty
use distributed_systems_afsv.Hash.{Sha256}
use distributed_systems_afsv.Posix.{read_file, eio}
use distributed_systems_afsv.Proto.{FilepathContent, Meta, Status}
use distributed_systems_afsv.Stream.{send_file, bufsize}

-- A handler returns a code, ends the process by `exit(1)`, or waits for the server for ever.
pub data Outcome (R : Type 0) : Type 0 where
  returned : ℤ → R → Client → Outcome R
  exited : Outcome R
  stuck : Outcome R

-- `close(fi->fh)`, whose result is not read.
abbrev pub close_fd : ℕ → Client → Client
close_fd fh c = record c { fds = λ fd. if fh == fd then none else c.fds fd }

abbrev pub messages : Bytes → List Bytes → List FilepathContent
messages path blocks = map (λ b. record { filepath = path; b = b }) blocks

module _ (sha : Sha256) {R : Type 0} (stub : Stub R) where
  -- On the answer of the upload; the code for a failure is `EIO`, with no minus sign.
  unfoldable pub uploaded : OpEnv → Bytes → Status → Meta → R → Client → Outcome R
  uploaded env path status meta r c =
      if is_ok status
      then returned (pos 0) r
          (set_modified sha env path meta.timestamp (set_dirty sha env path false c))
      else returned (pos eio) r c

  -- The upload of a dirty file, whose blocks are sent while the stream takes them.
  unfoldable pub upload : OpEnv → Bytes → Option Bytes → R → Client → Outcome R
  upload env path none r c = exited
  upload env path (some content) r c =
      elim (stub.write (messages path (send_file bufsize env.budget content).0) r) [
        | none ↦ stuck
        | some (status, meta, r') ↦ uploaded env path status meta r' c
      ]

  -- The cache file does not open if the name is missing or the system refuses.
  abbrev pub opened_cache : OpEnv → Bytes → Client → Option Bytes
  opened_cache env path c = elim env.refusal [
    | some errno ↦ none
    | none ↦ read_file (cached sha c path) c.fs
  ]

  unfoldable pub afs_release : OpEnv → Bytes → ℕ → R → Client → Outcome R
  afs_release env path fh r c =
      let c' = close_fd fh c in
      if Dirty.get sha path c'.dirty
      then upload env path (opened_cache env path c') r c'
      else returned (pos 0) r c'
