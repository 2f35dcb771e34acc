-- ===== src/System/Session.antt =====
-- A user on one client writes to a file and closes it, and a user on another opens the file and
-- reads.
use distributed_systems_afsv.Base.{
  ℕ, ℤ, [], ◌∷◌, ◌<◌, ◌≡◌, refl, sym, ap, ◌∙◌, none, some, false, pos, arith, Bytes, length, take,
  drop, true,
}
use mathlib.Core.Path.{subst}
use distributed_systems_afsv.Client.{Client, OpEnv, Opened, cached}
use distributed_systems_afsv.Client.Access.{afs_read, afs_write}
use distributed_systems_afsv.Client.Access.RoundTrip.{
  written_over, write_at-content, written_over-read, afs_write_ok, read-write,
}
use distributed_systems_afsv.Client.Open.{afs_open}
use distributed_systems_afsv.Hash.{Sha256}
use distributed_systems_afsv.Posix.{Fs, find, read_file, write_at}
use distributed_systems_afsv.Posix.Laws.{read_file_found}
use distributed_systems_afsv.Server.{Server}
use distributed_systems_afsv.System.{Network, afs_stub}
use distributed_systems_afsv.System.Close.{IsLive, Closed}
use distributed_systems_afsv.System.Making.{Looks, Stored-Looks}
use distributed_systems_afsv.System.Opening.{Reads}
use distributed_systems_afsv.System.Reopen.{IsOld, close_to_open}

write_at-find :
    (i offset : ℕ) (buf now name : Bytes) (fs : Fs)
    → find name (write_at i offset buf now fs) ≡ find name fs
unfolding write_at
write_at-find i offset [] now name fs = refl
write_at-find i offset (x ∷ xs) now name fs = refl

take_all : (b : Bytes) → take (length b) b ≡ b
take_all [] = refl
take_all (x ∷ b) = ap (λ r. x ∷ r) (take_all b)

-- A read of a descriptor that is open on the content `b`.
afs_read-Reads :
    (later : OpEnv) (b : Bytes) (size offset : ℕ) (o : Opened)
    → later.refusal ≡ none
    → Reads b o
    → afs_read later size offset o.fh o.client
      ≡ (pos (length (take size (drop offset b))), take size (drop offset b))
unfolding afs_read
afs_read-Reads later b size offset o works h = ground (arith, works, h.open_fd, h.content)

module _ (sha : Sha256) (root : Bytes) (net net' : Network) (wenv env env' renv : OpEnv)
    (path buf : Bytes) (offset fh fh' i : ℕ) (s : Server) (a c : Client) where
  -- The file behind the write, and the client with it.
  abbrev pub edited : Bytes
  edited = written_over offset buf (a.fs.inodes i).content

  abbrev pub writer : Client
  writer = (afs_write sha wenv path buf offset fh a).1

  writer-edited :
      wenv.refusal ≡ none
      → a.fds fh ≡ some i
      → find (cached sha a path) a.fs ≡ some i
      → read_file (cached sha writer path) writer.fs ≡ some edited
  unfolding cached
  writer-edited works fd named =
      let done = afs_write_ok sha wenv renv path buf offset fh i a works fd in
      subst (λ (r : ℤ × Client). read_file (cached sha r.1 path) r.1.fs ≡ some edited) (sym done)
        (read_file_found _ i _ (write_at-find i offset buf wenv.now _ a.fs ∙ named)
          ∙ ap some (write_at-content i offset buf wenv.now a.fs))

  -- From a user's write to another user's read. Client `a` writes `buf` at any offset to a
  -- descriptor that is open on its cached copy, and closes the file; then client `c` opens it. The
  -- close returns 0 and leaves the server with the edited content, the old content with `buf` over
  -- it and zeros in a gap; the open returns 0, and on its descriptor a read at the offset returns
  -- `buf`, and a read from the start returns the edited content; `afs_getattr` returns 0, with the
  -- size of the edited content and the time of the `Write`. The local systems refuse no call, the
  -- network is live (the call reaches the server, the temporary file opens, the call is not
  -- cancelled, and the server's `rename` succeeds) and the mutex free at the close, the server
  -- answers at the open, both streams take more writes than the edited content has bytes, and the
  -- copy of `c` is old: there is none, or it is not locally created and has another timestamp than
  -- the time of the `Write`.
  pub write_to_read :
      wenv.refusal ≡ none
      → a.fds fh ≡ some i
      → find (cached sha a path) a.fs ≡ some i
      → IsLive net
      → s.locked ≡ false
      → env.refusal ≡ none
      → length edited < env.budget
      → net'.up ≡ true
      → net'.kernel ≡ none
      → env'.refusal ≡ none
      → length edited < net'.budget
      → IsOld sha path net.write_env.now c
      → renv.refusal ≡ none
      → (closed : Closed sha root net env path edited fh s writer) × (let o =
            afs_open sha (afs_stub sha root net') env' path fh' closed.server c in
          (o.code ≡ pos 0)
          × (afs_read renv (length buf) offset o.fh o.client ≡ (pos (length buf), buf))
          × (afs_read renv (length edited) 0 o.fh o.client ≡ (pos (length edited), edited))
          × Looks sha root net' path (length edited) net.write_env.now closed.server)
  write_to_read works fd named live free opens room up answers opens' room' old works' =
      let dirty = (read-write sha wenv renv path buf offset fh i a works fd works').1 in
      let (closed, fresh) =
        close_to_open sha root net net' env env' path edited fh fh' s writer c live free opens dirty
          (writer-edited works fd named) room up answers opens' room' old in
      let back = written_over-read offset buf (a.fs.inodes i).content in
      (
        closed,
        (
          fresh.code,
          afs_read-Reads renv edited (length buf) offset _ works' fresh.reads
              ∙ ap (λ b. (pos (length b), b)) back,
          afs_read-Reads renv edited (length edited) 0 _ works' fresh.reads
              ∙ ap (λ b. (pos (length b), b)) (take_all edited),
          Stored-Looks sha root net' path edited net.write_env.now closed.server closed.stored up
              answers,
        ),
      )
