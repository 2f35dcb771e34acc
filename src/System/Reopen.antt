-- ===== src/System/Reopen.antt =====
-- A client opens a file that it or another client closed.
use distributed_systems_afsv.Base.{
  ℕ, ◌<◌, ◌≡◌, ◌⊎◌, inl, inr, refl, sym, ap, ◌∙◌, true, false, none, some, Bytes, length, equal,
  Option-cases,
}
use mathlib.Core.Option.{none-ne-some, some-injective}
use distributed_systems_afsv.Client.{Client, OpEnv, cached}
use distributed_systems_afsv.Client.Open.{afs_open}
use distributed_systems_afsv.Dirty
use distributed_systems_afsv.Hash.{Sha256}
use distributed_systems_afsv.Modified
use distributed_systems_afsv.Modified.{local_creat_file}
use distributed_systems_afsv.Posix.{find, read_file, mtime_of}
use distributed_systems_afsv.Posix.Laws.{mtime_of_found, mtime_of_missing}
use distributed_systems_afsv.Server.{Server, fs_path, stat}
use distributed_systems_afsv.Server.Temporary.{Stored}
use distributed_systems_afsv.System.{Network, afs_stub}
use distributed_systems_afsv.System.Opening.{open_cached, Fresh, open_fetches}
use distributed_systems_afsv.System.Close.{IsLive, Clean, Closed, release_stores}

stat_found :
    (root path : Bytes) (i : ℕ) (s : Server)
    → find (fs_path root path) s.fs ≡ some i
    → (stat root none path s).st_mtim ≡ (s.fs.inodes i).mtime
unfolding stat
stat_found root path i s h = rw (stat, h) refl

pub mtime_of-stat :
    (root path ts : Bytes) (s : Server)
    → mtime_of (fs_path root path) s.fs ≡ some ts
    → (stat root none path s).st_mtim ≡ ts
mtime_of-stat root path ts s h = elim (Option-cases (find (fs_path root path) s.fs)) [
  | inl missing ↦ absurd (none-ne-some ts (sym (mtime_of_missing _ s.fs missing) ∙ h))
  | inr (i, found) ↦
      stat_found root path i s found ∙ some-injective _ ts (sym (mtime_of_found _ i s.fs found) ∙ h)
]

-- `Stat` answers the time of the last `Write`.
pub Stored-stat :
    (root path b ts : Bytes) (s : Server)
    → Stored root path b ts s
    → (stat root none path s).st_mtim ≡ ts
Stored-stat root path b ts s h = mtime_of-stat root path ts s h.mtime

-- A copy from before the time `ts`: there is none, or it is not locally created and has another
-- timestamp.
abbrev pub IsOld : Sha256 → Bytes → Bytes → Client → Type 0
IsOld sha path ts c =
    (Modified.count sha path c.modified ≡ false)
    ⊎ ((equal (Modified.get sha path c.modified) local_creat_file ≡ false)
        × (equal ts (Modified.get sha path c.modified) ≡ false))

module _ (sha : Sha256) (root : Bytes) (net : Network) (path b ts : Bytes) (s : Server)
    (stored : Stored root path b ts s) (up : net.up ≡ true) (answers : net.kernel ≡ none) where
  pub stored_stat : ((afs_stub sha root net).stat path s).st_mtim ≡ ts
  stored_stat = rw (up, answers) (Stored-stat root path b ts s stored)

  pub open_old :
      (env : OpEnv) (fh : ℕ) (c : Client)
      → env.refusal ≡ none
      → IsOld sha path ts c
      → length b < net.budget
      → Fresh sha root net env path b ts fh s c
  open_old env fh c works (inl missing) room =
      open_fetches sha root net env path b ts fh s c works up answers (inl missing) stored room
  open_old env fh c works (inr (shared, old)) room =
      open_fetches sha root net env path b ts fh s c works up answers
        (inr (shared, ap (λ t. equal t (Modified.get sha path c.modified)) stored_stat ∙ old))
        stored room

  -- A client that has the server's timestamp and no write to upload, and whose cache file opens,
  -- is given its cached copy, and keeps it; nothing is downloaded, whatever the stream would take.
  pub open_hits :
      (env : OpEnv) (fh : ℕ) (c : Client)
      → env.refusal ≡ none
      → Clean sha path b ts c
      → equal ts local_creat_file ≡ false
      → Fresh sha root net env path b ts fh s c
        × ((afs_open sha (afs_stub sha root net) env path fh s c).client.fs ≡ c.fs)
  open_hits env fh c works h shared =
      open_cached sha root net env path b ts fh s c works stored_stat h shared

-- Close to open. Client `a` closes a file that is dirty and has the content `b` in its cache, on a
-- live network (the call reaches the server, the temporary file opens, the call is not cancelled,
-- and the server's `rename` succeeds), while nobody holds the server's mutex, its cache file
-- opens, and its stream takes more writes than `b` has bytes. Then a client `c` opens the file,
-- where the server answers, its stream takes more writes than `b` has bytes, the local system
-- opens the cache file, and the copy of `c` is old: there is none, or it is not locally created
-- and has another timestamp than the time of that `Write`. The close returns 0, the server has `b`
-- with the time of the `Write`, and `a` has both and nothing to upload; the open returns 0, `c`
-- has both and nothing to upload, and its new descriptor is open on a file with the content `b`.
pub close_to_open :
    (sha : Sha256) (root : Bytes) (net net' : Network) (env env' : OpEnv) (path b : Bytes)
    (fh fh' : ℕ) (s : Server) (a c : Client)
    → IsLive net
    → s.locked ≡ false
    → env.refusal ≡ none
    → Dirty.get sha path a.dirty ≡ true
    → read_file (cached sha a path) a.fs ≡ some b
    → length b < env.budget
    → net'.up ≡ true
    → net'.kernel ≡ none
    → env'.refusal ≡ none
    → length b < net'.budget
    → IsOld sha path net.write_env.now c
    → (closed : Closed sha root net env path b fh s a) × Fresh sha root net' env' path b
        net.write_env.now fh' closed.server c
close_to_open sha root net net' env env' path b fh fh' s a c live free opens dirty has room up
      answers opens' room' old =
    let closed = release_stores sha root net env path b fh s a live free opens dirty has room in
    (
      closed,
      open_old sha root net' path b net.write_env.now closed.server closed.stored up answers env'
          fh' c opens' old room',
    )

-- The client that closed the file, as in `close_to_open`, opens it again from its cache: the close
-- returns 0, the server has `b` with the time of the `Write`, the open returns 0, the client still
-- has both and nothing to upload, its new descriptor is open on a file with the content `b`, and
-- no file of its cache directory changes. The server answers, the local system opens the cache
-- file, and the time is not the mark of a locally created file; the stream may take any number of
-- writes.
pub close_and_reopen :
    (sha : Sha256) (root : Bytes) (net net' : Network) (env env' : OpEnv) (path b : Bytes)
    (fh fh' : ℕ) (s : Server) (a : Client)
    → IsLive net
    → s.locked ≡ false
    → env.refusal ≡ none
    → Dirty.get sha path a.dirty ≡ true
    → read_file (cached sha a path) a.fs ≡ some b
    → length b < env.budget
    → net'.up ≡ true
    → net'.kernel ≡ none
    → env'.refusal ≡ none
    → equal net.write_env.now local_creat_file ≡ false
    → (closed : Closed sha root net env path b fh s a) × Fresh sha root net' env' path b
        net.write_env.now fh' closed.server closed.client
      × ((afs_open sha (afs_stub sha root net') env' path fh' closed.server closed.client).client.fs
          ≡ closed.client.fs)
close_and_reopen sha root net net' env env' path b fh fh' s a live free opens dirty has room up
      answers opens' shared =
    let closed = release_stores sha root net env path b fh s a live free opens dirty has room in
    let (fresh, same) =
      open_hits sha root net' path b net.write_env.now closed.server closed.stored up answers env'
        fh' closed.client opens' closed.kept shared in
    (closed, fresh, same)
