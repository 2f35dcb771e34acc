-- ===== src/System/Crash/Reading.antt =====
-- A user who opens the file again, after the client crashed in closing it and has started again.
use distributed_systems_afsv.Base.{
  ℕ, ℤ, pos, ◌<◌, ◌≡◌, sym, ap, ◌∙◌, ◌⊎◌, inl, inr, true, none, some, Bytes, length, equal,
  equal_refl, arith, Bool-cases,
}
use distributed_systems_afsv.Client.{Client, OpEnv, cached, give_file}
use distributed_systems_afsv.Client.Open.{afs_open}
use distributed_systems_afsv.Dirty
use distributed_systems_afsv.Hash.{Sha256}
use distributed_systems_afsv.Journal.{Env}
use distributed_systems_afsv.Modified
use distributed_systems_afsv.Modified.{local_creat_file}
use distributed_systems_afsv.Modified.Replay.{IsTimespec}
use distributed_systems_afsv.Posix.{read_file, mtime_of}
use distributed_systems_afsv.Posix.Laws.{IsFs}
use distributed_systems_afsv.Posix.Same.{Same-mtime_of}
use distributed_systems_afsv.Server.{Server, fs_path}
use distributed_systems_afsv.Server.Temporary.{Stored}
use distributed_systems_afsv.Start.{with_slash}
use distributed_systems_afsv.Start.Mounted.{IsDurable}
use distributed_systems_afsv.System.{Network, afs_stub}
use distributed_systems_afsv.System.Crash.{Restored, uploads, keeps, crashed_at}
use distributed_systems_afsv.System.Crash.Closing.{crash-Restored}
use distributed_systems_afsv.System.Opening.{IsStale, Reads, give_file-Reads, open_fetches}
use distributed_systems_afsv.System.Reopen.{mtime_of-stat}
use distributed_systems_afsv.System.Tables.{give_file_lem}

-- A copy that `afs_open` takes.
abbrev pub IsTaken : Sha256 → Bytes → Bytes → Server → Client → Type 0
IsTaken sha root path s c =
    (Modified.count sha path c.modified ≡ true)
    × ((equal (Modified.get sha path c.modified) local_creat_file ≡ true)
        ⊎ (mtime_of (fs_path root path) s.fs ≡ some (Modified.get sha path c.modified)))

module _ (sha : Sha256) (root : Bytes) (net : Network) (path : Bytes) (env : OpEnv) (fh : ℕ)
    (s : Server) (c : Client) where
  abbrev Gives : Type 0
  Gives = afs_open sha (afs_stub sha root net) env path fh s c ≡ give_file sha env path c

  pub open_taken : net.up ≡ true → net.kernel ≡ none → IsTaken sha root path s c → Gives
  unfolding afs_open
  open_taken up answers (known, inl shared) = ground (arith, known, shared)
  open_taken up answers (known, inr time) =
      let ts = Modified.get sha path c.modified in
      let hit : equal ((afs_stub sha root net).stat path s).st_mtim ts ≡ true =
        ap (λ t. equal t ts) (rw (up, answers) (mtime_of-stat root path ts s time))
        ∙ equal_refl ts in
      elim (Bool-cases (equal ts local_creat_file)) [
        | inl shared ↦ ground (arith, known, shared)
        | inr other ↦ ground (arith, known, other, hit)
      ]

  open-cases : (b : Bytes) → Gives ⊎ IsStale sha root net env path b s c
  unfolding afs_open
  open-cases b = elim (Bool-cases (Modified.count sha path c.modified)) [
    | inr missing ↦ inr (inl missing)
    | inl known ↦ elim (Bool-cases (equal (Modified.get sha path c.modified) local_creat_file)) [
      | inl shared ↦ inl (ground (arith, known, shared))
      | inr other ↦
          elim (Bool-cases (
            equal ((afs_stub sha root net).stat path s).st_mtim
              (Modified.get sha path c.modified))) [
                | inl hit ↦ inl (ground (arith, known, other, hit))
                | inr stale ↦ inr (inr (other, stale))
              ]
    ]
  ]

  -- The open returns 0, with a descriptor that reads the content.
  abbrev pub ReadsNow : Bytes → Type 0
  ReadsNow b =
      let o = afs_open sha (afs_stub sha root net) env path fh s c in (o.code ≡ pos 0) × Reads b o

  given :
      (b : Bytes)
      → Gives
      → env.refusal ≡ none
      → read_file (cached sha c path) c.fs ≡ some b
      → ReadsNow b
  given b h works has =
      rw h ((give_file_lem sha env path c).0, give_file-Reads sha env path b c works has)

  -- The same content on both sides is read, whatever the tables say.
  same-ReadsNow :
      (b ts : Bytes)
      → env.refusal ≡ none
      → net.up ≡ true
      → net.kernel ≡ none
      → length b < net.budget
      → read_file (cached sha c path) c.fs ≡ some b
      → Stored root path b ts s
      → ReadsNow b
  same-ReadsNow b ts works up answers room has stored = elim (open-cases b) [
    | inl h ↦ given b h works has
    | inr stale ↦
        let fresh =
          open_fetches sha root net env path b ts fh s c works up answers stale stored room in
        (fresh.code, fresh.reads)
  ]

-- A user who opens the file after such a crash reads what was written before it: the process that
-- starts is as in `crash-Restored`, and its `afs_open` returns 0, with a descriptor that is open
-- on a file with the content `b`. The file is dirty with the content `b` in the cache, and the
-- client knows it, as locally created or with the timestamp that the server has for it. The
-- client's tables agree with their files before the call; the server's file system is well-formed,
-- and the time of the `Write` has sixteen bytes and is not the mark of an erased entry; `rename`
-- succeeds at the server and in both tables; the cache file opens, and the stream takes more
-- writes than `b` has bytes; the next process can open the log of `is_dirty_t`, and has the same
-- cache directory, up to a slash at its end. At the open the server answers, the local system
-- opens the cache file, and the stream takes more writes than `b` has bytes.
pub crash-Reads :
    (sha : Sha256) (root : Bytes) (net net' : Network) (env env' : OpEnv) (path b dir : Bytes)
    (menv : Env) (mcounter : ℤ) (denv : Env) (dcounter : ℤ) (fh : ℕ) (s : Server) (c : Client)
    → IsDurable c
    → c.cache_root ≡ with_slash dir
    → IsFs s.fs
    → IsTimespec net.write_env.now
    → net.write_env.renames ≡ true
    → env.modified_env.renames ≡ true
    → env.dirty_env.renames ≡ true
    → env.refusal ≡ none
    → denv.log_opens ≡ true
    → Dirty.get sha path c.dirty ≡ true
    → read_file (cached sha c path) c.fs ≡ some b
    → length b < env.budget
    → IsTaken sha root path s c
    → net'.up ≡ true
    → net'.kernel ≡ none
    → env'.refusal ≡ none
    → length b < net'.budget
    → (n : ℕ)
    → let x = crashed_at sha root net env path n s c in
      (r : Restored sha root net env path b dir menv mcounter denv dcounter s c x) × ReadsNow sha
        root net' path env' fh x.server r.client b
crash-Reads sha root net net' env env' path b dir menv mcounter denv dcounter fh s c durable same
      fine hs moves mrenames drenames opens dopens dirty has room (known, stamp) up answers works
      room' n =
    let x = crashed_at sha root net env path n s c in
    let r =
      crash-Restored sha root net env path b dir menv mcounter denv dcounter s c durable same fine
        hs moves mrenames drenames opens dopens dirty has room n in
    (
      r,
      elim r.safe [
        | uploads stored ↦
            same-ReadsNow sha root net' path env' fh x.server r.client b net.write_env.now works up
              answers room' r.content stored
        | keeps files still stamp' known' ↦
            let taken : IsTaken sha root path x.server r.client = (
              known' ∙ known,
              elim stamp [
                | inl shared ↦ inl (ap (λ t. equal t local_creat_file) stamp' ∙ shared)
                | inr time ↦ inr (
                    Same-mtime_of (fs_path root path) s.fs x.server.fs (files path)
                    ∙ time
                    ∙ ap some (sym stamp'))
              ],
            ) in
            given sha root net' path env' fh x.server r.client b
              (open_taken sha root net' path env' fh x.server r.client up answers taken) works
              r.content
      ],
    )
