-- ===== src/System/Opening.antt =====
-- Closing a file and opening it: what the server has after `afs_release`, what a client sees after
-- `afs_open`, and the two together.
use mathlib.Core.Option.{none-ne-some, some-injective}
use distributed_systems_afsv.Posix.{find, read_file}
use distributed_systems_afsv.Posix.Laws.{read_file_missing, read_file_found}
use distributed_systems_afsv.Base.{
  equal_refl, none, Option-cases, sym, arith, ℕ, ◌<◌, ◌≡◌, ◌⊎◌, inl, inr, refl, ap, ◌∙◌, pos, true,
  false, some, List, ◌∷◌, map, if◌then◌else◌, Bytes, length, equal, Bool-cases,
}
use distributed_systems_afsv.Client.{
  Client, OpEnv, Opened, open_local, cached, give_file, set_modified, set_dirty, erase_modified,
  unlink_cache, last_block,
}
use distributed_systems_afsv.Client.Open.{store_blocks, receive, download, afs_open, finish_open}
use distributed_systems_afsv.Hash.{Sha256}
use distributed_systems_afsv.Modified
use distributed_systems_afsv.Modified.{local_creat_file}
use distributed_systems_afsv.Proto.{MetaContent, ok}
use distributed_systems_afsv.Server.{Server}
use distributed_systems_afsv.Server.Temporary.{Stored}
use distributed_systems_afsv.Stream.{concat}
use distributed_systems_afsv.System.{Network, afs_stub}
use distributed_systems_afsv.System.Tables.{
  modified_get-set, modified_count-set, dirty_get-set, give_file_lem, store_blocks-read,
}
use distributed_systems_afsv.System.Transfer.{Fetched, Stored-Fetched}
use distributed_systems_afsv.System.Close.{Clean, if_true, Clean-same}

-- The descriptor in `fi->fh` is open, and its file has the content.
pub record Reads (b : Bytes) (o : Opened) : Type 0 where
  pub inode : ℕ
  pub open_fd : o.client.fds o.fh ≡ some inode
  pub content : (o.client.fs.inodes inode).content ≡ b

give_file-found :
    (sha : Sha256) (env : OpEnv) (path : Bytes) (c : Client) (i : ℕ)
    → env.refusal ≡ none
    → find (cached sha c path) c.fs ≡ some i
    → ((give_file sha env path c).client.fds (give_file sha env path c).fh ≡ some i)
      × ((give_file sha env path c).client.fs ≡ c.fs)
unfolding give_file open_local
give_file-found sha env path c i works found = ground (arith, works, found)

pub give_file-Reads :
    (sha : Sha256) (env : OpEnv) (path b : Bytes) (c : Client)
    → env.refusal ≡ none
    → read_file (cached sha c path) c.fs ≡ some b
    → Reads b (give_file sha env path c)
give_file-Reads sha env path b c works has = elim (Option-cases (find (cached sha c path) c.fs)) [
  | inl missing ↦ absurd (none-ne-some b (sym (read_file_missing _ c.fs missing) ∙ has))
  | inr (i, found) ↦
      let (fd, same) = give_file-found sha env path c i works found in
      record {
        inode = i;
        open_fd = fd;
        content =
            ap (λ f. (f.inodes i).content) same
            ∙ some-injective _ b (sym (read_file_found _ i c.fs found) ∙ has);
      }
]

module _ (sha : Sha256) (root : Bytes) (net : Network) (env : OpEnv) (path b : Bytes) where
  -- The result of an open: its code, what the client has, and that the descriptor it gives to the
  -- user reads the content.
  pub record Fresh (ts : Bytes) (fh : ℕ) (s : Server) (c : Client) : Type 0 where
    pub code : (afs_open sha (afs_stub sha root net) env path fh s c).code ≡ pos 0
    pub sees : Clean sha path b ts (afs_open sha (afs_stub sha root net) env path fh s c).client
    pub reads : Reads b (afs_open sha (afs_stub sha root net) env path fh s c)

  -- A cached copy that `afs_open` does not take: there is none, or it is not locally created and
  -- has another timestamp than the server answers.
  abbrev pub IsStale : Server → Client → Type 0
  IsStale s c =
      (Modified.count sha path c.modified ≡ false)
      ⊎ ((equal (Modified.get sha path c.modified) local_creat_file ≡ false)
          × (equal ((afs_stub sha root net).stat path s).st_mtim (Modified.get sha path c.modified)
              ≡ false))

  -- The client that `afs_open` downloads with.
  abbrev pub dropped : Client → Client
  dropped c =
      if Modified.count sha path c.modified
      then unlink_cache sha env path (erase_modified sha path c)
      else c

  pub open_downloads :
      (fh : ℕ) (s : Server) (c : Client)
      → IsStale s c
      → afs_open sha (afs_stub sha root net) env path fh s c
        ≡ download sha (afs_stub sha root net) env path fh s (dropped c)
  unfolding afs_open
  open_downloads fh s c (inl missing) = rw (afs_open, missing) refl
  open_downloads fh s c (inr (shared, old)) =
      elim (Bool-cases (Modified.count sha path c.modified)) [
        | inl known ↦ rw (afs_open, known, shared, old) refl
        | inr missing ↦ rw (afs_open, missing) refl
      ]

  -- The client that a download leaves, before the file is given to the user.
  abbrev pub filled : Bytes → List MetaContent → Client → Client
  filled ts msgs c =
      set_dirty sha env path false (set_modified sha env path ts (store_blocks sha env path msgs c))

  pub filled-Clean :
      (ts : Bytes) (msgs : List MetaContent) (c : Client)
      → concat (map (λ m. m.b) msgs) ≡ b
      → env.refusal ≡ none
      → Clean sha path b ts (filled ts msgs c)
  unfolding cached store_blocks
  filled-Clean ts msgs c whole works = record {
    content = store_blocks-read sha env path msgs c works ∙ ap some whole;
    stamp = modified_get-set sha env.modified_env path ts _;
    known = modified_count-set sha env.modified_env path ts _;
    clean = dirty_get-set sha env.dirty_env path false _;
  }

  pub receive_ok :
      (fh : ℕ) (m : MetaContent) (ms : List MetaContent) (c : Client)
      → m.file_exists ≡ true
      → (ts : Bytes) → (last_block m ms).timestamp ≡ ts
      → receive sha env path fh (m ∷ ms) ok c ≡ give_file sha env path (filled ts (m ∷ ms) c)
  unfolding receive finish_open
  receive_ok fh m ms c h ts e =
      if_true m.file_exists _ _ h ∙ ap (λ t. give_file sha env path (filled t (m ∷ ms) c)) e

  pub give_file-Clean :
      (ts : Bytes) (c : Client)
      → env.refusal ≡ none
      → Clean sha path b ts c
      → ((give_file sha env path c).code ≡ pos 0)
        × Clean sha path b ts (give_file sha env path c).client
        × Reads b (give_file sha env path c)
  give_file-Clean ts c works h =
      let (code, fs, modified, dirty, cache_root) = give_file_lem sha env path c in
      (
        code,
        Clean-same path b ts c _ fs modified dirty cache_root h,
        give_file-Reads sha env path b c works h.content,
      )

  open_known :
      (ts : Bytes) (fh : ℕ) (s : Server) (c : Client)
      → ((afs_stub sha root net).stat path s).st_mtim ≡ ts
      → Clean sha path b ts c
      → equal ts local_creat_file ≡ false
      → afs_open sha (afs_stub sha root net) env path fh s c ≡ give_file sha env path c
  unfolding afs_open
  open_known ts fh s c stat h shared =
      let mtime = ((afs_stub sha root net).stat path s).st_mtim in
      let hit : equal mtime (Modified.get sha path c.modified) ≡ true =
        ap (λ t. equal t (Modified.get sha path c.modified)) stat
        ∙ ap (equal ts) h.stamp
        ∙ equal_refl ts in
      let other : equal (Modified.get sha path c.modified) local_creat_file ≡ false =
        ap (λ t. equal t local_creat_file) h.stamp ∙ shared in
      ground (arith, h.known, other, hit)

  -- A client that has the server's timestamp and no write to upload, and whose cache file opens, is
  -- given its cached copy, and keeps it, whatever the server has; nothing is downloaded.
  pub open_cached :
      (ts : Bytes) (fh : ℕ) (s : Server) (c : Client)
      → env.refusal ≡ none
      → ((afs_stub sha root net).stat path s).st_mtim ≡ ts
      → Clean sha path b ts c
      → equal ts local_creat_file ≡ false
      → Fresh ts fh s c × ((afs_open sha (afs_stub sha root net) env path fh s c).client.fs ≡ c.fs)
  open_cached ts fh s c works stat h shared =
      let known = open_known ts fh s c stat h shared in
      let given = give_file-Clean ts c works h in
      (
        record { code = rw known given.0; sees = rw known given.1; reads = rw known given.2 },
        rw known (give_file_lem sha env path c).1,
      )

  pub download_live :
      (ts : Bytes) (fh : ℕ) (s : Server) (c : Client)
      → net.up ≡ true
      → net.kernel ≡ none
      → (f : Fetched root path b ts net.budget s)
      → download sha (afs_stub sha root net) env path fh s c
        ≡ give_file sha env path (filled ts (f.first ∷ f.more) c)
  unfolding download
  download_live ts fh s c up answers f =
      rw (download, up, answers, f.complete, f.sent)
        (receive_ok fh f.first f.more c f.exists ts f.stamped)

  -- Opening a file whose cached copy is stale fetches the server's content and timestamp, and
  -- leaves nothing to upload. The cache file opens, the server answers, and the stream takes a
  -- write for each byte and one more.
  pub open_fetches :
      (ts : Bytes) (fh : ℕ) (s : Server) (c : Client)
      → env.refusal ≡ none
      → net.up ≡ true
      → net.kernel ≡ none
      → IsStale s c
      → Stored root path b ts s
      → length b < net.budget
      → Fresh ts fh s c
  open_fetches ts fh s c works up answers stale stored room =
      let f = Stored-Fetched root path b ts net.budget s stored room in
      let opened = open_downloads fh s c stale ∙ download_live ts fh s (dropped c) up answers f in
      let (code, sees, reads) =
        give_file-Clean ts _ works (filled-Clean ts (f.first ∷ f.more) (dropped c) f.whole works) in
      record { code = rw opened code; sees = rw opened sees; reads = rw opened reads }
