-- ===== src/System/Unfilled.antt =====
-- An open whose cache file does not open: `afs_open` does not ask whether its stream to the file is
-- open, and enters the timestamp of the server for a file that has no copy.
use distributed_systems_afsv.Base.{
  ◌<◌, ◌≡◌, refl, sym, ap, ◌∙◌, ℕ, pos, true, false, List, ◌∷◌, none, some, Bytes, length, inr, inl,
}
use distributed_systems_afsv.Client.{
  Client, OpEnv, Opened, cached, set_modified, set_dirty, give_file, open_local, failed_fh,
}
use distributed_systems_afsv.Client.Open.{afs_open, store_blocks, download}
use distributed_systems_afsv.Dirty
use distributed_systems_afsv.Hash.{Sha256}
use distributed_systems_afsv.Modified
use distributed_systems_afsv.Posix.{find}
use distributed_systems_afsv.Proto.{MetaContent}
use distributed_systems_afsv.Server.{Server}
use distributed_systems_afsv.Server.Temporary.{Stored}
use distributed_systems_afsv.System.{Network, afs_stub}
use distributed_systems_afsv.System.Crash.Reading.{open_taken}
use distributed_systems_afsv.System.Crash.Removal.{give_file-missing}
use distributed_systems_afsv.System.Opening.{filled, open_downloads, download_live}
use distributed_systems_afsv.System.Tables.{modified_get-set, modified_count-set, dirty_get-set}
use distributed_systems_afsv.System.Transfer.{Stored-Fetched}

give_file-refused :
    (sha : Sha256) (env : OpEnv) (path : Bytes) (c : Client) {errno : ℕ}
    → env.refusal ≡ some errno
    → give_file sha env path c ≡ record { code = pos 0; fh = failed_fh; client = c }
unfolding give_file open_local
give_file-refused sha env path c h = rw (give_file, open_local, h) refl

store_blocks-refused :
    (sha : Sha256) (env : OpEnv) (path : Bytes) (msgs : List MetaContent) (c : Client) {errno : ℕ}
    → env.refusal ≡ some errno
    → store_blocks sha env path msgs c ≡ c
unfolding store_blocks
store_blocks-refused sha env path msgs c h = rw (store_blocks, h) refl

module _ (sha : Sha256) (root : Bytes) (net net' : Network) (env env' : OpEnv)
    (path b ts : Bytes) where
  abbrev nothing_open : Client → Opened
  nothing_open c = record { code = pos 0; fh = failed_fh; client = c }

  -- Two opens that report success without a file.
  pub record Unfilled (fh fh' : ℕ) (s : Server) (c : Client) : Type 0 where
    pub client : Client
    pub opened : afs_open sha (afs_stub sha root net) env path fh s c ≡ nothing_open client
    pub files : client.fs ≡ c.fs
    pub stamp : Modified.get sha path client.modified ≡ ts
    pub clean : Dirty.get sha path client.dirty ≡ false
    pub again : afs_open sha (afs_stub sha root net') env' path fh' s client ≡ nothing_open client

  -- A download whose cache file does not open: where the server has the file and the client
  -- neither knows it nor has a copy, `afs_open` returns 0 with 2^64 - 1 in `fi->fh`, no file of
  -- the cache changes, and the client has the server's timestamp for the file and it as clean. The
  -- next `afs_open` of the file takes the missing copy for current: it returns 0 with 2^64 - 1
  -- again, and changes nothing, whatever the local system then does. The server answers both
  -- times, and the stream takes more writes than the file has bytes.
  pub open_without_copy :
      (fh fh' errno : ℕ) (s : Server) (c : Client)
      → Modified.count sha path c.modified ≡ false
      → find (cached sha c path) c.fs ≡ none
      → Stored root path b ts s
      → env.refusal ≡ some errno
      → net.up ≡ true
      → net.kernel ≡ none
      → length b < net.budget
      → net'.up ≡ true
      → net'.kernel ≡ none
      → Unfilled fh fh' s c
  unfolding cached
  open_without_copy fh fh' errno s c unknown absent stored refused up answers room up' answers' =
      let f = Stored-Fetched root path b ts net.budget s stored room in
      let msgs = f.first ∷ f.more in
      let d = set_dirty sha env path false (set_modified sha env path ts c) in
      let known = modified_count-set sha env.modified_env path ts c.modified in
      let stamp = modified_get-set sha env.modified_env path ts c.modified in
      record {
        client = d;
        opened =
            open_downloads sha root net env path b fh s c (inl unknown)
            ∙ ap (λ x. download sha (afs_stub sha root net) env path fh s x) (rw unknown refl)
            ∙ download_live sha root net env path b ts fh s c up answers f
            ∙ give_file-refused sha env path (filled sha root net env path b ts msgs c) refused
            ∙ ap (λ x. nothing_open (set_dirty sha env path false (set_modified sha env path ts x)))
                (store_blocks-refused sha env path msgs c refused);
        files = refl;
        stamp = stamp;
        clean = dirty_get-set sha env.dirty_env path false c.dirty;
        again =
            open_taken sha root net' path env' fh' s d up' answers'
              (known, inr (stored.mtime ∙ ap some (sym stamp)))
            ∙ give_file-missing sha env' path d absent;
      }
