-- ===== src/System/Lost.antt =====
-- Calls that fail unread: the `rename` of the server behind a close, and the opening of the cache
-- file behind a download.
use distributed_systems_afsv.Base.{
  ◌<◌, ◌≡◌, refl, ap, ◌∙◌, ℕ, pos, true, false, none, some, arith, Bytes, equal, length, inr,
  Option-cases, inl,
}
use distributed_systems_afsv.Client.{Client, OpEnv, cached, set_modified, set_dirty}
use distributed_systems_afsv.Client.Release.{returned, messages, afs_release, close_fd}
use distributed_systems_afsv.Dirty
use distributed_systems_afsv.Hash.{Sha256}
use distributed_systems_afsv.Modified.{local_creat_file}
use distributed_systems_afsv.Posix.{Fs, find, read_file, is_file}
use distributed_systems_afsv.Posix.Laws.{IsFs}
use distributed_systems_afsv.Posix.Same.{Same, Same-read_file, Same-mtime_of}
use distributed_systems_afsv.Server.{Server, fs_path}
use distributed_systems_afsv.Server.Temporary.{Stored}
use distributed_systems_afsv.Stream.{send_file, bufsize}
use distributed_systems_afsv.System.{Network, afs_stub}
use distributed_systems_afsv.System.Close.{Clean, afs_release_dirty, upload_ok}
use distributed_systems_afsv.System.Opening.{Fresh}
use distributed_systems_afsv.System.Reopen.{open_old}
use distributed_systems_afsv.System.Tables.{modified_get-set, modified_count-set, dirty_get-set}
use distributed_systems_afsv.System.Uploads.{left, write_lost, left-Same}

Same-is_file : (path : Bytes) (fs gs : Fs) → Same path fs gs → is_file path gs ≡ is_file path fs
unfolding is_file
Same-is_file path fs gs h = elim (Option-cases (find path fs)) [
  | inl missing ↦ ground (arith, h.name, missing)
  | inr (j, found) ↦ ground (arith, h.name, found, h.inode j found)
]

Same-Stored :
    (root path b ts : Bytes) (s t : Server)
    → Same (fs_path root path) s.fs t.fs
    → t.locked ≡ false
    → Stored root path b ts s
    → Stored root path b ts t
Same-Stored root path b ts s t same free h = record {
  content = Same-read_file _ s.fs t.fs same ∙ h.content;
  mtime = Same-mtime_of _ s.fs t.fs same ∙ h.mtime;
  file = Same-is_file _ s.fs t.fs same ∙ h.file;
  free = free;
}

module _ (sha : Sha256) (root : Bytes) (net net' : Network) (env env' : OpEnv)
    (path b old ts : Bytes) where
  -- A close that reports success, and an open behind it that gives the user the old content.
  pub record Lost (fh fh' : ℕ) (s : Server) (c : Client) : Type 0 where
    pub server : Server
    pub client : Client
    pub result :
        afs_release sha (afs_stub sha root net) env path fh s c ≡ returned (pos 0) server client
    pub same : (q : Bytes) → Same (fs_path root q) s.fs server.fs
    pub believes : Clean sha path b net.write_env.now client
    pub reopened : Fresh sha root net' env' path old ts fh' server client

  -- A change that is lost. Client `c` closes a file that is dirty and has the content `b` in its
  -- cache, and the server's `rename` fails: the close returns 0, the server keeps every file as it
  -- was, and the client has `b` with the time of the `Write` as clean. Its next `afs_open` of the
  -- file returns 0, and its descriptor reads the old content of the server. The server's file
  -- system is well-formed and it has the file as a regular one, with another time than that of the
  -- `Write`, which is not the mark of a locally created file; the mutex is free, the temporary
  -- file opens, the call is not cancelled; both times the server answers and the local system
  -- opens the cache file, and the stream of the open takes more writes than the old content has
  -- bytes.
  pub close_loses :
      (fh fh' : ℕ) (s : Server) (c : Client)
      → IsFs s.fs
      → Stored root path old ts s
      → net.up ≡ true
      → net.write_env.opens ≡ true
      → net.write_env.is_cancelled ≡ false
      → net.write_env.renames ≡ false
      → env.refusal ≡ none
      → Dirty.get sha path c.dirty ≡ true
      → read_file (cached sha c path) c.fs ≡ some b
      → equal net.write_env.now local_creat_file ≡ false
      → equal ts net.write_env.now ≡ false
      → net'.up ≡ true
      → net'.kernel ≡ none
      → env'.refusal ≡ none
      → length old < net'.budget
      → Lost fh fh' s c
  close_loses fh fh' s c well stored up opens live stays works dirty has shared differs up' answers
        works' room =
      let msgs = messages path (send_file bufsize env.budget b).0 in
      let now = net.write_env.now in
      let s' = left sha root net msgs s in
      let c' = close_fd fh c in
      let closed = set_modified sha env path now (set_dirty sha env path false c') in
      let same : (q : Bytes) → Same (fs_path root q) s.fs s'.fs =
        λ q. left-Same sha root net msgs s q well in
      let stamp = modified_get-set sha env.modified_env path now c'.modified in
      let stored' = Same-Stored root path old ts s s' (same path) refl stored in
      record {
        server = s';
        client = closed;
        result =
            afs_release_dirty sha root net env path b (afs_stub sha root net) fh s c works dirty has
            ∙ upload_ok sha root net env path b (afs_stub sha root net) s c'
                (rw (up, write_lost sha root net msgs s stored.free opens live stays) refl);
        same = same;
        believes = record {
          content = unfold cached in has;
          stamp = stamp;
          known = modified_count-set sha env.modified_env path now c'.modified;
          clean = dirty_get-set sha env.dirty_env path false c'.dirty;
        };
        reopened =
            open_old sha root net' path old ts s' stored' up' answers env' fh' closed works'
              (inr
                (ap (λ t. equal t local_creat_file) stamp ∙ shared, ap (equal ts) stamp ∙ differs))
              room;
      }
