-- ===== src/System/Mixed.antt =====
-- An open that downloads a file while a `Write` replaces it.
use mathlib.Core.Path.{subst}
use distributed_systems_afsv.Base.{
  ℕ, ◌<◌, ◌≡◌, refl, sym, ap, ◌∙◌, true, false, none, some, List, ◌∷◌, map, Bytes, length, equal,
}
use distributed_systems_afsv.Client.{Client, OpEnv, Opened}
use distributed_systems_afsv.Client.Open.{afs_open, download, receive}
use distributed_systems_afsv.Client.Stub.{Stub}
use distributed_systems_afsv.Hash.{Sha256}
use distributed_systems_afsv.Modified
use distributed_systems_afsv.Modified.{local_creat_file}
use distributed_systems_afsv.Posix.{find}
use distributed_systems_afsv.Posix.Laws.{IsFs}
use distributed_systems_afsv.Proto.{FilepathContent, ok}
use distributed_systems_afsv.Server.{Server, WriteEnv, fs_path}
use distributed_systems_afsv.Server.Fetch.{content_at, content_at_mixed}
use distributed_systems_afsv.Server.Temporary.{Stored, payload}
use distributed_systems_afsv.Server.Write.{after_write, after_write-Stored}
use distributed_systems_afsv.System.{Network, afs_stub}
use distributed_systems_afsv.System.Close.{Clean}
use distributed_systems_afsv.System.Opening.{
  Fresh, filled, filled-Clean, receive_ok, give_file-Clean, open_cached,
}
use distributed_systems_afsv.System.Reopen.{stored_stat}
use distributed_systems_afsv.System.Transfer.{
  meta_block, send_file-Blocks, blocks-of_map, last_block-stamp,
}

afs_open_missing :
    (sha : Sha256) {R : Type 0} (stub : Stub R) (env : OpEnv) (path : Bytes) (fh : ℕ) (r : R)
    (c : Client)
    → Modified.count sha path c.modified ≡ false
    → afs_open sha stub env path fh r c
      ≡ receive sha env path fh (stub.get_content path r).0 (stub.get_content path r).1 c
unfolding afs_open download
afs_open_missing sha stub env path fh r c missing = rw (afs_open, missing) refl

-- The service whose `GetContent` opens a file on the server `s`, and takes its time and reads it on
-- the server `s'`; its stream comes to its end.
abbrev pub mixed_stub : Sha256 → Bytes → Network → Bytes → Server → Server → Stub Server
mixed_stub sha root net garbage s s' = record (afs_stub sha root net) {
  get_content = λ path r. (content_at root net.kernel net.budget garbage path s s' s', ok);
}

module _ (sha : Sha256) (root : Bytes) (net : Network) (garbage path : Bytes) (env later : OpEnv)
    (write_env : WriteEnv) (msgs : List FilepathContent) (i : ℕ) (s : Server) (c : Client) where
  -- The server behind the `Write`.
  abbrev pub replaced : Server
  replaced = after_write sha root write_env path msgs s

  -- The client behind the open.
  abbrev pub opened : ℕ → Client
  opened fh = (afs_open sha (mixed_stub sha root net garbage s replaced) env path fh s c).client

  opened_old :
      (fh : ℕ)
      → IsFs s.fs
      → find (fs_path root path) s.fs ≡ some i
      → (s.fs.inodes i).is_dir ≡ false
      → length (s.fs.inodes i).content < net.budget
      → env.refusal ≡ none
      → Modified.count sha path c.modified ≡ false
      → net.kernel ≡ none
      → Clean sha path (s.fs.inodes i).content write_env.now (opened fh)
  opened_old fh w found file room works missing answers =
      let b = (s.fs.inodes i).content in
      let now = write_env.now in
      let (all, blocks) = send_file-Blocks net.budget b room in
      let mixed =
        content_at_mixed sha root write_env path garbage msgs net.budget i s w found file
        ∙ ap (map (meta_block now)) blocks.shape in
      let first = meta_block now blocks.first in
      let more = map (meta_block now) blocks.more in
      let whole = blocks-of_map now (blocks.first ∷ blocks.more) ∙ blocks.whole in
      let done =
        receive_ok sha root net env path b fh first more c refl now
          (last_block-stamp now blocks.first blocks.more) in
      let clean = filled-Clean sha root net env path b now (first ∷ more) c whole works in
      let same =
        afs_open_missing sha (mixed_stub sha root net garbage s replaced) env path fh s c missing
        ∙ ap
            (λ k.
              receive sha env path fh
                (content_at root k net.budget garbage path s replaced replaced) ok c)
            answers
        ∙ ap (λ ms. receive sha env path fh ms ok c) mixed
        ∙ done in
      let given =
        give_file-Clean sha root net env path b now
          (filled sha root net env path b now (first ∷ more) c) works clean in
      subst (λ (o : Opened). Clean sha path b now o.client) (sym same) given.1

  -- A download that opens a file before a `Write` replaces it, and asks for its time after: the
  -- client has the old content with the timestamp of the new one, and its next open of the file
  -- answers 0 and reads the old content again, although the server has the new one. The client
  -- does not know the file before, the server has it as a regular file, both opens of the cache
  -- file succeed, the stream of the download takes all blocks, the server answers the second open,
  -- and the time of the `Write` is not the mark of a locally created file.
  pub mixed_open_stays :
      (fh fh' : ℕ)
      → IsFs s.fs
      → find (fs_path root path) s.fs ≡ some i
      → (s.fs.inodes i).is_dir ≡ false
      → length (s.fs.inodes i).content < net.budget
      → env.refusal ≡ none
      → Modified.count sha path c.modified ≡ false
      → later.refusal ≡ none
      → net.up ≡ true
      → net.kernel ≡ none
      → equal write_env.now local_creat_file ≡ false
      → Fresh sha root net later path (s.fs.inodes i).content write_env.now fh' replaced (opened fh)
        × Stored root path (payload msgs) write_env.now replaced
  mixed_open_stays fh fh' w found file room works missing works' up answers shared =
      let old = opened_old fh w found file room works missing answers in
      let stored = after_write-Stored sha root write_env path msgs s in
      let stat =
        stored_stat sha root net path (payload msgs) write_env.now replaced stored up answers in
      (
        (open_cached sha root net later path (s.fs.inodes i).content write_env.now fh' replaced
            (opened fh) works' stat old shared).0,
        stored,
      )
