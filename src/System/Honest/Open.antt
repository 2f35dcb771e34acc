-- ===== src/System/Honest/Open.antt =====
-- `afs_open` and `afs_write` of one client: what it promises behind them.
use distributed_systems_afsv.Base.{
  ◌≢◌, none, take, zero, suc, ℕ, ◌≡◌, refl, sym, ◌∙◌, inl, inr, Bool, true, false, some, List, [],
  ◌∷◌, map, arith, Bytes, equal, Bool-cases, Option-cases, if◌then◌else◌,
}
use mathlib.Core.Path.{subst}
use distributed_systems_afsv.Client.{
  set_modified, set_dirty, Client, OpEnv, Opened, erase_modified, unlink_cache,
}
use distributed_systems_afsv.Client.Access.{afs_write}
use distributed_systems_afsv.Client.Open.{
  finish_open, creat_cache, afs_open, download, receive, store_blocks,
}
use distributed_systems_afsv.Dirty
use distributed_systems_afsv.Hash.{Sha256}
use distributed_systems_afsv.Modified
use distributed_systems_afsv.Modified.{local_creat_file}
use distributed_systems_afsv.Posix.{mtime_of, find}
use distributed_systems_afsv.Posix.Laws.{read_file_found}
use distributed_systems_afsv.Proto.{ok, unavailable}
use distributed_systems_afsv.Server.{Server, fs_path, get_content}
use distributed_systems_afsv.Stream.{concat, send_file, bufsize, send_complete}
use distributed_systems_afsv.System.{sent_all, Network, afs_stub}
use distributed_systems_afsv.System.Honest.{
  other_time-IsHonest, IsHonest, unknown-IsHonest, missing-IsHonest, dirty-IsHonest, same-IsHonest,
  give_file-IsHonest,
}
use distributed_systems_afsv.System.Opening.{filled, filled-Clean, receive_ok}
use distributed_systems_afsv.System.Tables.{modified_get-set, dirty_get-set, modified_count-erase}
use distributed_systems_afsv.System.Transfer.{
  meta_block, blocks-of_map, last_block-stamp, get_content_found, sent_all_found,
}

module _ (sha : Sha256) (root p : Bytes) where
  -- A write marks the file for upload before it writes.
  dirty-afs_write :
      (env : OpEnv) (buf : Bytes) (offset fh : ℕ) (c : Client)
      → Dirty.get sha p (afs_write sha env p buf offset fh c).1.dirty ≡ true
  unfolding afs_write
  dirty-afs_write env buf offset fh c =
      ground (arith, dirty_get-set sha env.dirty_env p true c.dirty)

  pub afs_write-IsHonest :
      (env : OpEnv) (buf : Bytes) (offset fh : ℕ) (s : Server) (c : Client)
      → IsHonest sha root p s (afs_write sha env p buf offset fh c).1
  afs_write-IsHonest env buf offset fh s c =
      dirty-IsHonest sha root p s (afs_write sha env p buf offset fh c).1
        (dirty-afs_write env buf offset fh c)

get_content_dir :
    (root path : Bytes) (budget i : ℕ) (s : Server)
    → find (fs_path root path) s.fs ≡ some i
    → (s.fs.inodes i).is_dir ≡ true
    → get_content root none budget path s ≡ []
unfolding get_content
get_content_dir root path budget i s found dir = rw (get_content, found, dir) refl

get_content_refused :
    (root path : Bytes) (budget errno : ℕ) (s : Server)
    → get_content root (some errno) budget path s
      ≡ take budget (record { file_exists = false; timestamp = []; b = [] } ∷ [])
unfolding get_content
get_content_refused root path budget errno s = refl

sent_whole :
    (budget : ℕ) (content : Bytes)
    → (send_file bufsize budget content).1 ≡ true
    → concat (send_file bufsize budget content).0 ≡ content
unfolding send_file
sent_whole budget content h = send_complete bufsize _ budget content h

module _ (sha : Sha256) (root p : Bytes) (net : Network) (env : OpEnv) (fh : ℕ) (s : Server)
    (works : env.refusal ≡ none)
    (unmarked : mtime_of (fs_path root p) s.fs ≢ some local_creat_file) where
  -- The blocks of a file that the server has: all of them, or a stream that was cut.
  blocks-IsHonest :
      (i : ℕ) (bs : List Bytes) (all : Bool) (c : Client)
      → Modified.count sha p c.modified ≡ false
      → find (fs_path root p) s.fs ≡ some i
      → (all ≡ true → concat bs ≡ (s.fs.inodes i).content)
      → IsHonest sha root p s
          (receive sha env p fh
            (map (meta_block (s.fs.inodes i).mtime) bs)
            (if all then ok else unavailable)
            c).client
  unfolding receive store_blocks
  blocks-IsHonest i [] all c unknown found whole = unknown-IsHonest sha root p s c unknown
  blocks-IsHonest i (b ∷ bs) false c unknown found whole =
      unknown-IsHonest sha root p s
        (store_blocks sha env p (map (meta_block (s.fs.inodes i).mtime) (b ∷ bs)) c) unknown
  blocks-IsHonest i (b ∷ bs) true c unknown found whole =
      let n = s.fs.inodes i in
      let more = map (meta_block n.mtime) bs in
      let c' = filled sha root net env p n.content n.mtime (meta_block n.mtime b ∷ more) c in
      let done =
        receive_ok sha root net env p n.content fh (meta_block n.mtime b) more c refl n.mtime
          (last_block-stamp n.mtime b bs) in
      let same =
        filled-Clean sha root net env p n.content n.mtime (meta_block n.mtime b ∷ more) c
          (blocks-of_map n.mtime (b ∷ bs) ∙ whole refl) works in
      subst (λ (o : Opened). IsHonest sha root p s o.client) (sym done)
        (give_file-IsHonest sha root p env s c' (
          same-IsHonest sha root p s c'
            (same.content ∙ sym (read_file_found (fs_path root p) i s.fs found))))

  -- A file that the server could not open is taken for one that it does not have.
  refused-IsHonest :
      (budget : ℕ) (c : Client)
      → Modified.count sha p c.modified ≡ false
      → IsHonest sha root p s
          (receive sha env p fh
            (take budget (record { file_exists = false; timestamp = []; b = [] } ∷ []))
            ok
            c).client
  unfolding receive finish_open creat_cache
  refused-IsHonest zero c unknown = unknown-IsHonest sha root p s c unknown
  refused-IsHonest (suc budget) c unknown =
      let d =
        set_dirty sha env p false
          (creat_cache sha env p (set_modified sha env p local_creat_file c)) in
      give_file-IsHonest sha root p env s d (
        other_time-IsHonest sha root p local_creat_file s d unmarked
          (modified_get-set sha env.modified_env p local_creat_file c.modified))

  -- A download by a client that does not know the file.
  download-IsHonest :
      (c : Client)
      → Modified.count sha p c.modified ≡ false
      → IsHonest sha root p s (download sha (afs_stub sha root net) env p fh s c).client
  unfolding download sent_all
  download-IsHonest c unknown = elim (Bool-cases net.up) [
    | inr down ↦ rw (download, down) (unfold receive in unknown-IsHonest sha root p s c unknown)
    | inl up ↦ elim (Option-cases net.kernel) [
      | inr (errno, shut) ↦
          rw (download, up, shut, get_content_refused root p net.budget errno s)
            (refused-IsHonest net.budget c unknown)
      | inl answers ↦ elim (Option-cases (find (fs_path root p) s.fs)) [
        | inl missing ↦ missing-IsHonest sha root p s _ missing
        | inr (i, found) ↦ elim (Bool-cases (s.fs.inodes i).is_dir) [
          | inl dir ↦
              rw (download, up, answers, get_content_dir root p net.budget i s found dir)
                (unfold receive in unknown-IsHonest sha root p s c unknown)
          | inr file ↦
              rw
                (
                  download,
                  up,
                  answers,
                  get_content_found root p net.budget i s found file,
                  sent_all_found root p net.budget i s found,
                )
                (blocks-IsHonest i _ _ c unknown found
                  (sent_whole net.budget (s.fs.inodes i).content))
        ]
      ]
    ]
  ]

  pub afs_open-IsHonest :
      (c : Client)
      → IsHonest sha root p s c
      → IsHonest sha root p s (afs_open sha (afs_stub sha root net) env p fh s c).client
  unfolding afs_open
  afs_open-IsHonest c h =
      let given = give_file-IsHonest sha root p env s c h in
      elim (Bool-cases (Modified.count sha p c.modified)) [
        | inr unknown ↦ rw (afs_open, unknown) (download-IsHonest c unknown)
        | inl known ↦ elim (Bool-cases (equal (Modified.get sha p c.modified) local_creat_file)) [
          | inl local ↦ rw (afs_open, known, local) given
          | inr shared ↦
              elim (Bool-cases (
                equal ((afs_stub sha root net).stat p s).st_mtim (Modified.get sha p c.modified))) [
                  | inl hit ↦ rw (afs_open, known, shared, hit) given
                  | inr stale ↦
                      rw (afs_open, known, shared, stale)
                        (download-IsHonest (unlink_cache sha env p (erase_modified sha p c))
                          (modified_count-erase sha p c.modified))
                ]
        ]
      ]
