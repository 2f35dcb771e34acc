-- ===== src/System/Honest/Reads.antt =====
-- What a user reads who opens a file behind any run of the calls of several clients.
use distributed_systems_afsv.Base.{
  ℕ, ◌<◌, ◌≡◌, sym, ap, ◌∙◌, false, true, none, arith, Bytes, length, equal, equal_iff, Bool-cases,
  inl, inr,
}
use distributed_systems_afsv.Client.{Client, OpEnv}
use distributed_systems_afsv.Dirty
use distributed_systems_afsv.Hash.{Sha256}
use distributed_systems_afsv.Modified
use distributed_systems_afsv.Modified.{local_creat_file}
use distributed_systems_afsv.Server.{Server}
use distributed_systems_afsv.Server.Temporary.{Stored}
use distributed_systems_afsv.System.{Network}
use distributed_systems_afsv.System.Close.{Clean}
use distributed_systems_afsv.System.Honest.{IsHonest}
use distributed_systems_afsv.System.Honest.Run.{World, Reach, IsCoherent}
use distributed_systems_afsv.System.Honest.Run.Coherent.{Reach-IsCoherent}
use distributed_systems_afsv.System.Opening.{Fresh}
use distributed_systems_afsv.System.Reopen.{open_old, open_hits}

module _ (sha : Sha256) (root : Bytes) (net : Network) (env : OpEnv) (p b ts : Bytes) (fh : ℕ) where
  honest-Fresh :
      (s : Server) (c : Client)
      → Stored root p b ts s
      → net.up ≡ true
      → net.kernel ≡ none
      → env.refusal ≡ none
      → length b < net.budget
      → Dirty.get sha p c.dirty ≡ false
      → equal (Modified.get sha p c.modified) local_creat_file ≡ false
      → IsHonest sha root p s c
      → Fresh sha root net env p b ts fh s c
  honest-Fresh s c file up answers works room clean shared h =
      elim (Bool-cases (Modified.count sha p c.modified)) [
        | inr unknown ↦
            open_old sha root net p b ts s file up answers env fh c works (inl unknown) room
        | inl known ↦ elim (Bool-cases (equal ts (Modified.get sha p c.modified))) [
          | inr old ↦
              open_old sha root net p b ts s file up answers env fh c works (inr (shared, old)) room
          | inl hit ↦
              let stamp : Modified.get sha p c.modified ≡ ts =
                ground (arith, equal_iff ts (Modified.get sha p c.modified), hit) in
              let copy : Clean sha p b ts c = record {
                content = h.content ts file.mtime known stamp clean ∙ file.content;
                stamp = stamp;
                known = known;
                clean = clean;
              } in
              (open_hits sha root net p b ts s file up answers env fh c works copy
                (ap (λ t. equal t local_creat_file) (sym stamp) ∙ shared)).0
        ]
      ]

  -- Close to open for any number of clients. Behind any run, from a coherent state, of opens,
  -- writes, closes, creations and removals of a file by the clients, of restarts of theirs, and of
  -- crashes in a close or a write, an `afs_open` of the file returns 0, and its descriptor reads
  -- the content that the server then has; the client has it with the server's timestamp and
  -- nothing to upload. The server has the file with the content `b` and answers the open, the
  -- local system opens the cache file, the stream takes more writes than `b` has bytes, and the
  -- client has nothing to upload and no locally created copy. In the run, an open has its cache
  -- file opened by the local system, and the server's time for the file is then not the mark of a
  -- locally created one; a close returns only if its stream takes the whole file or the call is
  -- cancelled; a `Write` has a time that neither the server nor a client has for the file; and a
  -- client that crashes does so under the conditions of `crash-Restored` or `crash-Marked`. The
  -- server's `rename` may fail but in a close that crashes.
  pub open-Reach :
      (y z : World) (n : ℕ)
      → IsCoherent sha root p y
      → Reach sha root p y z
      → Stored root p b ts z.server
      → net.up ≡ true
      → net.kernel ≡ none
      → env.refusal ≡ none
      → length b < net.budget
      → Dirty.get sha p (z.clients n).dirty ≡ false
      → equal (Modified.get sha p (z.clients n).modified) local_creat_file ≡ false
      → Fresh sha root net env p b ts fh z.server (z.clients n)
  open-Reach y z n h run file up answers works room clean shared =
      honest-Fresh z.server (z.clients n) file up answers works room clean shared
        ((Reach-IsCoherent sha root p run h).honest n)
