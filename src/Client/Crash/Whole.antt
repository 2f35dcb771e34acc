-- ===== src/Client/Crash/Whole.antt =====
-- Without a crash, the writes come to the handlers.
use distributed_systems_afsv.Base.{
  ℕ, ℤ, ◌≡◌, refl, ap, ◌∙◌, Option, none, some, List, ◌++◌, map, Bytes, Bool-cases, Option-cases,
  inl, inr,
}
use mathlib.Core.Path.{subst}
use distributed_systems_afsv.Client.{Client, OpEnv, is_ok, cached}
use distributed_systems_afsv.Client.Crash.{
  Survivors, survivors, dirties, modifies, land_all, land_all-append, land_all-dirties,
  land_all-modifies, release_writes, upload_writes, uploaded_writes,
}
use distributed_systems_afsv.Client.Release.{
  Outcome, returned, exited, stuck, afs_release, upload, uploaded, messages, opened_cache, close_fd,
}
use distributed_systems_afsv.Client.Stub.{Stub}
use distributed_systems_afsv.Dirty
use distributed_systems_afsv.Hash.{Sha256}
use distributed_systems_afsv.Journal
use distributed_systems_afsv.Journal.{Effect}
use distributed_systems_afsv.Proto.{Status, Meta}
use distributed_systems_afsv.Stream.{send_file, bufsize}

-- The writes end where the handler does, if it returns.
abbrev Ends : {R : Type 0} → Survivors R → Outcome R → Type 0
Ends x (returned code r c) = x ≡ survivors r c
Ends x exited = Unit
Ends x stuck = Unit

module _ (sha : Sha256) {R : Type 0} (stub : Stub R) (env : OpEnv) (path : Bytes) (r : R)
    (c : Client) where
  land_all-tables :
      (ds ms : List Effect) (x : Survivors R)
      → land_all (map dirties ds ++ map modifies ms) x ≡ record x {
        dirty_disk = Journal.run ds x.dirty_disk;
        modified_disk = Journal.run ms x.modified_disk;
      }
  land_all-tables ds ms x =
      land_all-append (map dirties ds) (map modifies ms) x
      ∙ ap (land_all (map modifies ms)) (land_all-dirties ds x)
      ∙ land_all-modifies ms (record x { dirty_disk = Journal.run ds x.dirty_disk })

  uploaded-Ends :
      (fh : ℕ) (status : Status) (meta : Meta) (r' : R)
      → Ends
          (land_all (uploaded_writes sha stub env path status meta c) (survivors r' c))
          (uploaded sha stub env path status meta r' (close_fd fh c))
  unfolding uploaded uploaded_writes
  uploaded-Ends fh status meta r' = elim (Bool-cases (is_ok status)) [
    | inl good ↦ rw (uploaded, uploaded_writes, good) (land_all-tables _ _ (survivors r' c))
    | inr bad ↦ rw (uploaded, uploaded_writes, bad) refl
  ]

  upload-Ends :
      (fh : ℕ) (opened : Option Bytes)
      → Ends
          (land_all (upload_writes sha stub env path opened r c) (survivors r c))
          (upload sha stub env path opened r (close_fd fh c))
  unfolding upload upload_writes
  upload-Ends fh none = tt
  upload-Ends fh (some content) =
      elim (Option-cases (stub.write (messages path (send_file bufsize env.budget content).0) r)) [
        | inl waits ↦ rw (upload, upload_writes, waits) tt
        | inr ((status, meta, r'), answer) ↦
            rw (upload, upload_writes, answer) (uploaded-Ends fh status meta r')
      ]

  release_writes-Ends :
      (fh : ℕ)
      → Ends
          (land_all (release_writes sha stub env path r c) (survivors r c))
          (afs_release sha stub env path fh r c)
  unfolding release_writes afs_release cached
  release_writes-Ends fh = elim (Bool-cases (Dirty.get sha path c.dirty)) [
    | inr clean ↦ rw (release_writes, afs_release, clean) refl
    | inl dirty ↦
        rw (release_writes, afs_release, dirty) (upload-Ends fh (opened_cache sha stub env path c))
  ]

  -- The list of writes that stands for `afs_release` where it crashes is what the handler does: if
  -- the handler returns, then all the writes, one after the other, leave the server that it
  -- returns and the cache directory and files of the tables of the client that it returns,
  -- whatever the service answers.
  pub release_writes-afs_release :
      (fh : ℕ) (code : ℤ) (r' : R) (c' : Client)
      → afs_release sha stub env path fh r c ≡ returned code r' c'
      → land_all (release_writes sha stub env path r c) (survivors r c) ≡ survivors r' c'
  release_writes-afs_release fh code r' c' h =
      subst (Ends (land_all (release_writes sha stub env path r c) (survivors r c))) h
        (release_writes-Ends fh)
