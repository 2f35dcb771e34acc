-- ===== src/System/Crash/Closing.antt =====
-- The writes of a close, one after the other.
use distributed_systems_afsv.Base.{
  ℕ, ℤ, ◌<◌, ◌≡◌, refl, sym, ◌∙◌, true, false, none, some, inr, ◌∷◌, map, Bytes, length,
}
use mathlib.Core.Path.{subst}
use distributed_systems_afsv.Client.{Client, OpEnv, cached}
use distributed_systems_afsv.Client.Crash.{
  Survivors, survivors, Throughout, Throughout-take, Throughout-append, Throughout-dirties,
  Throughout-modifies, land_all-dirties, dirties, modifies, release_writes, upload_writes,
  uploaded_writes,
}
use distributed_systems_afsv.Client.Release.{messages}
use distributed_systems_afsv.Client.Stub.{Stub}
use distributed_systems_afsv.Dirty
use distributed_systems_afsv.Dirty.Restart.{start-Restarts}
use distributed_systems_afsv.Dirty.Crash
use distributed_systems_afsv.Hash.{Sha256, hash_path}
use distributed_systems_afsv.Journal
use distributed_systems_afsv.Journal.{Disk, Env}
use distributed_systems_afsv.Journal.Always.{Always, Always-here, Always-run}
use distributed_systems_afsv.Modified
use distributed_systems_afsv.Modified.Crash.{old, Holds-load}
use distributed_systems_afsv.Modified.Crash.Calls.{crash-Recovers}
use distributed_systems_afsv.Modified.Marker.{boot_loaded}
use distributed_systems_afsv.Modified.Replay.{IsTimespec}
use distributed_systems_afsv.Posix.{read_file}
use distributed_systems_afsv.Posix.Laws.{IsFs}
use distributed_systems_afsv.Posix.Same.{Same, Same-refl}
use distributed_systems_afsv.Proto.{ok, no_meta}
use distributed_systems_afsv.Server.{Server, fs_path}
use distributed_systems_afsv.Server.Temporary.{Stored}
use distributed_systems_afsv.Server.Write.{after_write, after_write-Stored, after_write-IsFs}
use distributed_systems_afsv.Start.{with_slash}
use distributed_systems_afsv.Start.Mounted.{IsDurable, dirty_get-same}
use distributed_systems_afsv.Stream.{send_file, bufsize}
use distributed_systems_afsv.System.{Network, afs_stub}
use distributed_systems_afsv.System.Close.{stub_write}
use distributed_systems_afsv.System.Transfer.{send_file-Blocks, payload-messages}
use distributed_systems_afsv.System.Uploads.{waits, fails, goes, loses, stub_write-Uploaded}
use distributed_systems_afsv.System.Crash.{
  Restored, Recovered, Boots, restored, stored_on, crashed_at,
}

module _ (sha : Sha256) (root : Bytes) (net : Network) (env : OpEnv) (path b dir : Bytes)
    (menv : Env) (mcounter : ℤ) (denv : Env) (dcounter : ℤ) (s : Server) (c : Client) where
  abbrev Outlives : Survivors Server → Type 0
  Outlives = Restored sha root net env path b dir menv mcounter denv dcounter s c

  abbrev Stamps : Disk → Type 0
  Stamps = Recovered sha root net env path b dir menv mcounter denv dcounter s c

  abbrev Flags : Disk → Type 0
  Flags = Boots sha root net env path b dir menv mcounter denv dcounter s c

  module _ (same : c.cache_root ≡ with_slash dir)
      (has : read_file (cached sha c path) c.fs ≡ some b) where
    -- What the tables need for every crash to leave files that load.
    module _ (durable : IsDurable c) (mrenames : env.modified_env.renames ≡ true)
        (drenames : env.dirty_env.renames ≡ true) (dopens : denv.log_opens ≡ true)
        (hs : IsTimespec net.write_env.now) (moves : net.write_env.renames ≡ true)
        (dirty : Dirty.get sha path c.dirty ≡ true) where
      stamping :
          Always Stamps
            (Modified.set sha env.modified_env path net.write_env.now c.modified).1
            c.modified_disk
      stamping =
          (crash-Recovers sha env.modified_env menv mcounter path net.write_env.now c.modified
            c.modified_disk durable.modified hs mrenames).0

      recovered : Stamps c.modified_disk
      recovered = Always-here Stamps _ c.modified_disk stamping

      cleaning : Always Flags (Dirty.set sha env.dirty_env path false c.dirty).1 c.dirty_disk
      cleaning =
          Dirty.Crash.set-crash sha env.dirty_env denv dcounter path false c.dirty c.dirty_disk
            durable.dirty drenames dopens

      unchanged :
          (server : Server)
          → ((q : Bytes) → Same (fs_path root q) s.fs server.fs)
          → IsFs server.fs
          → Outlives (survivors server c)
      unchanged server files well =
          let again =
            start-Restarts c.dirty.table denv dcounter c.dirty_disk dopens durable.dirty.holds in
          let (found, loaded, entries) =
            Holds-load c.modified.table c.modified_disk durable.modified.holds in
          let (disk, started) = boot_loaded menv mcounter c.modified_disk found loaded in
          let m : Stamps c.modified_disk = record {
            found = found;
            disk = disk;
            started = started;
            shows = old entries;
          } in
          restored sha root net env path b dir menv mcounter denv dcounter s c same has
            c.modified_disk c.dirty_disk server c.dirty.table m again (λ j apart. refl)
            (inr (
              files,
              dirty_get-same sha path again.memory c.dirty (again.same (hash_path sha path))
                  ∙ dirty,
              entries (hash_path sha path),
            ))
            well

      before : IsFs s.fs → Outlives (survivors s c)
      before well = unchanged s (λ q. Same-refl (fs_path root q) s.fs) well

      uploaded-Throughout :
          (server : Server) (stub : Stub Server)
          → Stored root path b net.write_env.now server
          → IsFs server.fs
          → Throughout Outlives
              (uploaded_writes sha stub env path ok
                (record no_meta { timestamp = net.write_env.now })
                c)
              (survivors server c)
      unfolding uploaded_writes
      uploaded-Throughout server stub stored well =
          let ds = (Dirty.set sha env.dirty_env path false c.dirty).1 in
          let ms = (Modified.set sha env.modified_env path net.write_env.now c.modified).1 in
          let x = survivors server c in
          let y = record x { dirty_disk = Journal.run ds c.dirty_disk } in
          Throughout-append Outlives (map dirties ds) (map modifies ms) x
            (Throughout-dirties Flags Outlives ds x
              (λ e q.
                stored_on sha root net env path b dir menv mcounter denv dcounter s c same has
                  c.modified_disk e server recovered q stored well)
              cleaning)
            (subst (λ z. Throughout Outlives (map modifies ms) z) (sym (land_all-dirties ds x))
              (Throughout-modifies Stamps Outlives ms y
                (λ d q.
                  stored_on sha root net env path b dir menv mcounter denv dcounter s c same has d
                    y.dirty_disk server q (Always-run Flags ds c.dirty_disk cleaning) stored well)
                stamping))

      upload-Throughout :
          IsFs s.fs
          → length b < env.budget
          → Throughout Outlives
              (upload_writes sha (afs_stub sha root net) env path (some b) s c)
              (survivors s c)
      unfolding upload_writes uploaded_writes
      upload-Throughout fine room =
          let sent = messages path (send_file bufsize env.budget b).0 in
          elim (stub_write-Uploaded sha root net sent s fine) [
            | waits never ↦ rw (upload_writes, never) (before fine)
            | fails status meta s' answer bad files w ↦
                rw (upload_writes, answer, uploaded_writes, bad) (before fine, unchanged s' files w)
            | loses s' answer stays files w ↦ cc (moves, stays)
            | goes live free ↦
                let (all, blocks) = send_file-Blocks env.budget b room in
                let whole = messages path (blocks.first ∷ blocks.more) in
                let s' = after_write sha root net.write_env path whole s in
                rw (upload_writes, stub_write sha root net env path b s blocks live free)
                  (
                    before fine,
                    uploaded-Throughout s' (afs_stub sha root net)
                        (subst (λ y. Stored root path y net.write_env.now s')
                          (payload-messages path (blocks.first ∷ blocks.more) ∙ blocks.whole)
                          (after_write-Stored sha root net.write_env path whole s))
                        (after_write-IsFs sha root net.write_env path whole s fine),
                  )
          ]

release_writes_dirty :
    (sha : Sha256) (env : OpEnv) (path b : Bytes) {R : Type 0} (stub : Stub R) (r : R) (c : Client)
    → env.refusal ≡ none
    → Dirty.get sha path c.dirty ≡ true
    → read_file (cached sha c path) c.fs ≡ some b
    → release_writes sha stub env path r c ≡ upload_writes sha stub env path (some b) r c
unfolding release_writes cached
release_writes_dirty sha env path b stub r c opens dirty has =
    rw (release_writes, dirty, opens, has) refl

-- A crash in the close of a changed file. If the client that closes a dirty file with the content
-- `b` in its cache stops before, between or after the writes of `afs_release`, the upload counted
-- as one write and whatever it comes to, then the process that starts on what is left comes up,
-- with `b` in its cache, and with every file of another hashed name dirty or not as before. Either
-- the server has `b` with the time of the `Write`; or every file of the server is as it was, and
-- the client has the file still to upload, with the entry in `last_modified_t` that it had. The
-- server's file system stays well-formed. The client's tables agree with their files before the
-- call; the server's file system is well-formed, and the time of the `Write` has sixteen bytes and
-- is not the mark of an erased entry; `rename` succeeds at the server and in both tables; the
-- cache file opens, and the stream takes more writes than `b` has bytes; the next process can open
-- the log of `is_dirty_t`, and has the same cache directory, up to a slash at its end.
pub crash-Restored :
    (sha : Sha256) (root : Bytes) (net : Network) (env : OpEnv) (path b dir : Bytes) (menv : Env)
    (mcounter : ℤ) (denv : Env) (dcounter : ℤ) (s : Server) (c : Client)
    → IsDurable c
    → c.cache_root ≡ with_slash dir
    → IsFs s.fs
    → IsTimespec net.write_env.now
    → net.write_env.renames ≡ true
    → env.modified_env.renames ≡ true
    → env.dirty_env.renames ≡ true
    → env.refusal ≡ none
    → denv.log_opens ≡ true
    → Dirty.get sha path c.dirty ≡ true
    → read_file (cached sha c path) c.fs ≡ some b
    → length b < env.budget
    → (n : ℕ)
    → Restored sha root net env path b dir menv mcounter denv dcounter s c
        (crashed_at sha root net env path n s c)
crash-Restored sha root net env path b dir menv mcounter denv dcounter s c durable same fine hs
      moves mrenames drenames opens dopens dirty has room n =
    let stub = afs_stub sha root net in
    let P = Restored sha root net env path b dir menv mcounter denv dcounter s c in
    Throughout-take P n (release_writes sha stub env path s c) (survivors s c) (
      subst (λ ws. Throughout P ws (survivors s c))
        (sym (release_writes_dirty sha env path b stub s c opens dirty has))
        (upload-Throughout sha root net env path b dir menv mcounter denv dcounter s c same has
          durable mrenames drenames dopens hs moves dirty fine room))
