-- ===== src/System/Close.antt =====
-- What the server has after `afs_release` of a dirty file.
use mathlib.Core.Path.{subst}
use distributed_systems_afsv.Base.{
  ℕ, ◌<◌, ◌≡◌, refl, ◌∙◌, pos, Bool, true, false, none, some, ◌∷◌, if◌then◌else◌, Bytes, length,
}
use distributed_systems_afsv.Client.{Client, OpEnv, cached, set_modified, set_dirty}
use distributed_systems_afsv.Client.Release.{
  returned, messages, afs_release, upload, uploaded, close_fd,
}
use distributed_systems_afsv.Client.Stub.{Stub}
use distributed_systems_afsv.Dirty
use distributed_systems_afsv.Hash.{Sha256}
use distributed_systems_afsv.Modified
use distributed_systems_afsv.Modified.{local_creat_file}
use distributed_systems_afsv.Posix.{read_file}
use distributed_systems_afsv.Proto.{ok, no_meta}
use distributed_systems_afsv.Server.{Server}
use distributed_systems_afsv.Server.Write.{after_write, write-done, after_write-Stored}
use distributed_systems_afsv.Server.Temporary.{Stored}
use distributed_systems_afsv.Stream.{send_file, bufsize}
use distributed_systems_afsv.System.{Network, afs_stub}
use distributed_systems_afsv.System.Tables.{modified_get-set, modified_count-set, dirty_get-set}
use distributed_systems_afsv.System.Transfer.{
  Blocks, send_file-Blocks, payload-messages, messages-AllFor,
}

-- A network on which calls go through: the server answers, its temporary file opens, nobody
-- cancels, and `rename` succeeds.
pub record IsLive (net : Network) : Type 0 where
  pub up : net.up ≡ true
  pub opens : net.write_env.opens ≡ true
  pub live : net.write_env.is_cancelled ≡ false
  pub renames : net.write_env.renames ≡ true

-- The client has the content in its cache file, the timestamp in its table, and nothing to upload.
pub record Clean (sha : Sha256) (path b ts : Bytes) (c : Client) : Type 0 where
  pub content : read_file (cached sha c path) c.fs ≡ some b
  pub stamp : Modified.get sha path c.modified ≡ ts
  pub known : Modified.count sha path c.modified ≡ true
  pub clean : Dirty.get sha path c.dirty ≡ false

pub if_true {ℓ} : {A : Type ℓ} (b : Bool) (x y : A) → b ≡ true → (if b then x else y) ≡ x
if_true true x y h = refl
if_true false x y h = cc

pub Clean-same :
    {sha : Sha256} (path b ts : Bytes) (c c' : Client)
    → c'.fs ≡ c.fs
    → c'.modified ≡ c.modified
    → c'.dirty ≡ c.dirty
    → c'.cache_root ≡ c.cache_root
    → Clean sha path b ts c
    → Clean sha path b ts c'
unfolding cached
Clean-same path b ts c c' fs modified dirty cache_root h = record {
  content = rw (fs, cache_root) h.content;
  stamp = rw modified h.stamp;
  known = rw modified h.known;
  clean = rw dirty h.clean;
}

module _ (sha : Sha256) (root : Bytes) (net : Network) (env : OpEnv) (path b : Bytes) where
  -- The result of a close that uploads.
  pub record Closed (fh : ℕ) (s : Server) (c : Client) : Type 0 where
    pub server : Server
    pub client : Client
    pub result :
        afs_release sha (afs_stub sha root net) env path fh s c ≡ returned (pos 0) server client
    pub stored : Stored root path b net.write_env.now server
    pub kept : Clean sha path b net.write_env.now client

  pub stub_write :
      (s : Server)
      → (blocks : Blocks (send_file bufsize env.budget b).0 b) → IsLive net
      → s.locked ≡ false
      → (afs_stub sha root net).write (messages path (send_file bufsize env.budget b).0) s
        ≡ some (
          ok,
          record no_meta { timestamp = net.write_env.now },
          after_write sha root net.write_env path (messages path (blocks.first ∷ blocks.more)) s,
        )
  stub_write s blocks live free =
      let sent = messages path (blocks.first ∷ blocks.more) in
      let done =
        write-done sha root net.write_env path (record { filepath = path; b = blocks.first })
          (messages path blocks.more) s free (messages-AllFor path (blocks.first ∷ blocks.more))
          live.opens live.live live.renames in
      rw (live.up, blocks.shape, done) refl

  module _ {R : Type 0} (stub : Stub R) where
    pub afs_release_dirty :
        (fh : ℕ) (r : R) (c : Client)
        → env.refusal ≡ none
        → Dirty.get sha path c.dirty ≡ true
        → read_file (cached sha c path) c.fs ≡ some b
        → afs_release sha stub env path fh r c ≡ upload sha stub env path (some b) r (close_fd fh c)
    unfolding afs_release cached
    afs_release_dirty fh r c opens dirty has = rw (afs_release, dirty, opens, has) refl

    pub upload_ok :
        (r : R) (c : Client) {ts : Bytes} {r' : R}
        → stub.write (messages path (send_file bufsize env.budget b).0) r
          ≡ some (ok, record no_meta { timestamp = ts }, r')
        → upload sha stub env path (some b) r c
          ≡ returned (pos 0) r' (set_modified sha env path ts (set_dirty sha env path false c))
    unfolding upload uploaded
    upload_ok r c h = rw (upload, h) refl

  -- Closing a dirty file makes its cached content the server's, takes over the server's time for
  -- it, and leaves it clean. The network is live, nobody holds the mutex, the cache file opens,
  -- and the stream takes a write for each byte and one more.
  pub release_stores :
      (fh : ℕ) (s : Server) (c : Client)
      → IsLive net
      → s.locked ≡ false
      → env.refusal ≡ none
      → Dirty.get sha path c.dirty ≡ true
      → read_file (cached sha c path) c.fs ≡ some b
      → length b < env.budget
      → Closed fh s c
  release_stores fh s c live free opens dirty has room =
      let (all, blocks) = send_file-Blocks env.budget b room in
      let sent = messages path (blocks.first ∷ blocks.more) in
      let s' = after_write sha root net.write_env path sent s in
      let c' = close_fd fh c in
      let stored = after_write-Stored sha root net.write_env path sent s in
      let whole = payload-messages path (blocks.first ∷ blocks.more) ∙ blocks.whole in
      let answer = stub_write s blocks live free in
      record {
        server = s';
        client = set_modified sha env path net.write_env.now (set_dirty sha env path false c');
        result =
            afs_release_dirty (afs_stub sha root net) fh s c opens dirty has
            ∙ upload_ok (afs_stub sha root net) s c' answer;
        stored = subst (λ x. Stored root path x net.write_env.now s') whole stored;
        kept = record {
          content = unfold cached in has;
          stamp = modified_get-set sha env.modified_env path _ _;
          known = modified_count-set sha env.modified_env path _ _;
          clean = dirty_get-set sha env.dirty_env path false _;
        };
      }
