-- ===== src/System/Making.antt =====
-- `afs_mknod` on a server that answers, and what other users see of the new file.
use distributed_systems_afsv.Base.{
  ℕ, ◌<◌, ◌≡◌, refl, sym, ap, ◌∙◌, pos, true, false, none, some, [], ◌∷◌, arith, Bytes, length,
  Option-cases, inl, inr,
}
use mathlib.Core.Option.{some-injective, none-ne-some}
use mathlib.Core.Path.{subst}
use distributed_systems_afsv.Client.{Client, OpEnv, cached, set_modified}
use distributed_systems_afsv.Client.Access.{afs_getattr}
use distributed_systems_afsv.Client.Mutate.{afs_mknod, is_zero, send_empty, made}
use distributed_systems_afsv.Client.Release.{returned}
use distributed_systems_afsv.Client.Stub.{Stub}
use distributed_systems_afsv.Hash.{Sha256}
use distributed_systems_afsv.Modified
use distributed_systems_afsv.Posix.{find, read_file, create, eexist}
use distributed_systems_afsv.Posix.Laws.{
  create-find, create-inode, read_file_found, read_file_missing, mtime_of_found,
}
use distributed_systems_afsv.Proto.{FilepathContent, StatContent, ok, no_meta}
use distributed_systems_afsv.Server.{Server, fs_path, stat}
use distributed_systems_afsv.Server.Write.{after_write, after_write-Stored, write-done}
use distributed_systems_afsv.Server.Temporary.{Stored, payload}
use distributed_systems_afsv.Stream.{concat}
use distributed_systems_afsv.System.{Network, afs_stub}
use distributed_systems_afsv.System.Close.{IsLive}
use distributed_systems_afsv.System.Opening.{Fresh}
use distributed_systems_afsv.System.Reopen.{IsOld, open_old}
use distributed_systems_afsv.System.Tables.{modified_get-set, modified_count-set}

module _ (sha : Sha256) (root p : Bytes) (net : Network) (s : Server) (env : OpEnv) where
  -- The client with the new file in its cache.
  abbrev pub created : Client → Client
  created c = record c { fs = (create (cached sha c p) env.now c.fs).1 }

  pub afs_mknod_sends :
      (c : Client)
      → is_zero ((afs_stub sha root net).stat p s).return_code ≡ false
      → env.refusal ≡ none
      → find (cached sha c p) c.fs ≡ none
      → afs_mknod sha (afs_stub sha root net) env p s c
        ≡ send_empty sha (afs_stub sha root net) env p s (created c)
  unfolding afs_mknod cached
  afs_mknod_sends c new works missing = rw (afs_mknod, new, works, missing) refl

  pub stub_write_one :
      (m : FilepathContent)
      → m.filepath ≡ p
      → IsLive net
      → s.locked ≡ false
      → (afs_stub sha root net).write (m ∷ []) s
        ≡ some (
          ok,
          record no_meta { timestamp = net.write_env.now },
          after_write sha root net.write_env p (m ∷ []) s,
        )
  stub_write_one m named live free =
      let done =
        write-done sha root net.write_env p m [] s free (named, tt) live.opens live.live
          live.renames in
      rw (live.up, done) refl

  pub create-empty :
      (c : Client) → read_file (cached sha c p) (create (cached sha c p) env.now c.fs).1 ≡ some []
  create-empty c =
      let name = cached sha c p in
      let made = create name env.now c.fs in
      read_file_found name made.0 made.1 (create-find name env.now c.fs)
      ∙ ap some (create-inode name env.now c.fs).0

  abbrev empty : FilepathContent
  empty = record { filepath = p; b = [] }

  abbrev pub after_mknod : Server
  after_mknod = after_write sha root net.write_env p (empty ∷ []) s

  send_empty_ok :
      (d : Client)
      → IsLive net
      → s.locked ≡ false
      → send_empty sha (afs_stub sha root net) env p s d
        ≡ returned (pos 0) after_mknod (set_modified sha env p net.write_env.now d)
  unfolding send_empty made
  send_empty_ok d live free = rw (send_empty, stub_write_one empty refl live free) refl

  pub after_mknod-Stored : Stored root p [] net.write_env.now after_mknod
  after_mknod-Stored =
      let nothing : payload (empty ∷ []) ≡ [] = unfold concat in refl in
      subst (λ b. Stored root p b net.write_env.now after_mknod) nothing
        (after_write-Stored sha root net.write_env p (empty ∷ []) s)

  stat_new :
      net.up ≡ true
      → net.kernel ≡ none
      → find (fs_path root p) s.fs ≡ none
      → is_zero ((afs_stub sha root net).stat p s).return_code ≡ false
  unfolding stat
  stat_new up answers missing = rw (up, answers, stat, missing) refl

  pub afs_mknod_new :
      (c : Client)
      → IsLive net
      → s.locked ≡ false
      → net.kernel ≡ none
      → find (fs_path root p) s.fs ≡ none
      → env.refusal ≡ none
      → find (cached sha c p) c.fs ≡ none
      → afs_mknod sha (afs_stub sha root net) env p s c
        ≡ returned (pos 0) after_mknod (set_modified sha env p net.write_env.now (created c))
  afs_mknod_new c live free answers missing works absent =
      afs_mknod_sends c (stat_new live.up answers missing) works absent
      ∙ send_empty_ok (created c) live free

pub afs_getattr-found :
    {R : Type 0} (stub : Stub R) (path : Bytes) (r : R)
    → (stub.stat path r).return_code ≡ pos 0
    → afs_getattr stub path r ≡ (pos 0, some (stub.stat path r))
unfolding afs_getattr
afs_getattr-found stub path r h = ground (arith, h)

module _ (root p : Bytes) (i : ℕ) (s : Server) (found : find (fs_path root p) s.fs ≡ some i) where
  stat-found :
      ((stat root none p s).return_code ≡ pos 0)
      × ((stat root none p s).st_size ≡ length (s.fs.inodes i).content)
      × ((stat root none p s).st_mtim ≡ (s.fs.inodes i).mtime)
  unfolding stat
  stat-found = (rw (stat, found) refl, rw (stat, found) refl, rw (stat, found) refl)

-- What `afs_getattr` gives: the code 0, with this size and this time.
pub record Looks (sha : Sha256) (root : Bytes) (net : Network) (p : Bytes) (size : ℕ) (ts : Bytes)
    (s : Server) : Type 0 where
  pub response : StatContent
  pub result : afs_getattr (afs_stub sha root net) p s ≡ (pos 0, some response)
  pub st_size : response.st_size ≡ size
  pub st_mtim : response.st_mtim ≡ ts

-- A user who looks at a file sees the size and the time that the server has for it.
pub Stored-Looks :
    (sha : Sha256) (root : Bytes) (net : Network) (p b ts : Bytes) (s : Server)
    → Stored root p b ts s
    → net.up ≡ true
    → net.kernel ≡ none
    → Looks sha root net p (length b) ts s
Stored-Looks sha root net p b ts s h up answers = elim (Option-cases (find (fs_path root p) s.fs)) [
  | inl missing ↦ absurd (none-ne-some b (sym (read_file_missing _ s.fs missing) ∙ h.content))
  | inr (i, found) ↦
      let content : (s.fs.inodes i).content ≡ b =
        some-injective _ b (sym (read_file_found _ i s.fs found) ∙ h.content) in
      let mtime : (s.fs.inodes i).mtime ≡ ts =
        some-injective _ ts (sym (mtime_of_found _ i s.fs found) ∙ h.mtime) in
      let (code, size, time) = stat-found root p i s found in
      let stub = afs_stub sha root net in
      let same : stub.stat p s ≡ stat root none p s = rw (up, answers) refl in
      record {
        response = stub.stat p s;
        result = afs_getattr-found stub p s (ap (λ r. r.return_code) same ∙ code);
        st_size = ap (λ r. r.st_size) same ∙ size ∙ ap length content;
        st_mtim = ap (λ r. r.st_mtim) same ∙ time ∙ mtime;
      }
]

afs_mknod_there :
    (sha : Sha256) {R : Type 0} (stub : Stub R) (env : OpEnv) (path : Bytes) (r : R) (c : Client)
    → is_zero (stub.stat path r).return_code ≡ true
    → afs_mknod sha stub env path r c ≡ returned (pos eexist) r c
unfolding afs_mknod
afs_mknod_there sha stub env path r c there = rw (afs_mknod, there) refl

module _ (sha : Sha256) (root : Bytes) (net net' : Network) (path : Bytes) where
  Stored-stat_zero :
      (b ts : Bytes) (s : Server)
      → Stored root path b ts s
      → net'.up ≡ true
      → net'.kernel ≡ none
      → is_zero ((afs_stub sha root net').stat path s).return_code ≡ true
  unfolding stat
  Stored-stat_zero b ts s h up answers = elim (Option-cases (find (fs_path root path) s.fs)) [
    | inl missing ↦ absurd (none-ne-some b (sym (read_file_missing _ s.fs missing) ∙ h.content))
    | inr (i, found) ↦ rw (up, answers, stat, found) refl
  ]

  -- What the two users see: the first made the file, the second looks at it, opens it, and cannot
  -- make it again.
  pub record Made (env env' : OpEnv) (fh : ℕ) (s : Server) (a c : Client) : Type 0 where
    pub server : Server
    pub client : Client
    pub result : afs_mknod sha (afs_stub sha root net) env path s a ≡ returned (pos 0) server client
    pub stored : Stored root path [] net.write_env.now server
    pub content : read_file (cached sha client path) client.fs ≡ some []
    pub stamp : Modified.get sha path client.modified ≡ net.write_env.now
    pub known : Modified.count sha path client.modified ≡ true
    pub looks : Looks sha root net' path 0 net.write_env.now server
    pub opened : Fresh sha root net' env' path [] net.write_env.now fh server c
    pub again :
        afs_mknod sha (afs_stub sha root net') env' path server c ≡ returned (pos eexist) server c

  -- A user makes a file and another opens it. When the server has no such name and answers, its
  -- mutex is free, its temporary file opens and its `rename` succeeds, the `Write` is not
  -- cancelled, and the cache of client `a` has no such file, `afs_mknod` returns 0: the server has
  -- the file, empty, with the time of the `Write`, and so has the cache of `a`, with that time.
  -- Then, where the server answers, `afs_getattr` returns 0 with the size 0 and that time; an
  -- `afs_open` of client `c` returns 0, with a descriptor that is open on an empty file; and an
  -- `afs_mknod` of `c` instead returns `EEXIST` and changes nothing. No local system refuses a
  -- call, the stream of the open takes a write, and the copy of `c` is old: there is none, or it
  -- is not locally created and has another timestamp than the time of the `Write`.
  pub mknod_to_open :
      (env env' : OpEnv) (fh : ℕ) (s : Server) (a c : Client)
      → IsLive net
      → s.locked ≡ false
      → net.kernel ≡ none
      → find (fs_path root path) s.fs ≡ none
      → env.refusal ≡ none
      → find (cached sha a path) a.fs ≡ none
      → net'.up ≡ true
      → net'.kernel ≡ none
      → env'.refusal ≡ none
      → 0 < net'.budget
      → IsOld sha path net.write_env.now c
      → Made env env' fh s a c
  unfolding cached
  mknod_to_open env env' fh s a c live free answers missing works absent up answers' works' room
        old =
      let t = after_mknod sha root path net s env in
      let file = after_mknod-Stored sha root path net s env in
      let ts = net.write_env.now in
      record {
        server = t;
        client = set_modified sha env path ts (created sha root path net s env a);
        result = afs_mknod_new sha root path net s env a live free answers missing works absent;
        stored = file;
        content = create-empty sha root path net s env a;
        stamp = modified_get-set sha env.modified_env path ts a.modified;
        known = modified_count-set sha env.modified_env path ts a.modified;
        looks = Stored-Looks sha root net' path [] ts t file up answers';
        opened = open_old sha root net' path [] ts t file up answers' env' fh c works' old room;
        again =
            afs_mknod_there sha (afs_stub sha root net') env' path t c
              (Stored-stat_zero [] ts t file up answers');
      }
