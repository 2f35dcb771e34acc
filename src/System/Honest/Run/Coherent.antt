-- ===== src/System/Honest/Run/Coherent.antt =====
-- Every step keeps the promise of the cached copies.
use distributed_systems_afsv.Base.{inl, inr, ◌++◌, ℕ, ℤ, ◌≡◌, sym, ap, ◌∙◌, Bytes}
use mathlib.Core.Option.{some-injective}
use mathlib.Core.Path.{subst}
use distributed_systems_afsv.Client.{Client, OpEnv, cached}
use distributed_systems_afsv.Client.Crash.{Survivors}
use distributed_systems_afsv.Client.Mutate.{afs_unlink}
use distributed_systems_afsv.Hash.{hash_path, Sha256}
use distributed_systems_afsv.Journal.{Env}
use distributed_systems_afsv.Posix.{read_file}
use distributed_systems_afsv.Server.{Server}
use distributed_systems_afsv.Start.Mounted.{Agrees, start_data-Remade}
use distributed_systems_afsv.System.{Network, afs_stub}
use distributed_systems_afsv.System.Crash.{Restored, uploads, keeps, crashed_at}
use distributed_systems_afsv.System.Crash.Writing.{Marked, written_at, crash-Marked}
use distributed_systems_afsv.System.Crash.Closing.{crash-Restored}
use distributed_systems_afsv.System.Honest.{
  IsHonest, renewed-IsHonest, IsHonest-server, same-IsHonest, dirty-IsHonest,
}
use distributed_systems_afsv.System.Honest.Open.{afs_open-IsHonest, afs_write-IsHonest}
use distributed_systems_afsv.System.Honest.Unlink.{afs_unlink-IsHonest, afs_unlink-others}
use distributed_systems_afsv.System.Honest.Upload.{
  After, Sent, kept, stored, afs_release-Sent, afs_mknod-Sent,
}
use distributed_systems_afsv.System.Honest.Run.{
  World, put, put_all, IsNew, Step, opens, writes, closes, makes, unlinks, restarts, crashes,
  crashes_writing, Reach, here, next, IsCoherent,
}

module _ (sha : Sha256) (root p : Bytes) where
  -- A client that changed alone.
  alone-IsCoherent :
      (n : ℕ) (c : Client) (y : World)
      → IsCoherent sha root p y
      → IsHonest sha root p y.server c
      → IsCoherent sha root p (put n c y.server y)
  alone-IsCoherent n c y h one = record {
    well = h.well;
    honest = put_all (IsHonest sha root p y.server) n c y.server y one h.honest;
  }

  Sent-IsCoherent :
      (net : Network) (n : ℕ) (s : Server) (c : Client) (y : World)
      → IsCoherent sha root p y
      → IsNew sha root p net y
      → Sent sha root p net y.server s c
      → IsCoherent sha root p (put n c s y)
  Sent-IsCoherent net n s c y h new (kept same well one) = record {
    well = well;
    honest =
        put_all (IsHonest sha root p s) n c s y one
          (λ k. IsHonest-server sha root p y.server s (y.clients k) same (h.honest k));
  }
  Sent-IsCoherent net n s c y h new (stored time well one) = record {
    well = well;
    honest =
        put_all (IsHonest sha root p s) n c s y one
          (λ k. renewed-IsHonest sha root p net.write_env.now s (y.clients k) time (new.clients k));
  }

  Agrees-IsHonest :
      (s : Server) (c d : Client)
      → Agrees sha c d
      → IsHonest sha root p s c
      → IsHonest sha root p s d
  Agrees-IsHonest s c d a h = record {
    content = λ ts time known stamp clean.
        ap (λ fs. read_file (cached sha d p) fs) a.fs
        ∙ ap (λ name. read_file name c.fs) (a.cached p)
        ∙ h.content ts time (sym (a.known p) ∙ known) (sym (a.modified p) ∙ stamp)
            (sym (a.dirty p) ∙ clean);
  }

  afs_unlink-IsCoherent :
      (net : Network) (env : OpEnv) (n : ℕ) (y : World)
      → IsCoherent sha root p y
      → let (code, s, c) = afs_unlink sha (afs_stub sha root net) env p y.server (y.clients n) in
        IsCoherent sha root p (put n c s y)
  afs_unlink-IsCoherent net env n y h =
      let (code, s, c) = afs_unlink sha (afs_stub sha root net) env p y.server (y.clients n) in
      let others = afs_unlink-others sha root p net env y.server (y.clients n) in
      record {
        well = (others (y.clients n) h.well (h.honest n)).0;
        honest =
            put_all (IsHonest sha root p s) n c s y
              (afs_unlink-IsHonest sha root p net env y.server (y.clients n))
              (λ k. (others (y.clients k) h.well (h.honest k)).1);
      }

  Restored-Sent :
      (net : Network) (env : OpEnv) (b dir : Bytes) (menv : Env) (mcounter : ℤ) (denv : Env)
      (dcounter : ℤ) (s : Server) (c : Client) (x : Survivors Server)
      → (r : Restored sha root net env p b dir menv mcounter denv dcounter s c x)
      → Sent sha root p net s x.server r.client
  Restored-Sent net env b dir menv mcounter denv dcounter s c x r = elim r.safe [
    | uploads file ↦
        stored file.mtime r.well
          (same-IsHonest sha root p x.server r.client (r.content ∙ sym file.content))
    | keeps files dirty stamp known ↦
        kept (files p) r.well (dirty-IsHonest sha root p x.server r.client dirty)
  ]

  Marked-IsHonest :
      (env : OpEnv) (buf dir : Bytes) (offset fh : ℕ) (menv : Env) (mcounter : ℤ) (denv : Env)
      (dcounter : ℤ) (s : Server) (c : Client) (x : Survivors Server)
      → (m : Marked sha env p buf dir offset fh menv mcounter denv dcounter s c x)
      → IsHonest sha root p s c
      → IsHonest sha root p s m.client
  unfolding cached
  Marked-IsHonest env buf dir offset fh menv mcounter denv dcounter s c x m h = elim m.marked [
    | inr dirty ↦ dirty-IsHonest sha root p s m.client dirty
    | inl (same, still) ↦ record {
      content = λ ts time known stamp clean.
          ap (λ r. read_file (r ++ hash_path sha p) m.client.fs) m.root
          ∙ ap (read_file (cached sha c p)) (m.cache ∙ same)
          ∙ h.content ts time (sym m.known ∙ known) (sym m.stamp ∙ stamp) (sym still ∙ clean);
    }
  ]

  Step-IsCoherent :
      {y z : World} → Step sha root p y z → IsCoherent sha root p y → IsCoherent sha root p z
  Step-IsCoherent {y} (opens net env fh n works unmarked) h =
      alone-IsCoherent n _ y h
        (afs_open-IsHonest sha root p net env fh y.server works unmarked (y.clients n) (h.honest n))
  Step-IsCoherent {y} (writes env buf offset fh n) h =
      alone-IsCoherent n _ y h
        (afs_write-IsHonest sha root p env buf offset fh y.server (y.clients n))
  Step-IsCoherent {y} (closes net env fh n code s c done whole new) h =
      Sent-IsCoherent net n s c y h new (
        subst (After (Sent sha root p net y.server)) done (
          afs_release-Sent sha root p net y.server env h.well new.server fh (y.clients n) whole
            (h.honest n)))
  Step-IsCoherent {y} (makes net env n code s c done new) h = Sent-IsCoherent net n s c y h new (
      subst (After (Sent sha root p net y.server)) done
        (afs_mknod-Sent sha root p net y.server env h.well new.server (y.clients n) (h.honest n)))
  Step-IsCoherent {y} (unlinks net env n code s c done) h =
      subst (λ (r : ℤ × Server × Client). IsCoherent sha root p (put n r.2 r.1 y)) done
        (afs_unlink-IsCoherent net env n y h)
  Step-IsCoherent {y} (restarts menv denv mcounter dcounter dir n c durable mopens dopens same done)
        h =
      let made =
        start_data-Remade sha (y.clients n) menv mcounter denv dcounter dir durable mopens dopens
          same in
      let which : made.client ≡ c = some-injective made.client c (sym made.result ∙ done) in
      alone-IsCoherent n c y h (
        Agrees-IsHonest y.server (y.clients n) c
          (subst (Agrees sha (y.clients n)) which made.agrees) (h.honest n))
  Step-IsCoherent {y}
        (crashes net env b dir menv denv mcounter dcounter cut n c durable same hs moves mrenames
          drenames works dopens dirty has room new started)
        h =
      let x = crashed_at sha root net env p cut y.server (y.clients n) in
      let r =
        crash-Restored sha root net env p b dir menv mcounter denv dcounter y.server (y.clients n)
          durable same h.well hs moves mrenames drenames works dopens dirty has room cut in
      let which : r.client ≡ c = some-injective r.client c (sym r.result ∙ started) in
      Sent-IsCoherent net n x.server c y h new (
        subst (Sent sha root p net y.server x.server) which
          (Restored-Sent net env b dir menv mcounter denv dcounter y.server (y.clients n) x r))
  Step-IsCoherent {y}
        (crashes_writing env buf dir menv denv mcounter dcounter offset fh cut n c durable same
          renames works dopens started)
        h =
      let m =
        (crash-Marked sha env p buf dir offset fh menv mcounter denv dcounter y.server (y.clients n)
          durable same renames works dopens cut).0 in
      let which : m.client ≡ c = some-injective m.client c (sym m.result ∙ started) in
      alone-IsCoherent n c y h (
        subst (IsHonest sha root p y.server) which (
          Marked-IsHonest env buf dir offset fh menv mcounter denv dcounter y.server (y.clients n)
            (written_at sha env p buf offset fh cut y.server (y.clients n)) m (h.honest n)))

  -- A state is coherent if the server's file system is well-formed and each client that knows a
  -- file, has nothing to upload for it, and has the timestamp that the server has, has the
  -- server's content in its cache. Every run of opens, writes, closes, creations and removals of
  -- the file by the clients, in any order and whatever the network answers, of restarts on files
  -- that agree with the tables, and of crashes at any point of a close or an `afs_write`, each
  -- with a start on what is left, keeps it so, if an open has its cache file opened by the local
  -- system, and the server's time for the file is then not the mark of a locally created one; a
  -- close returns only where its stream takes the whole file or the call is cancelled; the time of
  -- a `Write` is one that neither the server nor a client has for the file; and a client that
  -- crashes does so under the conditions of `crash-Restored` or `crash-Marked`. The server's
  -- `rename` may fail but in a close that crashes.
  pub Reach-IsCoherent :
      {y z : World} → Reach sha root p y z → IsCoherent sha root p y → IsCoherent sha root p z
  Reach-IsCoherent here h = h
  Reach-IsCoherent (next r step) h = Step-IsCoherent step (Reach-IsCoherent r h)
