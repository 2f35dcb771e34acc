-- ===== src/System/Crash/Removal.antt =====
-- A crash of the client in `afs_unlink`, which removes the cache file before its entries in the
-- tables.
use distributed_systems_afsv.Base.{
  ℕ, ℤ, pos, ◌≡◌, refl, sym, ap, ◌∙◌, true, none, some, Bytes, take, arith, inr,
}
use distributed_systems_afsv.Client.{Client, OpEnv, cached, failed_fh, give_file, open_local}
use distributed_systems_afsv.Client.Crash.{Survivors, survivors, land_all, unlink_writes}
use distributed_systems_afsv.Client.Open.{afs_open}
use distributed_systems_afsv.Hash.{Sha256}
use distributed_systems_afsv.Journal.{Env}
use distributed_systems_afsv.Modified
use distributed_systems_afsv.Modified.{local_creat_file}
use distributed_systems_afsv.Posix
use distributed_systems_afsv.Posix.{find, is_file}
use distributed_systems_afsv.Posix.Laws.{unlink_not_refused}
use distributed_systems_afsv.Server.{Server}
use distributed_systems_afsv.Server.Temporary.{Stored}
use distributed_systems_afsv.Start.{start_data, with_slash}
use distributed_systems_afsv.Start.Mounted.{IsDurable, start_data-Remade}
use distributed_systems_afsv.System.{Network, afs_stub}
use distributed_systems_afsv.System.Crash.{tables_of}
use distributed_systems_afsv.System.Crash.Reading.{open_taken}

open_local-missing :
    (sha : Sha256) (env : OpEnv) (path : Bytes) (c : Client)
    → find (cached sha c path) c.fs ≡ none
    → open_local sha env path c ≡ (failed_fh, c)
unfolding open_local
open_local-missing sha env path c missing = ground (arith, missing)

pub give_file-missing :
    (sha : Sha256) (env : OpEnv) (path : Bytes) (c : Client)
    → find (cached sha c path) c.fs ≡ none
    → give_file sha env path c ≡ record { code = pos 0; fh = failed_fh; client = c }
unfolding give_file
give_file-missing sha env path c missing =
    rw (give_file, open_local-missing sha env path c missing) refl

module _ (sha : Sha256) (root : Bytes) (net : Network) (path b ts dir : Bytes) (menv : Env)
    (mcounter : ℤ) (denv : Env) (dcounter : ℤ) (env : OpEnv) (fh : ℕ) where
  -- The client that starts is given no file by `afs_open`, though the answer is 0, and it stays as it
  -- is.
  pub record Ghost (x : Survivors Server) : Type 0 where
    pub client : Client
    pub result : start_data (tables_of x menv mcounter denv dcounter) x.fs dir ≡ some client
    pub kept : Stored root path b ts x.server
    pub opened :
        afs_open sha (afs_stub sha root net) env path fh x.server client
        ≡ record { code = pos 0; fh = failed_fh; client = client }

-- A crash of `afs_unlink` behind its first write, which removes the cache file: the server keeps
-- the file, and the process that starts next still knows it with the timestamp of the server, so
-- that `afs_open` returns 0 with 2^64 - 1 in `fi->fh`, changes nothing, and downloads nothing. The
-- local system does not refuse to remove the copy. The client has the file with the server's
-- timestamp, its tables agree with their files, the server answers, both logs open at the start,
-- and the cache directory is the one of the process before, up to a slash at its end.
pub unlink-Ghost :
    (sha : Sha256) (root : Bytes) (net net' : Network) (path b ts dir : Bytes) (menv : Env)
    (mcounter : ℤ) (denv : Env) (dcounter : ℤ) (wenv env : OpEnv) (fh : ℕ) (s : Server) (c : Client)
    → wenv.unlink_refusal ≡ none
    → IsDurable c
    → menv.log_opens ≡ true
    → denv.log_opens ≡ true
    → c.cache_root ≡ with_slash dir
    → is_file (cached sha c path) c.fs ≡ true
    → Modified.count sha path c.modified ≡ true
    → Modified.get sha path c.modified ≡ ts
    → Stored root path b ts s
    → net'.up ≡ true
    → net'.kernel ≡ none
    → Ghost sha root net' path b ts dir menv mcounter denv dcounter env fh (
        land_all (take 1 (unlink_writes sha (afs_stub sha root net) wenv path s c)) (survivors s c))
unfolding unlink_writes
unlink-Ghost sha root net net' path b ts dir menv mcounter denv dcounter wenv env fh s c removes
      durable mopens dopens same file known stamp stored up answers =
    let c' = record c { fs = (Posix.unlink wenv.unlink_refusal (cached sha c path) c.fs).1 } in
    let durable' : IsDurable c' = record { modified = durable.modified; dirty = durable.dirty } in
    let made =
      start_data-Remade sha c' menv mcounter denv dcounter dir durable' mopens dopens same in
    let d = made.client in
    let gone : find (cached sha d path) d.fs ≡ none =
      ap (find (cached sha d path)) made.agrees.fs
      ∙ ap (λ name. find name c'.fs) (made.agrees.cached path)
      ∙ (unfold cached in
          unlink_not_refused wenv.unlink_refusal (cached sha c path) c.fs removes file) in
    record {
      client = d;
      result = made.result;
      kept = stored;
      opened =
          open_taken sha root net' path env fh s d up answers (
            made.agrees.known path ∙ known,
            inr (stored.mtime ∙ ap some (sym (made.agrees.modified path ∙ stamp))),
          )
          ∙ give_file-missing sha env path d gone;
    }
