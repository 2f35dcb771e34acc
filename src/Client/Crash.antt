-- ===== src/Client/Crash.antt =====
-- The handlers as the writes that survive a crash of the client process: those to the files of the
-- two tables, to the cache directory, and to the server, in the order of the source.
pub mod Whole
use distributed_systems_afsv.Base.{
  inl, inr, ◌⊎◌, ℕ, ◌≡◌, refl, sym, ap, ◌∙◌, Bool, true, false, Option, none, some, List, [], ◌∷◌,
  ◌++◌, map, if◌then◌else◌, Bytes, take, zero, suc,
}
use distributed_systems_afsv.Client.{Client, OpEnv, is_ok, cached}
use distributed_systems_afsv.Client.Access.{on_fd}
use distributed_systems_afsv.Client.Release.{messages, opened_cache}
use distributed_systems_afsv.Client.Stub.{Stub}
use distributed_systems_afsv.Dirty
use distributed_systems_afsv.Hash.{Sha256}
use distributed_systems_afsv.Journal
use distributed_systems_afsv.Journal.{Disk, Effect}
use distributed_systems_afsv.Journal.Always.{Always}
use distributed_systems_afsv.Modified
use distributed_systems_afsv.Posix
use distributed_systems_afsv.Posix.{Fs, write_at}
use distributed_systems_afsv.Proto.{Status, Meta}
use distributed_systems_afsv.Stream.{send_file, bufsize}

-- What the next process of the client finds: the cache directory, the files of the tables, and what
-- the server has.
pub record Survivors (R : Type 0) : Type 0 where
  pub fs : Fs
  pub modified_disk : Disk
  pub dirty_disk : Disk
  pub server : R

abbrev pub survivors : {R : Type 0} → R → Client → Survivors R
survivors r c = record {
  fs = c.fs;
  modified_disk = c.modified_disk;
  dirty_disk = c.dirty_disk;
  server = r;
}

pub data Write (R : Type 0) : Type 0 where
  modifies : Effect → Write R
  dirties : Effect → Write R
  files : Fs → Write R
  answers : R → Write R

module _ {R : Type 0} where
  abbrev pub land : Write R → Survivors R → Survivors R
  land (modifies e) x = record x { modified_disk = Journal.apply e x.modified_disk }
  land (dirties e) x = record x { dirty_disk = Journal.apply e x.dirty_disk }
  land (files fs) x = record x { fs = fs }
  land (answers r) x = record x { server = r }

  abbrev pub land_all : List (Write R) → Survivors R → Survivors R
  land_all [] x = x
  land_all (w ∷ ws) x = land_all ws (land w x)

  -- A predicate that holds before, between and after the writes.
  abbrev pub Throughout {ℓ} : (Survivors R → Type ℓ) → List (Write R) → Survivors R → Type ℓ
  Throughout P [] x = P x
  Throughout P (w ∷ ws) x = P x × Throughout P ws (land w x)

  pub Throughout-take {ℓ} :
      (P : Survivors R → Type ℓ) (n : ℕ) (ws : List (Write R)) (x : Survivors R)
      → Throughout P ws x
      → P (land_all (take n ws) x)
  Throughout-take P zero [] x h = h
  Throughout-take P zero (w ∷ ws) x h = h.0
  Throughout-take P (suc n) [] x h = h
  Throughout-take P (suc n) (w ∷ ws) x h = Throughout-take P n ws (land w x) h.1

  pub Throughout-append {ℓ} :
      (P : Survivors R → Type ℓ) (vs ws : List (Write R)) (x : Survivors R)
      → Throughout P vs x
      → Throughout P ws (land_all vs x)
      → Throughout P (vs ++ ws) x
  Throughout-append P [] ws x h k = k
  Throughout-append P (v ∷ vs) ws x h k = (h.0, Throughout-append P vs ws (land v x) h.1 k)

  pub land_all-append :
      (vs ws : List (Write R)) (x : Survivors R)
      → land_all (vs ++ ws) x ≡ land_all ws (land_all vs x)
  land_all-append [] ws x = refl
  land_all-append (v ∷ vs) ws x = land_all-append vs ws (land v x)

  pub land_all-dirties :
      (es : List Effect) (x : Survivors R)
      → land_all (map dirties es) x ≡ record x { dirty_disk = Journal.run es x.dirty_disk }
  unfolding Journal.run
  land_all-dirties [] x = refl
  land_all-dirties (e ∷ es) x = land_all-dirties es (land (dirties e) x)

  pub land_all-modifies :
      (es : List Effect) (x : Survivors R)
      → land_all (map modifies es) x ≡ record x { modified_disk = Journal.run es x.modified_disk }
  unfolding Journal.run
  land_all-modifies [] x = refl
  land_all-modifies (e ∷ es) x = land_all-modifies es (land (modifies e) x)

  pub Throughout-dirties {ℓ κ} :
      (Q : Disk → Type κ) (P : Survivors R → Type ℓ) (es : List Effect) (x : Survivors R)
      → ((d : Disk) → Q d → P (record x { dirty_disk = d }))
      → Always Q es x.dirty_disk
      → Throughout P (map dirties es) x
  Throughout-dirties Q P [] x f h = f x.dirty_disk h
  Throughout-dirties Q P (e ∷ es) x f h =
      (f x.dirty_disk h.0, Throughout-dirties Q P es (land (dirties e) x) f h.1)

  pub Throughout-modifies {ℓ κ} :
      (Q : Disk → Type κ) (P : Survivors R → Type ℓ) (es : List Effect) (x : Survivors R)
      → ((d : Disk) → Q d → P (record x { modified_disk = d }))
      → Always Q es x.modified_disk
      → Throughout P (map modifies es) x
  Throughout-modifies Q P [] x f h = f x.modified_disk h
  Throughout-modifies Q P (e ∷ es) x f h =
      (f x.modified_disk h.0, Throughout-modifies Q P es (land (modifies e) x) f h.1)

module _ (sha : Sha256) {R : Type 0} (stub : Stub R) where
  unfoldable pub uploaded_writes : OpEnv → Bytes → Status → Meta → Client → List (Write R)
  uploaded_writes env path status meta c =
      if is_ok status
      then map dirties (Dirty.set sha env.dirty_env path false c.dirty).1
        ++ map modifies (Modified.set sha env.modified_env path meta.timestamp c.modified).1
      else []

  -- The upload is one write, that of the server.
  unfoldable pub upload_writes : OpEnv → Bytes → Option Bytes → R → Client → List (Write R)
  upload_writes env path none r c = []
  upload_writes env path (some content) r c =
      elim (stub.write (messages path (send_file bufsize env.budget content).0) r) [
        | none ↦ []
        | some (status, meta, r') ↦ answers r' ∷ uploaded_writes env path status meta c
      ]

  -- What `afs_release` writes.
  unfoldable pub release_writes : OpEnv → Bytes → R → Client → List (Write R)
  release_writes env path r c =
      if Dirty.get sha path c.dirty
      then upload_writes env path (opened_cache sha stub env path c) r c
      else []

  -- What `afs_unlink` writes: the cache file goes first.
  unfoldable pub unlink_writes : OpEnv → Bytes → R → Client → List (Write R)
  unlink_writes env path r c =
      files (Posix.unlink env.unlink_refusal (cached sha c path) c.fs).1
      ∷ (map modifies (Modified.erase sha path c.modified).1
          ++ (map dirties (Dirty.erase sha path c.dirty).1
              ++ (answers (stub.unlink path r).1 ∷ [])))

module _ (sha : Sha256) {R : Type 0} where
  -- `pwrite`, on the errno or the inode of the descriptor.
  unfoldable pub pwrite_writes : OpEnv → Bytes → ℕ → ℕ ⊎ ℕ → Client → List (Write R)
  pwrite_writes env buf offset (inl errno) c = []
  pwrite_writes env buf offset (inr i) c = files (write_at i offset buf env.now c.fs) ∷ []

  -- What `afs_write` writes: the file is marked before it changes.
  unfoldable pub write_writes : OpEnv → Bytes → Bytes → ℕ → ℕ → Client → List (Write R)
  write_writes env path buf offset fh c =
      map dirties (Dirty.set sha env.dirty_env path true c.dirty).1
      ++ pwrite_writes env buf offset (on_fd env fh c) c
