-- ===== src/System/Honest.antt =====
-- What a cached copy promises: if a client has nothing to upload for a file, and the timestamp that
-- the server has, then it has the server's content. The handlers are below.
pub mod Open
pub mod Upload
pub mod Unlink
pub mod Run
pub mod Reads
use distributed_systems_afsv.Base.{
  ℕ, ◌<◌, ◌≡◌, ◌≢◌, refl, sym, ap, ◌∙◌, ◌⊎◌, inl, inr, Bool, true, false, none, some, List, [], ◌∷◌,
  map, arith, Bytes, length, equal, Bool-cases, Option-cases, if◌then◌else◌, pos,
}
use mathlib.Core.Option.{none-ne-some, some-injective}
use mathlib.Core.Path.{subst}
use distributed_systems_afsv.Client.{
  Client, OpEnv, Opened, cached, give_file, erase_modified, unlink_cache, is_ok, last_block,
  set_dirty,
}
use distributed_systems_afsv.Client.Access.{afs_write}
use distributed_systems_afsv.Client.Mutate.{afs_unlink}
use distributed_systems_afsv.Client.Open.{afs_open, download, receive, finish_open, store_blocks}
use distributed_systems_afsv.Dirty
use distributed_systems_afsv.Hash.{Sha256}
use distributed_systems_afsv.Modified
use distributed_systems_afsv.Modified.{local_creat_file}
use distributed_systems_afsv.Posix.{find, read_file, mtime_of}
use distributed_systems_afsv.Posix.Laws.{
  mtime_of_missing, mtime_of_found, read_file_found, read_file_missing,
}
use distributed_systems_afsv.Posix.Same.{Same, Same-read_file, Same-mtime_of}
use distributed_systems_afsv.Proto.{MetaContent, Status, ok}
use distributed_systems_afsv.Server.{Server, fs_path, get_content}
use distributed_systems_afsv.Stream.{concat}
use distributed_systems_afsv.System.{Network, afs_stub, sent_all}
use distributed_systems_afsv.System.Close.{Clean}
use distributed_systems_afsv.System.Tables.{
  dirty_get-set, modified_count-erase, modified_get-set, give_file_lem, store_blocks-read,
}

module _ (sha : Sha256) (root p : Bytes) where
  pub record IsHonest (s : Server) (c : Client) : Type 0 where
    pub content :
        (ts : Bytes)
        → mtime_of (fs_path root p) s.fs ≡ some ts
        → Modified.count sha p c.modified ≡ true
        → Modified.get sha p c.modified ≡ ts
        → Dirty.get sha p c.dirty ≡ false
        → read_file (cached sha c p) c.fs ≡ read_file (fs_path root p) s.fs

  -- Five ways to promise nothing.
  pub unknown-IsHonest :
      (s : Server) (c : Client) → Modified.count sha p c.modified ≡ false → IsHonest s c
  unknown-IsHonest s c h = record { content = λ ts time known. cc (h, known) }

  pub dirty-IsHonest : (s : Server) (c : Client) → Dirty.get sha p c.dirty ≡ true → IsHonest s c
  dirty-IsHonest s c h = record { content = λ ts time known stamp clean. cc (h, clean) }

  pub missing-IsHonest :
      (s : Server) (c : Client) → find (fs_path root p) s.fs ≡ none → IsHonest s c
  missing-IsHonest s c h = record {
    content = λ ts time known stamp clean.
        absurd (none-ne-some ts (sym (mtime_of_missing (fs_path root p) s.fs h) ∙ time));
  }

  pub renewed-IsHonest :
      (now : Bytes) (s : Server) (c : Client)
      → mtime_of (fs_path root p) s.fs ≡ some now
      → Modified.get sha p c.modified ≢ now
      → IsHonest s c
  renewed-IsHonest now s c h old = record {
    content =
        λ ts time known stamp clean. absurd (old (stamp ∙ some-injective ts now (sym time ∙ h)));
  }

  pub other_time-IsHonest :
      (now : Bytes) (s : Server) (c : Client)
      → mtime_of (fs_path root p) s.fs ≢ some now
      → Modified.get sha p c.modified ≡ now
      → IsHonest s c
  other_time-IsHonest now s c other own = record {
    content = λ ts time known stamp clean. absurd (other (time ∙ ap some (sym stamp ∙ own)));
  }

  -- A copy with the server's content keeps any promise.
  pub same-IsHonest :
      (s : Server) (c : Client)
      → read_file (cached sha c p) c.fs ≡ read_file (fs_path root p) s.fs
      → IsHonest s c
  same-IsHonest s c h = record { content = λ ts time known stamp clean. h }

  -- The promise needs no more than the file of the server, and the copy and tables of the client.
  pub IsHonest-server :
      (s t : Server) (c : Client) → Same (fs_path root p) s.fs t.fs → IsHonest s c → IsHonest t c
  IsHonest-server s t c same h = record {
    content = λ ts time known stamp clean.
        h.content ts (sym (Same-mtime_of (fs_path root p) s.fs t.fs same) ∙ time) known stamp clean
        ∙ sym (Same-read_file (fs_path root p) s.fs t.fs same);
  }

  pub IsHonest-client :
      (s : Server) (c d : Client)
      → d.fs ≡ c.fs
      → d.modified ≡ c.modified
      → d.dirty ≡ c.dirty
      → d.cache_root ≡ c.cache_root
      → IsHonest s c
      → IsHonest s d
  unfolding cached
  IsHonest-client s c d fs modified dirty cache_root h = record {
    content = λ ts time known stamp clean.
        rw (fs, cache_root)
          (h.content ts time (rw modified at known) (rw modified at stamp) (rw dirty at clean));
  }

  pub give_file-IsHonest :
      (env : OpEnv) (s : Server) (c : Client)
      → IsHonest s c
      → IsHonest s (give_file sha env p c).client
  give_file-IsHonest env s c h =
      let (code, fs, modified, dirty, cache_root) = give_file_lem sha env p c in
      IsHonest-client s c (give_file sha env p c).client fs modified dirty cache_root h

  -- A client without the cache file promises nothing.
  pub absent-IsHonest :
      (s : Server) (c d : Client)
      → find (cached sha c p) c.fs ≡ none
      → d.modified ≡ c.modified
      → d.dirty ≡ c.dirty
      → IsHonest s c
      → IsHonest s d
  absent-IsHonest s c d missing modified dirty h = record {
    content = λ ts time known stamp clean. elim (Option-cases (find (fs_path root p) s.fs)) [
      | inl gone ↦
          absurd (none-ne-some ts (sym (mtime_of_missing (fs_path root p) s.fs gone) ∙ time))
      | inr (i, found) ↦ absurd (
          none-ne-some (s.fs.inodes i).content (
            sym (read_file_missing (cached sha c p) c.fs missing)
            ∙ h.content ts time (rw (← modified) known) (rw (← modified) stamp) (rw (← dirty) clean)
            ∙ read_file_found (fs_path root p) i s.fs found))
    ];
  }
