-- ===== src/Server/Write.antt =====
-- `Write` of the server when it runs alone: the file that it leaves, and the files that it does not
-- touch.
use distributed_systems_afsv.Base.{
  ℕ, ◌≡◌, ◌≢◌, refl, sym, ap, ◌∙◌, true, false, not, none, some, List, [], ◌∷◌, arith, Bytes,
  equal_refl, Option-cases, inl, inr, equal_ne,
}
use distributed_systems_afsv.Hash.{Sha256}
use distributed_systems_afsv.Posix.{Fs, find, create, rename, read_file}
use distributed_systems_afsv.Posix.Laws.{
  IsFs, create-find_ne, create-other, rename-find, inodes-rename, read_file_found, mtime_of_found,
  is_file_found, create-IsFs, rename-IsFs,
}
use distributed_systems_afsv.Proto.{FilepathContent, ok, not_found, cancelled}
use distributed_systems_afsv.Server.{
  Server, WriteEnv, last_msg, fs_path, temp_path, finish_write, write,
}
use distributed_systems_afsv.Server.Temporary.{
  payload, AllFor, append_all-find, append_all-other, append_all-IsFs, last_msg-AllFor, Stored,
  temp_path-ne-fs_path, fs_path_injective, written, written-temp,
}

module _ (sha : Sha256) (root : Bytes) where
  finish_write-done :
      (env : WriteEnv) (p : Bytes) (msg last : FilepathContent) (msgs : List FilepathContent)
      (fs : Fs)
      → env.is_cancelled ≡ false
      → env.renames ≡ true
      → msg.filepath ≡ p
      → last.filepath ≡ p
      → finish_write sha root env msg last (written sha root env p msgs fs) ≡ (
        ok,
        env.now,
        record {
          fs = rename (temp_path sha root p) (fs_path root p) (written sha root env p msgs fs);
          locked = false;
        },
      )
  unfolding finish_write
  finish_write-done env p msg last msgs fs live moves hm hl =
      let t = (written-temp sha root env p msgs fs).2 in rw (live, moves, hm, hl, t) refl

  -- The server behind a `Write` for `p` that goes through.
  abbrev pub after_write : WriteEnv → Bytes → List FilepathContent → Server → Server
  after_write env p msgs s = record {
    fs = rename (temp_path sha root p) (fs_path root p) (written sha root env p msgs s.fs);
    locked = false;
  }

  module _ (env : WriteEnv) (p : Bytes) (m : FilepathContent) (ms : List FilepathContent)
      (s : Server) (free : s.locked ≡ false) (named : AllFor p (m ∷ ms)) where
    pub write-done :
        env.opens ≡ true
        → env.is_cancelled ≡ false
        → env.renames ≡ true
        → write sha root env (m ∷ ms) s ≡ some (ok, env.now, after_write env p (m ∷ ms) s)
    unfolding write
    write-done opens live moves =
        rw (free, opens)
          (ap some (
            ap
              (λ q.
                finish_write sha root env m (last_msg m ms) (written sha root env q (m ∷ ms) s.fs))
              named.0
            ∙ finish_write-done env p m (last_msg m ms) (m ∷ ms) s.fs live moves named.0
                (last_msg-AllFor p m ms named.0 named.1)))

  pub after_write-Stored :
      (env : WriteEnv) (p : Bytes) (msgs : List FilepathContent) (s : Server)
      → Stored root p (payload msgs) env.now (after_write env p msgs s)
  after_write-Stored env p msgs s =
      let temp = temp_path sha root p in
      let fs = written sha root env p msgs s.fs in
      let c = create temp env.now s.fs in
      let (found, content, mtime, file) = written-temp sha root env p msgs s.fs in
      let moved : find (fs_path root p) (rename temp (fs_path root p) fs) ≡ some c.0 =
        rename-find temp (fs_path root p) (fs_path root p) c.0 fs found
        ∙ rw (equal_refl (fs_path root p)) refl in
      let same = inodes-rename temp (fs_path root p) c.0 fs in
      record {
        content =
            read_file_found _ c.0 _ moved
            ∙ ap (λ n. some n.content) same
            ∙ sym (read_file_found temp c.0 fs found)
            ∙ content;
        mtime =
            mtime_of_found _ c.0 _ moved
            ∙ ap (λ n. some n.mtime) same
            ∙ sym (mtime_of_found temp c.0 fs found)
            ∙ mtime;
        file =
            is_file_found _ c.0 _ moved
            ∙ ap (λ n. not n.is_dir) same
            ∙ sym (is_file_found temp c.0 fs found)
            ∙ file;
        free = refl;
      }

  -- Writing the temporary file leaves every file of the file system as it was.
  pub written-other :
      (env : WriteEnv) (p q : Bytes) (msgs : List FilepathContent) (fs : Fs)
      → IsFs fs
      → (find (fs_path root q) (written sha root env p msgs fs) ≡ find (fs_path root q) fs)
        × ((j : ℕ)
            → find (fs_path root q) fs ≡ some j
            → (written sha root env p msgs fs).inodes j ≡ fs.inodes j)
  written-other env p q msgs fs w =
      let temp = temp_path sha root p in
      let c = create temp env.now fs in
      let ne = temp_path-ne-fs_path sha root p q in
      (
        append_all-find c.0 env.now (fs_path root q) msgs c.1
            ∙ create-find_ne temp env.now (fs_path root q) fs ne,
        λ j h.
            let other = create-other temp env.now (fs_path root q) j fs w ne h in
            append_all-other c.0 j env.now msgs c.1 other.0 ∙ other.1,
      )

  pub after_write-IsFs :
      (env : WriteEnv) (p : Bytes) (msgs : List FilepathContent) (s : Server)
      → IsFs s.fs
      → IsFs (after_write env p msgs s).fs
  after_write-IsFs env p msgs s w =
      let temp = temp_path sha root p in
      let c = create temp env.now s.fs in
      rename-IsFs temp (fs_path root p) _
        (append_all-IsFs c.0 env.now msgs c.1 (create-IsFs temp env.now s.fs w))

  read_file-same :
      (path : Bytes) (fs gs : Fs)
      → find path gs ≡ find path fs
      → ((j : ℕ) → find path fs ≡ some j → gs.inodes j ≡ fs.inodes j)
      → read_file path gs ≡ read_file path fs
  unfolding read_file
  read_file-same path fs gs e h = elim (Option-cases (find path fs)) [
    | inl missing ↦ ground (arith, e, missing)
    | inr (j, found) ↦ ground (arith, e, found, h j found)
  ]

  -- Files other than the one that is written keep their content.
  pub after_write-other :
      (env : WriteEnv) (p q : Bytes) (msgs : List FilepathContent) (s : Server)
      → IsFs s.fs
      → p ≢ q
      → read_file (fs_path root q) (after_write env p msgs s).fs ≡ read_file (fs_path root q) s.fs
  after_write-other env p q msgs s w ne =
      let temp = temp_path sha root p in
      let fs = written sha root env p msgs s.fs in
      let (found, content, mtime, file) = written-temp sha root env p msgs s.fs in
      let other = written-other env p q msgs s.fs w in
      let moved : find (fs_path root q) (rename temp (fs_path root p) fs)
          ≡ find (fs_path root q) s.fs =
        rename-find temp (fs_path root p) (fs_path root q) _ fs found
        ∙ rw
            (
              equal_ne _ _ (λ e. ne (fs_path_injective sha root p q e)),
              equal_ne _ _ (temp_path-ne-fs_path sha root p q),
            )
            other.0 in
      read_file-same (fs_path root q) s.fs (after_write env p msgs s).fs moved
        (λ j h. inodes-rename temp (fs_path root p) j fs ∙ other.1 j h)

  -- A `Write` with one message or more that its client cancels, when nobody holds the mutex and
  -- its temporary file opens: it answers CANCELLED, no file of the file system changes its
  -- content, and the mutex is free.
  pub write-cancelled :
      (env : WriteEnv) (m : FilepathContent) (ms : List FilepathContent) (s : Server) (q : Bytes)
      → s.locked ≡ false
      → IsFs s.fs
      → env.opens ≡ true
      → env.is_cancelled ≡ true
      → (s' : Server) × (write sha root env (m ∷ ms) s ≡ some (cancelled, [], s'))
        × (read_file (fs_path root q) s'.fs ≡ read_file (fs_path root q) s.fs)
        × (s'.locked ≡ false)
  unfolding write finish_write
  write-cancelled env m ms s q free w opens stop =
      let other = written-other env m.filepath q (m ∷ ms) s.fs w in
      (
        record { fs = written sha root env m.filepath (m ∷ ms) s.fs; locked = false },
        rw (free, opens, stop) refl,
        read_file-same (fs_path root q) s.fs _ other.0 other.1,
        refl,
      )

  -- A `Write` that takes the mutex and cannot open its temporary file answers NOT_FOUND and keeps
  -- the mutex: every `Write` after it, for whatever file, waits for ever.
  pub write-not_found :
      (env next : WriteEnv) (msgs later : List FilepathContent) (s : Server)
      → s.locked ≡ false
      → env.opens ≡ false
      → (s' : Server) × (write sha root env msgs s ≡ some (not_found, [], s'))
        × (write sha root next later s' ≡ none)
  unfolding write
  write-not_found env next msgs later s free fails =
      (record s { locked = true }, rw (free, fails) refl, refl)

  -- A `Write` with one message or more that all name one file, when nobody holds the mutex, its
  -- temporary file opens, it is not cancelled and its `rename` succeeds: it answers OK with its
  -- time, the server has the messages' bytes as that file's content and the time as its `st_mtim`,
  -- the mutex is free, every other file keeps its content, and the file system stays well formed.
  pub write_replaces :
      (env : WriteEnv) (p q : Bytes) (m : FilepathContent) (ms : List FilepathContent) (s : Server)
      → IsFs s.fs
      → s.locked ≡ false
      → AllFor p (m ∷ ms)
      → env.opens ≡ true
      → env.is_cancelled ≡ false
      → env.renames ≡ true
      → p ≢ q
      → (s' : Server) × (write sha root env (m ∷ ms) s ≡ some (ok, env.now, s'))
        × Stored root p (payload (m ∷ ms)) env.now s'
        × (read_file (fs_path root q) s'.fs ≡ read_file (fs_path root q) s.fs)
        × IsFs s'.fs
  write_replaces env p q m ms s w free named opens live moves ne = (
    after_write env p (m ∷ ms) s,
    write-done env p m ms s free named opens live moves,
    after_write-Stored env p (m ∷ ms) s,
    after_write-other env p q (m ∷ ms) s w ne,
    after_write-IsFs env p (m ∷ ms) s w,
  )
