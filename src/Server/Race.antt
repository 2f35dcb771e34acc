-- ===== src/Server/Race.antt =====
-- Two calls of `Write` for one file: `rename` is called when the mutex is free again.
use distributed_systems_afsv.Base.{
  ℕ, ◌≡◌, ◌≢◌, refl, ap, ◌∙◌, true, false, some, List, [], ◌∷◌, arith, Bytes, equal_refl,
}
use distributed_systems_afsv.Hash.{Sha256}
use distributed_systems_afsv.Posix.{Fs, find, create, rename, read_file}
use distributed_systems_afsv.Posix.Laws.{
  create-find, create-inode, rename-find, inodes-rename, read_file_found,
}
use distributed_systems_afsv.Proto.{FilepathContent, ok, no_content}
use distributed_systems_afsv.Server.{WriteEnv, fs_path, temp_path}
use distributed_systems_afsv.Server.Threads.{
  starting, stamped, answered, writing, advance, Running, step, schedule, moved,
}

module _ (sha : Sha256) (root : Bytes) where
  rename-content :
      (from to : Bytes) (i : ℕ) (fs : Fs)
      → find from fs ≡ some i
      → read_file to (rename from to fs) ≡ some (fs.inodes i).content
  rename-content from to i fs found =
      let moved : find to (rename from to fs) ≡ some i =
        rename-find from to to i fs found ∙ rw (equal_refl to) refl in
      read_file_found to i _ moved ∙ ap (λ n. some n.content) (inodes-rename from to i fs)

  -- A file renamed right after it was opened to be written is empty.
  create-rename :
      (now p : Bytes) (fs : Fs)
      → read_file
          (fs_path root p)
          (rename (temp_path sha root p) (fs_path root p) (create (temp_path sha root p) now fs).1)
        ≡ some []
  create-rename now p fs =
      let temp = temp_path sha root p in
      rename-content temp (fs_path root p) (create temp now fs).0 _ (create-find temp now fs)
      ∙ ap some (create-inode temp now fs).0

  module _ (envs : ℕ → WriteEnv) where
    step_renames :
        (a : ℕ) (last : FilepathContent) (ts : Bytes) (y : Running)
        → y.calls a ≡ stamped last ts
        → (envs a).renames ≡ true
        → step sha root envs a y
          ≡ moved a
              (answered ok ts)
              (record y.server {
                fs =
                    rename
                      (temp_path sha root last.filepath)
                      (fs_path root last.filepath)
                      y.server.fs;
              })
              y
    unfolding step advance
    step_renames a last ts y renames works = rw (step, renames, works) refl

    step_opens :
        (b : ℕ) (m : FilepathContent) (ms : List FilepathContent) (y : Running)
        → y.calls b ≡ starting (m ∷ ms)
        → y.server.locked ≡ false
        → (envs b).opens ≡ true
        → let (i, fs) = create (temp_path sha root m.filepath) (envs b).now y.server.fs in
          step sha root envs b y
          ≡ moved b (writing m no_content i (m ∷ ms)) (record { fs = fs; locked = true }) y
    unfolding step advance
    step_opens b m ms y starts free opens = rw (step, starts, free, opens) refl

    -- A call of `Write` that has closed its temporary file and taken its time, and a second call
    -- for the same file that then opens the temporary file, before the first renames it, which
    -- succeeds: the first answers OK with its time, and the file that the server then has under
    -- the name is empty, whatever the first call wrote.
    pub rename_race :
        (a b : ℕ) (m last : FilepathContent) (ms : List FilepathContent) (ts : Bytes) (y : Running)
        → a ≢ b
        → last.filepath ≡ m.filepath
        → y.calls a ≡ stamped last ts
        → y.calls b ≡ starting (m ∷ ms)
        → y.server.locked ≡ false
        → (envs b).opens ≡ true
        → (envs a).renames ≡ true
        → let z = schedule sha root envs (b ∷ a ∷ []) y in
          (z.calls a ≡ answered ok ts) × (read_file (fs_path root m.filepath) z.server.fs ≡ some [])
    unfolding schedule
    rename_race a b m last ms ts y apart same renames starts free opens works =
        let temp = temp_path sha root m.filepath in
        let made = create temp (envs b).now y.server.fs in
        let y' =
          moved b (writing m no_content made.0 (m ∷ ms)) (record { fs = made.1; locked = true })
            y in
        let waits : y'.calls a ≡ stamped last ts = ground (arith, apart, renames) in
        let path =
          ap (step sha root envs a) (step_opens b m ms y starts free opens)
          ∙ step_renames a last ts y' waits works in
        (
          ap (λ z. z.calls a) path ∙ ground arith,
          ap (λ z. read_file (fs_path root m.filepath) z.server.fs) path
              ∙ ap
                  (λ p.
                    read_file (fs_path root m.filepath)
                      (rename (temp_path sha root p) (fs_path root p) made.1))
                  same
              ∙ create-rename (envs b).now m.filepath y.server.fs,
        )
