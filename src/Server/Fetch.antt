-- ===== src/Server/Fetch.antt =====
-- `GetContent` in the steps between which another call may run: it opens the file, asks for its
-- time by name, and reads what it opened.
use distributed_systems_afsv.Base.{
  Option, ℕ, ◌≡◌, refl, ◌∙◌, true, false, none, some, List, [], ◌∷◌, map, if◌then◌else◌, Bytes,
  take, Bool-cases, Option-cases, inl, inr,
}
use distributed_systems_afsv.Hash.{Sha256}
use distributed_systems_afsv.Posix.{find, mtime_of}
use distributed_systems_afsv.Posix.Laws.{IsFs, mtime_of_found, inodes-rename}
use distributed_systems_afsv.Proto.{FilepathContent, MetaContent}
use distributed_systems_afsv.Server.{
  Server, WriteEnv, fs_path, temp_path, or_uninitialised, get_content,
}
use distributed_systems_afsv.Server.Temporary.{written}
use distributed_systems_afsv.Server.Write.{after_write, after_write-Stored, written-other}
use distributed_systems_afsv.Stream.{send_file, bufsize}

module _ (root : Bytes) where
  -- `kernel` is the errno for an open that is refused. The server at the three steps is
  -- `opens`, `stats` and `reads`; `garbage` is what the `struct stat` holds if `stat` fails.
  unfoldable pub content_at :
      Option ℕ → ℕ → Bytes → Bytes → Server → Server → Server → List MetaContent
  content_at (some errno) budget garbage path opens stats reads =
      take budget (record { file_exists = false; timestamp = []; b = [] } ∷ [])
  content_at none budget garbage path opens stats reads = elim (find (fs_path root path) opens.fs) [
    | none ↦ take budget (record { file_exists = false; timestamp = []; b = [] } ∷ [])
    | some i ↦
        (let n = reads.fs.inodes i in
          if n.is_dir
          then []
          else map
              (λ b. record {
                file_exists = true;
                timestamp = or_uninitialised (mtime_of (fs_path root path) stats.fs) garbage;
                b = b;
              })
              (send_file bufsize budget n.content).0)
  ]

  -- If the server does not change in between, the steps come to `GetContent` as a whole.
  pub content_at-get_content :
      (kernel : Option ℕ) (budget : ℕ) (garbage path : Bytes) (s : Server)
      → content_at kernel budget garbage path s s s ≡ get_content root kernel budget path s
  unfolding content_at get_content
  content_at-get_content (some errno) budget garbage path s = refl
  content_at-get_content none budget garbage path s =
      elim (Option-cases (find (fs_path root path) s.fs)) [
        | inl missing ↦ rw (content_at, get_content, missing) refl
        | inr (i, found) ↦
            let time = mtime_of_found (fs_path root path) i s.fs found in
            elim (Bool-cases (s.fs.inodes i).is_dir) [
              | inl dir ↦ rw (content_at, get_content, found, dir) refl
              | inr file ↦ rw (content_at, get_content, found, file, time) refl
            ]
      ]

module _ (sha : Sha256) (root : Bytes) where
  -- A file that a `Write` has replaced keeps its inode for those who have it open.
  after_write-inode :
      (env : WriteEnv) (p : Bytes) (msgs : List FilepathContent) (s : Server) (i : ℕ)
      → IsFs s.fs
      → find (fs_path root p) s.fs ≡ some i
      → (after_write sha root env p msgs s).fs.inodes i ≡ s.fs.inodes i
  after_write-inode env p msgs s i w found =
      inodes-rename (temp_path sha root p) (fs_path root p) i (written sha root env p msgs s.fs)
      ∙ (written-other sha root env p p msgs s.fs w).1 i found

  -- A `Write` behind the open: the old blocks, with the time of the new file.
  pub content_at_mixed :
      (env : WriteEnv) (p garbage : Bytes) (msgs : List FilepathContent) (budget i : ℕ) (s : Server)
      → IsFs s.fs
      → find (fs_path root p) s.fs ≡ some i
      → (s.fs.inodes i).is_dir ≡ false
      → let s' = after_write sha root env p msgs s in
        content_at root none budget garbage p s s' s'
        ≡ map
            (λ b. record { file_exists = true; timestamp = env.now; b = b })
            (send_file bufsize budget (s.fs.inodes i).content).0
  unfolding content_at
  content_at_mixed env p garbage msgs budget i s w found file =
      let time = (after_write-Stored sha root env p msgs s).mtime in
      rw (content_at, found, after_write-inode env p msgs s i w found, file, time) refl
