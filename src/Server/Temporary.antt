-- ===== src/Server/Temporary.antt =====
-- The temporary file of a `Write`, and what writing it leaves alone.
use distributed_systems_afsv.Base.{
  ℕ, ◌≡◌, ◌≢◌, refl, sym, ap, ◌∙◌, true, false, not, some, List, [], ◌∷◌, ◌++◌, map, append_assoc,
  append-nil, arith, Bytes, codes, All,
}
use distributed_systems_afsv.Hash.{Sha256}
use distributed_systems_afsv.Posix.{Fs, find, create, append, read_file, mtime_of, is_file}
use distributed_systems_afsv.Posix.Laws.{
  IsFs, create-find, create-inode, append-find, append-inode, append-other, read_file_found,
  mtime_of_found, is_file_found, append-is_dir, append-IsFs,
}
use distributed_systems_afsv.Proto.{FilepathContent}
use distributed_systems_afsv.Stream.{concat}
use distributed_systems_afsv.Server.{Server, WriteEnv, append_all, last_msg, fs_path, temp_path}

-- The bytes that the messages carry.
abbrev pub payload : List FilepathContent → Bytes
payload msgs = concat (map (λ m. m.b) msgs)

-- Every message of a call names one file, as protos/afs.proto asks for.
abbrev pub AllFor : Bytes → List FilepathContent → Type 0
AllFor p msgs = All (λ m. m.filepath ≡ p) msgs

pub append_all-find :
    (i : ℕ) (now q : Bytes) (msgs : List FilepathContent) (fs : Fs)
    → find q (append_all i now msgs fs) ≡ find q fs
unfolding append_all
append_all-find i now q [] fs = refl
append_all-find i now q (m ∷ ms) fs =
    append_all-find i now q ms (append i m.b now fs) ∙ append-find i m.b now q fs

append_all-inode :
    (i : ℕ) (now : Bytes) (msgs : List FilepathContent) (fs : Fs)
    → (fs.inodes i).mtime ≡ now
    → (((append_all i now msgs fs).inodes i).content ≡ (fs.inodes i).content ++ payload msgs)
      × (((append_all i now msgs fs).inodes i).mtime ≡ now)
unfolding append_all concat
append_all-inode i now [] fs h = (sym (append-nil _), h)
append_all-inode i now (m ∷ ms) fs h =
    let one = append-inode i m.b now fs in
    let (c, t) = append_all-inode i now ms (append i m.b now fs) one.1 in
    (c ∙ ap (λ x. x ++ payload ms) one.0 ∙ append_assoc (fs.inodes i).content m.b (payload ms), t)

append_all-is_dir :
    (i : ℕ) (now : Bytes) (msgs : List FilepathContent) (fs : Fs)
    → ((append_all i now msgs fs).inodes i).is_dir ≡ (fs.inodes i).is_dir
unfolding append_all
append_all-is_dir i now [] fs = refl
append_all-is_dir i now (m ∷ ms) fs =
    append_all-is_dir i now ms (append i m.b now fs) ∙ append-is_dir i m.b now fs

pub append_all-other :
    (i j : ℕ) (now : Bytes) (msgs : List FilepathContent) (fs : Fs)
    → i ≢ j
    → (append_all i now msgs fs).inodes j ≡ fs.inodes j
unfolding append_all
append_all-other i j now [] fs ne = refl
append_all-other i j now (m ∷ ms) fs ne =
    append_all-other i j now ms (append i m.b now fs) ne ∙ append-other i j m.b now fs ne

pub append_all-IsFs :
    (i : ℕ) (now : Bytes) (msgs : List FilepathContent) (fs : Fs)
    → IsFs fs
    → IsFs (append_all i now msgs fs)
unfolding append_all
append_all-IsFs i now [] fs w = w
append_all-IsFs i now (m ∷ ms) fs w =
    append_all-IsFs i now ms (append i m.b now fs) (append-IsFs i m.b now fs w)

append_left_injective : (r a b : Bytes) → r ++ a ≡ r ++ b → a ≡ b
append_left_injective [] a b h = h
append_left_injective (x ∷ r) a b h = append_left_injective r a b (cc)

abbrev front : Bytes → ℕ
front [] = 0
front (c ∷ cs) = c

pub last_msg-AllFor :
    (p : Bytes) (m : FilepathContent) (ms : List FilepathContent)
    → m.filepath ≡ p
    → AllFor p ms
    → (last_msg m ms).filepath ≡ p
last_msg-AllFor p m [] h hs = h
last_msg-AllFor p m (n ∷ ms) h hs = last_msg-AllFor p n ms hs.0 hs.1

-- The server has `b` as the content of a file and `now` as its `st_mtim`, and the mutex is free.
pub record Stored (root p b now : Bytes) (s : Server) : Type 0 where
  pub content : read_file (fs_path root p) s.fs ≡ some b
  pub mtime : mtime_of (fs_path root p) s.fs ≡ some now
  pub file : is_file (fs_path root p) s.fs ≡ true
  pub free : s.locked ≡ false

module _ (sha : Sha256) (root : Bytes) where
  -- A file of the file system is never a temporary file.
  pub temp_path-ne-fs_path : (p q : Bytes) → temp_path sha root p ≢ fs_path root q
  unfolding temp_path fs_path
  temp_path-ne-fs_path p q h = omega (arith, ap front (append_left_injective root _ _ h))

  pub fs_path_injective : (p q : Bytes) → fs_path root p ≡ fs_path root q → p ≡ q
  unfolding fs_path
  fs_path_injective p q h =
      append_left_injective (codes "fs_root/") p q (append_left_injective root _ _ h)

  -- The file system after the temporary file is written.
  abbrev pub written : WriteEnv → Bytes → List FilepathContent → Fs → Fs
  written env p msgs fs =
      let (i, created) = create (temp_path sha root p) env.now fs in
      append_all i env.now msgs created

  pub written-temp :
      (env : WriteEnv) (p : Bytes) (msgs : List FilepathContent) (fs : Fs)
      → (find (temp_path sha root p) (written env p msgs fs)
          ≡ some (create (temp_path sha root p) env.now fs).0)
        × (read_file (temp_path sha root p) (written env p msgs fs) ≡ some (payload msgs))
        × (mtime_of (temp_path sha root p) (written env p msgs fs) ≡ some env.now)
        × (is_file (temp_path sha root p) (written env p msgs fs) ≡ true)
  written-temp env p msgs fs =
      let temp = temp_path sha root p in
      let c = create temp env.now fs in
      let e = append_all-find c.0 env.now temp msgs c.1 ∙ create-find temp env.now fs in
      let fresh = create-inode temp env.now fs in
      let all = append_all-inode c.0 env.now msgs c.1 fresh.1 in
      (
        e,
        read_file_found temp c.0 _ e ∙ ap some (all.0 ∙ ap (λ x. x ++ payload msgs) fresh.0),
        mtime_of_found temp c.0 _ e ∙ ap some all.1,
        is_file_found temp c.0 _ e ∙ ap not (append_all-is_dir c.0 env.now msgs c.1 ∙ fresh.2),
      )
