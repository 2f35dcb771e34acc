-- ===== src/Server/Apart/Steps.antt =====
-- One step of a call of `Write`, and runs of several calls for different files.
use distributed_systems_afsv.Base.{
  ℕ, ◌≡◌, ◌≢◌, refl, sym, ap, ◌∙◌, Bool-cases, inl, inr, true, false, Option, none, some, List, [],
  ◌∷◌, ◌++◌, append_assoc, append-nil, Bytes, equal_refl,
}
use mathlib.Core.Path.{subst}
use distributed_systems_afsv.Hash.{Sha256}
use distributed_systems_afsv.Posix.{Fs, create, append, rename}
use distributed_systems_afsv.Posix.Laws.{
  IsFs, create-find, create-inode, create-IsFs, append-find, append-inode, append-IsFs, rename-find,
  rename-IsFs, inodes-rename,
}
use distributed_systems_afsv.Proto.{FilepathContent, ok, cancelled, no_content}
use distributed_systems_afsv.Server.{Server, WriteEnv, fs_path, temp_path}
use distributed_systems_afsv.Server.Apart.{
  Has, Named, Good, Frame, Frame-refl, create-Frame, append-Frame, rename-Frame,
}
use distributed_systems_afsv.Server.Temporary.{payload, AllFor}
use distributed_systems_afsv.Server.Threads.{
  Phase, starting, writing, closed, stamped, answered, failed, advance,
}
use distributed_systems_afsv.Stream.{concat}

-- A property of a step, if the call makes one.
abbrev pub OnStep : (Phase × Server → Type 0) → Option (Phase × Server) → Type 0
OnStep P none = Unit
OnStep P (some r) = P r

module _ (sha : Sha256) (root p : Bytes) (m : FilepathContent) (ms : List FilepathContent) where
  -- What a step of the call for `p` with the messages `m ∷ ms` comes to.
  pub record Moves (before : Fs) (r : Phase × Server) : Type 0 where
    pub own : Good sha root p (m ∷ ms) r.1.fs r.0
    pub well : IsFs r.1.fs
    pub frame :
        (q : Bytes) → temp_path sha root p ≢ temp_path sha root q → Frame sha root q before r.1.fs

  still :
      (s t : Server) (phase : Phase)
      → t.fs ≡ s.fs
      → IsFs s.fs
      → Good sha root p (m ∷ ms) s.fs phase
      → Moves s.fs (phase, t)
  still s t phase same w h = record {
    own = subst (λ fs. Good sha root p (m ∷ ms) fs phase) (sym same) h;
    well = subst IsFs (sym same) w;
    frame = λ q ne. subst (λ fs. Frame sha root q s.fs fs) (sym same) (Frame-refl sha root q s.fs);
  }

module _ (sha : Sha256) (root : Bytes) (env : WriteEnv) (moves : env.renames ≡ true) (p : Bytes)
    (m : FilepathContent) (ms : List FilepathContent) (named : AllFor p (m ∷ ms)) where
  -- The temporary file is opened.
  opened :
      (s : Server)
      → IsFs s.fs
      → let (i, fs) = create (temp_path sha root p) env.now s.fs in
        Moves sha root p m ms s.fs
          (writing m no_content i (m ∷ ms), record { fs = fs; locked = true })
  opened s w =
      let temp = temp_path sha root p in
      let (i, fs) = create temp env.now s.fs in
      record {
        own = (
          named.0,
          named,
          tt,
          create-find temp env.now s.fs,
          ap (λ b. b ++ payload (m ∷ ms)) (create-inode temp env.now s.fs).0,
        );
        well = create-IsFs temp env.now s.fs w;
        frame = λ q ne. create-Frame sha root p q env.now s.fs w ne;
      }

  Named-last : (n : FilepathContent) (ns : List FilepathContent) → n.filepath ≡ p → Named p n ns
  Named-last n [] h = h
  Named-last n (o ∷ ns) h = tt

  -- A message is written.
  written :
      (s : Server) (msg last n : FilepathContent) (i : ℕ) (ns : List FilepathContent)
      → IsFs s.fs
      → Good sha root p (m ∷ ms) s.fs (writing msg last i (n ∷ ns))
      → Moves sha root p m ms s.fs (writing msg n i ns, record s { fs = append i n.b env.now s.fs })
  unfolding concat
  written s msg last n i ns w (hm, hs, hl, found, content) = record {
    own = (
      hm,
      hs.1,
      Named-last n ns hs.0,
      append-find i n.b env.now (temp_path sha root p) s.fs ∙ found,
      ap (λ b. b ++ payload ns) (append-inode i n.b env.now s.fs).0
          ∙ append_assoc (s.fs.inodes i).content n.b (payload ns)
          ∙ content,
    );
    well = append-IsFs i n.b env.now s.fs w;
    frame = λ q ne. append-Frame sha root p q env.now s.fs w ne i n.b found;
  }

  -- The file is renamed.
  renamed :
      (s : Server) (ts : Bytes)
      → IsFs s.fs
      → Has (temp_path sha root p) (payload (m ∷ ms)) s.fs
      → Moves sha root p m ms s.fs
          (answered ok ts, record s { fs = rename (temp_path sha root p) (fs_path root p) s.fs })
  renamed s ts w h =
      let temp = temp_path sha root p in
      let name = fs_path root p in
      record {
        own = record {
          inode = h.inode;
          found = rename-find temp name name h.inode s.fs h.found ∙ rw (equal_refl name) refl;
          content = ap (λ n. n.content) (inodes-rename temp name h.inode s.fs) ∙ h.content;
        };
        well = rename-IsFs temp name s.fs w;
        frame = λ q ne. rename-Frame sha root p q env.now s.fs w ne h.inode h.found;
      }

  advance_starting :
      (s : Server)
      → IsFs s.fs
      → OnStep (Moves sha root p m ms s.fs) (advance sha root env (starting (m ∷ ms)) s)
  unfolding advance
  advance_starting s w = elim (Bool-cases s.locked) [
    | inl held ↦ rw (advance, held) tt
    | inr free ↦ elim (Bool-cases env.opens) [
      | inr fails ↦
          rw (advance, free, fails)
            (still sha root p m ms s (record s { locked = true }) failed refl w tt)
      | inl opens ↦
          rw (advance, free, opens)
            (subst
              (λ q.
                let (i, fs) = create (temp_path sha root q) env.now s.fs in
                Moves sha root p m ms s.fs
                  (writing m no_content i (m ∷ ms), record { fs = fs; locked = true }))
              (sym named.0) (opened s w))
    ]
  ]

  pub advance-Moves :
      (phase : Phase) (s : Server)
      → IsFs s.fs
      → Good sha root p (m ∷ ms) s.fs phase
      → OnStep (Moves sha root p m ms s.fs) (advance sha root env phase s)
  unfolding advance
  advance-Moves (starting ns) s w h =
      subst (λ l. OnStep (Moves sha root p m ms s.fs) (advance sha root env (starting l) s)) (sym h)
        (advance_starting s w)
  advance-Moves (writing msg last i []) s w (hm, hs, hl, found, content) =
      let whole : (s.fs.inodes i).content ≡ payload (m ∷ ms) =
        sym (append-nil (s.fs.inodes i).content) ∙ (unfold concat in content) in
      still sha root p m ms s (record s { locked = false }) (closed msg last) refl w
        (hl, record { inode = i; found = found; content = whole })
  advance-Moves (writing msg last i (n ∷ ns)) s w h = written s msg last n i ns w h
  advance-Moves (closed msg last) s w h = elim (Bool-cases env.is_cancelled) [
    | inl stop ↦ rw (advance, stop) (still sha root p m ms s s (answered cancelled []) refl w tt)
    | inr goes ↦ rw (advance, goes) (still sha root p m ms s s (stamped last _) refl w h)
  ]
  advance-Moves (stamped last ts) s w (hl, h) =
      rw (advance, moves)
        (subst
          (λ q.
            Moves sha root p m ms s.fs (
              answered ok ts,
              record s { fs = rename (temp_path sha root q) (fs_path root q) s.fs },
            ))
          (sym hl) (renamed s ts w h))
  advance-Moves (answered status ts) s w h = still sha root p m ms s s (answered status ts) refl w h
  advance-Moves failed s w h = still sha root p m ms s s failed refl w h
