-- ===== src/Server/Threads.antt =====
-- `Write` in the steps between which gRPC's threads may switch: the mutex is held from the opening
-- of the temporary file to its closing, and not at `stat` and `rename`.
use distributed_systems_afsv.Base.{
  ℕ, ◌≡◌, refl, Bool, true, false, Option, none, some, List, [], ◌∷◌, arith, ◌==◌, if◌then◌else◌,
  Bytes, Option-cases, inl, inr, Bool-cases,
}
use distributed_systems_afsv.Hash.{Sha256}
use distributed_systems_afsv.Posix.{create, append, rename, mtime_of}
use distributed_systems_afsv.Proto.{FilepathContent, Status, ok, cancelled, no_content}
use distributed_systems_afsv.Server.{
  Server, WriteEnv, first_msg, last_msg, or_uninitialised, fs_path, temp_path,
}

-- Where a call of `Write` stands. `first` is the message that named the temporary file, `last` the
-- last one that was read, `i` the file that is open.
pub data Phase : Type 0 where
  starting : List FilepathContent → Phase
  writing : FilepathContent → FilepathContent → ℕ → List FilepathContent → Phase
  closed : FilepathContent → FilepathContent → Phase
  stamped : FilepathContent → Bytes → Phase
  answered : Status → Bytes → Phase
  failed : Phase

module _ (sha : Sha256) (root : Bytes) (env : WriteEnv) where
  -- One step of a call; `none` where it waits for the mutex. A call that could not open its file
  -- has answered, and holds the mutex.
  unfoldable pub advance : Phase → Server → Option (Phase × Server)
  advance (starting msgs) s =
      let msg = first_msg msgs in
      let (i, fs) = create (temp_path sha root msg.filepath) env.now s.fs in
      if s.locked
      then none
      else if env.opens
      then some (writing msg (last_msg no_content []) i msgs, record { fs = fs; locked = true })
      else some (failed, record s { locked = true })
  advance (writing msg last i []) s = some (closed msg last, record s { locked = false })
  advance (writing msg last i (m ∷ ms)) s =
      some (writing msg m i ms, record s { fs = append i m.b env.now s.fs })
  advance (closed msg last) s =
      if env.is_cancelled
      then some (answered cancelled [], s)
      else some (
        stamped last
            (or_uninitialised (mtime_of (temp_path sha root msg.filepath) s.fs) env.uninitialised),
        s,
      )
  advance (stamped last ts) s = some (
    answered ok ts,
    record s {
      fs =
          if env.renames
          then rename (temp_path sha root last.filepath) (fs_path root last.filepath) s.fs
          else s.fs;
    },
  )
  advance (answered status ts) s = some (answered status ts, s)
  advance failed s = some (failed, s)

-- The calls of the server, each with its number, and what they share.
pub record Running : Type 0 where
  pub calls : ℕ → Phase
  pub server : Server

-- A call between the lock and the unlock of the mutex, or one that left it locked.
unfoldable pub holds_lock : Phase → Bool
holds_lock (writing msg last i ms) = true
holds_lock failed = true
holds_lock _ = false

module _ (sha : Sha256) (root : Bytes) (envs : ℕ → WriteEnv) where
  -- The scheduler lets call `n` make a step; a call that waits makes none.
  unfoldable pub step : ℕ → Running → Running
  step n y = elim (advance sha root (envs n) (y.calls n) y.server) [
    | none ↦ y
    | some (phase, server) ↦ record {
      calls = λ k. if n == k then phase else y.calls k;
      server = server;
    }
  ]

  unfoldable pub schedule : List ℕ → Running → Running
  schedule [] y = y
  schedule (n ∷ ns) y = schedule ns (step n y)

-- At most one call holds the mutex, and the mutex is locked while one does.
pub record IsExclusive (y : Running) : Type 0 where
  pub locked : (n : ℕ) → holds_lock (y.calls n) ≡ true → y.server.locked ≡ true
  pub one : (m n : ℕ) → holds_lock (y.calls m) ≡ true → holds_lock (y.calls n) ≡ true → m ≡ n

-- What a step does to the mutex: it takes it where it is free, it leaves it alone, or it gives it
-- up.
data Locking (p q : Phase) (s t : Server) : Type 0 where
  takes : holds_lock p ≡ false → s.locked ≡ false → t.locked ≡ true → Locking p q s t
  keeps : holds_lock q ≡ holds_lock p → t.locked ≡ s.locked → Locking p q s t
  gives : holds_lock p ≡ true → holds_lock q ≡ false → Locking p q s t

module _ (sha : Sha256) (root : Bytes) where
  advance-Locking :
      (env : WriteEnv) (p q : Phase) (s t : Server)
      → advance sha root env p s ≡ some (q, t)
      → Locking p q s t
  unfolding advance holds_lock
  advance-Locking env (starting msgs) q s t h = elim (Bool-cases s.locked) [
    | inl held ↦ absurd (ground (arith, held))
    | inr free ↦ takes refl free (ground (arith, free))
  ]
  advance-Locking env (writing msg last i []) q s t h = gives refl (ground arith)
  advance-Locking env (writing msg last i (m ∷ ms)) q s t h = keeps (ground arith) (ground arith)
  advance-Locking env (closed msg last) q s t h = keeps (ground arith) (ground arith)
  advance-Locking env (stamped last ts) q s t h = keeps (ground arith) (ground arith)
  advance-Locking env (answered status ts) q s t h = keeps (ground arith) (ground arith)
  advance-Locking env failed q s t h = keeps (ground arith) (ground arith)

-- The state behind a step of call `n`.
abbrev pub moved : ℕ → Phase → Server → Running → Running
moved n q t y = record { calls = λ k. if n == k then q else y.calls k; server = t }

module _ (n : ℕ) (q : Phase) (t : Server) (y : Running) (h : IsExclusive y) where
  moved-takes : y.server.locked ≡ false → t.locked ≡ true → IsExclusive (moved n q t y)
  moved-takes free locked = record {
    locked = λ k hk. locked;
    one = λ a b ha hb. ground (arith, h.locked a, h.locked b, free);
  }

  moved-keeps :
      holds_lock q ≡ holds_lock (y.calls n)
      → t.locked ≡ y.server.locked
      → IsExclusive (moved n q t y)
  moved-keeps same lock = record {
    locked = λ k hk. ground (arith, h.locked k, h.locked n, same, lock);
    one = λ a b ha hb. ground (arith, h.one a b, h.one n b, h.one a n, same);
  }

  moved-gives : holds_lock (y.calls n) ≡ true → holds_lock q ≡ false → IsExclusive (moved n q t y)
  moved-gives held out = record {
    locked = λ k hk. ground (arith, h.one n k, held, out);
    one = λ a b ha hb. ground (arith, h.one a b, out);
  }

module _ (sha : Sha256) (root : Bytes) (envs : ℕ → WriteEnv) where
  step-IsExclusive : (n : ℕ) (y : Running) → IsExclusive y → IsExclusive (step sha root envs n y)
  unfolding step
  step-IsExclusive n y h = elim (Option-cases (advance sha root (envs n) (y.calls n) y.server)) [
    | inl waits ↦ rw (step, waits) h
    | inr ((q, t), went) ↦
        rw (step, went)
          (elim (advance-Locking sha root (envs n) (y.calls n) q y.server t went) [
            | takes out free locked ↦ moved-takes n q t y h free locked
            | keeps same lock ↦ moved-keeps n q t y h same lock
            | gives held out ↦ moved-gives n q t y h held out
          ])
  ]

  -- Whatever steps the scheduler lets the calls of `Write` make, at most one call at a time is
  -- between the lock and the unlock of the mutex, or has left it locked, and the mutex is locked
  -- while one is. It was so before.
  pub schedule-IsExclusive :
      (ns : List ℕ) (y : Running) → IsExclusive y → IsExclusive (schedule sha root envs ns y)
  unfolding schedule
  schedule-IsExclusive [] y h = h
  schedule-IsExclusive (n ∷ ns) y h =
      schedule-IsExclusive ns (step sha root envs n y) (step-IsExclusive n y h)
