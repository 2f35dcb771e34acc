-- ===== src/Server/Apart/Runs.antt =====
-- Any run of calls of `Write` for different files.
use distributed_systems_afsv.Base.{
  ℕ, ◌<◌, All, ◌≡◌, ◌≢◌, refl, sym, ap, ◌∙◌, Bool-cases, Option-cases, inl, inr, true, false, some,
  List, [], ◌∷◌, arith, Bytes, ◌==◌,
}
use mathlib.Core.Path.{subst}
use distributed_systems_afsv.Hash.{Sha256}
use distributed_systems_afsv.Posix.{read_file}
use distributed_systems_afsv.Posix.Laws.{IsFs, read_file_found}
use distributed_systems_afsv.Proto.{FilepathContent, ok}
use distributed_systems_afsv.Server.{Server, WriteEnv, fs_path, temp_path}
use distributed_systems_afsv.Server.Apart.{Has, Good, Frame-Good}
use distributed_systems_afsv.Server.Apart.Steps.{OnStep, Moves, advance-Moves}
use distributed_systems_afsv.Server.Temporary.{payload, AllFor}
use distributed_systems_afsv.Server.Threads.{
  Phase, starting, answered, advance, Running, step, schedule, moved,
}

module _ (sha : Sha256) (root : Bytes) (envs : ℕ → WriteEnv) (paths : ℕ → Bytes)
    (first : ℕ → FilepathContent) (more : ℕ → List FilepathContent)
    (named : (k : ℕ) → AllFor (paths k) (first k ∷ more k)) (calls : ℕ)
    (apart : (a b : ℕ)
      → a < calls
      → b < calls
      → a ≢ b
      → temp_path sha root (paths a) ≢ temp_path sha root (paths b))
    (moves : (k : ℕ) → k < calls → (envs k).renames ≡ true) where
  record IsApart (y : Running) : Type 0 where
    well : IsFs y.server.fs
    good : (k : ℕ) → k < calls → Good sha root (paths k) (first k ∷ more k) y.server.fs (y.calls k)

  same_call : (n k : ℕ) → (n == k) ≡ true → n ≡ k
  same_call n k h = ground (arith, h)

  other_call : (n k : ℕ) → (n == k) ≡ false → n ≢ k
  other_call n k h e = ground (arith, h, e)

  moved-IsApart :
      (n : ℕ) (q : Phase) (t : Server) (y : Running)
      → n < calls
      → IsApart y
      → Moves sha root (paths n) (first n) (more n) y.server.fs (q, t)
      → IsApart (moved n q t y)
  moved-IsApart n q t y hn h r = record {
    well = r.well;
    good = λ k hk. elim (Bool-cases (n == k)) [
      | inl same ↦ rw same (
          subst (λ j. Good sha root (paths j) (first j ∷ more j) t.fs q) (same_call n k same) r.own)
      | inr other ↦ rw other (
          Frame-Good sha root (paths k) (first k ∷ more k) y.server.fs t.fs (y.calls k)
            (r.frame (paths k) (apart n k hn hk (other_call n k other))) (h.good k hk))
    ];
  }

  step-IsApart : (n : ℕ) (y : Running) → n < calls → IsApart y → IsApart (step sha root envs n y)
  unfolding step
  step-IsApart n y hn h = elim (Option-cases (advance sha root (envs n) (y.calls n) y.server)) [
    | inl waits ↦ rw (step, waits) h
    | inr ((q, t), went) ↦
        rw (step, went)
          (moved-IsApart n q t y hn h (
            subst (OnStep (Moves sha root (paths n) (first n) (more n) y.server.fs)) went (
              advance-Moves sha root (envs n) (moves n hn) (paths n) (first n) (more n) (named n)
                (y.calls n) y.server h.well (h.good n hn))))
  ]

  schedule-IsApart :
      (ns : List ℕ) (y : Running)
      → All (λ n. n < calls) ns
      → IsApart y
      → IsApart (schedule sha root envs ns y)
  unfolding schedule
  schedule-IsApart [] y hns h = h
  schedule-IsApart (n ∷ ns) y hns h =
      schedule-IsApart ns (step sha root envs n y) hns.1 (step-IsApart n y hns.0 h)

  -- Calls of `Write` for different files do not disturb each other: whatever turns the scheduler
  -- lets them take, the file of a call that has answered OK has the bytes of all its messages at
  -- the end of the run, although `rename` is called without the mutex. There are `calls` calls,
  -- each about to start, with one message or more that all name its file and a `rename` that
  -- succeeds; the temporary files of any two of them have different names, the file system is
  -- well-formed, and only these calls take turns.
  pub schedule_apart :
      (ns : List ℕ) (y : Running) (k : ℕ) (ts : Bytes)
      → All (λ n. n < calls) ns
      → k < calls
      → IsFs y.server.fs
      → ((j : ℕ) → j < calls → y.calls j ≡ starting (first j ∷ more j))
      → (schedule sha root envs ns y).calls k ≡ answered ok ts
      → read_file (fs_path root (paths k)) (schedule sha root envs ns y).server.fs
        ≡ some (payload (first k ∷ more k))
  schedule_apart ns y k ts hns hk w starts done =
      let z = schedule sha root envs ns y in
      let end = schedule-IsApart ns y hns (record {
        well = w;
        good = λ j hj.
            subst (Good sha root (paths j) (first j ∷ more j) y.server.fs) (sym (starts j hj)) refl;
      }) in
      let has : Has (fs_path root (paths k)) (payload (first k ∷ more k)) z.server.fs =
        subst (Good sha root (paths k) (first k ∷ more k) z.server.fs) done (end.good k hk) in
      read_file_found (fs_path root (paths k)) has.inode z.server.fs has.found ∙ ap some has.content
