-- ===== src/Examples/Calls.antt =====
-- Calls of `Write` in steps, at concrete inputs.
use distributed_systems_afsv.Base.{ℕ, ◌≡◌, ◌≢◌, refl, some, [], ◌∷◌, arith, ◌==◌, if◌then◌else◌}
use distributed_systems_afsv.Posix.{read_file}
use distributed_systems_afsv.Proto.{ok}
use distributed_systems_afsv.Server.{WriteEnv, fs_path}
use distributed_systems_afsv.Server.Race.{rename_race}
use distributed_systems_afsv.Server.Threads.{
  starting, stamped, answered, Running, IsExclusive, holds_lock, schedule, schedule-IsExclusive,
}
use distributed_systems_afsv.Examples.{
  sample_sha, path_a, noon, server_root, sample_server, write_env, upload_of,
}

abbrev envs : ℕ → WriteEnv
envs n = write_env

-- Every call is about to start, for one file.
abbrev all_start : Running
all_start = record { calls = λ n. starting (upload_of path_a ∷ []); server = sample_server }

all_start-IsExclusive : IsExclusive all_start
unfolding holds_lock
all_start-IsExclusive = record { locked = λ n h. cc; one = λ m n h k. cc }

schedule-IsExclusive_example :
    IsExclusive (schedule sample_sha server_root envs (0 ∷ 1 ∷ 0 ∷ 0 ∷ 1 ∷ 0 ∷ []) all_start)
schedule-IsExclusive_example =
    schedule-IsExclusive sample_sha server_root envs (0 ∷ 1 ∷ 0 ∷ 0 ∷ 1 ∷ 0 ∷ []) all_start
      all_start-IsExclusive

-- The first call has closed its temporary file, the others are about to start.
abbrev one_closed : Running
one_closed = record {
  calls = λ n. if n == 0 then stamped (upload_of path_a) noon else starting (upload_of path_a ∷ []);
  server = sample_server;
}

zero-ne-one : ◌≢◌ {A = ℕ} 0 1
zero-ne-one h = omega (arith, h)

rename_race_example :
    let z = schedule sample_sha server_root envs (1 ∷ 0 ∷ []) one_closed in
    (z.calls 0 ≡ answered ok noon) × (read_file (fs_path server_root path_a) z.server.fs ≡ some [])
rename_race_example =
    rename_race sample_sha server_root envs 0 1 (upload_of path_a) (upload_of path_a) [] noon
      one_closed zero-ne-one refl refl refl refl refl refl
