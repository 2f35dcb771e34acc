-- ===== src/Examples/Apart.antt =====
-- Calls of `Write` for two files that take turns, at concrete inputs.
use distributed_systems_afsv.Base.{
  ℕ, zero, suc, ◌<◌, ◌≡◌, ◌≢◌, refl, sym, ap, some, List, [], ◌∷◌, Bytes, arith, equal,
}
use distributed_systems_afsv.Base.Dict
use distributed_systems_afsv.Hash.{hash_file_path, hash_path, hex_string, hex_digit, c_str}
use distributed_systems_afsv.Posix.{read_file, create, append, rename, mtime_of}
use distributed_systems_afsv.Proto.{FilepathContent, ok}
use distributed_systems_afsv.Server.{WriteEnv, fs_path, temp_path}
use distributed_systems_afsv.Server.Apart.Runs.{schedule_apart}
use distributed_systems_afsv.Server.Temporary.{payload}
use distributed_systems_afsv.Server.Threads.{starting, answered, Running, schedule, step, advance}
use distributed_systems_afsv.Examples.{
  checksum, sample_sha, path_a, path_b, one_o_clock, server_root, sample_server, write_env,
  upload_of,
}
use distributed_systems_afsv.Examples.Remote.{one_file-IsFs}

abbrev envs : ℕ → WriteEnv
envs n = write_env

-- Call 0 is for one file, the others are for another.
abbrev paths : ℕ → Bytes
paths zero = path_a
paths (suc n) = path_b

abbrev first : ℕ → FilepathContent
first n = upload_of (paths n)

abbrev more : ℕ → List FilepathContent
more n = []

abbrev two_start : Running
two_start = record { calls = λ n. starting (first n ∷ more n); server = sample_server }

-- Call 1 waits for the mutex at first, and takes it before call 0 renames its file.
abbrev turns : List ℕ
turns = 0 ∷ 1 ∷ 0 ∷ 0 ∷ 1 ∷ 0 ∷ 1 ∷ 1 ∷ 0 ∷ 1 ∷ 1 ∷ []

temp_a-ne-temp_b : temp_path sample_sha server_root path_a ≢ temp_path sample_sha server_root path_b
unfolding temp_path hash_file_path hash_path hex_string c_str hex_digit
temp_a-ne-temp_b h = omega (arith, ap checksum h)

two_apart :
    (a b : ℕ)
    → a < 2
    → b < 2
    → a ≢ b
    → temp_path sample_sha server_root (paths a) ≢ temp_path sample_sha server_root (paths b)
two_apart zero zero ha hb ne = absurd (ne refl)
two_apart zero (suc b) ha hb ne = temp_a-ne-temp_b
two_apart (suc a) zero ha hb ne = λ e. temp_a-ne-temp_b (sym e)
two_apart (suc a) (suc b) ha hb ne = absurd (omega (arith, ha, hb, ne))

zero_answers :
    (schedule sample_sha server_root envs turns two_start).calls 0 ≡ answered ok one_o_clock
unfolding schedule step advance create append rename mtime_of temp_path fs_path hash_file_path
    hash_path hex_string c_str hex_digit Dict.lookup Dict.insert Dict.erase equal
zero_answers = refl

schedule_apart_example :
    read_file
      (fs_path server_root path_a)
      (schedule sample_sha server_root envs turns two_start).server.fs
    ≡ some (payload (upload_of path_a ∷ []))
schedule_apart_example =
    schedule_apart sample_sha server_root envs paths first more (λ k. (refl, tt)) 2 two_apart
      (λ k hk. refl) turns two_start 0 one_o_clock
      (
        omega arith,
        (
          omega arith,
          (
            omega arith,
            (
              omega arith,
              (
                omega arith,
                (
                  omega arith,
                  (omega arith, (omega arith, (omega arith, (omega arith, (omega arith, tt))))),
                ),
              ),
            ),
          ),
        ),
      )
      (omega arith) (one_file-IsFs _) (λ j h. refl) zero_answers
