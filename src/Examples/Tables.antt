-- ===== src/Examples/Tables.antt =====
-- The loaders of the two tables at concrete inputs.
use distributed_systems_afsv.Base.{◌<◌, ◌≡◌, some, [], ◌∷◌, ◌++◌, arith, Bytes, length, replicate}
use distributed_systems_afsv.Journal.{ended}
use distributed_systems_afsv.Dirty
use distributed_systems_afsv.Modified
use distributed_systems_afsv.Modified.{timespec_size}
use distributed_systems_afsv.Start.Loading.{load_file-fuel}
use distributed_systems_afsv.Examples.{noon}

-- A line of the log of `is_dirty_t`, and an entry of the log of `last_modified_t`.
abbrev dirty_line : Bytes
dirty_line = replicate 64 97 ++ (b' ' ∷ b'1' ∷ b'\n' ∷ [])

abbrev modified_entry : Bytes
modified_entry = replicate 64 97 ++ (b'\n' ∷ (noon ++ (b'\n' ∷ [])))

short : (length dirty_line < 100) × (length modified_entry < 100)
short = (omega arith, omega arith)

load_file-fuel_example :
    (Dirty.load_loop 100 dirty_line [] ≡ ended (Dirty.load_file (some dirty_line) []))
    × (Modified.load_loop 100 modified_entry (replicate timespec_size 0) []
        ≡ ended (Modified.load_file (some modified_entry) []))
load_file-fuel_example = load_file-fuel 100 dirty_line modified_entry [] [] short.0 short.1
