-- ===== src/Journal.antt =====
-- What `is_dirty_t` and `last_modified_t` of afs_client.cc share: the three files of a table in
-- the cache directory, the writes to them in order, the reading of a line, and the counter that
-- decides when a snapshot is due. A crash leaves the disk that a prefix of the writes made.
pub mod Always
pub mod Fuel
use distributed_systems_afsv.Base.{
  ℕ, suc, ◌+◌, ◌-◌, ◌%◌, Bool, true, false, Option, none, some, List, [], ◌∷◌, ◌++◌, ◌==◌,
  if◌then◌else◌, Bytes, ℤ, pos, negsuc, negate,
}

-- `<table>_snapshot.txt`, `<table>_log.txt` and `<table>_snapshot.txt.tmp`.
pub record Disk : Type 0 where
  pub snapshot : Option Bytes
  pub log : Option Bytes
  pub tmp : Option Bytes

pub data Effect : Type 0 where
  append_log : Bytes → Effect
  create_tmp : Effect
  append_tmp : Bytes → Effect
  rename_tmp : Effect
  truncate_log : Effect

-- What a loop over the lines of a file comes to: its fuel is used up before the lines are, an
-- assertion fails, or it ends with a table.
pub data Loading {ℓ} (A : Type ℓ) : Type ℓ where
  out_of_fuel : Loading A
  aborted : Loading A
  loaded : A → Loading A

-- The result of a loop that was given enough fuel; `none` is the failed assertion.
unfoldable pub outcome {ℓ} : {A : Type ℓ} → Loading A → Option A
outcome out_of_fuel = none
outcome aborted = none
outcome (loaded t) = some t

-- The loop that ends with this result.
unfoldable pub ended {ℓ} : {A : Type ℓ} → Option A → Loading A
ended none = aborted
ended (some t) = loaded t

-- What a reader finds in a file; a file that is missing is skipped, as an empty one is.
abbrev pub content : Option Bytes → Bytes
content none = []
content (some b) = b

-- `rename` of a file that is missing fails and changes nothing.
abbrev move_tmp : Option Bytes → Disk → Disk
move_tmp none d = d
move_tmp (some b) d = record d { snapshot = some b; tmp = none }

unfoldable pub apply : Effect → Disk → Disk
apply (append_log b) d = record d { log = some (content d.log ++ b) }
apply create_tmp d = record d { tmp = some [] }
apply (append_tmp b) d = record d { tmp = some (content d.tmp ++ b) }
apply rename_tmp d = move_tmp d.tmp d
apply truncate_log d = record d { log = some [] }

unfoldable pub run : List Effect → Disk → Disk
run [] d = d
run (e ∷ es) d = run es (apply e d)

-- What the system answers during one operation: whether the temporary file opens, whether
-- `rename` succeeds (its result is not read), and whether the log opens.
pub record Env : Type 0 where
  pub tmp_opens : Bool
  pub renames : Bool
  pub log_opens : Bool

abbrev pub healthy : Env
healthy = record { tmp_opens = true; renames = true; log_opens = true }

-- `(counter + 1) % snapshot_frequency`, which rounds towards zero; the frequency is 10.
-- The constructors leave `counter` uninitialised, so any value may be there at first; from then on
-- it stays between -9 and 9.
unfoldable pub next_counter : ℤ → ℤ
next_counter (pos n) = pos ((n + 1) % 10)
next_counter (negsuc n) = negate (n % 10)

unfoldable pub is_zero : ℤ → Bool
is_zero (pos n) = n == 0
is_zero (negsuc n) = false

-- `std::getline` on the bytes that are left: the line, and what is left behind its line break.
unfoldable pub getline : Bytes → Bytes × Bytes
getline [] = ([], [])
getline (c ∷ cs) =
    let (line, rest) = getline cs in if c == b'\n' then ([], cs) else (c ∷ line, rest)
