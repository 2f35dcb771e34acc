-- ===== src/Modified.antt =====
-- `last_modified_t` of afs_client.cc: the server's `st_mtim` of each cached file, as raw bytes.
-- An operation maps the table in memory to the new one and the writes that it made, in order.
pub mod Replay
pub mod Load
pub mod Recovery
pub mod Calls
pub mod Restart
pub mod Session
pub mod Torn
pub mod Marker
pub mod Marks
pub mod Crash
pub mod Broken
pub mod LocalFile
use distributed_systems_afsv.Base.{
  ℤ, ℕ, zero, suc, ◌≡◌, Bool, true, false, not, ◌&&◌, Option, none, some, List, [], ◌∷◌, ◌++◌, ◌==◌,
  if◌then◌else◌, Bytes, codes, equal, length, take, drop, replicate,
}
use distributed_systems_afsv.Base.Dict
use distributed_systems_afsv.Base.Dict.{Dict}
use distributed_systems_afsv.Hash.{Sha256, hash_path}
use distributed_systems_afsv.Journal.{
  Loading, out_of_fuel, aborted, loaded, outcome, Disk, Effect, append_log, create_tmp, append_tmp,
  rename_tmp, truncate_log, Env, next_counter, is_zero, getline, run,
}

-- The fields of the class; `cache_root` only names the files.
pub record LastModified : Type 0 where
  pub table : Dict Bytes
  pub log_is_open : Bool
  pub counter : ℤ

-- `sizeof(struct timespec)`
abbrev pub timespec_size : ℕ
timespec_size = 16

-- The timestamp that stands for an erased entry, sixteen bytes 0xFF.
abbrev pub erased : Bytes
erased = replicate timespec_size 255

-- `LOCAL_CREAT_FILE`
abbrev pub local_creat_file : Bytes
local_creat_file = codes "locally_generated_file"

abbrev pub not_found : Bytes
not_found = codes "not found"

-- `<< std::endl` ends a line and flushes it, so an entry reaches a file in two writes.
unfoldable pub text_line : Bytes → Bytes
text_line b = b ++ b'\n' ∷ []

-- What the loop does with the name and the timestamp that it read; `none` is the failed assertion.
unfoldable pub load_entry : Bytes → Bytes → Dict Bytes → Option (Dict Bytes)
load_entry fn ts t =
    if equal ts erased && Dict.count fn t
    then some (Dict.erase fn t)
    else if not (length ts == timespec_size)
    then none
    else some (Dict.insert fn ts t)

-- `is.read(&ts[0], 16)`: the bytes that are there overwrite the front of `ts`.
unfoldable pub read_into : Bytes → Bytes → Bytes
read_into ts rest = take timespec_size rest ++ drop (length (take timespec_size rest)) ts

-- The loop of the constructor over one file, on fuel: a line, sixteen bytes, one byte more. `ts`
-- keeps its bytes from round to round.
unfoldable pub load_loop : ℕ → Bytes → Bytes → Dict Bytes → Loading (Dict Bytes)
load_loop zero rest ts t = out_of_fuel
load_loop (suc f) [] ts t = loaded t
load_loop (suc f) (c ∷ cs) ts t =
    let (fn, rest) = getline (c ∷ cs) in
    elim (length fn == 64) [
      | false ↦ aborted
      | true ↦ elim (load_entry fn (read_into ts rest) t) [
        | none ↦ aborted
        | some u ↦ load_loop f (drop (suc timespec_size) rest) (read_into ts rest) u
      ]
    ]

-- A file that does not open is skipped. Each round reads a byte or more, so the fuel suffices.
unfoldable pub load_file : Option Bytes → Dict Bytes → Option (Dict Bytes)
load_file none t = some t
load_file (some b) t = outcome (load_loop (suc (length b)) b (replicate timespec_size 0) t)

unfoldable pub load : Disk → Option (Dict Bytes)
load d = elim (load_file d.snapshot []) [ none ↦ none | some t ↦ load_file d.log t ]

-- The constructor: `counter` is what the memory held, and opening the log creates it.
unfoldable pub start : Env → ℤ → Disk → Option (LastModified × List Effect)
start env counter d = elim (load d) [
  | none ↦ none
  | some t ↦ some (
    record { table = t; log_is_open = env.log_opens; counter = counter },
    if env.log_opens then append_log [] ∷ [] else [],
  )
]

-- A process that starts on the files of the one before.
unfoldable pub boot : Env → ℤ → Disk → Option (LastModified × Disk)
unfolding start
boot env counter d = elim (start env counter d) [
  | none ↦ none
  | some (m, writes) ↦ some (m, run writes d)
]

-- A call that returns has made all its writes.
abbrev pub commit : LastModified × List Effect → Disk → LastModified × Disk
commit r d = (r.0, run r.1 d)

-- The loop over the table in `do_snapshot`, two flushes for each entry.
unfoldable pub write_entries : Dict Bytes → List Effect
write_entries [] = []
write_entries ((k, state) ∷ t) =
    append_tmp (text_line k) ∷ append_tmp (text_line state) ∷ write_entries t

unfoldable pub do_snapshot : Env → LastModified → LastModified × List Effect
do_snapshot env m =
    if env.tmp_opens
    then (
      record m { log_is_open = env.log_opens },
      create_tmp
          ∷ (write_entries m.table
              ++ ((if env.renames then rename_tmp ∷ [] else [])
                  ++ (if env.log_opens then truncate_log ∷ [] else []))),
    )
    else (m, [])

-- `log << k << std::endl << state << std::endl`
unfoldable pub log_entry : LastModified → Bytes → Bytes → List Effect
log_entry m k state =
    if m.log_is_open then append_log (text_line k) ∷ append_log (text_line state) ∷ [] else []

-- `get` on the hashed name.
unfoldable pub get_key : Bytes → LastModified → Bytes
get_key k m = elim (Dict.lookup k m.table) [ none ↦ not_found | some state ↦ state ]

-- `table.count(k) && table[k] == state`
unfoldable pub is_set : Bytes → Bytes → LastModified → Bool
is_set k state m = elim (Dict.lookup k m.table) [ none ↦ false | some old ↦ equal old state ]

-- `set` on the hashed name.
unfoldable pub set_key : Env → Bytes → Bytes → LastModified → LastModified × List Effect
set_key env k state m =
    let n : LastModified = record m {
      table = Dict.insert k state m.table;
      counter = next_counter m.counter;
    } in
    let (n', snapshot) = do_snapshot env n in
    if is_set k state m
    then (m, [])
    else if is_zero (next_counter m.counter)
    then (n', log_entry m k state ++ snapshot)
    else (n, log_entry m k state)

-- `erase` on the hashed name; it neither counts nor makes a snapshot.
unfoldable pub erase_key : Bytes → LastModified → LastModified × List Effect
erase_key k m =
    if Dict.count k m.table
    then (record m { table = Dict.erase k m.table }, log_entry m k erased)
    else (m, [])

module _ (sha : Sha256) where
  unfoldable pub get : Bytes → LastModified → Bytes
  unfolding get_key
  get filename = get_key (hash_path sha filename)

  unfoldable pub set : Env → Bytes → Bytes → LastModified → LastModified × List Effect
  unfolding set_key is_set log_entry do_snapshot
  set env filename state = set_key env (hash_path sha filename) state

  unfoldable pub erase : Bytes → LastModified → LastModified × List Effect
  unfolding erase_key log_entry
  erase filename = erase_key (hash_path sha filename)

  unfoldable pub count : Bytes → LastModified → Bool
  count filename m = Dict.count (hash_path sha filename) m.table
