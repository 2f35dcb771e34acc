-- ===== src/Dirty.antt =====
-- `is_dirty_t` of afs_client.cc: which cached files hold writes that the server has not seen.
-- An operation maps the table in memory to the new one and the writes that it made, in order.
pub mod Replay
pub mod Load
pub mod Files
pub mod Recovery
pub mod Restart
pub mod Session
pub mod Crash
pub mod Lost
pub mod Cadence
use distributed_systems_afsv.Base.{
  ℤ, ℕ, zero, suc, ◌+◌, ◌≡◌, Bool, true, false, not, ◌&&◌, Option, none, some, List, [], ◌∷◌, ◌++◌,
  map, ◌==◌, if◌then◌else◌, Bytes, length, take,
}
use distributed_systems_afsv.Base.Dict
use distributed_systems_afsv.Base.Dict.{Dict}
use distributed_systems_afsv.Hash.{Sha256, hash_path}
use distributed_systems_afsv.Journal.{
  Loading, out_of_fuel, aborted, loaded, outcome, Disk, Effect, append_log, create_tmp, append_tmp,
  rename_tmp, truncate_log, Env, next_counter, is_zero, getline, run,
}

-- The fields of the class; `cache_root` only names the files.
pub record IsDirty : Type 0 where
  pub table : Dict Bool
  pub log_is_open : Bool
  pub counter : ℤ

abbrev pub digit : Bool → ℕ
digit state = if state then b'1' else b'0'

-- A line of the log or the snapshot, and the line that `erase` logs.
unfoldable pub set_line : Bytes → Bool → Bytes
set_line k state = k ++ (b' ' ∷ digit state ∷ b'\n' ∷ [])

unfoldable pub erase_line : Bytes → Bytes
erase_line k = k ++ (b' ' ∷ b'2' ∷ b'\n' ∷ [])

-- `buf.back()` of a line that is not empty.
unfoldable pub back : Bytes → ℕ
back [] = 0
back (c ∷ []) = c
back (c ∷ d ∷ r) = back (d ∷ r)

-- The body of the constructor's loop, on one line; `none` is the failed assertion.
unfoldable pub load_line : Bytes → Dict Bool → Option (Dict Bool)
load_line buf t =
    if not (length buf == 66)
    then none
    else if back buf == b'2'
    then some (Dict.erase (take 64 buf) t)
    else if back buf == b'1'
    then some (Dict.insert (take 64 buf) true t)
    else if back buf == b'0'
    then some (Dict.insert (take 64 buf) false t)
    else some t

-- The loop of the constructor over one file, on fuel.
unfoldable pub load_loop : ℕ → Bytes → Dict Bool → Loading (Dict Bool)
load_loop zero rest t = out_of_fuel
load_loop (suc f) [] t = loaded t
load_loop (suc f) (c ∷ cs) t =
    let (buf, rest) = getline (c ∷ cs) in
    elim (load_line buf t) [ none ↦ aborted | some u ↦ load_loop f rest u ]

-- A file that does not open is skipped. Each round reads a byte or more, so the fuel suffices.
unfoldable pub load_file : Option Bytes → Dict Bool → Option (Dict Bool)
load_file none t = some t
load_file (some b) t = outcome (load_loop (suc (length b)) b t)

unfoldable pub load : Disk → Option (Dict Bool)
load d = elim (load_file d.snapshot []) [ none ↦ none | some t ↦ load_file d.log t ]

-- The constructor: `counter` is what the memory held, and opening the log creates it.
unfoldable pub start : Env → ℤ → Disk → Option (IsDirty × List Effect)
start env counter d = elim (load d) [
  | none ↦ none
  | some t ↦ some (
    record { table = t; log_is_open = env.log_opens; counter = counter },
    if env.log_opens then append_log [] ∷ [] else [],
  )
]

-- A process that starts on the files of the one before.
unfoldable pub boot : Env → ℤ → Disk → Option (IsDirty × Disk)
unfolding start
boot env counter d = elim (start env counter d) [
  | none ↦ none
  | some (m, writes) ↦ some (m, run writes d)
]

-- A call that returns has made all its writes.
abbrev pub commit : IsDirty × List Effect → Disk → IsDirty × Disk
commit r d = (r.0, run r.1 d)

-- The loop over the table in `do_snapshot`, a flush for each entry.
unfoldable pub write_entries : Dict Bool → List Effect
write_entries [] = []
write_entries ((k, state) ∷ t) = append_tmp (set_line k state) ∷ write_entries t

unfoldable pub do_snapshot : Env → IsDirty → IsDirty × List Effect
do_snapshot env m =
    if env.tmp_opens
    then (
      record m { log_is_open = env.log_opens },
      create_tmp
          ∷ (write_entries m.table
              ++ ((if env.renames then rename_tmp ∷ [] else [])
                  ++ (if env.log_opens then truncate_log ∷ [] else []))),
    )
    else (m, [])

-- `log << line << std::endl`, which writes nothing if the stream is not open.
unfoldable pub log_line : IsDirty → Bytes → List Effect
log_line m b = if m.log_is_open then append_log b ∷ [] else []

-- `get` on the hashed name.
unfoldable pub get_key : Bytes → IsDirty → Bool
get_key k m = elim (Dict.lookup k m.table) [ none ↦ false | some state ↦ state ]

-- `table.count(k) && table[k] == state`
unfoldable pub is_set : Bytes → Bool → IsDirty → Bool
is_set k state m = elim (Dict.lookup k m.table) [
  | none ↦ false
  | some old ↦ (if old then state else not state)
]

-- `set` on the hashed name.
unfoldable pub set_key : Env → Bytes → Bool → IsDirty → IsDirty × List Effect
set_key env k state m =
    let n : IsDirty = record m {
      table = Dict.insert k state m.table;
      counter = next_counter m.counter;
    } in
    let (n', snapshot) = do_snapshot env n in
    if is_set k state m
    then (m, [])
    else if is_zero (next_counter m.counter)
    then (n', log_line m (set_line k state) ++ snapshot)
    else (n, log_line m (set_line k state))

-- `erase` on the hashed name; it neither counts nor makes a snapshot.
unfoldable pub erase_key : Bytes → IsDirty → IsDirty × List Effect
erase_key k m =
    if Dict.count k m.table
    then (record m { table = Dict.erase k m.table }, log_line m (erase_line k))
    else (m, [])

module _ (sha : Sha256) where
  unfoldable pub get : Bytes → IsDirty → Bool
  unfolding get_key
  get filename = get_key (hash_path sha filename)

  unfoldable pub set : Env → Bytes → Bool → IsDirty → IsDirty × List Effect
  unfolding set_key is_set log_line do_snapshot
  set env filename state = set_key env (hash_path sha filename) state

  unfoldable pub erase : Bytes → IsDirty → IsDirty × List Effect
  unfolding erase_key log_line
  erase filename = erase_key (hash_path sha filename)
