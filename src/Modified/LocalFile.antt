-- ===== src/Modified/LocalFile.antt =====
-- `LOCAL_CREAT_FILE` in the log: the entry of a locally created file is longer than the loader
-- reads, and the constructor that meets it fails its assertion.
use distributed_systems_afsv.Base.{
  ℤ, ℕ, suc, ◌-◌, ◌≤◌, ◌≡◌, ◌≢◌, refl, ap, ◌∙◌, false, none, some, [], ◌∷◌, ◌++◌, append_assoc,
  arith, Bytes, codes, equal, length, drop, replicate, length-append,
}
use distributed_systems_afsv.Base.Dict
use distributed_systems_afsv.Base.Dict.{Dict}
use distributed_systems_afsv.Hash.{Sha256, hash_path}
use distributed_systems_afsv.Hash.Keys.{IsKey, hash_path-IsKey}
use distributed_systems_afsv.Journal.{
  aborted, outcome, Disk, append_log, Env, apply, run, getline, next_counter, is_zero,
}
use distributed_systems_afsv.Journal.Always.{getline-line}
use distributed_systems_afsv.Modified.{
  LastModified, text_line, load_entry, read_into, load_loop, load, boot, timespec_size,
  local_creat_file, is_set, set_key, set,
}
use distributed_systems_afsv.Modified.Replay.{last_stamp, replay}
use distributed_systems_afsv.Modified.Load.{load_loop_round, drop-all}
use distributed_systems_afsv.Modified.Recovery.{Holds}
use distributed_systems_afsv.Modified.Calls.{IsDurable}
use distributed_systems_afsv.Modified.Torn.{
  load-append, set_key-plain, length-last_stamp, line-ne-nil,
}

-- A round whose name does not have 64 bytes ends the program.
pub load_loop_abort :
    (f : ℕ) (b ts : Bytes) (t : Dict Bytes) (fn rest : Bytes)
    → b ≢ []
    → getline b ≡ (fn, rest)
    → (length fn ≡ 64 → ⊥)
    → load_loop (suc f) b ts t ≡ aborted
unfolding load_loop
load_loop_abort f [] ts t fn rest ne g n = absurd (ne refl)
load_loop_abort f (c ∷ cs) ts t fn rest ne g n = ground (arith, g, n)

-- The mark and what comes behind it: sixteen bytes are read as the timestamp, one is skipped, and
-- five are left for the next name.
local_read :
    (ts rest : Bytes)
    → length ts ≡ timespec_size
    → read_into ts (text_line local_creat_file ++ rest) ≡ codes "locally_generate"
unfolding read_into text_line
local_read ts rest h = ap (λ r. codes "locally_generate" ++ r) (drop-all timespec_size ts h)

local_left :
    (rest : Bytes)
    → drop (suc timespec_size) (text_line local_creat_file ++ rest)
      ≡ codes "_file" ++ (b'\n' ∷ rest)
unfolding text_line
local_left rest = refl

local_entry :
    (k : Bytes) (t : Dict Bytes)
    → load_entry k (codes "locally_generate") t ≡ some (Dict.insert k (codes "locally_generate") t)
unfolding load_entry equal
local_entry k t = refl

load_loop-local :
    (f : ℕ) (k rest ts : Bytes) (t : Dict Bytes)
    → IsKey k
    → length ts ≡ timespec_size
    → load_loop (suc (suc f)) (k ++ (b'\n' ∷ (text_line local_creat_file ++ rest))) ts t ≡ aborted
load_loop-local f k rest ts t hk ht =
    let behind = text_line local_creat_file ++ rest in
    let read : read_into ts behind ≡ codes "locally_generate" = local_read ts rest ht in
    let entry : load_entry k (read_into ts behind) t
        ≡ some (Dict.insert k (codes "locally_generate") t) =
      rw read (local_entry k t) in
    load_loop_round (suc f) (k ++ (b'\n' ∷ behind)) ts t k behind (line-ne-nil k behind)
      (getline-line k behind hk.one_line) hk.size entry
    ∙ rw local_left (
        load_loop_abort f (codes "_file" ++ (b'\n' ∷ rest)) _ _ (codes "_file") rest (λ e. cc)
          (getline-line (codes "_file") rest (omega arith)) (λ e. omega arith))

load_log-local :
    (t : Dict Bytes) (d : Disk) (k rest : Bytes)
    → IsKey k
    → Holds t d
    → load (apply (append_log (k ++ (b'\n' ∷ (text_line local_creat_file ++ rest)))) d) ≡ none
load_log-local t d k rest hk h =
    let tail = k ++ (b'\n' ∷ (text_line local_creat_file ++ rest)) in
    let (f, enough, read) = load-append t d tail h in
    let long : 1 ≤ f =
      omega (arith, enough, length-append {0} k (b'\n' ∷ (text_line local_creat_file ++ rest))) in
    let more : f ≡ suc (f - 1) = omega (arith, long) in
    let stamp = last_stamp (replicate timespec_size 0) h.logged in
    let base = replay (replay [] h.snap) h.logged in
    let stamp_size = length-last_stamp (replicate timespec_size 0) h.logged refl h.log_readable in
    read
    ∙ ap (λ n. outcome (load_loop (suc n) tail stamp base)) more
    ∙ ap outcome (load_loop-local (f - 1) k rest stamp base hk stamp_size)
    ∙ (unfold outcome in refl)

append_thrice :
    (d : Disk) (k a b : Bytes)
    → apply (append_log b) (run (append_log (text_line k) ∷ append_log a ∷ []) d)
      ≡ apply (append_log (k ++ (b'\n' ∷ (a ++ b)))) d
unfolding apply run text_line
append_thrice d k a b = simp append_assoc

set_key_local :
    (env : Env) (k rest : Bytes) (m : LastModified) (d : Disk)
    → IsKey k
    → IsDurable m d
    → is_set k local_creat_file m ≡ false
    → is_zero (next_counter m.counter) ≡ false
    → load (apply (append_log rest) (run (set_key env k local_creat_file m).1 d)) ≡ none
set_key_local env k rest m d hk h differs wait =
    rw (set_key-plain env k local_creat_file m differs wait h.is_open, append_thrice)
      (load_log-local m.table d k rest hk h.holds)

pub boot-none : (env : Env) (counter : ℤ) (d : Disk) → load d ≡ none → boot env counter d ≡ none
unfolding boot
boot-none env counter d h = rw (boot, h) refl

-- After `set` has entered the mark of a locally created file, every start fails an assertion of
-- the loader, whatever is logged behind the entry. The table and its files agree before, and the
-- call changes the table and makes no snapshot.
pub set_local_aborts :
    (sha : Sha256) (env next : Env) (counter : ℤ) (p rest : Bytes) (m : LastModified) (d : Disk)
    → IsDurable m d
    → is_set (hash_path sha p) local_creat_file m ≡ false
    → is_zero (next_counter m.counter) ≡ false
    → boot next counter (apply (append_log rest) (run (set sha env p local_creat_file m).1 d))
      ≡ none
unfolding set
set_local_aborts sha env next counter p rest m d h differs wait =
    let k = hash_path sha p in
    let gone = set_key_local env k rest m d (hash_path-IsKey sha p) h differs wait in
    boot-none next counter _ gone
