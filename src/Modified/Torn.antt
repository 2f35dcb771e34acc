-- ===== src/Modified/Torn.antt =====
-- What `last_modified_t` cannot read back: a log that ends between the two writes of an entry, and
-- the mark `LOCAL_CREAT_FILE`, which is longer than a `struct timespec`.
use distributed_systems_afsv.Base.{
  ℕ, suc, ◌≤◌, ◌≡◌, ◌≢◌, refl, ap, ◌∙◌, true, false, some, List, [], ◌∷◌, ◌++◌, arith, Bytes,
  length, take, replicate, All, equal_refl, length-append, ◌-◌, Bool-cases, inl, inr,
}
use distributed_systems_afsv.Base.Dict
use distributed_systems_afsv.Base.Dict.{Dict}
use distributed_systems_afsv.Hash.{Sha256, hash_path}
use distributed_systems_afsv.Hash.Keys.{IsKey, hash_path-IsKey}
use distributed_systems_afsv.Journal.{
  loaded, outcome, Disk, append_log, Env, apply, run, next_counter, is_zero,
}
use distributed_systems_afsv.Journal.Always.{getline-line}
use distributed_systems_afsv.Modified.{
  LastModified, text_line, load_entry, read_into, load_loop, load, timespec_size, is_set, set_key,
  set, commit,
}
use distributed_systems_afsv.Modified.Replay.{Rec, IsTimespec, Readable, replay, last_stamp, stamp}
use distributed_systems_afsv.Modified.Load.{
  load_loop_round, load_file-append, load_file-encode_all, length-stamp,
}
use distributed_systems_afsv.Modified.Recovery.{Holds, append_log-Holds, logged-append_log}
use distributed_systems_afsv.Modified.Calls.{IsDurable, log_entry-open}

last_stamp-snoc : (ts : Bytes) (rs : List Rec) (r : Rec) → last_stamp ts (rs ++ r ∷ []) ≡ stamp r.1
unfolding last_stamp
last_stamp-snoc ts [] r = refl
last_stamp-snoc ts (s ∷ rs) r = last_stamp-snoc (stamp s.1) rs r

pub length-last_stamp :
    (ts : Bytes) (rs : List Rec)
    → length ts ≡ timespec_size
    → All Readable rs
    → length (last_stamp ts rs) ≡ timespec_size
unfolding last_stamp
length-last_stamp ts [] h hr = h
length-last_stamp ts (r ∷ rs) h hr = length-last_stamp (stamp r.1) rs (length-stamp r hr.0) hr.1

-- Loading where the log goes on with `rest` behind whole entries.
pub load-append :
    (t : Dict Bytes) (d : Disk) (rest : Bytes) (h : Holds t d)
    → (f : ℕ) × (length rest ≤ f)
      × (load (apply (append_log rest) d)
          ≡ outcome (
              load_loop
                (suc f)
                rest
                (last_stamp (replicate timespec_size 0) h.logged)
                (replay (replay [] h.snap) h.logged)))
unfolding load apply
load-append t d rest h =
    let first = load_file-encode_all d.snapshot h.snap [] h.snapshot_file h.snap_readable in
    let (f, enough, read) = load_file-append h.logged rest (replay [] h.snap) h.log_readable in
    (f, enough, rw (load, first, h.log_file) read)

pub line-ne-nil : (k rest : Bytes) → k ++ (b'\n' ∷ rest) ≢ []
line-ne-nil [] rest h = cc
line-ne-nil (c ∷ k) rest h = cc

-- A name line with nothing behind it takes the bytes that the last round left in `ts`.
load_loop-name :
    (f : ℕ) (k ts : Bytes) (t : Dict Bytes)
    → IsKey k
    → IsTimespec ts
    → load_loop (suc (suc f)) (text_line k) ts t ≡ loaded (Dict.insert k ts t)
unfolding text_line read_into
load_loop-name f k ts t hk hs =
    let entry : load_entry k (read_into ts []) t ≡ some (Dict.insert k ts t) =
      unfold load_entry in rw (hs.not_erased, hs.size) refl in
    load_loop_round (suc f) (k ++ b'\n' ∷ []) ts t k [] (line-ne-nil k [])
      (getline-line k [] hk.one_line) hk.size entry
    ∙ (unfold load_loop in refl)

pub length-text_line : (k : Bytes) → 1 ≤ length (text_line k)
unfolding text_line
length-text_line k = omega (arith, length-append {0} k (b'\n' ∷ []))

-- The first write of a `set` that changes the table is the line with the name.
pub set_key-first_write :
    (env : Env) (k ts : Bytes) (m : LastModified)
    → is_set k ts m ≡ false
    → m.log_is_open ≡ true
    → take 1 (set_key env k ts m).1 ≡ append_log (text_line k) ∷ []
unfolding set_key
set_key-first_write env k ts m differs opened =
    elim (Bool-cases (is_zero (next_counter m.counter))) [
      | inl due ↦ rw (differs, due, log_entry-open m k ts opened) refl
      | inr wait ↦ rw (differs, wait, log_entry-open m k ts opened) refl
    ]

-- A `set` that changes the table when no snapshot is due.
pub set_key-plain :
    (env : Env) (k ts : Bytes) (m : LastModified)
    → is_set k ts m ≡ false
    → is_zero (next_counter m.counter) ≡ false
    → m.log_is_open ≡ true
    → set_key env k ts m ≡ (
      record m { table = Dict.insert k ts m.table; counter = next_counter m.counter },
      append_log (text_line k) ∷ append_log (text_line ts) ∷ [],
    )
unfolding set_key
set_key-plain env k ts m differs wait opened = rw (differs, wait, log_entry-open m k ts opened) refl

-- Loading a log that ends in a name line, behind an entry with the timestamp `v`.
load_torn :
    (t : Dict Bytes) (d : Disk) (h : Holds t d) (rs : List Rec) (j k v : Bytes)
    → h.logged ≡ rs ++ (j, some v) ∷ []
    → IsKey k
    → IsTimespec v
    → (u : Dict Bytes) × (load (apply (append_log (text_line k)) d) ≡ some u)
      × (Dict.lookup k u ≡ some v)
load_torn t d h rs j k v e hk hv =
    let (f, enough, read) = load-append t d (text_line k) h in
    let last : last_stamp (replicate timespec_size 0) h.logged ≡ v =
      ap (last_stamp _) e ∙ last_stamp-snoc _ rs (j, some v) in
    let base = replay (replay [] h.snap) h.logged in
    let more : f ≡ suc (f - 1) = omega (arith, enough, length-text_line k) in
    (
      Dict.insert k v base,
      read
          ∙ ap (λ ts. outcome (load_loop (suc f) (text_line k) ts base)) last
          ∙ ap (λ n. outcome (load_loop (suc n) (text_line k) v base)) more
          ∙ ap outcome (load_loop-name (f - 1) k v base hk hv)
          ∙ (unfold outcome in refl),
      Dict.lookup-insert k k v base ∙ rw (equal_refl k) refl,
    )

set_key_torn :
    (env : Env) (j k v ts : Bytes) (m : LastModified) (d : Disk)
    → IsKey j
    → IsKey k
    → IsDurable m d
    → IsTimespec v
    → is_set j v m ≡ false
    → is_zero (next_counter m.counter) ≡ false
    → is_set k ts (set_key env j v m).0 ≡ false
    → (u : Dict Bytes) × (load
          (run (take 1 (set_key env k ts (set_key env j v m).0).1) (run (set_key env j v m).1 d))
        ≡ some u)
      × (Dict.lookup k u ≡ some v)
set_key_torn env j k v ts m d hj hk h hv differs wait =
    let n : LastModified = record m {
      table = Dict.insert j v m.table;
      counter = next_counter m.counter;
    } in
    let writes = append_log (text_line j) ∷ append_log (text_line v) ∷ [] in
    let after = append_log-Holds j (some v) (hj, hv) h.holds in
    let logged = logged-append_log j (some v) (hj, hv) h.holds in
    rw (set_key-plain env j v m differs wait h.is_open) (λ (differs' : is_set k ts n ≡ false).
      rw (set_key-first_write env k ts n differs' h.is_open)
        (unfold run in load_torn n.table _ after h.holds.logged j k v logged hk hv))

module _ (sha : Sha256) (env : Env) (p q v ts : Bytes) (m : LastModified) (d : Disk) where
  -- The process that is about to call `set` for `q`, after `set` for `p` has returned.
  abbrev pub after_first : LastModified × Disk
  after_first = commit (set sha env p v m) d

  -- After `set` for one path has returned, a crash between the two writes of a `set` for another
  -- leaves files that load, and give the second path the timestamp of the first. The table and its
  -- files agree before, the first `set` changes the table and makes no snapshot, its timestamp has
  -- sixteen bytes, not all of them 0xFF, and the second changes the table.
  pub set_torn :
      IsDurable m d
      → IsTimespec v
      → is_set (hash_path sha p) v m ≡ false
      → is_zero (next_counter m.counter) ≡ false
      → is_set (hash_path sha q) ts after_first.0 ≡ false
      → (u : Dict Bytes) × (load (run (take 1 (set sha env q ts after_first.0).1) after_first.1)
          ≡ some u)
        × (Dict.lookup (hash_path sha q) u ≡ some v)
  unfolding set
  set_torn h hv differs wait differs' =
      set_key_torn env (hash_path sha p) (hash_path sha q) v ts m d (hash_path-IsKey sha p)
        (hash_path-IsKey sha q) h hv differs wait differs'
