-- ===== src/Modified/Broken.antt =====
-- A log that ends in a name line, and goes on: the process that has started on it logs the next
-- entry behind that line.
use distributed_systems_afsv.Base.{
  ℕ, ℤ, suc, zero, ◌-◌, ◌≤◌, ◌≡◌, ◌≢◌, refl, sym, ap, ◌∙◌, none, some, [], ◌∷◌, ◌++◌, append_assoc,
  append-nil, arith, Bytes, All, length, take, drop, length-append, length-take, length-drop,
  replicate, true, false, Option-cases, inl, inr,
}
use mathlib.Core.Option.{some-injective, none-ne-some}
use distributed_systems_afsv.Base.Dict.{Dict}
use distributed_systems_afsv.Hash.{Sha256, hash_path}
use distributed_systems_afsv.Hash.Keys.{IsKey, hash_path-IsKey}
use distributed_systems_afsv.Journal.{
  aborted, outcome, Disk, append_log, Env, apply, run, next_counter, is_zero,
}
use distributed_systems_afsv.Journal.Always.{getline-line}
use distributed_systems_afsv.Modified.{
  LastModified, text_line, read_into, load_loop, load, boot, timespec_size, is_set, set_key, set,
}
use distributed_systems_afsv.Modified.Calls.{IsDurable}
use distributed_systems_afsv.Modified.Crash.{load_entry-torn}
use distributed_systems_afsv.Modified.Load.{load_loop_round}
use distributed_systems_afsv.Modified.LocalFile.{load_loop_abort, boot-none}
use distributed_systems_afsv.Modified.Recovery.{Holds}
use distributed_systems_afsv.Modified.Replay.{last_stamp, replay}
use distributed_systems_afsv.Modified.Torn.{
  load-append, length-last_stamp, line-ne-nil, set_key-plain, set_key-first_write,
}

All-drop : (P : ℕ → Type 0) (n : ℕ) (b : Bytes) → All P b → All P (drop n b)
All-drop P zero b h = h
All-drop P (suc n) [] h = h
All-drop P (suc n) (c ∷ b) h = All-drop P n b h.1

drop-front : (n : ℕ) (a rest : Bytes) → n ≤ length a → drop n (a ++ rest) ≡ drop n a ++ rest
drop-front zero a rest h = refl
drop-front (suc n) [] rest h = absurd (omega (arith, h))
drop-front (suc n) (c ∷ a) rest h = drop-front n a rest (omega (arith, h))

-- Sixteen bytes are there to be read.
length-read_into :
    (ts rest : Bytes)
    → timespec_size ≤ length rest
    → length ts ≡ timespec_size
    → length (read_into ts rest) ≡ timespec_size
unfolding read_into
length-read_into ts rest h size = omega (
  arith,
  h,
  size,
  length-append (take 16 rest) (drop (length (take 16 rest)) ts),
  length-take 16 rest,
  length-drop (length (take 16 rest)) ts,
)

module _ (k j : Bytes) (hk : IsKey k) (hj : IsKey j) where
  -- The name `j` is read for the timestamp of `k`, and what is left of it for a name.
  load_loop-broken :
      (f : ℕ) (rest ts : Bytes) (t : Dict Bytes)
      → length ts ≡ timespec_size
      → load_loop (suc (suc f)) (k ++ (b'\n' ∷ (j ++ (b'\n' ∷ rest)))) ts t ≡ aborted
  load_loop-broken f rest ts t size =
      let behind = j ++ (b'\n' ∷ rest) in
      let enough : timespec_size ≤ length behind =
        omega (arith, hj.size, length-append j (b'\n' ∷ rest)) in
      let read = read_into ts behind in
      let (u, entered, others) =
        load_entry-torn k read t (length-read_into ts behind enough size) in
      let left : drop (suc timespec_size) behind ≡ drop 17 j ++ (b'\n' ∷ rest) =
        drop-front 17 j (b'\n' ∷ rest) (omega (arith, hj.size)) in
      let short : length (drop 17 j) ≡ 47 = omega (arith, hj.size, length-drop 17 j) in
      load_loop_round (suc f) (k ++ (b'\n' ∷ behind)) ts t k behind (line-ne-nil k behind)
        (getline-line k behind hk.one_line) hk.size entered
      ∙ ap (λ b. load_loop (suc f) b read u) left
      ∙ load_loop_abort f (drop 17 j ++ (b'\n' ∷ rest)) read u (drop 17 j) rest
          (line-ne-nil (drop 17 j) rest)
          (getline-line (drop 17 j) rest (All-drop (λ c. c ≢ b'\n') 17 j hj.one_line))
          (λ e. omega (arith, short, e))

  load-broken :
      (t : Dict Bytes) (d : Disk) (rest : Bytes)
      → Holds t d
      → load (apply (append_log (k ++ (b'\n' ∷ (j ++ (b'\n' ∷ rest))))) d) ≡ none
  load-broken t d rest h =
      let tail = k ++ (b'\n' ∷ (j ++ (b'\n' ∷ rest))) in
      let (f, enough, read) = load-append t d tail h in
      let more : f ≡ suc (f - 1) =
        omega (arith, enough, hk.size, length-append k (b'\n' ∷ (j ++ (b'\n' ∷ rest)))) in
      let stamp = last_stamp (replicate timespec_size 0) h.logged in
      let base = replay (replay [] h.snap) h.logged in
      let size = length-last_stamp (replicate timespec_size 0) h.logged refl h.log_readable in
      read
      ∙ ap (λ n. outcome (load_loop (suc n) tail stamp base)) more
      ∙ ap outcome (load_loop-broken (f - 1) rest stamp base size)
      ∙ (unfold outcome in refl)

append_behind :
    (d : Disk) (k j ts : Bytes)
    → run
        (append_log (text_line j) ∷ append_log (text_line ts) ∷ [])
        (apply (append_log []) (apply (append_log (text_line k)) d))
      ≡ apply (append_log (k ++ (b'\n' ∷ (j ++ (b'\n' ∷ text_line ts))))) d
unfolding apply run text_line
append_behind d k j ts = simp (append_assoc, append-nil)

boot-opened :
    (env : Env) (counter : ℤ) (d : Disk) (memory : LastModified) (disk : Disk)
    → env.log_opens ≡ true
    → boot env counter d ≡ some (memory, disk)
    → (memory.log_is_open ≡ true) × (memory.counter ≡ counter) × (disk ≡ apply (append_log []) d)
unfolding boot run
boot-opened env counter d memory disk opens h = elim (Option-cases (load d)) [
  | inl fails ↦ absurd (none-ne-some _ (sym (boot-none env counter d fails) ∙ h))
  | inr (t, loaded) ↦
      let started : boot env counter d
          ≡ some (
            record { table = t; log_is_open = true; counter = counter },
            apply (append_log []) d,
          ) =
        ground (arith, loaded, opens) in
      let same = some-injective _ (memory, disk) (sym started ∙ h) in
      (
        sym (ap (λ r. r.0.log_is_open) same),
        sym (ap (λ r. r.0.counter) same),
        sym (ap (λ r. r.1) same),
      )
]

-- A crash in `set` between the name and the timestamp makes a log that breaks later: if the
-- process that starts on it logs one `set` that changes its table and is not due for a snapshot,
-- then every start after that fails an assertion of the loader. The table and its files agree
-- before the first `set`, which changes the table too, and the log opens for the second process.
pub set-broken :
    (sha : Sha256) (env next later : Env) (counter counter' : ℤ) (p q v ts : Bytes)
    (m memory : LastModified) (d disk : Disk)
    → IsDurable m d
    → is_set (hash_path sha p) v m ≡ false
    → next.log_opens ≡ true
    → boot next counter (run (take 1 (set sha env p v m).1) d) ≡ some (memory, disk)
    → is_set (hash_path sha q) ts memory ≡ false
    → is_zero (next_counter counter) ≡ false
    → boot later counter' (run (set sha next q ts memory).1 disk) ≡ none
unfolding set
set-broken sha env next later counter counter' p q v ts m memory d disk h differs opens started
      differs' wait =
    let k = hash_path sha p in
    let j = hash_path sha q in
    let hk = hash_path-IsKey sha p in
    let hj = hash_path-IsKey sha q in
    let (open_log, same, files) =
      boot-opened next counter (run (take 1 (set_key env k v m).1) d) memory disk opens started in
    let first = set_key-first_write env k v m differs h.is_open in
    let plain =
      set_key-plain next j ts memory differs' (ap (λ c. is_zero (next_counter c)) same ∙ wait)
        open_log in
    let disks : run (set_key next j ts memory).1 disk
        ≡ apply (append_log (k ++ (b'\n' ∷ (j ++ (b'\n' ∷ text_line ts))))) d =
      ap (λ r. run r.1 disk) plain
      ∙ ap (run (append_log (text_line j) ∷ append_log (text_line ts) ∷ [])) files
      ∙ ap
          (λ ws.
            run (append_log (text_line j) ∷ append_log (text_line ts) ∷ [])
              (apply (append_log []) (run ws d)))
          first
      ∙ (unfold run in append_behind d k j ts) in
    boot-none later counter' _
      (ap load disks ∙ load-broken k j hk hj m.table d (text_line ts) h.holds)
