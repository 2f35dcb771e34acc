-- ===== src/Dirty/Cadence.antt =====
-- How often `is_dirty_t` makes a snapshot: `counter` starts with any value, and stays small then.
use distributed_systems_afsv.Base.{
  ℕ, ◌+◌, ◌-◌, ◌%◌, ◌≤◌, ◌<◌, ◌≡◌, refl, ap, inl, inr, ℤ, pos, negsuc, Bool, true, false, ◌++◌,
  List, [], ◌∷◌, arith, Bytes, length, Bool-cases,
}
use distributed_systems_afsv.Journal.{
  create_tmp, rename_tmp, truncate_log, Env, next_counter, is_zero,
}
use distributed_systems_afsv.Base.Dict
use distributed_systems_afsv.Dirty.{
  write_entries, IsDirty, is_set, set_key, do_snapshot, log_line, set_line,
}

-- The values that `counter` has once it has been set: -9 to 9.
abbrev pub IsSmall : ℤ → Type 0
IsSmall (pos n) = n < 10
IsSmall (negsuc n) = n < 9

pub next_counter-IsSmall : (c : ℤ) → IsSmall (next_counter c)
unfolding next_counter
next_counter-IsSmall (pos n) = omega arith
next_counter-IsSmall (negsuc n) = ground arith

-- Changes until the next snapshot, from whatever value.
abbrev wait : ℤ → ℕ
wait (pos n) = 10 - n % 10
wait (negsuc n) = n % 10 + 1

wait-le : (c : ℤ) → wait c ≤ 10
wait-le (pos n) = omega arith
wait-le (negsuc n) = omega arith

wait-next_counter : (c : ℤ) → is_zero (next_counter c) ≡ false → wait (next_counter c) + 1 ≡ wait c
unfolding next_counter is_zero
wait-next_counter (pos n) h = ground (arith, h)
wait-next_counter (negsuc n) h = ground (arith, h)

wait_pos : (c : ℤ) → 1 ≤ wait c
wait_pos (pos n) = omega arith
wait_pos (negsuc n) = omega arith

-- The table after calls of `set`, on hashed names.
unfoldable pub sets : Env → List (Bytes × Bool) → IsDirty → IsDirty
sets env [] m = m
sets env ((k, state) ∷ calls) m = sets env calls (set_key env k state m).0

-- Each of the calls changes the table.
abbrev pub AllChange : Env → List (Bytes × Bool) → IsDirty → Type 0
AllChange env [] m = Unit
AllChange env ((k, state) ∷ calls) m =
    (is_set k state m ≡ false) × AllChange env calls (set_key env k state m).0

-- The temporary file and the log open, and `rename` succeeds.
abbrev pub IsWorking : Env → Type 0
IsWorking env = (env.tmp_opens ≡ true) × (env.renames ≡ true) × (env.log_opens ≡ true)

-- One of the calls makes a snapshot of the table that it leaves, behind its line in the log: the
-- temporary file is made, gets a line for each entry, and is renamed, and the log is emptied.
pub record Snapshot (env : Env) (calls : List (Bytes × Bool)) (m : IsDirty) : Type 0 where
  pub before : List (Bytes × Bool)
  pub name : Bytes
  pub state : Bool
  pub after : List (Bytes × Bool)
  pub shape : calls ≡ before ++ ((name, state) ∷ after)
  pub made :
      (set_key env name state (sets env before m)).1
      ≡ log_line (sets env before m) (set_line name state)
        ++ (create_tmp
            ∷ (write_entries (Dict.insert name state (sets env before m).table)
                ++ (rename_tmp ∷ truncate_log ∷ [])))

counter-set_key :
    (env : Env) (k : Bytes) (state : Bool) (m : IsDirty)
    → is_set k state m ≡ false
    → (set_key env k state m).0.counter ≡ next_counter m.counter
unfolding set_key do_snapshot
counter-set_key env k state m differs = ground (arith, differs)

set_key_due :
    (env : Env) (k : Bytes) (state : Bool) (m : IsDirty)
    → is_set k state m ≡ false
    → is_zero (next_counter m.counter) ≡ true
    → IsWorking env
    → (set_key env k state m).1
      ≡ log_line m (set_line k state)
        ++ (create_tmp
            ∷ (write_entries (Dict.insert k state m.table) ++ (rename_tmp ∷ truncate_log ∷ [])))
unfolding set_key do_snapshot
set_key_due env k state m differs due (tmp, renames, opens) =
    rw (set_key, differs, due, do_snapshot, tmp, renames, opens) refl

wait-Snapshot :
    (env : Env) (calls : List (Bytes × Bool)) (m : IsDirty)
    → AllChange env calls m
    → wait m.counter ≤ length calls
    → IsWorking env
    → Snapshot env calls m
unfolding sets
wait-Snapshot env [] m h enough works = absurd (omega (arith, wait_pos m.counter, enough))
wait-Snapshot env ((k, state) ∷ calls) m h enough works =
    elim (Bool-cases (is_zero (next_counter m.counter))) [
      | inl due ↦ record {
        before = [];
        name = k;
        state = state;
        after = calls;
        shape = refl;
        made = set_key_due env k state m h.0 due works;
      }
      | inr later ↦
          let same = counter-set_key env k state m h.0 in
          let left = wait-next_counter m.counter later in
          let less : wait (set_key env k state m).0.counter ≤ length calls =
            rw same (omega (arith, left, enough)) in
          let r = wait-Snapshot env calls (set_key env k state m).0 h.1 less works in
          record {
            before = (k, state) ∷ r.before;
            name = r.name;
            state = r.state;
            after = r.after;
            shape = ap (λ cs. (k, state) ∷ cs) r.shape;
            made = r.made;
          }
    ]

-- Whatever value `counter` starts with, ten calls of `set` in a row that each change the table
-- have one among them that writes the snapshot of the table that it leaves, right behind its line
-- in the log: every entry into the temporary file, the rename, and the truncation of the log. The
-- temporary file and the log can be opened, and `rename` succeeds.
pub ten_sets-Snapshot :
    (env : Env) (calls : List (Bytes × Bool)) (m : IsDirty)
    → AllChange env calls m
    → 10 ≤ length calls
    → IsWorking env
    → Snapshot env calls m
ten_sets-Snapshot env calls m h many works =
    wait-Snapshot env calls m h (omega (arith, wait-le m.counter, many)) works
