-- ===== src/Modified/Restart.antt =====
-- The constructor of `last_modified_t` on files that hold a table.
use distributed_systems_afsv.Base.{
  ℤ, ◌≡◌, refl, sym, ◌∙◌, true, none, some, inl, inr, List, [], ◌∷◌, ◌++◌, arith, Bytes, equal,
  append-nil, Bool-cases, equal_refl, equal_iff,
}
use mathlib.Core.Option.{none-ne-some}
use distributed_systems_afsv.Base.Dict
use distributed_systems_afsv.Base.Dict.{Dict, NodupKeys}
use distributed_systems_afsv.Hash.Keys.{IsKey}
use distributed_systems_afsv.Journal.{Disk, Env, run, apply, content}
use distributed_systems_afsv.Modified.{LastModified, load, boot, erased}
use distributed_systems_afsv.Modified.Replay.{Rec, IsTimespec, update, replay}
use distributed_systems_afsv.Modified.Load.{load_file-encode_all}
use distributed_systems_afsv.Modified.Recovery.{Holds, Keyed}
use distributed_systems_afsv.Modified.Calls.{IsDurable}

update-NodupKeys : (r : Rec) (t : Dict Bytes) → NodupKeys t → NodupKeys (update r t)
update-NodupKeys (k, none) t h =
    ground (arith, Dict.erase-NodupKeys k t h, Dict.insert-NodupKeys k erased t h)
update-NodupKeys (k, some ts) t h = Dict.insert-NodupKeys k ts t h

replay-NodupKeys : (rs : List Rec) (t : Dict Bytes) → NodupKeys t → NodupKeys (replay t rs)
unfolding replay
replay-NodupKeys [] t h = h
replay-NodupKeys (r ∷ rs) t h = replay-NodupKeys rs (update r t) (update-NodupKeys r t h)

lookup-Keyed :
    (k v : Bytes) (t : Dict Bytes) → Keyed t → Dict.lookup k t ≡ some v → IsKey k × IsTimespec v
unfolding Dict.lookup
lookup-Keyed k v [] h e = absurd (none-ne-some v e)
lookup-Keyed k v ((j, w) ∷ t) h e = elim (Bool-cases (equal j k)) [
  | inl hit ↦ let same : w ≡ v = ground (arith, hit) in rw (← (equal_iff j k).0 hit, ← same) h.0
  | inr miss ↦ lookup-Keyed k v t h.1 (ground (arith, miss))
]

Keyed-of-lookup :
    (u : Dict Bytes)
    → NodupKeys u
    → ((k v : Bytes) → Dict.lookup k u ≡ some v → IsKey k × IsTimespec v)
    → Keyed u
unfolding Dict.lookup
Keyed-of-lookup [] unique h = tt
Keyed-of-lookup ((j, w) ∷ u) unique h = (
  h j w (rw (equal_refl j) refl),
  Keyed-of-lookup u unique.1 (λ k v e. h k v (elim (Bool-cases (equal j k)) [
    | inl hit ↦
        let gone = rw ((equal_iff j k).0 hit) at unique.0 in absurd (none-ne-some v (sym gone ∙ e))
    | inr miss ↦ rw miss e
  ])),
)

-- The constructor comes back with a table that has the entries of `t`, ready for more calls.
pub record Restarts (t : Dict Bytes) (env : Env) (counter : ℤ) (d : Disk) : Type 0 where
  pub memory : LastModified
  pub disk : Disk
  pub started : boot env counter d ≡ some (memory, disk)
  pub durable : IsDurable memory disk
  pub same : (k : Bytes) → Dict.lookup k memory.table ≡ Dict.lookup k t

pub start-Restarts :
    (t : Dict Bytes) (env : Env) (counter : ℤ) (d : Disk)
    → env.log_opens ≡ true
    → Keyed t
    → Holds t d
    → Restarts t env counter d
unfolding boot load run apply Dict.lookup
start-Restarts t env counter d opens keyed h =
    let first = load_file-encode_all d.snapshot h.snap [] h.snapshot_file h.snap_readable in
    let second = load_file-encode_all d.log h.logged (replay [] h.snap) h.log_file h.log_readable in
    let u = replay (replay [] h.snap) h.logged in
    let agree : ((k : Bytes) → Dict.lookup k u ≡ Dict.lookup k t) = λ k. h.agrees k in
    let unique = replay-NodupKeys h.logged (replay [] h.snap) (replay-NodupKeys h.snap [] tt) in
    record {
      memory = record { table = u; log_is_open = true; counter = counter };
      disk = record d { log = some (content d.log ++ []) };
      started = ground (arith, first, second, opens);
      durable = record {
        is_open = refl;
        unique = unique;
        keyed = Keyed-of-lookup u unique (λ k v e. lookup-Keyed k v t keyed (sym (agree k) ∙ e));
        holds = record {
          snap = h.snap;
          logged = h.logged;
          snapshot_file = h.snapshot_file;
          log_file = append-nil (content d.log) ∙ h.log_file;
          snap_readable = h.snap_readable;
          log_readable = h.log_readable;
          agrees = λ k. h.agrees k ∙ sym (agree k);
        };
      };
      same = agree;
    }
