-- ===== src/Dirty/Restart.antt =====
-- The constructor of `is_dirty_t` on files that hold a table.
use distributed_systems_afsv.Base.{
  ℤ, ◌≡◌, refl, sym, ap, ◌∙◌, Bool, true, none, some, List, [], ◌∷◌, ◌++◌, arith, Bytes, All,
  append-nil,
}
use distributed_systems_afsv.Base.Dict
use distributed_systems_afsv.Base.Dict.{Dict, NodupKeys}
use distributed_systems_afsv.Journal.{Disk, Env, run, apply, content}
use distributed_systems_afsv.Dirty.{IsDirty, load, boot}
use distributed_systems_afsv.Dirty.Replay.{Rec, HasKey, replay, verdict, lookup-replay}
use distributed_systems_afsv.Dirty.Load.{load_file-encode_all}
use distributed_systems_afsv.Dirty.Recovery.{IsDurable}
use distributed_systems_afsv.Dirty.Files.{Holds, Keyed, insert-Keyed, erase-Keyed}

replay-NodupKeys : (rs : List Rec) (t : Dict Bool) → NodupKeys t → NodupKeys (replay t rs)
unfolding replay
replay-NodupKeys [] t h = h
replay-NodupKeys ((k, none) ∷ rs) t h =
    replay-NodupKeys rs (Dict.erase k t) (Dict.erase-NodupKeys k t h)
replay-NodupKeys ((k, some b) ∷ rs) t h =
    replay-NodupKeys rs (Dict.insert k b t) (Dict.insert-NodupKeys k b t h)

replay-Keyed : (rs : List Rec) (t : Dict Bool) → All HasKey rs → Keyed t → Keyed (replay t rs)
unfolding replay
replay-Keyed [] t hk h = h
replay-Keyed ((k, none) ∷ rs) t hk h = replay-Keyed rs (Dict.erase k t) hk.1 (erase-Keyed k t h)
replay-Keyed ((k, some b) ∷ rs) t hk h =
    replay-Keyed rs (Dict.insert k b t) hk.1 (insert-Keyed k b t hk.0 h)

-- The constructor comes back with a table that has the entries of `t`, ready for more calls.
pub record Restarts (t : Dict Bool) (env : Env) (counter : ℤ) (d : Disk) : Type 0 where
  pub memory : IsDirty
  pub disk : Disk
  pub started : boot env counter d ≡ some (memory, disk)
  pub durable : IsDurable memory disk
  pub same : (k : Bytes) → Dict.lookup k memory.table ≡ Dict.lookup k t

pub start-Restarts :
    (t : Dict Bool) (env : Env) (counter : ℤ) (d : Disk)
    → env.log_opens ≡ true
    → Holds t d
    → Restarts t env counter d
unfolding boot load run apply Dict.lookup
start-Restarts t env counter d opens h =
    let first = load_file-encode_all d.snapshot h.snap [] h.snapshot_file h.snap_keys in
    let second = load_file-encode_all d.log h.logged (replay [] h.snap) h.log_file h.log_keys in
    let u = replay (replay [] h.snap) h.logged in
    let agree : ((k : Bytes) → Dict.lookup k u ≡ Dict.lookup k t) = λ k.
      lookup-replay k (replay [] h.snap) h.logged
      ∙ ap (verdict k h.logged) (lookup-replay k [] h.snap)
      ∙ h.agrees k in
    record {
      memory = record { table = u; log_is_open = true; counter = counter };
      disk = record d { log = some (content d.log ++ []) };
      started = ground (arith, first, second, opens);
      durable = record {
        is_open = refl;
        unique = replay-NodupKeys h.logged _ (replay-NodupKeys h.snap [] tt);
        keyed = replay-Keyed h.logged _ h.log_keys (replay-Keyed h.snap [] h.snap_keys tt);
        holds = record {
          snap = h.snap;
          logged = h.logged;
          snapshot_file = h.snapshot_file;
          log_file = append-nil (content d.log) ∙ h.log_file;
          snap_keys = h.snap_keys;
          log_keys = h.log_keys;
          agrees = λ k. h.agrees k ∙ sym (agree k);
        };
      };
      same = agree;
    }
