-- ===== src/Modified/Session.antt =====
-- Sessions of `last_modified_t`: calls and restarts in any order, against a map that forgets files,
-- logs and counters.
use distributed_systems_afsv.Base.{
  ℤ, ◌≡◌, refl, ap, ◌∙◌, true, Option, none, some, List, [], ◌∷◌, if◌then◌else◌, Bytes, equal, All,
}
use distributed_systems_afsv.Base.Dict
use distributed_systems_afsv.Base.Dict.{Dict, NodupKeys}
use distributed_systems_afsv.Hash.{Sha256, hash_path}
use distributed_systems_afsv.Hash.Keys.{hash_path-IsKey}
use distributed_systems_afsv.Journal.{Disk, Env, run}
use distributed_systems_afsv.Modified.{LastModified, boot, commit, set, erase, set_key, erase_key}
use distributed_systems_afsv.Modified.Replay.{IsTimespec}
use distributed_systems_afsv.Modified.Calls.{
  IsDurable, set_key-IsDurable, erase_key-IsDurable, lookup-set_key, lookup-erase_key,
}
use distributed_systems_afsv.Modified.Restart.{start-Restarts}

-- A call or a restart, each with what the system answers in it.
pub data Event : Type 0 where
  setting : Env → Bytes → Bytes → Event
  erasing : Bytes → Event
  restarting : Env → ℤ → Event

-- `rename` succeeds and the log opens; whether a temporary file opens is left free.
abbrev pub IsHealthy : Event → Type 0
IsHealthy (setting env path b) = (env.renames ≡ true) × (env.log_opens ≡ true) × IsTimespec b
IsHealthy (erasing path) = Unit
IsHealthy (restarting env counter) = env.log_opens ≡ true

-- What ties a running process to the map.
pub record Refines (f : Bytes → Option Bytes) (m : LastModified) (d : Disk) : Type 0 where
  pub durable : IsDurable m d
  pub shows : (k : Bytes) → Dict.lookup k m.table ≡ f k

pub record StepTo (f : Bytes → Option Bytes) (r : Option (LastModified × Disk)) : Type 0 where
  pub memory : LastModified
  pub disk : Disk
  pub result : r ≡ some (memory, disk)
  pub refines : Refines f memory disk

module _ (sha : Sha256) where
  unfoldable pub step : Event → LastModified × Disk → Option (LastModified × Disk)
  step (setting env path b) (m, d) = some (commit (set sha env path b m) d)
  step (erasing path) (m, d) = some (commit (erase sha path m) d)
  step (restarting env counter) (m, d) = boot env counter d

  unfoldable pub steps : List Event → LastModified × Disk → Option (LastModified × Disk)
  steps [] s = some s
  steps (e ∷ es) s = elim (step e s) [ none ↦ none | some s' ↦ steps es s' ]

  -- The map that clients have in mind: the last call on a name decides, and a restart does nothing.
  abbrev pub spec_step : Event → (Bytes → Option Bytes) → Bytes → Option Bytes
  spec_step (setting env path b) f k = if equal (hash_path sha path) k then some b else f k
  spec_step (erasing path) f k = if equal (hash_path sha path) k then none else f k
  spec_step (restarting env counter) f k = f k

  unfoldable pub spec : List Event → (Bytes → Option Bytes) → Bytes → Option Bytes
  spec [] f = f
  spec (e ∷ es) f = spec es (spec_step e f)

  set-Refines :
      (env : Env) (path : Bytes) (b : Bytes) (f : Bytes → Option Bytes) (m : LastModified)
      (d : Disk)
      → IsHealthy (setting env path b)
      → Refines f m d
      → StepTo (spec_step (setting env path b) f) (step (setting env path b) (m, d))
  unfolding step set
  set-Refines env path b f m d ok r = record {
    memory = (set_key env (hash_path sha path) b m).0;
    disk = run (set_key env (hash_path sha path) b m).1 d;
    result = refl;
    refines = record {
      durable =
          set_key-IsDurable env (hash_path sha path) b m d (hash_path-IsKey sha path) ok.2 r.durable
            ok.0 ok.1;
      shows = λ k.
          lookup-set_key env (hash_path sha path) k b m
          ∙ ap (λ o. if equal (hash_path sha path) k then some b else o) (r.shows k);
    };
  }

  erase-Refines :
      (path : Bytes) (f : Bytes → Option Bytes) (m : LastModified) (d : Disk)
      → Refines f m d
      → StepTo (spec_step (erasing path) f) (step (erasing path) (m, d))
  unfolding step erase
  erase-Refines path f m d r = record {
    memory = (erase_key (hash_path sha path) m).0;
    disk = run (erase_key (hash_path sha path) m).1 d;
    result = refl;
    refines = record {
      durable = erase_key-IsDurable (hash_path sha path) m d (hash_path-IsKey sha path) r.durable;
      shows = λ k.
          lookup-erase_key (hash_path sha path) k m
          ∙ ap (λ o. if equal (hash_path sha path) k then none else o) (r.shows k);
    };
  }

  step-Refines :
      (e : Event) (f : Bytes → Option Bytes) (m : LastModified) (d : Disk)
      → IsHealthy e
      → Refines f m d
      → StepTo (spec_step e f) (step e (m, d))
  step-Refines (setting env path b) f m d ok r = set-Refines env path b f m d ok r
  step-Refines (erasing path) f m d ok r = erase-Refines path f m d r
  step-Refines (restarting env counter) f m d ok r =
      let again = start-Restarts m.table env counter d ok r.durable.keyed r.durable.holds in
      unfold step in
      record {
        memory = again.memory;
        disk = again.disk;
        result = again.started;
        refines = record { durable = again.durable; shows = λ k. again.same k ∙ r.shows k };
      }

  steps-cons :
      (e : Event) (es : List Event) (s : LastModified × Disk) {s' : LastModified × Disk}
      → step e s ≡ some s'
      → steps (e ∷ es) s ≡ steps es s'
  unfolding steps
  steps-cons e es s h = rw (steps, h) refl

  -- From a table that agrees with the map `f` and with its files, calls that return and restarts
  -- in any order never fail an assertion, and end in a table that agrees with its files and with
  -- the map that `spec` gets from `f`. In every call `rename` succeeds and the log opens, and
  -- every timestamp that is set has sixteen bytes, not all of them 0xFF.
  pub sessions-Refines :
      (es : List Event) (f : Bytes → Option Bytes) (m : LastModified) (d : Disk)
      → All IsHealthy es
      → Refines f m d
      → StepTo (spec es f) (steps es (m, d))
  unfolding steps spec
  sessions-Refines [] f m d ok r = record { memory = m; disk = d; result = refl; refines = r }
  sessions-Refines (e ∷ es) f m d ok r =
      let one = step-Refines e f m d ok.0 r in
      let rest = sessions-Refines es (spec_step e f) one.memory one.disk ok.1 one.refines in
      record {
        memory = rest.memory;
        disk = rest.disk;
        result = steps-cons e es (m, d) one.result ∙ rest.result;
        refines = rest.refines;
      }
