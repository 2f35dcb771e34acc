-- ===== src/Start/Loading.antt =====
-- The loops of the two constructors, which run until their stream has no more lines.
use distributed_systems_afsv.Journal.{ended}
use distributed_systems_afsv.Base.{Bool, ℕ, suc, ◌<◌, ◌≡◌, some, arith, Bytes, length, replicate}
use distributed_systems_afsv.Base.Dict.{Dict}
use distributed_systems_afsv.Dirty
use distributed_systems_afsv.Dirty.Load.{load_loop-fuel}
use distributed_systems_afsv.Modified
use distributed_systems_afsv.Modified.{timespec_size}
use distributed_systems_afsv.Modified.Load.{load_records-fuel}

-- The loops of both constructors end by themselves: given any amount of fuel above the number of
-- bytes of a file, whatever the bytes, the loop of `is_dirty_t`, and that of `last_modified_t`,
-- does not use it up, and it comes to the table or the failed assertion that loading the file
-- comes to.
pub load_file-fuel :
    (f : ℕ) (b c : Bytes) (t : Dict Bool) (u : Dict Bytes)
    → length b < f
    → length c < f
    → (Dirty.load_loop f b t ≡ ended (Dirty.load_file (some b) t))
      × (Modified.load_loop f c (replicate timespec_size 0) u
          ≡ ended (Modified.load_file (some c) u))
unfolding Dirty.load_file Modified.load_file
load_file-fuel f b c t u enough enough' = (
  load_loop-fuel f (suc (length b)) b t enough (omega arith),
  load_records-fuel f (suc (length c)) c (replicate timespec_size 0) u enough' (omega arith),
)
