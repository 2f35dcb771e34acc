-- ===== src/Journal/Fuel.antt =====
-- A line that is read takes a byte at least, so the loops over a file end.
use distributed_systems_afsv.Base.{ℕ, ◌≤◌, Bytes, [], ◌∷◌, arith, length}
use distributed_systems_afsv.Journal.{getline}

pub length-getline : (c : ℕ) (cs : Bytes) → length (getline (c ∷ cs)).1 ≤ length cs
unfolding getline
length-getline c [] = ground arith
length-getline c (d ∷ cs) = ground (arith, length-getline d cs)
