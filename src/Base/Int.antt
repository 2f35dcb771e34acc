-- ===== src/Base/Int.antt =====
-- Signed integers, as far as the program computes with them: counters and result codes.
use Prim.Native.Nat.{ℕ, ◌-◌}
use distributed_systems_afsv.Base.Tests.{◌==◌, if◌then◌else◌}

-- `negsuc n` is -(n + 1).
pub data ℤ : Type 0 where
  pos : ℕ → ℤ
  negsuc : ℕ → ℤ

-- `-n`
abbrev pub negate : ℕ → ℤ
negate n = if n == 0 then pos 0 else negsuc (n - 1)
