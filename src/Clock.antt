-- ===== src/Clock.antt =====
-- `sub_timespec` of measurement/timespec_lib.cc, with which the drivers there take the time of a
-- call.
use distributed_systems_afsv.Base.{
  ℕ, ◌+◌, ◌-◌, ◌*◌, ◌≤◌, ◌<◌, ◌≡◌, ℤ, pos, negsuc, negate, leb, if◌then◌else◌, arith, Bool-cases,
  inl, inr,
}

-- `NS_PER_SECOND`
abbrev pub ns_per_second : ℕ
ns_per_second = 1000000000

-- A reading of the clock, and a difference of two, whose fields may be negative.
pub record Timespec : Type 0 where
  pub tv_sec : ℕ
  pub tv_nsec : ℕ

pub record Difference : Type 0 where
  pub tv_sec : ℤ
  pub tv_nsec : ℤ

-- `a - b`
unfoldable pub minus : ℕ → ℕ → ℤ
minus a b = if leb b a then pos (a - b) else negate (b - a)

-- `x - 1`
unfoldable pub pred : ℤ → ℤ
pred (pos n) = minus n 1
pred (negsuc n) = negsuc (n + 1)

-- `if (td->tv_nsec < 0) { td->tv_nsec += NS_PER_SECOND; td->tv_sec--; }`
unfoldable pub borrow : ℤ → ℤ → Difference
unfolding pred minus
borrow sec (pos n) = record { tv_sec = sec; tv_nsec = pos n }
borrow sec (negsuc n) = record { tv_sec = pred sec; tv_nsec = minus ns_per_second (n + 1) }

unfoldable pub sub_timespec : Timespec → Timespec → Difference
unfolding borrow minus
sub_timespec t1 t2 = borrow (minus t2.tv_sec t1.tv_sec) (minus t2.tv_nsec t1.tv_nsec)

-- A reading as one number of nanoseconds, and a difference that is not negative, as the drivers
-- add it up.
abbrev pub nanoseconds : Timespec → ℕ
nanoseconds t = t.tv_sec * ns_per_second + t.tv_nsec

abbrev pub IsReading : Timespec → Type 0
IsReading t = t.tv_nsec < ns_per_second

-- For two readings of the clock, the first not later than the second, both fields of the result of
-- `sub_timespec` are not negative, the nanoseconds are less than a second, and the first reading
-- and the result add up to the second reading.
pub sub_timespec_exact :
    (t1 t2 : Timespec)
    → IsReading t1
    → IsReading t2
    → nanoseconds t1 ≤ nanoseconds t2
    → (sec nsec : ℕ) × (sub_timespec t1 t2 ≡ record { tv_sec = pos sec; tv_nsec = pos nsec })
      × (nsec < ns_per_second)
      × (nanoseconds t1 + (sec * ns_per_second + nsec) ≡ nanoseconds t2)
unfolding sub_timespec borrow minus pred
sub_timespec_exact t1 t2 h1 h2 le = elim (Bool-cases (leb t1.tv_nsec t2.tv_nsec)) [
  | inl plain ↦ (
    t2.tv_sec - t1.tv_sec,
    t2.tv_nsec - t1.tv_nsec,
    ground (arith, plain),
    omega (arith, h2),
    ground (arith, plain),
  )
  | inr borrows ↦ (
    t2.tv_sec - t1.tv_sec - 1,
    t2.tv_nsec + ns_per_second - t1.tv_nsec,
    ground (arith, borrows),
    ground (arith, borrows),
    ground (arith, borrows),
  )
]
