-- ===== src/Examples/Streams.antt =====
-- The streaming example, and differences of two times, at concrete inputs.
use distributed_systems_afsv.Base.{ℕ, ◌+◌, ◌*◌, ◌%◌, ◌^◌, ◌<◌, ◌≡◌, pos, arith, length}
use distributed_systems_afsv.Clock.{
  Timespec, ns_per_second, sub_timespec, nanoseconds, sub_timespec_exact,
}
use distributed_systems_afsv.SendFile.{send, receive, size_total, int32}
use distributed_systems_afsv.SendFile.Transfer.{receive-send}
use distributed_systems_afsv.Examples.{text}

receive-send_example :
    let r = receive (send 100 text).blocks in
    (r.file ≡ text)
    × (r.size ≡ length text % 2 ^ 64)
    × ((send 100 text).count ≡ length text)
    × (size_total (send 100 text) ≡ int32 (length text))
receive-send_example = receive-send 100 text (omega arith)

abbrev before : Timespec
before = record { tv_sec = 5; tv_nsec = 900000000 }

abbrev after : Timespec
after = record { tv_sec = 7; tv_nsec = 100000000 }

sub_timespec_exact_example :
    (sec nsec : ℕ) × (sub_timespec before after ≡ record { tv_sec = pos sec; tv_nsec = pos nsec })
    × (nsec < ns_per_second)
    × (nanoseconds before + (sec * ns_per_second + nsec) ≡ nanoseconds after)
sub_timespec_exact_example =
    sub_timespec_exact before after (omega arith) (omega arith) (omega arith)
