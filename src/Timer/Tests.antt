-- ===== src/Timer/Tests.antt =====
-- The macros on times at concrete numbers.
use tcpreplay.Prelude.{◌≤◌, none, some, ◌⊎◌, ◌<◌, ◌+◌, ◌*◌, ◌≡◌, refl, arith, pos, true, ◌+ℤ◌, ◌-ℤ◌}
use tcpreplay.Timer.{Timespec, timessub, timescmp, timeradd_timeval_timespec}
use tcpreplay.Timer.Laws.{IsNormal, gtb_ℤ, timeradd_timeval_timespec_wrong}

abbrev early : Timespec
early = record { tv_sec = pos 3; tv_nsec = pos 700_000_000 }

abbrev late : Timespec
late = record { tv_sec = pos 5; tv_nsec = pos 400_000_000 }

late_after_early : timescmp gtb_ℤ late early ≡ true
unfolding timescmp
late_after_early = refl

difference : timessub late early ≡ record { tv_sec = pos 1; tv_nsec = pos 700_000_000 }
unfolding timessub ◌+ℤ◌ ◌-ℤ◌
difference = refl

timeradd_timeval_timespec_wrong_example :
    let r =
      timeradd_timeval_timespec
        (record { tv_sec = pos 1; tv_nsec = pos 999_999_900 })
        (record { tv_sec = pos 0; tv_usec = pos 999_001 }) in
    ((r ≡ none) × (1_000_000_003 ≤ 999_999_900 + 1000 * 999_001))
    ⊎ ((q : Timespec) × (r ≡ some q)
        × (999_999_900 + 1000 * 999_001 < 1_000_000_003)
        × (IsNormal q → 999_999_900 + 1000 * 999_001 ≡ 1_000_000_001))
timeradd_timeval_timespec_wrong_example =
    timeradd_timeval_timespec_wrong (pos 1) (pos 0) 999_999_900 999_001 (omega arith) (omega arith)
      (omega arith)
