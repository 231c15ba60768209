-- ===== src/Timer.antt =====
-- The time macros of src/common/timer.h. The fields are signed, so a result that C would make
-- negative is negative here; `long` and `time_t` have 64 bits and do not overflow at any time that
-- a clock or a capture file holds.
pub mod Laws
mod Tests
use tcpreplay.Prelude.{
  Option, none, some, ℕ, ◌+◌, ◌-◌, ◌*◌, ◌/◌, ◌%◌, Bool, ltb, leb, ◌==◌, if◌then◌else◌, ℤ, pos,
  negsuc, ◌+ℤ◌, ◌-ℤ◌, ltb_ℤ, not, pos_part, neg_part, ◌&&◌, ◌||◌, true, false, negate,
}

-- `struct timespec`
pub record Timespec : Type 0 where
  pub tv_sec : ℤ
  pub tv_nsec : ℤ

-- `struct timeval`
pub record Timeval : Type 0 where
  pub tv_sec : ℤ
  pub tv_usec : ℤ

abbrev pub nsec_per_sec : ℤ
nsec_per_sec = pos 1_000_000_000

abbrev pub usec_per_sec : ℤ
usec_per_sec = pos 1_000_000

abbrev pub leb_ℤ : ℤ → ℤ → Bool
leb_ℤ a b = leb (pos_part a + neg_part b) (pos_part b + neg_part a)

abbrev pub eqb_ℤ : ℤ → ℤ → Bool
eqb_ℤ a b = pos_part a + neg_part b == pos_part b + neg_part a

abbrev pub times_ℤ : ℕ → ℤ → ℤ
times_ℤ k (pos n) = pos (k * n)
times_ℤ k (negsuc n) = negate (k * n + k)

-- C's `/` and `%` by a positive number round towards 0.
abbrev pub quot_ℤ : ℤ → ℕ → ℤ
quot_ℤ (pos n) k = pos (n / k)
quot_ℤ (negsuc n) k = negate ((n + 1) / k)

abbrev pub rem_ℤ : ℤ → ℕ → ℤ
rem_ℤ (pos n) k = pos (n % k)
rem_ℤ (negsuc n) k = negate ((n + 1) % k)

unfoldable pub timespec_to_timeval : Timespec → Timeval
timespec_to_timeval ts = record { tv_sec = ts.tv_sec; tv_usec = quot_ℤ ts.tv_nsec 1000 }

unfoldable pub timeval_to_timespec : Timeval → Timespec
timeval_to_timespec tv = record { tv_sec = tv.tv_sec; tv_nsec = times_ℤ 1000 tv.tv_usec }

unfoldable pub round_timespec_to_microsec : Timespec → Timespec
round_timespec_to_microsec ts =
    let up : ℤ = if leb_ℤ (pos 500) (rem_ℤ ts.tv_nsec 1000) then pos 1 else pos 0 in
    record ts { tv_nsec = times_ℤ 1000 (quot_ℤ ts.tv_nsec 1000 +ℤ up) }

unfoldable pub timesisset : Timespec → Bool
timesisset ts = not (eqb_ℤ ts.tv_sec (pos 0)) || not (eqb_ℤ ts.tv_nsec (pos 0))

unfoldable pub timeradd : Timeval → Timeval → Timeval
timeradd t u =
    let sec = t.tv_sec +ℤ u.tv_sec in
    let usec = t.tv_usec +ℤ u.tv_usec in
    if leb_ℤ usec_per_sec usec
    then record { tv_sec = sec +ℤ pos 1; tv_usec = usec -ℤ usec_per_sec }
    else record { tv_sec = sec; tv_usec = usec }

unfoldable pub timeradd_timespec : Timespec → Timespec → Timespec
timeradd_timespec t u =
    let sec = t.tv_sec +ℤ u.tv_sec in
    let nsec = t.tv_nsec +ℤ u.tv_nsec in
    if leb_ℤ nsec_per_sec nsec
    then record { tv_sec = sec +ℤ pos 1; tv_nsec = nsec -ℤ nsec_per_sec }
    else record { tv_sec = sec; tv_nsec = nsec }

-- `seconds` is a count of nanoseconds: the code takes the remainder where it means the quotient. It
-- is an `int`, and so is its product with 1000000000: where that overflows there is no result. The
-- sum is at least 1000000000 there, so neither is negative.
unfoldable pub timeradd_timeval_timespec : Timespec → Timeval → Option Timespec
timeradd_timeval_timespec t u =
    let sec = t.tv_sec +ℤ u.tv_sec in
    let nsec = t.tv_nsec +ℤ times_ℤ 1000 u.tv_usec in
    let seconds = rem_ℤ nsec 1_000_000_000 in
    let product = times_ℤ 1_000_000_000 seconds in
    if leb_ℤ nsec_per_sec nsec
    then (if ltb_ℤ product (pos 2_147_483_648)
        then some (record { tv_sec = sec +ℤ seconds; tv_nsec = nsec -ℤ product })
        else none)
    else some (record { tv_sec = sec; tv_nsec = nsec })

unfoldable pub timersub : Timeval → Timeval → Timeval
timersub t u =
    let sec = t.tv_sec -ℤ u.tv_sec in
    let usec = t.tv_usec -ℤ u.tv_usec in
    if ltb_ℤ usec (pos 0)
    then record { tv_sec = sec -ℤ pos 1; tv_usec = usec +ℤ usec_per_sec }
    else record { tv_sec = sec; tv_usec = usec }

unfoldable pub timessub : Timespec → Timespec → Timespec
timessub t u =
    let sec = t.tv_sec -ℤ u.tv_sec in
    let nsec = t.tv_nsec -ℤ u.tv_nsec in
    if ltb_ℤ nsec (pos 0)
    then record { tv_sec = sec -ℤ pos 1; tv_nsec = nsec +ℤ nsec_per_sec }
    else record { tv_sec = sec; tv_nsec = nsec }

-- `timercmp` and `timescmp` at a comparison of integers.
unfoldable pub timercmp : (ℤ → ℤ → Bool) → Timeval → Timeval → Bool
timercmp cmp t u =
    if eqb_ℤ t.tv_sec u.tv_sec then cmp t.tv_usec u.tv_usec else cmp t.tv_sec u.tv_sec

unfoldable pub timescmp : (ℤ → ℤ → Bool) → Timespec → Timespec → Bool
timescmp cmp t u =
    if eqb_ℤ t.tv_sec u.tv_sec then cmp t.tv_nsec u.tv_nsec else cmp t.tv_sec u.tv_sec
