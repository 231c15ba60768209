-- ===== src/Replay/Rate/Laws.antt =====
-- The rate in bits a second: naps that end when the next packet is due, and packets sent without a
-- look at the clock only as far as the rate allows.
use tcpreplay.Prelude.{
  ℕ, ◌+◌, ◌-◌, ◌*◌, ◌/◌, ◌^◌, ◌≤◌, ◌<◌, ◌≡◌, ◌⊎◌, refl, arith, false, List, some, ltb, ◌==◌, inl,
  inr, Bool-cases, ltb→lt, ltb→le, u64, ap, ap₂, subst, ◌∙◌,
}
use native.Mathlib.Nat.{mul-div-le, div-lt_iff_lt-mul, mul_comm}
use tcpreplay.Timer.{Timespec}
use tcpreplay.Replay.Rate.Skips.{total, skipped_within}
use tcpreplay.Replay.Rate.Modes.{calc_later, by_bits}
use tcpreplay.Replay.Rate.{
  mbpsrate, Speed, Pace, no_time, timespec_to_nanosec, nanosec_to_timespec, sub_u64, divided,
  bits_due, mbps_by, by_speed, calc_sleep_time, send_skipped,
}

-- The mode by bits a second, in the run after the first packet, at the time `now` of the packet sent
-- last, where the accelerator has run out and no product leaves its 64 bits.
pub record IsRated (s : Speed) (p : Pace) (len start now : ℕ) : Type 0 where
  pub mode : s.mode ≡ mbpsrate
  pub speed : 0 < s.speed
  pub later : p.first_time ≡ false
  pub no_packets : p.skip_packets ≡ 0
  pub no_length : p.skip_length ≡ 0
  pub clock : start ≤ now
  pub running : 0 < now
  pub fits_now : now < 2 ^ 64
  pub fits_bits : (p.bytes_sent + len) * 8 < 2 ^ 64
  pub fits_due : (p.bytes_sent + len) * 8 * 1_000_000_000 < 2 ^ 64 * s.speed

-- The packet is due at `due` nanoseconds after the start: the first at which the rate allows it, to
-- a nanosecond.
abbrev pub IsDue : Speed → ℕ → ℕ → Type 0
IsDue s bits due =
    (due * s.speed ≤ bits * 1_000_000_000) × (bits * 1_000_000_000 < (due + 1) * s.speed)

-- The state after the call: a nap until the packet is due, or no nap, and only as many bytes without
-- the clock as the rate allows by now, to a nanosecond.
abbrev pub IsPaced : Speed → ℕ → ℕ → ℕ → Pace → Type 0
IsPaced s bits elapsed d q =
    ((elapsed < d) × (elapsed + timespec_to_nanosec q.nap ≡ d))
    ⊎ ((d ≤ elapsed)
        × (q.nap ≡ no_time)
        × ((lens : List ℕ) (u : Pace)
            → send_skipped q lens ≡ some u
            → (bits + total lens * 8) * 1_000_000_000 ≤ (elapsed + 1) * s.speed))

quotient_lem : (a b : ℕ) → 0 < b → (a / b * b ≤ a) × (a < (a / b + 1) * b)
quotient_lem a b positive = (
  subst (λ n. n ≤ a) (mul_comm b (a / b)) (mul-div-le a b),
  (div-lt_iff_lt-mul {k = b} {x = a} {y = a / b + 1} positive).0 (omega arith),
)

divided_lem : (a b : ℕ) → 0 < b → a < 2 ^ 64 * b → (divided a b ≡ some (a / b)) × (a / b < 2 ^ 64)
divided_lem a b positive fits =
    let small = (div-lt_iff_lt-mul {k = b} {x = a} {y = 2 ^ 64} positive).1 fits in
    let one : (b == 0) ≡ false = ground arith in
    (rw one (ap some (let e : u64 (a / b) ≡ a / b = omega arith in e)), small)

lag_lem : (a d k : ℕ) → d ≤ a → (a - d) * k + d * k ≡ a * k
lag_lem a d k h = let e : a - d + d ≡ a = omega arith in omega (arith, ap (λ (n : ℕ). n * k) e)

-- The state that the mode by bits a second starts from.
abbrev pub rested : Pace → Pace
rested p = record p { nap = no_time }

module _ (s : Speed) (p : Pace) (len start now : ℕ) (r : IsRated s p len start now) where
  abbrev bits : ℕ
  bits = (p.bytes_sent + len) * 8

  abbrev due : ℕ
  due = bits * 1_000_000_000 / s.speed

  -- What the mode makes of the time that is due.
  paced_lem :
      (pkt_ts_delta time_delta sent_timestamp : Timespec) (user_count : ℕ)
      → timespec_to_nanosec sent_timestamp ≡ now
      → calc_sleep_time s p pkt_ts_delta time_delta len sent_timestamp start user_count
        ≡ mbps_by s (rested p) (now - start) (some due)
  unfolding bits_due
  paced_lem pkt_ts_delta time_delta sent_timestamp user_count e =
      let clock = r.clock in
      let running = r.running in
      let fits_now = r.fits_now in
      let fits_bits = r.fits_bits in
      let elapsed : sub_u64 now start ≡ now - start = omega arith in
      let whole : u64 bits ≡ bits = omega arith in
      calc_later s p pkt_ts_delta time_delta sent_timestamp len start user_count mbpsrate r.later
        r.mode
      ∙ ap (λ n. by_speed s (rested p) pkt_ts_delta time_delta len n start user_count mbpsrate) e
      ∙ by_bits s (rested p) pkt_ts_delta time_delta len now start user_count running
      ∙ ap₂ (mbps_by s (rested p)) elapsed (
          ap (λ n. bits_due n s.speed) whole
          ∙ (divided_lem (bits * 1_000_000_000) s.speed r.speed r.fits_due).0)

  abbrev elapsed : ℕ
  elapsed = now - start

  nap_lem : (n : ℕ) → n < 2 ^ 64 → timespec_to_nanosec (nanosec_to_timespec n) ≡ n
  unfolding timespec_to_nanosec nanosec_to_timespec
  nap_lem n h = omega arith

  late_lem :
      (q u : Pace) (lens : List ℕ)
      → due ≤ elapsed
      → q.skip_packets ≡ 0
      → q.skip_length * 8_000_000_000 ≤ (elapsed - due) * s.speed
      → send_skipped q lens ≡ some u
      → (bits + total lens * 8) * 1_000_000_000 ≤ (elapsed + 1) * s.speed
  late_lem q u lens late no_packets within e =
      let few : total lens ≤ q.skip_length = skipped_within q u lens no_packets e in
      let limit = (quotient_lem (bits * 1_000_000_000) s.speed r.speed).1 in
      let lag : (elapsed - due) * s.speed + due * s.speed ≡ elapsed * s.speed =
        lag_lem elapsed due s.speed late in
      omega arith

  early_lem :
      elapsed < due
      → IsPaced s bits elapsed due (record (rested p) { nap = nanosec_to_timespec (due - elapsed) })
  early_lem h =
      let small = (divided_lem (bits * 1_000_000_000) s.speed r.speed r.fits_due).1 in
      let back = nap_lem (due - elapsed) (omega arith) in inl (h, omega arith)

  cut : (x : ℕ) → u64 x / 8_000_000_000 * 8_000_000_000 ≤ x
  cut x = omega arith

  behind : Pace
  behind = record (rested p) { skip_length = u64 ((elapsed - due) * s.speed) / 8_000_000_000 }

  behind_lem : due ≤ elapsed → IsPaced s bits elapsed due behind
  unfolding behind
  behind_lem h =
      inr
        (h, refl, λ lens u. late_lem behind u lens h r.no_packets (cut ((elapsed - due) * s.speed)))

  level_lem : due ≤ elapsed → IsPaced s bits elapsed due (rested p)
  level_lem h = inr (
    h,
    refl,
    λ lens u.
        late_lem (rested p) u lens h r.no_packets
          (let none_left : p.skip_length ≡ 0 = r.no_length in omega arith),
  )

  split_lem :
      (q : Pace) × (mbps_by s (rested p) elapsed (some due) ≡ some q) × IsPaced s bits elapsed due q
  unfolding behind
  split_lem = elim (Bool-cases (ltb elapsed due)) [
    | inl early ↦ (
      record (rested p) { nap = nanosec_to_timespec (due - elapsed) },
      rw early refl,
      early_lem (ltb→lt elapsed due early),
    )
    | inr not_early ↦ elim (Bool-cases (ltb due elapsed)) [
      | inl late ↦ (behind, rw not_early (rw late refl), behind_lem (ltb→le elapsed due not_early))
      | inr level ↦
          (rested p, rw not_early (rw level refl), level_lem (ltb→le elapsed due not_early))
    ]
  ]

-- The mode by bits a second, as `IsRated` describes it: `calc_sleep_time` does not divide by 0. The
-- packet is due at the time at which the rate allows the bits that are sent with it, to a nanosecond.
-- If that is to come, the nap lasts until then. If not, there is no nap, and whatever packets are
-- sent next without a look at the clock, all bits sent are no more than the rate allows by now, to a
-- nanosecond.
pub calc_sleep_time_mbps :
    (s : Speed) (p : Pace) (len start now : ℕ) (pkt_ts_delta time_delta sent_timestamp : Timespec)
    (user_count : ℕ)
    → IsRated s p len start now
    → timespec_to_nanosec sent_timestamp ≡ now
    → (q : Pace) × (d : ℕ) × (calc_sleep_time s p pkt_ts_delta time_delta len sent_timestamp start
          user_count
        ≡ some q)
      × IsDue s ((p.bytes_sent + len) * 8) d
      × IsPaced s ((p.bytes_sent + len) * 8) (now - start) d q
calc_sleep_time_mbps s p len start now pkt_ts_delta time_delta sent_timestamp user_count r e =
    let split = split_lem s p len start now r in
    (
      split.0,
      (p.bytes_sent + len) * 8 * 1_000_000_000 / s.speed,
      paced_lem s p len start now r pkt_ts_delta time_delta sent_timestamp user_count e ∙ split.1,
      quotient_lem ((p.bytes_sent + len) * 8 * 1_000_000_000) s.speed r.speed,
      split.2,
    )
