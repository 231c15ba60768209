-- ===== src/Replay/Rate/Modes.antt =====
-- `calc_sleep_time` after the first packet, in the modes by bits and by packets.
use tcpreplay.Prelude.{ℕ, ◌+◌, ◌*◌, ◌<◌, ◌≡◌, arith, false, some, ◌==◌, if◌then◌else◌, u64, ap, ◌∙◌}
use tcpreplay.Timer.{Timespec}
use tcpreplay.Replay.Rate.{
  SpeedMode, mbpsrate, Speed, Pace, timespec_to_nanosec, sub_u64, bits_due, mbps_by, by_speed,
  cleared, cleared_by, calc_sleep_time,
}

-- After the first packet the mode decides, on the state with the nap cleared.
pub calc_later :
    (s : Speed) (p : Pace) (pkt_ts_delta time_delta sent_timestamp : Timespec)
    (len start user_count : ℕ) (m : SpeedMode)
    → p.first_time ≡ false
    → s.mode ≡ m
    → calc_sleep_time s p pkt_ts_delta time_delta len sent_timestamp start user_count
      ≡ by_speed s
          (cleared_by m s p)
          pkt_ts_delta
          time_delta
          len
          (timespec_to_nanosec sent_timestamp)
          start
          user_count
          m
unfolding calc_sleep_time
calc_later s p pkt_ts_delta time_delta sent_timestamp len start user_count m later mode =
    ap
      (λ b.
        if b
        then some (record (cleared s p) { first_time = false })
        else by_speed s (cleared s p) pkt_ts_delta time_delta len
            (timespec_to_nanosec sent_timestamp) start user_count s.mode)
      later
    ∙ ap
        (λ k.
          by_speed s (cleared_by k s p) pkt_ts_delta time_delta len
            (timespec_to_nanosec sent_timestamp) start user_count k)
        mode

pub by_bits :
    (s : Speed) (p : Pace) (pkt_ts_delta time_delta : Timespec) (len now start user_count : ℕ)
    → 0 < now
    → by_speed s p pkt_ts_delta time_delta len now start user_count mbpsrate
      ≡ mbps_by s p (sub_u64 now start) (bits_due (u64 ((p.bytes_sent + len) * 8)) s.speed)
unfolding by_speed
by_bits s p pkt_ts_delta time_delta len now start user_count running =
    ap
      (λ b.
        if b
        then some p
        else mbps_by s p (sub_u64 now start) (bits_due (u64 ((p.bytes_sent + len) * 8)) s.speed))
      (let e : (now == 0) ≡ false = ground arith in e)
