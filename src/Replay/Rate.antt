-- ===== src/Replay/Rate.antt =====
-- `calc_sleep_time` of src/send_packets.c and the accelerator in front of it: how long tcpreplay
-- sleeps before a packet, and which packets it sends without looking at the clock.
pub mod Skips
pub mod Modes
pub mod Laws
use tcpreplay.Prelude.{
  ℕ, ◌+◌, ◌-◌, ◌*◌, ◌/◌, ◌%◌, ◌^◌, Bool, true, false, List, [], ◌∷◌, Option, none, some, ltb, ◌==◌,
  ◌&&◌, not, if◌then◌else◌, u32, u64, ℤ, pos, negsuc,
}
use tcpreplay.Timer.{Timespec, times_ℤ, timescmp, timessub, timesisset}
use tcpreplay.Timer.Laws.{gtb_ℤ}

-- `tcpreplay_speed_mode`
pub data SpeedMode : Type 0 where
  multiplier mbpsrate packetrate topspeed oneatatime : SpeedMode

-- `tcpreplay_speed_t`; `speed` is in bits a second or in packets an hour.
pub record Speed : Type 0 where
  pub mode : SpeedMode
  pub speed : ℕ
  pub pps_multi : ℕ

-- What `calc_sleep_time` uses of `tcpreplay_t`, and `skip_length` of its caller.
pub record Pace : Type 0 where
  pub nap : Timespec
  pub skip_packets : ℕ
  pub skip_length : ℕ
  pub first_time : Bool
  pub pkts_sent : ℕ
  pub bytes_sent : ℕ

abbrev pub no_time : Timespec
no_time = record { tv_sec = pos 0; tv_nsec = pos 0 }

-- An integer in 64 bits.
abbrev pub word64 : ℤ → ℕ
word64 (pos n) = u64 n
word64 (negsuc n) = 2 ^ 64 - 1 - n % 2 ^ 64

-- `TIMESPEC_TO_NANOSEC` and `NANOSEC_TO_TIMESPEC`
unfoldable pub timespec_to_nanosec : Timespec → ℕ
timespec_to_nanosec ts = u64 (word64 (times_ℤ 1_000_000_000 ts.tv_sec) + word64 ts.tv_nsec)

unfoldable pub nanosec_to_timespec : ℕ → Timespec
nanosec_to_timespec x = record {
  tv_sec = pos (x / 1_000_000_000);
  tv_nsec = pos (x % 1_000_000_000);
}

abbrev pub sub_u64 : ℕ → ℕ → ℕ
sub_u64 a b = (a + 2 ^ 64 - b % 2 ^ 64) % 2 ^ 64

-- `none` is a division by 0.
abbrev pub divided : ℕ → ℕ → Option ℕ
divided a b = if b == 0 then none else some (u64 (a / b))

-- The time since the start by which `bits` may be sent: with a product of 128 bits.
unfoldable pub bits_due : ℕ → ℕ → Option ℕ
bits_due bits bps = divided (bits * 1_000_000_000) bps

unfoldable pub packets_due : ℕ → ℕ → Option ℕ
packets_due pkts pph = divided (pkts * 1_000_000_000 * 3600) pph

-- Too early, the nap lasts until the time that is due. Too late, the bytes are counted that the rate
-- allows until now; that product has 64 bits only.
abbrev pub mbps_by : Speed → Pace → ℕ → Option ℕ → Option Pace
mbps_by s p tx_ns none = none
mbps_by s p tx_ns (some next_tx_ns) =
    if ltb tx_ns next_tx_ns
    then some (record p { nap = nanosec_to_timespec (next_tx_ns - tx_ns) })
    else if ltb next_tx_ns tx_ns
    then some (record p { skip_length = u64 ((tx_ns - next_tx_ns) * s.speed) / 8_000_000_000 })
    else some p

abbrev pub packets_by : Speed → Pace → ℕ → Option ℕ → Option Pace
packets_by s p tx_ns none = none
packets_by s p tx_ns (some next_tx_ns) =
    if ltb tx_ns next_tx_ns
    then some (record p { nap = nanosec_to_timespec (next_tx_ns - tx_ns) })
    else some (record p { skip_packets = s.pps_multi })

-- The switch over the modes, at the time `now` of the packet sent last. `user_count` is what the user
-- answers.
unfoldable pub by_speed :
    Speed → Pace → Timespec → Timespec → ℕ → ℕ → ℕ → ℕ → SpeedMode → Option Pace
by_speed s p pkt_ts_delta time_delta len now_ns start_ns user_count multiplier =
    if timescmp gtb_ℤ pkt_ts_delta time_delta
    then some (record p { nap = timessub pkt_ts_delta time_delta })
    else some p
by_speed s p pkt_ts_delta time_delta len now_ns start_ns user_count mbpsrate =
    if now_ns == 0
    then some p
    else mbps_by s p (sub_u64 now_ns start_ns) (bits_due (u64 ((p.bytes_sent + len) * 8)) s.speed)
by_speed s p pkt_ts_delta time_delta len now_ns start_ns user_count packetrate =
    if now_ns == 0
    then some p
    else packets_by s p (sub_u64 now_ns start_ns) (packets_due p.pkts_sent s.speed)
by_speed s p pkt_ts_delta time_delta len now_ns start_ns user_count oneatatime =
    let count = if p.skip_packets == 0 then user_count else p.skip_packets in
    some (record p { skip_packets = u32 (count + 2 ^ 32 - 1) })
by_speed s p pkt_ts_delta time_delta len now_ns start_ns user_count topspeed = some p

abbrev pub is_packetrate : SpeedMode → Bool
is_packetrate packetrate = true
is_packetrate m = false

-- The nap is cleared, and with `pps_multi` packets in a row all but one skip the clock.
abbrev pub cleared_by : SpeedMode → Speed → Pace → Pace
cleared_by m s p =
    if is_packetrate m && not (s.pps_multi == 0)
    then record p { nap = no_time; skip_packets = u32 (s.pps_multi + 2 ^ 32 - 1) }
    else record p { nap = no_time }

abbrev pub cleared : Speed → Pace → Pace
cleared s p = cleared_by s.mode s p

-- `none` is a division by 0.
unfoldable pub calc_sleep_time :
    Speed → Pace → Timespec → Timespec → ℕ → Timespec → ℕ → ℕ → Option Pace
calc_sleep_time s p pkt_ts_delta time_delta len sent_timestamp start_ns user_count =
    if p.first_time
    then some (record (cleared s p) { first_time = false })
    else by_speed s (cleared s p) pkt_ts_delta time_delta len (timespec_to_nanosec sent_timestamp)
        start_ns user_count s.mode

-- The accelerator: `none` is to look at the clock, for which both counts are cleared.
unfoldable pub skip_clock : Pace → ℕ → Option Pace
skip_clock p pktlen =
    if not (p.skip_length == 0) && ltb pktlen p.skip_length
    then some (record p { skip_length = p.skip_length - pktlen })
    else if not (p.skip_packets == 0)
    then some (record p { skip_packets = p.skip_packets - 1 })
    else none

-- The packet's counts, once it is sent.
abbrev pub sent : Pace → ℕ → Pace
sent p len = record p { pkts_sent = u64 (p.pkts_sent + 1); bytes_sent = u64 (p.bytes_sent + len) }

abbrev pub then_pace : Option Pace → (Pace → Option Pace) → Option Pace
then_pace none k = none
then_pace (some p) k = k p

-- The packets of these lengths, sent while none of them wants the clock.
unfoldable pub send_skipped : Pace → List ℕ → Option Pace
send_skipped p [] = some p
send_skipped p (len ∷ lens) = then_pace (skip_clock p len) (λ q. send_skipped (sent q len) lens)

-- The nap is cut to the longest that is allowed, if there is one; `none` is no sleep.
unfoldable pub nap_of : Timespec → Timespec → Option Timespec
nap_of maxsleep nap =
    if timesisset nap
    then (if timesisset maxsleep && timescmp gtb_ℤ nap maxsleep then some maxsleep else some nap)
    else none
