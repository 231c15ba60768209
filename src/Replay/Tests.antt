-- ===== src/Replay/Tests.antt =====
-- Replays of one frame: its addresses in a pass, its nap, and its way from tcpprep to an interface.
use tcpreplay.Prelude.{
  Option, ℕ, ◌≡◌, ◌≢◌, ◌⊎◌, refl, arith, true, false, List, [], ◌∷◌, none, some, pos,
}
use tcpreplay.Cache.{s2c, check_cache, check_byte, bit_test, promote}
use tcpreplay.Cache.Blocks.Run.{Call}
use tcpreplay.Packet.{value}
use tcpreplay.Packet.Laws.{Ends}
use tcpreplay.L2.{Layer2, get_l2len_protocol}
use tcpreplay.Tree.{Node}
use tcpreplay.Prep.{cidr_mode}
use tcpreplay.Prep
use tcpreplay.Prep.Ready.{MayExit}
use tcpreplay.Prep.Run.{State, exited, done, process_raw_packets}
use tcpreplay.Prep.Cached.{Records}
use tcpreplay.Prep.Samples.{hostless, disk, disk-IsHonest, frame, ten, options, is_ready, captured}
use tcpreplay.Replay.Unique.{unique_pair, fast_edit_packet}
use tcpreplay.Replay.Unique.Laws.{unique_pair_differs}
use tcpreplay.Replay.Unique.Edits.{IsPass?, fast_edit_packet_lem}
use tcpreplay.Replay.Rate.{Speed, mbpsrate, Pace, no_time, calc_sleep_time, timespec_to_nanosec}
use tcpreplay.Replay.Rate.Laws.{IsRated, IsDue, IsPaced, calc_sleep_time_mbps}
use tcpreplay.Replay.Send.{Captured, Options, World, send_packets}
use tcpreplay.Replay.Send.Limits.{Answers, Explains, Keeps, send_packets_lem}
use tcpreplay.Replay.Whole.{start, Follows, tcpprep_tcpreplay}
use tcpreplay.Timer.{Timespec}

fast_edit_packet_lem_example :
    (o : Option Layer2) × (get_l2len_protocol frame 1 ≡ value o)
    × Ends (IsPass? false 7 frame o) (fast_edit_packet false 7 frame 1)
fast_edit_packet_lem_example = fast_edit_packet_lem false 7 frame 1 (omega arith)

-- The source wraps.
unique_pair_differs_example : unique_pair false 5 3 0x0a000001 ≢ unique_pair false 4 3 0x0a000001
unique_pair_differs_example =
    unique_pair_differs 5 4 3 0x0a000001 (omega arith) (omega arith) (omega arith) (omega arith)
      (λ e. absurd (omega arith))

-- 8000 bits a second, after 1000 bytes.
abbrev slow : Speed
slow = record { mode = mbpsrate; speed = 8000; pps_multi = 0 }

abbrev pace : Pace
pace = record {
  nap = no_time;
  skip_packets = 0;
  skip_length = 0;
  first_time = false;
  pkts_sent = 10;
  bytes_sent = 1000;
}

abbrev clock : Timespec
clock = record { tv_sec = pos 5; tv_nsec = pos 500 }

slow-IsRated : IsRated slow pace 500 4_000_000_000 5_000_000_500
slow-IsRated = record {
  mode = refl;
  speed = omega arith;
  later = refl;
  no_packets = refl;
  no_length = refl;
  clock = omega arith;
  running = omega arith;
  fits_now = omega arith;
  fits_bits = omega arith;
  fits_due = omega arith;
}

clock_value : timespec_to_nanosec clock ≡ 5_000_000_500
unfolding timespec_to_nanosec
clock_value = refl

calc_sleep_time_mbps_example :
    (q : Pace) × (d : ℕ) × (calc_sleep_time slow pace no_time no_time 500 clock 4_000_000_000 1
      ≡ some q)
    × IsDue slow 12000 d
    × IsPaced slow 12000 1_000_000_500 d q
calc_sleep_time_mbps_example =
    calc_sleep_time_mbps slow pace 500 4_000_000_000 5_000_000_500 no_time no_time clock 1
      slow-IsRated clock_value

abbrev caught : List Captured
caught = record { bytes = frame; len = 60 } ∷ []

tcpprep_tcpreplay_example :
    let o : Prep.Options = options cidr_mode (ten ∷ []) in
    let run =
      process_raw_packets hostless o (record { tree = []; cachedata = none }) 0 (frame ∷ []) in
    ((run ≡ value exited) × MayExit o.mode)
    ⊎ ((s : State (List Node)) × (calls : List Call) × (run ≡ value (done s 1))
        × Records hostless [] o 0 (frame ∷ []) calls
        × Follows hostless [] o caught disk none s calls)
tcpprep_tcpreplay_example =
    tcpprep_tcpreplay hostless [] (options cidr_mode (ten ∷ [])) caught disk none is_ready
      (captured, tt) disk-IsHonest (omega arith) (omega arith) (omega arith)

-- One packet at most, out of the secondary interface, each pass with addresses of its own.
abbrev limited : Options
limited = record {
  list = [];
  is_exclude = false;
  use_pkthdr_len = true;
  cachedata = 2 ∷ [];
  cache_packets = 1;
  dual = true;
  unique_ip = true;
  unique_iteration = 3;
  last_unique_iteration = 2;
  preload = false;
  datalink = 1;
  limit_send = 1;
}

abbrev world : World
world = record {
  lost = λ num. false;
  takes = λ num bytes. true;
  gives_up = λ num. false;
  raw_ip = λ sp. true;
  time_is_up = λ num. false;
}

limited-Answers : Answers limited
limited-Answers num positive within = (
  s2c,
  rw (let e : num ≡ 1 = omega arith in e) (unfold check_cache check_byte bit_test promote in refl),
)

send_packets_lem_example :
    Ends
      (λ u. Explains (record { bytes = frame; len = 60 } ∷ caught) start u × Keeps limited u)
      (send_packets limited world start (record { bytes = frame; len = 60 } ∷ caught))
send_packets_lem_example =
    send_packets_lem limited world (record { bytes = frame; len = 60 } ∷ caught) start
      limited-Answers (omega arith) (λ l. (omega arith, λ e. omega arith))
