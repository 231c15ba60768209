-- ===== src/Prep/Tests.antt =====
-- tcpprep on two frames: by networks, by MAC address, and by regular expression.
use tcpreplay.Prelude.{
  inl, ℕ, ◌≡◌, ◌⊎◌, ◌<◌, refl, arith, true, false, List, [], ◌∷◌, none, some, Any,
}
use tcpreplay.Cache.{Dir, s2c, send_flag, add_result}
use tcpreplay.Cache.Blocks.Run.{Call}
use tcpreplay.Cidr.V4.{InNetwork}
use tcpreplay.Filter.Laws.{source}
use tcpreplay.Packet.{value, be16_at, byte_of}
use tcpreplay.L2.{
  by_link, link_of, ethernet, parse_metadata, metadata_loop, metadata_turn, tag_of, parse_vlan,
  ip_header, get_l2len_protocol, get_ipv4,
}
use tcpreplay.Tree.{Node}
use tcpreplay.Tree.Packets.{le32_at, le16_at}
use tcpreplay.Prep.{Options, cidr_mode, regex_mode, mac_mode, cache, v4, find_ip, left_out}
use tcpreplay.Prep.Ready.{MayExit, IsReady}
use tcpreplay.Prep.Run.{State, exited, done, process_packet, process_raw_packets}
use tcpreplay.Prep.Cached.{Records, Answers, asked, tcpprep_round_trip}
use tcpreplay.Prep.Cidrs.{Gets, AsksFor, process_packet-cidr_mode}
use tcpreplay.Prep.Skips.{later, mac_mode_skips, regex_mode_reversed}
use tcpreplay.Prep.Samples.{
  hostless, disk, disk-IsHonest, frame, ten, options, is_ethernet, ten-IsWellFormed, is_ready,
  captured,
}

abbrev two : List (List ℕ)
two = frame ∷ (1 ∷ 2 ∷ 3 ∷ []) ∷ []

tcpprep_round_trip_example :
    let o : Options = options cidr_mode (ten ∷ []) in
    let run = process_raw_packets hostless o (record { tree = []; cachedata = none }) 0 two in
    ((run ≡ value exited) × MayExit o.mode)
    ⊎ ((s : State (List Node)) × (calls : List Call) × (run ≡ value (done s 2))
        × (s.tree ≡ [])
        × Records hostless [] o 0 two calls
        × ((i : ℕ) → i < 2 → Answers disk s.cachedata 2 none i (asked calls i)))
tcpprep_round_trip_example =
    tcpprep_round_trip hostless [] (options cidr_mode (ten ∷ [])) two disk none is_ready
      (captured, ((omega arith, omega arith, λ e. cc e), tt)) disk-IsHonest (omega arith)
      (omega arith)

frame_ip : get_ipv4 frame 1 ≡ value (some 14)
unfolding get_ipv4 get_l2len_protocol by_link link_of ethernet be16_at byte_of parse_metadata
    metadata_loop metadata_turn tag_of parse_vlan ip_header
frame_ip = refl

frame_addresses : (le32_at frame 26 ≡ value 0x0100000a) × (le32_at frame 30 ≡ value 0x0200000a)
unfolding le32_at le16_at byte_of
frame_addresses = (refl, refl)

not_left_out : left_out (options cidr_mode (ten ∷ [])) 1 ≡ false
unfolding left_out
not_left_out = refl

frame_found : find_ip frame 1 ≡ value (some (v4 14))
unfolding find_ip
frame_found = rw frame_ip refl

process_packet-cidr_mode_example :
    let o : Options = options cidr_mode (ten ∷ []) in
    ((o.xx_mode ≡ 1)
      → Gets
          (process_packet hostless [] o 1 frame)
          true
          (AsksFor source (ten ∷ []) 0x0100000a 0x0200000a)
          (Any (InNetwork 0x0100000a) (ten ∷ [])))
    × ((o.xx_mode ≡ 129)
        → Gets
            (process_packet hostless [] o 1 frame)
            true
            (¬ AsksFor source (ten ∷ []) 0x0100000a 0x0200000a)
            (Any (InNetwork 0x0100000a) (ten ∷ [])))
process_packet-cidr_mode_example =
    process_packet-cidr_mode hostless [] (options cidr_mode (ten ∷ [])) 1 frame 14 0x0100000a
      0x0200000a source ten [] ten [] refl not_left_out refl refl (ten-IsWellFormed, tt)
      (ten-IsWellFormed, tt) (frame_ip, frame_addresses.0, frame_addresses.1)

mac_mode_skips_example :
    let s : State (List Node) = record { tree = []; cachedata = none } in
    process_raw_packets hostless (options mac_mode []) s 0 (frame ∷ (1 ∷ []) ∷ frame ∷ [])
    ≡ later (process_raw_packets hostless (options mac_mode []) s 0 (frame ∷ frame ∷ []))
mac_mode_skips_example =
    mac_mode_skips hostless (options mac_mode []) refl (frame ∷ []) (frame ∷ []) (1 ∷ [])
      (record { tree = []; cachedata = none }) 0 refl (omega arith)

regex_mode_reversed_example :
    (d : Dir) × (process_packet hostless [] (options regex_mode []) 1 frame
      ≡ value (cache send_flag d))
    × (add_result send_flag d ≡ s2c)
regex_mode_reversed_example =
    regex_mode_reversed hostless [] (options regex_mode []) 1 frame (v4 14) refl refl refl refl
      captured is_ethernet frame_found

-- Without a filter, and with a list of packets to leave out.
no_filter-IsReady : IsReady (record (options cidr_mode []) { xx_mode = 0 })
no_filter-IsReady = record {
  records = tt;
  link = is_ethernet;
  networks = ((ten-IsWellFormed, tt), tt);
  filters = tt;
  filter_mode = inl refl;
}

list-IsReady : IsReady (record (options cidr_mode []) {
  xx_mode = 144;
  xx_list = record { min_value = 2; max_value = 3 } ∷ [];
})
list-IsReady = record {
  records = tt;
  link = is_ethernet;
  networks = ((ten-IsWellFormed, tt), tt);
  filters = tt;
  filter_mode = inl refl;
}
