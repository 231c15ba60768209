-- ===== src/L2/Tests.antt =====
-- Witnesses for the layer 2 headers: a tagged frame, and a Juniper packet without layer 2 header.
use tcpreplay.Prelude.{ℕ, ◌≡◌, ◌≢◌, ◌^◌, refl, arith, List, [], ◌∷◌, ◌++◌, some}
use tcpreplay.Packet.{value, be16_at, byte_of}
use tcpreplay.Packet.Laws.{Ends}
use tcpreplay.L2.{
  by_link, link_of, ethernet, parse_metadata, metadata_loop, metadata_turn, tag_of, parse_vlan,
  ip_header, get_l2len_protocol, get_ipv4, get_ipv6, juniper_ether,
}
use tcpreplay.L2.Bounds.{IsInside, get_l2len_protocol_lem}
use tcpreplay.L2.Ip.{Holds, plain_juniper, get_ipv4_lem, get_ipv4_juniper}

abbrev twelve : List ℕ
twelve = 1 ∷ 2 ∷ 3 ∷ 4 ∷ 5 ∷ 6 ∷ 7 ∷ 8 ∷ 9 ∷ 10 ∷ 11 ∷ 12 ∷ []

abbrev twenty : List ℕ
twenty = 0x45 ∷ 0 ∷ 0 ∷ 20 ∷ 0 ∷ 0 ∷ 0 ∷ 0 ∷ 64 ∷ 6 ∷ 0 ∷ 0 ∷ 10 ∷ 0 ∷ 0 ∷ 1 ∷ 10 ∷ 0 ∷ 0 ∷ 2 ∷ []

-- One VLAN tag in front of an IPv4 header.
abbrev tagged : List ℕ
tagged = (twelve ++ (0x81 ∷ 0 ∷ 0 ∷ 7 ∷ 0x08 ∷ 0 ∷ [])) ++ twenty

tagged_lengths :
    get_l2len_protocol tagged 1
    ≡ value (some (record { protocol = 0x0800; l2len = 18; l2offset = 0; vlan_offset = 14 }))
unfolding get_l2len_protocol by_link link_of ethernet be16_at byte_of parse_metadata metadata_loop
    metadata_turn tag_of parse_vlan
tagged_lengths = refl

tagged_ip : get_ipv4 tagged 1 ≡ value (some 18)
unfolding get_ipv4 get_l2len_protocol by_link link_of ethernet be16_at byte_of parse_metadata
    metadata_loop metadata_turn tag_of parse_vlan ip_header
tagged_ip = refl

get_l2len_protocol_lem_example : Ends (IsInside tagged) (get_l2len_protocol tagged 1)
get_l2len_protocol_lem_example = get_l2len_protocol_lem tagged 1

is_ethernet : link_of 1 ≢ juniper_ether
unfolding link_of
is_ethernet e = cc e

get_ipv4_lem_example :
    Ends (Holds tagged 20) (get_ipv4 tagged 1) × Ends (Holds tagged 40) (get_ipv6 tagged 1)
get_ipv4_lem_example = get_ipv4_lem tagged 1 (omega arith) is_ethernet

get_ipv4_juniper_example :
    get_ipv4 (plain_juniper 0x02 0x45 (0 ∷ twenty)) 178 ≡ value (some (2 ^ 32))
get_ipv4_juniper_example = get_ipv4_juniper 0x02 0x45 (0 ∷ twenty) refl refl refl (omega arith)
