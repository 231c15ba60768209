-- ===== src/Lib.antt =====
-- The core of tcpreplay: how a packet is classified and cached, and how its headers are rewritten.
--
-- tcpprep reads a capture, decides for each packet on a direction, by networks or by what its tree
-- of hosts has counted, and writes a cache file; tcpreplay reads that file and asks it for each
-- packet on which interface it goes out, and when. The filters -x and -X keep or drop packets by the networks
-- that their addresses lie in.
-- tcprewrite finds the IP header behind the link layer, changes addresses, ports, TTL and TCP
-- sequence numbers, and corrects the checksums by what changed. The times between packets are sums
-- and differences of struct timespec.
--
-- Files and code, by paths from the root of the repository:
-- - Prelude and its children: numbers, machine words, integers, lists and the tests on them.
-- - Libc, Libc/Tokens, Libc/Decimal, Libc/Cut: strtol, strtok_r and strchr, as the C standard has
--   them in the "C" locale with a 64-bit long; the digits of a number.
-- - Cache: src/common/cache.c and cache.h. Block is tcpr_cache_t, Chain the linked list of them;
--   add_cache takes a block with room (room_for_one), sets two bits (record_packet), and returns the
--   direction (add_result). check_cache is the lookup at run time.
-- - Cache/Slots, Cache/Blocks, Cache/Blocks/Steps, Cache/Blocks/Run: two bits as a slot of a row of
--   bytes; chains as rows of slots; one call of add_cache, and a run of calls.
-- - Cache/File and its children: write_cache and read_cache. A file is its bytes; the system calls
--   are the record Os, and each errx is an Exit.
-- - Checksum: src/tcpedit/incremental_checksum.h. Checksum/Partial: do_csum and csum_partial of
--   src/tcpedit/incremental_checksum.c, and csum_replace16; a block of memory is its address and
--   its bytes. A checksum is right where the sum of all words of the packet is 0 modulo 65535.
-- - FullChecksum: src/tcpedit/checksum.c, and fix_ipv4_checksums and fix_ipv6_checksums of
--   src/tcpedit/edit_packet.c, on the bytes from the IP header up to the end of the capture.
--   FullChecksum/Windows: what a store does to a sum. FullChecksum/Laws, FullChecksum/Fix,
--   FullChecksum/Fix6: one checksum, and those of an IPv4 and of an IPv6 packet.
-- - Timer: the macros of src/common/timer.h, over integers without a bound.
-- - Cidr, Cidr/V4, Cidr/V6: the tests of networks of src/common/cidr.c. A shift that C leaves
--   undefined is none.
-- - Mac: mac2hex, dualmac2hex and macinstring of src/common/mac.c. Libc/Hex: strtol in base 16.
-- - Filter: process_xX_by_cidr_ipv4 and process_xX_by_cidr_ipv6 of src/common/xX.c.
-- - Portmap, Portmap/Parse, Portmap/Bounds: the parser and the lookup of src/tcpedit/portmap.c.
-- - Portmap/Rewrite: rewrite_ports and rewrite_ipv4_ports of the same file, and get_layer4_v4 of
--   src/common/get.c.
-- - Sequence: src/tcpedit/rewrite_sequence.c.
-- - Packet, Packet/Laws: reads of the bytes of a packet, where one past the end is a result of its
--   own, and the rules by which a walk over them is shown to end.
-- - L2: parse_vlan, parse_mpls, parse_metadata, get_l2len_protocol, get_l2len, get_ipv4 and get_ipv6
--   of src/common/get.c. L2/Labels, L2/Bounds, L2/Ip: the loops over tags and labels, the whole walk,
--   and the place of the IP header. The headers of Linux cooked captures are those of libpcap: 16 and
--   20 bytes, with the protocol at byte 14 and at byte 0.
-- - Edit: the addresses, the TTL and the checksum updates of src/tcpedit/edit_packet.c, on the fields
--   of an IPv4 header and the checksum behind it. Edit/Addresses, Edit/Sums: one address, and one
--   store of it. Edit/Map and its children: rewrite_ipv4l3, whose loop over two maps is a lookup in
--   each. Edit/Header: randomize_ipv4 and the type of service. Edit/Chain: the order in which
--   tcpedit_packet of src/tcpedit/tcpedit.c makes these edits and the one of the ports. Edit/V6:
--   remap_ipv6 and randomize_ipv6_addr.
-- - Ipv6: get_ipv6_next, get_layer4_v6 and get_ipv6_l4proto of src/common/get.c, on the bytes of a
--   packet. Ipv6/Rewrite: rewrite_ipv6_ports and
--   rewrite_ipv6_tcp_sequence, on the bytes of a packet. Ipv6/Rewrite/Words, Ipv6/Rewrite/Ports: the first on a packet without
--   extension headers.
-- - Tree, Tree/Counts, Tree/Hosts: the hosts of src/tree.c, their comparison, the counts of
--   add_tree_node and tree_calculate, and the answers of check_ip_tree and check_ip6_tree. The macros
--   of lib/tree.h are the record RbTree, and what is relied on of them the record RbLaws. The
--   comparison of doubles in tree_calculate is a parameter. Tree/Packets: packet2tree. Tree/Capture:
--   what the first passes add to the tree for one packet. Tree/Router: process_tree.
-- - Ranges, Ranges/Parse, Ranges/Check: src/common/list.c. The regular expression of parse_list is a
--   function of the token.
-- - Prep, Prep/Run: process_raw_packets and check_dst_port of src/tcpprep.c. A turn of the loop is an
--   Act, a call of add_cache or another of its ways to end; the regular expression on the resolver's
--   name of an address is a parameter. Prep/Headers, Prep/Ready, Prep/Slots: the turn on a packet that
--   was captured whole. Prep/Cached: the loop, the cache file and the lookup at run time together.
--   Prep/Cidrs, Prep/Skips: the mode by networks, and the modes by MAC address and by expression.
-- - Replay/Send: the loop of send_packets and cache_mode of src/send_packets.c, as tcpreplay is built
--   without netmap, AF_XDP and editing. The record World says which packets the output takes, which
--   --loss keeps back, and when the time is up. Replay/Send/Routes, Replay/Send/Limits: a capture
--   with a cache and no other option, and all options. Replay/Whole: tcpprep and tcpreplay together.
-- - Replay/Rate: calc_sleep_time, the accelerator in front of it, and the cut of tcpr_sleep, with the
--   times of src/defines.h.in. The prompt of the manual mode is a parameter, and so are the time
--   differences that a multiplier has divided. Replay/Rate/Skips, Replay/Rate/Modes,
--   Replay/Rate/Laws: the accelerator, and two modes. Replay/Unique: fast_edit_packet.
-- - Flows, Flows/Chains, Flows/Refine: hash_put_data and hash_add_entry of src/common/flows.c. A flow
--   is the bytes of its flow_entry_data_t, and expiry is not negative.
-- - The Tests modules run the definitions on concrete input.
--
-- Machine words keep their wrap-around; memory is little-endian, and the fields of headers are the
-- numbers that the host loads. Allocation does not fail. The walks over IPv6 headers run on fuel:
-- the length of the packet and 2 more, as each turn but the last two goes at least 4 bytes on. The
-- loops over tags and labels run on the length of the packet and 1 more, as each turn goes 4 bytes on;
-- the one of ipv6_header_length runs on the length of the packet, as each turn goes 8 bytes on.
-- The digits of a number run on the number and 1 more. All other loops are recursion on a list or on a
-- count.
--
-- Not modelled: packet input and output, option parsing, preloading and the loop over two captures,
-- the floating-point conversions of times, the parser of networks and its resolver calls, the link
-- layer plugins, the decoding of packets into flows, fragroute, and the copies of other projects'
-- libraries.
pub mod Prelude
pub mod Libc
pub mod Cache
pub mod Checksum
pub mod Timer
pub mod Cidr
pub mod Mac
pub mod Filter
pub mod Portmap
pub mod Sequence
pub mod Packet
pub mod Ipv6
pub mod L2
pub mod Edit
pub mod Tree
pub mod Ranges
pub mod Flows
pub mod Prep
pub mod Replay
pub mod FullChecksum
