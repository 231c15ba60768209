-- ===== src/L2.antt =====
-- The layer 2 headers of a packet: `parse_vlan`, `parse_mpls`, `parse_metadata`,
-- `get_l2len_protocol`, `get_l2len`, `get_ipv4` and `get_ipv6` of src/common/get.c, on the bytes that
-- were captured. A packet is shorter than 2 ^ 31 bytes, so no offset wraps while it is read.
pub mod Labels
pub mod Bounds
pub mod Ip
mod Tests
use tcpreplay.Prelude.{
  ℕ, zero, suc, ◌+◌, ◌-◌, ◌*◌, ◌/◌, ◌%◌, ◌^◌, Bool, true, false, List, [], ◌∷◌, Option, none, some,
  ltb, leb, ◌==◌, ◌||◌, ◌&&◌, if◌then◌else◌, length, u32, bit_and,
}
use tcpreplay.Packet.{Walk, value, unfinished, then_with, byte_of, be16_at, be32_at}

abbrev pub ethertype_ip : ℕ
ethertype_ip = 0x0800

abbrev pub ethertype_ip6 : ℕ
ethertype_ip6 = 0x86dd

-- What the pointer arguments refer to: `*protocol`, `*l2len`, `*l2offset` and `*vlan_offset`.
pub record Layer2 : Type 0 where
  pub protocol : ℕ
  pub l2len : ℕ
  pub l2offset : ℕ
  pub vlan_offset : ℕ

-- `none` is a return of -1.
unfoldable pub parse_vlan : List ℕ → Layer2 → Walk (Option Layer2)
parse_vlan packet s =
    if ltb (length packet) (s.l2len + 4)
    then value none
    else then_with (be16_at packet (s.l2len + 2))
        (λ tpid. value (some (record s { protocol = tpid; l2len = s.l2len + 4 })))

-- The labels from `len` on; the offset behind the last of them. A label of 13 is not supported.
unfoldable pub mpls_loop : ℕ → List ℕ → ℕ → Walk (Option ℕ)
mpls_loop zero packet len = unfinished
mpls_loop (suc fuel) packet len =
    if ltb (length packet) (len + 4)
    then value none
    else then_with (be32_at packet len) (λ entry.
      if entry / 2 ^ 12 == 13
      then value none
      else if entry / 2 ^ 8 % 2 == 1
      then value (some (len + 4))
      else mpls_loop fuel packet (len + 4))

-- An Ethernet frame behind the labels and a control word.
unfoldable pub eompls : List ℕ → Layer2 → ℕ → Walk (Option Layer2)
eompls packet s len =
    if ltb (length packet) (len + 4 + 14)
    then value none
    else then_with (be16_at packet (len + 4 + 12)) (λ ether_type.
      value (some (record s { protocol = ether_type; l2offset = len + 4; l2len = len + 4 + 14 })))

-- What lies behind the labels, by its first four bits.
unfoldable pub mpls_payload : List ℕ → Layer2 → ℕ → ℕ → Walk (Option Layer2)
mpls_payload packet s len first_nibble =
    if first_nibble == 4
    then value (some (record s { protocol = ethertype_ip; l2len = len }))
    else if first_nibble == 6
    then value (some (record s { protocol = ethertype_ip6; l2len = len }))
    else if first_nibble == 0
    then eompls packet s len
    else value none

abbrev pub behind_labels : List ℕ → Layer2 → Option ℕ → Walk (Option Layer2)
behind_labels packet s none = value none
behind_labels packet s (some len) =
    if ltb (length packet) (len + 1)
    then value none
    else then_with (byte_of packet len) (λ b. mpls_payload packet s len (b / 2 ^ 4))

unfoldable pub parse_mpls : List ℕ → Layer2 → Walk (Option Layer2)
parse_mpls packet s =
    then_with (mpls_loop (length packet + 1) packet s.l2len) (behind_labels packet s)

-- The headers that `parse_metadata` tells apart.
pub data Tag : Type 0 where
  vlan mpls plain : Tag

unfoldable pub tag_of : ℕ → Tag
tag_of protocol =
    if protocol == 0x8100 || protocol == 0x88a8 || protocol == 0x9100
    then vlan
    else if protocol == 0x8847 || protocol == 0x8848
    then mpls
    else plain

abbrev pub mark_vlan : Layer2 → Layer2
mark_vlan s = if s.vlan_offset == 0 then record s { vlan_offset = s.l2len } else s

abbrev pub then_loop : (Layer2 → Walk (Option Layer2)) → Option Layer2 → Walk (Option Layer2)
then_loop loop none = value none
then_loop loop (some s) = loop s

unfoldable pub metadata_turn :
    (Layer2 → Walk (Option Layer2)) → List ℕ → Layer2 → Tag → Walk (Option Layer2)
metadata_turn loop packet s vlan = then_with (parse_vlan packet (mark_vlan s)) (then_loop loop)
metadata_turn loop packet s mpls = then_with (parse_mpls packet s) (then_loop loop)
metadata_turn loop packet s plain = value (some s)

unfoldable pub metadata_loop : ℕ → List ℕ → Layer2 → Walk (Option Layer2)
metadata_loop zero packet s = unfinished
metadata_loop (suc fuel) packet s =
    metadata_turn (λ t. metadata_loop fuel packet t) packet s (tag_of s.protocol)

unfoldable pub parse_metadata : List ℕ → Layer2 → Walk (Option Layer2)
parse_metadata packet s = metadata_loop (length packet + 1) packet s

-- The link types of the switch.
pub data Link : Type 0 where
  null_or_raw juniper_ether en10mb ppp_serial c_hdlc linux_sll linux_sll2 unsupported : Link

unfoldable pub link_of : ℕ → Link
link_of datalink =
    if datalink == 0 || datalink == 12
    then null_or_raw
    else if datalink == 178
    then juniper_ether
    else if datalink == 1
    then en10mb
    else if datalink == 50
    then ppp_serial
    else if datalink == 104
    then c_hdlc
    else if datalink == 113
    then linux_sll
    else if datalink == 276
    then linux_sll2
    else unsupported

abbrev pub fresh : Layer2
fresh = record { protocol = 0; l2len = 0; l2offset = 0; vlan_offset = 0 }

-- The protocol by the version in the first byte of an IP header; 0 where it is neither.
unfoldable pub ip_version : ℕ → ℕ
ip_version b = if b / 2 ^ 4 == 4 then ethertype_ip else if b / 2 ^ 4 == 6 then ethertype_ip6 else 0

unfoldable pub raw : List ℕ → Walk (Option Layer2)
raw packet =
    then_with (byte_of packet 0) (λ b. value (some (record fresh { protocol = ip_version b })))

-- Ethernet II only: a smaller type is a length, and is refused.
abbrev pub ether_result : Option Layer2 → Walk (Option Layer2)
ether_result none = value none
ether_result (some s) = if leb 1536 s.protocol then value (some s) else value none

unfoldable pub ethernet : List ℕ → ℕ → Walk (Option Layer2)
ethernet packet l2offset =
    if leb (length packet) (14 + l2offset + 4)
    then value none
    else then_with (be16_at packet (l2offset + 12)) (λ ether_type.
      then_with
        (parse_metadata packet
          (record fresh { protocol = ether_type; l2len = 14 + l2offset; l2offset = l2offset }))
        ether_result)

-- A header of so many bytes with the protocol at this place.
unfoldable pub fixed : List ℕ → ℕ → ℕ → (ℕ → ℕ) → Walk (Option Layer2)
fixed packet size at by =
    if ltb (length packet) size
    then value none
    else then_with (be16_at packet at)
        (λ protocol. value (some (record fresh { protocol = by protocol; l2len = size })))

abbrev pub ppp_protocol : ℕ → ℕ
ppp_protocol p = if p == 0x0021 then ethertype_ip else p

-- With `JUNIPER_FLAG_NO_L2` the offset is that of the IP header, and `*l2len` stays 0.
unfoldable pub no_l2 : List ℕ → ℕ → Walk (Option Layer2)
no_l2 packet l2offset =
    if ltb (length packet) (l2offset + 1)
    then value none
    else then_with (byte_of packet l2offset)
        (λ b. value (some (record fresh { protocol = ip_version b; l2offset = l2offset })))

unfoldable pub by_flags : List ℕ → ℕ → ℕ → Walk (Option Layer2)
by_flags packet flags l2offset =
    if bit_and flags 0x02 == 0x02 then no_l2 packet l2offset else ethernet packet l2offset

-- `memcmp(pktdata, "MGC", 3) == 0`
unfoldable pub has_magic : List ℕ → Walk Bool
has_magic packet = then_with (byte_of packet 0) (λ a.
    then_with (byte_of packet 1)
      (λ b. then_with (byte_of packet 2) (λ c. value (a == b'M' && b == b'G' && c == b'C'))))

unfoldable pub extended : List ℕ → ℕ → Walk (Option Layer2)
extended packet flags =
    if bit_and flags 0x80 == 0x80
    then if ltb (length packet) 6
      then value none
      else then_with (be16_at packet 4) (λ ext. by_flags packet flags (ext + 6))
    else by_flags packet flags 4

unfoldable pub juniper : List ℕ → Walk (Option Layer2)
juniper packet =
    if ltb (length packet) 4
    then value none
    else then_with (has_magic packet)
        (λ m. if m then then_with (byte_of packet 3) (extended packet) else value none)

unfoldable pub by_link : List ℕ → Link → Walk (Option Layer2)
by_link packet null_or_raw = raw packet
by_link packet juniper_ether = juniper packet
by_link packet en10mb = ethernet packet 0
by_link packet ppp_serial = fixed packet 4 2 ppp_protocol
by_link packet c_hdlc = fixed packet 4 2 (λ p. p)
by_link packet linux_sll = fixed packet 16 14 (λ p. p)
by_link packet linux_sll2 = fixed packet 20 0 (λ p. p)
by_link packet unsupported = value none

unfoldable pub get_l2len_protocol : List ℕ → ℕ → Walk (Option Layer2)
get_l2len_protocol packet datalink =
    if length packet == 0 then value none else by_link packet (link_of datalink)

abbrev pub len_or_zero : Option Layer2 → Walk ℕ
len_or_zero none = value 0
len_or_zero (some s) = value s.l2len

unfoldable pub get_l2len : List ℕ → ℕ → Walk ℕ
get_l2len packet datalink = then_with (get_l2len_protocol packet datalink) len_or_zero

-- The offset of the IP header, by the arithmetic on `packet` and on the `uint32_t` `l2len`.
abbrev pub ip_offset : Layer2 → ℕ
ip_offset s = s.l2offset + u32 (s.l2len + 2 ^ 32 - s.l2offset)

unfoldable pub ip_header : List ℕ → ℕ → ℕ → Option Layer2 → Walk (Option ℕ)
ip_header packet size ethertype none = value none
ip_header packet size ethertype (some s) =
    if ltb (length packet) (s.l2len + size)
    then value none
    else if s.protocol == ethertype
    then value (some (ip_offset s))
    else value none

-- `get_ipv4` and `get_ipv6` where no alignment is forced; `none` is NULL.
unfoldable pub get_ipv4 : List ℕ → ℕ → Walk (Option ℕ)
get_ipv4 packet datalink =
    then_with (get_l2len_protocol packet datalink) (ip_header packet 20 ethertype_ip)

unfoldable pub get_ipv6 : List ℕ → ℕ → Walk (Option ℕ)
get_ipv6 packet datalink =
    then_with (get_l2len_protocol packet datalink) (ip_header packet 40 ethertype_ip6)
