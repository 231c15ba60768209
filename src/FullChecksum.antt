-- ===== src/FullChecksum.antt =====
-- The checksums that src/tcpedit/checksum.c computes anew, and `fix_ipv4_checksums` of
-- src/tcpedit/edit_packet.c, on a little-endian host. A packet is its bytes from the IP header up to
-- `end_ptr`; an `int` is the word of 32 bits that it is stored as.
pub mod Windows
pub mod Laws
pub mod Fix
pub mod Fix6
mod Tests
use tcpreplay.Prelude.{
  ℕ, Bool, false, zero, suc, ◌+◌, ◌-◌, ◌*◌, ◌/◌, ◌%◌, ◌^◌, List, [], ◌∷◌, Option, none, some, ltb,
  ◌==◌, ◌||◌, ◌&&◌, not, if◌then◌else◌, length, set, drop, u16, u32, swap16, ◌>>>◌,
}
use tcpreplay.Packet.{Walk, value, overrun, unfinished, then_with, byte_of, be16_at}
use tcpreplay.Portmap.Rewrite.{Code, ok, warn, error}
use tcpreplay.Ipv6.{get_ipv6_l4proto, get_layer4_v6}

-- `do_checksum_math`, from `sum` on: words of 16 bits, the last byte padded with 0.
unfoldable pub do_checksum_math : ℕ → List ℕ → ℕ → Walk ℕ
do_checksum_math sum bytes zero = value sum
do_checksum_math sum [] (suc len) = overrun
do_checksum_math sum (a ∷ bs) (suc zero) = value (u32 (sum + a))
do_checksum_math sum (a ∷ []) (suc (suc len)) = overrun
do_checksum_math sum (a ∷ b ∷ bs) (suc (suc len)) =
    do_checksum_math (u32 (sum + (a + b * 256))) bs len

-- `x >> 16` of a signed word keeps the sign.
abbrev pub shifted : ℕ → ℕ
shifted x = if ltb x (2 ^ 31) then x / 2 ^ 16 else x / 2 ^ 16 + 0xffff_0000

-- What `CHECKSUM_CARRY` leaves in its argument, and its value.
abbrev pub carried : ℕ → ℕ
carried x = u32 (shifted x + x % 2 ^ 16)

unfoldable pub checksum_carry : ℕ → ℕ
checksum_carry x = let y = carried x in 65535 - u32 (y + shifted y) % 2 ^ 16

-- A field of 16 bits.
abbrev pub put16 : List ℕ → ℕ → ℕ → List ℕ
put16 packet i v = set (set packet i (v % 256)) (i + 1) (v / 256)

unfoldable pub store16 : List ℕ → ℕ → ℕ → Walk (List ℕ)
store16 packet i v = if ltb (length packet) (i + 2) then overrun else value (put16 packet i v)

pub data Family : Type 0 where
  v4 v6 : Family

-- Both addresses, which lie behind each other.
abbrev pub addresses_at : Family → ℕ
addresses_at v4 = 12
addresses_at v6 = 8

abbrev pub addresses_len : Family → ℕ
addresses_len v4 = 8
addresses_len v6 = 32

unfoldable pub addresses_sum : Family → List ℕ → Walk ℕ
addresses_sum f packet = do_checksum_math 0 (drop (addresses_at f) packet) (addresses_len f)

abbrev pub Result : Type 0
Result = Walk (Code × List ℕ)

abbrev pub done : List ℕ → Result
done packet = value (ok, packet)

-- `field` is set to 0, then to the checksum of the pseudo header, with protocol `num` and length
-- `len`, and of `len` bytes at `l4`.
unfoldable pub sum_pseudo : Family → List ℕ → ℕ → ℕ → ℕ → ℕ → Result
sum_pseudo f packet l4 field num len = then_with (store16 packet (l4 + field) 0) (λ cleared.
    then_with (addresses_sum f cleared) (λ sum.
      then_with (do_checksum_math 0 (drop l4 cleared) len) (λ s.
        let total = u32 (u32 (sum + swap16 (u16 (num + len))) + s) in
        then_with (store16 cleared (l4 + field) (checksum_carry total)) done)))

-- The same without addresses: `start` is the sum before.
unfoldable pub sum_plain : ℕ → List ℕ → ℕ → ℕ → ℕ → Result
sum_plain start packet l4 field len =
    then_with (do_checksum_math 0 (drop l4 packet) len)
      (λ s. then_with (store16 packet (l4 + field) (checksum_carry (u32 (start + s)))) done)

unfoldable pub sum_udp : Family → List ℕ → ℕ → ℕ → Result
sum_udp f packet l4 len =
    then_with (be16_at packet (l4 + 6))
      (λ uh_sum. if uh_sum == 0 then done packet else sum_pseudo f packet l4 6 17 len)

-- Over IPv6 the field takes the checksum of the addresses before the segment is added up.
unfoldable pub sum_icmp : Family → List ℕ → ℕ → ℕ → Result
sum_icmp v4 packet l4 len =
    then_with (store16 packet (l4 + 2) 0) (λ cleared. sum_plain 0 cleared l4 2 len)
sum_icmp v6 packet l4 len = then_with (store16 packet (l4 + 2) 0) (λ cleared.
    then_with (addresses_sum v6 cleared) (λ sum.
      then_with (store16 cleared (l4 + 2) (checksum_carry sum))
        (λ p. sum_plain (carried sum) p l4 2 len)))

unfoldable pub sum_icmp6 : Family → List ℕ → ℕ → ℕ → Result
sum_icmp6 v4 packet l4 len =
    then_with (store16 packet (l4 + 2) 0)
      (λ cleared. sum_plain (swap16 (u16 (58 + len))) cleared l4 2 len)
sum_icmp6 v6 packet l4 len = sum_pseudo v6 packet l4 2 58 len

-- Any other protocol stands for the header itself.
unfoldable pub sum_header : Family → List ℕ → ℕ → Result
sum_header v4 packet ip_hl =
    then_with (store16 packet 10 0) (λ cleared. sum_plain 0 cleared 0 10 ip_hl)
sum_header v6 packet ip_hl = value (warn, packet)

abbrev pub if_long : ℕ → ℕ → List ℕ → Result → Result
if_long need len packet r = if ltb len need then value (warn, packet) else r

-- The switch over the protocols.
unfoldable pub by_proto : Family → List ℕ → ℕ → ℕ → ℕ → Result
by_proto f packet ip_hl proto len =
    if proto == 6 || proto == 44
    then if_long 20 len packet (sum_pseudo f packet ip_hl 16 6 len)
    else if proto == 17
    then if_long 8 len packet (sum_udp f packet ip_hl len)
    else if proto == 1
    then if_long 28 len packet (sum_icmp f packet ip_hl len)
    else if proto == 58
    then if_long 8 len packet (sum_icmp6 f packet ip_hl len)
    else sum_header f packet ip_hl

-- Where the length would fall below 0 it is 0 here, which is as short for each protocol.
unfoldable pub at_layer : List ℕ → ℕ → ℕ → Option ℕ → Result
at_layer packet proto len none = value (warn, packet)
at_layer packet proto len (some layer) = by_proto v6 packet layer proto (len + 40 - layer)

-- A length that is not positive is 0.
unfoldable pub do_checksum : List ℕ → ℕ → ℕ → Result
do_checksum packet proto len =
    if len == 0
    then value (error, packet)
    else then_with (byte_of packet 0) (λ b.
      if b / 16 == 6
      then then_with (get_ipv6_l4proto (length packet + 2) packet 0)
          (λ nh. then_with (get_layer4_v6 (length packet + 2) packet 0) (at_layer packet nh len))
      else by_proto v4 packet (b % 16 * 4) proto len)

-- What two results make together.
abbrev pub worse : Code → Code → Code
worse a error = error
worse ok b = b
worse a b = warn

-- The checksum of the header, after the one of layer 4.
unfoldable pub then_header : ℕ → Code × List ℕ → Result
then_header ip_len (error, packet) = value (error, packet)
then_header ip_len (code, packet) =
    then_with (do_checksum packet 0 ip_len) (λ r. value (worse code r.0, r.1))

-- Behind the test of the version: `whole` is `caplen == len`.
unfoldable pub fix_by : List ℕ → Bool → ℕ → ℕ → ℕ → ℕ → Result
fix_by packet whole ip_hl ip_len ip_off ip_p =
    if whole && ip_off % 2 ^ 14 == 0
    then if ip_len == length packet
      then then_with (do_checksum packet ip_p (ip_len - ip_hl * 4)) (then_header ip_len)
      else value (warn, packet)
    else then_header ip_len (ok, packet)

unfoldable pub fix_ipv4_checksums : List ℕ → Bool → Result
fix_ipv4_checksums packet whole =
    if ltb (length packet) 20
    then value (warn, packet)
    else then_with (byte_of packet 0) (λ b.
      if b / 16 == 4
      then then_with (be16_at packet 2) (λ ip_len.
        then_with (be16_at packet 6)
          (λ ip_off. then_with (byte_of packet 9) (fix_by packet whole (b % 16) ip_len ip_off)))
      else value (error, packet))

-- `ipv6_header_length` steps over these; `none` is -1. Each turn goes 8 bytes on.
abbrev pub is_stepped : ℕ → Bool
is_stepped next_header = next_header == 0 || next_header == 43 || next_header == 44

unfoldable pub header_loop : ℕ → List ℕ → ℕ → ℕ → Walk (Option ℕ)
header_loop zero packet next_header offset = unfinished
header_loop (suc fuel) packet next_header offset =
    if ltb (2 + offset) (length packet)
    then (if is_stepped next_header
        then then_with (byte_of packet offset) (λ ip_nh.
          then_with (byte_of packet (offset + 1))
            (λ ip_len. header_loop fuel packet ip_nh (offset + (ip_len + 1) * 8)))
        else value (some offset))
    else value none

unfoldable pub ipv6_header_length : List ℕ → Walk (Option ℕ)
ipv6_header_length packet =
    then_with (byte_of packet 6) (λ ip_nh. header_loop (length packet) packet ip_nh 40)

-- `ip6_hdr->ip_len < ip6_len`, without a change of the byte order.
abbrev pub too_short : ℕ → Option ℕ → Bool
too_short ip_len none = false
too_short ip_len (some ip6_len) = ltb (swap16 ip_len) ip6_len

unfoldable pub fix6_by : List ℕ → Option ℕ → ℕ → ℕ → Result
fix6_by packet ip6_len ip_len ip_nh =
    if too_short ip_len ip6_len then value (warn, packet) else do_checksum packet ip_nh ip_len

unfoldable pub fix_ipv6_checksums : List ℕ → Bool → Result
fix_ipv6_checksums packet whole =
    if ltb (length packet) 40
    then value (warn, packet)
    else then_with (byte_of packet 0) (λ b.
      if b / 16 == 6
      then (if whole
          then then_with (ipv6_header_length packet) (λ ip6_len.
            then_with (be16_at packet 4)
              (λ ip_len. then_with (byte_of packet 6) (fix6_by packet ip6_len ip_len)))
          else done packet)
      else value (error, packet))
