-- ===== src/Replay/Unique.antt =====
-- `fast_edit_packet` of src/send_packets.c, which gives each pass over a capture its own addresses.
pub mod Laws
pub mod Edits
use tcpreplay.Prelude.{
  ℕ, ◌+◌, ◌-◌, ◌*◌, ◌/◌, ◌%◌, ◌^◌, Bool, true, false, List, Option, none, some, ltb, ◌==◌, ◌&&◌,
  if◌then◌else◌, length, set, u32,
}
use tcpreplay.Packet.{Walk, value, then_with, be32_at}
use tcpreplay.L2.{Layer2, ethertype_ip, ethertype_ip6, get_l2len_protocol}

-- Subtraction in 32 and in 64 bits.
abbrev pub sub32 : ℕ → ℕ → ℕ
sub32 a b = (a + 2 ^ 32 - b % 2 ^ 32) % 2 ^ 32

abbrev pub sub64 : ℕ → ℕ → ℕ
sub64 a b = (a + 2 ^ 64 - b % 2 ^ 64) % 2 ^ 64

-- Source and destination.
abbrev pub Pair : Type 0
Pair = ℕ × ℕ

-- The source is lowered and the destination raised: `low` and `high` are what they were, `low'` and
-- `high'` what they have become. Where one of them has wrapped, the other direction takes 1 back.
unfoldable pub compensate : ℕ → ℕ → ℕ → ℕ → Pair
compensate low high low' high' =
    if ltb low low' && ltb high high'
    then (low' - 1, high')
    else if ltb high' high && ltb low' low
    then (low', high' + 1)
    else (low', high')

-- By how much one pass moves an address.
abbrev pub move_of : Bool → ℕ → ℕ
move_of true iteration = 1
move_of false iteration = iteration

-- Is the source the address that is lowered?
abbrev pub lowers_source : Bool → ℕ → ℕ → ℕ → Bool
lowers_source false iteration src dst = ltb src dst
lowers_source true iteration src dst = ltb (sub64 (sub32 src 1) iteration) (sub64 dst iteration)

abbrev pub flip : Pair → Pair
flip (a, b) = (b, a)

unfoldable pub unique_pair : Bool → ℕ → ℕ → ℕ → Pair
unique_pair cached iteration src dst =
    let n = move_of cached iteration in
    if lowers_source cached iteration src dst
    then compensate src dst (sub32 src n) (u32 (dst + n))
    else flip (compensate dst src (sub32 dst n) (u32 (src + n)))

-- `htonl` of a value, stored at this offset.
abbrev pub put_be32 : List ℕ → ℕ → ℕ → List ℕ
put_be32 packet i v =
    set
      (set (set (set packet i (v / 2 ^ 24 % 256)) (i + 1) (v / 2 ^ 16 % 256)) (i + 2)
        (v / 2 ^ 8 % 256))
      (i + 3) (v % 256)

-- The two words at these offsets.
unfoldable pub edit_pair : Bool → ℕ → List ℕ → ℕ → ℕ → Walk (Option (List ℕ))
edit_pair cached iteration packet src_at dst_at = then_with (be32_at packet src_at) (λ src.
    then_with (be32_at packet dst_at) (λ dst.
      let ips = unique_pair cached iteration src dst in
      value (some (put_be32 (put_be32 packet src_at ips.0) dst_at ips.1))))

-- `none` is the result -1. Of an IPv6 address the last four bytes are edited.
unfoldable pub edit_found : Bool → ℕ → List ℕ → Option Layer2 → Walk (Option (List ℕ))
edit_found cached iteration packet none = value none
edit_found cached iteration packet (some s) =
    if s.protocol == ethertype_ip
    then (if ltb (length packet) (s.l2len + 20)
        then value none
        else edit_pair cached iteration packet (s.l2len + 12) (s.l2len + 16))
    else if s.protocol == ethertype_ip6
    then (if ltb (length packet) (s.l2len + 40)
        then value none
        else edit_pair cached iteration packet (s.l2len + 20) (s.l2len + 36))
    else value none

unfoldable pub fast_edit_packet : Bool → ℕ → List ℕ → ℕ → Walk (Option (List ℕ))
fast_edit_packet cached iteration packet datalink =
    then_with (get_l2len_protocol packet datalink) (edit_found cached iteration packet)
