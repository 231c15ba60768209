-- ===== src/L2/Bounds.antt =====
-- The whole layer 2 walk ends inside the packet, and so does the IP header that is found behind it.
use tcpreplay.Prelude.{
  ℕ, ◌+◌, ◌≤◌, ◌<◌, ◌≡◌, ◌≢◌, ◌⊎◌, refl, arith, Bool, List, Option, none, some, leb, ◌==◌, ◌&&◌,
  length, inl, inr, bit_and,
}
use tcpreplay.Packet.{Walk, byte_of, be16_at}
use tcpreplay.Packet.Laws.{Ends, AnyNumber, ends_bind, ends_room, ends_if, ends_byte, ends_be16}
use tcpreplay.L2.{
  Layer2, fresh, Link, null_or_raw, juniper_ether, en10mb, ppp_serial, c_hdlc, linux_sll,
  linux_sll2, unsupported, link_of, ip_version, raw, ether_result, ethernet, fixed, ppp_protocol,
  no_l2, by_flags, has_magic, extended, juniper, by_link, get_l2len_protocol,
}
use tcpreplay.L2.Labels.{Reaches, parse_metadata_lem}

-- All three numbers are offsets into the packet; the layer 2 header starts in front of its end, or
-- its length is 0.
abbrev pub IsInside : List ℕ → Option Layer2 → Type 0
IsInside packet none = Unit {0}
IsInside packet (some s) =
    (s.l2len ≤ length packet)
    × (s.l2offset ≤ length packet)
    × (s.vlan_offset ≤ s.l2len)
    × ((s.l2offset ≤ s.l2len) ⊎ (s.l2len ≡ 0))

ether_result_lem :
    (packet : List ℕ) (least : ℕ) (o : Option Layer2)
    → Reaches packet least o
    → Ends (Reaches packet least) (ether_result o)
ether_result_lem packet least none r = (none, refl, tt)
ether_result_lem packet least (some s) r =
    ends_if (Reaches packet least) (leb 1536 s.protocol) _ _ (λ t. (some s, refl, r))
      (λ f. (none, refl, tt))

ethernet_lem :
    (packet : List ℕ) (l2offset : ℕ)
    → Ends (Reaches packet (14 + l2offset)) (ethernet packet l2offset)
unfolding ethernet
ethernet_lem packet l2offset =
    ends_if (Reaches packet (14 + l2offset)) (leb (length packet) (14 + l2offset + 4)) _ _
      (λ t. (none, refl, tt))
      (λ long.
        let room : 14 + l2offset + 4 < length packet = ground arith in
        ends_bind AnyNumber (Reaches packet (14 + l2offset)) (be16_at packet (l2offset + 12)) _
          (ends_be16 packet (l2offset + 12) (omega arith))
          (λ t u.
            ends_bind (Reaches packet (14 + l2offset)) (Reaches packet (14 + l2offset)) _
              ether_result
              (parse_metadata_lem packet
                (record fresh { protocol = t; l2len = 14 + l2offset; l2offset = l2offset })
                (omega arith))
              (ether_result_lem packet (14 + l2offset))))

-- A header that reaches so far is inside.
inside :
    (packet : List ℕ) (least : ℕ) (w : Walk (Option Layer2))
    → Ends (Reaches packet least) w
    → Ends (IsInside packet) w
inside packet least w (none, e, r) = (none, e, tt)
inside packet least w (some s, e, r) =
    (some s, e, (omega arith, omega arith, omega arith, inl (omega arith)))

fixed_lem :
    (packet : List ℕ) (size at : ℕ) (by : ℕ → ℕ)
    → at + 2 ≤ size
    → Ends (Reaches packet 0) (fixed packet size at by)
unfolding fixed
fixed_lem packet size at by h =
    ends_room (Reaches packet 0) (length packet) size _ _ (none, refl, tt)
      (λ room.
        ends_bind AnyNumber (Reaches packet 0) (be16_at packet at) _
          (ends_be16 packet at (omega arith))
          (λ p u. (some (record fresh { protocol = by p; l2len = size }), refl, omega arith)))

from_start :
    (packet : List ℕ) (w : Walk (Option Layer2))
    → Ends (Reaches packet (14 + 0)) w
    → Ends (Reaches packet 0) w
from_start packet w (none, e, r) = (none, e, tt)
from_start packet w (some s, e, r) = (some s, e, omega arith)

-- All link types but Juniper's start the header in front of its end.
pub by_link_starts :
    (packet : List ℕ) (k : Link)
    → k ≢ juniper_ether
    → 1 ≤ length packet
    → Ends (Reaches packet 0) (by_link packet k)
unfolding by_link raw
by_link_starts packet null_or_raw ne h =
    ends_bind AnyNumber (Reaches packet 0) (byte_of packet 0) _ (ends_byte packet 0 h)
      (λ b u. (some (record fresh { protocol = ip_version b }), refl, omega arith))
by_link_starts packet juniper_ether ne h = absurd (ne refl)
by_link_starts packet en10mb ne h = from_start packet _ (ethernet_lem packet 0)
by_link_starts packet ppp_serial ne h = fixed_lem packet 4 2 ppp_protocol (omega arith)
by_link_starts packet c_hdlc ne h = fixed_lem packet 4 2 (λ p. p) (omega arith)
by_link_starts packet linux_sll ne h = fixed_lem packet 16 14 (λ p. p) (omega arith)
by_link_starts packet linux_sll2 ne h = fixed_lem packet 20 0 (λ p. p) (omega arith)
by_link_starts packet unsupported ne h = (none, refl, tt)

no_l2_lem : (packet : List ℕ) (l2offset : ℕ) → Ends (IsInside packet) (no_l2 packet l2offset)
unfolding no_l2
no_l2_lem packet l2offset =
    ends_room (IsInside packet) (length packet) (l2offset + 1) _ _ (none, refl, tt)
      (λ room.
        ends_bind AnyNumber (IsInside packet) (byte_of packet l2offset) _
          (ends_byte packet l2offset (omega arith))
          (λ b u. (
            some (record fresh { protocol = ip_version b; l2offset = l2offset }),
            refl,
            (omega arith, omega arith, omega arith, inr refl),
          )))

by_flags_lem :
    (packet : List ℕ) (flags l2offset : ℕ) → Ends (IsInside packet) (by_flags packet flags l2offset)
unfolding by_flags
by_flags_lem packet flags l2offset =
    ends_if (IsInside packet) (bit_and flags 0x02 == 0x02) _ _ (λ t. no_l2_lem packet l2offset)
      (λ f. inside packet (14 + l2offset) _ (ethernet_lem packet l2offset))

extended_lem : (packet : List ℕ) (flags : ℕ) → Ends (IsInside packet) (extended packet flags)
unfolding extended
extended_lem packet flags =
    ends_if (IsInside packet) (bit_and flags 0x80 == 0x80) _ _
      (λ t.
        ends_room (IsInside packet) (length packet) 6 _ _ (none, refl, tt)
          (λ room.
            ends_bind AnyNumber (IsInside packet) (be16_at packet 4) _
              (ends_be16 packet 4 (omega arith)) (λ ext u. by_flags_lem packet flags (ext + 6))))
      (λ f. by_flags_lem packet flags 4)

abbrev AnyBool : Bool → Type 0
AnyBool b = Unit {0}

has_magic_lem : (packet : List ℕ) → 4 ≤ length packet → Ends AnyBool (has_magic packet)
unfolding has_magic
has_magic_lem packet h =
    ends_bind AnyNumber AnyBool (byte_of packet 0) _ (ends_byte packet 0 (omega arith)) (λ a u.
      ends_bind AnyNumber AnyBool (byte_of packet 1) _ (ends_byte packet 1 (omega arith)) (λ b v.
        ends_bind AnyNumber AnyBool (byte_of packet 2) _ (ends_byte packet 2 (omega arith))
          (λ c w. (a == b'M' && b == b'G' && c == b'C', refl, tt))))

juniper_lem : (packet : List ℕ) → Ends (IsInside packet) (juniper packet)
unfolding juniper
juniper_lem packet =
    ends_room (IsInside packet) (length packet) 4 _ _ (none, refl, tt)
      (λ room.
        ends_bind AnyBool (IsInside packet) (has_magic packet) _ (has_magic_lem packet room) (λ m u.
          ends_if (IsInside packet) m _ _
            (λ t.
              ends_bind AnyNumber (IsInside packet) (byte_of packet 3) (extended packet)
                (ends_byte packet 3 (omega arith)) (λ flags v. extended_lem packet flags))
            (λ f. (none, refl, tt))))

by_link_lem :
    (packet : List ℕ) (k : Link) → 1 ≤ length packet → Ends (IsInside packet) (by_link packet k)
unfolding by_link
by_link_lem packet juniper_ether h = juniper_lem packet
by_link_lem packet null_or_raw h =
    inside packet 0 _ (by_link_starts packet null_or_raw (λ e. cc e) h)
by_link_lem packet en10mb h = inside packet 0 _ (by_link_starts packet en10mb (λ e. cc e) h)
by_link_lem packet ppp_serial h = inside packet 0 _ (by_link_starts packet ppp_serial (λ e. cc e) h)
by_link_lem packet c_hdlc h = inside packet 0 _ (by_link_starts packet c_hdlc (λ e. cc e) h)
by_link_lem packet linux_sll h = inside packet 0 _ (by_link_starts packet linux_sll (λ e. cc e) h)
by_link_lem packet linux_sll2 h = inside packet 0 _ (by_link_starts packet linux_sll2 (λ e. cc e) h)
by_link_lem packet unsupported h =
    inside packet 0 _ (by_link_starts packet unsupported (λ e. cc e) h)

-- For every packet and link type, `get_l2len_protocol` ends, reads no byte behind the packet, and
-- returns -1 or three offsets into the packet, the one of the tags not behind the header's end, and
-- the start of the header not behind it either, or a length of 0.
pub get_l2len_protocol_lem :
    (packet : List ℕ) (datalink : ℕ) → Ends (IsInside packet) (get_l2len_protocol packet datalink)
unfolding get_l2len_protocol
get_l2len_protocol_lem packet datalink =
    ends_if (IsInside packet) (length packet == 0) _ _ (λ t. (none, refl, tt))
      (λ f. by_link_lem packet (link_of datalink) (ground arith))
