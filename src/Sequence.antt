-- ===== src/Sequence.antt =====
-- The rewriting of TCP sequence numbers of src/tcpedit/rewrite_sequence.c. Fields stand in network
-- byte order, as the 32-bit numbers that a little-endian host loads.
pub mod Laws
mod Tests
use tcpreplay.Prelude.{
  ℕ, ◌+◌, ◌*◌, Bool, true, false, Option, none, some, ltb, ◌==◌, ◌&&◌, if◌then◌else◌, u32, swap32,
  bit_and,
}
use tcpreplay.Checksum.{csum_replace4}
use tcpreplay.Portmap.Rewrite.{Code, ok, warn, Ipv4, proto_tcp, get_layer4_v4}

-- The fields of `tcp_hdr_t` that are used here.
pub record Tcp : Type 0 where
  pub th_seq : ℕ
  pub th_ack : ℕ
  pub th_flags : ℕ
  pub th_sum : ℕ

abbrev pub th_syn : ℕ
th_syn = 0x02

abbrev pub th_ack_flag : ℕ
th_ack_flag = 0x10

-- A number moved by `tcp_sequence_adjust`, in network byte order again.
unfoldable pub moved : ℕ → ℕ → ℕ
moved adjust field = swap32 (u32 (swap32 field + adjust))

unfoldable pub move_seq : ℕ → Tcp → Tcp
move_seq adjust h =
    let newnum = moved adjust h.th_seq in
    record h { th_sum = csum_replace4 h.th_sum h.th_seq newnum; th_seq = newnum }

unfoldable pub move_ack : ℕ → Tcp → Tcp
move_ack adjust h =
    let newnum = moved adjust h.th_ack in
    record h { th_sum = csum_replace4 h.th_sum h.th_ack newnum; th_ack = newnum }

-- The first packet of a handshake: SYN without ACK.
unfoldable pub is_first : Tcp → Bool
is_first h = if bit_and h.th_flags th_syn == 0 then false else bit_and h.th_flags th_ack_flag == 0

unfoldable pub rewrite_seqs : ℕ → Tcp → Tcp
rewrite_seqs adjust h =
    let with_seq = move_seq adjust h in
    if is_first with_seq then with_seq else move_ack adjust with_seq

abbrev pub at_layer4 : ℕ → Tcp → Option ℕ → Code × Tcp
at_layer4 adjust h none = (warn, h)
at_layer4 adjust h (some l4) = (ok, rewrite_seqs adjust h)

-- The last argument is the header that lies at layer 4.
unfoldable pub rewrite_ipv4_tcp_sequence : ℕ → Ipv4 → ℕ → Tcp → Code × Tcp
rewrite_ipv4_tcp_sequence adjust ip l3len h =
    if ip.ip_p == proto_tcp then at_layer4 adjust h (get_layer4_v4 ip l3len) else (ok, h)
