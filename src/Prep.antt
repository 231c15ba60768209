-- ===== src/Prep.antt =====
-- tcpprep's pass over a capture: `process_raw_packets`, `check_dst_port`, `check_ipv4_regex` and
-- `check_ipv6_regex` of src/tcpprep.c. A packet is the bytes that were captured of it; the packets
-- are those that the BPF filter of libpcap lets through.
pub mod Run
pub mod Headers
pub mod Ready
pub mod Slots
pub mod Cached
pub mod Cidrs
pub mod Skips
pub mod Samples
mod Tests
use tcpreplay.Prelude.{
  ℕ, ◌+◌, ◌-◌, ◌*◌, ◌%◌, Bool, true, false, not, List, [], ◌∷◌, Option, none, some, ltb, ◌==◌,
  if◌then◌else◌, length, take, drop,
}
use tcpreplay.Cache.{Dir, error, nosend, c2s, s2c, send_flag}
use tcpreplay.Cidr.{Cidr, check_ip_cidr, check_ip6_cidr}
use tcpreplay.Filter.{Verdict, send, process_xx_by_cidr_ipv4, process_xx_by_cidr_ipv6}
use tcpreplay.Packet.{Walk, value, then_with, byte_of, be16_at}
use tcpreplay.L2.{get_ipv4, get_ipv6}
use tcpreplay.Portmap.Rewrite.{Ipv4, get_layer4_v4}
use tcpreplay.Ipv6.{get_ipv6_l4proto, get_layer4_v6}
use tcpreplay.Ranges.{Range, check_list}
use tcpreplay.Tree.Packets.{le32_at, bytes_at}

-- `tcpprep_mode_t`
pub data Mode : Type 0 where
  error_mode cidr_mode regex_mode port_mode mac_mode first_mode : Mode
  auto_mode router_mode bridge_mode server_mode client_mode : Mode

-- `tcpprep_opt_t`, the option REVERSE and the link type of the capture. No list is the empty list.
-- `preg4` and `preg6` are the regular expression on the name that the resolver gives an address.
pub record Options : Type 0 where
  pub xx_mode : ℕ
  pub xx_list : List Range
  pub xx_cidr : List Cidr
  pub mode : Mode
  pub automode : Mode
  pub cidrdata : List Cidr
  pub maclist : List ℕ
  pub tcp_services : ℕ → Bool
  pub udp_services : ℕ → Bool
  pub nonip : Bool
  pub reverse : Bool
  pub preg4 : ℕ → Bool
  pub preg6 : List ℕ → Bool
  pub datalink : ℕ

-- What one turn of the loop does: it goes to the next packet, calls `add_cache`, puts hosts into the
-- tree, or ends the program.
pub data Act (T : Type 0) : Type 0 where
  next exits fails undefined_shift : Act T
  cache : ℕ → Dir → Act T
  grow : T → Act T

-- Where the IP header lies.
pub data Ip : Type 0 where
  v4 v6 : ℕ → Ip

abbrev pub as_v6 : Option ℕ → Option Ip
as_v6 none = none
as_v6 (some p) = some (v6 p)

abbrev pub or_ipv6 : List ℕ → ℕ → Option ℕ → Walk (Option Ip)
or_ipv6 packet datalink (some p) = value (some (v4 p))
or_ipv6 packet datalink none = then_with (get_ipv6 packet datalink) (λ o. value (as_v6 o))

unfoldable pub find_ip : List ℕ → ℕ → Walk (Option Ip)
find_ip packet datalink = then_with (get_ipv4 packet datalink) (or_ipv6 packet datalink)

-- A C truth value as a direction: 1 is `TCPR_DIR_C2S`, and 0 is `TCPR_DIR_NOSEND`.
abbrev pub truth : Bool → Dir
truth true = c2s
truth false = nosend

abbrev pub swapped : Dir → Dir
swapped c2s = s2c
swapped s2c = c2s
swapped nosend = nosend
swapped error = error

abbrev pub reversed : Bool → Dir → Dir
reversed r d = if r then swapped d else d

-- The list of packet numbers of -x and -X: is the packet left out?
unfoldable pub left_out : Options → ℕ → Bool
left_out o num = elim o.xx_list [
  | [] ↦ false
  | r ∷ rs ↦ if ltb o.xx_mode 128 then not (check_list (r ∷ rs) num) else check_list (r ∷ rs) num
]

-- The networks of -x and -X, if there are any.
unfoldable pub verdict_of : Options → List ℕ → List Cidr → Ip → Walk Verdict
verdict_of o packet [] ip = value send
verdict_of o packet (c ∷ cs) (v4 p) = then_with (le32_at packet (p + 12)) (λ src.
    then_with (le32_at packet (p + 16))
      (λ dst. value (process_xx_by_cidr_ipv4 o.xx_mode (c ∷ cs) (record { src = src; dst = dst }))))
verdict_of o packet (c ∷ cs) (v6 p) = then_with (bytes_at 16 packet (p + 8)) (λ src.
    then_with (bytes_at 16 packet (p + 24))
      (λ dst. value (process_xx_by_cidr_ipv6 o.xx_mode (c ∷ cs) (record { src = src; dst = dst }))))

unfoldable pub by_regex : {T : Type 0} → Options → List ℕ → Ip → Walk (Act T)
by_regex o packet (v4 p) =
    then_with (le32_at packet (p + 12))
      (λ src. value (cache send_flag (reversed o.reverse (truth (o.preg4 src)))))
by_regex o packet (v6 p) =
    then_with (bytes_at 16 packet (p + 8))
      (λ src. value (cache send_flag (reversed o.reverse (truth (o.preg6 src)))))

abbrev pub by_test : {T : Type 0} → Options → Option Bool → Act T
by_test o none = undefined_shift
by_test o (some true) = cache send_flag (reversed o.reverse c2s)
by_test o (some false) = cache send_flag (reversed o.reverse s2c)

unfoldable pub by_cidr : {T : Type 0} → Options → List ℕ → Ip → Walk (Act T)
by_cidr o packet (v4 p) =
    then_with (le32_at packet (p + 12)) (λ src. value (by_test o (check_ip_cidr o.cidrdata src)))
by_cidr o packet (v6 p) =
    then_with (bytes_at 16 packet (p + 8))
      (λ src. value (by_test o (check_ip6_cidr o.cidrdata src)))

-- The service of the destination port, where `need` bytes of the header are there.
abbrev pub service : (ℕ → Bool) → List ℕ → ℕ → ℕ → Walk Bool
service services l3 l4 need =
    if ltb (length l3 - l4) need
    then value false
    else then_with (be16_at l3 (l4 + 2)) (λ dport. value (services dport))

unfoldable pub port_of : Options → List ℕ → ℕ → Option ℕ → Walk Bool
port_of o l3 proto none = value false
port_of o l3 proto (some l4) =
    if proto == 6
    then service o.tcp_services l3 l4 20
    else if proto == 17
    then service o.udp_services l3 l4 8
    else value o.nonip

-- `l3` is the packet from its IP header to `ip46_end`.
unfoldable pub check_dst_port4 : Options → List ℕ → Walk Bool
check_dst_port4 o l3 = then_with (byte_of l3 0) (λ first.
    if ltb (length l3) (first % 16 * 4 + 4)
    then value false
    else then_with (byte_of l3 9) (λ proto.
      port_of o l3 proto (get_layer4_v4 (record { ip_hl = first % 16; ip_p = proto }) (length l3))))

unfoldable pub check_dst_port6 : Options → List ℕ → Walk Bool
check_dst_port6 o l3 =
    if ltb (length l3) 44
    then value false
    else then_with (get_ipv6_l4proto (length l3 + 2) l3 0)
        (λ proto. then_with (get_layer4_v6 (length l3 + 2) l3 0) (port_of o l3 proto))

-- `len` bytes from the IP header on.
unfoldable pub check_dst_port : Options → List ℕ → ℕ → Ip → Walk Bool
check_dst_port o packet len (v4 p) = check_dst_port4 o (take len (drop p packet))
check_dst_port o packet len (v6 p) = check_dst_port6 o (take len (drop p packet))
