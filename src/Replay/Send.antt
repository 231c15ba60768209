-- ===== src/Replay/Send.antt =====
-- The loop of `send_packets` and `cache_mode` of src/send_packets.c, as tcpreplay is built without
-- netmap, AF_XDP and editing: which packets go out, on which interface, and what is counted. How long
-- it sleeps between them is left to Replay/Rate.
pub mod Routes
pub mod Limits
use tcpreplay.Prelude.{
  ℕ, ◌+◌, ◌-◌, ◌*◌, ◌%◌, ◌^◌, ◌≤◌, Bool, true, false, not, List, [], ◌∷◌, Option, none, some, ltb,
  leb, ◌==◌, ◌&&◌, ◌||◌, if◌then◌else◌, length, take, drop, u64, min,
}
use tcpreplay.Cache.{Dir, error, nosend, c2s, s2c, Checked, exits, found, out_of_range, check_cache}
use tcpreplay.Packet.{Walk, value, overrun, then_with}
use tcpreplay.L2.{get_l2len}
use tcpreplay.Ranges.{Range, check_list}
use tcpreplay.Replay.Unique.{fast_edit_packet}

-- A packet of a capture: the bytes that were captured, and the length on the wire.
pub record Captured : Type 0 where
  pub bytes : List ℕ
  pub len : ℕ

pub data Interface : Type 0 where
  primary secondary : Interface

-- What of `tcpreplay_t` and its options the loop reads.
pub record Options : Type 0 where
  pub list : List Range
  pub is_exclude : Bool
  pub use_pkthdr_len : Bool
  pub cachedata : List ℕ
  pub cache_packets : ℕ
  pub dual : Bool
  pub unique_ip : Bool
  pub unique_iteration : ℕ
  pub last_unique_iteration : ℕ
  pub preload : Bool
  pub datalink : ℕ
  pub limit_send : ℕ

-- What the loop meets at packet `num`: does the draw of --loss keep the packet back, does
-- `sendpacket` take all its bytes, does the output give up after a failure, is it an interface without
-- layer 2, and has the time of --duration run out?
pub record World : Type 0 where
  pub lost : ℕ → Bool
  pub takes : ℕ → List ℕ → Bool
  pub gives_up : ℕ → Bool
  pub raw_ip : Interface → Bool
  pub time_is_up : ℕ → Bool

-- The packet number, the counts of `stats`, `abort`, and what went out, the latest first.
pub record Sender : Type 0 where
  pub packetnum : ℕ
  pub pkts_sent : ℕ
  pub bytes_sent : ℕ
  pub failed : ℕ
  pub abort : Bool
  pub out : List (Interface × List ℕ)

-- The rules --include and --exclude; the empty list is none.
unfoldable pub not_sent_by_rule : Options → ℕ → Bool
not_sent_by_rule o num = elim o.list [
  | [] ↦ false
  | r ∷ rs ↦ if check_list (r ∷ rs) num then o.is_exclude else not o.is_exclude
]

unfoldable pub pktlen_of : Options → Captured → ℕ
pktlen_of o p = if o.use_pkthdr_len then min p.len (length p.bytes) else length p.bytes

-- NULL for a packet that is not sent, beyond the cache too.
abbrev pub interface_of : Checked → Walk (Option Interface)
interface_of (found c2s) = value (some primary)
interface_of (found s2c) = value (some secondary)
interface_of (found nosend) = value none
interface_of (found error) = value none
interface_of exits = value none
interface_of out_of_range = overrun

unfoldable pub cache_mode : List ℕ → ℕ → ℕ → Walk (Option Interface)
cache_mode cachedata cache_packets packet_num =
    if ltb cache_packets packet_num
    then value none
    else interface_of (check_cache cachedata packet_num)

unfoldable pub output_of : Options → ℕ → Walk (Option Interface)
output_of o num =
    if o.dual then cache_mode o.cachedata o.cache_packets num else value (some primary)

-- The packet with the addresses of this pass; `none` is a failure.
unfoldable pub unique_data : Options → List ℕ → Walk (Option (List ℕ))
unique_data o bytes =
    if o.unique_ip
      && not (o.unique_iteration == 0)
      && ltb o.last_unique_iteration o.unique_iteration
    then fast_edit_packet o.preload (o.unique_iteration - 1) bytes o.datalink
    else value (some bytes)

-- `len` bytes from `from` on, as the output reads them: behind the packet is an overrun.
unfoldable pub read_out : List ℕ → ℕ → ℕ → Walk (Option (List ℕ))
read_out bytes from len =
    if ltb (length bytes) (from + len) then overrun else value (some (take len (drop from bytes)))

-- What is sent of the packet: on an interface without layer 2, what lies behind its header, and
-- nothing (`none`) if the header takes it all.
unfoldable pub cut_data : Options → World → Interface → List ℕ → ℕ → Walk (Option (List ℕ))
cut_data o w sp bytes pktlen =
    if w.raw_ip sp
    then then_with (get_l2len bytes o.datalink)
        (λ l2len. if leb pktlen l2len then value none else read_out bytes l2len (pktlen - l2len))
    else read_out bytes 0 pktlen

abbrev pub fail : Sender → Sender
fail s = record s { failed = s.failed + 1 }

-- A packet that went out, or that the draw kept back, is counted; then the limits are looked at.
unfoldable pub count_sent : Options → World → ℕ → Sender → List ℕ → Sender
count_sent o w num s sent =
    let pkts = u64 (s.pkts_sent + 1) in
    record s {
      pkts_sent = pkts;
      bytes_sent = u64 (s.bytes_sent + length sent);
      abort = w.time_is_up num || (not (o.limit_send == 0) && leb o.limit_send pkts);
    }

unfoldable pub put_out : Options → World → ℕ → Interface → Sender → Option (List ℕ) → Sender
put_out o w num sp s none = fail s
put_out o w num sp s (some sent) =
    if w.lost num
    then count_sent o w num s sent
    else if w.takes num sent
    then count_sent o w num (record s { out = (sp, sent) ∷ s.out }) sent
    else record s { abort = w.gives_up num }

unfoldable pub send_edited :
    Options → World → ℕ → Interface → ℕ → Sender → Option (List ℕ) → Walk Sender
send_edited o w num sp pktlen s none = value (fail s)
send_edited o w num sp pktlen s (some bytes) =
    then_with (cut_data o w sp bytes pktlen) (λ sent. value (put_out o w num sp s sent))

unfoldable pub send_on : Options → World → ℕ → Captured → Sender → Option Interface → Walk Sender
send_on o w num p s none = value s
send_on o w num p s (some sp) =
    then_with (unique_data o p.bytes) (send_edited o w num sp (pktlen_of o p) s)

-- One turn of the loop; `s` has the number of this packet.
unfoldable pub send_one : Options → World → Sender → Captured → Walk Sender
send_one o w s p =
    if not_sent_by_rule o s.packetnum
    then value s
    else then_with (output_of o s.packetnum) (send_on o w s.packetnum p s)

unfoldable pub send_packets : Options → World → Sender → List Captured → Walk Sender
send_packets o w s [] = value s
send_packets o w s (p ∷ ps) =
    let rest =
      then_with (send_one o w (record s { packetnum = s.packetnum + 1 }) p)
        (λ u. send_packets o w u ps) in
    if s.abort then value s else rest
