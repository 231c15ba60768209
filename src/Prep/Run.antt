-- ===== src/Prep/Run.antt =====
-- One turn of the loop in `process_raw_packets` of src/tcpprep.c, and the loop.
use tcpreplay.Prelude.{
  ℕ, ◌+◌, ◌-◌, Bool, true, false, List, [], ◌∷◌, Option, none, some, ltb, if◌then◌else◌, length,
}
use tcpreplay.Cache.{Dir, nosend, Chain, add_cache, send_flag, dont_send}
use tcpreplay.Filter.{Verdict}
use tcpreplay.Mac.{macinstring}
use tcpreplay.Packet.{Walk, value, then_with}
use tcpreplay.L2.{get_l2len}
use tcpreplay.Tree.{
  Role, dir_unknown, dir_client, dir_server, RbTree, check_ip_tree, check_ip6_tree,
}
use tcpreplay.Tree.Packets.{le32_at, bytes_at}
use tcpreplay.Tree.Capture.{add_tree, add_tree_first_ipv4, add_tree_first_ipv6}
use tcpreplay.Prep.{
  Mode, error_mode, cidr_mode, regex_mode, port_mode, mac_mode, first_mode, auto_mode, router_mode,
  bridge_mode, server_mode, client_mode, Options, Act, next, cache, grow, exits, fails,
  undefined_shift, Ip, v4, v6, find_ip, truth, reversed, left_out, verdict_of, by_regex, by_cidr,
  check_dst_port,
}

abbrev pub is_mac : Mode → Bool
is_mac mac_mode = true
is_mac m = false

abbrev pub is_auto : Mode → Bool
is_auto auto_mode = true
is_auto m = false

abbrev pub is_first : Mode → Bool
is_first first_mode = true
is_first m = false

-- `eth_hdr_t` has 14 bytes, the source behind the destination. A shorter packet is passed over.
unfoldable pub by_mac : {T : Type 0} → Options → List ℕ → Walk (Act T)
by_mac o packet =
    if ltb (length packet) 14
    then value next
    else then_with (bytes_at 6 packet 6)
        (λ shost. value (cache send_flag (reversed o.reverse (macinstring o.maclist shost))))

-- The first pass of the automatic modes; `none` is an exit.
abbrev pub grown : {T : Type 0} → Option T → Act T
grown none = exits
grown (some t) = grow t

unfoldable pub by_auto : (R : RbTree) → R.Tree → Options → List ℕ → Ip → Walk (Act R.Tree)
by_auto R t o packet (v4 p) =
    if is_first o.automode
    then then_with (add_tree_first_ipv4 R t packet o.datalink) (λ u. value (grown u))
    else then_with (add_tree R t packet o.datalink) (λ u. value (grown u))
by_auto R t o packet (v6 p) =
    if is_first o.automode
    then then_with (add_tree_first_ipv6 R t packet o.datalink) (λ u. value (grown u))
    else then_with (add_tree R t packet o.datalink) (λ u. value (grown u))

-- The second pass: `none` is the exit on a host that is not in the tree.
abbrev pub answered : {T : Type 0} → Option Dir → Act T
answered none = exits
answered (some d) = cache send_flag d

unfoldable pub by_tree : (R : RbTree) → R.Tree → Role → List ℕ → Ip → Walk (Act R.Tree)
by_tree R t role packet (v4 p) =
    then_with (le32_at packet (p + 12)) (λ src. value (answered (check_ip_tree R role t src)))
by_tree R t role packet (v6 p) =
    then_with (bytes_at 16 packet (p + 8)) (λ src. value (answered (check_ip6_tree R role t src)))

-- `options->nonip` as a `direction_t`: 0 is `DIR_CLIENT`, 1 is `DIR_SERVER`.
abbrev pub nonip_role : Bool → Role
nonip_role true = dir_server
nonip_role false = dir_client

unfoldable pub by_port : {T : Type 0} → Options → List ℕ → Ip → Walk (Act T)
by_port o packet ip = then_with (get_l2len packet o.datalink) (λ l2len.
    then_with (check_dst_port o packet (length packet - l2len) ip)
      (λ b. value (cache send_flag (truth b))))

-- The switch over the modes, for a packet with an IP header.
unfoldable pub by_mode : (R : RbTree) → R.Tree → Options → List ℕ → Ip → Mode → Walk (Act R.Tree)
by_mode R t o packet ip error_mode = value exits
by_mode R t o packet ip cidr_mode = by_cidr o packet ip
by_mode R t o packet ip regex_mode = by_regex o packet ip
by_mode R t o packet ip port_mode = by_port o packet ip
by_mode R t o packet ip mac_mode = by_mac o packet
by_mode R t o packet ip first_mode = by_tree R t dir_unknown packet ip
by_mode R t o packet ip auto_mode = by_auto R t o packet ip
by_mode R t o packet ip router_mode = by_tree R t (nonip_role o.nonip) packet ip
by_mode R t o packet ip bridge_mode = by_tree R t dir_unknown packet ip
by_mode R t o packet ip server_mode = by_tree R t dir_server packet ip
by_mode R t o packet ip client_mode = by_tree R t dir_client packet ip

abbrev pub unless_filtered : {T : Type 0} → Walk (Act T) → Verdict → Walk (Act T)
unless_filtered k Verdict.send = k
unless_filtered k Verdict.dont_send = value (cache dont_send nosend)
unless_filtered k Verdict.assert_fails = value fails
unless_filtered k Verdict.undefined = value undefined_shift

-- A packet without IP header is recorded once: not in the first pass of the automatic modes.
-- `get_l2len` does not return a negative number, so the code's test of that never holds.
unfoldable pub at_ip : (R : RbTree) → R.Tree → Options → List ℕ → Option Ip → Walk (Act R.Tree)
at_ip R t o packet none =
    if is_auto o.mode then value next else value (cache send_flag (truth o.nonip))
at_ip R t o packet (some ip) =
    then_with (verdict_of o packet o.xx_cidr ip) (unless_filtered (by_mode R t o packet ip o.mode))

-- What is done with packet number `num`.
unfoldable pub process_packet : (R : RbTree) → R.Tree → Options → ℕ → List ℕ → Walk (Act R.Tree)
process_packet R t o num packet =
    if left_out o num
    then value (cache dont_send nosend)
    else if is_mac o.mode
    then by_mac o packet
    else then_with (find_ip packet o.datalink) (at_ip R t o packet)

-- The tree and the cache, which the options hold in the code.
pub record State (T : Type 0) : Type 0 where
  pub tree : T
  pub cachedata : Option Chain

-- How the loop ends: with the state and `packetnum`, with the program's exit, with a failed
-- `assert`, or with a shift that C leaves undefined.
pub data Ending (T : Type 0) : Type 0 where
  exited failed undefined : Ending T
  done : State T → ℕ → Ending T

abbrev pub perform : {T : Type 0} → Act T → State T → (State T → Walk (Ending T)) → Walk (Ending T)
perform next s go_on = go_on s
perform (cache send d) s go_on =
    go_on (record s { cachedata = some (add_cache s.cachedata send d).0 })
perform (grow t) s go_on = go_on (record s { tree = t })
perform exits s go_on = value exited
perform fails s go_on = value failed
perform undefined_shift s go_on = value undefined

unfoldable pub process_raw_packets :
    (R : RbTree) → Options → State R.Tree → ℕ → List (List ℕ) → Walk (Ending R.Tree)
process_raw_packets R o s packetnum [] = value (done s packetnum)
process_raw_packets R o s packetnum (p ∷ ps) =
    then_with (process_packet R s.tree o (packetnum + 1) p)
      (λ act. perform act s (λ u. process_raw_packets R o u (packetnum + 1) ps))
