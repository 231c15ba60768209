-- ===== src/Prep/Slots.antt =====
-- Each packet takes a slot of the cache, or tcpprep exits on a host that is not in the tree.
use tcpreplay.Mac.{macinstring}
use tcpreplay.Prelude.{
  le→ltb, subst, sym, ℕ, ◌≤◌, ◌≡◌, refl, arith, Bool, true, false, List, [], ◌∷◌, Option, none,
  some, length, All, IsBytes, inl, inr, ap,
}
use tcpreplay.Cache.{send_flag, dont_send, nosend}
use tcpreplay.Packet.{Walk}
use tcpreplay.Packet.Laws.{Ends, AnyNumber, ends_bind, ends_then, ends_if}
use tcpreplay.Cidr.{Cidr, check_ip_cidr, check_ip6_cidr}
use tcpreplay.Cidr.V4.{check_ip_cidr_iff}
use tcpreplay.Cidr.V6.{check_ip6_cidr_iff}
use tcpreplay.Filter.{Verdict}
use tcpreplay.Tree.{
  Node, Role, dir_unknown, dir_client, dir_server, dir_any, RbTree, answer_for, check_ip_tree,
  check_ip6_tree,
}
use tcpreplay.Prep.{
  Mode, error_mode, cidr_mode, regex_mode, port_mode, mac_mode, first_mode, auto_mode, router_mode,
  bridge_mode, server_mode, client_mode, Options, Act, cache, Ip, v4, v6, truth, reversed, left_out,
  by_regex, by_cidr, by_test,
}
use tcpreplay.Prep.Headers.{HasHeader, find_ip_lem, check_dst_port_lem, IsRow, ends_bytes_below}
use tcpreplay.Prep.Run.{
  is_mac, is_auto, by_mac, by_tree, answered, nonip_role, by_port, by_mode, unless_filtered, at_ip,
  process_packet,
}
use tcpreplay.Prep.Ready.{
  MayExit, IsNetwork, IsReady, IsCaptured, IsSlot, Decides, ends_addr4, ends_addr6, well_formed,
  verdict_lem, RecordsEach,
}

module _ (T : Type 0) (o : Options) (ready : IsReady o) (packet : List ℕ)
    (captured : IsCaptured o packet) where
  by_test-IsSlot : (b : Bool) → IsSlot {T = T} o.mode (by_test o (some b))
  by_test-IsSlot true = tt
  by_test-IsSlot false = tt

  cidr4-IsSlot :
      (cs : List Cidr) (src : ℕ)
      → All IsNetwork cs
      → IsSlot {T = T} o.mode (by_test o (check_ip_cidr cs src))
  cidr4-IsSlot [] src n = unfold check_ip_cidr in tt
  cidr4-IsSlot (c ∷ cs) src n =
      let d = check_ip_cidr_iff src c cs (well_formed (c ∷ cs) n) in rw d.1 (by_test-IsSlot d.0)

  cidr6-IsSlot :
      (cs : List Cidr) (src : List ℕ)
      → IsBytes src
      → All IsNetwork cs
      → IsSlot {T = T} o.mode (by_test o (check_ip6_cidr cs src))
  cidr6-IsSlot [] src b n = unfold check_ip6_cidr in tt
  cidr6-IsSlot (c ∷ cs) src b n =
      let d = check_ip6_cidr_iff src c cs b n in rw d.1 (by_test-IsSlot d.0)

  cidr_lem :
      (ip : Ip)
      → HasHeader packet o.datalink (some ip)
      → Ends (IsSlot {T = T} o.mode) (by_cidr o packet ip)
  unfolding by_cidr
  cidr_lem (v4 p) h =
      ends_bind AnyNumber (IsSlot {T = T} o.mode) _ _ (ends_addr4 packet o.datalink p h).0 (λ src u.
        (
          by_test o (check_ip_cidr o.cidrdata src),
          refl,
          cidr4-IsSlot o.cidrdata src ready.networks,
        ))
  cidr_lem (v6 p) h =
      ends_bind (IsRow 16) (IsSlot {T = T} o.mode) _ _
        (ends_addr6 packet o.datalink p captured.1 h).0
        (λ src u. (
          by_test o (check_ip6_cidr o.cidrdata src),
          refl,
          cidr6-IsSlot o.cidrdata src u.0 ready.networks,
        ))

  regex_lem :
      (ip : Ip)
      → HasHeader packet o.datalink (some ip)
      → Ends (IsSlot {T = T} o.mode) (by_regex o packet ip)
  unfolding by_regex
  regex_lem (v4 p) h =
      ends_bind AnyNumber (IsSlot {T = T} o.mode) _ _ (ends_addr4 packet o.datalink p h).0
        (λ src u. (cache send_flag (reversed o.reverse (truth (o.preg4 src))), refl, tt))
  regex_lem (v6 p) h =
      ends_bind (IsRow 16) (IsSlot {T = T} o.mode) _ _
        (ends_addr6 packet o.datalink p captured.1 h).0
        (λ src u. (cache send_flag (reversed o.reverse (truth (o.preg6 src))), refl, tt))

  mac_lem : (is_mac o.mode ≡ true) → Ends (IsSlot {T = T} o.mode) (by_mac o packet)
  unfolding by_mac
  mac_lem e =
      let long : 14 ≤ length packet = captured.2 e in
      rw (le→ltb (length packet) 14 long) (
        ends_bind (IsRow 6) (IsSlot {T = T} o.mode) _ _
          (ends_bytes_below 6 packet 6 captured.1 (omega arith))
          (λ shost u.
            (cache send_flag (reversed o.reverse (macinstring o.maclist shost)), refl, tt)))

  port_lem :
      (ip : Ip)
      → HasHeader packet o.datalink (some ip)
      → Ends (IsSlot {T = T} o.mode) (by_port o packet ip)
  unfolding by_port
  port_lem (v4 p) h = ends_then (IsSlot {T = T} o.mode) _ _ p h.0 (
      ends_bind _ (IsSlot {T = T} o.mode) _ _ (check_dst_port_lem o packet p (omega arith)).0
        (λ b u. (cache send_flag (truth b), refl, tt)))
  port_lem (v6 p) h = ends_then (IsSlot {T = T} o.mode) _ _ p h.0 (
      ends_bind _ (IsSlot {T = T} o.mode) _ _ (check_dst_port_lem o packet p (omega arith)).1
        (λ b u. (cache send_flag (truth b), refl, tt)))

-- A role in which an unknown host makes the program exit comes only in the modes that may.
abbrev Fits : Mode → Role → Type 0
Fits m dir_unknown = MayExit m
Fits m dir_client = Unit {0}
Fits m dir_server = Unit {0}
Fits m dir_any = Unit {0}

module _ (R : RbTree) (t : R.Tree) (o : Options) where
  answer-IsSlot :
      (role : Role) (found : Option Node)
      → Fits o.mode role
      → IsSlot {T = R.Tree} o.mode (answered (answer_for role found))
  unfolding answer_for
  answer-IsSlot dir_unknown none f = f
  answer-IsSlot dir_client none f = tt
  answer-IsSlot dir_server none f = tt
  answer-IsSlot dir_any none f = tt
  answer-IsSlot role (some n) f = tt

  module _ (ready : IsReady o) (packet : List ℕ) (captured : IsCaptured o packet) where
    tree_lem :
        (role : Role) (ip : Ip)
        → Fits o.mode role
        → HasHeader packet o.datalink (some ip)
        → Ends (IsSlot {T = R.Tree} o.mode) (by_tree R t role packet ip)
    unfolding by_tree check_ip_tree check_ip6_tree
    tree_lem role (v4 p) f h =
        ends_bind AnyNumber (IsSlot {T = R.Tree} o.mode) _ _ (ends_addr4 packet o.datalink p h).0
          (λ src u. (answered (check_ip_tree R role t src), refl, answer-IsSlot role _ f))
    tree_lem role (v6 p) f h =
        ends_bind (IsRow 16) (IsSlot {T = R.Tree} o.mode) _ _
          (ends_addr6 packet o.datalink p captured.1 h).0
          (λ src u. (answered (check_ip6_tree R role t src), refl, answer-IsSlot role _ f))

    nonip_lem : (b : Bool) → Fits o.mode (nonip_role b)
    nonip_lem true = tt
    nonip_lem false = tt

    mode_lem :
        (m : Mode) (ip : Ip)
        → o.mode ≡ m
        → RecordsEach m
        → HasHeader packet o.datalink (some ip)
        → Ends (IsSlot {T = R.Tree} o.mode) (by_mode R t o packet ip m)
    unfolding by_mode
    mode_lem error_mode ip e r h = absurd r
    mode_lem auto_mode ip e r h = absurd r
    mode_lem cidr_mode ip e r h = cidr_lem R.Tree o ready packet captured ip h
    mode_lem regex_mode ip e r h = regex_lem R.Tree o ready packet captured ip h
    mode_lem port_mode ip e r h = port_lem R.Tree o ready packet captured ip h
    mode_lem mac_mode ip e r h = mac_lem R.Tree o ready packet captured (ap is_mac e)
    mode_lem first_mode ip e r h = tree_lem dir_unknown ip (subst MayExit (sym e) tt) h
    mode_lem bridge_mode ip e r h = tree_lem dir_unknown ip (subst MayExit (sym e) tt) h
    mode_lem router_mode ip e r h = tree_lem (nonip_role o.nonip) ip (nonip_lem o.nonip) h
    mode_lem server_mode ip e r h = tree_lem dir_server ip tt h
    mode_lem client_mode ip e r h = tree_lem dir_client ip tt h

    records_not_auto : (m : Mode) → RecordsEach m → is_auto m ≡ false
    records_not_auto error_mode r = refl
    records_not_auto auto_mode r = absurd r
    records_not_auto cidr_mode r = refl
    records_not_auto regex_mode r = refl
    records_not_auto port_mode r = refl
    records_not_auto mac_mode r = refl
    records_not_auto first_mode r = refl
    records_not_auto router_mode r = refl
    records_not_auto bridge_mode r = refl
    records_not_auto server_mode r = refl
    records_not_auto client_mode r = refl

    verdict-IsSlot :
        (k : Walk (Act R.Tree)) (v : Verdict)
        → Decides v
        → Ends (IsSlot {T = R.Tree} o.mode) k
        → Ends (IsSlot {T = R.Tree} o.mode) (unless_filtered k v)
    verdict-IsSlot k v (inl e) q = rw e q
    verdict-IsSlot k v (inr e) q = rw e (cache dont_send nosend, refl, tt)

    at_ip_lem :
        (header : Option Ip)
        → HasHeader packet o.datalink header
        → Ends (IsSlot {T = R.Tree} o.mode) (at_ip R t o packet header)
    unfolding at_ip
    at_ip_lem none h =
        rw (records_not_auto o.mode ready.records) (cache send_flag (truth o.nonip), refl, tt)
    at_ip_lem (some ip) h =
        ends_bind Decides (IsSlot {T = R.Tree} o.mode) _ _
          (verdict_lem o ready packet captured o.xx_cidr ip refl ready.filters h)
          (λ v d.
            verdict-IsSlot (by_mode R t o packet ip o.mode) v d
              (mode_lem o.mode ip refl ready.records h))

    -- Each packet is recorded in the cache, and only in the modes that may exit can it end the
    -- program instead. No byte behind the packet is read.
    pub process_packet_lem :
        (num : ℕ) → Ends (IsSlot {T = R.Tree} o.mode) (process_packet R t o num packet)
    unfolding process_packet
    process_packet_lem num =
        ends_if (IsSlot {T = R.Tree} o.mode) (left_out o num) _ _
          (λ e. (cache dont_send nosend, refl, tt))
          (λ e.
            ends_if (IsSlot {T = R.Tree} o.mode) (is_mac o.mode) _ _
              (λ m. mac_lem R.Tree o ready packet captured m)
              (λ m.
                ends_bind (HasHeader packet o.datalink) (IsSlot {T = R.Tree} o.mode) _ _
                  (find_ip_lem packet o.datalink captured.0 ready.link) at_ip_lem))
