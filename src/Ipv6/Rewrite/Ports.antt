-- ===== src/Ipv6/Rewrite/Ports.antt =====
-- `rewrite_ipv6_ports` of src/tcpedit/portmap.c on the bytes of a packet without extension headers.
use tcpreplay.Prelude.{
  ℕ, ◌+◌, ◌-◌, ◌%◌, ◌≤◌, ◌<◌, ◌≡◌, ◌≢◌, ◌⊎◌, inl, inr, refl, arith, ltb, false, List, some, length,
  swap16, u16, IsBytes, ap, ◌∙◌,
}
use tcpreplay.Packet.{value, byte_of}
use tcpreplay.Packet.Laws.{Ends}
use tcpreplay.Portmap.{Entry}
use tcpreplay.Portmap.Rewrite.{Header, ok, proto_tcp, proto_udp, new_port, rewrite_ports}
use tcpreplay.Portmap.Rewrite.Laws.{
  IsHeader, Mapped, rewrite_ports_tcp, rewrite_ports_udp, VerifiesOrNone,
}
use tcpreplay.Tree.Packets.{le16_at}
use tcpreplay.Checksum.Partial.Sum.{words_sum}
use tcpreplay.FullChecksum.{v6}
use tcpreplay.FullChecksum.Windows.{window, word}
use tcpreplay.FullChecksum.Laws.{Verifies, byte_of-put16}
use tcpreplay.Ipv6.Rewrite.{
  layer4_of_lem, sum_at, header_len, write_header, ports_at, rewrite_ipv6_ports, IsPorted,
}
use tcpreplay.Ipv6.Rewrite.Words.{
  word-bound, le16_at-word, had, read_lem, edited, length-edited, sport_lem, dport_lem, sum_lem,
  edited_sum, same_addresses,
}

-- The checksum of the header right behind the IPv6 header is right, or it is UDP's 0, which is none.
abbrev pub SumRight : ℕ → ℕ → List ℕ → Type 0
SumRight protocol n packet =
    ((protocol ≡ proto_udp) × (le16_at packet 46 ≡ value 0)) ⊎ Verifies v6 40 protocol n packet

-- The ports and the checksum of that header are the only bytes that may have changed; the ports are
-- those of the map, and the checksum is right.
pub record IsRewritten (es : List Entry) (protocol n : ℕ) (packet r : List ℕ) : Type 0 where
  pub sport : ℕ
  pub dport : ℕ
  pub had_sport : le16_at packet 40 ≡ value sport
  pub had_dport : le16_at packet 42 ≡ value dport
  pub has_sport : le16_at r 40 ≡ value (new_port es sport)
  pub has_dport : le16_at r 42 ≡ value (new_port es dport)
  pub right : SumRight protocol n r
  pub same_length : length r ≡ length packet
  pub others :
      (j : ℕ)
      → (j < 40) ⊎ (44 ≤ j)
      → 40 + sum_at protocol ≢ j
      → 40 + sum_at protocol + 1 ≢ j
      → byte_of r j ≡ byte_of packet j

module _ (es : List Entry) (packet : List ℕ) (bytes : IsBytes packet) (n : ℕ)
    (size : length packet ≡ 40 + n) where
  abbrev pseudo : ℕ → ℕ
  pseudo protocol = words_sum (window 8 32 packet) + swap16 (u16 (protocol + n))

  -- All that the checksum covers but the three fields, moved up so that it is no negative number.
  abbrev rest : ℕ → ℕ → ℕ
  rest protocol at =
      pseudo protocol
      + words_sum (window 40 n packet)
      + 196605
      - (word packet 40 + word packet 42 + word packet (40 + at))

  module _ (protocol at : ℕ) (even : at % 2 ≡ 0) (behind : 4 ≤ at) (room : at + 2 ≤ n) where
    abbrev old : Header
    old = had packet at n even behind room (omega arith)

    old-IsHeader : IsHeader old
    old-IsHeader =
        (word-bound packet 40 bytes, word-bound packet 42 bytes, word-bound packet (40 + at) bytes)

    to_rest :
        Verifies v6 40 protocol n packet
        → (rest protocol at + old.sport + old.dport + old.sum) % 65535 ≡ 0
    to_rest v = let (a, b, c) = old-IsHeader in omega arith

    from_rest :
        (h : Header)
        → (rest protocol at + h.sport + h.dport + h.sum) % 65535 ≡ 0
        → Verifies v6 40 protocol n (edited packet at n even behind room (omega arith) h)
    from_rest h v =
        let (a, b, c) = old-IsHeader in
        let moved = edited_sum packet at n even behind room (omega arith) h in
        let same = ap words_sum (same_addresses packet at n even behind room (omega arith) h) in
        omega arith

    rewritten :
        (h : Header)
        → sum_at protocol ≡ at
        → Mapped es old h
        → SumRight protocol n (edited packet at n even behind room (omega arith) h)
        → IsRewritten es protocol n packet (edited packet at n even behind room (omega arith) h)
    rewritten h place mapped right = record {
      sport = old.sport;
      dport = old.dport;
      had_sport = le16_at-word packet 40 (omega arith);
      had_dport = le16_at-word packet 42 (omega arith);
      has_sport =
          sport_lem packet at n even behind room (omega arith) h ∙ ap (λ (k : ℕ). value k) mapped.0;
      has_dport =
          dport_lem packet at n even behind room (omega arith) h ∙ ap (λ (k : ℕ). value k) mapped.1;
      right = right;
      same_length = length-edited packet at n even behind room (omega arith) h;
      others = λ j far a b.
          byte_of-put16 _ (40 + at) j h.sum (λ e. a (omega arith)) (λ e. b (omega arith))
          ∙ byte_of-put16 _ 42 j h.dport (λ e. ground arith) (λ e. ground arith)
          ∙ byte_of-put16 packet 40 j h.sport (λ e. ground arith) (λ e. ground arith);
    }

  by_tcp :
      20 ≤ n
      → SumRight proto_tcp n packet
      → Ends
          (λ r. (r.0 ≡ ok) × IsRewritten es proto_tcp n packet r.1)
          (ports_at es packet proto_tcp (some 40))
  unfolding ports_at write_header
  by_tcp long (inl (e, z)) = absurd (omega arith)
  by_tcp long (inr v) =
      let h = old proto_tcp 16 refl (omega arith) (omega arith) in
      let back : length packet - 40 ≡ n = omega arith in
      let enough : ltb n 20 ≡ false = ground arith in
      let run = read_lem packet 16 n refl (omega arith) (omega arith) (omega arith) in
      let r = rewrite_ports es proto_tcp h n in
      let (good, mapped, header, verifies) =
        rewrite_ports_tcp es (rest proto_tcp 16) n h long
          (old-IsHeader proto_tcp 16 refl (omega arith) (omega arith))
          (to_rest proto_tcp 16 refl (omega arith) (omega arith) v) in
      rw (back, enough, run)
        (
          (r.0, edited packet 16 n refl (omega arith) (omega arith) (omega arith) r.1),
          refl,
          (
            good,
            rewritten proto_tcp 16 refl (omega arith) (omega arith) r.1 refl mapped
                (inr (from_rest proto_tcp 16 refl (omega arith) (omega arith) r.1 verifies)),
          ),
        )

  none_or :
      (long : 8 ≤ n)
      → SumRight proto_udp n packet
      → VerifiesOrNone (rest proto_udp 6) (old proto_udp 6 refl (omega arith) (omega arith))
  none_or long (inl (e, z)) = let w = le16_at-word packet 46 (omega arith) in inl (cc (w, z))
  none_or long (inr v) = inr (to_rest proto_udp 6 refl (omega arith) (omega arith) v)

  or_none :
      (long : 8 ≤ n) (h : Header)
      → VerifiesOrNone (rest proto_udp 6) h
      → SumRight proto_udp n (edited packet 6 n refl (omega arith) (omega arith) (omega arith) h)
  or_none long h (inl z) = inl (
    refl,
    sum_lem packet 6 n refl (omega arith) (omega arith) (omega arith) h ∙ ap (λ (k : ℕ). value k) z,
  )
  or_none long h (inr v) = inr (from_rest proto_udp 6 refl (omega arith) (omega arith) h v)

  by_udp :
      8 ≤ n
      → SumRight proto_udp n packet
      → Ends
          (λ r. (r.0 ≡ ok) × IsRewritten es proto_udp n packet r.1)
          (ports_at es packet proto_udp (some 40))
  unfolding ports_at write_header
  by_udp long v =
      let h = old proto_udp 6 refl (omega arith) (omega arith) in
      let back : length packet - 40 ≡ n = omega arith in
      let enough : ltb n 8 ≡ false = ground arith in
      let run = read_lem packet 6 n refl (omega arith) (omega arith) (omega arith) in
      let r = rewrite_ports es proto_udp h n in
      let (good, mapped, header, verifies) =
        rewrite_ports_udp es (rest proto_udp 6) n h long
          (old-IsHeader proto_udp 6 refl (omega arith) (omega arith)) (none_or long v) in
      rw (back, enough, run)
        (
          (r.0, edited packet 6 n refl (omega arith) (omega arith) (omega arith) r.1),
          refl,
          (
            good,
            rewritten proto_udp 6 refl (omega arith) (omega arith) r.1 refl mapped
                (or_none long r.1 verifies),
          ),
        )

-- A packet of bytes with an IPv6 header and, as its next header says, a whole TCP or UDP header right
-- behind it, whose checksum is right, or in UDP 0: `rewrite_ipv6_ports` replaces both ports by those
-- of the map, the checksum is right again, or in UDP 0, and no other byte changes.
pub rewrite_ipv6_ports_lem :
    (es : List Entry) (packet : List ℕ) (ip_nh n : ℕ)
    → IsBytes packet
    → length packet ≡ 40 + n
    → header_len ip_nh ≤ n
    → byte_of packet 6 ≡ value ip_nh
    → IsPorted ip_nh
    → SumRight ip_nh n packet
    → Ends
        (λ r. (r.0 ≡ ok) × IsRewritten es ip_nh n packet r.1)
        (rewrite_ipv6_ports es (some packet))
unfolding rewrite_ipv6_ports
rewrite_ipv6_ports_lem es packet ip_nh n bytes size long b (inl e) right =
    rw (b, e, layer4_of_lem packet ip_nh (omega arith) b (inl e))
      (by_tcp es packet bytes n size (rw e at long) (rw e at right))
rewrite_ipv6_ports_lem es packet ip_nh n bytes size long b (inr e) right =
    rw (b, e, layer4_of_lem packet ip_nh (omega arith) b (inr e))
      (by_udp es packet bytes n size (rw e at long) (rw e at right))
