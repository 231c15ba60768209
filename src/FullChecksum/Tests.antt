-- ===== src/FullChecksum/Tests.antt =====
-- The checksums of a TCP segment over IPv4 and of an echo request over IPv6.
use tcpreplay.Prelude.{ℕ, ◌+◌, ◌*◌, ◌≡◌, refl, arith, List, [], ◌∷◌, ◌++◌, true, inl, replicate}
use tcpreplay.Packet.{value, byte_of, be16_at}
use tcpreplay.Packet.Laws.{Ends}
use tcpreplay.Portmap.Rewrite.{ok, warn}
use tcpreplay.Ipv6.{kind_of}
use tcpreplay.FullChecksum.{fix_ipv4_checksums, fix_ipv6_checksums, v6}
use tcpreplay.FullChecksum.Laws.{Sealed, Verifies}
use tcpreplay.FullChecksum.Fix.{IsWhole, IsFixed, fix_ipv4_checksums_lem}
use tcpreplay.FullChecksum.Fix6.{
  IsUpper, IsUpperPacket, fix_ipv6_checksums_lem, fix_ipv6_checksums_skips,
}

abbrev segment : List ℕ
segment =
    69
    ∷ 0
    ∷ 0
    ∷ 40
    ∷ 0
    ∷ 1
    ∷ 64
    ∷ 0
    ∷ 64
    ∷ 6
    ∷ 0
    ∷ 0
    ∷ 10
    ∷ 0
    ∷ 0
    ∷ 1
    ∷ 10
    ∷ 0
    ∷ 0
    ∷ 2
    ∷ (0 ∷ 80 ∷ 4 ∷ 210 ∷ replicate 16 7)

segment-IsWhole : IsWhole segment 5 6 20 16
unfolding byte_of be16_at
segment-IsWhole = record {
  bytes = omega arith;
  first = refl;
  least = omega arith;
  most = omega arith;
  length_field = refl;
  offset_field = (16384, refl, refl);
  protocol = refl;
  carries = inl (refl, refl, omega arith);
  size = refl;
  short = omega arith;
}

fix_ipv4_checksums_lem_example :
    Ends
      (λ r. (r.0 ≡ ok) × IsFixed segment 5 (5 * 4 + 16) 6 20 r.1)
      (fix_ipv4_checksums segment true)
fix_ipv4_checksums_lem_example = fix_ipv4_checksums_lem segment 5 6 20 16 segment-IsWhole

abbrev packet6 : ℕ → ℕ → List ℕ
packet6 hi lo =
    96 ∷ 0 ∷ 0 ∷ 0 ∷ hi ∷ lo ∷ 58 ∷ 64 ∷ (replicate 32 1 ++ (128 ∷ 0 ∷ 0 ∷ 0 ∷ 0 ∷ 1 ∷ 0 ∷ 1 ∷ []))

icmp6-IsUpper : IsUpper 58
unfolding kind_of
icmp6-IsUpper = (refl, refl)

packet6-IsUpperPacket : (hi lo : ℕ) → IsUpperPacket (packet6 hi lo) 96 58 (hi * 256 + lo)
unfolding byte_of be16_at
packet6-IsUpperPacket hi lo = record {
  first = refl;
  version = refl;
  next = refl;
  upper = icmp6-IsUpper;
  payload = refl;
  room = omega arith;
}

fix_ipv6_checksums_lem_example :
    Ends (Sealed (packet6 0 8) 42 (Verifies v6 40 58 8)) (fix_ipv6_checksums (packet6 0 8) true)
fix_ipv6_checksums_lem_example =
    fix_ipv6_checksums_lem (packet6 0 8) 96 58 2 8 (packet6-IsUpperPacket 0 8) (omega arith)
      (inl (refl, refl, omega arith)) (omega arith) refl (omega arith)

-- 512 bytes.
fix_ipv6_checksums_skips_example : fix_ipv6_checksums (packet6 2 0) true ≡ value (warn, packet6 2 0)
fix_ipv6_checksums_skips_example =
    fix_ipv6_checksums_skips (packet6 2 0) 96 58 512 (packet6-IsUpperPacket 2 0) (omega arith)
