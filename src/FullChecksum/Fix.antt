-- ===== src/FullChecksum/Fix.antt =====
-- `do_checksum` and `fix_ipv4_checksums` on a whole IPv4 packet.
use tcpreplay.Prelude.{
  ℕ, ◌+◌, ◌-◌, ◌*◌, ◌/◌, ◌%◌, ◌^◌, ◌≤◌, ◌<◌, ◌≡◌, ◌≢◌, ◌⊎◌, refl, arith, true, false, List, length,
  IsBytes, ltb, ◌==◌, ap, ap₂, subst, ◌∙◌, inl, inr, sym,
}
use tcpreplay.Packet.{value, byte_of, be16_at}
use tcpreplay.Packet.Laws.{Ends, ends_then}
use tcpreplay.Portmap.Rewrite.{Code, ok}
use tcpreplay.FullChecksum.{
  put16, Family, v4, addresses_at, addresses_len, sum_udp, sum_header, by_proto, do_checksum, worse,
  then_header, fix_by, fix_ipv4_checksums,
}
use tcpreplay.FullChecksum.Windows.{window, window-put16_before}
use tcpreplay.FullChecksum.Laws.{
  length-put16, put16-IsBytes, byte_of-put16, Sealed, Verifies, HeaderVerifies, sum_pseudo_lem,
  sum_header_lem,
}

-- A TCP segment, or a UDP datagram that has a checksum; `field` is the place of the checksum in it.
abbrev pub Carries : List ℕ → ℕ → ℕ → ℕ → ℕ → Type 0
Carries packet l4 proto field len =
    ((proto ≡ 6) × (field ≡ 16) × (20 ≤ len))
    ⊎ ((proto ≡ 17)
        × (field ≡ 6)
        × (8 ≤ len)
        × (uh_sum : ℕ) × (be16_at packet (l4 + 6) ≡ value uh_sum)
        × (uh_sum ≢ 0))

module _ (f : Family) (packet : List ℕ) (ip_hl len : ℕ) (bytes : IsBytes packet)
    (behind : addresses_at f + addresses_len f ≤ ip_hl) where
  by_tcp :
      20 ≤ len
      → len ≤ 65500
      → ip_hl + len ≤ length packet
      → Ends (Sealed packet (ip_hl + 16) (Verifies f ip_hl 6 len)) (by_proto f packet ip_hl 6 len)
  unfolding by_proto
  by_tcp long short inside =
      let e : ltb len 20 ≡ false = ground arith in
      rw e (sum_pseudo_lem f packet ip_hl 16 6 len bytes behind refl (omega arith) short inside)

  by_udp :
      (uh_sum : ℕ)
      → be16_at packet (ip_hl + 6) ≡ value uh_sum
      → uh_sum ≢ 0
      → 8 ≤ len
      → len ≤ 65500
      → ip_hl + len ≤ length packet
      → Ends (Sealed packet (ip_hl + 6) (Verifies f ip_hl 17 len)) (by_proto f packet ip_hl 17 len)
  unfolding by_proto sum_udp
  by_udp uh_sum has nonzero long short inside =
      let e : ltb len 8 ≡ false = ground arith in
      let z : (uh_sum == 0) ≡ false = ground arith in
      rw (e, has, z)
        (sum_pseudo_lem f packet ip_hl 6 17 len bytes behind refl (omega arith) short inside)

  pub by_proto_lem :
      (proto field : ℕ)
      → Carries packet ip_hl proto field len
      → len ≤ 65500
      → ip_hl + len ≤ length packet
      → Ends
          (Sealed packet (ip_hl + field) (Verifies f ip_hl proto len))
          (by_proto f packet ip_hl proto len)
  by_proto_lem proto field (inl (p, q, long)) short inside = rw (p, q) (by_tcp long short inside)
  by_proto_lem proto field (inr (p, q, long, uh_sum, has, nonzero)) short inside =
      rw (p, q) (by_udp uh_sum has nonzero long short inside)

-- On an IPv4 packet the header's length is read from it.
do_checksum-v4 :
    (packet : List ℕ) (ihl proto len : ℕ)
    → byte_of packet 0 ≡ value (64 + ihl)
    → ihl < 16
    → 0 < len
    → do_checksum packet proto len ≡ by_proto v4 packet (ihl * 4) proto len
unfolding do_checksum
do_checksum-v4 packet ihl proto len first small some_bytes =
    let e : (len == 0) ≡ false = ground arith in
    let v : (64 + ihl) / 16 ≡ 4 = omega arith in
    let h : (64 + ihl) % 16 ≡ ihl = omega arith in rw (e, first, v, h) refl

-- The packet with both checksums, at `at` and at 10: nothing else has changed.
pub record IsFixed (packet : List ℕ) (ihl at proto len : ℕ) (fixed : List ℕ) : Type 0 where
  pub header : HeaderVerifies (ihl * 4) fixed
  pub segment : Verifies v4 (ihl * 4) proto len fixed
  pub same_length : length fixed ≡ length packet
  pub others : (j : ℕ) → 10 ≢ j → 11 ≢ j → at ≢ j → at + 1 ≢ j → byte_of fixed j ≡ byte_of packet j

-- An IPv4 packet that was captured whole and is not a fragment, with a header of at least 20 bytes
-- and the total length that it has.
pub record IsWhole (packet : List ℕ) (ihl proto len field : ℕ) : Type 0 where
  pub bytes : IsBytes packet
  pub first : byte_of packet 0 ≡ value (64 + ihl)
  pub least : 5 ≤ ihl
  pub most : ihl < 16
  pub length_field : be16_at packet 2 ≡ value (ihl * 4 + len)
  pub offset_field : (ip_off : ℕ) × (be16_at packet 6 ≡ value ip_off) × (ip_off % 2 ^ 14 ≡ 0)
  pub protocol : byte_of packet 9 ≡ value proto
  pub carries : Carries packet (ihl * 4) proto field len
  pub size : length packet ≡ ihl * 4 + len
  pub short : len ≤ 65500

-- Two stores into one field.
twice : List ℕ → ℕ → ℕ → List ℕ
twice packet i v = put16 (put16 packet i 0) i v

length-twice : (packet : List ℕ) (i v : ℕ) → length (twice packet i v) ≡ length packet
unfolding twice
length-twice packet i v = length-put16 _ i v ∙ length-put16 packet i 0

byte_of-twice :
    (packet : List ℕ) (i j v : ℕ)
    → i ≢ j
    → i + 1 ≢ j
    → byte_of (twice packet i v) j ≡ byte_of packet j
unfolding twice
byte_of-twice packet i j v a b = byte_of-put16 _ i j v a b ∙ byte_of-put16 packet i j 0 a b

window-twice :
    (packet : List ℕ) (m n i v : ℕ) → i + 2 ≤ m → window m n (twice packet i v) ≡ window m n packet
unfolding twice
window-twice packet m n i v h =
    window-put16_before _ m n i v h ∙ window-put16_before packet m n i 0 h

twice-IsBytes :
    (packet : List ℕ) (i v : ℕ) → IsBytes packet → v < 2 ^ 16 → IsBytes (twice packet i v)
unfolding twice
twice-IsBytes packet i v h small =
    put16-IsBytes _ i v (put16-IsBytes packet i 0 h (omega arith)) small

module _ (packet : List ℕ) (ihl proto len field : ℕ) (w : IsWhole packet ihl proto len field) where
  abbrev ip_hl : ℕ
  ip_hl = ihl * 4

  abbrev at : ℕ
  at = ip_hl + field

  some_bytes : 0 < len
  some_bytes = elim w.carries [
    | inl (p, f, long) ↦ omega arith
    | inr (p, f, long, uh_sum, has, nonzero) ↦ omega arith
  ]

  header_fixes :
      (v : ℕ)
      → v < 2 ^ 16
      → Verifies v4 ip_hl proto len (twice packet at v)
      → Ends
          (λ r. (r.0 ≡ ok) × IsFixed packet ihl at proto len r.1)
          (then_header (ip_hl + len) (ok, twice packet at v))
  unfolding then_header by_proto
  header_fixes v small verifies =
      let p1 = twice packet at v in
      let size = w.size in
      let least = w.least in
      let most = w.most in
      let long = length-twice packet at v in
      let first : byte_of p1 0 ≡ value (64 + ihl) =
        byte_of-twice packet at 0 v (λ e. omega arith) (λ e. omega arith) ∙ w.first in
      let h =
        sum_header_lem p1 ip_hl (twice-IsBytes packet at v w.bytes small) (omega arith)
          (omega arith) (omega arith) in
      let run : do_checksum p1 0 (ip_hl + len) ≡ sum_header v4 p1 ip_hl =
        do_checksum-v4 p1 ihl 0 (ip_hl + len) first most (omega arith) in
      let (r, e, (good, u, u_small, stored, header)) = h in
      let p2 : r.1 ≡ twice p1 10 u = stored ∙ (unfold twice in refl) in
      let fixed : IsFixed packet ihl at proto len (twice p1 10 u) = record {
        header = subst (HeaderVerifies ip_hl) p2 header;
        segment =
            rw
              (
                window-twice p1 12 8 10 u (omega arith),
                window-twice p1 ip_hl len 10 u (omega arith),
              )
              verifies;
        same_length = length-twice p1 10 u ∙ long;
        others = λ j a b c d.
            byte_of-twice p1 10 j u a (λ x. b (omega arith)) ∙ byte_of-twice packet at j v c d;
      } in
      ends_then _ _ _ r (run ∙ e) (
        (worse ok r.0, r.1),
        refl,
        (ap (worse ok) good, subst (IsFixed packet ihl at proto len) (sym p2) fixed),
      )

-- An IPv4 packet of bytes that was captured whole, whose header has at least 20 bytes and the total
-- length of the packet, that is no fragment and carries at most 65500 bytes of TCP, or of UDP with a
-- checksum: afterwards both checksums are right, as the one's complement sums that they are part of
-- are 0. No other byte changes, and the code reads and writes inside the packet.
pub fix_ipv4_checksums_lem :
    (packet : List ℕ) (ihl proto len field : ℕ)
    → IsWhole packet ihl proto len field
    → Ends
        (λ r. (r.0 ≡ ok) × IsFixed packet ihl (ihl * 4 + field) proto len r.1)
        (fix_ipv4_checksums packet true)
unfolding fix_ipv4_checksums fix_by
fix_ipv4_checksums_lem packet ihl proto len field w =
    let size = w.size in
    let least = w.least in
    let most = w.most in
    let long : ltb (length packet) 20 ≡ false = ground arith in
    let v : (64 + ihl) / 16 ≡ 4 = omega arith in
    let h : (64 + ihl) % 16 ≡ ihl = omega arith in
    let (ip_off, has_off, whole) = w.offset_field in
    let same : (ihl * 4 + len == length packet) ≡ true = ground arith in
    let rest : ihl * 4 + len - ihl * 4 ≡ len = omega arith in
    let some_len = some_bytes packet ihl proto len field w in
    let run : do_checksum packet proto len ≡ by_proto v4 packet (ihl * 4) proto len =
      do_checksum-v4 packet ihl proto len w.first most some_len in
    let (r, e, (good, u, u_small, stored, verifies)) =
      by_proto_lem v4 packet (ihl * 4) len w.bytes (omega arith) proto field w.carries w.short
        (omega arith) in
    let at = ihl * 4 + field in
    let p1 : r.1 ≡ twice packet at u = stored ∙ (unfold twice in refl) in
    let next =
      header_fixes packet ihl proto len field w u u_small
        (subst (Verifies v4 (ihl * 4) proto len) p1 verifies) in
    let pair : r ≡ (ok, twice packet at u) = ap₂ (λ (c : Code) (p : List ℕ). (c, p)) good p1 in
    rw (long, w.first, v, w.length_field, has_off, w.protocol, h, whole, same, rest, run ∙ e, pair)
      next
