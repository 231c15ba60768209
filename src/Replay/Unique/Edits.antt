-- ===== src/Replay/Unique/Edits.antt =====
-- `fast_edit_packet` on the bytes of a packet: two words of 32 bits change, and nothing else.
use tcpreplay.Prelude.{
  ℕ, zero, suc, ◌+◌, ◌*◌, ◌/◌, ◌%◌, ◌^◌, ◌≤◌, ◌<◌, ◌≡◌, ◌⊎◌, refl, arith, Bool, true, false,
  Bool-cases, ltb, List, [], ◌∷◌, Option, none, some, ◌==◌, length, set, length-set, IsBytes, inl,
  inr, ap, ◌∙◌,
}
use tcpreplay.Packet.{value, byte_of, be16_at, be32_at}
use tcpreplay.Packet.Laws.{byte_of-set_ne, Ends, ends_then, ends_be32_below}
use tcpreplay.L2.{Layer2, ethertype_ip, ethertype_ip6, get_l2len_protocol}
use tcpreplay.L2.Bounds.{get_l2len_protocol_lem}
use tcpreplay.Replay.Unique.{unique_pair, put_be32, edit_pair, edit_found, fast_edit_packet}
use tcpreplay.Replay.Unique.Laws.{SameSum, unique_pair-SameSum}

byte_of-set_self : (xs : List ℕ) (i v : ℕ) → i < length xs → byte_of (set xs i v) i ≡ value v
unfolding byte_of
byte_of-set_self [] i v h = absurd (omega arith)
byte_of-set_self (x ∷ xs) zero v h = refl
byte_of-set_self (x ∷ xs) (suc i) v h = byte_of-set_self xs i v (omega arith)

-- Behind or in front of four bytes.
abbrev pub Apart : ℕ → ℕ → Type 0
Apart i j = (j < i) ⊎ (i + 4 ≤ j)

pub length-put_be32 : (xs : List ℕ) (i v : ℕ) → length (put_be32 xs i v) ≡ length xs
length-put_be32 xs i v = rw (length-set, length-set, length-set, length-set) refl

pub byte_of-put_be32 :
    (xs : List ℕ) (i j v : ℕ) → Apart i j → byte_of (put_be32 xs i v) j ≡ byte_of xs j
byte_of-put_be32 xs i j v apart =
    byte_of-set_ne _ (i + 3) j (v % 256) (ground arith)
    ∙ byte_of-set_ne _ (i + 2) j (v / 2 ^ 8 % 256) (ground arith)
    ∙ byte_of-set_ne _ (i + 1) j (v / 2 ^ 16 % 256) (ground arith)
    ∙ byte_of-set_ne _ i j (v / 2 ^ 24 % 256) (ground arith)

be32_of :
    (xs : List ℕ) (i a b c d : ℕ)
    → byte_of xs i ≡ value a
    → byte_of xs (i + 1) ≡ value b
    → byte_of xs (i + 2) ≡ value c
    → byte_of xs (i + 2 + 1) ≡ value d
    → be32_at xs i ≡ value ((a * 256 + b) * 65536 + (c * 256 + d))
unfolding be32_at be16_at
be32_of xs i a b c d ea eb ec ed = rw (ea, eb, ec, ed) refl

pub be32_at-put_be32 :
    (xs : List ℕ) (i v : ℕ) → i + 4 ≤ length xs → v < 2 ^ 32 → be32_at (put_be32 xs i v) i ≡ value v
be32_at-put_be32 xs i v room small =
    let x1 = set xs i (v / 2 ^ 24 % 256) in
    let x2 = set x1 (i + 1) (v / 2 ^ 16 % 256) in
    let x3 = set x2 (i + 2) (v / 2 ^ 8 % 256) in
    let l1 : length x1 ≡ length xs = length-set xs i (v / 2 ^ 24 % 256) in
    let l2 : length x2 ≡ length x1 = length-set x1 (i + 1) (v / 2 ^ 16 % 256) in
    let l3 : length x3 ≡ length x2 = length-set x2 (i + 2) (v / 2 ^ 8 % 256) in
    be32_of (put_be32 xs i v) i (v / 2 ^ 24 % 256) (v / 2 ^ 16 % 256) (v / 2 ^ 8 % 256) (v % 256)
      (byte_of-set_ne x3 (i + 3) i (v % 256) (ground arith)
        ∙ byte_of-set_ne x2 (i + 2) i (v / 2 ^ 8 % 256) (ground arith)
        ∙ byte_of-set_ne x1 (i + 1) i (v / 2 ^ 16 % 256) (ground arith)
        ∙ byte_of-set_self xs i (v / 2 ^ 24 % 256) (omega arith))
      (byte_of-set_ne x3 (i + 3) (i + 1) (v % 256) (ground arith)
        ∙ byte_of-set_ne x2 (i + 2) (i + 1) (v / 2 ^ 8 % 256) (ground arith)
        ∙ byte_of-set_self x1 (i + 1) (v / 2 ^ 16 % 256) (omega arith))
      (byte_of-set_ne x3 (i + 3) (i + 2) (v % 256) (ground arith)
        ∙ byte_of-set_self x2 (i + 2) (v / 2 ^ 8 % 256) (omega arith))
      (ap (byte_of (put_be32 xs i v)) (let e : i + 2 + 1 ≡ i + 3 = omega arith in e)
        ∙ byte_of-set_self x3 (i + 3) (v % 256) (omega arith))
    ∙ ap (λ (n : ℕ). value n) (omega arith)

-- What one pass makes of a packet whose source and destination lie at these places: the pair of the
-- pass lies there now, with the sum of the old one, and no other byte has changed.
pub record IsPass (cached : Bool) (iteration : ℕ) (packet : List ℕ) (src_at dst_at : ℕ)
    (edited : List ℕ) : Type 0 where
  pub src : ℕ
  pub dst : ℕ
  pub had_src : be32_at packet src_at ≡ value src
  pub had_dst : be32_at packet dst_at ≡ value dst
  pub has_src : be32_at edited src_at ≡ value (unique_pair cached iteration src dst).0
  pub has_dst : be32_at edited dst_at ≡ value (unique_pair cached iteration src dst).1
  pub same_sum : SameSum src dst (unique_pair cached iteration src dst)
  pub same_length : length edited ≡ length packet
  pub others : (j : ℕ) → Apart src_at j → Apart dst_at j → byte_of edited j ≡ byte_of packet j

-- A header of either kind behind layer 2, whole enough.
abbrev pub HasFields : List ℕ → Layer2 → Type 0
HasFields packet s =
    ((s.protocol ≡ ethertype_ip) × (s.l2len + 20 ≤ length packet))
    ⊎ ((s.protocol ≡ ethertype_ip6) × (s.l2len + 40 ≤ length packet))

-- The result on a packet with this layer 2: the edit of the fields of its header, or the refusal of
-- a packet that has no such header.
abbrev pub IsPass? : Bool → ℕ → List ℕ → Option Layer2 → Option (List ℕ) → Type 0
IsPass? cached iteration packet none none = Unit {0}
IsPass? cached iteration packet (some s) none = ¬ HasFields packet s
IsPass? cached iteration packet none (some edited) = ⊥
IsPass? cached iteration packet (some s) (some edited) =
    ((s.protocol ≡ ethertype_ip)
      × (s.l2len + 20 ≤ length packet)
      × IsPass cached iteration packet (s.l2len + 12) (s.l2len + 16) edited)
    ⊎ ((s.protocol ≡ ethertype_ip6)
        × (s.l2len + 40 ≤ length packet)
        × IsPass cached iteration packet (s.l2len + 20) (s.l2len + 36) edited)

be32_at-same :
    (xs ys : List ℕ) (i : ℕ)
    → byte_of xs i ≡ byte_of ys i
    → byte_of xs (i + 1) ≡ byte_of ys (i + 1)
    → byte_of xs (i + 2) ≡ byte_of ys (i + 2)
    → byte_of xs (i + 2 + 1) ≡ byte_of ys (i + 2 + 1)
    → be32_at xs i ≡ be32_at ys i
unfolding be32_at be16_at
be32_at-same xs ys i a b c d = rw (a, b, c, d) refl

module _ (cached : Bool) (iteration : ℕ) (packet : List ℕ) (bytes : IsBytes packet) where
  edit_pair_lem :
      (src_at dst_at : ℕ)
      → src_at + 4 ≤ dst_at
      → dst_at + 4 ≤ length packet
      → (edited : List ℕ) × (edit_pair cached iteration packet src_at dst_at ≡ value (some edited))
        × IsPass cached iteration packet src_at dst_at edited
  unfolding edit_pair
  edit_pair_lem src_at dst_at before room =
      let s = ends_be32_below packet src_at bytes (omega arith) in
      let d = ends_be32_below packet dst_at bytes room in
      let ips = unique_pair cached iteration s.0 d.0 in
      let same = unique_pair-SameSum cached iteration s.0 d.0 s.2 d.2 in
      let once = put_be32 packet src_at ips.0 in
      let long : length once ≡ length packet = length-put_be32 packet src_at ips.0 in
      let far = λ (j : ℕ) (h : j < dst_at). byte_of-put_be32 once dst_at j ips.1 (inl h) in
      (
        put_be32 once dst_at ips.1,
        rw (s.1, d.1) refl,
        record {
          src = s.0;
          dst = d.0;
          had_src = s.1;
          had_dst = d.1;
          has_src =
              be32_at-same (put_be32 once dst_at ips.1) once src_at (far src_at (omega arith))
                (far (src_at + 1) (omega arith)) (far (src_at + 2) (omega arith))
                (far (src_at + 2 + 1) (omega arith))
              ∙ be32_at-put_be32 packet src_at ips.0 (omega arith) same.1;
          has_dst = be32_at-put_be32 once dst_at ips.1 (omega arith) same.2;
          same_sum = same;
          same_length = length-put_be32 once dst_at ips.1 ∙ long;
          others = λ j p q.
              byte_of-put_be32 once dst_at j ips.1 q ∙ byte_of-put_be32 packet src_at j ips.0 p;
        },
      )

  by_ip :
      (s : Layer2)
      → s.protocol ≡ ethertype_ip
      → Ends
          (IsPass? cached iteration packet (some s))
          (edit_found cached iteration packet (some s))
  unfolding edit_found
  by_ip s e =
      let is_ip : (s.protocol == ethertype_ip) ≡ true = ground arith in
      rw is_ip (elim (Bool-cases (ltb (length packet) (s.l2len + 20))) [
        | inl short ↦ rw short (none, refl, λ h. ground arith)
        | inr long ↦ rw long (
            let room : s.l2len + 20 ≤ length packet = ground arith in
            let (edited, run, pass) =
              edit_pair_lem (s.l2len + 12) (s.l2len + 16) (omega arith) (omega arith) in
            (some edited, run, inl (e, room, pass)))
      ])

  by_ip6 :
      (s : Layer2)
      → s.protocol ≡ ethertype_ip6
      → Ends
          (IsPass? cached iteration packet (some s))
          (edit_found cached iteration packet (some s))
  unfolding edit_found
  by_ip6 s e =
      let not_ip : (s.protocol == ethertype_ip) ≡ false = ground arith in
      let is_ip6 : (s.protocol == ethertype_ip6) ≡ true = ground arith in
      rw (not_ip, is_ip6)
        (elim (Bool-cases (ltb (length packet) (s.l2len + 40))) [
          | inl short ↦ rw short (none, refl, λ h. ground arith)
          | inr long ↦ rw long (
              let room : s.l2len + 40 ≤ length packet = ground arith in
              let (edited, run, pass) =
                edit_pair_lem (s.l2len + 20) (s.l2len + 36) (omega arith) (omega arith) in
              (some edited, run, inr (e, room, pass)))
        ])

  by_none :
      (s : Layer2)
      → (s.protocol == ethertype_ip) ≡ false
      → (s.protocol == ethertype_ip6) ≡ false
      → Ends
          (IsPass? cached iteration packet (some s))
          (edit_found cached iteration packet (some s))
  unfolding edit_found
  by_none s e e6 = rw (e, e6) (none, refl, λ h. ground arith)

  found_lem :
      (o : Option Layer2)
      → Ends (IsPass? cached iteration packet o) (edit_found cached iteration packet o)
  unfolding edit_found
  found_lem none = (none, refl, tt)
  found_lem (some s) = elim (Bool-cases (s.protocol == ethertype_ip)) [
    | inl e ↦ by_ip s (ground arith)
    | inr e ↦ elim (Bool-cases (s.protocol == ethertype_ip6)) [
      | inl e6 ↦ by_ip6 s (ground arith)
      | inr e6 ↦ by_none s e e6
    ]
  ]

-- On every packet of bytes and every link type, `fast_edit_packet` ends and reads no byte behind the
-- packet. Where `get_l2len_protocol` finds an IPv4 header of at least 20 bytes or an IPv6 header of
-- at least 40, the source and destination fields of it, of IPv6 the last four bytes of each address,
-- get the pair of the pass, which has the same one's complement sum; the length and all other bytes
-- stay. Every other packet is refused.
pub fast_edit_packet_lem :
    (cached : Bool) (iteration : ℕ) (packet : List ℕ) (datalink : ℕ)
    → IsBytes packet
    → (o : Option Layer2) × (get_l2len_protocol packet datalink ≡ value o)
      × Ends (IsPass? cached iteration packet o) (fast_edit_packet cached iteration packet datalink)
unfolding fast_edit_packet
fast_edit_packet_lem cached iteration packet datalink bytes =
    let (o, e, inside) = get_l2len_protocol_lem packet datalink in
    let (r, run, pass) = found_lem cached iteration packet bytes o in
    (o, e, ends_then (IsPass? cached iteration packet o) _ _ o e (r, run, pass))
