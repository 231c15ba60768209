-- ===== src/L2/Labels.antt =====
-- The tags and labels behind an Ethernet header: the loops end, and read only inside the packet.
use tcpreplay.Prelude.{
  ℕ, zero, suc, ◌+◌, ◌/◌, ◌%◌, ◌^◌, ◌≤◌, ◌≡◌, refl, arith, List, Option, none, some, ◌==◌, length,
  Bool-cases, inl, inr,
}
use tcpreplay.Packet.{Walk, byte_of, be16_at, be32_at}
use tcpreplay.Packet.Laws.{
  Ends, AnyNumber, ends_bind, ends_room, ends_if, ends_byte, ends_be16, ends_be32,
}
use tcpreplay.L2.{
  Layer2, ethertype_ip, ethertype_ip6, parse_vlan, mpls_loop, eompls, mpls_payload, behind_labels,
  parse_mpls, Tag, vlan, mpls, plain, tag_of, mark_vlan, then_loop, metadata_turn, metadata_loop,
  parse_metadata,
}

-- The lengths and offsets lie inside the packet, and the header is at least so long.
abbrev pub Reaches : List ℕ → ℕ → Option Layer2 → Type 0
Reaches packet least none = Unit {0}
Reaches packet least (some s) =
    (least ≤ s.l2len)
    × (s.l2len ≤ length packet)
    × (s.l2offset ≤ s.l2len)
    × (s.vlan_offset ≤ s.l2len)

abbrev pub IsPlaced : List ℕ → Layer2 → Type 0
IsPlaced packet s = (s.l2len ≤ length packet) × (s.l2offset ≤ s.l2len) × (s.vlan_offset ≤ s.l2len)

parse_vlan_lem :
    (packet : List ℕ) (s : Layer2)
    → IsPlaced packet s
    → Ends (Reaches packet (s.l2len + 4)) (parse_vlan packet s)
unfolding parse_vlan
parse_vlan_lem packet s p =
    ends_room (Reaches packet (s.l2len + 4)) (length packet) (s.l2len + 4) _ _ (none, refl, tt)
      (λ room.
        ends_bind AnyNumber (Reaches packet (s.l2len + 4)) (be16_at packet (s.l2len + 2)) _
          (ends_be16 packet (s.l2len + 2) (omega arith))
          (λ tpid u. (some (record s { protocol = tpid; l2len = s.l2len + 4 }), refl, omega arith)))

-- Where the labels end.
abbrev LabelsEnd : List ℕ → ℕ → Option ℕ → Type 0
LabelsEnd packet least none = Unit {0}
LabelsEnd packet least (some n) = (least ≤ n) × (n ≤ length packet)

mpls_loop_lem :
    (fuel : ℕ) (packet : List ℕ) (len : ℕ)
    → len ≤ length packet
    → length packet + 1 ≤ fuel + len
    → Ends (LabelsEnd packet (len + 4)) (mpls_loop fuel packet len)
unfolding mpls_loop
mpls_loop_lem zero packet len h enough = absurd (omega arith)
mpls_loop_lem (suc fuel) packet len h enough =
    ends_room (LabelsEnd packet (len + 4)) (length packet) (len + 4) _ _ (none, refl, tt)
      (λ room.
        ends_bind AnyNumber (LabelsEnd packet (len + 4)) (be32_at packet len) _
          (ends_be32 packet len room)
          (λ entry u.
            ends_if (LabelsEnd packet (len + 4)) (entry / 2 ^ 12 == 13) _ _
              (λ gach. (none, refl, tt))
              (λ other.
                ends_if (LabelsEnd packet (len + 4)) (entry / 2 ^ 8 % 2 == 1) _ _
                  (λ bos. (some (len + 4), refl, omega arith))
                  (λ more. further (mpls_loop_lem fuel packet (len + 4) room (omega arith))))))
  where
    further :
        Ends (LabelsEnd packet (len + 4 + 4)) (mpls_loop fuel packet (len + 4))
        → Ends (LabelsEnd packet (len + 4)) (mpls_loop fuel packet (len + 4))
    further (none, e, u) = (none, e, tt)
    further (some n, e, l) = (some n, e, omega arith)

eompls_lem :
    (packet : List ℕ) (s : Layer2) (len : ℕ)
    → s.l2len + 4 ≤ len
    → IsPlaced packet s
    → Ends (Reaches packet (s.l2len + 4)) (eompls packet s len)
unfolding eompls
eompls_lem packet s len h p =
    ends_room (Reaches packet (s.l2len + 4)) (length packet) (len + 4 + 14) _ _ (none, refl, tt)
      (λ room.
        ends_bind AnyNumber (Reaches packet (s.l2len + 4)) (be16_at packet (len + 4 + 12)) _
          (ends_be16 packet (len + 4 + 12) (omega arith))
          (λ t u. (
            some (record s { protocol = t; l2offset = len + 4; l2len = len + 4 + 14 }),
            refl,
            omega arith,
          )))

mpls_payload_lem :
    (packet : List ℕ) (s : Layer2) (len nibble : ℕ)
    → s.l2len + 4 ≤ len
    → len ≤ length packet
    → IsPlaced packet s
    → Ends (Reaches packet (s.l2len + 4)) (mpls_payload packet s len nibble)
unfolding mpls_payload
mpls_payload_lem packet s len nibble h room p =
    ends_if (Reaches packet (s.l2len + 4)) (nibble == 4) _ _
      (λ v4. (some (record s { protocol = ethertype_ip; l2len = len }), refl, omega arith))
      (λ a.
        ends_if (Reaches packet (s.l2len + 4)) (nibble == 6) _ _
          (λ v6. (some (record s { protocol = ethertype_ip6; l2len = len }), refl, omega arith))
          (λ b.
            ends_if (Reaches packet (s.l2len + 4)) (nibble == 0) _ _
              (λ pw. eompls_lem packet s len h p) (λ c. (none, refl, tt))))

parse_mpls_lem :
    (packet : List ℕ) (s : Layer2)
    → IsPlaced packet s
    → Ends (Reaches packet (s.l2len + 4)) (parse_mpls packet s)
unfolding parse_mpls
parse_mpls_lem packet s p =
    ends_bind (LabelsEnd packet (s.l2len + 4)) (Reaches packet (s.l2len + 4)) _
      (behind_labels packet s) (mpls_loop_lem (length packet + 1) packet s.l2len p.0 (omega arith))
      behind
  where
    behind :
        (o : Option ℕ)
        → LabelsEnd packet (s.l2len + 4) o
        → Ends (Reaches packet (s.l2len + 4)) (behind_labels packet s o)
    behind none u = (none, refl, tt)
    behind (some len) l =
        ends_room (Reaches packet (s.l2len + 4)) (length packet) (len + 1) _ _ (none, refl, tt)
          (λ room.
            ends_bind AnyNumber (Reaches packet (s.l2len + 4)) (byte_of packet len) _
              (ends_byte packet len (omega arith))
              (λ b u. mpls_payload_lem packet s len (b / 2 ^ 4) l.0 l.1 p))

abbrev Loops : ℕ → List ℕ → Type 0
Loops fuel packet =
    (s : Layer2)
    → IsPlaced packet s
    → length packet + 1 ≤ fuel + s.l2len
    → Ends (Reaches packet s.l2len) (metadata_loop fuel packet s)

weaken :
    (packet : List ℕ) (low high : ℕ) (w : Walk (Option Layer2))
    → low ≤ high
    → Ends (Reaches packet high) w
    → Ends (Reaches packet low) w
weaken packet low high w h (none, q, l) = (none, q, tt)
weaken packet low high w h (some s, q, l) = (some s, q, omega arith)

module _ (fuel : ℕ) (packet : List ℕ) (ih : Loops fuel packet) (s : Layer2) (p : IsPlaced packet s)
    (enough : length packet + 1 ≤ suc fuel + s.l2len) where
  go_on :
      (o : Option Layer2)
      → Reaches packet (s.l2len + 4) o
      → Ends (Reaches packet s.l2len) (then_loop (λ t. metadata_loop fuel packet t) o)
  go_on none u = (none, refl, tt)
  go_on (some t) r =
      weaken packet s.l2len t.l2len _ (omega arith) (ih t (omega arith) (omega arith))

  marked : IsPlaced packet (mark_vlan s) × ((mark_vlan s).l2len ≡ s.l2len)
  marked = elim (Bool-cases (s.vlan_offset == 0)) [
    | inl e ↦ rw e (omega arith)
    | inr e ↦ rw e (p, refl)
  ]

  turn :
      (t : Tag)
      → Ends (Reaches packet s.l2len) (metadata_turn (λ t. metadata_loop fuel packet t) packet s t)
  unfolding metadata_turn
  turn vlan =
      ends_bind (Reaches packet (s.l2len + 4)) (Reaches packet s.l2len) _
        (then_loop (λ t. metadata_loop fuel packet t))
        (rw marked.1 at (parse_vlan_lem packet (mark_vlan s) marked.0)) go_on
  turn mpls =
      ends_bind (Reaches packet (s.l2len + 4)) (Reaches packet s.l2len) _
        (then_loop (λ t. metadata_loop fuel packet t)) (parse_mpls_lem packet s p) go_on
  turn plain = (some s, refl, omega arith)

metadata_loop_lem : (fuel : ℕ) (packet : List ℕ) → Loops fuel packet
unfolding metadata_loop
metadata_loop_lem zero packet s p enough = absurd (omega arith)
metadata_loop_lem (suc fuel) packet s p enough =
    turn fuel packet (metadata_loop_lem fuel packet) s p enough (tag_of s.protocol)

pub parse_metadata_lem :
    (packet : List ℕ) (s : Layer2)
    → IsPlaced packet s
    → Ends (Reaches packet s.l2len) (parse_metadata packet s)
unfolding parse_metadata
parse_metadata_lem packet s p = metadata_loop_lem (length packet + 1) packet s p (omega arith)
