-- ===== src/Ipv6/L4proto.antt =====
-- `get_ipv6_l4proto` ends, with the number of a protocol that it does not look behind.
use tcpreplay.Prelude.{ℕ, zero, suc, ◌+◌, ◌≤◌, ◌≡◌, ◌≢◌, refl, arith, List, length}
use tcpreplay.Packet.{value}
use tcpreplay.Ipv6.{
  Kind, no_next, tunnel, encrypted, fragment, extension, other, kind_of, l4proto_turn, l4proto_loop,
  get_ipv6_l4proto, nh_no_next,
}
use tcpreplay.Packet.Laws.{Ends}
use tcpreplay.Ipv6.Turns.{enter_lem, turn_lem}

-- Neither an extension header that is walked over nor IPv6 in IPv6.
abbrev pub IsLast : ℕ → Type 0
IsLast proto = (kind_of proto ≢ extension) × (kind_of proto ≢ tunnel)

last :
    (proto : ℕ) (k : Kind)
    → kind_of proto ≡ k
    → k ≢ extension
    → k ≢ tunnel
    → Ends IsLast (value proto)
last proto k e x t = (proto, refl, ((λ q. x (cc (e, q))), (λ q. t (cc (e, q)))))

no_next-IsLast : IsLast nh_no_next
unfolding kind_of
no_next-IsLast = ((λ q. cc q), (λ q. cc q))

abbrev Loops : ℕ → List ℕ → Type 0
Loops fuel packet =
    (proto ptr : ℕ)
    → ptr ≤ length packet
    → length packet + 2 ≤ fuel + ptr
    → Ends IsLast (l4proto_loop fuel packet proto ptr)

last_turn :
    (fuel : ℕ) (packet : List ℕ) (proto ptr : ℕ)
    → 1 ≤ fuel
    → kind_of proto ≡ other
    → Ends IsLast (l4proto_loop fuel packet proto ptr)
unfolding l4proto_loop l4proto_turn
last_turn zero packet proto ptr f k = absurd (omega arith)
last_turn (suc fuel) packet proto ptr f k = rw k (last proto other k (λ q. cc q) (λ q. cc q))

turn_of_kind :
    (fuel : ℕ) (packet : List ℕ) (proto ptr : ℕ) (k : Kind)
    → Loops fuel packet
    → ptr ≤ length packet
    → length packet + 2 ≤ suc fuel + ptr
    → kind_of proto ≡ k
    → Ends IsLast (l4proto_turn (λ p n. l4proto_loop fuel packet p n) packet proto ptr k)
unfolding l4proto_turn
turn_of_kind fuel packet proto ptr no_next ih h enough e =
    last proto no_next e (λ q. cc q) (λ q. cc q)
turn_of_kind fuel packet proto ptr fragment ih h enough e =
    last proto fragment e (λ q. cc q) (λ q. cc q)
turn_of_kind fuel packet proto ptr encrypted ih h enough e =
    last proto encrypted e (λ q. cc q) (λ q. cc q)
turn_of_kind fuel packet proto ptr other ih h enough e = last proto other e (λ q. cc q) (λ q. cc q)
turn_of_kind fuel packet proto ptr tunnel ih h enough e =
    enter_lem packet IsLast nh_no_next (λ p n. l4proto_loop fuel packet p n) no_next-IsLast ptr
      (λ p fits. ih p (ptr + 40) fits (omega arith))
turn_of_kind fuel packet proto ptr extension ih h enough e =
    turn_lem packet IsLast nh_no_next (λ p n. l4proto_loop fuel packet p n) no_next-IsLast ptr
      (λ p n least fits. ih p n (omega arith) (omega arith))
      (λ p k fits. last_turn fuel packet p ptr (omega arith) k)

l4proto_loop_lem : (fuel : ℕ) (packet : List ℕ) → Loops fuel packet
unfolding l4proto_loop
l4proto_loop_lem zero packet proto ptr h enough = absurd (omega arith)
l4proto_loop_lem (suc fuel) packet proto ptr h enough =
    turn_of_kind fuel packet proto ptr (kind_of proto) (l4proto_loop_lem fuel packet) h enough refl

-- With fuel for the length of the packet and 2 more, `get_ipv6_l4proto` ends, reads no byte behind
-- the end, and returns neither the number of an extension header that it walks over nor that of
-- IPv6 in IPv6.
pub get_ipv6_l4proto_lem :
    (packet : List ℕ) (hdr : ℕ) → Ends IsLast (get_ipv6_l4proto (length packet + 2) packet hdr)
unfolding get_ipv6_l4proto
get_ipv6_l4proto_lem packet hdr =
    enter_lem packet IsLast nh_no_next (λ p n. l4proto_loop (length packet + 2) packet p n)
      no_next-IsLast hdr
      (λ p fits. l4proto_loop_lem (length packet + 2) packet p (hdr + 40) fits (omega arith))
