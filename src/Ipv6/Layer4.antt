-- ===== src/Ipv6/Layer4.antt =====
-- `get_layer4_v6` ends inside the packet.
use tcpreplay.Prelude.{
  ℕ, zero, suc, ◌+◌, ◌≤◌, ◌≡◌, inl, inr, refl, arith, List, Option, none, some, ltb, ◌==◌, length,
  Bool-cases, ltb→le, le→ltb, ap, ◌∙◌,
}
use tcpreplay.Packet.{Walk, value, then_with, byte_of}
use tcpreplay.Ipv6.{
  Kind, no_next, tunnel, encrypted, fragment, extension, other, kind_of, within, extlen_to_bytes,
  get_ipv6_next, if_fits, enter, land, again, layer4_turn, layer4_loop, get_layer4_v6,
}
use tcpreplay.Packet.Laws.{Ends, ends_then, byte_of_lem}
use tcpreplay.Ipv6.Turns.{Lands, within-Lands, enter_lem, turn_lem}

land_lem :
    (packet : List ℕ) (first proto next : ℕ)
    → next ≤ length packet
    → Ends (Lands packet next) (land packet first proto next)
unfolding land
land_lem packet first proto next h = elim (Bool-cases (proto == first)) [
  | inl e ↦ (some next, rw e, (omega arith, h))
  | inr e ↦ rw e (elim (Bool-cases (ltb (length packet) (next + 2))) [
    | inl t ↦ (none, rw t, tt)
    | inr t ↦
        let b =
          byte_of_lem packet (next + 1) (omega (arith, ltb→le (length packet) (next + 2) t)) in
        rw t (
          ends_then (Lands packet next) (byte_of packet (next + 1))
            (λ len. value (within packet (next + extlen_to_bytes len))) b.0 b.1
            (
              within packet (next + extlen_to_bytes b.0),
              refl,
              within-Lands packet next _ (omega arith),
            ))
  ])
]

-- What the loop does from every state that it can reach with so much fuel.
abbrev Loops : ℕ → List ℕ → Type 0
Loops fuel packet =
    (first proto next : ℕ)
    → next ≤ length packet
    → length packet + 2 ≤ fuel + next
    → Ends (Lands packet next) (layer4_loop fuel packet first proto next)

weaken :
    (packet : List ℕ) (low high : ℕ) (w : Walk (Option ℕ))
    → low ≤ high
    → Ends (Lands packet high) w
    → Ends (Lands packet low) w
weaken packet low high w h (none, q, l) = (none, q, tt)
weaken packet low high w h (some n, q, l) = (some n, q, (omega arith, l.1))

-- A turn with a header that is the last one.
last_turn :
    (fuel : ℕ) (packet : List ℕ) (first proto next : ℕ)
    → 1 ≤ fuel
    → kind_of proto ≡ other
    → next ≤ length packet
    → Ends (Lands packet next) (layer4_loop fuel packet first proto next)
unfolding layer4_loop layer4_turn
last_turn zero packet first proto next f k h = absurd (omega arith)
last_turn (suc fuel) packet first proto next f k h = rw k (land_lem packet first proto next h)

module _ (fuel : ℕ) (packet : List ℕ) (ih : Loops fuel packet) (first next : ℕ)
    (h : next ≤ length packet) (enough : length packet + 2 ≤ suc fuel + next) where
  abbrev loop : ℕ → ℕ → ℕ → Walk (Option ℕ)
  loop f p n = layer4_loop fuel packet f p n

  go_on :
      (proto : ℕ) (o : Option ℕ)
      → Lands packet (next + 40) o
      → Ends (Lands packet next) (again (λ n. loop first proto n) o)
  go_on proto none l = (none, refl, tt)
  go_on proto (some n) l = weaken packet next n _ (omega arith) (ih first proto n l.1 (omega arith))

  tunnel_turn :
      (proto : ℕ)
      → Ends
          (Lands packet next)
          (then_with (enter packet next none (λ p n. loop p p n)) (again (λ n. loop first proto n)))
  tunnel_turn proto =
      let inner =
        enter_lem packet (Lands packet (next + 40)) none (λ p n. loop p p n) tt next
          (λ p fits. ih p p (next + 40) fits (omega arith)) in
      ends_then (Lands packet next) (enter packet next none (λ p n. loop p p n))
        (again (λ n. loop first proto n)) inner.0 inner.1 (go_on proto inner.0 inner.2)

  extension_turn :
      Ends
        (Lands packet next)
        (then_with (get_ipv6_next packet next) (λ o. if_fits packet o none (λ p n. loop first p n)))
  extension_turn =
      turn_lem packet (Lands packet next) none (λ p n. loop first p n) tt next
        (λ p n least fits.
          weaken packet next n _ (omega arith) (ih first p n (omega arith) (omega arith)))
        (λ p k fits. last_turn fuel packet first p next (omega arith) k h)

  turn_of_kind :
      (proto : ℕ) (k : Kind) → Ends (Lands packet next) (layer4_turn loop packet first proto next k)
  unfolding layer4_turn
  turn_of_kind proto no_next = land_lem packet first proto next h
  turn_of_kind proto tunnel = tunnel_turn proto
  turn_of_kind proto encrypted = (none, refl, tt)
  turn_of_kind proto fragment = extension_turn
  turn_of_kind proto extension = extension_turn
  turn_of_kind proto other = land_lem packet first proto next h

layer4_loop_lem : (fuel : ℕ) (packet : List ℕ) → Loops fuel packet
unfolding layer4_loop
layer4_loop_lem zero packet first proto next h enough = absurd (omega arith)
layer4_loop_lem (suc fuel) packet first proto next h enough =
    turn_of_kind fuel packet (layer4_loop_lem fuel packet) first next h enough proto (kind_of proto)

-- With fuel for the length of the packet and 2 more, `get_layer4_v6` ends, reads no byte behind the
-- end, and gives NULL or a pointer from behind the IPv6 header to the end of the packet.
pub get_layer4_v6_lem :
    (packet : List ℕ) (hdr : ℕ)
    → Ends (Lands packet (hdr + 40)) (get_layer4_v6 (length packet + 2) packet hdr)
unfolding get_layer4_v6
get_layer4_v6_lem packet hdr =
    enter_lem packet (Lands packet (hdr + 40)) none
      (λ p n. layer4_loop (length packet + 2) packet p p n) tt hdr
      (λ p fits. layer4_loop_lem (length packet + 2) packet p p (hdr + 40) fits (omega arith))

-- The loop comes back from a tunnelled packet to `proto` as it was.
comes_back :
    (packet : List ℕ) (next : ℕ) (loop : ℕ → Walk (Option ℕ)) (o : Option ℕ)
    → ((n : ℕ) → next + 40 ≤ n → n ≤ length packet → loop n ≡ value none)
    → Lands packet (next + 40) o
    → again loop o ≡ value none
comes_back packet next loop none ih l = refl
comes_back packet next loop (some n) ih l = ih n l.0 l.1

tunnel_ends :
    (fuel : ℕ) (packet : List ℕ) (first next : ℕ)
    → next ≤ length packet
    → length packet + 2 ≤ fuel + next
    → layer4_loop fuel packet first 41 next ≡ value none
unfolding layer4_loop layer4_turn kind_of
tunnel_ends zero packet first next h enough = absurd (omega arith)
tunnel_ends (suc fuel) packet first next h enough =
    let inner =
      enter_lem packet (Lands packet (next + 40)) none (λ p n. layer4_loop fuel packet p p n) tt
        next (λ p fits. layer4_loop_lem fuel packet p p (next + 40) fits (omega arith)) in
    ap (λ w. then_with w (again (λ n. layer4_loop fuel packet first 41 n))) inner.1
    ∙ comes_back packet next (λ n. layer4_loop fuel packet first 41 n) inner.0
        (λ n least most. tunnel_ends fuel packet first n most (omega arith)) inner.2

-- Where an IPv6 header that fits the packet says that an IPv6 packet follows, `get_layer4_v6` gives
-- NULL, whatever the inner packet holds.
pub get_layer4_v6_tunnel :
    (packet : List ℕ) (hdr : ℕ)
    → hdr + 40 ≤ length packet
    → byte_of packet (hdr + 6) ≡ value 41
    → get_layer4_v6 (length packet + 2) packet hdr ≡ value none
unfolding get_layer4_v6 enter
get_layer4_v6_tunnel packet hdr h ip_nh =
    rw (le→ltb (length packet) (hdr + 40) h, ip_nh)
      (tunnel_ends (length packet + 2) packet 41 (hdr + 40) h (omega arith))
