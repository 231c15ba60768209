-- ===== src/Replay/Send/Limits.antt =====
-- Under all options and in any world: the loop reads only what was captured, and keeps its limits.
use tcpreplay.Prelude.{
  ℕ, ◌+◌, ◌-◌, ◌≤◌, ◌<◌, ◌≡◌, ◌⊎◌, refl, arith, Bool, false, not, List, [], ◌∷◌, Option, none, some,
  ltb, leb, ◌==◌, ◌&&◌, ◌||◌, length, take, drop, length-take, length-drop, u64, IsBytes, All, inl,
  inr, sym, subst, Bool-cases, ltb→le,
}
use tcpreplay.Cache.{Dir, error, nosend, c2s, s2c, found, check_cache}
use tcpreplay.Packet.Laws.{Ends, ends_bind, ends_if, ends_then}
use tcpreplay.L2.{get_l2len, len_or_zero, Layer2}
use tcpreplay.L2.Bounds.{IsInside, get_l2len_protocol_lem}
use tcpreplay.Replay.Unique.Edits.{IsPass?, fast_edit_packet_lem}
use tcpreplay.Replay.Send.{
  Captured, Interface, primary, Options, World, Sender, not_sent_by_rule, pktlen_of, interface_of,
  cache_mode, output_of, unique_data, read_out, cut_data, fail, count_sent, put_out, send_edited,
  send_on, send_one, send_packets,
}

-- Each packet that the cache holds has a direction there, as `read_cache` leaves it.
abbrev pub Answers : Options → Type 0
Answers o =
    (num : ℕ)
    → 0 < num
    → num ≤ o.cache_packets
    → (d : Dir) × (check_cache o.cachedata num ≡ found d)

-- A limit on the number of packets has not been passed, and where it is reached the loop stops.
abbrev pub Keeps : Options → Sender → Type 0
Keeps o s =
    0 < o.limit_send → (s.pkts_sent ≤ o.limit_send) × (s.abort ≡ false → s.pkts_sent < o.limit_send)

-- The packet puts nothing out, or no more bytes than were captured of it.
abbrev pub Adds : ℕ → Sender → Sender → Type 0
Adds size s u =
    (u.out ≡ s.out)
    ⊎ ((sp : Interface) × (bytes : List ℕ) × (u.out ≡ (sp, bytes) ∷ s.out) × (length bytes ≤ size))

abbrev pub IsTurn : Options → ℕ → Sender → Sender → Type 0
IsTurn o size s u = Adds size s u × Keeps o u × (s.packetnum ≡ u.packetnum)

abbrev HasSize : ℕ → Option (List ℕ) → Type 0
HasSize size none = Unit {0}
HasSize size (some bytes) = length bytes ≡ size

abbrev UpTo : ℕ → Option (List ℕ) → Type 0
UpTo size none = Unit {0}
UpTo size (some bytes) = length bytes ≤ size

abbrev AnyLength : ℕ → Type 0
AnyLength n = Unit {0}

l2_ends : (bytes : List ℕ) (datalink : ℕ) → Ends AnyLength (get_l2len bytes datalink)
unfolding get_l2len
l2_ends bytes datalink =
    ends_bind (IsInside bytes) AnyLength _ len_or_zero (get_l2len_protocol_lem bytes datalink)
      (λ o u. zero_or o)
  where
    zero_or : (o : Option Layer2) → Ends AnyLength (len_or_zero o)
    zero_or none = (0, refl, tt)
    zero_or (some s) = (s.l2len, refl, tt)

module _ (o : Options) (w : World) where
  pass_size :
      (bytes : List ℕ) (l2 : Option Layer2) (r : Option (List ℕ))
      → IsPass? o.preload (o.unique_iteration - 1) bytes l2 r
      → HasSize (length bytes) r
  pass_size bytes l2 none h = tt
  pass_size bytes none (some e) h = absurd h
  pass_size bytes (some s) (some e) (inl (p, room, h)) = h.same_length
  pass_size bytes (some s) (some e) (inr (p, room, h)) = h.same_length

  unique_ends :
      (bytes : List ℕ) → IsBytes bytes → Ends (HasSize (length bytes)) (unique_data o bytes)
  unfolding unique_data
  unique_ends bytes b =
      ends_if (HasSize (length bytes)) _ _ _
        (λ t.
          let (l2, walk, e) =
            fast_edit_packet_lem o.preload (o.unique_iteration - 1) bytes o.datalink b in
          (e.0, e.1, pass_size bytes l2 e.0 e.2))
        (λ t. (some bytes, refl, refl))

  read_ends :
      (bytes : List ℕ) (from n : ℕ)
      → from + n ≤ length bytes
      → Ends (UpTo (length bytes)) (read_out bytes from n)
  unfolding read_out
  read_ends bytes from n inside =
      let e : ltb (length bytes) (from + n) ≡ false = ground arith in
      rw e (
        some (take n (drop from bytes)),
        refl,
        omega (arith, length-take n (drop from bytes), length-drop from bytes),
      )

  cut_ends :
      (sp : Interface) (bytes : List ℕ) (n : ℕ)
      → n ≤ length bytes
      → Ends (UpTo (length bytes)) (cut_data o w sp bytes n)
  unfolding cut_data
  cut_ends sp bytes n inside =
      ends_if (UpTo (length bytes)) (w.raw_ip sp) _ _
        (λ t. ends_bind AnyLength (UpTo (length bytes)) _ _ (l2_ends bytes o.datalink) (λ l2len u.
          ends_if (UpTo (length bytes)) (leb n l2len) _ _ (λ t. (none, refl, tt))
            (λ f.
              read_ends bytes l2len (n - l2len) (let h : l2len < n = ground arith in omega arith))))
        (λ t. read_ends bytes 0 n (omega arith))

  -- The length on the wire is cut to the bytes that were captured.
  pktlen_of-bound : (p : Captured) → pktlen_of o p ≤ length p.bytes
  unfolding pktlen_of
  pktlen_of-bound p = ground arith

  counted-Keeps :
      (num : ℕ) (s : Sender) (sent : List ℕ)
      → Keeps o s
      → s.abort ≡ false
      → Keeps o (count_sent o w num s sent)
  unfolding count_sent
  counted-Keeps num s sent k a l =
      let before = (k l).1 a in (omega arith, λ e. below (w.time_is_up num) e)
    where
      below :
          (t : Bool)
          → (t || (not (o.limit_send == 0) && leb o.limit_send (u64 (s.pkts_sent + 1)))) ≡ false
          → u64 (s.pkts_sent + 1) < o.limit_send
      below t e = ground arith

  put-IsTurn :
      (num size : ℕ) (sp : Interface) (s : Sender) (r : Option (List ℕ))
      → Keeps o s
      → s.abort ≡ false
      → UpTo size r
      → IsTurn o size s (put_out o w num sp s r)
  unfolding put_out
  put-IsTurn num size sp s none k a h = (inl refl, k, refl)
  put-IsTurn num size sp s (some sent) k a h = elim (Bool-cases (w.lost num)) [
    | inl lost ↦
        rw lost (
          (unfold count_sent in inl refl),
          counted-Keeps num s sent k a,
          (unfold count_sent in refl),
        )
    | inr kept ↦ rw kept (elim (Bool-cases (w.takes num sent)) [
      | inl taken ↦ rw taken (
        (unfold count_sent in inr (sp, sent, refl, h)),
        counted-Keeps num (record s { out = (sp, sent) ∷ s.out }) sent k a,
        (unfold count_sent in refl),
      )
      | inr refused ↦ rw refused (inl refl, λ l. ((k l).0, λ e. (k l).1 a), refl)
    ])
  ]

  edited-IsTurn :
      (num size n : ℕ) (sp : Interface) (s : Sender) (r : Option (List ℕ))
      → Keeps o s
      → s.abort ≡ false
      → n ≤ size
      → HasSize size r
      → Ends (IsTurn o size s) (send_edited o w num sp n s r)
  unfolding send_edited
  edited-IsTurn num size n sp s none k a within h = (fail s, refl, (inl refl, k, refl))
  edited-IsTurn num size n sp s (some bytes) k a within h =
      let cut = cut_ends sp bytes n (omega arith) in
      ends_then (IsTurn o size s) _ _ cut.0 cut.1 (
        put_out o w num sp s cut.0,
        refl,
        put-IsTurn num size sp s cut.0 k a (resize cut.0 h cut.2),
      )
    where
      resize : (r : Option (List ℕ)) → length bytes ≡ size → UpTo (length bytes) r → UpTo size r
      resize none e u = tt
      resize (some x) e u = omega arith

  send_on-IsTurn :
      (num : ℕ) (p : Captured) (s : Sender) (sp : Option Interface)
      → IsBytes p.bytes
      → Keeps o s
      → s.abort ≡ false
      → Ends (IsTurn o (length p.bytes) s) (send_on o w num p s sp)
  unfolding send_on
  send_on-IsTurn num p s none b k a = (s, refl, (inl refl, k, refl))
  send_on-IsTurn num p s (some sp) b k a =
      ends_bind (HasSize (length p.bytes)) (IsTurn o (length p.bytes) s) _ _ (unique_ends p.bytes b)
        (λ r h. edited-IsTurn num (length p.bytes) (pktlen_of o p) sp s r k a (pktlen_of-bound p) h)

  abbrev AnyInterface : Option Interface → Type 0
  AnyInterface sp = Unit {0}

  interface_ends : (d : Dir) → Ends AnyInterface (interface_of (found d))
  interface_ends c2s = (_, refl, tt)
  interface_ends s2c = (_, refl, tt)
  interface_ends nosend = (_, refl, tt)
  interface_ends error = (_, refl, tt)

  output_ends : (num : ℕ) → 0 < num → Answers o → Ends AnyInterface (output_of o num)
  unfolding output_of cache_mode
  output_ends num positive answers =
      ends_if AnyInterface o.dual _ _
        (λ t. elim (Bool-cases (ltb o.cache_packets num)) [
          | inl beyond ↦ rw beyond (none, refl, tt)
          | inr within ↦ rw within (
              let d = answers num positive (ltb→le o.cache_packets num within) in
              subst (λ c. Ends AnyInterface (interface_of c)) (sym d.1) (interface_ends d.0))
        ])
        (λ t. (some primary, refl, tt))

  send_one_lem :
      (p : Captured) (s : Sender)
      → Answers o
      → 0 < s.packetnum
      → IsBytes p.bytes
      → Keeps o s
      → s.abort ≡ false
      → Ends (IsTurn o (length p.bytes) s) (send_one o w s p)
  unfolding send_one
  send_one_lem p s answers positive b k a =
      ends_if (IsTurn o (length p.bytes) s) (not_sent_by_rule o s.packetnum) _ _
        (λ t. (s, refl, (inl refl, k, refl)))
        (λ t.
          ends_bind AnyInterface (IsTurn o (length p.bytes) s) _ _
            (output_ends s.packetnum positive answers)
            (λ sp u. send_on-IsTurn s.packetnum p s sp b k a))

-- What went out, packet by packet, from `s` on: nothing, or no more bytes than were captured of it.
abbrev pub Explains : List Captured → Sender → Sender → Type 0
Explains [] s u = u.out ≡ s.out
Explains (p ∷ ps) s u = (v : Sender) × Adds (length p.bytes) s v × Explains ps v u

nothing_more : (ps : List Captured) (s : Sender) → Explains ps s s
nothing_more [] s = refl
nothing_more (p ∷ ps) s = (s, inl refl, nothing_more ps s)

-- Any options, any world, and packets of bytes, where each packet that the cache holds has a
-- direction there, as `read_cache` leaves it: the loop ends, and reads no byte behind a packet or
-- the cache. Packet by packet in the order of the capture it puts out nothing, or no more bytes than
-- were captured of the packet. With a limit on the number of packets that has not been reached at
-- the start, no more packets than that are counted as sent.
pub send_packets_lem :
    (o : Options) (w : World) (ps : List Captured) (s : Sender)
    → Answers o
    → All (λ p. IsBytes p.bytes) ps
    → Keeps o s
    → Ends (λ u. Explains ps s u × Keeps o u) (send_packets o w s ps)
unfolding send_packets
send_packets_lem o w [] s answers b k = (s, refl, (refl, k))
send_packets_lem o w (p ∷ ps) s answers b k =
    ends_if (λ u. Explains (p ∷ ps) s u × Keeps o u) s.abort _ _
      (λ stop. (s, refl, (nothing_more (p ∷ ps) s, k)))
      (λ runs.
        let s1 = record s { packetnum = s.packetnum + 1 } in
        let one = send_one_lem o w p s1 answers (omega arith) b.0 k runs in
        let rest = send_packets_lem o w ps one.0 answers b.1 one.2.1 in
        ends_then (λ u. Explains (p ∷ ps) s u × Keeps o u) _ _ one.0 one.1
          (rest.0, rest.1, ((one.0, one.2.0, rest.2.0), rest.2.1)))
