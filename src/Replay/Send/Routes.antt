-- ===== src/Replay/Send/Routes.antt =====
-- With two interfaces, each packet goes out where the cache says, whole and in the order of the
-- capture.
use tcpreplay.Prelude.{
  ltb, ℕ, suc, ◌+◌, ◌^◌, ◌≤◌, ◌<◌, ◌≡◌, refl, arith, true, false, List, [], ◌∷◌, ◌++◌, some, length,
  take, ap, sym, subst, ◌∙◌, length-append, le→ltb, if◌then◌else◌,
}
use tcpreplay.Cache.{Dir, error, nosend, c2s, s2c, found, check_cache}
use tcpreplay.Packet.{value, then_with}
use tcpreplay.Packet.Laws.{Ends}
use tcpreplay.Replay.Send.{
  Captured, Interface, primary, secondary, Options, World, Sender, not_sent_by_rule, pktlen_of,
  interface_of, cache_mode, output_of, unique_data, read_out, cut_data, count_sent, put_out,
  send_edited, send_on, send_one, send_packets,
}

-- Two interfaces and a cache, and nothing else that keeps a packet back or changes it.
pub record IsPlain (o : Options) : Type 0 where
  pub no_rules : o.list ≡ []
  pub whole : o.use_pkthdr_len ≡ false
  pub two : o.dual ≡ true
  pub same_addresses : o.unique_ip ≡ false
  pub no_limit : o.limit_send ≡ 0

-- An output with layer 2 that takes each packet, no loss, and no limit of time.
pub record IsFair (w : World) : Type 0 where
  pub keeps : (num : ℕ) → w.lost num ≡ false
  pub takes_all : (num : ℕ) (bytes : List ℕ) → w.takes num bytes ≡ true
  pub layer2 : (sp : Interface) → w.raw_ip sp ≡ false
  pub no_hurry : (num : ℕ) → w.time_is_up num ≡ false

abbrev pub goes_to : Dir → List ℕ → List (Interface × List ℕ)
goes_to c2s bytes = (primary, bytes) ∷ []
goes_to s2c bytes = (secondary, bytes) ∷ []
goes_to nosend bytes = []
goes_to error bytes = []

-- What goes out, the first first, by the direction of each packet, from number `i` on.
abbrev pub routed : (ℕ → Dir) → ℕ → List Captured → List (Interface × List ℕ)
routed d i [] = []
routed d i (p ∷ ps) = goes_to (d i) p.bytes ++ routed d (i + 1) ps

abbrev pub latest_first {ℓ} : {A : Type ℓ} → List A → List A → List A
latest_first [] ys = ys
latest_first (x ∷ xs) ys = latest_first xs (x ∷ ys)

goes_to-one : (d : Dir) (bytes : List ℕ) → length (goes_to d bytes) ≤ 1
goes_to-one c2s bytes = omega arith
goes_to-one s2c bytes = omega arith
goes_to-one nosend bytes = omega arith
goes_to-one error bytes = omega arith

latest_first-append {ℓ} :
    {A : Type ℓ} (xs ys zs : List A)
    → latest_first (xs ++ ys) zs ≡ latest_first ys (latest_first xs zs)
latest_first-append [] ys zs = refl
latest_first-append (x ∷ xs) ys zs = latest_first-append xs ys (x ∷ zs)

take-length : (xs : List ℕ) → take (length xs) xs ≡ xs
take-length [] = refl
take-length (x ∷ xs) = ap (λ ys. x ∷ ys) (take-length xs)

-- All packets from number `n + 1` on have gone where they should.
abbrev pub IsReplayed : (ℕ → Dir) → ℕ → List Captured → Sender → Sender → Type 0
IsReplayed d n ps s u =
    (u.out ≡ latest_first (routed d n ps) s.out)
    × (u.pkts_sent ≡ s.pkts_sent + length (routed d n ps))
    × (u.abort ≡ false)

-- What one packet does to what is out, and to the counts.
record IsRouted (d : Dir) (p : Captured) (s u : Sender) : Type 0 where
  out : u.out ≡ latest_first (goes_to d p.bytes) s.out
  counted : u.pkts_sent ≡ s.pkts_sent + length (goes_to d p.bytes)
  number : u.packetnum ≡ s.packetnum
  runs : u.abort ≡ false

module _ (o : Options) (plain : IsPlain o) (w : World) (fair : IsFair w) where
  same_data : (bytes : List ℕ) → unique_data o bytes ≡ value (some bytes)
  unfolding unique_data
  same_data bytes = simp (plain.same_addresses)

  all_bytes : (p : Captured) → pktlen_of o p ≡ length p.bytes
  unfolding pktlen_of
  all_bytes p = simp (plain.whole)

  not_cut :
      (sp : Interface) (bytes : List ℕ) → cut_data o w sp bytes (length bytes) ≡ value (some bytes)
  unfolding cut_data read_out
  not_cut sp bytes =
      let inside : ltb (length bytes) (0 + length bytes) ≡ false = ground arith in
      rw (fair.layer2 sp, inside) (ap (λ xs. value (some xs)) (take-length bytes))

  taken :
      (num : ℕ) (sp : Interface) (s : Sender) (bytes : List ℕ)
      → put_out o w num sp s (some bytes)
        ≡ count_sent o w num (record s { out = (sp, bytes) ∷ s.out }) bytes
  unfolding put_out
  taken num sp s bytes = rw (fair.keeps num, fair.takes_all num bytes)

  no_rule : (num : ℕ) → not_sent_by_rule o num ≡ false
  unfolding not_sent_by_rule
  no_rule num = rw plain.no_rules

  by_cache : (num : ℕ) → output_of o num ≡ cache_mode o.cachedata o.cache_packets num
  unfolding output_of
  by_cache num = simp (plain.two)

  sent_whole :
      (num : ℕ) (sp : Interface) (s : Sender) (p : Captured)
      → send_on o w num p s (some sp)
        ≡ value (count_sent o w num (record s { out = (sp, p.bytes) ∷ s.out }) p.bytes)
  unfolding send_on send_edited
  sent_whole num sp s p =
      rw (same_data p.bytes, all_bytes p, not_cut sp p.bytes, taken num sp s p.bytes)

  sent_by :
      (s : Sender) (p : Captured) (d : Dir)
      → s.packetnum ≤ o.cache_packets
      → check_cache o.cachedata s.packetnum ≡ found d
      → send_one o w s p ≡ then_with (interface_of (found d)) (send_on o w s.packetnum p s)
  unfolding send_one cache_mode
  sent_by s p d within e =
      rw (no_rule s.packetnum, by_cache s.packetnum, le→ltb o.cache_packets s.packetnum within, e)

  -- Nothing stops the loop.
  goes_on : (num : ℕ) (s : Sender) (bytes : List ℕ) → (count_sent o w num s bytes).abort ≡ false
  unfolding count_sent
  goes_on num s bytes = rw (fair.no_hurry num) (simp (plain.no_limit))

  on_interface :
      (s : Sender) (p : Captured) (sp : Interface)
      → s.pkts_sent + 1 < 2 ^ 64
      → Ends
          (λ u.
            (u.out ≡ (sp, p.bytes) ∷ s.out)
            × (u.pkts_sent ≡ s.pkts_sent + 1)
            × (u.packetnum ≡ s.packetnum)
            × (u.abort ≡ false))
          (send_on o w s.packetnum p s (some sp))
  unfolding count_sent
  on_interface s p sp few =
      let sent = record s { out = (sp, p.bytes) ∷ s.out } in
      (
        count_sent o w s.packetnum sent p.bytes,
        sent_whole s.packetnum sp s p,
        (refl, omega arith, refl, goes_on s.packetnum sent p.bytes),
      )

  one-IsRouted :
      (d : Dir) (s : Sender) (p : Captured)
      → s.abort ≡ false
      → s.pkts_sent + 1 < 2 ^ 64
      → Ends (IsRouted d p s) (then_with (interface_of (found d)) (send_on o w s.packetnum p s))
  unfolding send_on
  one-IsRouted c2s s p a few =
      let u = on_interface s p primary few in
      (u.0, u.1, record { out = u.2.0; counted = u.2.1; number = u.2.2; runs = u.2.3 })
  one-IsRouted s2c s p a few =
      let u = on_interface s p secondary few in
      (u.0, u.1, record { out = u.2.0; counted = u.2.1; number = u.2.2; runs = u.2.3 })
  one-IsRouted nosend s p a few =
      (s, refl, record { out = refl; counted = omega arith; number = refl; runs = a })
  one-IsRouted error s p a few =
      (s, refl, record { out = refl; counted = omega arith; number = refl; runs = a })

  -- The packet, and then the others.
  and_then :
      (d : ℕ → Dir) (n : ℕ) (p : Captured) (ps : List Captured) (s u v : Sender)
      → IsRouted (d n) p s u
      → IsReplayed d (n + 1) ps u v
      → IsReplayed d n (p ∷ ps) s v
  and_then d n p ps s u v one (out, counted, runs) =
      let first = goes_to (d n) p.bytes in
      let rest = routed d (n + 1) ps in
      let count = one.counted in
      (
        out ∙ ap (latest_first rest) one.out ∙ sym (latest_first-append first rest s.out),
        omega (arith, length-append first rest),
        runs,
      )

  pub replayed_lem :
      (d : ℕ → Dir) (ps : List Captured) (n : ℕ) (s : Sender)
      → s.packetnum ≡ n
      → s.abort ≡ false
      → n + length ps ≤ o.cache_packets
      → s.pkts_sent + length ps < 2 ^ 64
      → ((i : ℕ) → i < length ps → check_cache o.cachedata (n + i + 1) ≡ found (d (n + i)))
      → Ends (IsReplayed d n ps s) (send_packets o w s ps)
  unfolding send_packets
  replayed_lem d [] n s at a within few h = (s, refl, (refl, omega arith, a))
  replayed_lem d (p ∷ ps) n s at a within few h =
      let s1 = record s { packetnum = s.packetnum + 1 } in
      let one = one-IsRouted (d n) s1 p a (omega arith) in
      let found_it : check_cache o.cachedata s1.packetnum ≡ found (d n) =
        subst (λ k. check_cache o.cachedata k ≡ found (d n))
          (let e : n + 0 + 1 ≡ s.packetnum + 1 = omega arith in e)
          (subst (λ k. check_cache o.cachedata (n + 0 + 1) ≡ found (d k))
            (let e : n + 0 ≡ n = omega arith in e) (h 0 (omega arith))) in
      let step = sent_by s1 p (d n) (omega arith) found_it ∙ one.1 in
      let counted = one.2.counted in
      let rest =
        replayed_lem d ps (n + 1) one.0 (one.2.number ∙ ap (λ k. k + 1) at) one.2.runs (omega arith)
          (omega (arith, goes_to-one (d n) p.bytes))
          (λ i hi.
            subst (λ k. check_cache o.cachedata (k + 1) ≡ found (d k))
              (let e : n + suc i ≡ n + 1 + i = omega arith in e) (h (suc i) (omega arith))) in
      (
        rest.0,
        ap (λ b. if b then value s else then_with (send_one o w s1 p) (λ u. send_packets o w u ps))
              a
            ∙ ap (λ x. then_with x (λ u. send_packets o w u ps)) step
            ∙ rest.1,
        and_then d n p ps s1 one.0 rest.0 one.2 rest.2,
      )
