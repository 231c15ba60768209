-- ===== src/Edit/Header/Laws.antt =====
-- The edits of single fields clamp, keep the class of an address, and keep the checksums right.
use tcpreplay.Prelude.{
  ℕ, ◌+◌, ◌-◌, ◌*◌, ◌≤◌, ◌<◌, ◌≡◌, refl, sym, arith, true, false, not, Option, none, some, ◌&&◌,
  ◌||◌, Bool-cases, inl, inr, lt→ltb, le→ltb, subst, min, max,
}
use tcpreplay.Checksum.Replace.{csum_replace2-keeps_sum}
use tcpreplay.Portmap.Rewrite.{ok, error}
use tcpreplay.Edit.{
  TtlMode, ttl_off, ttl_set, ttl_add, ttl_sub, Tcpedit, Ipv4Hdr, is_multicast_ipv4,
  randomize_ipv4_addr, Side, source, destination, addr_at, new_ttl, ttl_changes, rewrite_ipv4_ttl,
  rewrite_ipv6_hlim,
}
use tcpreplay.Edit.Addresses.{randomize_ipv4_addr_lem}
use tcpreplay.Edit.Sums.{header_words, IsSummed, KeepsFields, keeps_twice, store_addr_lem}
use tcpreplay.Edit.Map.Laws.{Keeps, addr_at-lt}
use tcpreplay.Edit.Header.{
  first_word, with_tos, set_tos, tos_or_none, randomize_side, randomize_ipv4,
}

-- The value that a TTL is to get.
abbrev pub Clamped : TtlMode → ℕ → ℕ → ℕ → Type 0
Clamped ttl_off value old new = new ≡ old
Clamped ttl_set value old new = new ≡ value
Clamped ttl_add value old new = new ≡ min 255 (old + value)
Clamped ttl_sub value old new = new ≡ max 1 (old - value)

new_ttl_lem : (mode : TtlMode) (value old : ℕ) → Clamped mode value old (new_ttl mode value old)
unfolding new_ttl
new_ttl_lem ttl_off value old = refl
new_ttl_lem ttl_set value old = refl
new_ttl_lem ttl_add value old = ground arith
new_ttl_lem ttl_sub value old = ground arith

new_ttl-lt :
    (mode : TtlMode) (value old : ℕ) → value < 256 → old < 256 → new_ttl mode value old < 256
unfolding new_ttl
new_ttl-lt ttl_off value old hv ho = ho
new_ttl-lt ttl_set value old hv ho = hv
new_ttl-lt ttl_add value old hv ho = ground arith
new_ttl-lt ttl_sub value old hv ho = ground arith

-- Where the code returns early, the value is right already.
unchanged :
    (mode : TtlMode) (value old : ℕ)
    → ttl_changes mode value old ≡ false
    → new_ttl mode value old ≡ old
unfolding new_ttl ttl_changes
unchanged ttl_off value old e = refl
unchanged ttl_set value old e = ground arith
unchanged ttl_add value old e = cc e
unchanged ttl_sub value old e = cc e

hop_limit :
    (t : Tcpedit) (limit : ℕ) → Clamped t.ttl_mode t.ttl_value limit (rewrite_ipv6_hlim t limit).1
unfolding rewrite_ipv6_hlim
hop_limit t limit = elim (Bool-cases (ttl_changes t.ttl_mode t.ttl_value limit)) [
  | inl e ↦ rw e (new_ttl_lem t.ttl_mode t.ttl_value limit)
  | inr e ↦ rw e (
      subst (λ n. Clamped t.ttl_mode t.ttl_value limit n) (unchanged t.ttl_mode t.ttl_value limit e)
        (new_ttl_lem t.ttl_mode t.ttl_value limit))
]

-- The TTL of an IPv4 header whose checksums are right, and the hop limit of an IPv6 header, become
-- the value, the sum but 255 at most, or the difference but 1 at least, as the mode says; the
-- checksums are right again, and all other fields are kept.
pub rewrite_ipv4_ttl_lem :
    (t : Tcpedit) (options segment len : ℕ) (h : Ipv4Hdr)
    → t.ttl_value < 256
    → IsSummed options segment len h
    → let h' = (rewrite_ipv4_ttl t h).1 in
      Clamped t.ttl_mode t.ttl_value h.ip_ttl h'.ip_ttl
      × IsSummed options segment len h'
      × (h' ≡ record h { ip_ttl = h'.ip_ttl; ip_sum = h'.ip_sum })
      × ((limit : ℕ) → Clamped t.ttl_mode t.ttl_value limit (rewrite_ipv6_hlim t limit).1)
unfolding rewrite_ipv4_ttl
rewrite_ipv4_ttl_lem t options segment len h hv (w, i, l4) =
    let new = new_ttl t.ttl_mode t.ttl_value h.ip_ttl in
    let small = new_ttl-lt t.ttl_mode t.ttl_value h.ip_ttl hv w.4 in
    let rest = options + header_words (record h { ip_ttl = 0 }) in
    let sum =
      csum_replace2-keeps_sum rest h.ip_sum h.ip_ttl new w.5 (omega arith) (omega arith)
        (omega arith) in
    elim (Bool-cases (ttl_changes t.ttl_mode t.ttl_value h.ip_ttl)) [
      | inl e ↦ rw e (
        new_ttl_lem t.ttl_mode t.ttl_value h.ip_ttl,
        (omega arith, omega arith, l4),
        refl,
        hop_limit t,
      )
      | inr e ↦ rw e (
        subst (λ n. Clamped t.ttl_mode t.ttl_value h.ip_ttl n)
            (unchanged t.ttl_mode t.ttl_value h.ip_ttl e)
            (new_ttl_lem t.ttl_mode t.ttl_value h.ip_ttl),
        (w, i, l4),
        refl,
        hop_limit t,
      )
    ]

pub set_tos_lem :
    (t : Tcpedit) (options segment len : ℕ) (h : Ipv4Hdr)
    → IsSummed options segment len h
    → IsSummed options segment len (set_tos t h)
      × (set_tos t h ≡ record h { ip_tos = (set_tos t h).ip_tos; ip_sum = (set_tos t h).ip_sum })
unfolding set_tos
set_tos_lem t options segment len h s = go t.tos
  where
    go :
        (o : Option ℕ)
        → IsSummed options segment len (tos_or_none o h)
          × (tos_or_none o h
              ≡ record h { ip_tos = (tos_or_none o h).ip_tos; ip_sum = (tos_or_none o h).ip_sum })
    go none = (s, refl)
    go (some tos) =
        let rest = options + header_words (record h { ip_hl = 0; ip_v = 0; ip_tos = 0 }) in
        let sum =
          csum_replace2-keeps_sum rest h.ip_sum (first_word h) (first_word (with_tos tos h)) s.0.5
            (omega (arith, s.0)) (omega (arith, s.0)) (omega (arith, s.1)) in
        ((omega (arith, s.0), omega arith, s.2), refl)

-- What randomizing an address keeps: whether it is multicast, and itself if that is skipped.
abbrev pub SameClass : Tcpedit → ℕ → ℕ → Type 0
SameClass t a b =
    (is_multicast_ipv4 b ≡ is_multicast_ipv4 a)
    × (t.skip_broadcast ≡ true → is_multicast_ipv4 a ≡ true → b ≡ a)

randomize_side_lem :
    (t : Tcpedit) (options segment len : ℕ) (side : Side) (h : Ipv4Hdr)
    → 20 ≤ len
    → IsSummed options segment len h
    → (h' : Ipv4Hdr) × (randomize_side t len side h ≡ some h')
      × Keeps options segment len side h h'
      × SameClass t (addr_at side h) (addr_at side h')
unfolding randomize_side
randomize_side_lem t options segment len side h long s =
    let a = addr_at side h in
    let r = randomize_ipv4_addr_lem t a (addr_at-lt side options segment len h s) in
    let g = store_addr_lem options segment len side (randomize_ipv4_addr t a) h long r.1 s in
    elim (Bool-cases (t.skip_broadcast && not (is_multicast_ipv4 a) || not t.skip_broadcast)) [
      | inl e ↦ (
        g.0,
        rw e g.1,
        (g.2.0, g.2.2, g.2.3),
        subst (λ b. SameClass t a b) (sym g.2.1) (r.0, r.2),
      )
      | inr e ↦ (h, rw e refl, (refl, refl, s), (refl, (λ k m. refl)))
    ]

-- `randomize_ipv4` refuses a header that was not captured whole, and leaves it. Otherwise, for a
-- header whose checksums are right: each address stays multicast or stays unicast, and a multicast
-- address stays itself if those are skipped; the checksums are right again (or UDP's is 0), and all
-- other fields are kept.
pub randomize_ipv4_lem :
    (t : Tcpedit) (options segment len : ℕ) (h : Ipv4Hdr)
    → IsSummed options segment len h
    → (len < h.ip_hl * 4 → randomize_ipv4 t h len ≡ some (error, h))
      × (h.ip_hl * 4 ≤ len
          → (h' : Ipv4Hdr) × (randomize_ipv4 t h len ≡ some (ok, h'))
            × KeepsFields h h'
            × IsSummed options segment len h'
            × SameClass t h.ip_src h'.ip_src
            × SameClass t h.ip_dst h'.ip_dst)
unfolding randomize_ipv4
randomize_ipv4_lem t options segment len h s = (short, whole)
  where
    short : len < h.ip_hl * 4 → randomize_ipv4 t h len ≡ some (error, h)
    short less = rw (lt→ltb len (h.ip_hl * 4) less) refl

    whole :
        h.ip_hl * 4 ≤ len
        → (h' : Ipv4Hdr) × (randomize_ipv4 t h len ≡ some (ok, h'))
          × KeepsFields h h'
          × IsSummed options segment len h'
          × SameClass t h.ip_src h'.ip_src
          × SameClass t h.ip_dst h'.ip_dst
    whole enough =
        let d = randomize_side_lem t options segment len destination h (omega (arith, s.0)) s in
        let c = randomize_side_lem t options segment len source d.0 (omega (arith, s.0)) d.2.2 in
        (
          c.0,
          rw (le→ltb len (h.ip_hl * 4) enough) (rw d.1 (rw c.1 refl)),
          keeps_twice h d.0 c.0 d.2.0 c.2.0,
          c.2.2,
          subst (λ a. SameClass t a c.0.ip_src) d.2.1 c.3,
          subst (λ b. SameClass t h.ip_dst b) (sym c.2.1) d.3,
        )
