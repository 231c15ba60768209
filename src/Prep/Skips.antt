-- ===== src/Prep/Skips.antt =====
-- Where tcpprep does not do what it means to: packets that take no slot, and reversed directions.
use tcpreplay.Prelude.{
  ℕ, ◌+◌, ◌<◌, ◌≡◌, ◌≢◌, refl, Bool, true, false, List, [], ◌∷◌, ◌++◌, some, length, ap, ◌∙◌,
  lt→ltb, subst, IsBytes,
}
use tcpreplay.Cache.{s2c, send_flag, add_result, Dir}
use tcpreplay.Packet.{Walk, value, unfinished, overrun, then_with}
use tcpreplay.Packet.Laws.{Ends}
use tcpreplay.L2.{juniper_ether, link_of}
use tcpreplay.Tree.{RbTree}
use tcpreplay.Prep.{
  Options, regex_mode, mac_mode, Act, next, cache, grow, exits, fails, undefined_shift, Ip, v4, v6,
  left_out, truth, reversed, by_regex, verdict_of, find_ip,
}
use tcpreplay.Prep.Headers.{HasHeader, find_ip_lem}
use tcpreplay.Prep.Ready.{IsCaptured, ends_addr4, ends_addr6}
use tcpreplay.Prep.Run.{
  State, Ending, exited, failed, undefined, done, perform, by_mac, at_ip, by_mode, process_packet,
  process_raw_packets,
}

module _ {T : Type 0} where
  -- The same state, with one packet more on the count.
  abbrev pub one_later : Ending T → Ending T
  one_later exited = exited
  one_later failed = failed
  one_later undefined = undefined
  one_later (done s n) = done s (n + 1)

  abbrev pub later : Walk (Ending T) → Walk (Ending T)
  later overrun = overrun
  later unfinished = unfinished
  later (value e) = value (one_later e)

  later-perform :
      (act : Act T) (s : State T) (j k : State T → Walk (Ending T))
      → ((u : State T) → k u ≡ later (j u))
      → perform act s k ≡ later (perform act s j)
  later-perform next s j k h = h s
  later-perform exits s j k h = refl
  later-perform fails s j k h = refl
  later-perform undefined_shift s j k h = refl
  later-perform (cache send d) s j k h = h _
  later-perform (grow t) s j k h = h _

  later_then :
      {A : Type 0} (w : Walk A) (j k : A → Walk (Ending T))
      → ((a : A) → k a ≡ later (j a))
      → then_with w k ≡ later (then_with w j)
  later_then overrun j k h = refl
  later_then unfinished j k h = refl
  later_then (value a) j k h = h a

module _ (R : RbTree) (o : Options) (all : o.xx_list ≡ []) where
  none_left_out : (num : ℕ) → left_out o num ≡ false
  unfolding left_out
  none_left_out num = rw all

  -- Without a list of packet numbers, the number of a packet does not matter.
  any_number :
      (t : R.Tree) (m n : ℕ) (p : List ℕ) → process_packet R t o m p ≡ process_packet R t o n p
  unfolding process_packet
  any_number t m n p = rw (none_left_out m, none_left_out n)

  counts_on :
      (ps : List (List ℕ)) (s : State R.Tree) (num : ℕ)
      → process_raw_packets R o s (num + 1) ps ≡ later (process_raw_packets R o s num ps)
  unfolding process_raw_packets
  counts_on [] s num = refl
  counts_on (p ∷ ps) s num =
      ap (λ w. then_with w (λ act. perform act s (λ u. process_raw_packets R o u (num + 1 + 1) ps)))
        (any_number s.tree (num + 1 + 1) (num + 1) p)
      ∙ later_then (process_packet R s.tree o (num + 1) p)
          (λ act. perform act s (λ u. process_raw_packets R o u (num + 1) ps))
          (λ act. perform act s (λ u. process_raw_packets R o u (num + 1 + 1) ps))
          (λ act.
            later-perform act s (λ u. process_raw_packets R o u (num + 1) ps)
              (λ u. process_raw_packets R o u (num + 1 + 1) ps) (λ u. counts_on ps u (num + 1)))

  passed_over :
      (t : R.Tree) (num : ℕ) (short : List ℕ)
      → o.mode ≡ mac_mode
      → length short < 14
      → process_packet R t o num short ≡ value next
  unfolding process_packet by_mac
  passed_over t num short m h = rw (none_left_out num, m) (rw (lt→ltb (length short) 14 h))

  -- By MAC address and without a list of packet numbers, a packet of fewer than 14 bytes, wherever it
  -- stands in the capture, leaves no trace but in the count: tree and cache end as if it were not
  -- there, so each packet behind it has the slot of the packet before.
  pub mac_mode_skips :
      (before behind : List (List ℕ)) (short : List ℕ) (s : State R.Tree) (num : ℕ)
      → o.mode ≡ mac_mode
      → length short < 14
      → process_raw_packets R o s num (before ++ (short ∷ behind))
        ≡ later (process_raw_packets R o s num (before ++ behind))
  unfolding process_raw_packets
  mac_mode_skips [] behind short s num m h =
      ap (λ w. then_with w (λ act. perform act s (λ u. process_raw_packets R o u (num + 1) behind)))
        (passed_over s.tree (num + 1) short m h)
      ∙ counts_on behind s num
  mac_mode_skips (p ∷ before) behind short s num m h =
      later_then (process_packet R s.tree o (num + 1) p)
        (λ act. perform act s (λ u. process_raw_packets R o u (num + 1) (before ++ behind)))
        (λ act.
          perform act s (λ u. process_raw_packets R o u (num + 1) (before ++ (short ∷ behind))))
        (λ act.
          later-perform act s (λ u. process_raw_packets R o u (num + 1) (before ++ behind))
            (λ u. process_raw_packets R o u (num + 1) (before ++ (short ∷ behind)))
            (λ u. mac_mode_skips before behind short u (num + 1) m h))

reversed-truth : (b : Bool) → add_result send_flag (reversed true (truth b)) ≡ s2c
unfolding add_result
reversed-truth true = refl
reversed-truth false = refl

-- A call that sends the packet out secondary.
abbrev SendsSecondary : {T : Type 0} → Walk (Act T) → Type 0
SendsSecondary w = (d : Dir) × (w ≡ value (cache send_flag d)) × (add_result send_flag d ≡ s2c)

by_regex_reversed :
    {T : Type 0} (o : Options)
    → o.reverse ≡ true
    → (packet : List ℕ) (ip : Ip) → IsBytes packet
    → HasHeader packet o.datalink (some ip)
    → SendsSecondary {T = T} (by_regex o packet ip)
unfolding by_regex
by_regex_reversed o r packet (v4 p) b h =
    let a = (ends_addr4 packet o.datalink p h).0 in
    rw (a.1, r) (reversed true (truth (o.preg4 a.0)), refl, reversed-truth (o.preg4 a.0))
by_regex_reversed o r packet (v6 p) b h =
    let a = (ends_addr6 packet o.datalink p b h).0 in
    rw (a.1, r) (reversed true (truth (o.preg6 a.0)), refl, reversed-truth (o.preg6 a.0))

-- The mode by regular expression, the option REVERSE, and no filters: a packet with an IP header is
-- sent out secondary, whether its source matches or not.
pub regex_mode_reversed :
    (R : RbTree) (t : R.Tree) (o : Options) (num : ℕ) (packet : List ℕ) (ip : Ip)
    → o.mode ≡ regex_mode
    → o.reverse ≡ true
    → o.xx_list ≡ []
    → o.xx_cidr ≡ []
    → IsCaptured o packet
    → link_of o.datalink ≢ juniper_ether
    → find_ip packet o.datalink ≡ value (some ip)
    → (d : Dir) × (process_packet R t o num packet ≡ value (cache send_flag d))
      × (add_result send_flag d ≡ s2c)
unfolding process_packet at_ip verdict_of by_mode by_regex
regex_mode_reversed R t o num packet ip m r l c captured ne found =
    rw (none_left_out R o l num, m, found, c)
      (by_regex_reversed o r packet ip captured.1
        (header_of ip (find_ip_lem packet o.datalink captured.0 ne) found))
  where
    header_of :
        (ip : Ip)
        → Ends (HasHeader packet o.datalink) (find_ip packet o.datalink)
        → find_ip packet o.datalink ≡ value (some ip)
        → HasHeader packet o.datalink (some ip)
    header_of ip (h, e, has) found =
        let same : h ≡ some ip = cc (e, found) in subst (HasHeader packet o.datalink) same has
