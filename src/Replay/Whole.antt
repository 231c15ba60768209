-- ===== src/Replay/Whole.antt =====
-- tcpprep on a capture, its cache file, and tcpreplay on the same capture.
use tcpreplay.Prelude.{
  ℕ, suc, ◌+◌, ◌^◌, ◌≤◌, ◌<◌, ◌≡◌, ◌⊎◌, refl, arith, List, [], ◌∷◌, Option, none, some, length, All,
  inl, inr, sym, subst, ap, ◌∙◌, false,
}
use tcpreplay.Cache.{Dir, check_cache, found, Chain}
use tcpreplay.Cache.Blocks.Run.{Call}
use tcpreplay.Cache.File.{Os, ok, write_cache, read_cache, comment_bytes}
use tcpreplay.Cache.File.Layout.{IsHonest}
use tcpreplay.Packet.{value}
use tcpreplay.Packet.Laws.{Ends}
use tcpreplay.Tree.{RbTree}
use tcpreplay.Prep
use tcpreplay.Prep.Ready.{MayExit, IsReady, IsCaptured}
use tcpreplay.Prep.Run.{State, exited, done, process_raw_packets}
use tcpreplay.Prep.Cached.{Records, Answers, asked, tcpprep_round_trip}
use tcpreplay.Replay.Send.{Captured, Options, World, Sender, send_packets}
use tcpreplay.Replay.Send.Routes.{IsPlain, IsFair, IsReplayed, replayed_lem}

-- Before the first packet.
abbrev pub start : Sender
start = record { packetnum = 0; pkts_sent = 0; bytes_sent = 0; failed = 0; abort = false; out = [] }

-- One file answers for all packets.
same_file :
    (os : Os) (c : Option Chain) (n : ℕ) (comment : Option (List ℕ)) (i : ℕ) (d d0 : Dir)
    (a0 : Answers os c n comment 0 d0)
    → Answers os c n comment i d
    → check_cache a0.1 (i + 1) ≡ found d
same_file os c n comment i d d0 (f0, b0, w0, r0, c0) (f, b, w, r, c1) =
    let same : f ≡ f0 = cc (w, w0) in
    let read : ok (n, b, comment_bytes comment) ≡ ok (n, b0, comment_bytes comment) =
      sym r ∙ ap (λ x. read_cache os (some x)) same ∙ r0 in
    let buffer : b ≡ b0 = cc read in subst (λ x. check_cache x (i + 1) ≡ found d) buffer c1

-- Whatever plain options with this cache tcpreplay has, and whatever fair world it runs in.
abbrev pub Replays : List ℕ → List Captured → (ℕ → Dir) → Type 0
Replays buffer caps d =
    (o : Options) (w : World)
    → IsPlain o
    → IsFair w
    → o.cachedata ≡ buffer
    → o.cache_packets ≡ length caps
    → Ends (IsReplayed d 0 caps start) (send_packets o w start caps)

abbrev pub bytes_of : List Captured → List (List ℕ)
bytes_of [] = []
bytes_of (p ∷ ps) = p.bytes ∷ bytes_of ps

length-bytes_of : (ps : List Captured) → length (bytes_of ps) ≡ length ps
length-bytes_of [] = refl
length-bytes_of (p ∷ ps) = ap suc (length-bytes_of ps)

replays_lem :
    (buffer : List ℕ) (caps : List Captured) (d : ℕ → Dir)
    → length caps < 2 ^ 64
    → ((i : ℕ) → i < length caps → check_cache buffer (i + 1) ≡ found (d i))
    → Replays buffer caps d
replays_lem buffer caps d few h o w plain fair same many =
    replayed_lem o plain w fair d caps 0 start refl refl (omega arith) (omega arith) (λ i hi.
      subst (λ x. check_cache x (0 + i + 1) ≡ found (d (0 + i))) (sym same)
        (subst (λ k. check_cache buffer (k + 1) ≡ found (d k))
          (let e : i ≡ 0 + i = omega arith in e) (h i hi)))

module _ (R : RbTree) (t : R.Tree) (p : Prep.Options) (caps : List Captured) (os : Os)
    (comment : Option (List ℕ)) where
  -- The cache file that tcpprep writes, and how tcpreplay goes by it.
  abbrev pub Follows : State R.Tree → List Call → Type 0
  Follows s calls =
      (file : List ℕ) × (buffer : List ℕ) × (write_cache os s.cachedata (length caps) comment
        ≡ ok (file, length caps))
      × (read_cache os (some file) ≡ ok (length caps, buffer, comment_bytes comment))
      × Replays buffer caps (asked calls)

  follows_lem :
      (s : State R.Tree) (calls : List Call)
      → 0 < length caps
      → length caps < 2 ^ 64
      → ((i : ℕ)
          → i < length (bytes_of caps)
          → Answers os s.cachedata (length (bytes_of caps)) comment i (asked calls i))
      → Follows s calls
  follows_lem s calls some_packets few h =
      let long : length (bytes_of caps) ≡ length caps = length-bytes_of caps in
      let answers = λ (i : ℕ) (hi : i < length caps).
        subst (λ n. Answers os s.cachedata n comment i (asked calls i)) long (h i (omega arith)) in
      let first = answers 0 some_packets in
      (
        first.0,
        first.1,
        first.2,
        first.3,
        replays_lem first.1 caps (asked calls) few (λ i hi.
            same_file os s.cachedata (length caps) comment i (asked calls i) (asked calls 0) first
              (answers i hi)),
      )

-- Options in a mode that records each packet, with well-formed networks, which are filtered by in one
-- of the four modes for them or their exclusion, or not at all, and a capture of at least one and
-- fewer than 2 ^ 64 packets, each shorter than 2 ^ 31 bytes and long enough for the MAC mode, on a link
-- type other than Juniper Ethernet; a comment of at most 65534 bytes, and a disk that writes and reads
-- all that it is asked. tcpprep exits, only in the two modes that may on a host that is not in the
-- tree, or it makes one call of `add_cache` for each packet, as `process_packet` says, and writes a
-- cache file. tcpreplay reads that file, and with two interfaces, no other option that keeps a packet
-- back or changes it, and an output that takes each packet it sends just the packets that their calls
-- asked for, whole and in the order of the capture, each on the interface that its call asked for, and
-- counts them; it reads no byte behind the cache.
pub tcpprep_tcpreplay :
    (R : RbTree) (t : R.Tree) (p : Prep.Options) (caps : List Captured) (os : Os)
    (comment : Option (List ℕ))
    → IsReady p
    → All (IsCaptured p) (bytes_of caps)
    → IsHonest os
    → 0 < length caps
    → length caps < 2 ^ 64
    → length (comment_bytes comment) ≤ 65534
    → let run = process_raw_packets R p (record { tree = t; cachedata = none }) 0 (bytes_of caps) in
      ((run ≡ value exited) × MayExit p.mode)
      ⊎ ((s : State R.Tree) × (calls : List Call) × (run ≡ value (done s (length caps)))
          × Records R t p 0 (bytes_of caps) calls
          × Follows R t p caps os comment s calls)
tcpprep_tcpreplay R t p caps os comment ready h honest some_packets few short =
    elim (tcpprep_round_trip R t p (bytes_of caps) os comment ready h honest
      (let long = length-bytes_of caps in omega arith) short) [
        | inl e ↦ inl e
        | inr (s, calls, e, same, records, answers) ↦ inr (
          s,
          calls,
          e ∙ ap (λ n. value (done s n)) (length-bytes_of caps),
          records,
          follows_lem R t p caps os comment s calls some_packets few answers,
        )
      ]
