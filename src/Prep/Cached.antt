-- ===== src/Prep/Cached.antt =====
-- From a capture through tcpprep and its cache file to the lookups of tcpreplay.
use tcpreplay.Prelude.{
  ℕ, zero, suc, ◌+◌, ◌^◌, ◌≤◌, ◌<◌, ◌≡◌, ◌⊎◌, refl, arith, true, false, List, [], ◌∷◌, Option, none,
  some, length, All, inl, inr, ap, sym, subst, ◌∙◌, ◌==◌,
}
use tcpreplay.Cache.{Dir, nosend, add_result, check_cache, found, Chain}
use tcpreplay.Cache.Blocks.Run.{Call, record_all, direction_at}
use tcpreplay.Cache.File.{Os, ok, write_cache, read_cache, comment_bytes}
use tcpreplay.Cache.File.Layout.{IsHonest}
use tcpreplay.Cache.File.RoundTrip.{cache_file_round_trip}
use tcpreplay.Packet.{Walk, value}
use tcpreplay.Packet.Laws.{Ends, ends_then}
use tcpreplay.Tree.{RbTree}
use tcpreplay.Prep.{Options, Act, next, cache, grow, exits, fails, undefined_shift}
use tcpreplay.Prep.Ready.{MayExit, IsReady, IsCaptured, IsSlot}
use tcpreplay.Prep.Slots.{process_packet_lem}
use tcpreplay.Prep.Run.{
  process_packet, State, Ending, exited, failed, undefined, done, perform, process_raw_packets,
}

-- The calls that tcpprep makes for packets from number `num + 1` on, the first first.
abbrev pub Records : (R : RbTree) → R.Tree → Options → ℕ → List (List ℕ) → List Call → Type 0
Records R t o num [] [] = Unit {0}
Records R t o num [] (c ∷ cs) = ⊥
Records R t o num (p ∷ ps) [] = ⊥
Records R t o num (p ∷ ps) (c ∷ cs) =
    (process_packet R t o (num + 1) p ≡ value (cache c.0 c.1)) × Records R t o (num + 1) ps cs

-- The latest call stands first.
abbrev onto : List Call → List Call → List Call
onto [] before = before
onto (c ∷ cs) before = onto cs (c ∷ before)

-- The direction that the call number `i` asked for.
abbrev pub asked : List Call → ℕ → Dir
asked [] i = nosend
asked (c ∷ cs) zero = add_result c.0 c.1
asked (c ∷ cs) (suc i) = asked cs i

earlier :
    (cs before : List Call) (j : ℕ)
    → j < length before
    → direction_at (onto cs before) j ≡ direction_at before j
earlier [] before j h = refl
earlier (c ∷ cs) before j h =
    earlier cs (c ∷ before) j (omega arith)
    ∙ (let ne : (j == length before) ≡ false = ground arith in rw ne)

direction_at-onto :
    (cs before : List Call) (i : ℕ)
    → i < length cs
    → direction_at (onto cs before) (length before + i) ≡ asked cs i
direction_at-onto [] before i h = absurd (omega arith)
direction_at-onto (c ∷ cs) before zero h =
    earlier cs (c ∷ before) (length before + 0) (omega arith)
    ∙ (let eq : (length before + 0 == length before) ≡ true = ground arith in rw eq)
direction_at-onto (c ∷ cs) before (suc i) h =
    ap (direction_at (onto cs (c ∷ before)))
      (let e : length before + suc i ≡ suc (length before) + i = omega arith in e)
    ∙ direction_at-onto cs (c ∷ before) i (omega arith)

length-onto : (cs before : List Call) → length (onto cs before) ≡ length before + length cs
length-onto [] before = omega arith
length-onto (c ∷ cs) before = omega (arith, length-onto cs (c ∷ before))

module _ (R : RbTree) (t : R.Tree) (o : Options) where
  -- What a capture makes of the calls so far.
  abbrev pub Outcome : ℕ → List (List ℕ) → List Call → Ending R.Tree → Type 0
  Outcome num ps before exited = MayExit o.mode
  Outcome num ps before (done s n) =
      (calls : List Call) × Records R t o num ps calls
      × (n ≡ num + length ps)
      × (length calls ≡ length ps)
      × (s.tree ≡ t)
      × (s.cachedata ≡ record_all (onto calls before))
  Outcome num ps before failed = ⊥
  Outcome num ps before undefined = ⊥

  one_more :
      (num : ℕ) (p : List ℕ) (ps : List (List ℕ)) (before : List Call) (c : Call)
      (e : Ending R.Tree)
      → process_packet R t o (num + 1) p ≡ value (cache c.0 c.1)
      → Outcome (num + 1) ps (c ∷ before) e
      → Outcome num (p ∷ ps) before e
  one_more num p ps before c exited e q = q
  one_more num p ps before c failed e q = q
  one_more num p ps before c undefined e q = q
  one_more num p ps before c (done s n) e (calls, records, counted, many, same, chain) =
      (c ∷ calls, (e, records), omega arith, ap suc many, same, chain)

  after_act :
      (num : ℕ) (p : List ℕ) (ps : List (List ℕ)) (before : List Call) (act : Act R.Tree)
      → process_packet R t o (num + 1) p ≡ value act
      → IsSlot o.mode act
      → ((c : Call)
          → Ends (Outcome (num + 1) ps (c ∷ before)) (
              process_raw_packets R o
                (record { tree = t; cachedata = record_all (c ∷ before) })
                (num + 1)
                ps))
      → Ends (Outcome num (p ∷ ps) before) (
          perform act
            (record { tree = t; cachedata = record_all before })
            (λ u. process_raw_packets R o u (num + 1) ps))
  unfolding record_all
  after_act num p ps before (cache s d) e slot ih =
      let q = ih (s, d) in (q.0, q.1, one_more num p ps before (s, d) q.0 e q.2)
  after_act num p ps before exits e slot ih = (exited, refl, slot)
  after_act num p ps before next e slot ih = absurd slot
  after_act num p ps before fails e slot ih = absurd slot
  after_act num p ps before undefined_shift e slot ih = absurd slot
  after_act num p ps before (grow u) e slot ih = absurd slot

  run_lem :
      (ready : IsReady o) (ps : List (List ℕ)) (num : ℕ) (before : List Call)
      → All (IsCaptured o) ps
      → Ends
          (Outcome num ps before)
          (process_raw_packets R o (record { tree = t; cachedata = record_all before }) num ps)
  unfolding process_raw_packets
  run_lem ready [] num before h = (
    done (record { tree = t; cachedata = record_all before }) num,
    refl,
    ([], tt, omega arith, refl, refl, refl),
  )
  run_lem ready (p ∷ ps) num before h =
      let a = process_packet_lem R t o ready p h.0 (num + 1) in
      ends_then (Outcome num (p ∷ ps) before) _ _ a.0 a.1
        (after_act num p ps before a.0 a.1 a.2 (λ c. run_lem ready ps (num + 1) (c ∷ before) h.1))

-- What tcpreplay finds for packet `i`, counted from 0, in the cache file with `n` packets that is
-- written of a cache.
abbrev pub Answers : Os → Option Chain → ℕ → Option (List ℕ) → ℕ → Dir → Type 0
Answers os cachedata n comment i d =
    (file : List ℕ) × (buffer : List ℕ) × (write_cache os cachedata n comment ≡ ok (file, n))
    × (read_cache os (some file) ≡ ok (n, buffer, comment_bytes comment))
    × (check_cache buffer (i + 1) ≡ found d)

answers_lem :
    (os : Os) (calls : List Call) (comment : Option (List ℕ)) (i : ℕ)
    → IsHonest os
    → length calls < 2 ^ 64
    → length (comment_bytes comment) ≤ 65534
    → i < length calls
    → Answers os (record_all (onto calls [])) (length calls) comment i (asked calls i)
answers_lem os calls comment i honest few short h =
    let same : length (onto calls []) ≡ length calls = omega (arith, length-onto calls []) in
    let trip =
      cache_file_round_trip os honest (onto calls []) comment i (omega arith) (omega arith) short in
    let place : direction_at (onto calls []) i ≡ asked calls i =
      ap (direction_at (onto calls [])) (let e : i ≡ 0 + i = omega arith in e)
      ∙ direction_at-onto calls [] i h in
    subst (λ n. Answers os (record_all (onto calls [])) n comment i (asked calls i)) same
      (subst (λ d. Answers os (record_all (onto calls [])) (length (onto calls [])) comment i d)
        place trip)

module _ (R : RbTree) (t : R.Tree) (o : Options) (ps : List (List ℕ)) (os : Os)
    (comment : Option (List ℕ)) (honest : IsHonest os) (few : length ps < 2 ^ 64)
    (short : length (comment_bytes comment) ≤ 65534) (run : Walk (Ending R.Tree)) where
  split_ending :
      (e : Ending R.Tree)
      → run ≡ value e
      → Outcome R t o 0 ps [] e
      → ((run ≡ value exited) × MayExit o.mode)
        ⊎ ((s : State R.Tree) × (calls : List Call) × (run ≡ value (done s (length ps)))
            × (s.tree ≡ t)
            × Records R t o 0 ps calls
            × ((i : ℕ)
                → i < length ps
                → Answers os s.cachedata (length ps) comment i (asked calls i)))
  split_ending exited e q = inl (e, q)
  split_ending failed e q = absurd q
  split_ending undefined e q = absurd q
  split_ending (done s n) e (calls, records, counted, many, same, chain) = inr (
    s,
    calls,
    e ∙ ap (λ k. value (done s k)) (let c : n ≡ length ps = omega arith in c),
    same,
    records,
    λ i h.
        subst (λ c. Answers os c (length ps) comment i (asked calls i)) (sym chain)
          (subst (λ k. Answers os (record_all (onto calls [])) k comment i (asked calls i)) many
            (answers_lem os calls comment i honest (omega arith) short (omega arith))),
  )

-- Options in a mode that records each packet, with well-formed networks, which are filtered by in one
-- of the four modes for them or their exclusion, or not at all; and a capture
-- of fewer than 2 ^ 64 packets, each shorter than 2 ^ 31 bytes and long enough for the MAC mode, on a
-- link type other than Juniper Ethernet; a comment of at most 65534 bytes, and a disk that
-- writes and reads all that it is asked. The loop ends: it exits, only in the two modes that may on
-- a host that is not in the tree, or it has counted the packets, left the tree alone and made one
-- call of `add_cache` for each packet, as `process_packet` says. In the second case the file that
-- `write_cache` makes is read back, and `check_cache` on its data gives for each packet's number the
-- direction that the packet's call asked for.
pub tcpprep_round_trip :
    (R : RbTree) (t : R.Tree) (o : Options) (ps : List (List ℕ)) (os : Os)
    (comment : Option (List ℕ))
    → IsReady o
    → All (IsCaptured o) ps
    → IsHonest os
    → length ps < 2 ^ 64
    → length (comment_bytes comment) ≤ 65534
    → let run = process_raw_packets R o (record { tree = t; cachedata = none }) 0 ps in
      ((run ≡ value exited) × MayExit o.mode)
      ⊎ ((s : State R.Tree) × (calls : List Call) × (run ≡ value (done s (length ps)))
          × (s.tree ≡ t)
          × Records R t o 0 ps calls
          × ((i : ℕ)
              → i < length ps
              → Answers os s.cachedata (length ps) comment i (asked calls i)))
unfolding record_all
tcpprep_round_trip R t o ps os comment ready h honest few short =
    let r = run_lem R t o ready ps 0 [] h in
    split_ending R t o ps os comment honest few short _ r.0 r.1 r.2
