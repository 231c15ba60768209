-- ===== src/Ipv6/Rewrite/Words.antt =====
-- The words of a packet, and the store of a TCP or UDP header behind an IPv6 header.
use tcpreplay.Prelude.{
  ℕ, zero, suc, ◌+◌, ◌*◌, ◌/◌, ◌%◌, ◌^◌, ◌≤◌, ◌<◌, ◌≡◌, ◌⊎◌, inl, inr, refl, arith, List, [], ◌∷◌,
  length, drop, get_or, get_or-set_self, get_or-set_ne, get_or-take, get_or-lt, set, length-set,
  length-take, length-drop, IsBytes, ap, ap₂, ◌∙◌,
}
use tcpreplay.Packet.{value, byte_of}
use tcpreplay.Portmap.Rewrite.{Header}
use tcpreplay.Tree.Packets.{le16_at}
use tcpreplay.Checksum.Partial.Sum.{words_sum}
use tcpreplay.FullChecksum.{put16}
use tcpreplay.FullChecksum.Windows.{window, word, window-put16, window-put16_after, words_sum-put16}
use tcpreplay.FullChecksum.Laws.{length-put16}
use tcpreplay.Ipv6.Rewrite.{read_header, write_header}

pub byte_of-get_or : (xs : List ℕ) (i : ℕ) → i < length xs → byte_of xs i ≡ value (get_or xs i 0)
unfolding byte_of
byte_of-get_or [] i h = absurd (omega arith)
byte_of-get_or (x ∷ xs) zero h = refl
byte_of-get_or (x ∷ xs) (suc i) h = byte_of-get_or xs i (omega arith)

pub le16_at-word : (xs : List ℕ) (i : ℕ) → i + 2 ≤ length xs → le16_at xs i ≡ value (word xs i)
unfolding le16_at
le16_at-word xs i h =
    rw (byte_of-get_or xs i (omega arith), byte_of-get_or xs (i + 1) (omega arith)) refl

get_or-drop : (m : ℕ) (xs : List ℕ) (i : ℕ) → get_or (drop m xs) i 0 ≡ get_or xs (m + i) 0
get_or-drop zero xs i = ap (λ k. get_or xs k 0) (let e : i ≡ 0 + i = omega arith in e)
get_or-drop (suc m) [] i = refl
get_or-drop (suc m) (x ∷ xs) i =
    get_or-drop m xs i
    ∙ ap (λ k. get_or (x ∷ xs) k 0) (let e : suc (m + i) ≡ suc m + i = omega arith in e)

word-window : (xs : List ℕ) (m n i : ℕ) → i + 2 ≤ n → word (window m n xs) i ≡ word xs (m + i)
word-window xs m n i h =
    ap₂ (λ (a b : ℕ). a + b * 256)
      (get_or-take n (drop m xs) i 0 (omega arith) ∙ get_or-drop m xs i)
      (get_or-take n (drop m xs) (i + 1) 0 (omega arith)
        ∙ get_or-drop m xs (i + 1)
        ∙ ap (λ k. get_or xs k 0) (let e : m + (i + 1) ≡ m + i + 1 = omega arith in e))

word-put16 : (xs : List ℕ) (i v : ℕ) → i + 2 ≤ length xs → word (put16 xs i v) i ≡ v
word-put16 xs i v h =
    let once = set xs i (v % 256) in
    let long = length-set xs i (v % 256) in
    let low : get_or (put16 xs i v) i 0 ≡ v % 256 =
      get_or-set_ne once (i + 1) i (v / 256) 0 (λ e. omega arith)
      ∙ get_or-set_self xs i (v % 256) 0 (omega arith) in
    let high : get_or (put16 xs i v) (i + 1) 0 ≡ v / 256 =
      get_or-set_self once (i + 1) (v / 256) 0 (omega arith) in
    omega arith

word-put16_apart :
    (xs : List ℕ) (i j v : ℕ) → (i + 2 ≤ j) ⊎ (j + 2 ≤ i) → word (put16 xs i v) j ≡ word xs j
word-put16_apart xs i j v apart =
    ap₂ (λ (a b : ℕ). a + b * 256)
      (get_or-set_ne _ (i + 1) j (v / 256) 0 (λ e. ground arith)
        ∙ get_or-set_ne xs i j (v % 256) 0 (λ e. ground arith))
      (get_or-set_ne _ (i + 1) (j + 1) (v / 256) 0 (λ e. ground arith)
        ∙ get_or-set_ne xs i (j + 1) (v % 256) 0 (λ e. ground arith))

pub word-bound : (xs : List ℕ) (i : ℕ) → IsBytes xs → word xs i < 2 ^ 16
word-bound xs i h = let a = get_or-lt xs i h in let b = get_or-lt xs (i + 1) h in omega arith

-- A store moves the sum of the window by what it changes.
stored_sum :
    (packet : List ℕ) (m n i v : ℕ)
    → i % 2 ≡ 0
    → i + 2 ≤ n
    → m + n ≤ length packet
    → words_sum (window m n (put16 packet (m + i) v)) + word packet (m + i)
      ≡ words_sum (window m n packet) + v
stored_sum packet m n i v even room inside =
    let long : n ≡ length (window m n packet) =
      omega (arith, length-take n (drop m packet), length-drop m packet) in
    let moved = words_sum-put16 (window m n packet) i v even (omega arith) in
    let same = ap words_sum (window-put16 packet m n i v) in
    let had = word-window packet m n i room in omega arith

module _ (packet : List ℕ) (at n : ℕ) (even : at % 2 ≡ 0) (behind : 4 ≤ at) (room : at + 2 ≤ n)
    (inside : 40 + n ≤ length packet) where
  abbrev pub had : Header
  had = record { sport = word packet 40; dport = word packet 42; sum = word packet (40 + at) }

  pub read_lem : read_header packet 40 at ≡ value had
  unfolding read_header
  read_lem =
      rw
        (
          le16_at-word packet 40 (omega arith),
          le16_at-word packet 42 (omega arith),
          le16_at-word packet (40 + at) (omega arith),
        )
        refl

  module _ (h : Header) where
    abbrev pub edited : List ℕ
    edited = put16 (put16 (put16 packet 40 h.sport) 42 h.dport) (40 + at) h.sum

    written : write_header packet 40 at h ≡ edited
    unfolding write_header
    written = refl

    pub length-edited : length edited ≡ length packet
    length-edited =
        length-put16 _ (40 + at) h.sum ∙ length-put16 _ 42 h.dport ∙ length-put16 packet 40 h.sport

    pub sport_lem : le16_at edited 40 ≡ value h.sport
    sport_lem =
        let long = length-edited in
        le16_at-word edited 40 (omega arith)
        ∙ ap (λ (k : ℕ). value k)
            (word-put16_apart _ (40 + at) 40 h.sum (inr (omega arith))
              ∙ word-put16_apart (put16 packet 40 h.sport) 42 40 h.dport (inr (omega arith))
              ∙ word-put16 packet 40 h.sport (omega arith))

    pub dport_lem : le16_at edited 42 ≡ value h.dport
    dport_lem =
        let long = length-edited in
        let once = length-put16 packet 40 h.sport in
        le16_at-word edited 42 (omega arith)
        ∙ ap (λ (k : ℕ). value k)
            (word-put16_apart _ (40 + at) 42 h.sum (inr (omega arith))
              ∙ word-put16 (put16 packet 40 h.sport) 42 h.dport (omega arith))

    pub sum_lem : le16_at edited (40 + at) ≡ value h.sum
    sum_lem =
        let long = length-edited in
        let twice =
          length-put16 (put16 packet 40 h.sport) 42 h.dport ∙ length-put16 packet 40 h.sport in
        le16_at-word edited (40 + at) (omega arith)
        ∙ ap (λ (k : ℕ). value k) (word-put16 _ (40 + at) h.sum (omega arith))

    pub edited_sum :
        words_sum (window 40 n edited) + had.sport + had.dport + had.sum
        ≡ words_sum (window 40 n packet) + h.sport + h.dport + h.sum
    edited_sum =
        let p1 = put16 packet 40 h.sport in
        let p2 = put16 p1 42 h.dport in
        let l1 = length-put16 packet 40 h.sport in
        let l2 = length-put16 p1 42 h.dport in
        let a = stored_sum packet 40 n 0 h.sport refl (omega arith) inside in
        let b = stored_sum p1 40 n 2 h.dport refl (omega arith) (omega arith) in
        let c = stored_sum p2 40 n at h.sum even room (omega arith) in
        let b' : word p1 42 ≡ word packet 42 =
          word-put16_apart packet 40 42 h.sport (inl (omega arith)) in
        let c' : word p2 (40 + at) ≡ word packet (40 + at) =
          word-put16_apart p1 42 (40 + at) h.dport (inl (omega arith))
          ∙ word-put16_apart packet 40 (40 + at) h.sport (inl (omega arith)) in
        omega arith

    pub same_addresses : window 8 32 edited ≡ window 8 32 packet
    same_addresses =
        window-put16_after _ 8 32 (40 + at) h.sum (omega arith)
        ∙ window-put16_after _ 8 32 42 h.dport (omega arith)
        ∙ window-put16_after packet 8 32 40 h.sport (omega arith)
