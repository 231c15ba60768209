-- ===== src/FullChecksum/Laws.antt =====
-- A checksum computed anew makes the sum of what it covers 0 modulo 65535.
use tcpreplay.Prelude.{
  ℕ, ◌+◌, ◌*◌, ◌/◌, ◌%◌, ◌^◌, ◌≤◌, ◌<◌, ◌≡◌, ◌≢◌, refl, arith, false, List, drop, length,
  length-take, length-drop, length-set, IsBytes, IsBytes-set, IsBytes-take, IsBytes-drop, ltb, u16,
  u32, swap16, ap, ◌∙◌,
}
use tcpreplay.Checksum.Partial.Sum.{words_sum}
use tcpreplay.Packet.{value, byte_of}
use tcpreplay.Packet.Laws.{Ends, ends_then, byte_of-set_ne}
use tcpreplay.Portmap.Rewrite.{Code, ok}
use tcpreplay.FullChecksum.{
  shifted, carried, checksum_carry, put16, store16, Family, v4, v6, addresses_at, addresses_len,
  addresses_sum, do_checksum_math, sum_pseudo, sum_plain, sum_header,
}
use tcpreplay.FullChecksum.Windows.{
  window, window-put16_after, window_sum-put16, words_sum-bound, math_lem,
}

checksum_carry_lem :
    (x : ℕ) → x < 2 ^ 31 → (checksum_carry x < 2 ^ 16) × ((x + checksum_carry x) % 65535 ≡ 0)
unfolding checksum_carry
checksum_carry_lem x h =
    let a : shifted x ≡ x / 2 ^ 16 = ground arith in
    let y : carried x ≡ x / 2 ^ 16 + x % 2 ^ 16 = omega arith in
    let b : shifted (carried x) ≡ carried x / 2 ^ 16 = ground arith in (omega arith, omega arith)

pub length-put16 : (packet : List ℕ) (i v : ℕ) → length (put16 packet i v) ≡ length packet
length-put16 packet i v = length-set _ (i + 1) (v / 256) ∙ length-set packet i (v % 256)

pub put16-IsBytes :
    (packet : List ℕ) (i v : ℕ) → IsBytes packet → v < 2 ^ 16 → IsBytes (put16 packet i v)
put16-IsBytes packet i v h small =
    IsBytes-set _ (i + 1) (v / 256) (IsBytes-set packet i (v % 256) h (omega arith)) (omega arith)

pub byte_of-put16 :
    (packet : List ℕ) (i j v : ℕ)
    → i ≢ j
    → i + 1 ≢ j
    → byte_of (put16 packet i v) j ≡ byte_of packet j
byte_of-put16 packet i j v a b =
    byte_of-set_ne _ (i + 1) j (v / 256) b ∙ byte_of-set_ne packet i j (v % 256) a

store16_lem :
    (packet : List ℕ) (i v : ℕ)
    → i + 2 ≤ length packet
    → store16 packet i v ≡ value (put16 packet i v)
unfolding store16
store16_lem packet i v room =
    let e : ltb (length packet) (i + 2) ≡ false = ground arith in rw e refl

module _ (packet : List ℕ) (m n : ℕ) (bytes : IsBytes packet) (inside : m + n ≤ length packet) where
  window_bound : words_sum (window m n packet) * 2 ≤ 65535 * (n + 1)
  window_bound =
      let h =
        words_sum-bound (window m n packet) (IsBytes-take n _ (IsBytes-drop m packet bytes)) in
      omega (arith, length-take n (drop m packet), length-drop m packet)

  window_math :
      n ≤ 65535 → do_checksum_math 0 (drop m packet) n ≡ value (words_sum (window m n packet))
  window_math short =
      math_lem 0 (drop m packet) n (omega (arith, length-drop m packet))
        (let h = window_bound in omega arith)
      ∙ ap (λ (k : ℕ). value k) (omega arith)

-- The field takes a value that makes `verifies` hold; nothing else changes.
abbrev pub Sealed : List ℕ → ℕ → (List ℕ → Type 0) → Code × List ℕ → Type 0
Sealed packet at verifies r =
    (r.0 ≡ ok) × (v : ℕ) × (v < 2 ^ 16) × (r.1 ≡ put16 (put16 packet at 0) at v) × verifies r.1

-- The pseudo header and the segment.
abbrev pub Verifies : Family → ℕ → ℕ → ℕ → List ℕ → Type 0
Verifies f l4 num len packet =
    (words_sum (window (addresses_at f) (addresses_len f) packet)
        + swap16 (u16 (num + len))
        + words_sum (window l4 len packet))
      % 65535
    ≡ 0

abbrev pub HeaderVerifies : ℕ → List ℕ → Type 0
HeaderVerifies ip_hl packet = words_sum (window 0 ip_hl packet) % 65535 ≡ 0

few_addresses : (f : Family) → addresses_len f ≤ 32
few_addresses v4 = omega arith
few_addresses v6 = omega arith

pub sum_pseudo_lem :
    (f : Family) (packet : List ℕ) (l4 field num len : ℕ)
    → IsBytes packet
    → addresses_at f + addresses_len f ≤ l4
    → field % 2 ≡ 0
    → field + 2 ≤ len
    → len ≤ 65500
    → l4 + len ≤ length packet
    → Ends
        (Sealed packet (l4 + field) (Verifies f l4 num len))
        (sum_pseudo f packet l4 field num len)
unfolding sum_pseudo addresses_sum
sum_pseudo_lem f packet l4 field num len bytes apart even room short inside =
    let at = l4 + field in
    let p0 = put16 packet at 0 in
    let long = length-put16 packet at 0 in
    let bytes0 = put16-IsBytes packet at 0 bytes (omega arith) in
    let few = few_addresses f in
    let a = words_sum (window (addresses_at f) (addresses_len f) p0) in
    let s = words_sum (window l4 len p0) in
    let num' = swap16 (u16 (num + len)) in
    let a_bound = window_bound p0 (addresses_at f) (addresses_len f) bytes0 (omega arith) in
    let s_bound = window_bound p0 l4 len bytes0 (omega arith) in
    let num_bound : num' < 2 ^ 16 = omega arith in
    let total = u32 (u32 (a + num') + s) in
    let same : total ≡ a + num' + s = omega arith in
    let v = checksum_carry total in
    let carry = checksum_carry_lem total (omega arith) in
    let p1 = put16 p0 at v in
    let a1 : words_sum (window (addresses_at f) (addresses_len f) p1) ≡ a =
      ap words_sum (window-put16_after p0 (addresses_at f) (addresses_len f) at v (omega arith)) in
    let s1 : words_sum (window l4 len p1) ≡ s + v =
      window_sum-put16 packet l4 len field v even room inside in
    ends_then _ _ _ p0 (store16_lem packet at 0 (omega arith)) (
      ends_then _ _ _ a
        (window_math p0 (addresses_at f) (addresses_len f) bytes0 (omega arith) (omega arith))
        (ends_then _ _ _ s (window_math p0 l4 len bytes0 (omega arith) (omega arith)) (
          ends_then _ _ _ p1 (store16_lem p0 at v (omega arith))
            ((ok, p1), refl, (refl, v, carry.0, refl, omega arith)))))

pub sum_header_lem :
    (packet : List ℕ) (ip_hl : ℕ)
    → IsBytes packet
    → 12 ≤ ip_hl
    → ip_hl ≤ 60
    → ip_hl ≤ length packet
    → Ends (Sealed packet 10 (HeaderVerifies ip_hl)) (sum_header v4 packet ip_hl)
unfolding sum_header sum_plain
sum_header_lem packet ip_hl bytes room short inside =
    let p0 = put16 packet 10 0 in
    let long = length-put16 packet 10 0 in
    let bytes0 = put16-IsBytes packet 10 0 bytes (omega arith) in
    let s = words_sum (window 0 ip_hl p0) in
    let s_bound = window_bound p0 0 ip_hl bytes0 (omega arith) in
    let v = checksum_carry (u32 (0 + s)) in
    let carry = checksum_carry_lem (u32 (0 + s)) (omega arith) in
    let p1 = put16 p0 10 v in
    let s1 : words_sum (window 0 ip_hl p1) ≡ s + v =
      window_sum-put16 packet 0 ip_hl 10 v refl (omega arith) (omega arith) in
    ends_then _ _ _ p0 (store16_lem packet 10 0 (omega arith)) (
      ends_then _ _ _ s (window_math p0 0 ip_hl bytes0 (omega arith) (omega arith)) (
        ends_then _ _ _ p1 (store16_lem p0 10 v (omega arith))
          ((ok, p1), refl, (refl, v, carry.0, refl, omega arith))))
