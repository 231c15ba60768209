-- ===== src/Replay/Rate/Skips.antt =====
-- The accelerator of `send_packets` in src/send_packets.c: the bytes sent without the clock.
use tcpreplay.Prelude.{ℕ, ◌+◌, ◌≤◌, ◌≡◌, refl, arith, List, [], ◌∷◌, Option, none, some}
use tcpreplay.Replay.Rate.{Pace, skip_clock, sent, then_pace, send_skipped}

abbrev pub total : List ℕ → ℕ
total [] = 0
total (x ∷ xs) = x + total xs

-- One packet sent without the clock, where no packets are to be skipped.
skip_clock_lem :
    (p q : Pace) (len : ℕ)
    → p.skip_packets ≡ 0
    → skip_clock p len ≡ some q
    → (q.skip_packets ≡ 0) × (len + q.skip_length ≡ p.skip_length)
unfolding skip_clock
skip_clock_lem p q len no_packets e = ground arith

one_skipped :
    (p q : Pace) (len : ℕ) (lens : List ℕ) (o : Option Pace)
    → skip_clock p len ≡ o
    → ((r : Pace)
        → r.skip_packets ≡ 0
        → send_skipped (sent r len) lens ≡ some q
        → total lens ≤ r.skip_length)
    → p.skip_packets ≡ 0
    → then_pace o (λ r. send_skipped (sent r len) lens) ≡ some q
    → len + total lens ≤ p.skip_length
one_skipped p q len lens none f ih no_packets e = cc e
one_skipped p q len lens (some r) f ih no_packets e =
    let step = skip_clock_lem p r len no_packets f in omega (arith, ih r step.0 e)

-- Without packets to skip, what is sent without the clock stays within `skip_length`.
pub skipped_within :
    (p q : Pace) (lens : List ℕ)
    → p.skip_packets ≡ 0
    → send_skipped p lens ≡ some q
    → total lens ≤ p.skip_length
unfolding send_skipped
skipped_within p q [] no_packets e = omega arith
skipped_within p q (len ∷ lens) no_packets e =
    one_skipped p q len lens (skip_clock p len) refl
      (λ r n f. skipped_within (sent r len) q lens n f) no_packets e
