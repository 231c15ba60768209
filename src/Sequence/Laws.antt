-- ===== src/Sequence/Laws.antt =====
-- The numbers move by the adjustment, and the checksum stays right.
use tcpreplay.Prelude.{
  ℕ, ◌+◌, ◌%◌, ◌^◌, ◌<◌, ◌≡◌, arith, refl, if◌then◌else◌, swap32, Bool-cases, inl, inr,
}
use tcpreplay.Checksum.Replace.{csum_replace4-keeps_sum}
use tcpreplay.Sequence.{Tcp, moved, move_seq, move_ack, is_first, rewrite_seqs}

abbrev pub IsTcp : Tcp → Type 0
IsTcp h = (h.th_seq < 2 ^ 32) × (h.th_ack < 2 ^ 32) × (h.th_sum < 2 ^ 16)

-- With the sum of all other words of the segment and the pseudo header, the checksum is right.
abbrev pub Verifies : ℕ → Tcp → Type 0
Verifies rest h = (rest + h.th_seq + h.th_ack + h.th_sum) % 65535 ≡ 0

-- In host byte order the new field is the old one plus the adjustment, modulo 2 ^ 32.
abbrev pub Moves : ℕ → ℕ → ℕ → Type 0
Moves adjust field field' = swap32 field' ≡ (swap32 field + adjust) % 2 ^ 32

swap32_twice : (x : ℕ) → x < 2 ^ 32 → swap32 (swap32 x) ≡ x
swap32_twice x h = omega arith

moved_lem :
    (adjust field : ℕ) → (moved adjust field < 2 ^ 32) × Moves adjust field (moved adjust field)
unfolding moved
moved_lem adjust field =
    (omega arith, swap32_twice ((swap32 field + adjust) % 2 ^ 32) (omega arith))

move_seq_lem :
    (adjust rest : ℕ) (h : Tcp)
    → IsTcp h
    → Verifies rest h
    → IsTcp (move_seq adjust h) × Verifies rest (move_seq adjust h)
unfolding move_seq
move_seq_lem adjust rest h v c =
    let m = moved_lem adjust h.th_seq in
    omega (
      arith,
      csum_replace4-keeps_sum (rest + h.th_ack) h.th_sum h.th_seq (moved adjust h.th_seq) v.2 v.0
          m.0 (omega arith),
    )

move_ack_lem :
    (adjust rest : ℕ) (h : Tcp)
    → IsTcp h
    → Verifies rest h
    → IsTcp (move_ack adjust h) × Verifies rest (move_ack adjust h)
unfolding move_ack
move_ack_lem adjust rest h v c =
    let m = moved_lem adjust h.th_ack in
    omega (
      arith,
      csum_replace4-keeps_sum (rest + h.th_seq) h.th_sum h.th_ack (moved adjust h.th_ack) v.2 v.1
          m.0 (omega arith),
    )

is_first-move_seq : (adjust : ℕ) (h : Tcp) → is_first (move_seq adjust h) ≡ is_first h
unfolding is_first move_seq
is_first-move_seq adjust h = refl

-- A TCP header whose checksum is right gets both numbers moved by the adjustment modulo 2 ^ 32, save
-- that the packet with SYN and without ACK keeps its acknowledgement number; the flags stay, and the
-- new checksum is right.
pub rewrite_seqs_lem :
    (adjust rest : ℕ) (h : Tcp)
    → IsTcp h
    → Verifies rest h
    → let h' = rewrite_seqs adjust h in
      Moves adjust h.th_seq h'.th_seq
      × (if is_first h then h'.th_ack ≡ h.th_ack else Moves adjust h.th_ack h'.th_ack)
      × (h'.th_flags ≡ h.th_flags)
      × IsTcp h'
      × Verifies rest h'
unfolding rewrite_seqs
rewrite_seqs_lem adjust rest h v c = elim (Bool-cases (is_first h)) [
  | inl e ↦
      rw (is_first-move_seq adjust h, e)
        (
          (unfold move_seq in (moved_lem adjust h.th_seq).1),
          (unfold move_seq in refl),
          (unfold move_seq in refl),
          s.0,
          s.1,
        )
  | inr e ↦
      rw (is_first-move_seq adjust h, e)
        (
          (unfold move_ack move_seq in (moved_lem adjust h.th_seq).1),
          (unfold move_ack move_seq in (moved_lem adjust h.th_ack).1),
          (unfold move_ack move_seq in refl),
          a.0,
          a.1,
        )
]
  where
    s : IsTcp (move_seq adjust h) × Verifies rest (move_seq adjust h)
    s = move_seq_lem adjust rest h v c

    a :
        IsTcp (move_ack adjust (move_seq adjust h))
        × Verifies rest (move_ack adjust (move_seq adjust h))
    a = move_ack_lem adjust rest (move_seq adjust h) s.0 s.1
