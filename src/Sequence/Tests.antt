-- ===== src/Sequence/Tests.antt =====
-- A SYN segment and an acknowledgement whose numbers are moved by 5.
use tcpreplay.Prelude.{◌≡◌, refl, arith, swap32, if◌then◌else◌}
use tcpreplay.Sequence.{Tcp, is_first, rewrite_seqs, move_seq, move_ack, moved}
use tcpreplay.Sequence.Laws.{IsTcp, Verifies, Moves, rewrite_seqs_lem}

abbrev reply : Tcp
reply = record { th_seq = swap32 4_294_967_295; th_ack = swap32 7; th_flags = 0x12; th_sum = 0 }

reply_moves :
    (swap32 (rewrite_seqs 5 reply).th_seq ≡ 4) × (swap32 (rewrite_seqs 5 reply).th_ack ≡ 12)
unfolding rewrite_seqs move_seq move_ack moved is_first
reply_moves = (refl, refl)

rewrite_seqs_lem_example :
    let h' = rewrite_seqs 5 reply in
    Moves 5 reply.th_seq h'.th_seq
    × (if is_first reply then h'.th_ack ≡ reply.th_ack else Moves 5 reply.th_ack h'.th_ack)
    × (h'.th_flags ≡ reply.th_flags)
    × IsTcp h'
    × Verifies 63743 h'
rewrite_seqs_lem_example = rewrite_seqs_lem 5 63743 reply (omega arith) refl
