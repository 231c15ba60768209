-- ===== src/Cache/Blocks/Steps.antt =====
-- `add_cache` on a valid chain: one more packet, whose slot holds its code.
use tcpreplay.Prelude.{
  ℕ, ◌+◌, ◌-◌, ◌*◌, ◌/◌, ◌%◌, ◌≤◌, ◌<◌, ◌≡◌, refl, [], ◌∷◌, ◌++◌, arith, length, get_or, set,
  length-append, length-set, Option, some, none, replicate, ◌∙◌, ap, ◌==◌, sym, if◌then◌else◌,
  get_or-append-replicate, get_or-replicate, ltb, Bool-cases, inl, inr, u32, set-append_right,
  get_or-set_self, get_or-set_ne, ==_iff, set-get_or_self, get_or-append_right, ◌^◌, true, false,
}
use mathlib.Core.List.{append-nil}
use native.Mathlib.Nat.{le_refl}
use tcpreplay.Cache.{Block, Chain, Dir, room_for_one, record_packet, add_cache, mark, send_flag}
use tcpreplay.Cache.Slots.{
  slot, code, code-lt, mark-eq-add, slot-add, slot-add-lt, same_byte, other_byte,
}
use tcpreplay.Cache.Blocks.{
  flatten, flatten-append, AllFull-append, length-flatten, flat, count, entry, entry_of, IsValid,
}

-- A chain or none, as far as its packets go.
abbrev pub count? : Option Chain → ℕ
count? none = 0
count? (some c) = count c

abbrev pub entry? : Option Chain → ℕ → ℕ
entry? none i = 0
entry? (some c) i = entry c i

abbrev pub IsValid? : Option Chain → Type 0
IsValid? none = Unit {0}
IsValid? (some c) = IsValid c

-- `room_for_one` leaves the packets as they are and has a free slot.
pub record HasRoom (o : Option Chain) (c : Chain) : Type 0 where
  pub valid : IsValid c
  pub free : c.last.packets < 1020
  pub same_count : count c ≡ count? o
  pub same_entries : (i : ℕ) → entry c i ≡ entry? o i

slot-zero : (j : ℕ) → slot 0 j ≡ 0
slot-zero j = grind arith

zeros-entry : (i : ℕ) → entry_of (replicate 255 0) i ≡ 0
zeros-entry i = rw (get_or-replicate {A = ℕ} 255 (i / 4) 0) (slot-zero (i % 4))

first-HasRoom : HasRoom none (room_for_one none)
unfolding room_for_one flatten
first-HasRoom = record {
  valid = record {
    full = tt;
    size = refl;
    fits = omega arith;
    bytes = λ i. rw (get_or-replicate {A = ℕ} 255 i 0) (omega arith);
    clean = λ i h. zeros-entry i;
  };
  free = omega arith;
  same_count = refl;
  same_entries = zeros-entry;
}

-- A full last block is followed by a fresh one.
abbrev grown : Chain → Chain
grown c = record {
  before = c.before ++ (c.last ∷ []);
  last = record { bytes = replicate 255 0; packets = 0 };
}

flatten-one : (b : Block) → flatten (b ∷ []) ≡ b.bytes ++ []
unfolding flatten
flatten-one b = refl

flat-grown : (c : Chain) (i : ℕ) → get_or (flat (grown c)) i 0 ≡ get_or (flat c) i 0
flat-grown c i =
    get_or-append-replicate (flatten (c.before ++ (c.last ∷ []))) 255 i 0
    ∙ ap (λ xs. get_or xs i 0)
        (flatten-append c.before (c.last ∷ [])
          ∙ ap (λ xs. flatten c.before ++ xs) (flatten-one c.last ∙ append-nil c.last.bytes))

grown-HasRoom : (c : Chain) → IsValid c → c.last.packets ≡ 1020 → HasRoom (some c) (grown c)
grown-HasRoom c v e = record {
  valid = record {
    full = AllFull-append c.before c.last v.full v.size e;
    size = refl;
    fits = omega arith;
    bytes = λ i. rw (flat-grown c i) (v.bytes i);
    clean = λ i h. rw (flat-grown c (i / 4)) (v.clean i (omega (arith, counts)));
  };
  free = omega arith;
  same_count = counts;
  same_entries = λ i. ap (λ b. slot b (i % 4)) (flat-grown c (i / 4));
}
  where
    counts : count (grown c) ≡ count c
    counts = omega (arith, length-append c.before (c.last ∷ []))

pub room_for_one-HasRoom : (o : Option Chain) → IsValid? o → HasRoom o (room_for_one o)
room_for_one-HasRoom none v = first-HasRoom
room_for_one-HasRoom (some c) v = elim (Bool-cases (ltb 1020 (u32 (c.last.packets + 1)))) [
  | inl full ↦
      rw (grows full) (grown-HasRoom c v (let f : c.last.packets ≤ 1020 = v.fits in ground arith))
  | inr free ↦ rw (stays free) (record {
    valid = v;
    free = let f : c.last.packets ≤ 1020 = v.fits in ground arith;
    same_count = refl;
    same_entries = λ i. refl;
  })
]
  where
    grows : ltb 1020 (u32 (c.last.packets + 1)) ≡ true → room_for_one (some c) ≡ grown c
    grows h = unfold room_for_one in rw h

    stays : ltb 1020 (u32 (c.last.packets + 1)) ≡ false → room_for_one (some c) ≡ c
    stays h = unfold room_for_one in rw h

-- `record_packet` on a block with room, as a write to the row of bytes.
module _ (send : ℕ) (d : Dir) (c : Chain) (v : IsValid c) (free : c.last.packets < 1020) where
  abbrev recorded : Chain
  recorded = record c { last = record_packet send d c.last }

  abbrev at : ℕ
  at = count c / 4

  at-eq : at ≡ length (flatten c.before) + c.last.packets / 4
  at-eq = omega (arith, length-flatten c.before v.full)

  in_row : at < length (flat c)
  in_row = omega (arith, at-eq, length-append (flatten c.before) c.last.bytes, v.size)

  old_byte : get_or c.last.bytes (c.last.packets / 4) 0 ≡ get_or (flat c) at 0
  old_byte = sym (
      ap (λ k. get_or (flat c) k 0) at-eq
      ∙ get_or-append_right (flatten c.before) c.last.bytes (c.last.packets / 4) 0)

  count-recorded : count recorded ≡ count c + 1
  unfolding record_packet
  count-recorded = ground arith

  abbrev new_byte : ℕ
  new_byte = get_or (flat c) at 0 + code send d * 4 ^ (count c % 4)

  wraps : u32 (c.last.packets + 1) ≡ c.last.packets + 1
  wraps = omega arith

  back : c.last.packets + 1 - 1 ≡ c.last.packets
  back = omega arith

  old_slot_empty : slot (get_or c.last.bytes (c.last.packets / 4) 0) (c.last.packets % 4) ≡ 0
  old_slot_empty =
      rw (old_byte, (let e : c.last.packets % 4 ≡ count c % 4 = omega arith in e))
        (v.clean (count c) (omega arith))

  marked :
      (send == send_flag) ≡ true
      → mark (get_or c.last.bytes (c.last.packets / 4) 0) (c.last.packets % 4 * 2 + 1) d ≡ new_byte
  marked h =
      (mark-eq-add (get_or c.last.bytes (c.last.packets / 4) 0) (c.last.packets % 4) d
        (rw old_byte (v.bytes at)) (omega arith) old_slot_empty).0
      ∙ rw (h, old_byte, (let e : c.last.packets % 4 ≡ count c % 4 = omega arith in e))

  recorded_sent :
      (send == send_flag) ≡ true
      → record_packet send d c.last ≡ record {
        bytes =
            set c.last.bytes
              (c.last.packets / 4)
              (mark (get_or c.last.bytes (c.last.packets / 4) 0) (c.last.packets % 4 * 2 + 1) d);
        packets = c.last.packets + 1;
      }
  recorded_sent h = unfold record_packet in rw (h, wraps, back)

  recorded_kept :
      (send == send_flag) ≡ false
      → record_packet send d c.last ≡ record { bytes = c.last.bytes; packets = c.last.packets + 1 }
  recorded_kept h = unfold record_packet in rw (h, wraps)

  flat-recorded : flat recorded ≡ set (flat c) at new_byte
  flat-recorded = elim (Bool-cases (send == send_flag)) [
    | inl h ↦
        ap (λ b. flatten c.before ++ b.bytes) (recorded_sent h)
        ∙ ap (λ x. flatten c.before ++ set c.last.bytes (c.last.packets / 4) x) (marked h)
        ∙ sym (
            ap (λ k. set (flat c) k new_byte) at-eq
            ∙ set-append_right (flatten c.before) c.last.bytes (c.last.packets / 4) new_byte)
    | inr h ↦
        ap (λ b. flatten c.before ++ b.bytes) (recorded_kept h)
        ∙ sym (ap (λ k. set (flat c) at k) (unmarked h) ∙ set-get_or_self (flat c) at 0)
  ]
    where
      unmarked : (send == send_flag) ≡ false → new_byte ≡ get_or (flat c) at 0
      unmarked h = rw h (omega arith)

  byte-recorded :
      (k : ℕ) → get_or (flat recorded) k 0 ≡ (if k == at then new_byte else get_or (flat c) k 0)
  byte-recorded k = ap (λ xs. get_or xs k 0) flat-recorded ∙ elim (Bool-cases (k == at)) [
    | inl same ↦ rw same (
        ap (λ j. get_or (set (flat c) at new_byte) j 0) ((==_iff k at).0 same)
        ∙ get_or-set_self (flat c) at new_byte 0 in_row)
    | inr other ↦ rw other (get_or-set_ne (flat c) at k new_byte 0 (λ e. ground arith))
  ]

  slot_free : slot (get_or (flat c) at 0) (count c % 4) ≡ 0
  slot_free = v.clean (count c) (le_refl _)

  entry-recorded : (i : ℕ) → entry recorded i ≡ (if i == count c then code send d else entry c i)
  entry-recorded i =
      ap (λ b. slot b (i % 4)) (byte-recorded (i / 4)) ∙ elim (Bool-cases (i / 4 == at)) [
        | inl same ↦ rw same (
            slot-add (get_or (flat c) at 0) (count c % 4) (i % 4) (code send d) (v.bytes at)
              (omega arith) (omega arith) (code-lt send d) slot_free
            ∙ rw (same_byte i (count c) same) (
                ap (λ k. if i == count c then code send d else slot (get_or (flat c) k 0) (i % 4))
                  (sym ((==_iff (i / 4) at).0 same))))
        | inr other ↦ rw (other, other_byte i (count c) other)
      ]

  new_byte-lt : new_byte < 256
  new_byte-lt =
      slot-add-lt (get_or (flat c) at 0) (count c % 4) (code send d) (v.bytes at) (omega arith)
        (code-lt send d) slot_free

  last-recorded : (length recorded.last.bytes ≡ 255) × (recorded.last.packets ≡ c.last.packets + 1)
  last-recorded = elim (Bool-cases (send == send_flag)) [
    | inl h ↦ rw (recorded_sent h) (length-set c.last.bytes _ _ ∙ v.size, refl)
    | inr h ↦ rw (recorded_kept h) (v.size, refl)
  ]

  beyond : (i : ℕ) → count c < i → (i == count c) ≡ false
  beyond i h = ground arith

  pub recorded-IsValid : IsValid recorded
  recorded-IsValid = record {
    full = v.full;
    size = last-recorded.0;
    fits = omega (arith, last-recorded.1);
    bytes = λ i.
        rw (byte-recorded i)
          elim (Bool-cases (i == at)) [ inl e ↦ rw e new_byte-lt | inr e ↦ rw e (v.bytes i) ];
    clean = λ i h.
        rw (entry-recorded i, beyond i (omega (arith, count-recorded)))
          (v.clean i (omega (arith, count-recorded)));
  }

-- What one call of `add_cache` does to the packets on record.
pub record Added (o : Option Chain) (send : ℕ) (d : Dir) (c : Chain) : Type 0 where
  pub valid : IsValid c
  pub one_more : count c ≡ count? o + 1
  pub entries : (i : ℕ) → entry c i ≡ (if i == count? o then code send d else entry? o i)

-- On no chain or a valid one `add_cache` makes a valid chain with one packet more, whose slot holds
-- its two bits; every other slot is as before, also where a new block is taken.
pub add_cache-Added :
    (o : Option Chain) (send : ℕ) (d : Dir) → IsValid? o → Added o send d (add_cache o send d).0
unfolding add_cache
add_cache-Added o send d v = record {
  valid = recorded-IsValid send d c r.valid r.free;
  one_more = count-recorded send d c r.valid r.free ∙ ap (λ n. n + 1) r.same_count;
  entries = λ i. entry-recorded send d c r.valid r.free i ∙ rw (r.same_count, r.same_entries i);
}
  where
    c : Chain
    c = room_for_one o

    r : HasRoom o c
    r = room_for_one-HasRoom o v
