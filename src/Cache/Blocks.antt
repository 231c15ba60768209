-- ===== src/Cache/Blocks.antt =====
-- The chain of blocks as one row of slots: the invariant of the chain, and its bytes in order.
pub mod Steps
pub mod Run
use mathlib.Core.List.{append_assoc}
use tcpreplay.Prelude.{
  ℕ, ◌+◌, ◌*◌, ◌/◌, ◌%◌, ◌≤◌, ◌<◌, ◌≡◌, refl, List, [], ◌∷◌, ◌++◌, arith, length, get_or,
  length-append, sym, ◌∙◌, ap,
}
use tcpreplay.Cache.{Block, Chain}
use tcpreplay.Cache.Slots.{slot}

-- All bytes of the blocks, one block after the other.
unfoldable pub flatten : List Block → List ℕ
flatten [] = []
flatten (b ∷ bs) = b.bytes ++ flatten bs

pub flatten-append : (bs cs : List Block) → flatten (bs ++ cs) ≡ flatten bs ++ flatten cs
unfolding flatten
flatten-append [] cs = refl
flatten-append (b ∷ bs) cs =
    ap (λ xs. b.bytes ++ xs) (flatten-append bs cs)
    ∙ sym (append_assoc b.bytes (flatten bs) (flatten cs))

abbrev pub AllFull : List Block → Type 0
AllFull [] = Unit {0}
AllFull (b ∷ bs) = (length b.bytes ≡ 255) × (b.packets ≡ 1020) × AllFull bs

pub AllFull-append :
    (bs : List Block) (b : Block)
    → AllFull bs
    → length b.bytes ≡ 255
    → b.packets ≡ 1020
    → AllFull (bs ++ (b ∷ []))
AllFull-append [] b h l p = (l, p, tt)
AllFull-append (x ∷ bs) b h l p = (h.0, h.1, AllFull-append bs b h.2 l p)

pub length-flatten : (bs : List Block) → AllFull bs → length (flatten bs) ≡ 255 * length bs
unfolding flatten
length-flatten [] h = omega arith
length-flatten (b ∷ bs) h =
    omega (arith, length-append b.bytes (flatten bs), length-flatten bs h.2, h.0)

abbrev pub flat : Chain → List ℕ
flat c = flatten c.before ++ c.last.bytes

-- The packets on record.
abbrev pub count : Chain → ℕ
count c = 1020 * length c.before + c.last.packets

abbrev pub entry_of : List ℕ → ℕ → ℕ
entry_of bytes i = slot (get_or bytes (i / 4) 0) (i % 4)

abbrev pub entry : Chain → ℕ → ℕ
entry c i = entry_of (flat c) i

-- All blocks but the last are full, and no bit is set beyond the packets on record.
pub record IsValid (c : Chain) : Type 0 where
  pub full : AllFull c.before
  pub size : length c.last.bytes ≡ 255
  pub fits : c.last.packets ≤ 1020
  pub bytes : (i : ℕ) → get_or (flat c) i 0 < 256
  pub clean : (i : ℕ) → count c ≤ i → entry c i ≡ 0
