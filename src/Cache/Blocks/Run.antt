-- ===== src/Cache/Blocks/Run.antt =====
-- A run of `add_cache` calls, as tcpprep makes them, and the buffer that `check_cache` reads later.
use tcpreplay.Prelude.{
  ℕ, ◌+◌, ◌-◌, ◌*◌, ◌/◌, ◌%◌, ◌<◌, ◌≡◌, refl, List, [], ◌∷◌, arith, length, get_or, Option, some,
  none, ◌∙◌, ◌==◌, if◌then◌else◌, Bool-cases, inl, inr, lt→ltb, u32, false,
}
use tcpreplay.Cache.{Chain, Dir, nosend, found, add_cache, add_result, check_cache}
use tcpreplay.Cache.Slots.{code, decode, decode-code, check_byte-eq-decode}
use tcpreplay.Cache.Blocks.{flat, entry, IsValid}
use tcpreplay.Cache.Blocks.Steps.{count?, entry?, IsValid?, Added, add_cache-Added}

-- One call: whether the packet is sent, and on which interface.
abbrev pub Call : Type 0
Call = ℕ × Dir

-- The calls from an empty cache on; the latest call stands first.
unfoldable pub record_all : List Call → Option Chain
record_all [] = none
record_all ((send, d) ∷ calls) = some (add_cache (record_all calls) send d).0

-- The two bits of the call number `i`, counted from the first.
abbrev pub code_at : List Call → ℕ → ℕ
code_at [] i = 0
code_at ((send, d) ∷ calls) i = if i == length calls then code send d else code_at calls i

pub record IsRecord (calls : List Call) (o : Option Chain) : Type 0 where
  pub valid : IsValid? o
  pub counted : count? o ≡ length calls
  pub entries : (i : ℕ) → entry? o i ≡ code_at calls i

pub record_all-IsRecord : (calls : List Call) → IsRecord calls (record_all calls)
unfolding record_all
record_all-IsRecord [] = record { valid = tt; counted = refl; entries = λ i. refl }
record_all-IsRecord ((send, d) ∷ calls) =
    extend (record_all-IsRecord calls) (add_cache-Added (record_all calls) send d)
  where
    extend :
        IsRecord calls (record_all calls)
        → (IsValid? (record_all calls)
            → Added (record_all calls) send d (add_cache (record_all calls) send d).0)
        → IsRecord ((send, d) ∷ calls) (some (add_cache (record_all calls) send d).0)
    extend ih step = record {
      valid = (step ih.valid).valid;
      counted = (step ih.valid).one_more ∙ omega (arith, ih.counted);
      entries = λ i. (step ih.valid).entries i ∙ rw (ih.counted, ih.entries i);
    }

-- The direction that the call number `i` asked for.
abbrev pub direction_at : List Call → ℕ → Dir
direction_at [] i = nosend
direction_at ((send, d) ∷ calls) i =
    if i == length calls then add_result send d else direction_at calls i

pub decode-code_at : (calls : List Call) (i : ℕ) → decode (code_at calls i) ≡ direction_at calls i
decode-code_at [] i = refl
decode-code_at ((send, d) ∷ calls) i = elim (Bool-cases (i == length calls)) [
  | inl e ↦ rw e (decode-code send d)
  | inr e ↦ rw e (decode-code_at calls i)
]

-- A buffer that agrees with the bytes of the chain as far as it goes answers for every packet that
-- it holds.
pub check_cache-agrees :
    (c : Chain) (buffer : List ℕ) (i : ℕ)
    → IsValid c
    → i / 4 < length buffer
    → get_or buffer (i / 4) 0 ≡ get_or (flat c) (i / 4) 0
    → check_cache buffer (i + 1) ≡ found (decode (entry c i))
unfolding check_cache
check_cache-agrees c buffer i v room agree = rw (
  not_first,
  (let e : i + 1 - 1 ≡ i = omega arith in e),
  lt→ltb _ _ room,
  small,
  agree,
  check_byte-eq-decode (get_or (flat c) (i / 4) 0) (i % 4) (v.bytes (i / 4)) (omega arith),
)
  where
    not_first : (i + 1 == 0) ≡ false
    not_first = ground arith

    small : u32 (i % 4 * 2) ≡ i % 4 * 2
    small = omega arith
