-- ===== src/Libc.antt =====
-- The functions of the C library that the modelled code calls on text, over the bytes of a string
-- (its NUL left out): `isspace`, `strtol` and `strtoull`, `strtok_r` with one delimiter, `strchr`.
-- The locale is "C", and `long` has 64 bits.
pub mod Tokens
pub mod Decimal
pub mod Cut
pub mod Hex
use tcpreplay.Prelude.{
  ℕ, ◌+◌, ◌-◌, ◌*◌, ◌^◌, Bool, true, false, List, [], ◌∷◌, ◌&&◌, ◌||◌, ltb, leb, ◌==◌, Option, none,
  some, if◌then◌else◌, min, ℤ, pos, negsuc, negate,
}

unfoldable pub is_space : ℕ → Bool
is_space c = c == 32 || (leb 9 c && leb c 13)

unfoldable pub is_digit : ℕ → Bool
is_digit c = leb b'0' c && leb c b'9'

unfoldable pub skip_spaces : List ℕ → List ℕ
skip_spaces [] = []
skip_spaces (c ∷ cs) = if is_space c then skip_spaces cs else c ∷ cs

-- The number that the leading digits make, and what follows them.
unfoldable pub scan_digits : ℕ → List ℕ → ℕ × List ℕ
scan_digits acc [] = (acc, [])
scan_digits acc (c ∷ cs) =
    let more = scan_digits (acc * 10 + (c - b'0')) cs in if is_digit c then more else (acc, c ∷ cs)

unfoldable pub starts_digit : List ℕ → Bool
starts_digit [] = false
starts_digit (c ∷ cs) = is_digit c

pub record Parsed : Type 0 where
  pub value : ℤ
  pub rest : List ℕ

-- Out of range `strtol` gives `LONG_MAX` or `LONG_MIN`.
unfoldable pub long_of : Bool → ℕ → ℤ
long_of false n = pos (min n (2 ^ 63 - 1))
long_of true n = negate (min n (2 ^ 63))

-- With no digit, the value is 0 and `*endptr` is the whole text.
unfoldable pub signed_digits : List ℕ → Bool → List ℕ → Parsed
signed_digits whole neg cs =
    if starts_digit cs
    then record { value = long_of neg (scan_digits 0 cs).0; rest = (scan_digits 0 cs).1 }
    else record { value = pos 0; rest = whole }

unfoldable pub after_spaces : List ℕ → List ℕ → Parsed
after_spaces whole [] = record { value = pos 0; rest = whole }
after_spaces whole (c ∷ cs) =
    if c == b'-'
    then signed_digits whole true cs
    else if c == b'+'
    then signed_digits whole false cs
    else signed_digits whole false (c ∷ cs)

-- `strtol(s, &rest, 10)`
unfoldable pub strtol10 : List ℕ → Parsed
unfolding after_spaces skip_spaces is_space signed_digits long_of scan_digits starts_digit is_digit
strtol10 s = after_spaces s (skip_spaces s)
