-- ===== src/Libc/Hex.antt =====
-- `strtol` in base 16, and the two digits of a byte.
use tcpreplay.Prelude.{
  ℕ, ◌+◌, ◌-◌, ◌*◌, ◌/◌, ◌%◌, ◌<◌, ◌≡◌, refl, arith, Bool, true, false, List, [], ◌∷◌, ltb, leb,
  ◌==◌, ◌&&◌, ◌||◌, if◌then◌else◌, pos, ap, ◌∙◌, Bool-cases, inl, inr, min, ◌^◌,
}
use tcpreplay.Libc.{Parsed, skip_spaces, long_of, is_space}

-- The value of a digit, and 16 for a byte that is none.
unfoldable pub hex_value : ℕ → ℕ
hex_value c =
    if leb b'0' c && leb c b'9'
    then c - b'0'
    else if leb b'a' c && leb c b'f'
    then c - b'a' + 10
    else if leb b'A' c && leb c b'F'
    then c - b'A' + 10
    else 16

unfoldable pub is_hex : ℕ → Bool
unfolding hex_value
is_hex c = ltb (hex_value c) 16

unfoldable pub scan_hex : ℕ → List ℕ → ℕ × List ℕ
scan_hex acc [] = (acc, [])
scan_hex acc (c ∷ cs) =
    let more = scan_hex (acc * 16 + hex_value c) cs in if is_hex c then more else (acc, c ∷ cs)

unfoldable pub starts_hex : List ℕ → Bool
starts_hex [] = false
starts_hex (c ∷ cs) = is_hex c

-- A prefix `0x` counts only in front of a digit.
unfoldable pub skip_prefix : List ℕ → List ℕ
skip_prefix (c ∷ d ∷ cs) =
    if c == b'0' && (d == b'x' || d == b'X') && starts_hex cs then cs else c ∷ d ∷ cs
skip_prefix [] = []
skip_prefix (c ∷ []) = c ∷ []

unfoldable pub signed_hex : List ℕ → Bool → List ℕ → Parsed
signed_hex whole neg cs =
    if starts_hex (skip_prefix cs)
    then record {
      value = long_of neg (scan_hex 0 (skip_prefix cs)).0;
      rest = (scan_hex 0 (skip_prefix cs)).1;
    }
    else record { value = pos 0; rest = whole }

unfoldable pub hex_after_spaces : List ℕ → List ℕ → Parsed
hex_after_spaces whole [] = record { value = pos 0; rest = whole }
hex_after_spaces whole (c ∷ cs) =
    if c == b'-'
    then signed_hex whole true cs
    else if c == b'+'
    then signed_hex whole false cs
    else signed_hex whole false (c ∷ cs)

-- `strtol(s, &rest, 16)`
unfoldable pub strtol16 : List ℕ → Parsed
strtol16 s = hex_after_spaces s (skip_spaces s)

unfoldable pub hex_digit : ℕ → ℕ
hex_digit d = if ltb d 10 then b'0' + d else b'a' + (d - 10)

-- What the scan meets behind a number that has ended.
unfoldable pub ends_hex : List ℕ → Bool
ends_hex [] = true
ends_hex (c ∷ cs) = if is_hex c then false else true

pub hex_value-digit : (d : ℕ) → d < 16 → hex_value (hex_digit d) ≡ d
unfolding hex_value hex_digit
hex_value-digit d h = ground arith

is_hex-digit : (d : ℕ) → d < 16 → is_hex (hex_digit d) ≡ true
unfolding is_hex
is_hex-digit d h = rw (hex_value-digit d h) (ground arith)

-- A digit is neither a space nor a sign nor an `x`.
digit_plain :
    (d : ℕ)
    → d < 16
    → (is_space (hex_digit d) ≡ false)
      × ((hex_digit d == b'-') ≡ false)
      × ((hex_digit d == b'+') ≡ false)
      × ((hex_digit d == b'x') ≡ false)
      × ((hex_digit d == b'X') ≡ false)
unfolding hex_digit is_space
digit_plain d h = (ground arith, ground arith, ground arith, ground arith, ground arith)

scan_hex-end : (acc : ℕ) (rest : List ℕ) → ends_hex rest ≡ true → scan_hex acc rest ≡ (acc, rest)
unfolding scan_hex ends_hex
scan_hex-end acc [] e = refl
scan_hex-end acc (c ∷ cs) e = ground arith

skip_prefix-digits :
    (x y : ℕ) (rest : List ℕ)
    → (y == b'x') ≡ false
    → (y == b'X') ≡ false
    → skip_prefix (x ∷ y ∷ rest) ≡ x ∷ y ∷ rest
unfolding skip_prefix
skip_prefix-digits x y rest e f = elim (Bool-cases (x == b'0')) [
  | inl z ↦ rw (z, e, f)
  | inr z ↦ rw z
]

scan_hex-byte :
    (b : ℕ) (rest : List ℕ)
    → b < 256
    → ends_hex rest ≡ true
    → scan_hex 0 (hex_digit (b / 16) ∷ hex_digit (b % 16) ∷ rest) ≡ (b, rest)
unfolding scan_hex
scan_hex-byte b rest h e =
    rw (is_hex-digit (b / 16) (omega arith), is_hex-digit (b % 16) (omega arith))
      (rw (hex_value-digit (b / 16) (omega arith), hex_value-digit (b % 16) (omega arith))
        (scan_hex-end ((0 * 16 + b / 16) * 16 + b % 16) rest e
          ∙ ap (λ (n : ℕ). (n, rest))
              (let f : (0 * 16 + b / 16) * 16 + b % 16 ≡ b = omega arith in f)))

-- Two digits and what ends them are read back.
pub strtol16-byte :
    (b : ℕ) (rest : List ℕ)
    → b < 256
    → ends_hex rest ≡ true
    → strtol16 (hex_digit (b / 16) ∷ hex_digit (b % 16) ∷ rest)
      ≡ record { value = pos b; rest = rest }
unfolding strtol16 skip_spaces hex_after_spaces signed_hex starts_hex
strtol16-byte b rest h e =
    let x = digit_plain (b / 16) (omega arith) in
    let y = digit_plain (b % 16) (omega arith) in
    rw (x.0, x.1, x.2)
      (rw
        (
          skip_prefix-digits (hex_digit (b / 16)) (hex_digit (b % 16)) rest y.3 y.4,
          is_hex-digit (b / 16) (omega arith),
          scan_hex-byte b rest h e,
        )
        (unfold long_of in
          ap (λ (n : ℕ). record { value = pos n; rest = rest })
            (let f : min b (2 ^ 63 - 1) ≡ b = omega arith in f)))
