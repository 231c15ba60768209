-- ===== src/Libc/Decimal.antt =====
-- Numbers in decimal, read back by `strtol`; texts without the delimiter, cut by `strtok_r`.
use mathlib.Core.List.{append-nil}
use tcpreplay.Prelude.{
  ℕ, zero, suc, ◌+◌, ◌-◌, ◌*◌, ◌/◌, ◌%◌, ◌^◌, ◌≤◌, ◌<◌, ◌≡◌, ◌≢◌, refl, arith, true, false, List,
  [], ◌∷◌, ◌++◌, ltb, if◌then◌else◌, All, ◌∙◌, ap, sym, Bool-cases, inl, inr, min, pos,
}
use tcpreplay.Libc.{
  is_digit, is_space, skip_spaces, scan_digits, starts_digit, signed_digits, after_spaces, long_of,
  strtol10,
}

-- The decimal digits of a number. The first argument is fuel; more than the number is enough.
unfoldable pub digits_fuel : ℕ → ℕ → List ℕ
digits_fuel zero n = []
digits_fuel (suc f) n =
    let more = digits_fuel f (n / 10) in
    if ltb n 10 then (b'0' + n) ∷ [] else more ++ ((b'0' + n % 10) ∷ [])

unfoldable pub decimal : ℕ → List ℕ
decimal n = digits_fuel (n + 1) n

abbrev pub IsDigit : ℕ → Type 0
IsDigit c = (b'0' ≤ c) × (c ≤ b'9')

All-append_one : (xs : List ℕ) (x : ℕ) → All IsDigit xs → IsDigit x → All IsDigit (xs ++ (x ∷ []))
All-append_one [] x h hx = (hx, tt)
All-append_one (y ∷ xs) x h hx = (h.0, All-append_one xs x h.1 hx)

digits_fuel-IsDigit : (f n : ℕ) → All IsDigit (digits_fuel f n)
unfolding digits_fuel
digits_fuel-IsDigit zero n = tt
digits_fuel-IsDigit (suc f) n = elim (Bool-cases (ltb n 10)) [
  | inl e ↦ rw e (ground arith, tt)
  | inr e ↦ rw e (
      All-append_one (digits_fuel f (n / 10)) (b'0' + n % 10) (digits_fuel-IsDigit f (n / 10))
        (omega arith))
]

-- The value of digits behind `acc`.
abbrev value : ℕ → List ℕ → ℕ
value acc [] = acc
value acc (c ∷ cs) = value (acc * 10 + (c - b'0')) cs

value-append_one :
    (acc : ℕ) (xs : List ℕ) (x : ℕ) → value acc (xs ++ (x ∷ [])) ≡ value acc xs * 10 + (x - b'0')
value-append_one acc [] x = refl
value-append_one acc (y ∷ xs) x = value-append_one (acc * 10 + (y - b'0')) xs x

value-digits_fuel : (f n : ℕ) → n < f → value 0 (digits_fuel f n) ≡ n
unfolding digits_fuel
value-digits_fuel zero n h = absurd (omega arith)
value-digits_fuel (suc f) n h = elim (Bool-cases (ltb n 10)) [
  | inl e ↦ rw e (omega arith)
  | inr e ↦
      rw (e, value-append_one 0 (digits_fuel f (n / 10)) (b'0' + n % 10))
        (omega (arith, value-digits_fuel f (n / 10) (ground arith)))
]

-- What follows the digits starts with no digit.
abbrev pub EndsDigits : List ℕ → Type 0
EndsDigits xs = starts_digit xs ≡ false

IsDigit-is_digit : (c : ℕ) → IsDigit c → is_digit c ≡ true
unfolding is_digit
IsDigit-is_digit c h = ground arith

no_digit : (c : ℕ) (rest : List ℕ) → EndsDigits (c ∷ rest) → is_digit c ≡ false
unfolding starts_digit
no_digit c rest e = e

scan_digits-append :
    (acc : ℕ) (xs rest : List ℕ)
    → All IsDigit xs
    → EndsDigits rest
    → scan_digits acc (xs ++ rest) ≡ (value acc xs, rest)
unfolding scan_digits
scan_digits-append acc [] [] h e = refl
scan_digits-append acc [] (c ∷ rest) h e = rw (no_digit c rest e)
scan_digits-append acc (x ∷ xs) rest h e =
    rw (IsDigit-is_digit x h.0) (scan_digits-append (acc * 10 + (x - b'0')) xs rest h.1 e)

strtol10_lem : (s : List ℕ) → strtol10 s ≡ after_spaces s (skip_spaces s)
unfolding strtol10
strtol10_lem s = refl

skip_spaces-digit : (c : ℕ) (cs : List ℕ) → IsDigit c → skip_spaces (c ∷ cs) ≡ c ∷ cs
unfolding skip_spaces is_space
skip_spaces-digit c cs h = ground arith

after_spaces-digit :
    (whole : List ℕ) (c : ℕ) (cs : List ℕ)
    → IsDigit c
    → after_spaces whole (c ∷ cs) ≡ signed_digits whole false (c ∷ cs)
unfolding after_spaces
after_spaces-digit whole c cs h = ground arith

signed_digits-digit :
    (whole : List ℕ) (c : ℕ) (cs rest : List ℕ) (v : ℕ)
    → is_digit c ≡ true
    → scan_digits 0 (c ∷ cs) ≡ (v, rest)
    → signed_digits whole false (c ∷ cs) ≡ record { value = pos (min v (2 ^ 63 - 1)); rest = rest }
unfolding signed_digits starts_digit long_of
signed_digits-digit whole c cs rest v h e = rw (h, e)

-- `strtol` on digits: it skips nothing, finds no sign, and reads them all.
strtol10-digits :
    (c : ℕ) (cs rest : List ℕ)
    → IsDigit c
    → All IsDigit cs
    → EndsDigits rest
    → strtol10 (c ∷ (cs ++ rest))
      ≡ record { value = pos (min (value 0 (c ∷ cs)) (2 ^ 63 - 1)); rest = rest }
strtol10-digits c cs rest hc hcs e =
    strtol10_lem (c ∷ (cs ++ rest))
    ∙ ap (after_spaces (c ∷ (cs ++ rest))) (skip_spaces-digit c (cs ++ rest) hc)
    ∙ after_spaces-digit (c ∷ (cs ++ rest)) c (cs ++ rest) hc
    ∙ signed_digits-digit (c ∷ (cs ++ rest)) c (cs ++ rest) rest (value 0 (c ∷ cs))
        (IsDigit-is_digit c hc) (scan_digits-append 0 (c ∷ cs) rest (hc, hcs) e)

-- Digits that are not empty.
strtol10-nonempty :
    (xs rest : List ℕ)
    → xs ≢ []
    → All IsDigit xs
    → EndsDigits rest
    → strtol10 (xs ++ rest) ≡ record { value = pos (min (value 0 xs) (2 ^ 63 - 1)); rest = rest }
strtol10-nonempty [] rest ne h e = absurd (ne refl)
strtol10-nonempty (c ∷ cs) rest ne h e = strtol10-digits c cs rest h.0 h.1 e

append_one-ne-nil : (xs : List ℕ) (x : ℕ) → (xs ++ (x ∷ [])) ≢ []
append_one-ne-nil [] x e = cc e
append_one-ne-nil (y ∷ xs) x e = cc e

digits_fuel-ne-nil : (f n : ℕ) → digits_fuel (suc f) n ≢ []
unfolding digits_fuel
digits_fuel-ne-nil f n = elim (Bool-cases (ltb n 10)) [
  | inl e ↦ rw e (λ h. cc h)
  | inr e ↦ rw e (append_one-ne-nil (digits_fuel f (n / 10)) (b'0' + n % 10))
]

pub decimal-ne-nil : (n : ℕ) → decimal n ≢ []
unfolding decimal
decimal-ne-nil n = let e : n + 1 ≡ suc n = omega arith in rw e (digits_fuel-ne-nil n n)

pub decimal-IsDigit : (n : ℕ) → All IsDigit (decimal n)
unfolding decimal
decimal-IsDigit n = digits_fuel-IsDigit (n + 1) n

value-decimal : (n : ℕ) → value 0 (decimal n) ≡ n
unfolding decimal
value-decimal n = value-digits_fuel (n + 1) n (omega arith)

-- `strtol` reads a decimal number back, and leaves what follows it.
pub strtol10-decimal :
    (n : ℕ) (rest : List ℕ)
    → n < 2 ^ 63
    → EndsDigits rest
    → strtol10 (decimal n ++ rest) ≡ record { value = pos n; rest = rest }
strtol10-decimal n rest h e =
    strtol10-nonempty (decimal n) rest (decimal-ne-nil n) (decimal-IsDigit n) e
    ∙ ap (λ v. record { value = pos v; rest = rest }) (omega (arith, value-decimal n))

pub strtol10-decimal_only :
    (n : ℕ) → n < 2 ^ 63 → strtol10 (decimal n) ≡ record { value = pos n; rest = [] }
strtol10-decimal_only n h =
    ap strtol10 (sym (append-nil (decimal n)))
    ∙ strtol10-decimal n [] h (unfold starts_digit in refl)

-- The digits of a number above 0 do not start with a zero.
abbrev pub StartsNonzero : List ℕ → Type 0
StartsNonzero xs = (c : ℕ) × (cs : List ℕ) × (xs ≡ c ∷ cs) × (c ≢ b'0')

digits_fuel-StartsNonzero : (f n : ℕ) → n < f → 0 < n → StartsNonzero (digits_fuel f n)
unfolding digits_fuel
digits_fuel-StartsNonzero zero n h p = absurd (omega arith)
digits_fuel-StartsNonzero (suc f) n h p = elim (Bool-cases (ltb n 10)) [
  | inl e ↦ (b'0' + n, [], rw e refl, (λ q. absurd (omega arith)))
  | inr e ↦
      let s = digits_fuel-StartsNonzero f (n / 10) (ground arith) (ground arith) in
      (s.0, s.1 ++ ((b'0' + n % 10) ∷ []), rw e (ap (λ xs. xs ++ ((b'0' + n % 10) ∷ [])) s.2), s.3)
]

pub decimal-StartsNonzero : (n : ℕ) → 0 < n → StartsNonzero (decimal n)
unfolding decimal
decimal-StartsNonzero n p = digits_fuel-StartsNonzero (n + 1) n (omega arith) p

pub scan_digits-decimal : (n : ℕ) → scan_digits 0 (decimal n) ≡ (n, [])
scan_digits-decimal n =
    ap (scan_digits 0) (sym (append-nil (decimal n)))
    ∙ scan_digits-append 0 (decimal n) [] (decimal-IsDigit n) (unfold starts_digit in refl)
    ∙ ap (λ v. (v, [])) (value-decimal n)
