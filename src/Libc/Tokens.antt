-- ===== src/Libc/Tokens.antt =====
-- `strtok_r` with one delimiter, and `strchr`.
use tcpreplay.Prelude.{
  ℕ, Bool, true, false, ◌≡◌, refl, ap, sym, ◌∙◌, Bool-cases, inl, inr, List, [], ◌∷◌, ◌||◌, ◌==◌,
  Option, none, some, if◌then◌else◌,
}

unfoldable pub skip_delims : ℕ → List ℕ → List ℕ
skip_delims d [] = []
skip_delims d (c ∷ cs) = if c == d then skip_delims d cs else c ∷ cs

-- The bytes up to the next delimiter, and those behind it.
unfoldable pub cut_token : ℕ → List ℕ → List ℕ × List ℕ
cut_token d [] = ([], [])
cut_token d (c ∷ cs) = if c == d then ([], cs) else (c ∷ (cut_token d cs).0, (cut_token d cs).1)

-- A token and what `*saveptr` is left at; `none` is NULL.
unfoldable pub next_token : ℕ → List ℕ → Option (List ℕ × List ℕ)
unfolding cut_token
next_token d [] = none
next_token d (c ∷ cs) = some (cut_token d (c ∷ cs))

unfoldable pub strtok : ℕ → List ℕ → Option (List ℕ × List ℕ)
unfolding skip_delims next_token
strtok d s = next_token d (skip_delims d s)

-- `strchr(s, d) != NULL`
unfoldable pub contains : ℕ → List ℕ → Bool
contains d [] = false
contains d (c ∷ cs) = c == d || contains d cs

begins_token : ℕ → List ℕ → Bool
begins_token d [] = false
begins_token d (c ∷ cs) = if c == d then false else true

push_byte : ℕ → Bool → List (List ℕ) → List (List ℕ)
push_byte c true (t ∷ ts) = (c ∷ t) ∷ ts
push_byte c true [] = (c ∷ []) ∷ []
push_byte c false ts = (c ∷ []) ∷ ts

-- All the tokens that a loop over `strtok_r` meets, by recursion on the text.
unfoldable pub tokens : ℕ → List ℕ → List (List ℕ)
unfolding begins_token push_byte
tokens d [] = []
tokens d (c ∷ cs) = if c == d then tokens d cs else push_byte c (begins_token d cs) (tokens d cs)

tokens-skip_delims : (d : ℕ) (s : List ℕ) → tokens d (skip_delims d s) ≡ tokens d s
unfolding skip_delims tokens
tokens-skip_delims d [] = refl
tokens-skip_delims d (c ∷ cs) = elim (Bool-cases (c == d)) [
  | inl e ↦ rw e (tokens-skip_delims d cs)
  | inr e ↦ rw e (rw e)
]

tokens-cut_token :
    (d c : ℕ) (cs : List ℕ)
    → (c == d) ≡ false
    → tokens d (c ∷ cs) ≡ (cut_token d (c ∷ cs)).0 ∷ tokens d (cut_token d (c ∷ cs)).1
unfolding cut_token tokens
tokens-cut_token d c [] e = rw e
tokens-cut_token d c (b ∷ cs) e = elim (Bool-cases (b == d)) [
  | inl stop ↦ rw (e, stop)
  | inr more ↦ rw (e, more) (ap (push_byte c true) (rw more at (tokens-cut_token d b cs more)))
]

-- What the loop `while ((t = strtok_r(s, d, &s)) != NULL)` sees.
abbrev pub token_loop : ℕ → Option (List ℕ × List ℕ) → List (List ℕ)
token_loop d none = []
token_loop d (some (t, rest)) = t ∷ tokens d rest

skip_delims-head :
    (d : ℕ) (s : List ℕ)
    → tokens d (skip_delims d s) ≡ token_loop d (next_token d (skip_delims d s))
unfolding skip_delims
skip_delims-head d [] = unfold tokens next_token in refl
skip_delims-head d (c ∷ cs) = elim (Bool-cases (c == d)) [
  | inl e ↦ rw e (skip_delims-head d cs)
  | inr e ↦ rw e (unfold next_token in tokens-cut_token d c cs e)
]

-- `tokens` is that loop: the first token of `strtok_r`, and the tokens of what it leaves.
pub tokens-strtok : (d : ℕ) (s : List ℕ) → tokens d s ≡ token_loop d (strtok d s)
tokens-strtok d s = sym (tokens-skip_delims d s) ∙ (unfold strtok in skip_delims-head d s)
