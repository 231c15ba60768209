-- ===== src/Portmap/Parse.antt =====
-- What the parser makes of a port map, and what the lookup then does.
use tcpreplay.Prelude.{
  ℕ, zero, suc, ◌+◌, ◌-◌, ◌^◌, ◌≤◌, ◌<◌, ◌≡◌, ◌≢◌, arith, false, List, [], ◌∷◌, ◌++◌, ltb, leb,
  ◌&&◌, if◌then◌else◌, swap16, u16, pos, ◌∙◌,
}
use tcpreplay.Libc.{strtol10}
use tcpreplay.Libc.Tokens.{contains}
use tcpreplay.Libc.Decimal.{IsDigit, decimal, decimal-ne-nil, strtol10-decimal_only}
use tcpreplay.Libc.Cut.{
  Lacks, decimal-Lacks, Lacks-append, strtok-found, strtok-end, strtok-nil, contains-Lacks,
  contains-found,
}
use tcpreplay.Portmap.{
  Entry, chain, range_chain, checked_range, from_part, both_parts, ports2port, map_port,
  out_of_range,
}

-- The chain of a range maps its ports to the new one, and every other port to itself.
map_port-range_chain :
    (n i port to : ℕ)
    → port < 2 ^ 16
    → i + n ≤ 2 ^ 16
    → map_port (range_chain n i (pos to)) (swap16 port)
      ≡ (if leb i port && ltb port (i + n) then swap16 (u16 to) else swap16 port)
unfolding map_port range_chain
map_port-range_chain zero i port to hp hn = ground arith
map_port-range_chain (suc n) i port to hp hn =
    ground (arith, map_port-range_chain n (i + 1) port to hp)

no_colon-IsDigit : ¬ IsDigit b':'
no_colon-IsDigit h = omega arith

no_minus-IsDigit : ¬ IsDigit b'-'
no_minus-IsDigit h = omega arith

no_plus-IsDigit : ¬ IsDigit b'+'
no_plus-IsDigit h = omega arith

ports2port-parts :
    (from to : List ℕ)
    → from ≢ []
    → to ≢ []
    → Lacks b':' from
    → Lacks b':' to
    → ports2port (from ++ (b':' ∷ to)) ≡ both_parts from to
unfolding ports2port
ports2port-parts from to hf ht lf lt =
    rw (strtok-found b':' from to hf lf, strtok-end b':' to ht lt, strtok-nil b':')

in_range : (n : ℕ) → n ≤ 65535 → out_of_range (pos n) ≡ false
in_range n h = ground arith

reads : (n : ℕ) → n ≤ 65535 → strtol10 (decimal n) ≡ record { value = pos n; rest = [] }
reads n h = strtol10-decimal_only n (omega arith)

both_parts-decimal :
    (from : List ℕ) (t : ℕ)
    → t ≤ 65535
    → (contains b'-' from && contains b'+' from) ≡ false
    → both_parts from (decimal t) ≡ from_part from (pos t)
unfolding both_parts
both_parts-decimal from t ht h = rw (h, reads t ht, in_range t ht)

append_cons-ne-nil : (xs : List ℕ) (c : ℕ) (ys : List ℕ) → xs ++ (c ∷ ys) ≢ []
append_cons-ne-nil [] c ys e = cc e
append_cons-ne-nil (x ∷ xs) c ys e = cc e

-- The text of a range of ports, and that of a single one.
abbrev pub range_text : ℕ → ℕ → List ℕ
range_text a b = decimal a ++ (b'-' ∷ decimal b)

range_text-Lacks : (d a b : ℕ) → ¬ IsDigit d → b'-' ≢ d → Lacks d (range_text a b)
range_text-Lacks d a b h ne =
    Lacks-append d (decimal a) (b'-' ∷ decimal b) (decimal-Lacks d a h) (ne, decimal-Lacks d b h)

from_part-range :
    (a b t : ℕ)
    → a ≤ 65535
    → b ≤ 65535
    → from_part (range_text a b) (pos t) ≡ chain (range_chain (b + 1 - a) a (pos t))
unfolding from_part checked_range
from_part-range a b t ha hb =
    rw
      (
        contains-found b'-' (decimal a) (decimal b),
        strtok-found b'-' (decimal a) (decimal b) (decimal-ne-nil a)
            (decimal-Lacks b'-' a no_minus-IsDigit),
        strtok-end b'-' (decimal b) (decimal-ne-nil b) (decimal-Lacks b'-' b no_minus-IsDigit),
        reads a ha,
        reads b hb,
      )
      (rw (in_range a ha, in_range b hb))

-- `a-b:t` with `a` at most `b` and all ports up to 65535 parses, and the chain maps a port up to
-- 65535 to `t` if it lies from `a` to `b`, and to itself otherwise.
pub ports2port-range :
    (a b t port : ℕ)
    → a ≤ b
    → b ≤ 65535
    → t ≤ 65535
    → port ≤ 65535
    → (es : List Entry) × (ports2port (range_text a b ++ (b':' ∷ decimal t)) ≡ chain es)
      × (map_port es (swap16 port) ≡ swap16 (if leb a port && leb port b then t else port))
ports2port-range a b t port hab hb ht hp = (
  range_chain (b + 1 - a) a (pos t),
  ports2port-parts (range_text a b) (decimal t) (append_cons-ne-nil (decimal a) b'-' (decimal b))
        (decimal-ne-nil t) (range_text-Lacks b':' a b no_colon-IsDigit (λ e. absurd (omega arith)))
        (decimal-Lacks b':' t no_colon-IsDigit)
      ∙ both_parts-decimal (range_text a b) t ht no_plus
      ∙ from_part-range a b t (omega arith) hb,
  map_port-range_chain (b + 1 - a) a port t (omega arith) (omega arith) ∙ ground arith,
)
  where
    no_plus : (contains b'-' (range_text a b) && contains b'+' (range_text a b)) ≡ false
    no_plus = rw (
      contains-found b'-' (decimal a) (decimal b),
      contains-Lacks b'+' (range_text a b)
          (range_text-Lacks b'+' a b no_plus-IsDigit (λ e. absurd (omega arith))),
    )
