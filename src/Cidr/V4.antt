-- ===== src/Cidr/V4.antt =====
-- `ip_in_cidr` compares the leading bits.
use native.Mathlib.Nat.{one-le-pow}
use tcpreplay.Prelude.{
  ℕ, ◌-◌, ◌*◌, ◌/◌, ◌^◌, ◌≤◌, ◌<◌, ◌≡◌, ◌↔◌, refl, arith, Bool, true, false, List, ◌∷◌, some,
  swap32, pos, ◌==◌, if◌then◌else◌, le→leb, ◌∙◌, ap, ◌&&◌, Bool-cases, inl, inr, ==_iff, ◌⊎◌, subst,
  sym, All, Any, pos_part,
}
use tcpreplay.Cidr.Lists.{any_cidr-decides}
use tcpreplay.Cidr.{Cidr, af_inet, af_inet6, ip_in_cidr, check_ip_cidr, keep_high}

-- The addresses in host byte order agree in their `m` leading bits of 32.
abbrev pub SamePrefix : ℕ → ℕ → ℕ → Type 0
SamePrefix m a b = swap32 a / 2 ^ (32 - m) ≡ swap32 b / 2 ^ (32 - m)

mul-lt : (a b p : ℕ) → a < b → 0 < p → a * p < b * p
mul-lt a b p h hp = grind arith

pub keep_high-eq : (x y s : ℕ) → (keep_high x s == keep_high y s) ≡ (x / 2 ^ s == y / 2 ^ s)
keep_high-eq x y s = elim (Bool-cases (x / 2 ^ s == y / 2 ^ s)) [
  | inl e ↦ ground (arith, ap (λ n. n * 2 ^ s) ((==_iff (x / 2 ^ s) (y / 2 ^ s)).0 e))
  | inr e ↦ ground (
    arith,
    mul-lt (x / 2 ^ s) (y / 2 ^ s) (2 ^ s),
    mul-lt (y / 2 ^ s) (x / 2 ^ s) (2 ^ s),
    one-le-pow s 2,
  )
]

no_bits : (a b m : ℕ) → m ≡ 0 → a < 2 ^ 32 → b < 2 ^ 32 → a / 2 ^ (32 - m) ≡ b / 2 ^ (32 - m)
no_bits a b m e ha hb = let all : 32 - m ≡ 32 = omega arith in rw all (omega arith)

module _ (c : Cidr) (m ip : ℕ) (hf : c.family ≡ af_inet) (hm : c.masklen ≡ pos m) (h : m ≤ 32) where
  defined : ip_in_cidr c ip ≡ (
      if m == 0 && c.network == 0
      then some true
      else some (keep_high (swap32 c.network) (32 - m) == keep_high (swap32 ip) (32 - m)))
  unfolding ip_in_cidr
  defined = rw (hf, hm, le→leb m 32 h)

  -- A mask length from 0 to 32 makes the test defined on an IPv4 network, and it is true exactly
  -- when the address has the network's leading bits.
  pub ip_in_cidr_iff :
      (b : Bool) × (ip_in_cidr c ip ≡ some b) × ((b ≡ true) ↔ SamePrefix m c.network ip)
  ip_in_cidr_iff = elim (Bool-cases (m == 0 && c.network == 0)) [
    | inl e ↦ (
      true,
      rw (defined, e),
      (
        (λ t. no_bits (swap32 c.network) (swap32 ip) m (ground arith) (omega arith) (omega arith)),
        (λ t. refl),
      ),
    )
    | inr e ↦ (
      keep_high (swap32 c.network) (32 - m) == keep_high (swap32 ip) (32 - m),
      rw (defined, e),
      rw (keep_high-eq (swap32 c.network) (swap32 ip) (32 - m)) (==_iff _ _),
    )
  ]

-- What the parser makes of an IPv4 network and of an IPv6 network.
abbrev pub IsWellFormed : Cidr → Type 0
IsWellFormed c =
    (m : ℕ) × (c.masklen ≡ pos m)
    × (((c.family ≡ af_inet) × (m ≤ 32)) ⊎ ((c.family ≡ af_inet6) × (m ≤ 128)))

-- The address lies in the network.
abbrev pub InNetwork : ℕ → Cidr → Type 0
InNetwork ip c = (m : ℕ) × (c.family ≡ af_inet) × (c.masklen ≡ pos m) × SamePrefix m c.network ip

pub pos-injective : {a b : ℕ} → pos a ≡ pos b → a ≡ b
pos-injective e = ap pos_part e

pub ip_in_cidr-decides :
    (ip : ℕ) (c : Cidr)
    → IsWellFormed c
    → (b : Bool) × (ip_in_cidr c ip ≡ some b) × ((b ≡ true) ↔ InNetwork ip c)
ip_in_cidr-decides ip c (m, hm, inl (hf, h)) =
    let d = ip_in_cidr_iff c m ip hf hm h in
    (
      d.0,
      d.1,
      (
        (λ t. (m, hf, hm, d.2.0 t)),
        (λ n. d.2.1 (subst (λ k. SamePrefix k c.network ip) (pos-injective (sym n.2 ∙ hm)) n.3)),
      ),
    )
ip_in_cidr-decides ip c (m, hm, inr (hf, h)) =
    (false, (unfold ip_in_cidr in rw hf), ((λ t. cc), (λ n. cc (n.1, hf))))

-- With a list of well-formed entries that is not empty, `check_ip_cidr` is defined, and true exactly
-- when the address lies in one of the IPv4 networks of the list.
pub check_ip_cidr_iff :
    (ip : ℕ) (c : Cidr) (cs : List Cidr)
    → All IsWellFormed (c ∷ cs)
    → (b : Bool) × (check_ip_cidr (c ∷ cs) ip ≡ some b) × ((b ≡ true) ↔ Any (InNetwork ip) (c ∷ cs))
unfolding check_ip_cidr
check_ip_cidr_iff ip c cs h =
    any_cidr-decides (λ d. ip_in_cidr d ip) (InNetwork ip) IsWellFormed (ip_in_cidr-decides ip)
      (c ∷ cs) h
