-- ===== src/Packet/Laws.antt =====
-- Rules for showing that a walk over a packet ends, and reads only inside it.
use tcpreplay.Prelude.{
  set, ◌≢◌, IsBytes, ◌^◌, ℕ, zero, suc, ◌+◌, ◌*◌, ◌≤◌, ◌<◌, ◌≡◌, refl, arith, Bool, true, false,
  List, [], ◌∷◌, length, ltb, if◌then◌else◌, Bool-cases, inl, inr, ltb→le, ap, ◌∙◌,
}
use tcpreplay.Packet.{Walk, value, then_with, byte_of, be16_at, be32_at}

pub byte_of_lem :
    (packet : List ℕ) (i : ℕ) → i < length packet → (b : ℕ) × (byte_of packet i ≡ value b)
unfolding byte_of
byte_of_lem [] i h = absurd (omega arith)
byte_of_lem (b ∷ bs) zero h = (b, refl)
byte_of_lem (b ∷ bs) (suc i) h = byte_of_lem bs i (omega arith)

pub byte_of-set_ne : (xs : List ℕ) (i j v : ℕ) → i ≢ j → byte_of (set xs i v) j ≡ byte_of xs j
unfolding byte_of
byte_of-set_ne [] i j v ne = refl
byte_of-set_ne (x ∷ xs) zero zero v ne = absurd (ne refl)
byte_of-set_ne (x ∷ xs) zero (suc j) v ne = refl
byte_of-set_ne (x ∷ xs) (suc i) zero v ne = refl
byte_of-set_ne (x ∷ xs) (suc i) (suc j) v ne = byte_of-set_ne xs i j v (λ e. ne (ap suc e))

-- The walk ends in a result for which `P` holds.
abbrev pub Ends {ℓ} : {A : Type ℓ} → (A → Type 0) → Walk A → Type ℓ
Ends {A} P w = (a : A) × (w ≡ value a) × P a

pub ends_then {ℓ κ} :
    {A : Type ℓ} {B : Type κ} (P : B → Type 0) (w : Walk A) (k : A → Walk B) (b : A)
    → w ≡ value b
    → Ends P (k b)
    → Ends P (then_with w k)
ends_then P w k b e (a, q, p) = (a, ap (λ v. then_with v k) e ∙ q, p)

-- The next step, where the first ends in a result for which `Q` holds.
pub ends_bind {ℓ κ} :
    {A : Type ℓ} {B : Type κ} (Q : A → Type 0) (P : B → Type 0) (w : Walk A) (k : A → Walk B)
    → Ends Q w
    → ((a : A) → Q a → Ends P (k a))
    → Ends P (then_with w k)
ends_bind Q P w k (a, e, q) next = ends_then P w k a e (next a q)

-- A test whether so many bytes are there.
pub ends_room {ℓ} :
    {A : Type ℓ} (P : A → Type 0) (n need : ℕ) (short enough : Walk A)
    → Ends P short
    → (need ≤ n → Ends P enough)
    → Ends P (if ltb n need then short else enough)
ends_room P n need short enough s e = elim (Bool-cases (ltb n need)) [
  | inl t ↦ rw t s
  | inr t ↦ rw t (e (ltb→le n need t))
]

pub ends_if {ℓ} :
    {A : Type ℓ} (P : A → Type 0) (b : Bool) (x y : Walk A)
    → (b ≡ true → Ends P x)
    → (b ≡ false → Ends P y)
    → Ends P (if b then x else y)
ends_if P true x y p q = p refl
ends_if P false x y p q = q refl

abbrev pub AnyNumber : ℕ → Type 0
AnyNumber n = Unit {0}

pub ends_byte : (packet : List ℕ) (i : ℕ) → i < length packet → Ends AnyNumber (byte_of packet i)
ends_byte packet i h = let b = byte_of_lem packet i h in (b.0, b.1, tt)

pub ends_be16 :
    (packet : List ℕ) (i : ℕ) → i + 2 ≤ length packet → Ends AnyNumber (be16_at packet i)
unfolding be16_at
ends_be16 packet i h = ends_bind AnyNumber AnyNumber _ _ (ends_byte packet i (omega arith)) (λ a q.
    ends_bind AnyNumber AnyNumber _ _ (ends_byte packet (i + 1) (omega arith))
      (λ b r. (a * 256 + b, refl, tt)))

pub ends_be32 :
    (packet : List ℕ) (i : ℕ) → i + 4 ≤ length packet → Ends AnyNumber (be32_at packet i)
unfolding be32_at
ends_be32 packet i h = ends_bind AnyNumber AnyNumber _ _ (ends_be16 packet i (omega arith)) (λ a q.
    ends_bind AnyNumber AnyNumber _ _ (ends_be16 packet (i + 2) (omega arith))
      (λ b r. (a * 65536 + b, refl, tt)))

-- Bytes of a packet are below 256, and numbers of four of them below 2 ^ 32.
pub ends_byte_below :
    (packet : List ℕ) (i : ℕ)
    → IsBytes packet
    → i < length packet
    → Ends (λ x. x < 256) (byte_of packet i)
unfolding byte_of
ends_byte_below [] i b h = absurd (omega arith)
ends_byte_below (x ∷ xs) zero b h = (x, refl, b.0)
ends_byte_below (x ∷ xs) (suc i) b h = ends_byte_below xs i b.1 (omega arith)

pub ends_be32_below :
    (packet : List ℕ) (i : ℕ)
    → IsBytes packet
    → i + 4 ≤ length packet
    → Ends (λ v. v < 2 ^ 32) (be32_at packet i)
unfolding be32_at be16_at
ends_be32_below packet i b h =
    let a = ends_byte_below packet i b (omega arith) in
    let c = ends_byte_below packet (i + 1) b (omega arith) in
    let d = ends_byte_below packet (i + 2) b (omega arith) in
    let e = ends_byte_below packet (i + 2 + 1) b (omega arith) in
    ((a.0 * 256 + c.0) * 65536 + (d.0 * 256 + e.0), rw (a.1, c.1, d.1, e.1) refl, omega arith)
