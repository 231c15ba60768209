-- ===== src/Flows/Chains.antt =====
-- The chains of the table: what is found in them, before and after a time is set.
use tcpreplay.Prelude.{
  ℕ, ◌≡◌, ◌↔◌, refl, Bool, true, false, List, [], ◌∷◌, Option, none, some, ◌==◌, ◌&&◌, Bool-cases,
  inl, inr, ==_iff,
}
use tcpreplay.Timer.{Timeval}
use tcpreplay.Flows.{same_data, FlowEntry, is_flow, find, touch}

and_parts : (a b : Bool) → (a && b) ≡ true → (a ≡ true) × (b ≡ true)
and_parts true b h = (refl, h)
and_parts false b h = cc h

head_eq : {c d : ℕ} {cs ds : List ℕ} → c ∷ cs ≡ d ∷ ds → c ≡ d
head_eq e = cc e

tail_eq : {c d : ℕ} {cs ds : List ℕ} → c ∷ cs ≡ d ∷ ds → cs ≡ ds
tail_eq e = cc e

both_eq : {c d : ℕ} {cs ds : List ℕ} → c ≡ d → cs ≡ ds → c ∷ cs ≡ d ∷ ds
both_eq p q = cc (p, q)

pub same_data_iff : (cs ds : List ℕ) → (same_data cs ds ≡ true) ↔ (cs ≡ ds)
unfolding same_data
same_data_iff [] [] = ((λ t. refl), (λ e. refl))
same_data_iff [] (d ∷ ds) = ((λ t. cc), (λ e. cc))
same_data_iff (c ∷ cs) [] = ((λ t. cc), (λ e. cc))
same_data_iff (c ∷ cs) (d ∷ ds) = (
  (λ t.
      let p = and_parts (c == d) (same_data cs ds) t in
      both_eq ((==_iff c d).0 p.0) ((same_data_iff cs ds).0 p.1)),
  (λ e. rw ((==_iff c d).1 (head_eq e), (same_data_iff cs ds).1 (tail_eq e)) refl),
)

abbrev pub time_of : Option FlowEntry → Option Timeval
time_of none = none
time_of (some he) = some he.ts_last_seen

-- Two flows that an entry belongs to are one.
pub one_flow :
    (he : FlowEntry) (key other : ℕ) (flow flow' : List ℕ)
    → is_flow key flow he ≡ true
    → is_flow other flow' he ≡ true
    → (other ≡ key) × (flow' ≡ flow)
one_flow he key other flow flow' h h' =
    let p = and_parts (he.key == key) (same_data he.data_bytes flow) h in
    let q = and_parts (he.key == other) (same_data he.data_bytes flow') h' in
    (
      cc ((==_iff he.key key).0 p.0, (==_iff he.key other).0 q.0),
      cc ((same_data_iff he.data_bytes flow).0 p.1, (same_data_iff he.data_bytes flow').0 q.1),
    )

pub find-touch :
    (key : ℕ) (flow : List ℕ) (tv : Timeval) (he : FlowEntry) (chain : List FlowEntry)
    → find key flow chain ≡ some he
    → time_of (find key flow (touch key flow tv chain)) ≡ some tv
unfolding find touch
find-touch key flow tv he [] h = cc h
find-touch key flow tv he (e ∷ es) h = elim (Bool-cases (is_flow key flow e)) [
  | inl t ↦ rw t (rw t refl)
  | inr t ↦ rw t (rw t (find-touch key flow tv he es (rw t at h)))
]

pub find-touch_other :
    (key other : ℕ) (flow flow' : List ℕ) (tv : Timeval) (chain : List FlowEntry)
    → ¬ ((other ≡ key) × (flow' ≡ flow))
    → time_of (find other flow' (touch key flow tv chain)) ≡ time_of (find other flow' chain)
unfolding find touch
find-touch_other key other flow flow' tv [] ne = refl
find-touch_other key other flow flow' tv (e ∷ es) ne = elim (Bool-cases (is_flow key flow e)) [
  | inl t ↦ elim (Bool-cases (is_flow other flow' e)) [
    | inl u ↦ absurd (ne (one_flow e key other flow flow' t u))
    | inr u ↦ rw t (rw u refl)
  ]
  | inr t ↦ elim (Bool-cases (is_flow other flow' e)) [
    | inl u ↦ rw t (rw u refl)
    | inr u ↦ rw t (rw u (find-touch_other key other flow flow' tv es ne))
  ]
]
