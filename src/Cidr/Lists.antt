-- ===== src/Cidr/Lists.antt =====
-- The loop over a list of networks, for any test that decides a property.
use tcpreplay.Prelude.{
  ◌≡◌, ◌↔◌, refl, Bool, true, false, List, [], ◌∷◌, Option, some, All, Any, inl, inr, ◌⊎◌,
}
use tcpreplay.Cidr.{Cidr, any_cidr}

-- The test is defined at this entry, and true exactly where the property holds.
abbrev pub Decides : (Cidr → Option Bool) → (Cidr → Type 0) → Cidr → Type 0
Decides test P c = (b : Bool) × (test c ≡ some b) × ((b ≡ true) ↔ P c)

module _ (test : Cidr → Option Bool) (P W : Cidr → Type 0)
    (decides : (c : Cidr) → W c → Decides test P c) where
  one_more :
      (c : Cidr) (cs : List Cidr) (b : Bool)
      → test c ≡ some b
      → (b ≡ true) ↔ P c
      → (r : Bool) × (any_cidr test cs ≡ some r) × ((r ≡ true) ↔ Any P cs)
      → (r : Bool) × (any_cidr test (c ∷ cs) ≡ some r) × ((r ≡ true) ↔ Any P (c ∷ cs))
  unfolding any_cidr
  one_more c cs true e i rest = (true, rw e, ((λ t. inl (i.0 t)), (λ a. refl)))
  one_more c cs false e i rest = (rest.0, rw e rest.1, ((λ t. inr (rest.2.0 t)), later))
    where
      later : P c ⊎ Any P cs → rest.0 ≡ true
      later (inl p) = cc (i.1 p)
      later (inr a) = rest.2.1 a

  pub any_cidr-decides :
      (cs : List Cidr)
      → All W cs
      → (r : Bool) × (any_cidr test cs ≡ some r) × ((r ≡ true) ↔ Any P cs)
  any_cidr-decides [] h = (false, (unfold any_cidr in refl), ((λ t. cc), (λ a. elim a [ ])))
  any_cidr-decides (c ∷ cs) h =
      let d = decides c h.0 in one_more c cs d.0 d.1 d.2 (any_cidr-decides cs h.1)
