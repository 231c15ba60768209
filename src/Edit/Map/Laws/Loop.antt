-- ===== src/Edit/Map/Laws/Loop.antt =====
-- The loop of `rewrite_ipv4l3` over two maps at once is a lookup in each of them.
use tcpreplay.Prelude.{
  ℕ, ◌≤◌, ◌≡◌, ◌⊎◌, refl, sym, Bool, true, false, List, [], ◌∷◌, Option, some, ◌&&◌, inl, inr,
  subst, ◌∙◌, All,
}
use tcpreplay.Cidr.V4.{InNetwork}
use tcpreplay.Edit.{Tcpedit, CidrMap, Ipv4Hdr, Side, source, destination, addr_at}
use tcpreplay.Edit.Addresses.{Lands}
use tcpreplay.Edit.Sums.{IsSummed, KeepsFields, keeps_twice}
use tcpreplay.Edit.Map.{
  Turn, then_some, try_entry, unless_done, Progress, map_turn, stop_or, map_loop,
}
use tcpreplay.Edit.Map.Laws.{IsEntry, Mapped, Keeps, Tried, try_entry_lem}

-- One turn for one address, done before or not.
abbrev pub Turned : Tcpedit → CidrMap → Bool → ℕ → Bool → ℕ → Type 0
Turned t e did a did' b =
    ((did ≡ true) × (did' ≡ true) × (b ≡ a))
    ⊎ (((did ≡ false) × (did' ≡ true) × InNetwork a e.from × Lands t e.to a b)
        ⊎ ((did ≡ false) × (did' ≡ false) × (¬ InNetwork a e.from) × (b ≡ a)))

-- What all turns together do to one address.
abbrev pub Reached : Tcpedit → List CidrMap → Bool → ℕ → ℕ → Type 0
Reached t es did a b = (did ≡ true → b ≡ a) × (did ≡ false → Mapped t es a b)

module _ (t : Tcpedit) (e : CidrMap) (r : List CidrMap) (did : Bool) (a : ℕ) where
  -- The loop ends after this turn.
  stops :
      (did' : Bool) (b : ℕ)
      → Turned t e did a did' b
      → (did' ≡ true) ⊎ (r ≡ [])
      → Reached t (e ∷ r) did a b
  unfolding Mapped
  stops did' b (inl (x, y, z)) end = ((λ k. z), (λ k. cc (x, k)))
  stops did' b (inr (inl (x, y, i, l))) end = ((λ k. cc (x, k)), (λ k. inl (i, l)))
  stops did' b (inr (inr (x, y, o, z))) (inl d) = cc (y, d)
  stops did' b (inr (inr (x, y, o, z))) (inr n) = ((λ k. cc), (λ k. inr (o, rw n z)))

  -- The loop goes on with the next entries, or with the last one again.
  goes :
      (n : List CidrMap) (did' : Bool) (b c : ℕ)
      → (((r ≡ []) × (n ≡ e ∷ [])) ⊎ (n ≡ r))
      → Turned t e did a did' b
      → Reached t n did' b c
      → Reached t (e ∷ r) did a c
  unfolding Mapped
  goes n did' b c next (inl (x, y, z)) (same, looks) = ((λ k. same y ∙ z), (λ k. cc (x, k)))
  goes n did' b c next (inr (inl (x, y, i, l))) (same, looks) =
      ((λ k. cc (x, k)), (λ k. inl (i, subst (λ u. Lands t e.to a u) (sym (same y)) l)))
  goes n did' b c (inl (empty, again)) (inr (inr (x, y, o, z))) (same, looks) = (
    (λ k. cc (x, k)),
    (λ k.
        subst (λ l. Mapped t (e ∷ l) a c) (sym empty)
          (subst (λ u. Mapped t (e ∷ []) u c) z (subst (λ l. Mapped t l b c) again (looks y)))),
  )
  goes n did' b c (inr next) (inr (inr (x, y, o, z))) (same, looks) = (
    (λ k. cc (x, k)),
    (λ k. inr (o, subst (λ u. Mapped t r u c) z (subst (λ l. Mapped t l b c) next (looks y)))),
  )

both : (d c : Bool) → ((d ≡ true) × (c ≡ true)) ⊎ ((d && c) ≡ false)
both true true = inl (refl, refl)
both true false = inr refl
both false c = inr refl

module _ (t : Tcpedit) (options segment len : ℕ) (long : 20 ≤ len) where
  unless_done_lem :
      (side : Side) (e : CidrMap) (did : Bool) (h : Ipv4Hdr)
      → IsEntry e
      → IsSummed options segment len h
      → (turn : Turn) × (unless_done t len side e did h ≡ some turn)
        × Keeps options segment len side h turn.1
        × Turned t e did (addr_at side h) turn.0 (addr_at side turn.1)
  unless_done_lem side e true h good s = ((true, h), refl, (refl, refl, s), inl (refl, refl, refl))
  unless_done_lem side e false h good s =
      tried (try_entry_lem t options segment len long side e h good s)
    where
      tried :
          (turn : Turn) × (try_entry t len side e h ≡ some turn)
            × Keeps options segment len side h turn.1
            × Tried t side e h turn
          → (turn : Turn) × (try_entry t len side e h ≡ some turn)
            × Keeps options segment len side h turn.1
            × Turned t e false (addr_at side h) turn.0 (addr_at side turn.1)
      tried (turn, q, k, inl (y, i, l)) = (turn, q, k, inr (inl (refl, y, i, l)))
      tried (turn, q, k, inr (n, o, z)) = (turn, q, k, inr (inr (refl, n, o, z)))

  map_turn_lem :
      (e1 e2 : CidrMap) (p : Progress)
      → IsEntry e1
      → IsEntry e2
      → IsSummed options segment len p.header
      → (q : Progress) × (map_turn t len e1 e2 p ≡ some q)
        × KeepsFields p.header q.header
        × IsSummed options segment len q.header
        × Turned t e1 p.didsrc p.header.ip_src q.didsrc q.header.ip_src
        × Turned t e2 p.diddst p.header.ip_dst q.diddst q.header.ip_dst
  unfolding map_turn
  map_turn_lem e1 e2 p good1 good2 s =
      let d = unless_done_lem destination e2 p.diddst p.header good2 s in
      let c = unless_done_lem source e1 p.didsrc d.0.1 good1 d.2.2 in
      (
        record { diddst = d.0.0; didsrc = c.0.0; header = c.0.1 },
        rw d.1 (rw c.1 refl),
        keeps_twice p.header d.0.1 c.0.1 d.2.0 c.2.0,
        c.2.2,
        subst (λ a. Turned t e1 p.didsrc a c.0.0 c.0.1.ip_src) d.2.1 c.3,
        subst (λ b. Turned t e2 p.diddst p.header.ip_dst d.0.0 b) (sym c.2.1) d.3,
      )

  -- What the loop from these entries on does to a header.
  abbrev pub Looped : List CidrMap → List CidrMap → Progress → Option Progress → Type 0
  Looped l1 l2 p w =
      (q : Progress) × (w ≡ some q)
      × KeepsFields p.header q.header
      × IsSummed options segment len q.header
      × Reached t l1 p.didsrc p.header.ip_src q.header.ip_src
      × Reached t l2 p.diddst p.header.ip_dst q.header.ip_dst

  -- A turn, and the loop over the entries that come next.
  turn_and_rest :
      (e1 e2 : CidrMap) (r1 r2 n1 n2 : List CidrMap) (tail : Progress → Option Progress)
      (p : Progress)
      → (((r1 ≡ []) × (n1 ≡ e1 ∷ [])) ⊎ (n1 ≡ r1))
      → (((r2 ≡ []) × (n2 ≡ e2 ∷ [])) ⊎ (n2 ≡ r2))
      → IsEntry e1
      → IsEntry e2
      → IsSummed options segment len p.header
      → ((q : Progress) → IsSummed options segment len q.header → Looped n1 n2 q (tail q))
      → Looped (e1 ∷ r1) (e2 ∷ r2) p (then_some (map_turn t len e1 e2 p) (λ q. stop_or q (tail q)))
  turn_and_rest e1 e2 r1 r2 n1 n2 tail p next1 next2 good1 good2 s ih =
      after (map_turn_lem e1 e2 p good1 good2 s)
    where
      after :
          (q : Progress) × (map_turn t len e1 e2 p ≡ some q)
            × KeepsFields p.header q.header
            × IsSummed options segment len q.header
            × Turned t e1 p.didsrc p.header.ip_src q.didsrc q.header.ip_src
            × Turned t e2 p.diddst p.header.ip_dst q.diddst q.header.ip_dst
          → Looped
              (e1 ∷ r1)
              (e2 ∷ r2)
              p
              (then_some (map_turn t len e1 e2 p) (λ q. stop_or q (tail q)))
      after (q, m, k, s', t1, t2) = elim (both q.diddst q.didsrc) [
        | inl (d, c) ↦ (
          q,
          rw m (rw d (rw c refl)),
          k,
          s',
          stops t e1 r1 p.didsrc p.header.ip_src q.didsrc q.header.ip_src t1 (inl c),
          stops t e2 r2 p.diddst p.header.ip_dst q.diddst q.header.ip_dst t2 (inl d),
        )
        | inr n ↦
            (let rest = ih q s' in
              (
                rest.0,
                rw m (rw n rest.1),
                keeps_twice p.header q.header rest.0.header k rest.2,
                rest.3,
                goes t e1 r1 p.didsrc p.header.ip_src n1 q.didsrc q.header.ip_src
                    rest.0.header.ip_src next1 t1 rest.4,
                goes t e2 r2 p.diddst p.header.ip_dst n2 q.diddst q.header.ip_dst
                    rest.0.header.ip_dst next2 t2 rest.5,
              ))
      ]

  -- Both pointers are on their last entry.
  last_turn :
      (e1 e2 : CidrMap) (p : Progress)
      → IsEntry e1
      → IsEntry e2
      → IsSummed options segment len p.header
      → Looped (e1 ∷ []) (e2 ∷ []) p (map_turn t len e1 e2 p)
  last_turn e1 e2 p good1 good2 s =
      let q = map_turn_lem e1 e2 p good1 good2 s in
      (
        q.0,
        q.1,
        q.2,
        q.3,
        stops t e1 [] p.didsrc p.header.ip_src q.0.didsrc q.0.header.ip_src q.4 (inr refl),
        stops t e2 [] p.diddst p.header.ip_dst q.0.diddst q.0.header.ip_dst q.5 (inr refl),
      )

  pub map_loop_lem :
      (e1 : CidrMap) (r1 : List CidrMap) (e2 : CidrMap) (r2 : List CidrMap) (p : Progress)
      → All IsEntry (e1 ∷ r1)
      → All IsEntry (e2 ∷ r2)
      → IsSummed options segment len p.header
      → Looped (e1 ∷ r1) (e2 ∷ r2) p (map_loop t len e1 r1 e2 r2 p)
  unfolding map_loop
  map_loop_lem e1 [] e2 [] p (good1, goods1) (good2, goods2) s = last_turn e1 e2 p good1 good2 s
  map_loop_lem e1 [] e2 (d2 ∷ r2) p (good1, goods1) (good2, goods2) s =
      turn_and_rest e1 e2 [] (d2 ∷ r2) (e1 ∷ []) (d2 ∷ r2) (λ q. map_loop t len e1 [] d2 r2 q) p
        (inl (refl, refl)) (inr refl) good1 good2 s
        (λ q u. map_loop_lem e1 [] d2 r2 q (good1, goods1) goods2 u)
  map_loop_lem e1 (d1 ∷ r1) e2 [] p (good1, goods1) (good2, goods2) s =
      turn_and_rest e1 e2 (d1 ∷ r1) [] (d1 ∷ r1) (e2 ∷ []) (λ q. map_loop t len d1 r1 e2 [] q) p
        (inr refl) (inl (refl, refl)) good1 good2 s
        (λ q u. map_loop_lem d1 r1 e2 [] q goods1 (good2, goods2) u)
  map_loop_lem e1 (d1 ∷ r1) e2 (d2 ∷ r2) p (good1, goods1) (good2, goods2) s =
      turn_and_rest e1 e2 (d1 ∷ r1) (d2 ∷ r2) (d1 ∷ r1) (d2 ∷ r2)
        (λ q. map_loop t len d1 r1 d2 r2 q) p (inr refl) (inr refl) good1 good2 s
        (λ q u. map_loop_lem d1 r1 d2 r2 q goods1 goods2 u)
