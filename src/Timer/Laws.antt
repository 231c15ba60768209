-- ===== src/Timer/Laws.antt =====
-- Times as whole numbers of nanoseconds or microseconds.
use tcpreplay.Prelude.{
  none, some, ltb, refl, ℕ, ◌+◌, ◌*◌, ◌/◌, ◌%◌, ◌≤◌, ◌<◌, ◌≡◌, ◌⊎◌, arith, ℤ, pos, pos_part,
  neg_part, ltb_ℤ, true, false, ◌+ℤ◌, ◌-ℤ◌, leb, Bool, Bool-cases, inl, inr, ap, ap₂, lt→ltb,
  le→ltb, leb→le, leb→lt, le→leb, lt→leb, ltb→lt, ltb→le, ==_iff, int_laws, -ℤ_parts, eq_of_parts,
  ◌≤ℤ◌, ◌<ℤ◌,
}
use tcpreplay.Timer.{
  Timespec, timeradd_timespec, timessub, timescmp, timeradd_timeval_timespec,
  round_timespec_to_microsec, leb_ℤ, eqb_ℤ,
}

-- The field below a second lies in its range.
abbrev pub IsNormal : Timespec → Type 0
IsNormal t = (pos 0 ≤ℤ t.tv_nsec) × (t.tv_nsec ≤ℤ pos 999_999_999)

abbrev second : ℤ
second = pos 1_000_000_000

module _ (t u : Timespec) (ht : IsNormal t) (hu : IsNormal u) where
  sum_carries :
      leb_ℤ second (t.tv_nsec +ℤ u.tv_nsec) ≡ true
      → ltb_ℤ (t.tv_nsec +ℤ u.tv_nsec -ℤ second -ℤ u.tv_nsec) (pos 0) ≡ true
  sum_carries over = lt→ltb _ _ (omega int_laws)

  sum_stays : ltb_ℤ (t.tv_nsec +ℤ u.tv_nsec -ℤ u.tv_nsec) (pos 0) ≡ false
  sum_stays = le→ltb _ _ (omega int_laws)

  carry_bounds :
      leb_ℤ second (t.tv_nsec +ℤ u.tv_nsec) ≡ true → pos 1_000_000_000 ≤ℤ t.tv_nsec +ℤ u.tv_nsec
  carry_bounds over = leb→le _ _ over

  stay_bounds :
      leb_ℤ second (t.tv_nsec +ℤ u.tv_nsec) ≡ false → t.tv_nsec +ℤ u.tv_nsec ≤ℤ pos 999_999_999
  stay_bounds under = let h = leb→lt _ _ under in omega arith

  -- Adding a time and taking it away again gives back the first time, and the sum keeps its
  -- nanoseconds within a second, for times whose nanoseconds are within a second.
  pub timessub-timeradd_timespec :
      (timessub (timeradd_timespec t u) u ≡ t) × IsNormal (timeradd_timespec t u)
  unfolding timessub timeradd_timespec
  timessub-timeradd_timespec = elim (Bool-cases (leb_ℤ second (t.tv_nsec +ℤ u.tv_nsec))) [
    | inl over ↦
        let c = carry_bounds over in
        rw over (
          rw (sum_carries over)
              (ap₂ (λ s n. record { tv_sec = s; tv_nsec = n }) (omega int_laws) (omega int_laws)),
          (omega int_laws, omega int_laws),
        )
    | inr under ↦
        let c = stay_bounds under in
        rw under (
          rw sum_stays
              (ap₂ (λ s n. record { tv_sec = s; tv_nsec = n }) (omega int_laws) (omega int_laws)),
          (omega int_laws, omega int_laws),
        )
  ]

-- The comparison `>` of the macros.
abbrev pub gtb_ℤ : ℤ → ℤ → Bool
gtb_ℤ a b = ltb_ℤ b a

-- A nap that can be slept: normal, and more than nothing.
abbrev pub IsPositive : Timespec → Type 0
IsPositive d = (pos 0 ≤ℤ d.tv_sec) × ((pos 0 <ℤ d.tv_sec) ⊎ (pos 0 <ℤ d.tv_nsec))

module _ (t u : Timespec) (ht : IsNormal t) (hu : IsNormal u) where
  later_parts :
      timescmp gtb_ℤ t u ≡ true
      → (u.tv_sec <ℤ t.tv_sec) ⊎ ((t.tv_sec ≡ u.tv_sec) × (u.tv_nsec <ℤ t.tv_nsec))
  unfolding timescmp
  later_parts h = elim (Bool-cases (eqb_ℤ t.tv_sec u.tv_sec)) [
    | inl e ↦ inr (eq_of_parts t.tv_sec u.tv_sec ((==_iff _ _).0 e), ltb→lt _ _ (rw e at h))
    | inr e ↦ inl (ltb→lt _ _ (rw e at h))
  ]

  -- The two results of `timessub`, by whether it borrows.
  borrowed :
      ltb_ℤ (t.tv_nsec -ℤ u.tv_nsec) (pos 0) ≡ true
      → timessub t u ≡ record {
        tv_sec = t.tv_sec -ℤ u.tv_sec -ℤ pos 1;
        tv_nsec = t.tv_nsec -ℤ u.tv_nsec +ℤ second;
      }
  borrowed h = unfold timessub in rw h

  kept :
      ltb_ℤ (t.tv_nsec -ℤ u.tv_nsec) (pos 0) ≡ false
      → timessub t u ≡ record { tv_sec = t.tv_sec -ℤ u.tv_sec; tv_nsec = t.tv_nsec -ℤ u.tv_nsec }
  kept h = unfold timessub in rw h

  positive :
      (u.tv_sec <ℤ t.tv_sec) ⊎ ((t.tv_sec ≡ u.tv_sec) × (u.tv_nsec <ℤ t.tv_nsec))
      → IsNormal (timessub t u) × IsPositive (timessub t u)
  positive (inl h) = elim (Bool-cases (ltb_ℤ (t.tv_nsec -ℤ u.tv_nsec) (pos 0))) [
    | inl b ↦
        let l = ltb→lt _ _ b in
        rw (borrowed b) ((omega int_laws, omega int_laws), (omega int_laws, inr (omega int_laws)))
    | inr b ↦
        let l = ltb→le _ _ b in
        rw (kept b) ((omega int_laws, omega int_laws), (omega int_laws, inl (omega int_laws)))
  ]
  positive (inr (e, h)) =
      let b : ltb_ℤ (t.tv_nsec -ℤ u.tv_nsec) (pos 0) ≡ false = le→ltb _ _ (omega int_laws) in
      rw (kept b) (
        (omega int_laws, omega int_laws),
        (
          omega (arith, -ℤ_parts t.tv_sec u.tv_sec, ap pos_part e, ap neg_part e),
          inr (omega int_laws),
        ),
      )

  add_back_borrowed :
      ltb_ℤ (t.tv_nsec -ℤ u.tv_nsec) (pos 0) ≡ true → timeradd_timespec u (timessub t u) ≡ t
  add_back_borrowed b =
      let l = ltb→lt _ _ b in
      let over : leb_ℤ second (u.tv_nsec +ℤ (t.tv_nsec -ℤ u.tv_nsec +ℤ second)) ≡ true =
        le→leb _ _ (omega int_laws) in
      rw (borrowed b) (
        unfold timeradd_timespec in
        rw over (ap₂ (λ s n. record { tv_sec = s; tv_nsec = n }) (omega int_laws) (omega int_laws)))

  add_back_kept :
      ltb_ℤ (t.tv_nsec -ℤ u.tv_nsec) (pos 0) ≡ false → timeradd_timespec u (timessub t u) ≡ t
  add_back_kept b =
      let l = ltb→le _ _ b in
      let under : leb_ℤ second (u.tv_nsec +ℤ (t.tv_nsec -ℤ u.tv_nsec)) ≡ false =
        lt→leb _ _ (omega int_laws) in
      rw (kept b) (
        unfold timeradd_timespec in
        rw under
          (ap₂ (λ s n. record { tv_sec = s; tv_nsec = n }) (omega int_laws) (omega int_laws)))

  -- Where `timescmp` finds `t` later than `u`, both with nanoseconds within a second, `timessub`
  -- gives the time between them: more than nothing, with nanoseconds within a second, and added to
  -- `u` it gives `t`.
  pub timessub_later :
      timescmp gtb_ℤ t u ≡ true
      → IsNormal (timessub t u)
        × IsPositive (timessub t u)
        × (timeradd_timespec u (timessub t u) ≡ t)
  timessub_later h = let p = positive (later_parts h) in (p.0, p.1, back)
    where
      back : timeradd_timespec u (timessub t u) ≡ t
      back = elim (Bool-cases (ltb_ℤ (t.tv_nsec -ℤ u.tv_nsec) (pos 0))) [
        | inl b ↦ add_back_borrowed b
        | inr b ↦ add_back_kept b
      ]

-- Rounding a time that is not negative to microseconds gives whole microseconds, at most half a
-- microsecond away. The nanoseconds may become a full second.
pub round_timespec_lem :
    (s : ℤ) (n : ℕ)
    → n < 1_000_000_000
    → (m : ℕ) × (round_timespec_to_microsec (record { tv_sec = s; tv_nsec = pos n })
        ≡ record { tv_sec = s; tv_nsec = pos (1000 * m) })
      × (1000 * m ≤ n + 500)
      × (n ≤ 1000 * m + 499)
      × (1000 * m ≤ 1_000_000_000)
unfolding round_timespec_to_microsec ◌+ℤ◌
round_timespec_lem s n h = elim (Bool-cases (leb 500 (n % 1000))) [
  | inl up ↦ (n / 1000 + 1, ground arith, ground arith, ground arith, omega arith)
  | inr down ↦ (n / 1000, ground arith, ground arith, ground arith, omega arith)
]

-- `timeradd_timeval_timespec` on a sum of at least a second, of a normal time and of less than a
-- second of microseconds: the product of the code overflows an `int` from 3 nanoseconds over the
-- second on, and the nanoseconds come out right only at 1 nanosecond over it.
pub timeradd_timeval_timespec_wrong :
    (s v : ℤ) (n m : ℕ)
    → n < 1_000_000_000
    → m < 1_000_000
    → 1_000_000_000 ≤ n + 1000 * m
    → let r =
        timeradd_timeval_timespec
          (record { tv_sec = s; tv_nsec = pos n })
          (record { tv_sec = v; tv_usec = pos m }) in
      ((r ≡ none) × (1_000_000_003 ≤ n + 1000 * m))
      ⊎ ((q : Timespec) × (r ≡ some q)
          × (n + 1000 * m < 1_000_000_003)
          × (IsNormal q → n + 1000 * m ≡ 1_000_000_001))
unfolding timeradd_timeval_timespec ◌+ℤ◌ ◌-ℤ◌
timeradd_timeval_timespec_wrong s v n m hn hm over =
    let sum : pos n +ℤ pos (1000 * m) ≡ pos (n + 1000 * m) = ground arith in
    let ge : leb_ℤ (pos 1_000_000_000) (pos (n + 1000 * m)) ≡ true = ground arith in
    elim (Bool-cases (ltb (n + 1000 * m) 1_000_000_003)) [
      | inl few ↦
          (let fits : ltb_ℤ (pos (1_000_000_000 * ((n + 1000 * m) % 1_000_000_000)))
                  (pos 2_147_483_648)
                ≡ true =
              ground arith in
            rw (sum, ge, fits) (inr (_, refl, ground arith, λ normal. ground arith)))
      | inr many ↦
          (let over : ltb_ℤ (pos (1_000_000_000 * ((n + 1000 * m) % 1_000_000_000)))
                  (pos 2_147_483_648)
                ≡ false =
              ground arith in
            rw (sum, ge, over) (inl (refl, ground arith)))
    ]
