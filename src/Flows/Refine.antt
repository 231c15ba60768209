-- ===== src/Flows/Refine.antt =====
-- The table as a map from flows to the time when they were last seen.
use tcpreplay.Prelude.{
  ℕ, ◌≡◌, refl, arith, true, List, ◌∷◌, Option, none, some, ◌==◌, if◌then◌else◌, Bool-cases, inl,
  inr, pos, ◌+ℤ◌, ltb_ℤ, ap, ==_iff,
}
use tcpreplay.Timer.{Timeval}
use tcpreplay.Flows.{
  FlowEntry, FlowTable, FlowType, flow_new, flow_existing, flow_expired, is_flow, find, bucket_of,
  put_bucket, never, hash_add_entry, put_found, hash_put_data,
}
use tcpreplay.Flows.Chains.{same_data_iff, one_flow, time_of, find-touch, find-touch_other}

-- When the flow was last seen, if it is on record.
abbrev pub seen : FlowTable → ℕ → List ℕ → Option Timeval
seen fht key flow = time_of (find key flow (fht.buckets (bucket_of fht key)))

-- What the map answers, and the time that it keeps.
abbrev pub verdict : ℕ → Timeval → Option Timeval → FlowType
verdict expiry tv none = flow_new
verdict expiry tv (some t) =
    if expiry == 0
    then flow_existing
    else if ltb_ℤ (pos expiry +ℤ t.tv_sec) tv.tv_sec
    then flow_expired
    else flow_existing

abbrev pub remembered : ℕ → Timeval → Option Timeval → Timeval
remembered expiry tv none = if expiry == 0 then never else tv
remembered expiry tv (some t) = if expiry == 0 then t else tv

eq_self : (n : ℕ) → (n == n) ≡ true
eq_self n = ground arith

module _ (fht : FlowTable) (key : ℕ) (flow : List ℕ) (tv : Timeval) (expiry : ℕ) where
  new_first :
      (ts : Timeval) (es : List FlowEntry)
      → find key flow (record { key = key; data_bytes = flow; ts_last_seen = ts } ∷ es)
        ≡ some (record { key = key; data_bytes = flow; ts_last_seen = ts })
  unfolding find
  new_first ts es = rw (eq_self key, (same_data_iff flow flow).1 refl) refl

  put_found_lem :
      (o : Option FlowEntry)
      → find key flow (fht.buckets (bucket_of fht key)) ≡ o
      → ((put_found fht key flow tv expiry o).0 ≡ verdict expiry tv (time_of o))
        × (seen (put_found fht key flow tv expiry o).1 key flow
            ≡ some (remembered expiry tv (time_of o)))
  put_found_lem none h = (
    refl,
    (unfold hash_add_entry in rw (eq_self (bucket_of fht key)) (ap time_of (new_first _ _))),
  )
  put_found_lem (some he) h = elim (Bool-cases (expiry == 0)) [
    | inl z ↦ rw z (refl, ap time_of h)
    | inr p ↦ rw p (
      refl,
      (rw (eq_self (bucket_of fht key))
          (find-touch key flow tv he (fht.buckets (bucket_of fht key)) h)),
    )
  ]

  -- In a bucket where one chain is put, a flow that the chain treats as before is as before.
  elsewhere :
      (other : ℕ) (flow' : List ℕ) (hv : ℕ) (es : List FlowEntry)
      → time_of (find other flow' es) ≡ time_of (find other flow' (fht.buckets hv))
      → seen (put_bucket fht hv es) other flow' ≡ seen fht other flow'
  elsewhere other flow' hv es h = elim (Bool-cases (bucket_of fht other == hv)) [
    | inl e ↦ rw e (rw ((==_iff (bucket_of fht other) hv).0 e) h)
    | inr e ↦ rw e refl
  ]

  not_first :
      (other : ℕ) (flow' : List ℕ) (ts : Timeval) (es : List FlowEntry)
      → ¬ ((other ≡ key) × (flow' ≡ flow))
      → time_of (find other flow' (record { key = key; data_bytes = flow; ts_last_seen = ts } ∷ es))
        ≡ time_of (find other flow' es)
  unfolding find
  not_first other flow' ts es ne =
      elim (Bool-cases
        (is_flow other flow' (record { key = key; data_bytes = flow; ts_last_seen = ts }))) [
          | inl t ↦ absurd (
              ne (
                one_flow (record { key = key; data_bytes = flow; ts_last_seen = ts }) key other flow
                  flow' (rw (eq_self key, (same_data_iff flow flow).1 refl) refl) t))
          | inr t ↦ rw t refl
        ]

  other_found :
      (other : ℕ) (flow' : List ℕ) (o : Option FlowEntry)
      → ¬ ((other ≡ key) × (flow' ≡ flow))
      → seen (put_found fht key flow tv expiry o).1 other flow' ≡ seen fht other flow'
  other_found other flow' none ne =
      unfold hash_add_entry in
      elsewhere other flow' (bucket_of fht key) _
        (not_first other flow' _ (fht.buckets (bucket_of fht key)) ne)
  other_found other flow' (some he) ne = elim (Bool-cases (expiry == 0)) [
    | inl z ↦ rw z refl
    | inr p ↦ rw p (
        elsewhere other flow' (bucket_of fht key) _
          (find-touch_other key other flow flow' tv (fht.buckets (bucket_of fht key)) ne))
  ]

  -- The table is a map from flows to times: `hash_put_data` answers by the time on record, new where
  -- there is none, expired where an expiry is set and more than that many seconds have gone by, and
  -- else existing. Afterwards the flow is on record with the time of the packet, or, where no expiry
  -- is set, with the time on record or none; and what is on record for every other flow stays, also
  -- where it shares the bucket or the hash.
  pub hash_put_data_lem :
      ((hash_put_data fht key flow tv expiry).0 ≡ verdict expiry tv (seen fht key flow))
      × (seen (hash_put_data fht key flow tv expiry).1 key flow
          ≡ some (remembered expiry tv (seen fht key flow)))
      × ((other : ℕ) (flow' : List ℕ)
          → ¬ ((other ≡ key) × (flow' ≡ flow))
          → seen (hash_put_data fht key flow tv expiry).1 other flow' ≡ seen fht other flow')
  unfolding hash_put_data
  hash_put_data_lem =
      let found = find key flow (fht.buckets (bucket_of fht key)) in
      let self = put_found_lem found refl in
      (self.0, self.1, λ other flow' ne. other_found other flow' found ne)
