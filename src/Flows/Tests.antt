-- ===== src/Flows/Tests.antt =====
-- A flow that comes back after 5 and after 40 seconds, with an expiry of 30.
use tcpreplay.Prelude.{ℕ, ◌≡◌, refl, List, [], ◌∷◌, some, pos, ◌+ℤ◌}
use tcpreplay.Timer.{Timeval}
use tcpreplay.Flows.{
  FlowTable, flow_new, flow_existing, flow_expired, hash_put_data, find, hash_add_entry, same_data,
}
use tcpreplay.Flows.Refine.{seen, verdict, remembered, hash_put_data_lem}

abbrev at : ℕ → Timeval
at s = record { tv_sec = pos s; tv_usec = pos 0 }

abbrev empty : FlowTable
empty = record { num_buckets = 8; buckets = λ i. [] }

abbrev flow : List ℕ
flow = 10 ∷ 0 ∷ 0 ∷ 1 ∷ []

abbrev once : FlowTable
once = (hash_put_data empty 13 flow (at 100) 30).1

answers :
    ((hash_put_data empty 13 flow (at 100) 30).0 ≡ flow_new)
    × ((hash_put_data once 13 flow (at 105) 30).0 ≡ flow_existing)
    × ((hash_put_data once 13 flow (at 140) 30).0 ≡ flow_expired)
unfolding hash_put_data find hash_add_entry same_data ◌+ℤ◌
answers = (refl, refl, refl)

hash_put_data_lem_example :
    ((hash_put_data once 13 flow (at 140) 30).0 ≡ verdict 30 (at 140) (seen once 13 flow))
    × (seen (hash_put_data once 13 flow (at 140) 30).1 13 flow
        ≡ some (remembered 30 (at 140) (seen once 13 flow)))
    × ((other : ℕ) (flow' : List ℕ)
        → ¬ ((other ≡ 13) × (flow' ≡ flow))
        → seen (hash_put_data once 13 flow (at 140) 30).1 other flow' ≡ seen once other flow')
hash_put_data_lem_example = hash_put_data_lem once 13 flow (at 140) 30
