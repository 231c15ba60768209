-- ===== src/Flows.antt =====
-- The table of flows of src/common/flows.c: `hash_put_data` and `hash_add_entry`.
pub mod Chains
pub mod Refine
mod Tests
use tcpreplay.Prelude.{
  ℕ, ◌+◌, ◌-◌, Bool, true, false, List, [], ◌∷◌, Option, none, some, ◌==◌, ◌&&◌, if◌then◌else◌,
  bit_and, pos, ◌+ℤ◌, ltb_ℤ,
}
use tcpreplay.Timer.{Timeval}

-- `memcmp` of two blocks of the same size, as a test for equality.
unfoldable pub same_data : List ℕ → List ℕ → Bool
same_data [] [] = true
same_data [] (d ∷ ds) = false
same_data (c ∷ cs) [] = false
same_data (c ∷ cs) (d ∷ ds) = c == d && same_data cs ds

-- `flow_hash_entry_t` less its `next`; `flow_entry_data_t` as its bytes.
pub record FlowEntry : Type 0 where
  pub key : ℕ
  pub data_bytes : List ℕ
  pub ts_last_seen : Timeval

-- The heads of the chains, by bucket.
pub record FlowTable : Type 0 where
  pub num_buckets : ℕ
  pub buckets : ℕ → List FlowEntry

pub data FlowType : Type 0 where
  flow_new flow_existing flow_expired : FlowType

abbrev pub is_flow : ℕ → List ℕ → FlowEntry → Bool
is_flow key hash_entry he = he.key == key && same_data he.data_bytes hash_entry

-- The loop over a chain, up to the entry of the flow.
unfoldable pub find : ℕ → List ℕ → List FlowEntry → Option FlowEntry
find key hash_entry [] = none
find key hash_entry (he ∷ hes) =
    let rest = find key hash_entry hes in if is_flow key hash_entry he then some he else rest

-- `TIMEVAL_SET(&he->ts_last_seen, tv)` on the entry that the loop stopped at.
unfoldable pub touch : ℕ → List ℕ → Timeval → List FlowEntry → List FlowEntry
touch key hash_entry tv [] = []
touch key hash_entry tv (he ∷ hes) =
    let rest = touch key hash_entry tv hes in
    if is_flow key hash_entry he then record he { ts_last_seen = tv } ∷ hes else he ∷ rest

-- `key & (fht->num_buckets - 1)`
abbrev pub bucket_of : FlowTable → ℕ → ℕ
bucket_of fht key = bit_and key (fht.num_buckets - 1)

abbrev pub put_bucket : FlowTable → ℕ → List FlowEntry → FlowTable
put_bucket fht hv chain = record fht { buckets = λ i. if i == hv then chain else fht.buckets i }

-- `safe_malloc` clears the memory.
abbrev pub never : Timeval
never = record { tv_sec = pos 0; tv_usec = pos 0 }

-- The new entry in front of its chain.
unfoldable pub hash_add_entry : FlowTable → ℕ → ℕ → List ℕ → Timeval → FlowTable
hash_add_entry fht hv key hash_entry ts =
    put_bucket fht hv
      (record { key = key; data_bytes = hash_entry; ts_last_seen = ts } ∷ fht.buckets hv)

abbrev pub put_found :
    FlowTable → ℕ → List ℕ → Timeval → ℕ → Option FlowEntry → FlowType × FlowTable
put_found fht key hash_entry tv expiry (some he) =
    let hv = bucket_of fht key in
    if expiry == 0 then (flow_existing, fht) else (
      (if ltb_ℤ (pos expiry +ℤ he.ts_last_seen.tv_sec) tv.tv_sec
          then flow_expired
          else flow_existing),
      put_bucket fht hv (touch key hash_entry tv (fht.buckets hv)),
    )
put_found fht key hash_entry tv expiry none = (
  flow_new,
  hash_add_entry fht (bucket_of fht key) key hash_entry (if expiry == 0 then never else tv),
)

unfoldable pub hash_put_data : FlowTable → ℕ → List ℕ → Timeval → ℕ → FlowType × FlowTable
hash_put_data fht key hash_entry tv expiry =
    put_found fht key hash_entry tv expiry (find key hash_entry (fht.buckets (bucket_of fht key)))
